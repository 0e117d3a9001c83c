-- ===== src/Escape/Reverse.antt =====
-- The escaped string (src/lua-util.c): what stands for each byte, and how it is read back.
use alilua_coevent_module.Prelude.{ℕ, List, [], ◌∷◌, ◌++◌, Bytes, if◌then◌else◌, ◌==◌}
use alilua_coevent_module.Escape.{backslash}

-- The byte that stands for `d` after a backslash.
abbrev pub reveal : ℕ → ℕ
reveal d =
    if d == b'r'
    then b'\r'
    else if d == b'n'
    then b'\n'
    else if d == b'b'
    then 8
    else if d == b't'
    then 9
    else if d == b'0'
    then 0
    else if d == b'Z'
    then 26
    else d

-- What a reader of the escaped string makes of it.
unfoldable pub unescape : Bytes → Bytes
unescape [] = []
unescape (c ∷ []) = if c == backslash then [] else c ∷ []
unescape (c ∷ d ∷ ds) =
    let rest = unescape ds in
    let after = unescape (d ∷ ds) in if c == backslash then reveal d ∷ rest else c ∷ after

-- The bytes that an SQL string must not hold as they are, by their codes, each with the byte that stands
-- for it behind a backslash: NUL, backspace, tab, line feed, carriage return, 26, the two quotes and
-- the backslash.
abbrev pub escapes : List (ℕ × ℕ)
escapes =
    (0, 48)
    ∷ (8, 98)
    ∷ (9, 116)
    ∷ (10, 110)
    ∷ (13, 114)
    ∷ (26, 90)
    ∷ (34, 34)
    ∷ (39, 39)
    ∷ (92, 92)
    ∷ []

abbrev pub escape_by : List (ℕ × ℕ) → ℕ → Bytes
escape_by [] c = c ∷ []
escape_by (e ∷ es) c = if c == e.0 then 92 ∷ e.1 ∷ [] else escape_by es c

-- The plain description: each byte of the table is replaced by a backslash and its letter, and every
-- other byte stays.
abbrev pub escaped : Bytes → Bytes
escaped [] = []
escaped (c ∷ cs) = escape_by escapes c ++ escaped cs
