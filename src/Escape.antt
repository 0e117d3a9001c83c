-- ===== src/Escape.antt =====
-- Escaping a string for SQL (src/lua-util.c): `cosocket_lua_f_escape`.
pub mod Reverse
mod Examples
use alilua_coevent_module.Prelude.{
  ℕ, Bool, true, false, Option, none, some, List, [], ◌∷◌, ◌++◌, Bytes, length, if◌then◌else◌, ◌==◌,
  ◌||◌, leb,
}

abbrev pub backslash : ℕ
backslash = 92

-- The bytes that the `switch` writes for a byte of the source.
unfoldable pub hide : ℕ → Bytes
hide c =
    if c == b'\r'
    then backslash ∷ b'r' ∷ []
    else if c == b'\n'
    then backslash ∷ b'n' ∷ []
    else if c == backslash || c == 39 || c == 34
    then backslash ∷ c ∷ []
    else if c == 8
    then backslash ∷ b'b' ∷ []
    else if c == 9
    then backslash ∷ b't' ∷ []
    else if c == 0
    then backslash ∷ b'0' ∷ []
    else if c == 26
    then backslash ∷ b'Z' ∷ []
    else c ∷ []

-- `lua_pushlstring(L, dst, j)`, and `lua_concat(L, 2)` if a string was pushed before.
unfoldable pub push_part : Option Bytes → Bytes → Bytes
push_part none dst = dst
push_part (some s) dst = s ++ dst

-- The loop. `pushed` is the string pushed so far, `none` while `has` is 0, and `dst` holds the `j`
-- bytes written.
unfoldable pub escape_loop : Bytes → Option Bytes → Bytes → Bytes
unfolding hide push_part
escape_loop [] pushed dst = push_part pushed dst
escape_loop (c ∷ cs) pushed dst =
    let full = leb 4 (length dst) in
    let pushed' = if full then some (push_part pushed dst) else pushed in
    let dst' = if full then [] else dst in escape_loop cs pushed' (dst' ++ hide c)

-- `cosocket_lua_f_escape`; nil, which is `none`, counts as an empty string.
unfoldable pub cosocket_lua_f_escape : Option Bytes → Bytes
unfolding escape_loop
cosocket_lua_f_escape none = escape_loop [] none []
cosocket_lua_f_escape (some s) = escape_loop s none []
