-- ===== src/ReadBuf/Scan.antt =====
-- The line search of `lua_co_read_` against the first line feed of the whole text.
use alilua_coevent_module.Prelude.{
  ℕ, suc, ◌+◌, ◌-◌, ◌≤◌, ◌≡◌, refl, List, [], ◌∷◌, ◌++◌, Option, none, some, arith, Bytes, length,
  concat, ◌==◌, if◌then◌else◌,
}
use alilua_coevent_module.ReadBuf.{scan_chunk, scan_line}

-- The length of the first line, its line feed included.
unfoldable pub line_length : Bytes → Option ℕ
line_length [] = none
line_length (c ∷ s) =
    if c == b'\n' then some 1 else elim (line_length s) [ none ↦ none | some n ↦ some (suc n) ]

abbrev pub shift : ℕ → Option ℕ → Option ℕ
shift k none = none
shift k (some n) = some (k + n)

shift-shift : (j k : ℕ) (o : Option ℕ) → shift j (shift k o) ≡ shift (j + k) o
shift-shift j k none = refl
shift-shift j k (some n) = ground arith

-- A chunk with a line feed decides the search, and one without is skipped.
scan_chunk-line_length :
    (b rest : Bytes)
    → line_length (b ++ rest) ≡ (
        if (scan_chunk b).1
        then some (suc (scan_chunk b).0)
        else shift (scan_chunk b).0 (line_length rest))
unfolding scan_chunk line_length
scan_chunk-line_length [] rest = ground (arith, zero_shift (line_length rest))
  where
    zero_shift : (o : Option ℕ) → shift 0 o ≡ o
    zero_shift none = refl
    zero_shift (some n) = ground arith
scan_chunk-line_length (c ∷ b) rest = ground (arith, scan_chunk-line_length b rest)

-- The search over the chain finds the first line of the text that the chain holds.
pub scan_line-line_length :
    (bs : List Bytes) (oi : ℕ) → scan_line bs oi ≡ shift oi (line_length (concat bs))
unfolding scan_line
scan_line-line_length [] oi = unfold line_length in refl
scan_line-line_length (b ∷ bs) oi = ground (
  arith,
  scan_chunk-line_length b (concat bs),
  scan_line-line_length bs (oi + (scan_chunk b).0),
  shift-shift oi (scan_chunk b).0 (line_length (concat bs)),
)

-- A line ends within the text and is not empty.
pub line_length_bounds : (s : Bytes) (n : ℕ) → line_length s ≡ some n → (1 ≤ n) × (n ≤ length s)
unfolding line_length
line_length_bounds [] n e = ground arith
line_length_bounds (c ∷ s) n e = ground (arith, line_length_bounds s (n - 1))
