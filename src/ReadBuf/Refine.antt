-- ===== src/ReadBuf/Refine.antt =====
-- `lua_co_read_` against a reader of the plain text that the chain holds.
use alilua_coevent_module.Prelude.{
  ℕ, zero, suc, ◌-◌, ◌≤◌, ◌<◌, ◌≡◌, refl, ap, ◌∙◌, ◌≢◌, ◌⊎◌, inl, inr, true, false, List, [], ◌∷◌,
  ◌++◌, Option, none, some, arith, Bytes, length, take, drop, concat, get_elem?, length-drop,
  length-take, take_all, take-append_left, min, leb, ltb, ◌==◌, if◌then◌else◌, Bool-cases,
}
use alilua_coevent_module.ReadBuf.{
  ReadBuf, nothing, line, fault, IsValid, full, read_line, read_all, be_copy_of, ends_with,
  cut_line_end, push_copied, finish_copy, copy_if_ready, copy_out, scan_line, lua_co_read_,
}
use alilua_coevent_module.ReadBuf.Scan.{
  line_length, shift, scan_line-line_length, line_length_bounds,
}
use alilua_coevent_module.ReadBuf.Copy.{copy_out-full}

abbrev pub text : ReadBuf → Bytes
text r = concat r.chunks

-- A line without the carriage return at its end.
abbrev pub drop_cr : Bytes → Bytes
drop_cr [] = []
drop_cr (c ∷ []) = if c == b'\r' then [] else c ∷ []
drop_cr (c ∷ d ∷ s) = c ∷ drop_cr (d ∷ s)

-- How many bytes a call takes from a text: a line, all, or a count; a closed socket
-- (`status` = 0) gives what is left.
abbrev pub wanted : ℕ → ℕ → Bytes → Option ℕ
wanted status mode s =
    if mode == read_line
    then line_length s
    else if mode == read_all
    then some (length s)
    else if status == 0
    then some (min mode (length s))
    else if leb mode (length s)
    then some mode
    else none

-- What Lua receives for the bytes taken: a line comes without its end.
abbrev pub delivered : ℕ → ℕ → Bytes → Bytes
delivered mode n s = if mode == read_line then drop_cr (take (n - 1) s) else take n s

get_elem?-last : (s : Bytes) (x : ℕ) → get_elem? (s ++ x ∷ []) (length s) ≡ some x
get_elem?-last [] x = refl
get_elem?-last (c ∷ s) x = get_elem?-last s x

-- With the line feed cut, the carriage return goes too, if there is one.
last-drop_cr :
    (c : ℕ) (s : Bytes)
    → drop_cr (c ∷ s) ≡ (
        if elim (get_elem? (c ∷ s) (length s)) [ none ↦ false | some x ↦ x == b'\r' ]
        then take (length s) (c ∷ s)
        else c ∷ s)
last-drop_cr c [] = ground arith
last-drop_cr c (d ∷ s) = ground (arith, last-drop_cr d s)

line_ends : (s : Bytes) (n : ℕ) → line_length s ≡ some n → take n s ≡ take (n - 1) s ++ b'\n' ∷ []
unfolding line_length
line_ends [] n e = ground arith
line_ends (c ∷ s) n e =
    ground (arith, line_ends s (n - 1), line_length_bounds s (n - 1), take_step (n - 1) c s)
  where
    take_step : (m : ℕ) (c : ℕ) (s : Bytes) → 0 < m → take m (c ∷ s) ≡ c ∷ take (m - 1) s
    take_step zero c s h = absurd (omega arith)
    take_step (suc m) c s h = ground arith

scan_text : (bs : List Bytes) → scan_line bs 0 ≡ line_length (concat bs)
scan_text bs = scan_line-line_length bs 0 ∙ zero_shift (line_length (concat bs))
  where
    zero_shift : (o : Option ℕ) → shift 0 o ≡ o
    zero_shift none = refl
    zero_shift (some n) = ground arith

get_elem?-append_left : (s t : Bytes) (i : ℕ) → i < length s → get_elem? (s ++ t) i ≡ get_elem? s i
get_elem?-append_left [] t i h = elim h [ ]
get_elem?-append_left (c ∷ s) t zero h = refl
get_elem?-append_left (c ∷ s) t (suc i) h = get_elem?-append_left s t i (omega arith)

ends_with-suc :
    (below k c : ℕ) (out : Bytes)
    → ends_with below out (suc k) c ≡ elim (get_elem? out k) [ none ↦ false | some x ↦ x == c ]
unfolding ends_with
ends_with-suc below k c out =
    let e : suc k - 1 ≡ k = omega arith in ground (arith, ap (get_elem? out) e)

-- Cutting the end of a line, where the byte below the buffer is no carriage return.
cut_line_end-drop_cr :
    (below : ℕ) (t : Bytes)
    → below ≢ b'\r'
    → push_copied (t ++ b'\n' ∷ []) (cut_line_end below (t ++ b'\n' ∷ []) (suc (length t)))
      ≡ line (drop_cr t)
unfolding push_copied cut_line_end
cut_line_end-drop_cr below [] h = ground arith
cut_line_end-drop_cr below (c ∷ s) h =
    let out = c ∷ (s ++ b'\n' ∷ []) in
    let line_feed : ends_with below out (suc (suc (length s))) b'\n' ≡ true =
      rw (ends_with-suc, get_elem?-last (c ∷ s) b'\n') refl in
    let pred : suc (suc (length s)) - 1 ≡ suc (length s) = omega arith in
    let pred_pred : suc (length s) - 1 ≡ length s = omega arith in
    rw
      (
        line_feed,
        cut_line_end,
        pred,
        pred_pred,
        get_elem?-append_left (c ∷ s) (b'\n' ∷ []) (length s) (omega arith),
      )
      (ground (
        arith,
        last-drop_cr c s,
        take-append_left (length s) (c ∷ s) (b'\n' ∷ []),
        take-append_left (suc (length s)) (c ∷ s) (b'\n' ∷ []),
        take_all (suc (length s)) (c ∷ s),
      ))

wanted-le : (status mode n : ℕ) (s : Bytes) → wanted status mode s ≡ some n → n ≤ length s
wanted-le status mode n s e = ground (arith, line_length_bounds s n)

be_copy_of-wanted :
    (status n : ℕ) (r : ReadBuf)
    → IsValid r
    → wanted status r.buf_read_len (text r) ≡ some n
    → be_copy_of status r ≡ some n
unfolding be_copy_of
be_copy_of-wanted status n r v e = ground (arith, scan_text r.chunks, line_length_bounds (text r) n)

be_copy_of-short :
    (below status : ℕ) (r : ReadBuf)
    → IsValid r
    → wanted status r.buf_read_len (text r) ≡ none
    → copy_if_ready below r (be_copy_of status r) ≡ (nothing, r)
unfolding be_copy_of copy_if_ready
be_copy_of-short below status r v e = ground (arith, scan_text r.chunks)

-- What is left of the chain, and what is not touched.
abbrev pub Taken : ℕ → ReadBuf → ReadBuf → Type 0
Taken n r r' = (text r' ≡ drop n (text r)) × (r'.buf_read_len ≡ r.buf_read_len) × IsValid r'

line_reply :
    (below n : ℕ) (s : Bytes)
    → below ≢ b'\r'
    → line_length s ≡ some n
    → push_copied (take n s) (cut_line_end below (take n s) n) ≡ line (drop_cr (take (n - 1) s))
line_reply below n s h e =
    let t = take (n - 1) s in
    let bounds = line_length_bounds s n e in
    let size : n ≡ suc (length t) = omega (arith, length-take (n - 1) s) in
    cc (cut_line_end-drop_cr below t h, line_ends s n e, size)

finish_copy-line :
    (below status n : ℕ) (r : ReadBuf) (rest : List Bytes)
    → below ≢ b'\r'
    → n ≤ length (text r)
    → wanted status r.buf_read_len (text r) ≡ some n
    → (finish_copy below n r (full (take n (text r)) n rest)).0
      ≡ line (delivered r.buf_read_len n (text r))
unfolding finish_copy push_copied
finish_copy-line below status n r rest h le e = elim (Bool-cases (r.buf_read_len == read_line)) [
  | inl is_line ↦ rw (is_line, finish_copy) (line_reply below n (text r) h (rw is_line at e))
  | inr no_line ↦ ground (arith, take_all n (take n (text r)), length-take n (text r))
]

-- The parts of the chain after a copy of `n` bytes.
copied_buffer :
    (below n : ℕ) (r : ReadBuf)
    → IsValid r
    → 0 < n
    → n ≤ length (text r)
    → (rest : List Bytes) × (copy_out n r.chunks 0 [] ≡ full (take n (text r)) n rest)
      × Taken n r (record r { chunks = rest; total_buf_len = r.total_buf_len - n })
copied_buffer below n r v pos le =
    let (rest, copied, left, small) = copy_out-full n r.chunks 0 [] pos le v.fits in
    (
      rest,
      ground (arith, copied),
      (
        left,
        refl,
        record {
          counted = omega (arith, v.counted, ap length left, length-drop n (text r));
          fits = small;
        },
      ),
    )

lua_co_read_-finish_copy :
    (below status n : ℕ) (r : ReadBuf) (rest : List Bytes)
    → IsValid r
    → 0 < n
    → wanted status r.buf_read_len (text r) ≡ some n
    → copy_out n r.chunks 0 [] ≡ full (take n (text r)) n rest
    → lua_co_read_ below status r ≡ finish_copy below n r (full (take n (text r)) n rest)
unfolding lua_co_read_ copy_if_ready
lua_co_read_-finish_copy below status n r rest v pos e copied =
    let le = wanted-le status r.buf_read_len n (text r) e in
    let some_left : ltb r.total_buf_len 1 ≡ false = ground (arith, v.counted) in
    let wants : ltb 0 n ≡ true = ground arith in
    let has : leb n r.total_buf_len ≡ true = ground (arith, v.counted) in
    rw (be_copy_of-wanted status n r v e, copied, some_left, wants, has) refl

-- On a valid chain `lua_co_read_` delivers exactly the bytes that the plain reader takes from the
-- front of the text (a line without its end), keeps the rest in order, and leaves the chain valid,
-- whenever the plain reader takes a byte and the byte below the copy is no carriage return.
pub lua_co_read_-delivered :
    (below status n : ℕ) (r : ReadBuf)
    → IsValid r
    → below ≢ b'\r'
    → 0 < n
    → wanted status r.buf_read_len (text r) ≡ some n
    → ((lua_co_read_ below status r).0 ≡ line (delivered r.buf_read_len n (text r)))
      × Taken n r (lua_co_read_ below status r).1
lua_co_read_-delivered below status n r v h pos e =
    let le = wanted-le status r.buf_read_len n (text r) e in
    let (rest, copied, taken) = copied_buffer below n r v pos le in
    rw (lua_co_read_-finish_copy below status n r rest v pos e copied)
      (finish_copy-line below status n r rest h le e, unfold finish_copy in taken)

-- Where the plain reader takes no byte of a text that is not empty, the call returns 0 and changes
-- nothing, and the caller waits for more bytes.
pub lua_co_read_-waits :
    (below status : ℕ) (r : ReadBuf)
    → IsValid r
    → 0 < length (text r)
    → (wanted status r.buf_read_len (text r) ≡ none)
      ⊎ (wanted status r.buf_read_len (text r) ≡ some 0)
    → lua_co_read_ below status r ≡ (nothing, r)
unfolding lua_co_read_ copy_if_ready
lua_co_read_-waits below status r v pos (inl e) =
    let some_left : ltb r.total_buf_len 1 ≡ false = ground (arith, v.counted) in
    rw some_left (be_copy_of-short below status r v e)
lua_co_read_-waits below status r v pos (inr e) =
    let some_left : ltb r.total_buf_len 1 ≡ false = ground (arith, v.counted) in
    rw (some_left, be_copy_of-wanted status 0 r v e) refl

-- A text that begins with a line feed, read by lines: `lua_co_read_` also looks at the byte below
-- its copy, and the length of the line wraps if that byte is a carriage return.
pub lua_co_read_-underflow :
    (status : ℕ) (r : ReadBuf) (s : Bytes)
    → IsValid r
    → r.buf_read_len ≡ read_line
    → text r ≡ b'\n' ∷ s
    → (lua_co_read_ b'\r' status r).0 ≡ fault
lua_co_read_-underflow status r s v mode e =
    let one : wanted status r.buf_read_len (text r) ≡ some 1 =
      rw (mode, e) (unfold line_length in refl) in
    let (rest, copied, taken) =
      copied_buffer b'\r' 1 r v (omega arith) (wanted-le status r.buf_read_len 1 (text r) one) in
    rw (lua_co_read_-finish_copy b'\r' status 1 r rest v (omega arith) one copied)
      (unfold finish_copy cut_line_end push_copied in rw (mode, e) refl)
