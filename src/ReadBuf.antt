-- ===== src/ReadBuf.antt =====
-- The receive buffer of a cosocket (src/coevent.c, src/coevent.h): a chain of chunks of at most 4096
-- bytes, filled by `cosocket_be_read` and emptied by `lua_co_read_`.
pub mod Scan
pub mod Copy
pub mod Refine
pub mod Fill
mod Examples
use alilua_coevent_module.Prelude.{
  ℕ, suc, ◌+◌, ◌-◌, ◌^◌, ◌≤◌, ◌<◌, ◌≡◌, Bool, true, false, ◌&&◌, List, [], ◌∷◌, ◌++◌, Option, none,
  some, Bytes, length, take, drop, get_elem?, concat, All, leb, ltb, ◌==◌, if◌then◌else◌,
}

-- `size_t` is 64 bits wide; -1 and -2 are the two largest values.
abbrev pub read_line : ℕ
read_line = 2 ^ 64 - 1

abbrev pub read_all : ℕ
read_all = 2 ^ 64 - 2

abbrev pub buf_size : ℕ
buf_size = 4096

-- `read_buf`, `total_buf_len` and `buf_read_len`. A chunk is `buf[0 .. buf_len)`, and `last_buf` is
-- the last chunk of the chain.
pub record ReadBuf : Type 0 where
  pub chunks : List Bytes
  pub total_buf_len : ℕ
  pub buf_read_len : ℕ

-- What `lua_co_read_` returns: 0 with nothing pushed; 2 with nil and "Not connected!"; 1 with a
-- string. `fault` is a string length that has wrapped below zero.
pub data Reply : Type 0 where
  nothing : Reply
  not_connected : Reply
  line : Bytes → Reply
  fault : Reply

-- The inner loop of the line search: the index where it stops, and `has`.
unfoldable pub scan_chunk : Bytes → ℕ × Bool
scan_chunk [] = (0, false)
scan_chunk (c ∷ s) = let (i, has) = scan_chunk s in if c == b'\n' then (0, true) else (suc i, has)

-- The outer loop: `be_copy`, the length of the first line with its line feed.
unfoldable pub scan_line : List Bytes → ℕ → Option ℕ
unfolding scan_chunk
scan_line [] oi = none
scan_line (b ∷ bs) oi =
    let (i, has) = scan_chunk b in
    let rest = scan_line bs (oi + i) in if has then some (i + oi + 1) else rest

-- The copy loop, from `copy_ed` bytes on: the bytes copied, their number, and the chunks left if
-- `be_copy` bytes were there. A chunk is dropped only when the loop goes past it.
pub data Copied : Type 0 where
  full : Bytes → ℕ → List Bytes → Copied
  drained : Copied

unfoldable pub copy_out : ℕ → List Bytes → ℕ → Bytes → Copied
copy_out be_copy [] copy_ed out = drained
copy_out be_copy (b ∷ bs) copy_ed out =
    let n = if ltb be_copy (length b + copy_ed) then be_copy - copy_ed else length b in
    let rest = copy_out be_copy bs (copy_ed + n) (out ++ take n b) in
    if leb be_copy (copy_ed + n) then full (out ++ take n b) (copy_ed + n) (drop n b ∷ bs) else rest

-- `buf2lua[n - 1] == c`; at `n` = 0 this reads `below`, the byte in front of the allocation.
unfoldable pub ends_with : ℕ → Bytes → ℕ → ℕ → Bool
ends_with below out n c =
    if n == 0 then below == c else elim (get_elem? out (n - 1)) [ none ↦ false | some x ↦ x == c ]

-- "read line , cut the \r \n": the new `be_copy`, or `none` if it wraps below zero.
unfoldable pub cut_line_end : ℕ → Bytes → ℕ → Option ℕ
unfolding ends_with
cut_line_end below out be_copy =
    let n = if ends_with below out be_copy b'\n' then be_copy - 1 else be_copy in
    if ends_with below out n b'\r' then (if n == 0 then none else some (n - 1)) else some n

-- `lua_pushlstring(cok->L, buf2lua, be_copy)`
unfoldable pub push_copied : Bytes → Option ℕ → Reply
push_copied out none = fault
push_copied out (some n) = line (take n out)

-- The number of bytes that the call wants, before the test that they are there.
unfoldable pub be_copy_of : ℕ → ReadBuf → Option ℕ
unfolding scan_line
be_copy_of status r =
    let wanted =
      if r.buf_read_len == read_line
      then scan_line r.chunks 0
      else some (if r.buf_read_len == read_all then r.total_buf_len else r.buf_read_len) in
    elim wanted [
      | none ↦ none
      | some n ↦ some (if status == 0 && ltb r.total_buf_len n then r.total_buf_len else n)
    ]

unfoldable pub finish_copy : ℕ → ℕ → ReadBuf → Copied → Reply × ReadBuf
unfolding cut_line_end push_copied
finish_copy below be_copy r drained = (nothing, record r { chunks = [] })
finish_copy below be_copy r (full out copy_ed rest) =
    let n = if r.buf_read_len == read_line then cut_line_end below out be_copy else some be_copy in
    (push_copied out n, record r { chunks = rest; total_buf_len = r.total_buf_len - copy_ed })

unfoldable pub copy_if_ready : ℕ → ReadBuf → Option ℕ → Reply × ReadBuf
unfolding finish_copy copy_out
copy_if_ready below r none = (nothing, r)
copy_if_ready below r (some n) =
    if ltb 0 n && leb n r.total_buf_len
    then finish_copy below n r (copy_out n r.chunks 0 [])
    else (nothing, r)

-- `lua_co_read_`. `status` is `cok->status`, `below` the byte in front of `buf2lua`.
unfoldable pub lua_co_read_ : ℕ → ℕ → ReadBuf → Reply × ReadBuf
unfolding be_copy_of copy_if_ready
lua_co_read_ below status r =
    if ltb r.total_buf_len 1
    then (if status == 0 then (not_connected, r) else (nothing, r))
    else copy_if_ready below r (be_copy_of status r)

-- The chain is well formed: the total is right, and each chunk fits its allocation.
pub record IsValid (r : ReadBuf) : Type 0 where
  pub counted : r.total_buf_len ≡ length (concat r.chunks)
  pub fits : All (λ b. length b ≤ buf_size) r.chunks
