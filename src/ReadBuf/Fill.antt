-- ===== src/ReadBuf/Fill.antt =====
-- The receive loop of `cosocket_be_read` (src/coevent.c): what the socket hands over goes to the end
-- of the chain. The results of `recv` or `SSL_read` are a list, in order.
use alilua_coevent_module.Prelude.{
  ℕ, ◌+◌, ◌-◌, ◌≤◌, ◌<◌, ◌≡◌, refl, sym, ap, ◌∙◌, inl, inr, Bool-cases, List, [], ◌∷◌, ◌++◌, arith,
  Bytes, length, concat, All, All-append, length-append, concat-append, append_assoc, append-nil,
  leb, if◌then◌else◌,
}
use alilua_coevent_module.ReadBuf.{ReadBuf, IsValid, buf_size}
use alilua_coevent_module.ReadBuf.Refine.{text}

-- One call of `recv`: bytes, of which there is a first, the end of the stream, an error, or EAGAIN.
pub data Recv : Type 0 where
  got : ℕ → Bytes → Recv
  closed failed again : Recv

-- `last_buf->buf_len`, for a chain that is not empty.
unfoldable pub last_len : List Bytes → ℕ
last_len [] = buf_size
last_len (b ∷ []) = length b
last_len (b ∷ c ∷ bs) = last_len (c ∷ bs)

-- The code at `init_read_buf`: a new chunk if there is none, or the last one is full.
unfoldable pub init_read_buf : List Bytes → List Bytes
unfolding last_len
init_read_buf bs = if leb buf_size (last_len bs) then bs ++ [] ∷ [] else bs

-- The bytes that `recv` is offered.
unfoldable pub room : List Bytes → ℕ
unfolding init_read_buf
room bs = buf_size - last_len (init_read_buf bs)

-- `recv` writes behind the bytes of the last chunk.
unfoldable pub append_last : List Bytes → Bytes → List Bytes
append_last [] s = s ∷ []
append_last (b ∷ []) s = (b ++ s) ∷ []
append_last (b ∷ c ∷ bs) s = b ∷ append_last (c ∷ bs) s

-- One round that received bytes.
unfoldable pub receive : Bytes → ReadBuf → ReadBuf
unfolding init_read_buf append_last
receive s r = record r {
  chunks = append_last (init_read_buf r.chunks) s;
  total_buf_len = r.total_buf_len + length s;
}

-- The loop, and the result of `recv` that ended it. A list that ends stands for EAGAIN.
unfoldable pub fill : List Recv → ReadBuf → ReadBuf × Recv
unfolding receive
fill (got b s ∷ es) r = fill es (receive (b ∷ s) r)
fill [] r = (record r { chunks = init_read_buf r.chunks }, again)
fill (closed ∷ es) r = (record r { chunks = init_read_buf r.chunks }, closed)
fill (failed ∷ es) r = (record r { chunks = init_read_buf r.chunks }, failed)
fill (again ∷ es) r = (record r { chunks = init_read_buf r.chunks }, again)

-- `recv` returns no more bytes than it is offered.
abbrev pub Obeys : List Recv → ReadBuf → Type 0
Obeys (got b s ∷ es) r = (length (b ∷ s) ≤ room r.chunks) × Obeys es (receive (b ∷ s) r)
Obeys [] r = Unit
Obeys (closed ∷ es) r = Unit
Obeys (failed ∷ es) r = Unit
Obeys (again ∷ es) r = Unit

-- The bytes that the loop receives.
abbrev pub received : List Recv → Bytes
received (got b s ∷ es) = (b ∷ s) ++ received es
received [] = []
received (closed ∷ es) = []
received (failed ∷ es) = []
received (again ∷ es) = []

concat-append_last : (bs : List Bytes) (s : Bytes) → concat (append_last bs s) ≡ concat bs ++ s
unfolding append_last
concat-append_last [] s = append-nil s
concat-append_last (b ∷ []) s = simp (append-nil)
concat-append_last (b ∷ c ∷ bs) s = simp (concat-append_last (c ∷ bs) s, append_assoc)

concat-init_read_buf : (bs : List Bytes) → concat (init_read_buf bs) ≡ concat bs
unfolding init_read_buf
concat-init_read_buf bs = ground (arith, concat-append bs ([] ∷ []), append-nil (concat bs))

-- The last chunk has room for what `recv` may return, and the others are not touched.
append_last-fits :
    (bs : List Bytes) (s : Bytes)
    → length s + last_len bs ≤ buf_size
    → All (λ b. length b ≤ buf_size) bs
    → All (λ b. length b ≤ buf_size) (append_last bs s)
unfolding append_last last_len
append_last-fits [] s h a = (omega arith, tt)
append_last-fits (b ∷ []) s h a = (omega (arith, length-append b s), tt)
append_last-fits (b ∷ c ∷ bs) s h a = (a.0, append_last-fits (c ∷ bs) s h a.1)

init_read_buf-fits :
    (bs : List Bytes)
    → All (λ b. length b ≤ buf_size) bs
    → All (λ b. length b ≤ buf_size) (init_read_buf bs)
unfolding init_read_buf
init_read_buf-fits bs a = elim (Bool-cases (leb buf_size (last_len bs))) [
  | inl e ↦ rw e (All-append (λ b. length b ≤ buf_size) bs ([] ∷ []) a (omega arith, tt))
  | inr e ↦ rw e a
]

last_len-append : (bs : List Bytes) → last_len (bs ++ [] ∷ []) ≡ 0
unfolding last_len
last_len-append [] = refl
last_len-append (b ∷ []) = refl
last_len-append (b ∷ c ∷ bs) = last_len-append (c ∷ bs)

-- After `init_read_buf` the last chunk is never full, so `recv` is never offered 0 bytes.
pub room_pos : (bs : List Bytes) → 0 < room bs
unfolding room init_read_buf
room_pos bs = ground (arith, last_len-append bs)

receive-IsValid :
    (s : Bytes) (r : ReadBuf) → length s ≤ room r.chunks → IsValid r → IsValid (receive s r)
unfolding receive room
receive-IsValid s r h v =
    let bs = init_read_buf r.chunks in
    record {
      counted = omega (
        arith,
        v.counted,
        ap length (concat-append_last bs s),
        length-append (concat bs) s,
        ap length (concat-init_read_buf r.chunks),
      );
      fits =
          append_last-fits bs s (omega (arith, room_pos r.chunks))
            (init_read_buf-fits r.chunks v.fits);
    }

text-receive : (s : Bytes) (r : ReadBuf) → text (receive s r) ≡ text r ++ s
unfolding receive
text-receive s r =
    concat-append_last (init_read_buf r.chunks) s ∙ ap (λ t. t ++ s) (concat-init_read_buf r.chunks)

-- What the receive loop keeps and adds.
abbrev pub Filled : ReadBuf → Bytes → ReadBuf → Type 0
Filled r s r' = (text r' ≡ text r ++ s) × (r'.buf_read_len ≡ r.buf_read_len) × IsValid r'

fresh-Filled :
    (r : ReadBuf) → IsValid r → Filled r [] (record r { chunks = init_read_buf r.chunks })
fresh-Filled r v = (
  concat-init_read_buf r.chunks ∙ sym (append-nil (text r)),
  refl,
  record {
    counted = omega (arith, v.counted, ap length (concat-init_read_buf r.chunks));
    fits = init_read_buf-fits r.chunks v.fits;
  },
)

-- The receive loop appends the bytes of the socket to the text, in order and all of them, and keeps
-- the chain valid: no chunk grows past its allocation, provided that `recv` returns no more bytes
-- than it is offered.
pub fill-Filled :
    (es : List Recv) (r : ReadBuf) → IsValid r → Obeys es r → Filled r (received es) (fill es r).0
unfolding fill
fill-Filled [] r v o = fresh-Filled r v
fill-Filled (closed ∷ es) r v o = fresh-Filled r v
fill-Filled (failed ∷ es) r v o = fresh-Filled r v
fill-Filled (again ∷ es) r v o = fresh-Filled r v
fill-Filled (got b s ∷ es) r v o =
    let (added, same, valid) =
      fill-Filled es (receive (b ∷ s) r) (receive-IsValid (b ∷ s) r o.0 v) o.1 in
    (
      added
          ∙ ap (λ t. t ++ received es) (text-receive (b ∷ s) r)
          ∙ append_assoc (text r) (b ∷ s) (received es),
      same ∙ unfold receive in refl,
      valid,
    )
