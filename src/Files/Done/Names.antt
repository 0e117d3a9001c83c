-- ===== src/Files/Done/Names.antt =====
-- The names of a directory (src/lua-eio.c), read out of the buffer.
use alilua_coevent_module.Prelude.{
  c_string, ℕ, pos, ◌+◌, ◌≡◌, ◌≢◌, refl, ap, List, [], ◌∷◌, ◌++◌, map, concat, length, drop, All,
  drop-append_right, append_assoc, Bytes, arith,
}
use alilua_coevent_module.Files.{names}
use alilua_coevent_module.Files.Done.{Reply, woken, read_names, eio_readdir_cb}

-- A name holds no NUL.
abbrev pub IsName : Bytes → Type 0
IsName s = All (λ (b : ℕ). b ≢ 0) s

-- A name as it stands in the buffer.
abbrev pub ended : Bytes → Bytes
ended s = s ++ (0 ∷ [])

pub c_string-ended : (s rest : Bytes) → IsName s → c_string (s ++ (0 ∷ rest)) ≡ s
unfolding c_string
c_string-ended [] rest h = refl
c_string-ended (b ∷ s) rest h = ground (arith, h.0, c_string-ended s rest h.1)

drop-ended : (s rest : Bytes) → drop (length s + 1) (s ++ (0 ∷ rest)) ≡ rest
drop-ended s rest = drop-append_right s (0 ∷ rest) 1

read_names-concat :
    (fs : List Bytes) (rest : Bytes)
    → All IsName fs
    → read_names (length fs) (concat (map ended fs) ++ rest) ≡ fs
unfolding read_names
read_names-concat [] rest h = refl
read_names-concat (f ∷ fs) rest h =
    let tail = concat (map ended fs) ++ rest in
    let split : (ended f ++ concat (map ended fs)) ++ rest ≡ f ++ (0 ∷ tail) = simp append_assoc in
    rw (split, c_string-ended f tail h.0, drop-ended f tail)
      (ap (◌∷◌ f) (read_names-concat fs rest h.1))

-- The names that the system lists, each with a NUL behind it and none in it, are given to the
-- coroutine, all of them and in order, whatever the buffer holds behind them.
pub eio_readdir_cb-listed :
    (l : ℕ) (e : Reply) (fs : List Bytes) (rest : Bytes)
    → e.result ≡ pos (length fs)
    → e.buf ≡ concat (map ended fs) ++ rest
    → All IsName fs
    → eio_readdir_cb l e ≡ woken l (names fs ∷ [])
unfolding eio_readdir_cb
eio_readdir_cb-listed l e fs rest hr hb h = ground (arith, hr, hb, read_names-concat fs rest h)
