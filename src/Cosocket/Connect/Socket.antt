-- ===== src/Cosocket/Connect/Socket.antt =====
-- Where the socket of a new connection (src/coevent.c) is, however setting it up ends.
use alilua_coevent_module.Prelude.{
  by_test, ℕ, ◌+◌, ◌≡◌, refl, ap, ◌∙◌, inl, inr, ◌⊎◌, true, false, [], ◌∷◌, Option, none, some,
  arith, Bool-cases, if◌then◌else◌, ◌==◌,
}
use alilua_coevent_module.Pool.{Event}
use alilua_coevent_module.Cosocket.{
  World, boolean, hang_up, hang_up_uncounted, uncount, close_fd, free_ssl, free_ctx, with_cok,
}
use alilua_coevent_module.Cosocket.Close.Balance.{accounted, held, closes, accounted-hang_up}
use alilua_coevent_module.Cosocket.Connect.{
  Setup, Tried, pushed, drop_ctx, drop_ssl, try_ssl, try_ctx, _be_connect,
}

-- The sockets closed, in the pool, or held by the cosocket, counted for one socket.
abbrev pub balance : ℕ → World → ℕ
balance x w = held x w.cok.fd + accounted x w

-- The cosocket has its socket and status 2, or neither.
abbrev pub IsSettled : ℕ → World → Type 0
IsSettled fd w =
    ((w.cok.fd ≡ some fd) × (w.cok.status ≡ 2)) ⊎ ((w.cok.fd ≡ none) × (w.cok.status ≡ 0))

-- What a step keeps.
abbrev Same : ℕ → World → World → Type 0
Same x w w' =
    (accounted x w' ≡ accounted x w) × (w'.cok.fd ≡ w.cok.fd) × (w'.cok.status ≡ w.cok.status)

drop_ctx-Same : (x : ℕ) (w : World) → Same x w (drop_ctx w)
unfolding drop_ctx free_ctx closes
drop_ctx-Same x w = ground arith

drop_ssl-Same : (x : ℕ) (w : World) → Same x w (drop_ssl w)
unfolding drop_ssl free_ssl closes
drop_ssl-Same x w = ground arith

pub hang_up_settled : (w : World) → ((hang_up w).cok.fd ≡ none) × ((hang_up w).cok.status ≡ 0)
unfolding hang_up uncount close_fd
hang_up_settled w = ground arith

pub hang_up_uncounted_settled :
    (x : ℕ) (w : World)
    → (accounted x (hang_up_uncounted w) ≡ balance x w)
      × ((hang_up_uncounted w).cok.fd ≡ none)
      × ((hang_up_uncounted w).cok.status ≡ 0)
unfolding hang_up_uncounted close_fd closes
hang_up_uncounted_settled x w = ground arith

-- No socket is lost or doubled between two states, and the second is settled.
abbrev pub IsPlaced : ℕ → ℕ → World → World → Type 0
IsPlaced x fd w w' = (balance x w' ≡ balance x w) × IsSettled fd w'

try_ssl-IsPlaced :
    (x fd : ℕ) (net : Setup) (made : Option ℕ) (w : World)
    → w.cok.fd ≡ some fd
    → w.cok.status ≡ 2
    → IsPlaced x fd w (try_ssl net made w).1
unfolding try_ssl
try_ssl-IsPlaced x fd net none w e s =
    let (same, same_fd, same_status) = drop_ctx-Same x (hang_up w) in
    let (no_fd, no_status) = hang_up_settled w in
    (
      omega (arith, same, accounted-hang_up x w, ap (held x) (same_fd ∙ no_fd)),
      inr (same_fd ∙ no_fd, same_status ∙ no_status),
    )
try_ssl-IsPlaced x fd net (some p) w e s =
    let w1 = with_cok w (record (w.cok) { ssl = some p }) in
    let lost = hang_up_uncounted w1 in
    let (kept, no_fd, no_status) = hang_up_uncounted_settled x w1 in
    let (same, same_fd, same_status) = drop_ssl-Same x lost in
    let (same', same_fd', same_status') = drop_ctx-Same x (drop_ssl lost) in
    let gone = same_fd' ∙ same_fd ∙ no_fd in
    elim (Bool-cases net.watched) [
      | inl b ↦ elim (Bool-cases net.ssl_connected) [
        | inl c ↦ rw (b, c) (refl, inl (e, s))
        | inr c ↦ rw (b, c) (refl, inl (e, s))
      ]
      | inr b ↦ rw b (
        omega (arith, same', same, kept, ap (held x) gone),
        inr (gone, same_status' ∙ same_status ∙ no_status),
      )
    ]

try_ctx-IsPlaced :
    (x fd : ℕ) (net : Setup) (old made : Option ℕ) (w : World)
    → w.cok.fd ≡ some fd
    → w.cok.status ≡ 2
    → IsPlaced x fd w (try_ctx net old made w).1
unfolding try_ctx
try_ctx-IsPlaced x fd net (some c) made w e s = try_ssl-IsPlaced x fd net net.ssl_new w e s
try_ctx-IsPlaced x fd net none none w e s =
    let (no_fd, no_status) = hang_up_settled w in
    (omega (arith, accounted-hang_up x w, ap (held x) no_fd), inr (no_fd, no_status))
try_ctx-IsPlaced x fd net none (some c) w e s =
    try_ssl-IsPlaced x fd net net.ssl_new (with_cok w (record (w.cok) { ctx = some c })) e s

-- Whichever call of OpenSSL or of the event loop fails, the new socket is in the cosocket or accounted
-- for once more.
pub _be_connect-IsPlaced :
    (x fd : ℕ) (net : Setup) (w : World)
    → let r = (_be_connect net fd w).1 in
      (balance x r ≡ (if fd == x then 1 else 0) + accounted x w) × IsSettled fd r
unfolding _be_connect
_be_connect-IsPlaced x fd net w =
    let event : Event = record { id = net.event; fd = fd } in
    let w1 =
      with_cok w
        (record (w.cok) { fd = some fd; ptr = some event; status = 2; in_read_action = false }) in
    by_test
      (λ (r : Tried × World).
        (balance x r.1 ≡ (if fd == x then 1 else 0) + accounted x w) × IsSettled fd r.1)
      w.cok.use_ssl (try_ctx net w.cok.ctx net.ctx_new w1)
      (pushed (boolean true ∷ []), with_cok w1 (record (w1.cok) { inuse = false }))
      (try_ctx-IsPlaced x fd net w.cok.ctx net.ctx_new w1 refl refl) (refl, inl (refl, refl))
