-- ===== src/Cosocket/Connect/Settled.antt =====
-- What `_be_connect` (src/coevent.c) closes, and what stays as it was.
use alilua_coevent_module.Prelude.{
  by_test, ℕ, ◌+◌, ◌≡◌, refl, ap, ◌∙◌, inl, inr, ◌⊎◌, true, false, [], ◌∷◌, Option, none, some,
  arith, Bool-cases,
}
use alilua_coevent_module.Pool.{Event}
use alilua_coevent_module.Cosocket.{
  World, boolean, hang_up, hang_up_uncounted, free_ssl, free_ctx, with_cok,
}
use alilua_coevent_module.Cosocket.Close.Balance.{accounted, held, closes}
use alilua_coevent_module.Cosocket.Close.Timeout.{
  SamePool, hang_up-SamePool, hang_up_uncounted-SamePool, closes-SamePool,
}
use alilua_coevent_module.Cosocket.Connect.{
  Setup, Tried, pushed, drop_ctx, drop_ssl, try_ssl, try_ctx, _be_connect,
}
use alilua_coevent_module.Cosocket.Connect.Socket.{IsSettled, balance, _be_connect-IsPlaced}

drop_ctx-SamePool : (w : World) → SamePool w (drop_ctx w)
unfolding drop_ctx free_ctx
drop_ctx-SamePool w = ground arith

drop_ssl-SamePool : (w : World) → SamePool w (drop_ssl w)
unfolding drop_ssl free_ssl
drop_ssl-SamePool w = ground arith

try_ssl-SamePool : (net : Setup) (made : Option ℕ) (w : World) → SamePool w (try_ssl net made w).1
unfolding try_ssl
try_ssl-SamePool net none w =
    let lost = hang_up-SamePool w in
    let dropped = drop_ctx-SamePool (hang_up w) in (dropped.0 ∙ lost.0, dropped.1 ∙ lost.1)
try_ssl-SamePool net (some p) w =
    let w1 = with_cok w (record (w.cok) { ssl = some p }) in
    let w2 = hang_up_uncounted w1 in
    let lost = hang_up_uncounted-SamePool w1 in
    let no_ssl = drop_ssl-SamePool w2 in
    let no_ctx = drop_ctx-SamePool (drop_ssl w2) in
    elim (Bool-cases net.watched) [
      | inl b ↦ elim (Bool-cases net.ssl_connected) [
        | inl c ↦ rw (b, c) (refl, refl)
        | inr c ↦ rw (b, c) (refl, refl)
      ]
      | inr b ↦ rw b (no_ctx.0 ∙ no_ssl.0 ∙ lost.0, no_ctx.1 ∙ no_ssl.1 ∙ lost.1)
    ]

try_ctx-SamePool :
    (net : Setup) (old made : Option ℕ) (w : World) → SamePool w (try_ctx net old made w).1
unfolding try_ctx
try_ctx-SamePool net (some c) made w = try_ssl-SamePool net net.ssl_new w
try_ctx-SamePool net none none w = hang_up-SamePool w
try_ctx-SamePool net none (some c) w =
    try_ssl-SamePool net net.ssl_new (with_cok w (record (w.cok) { ctx = some c }))

_be_connect-SamePool : (fd : ℕ) (net : Setup) (w : World) → SamePool w (_be_connect net fd w).1
unfolding _be_connect
_be_connect-SamePool fd net w =
    let event : Event = record { id = net.event; fd = fd } in
    let w1 =
      with_cok w
        (record (w.cok) { fd = some fd; ptr = some event; status = 2; in_read_action = false }) in
    by_test (λ (r : Tried × World). SamePool w r.1) w.cok.use_ssl
      (try_ctx net w.cok.ctx net.ctx_new w1)
      (pushed (boolean true ∷ []), with_cok w1 (record (w1.cok) { inuse = false }))
      (try_ctx-SamePool net w.cok.ctx net.ctx_new w1) (refl, refl)

-- The socket is kept with status 2, and nothing is closed; or it alone is closed, once, and the
-- cosocket has no socket and status 0.
abbrev pub IsKeptOrClosed : ℕ → World → World → Type 0
IsKeptOrClosed fd w w' =
    ((w'.cok.fd ≡ some fd) × (w'.cok.status ≡ 2) × ((x : ℕ) → closes x w'.calls ≡ closes x w.calls))
    ⊎ ((w'.cok.fd ≡ none)
        × (w'.cok.status ≡ 0)
        × ((x : ℕ) → closes x w'.calls ≡ held x (some fd) + closes x w.calls))

settled :
    (fd : ℕ) (w w' : World)
    → SamePool w w'
    → ((x : ℕ) → balance x w' ≡ held x (some fd) + accounted x w)
    → IsSettled fd w'
    → IsKeptOrClosed fd w w'
settled fd w w' same total (inl (kept, status)) = inl (
  kept,
  status,
  λ x.
      let h : 0 + accounted x w' ≡ 0 + accounted x w = omega (arith, total x, ap (held x) kept) in
      omega (arith, closes-SamePool x 0 0 w w' same h),
)
settled fd w w' same total (inr (gone, status)) = inr (
  gone,
  status,
  λ x.
      let h : 0 + accounted x w' ≡ held x (some fd) + accounted x w =
        omega (arith, total x, ap (held x) gone) in
      omega (arith, closes-SamePool x 0 (held x (some fd)) w w' same h),
)

-- `_be_connect` keeps the new socket in the cosocket, with status 2, and closes none; or it closes the
-- new socket exactly once and no other, and leaves the cosocket without socket and with status 0,
-- whichever call of OpenSSL or of the event loop fails. It puts no connection into the pool and takes
-- none out.
pub _be_connect-IsSet :
    (fd : ℕ) (net : Setup) (w : World)
    → SamePool w (_be_connect net fd w).1 × IsKeptOrClosed fd w (_be_connect net fd w).1
_be_connect-IsSet fd net w =
    let same = _be_connect-SamePool fd net w in
    (
      same,
      settled fd w (_be_connect net fd w).1 same (λ x. (_be_connect-IsPlaced x fd net w).0)
          (_be_connect-IsPlaced 0 fd net w).1,
    )
