-- ===== src/Pool/Taken.antt =====
-- What a search for a connection (`get_connection_in_pool` of src/connection-pool.c) moves.
use alilua_coevent_module.Prelude.{
  ℕ, ◌+◌, ◌%◌, ◌/◌, ◌≡◌, ap, ◌∙◌, inl, inr, Option-cases, none, some, arith,
}
use alilua_coevent_module.Pool.{Pool, Conn, clear_old, regetfd, take_in, checkout}
use alilua_coevent_module.Pool.Stock.{idle, owned, in_closed, here}
use alilua_coevent_module.Pool.Conserve.{checkout-owned}
use alilua_coevent_module.Pool.Clear.{spent, closed-clear_old, spent-clear_old}

closed-regetfd :
    (g q key : ℕ) (p p' : Pool) (n : Conn) → regetfd g q key p ≡ some (n, p') → p'.closed ≡ p.closed
unfolding regetfd take_in
closed-regetfd g q key p p' n e = ground arith

-- Whatever a search finds, it closes the connections of the old generation that were kept once.
pub closed-checkout :
    (x now key : ℕ) (p : Pool)
    → in_closed x (checkout now key p).1.closed ≡ spent x now p + in_closed x p.closed
unfolding checkout
closed-checkout x now key p =
    let g = now / 60 % 2 in
    elim (Option-cases (regetfd g ((g + 1) % 2) key (clear_old now p))) [
      | inl missing ↦ rw (missing, checkout) (closed-clear_old x now p)
      | inr (r, found) ↦
          rw (found, checkout)
            (ap (in_closed x) (closed-regetfd g ((g + 1) % 2) key (clear_old now p) r.1 r.0 found)
              ∙ closed-clear_old x now p)
    ]

-- A search without success leaves nothing to clear.
pub spent-checkout :
    (x now key : ℕ) (p : Pool)
    → (checkout now key p).0 ≡ none
    → spent x now (checkout now key p).1 ≡ 0
unfolding checkout
spent-checkout x now key p e =
    let g = now / 60 % 2 in
    elim (Option-cases (regetfd g ((g + 1) % 2) key (clear_old now p))) [
      | inl missing ↦ rw (missing, checkout) (spent-clear_old x now p)
      | inr (r, found) ↦ absurd (ground arith)
    ]

-- A connection that `get_connection_in_pool` finds has the key that was asked for. The call closes the
-- connections of the old generation that were kept once already, each once, and nothing else; and
-- apart from those and the connection found every connection stays in the pool.
pub checkout-IsTaken :
    (now key : ℕ) (p p' : Pool) (n : Conn)
    → checkout now key p ≡ (some n, p')
    → (n.pool_key ≡ key)
      × ((x : ℕ)
          → (in_closed x p'.closed ≡ spent x now p + in_closed x p.closed)
            × (idle x p ≡ here x n + spent x now p + idle x p'))
unfolding owned
checkout-IsTaken now key p p' n e = (
  (checkout-owned 0 now key p p' n e).0,
  λ x.
      let closed : in_closed x p'.closed ≡ spent x now p + in_closed x p.closed =
        rw e at (closed-checkout x now key p) in
      (closed, omega (arith, closed, (checkout-owned x now key p p' n e).1)),
)
