-- ===== src/Pool/Clear.antt =====
-- What "clear old caches" of `get_connection_in_pool` (src/connection-pool.c) closes, and what it keeps.
use alilua_coevent_module.Prelude.{
  ℕ, zero, suc, ◌+◌, ◌%◌, ◌/◌, ◌≤◌, ◌<◌, ◌≡◌, ◌≢◌, ◌∙◌, refl, ap, List, [], ◌∷◌, arith, ℕ_discrete,
  if◌then◌else◌,
}
use alilua_coevent_module.Pool.{
  Pool, Conn, buckets, generation, update₂, recycle_one, recycle_bucket, recycle_from, clear_old,
  drop_connection, minus_one,
}
use alilua_coevent_module.Pool.Stock.{idle, owned, in_closed, here, links-operate}
use alilua_coevent_module.Pool.Conserve.{links-recycle_bucket, owned-clear_old}

-- How often socket `x` is among the connections of a list that were kept once already.
unfoldable pub spent_in : ℕ → List Conn → ℕ
spent_in x [] = 0
spent_in x (m ∷ ms) = (if m.z then here x m else 0) + spent_in x ms

-- The same for `n` buckets from `i` on.
unfoldable pub spent_from : ℕ → ℕ → ℕ → (ℕ → List Conn) → ℕ
spent_from x zero i f = 0
spent_from x (suc n) i f = spent_in x (f i) + spent_from x n (i + 1) f

-- The same for the old generation.
unfoldable pub spent : ℕ → ℕ → Pool → ℕ
spent x now p = spent_from x buckets 0 (p.links ((generation now + 1) % 2))

closed-recycle_one :
    (x g : ℕ) (m : Conn) (p : Pool)
    → in_closed x (recycle_one g m p).closed ≡ (if m.z then here x m else 0) + in_closed x p.closed
unfolding recycle_one drop_connection in_closed
closed-recycle_one x g m p = ground (arith, links-operate m.pool_key minus_one p)

closed-recycle_bucket :
    (x g : ℕ) (ms : List Conn) (p : Pool)
    → in_closed x (recycle_bucket g ms p).closed ≡ spent_in x ms + in_closed x p.closed
unfolding recycle_bucket spent_in
closed-recycle_bucket x g [] p = omega arith
closed-recycle_bucket x g (m ∷ ms) p =
    omega (arith, closed-recycle_bucket x g ms (recycle_one g m p), closed-recycle_one x g m p)

-- Only the buckets from `i` on count.
spent_from-same :
    (x n i : ℕ) (f h : ℕ → List Conn)
    → ((j : ℕ) → i ≤ j → f j ≡ h j)
    → spent_from x n i f ≡ spent_from x n i h
unfolding spent_from
spent_from-same x zero i f h same = refl
spent_from-same x (suc n) i f h same = omega (
  arith,
  ap (spent_in x) (same i (omega arith)),
  spent_from-same x n (i + 1) f h (λ j le. same j (omega arith)),
)

spent_from-empty :
    (x n i : ℕ) (f : ℕ → List Conn)
    → ((j : ℕ) → i ≤ j → j < i + n → f j ≡ [])
    → spent_from x n i f ≡ 0
unfolding spent_from
spent_from-empty x zero i f h = refl
spent_from-empty x (suc n) i f h =
    let none_here : spent_in x (f i) ≡ 0 =
      ap (spent_in x) (h i (omega arith) (omega arith)) ∙ unfold spent_in in refl in
    omega (
      arith,
      none_here,
      spent_from-empty x n (i + 1) f (λ j le lt. h j (omega arith) (omega arith)),
    )

module _ (g q : ℕ) (ne : g ≢ q) where
  -- One bucket of the old generation done.
  emptied : ℕ → Pool → Pool
  emptied i p =
      let p' = recycle_bucket g (p.links q i) p in record p' { links = update₂ p'.links q i [] }

  links-emptied : (i j : ℕ) (p : Pool) → j ≢ i → (emptied i p).links q j ≡ p.links q j
  unfolding emptied
  links-emptied i j p away = ground (arith, away, links-recycle_bucket g q j (p.links q i) p ne)

  links-emptied_here : (i : ℕ) (p : Pool) → (emptied i p).links q i ≡ []
  unfolding emptied
  links-emptied_here i p = ground arith

  closed-recycle_from :
      (x n i : ℕ) (p : Pool)
      → in_closed x (recycle_from g q n i p).closed
        ≡ spent_from x n i (p.links q) + in_closed x p.closed
  unfolding recycle_from spent_from emptied
  closed-recycle_from x zero i p = omega arith
  closed-recycle_from x (suc n) i p = omega (
    arith,
    closed-recycle_from x n (i + 1) (emptied i p),
    spent_from-same x n (i + 1) ((emptied i p).links q) (p.links q)
        (λ j le. links-emptied i j p (omega arith)),
    closed-recycle_bucket x g (p.links q i) p,
  )

  links-recycle_from :
      (n i j : ℕ) (p : Pool) → j < i → (recycle_from g q n i p).links q j ≡ p.links q j
  unfolding recycle_from emptied
  links-recycle_from zero i j p lt = refl
  links-recycle_from (suc n) i j p lt =
      links-recycle_from n (i + 1) j (emptied i p) (omega arith) ∙ links-emptied i j p (omega arith)

  recycle_from-empty :
      (n i j : ℕ) (p : Pool) → i ≤ j → j < i + n → (recycle_from g q n i p).links q j ≡ []
  unfolding recycle_from emptied
  recycle_from-empty zero i j p le lt = absurd (omega arith)
  recycle_from-empty (suc n) i j p le lt = elim (ℕ_discrete j i) [
    | yes e ↦
        rw e (links-recycle_from n (i + 1) i (emptied i p) (omega arith) ∙ links-emptied_here i p)
    | no away ↦ recycle_from-empty n (i + 1) j (emptied i p) (omega arith) (omega arith)
  ]

-- Of the old generation, the connections that were kept once already are closed, and nothing else is.
pub closed-clear_old :
    (x now : ℕ) (p : Pool)
    → in_closed x (clear_old now p).closed ≡ spent x now p + in_closed x p.closed
unfolding clear_old spent
closed-clear_old x now p =
    let g = now / 60 % 2 in closed-recycle_from g ((g + 1) % 2) (omega arith) x buckets 0 p

-- All other connections stay in the pool.
pub idle-clear_old : (x now : ℕ) (p : Pool) → idle x p ≡ spent x now p + idle x (clear_old now p)
unfolding owned
idle-clear_old x now p = omega (arith, owned-clear_old x now p, closed-clear_old x now p)

-- There is nothing to clear twice.
pub spent-clear_old : (x now : ℕ) (p : Pool) → spent x now (clear_old now p) ≡ 0
unfolding clear_old spent
spent-clear_old x now p =
    let g = now / 60 % 2 in
    spent_from-empty x buckets 0 _
      (λ j le lt. recycle_from-empty g ((g + 1) % 2) (omega arith) buckets 0 j p le lt)
