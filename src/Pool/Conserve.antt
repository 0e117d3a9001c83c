-- ===== src/Pool/Conserve.antt =====
-- `get_connection_in_pool` (src/connection-pool.c) loses no socket and makes none up.
use alilua_coevent_module.Prelude.{
  ℕ, zero, suc, ◌+◌, ◌%◌, ◌/◌, ◌≤◌, ◌<◌, ◌≡◌, ◌≢◌, Bool-cases, Option-cases, ◌∙◌, refl, ap, inl,
  inr, true, List, [], ◌∷◌, some, arith, drop,
}
use alilua_coevent_module.Pool.{
  Pool, Conn, buckets, update₂, recycle_one, recycle_bucket, recycle_from, clear_old,
  drop_connection, minus_one, take_first, take_in, regetfd, checkout,
}
use alilua_coevent_module.Pool.Stock.{
  owned, idle, in_list, in_closed, here, in_list-cons, idle-update, bucket_lt, links-operate,
}

pub owned-drop_connection :
    (x : ℕ) (m : Conn) (p : Pool) → owned x (drop_connection m p) ≡ here x m + owned x p
unfolding drop_connection owned idle in_closed
owned-drop_connection x m p = ground (arith, links-operate m.pool_key minus_one p)

-- A connection of the old generation is kept or closed, never both and never neither.
owned-recycle_one :
    (x g : ℕ) (m : Conn) (p : Pool) → g < 2 → owned x (recycle_one g m p) ≡ here x m + owned x p
unfolding recycle_one drop_connection
owned-recycle_one x g m p lt = elim (Bool-cases m.z) [
  | inl old ↦ rw old (owned-drop_connection x m p)
  | inr young ↦
      let k = m.pool_key % buckets in
      rw young (
        unfold owned in
        omega (
          arith,
          idle-update x g k p (record m { z = true } ∷ p.links g k) lt (bucket_lt m.pool_key),
          in_list-cons x (record m { z = true }) (p.links g k),
        ))
]

owned-recycle_bucket :
    (x g : ℕ) (ms : List Conn) (p : Pool)
    → g < 2
    → owned x (recycle_bucket g ms p) ≡ in_list x ms + owned x p
unfolding recycle_bucket in_list
owned-recycle_bucket x g [] p lt = omega arith
owned-recycle_bucket x g (m ∷ ms) p lt =
    omega (arith, owned-recycle_bucket x g ms (recycle_one g m p) lt, owned-recycle_one x g m p lt)

links-recycle_one :
    (g q k : ℕ) (m : Conn) (p : Pool) → g ≢ q → (recycle_one g m p).links q k ≡ p.links q k
unfolding recycle_one drop_connection
links-recycle_one g q k m p ne = ground (arith, links-operate m.pool_key minus_one p)

-- Nothing of the old generation is written while it is walked.
pub links-recycle_bucket :
    (g q k : ℕ) (ms : List Conn) (p : Pool)
    → g ≢ q
    → (recycle_bucket g ms p).links q k ≡ p.links q k
unfolding recycle_bucket
links-recycle_bucket g q k [] p ne = refl
links-recycle_bucket g q k (m ∷ ms) p ne =
    links-recycle_bucket g q k ms (recycle_one g m p) ne ∙ links-recycle_one g q k m p ne

pub owned-recycle_from :
    (x g q n i : ℕ) (p : Pool)
    → g < 2
    → q < 2
    → g ≢ q
    → i + n ≤ buckets
    → owned x (recycle_from g q n i p) ≡ owned x p
unfolding recycle_from
owned-recycle_from x g q zero i p lg lq ne h = refl
owned-recycle_from x g q (suc n) i p lg lq ne h =
    let p' = recycle_bucket g (p.links q i) p in
    let emptied = record p' { links = update₂ p'.links q i [] } in
    let moved = owned-recycle_bucket x g (p.links q i) p lg in
    let same = ap (in_list x) (links-recycle_bucket g q i (p.links q i) p ne) in
    let cleared = idle-update x q i p' [] lq (omega arith) in
    let total : owned x emptied ≡ owned x p =
      unfold owned in_list in omega (arith, moved, same, cleared) in
    owned-recycle_from x g q n (i + 1) emptied lg lq ne (omega arith) ∙ total

-- Clearing the old generation loses no socket and makes none up: each one is in the pool or among
-- the closed as often as before.
pub owned-clear_old : (x now : ℕ) (p : Pool) → owned x (clear_old now p) ≡ owned x p
unfolding clear_old
owned-clear_old x now p =
    let g = now / 60 % 2 in
    owned-recycle_from x g ((g + 1) % 2) buckets 0 p (omega arith) (omega arith) (omega arith)
      (omega arith)

-- A connection that is found has the key that was asked for, and only it leaves the list.
take_first-key :
    (key : ℕ) (ns : List Conn) (n : Conn) (ms : List Conn)
    → take_first key ns ≡ some (n, ms)
    → n.pool_key ≡ key
unfolding take_first
take_first-key key [] n ms e = cc
take_first-key key (c ∷ ns) n ms e = ground (arith, take_first-key key ns n (drop 1 ms))

in_list-take_first :
    (x key : ℕ) (ns : List Conn) (n : Conn) (ms : List Conn)
    → take_first key ns ≡ some (n, ms)
    → in_list x ns ≡ here x n + in_list x ms
unfolding take_first in_list
in_list-take_first x key [] n ms e = cc
in_list-take_first x key (c ∷ ns) n ms e = ground (arith, in_list-take_first x key ns n (drop 1 ms))

take_in_parts :
    (g key : ℕ) (p : Pool) (n : Conn) (p' : Pool)
    → take_in g key p ≡ some (n, p')
    → (ms : List Conn) × (take_first key (p.links g (key % buckets)) ≡ some (n, ms))
      × (p' ≡ record p { links = update₂ p.links g (key % buckets) ms })
unfolding take_in
take_in_parts g key p n p' e = elim (Option-cases (take_first key (p.links g (key % buckets)))) [
  | inl missing ↦ absurd (ground arith)
  | inr (r, found) ↦ (r.1, ground arith, ground arith)
]

take_in-owned :
    (x g key : ℕ) (p : Pool) (n : Conn) (p' : Pool)
    → g < 2
    → take_in g key p ≡ some (n, p')
    → (n.pool_key ≡ key) × (owned x p ≡ here x n + owned x p')
take_in-owned x g key p n p' lt e =
    let (ms, found, rest) = take_in_parts g key p n p' e in
    let list = p.links g (key % buckets) in
    (
      take_first-key key list n ms found,
      rw rest (
          unfold owned in
          omega (
            arith,
            idle-update x g (key % buckets) p ms lt (bucket_lt key),
            in_list-take_first x key list n ms found,
          )),
    )

regetfd-owned :
    (x g q key : ℕ) (p : Pool) (n : Conn) (p' : Pool)
    → g < 2
    → q < 2
    → regetfd g q key p ≡ some (n, p')
    → (n.pool_key ≡ key) × (owned x p ≡ here x n + owned x p')
unfolding regetfd
regetfd-owned x g q key p n p' lg lq e = elim (Option-cases (take_in g key p)) [
  | inl missing ↦ take_in-owned x q key p n p' lq (ground arith)
  | inr (r, found) ↦ take_in-owned x g key p n p' lg (ground arith)
]

-- A connection from the pool has the key that was asked for, and counted with the sockets that are
-- closed only its socket leaves the pool.
pub checkout-owned :
    (x now key : ℕ) (p p' : Pool) (n : Conn)
    → checkout now key p ≡ (some n, p')
    → (n.pool_key ≡ key) × (owned x p ≡ here x n + owned x p')
unfolding checkout
checkout-owned x now key p p' n e =
    let g = now / 60 % 2 in
    let q = (g + 1) % 2 in
    let found : regetfd g q key (clear_old now p) ≡ some (n, p') = ground arith in
    let (same_key, stock) =
      regetfd-owned x g q key (clear_old now p) n p' (omega arith) (omega arith) found in
    (same_key, omega (arith, stock, owned-clear_old x now p))
