-- ===== src/Pool/Counters.antt =====
-- The pool's counters as a map from pool keys.
use alilua_coevent_module.Prelude.{
  ℕ, ◌%◌, ◌≡◌, refl, List, [], ◌∷◌, arith, ltb, ◌==◌, if◌then◌else◌,
}
use alilua_coevent_module.Pool.{
  Pool, Counter, buckets, find_counter, put_counter, get_connection_pool_counter, store_counter,
  connection_pool_counter_operate,
}

-- The counter that a key reads, with zeros for a key that has none yet.
abbrev pub counter_of : Pool → ℕ → Counter
counter_of p key = find_counter key (p.counters (key % buckets))

pub pool_key-find_counter : (key : ℕ) (cs : List Counter) → (find_counter key cs).pool_key ≡ key
unfolding find_counter
pool_key-find_counter key [] = refl
pool_key-find_counter key (c ∷ cs) = ground (arith, pool_key-find_counter key cs)

find_counter-put_counter :
    (key : ℕ) (d : Counter) (cs : List Counter)
    → find_counter key (put_counter d cs) ≡ (if d.pool_key == key then d else find_counter key cs)
unfolding find_counter put_counter
find_counter-put_counter key d [] = refl
find_counter-put_counter key d (c ∷ cs) = ground (arith, find_counter-put_counter key d cs)

-- Reading the counter of a key makes it, and changes what no key reads.
pub counter_of-get :
    (key j : ℕ) (p : Pool) → counter_of (get_connection_pool_counter key p).1 j ≡ counter_of p j
unfolding get_connection_pool_counter
counter_of-get key j p = ground (
  arith,
  find_counter-put_counter j (counter_of p key) (p.counters (key % buckets)),
  pool_key-find_counter key (p.counters (key % buckets)),
)

pub counter_of-store :
    (d : Counter) (j : ℕ) (p : Pool)
    → counter_of (store_counter d p) j ≡ (if d.pool_key == j then d else counter_of p j)
unfolding store_counter
counter_of-store d j p =
    ground (arith, find_counter-put_counter j d (p.counters (d.pool_key % buckets)))

pub get-counter_of : (key : ℕ) (p : Pool) → (get_connection_pool_counter key p).0 ≡ counter_of p key
unfolding get_connection_pool_counter
get-counter_of key p = refl

-- `connection_pool_counter_operate` changes the count of its key alone, and nothing for key 0.
pub counter_of-operate :
    (key j : ℕ) (a : ℕ → ℕ) (p : Pool)
    → counter_of (connection_pool_counter_operate key a p) j ≡ (
        if ltb key 1
        then counter_of p j
        else if key == j
        then record (counter_of p j) { count = a (counter_of p j).count }
        else counter_of p j)
unfolding connection_pool_counter_operate
counter_of-operate key j a p =
    let c = (get_connection_pool_counter key p).0 in
    let p' = (get_connection_pool_counter key p).1 in
    ground (
      arith,
      get-counter_of key p,
      pool_key-find_counter key (p.counters (key % buckets)),
      counter_of-store (record c { count = a c.count }) j p',
      counter_of-get key j p,
    )
