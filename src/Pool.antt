-- ===== src/Pool.antt =====
-- The connection pool (src/connection-pool.c, src/connection-pool.h): idle connections in two
-- generations of 64 buckets, a counter for each pool key, and the cosockets that wait for one.
pub mod Counters
pub mod Stock
pub mod Conserve
pub mod Clear
pub mod Taken
pub mod Waiting
pub mod Limit
pub mod Release
mod Examples
use alilua_coevent_module.Prelude.{
  ℕ, zero, suc, ◌+◌, ◌-◌, ◌%◌, ◌/◌, ◌^◌, ◌≤◌, ◌<◌, ◌≡◌, Bool, true, false, not, ◌&&◌, List, [], ◌∷◌,
  ◌++◌, Option, none, some, All, leb, ltb, ◌==◌, if◌then◌else◌,
}

-- `se_ptr_t`: the event that watches a socket, by its address, and the socket.
pub record Event : Type 0 where
  pub id : ℕ
  pub fd : ℕ

-- `cosocket_connection_pool_t`. The links are the lists below.
pub record Conn : Type 0 where
  pub ptr : Event
  pub pool_key : ℕ
  pub ctx : Option ℕ
  pub ssl : Option ℕ
  pub ssl_pw : Option ℕ
  pub z : Bool

-- `cosocket_connection_pool_counter_t`
pub record Counter : Type 0 where
  pub size : ℕ
  pub count : ℕ
  pub pool_key : ℕ

-- `cosocket_waiting_get_connection_t`: its address, and the address of its cosocket.
pub record Waiter : Type 0 where
  pub id : ℕ
  pub cok : ℕ
  pub k : ℕ

-- The global arrays, and the sockets closed so far, newest first.
pub record Pool : Type 0 where
  pub counters : ℕ → List Counter
  pub links : ℕ → ℕ → List Conn
  pub waiting : ℕ → List Waiter
  pub closed : List ℕ

abbrev pub buckets : ℕ
buckets = 64

abbrev pub connect_pool_ttl : ℕ
connect_pool_ttl = 60

-- An array cell is written.
abbrev pub update {ℓ} : {A : Type ℓ} → (ℕ → A) → ℕ → A → ℕ → A
update f i a j = if j == i then a else f j

abbrev pub update₂ {ℓ} : {A : Type ℓ} → (ℕ → ℕ → A) → ℕ → ℕ → A → ℕ → ℕ → A
update₂ f p k a q j = if q == p && j == k then a else f q j

-- `count += a` for `a` = 1 and -1, on an unsigned long.
abbrev pub plus_one : ℕ → ℕ
plus_one n = (n + 1) % 2 ^ 64

abbrev pub minus_one : ℕ → ℕ
minus_one n = (n + 2 ^ 64 - 1) % 2 ^ 64

-- The walk of `get_connection_pool_counter`: the counter of the key, put at the end if it is new.
unfoldable pub find_counter : ℕ → List Counter → Counter
find_counter key [] = record { size = 0; count = 0; pool_key = key }
find_counter key (c ∷ cs) = if c.pool_key == key then c else find_counter key cs

unfoldable pub put_counter : Counter → List Counter → List Counter
put_counter d [] = d ∷ []
put_counter d (c ∷ cs) = if c.pool_key == d.pool_key then d ∷ cs else c ∷ put_counter d cs

unfoldable pub get_connection_pool_counter : ℕ → Pool → Counter × Pool
unfolding find_counter put_counter
get_connection_pool_counter key p =
    let k = key % buckets in
    let c = find_counter key (p.counters k) in
    (c, record p { counters = update p.counters k (put_counter c (p.counters k)) })

-- The write through the pointer that `get_connection_pool_counter` returned.
unfoldable pub store_counter : Counter → Pool → Pool
unfolding put_counter
store_counter c p =
    let k = c.pool_key % buckets in
    record p { counters = update p.counters k (put_counter c (p.counters k)) }

unfoldable pub connection_pool_counter_operate : ℕ → (ℕ → ℕ) → Pool → Pool
connection_pool_counter_operate key a p =
    let (c, p') = get_connection_pool_counter key p in
    let counted = store_counter (record c { count = a c.count }) p' in
    if ltb key 1 then p else counted

-- `add_waiting_get_connection`: `id` is the address that `malloc` returns, or NULL.
unfoldable pub add_waiting_get_connection : ℕ → ℕ → Option ℕ → Pool → Option ℕ × Pool
add_waiting_get_connection cok pool_key none p = (none, p)
add_waiting_get_connection cok pool_key (some id) p =
    let k = pool_key % buckets in
    let n : Waiter = record { id = id; cok = cok; k = k } in
    if ltb pool_key 1
    then (none, p)
    else (some id, record p { waiting = update p.waiting k (p.waiting k ++ n ∷ []) })

unfoldable pub remove_waiter : ℕ → List Waiter → List Waiter
remove_waiter id [] = []
remove_waiter id (w ∷ ws) = if w.id == id then ws else w ∷ remove_waiter id ws

unfoldable pub delete_in_waiting_get_connection : Waiter → Pool → Pool
unfolding remove_waiter
delete_in_waiting_get_connection n p = record p {
  waiting = update p.waiting n.k (remove_waiter n.id (p.waiting n.k));
}

-- `se_delete(ptr); connection_pool_counter_operate(pool_key, -1); close(fd)`
unfoldable pub drop_connection : Conn → Pool → Pool
drop_connection m p =
    let p' = connection_pool_counter_operate m.pool_key minus_one p in
    record p' { closed = m.ptr.fd ∷ p'.closed }

-- One round of "clear old caches" for a connection of the old generation: kept once more at the
-- head of its bucket in generation `g`, or closed.
unfoldable pub recycle_one : ℕ → Conn → Pool → Pool
recycle_one g m p =
    let k = m.pool_key % buckets in
    let kept = record p { links = update₂ p.links g k (record m { z = true } ∷ p.links g k) } in
    if m.z then drop_connection m p else kept

unfoldable pub recycle_bucket : ℕ → List Conn → Pool → Pool
recycle_bucket g [] p = p
recycle_bucket g (m ∷ ms) p = recycle_bucket g ms (recycle_one g m p)

-- The loop over the buckets of generation `q`, `n` of them from `i` on.
unfoldable pub recycle_from : ℕ → ℕ → ℕ → ℕ → Pool → Pool
recycle_from g q zero i p = p
recycle_from g q (suc n) i p =
    let p' = recycle_bucket g (p.links q i) p in
    recycle_from g q n (i + 1) (record p' { links = update₂ p'.links q i [] })

-- The search for the first connection of the key, and the list without it.
unfoldable pub take_first : ℕ → List Conn → Option (Conn × List Conn)
take_first key [] = none
take_first key (n ∷ ns) =
    let rest = take_first key ns in
    if n.pool_key == key
    then some (n, ns)
    else elim rest [ none ↦ none | some (m, ms) ↦ some (m, n ∷ ms) ]

unfoldable pub take_in : ℕ → ℕ → Pool → Option (Conn × Pool)
take_in g key p = elim (take_first key (p.links g (key % buckets))) [
  | none ↦ none
  | some (n, ns) ↦ some (n, record p { links = update₂ p.links g (key % buckets) ns })
]

-- `regetfd`: generation `g`, then `q`.
unfoldable pub regetfd : ℕ → ℕ → ℕ → Pool → Option (Conn × Pool)
regetfd g q key p = elim (take_in g key p) [ none ↦ take_in q key p | some r ↦ some r ]

abbrev pub generation : ℕ → ℕ
generation now = now / connect_pool_ttl % 2

-- "clear old caches" of `get_connection_in_pool`: the old generation is emptied.
unfoldable pub clear_old : ℕ → Pool → Pool
clear_old now p = recycle_from (generation now) ((generation now + 1) % 2) buckets 0 p

-- `get_connection_in_pool` for a key above 0: the connection that was taken out, and the pool.
unfoldable pub checkout : ℕ → ℕ → Pool → Option Conn × Pool
checkout now key p =
    let p' = clear_old now p in
    elim (regetfd (generation now) ((generation now + 1) % 2) key p') [
      | none ↦ (none, p')
      | some (n, p'') ↦ (some n, p'')
    ]

-- What `resume_in_waiting_get_connection` has found for the first waiter of a bucket.
unfoldable pub hand_over : Waiter → Option Conn × Pool → Option (Waiter × Conn) × Pool
hand_over w (none, p) = (none, p)
hand_over w (some n, p) = (some (w, n), delete_in_waiting_get_connection w p)

unfoldable pub try_bucket : ℕ → (ℕ → ℕ) → List Waiter → Pool → Option (Waiter × Conn) × Pool
try_bucket now key_of [] p = (none, p)
try_bucket now key_of (w ∷ ws) p = hand_over w (checkout now (key_of w.cok) p)

-- The loop of `resume_in_waiting_get_connection` over `n` buckets from `k` on. `key_of` reads
-- `cok->pool_key`; the `ptr` of a waiter that gets no connection is written with NULL, which it is
-- already. The first waiter that gets a connection is resumed, and the loop is left.
unfoldable pub resume_from : ℕ → (ℕ → ℕ) → ℕ → ℕ → Pool → Option (Waiter × Conn) × Pool
resume_from now key_of zero k p = (none, p)
resume_from now key_of (suc n) k p =
    let r = try_bucket now key_of (p.waiting k) p in
    let next = resume_from now key_of n (k + 1) r.1 in elim r.0 [ none ↦ next | some found ↦ r ]

unfoldable pub resume_in_waiting_get_connection : ℕ → (ℕ → ℕ) → Pool → Option (Waiter × Conn) × Pool
resume_in_waiting_get_connection now key_of p = resume_from now key_of buckets 0 p

-- What `get_connection_in_pool` does: key 0 only clears, and serves a waiter.
pub data Got : Type 0 where
  connection : Option Conn → Got
  resumed : Option (Waiter × Conn) → Got

unfoldable pub get_connection_in_pool : ℕ → (ℕ → ℕ) → ℕ → Pool → Got × Pool
get_connection_in_pool now key_of key p =
    let woken = resume_in_waiting_get_connection now key_of (clear_old now p) in
    let found = checkout now key p in
    if key == 0 then (resumed woken.0, woken.1) else (connection found.0, found.1)

-- The walk of `add_connection_to_pool`: whether it reaches the end of the list.
unfoldable pub has_room : ℕ → ℕ → ℕ → List Conn → Bool
has_room key pool_size in_pool [] = true
has_room key pool_size in_pool (n ∷ ns) =
    let here = n.pool_key == key in
    let rest = has_room key pool_size (if here then in_pool + 1 else in_pool) ns in
    if here && leb pool_size in_pool then false else rest

-- Taking a connection out of the list that holds it, by its event.
unfoldable pub unlink : Event → List Conn → List Conn
unlink e [] = []
unlink e (n ∷ ns) = if n.ptr.id == e.id then ns else n ∷ unlink e ns

-- `cosocket_be_close`: the peer closed an idle connection, or it cannot be watched. It stands in
-- a list of one of the two generations.
unfoldable pub cosocket_be_close : Conn → Pool → Pool
cosocket_be_close n p =
    let k = n.pool_key % buckets in
    let links = update₂ p.links 0 k (unlink n.ptr (p.links 0 k)) in
    drop_connection n (record p { links = update₂ links 1 k (unlink n.ptr (p.links 1 k)) })

-- The record that `add_connection_to_pool` allocates. Behind another connection of the bucket
-- `ssl_pw` is not written: it holds what the memory held before, `stale`.
unfoldable pub new_conn : List Conn → Event → ℕ → Option ℕ → Option ℕ → Option ℕ → Option ℕ → Conn
new_conn [] ptr key ctx ssl ssl_pw stale = record {
  ptr = ptr;
  pool_key = key;
  ctx = ctx;
  ssl = ssl;
  ssl_pw = ssl_pw;
  z = false;
}
new_conn (n ∷ ns) ptr key ctx ssl ssl_pw stale = record {
  ptr = ptr;
  pool_key = key;
  ctx = ctx;
  ssl = ssl;
  ssl_pw = stale;
  z = false;
}

-- The end of `add_connection_to_pool`. `watched` says whether `se_be_read` succeeds.
unfoldable pub append_conn : ℕ → Conn → Bool → Pool → Pool
append_conn g m watched p =
    let k = m.pool_key % buckets in
    let added = record p { links = update₂ p.links g k (p.links g k ++ m ∷ []) } in
    if watched then added else cosocket_be_close m added

-- `add_connection_to_pool`: whether the connection was taken over. `allocated` says whether
-- `malloc` succeeds; the socket of an event is never negative here.
unfoldable pub add_connection_to_pool :
    ℕ
    → ℕ
    → ℕ
    → Option Event
    → Option ℕ
    → Option ℕ
    → Option ℕ
    → Option ℕ
    → Bool
    → Bool
    → Pool
    → Bool × Pool
add_connection_to_pool now key pool_size none ssl ctx ssl_pw stale allocated watched p = (false, p)
add_connection_to_pool now key pool_size (some ptr) ssl ctx ssl_pw stale allocated watched p =
    let g = generation now in
    let list = p.links g (key % buckets) in
    let m = new_conn list ptr key ctx ssl ssl_pw stale in
    if has_room key pool_size 0 list && allocated
    then (true, append_conn g m watched p)
    else (false, p)
