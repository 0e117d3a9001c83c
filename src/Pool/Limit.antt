-- ===== src/Pool/Limit.antt =====
-- How many idle connections of one key a bucket may hold, and that putting a connection back loses
-- none.
use alilua_coevent_module.Prelude.{
  ℕ, suc, ◌+◌, ◌%◌, ◌/◌, ◌≤◌, ◌≡◌, refl, inl, inr, true, false, List, [], ◌∷◌, ◌++◌, Bool,
  Bool-cases, Option, some, arith, leb, ◌==◌, if◌then◌else◌,
}
use alilua_coevent_module.Pool.{
  Pool, Conn, Event, buckets, generation, has_room, new_conn, append_conn, add_connection_to_pool,
}

-- The connections of a key.
unfoldable pub of_key : ℕ → List Conn → ℕ
of_key key [] = 0
of_key key (n ∷ ns) = (if n.pool_key == key then 1 else 0) + of_key key ns

of_key-append :
    (key : ℕ) (ns ms : List Conn) → of_key key (ns ++ ms) ≡ of_key key ns + of_key key ms
unfolding of_key
of_key-append key [] ms = omega arith
of_key-append key (n ∷ ns) ms = omega (arith, of_key-append key ns ms)

has_room-leb :
    (key size i : ℕ) (ns : List Conn)
    → i ≤ size
    → has_room key size i ns ≡ leb (i + of_key key ns) size
unfolding has_room of_key
has_room-leb key size i [] le = ground arith
has_room-leb key size i (n ∷ ns) le =
    ground (arith, has_room-leb key size i ns, has_room-leb key size (i + 1) ns)

pub new_conn_fields :
    (ns : List Conn) (ptr : Event) (key : ℕ) (ctx ssl ssl_pw stale : Option ℕ)
    → ((new_conn ns ptr key ctx ssl ssl_pw stale).pool_key ≡ key)
      × ((new_conn ns ptr key ctx ssl ssl_pw stale).ptr ≡ ptr)
unfolding new_conn
new_conn_fields [] ptr key ctx ssl ssl_pw stale = (refl, refl)
new_conn_fields (n ∷ ns) ptr key ctx ssl ssl_pw stale = (refl, refl)

-- The call in the two cases that its walk tells apart.
pub add_connection_to_pool-cases :
    (now key size : ℕ) (ptr : Event) (ssl ctx ssl_pw stale : Option ℕ) (watched : Bool) (p : Pool)
    → let g = generation now in
      let list = p.links g (key % buckets) in
      add_connection_to_pool now key size (some ptr) ssl ctx ssl_pw stale true watched p ≡ (
        if leb (of_key key list) size
        then (true, append_conn g (new_conn list ptr key ctx ssl ssl_pw stale) watched p)
        else (false, p))
unfolding add_connection_to_pool
add_connection_to_pool-cases now key size ptr ssl ctx ssl_pw stale watched p =
    let list = p.links (generation now) (key % buckets) in
    ground (arith, has_room-leb key size 0 list)

of_key-append_conn :
    (g key : ℕ) (m : Conn) (p : Pool)
    → m.pool_key ≡ key
    → of_key key ((append_conn g m true p).links g (key % buckets))
      ≡ suc (of_key key (p.links g (key % buckets)))
unfolding append_conn of_key
of_key-append_conn g key m p e =
    ground (arith, e, of_key-append key (p.links g (key % buckets)) (m ∷ []))

-- The full pool: a connection of a key is taken over exactly if the bucket of its generation holds
-- at most `pool_size` connections of that key, and then holds one more; so it may come to hold
-- `pool_size + 1` of them, and never more. (Memory is there, and the event can be watched.)
pub add_connection_to_pool-limit :
    (now key size : ℕ) (ptr : Event) (ssl ctx ssl_pw stale : Option ℕ) (p : Pool)
    → let g = generation now in
      let n = of_key key (p.links g (key % buckets)) in
      let r = add_connection_to_pool now key size (some ptr) ssl ctx ssl_pw stale true true p in
      (r.0 ≡ leb n size)
      × (of_key key (r.1.links g (key % buckets)) ≡ (if leb n size then suc n else n))
add_connection_to_pool-limit now key size ptr ssl ctx ssl_pw stale p =
    let g = now / 60 % 2 in
    let list = p.links g (key % buckets) in
    let m = new_conn list ptr key ctx ssl ssl_pw stale in
    rw (add_connection_to_pool-cases now key size ptr ssl ctx ssl_pw stale true p)
      (elim (Bool-cases (leb (of_key key list) size)) [
        | inl room ↦ rw room (
          refl,
          of_key-append_conn g key m p (new_conn_fields list ptr key ctx ssl ssl_pw stale).0,
        )
        | inr full ↦ rw full (refl, refl)
      ])
