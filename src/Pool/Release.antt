-- ===== src/Pool/Release.antt =====
-- `add_connection_to_pool` and `cosocket_be_close` (src/connection-pool.c): what they keep and what
-- they close.
use alilua_coevent_module.Prelude.{
  ℕ, zero, suc, ◌+◌, ◌-◌, ◌%◌, ◌/◌, ◌<◌, ◌≡◌, ◌≢◌, refl, sym, ap, ◌∙◌, inl, inr, true, false, List,
  [], ◌∷◌, ◌++◌, Bool, Bool-cases, Option, some, arith, All, leb, ◌==◌, ◌&&◌, not, if◌then◌else◌,
}
use alilua_coevent_module.Pool.{
  Pool, Conn, Event, buckets, update₂, unlink, new_conn, append_conn, cosocket_be_close,
  add_connection_to_pool, drop_connection, minus_one,
}
use alilua_coevent_module.Pool.Stock.{
  owned, idle, in_list, in_closed, here, in_list-append, in_list-cons, idle-update, bucket_lt,
  links-operate,
}
use alilua_coevent_module.Pool.Conserve.{owned-drop_connection}
use alilua_coevent_module.Pool.Limit.{of_key, new_conn_fields, add_connection_to_pool-cases}

-- No connection of the list has the event.
abbrev pub Fresh : Event → List Conn → Type 0
Fresh e = All λ n. n.ptr.id ≢ e.id

unlink-Fresh : (e : Event) (ns : List Conn) → Fresh e ns → unlink e ns ≡ ns
unfolding unlink
unlink-Fresh e [] h = refl
unlink-Fresh e (n ∷ ns) h = ground (arith, h.0, unlink-Fresh e ns h.1)

unlink_middle :
    (e : Event) (before : List Conn) (m : Conn) (after : List Conn)
    → Fresh e before
    → m.ptr ≡ e
    → unlink e (before ++ m ∷ after) ≡ before ++ after
unfolding unlink
unlink_middle e [] m after h eq = ground (arith, eq)
unlink_middle e (n ∷ before) m after h eq =
    ground (arith, h.0, unlink_middle e before m after h.1 eq)

in_list-middle :
    (x : ℕ) (before : List Conn) (m : Conn) (after : List Conn)
    → in_list x (before ++ m ∷ after) ≡ here x m + in_list x (before ++ after)
in_list-middle x before m after = omega (
  arith,
  in_list-append x before (m ∷ after),
  in_list-append x before after,
  in_list-cons x m after,
)

-- The connection stands in a bucket of generation `g`, and nowhere else.
pub record IsStored (g : ℕ) (m : Conn) (p : Pool) : Type 0 where
  pub before : List Conn
  pub after : List Conn
  pub stands : p.links g (m.pool_key % buckets) ≡ before ++ m ∷ after
  pub fresh : Fresh m.ptr before
  pub other : Fresh m.ptr (p.links (1 - g) (m.pool_key % buckets))

-- The two unlinking writes of `cosocket_be_close`.
unlinked : Conn → Pool → Pool
unlinked n p =
    let k = n.pool_key % buckets in
    let links = update₂ p.links 0 k (unlink n.ptr (p.links 0 k)) in
    record p { links = update₂ links 1 k (unlink n.ptr (p.links 1 k)) }

-- What unlinking takes out of the bucket of the connection, and out of the other generation.
in_list-stored :
    (x g : ℕ) (m : Conn) (p : Pool)
    → IsStored g m p
    → let k = m.pool_key % buckets in
      (in_list x (p.links g k) ≡ here x m + in_list x (unlink m.ptr (p.links g k)))
      × (unlink m.ptr (p.links (1 - g) k) ≡ p.links (1 - g) k)
in_list-stored x g m p st = (
  rw (st.stands, unlink_middle m.ptr st.before m st.after st.fresh refl)
      (in_list-middle x st.before m st.after),
  unlink-Fresh m.ptr _ st.other,
)

owned-unlinked :
    (x g : ℕ) (m : Conn) (p : Pool)
    → g < 2
    → IsStored g m p
    → owned x p ≡ here x m + owned x (unlinked m p)
unfolding unlinked owned
owned-unlinked x zero m p lt st =
    let k = m.pool_key % buckets in
    let p' = record p { links = update₂ p.links 0 k (unlink m.ptr (p.links 0 k)) } in
    let (taken, kept) = in_list-stored x 0 m p st in
    omega (
      arith,
      taken,
      ap (in_list x) kept,
      idle-update x 0 k p (unlink m.ptr (p.links 0 k)) lt (bucket_lt m.pool_key),
      idle-update x 1 k p' (unlink m.ptr (p.links 1 k)) (omega arith) (bucket_lt m.pool_key),
    )
owned-unlinked x (suc zero) m p lt st =
    let k = m.pool_key % buckets in
    let p' = record p { links = update₂ p.links 0 k (unlink m.ptr (p.links 0 k)) } in
    let (taken, kept) = in_list-stored x 1 m p st in
    omega (
      arith,
      taken,
      ap (in_list x) kept,
      idle-update x 0 k p (unlink m.ptr (p.links 0 k)) (omega arith) (bucket_lt m.pool_key),
      idle-update x 1 k p' (unlink m.ptr (p.links 1 k)) lt (bucket_lt m.pool_key),
    )
owned-unlinked x (suc (suc g)) m p lt st = absurd (omega arith)

-- Closing an idle connection moves its socket from the pool to the closed ones, and touches no
-- other.
pub owned-cosocket_be_close :
    (x g : ℕ) (m : Conn) (p : Pool)
    → g < 2
    → IsStored g m p
    → owned x (cosocket_be_close m p) ≡ owned x p
unfolding cosocket_be_close unlinked
owned-cosocket_be_close x g m p lt st =
    owned-drop_connection x m (unlinked m p) ∙ sym (owned-unlinked x g m p lt st)

append_conn_kept :
    (x g : ℕ) (m : Conn) (p : Pool)
    → g < 2
    → owned x (append_conn g m true p) ≡ here x m + owned x p
unfolding append_conn
append_conn_kept x g m p lt =
    let k = m.pool_key % buckets in
    unfold owned in
    omega (
      arith,
      idle-update x g k p (p.links g k ++ m ∷ []) lt (bucket_lt m.pool_key),
      in_list-append x (p.links g k) (m ∷ []),
      in_list-single x m,
    )
  where
    in_list-single : (x : ℕ) (m : Conn) → in_list x (m ∷ []) ≡ here x m
    in_list-single x m = unfold in_list in omega arith

-- The event is new to the bucket, in both generations.
abbrev pub IsNew : Event → ℕ → Pool → Type 0
IsNew e k p = Fresh e (p.links 0 k) × Fresh e (p.links 1 k)

append_conn-IsStored :
    (g : ℕ) (m : Conn) (p : Pool)
    → g < 2
    → IsNew m.ptr (m.pool_key % buckets) p
    → IsStored g m (append_conn g m true p)
unfolding append_conn
append_conn-IsStored zero m p lt new = record {
  before = p.links 0 (m.pool_key % buckets);
  after = [];
  stands = ground arith;
  fresh = new.0;
  other = new.1;
}
append_conn-IsStored (suc zero) m p lt new = record {
  before = p.links 1 (m.pool_key % buckets);
  after = [];
  stands = ground arith;
  fresh = new.1;
  other = new.0;
}
append_conn-IsStored (suc (suc g)) m p lt new = absurd (omega arith)

append_conn_closed :
    (g : ℕ) (m : Conn) (p : Pool)
    → append_conn g m false p ≡ cosocket_be_close m (append_conn g m true p)
unfolding append_conn
append_conn_closed g m p = refl

owned-append_conn :
    (x g : ℕ) (m : Conn) (watched : Bool) (p : Pool)
    → g < 2
    → IsNew m.ptr (m.pool_key % buckets) p
    → owned x (append_conn g m watched p) ≡ here x m + owned x p
owned-append_conn x g m true p lt new = append_conn_kept x g m p lt
owned-append_conn x g m false p lt new = rw append_conn_closed (
    owned-cosocket_be_close x g m (append_conn g m true p) lt (append_conn-IsStored g m p lt new)
    ∙ append_conn_kept x g m p lt)

closed-append_conn :
    (x g : ℕ) (m : Conn) (watched : Bool) (p : Pool)
    → in_closed x (append_conn g m watched p).closed
      ≡ (if watched then 0 else here x m) + in_closed x p.closed
unfolding append_conn cosocket_be_close drop_connection in_closed unlinked
closed-append_conn x g m true p = omega arith
closed-append_conn x g m false p =
    let (links, closed, waiting) =
      links-operate m.pool_key minus_one (unlinked m (append_conn g m true p)) in
    omega (arith, ap (in_closed x) closed)

-- `add_connection_to_pool` says whether it takes the connection over. If it does, the connection is
-- idle in the pool once more, or, where its event cannot be watched, it is closed, once. No other
-- connection comes into the pool or leaves it, and no other is closed; of a refused connection
-- neither. (Memory is there, and the event is new to the pool.)
pub add_connection_to_pool-IsKept :
    (now key size : ℕ) (ptr : Event) (ssl ctx ssl_pw stale : Option ℕ) (watched : Bool) (p : Pool)
    → IsNew ptr (key % buckets) p
    → let r = add_connection_to_pool now key size (some ptr) ssl ctx ssl_pw stale true watched p in
      (x : ℕ)
      → (idle x r.1 ≡ (if r.0 && watched && ptr.fd == x then 1 else 0) + idle x p)
        × (in_closed x r.1.closed
            ≡ (if r.0 && not watched && ptr.fd == x then 1 else 0) + in_closed x p.closed)
unfolding owned
add_connection_to_pool-IsKept now key size ptr ssl ctx ssl_pw stale watched p new x =
    let g = now / 60 % 2 in
    let list = p.links g (key % buckets) in
    let m = new_conn list ptr key ctx ssl ssl_pw stale in
    let (same_key, same_ptr) = new_conn_fields list ptr key ctx ssl ssl_pw stale in
    let new' : IsNew m.ptr (m.pool_key % buckets) p = rw (same_key, same_ptr) new in
    let both = owned-append_conn x g m watched p (omega arith) new' in
    let closed = closed-append_conn x g m watched p in
    rw (add_connection_to_pool-cases now key size ptr ssl ctx ssl_pw stale watched p)
      (elim (Bool-cases (leb (of_key key list) size)) [
        | inl room ↦ rw room (ground (arith, both, closed, same_ptr))
        | inr full ↦ rw full (ground arith)
      ])
