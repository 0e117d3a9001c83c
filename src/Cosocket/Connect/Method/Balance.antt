-- ===== src/Cosocket/Connect/Method/Balance.antt =====
-- Where sockets go in the method `connect` (src/coevent.c): from the pool into the cosocket, or from
-- `se_connect`.
use alilua_coevent_module.Prelude.{
  ℕ, ◌+◌, ◌<◌, ◌%◌, ◌/◌, ◌≡◌, refl, ap, ◌∙◌, inl, inr, Bool, true, false, not, ◌&&◌, ◌||◌, leb,
  Option, none, some, arith, Bool-cases, Option-cases, if◌then◌else◌, ◌==◌, ltb, Bytes, length,
}
use alilua_coevent_module.Pool.{
  Pool, Conn, connection, checkout, find_counter, buckets, clear_old, get_connection_in_pool,
  get_connection_pool_counter, plus_one, add_waiting_get_connection, generation, regetfd,
}
use alilua_coevent_module.Pool.Stock.{owned, idle, here}
use alilua_coevent_module.Pool.Conserve.{owned-clear_old, checkout-owned}
use alilua_coevent_module.Cosocket.{World, Answer, free_ctx, with_cok}
use alilua_coevent_module.Cosocket.Close.Balance.{accounted, held, closes, owned-operate}
use alilua_coevent_module.Cosocket.Connect.{Setup}
use alilua_coevent_module.Cosocket.Connect.Socket.{balance, _be_connect-IsPlaced}
use alilua_coevent_module.Cosocket.Connect.Method.{
  Dial, trying, opened, refused, Network, Target, set_options, begin_connect, reuse, wait_for_pool,
  count_in, dial_out, is_full, from_pool, check_pool, connect_to, lua_co_connect, is_path, port_of,
}

-- How often `se_connect` has opened the socket.
abbrev pub opened_by : ℕ → Dial → ℕ
opened_by x trying = 0
opened_by x (refused s) = 0
opened_by x (opened fd) = if fd == x then 1 else 0

abbrev no_conn : Option Conn → Bool
no_conn none = true
no_conn (some n) = false

-- Whether `connect` comes to `se_connect`: where there is no pool size, or the pool has no connection of
-- the key and has not given out its share.
abbrev pub is_dialled : Network → World → Bool
is_dialled net w =
    let key = w.cok.pool_key in
    let r = get_connection_pool_counter key w.pool in
    let size = if ltb w.cok.pool_size r.0.size then r.0.size else w.cok.pool_size in
    let found = checkout net.now key r.1 in
    let count = (find_counter key (found.1.counters (key % buckets))).count in
    let full = ltb 0 count && leb (size / net.processes) count in
    not (ltb 0 size) || (no_conn found.0 && not full)

-- Whether `connect` asks at all: it is called on a cosocket that is free, not connected and not
-- connecting, with a path or a host that is not too long and a port.
abbrev pub is_asked : Target → Bytes → World → Bool
is_asked t host w =
    t.self
    && (not (ltb 0 w.cok.status)
        && (not w.cok.inuse
            && (not (ltb (if is_path host then 108 else 60) (length host))
                && not (not (is_path host) && port_of host t.port == 0))))

count_in_fields :
    (x : ℕ) (w : World)
    → (accounted x (count_in w) ≡ accounted x w) × ((count_in w).cok.fd ≡ w.cok.fd)
unfolding count_in
count_in_fields x w = (omega (arith, owned-operate x w.cok.pool_key plus_one w.pool), refl)

balance-dial_out :
    (x : ℕ) (net : Setup) (d : Dial) (w : World)
    → w.cok.fd ≡ none
    → balance x (dial_out net d w).1 ≡ opened_by x d + accounted x w
unfolding dial_out
balance-dial_out x net trying w e =
    let (same, same_fd) = count_in_fields x w in omega (arith, same, ap (held x) (same_fd ∙ e))
balance-dial_out x net (refused s) w e = omega (arith, ap (held x) e)
balance-dial_out x net (opened fd) w e =
    (_be_connect-IsPlaced x fd net (count_in w)).0
    ∙ ap (λ (n : ℕ). (if fd == x then 1 else 0) + n) (count_in_fields x w).0

owned-add_waiting :
    (x cok key : ℕ) (id : Option ℕ) (p : Pool)
    → owned x (add_waiting_get_connection cok key id p).1 ≡ owned x p
unfolding add_waiting_get_connection owned idle
owned-add_waiting x cok key none p = refl
owned-add_waiting x cok key (some id) p = elim (Bool-cases (ltb key 1)) [
  | inl b ↦ rw b refl
  | inr b ↦ rw b refl
]

balance-wait_for_pool :
    (x cok : ℕ) (net : Network) (w : World)
    → w.cok.fd ≡ none
    → balance x (wait_for_pool cok net w).1 ≡ accounted x w
unfolding wait_for_pool
balance-wait_for_pool x cok net w e =
    elim (Option-cases (add_waiting_get_connection cok w.cok.pool_key net.waiter w.pool).0) [
      | inl missing ↦ rw (missing, wait_for_pool) (omega (arith, ap (held x) e))
      | inr (id, there) ↦
          rw (there, wait_for_pool)
            (omega (arith, ap (held x) e, owned-add_waiting x cok w.cok.pool_key net.waiter w.pool))
    ]

balance-reuse : (x : ℕ) (n : Conn) (w : World) → balance x (reuse n w) ≡ here x n + accounted x w
unfolding reuse free_ctx closes
balance-reuse x n w = ground arith

owned-checkout-none :
    (x now key : ℕ) (p : Pool)
    → (checkout now key p).0 ≡ none
    → owned x (checkout now key p).1 ≡ owned x p
unfolding checkout
owned-checkout-none x now key p e =
    elim (Option-cases
      (regetfd (generation now) ((generation now + 1) % 2) key (clear_old now p))) [
        | inl missing ↦ rw (missing, checkout) (owned-clear_old x now p)
        | inr (r, found) ↦ absurd (ground (arith, found))
      ]

-- The pool after it was asked for a connection, without the one it gave.
abbrev given : ℕ → Option Conn → ℕ
given x none = 0
given x (some n) = here x n

owned-checkout :
    (x now key : ℕ) (p : Pool)
    → owned x p ≡ given x (checkout now key p).0 + owned x (checkout now key p).1
owned-checkout x now key p = elim (Option-cases (checkout now key p).0) [
  | inl missing ↦ rw missing (omega (arith, owned-checkout-none x now key p missing))
  | inr (n, found) ↦
      rw found ((checkout-owned x now key p (checkout now key p).1 n (ground (arith, found))).1)
]

balance-from_pool :
    (x cok : ℕ) (net : Network) (o : Option Conn) (p : Pool) (w : World)
    → w.cok.fd ≡ none
    → owned x w.pool ≡ given x o + owned x p
    → let w' = record w { pool = p; cok = record w.cok { ptr = none } } in
      (balance x (from_pool cok net (connection o, p) w).1
        ≡ (if no_conn o && not (is_full net.processes w') then opened_by x net.dial else 0)
          + accounted x w)
unfolding from_pool
balance-from_pool x cok net (some n) p w e h =
    omega (arith, balance-reuse x n (record w { pool = p }), h)
balance-from_pool x cok net none p w e h =
    let w' = record w { pool = p; cok = record w.cok { ptr = none } } in
    let same : accounted x w' ≡ accounted x w = omega (arith, h) in
    elim (Bool-cases (is_full net.processes w')) [
      | inl full ↦ rw full (omega (arith, balance-wait_for_pool x cok net w' e, same))
      | inr room ↦ rw room (omega (arith, balance-dial_out x net.setup net.dial w' e, same))
    ]

owned-get : (x key : ℕ) (p : Pool) → owned x (get_connection_pool_counter key p).1 ≡ owned x p
unfolding get_connection_pool_counter owned idle
owned-get x key p = refl

get_connection_in_pool-checkout :
    (now key : ℕ) (key_of : ℕ → ℕ) (p : Pool)
    → 0 < key
    → get_connection_in_pool now key_of key p
      ≡ (connection (checkout now key p).0, (checkout now key p).1)
unfolding get_connection_in_pool
get_connection_in_pool-checkout now key key_of p h = ground arith

balance-check_pool :
    (x cok : ℕ) (net : Network) (w : World)
    → w.cok.fd ≡ none
    → 0 < w.cok.pool_key
    → balance x (check_pool cok net w).1
      ≡ (if is_dialled net w then opened_by x net.dial else 0) + accounted x w
unfolding check_pool is_full
balance-check_pool x cok net w e h =
    let key = w.cok.pool_key in
    let r = get_connection_pool_counter key w.pool in
    let size = if ltb w.cok.pool_size r.0.size then r.0.size else w.cok.pool_size in
    let w1 : World = record w { pool = r.1; cok = record w.cok { pool_size = size } } in
    let found = checkout net.now key r.1 in
    let w2 = record w1 { pool = found.1; cok = record w1.cok { ptr = none } } in
    let same : accounted x w1 ≡ accounted x w = omega (arith, owned-get x key w.pool) in
    let got = get_connection_in_pool-checkout net.now key net.key_of r.1 h in
    elim (Bool-cases (ltb 0 size)) [
      | inl sized ↦
          rw (sized, got)
            (balance-from_pool x cok net found.0 found.1 w1 e (owned-checkout x net.now key r.1)
              ∙ ap
                  (λ (n : ℕ).
                    (if no_conn found.0 && not (is_full net.processes w2)
                      then opened_by x net.dial
                      else 0)
                    + n)
                  same)
      | inr unsized ↦ rw unsized (omega (arith, balance-dial_out x net.setup net.dial w1 e, same))
    ]

-- A test of the code against a test of the description.
both :
    (P : World → Bool → Type 0) (b c : Bool) (u v : Answer × World)
    → P v.1 c
    → P u.1 false
    → P (if not b then u else v).1 (b && c)
both P true c u v go stop = go
both P false c u v go stop = stop

both_not :
    (P : World → Bool → Type 0) (b c : Bool) (u v : Answer × World)
    → P v.1 c
    → P u.1 false
    → P (if b then u else v).1 (not b && c)
both_not P true c u v go stop = stop
both_not P false c u v go stop = go

last_not :
    (P : World → Bool → Type 0) (b : Bool) (u v : Answer × World)
    → P v.1 true
    → P u.1 false
    → P (if b then u else v).1 (not b)
last_not P true u v go stop = stop
last_not P false u v go stop = go

-- The cosocket as `connect` hands it on.
abbrev pub ready : ℕ → Network → Target → Bytes → World → World
ready l net t host w = with_cok w (begin_connect l (set_options net host t w.cok))

balance-connect_to :
    (x cok : ℕ) (net : Network) (l : ℕ) (t : Target) (host : Bytes) (w : World)
    → w.cok.fd ≡ none
    → 0 < (set_options net host t w.cok).pool_key
    → balance x (connect_to cok net l t host w).1
      ≡ (if is_asked t host w && is_dialled net (ready l net t host w)
          then opened_by x net.dial
          else 0)
        + accounted x w
unfolding connect_to begin_connect
balance-connect_to x cok net l t host w e h =
    let asked = balance-check_pool x cok net (ready l net t host w) (unfold set_options in e) h in
    let rest = is_dialled net (ready l net t host w) in
    let P : World → Bool → Type 0 =
      λ r b. balance x r ≡ (if b && rest then opened_by x net.dial else 0) + accounted x w in
    let refused_here : P w false = omega (arith, ap (held x) e) in
    both P t.self _ _ _
      (both_not P (ltb 0 w.cok.status) _ _ _
        (both_not P w.cok.inuse _ _ _
          (both_not P (ltb (if is_path host then 108 else 60) (length host)) _ _ _
            (last_not P (not (is_path host) && port_of host t.port == 0) _ _ asked refused_here)
            refused_here)
          refused_here)
        refused_here)
      refused_here

-- Whether `connect` opens a socket: it has a host, asks, and comes to `se_connect`.
abbrev pub opens : ℕ → Network → Target → World → Bool
opens l net t w = elim t.host [
  | none ↦ false
  | some host ↦ is_asked t host w && is_dialled net (ready l net t host w)
]

-- `connect` on a cosocket without a socket loses no socket and takes none twice, on every branch: each
-- socket is afterwards in the cosocket, in the pool or closed, counted together, as often as it was in
-- the pool or closed before; and the one that `se_connect` opens is there once more, exactly if
-- `connect` comes to it: the call is a sound one, and there is no pool size, or the pool has no
-- connection of the key and has not given out its share. (The pool key is not 0.)
pub balance-lua_co_connect :
    (x cok : ℕ) (net : Network) (l : ℕ) (t : Target) (w : World)
    → w.cok.fd ≡ none
    → ((host : Bytes) → 0 < (set_options net host t w.cok).pool_key)
    → balance x (lua_co_connect cok net l t w).1
      ≡ (if opens l net t w then opened_by x net.dial else 0) + accounted x w
unfolding lua_co_connect
balance-lua_co_connect x cok net l t w e h = elim (Option-cases t.host) [
  | inl missing ↦ rw (missing, lua_co_connect) (omega (arith, ap (held x) e))
  | inr (host, given_host) ↦
      rw (given_host, lua_co_connect) (balance-connect_to x cok net l t host w e (h host))
]
