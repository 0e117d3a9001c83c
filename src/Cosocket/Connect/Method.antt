-- ===== src/Cosocket/Connect/Method.antt =====
-- The method `connect` (src/coevent.c).
pub mod Balance
use Prim.Native.String.{String}
use alilua_coevent_module.Prelude.{
  c_string, ℕ, ℤ, pos, negsuc, ◌/◌, ◌%◌, Bool, true, false, not, ◌&&◌, [], ◌∷◌, ◌++◌, Option, none,
  some, Bytes, length, if◌then◌else◌, ◌==◌, ltb, leb,
}
use alilua_coevent_module.Pool.{
  Pool, Conn, buckets, Got, connection, resumed, find_counter, get_connection_pool_counter,
  get_connection_in_pool, add_waiting_get_connection, connection_pool_counter_operate, plus_one,
}
use alilua_coevent_module.Cosocket.{
  Cosocket, World, boolean, Answer, returns, yields, error_of, with_cok, free_ctx,
}
use alilua_coevent_module.Cosocket.Close.{clamp_pool_size}
use alilua_coevent_module.Cosocket.Connect.{Setup, Tried, pushed, handshake, _be_connect}

-- What `se_connect` returns: -2 while it tries, a socket, or -1 with the text of `errno`.
pub data Dial : Type 0 where
  trying : Dial
  opened : ℕ → Dial
  refused : String → Dial

-- What `connect` relies on outside: the clock, the number of processes, the pool keys of the other
-- cosockets, the hash and the decimal digits of a number, the address of a waiter or NULL, and the
-- results of `se_connect` and of setting up the connection.
pub record Network : Type 0 where
  pub now : ℕ
  pub processes : ℕ
  pub key_of : ℕ → ℕ
  pub fnv1a_32 : Bytes → ℕ
  pub digits : ℕ → Bytes
  pub waiter : Option ℕ
  pub dial : Dial
  pub setup : Setup

-- The arguments of `connect`: the host, `none` if it is no string; the port, for a host that is no
-- path; the number that follows, and the string that ends the list, where they are given.
pub record Target : Type 0 where
  pub self : Bool
  pub host : Option Bytes
  pub port : ℤ
  pub size : Option ℤ
  pub key : Option Bytes

unfoldable pub is_path : Bytes → Bool
is_path [] = false
is_path (c ∷ cs) = c == b'/'

unfoldable pub port_of : Bytes → ℤ → ℕ
unfolding is_path
port_of host (negsuc n) = 0
port_of host (pos n) = if is_path host then 0 else n

-- "%s%s:%d:%ld"
unfoldable pub normal_key : (ℕ → Bytes) → Bytes → ℕ → ℕ → Bytes
unfolding c_string
normal_key digits host port ssl_sign =
    let tcp = b't' ∷ b'c' ∷ b'p' ∷ b':' ∷ b'/' ∷ b'/' ∷ [] in
    let unix = b'u' ∷ b'n' ∷ b'i' ∷ b'x' ∷ b':' ∷ b'/' ∷ b'/' ∷ [] in
    let prefix = if ltb 0 port then tcp else unix in
    prefix ++ c_string host ++ b':' ∷ digits port ++ b':' ∷ digits ssl_sign

-- The keepalive options, and the key.
unfoldable pub set_options : Network → Bytes → Target → Cosocket → Cosocket
unfolding clamp_pool_size normal_key port_of
set_options net host t c =
    let size : ℕ = elim t.size [ none ↦ c.pool_size | some n ↦ clamp_pool_size n ] in
    let given : ℕ = elim t.key [ none ↦ c.pool_key | some k ↦ net.fnv1a_32 k ] in
    let key = if ltb 0 size then given else c.pool_key in
    let normal = net.fnv1a_32 (normal_key net.digits host (port_of host t.port) c.ssl_sign) in
    record c { pool_size = size; pool_key = if key == 0 then normal else key }

-- The state before the pool is asked.
unfoldable pub begin_connect : ℕ → Cosocket → Cosocket
begin_connect l c = record c {
  status = 1;
  co = l;
  read_buf = record { chunks = []; total_buf_len = 0; buf_read_len = 0 };
}

-- A connection of the pool is put into the cosocket, whose own SSL context is freed.
unfoldable pub reuse : Conn → World → World
unfolding free_ctx
reuse n w =
    let w' = free_ctx w in
    with_cok w' (record (w'.cok) {
      ctx = n.ctx;
      ssl = n.ssl;
      ssl_pw = n.ssl_pw;
      ptr = some n.ptr;
      status = 2;
      reusedtimes = 1;
      fd = some n.ptr.fd;
    })

-- What `resume_in_waiting_get_connection` does with the cosocket that it serves, before it resumes its
-- coroutine.
unfoldable pub serve_waiter : Conn → World → World
unfolding reuse
serve_waiter n w =
    let w' = reuse n w in
    with_cok w' (record (w'.cok) {
      pool_wait = none;
      inuse = false;
      in_read_action = false;
      timeout_ptr = false;
    })

-- `add_waiting_get_connection(cok)`, for a cosocket at the address `l`.
unfoldable pub wait_for_pool : ℕ → Network → World → Answer × World
wait_for_pool cok net w =
    let r = add_waiting_get_connection cok w.cok.pool_key net.waiter w.pool in
    elim r.0 [
      | none ↦ (error_of "pool error", w)
      | some id ↦ (
        yields,
        record w {
          pool = r.1;
          cok = record w.cok {
            pool_wait = some (record { id = id; cok = cok; k = w.cok.pool_key % buckets });
            status = 3;
            timeout_ptr = true;
            inuse = true;
          };
        },
      )
    ]

abbrev answer_of : Tried → Answer
answer_of (pushed vs) = returns vs
answer_of handshake = yields

-- `connection_pool_counter_operate(cok->pool_key, 1)`
unfoldable pub count_in : World → World
count_in w = record w { pool = connection_pool_counter_operate w.cok.pool_key plus_one w.pool }

-- `se_connect` and what follows it.
unfoldable pub dial_out : Setup → Dial → World → Answer × World
unfolding count_in _be_connect
dial_out net trying w = (yields, count_in w)
dial_out net (refused s) w = (error_of s, w)
dial_out net (opened fd) w = let r = _be_connect net fd (count_in w) in (answer_of r.0, r.1)

-- The number of connections of a key, and whether that is its share of the pool size.
unfoldable pub is_full : ℕ → World → Bool
unfolding find_counter
is_full processes w =
    let c = find_counter w.cok.pool_key (w.pool.counters (w.cok.pool_key % buckets)) in
    ltb 0 c.count && leb (w.cok.pool_size / processes) c.count

-- The pool is asked for a connection; if it has none, `cok->ptr` is NULL, and the pool may be full.
unfoldable pub from_pool : ℕ → Network → Got × Pool → World → Answer × World
unfolding reuse wait_for_pool dial_out is_full
from_pool cok net (connection (some n), p) w =
    (returns (boolean true ∷ []), reuse n (record w { pool = p }))
from_pool cok net (connection none, p) w =
    let w' = record w { pool = p; cok = record w.cok { ptr = none } } in
    if is_full net.processes w' then wait_for_pool cok net w' else dial_out net.setup net.dial w'
from_pool cok net (resumed r, p) w =
    let w' = record w { pool = p; cok = record w.cok { ptr = none } } in
    if is_full net.processes w' then wait_for_pool cok net w' else dial_out net.setup net.dial w'

-- The method from "check pool count" on. A waiter of another key that `get_connection_in_pool` may
-- resume, for a key that is 0, is not followed.
unfoldable pub check_pool : ℕ → Network → World → Answer × World
unfolding from_pool dial_out
check_pool cok net w =
    let r = get_connection_pool_counter w.cok.pool_key w.pool in
    let size = if ltb w.cok.pool_size r.0.size then r.0.size else w.cok.pool_size in
    let w1 = record w { pool = r.1; cok = record w.cok { pool_size = size } } in
    if ltb 0 size
    then from_pool cok net (get_connection_in_pool net.now net.key_of w.cok.pool_key r.1) w1
    else dial_out net.setup net.dial w1

-- The method for a host that is a string: the checks, then the pool.
unfoldable pub connect_to : ℕ → Network → ℕ → Target → Bytes → World → Answer × World
unfolding check_pool begin_connect set_options is_path port_of
connect_to cok net l t host w =
    if not t.self
    then (error_of "Error params!", w)
    else if ltb 0 w.cok.status
    then (error_of "Aleady connected!", w)
    else if w.cok.inuse
    then (error_of "socket busy!", w)
    else if ltb (if is_path host then 108 else 60) (length host)
    then (error_of "hostname length must be <= 60!", w)
    else if not (is_path host) && port_of host t.port == 0
    then (error_of "port must be > 0", w)
    else check_pool cok net (with_cok w (begin_connect l (set_options net host t w.cok)))

-- The method `connect`, called from coroutine `l` on the cosocket at the address `cok`.
unfoldable pub lua_co_connect : ℕ → Network → ℕ → Target → World → Answer × World
unfolding connect_to
lua_co_connect cok net l t w = elim t.host [
  | none ↦ (error_of "Error params!", w)
  | some host ↦ connect_to cok net l t host w
]
