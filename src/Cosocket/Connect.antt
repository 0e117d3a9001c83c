-- ===== src/Cosocket/Connect.antt =====
-- Connecting a cosocket (src/coevent.c): `_be_connect`, the handlers `be_connect` and
-- `cosocket_be_ssl_connected`, and the method `connect`.
pub mod Socket
pub mod Settled
pub mod Method
pub mod Examples
use Prim.Native.String.{String}
use alilua_coevent_module.Prelude.{
  ℕ, ℤ, pos, negsuc, ◌/◌, ◌%◌, Bool, true, false, not, ◌&&◌, List, [], ◌∷◌, ◌++◌, Option, none,
  some, Bytes, length, if◌then◌else◌, ◌==◌, ltb, leb,
}
use alilua_coevent_module.Pool.{
  Pool, Event, Conn, Counter, Waiter, buckets, Got, connection, resumed, find_counter,
  get_connection_pool_counter, get_connection_in_pool, add_waiting_get_connection,
  connection_pool_counter_operate, plus_one,
}
use alilua_coevent_module.Cosocket.{
  Cosocket, World, Value, nil, boolean, message, Answer, returns, yields, error_of, Resume,
  with_cok, uncount, free_ssl, free_ctx, hang_up, hang_up_uncounted,
}
use alilua_coevent_module.Cosocket.Close.{clamp_pool_size}

-- What the outside decides while a connection is set up: the event of `se_add`, the results of
-- `SSL_CTX_new` and `SSL_new`, whether `se_be_read` succeeds, and whether `SSL_connect` gives 1.
pub record Setup : Type 0 where
  pub event : ℕ
  pub ctx_new : Option ℕ
  pub ssl_new : Option ℕ
  pub watched : Bool
  pub ssl_connected : Bool

-- The result of `_be_connect`: pushed values, or -2 while the handshake runs.
pub data Tried : Type 0 where
  pushed : List Value → Tried
  handshake : Tried

abbrev failure : String → Tried
failure s = pushed (nil ∷ message s ∷ [])

unfoldable pub drop_ctx : World → World
unfolding free_ctx
drop_ctx w = let w' = free_ctx w in with_cok w' (record (w'.cok) { ctx = none })

unfoldable pub drop_ssl : World → World
unfolding free_ssl
drop_ssl w = let w' = free_ssl w in with_cok w' (record (w'.cok) { ssl = none })

-- `SSL_new` and what follows it.
unfoldable pub try_ssl : Setup → Option ℕ → World → Tried × World
unfolding hang_up hang_up_uncounted drop_ctx drop_ssl
try_ssl net none w = (failure "SSL_new Error", drop_ctx (hang_up w))
try_ssl net (some s) w =
    let w1 = with_cok w (record (w.cok) { ssl = some s }) in
    let lost = drop_ctx (drop_ssl (hang_up_uncounted w1)) in
    if not net.watched
    then (failure "Network Error", lost)
    else if net.ssl_connected
    then (pushed (boolean true ∷ []), with_cok w1 (record (w1.cok) { inuse = false }))
    else (handshake, with_cok w1 (record (w1.cok) { timeout_ptr = true }))

-- The context, made if the cosocket has none.
unfoldable pub try_ctx : Setup → Option ℕ → Option ℕ → World → Tried × World
unfolding try_ssl hang_up
try_ctx net (some c) made w = try_ssl net net.ssl_new w
try_ctx net none none w = (failure "SSL_CTX_new Error", hang_up w)
try_ctx net none (some c) w = try_ssl net net.ssl_new (with_cok w (record (w.cok) { ctx = some c }))

-- `_be_connect`
unfoldable pub _be_connect : Setup → ℕ → World → Tried × World
unfolding try_ctx
_be_connect net fd w =
    let event : Event = record { id = net.event; fd = fd } in
    let w1 =
      with_cok w
        (record (w.cok) { fd = some fd; ptr = some event; status = 2; in_read_action = false }) in
    if w.cok.use_ssl
    then try_ctx net w1.cok.ctx net.ctx_new w1
    else (pushed (boolean true ∷ []), with_cok w1 (record (w1.cok) { inuse = false }))

-- `se_errno`
pub data DialError : Type 0 where
  dns_query_timeout connect_timeout unknown : DialError

abbrev dial_message : DialError → String
dial_message dns_query_timeout = "Connect error!(dns query timeout)"
dial_message connect_timeout = "Connect error!(timeout)"
dial_message unknown = "Connect error!(unknow)"

-- The socket that `be_connect` is called with, or the reason why there is none.
pub data Dialled : Type 0 where
  dialled : ℕ → Dialled
  undialled : DialError → Dialled

-- `be_connect` up to the resumption: the values for the coroutine, if it is resumed.
unfoldable pub be_connect_state : Setup → Dialled → World → Option (List Value) × World
unfolding uncount _be_connect
be_connect_state net (undialled e) w =
    let w' = uncount w in
    (
      some (nil ∷ message (dial_message e) ∷ []),
      with_cok w' (record (w'.cok) { status = 0; inuse = false }),
    )
be_connect_state net (dialled fd) w =
    let r = _be_connect net fd w in
    elim r.0 [ pushed vs ↦ (some vs, r.1) | handshake ↦ (none, r.1) ]

unfoldable pub be_connect : Resume → Setup → Dialled → World → World
unfolding be_connect_state
be_connect resume net d w =
    let r = be_connect_state net d w in
    elim r.0 [ none ↦ r.1 | some vs ↦ (resume r.1.cok.co vs r.1).0 ]

is_zero : ℤ → Bool
is_zero (pos n) = n == 0
is_zero (negsuc n) = false

-- `cosocket_be_ssl_connected`: every result of `SSL_connect` but 0 ends the handshake.
unfoldable pub cosocket_be_ssl_connected : Resume → ℤ → World → World
unfolding is_zero
cosocket_be_ssl_connected resume r w =
    let w' = with_cok w (record (w.cok) { timeout_ptr = false; inuse = false }) in
    let woken = (resume w.cok.co (boolean true ∷ []) w').0 in if is_zero r then w else woken
