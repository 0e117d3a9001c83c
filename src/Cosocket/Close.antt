-- ===== src/Cosocket/Close.antt =====
-- Closing a cosocket (src/coevent.c): `timeout_handle`, `_lua_co_close` and the methods `close`,
-- `setkeepalive`, `settimeout`, `getreusedtimes` and `__gc`.
pub mod Balance
pub mod Counted
pub mod Timeout
pub mod Given
use Prim.Native.String.{String}
use alilua_coevent_module.Prelude.{
  ℕ, ℤ, pos, negsuc, ◌+◌, ◌<◌, ◌≡◌, Bool, true, false, not, ◌&&◌, ◌||◌, List, [], ◌∷◌, Option, none,
  some, Bytes, if◌then◌else◌, ◌==◌, ltb,
}
use alilua_coevent_module.Pool.{
  Pool, Event, Counter, add_connection_to_pool, get_connection_pool_counter, store_counter,
}
use alilua_coevent_module.Cosocket.{
  Cosocket, World, Value, nil, boolean, number, message, Answer, returns, yields, error_of, Resume,
  Call, se_delete, close, write_null, with_cok, called, uncount, close_fd, free_ssl, free_ctx,
  leave_queue, without_buffers,
}

-- The functions that an event calls, as `timeout_handle` tells them apart.
pub data Handler : Type 0 where
  ssl_connected be_write be_read other : Handler

is_ssl_connected : Handler → Bool
is_ssl_connected ssl_connected = true
is_ssl_connected be_write = false
is_ssl_connected be_read = false
is_ssl_connected other = false

is_be_write : Handler → Bool
is_be_write ssl_connected = false
is_be_write be_write = true
is_be_write be_read = false
is_be_write other = false

is_be_read : Handler → Bool
is_be_read ssl_connected = false
is_be_read be_write = false
is_be_read be_read = true
is_be_read other = false

-- The message of `timeout_handle`, from `status` and the event's `wfunc` and `rfunc`.
unfoldable pub timeout_message : ℕ → Option Event → Handler → Handler → String
unfolding is_ssl_connected is_be_write is_be_read
timeout_message status (some e) wfunc rfunc =
    if status == 3
    then "Connect error!(wait pool timeout)"
    else if is_ssl_connected wfunc
    then "SSL Connect timeout!"
    else if is_be_write wfunc
    then "Send timeout!"
    else if is_be_read rfunc
    then "Read timeout!"
    else "Timeout!"
timeout_message status none wfunc rfunc =
    if status == 3 then "Connect error!(wait pool timeout)" else "Timeout!"

-- `if(cok->fd > -1) { count out; close; fd = -1; }`
unfoldable pub close_counted : World → World
close_counted w = elim w.cok.fd [
  | none ↦ w
  | some fd ↦ let w' = close_fd (uncount w) in with_cok w' (record (w'.cok) { fd = none })
]

-- `if(cok->ssl) { SSL_free; SSL_CTX_free; both NULL }`
unfoldable pub end_ssl : World → World
unfolding free_ssl free_ctx
end_ssl w = elim w.cok.ssl [
  | none ↦ w
  | some s ↦
      let w' = free_ctx (free_ssl w) in with_cok w' (record (w'.cok) { ssl = none; ctx = none })
]

-- `timeout_handle` up to the resumption of the coroutine.
unfoldable pub timeout_state : World → World
unfolding leave_queue close_counted end_ssl
timeout_state w =
    let w1 = leave_queue (with_cok w (record (w.cok) { timeout_ptr = false })) in
    let w2 = called (se_delete w1.cok.ptr) w1 in
    let w3 = close_counted (with_cok w2 (record (w2.cok) { ptr = none })) in
    let w4 = end_ssl (with_cok w3 (record (w3.cok) { status = 0 })) in
    with_cok w4 (record (without_buffers w4.cok) { inuse = false })

unfoldable pub timeout_handle : Resume → Handler → Handler → World → World
unfolding timeout_state timeout_message
timeout_handle resume wfunc rfunc w =
    let text = timeout_message w.cok.status w.cok.ptr wfunc rfunc in
    (resume w.cok.co (nil ∷ message text ∷ []) (timeout_state w)).0

-- What the outside decides while a cosocket is closed: the clock, `malloc` and `se_be_read` in
-- `add_connection_to_pool`, and the memory that `malloc` hands out.
pub record Outside : Type 0 where
  pub now : ℕ
  pub allocated : Bool
  pub watched : Bool
  pub stale : Option ℕ

-- `cok->pool_size < 1 || add_connection_to_pool(…) == 0`, negated: the pool took the connection, whose
-- event is `e`.
unfoldable pub pooled : Outside → Event → Cosocket → Pool → Bool × Pool
pooled o e c p =
    let r =
      add_connection_to_pool o.now c.pool_key c.pool_size (some e) c.ssl c.ctx c.ssl_pw o.stale
        o.allocated o.watched p in
    if ltb c.pool_size 1 then (false, p) else r

-- The branch of `_lua_co_close` for a connection that the pool does not take.
unfoldable pub close_own : World → World
unfolding uncount close_fd free_ssl free_ctx
close_own w = let w' = called (se_delete w.cok.ptr) w in free_ctx (free_ssl (close_fd (uncount w')))

-- The end of `_lua_co_close` for a cosocket with a socket: the fields are cleared.
abbrev pub cleared : Cosocket → Cosocket
cleared c = record c { ssl = none; ctx = none; ssl_pw = none; ptr = none; fd = none }

-- What `_lua_co_close` does with socket `fd`, whose event is the third argument. The socket is written
-- into the event through `cok->ptr`, which may be NULL.
unfoldable pub hand_in : Outside → ℕ → Option Event → World → World
unfolding pooled close_own
hand_in o fd none w = called write_null w
hand_in o fd (some e) w =
    let r = pooled o (record e { fd = fd }) w.cok w.pool in
    if r.0 then record w { pool = r.1 } else close_own w

unfoldable pub give_back : Outside → World → World
unfolding hand_in
give_back o w = elim w.cok.fd [
  | none ↦ w
  | some fd ↦ let w' = hand_in o fd w.cok.ptr w in with_cok w' (cleared w'.cok)
]

-- `_lua_co_close`
unfoldable pub _lua_co_close : Outside → World → World
unfolding leave_queue give_back
_lua_co_close o w =
    let w' = leave_queue (with_cok w (without_buffers w.cok)) in
    give_back o (with_cok w' (record (w'.cok) { timeout_ptr = false; status = 0 }))

-- The method `close`. `self` says that the first argument is a userdata.
unfoldable pub lua_co_close : Outside → Bool → World → Answer × World
unfolding _lua_co_close
lua_co_close o self w =
    if not self
    then (error_of "Error params!", w)
    else if not (w.cok.status == 2)
    then (error_of "Not connected!", w)
    else if w.cok.inuse
    then (error_of "socket busy!", w)
    else (returns [], _lua_co_close o w)

unfoldable pub lua_co_gc : Outside → World → World
unfolding _lua_co_close
lua_co_gc o w = _lua_co_close o w

unfoldable pub lua_co_getreusedtimes : World → Answer
lua_co_getreusedtimes w = returns (number w.cok.reusedtimes ∷ [])

-- The second argument is `some` if `lua_isnumber` holds of it.
unfoldable pub lua_co_settimeout : Bool → Option ℤ → World → Answer × World
lua_co_settimeout self none w = (error_of "Error params!", w)
lua_co_settimeout self (some t) w =
    if self
    then (returns [], with_cok w (record (w.cok) { timeout = t }))
    else (error_of "Error params!", w)

-- `pool_size` is kept between 0 and 4096.
unfoldable pub clamp_pool_size : ℤ → ℕ
clamp_pool_size (negsuc n) = 0
clamp_pool_size (pos n) = if ltb 4096 n then 4096 else n

-- The counter of the key remembers the largest pool size.
unfoldable pub raise_size : ℕ → World → World
raise_size size w =
    let r = get_connection_pool_counter w.cok.pool_key w.pool in
    let raised = store_counter (record (r.0) { size = size }) r.1 in
    record w { pool = if ltb r.0.size size then raised else r.1 }

-- The method `setkeepalive`. `key` is the third argument if there are three and it is a string,
-- and `fnv1a_32` the hash of the merry library.
unfoldable pub lua_co_setkeepalive :
    (Bytes → ℕ) → Outside → Bool → Option ℤ → Option Bytes → World → Answer × World
unfolding clamp_pool_size raise_size _lua_co_close
lua_co_setkeepalive fnv1a_32 o self none key w = (error_of "Error params!", w)
lua_co_setkeepalive fnv1a_32 o self (some n) key w =
    let size = clamp_pool_size n in
    let w1 = raise_size size (with_cok w (record (w.cok) { pool_size = size })) in
    let hashed : ℕ = elim key [ none ↦ w1.cok.pool_key | some k ↦ fnv1a_32 k ] in
    let w2 = with_cok w1 (record (w1.cok) { pool_key = hashed }) in
    if self
    then (returns (boolean true ∷ []), _lua_co_close o w2)
    else (error_of "Error params!", w)
