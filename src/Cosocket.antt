-- ===== src/Cosocket.antt =====
-- A cosocket (src/coevent.h, src/coevent.c): its state, the calls that it makes outside, and the
-- pieces that its handlers share.
pub mod Close
pub mod Send
pub mod Receive
pub mod Connect
pub mod Examples
use Prim.Native.String.{String}
use alilua_coevent_module.Prelude.{
  ℤ, ℕ, ◌+◌, ◌-◌, ◌<◌, ◌≡◌, ◌≢◌, Bool, true, false, List, [], ◌∷◌, Option, none, some, Bytes,
  if◌then◌else◌, ◌==◌,
}
use alilua_coevent_module.ReadBuf.{ReadBuf}
use alilua_coevent_module.Pool.{
  Pool, Event, Waiter, connection_pool_counter_operate, delete_in_waiting_get_connection, minus_one,
}

-- Values that the C code pushes for Lua. `wrapped_bytes` is a string whose length has wrapped below
-- zero.
pub data Value : Type 0 where
  nil : Value
  boolean : Bool → Value
  number : ℕ → Value
  bytes : Bytes → Value
  message : String → Value
  wrapped_bytes : Value

-- `cosocket_t`. `fd` is `none` for -1; pointers to OpenSSL's objects and to the password are
-- numbers, `none` for NULL; `co` is the field `L`.
pub record Cosocket : Type 0 where
  pub fd : Option ℕ
  pub use_ssl : Bool
  pub in_read_action : Bool
  pub pool_wait : Option Waiter
  pub ctx : Option ℕ
  pub ssl_pw : Option ℕ
  pub ssl_sign : ℕ
  pub ssl : Option ℕ
  pub ptr : Option Event
  pub co : ℕ
  pub send_buf : Bytes
  pub send_buf_len : ℕ
  pub send_buf_ed : ℕ
  pub send_buf_need_free : Bool
  pub read_buf : ReadBuf
  pub status : ℕ
  pub timeout : ℤ
  pub timeout_ptr : Bool
  pub pool_size : ℕ
  pub reusedtimes : ℕ
  pub pool_key : ℕ
  pub inuse : Bool

-- Calls of the event loop, the system and OpenSSL that give something back; `se_be_read`, which asks for
-- the event when bytes can be read; and `write_null`, a write
-- through a null pointer, which ends the program: what a state says behind it is without meaning.
pub data Call : Type 0 where
  se_delete : Option Event → Call
  se_be_read : Option Event → Call
  close : ℕ → Call
  ssl_free : ℕ → Call
  ctx_free : ℕ → Call
  write_null : Call

-- What a handler works on: its cosocket, the pool, and the calls made, newest first.
pub record World : Type 0 where
  pub cok : Cosocket
  pub pool : Pool
  pub calls : List Call

-- What a Lua method does: it returns values, or it yields its coroutine.
pub data Answer : Type 0 where
  returns : List Value → Answer
  yields : Answer

-- `lua_f_lua_uthread_resume_in_c(cok->L, n)` with the values pushed before it: Lua code runs and
-- may change everything; the flag says that it ended with LUA_ERRRUN.
abbrev pub Resume : Type 0
Resume = ℕ → List Value → World → World × Bool

abbrev pub error_of : String → Answer
error_of s = returns (nil ∷ message s ∷ [])

abbrev pub with_cok : World → Cosocket → World
with_cok w c = record w { cok = c }

abbrev pub called : Call → World → World
called c w = record w { calls = c ∷ w.calls }

-- `connection_pool_counter_operate(cok->pool_key, -1)`
unfoldable pub uncount : World → World
uncount w = record w { pool = connection_pool_counter_operate w.cok.pool_key minus_one w.pool }

-- `close(cok->fd)`
unfoldable pub close_fd : World → World
close_fd w = elim w.cok.fd [ none ↦ w | some fd ↦ called (close fd) w ]

-- Freeing an OpenSSL object, if it is there.
unfoldable pub free_ssl : World → World
free_ssl w = elim w.cok.ssl [ none ↦ w | some s ↦ called (ssl_free s) w ]

unfoldable pub free_ctx : World → World
free_ctx w = elim w.cok.ctx [ none ↦ w | some s ↦ called (ctx_free s) w ]

-- `if(cok->pool_wait) { delete_in_waiting_get_connection(…); cok->pool_wait = NULL; }`
unfoldable pub leave_queue : World → World
leave_queue w = elim w.cok.pool_wait [
  | none ↦ w
  | some n ↦ record w {
    cok = record w.cok { pool_wait = none };
    pool = delete_in_waiting_get_connection n w.pool;
  }
]

-- The chain of chunks and the large send buffer are freed. `total_buf_len` keeps its value.
abbrev pub without_buffers : Cosocket → Cosocket
without_buffers c = record c {
  read_buf = record (c.read_buf) { chunks = [] };
  send_buf_need_free = false;
}

-- `se_delete(cok->ptr); cok->ptr = NULL`, `fd = -1` and `status = 0` around `close(cok->fd)`, with
-- the connection counted out.
unfoldable pub hang_up : World → World
unfolding uncount close_fd
hang_up w =
    let w' = close_fd (uncount (called (se_delete w.cok.ptr) w)) in
    with_cok w' (record w'.cok { ptr = none; fd = none; status = 0 })

-- The same without the counter: what the code does where the event cannot be registered.
unfoldable pub hang_up_uncounted : World → World
unfolding close_fd
hang_up_uncounted w =
    let w' = close_fd (called (se_delete w.cok.ptr) w) in
    with_cok w' (record w'.cok { ptr = none; fd = none; status = 0 })
