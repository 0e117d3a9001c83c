-- ===== src/Cosocket/Examples.antt =====
-- The theorems on closing and reading at concrete inputs.
use alilua_coevent_module.Prelude.{
  ℕ, ◌+◌, ◌≡◌, refl, true, false, [], ◌∷◌, none, some, pos, arith, if◌then◌else◌,
}
use alilua_coevent_module.ReadBuf.{read_line}
use alilua_coevent_module.ReadBuf.Scan.{line_length}
use alilua_coevent_module.ReadBuf.Fill.{failed, fill}
use alilua_coevent_module.Pool.{Pool, Event}
use alilua_coevent_module.Pool.Counters.{counter_of}
use alilua_coevent_module.Cosocket.{Cosocket, World, leave_queue, with_cok, without_buffers}
use alilua_coevent_module.Cosocket.Close.{Outside, _lua_co_close, timeout_state}
use alilua_coevent_module.Cosocket.Close.Balance.{closes, held}
use alilua_coevent_module.Cosocket.Close.Timeout.{SamePool, timeout_state-IsClosed}
use alilua_coevent_module.Cosocket.Close.Given.{IsGiven, _lua_co_close-IsGiven}
use alilua_coevent_module.Cosocket.Close.Counted.{keeps, counted_out, _lua_co_close-counted}
use alilua_coevent_module.Cosocket.Receive.{be_read_state, a_line, lua_co_read}
use alilua_coevent_module.Cosocket.Receive.Wake.{Abandoned, be_read_state-Abandoned}

abbrev pub event : Event
event = record { id = 1; fd = 9 }

abbrev pub pool : Pool
pool = record { counters = λ k. []; links = λ g k. []; waiting = λ k. []; closed = [] }

-- A connected cosocket that has read "ab" and has "abc" to send.
abbrev pub cosocket : Cosocket
cosocket = record {
  fd = some 9;
  use_ssl = false;
  in_read_action = true;
  pool_wait = none;
  ctx = none;
  ssl_pw = none;
  ssl_sign = 0;
  ssl = none;
  ptr = some event;
  co = 4;
  send_buf = b'a' ∷ b'b' ∷ b'c' ∷ [];
  send_buf_len = 3;
  send_buf_ed = 0;
  send_buf_need_free = false;
  read_buf = record {
    chunks = (b'a' ∷ b'b' ∷ []) ∷ [];
    total_buf_len = 2;
    buf_read_len = read_line;
  };
  status = 2;
  timeout = pos 1000;
  timeout_ptr = true;
  pool_size = 1;
  reusedtimes = 0;
  pool_key = 70;
  inuse = false;
}

abbrev pub world : World
world = record { cok = cosocket; pool = pool; calls = [] }

abbrev outside : Outside
outside = record { now = 60; allocated = true; watched = true; stale = none }

_lua_co_close-IsGiven_example :
    IsGiven (some 9) world (_lua_co_close outside world)
    × ((_lua_co_close outside world).cok.fd ≡ none)
    × ((_lua_co_close outside world).cok.status ≡ 0)
_lua_co_close-IsGiven_example =
    _lua_co_close-IsGiven outside world (λ e h. (tt, tt)) (λ fd h. (event, refl))

timeout_state-IsClosed_example :
    ((x : ℕ) → closes x (timeout_state world).calls ≡ held x (some 9) + closes x [])
    × SamePool world (timeout_state world)
    × ((timeout_state world).cok.fd ≡ none)
    × ((timeout_state world).cok.ptr ≡ none)
    × ((timeout_state world).cok.status ≡ 0)
    × ((timeout_state world).cok.inuse ≡ false)
timeout_state-IsClosed_example = timeout_state-IsClosed world

_lua_co_close-counted_example :
    let v = leave_queue (with_cok world (without_buffers cosocket)) in
    let v' = with_cok v (record (v.cok) { timeout_ptr = false; status = 0 }) in
    counter_of (_lua_co_close outside world).pool 70 ≡ (
      if keeps outside event v'.cok v'.pool
      then counter_of pool 70
      else counted_out 70 70 (counter_of pool 70))
_lua_co_close-counted_example = _lua_co_close-counted 70 9 event outside world refl refl

abbrev read_again : World
read_again = (lua_co_read 0 true true 4 a_line world).1

be_read_state-Abandoned_example : Abandoned none (be_read_state 0 (failed ∷ []) world)
unfolding fill line_length
be_read_state-Abandoned_example =
    be_read_state-Abandoned 0 (failed ∷ []) world false (omega arith) tt refl refl (omega arith)
      refl
