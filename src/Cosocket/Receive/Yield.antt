-- ===== src/Cosocket/Receive/Yield.antt =====
-- Which calls of `read` (src/coevent.c) suspend the coroutine, and what they have prepared then.
use alilua_coevent_module.Prelude.{ℕ, ◌≡◌, ◌≢◌, true, ◌∷◌, none, if◌then◌else◌}
use alilua_coevent_module.ReadBuf.{nothing, lua_co_read_}
use alilua_coevent_module.Cosocket.{World, se_be_read}
use alilua_coevent_module.Cosocket.Receive.{Pattern, buf_read_len_of}

-- A suspended reader: a timer runs, the socket is open, the event loop was asked for the event of its
-- bytes unless a reader was noted before, no other call gets in, and the bytes that are there do not
-- answer the call.
pub record IsWaiting (below l : ℕ) (pattern : Pattern) (w w' : World) : Type 0 where
  pub timer : w'.cok.timeout_ptr ≡ true
  pub reading : w'.cok.in_read_action ≡ true
  pub busy : w'.cok.inuse ≡ true
  pub reader : w'.cok.co ≡ l
  pub open_fd : w'.cok.fd ≢ none
  pub registered :
      w'.calls ≡ (if w.cok.in_read_action then w.calls else se_be_read w.cok.ptr ∷ w.calls)
  pub unanswered :
      (lua_co_read_ below w.cok.status
        (record (w.cok.read_buf) { buf_read_len = buf_read_len_of pattern })).0
      ≡ nothing
