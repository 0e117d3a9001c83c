-- ===== src/Cosocket/Receive/Wake.antt =====
-- What `cosocket_be_read` (src/coevent.c) hands to the coroutine that waits for bytes.
use alilua_coevent_module.Prelude.{
  ℕ, ◌<◌, ◌≡◌, ◌∙◌, refl, Bool, true, false, List, [], ◌∷◌, ◌++◌, Option, none, some, arith, Bytes,
  length, inl, if◌then◌else◌,
}
use alilua_coevent_module.ReadBuf.{IsValid}
use alilua_coevent_module.ReadBuf.Refine.{text, wanted, lua_co_read_-waits}
use alilua_coevent_module.ReadBuf.Fill.{Recv, closed, failed, fill, Obeys, received, fill-Filled}
use alilua_coevent_module.Cosocket.{World, Value, nil, bytes, hang_up, uncount, close_fd, with_cok}
use alilua_coevent_module.Cosocket.Receive.{try_read, read_closed, after_fill, be_read_state}

-- The handler wakes its coroutine with these bytes, keeps the rest of the text, and is ready for
-- the next call.
pub record Woken (s rest : Bytes) (r : Option (List Value) × World) : Type 0 where
  pub values : r.0 ≡ some (bytes s ∷ [])
  pub left : text r.1.cok.read_buf ≡ rest
  pub valid : IsValid r.1.cok.read_buf
  pub idle : r.1.cok.inuse ≡ false
  pub no_timer : r.1.cok.timeout_ptr ≡ false
  pub no_action : r.1.cok.in_read_action ≡ false

hang_up_fields :
    (w : World)
    → ((hang_up w).cok.read_buf ≡ w.cok.read_buf)
      × ((hang_up w).cok.in_read_action ≡ w.cok.in_read_action)
      × ((hang_up w).cok.timeout_ptr ≡ w.cok.timeout_ptr)
      × ((hang_up w).cok.fd ≡ none)
      × ((hang_up w).cok.status ≡ 0)
unfolding hang_up uncount close_fd
hang_up_fields w = ground arith

-- What becomes of a reader when its connection ends and the bytes that are there answer it not.
pub record Abandoned (vs : Option (List Value)) (r : Option (List Value) × World) : Type 0 where
  pub values : r.0 ≡ vs
  pub no_timer : r.1.cok.timeout_ptr ≡ false
  pub no_fd : r.1.cok.fd ≡ none
  pub no_action : r.1.cok.in_read_action ≡ false

read_closed-Abandoned :
    (below : ℕ) (eof : Bool) (w : World)
    → IsValid w.cok.read_buf
    → w.cok.in_read_action ≡ true
    → 0 < length (text w.cok.read_buf)
    → wanted 0 w.cok.read_buf.buf_read_len (text w.cok.read_buf) ≡ none
    → Abandoned (if eof then some (nil ∷ []) else none) (read_closed below eof w)
unfolding read_closed try_read
read_closed-Abandoned below eof w v action pos e =
    let w1 = hang_up (with_cok w (record (w.cok) { timeout_ptr = false })) in
    let (same_buf, same_action, same_timer, no_fd, closed_now) =
      hang_up_fields (with_cok w (record (w.cok) { timeout_ptr = false })) in
    let action' : w1.cok.in_read_action ≡ true = same_action ∙ action in
    let answer = lua_co_read_-waits below 0 w.cok.read_buf v pos (inl e) in
    rw (action', closed_now, same_buf, answer)
      (record { values = refl; no_timer = same_timer; no_fd = no_fd; no_action = refl })

-- When the connection ends while a reader waits for a line and some bytes of one, but not all, have
-- come, the
-- reader is woken with nil if the peer closed the stream, but after an error of `recv` it is not
-- woken at all, and its timer is gone: the coroutine never runs again.
pub be_read_state-Abandoned :
    (below : ℕ) (es : List Recv) (w : World) (eof : Bool)
    → IsValid w.cok.read_buf
    → Obeys es w.cok.read_buf
    → (fill es w.cok.read_buf).1 ≡ (if eof then closed else failed)
    → w.cok.in_read_action ≡ true
    → let s = text w.cok.read_buf ++ received es in
      0 < length s
      → wanted 0 w.cok.read_buf.buf_read_len s ≡ none
      → Abandoned (if eof then some (nil ∷ []) else none) (be_read_state below es w)
unfolding be_read_state after_fill
be_read_state-Abandoned below es w true v o end_of action pos e =
    let r = (fill es w.cok.read_buf).0 in
    let (added, same, valid) = fill-Filled es w.cok.read_buf v o in
    rw (end_of, after_fill)
      (read_closed-Abandoned below true (with_cok w (record (w.cok) { read_buf = r })) valid action
        (rw added pos) (rw (added, same) e))
be_read_state-Abandoned below es w false v o end_of action pos e =
    let r = (fill es w.cok.read_buf).0 in
    let (added, same, valid) = fill-Filled es w.cok.read_buf v o in
    rw (end_of, after_fill)
      (read_closed-Abandoned below false (with_cok w (record (w.cok) { read_buf = r })) valid action
        (rw added pos) (rw (added, same) e))
