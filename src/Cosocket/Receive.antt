-- ===== src/Cosocket/Receive.antt =====
-- Receiving on a cosocket (src/coevent.c): `cosocket_be_read`, which the event loop calls, and the
-- method `read`; also their copies for a process opened by `popen`.
pub mod Wake
pub mod Yield
use alilua_coevent_module.Prelude.{
  ℕ, ◌<◌, ◌≡◌, Bool, true, false, not, ◌&&◌, ◌||◌, List, [], ◌∷◌, Option, none, some, Bytes,
  if◌then◌else◌, ◌==◌, ltb,
}
use alilua_coevent_module.ReadBuf.{
  ReadBuf, Reply, nothing, not_connected, line, fault, read_line, read_all, lua_co_read_,
}
use alilua_coevent_module.ReadBuf.Fill.{Recv, got, closed, failed, again, fill}
use alilua_coevent_module.Pool.{Event}
use alilua_coevent_module.Cosocket.{
  Cosocket, World, Value, nil, bytes, message, wrapped_bytes, Answer, returns, yields, error_of,
  Resume, with_cok, called, se_be_read, hang_up, close_fd,
}

-- The values that `lua_co_read_` pushes; `none` where it returns 0.
abbrev pub pushed : Reply → Option (List Value)
pushed nothing = none
pushed not_connected = some (nil ∷ message "Not connected!" ∷ [])
pushed (line s) = some (bytes s ∷ [])
pushed fault = some (wrapped_bytes ∷ [])

-- `lua_co_read_(cok)` as a handler calls it. `below` is the byte in front of the copy.
unfoldable pub try_read : ℕ → World → Option (List Value) × World
try_read below w =
    let r = lua_co_read_ below w.cok.status w.cok.read_buf in
    (pushed r.0, with_cok w (record (w.cok) { read_buf = r.1 }))

-- The branch of `cosocket_be_read` for a socket that was closed or failed: `eof` for `n == 0`.
unfoldable pub read_closed : ℕ → Bool → World → Option (List Value) × World
read_closed below eof w =
    let w1 = hang_up (with_cok w (record (w.cok) { timeout_ptr = false })) in
    let r = try_read below (with_cok w1 (record (w1.cok) { in_read_action = false })) in
    let w2 = with_cok r.1 (record (r.1.cok) { inuse = false }) in
    let woken : Option (List Value) = elim r.0 [
      | some vs ↦ some vs
      | none ↦ if eof then some (nil ∷ []) else none
    ] in
    if w1.cok.in_read_action then (woken, w2) else (none, w1)

-- The branch for a socket that has no more to give now.
unfoldable pub read_more : ℕ → World → Option (List Value) × World
read_more below w =
    let r = try_read below w in
    let done : Cosocket → Cosocket =
      λ c. record c { in_read_action = false; timeout_ptr = false; inuse = false } in
    if w.cok.in_read_action
    then elim r.0 [ none ↦ (none, r.1) | some vs ↦ (some vs, with_cok r.1 (done r.1.cok)) ]
    else (none, w)

unfoldable pub after_fill : ℕ → Recv → World → Option (List Value) × World
after_fill below closed w = read_closed below true w
after_fill below failed w = read_closed below false w
after_fill below again w = read_more below w
after_fill below (got b s) w = read_more below w

-- `cosocket_be_read` up to the resumption: the values for the coroutine, if it is resumed.
unfoldable pub be_read_state : ℕ → List Recv → World → Option (List Value) × World
be_read_state below es w =
    let r = fill es w.cok.read_buf in
    after_fill below r.1 (with_cok w (record (w.cok) { read_buf = r.0 }))

-- `cosocket_be_read`: if the coroutine ends with an error, the connection is hung up.
unfoldable pub cosocket_be_read : ℕ → Resume → List Recv → World → World
unfolding be_read_state hang_up
cosocket_be_read below resume es w =
    let r = be_read_state below es w in
    elim r.0 [
      | none ↦ r.1
      | some vs ↦
          let (w', failed_run) = resume r.1.cok.co vs r.1 in if failed_run then hang_up w' else w'
    ]

-- The second argument of `read`: a number, as a `size_t`; the string "*a"; or another.
pub data Pattern : Type 0 where
  count : ℕ → Pattern
  all_bytes : Pattern
  a_line : Pattern

abbrev pub buf_read_len_of : Pattern → ℕ
buf_read_len_of (count n) = n
buf_read_len_of all_bytes = read_all
buf_read_len_of a_line = read_line

unfoldable pub is_none {ℓ} : {A : Type ℓ} → Option A → Bool
is_none none = true
is_none (some a) = false

-- The end of `lua_co_read`, with nothing to return yet. `watched` says whether `se_be_read` succeeds.
unfoldable pub wait_for_bytes : Bool → World → Answer × World
unfolding close_fd is_none
wait_for_bytes watched w =
    let registered =
      called (se_be_read w.cok.ptr) (with_cok w (record (w.cok) { in_read_action = true })) in
    let lost = close_fd registered in
    let asked = if w.cok.in_read_action then w else registered in
    let waiting = with_cok asked (record (asked.cok) { timeout_ptr = true; inuse = true }) in
    if is_none w.cok.fd
    then (error_of "Not connected!", w)
    else if not w.cok.in_read_action && not watched
    then (error_of "Network Error!", with_cok lost (record (lost.cok) { fd = none }))
    else (yields, waiting)

unfoldable pub read_or_wait : Bool → Option (List Value) × World → Answer × World
read_or_wait watched (some vs, w) = (returns vs, w)
read_or_wait watched (none, w) = wait_for_bytes watched w

-- The method `read` (or `receive`), called from coroutine `l`.
unfoldable pub lua_co_read : ℕ → Bool → Bool → ℕ → Pattern → World → Answer × World
unfolding is_none
lua_co_read below watched self l pattern w =
    let connected = w.cok.status == 2 && not (is_none w.cok.fd) && not (is_none w.cok.ptr) in
    let asked = with_cok w (record (w.cok) {
      co = l;
      read_buf = record (w.cok.read_buf) { buf_read_len = buf_read_len_of pattern };
    }) in
    if not self
    then (error_of "Error params!", w)
    else if not connected && ltb w.cok.read_buf.total_buf_len 1
    then (error_of "Not connected!", w)
    else if w.cok.inuse
    then (error_of "socket busy!", w)
    else read_or_wait watched (try_read below asked)
