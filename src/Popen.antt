-- ===== src/Popen.antt =====
-- A process opened by `popen` (src/coevent.c), which is read as a cosocket is.
pub mod Life
mod Examples
use Prim.Native.String.{String}
use alilua_coevent_module.Prelude.{
  ℕ, ℤ, pos, ◌+◌, ◌<◌, ◌≡◌, Bool, true, false, not, ◌&&◌, ◌||◌, List, [], ◌∷◌, Option, none, some,
  if◌then◌else◌, ◌==◌, ltb,
}
use alilua_coevent_module.ReadBuf.{ReadBuf, Reply, lua_co_read_}
use alilua_coevent_module.ReadBuf.Fill.{Recv, got, closed, failed, again, fill}
use alilua_coevent_module.Pool.{Pool, Event}
use alilua_coevent_module.Cosocket.{
  Cosocket, World, Value, nil, message, Answer, returns, yields, error_of, se_delete, with_cok,
  called, leave_queue, without_buffers,
}
use alilua_coevent_module.Cosocket.Close.{Handler, other, timeout_message, Outside, _lua_co_close}
use alilua_coevent_module.Cosocket.Receive.{Pattern, pushed, buf_read_len_of, is_none}

-- A process: its cosocket, with what lies outside of it, and how often `pclose(cok->fp)` was called.
pub record Process : Type 0 where
  pub world : World
  pub pcloses : ℕ

abbrev pub with_cosocket : Process → Cosocket → Process
with_cosocket p c = record p { world = with_cok p.world c }

-- `lua_f_lua_uthread_resume_in_c(cok->L, n)` with the values pushed before it, as for a cosocket.
abbrev pub Resume : Type 0
Resume = ℕ → List Value → Process → Process × Bool

-- `pclose(cok->fp); cok->fd = -1`
unfoldable pub pclose : Process → Process
pclose p = record p {
  world = with_cok p.world (record p.world.cok { fd = none });
  pcloses = p.pcloses + 1;
}

-- `se_delete(cok->ptr); cok->ptr = NULL; pclose(cok->fp); cok->fd = -1`
unfoldable pub end_pipe : Process → Process
end_pipe p =
    let w = called (se_delete p.world.cok.ptr) p.world in
    pclose (record p { world = with_cok w (record w.cok { ptr = none }) })

-- The same, and `cok->status = 0`.
unfoldable pub hang_up_pipe : Process → Process
hang_up_pipe p = let q = end_pipe p in with_cosocket q (record (q.world.cok) { status = 0 })

-- `if(cok->fd > -1) { pclose(cok->fp); cok->fd = -1; }`
unfoldable pub pclose_open : Process → Process
pclose_open p = elim p.world.cok.fd [ none ↦ p | some fd ↦ pclose p ]

-- `popen_timeout_handle` up to the resumption of the coroutine.
unfoldable pub popen_timeout_state : Process → Process
popen_timeout_state p =
    let w1 = leave_queue (with_cok p.world (record (p.world.cok) { timeout_ptr = false })) in
    let w2 = called (se_delete w1.cok.ptr) w1 in
    let q = pclose_open (record p { world = with_cok w2 (record (w2.cok) { ptr = none }) }) in
    let c = record (q.world.cok) { status = 0 } in
    with_cosocket q (record (without_buffers c) { inuse = false })

-- The event of a process calls neither `cosocket_be_ssl_connected` nor `cosocket_be_write`, and its
-- read handler is not `cosocket_be_read`.
unfoldable pub popen_timeout_handle : Resume → Process → Process
popen_timeout_handle resume p =
    let c = p.world.cok in
    let text = timeout_message c.status c.ptr other other in
    (resume c.co (nil ∷ message text ∷ []) (popen_timeout_state p)).0

-- `lua_co_popen_read_(cok)` as a handler calls it. Its text is that of `lua_co_read_`, which stands for it
-- here.
unfoldable pub popen_try_read : ℕ → Process → Option (List Value) × Process
popen_try_read below p =
    let c = p.world.cok in
    let r = lua_co_read_ below c.status c.read_buf in
    (pushed r.0, with_cosocket p (record c { read_buf = r.1 }))

-- The branch of `cosocket_be_popen_read` for a pipe that was closed or failed: `eof` for `n == 0`.
unfoldable pub popen_read_closed : ℕ → Bool → Process → Option (List Value) × Process
popen_read_closed below eof p =
    let p1 = hang_up_pipe (with_cosocket p (record (p.world.cok) { timeout_ptr = false })) in
    let r =
      popen_try_read below (with_cosocket p1 (record (p1.world.cok) { in_read_action = false })) in
    let p2 = with_cosocket r.1 (record (r.1.world.cok) { inuse = false }) in
    let woken : Option (List Value) = elim r.0 [
      | some vs ↦ some vs
      | none ↦ if eof then some (nil ∷ []) else none
    ] in
    if p1.world.cok.in_read_action then (woken, p2) else (none, p1)

-- The branch for a pipe that has no more to give now.
unfoldable pub popen_read_more : ℕ → Process → Option (List Value) × Process
popen_read_more below p =
    let r = popen_try_read below p in
    let done : Cosocket → Cosocket =
      λ c. record c { in_read_action = false; timeout_ptr = false; inuse = false } in
    if p.world.cok.in_read_action
    then elim r.0 [
      | none ↦ (none, r.1)
      | some vs ↦ (some vs, with_cosocket r.1 (done r.1.world.cok))
    ]
    else (none, p)

unfoldable pub popen_after_fill : ℕ → Recv → Process → Option (List Value) × Process
popen_after_fill below closed p = popen_read_closed below true p
popen_after_fill below failed p = popen_read_closed below false p
popen_after_fill below again p = popen_read_more below p
popen_after_fill below (got b s) p = popen_read_more below p

-- `cosocket_be_popen_read` up to the resumption. Its loop over `read` is that over `recv`.
unfoldable pub be_popen_read_state : ℕ → List Recv → Process → Option (List Value) × Process
be_popen_read_state below es p =
    let r = fill es p.world.cok.read_buf in
    popen_after_fill below r.1 (with_cosocket p (record (p.world.cok) { read_buf = r.0 }))

-- `cosocket_be_popen_read`: if the coroutine ends with an error, the pipe is closed.
unfoldable pub cosocket_be_popen_read : ℕ → Resume → List Recv → Process → Process
cosocket_be_popen_read below resume es p =
    let r = be_popen_read_state below es p in
    elim r.0 [
      | none ↦ r.1
      | some vs ↦
          let (p', failed_run) = resume r.1.world.cok.co vs r.1 in
          if failed_run then hang_up_pipe p' else p'
    ]

-- The end of `lua_co_popen_read`, with nothing to return yet.
unfoldable pub popen_wait_for_bytes : Bool → Process → Answer × Process
popen_wait_for_bytes watched p =
    let c = p.world.cok in
    let waiting =
      with_cosocket p (record c { in_read_action = true; timeout_ptr = true; inuse = true }) in
    if is_none c.fd
    then (error_of "Not connected!", p)
    else if not c.in_read_action && not watched
    then (error_of "Network Error!", pclose (with_cosocket p (record c { in_read_action = true })))
    else (yields, waiting)

unfoldable pub popen_read_or_wait : Bool → Option (List Value) × Process → Answer × Process
popen_read_or_wait watched (some vs, p) = (returns vs, p)
popen_read_or_wait watched (none, p) = popen_wait_for_bytes watched p

-- The method `read` of a process, called from coroutine `l`.
unfoldable pub lua_co_popen_read : ℕ → Bool → Bool → ℕ → Pattern → Process → Answer × Process
lua_co_popen_read below watched self l pattern p =
    let c = p.world.cok in
    let connected = c.status == 2 && not (is_none c.fd) && not (is_none c.ptr) in
    let asked = with_cosocket p (record c {
      co = l;
      read_buf = record (c.read_buf) { buf_read_len = buf_read_len_of pattern };
    }) in
    if not self
    then (error_of "Error params!", p)
    else if not connected && ltb c.read_buf.total_buf_len 1
    then (error_of "Not connected!", p)
    else if c.inuse
    then (error_of "socket busy!", p)
    else popen_read_or_wait watched (popen_try_read below asked)

-- The cosocket of a new process: zeros, and what `lua_co_popen` sets.
unfoldable pub popen_cosocket : ℕ → ℕ → ℕ → Cosocket
popen_cosocket l event fd = record {
  fd = some fd;
  use_ssl = false;
  in_read_action = false;
  pool_wait = none;
  ctx = none;
  ssl_pw = none;
  ssl_sign = 0;
  ssl = none;
  ptr = some (record { id = event; fd = fd });
  co = l;
  send_buf = [];
  send_buf_len = 0;
  send_buf_ed = 0;
  send_buf_need_free = false;
  read_buf = record { chunks = []; total_buf_len = 0; buf_read_len = 0 };
  status = 2;
  timeout = pos 30000;
  timeout_ptr = false;
  pool_size = 0;
  reusedtimes = 0;
  pool_key = 0;
  inuse = false;
}

-- A new process, or the values returned without one.
pub data Opened : Type 0 where
  process : Process → Opened
  unopened : Answer → Opened

-- `lua_co_popen` with `args` arguments: `fileno` is that of the pipe if `popen` succeeds, `event` the
-- event of `se_add`, and `userdata` says whether there is memory.
unfoldable pub lua_co_popen : ℕ → Option ℕ → Bool → ℕ → ℕ → Pool → Opened
lua_co_popen args none userdata l event pool =
    if ltb args 1 then unopened (error_of "Error params!") else unopened (error_of "popen error!")
lua_co_popen args (some fd) userdata l event pool =
    if ltb args 1
    then unopened (error_of "Error params!")
    else if not userdata
    then unopened (error_of "stack error!")
    else process (record {
      world = record { cok = popen_cosocket l event fd; pool = pool; calls = [] };
      pcloses = 0;
    })

-- `if(cok->fd > -1) { se_delete; NULL; pclose; -1 }`, then `_lua_co_close`.
unfoldable pub popen_close_all : Outside → Process → Process
popen_close_all o p =
    let q : Process = elim p.world.cok.fd [ none ↦ p | some fd ↦ end_pipe p ] in
    record q { world = _lua_co_close o q.world }

-- The methods `close` and `__gc` of a process.
unfoldable pub lua_co_popen_close : Outside → Bool → Process → Answer × Process
lua_co_popen_close o self p =
    if not self
    then (error_of "Error params!", p)
    else if not (p.world.cok.status == 2)
    then (error_of "Not connected!", p)
    else if p.world.cok.inuse
    then (error_of "socket busy!", p)
    else (returns [], popen_close_all o p)

unfoldable pub lua_co_popen_gc : Outside → Bool → Process → Answer × Process
lua_co_popen_gc o self p =
    if not self
    then (error_of "Error params!", p)
    else if not (p.world.cok.status == 2)
    then (error_of "Not connected!", p)
    else if p.world.cok.inuse
    then (error_of "socket busy!", p)
    else (returns [], popen_close_all o p)
