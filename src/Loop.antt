-- ===== src/Loop.antt =====
-- What the event loop does between its events (src/coevent.c): `coevnet_module_do_other_jobs`,
-- `_do_other_jobs`, `set_loop_fd` and `lua_f_startloop`. The loop itself, `se_loop` of the merry
-- library, is outside.
pub mod Fair
mod Examples
use alilua_coevent_module.Prelude.{
  ℕ, zero, suc, ◌/◌, ◌<◌, ◌≡◌, Bool, true, false, List, [], ◌∷◌, ◌++◌, Option, none, some,
  if◌then◌else◌, ltb,
}
use alilua_coevent_module.Swop.{Swops, take_swop}
use alilua_coevent_module.Pool.{
  Pool, Conn, Waiter, Got, resumed, connection, get_connection_in_pool,
}

-- What the jobs work on.
pub record Jobs : Type 0 where
  pub swops : Swops
  pub pool : Pool

-- The queue is as before, with more behind it: `swop` puts a coroutine at its end.
abbrev pub IsLater : Jobs → Jobs → Type 0
IsLater s t = (more : List ℕ) × (t.swops.queue ≡ s.swops.queue ++ more)

-- What runs in between: `serve` is the coroutine of a cosocket that got a connection, `check` is
-- `check_lua_sleep_timeouts` with the coroutines that it resumes, `resume` is
-- `lua_f_lua_uthread_resume_in_c`, and `suspended` says whether `lua_status` is LUA_YIELD. None of
-- them takes a coroutine out of the queue.
pub record Others : Type 0 where
  pub serve : Waiter × Conn → Jobs → Jobs
  pub check : Jobs → Jobs
  pub resume : ℕ → Jobs → Jobs
  pub suspended : ℕ → Jobs → Bool
  pub serve_later : (w : Waiter × Conn) (s : Jobs) → IsLater s (serve w s)
  pub check_later : (s : Jobs) → IsLater s (check s)
  pub resume_later : (l : ℕ) (s : Jobs) → IsLater s (resume l s)

-- `swop_counter = swop_counter / 2`
abbrev pub halve : Jobs → Jobs
halve s = record s { swops = record (s.swops) { counter = s.swops.counter / 2 } }

-- "resume swops", behind the test: the coroutine that was taken out, if any, and the queue left.
abbrev pub resume_taken : Others → Jobs → Option ℕ → List ℕ → Option ℕ × Jobs
resume_taken others s o queue =
    let s' = record s { swops = record (s.swops) { queue = queue } } in
    elim o [
      | none ↦ (none, s')
      | some l ↦ (some l, if others.suspended l s' then others.resume l s' else s')
    ]

unfoldable pub resume_swop : Others → Jobs → Option ℕ × Jobs
resume_swop others s = let r = take_swop s.swops.queue in resume_taken others s r.0 r.1

module _ (others : Others) (now : ℕ) (key_of : ℕ → ℕ) where
  -- `get_connection_in_pool(_loop_fd, 0, NULL)`: the old connections are cleared, and one cosocket
  -- that waits may be served.
  unfoldable pub serve_pool : Jobs → Jobs
  serve_pool s =
      let r = get_connection_in_pool now key_of 0 s.pool in
      let s' = record s { pool = r.1 } in
      elim r.0 [ connection c ↦ s' | resumed o ↦ elim o [ none ↦ s' | some w ↦ others.serve w s' ] ]

  unfoldable pub coevnet_module_do_other_jobs : Jobs → Option ℕ × Jobs
  coevnet_module_do_other_jobs s = resume_swop others (others.check (serve_pool (halve s)))

  -- `_do_other_jobs`: the loop goes on while the first coroutine is suspended.
  unfoldable pub _do_other_jobs : ℕ → Jobs → Bool × (Option ℕ × Jobs)
  _do_other_jobs job s = let r = coevnet_module_do_other_jobs s in (others.suspended job r.1, r)

-- `_loop_fd` and `_process_count`
pub record Setup : Type 0 where
  pub loop_fd : Option ℕ
  pub process_count : ℕ

unfoldable pub set_loop_fd : ℕ → ℕ → Setup → Setup
set_loop_fd fd count s = record {
  loop_fd = some fd;
  process_count = if ltb 1 count then count else s.process_count;
}

-- What `startloop` does: an error, or `se_loop` on a descriptor.
pub data Started : Type 0 where
  argument_error : Started
  job_error : Started
  loops : ℕ → Started

-- `lua_f_startloop`: `created` is what `se_create` gives, `is_function` says whether the argument is
-- a function of Lua, and `failed` whether the first run of the coroutine ends with an error that has
-- a text.
unfoldable pub lua_f_startloop : ℕ → Bool → Bool → Setup → Started × Setup
lua_f_startloop created is_function failed s =
    let fd : ℕ = elim s.loop_fd [ none ↦ created | some fd ↦ fd ] in
    let s' = record s { loop_fd = some fd } in
    if is_function
    then (if failed then (job_error, s') else (loops fd, s'))
    else (argument_error, s')
