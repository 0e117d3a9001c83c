-- ===== src/Threads/Examples.antt =====
-- A coroutine that waits, at concrete inputs.
use alilua_coevent_module.Prelude.{[], ◌∷◌, true, false, arith, refl}
use alilua_coevent_module.Threads.{Threads, new_key, find_key, lua_f_lua_uthread_resume_waitings}
use alilua_coevent_module.Threads.Waits.{Waits}
use alilua_coevent_module.Threads.Keys.{times}
use alilua_coevent_module.Threads.Wakes.{IsToldOf, lua_f_lua_uthread_resume_waitings-IsToldOf}

-- Coroutine 5 has a key; every coroutine is suspended.
abbrev pair : Threads
pair = record { keys = new_key 5 ∷ []; suspended = λ c. true; woken = [] }

-- Coroutine 9 waits for 5 only.
abbrev last_one : Threads
last_one = record {
  keys =
      record { co = 5; waiting = 9 ∷ []; wd = false; w = 0; ref = 1 }
      ∷ record { co = 9; waiting = []; wd = false; w = 1; ref = 2 }
      ∷ [];
  suspended = λ c. true;
  woken = [];
}

lua_f_lua_uthread_resume_waitings-IsToldOf_example :
    IsToldOf 9 1 1 last_one (lua_f_lua_uthread_resume_waitings (λ co vs s. s) [] true 5 last_one)
unfolding times find_key
lua_f_lua_uthread_resume_waitings-IsToldOf_example =
    lua_f_lua_uthread_resume_waitings-IsToldOf 9 (λ co vs s. s)
      ((λ co vs s ne. (refl, refl, refl)), λ co vs s. refl) [] true 5 1
      (record { co = 5; waiting = 9 ∷ []; wd = false; w = 0; ref = 1 }) last_one refl (omega arith)
      refl refl (omega arith) (omega arith) (omega arith)
