-- ===== src/Loop/Examples.antt =====
-- The jobs between events, at concrete inputs.
use alilua_coevent_module.Prelude.{
  ℕ, ◌≡◌, ◌++◌, refl, true, false, List, [], ◌∷◌, none, length, take, drop, arith,
}
use alilua_coevent_module.Pool.{Pool}
use alilua_coevent_module.Loop.{Jobs, Others, loops, lua_f_startloop, set_loop_fd}
use alilua_coevent_module.Loop.Fair.{rounds, rounds-taken, lua_f_coroutine_swop-IsLater}
use alilua_coevent_module.Swop.{lua_f_coroutine_swop}

-- A call of `swop` by a coroutine.
abbrev swops_again : ℕ → Jobs → Jobs
swops_again l s = record s { swops = (lua_f_coroutine_swop true l s.swops).1 }

-- Coroutines that give way again, whenever they run.
again : Others
again = record {
  serve = λ w s. swops_again 1 s;
  check = λ s. swops_again 2 s;
  resume = λ l s. swops_again l s;
  suspended = λ l s. true;
  serve_later = λ w s. lua_f_coroutine_swop-IsLater true 1 s;
  check_later = λ s. lua_f_coroutine_swop-IsLater true 2 s;
  resume_later = λ l s. lua_f_coroutine_swop-IsLater true l s;
}

abbrev empty : Pool
empty = record { counters = λ k. []; links = λ p k. []; waiting = λ k. []; closed = [] }

abbrev three : Jobs
three = record { swops = record { counter = 1700; queue = 4 ∷ 5 ∷ 6 ∷ [] }; pool = empty }

abbrev times : List (ℕ × (ℕ → ℕ))
times = (1, λ k. 0) ∷ (2, λ k. 0) ∷ []

rounds-taken_example :
    (more : List ℕ) × ((rounds again times three).0 ≡ take (length times) three.swops.queue)
    × ((rounds again times three).1.swops.queue ≡ drop (length times) three.swops.queue ++ more)
rounds-taken_example = rounds-taken again times three (omega arith)

-- A loop that is given from outside is used.
starts :
    (lua_f_startloop 3 true false
      (set_loop_fd 7 2 (record { loop_fd = none; process_count = 1 }))).0
    ≡ loops 7
unfolding lua_f_startloop set_loop_fd
starts = refl
