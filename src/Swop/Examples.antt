-- ===== src/Swop/Examples.antt =====
-- Coroutines that give way, at concrete inputs.
use alilua_coevent_module.Prelude.{◌≡◌, ◌++◌, refl, [], ◌∷◌, true}
use alilua_coevent_module.Swop.{Swops, lua_f_coroutine_swop, do_other_jobs, take_swop}
use alilua_coevent_module.Swop.Order.{swop, jobs, run, run-Fifo}

-- Coroutine 5 waits, and the counter has reached the limit.
abbrev tired : Swops
tired = record { counter = 800; queue = 5 ∷ [] }

abbrev at_once : Swops
at_once = record { counter = 798; queue = [] }

runs : (run (swop true 7 ∷ jobs ∷ swop true 8 ∷ jobs ∷ []) tired).taken ≡ 5 ∷ 7 ∷ []
unfolding run lua_f_coroutine_swop do_other_jobs take_swop
runs = refl

run-Fifo_example :
    let r = run (swop true 7 ∷ jobs ∷ []) tired in r.taken ++ r.swops.queue ≡ 5 ∷ r.yielded
run-Fifo_example = run-Fifo (swop true 7 ∷ jobs ∷ []) tired
