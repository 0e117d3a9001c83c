-- ===== src/Swop.antt =====
-- The queue of coroutines that give way (src/coevent.c): `lua_f_coroutine_swop`, and what
-- `coevnet_module_do_other_jobs` does with them.
pub mod Order
mod Examples
use alilua_coevent_module.Prelude.{
  ℕ, ◌+◌, ◌/◌, Bool, true, false, Option, none, some, List, [], ◌∷◌, ◌++◌, if◌then◌else◌, ltb,
}

-- `swop_counter`, and the list from `swop_top->next` to `swop_lat`, by coroutine.
pub record Swops : Type 0 where
  pub counter : ℕ
  pub queue : List ℕ

-- How many calls in a row are answered at once.
abbrev pub swop_limit : ℕ
swop_limit = 800

-- `lua_f_coroutine_swop` from coroutine `l`: whether it yields. `allocated` says whether `malloc`
-- succeeds.
unfoldable pub lua_f_coroutine_swop : Bool → ℕ → Swops → Bool × Swops
lua_f_coroutine_swop allocated l s =
    let counted = record s { counter = s.counter + 1 } in
    if ltb s.counter swop_limit
    then (false, counted)
    else if allocated
    then (true, record s { counter = 0; queue = s.queue ++ l ∷ [] })
    else (false, counted)

-- "resume swops": the head of the queue is taken out. The code resumes it if `lua_status` says that it
-- is suspended.
unfoldable pub take_swop : List ℕ → Option ℕ × List ℕ
take_swop [] = (none, [])
take_swop (l ∷ ls) = (some l, ls)

-- `coevnet_module_do_other_jobs`, as far as the queue goes: the coroutine taken out.
unfoldable pub do_other_jobs : Swops → Option ℕ × Swops
unfolding take_swop
do_other_jobs s =
    let r = take_swop s.queue in (r.0, record { counter = s.counter / 2; queue = r.1 })
