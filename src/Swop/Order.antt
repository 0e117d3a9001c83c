-- ===== src/Swop/Order.antt =====
-- Coroutines that give way (src/coevent.c) are taken up again in order, and none is forgotten.
use alilua_coevent_module.Prelude.{
  ℕ, ◌+◌, ◌≤◌, ◌<◌, ◌≡◌, refl, sym, ap, ◌∙◌, inl, inr, Bool, true, false, Bool-cases, Option, none,
  some, List, [], ◌∷◌, ◌++◌, if◌then◌else◌, ltb, arith, append_assoc, append-nil, map, length, ◌-◌,
  ◌⊎◌,
}
use alilua_coevent_module.Swop.{Swops, swop_limit, lua_f_coroutine_swop, take_swop, do_other_jobs}

-- What happens to the queue: a coroutine calls `swop`, or the event loop does its other jobs.
pub data Step : Type 0 where
  swop : Bool → ℕ → Step
  jobs : Step

-- The coroutines that yielded, those taken out to be resumed, and the queue that is left.
pub record Run : Type 0 where
  pub yielded : List ℕ
  pub taken : List ℕ
  pub swops : Swops

abbrev also_yielded : Bool → ℕ → Run → Run
also_yielded yields l r = record r { yielded = if yields then l ∷ r.yielded else r.yielded }

abbrev front : Option ℕ → List ℕ
front none = []
front (some l) = l ∷ []

abbrev also_taken : Option ℕ → Run → Run
also_taken o r = record r { taken = front o ++ r.taken }

unfoldable pub run : List Step → Swops → Run
run [] s = record { yielded = []; taken = []; swops = s }
run (swop allocated l ∷ es) s =
    let r = lua_f_coroutine_swop allocated l s in also_yielded r.0 l (run es r.1)
run (jobs ∷ es) s = let r = do_other_jobs s in also_taken r.0 (run es r.1)

queue-lua_f_coroutine_swop :
    (allocated : Bool) (l : ℕ) (s : Swops)
    → let r = lua_f_coroutine_swop allocated l s in
      (r.1.queue ≡ (if r.0 then s.queue ++ l ∷ [] else s.queue))
unfolding lua_f_coroutine_swop
queue-lua_f_coroutine_swop allocated l s = ground arith

front-take_swop : (q : List ℕ) → front (take_swop q).0 ++ (take_swop q).1 ≡ q
unfolding take_swop
front-take_swop [] = refl
front-take_swop (l ∷ ls) = refl

-- A coroutine that may have yielded, between the queue and those that yield later.
in_turn :
    (b : Bool) (l : ℕ) (q ys : List ℕ)
    → (if b then q ++ l ∷ [] else q) ++ ys ≡ q ++ (if b then l ∷ ys else ys)
in_turn true l q ys = append_assoc q (l ∷ []) ys
in_turn false l q ys = refl

-- In any interleaving, the coroutines taken out so far and then those still in the queue are those
-- that were in the queue at first and then those that yielded, in that order: each is taken out
-- once, in its turn, or still waits.
pub run-Fifo :
    (es : List Step) (s : Swops)
    → (run es s).taken ++ (run es s).swops.queue ≡ s.queue ++ (run es s).yielded
unfolding run
run-Fifo [] s = sym (append-nil s.queue)
run-Fifo (swop allocated l ∷ es) s =
    let r = lua_f_coroutine_swop allocated l s in
    let ys = (run es r.1).yielded in
    run-Fifo es r.1
    ∙ ap (λ q. q ++ ys) (queue-lua_f_coroutine_swop allocated l s)
    ∙ in_turn r.0 l s.queue ys
run-Fifo (jobs ∷ es) s =
    let r = do_other_jobs s in
    let later = run es r.1 in
    append_assoc (front r.0) later.taken later.swops.queue
    ∙ ap (λ q. front r.0 ++ q) (run-Fifo es r.1)
    ∙ sym (append_assoc (front r.0) r.1.queue later.yielded)
    ∙ ap (λ q. q ++ later.yielded) (unfold do_other_jobs in front-take_swop s.queue)

swop_first :
    (l : ℕ) (s : Swops)
    → ((lua_f_coroutine_swop true l s).0 ≡ true)
      ⊎ ((s.counter < swop_limit)
          × (lua_f_coroutine_swop true l s ≡ (false, record s { counter = s.counter + 1 })))
unfolding lua_f_coroutine_swop
swop_first l s = elim (Bool-cases (ltb s.counter swop_limit)) [
  | inl low ↦ rw low (inr (ground (arith, low), refl))
  | inr high ↦ rw high (inl refl)
]

-- No coroutine spins: while `malloc` succeeds, calls of `swop` in a row of which none yields are no
-- more than what the counter leaves of the limit.
pub run-swop_limit :
    (ls : List ℕ) (s : Swops)
    → (run (map (swop true) ls) s).yielded ≡ []
    → length ls ≤ swop_limit - s.counter
unfolding run
run-swop_limit [] s e = omega arith
run-swop_limit (l ∷ ls) s e = elim (swop_first l s) [
  | inl yields ↦ absurd (ground (arith, yields))
  | inr (low, stays) ↦
      let s' : Swops = record s { counter = s.counter + 1 } in
      let quiet : (run (map (swop true) ls) s').yielded ≡ [] = ground (arith, stays) in
      omega (arith, low, run-swop_limit ls s' quiet)
]
