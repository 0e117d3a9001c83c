-- ===== src/Loop/Fair.antt =====
-- No coroutine that gives way (src/coevent.c) waits for longer than those before it.
use mathlib.Core.Path.{subst}
use alilua_coevent_module.Prelude.{
  Bool, ltb, ℕ, ◌≤◌, ◌≡◌, refl, sym, ap, ◌∙◌, List, [], ◌∷◌, ◌++◌, append_assoc, append-nil, Option,
  none, some, length, take, drop, by_test, arith, take-append_left, drop-append_left, length-append,
}
use alilua_coevent_module.Swop.{Swops, swop_limit, lua_f_coroutine_swop, take_swop}
use alilua_coevent_module.Pool.{Got, resumed, connection, get_connection_in_pool}
use alilua_coevent_module.Loop.{
  Jobs, IsLater, Others, halve, serve_pool, resume_taken, resume_swop, coevnet_module_do_other_jobs,
}

IsLater-refl : (s : Jobs) → IsLater s s
IsLater-refl s = ([], sym (append-nil s.swops.queue))

IsLater-trans : (s t u : Jobs) → IsLater s t → IsLater t u → IsLater s u
IsLater-trans s t u (m, e) (n, e') =
    (m ++ n, e' ∙ ap (λ (q : List ℕ). q ++ n) e ∙ append_assoc s.swops.queue m n)

-- The coroutines taken out in rounds of the loop, each at the time of its turn and with the key that
-- a cosocket then has.
pub rounds : Others → List (ℕ × (ℕ → ℕ)) → Jobs → List ℕ × Jobs
rounds others [] s = ([], s)
rounds others ((now, key_of) ∷ ts) s =
    let r = coevnet_module_do_other_jobs others now key_of s in
    let rest = rounds others ts r.1 in elim r.0 [ none ↦ rest | some l ↦ (l ∷ rest.0, rest.1) ]

-- A call of `swop`, which is all that a coroutine can do to the queue.
pub lua_f_coroutine_swop-IsLater :
    (allocated : Bool) (l : ℕ) (s : Jobs)
    → IsLater s (record s { swops = (lua_f_coroutine_swop allocated l s.swops).1 })
unfolding lua_f_coroutine_swop
lua_f_coroutine_swop-IsLater allocated l s =
    let P : Bool × Swops → Type 0 = λ r. IsLater s (record s { swops = r.1 }) in
    by_test P (ltb s.swops.counter swop_limit) _ _ (IsLater-refl s)
      (by_test P allocated _ _ (l ∷ [], refl) (IsLater-refl s))

resume_swop-cons :
    (others : Others) (l : ℕ) (ls : List ℕ) (s : Jobs)
    → s.swops.queue ≡ l ∷ ls
    → (more : List ℕ) × ((resume_swop others s).0 ≡ some l)
      × ((resume_swop others s).1.swops.queue ≡ ls ++ more)
unfolding resume_swop take_swop
resume_swop-cons others l ls s e =
    let s' : Jobs = record s { swops = record (s.swops) { queue = ls } } in
    let (more, later) =
      by_test (IsLater s') (others.suspended l s') (others.resume l s') s'
        (others.resume_later l s') (IsLater-refl s') in
    let taken : take_swop s.swops.queue ≡ (some l, ls) = ap take_swop e in
    subst
      (λ (r : Option ℕ × List ℕ).
        (more : List ℕ) × ((resume_taken others s r.0 r.1).0 ≡ some l)
        × ((resume_taken others s r.0 r.1).1.swops.queue ≡ ls ++ more))
      (sym taken) (more, refl, later)

module _ (others : Others) (now : ℕ) (key_of : ℕ → ℕ) where
  serve_pool-IsLater : (s : Jobs) → IsLater s (serve_pool others now key_of s)
  unfolding serve_pool
  serve_pool-IsLater s = served (get_connection_in_pool now key_of 0 s.pool).0 _
    where
      served :
          (o : Got) (s' : Jobs)
          → IsLater s' (elim o [
            | connection c ↦ s'
            | resumed o ↦ elim o [ none ↦ s' | some w ↦ others.serve w s' ]
          ])
      served (connection c) s' = IsLater-refl s'
      served (resumed none) s' = IsLater-refl s'
      served (resumed (some w)) s' = others.serve_later w s'

  -- The head of the queue is taken out, and the queue only grows otherwise.
  do_other_jobs-cons :
      (l : ℕ) (ls : List ℕ) (s : Jobs)
      → s.swops.queue ≡ l ∷ ls
      → let r = coevnet_module_do_other_jobs others now key_of s in
        (more : List ℕ) × (r.0 ≡ some l) × (r.1.swops.queue ≡ ls ++ more)
  unfolding coevnet_module_do_other_jobs
  do_other_jobs-cons l ls s e =
      let s1 = serve_pool others now key_of (halve s) in
      let s2 = others.check s1 in
      let (more, e2) =
        IsLater-trans (halve s) s1 s2 (serve_pool-IsLater (halve s)) (others.check_later s1) in
      let (more', taken, left) =
        resume_swop-cons others l (ls ++ more) s2 (e2 ∙ ap (λ (q : List ℕ). q ++ more) e) in
      (more ++ more', taken, left ∙ append_assoc ls more more')

IsTaken : Others → List (ℕ × (ℕ → ℕ)) → Jobs → List ℕ → Type 0
IsTaken others ts s q =
    let r = rounds others ts s in
    (more : List ℕ) × (r.0 ≡ take (length ts) q) × (r.1.swops.queue ≡ drop (length ts) q ++ more)

rounds_step :
    (others : Others) (now : ℕ) (key_of : ℕ → ℕ) (ts : List (ℕ × (ℕ → ℕ))) (s : Jobs) (l : ℕ)
    (ls : List ℕ)
    → length ts ≤ length ls
    → (coevnet_module_do_other_jobs others now key_of s).0 ≡ some l
    → (more : List ℕ)
    → (coevnet_module_do_other_jobs others now key_of s).1.swops.queue ≡ ls ++ more
    → IsTaken others ts (coevnet_module_do_other_jobs others now key_of s).1 (ls ++ more)
    → IsTaken others ((now, key_of) ∷ ts) s (l ∷ ls)
unfolding IsTaken rounds
rounds_step others now key_of ts s l ls h first more left (new, taken, rest) = (
  more ++ new,
  rw (first, rounds) (ap (◌∷◌ l) (taken ∙ take-append_left (length ts) ls more h)),
  rw (first, rounds)
      (rest
        ∙ ap (λ (q : List ℕ). q ++ new) (drop-append_left (length ts) ls more h)
        ∙ append_assoc (drop (length ts) ls) more new),
)

rounds-IsTaken :
    (others : Others) (ts : List (ℕ × (ℕ → ℕ))) (s : Jobs) (q : List ℕ)
    → s.swops.queue ≡ q
    → length ts ≤ length q
    → IsTaken others ts s q
unfolding IsTaken rounds
rounds-IsTaken others [] s q e h = ([], refl, e ∙ sym (append-nil q))
rounds-IsTaken others (t ∷ ts) s [] e h = absurd (omega arith)
rounds-IsTaken others ((now, key_of) ∷ ts) s (l ∷ ls) e h =
    let (more, first, left) = do_other_jobs-cons others now key_of l ls s e in
    let fits : length ts ≤ length ls = omega arith in
    rounds_step others now key_of ts s l ls fits first more left (
      rounds-IsTaken others ts (coevnet_module_do_other_jobs others now key_of s).1 (ls ++ more)
        left (omega (arith, length-append ls more)))

-- Of the coroutines in the queue, as many are taken out in any number of rounds as there are rounds,
-- in order; those behind them stay in the queue in front of the ones that came. So each has its turn,
-- whatever the coroutines do that run in between. There are no more rounds than coroutines.
pub rounds-taken :
    (others : Others) (ts : List (ℕ × (ℕ → ℕ))) (s : Jobs)
    → length ts ≤ length s.swops.queue
    → let r = rounds others ts s in
      (more : List ℕ) × (r.0 ≡ take (length ts) s.swops.queue)
      × (r.1.swops.queue ≡ drop (length ts) s.swops.queue ++ more)
unfolding IsTaken
rounds-taken others ts s h = rounds-IsTaken others ts s s.swops.queue refl h
