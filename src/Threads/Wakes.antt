-- ===== src/Threads/Wakes.antt =====
-- Whom the end of a coroutine resumes (src/lua-uthread.c).
use alilua_coevent_module.Prelude.{
  by_cases, ℕ, zero, suc, ◌+◌, ◌%◌, ◌<◌, ◌≤◌, ◌≡◌, ◌≢◌, refl, sym, ap, ◌∙◌, inl, inr, ◌⊎◌, Bool,
  true, false, not, ◌&&◌, ◌||◌, ℕ_discrete, some, List, [], ◌∷◌, arith, length, ◌==◌, ltb,
}
use alilua_coevent_module.Cosocket.{Value, boolean}
use alilua_coevent_module.Threads.{
  Key, Threads, Resume, find_key, put_key, get_thread_rbtree_key, wake_waiter, resume_waiter,
  resume_waiters, remove_key, lua_f_lua_uthread_resume_waitings,
}
use alilua_coevent_module.Threads.Keys.{
  w_of, times, times-cons_self, times-cons_other, find_key-remove_other, counter, find_key-put_same,
  find_key-put_other, get_thread_rbtree_key-Got,
}

-- What concerns a coroutine that waits: its counter, whether it is suspended, and how often it has
-- been resumed.
abbrev pub IsUntouched : ℕ → Threads → Threads → Type 0
IsUntouched x s s' =
    (counter x s'.keys ≡ counter x s.keys)
    × (s'.suspended x ≡ s.suspended x)
    × (times x s'.woken ≡ times x s.woken)

-- Lua code that does not meddle: a coroutine that runs leaves another that waits alone, and none is
-- resumed, by the end of another, while it runs.
abbrev pub IsCivil : ℕ → Resume → Type 0
IsCivil x resume =
    ((co : ℕ) (vs : List Value) (s : Threads) → co ≢ x → IsUntouched x s (resume co vs s))
    × ((co : ℕ) (vs : List Value) (s : Threads) → times x (resume co vs s).woken ≡ times x s.woken)

-- The coroutine is resumed once, by the last round that it waits for; before, its counter tells how
-- many are left.
abbrev pub IsToldOf : ℕ → ℕ → ℕ → Threads → Threads → Type 0
IsToldOf x w t s s' =
    ((t ≡ w) × (times x s'.woken ≡ 1 + times x s.woken))
    ⊎ ((t < w) × (counter x s'.keys + t ≡ w) × (times x s'.woken ≡ times x s.woken))

module _ (x : ℕ) (resume : Resume) (civil : IsCivil x resume) (values : List Value)
    (deaded : Bool) where
  resumed-other :
      (key : Key) (vs : List Value) (s : Threads)
      → key.co ≢ x
      → IsUntouched x s
          (resume key.co vs (record s { keys = put_key key s.keys; woken = key.co ∷ s.woken }))
  resumed-other key vs s ne =
      let start = record s { keys = put_key key s.keys; woken = key.co ∷ s.woken } in
      let (same_counter, same_suspended, same_woken) = civil.0 key.co vs start ne in
      (
        same_counter ∙ ap w_of (find_key-put_other x s.keys key ne),
        same_suspended,
        same_woken ∙ times-cons_other x key.co s.woken ne,
      )

  wake_waiter-other :
      (key : Key) (s : Threads)
      → key.co ≢ x
      → IsUntouched x s (wake_waiter resume values deaded key s)
  unfolding wake_waiter
  wake_waiter-other key s ne =
      by_cases (IsUntouched x s) (ltb 0 (length values) && not key.wd) _ _
        (λ b. resumed-other (record key { w = 0 }) values s ne)
        (λ b.
          resumed-other (record key { w = 0; wd = false }) (boolean (key.wd || deaded) ∷ []) s ne)

  wake_waiter_self :
      (key : Key) (s : Threads)
      → key.co ≡ x
      → times x (wake_waiter resume values deaded key s).woken ≡ 1 + times x s.woken
  unfolding wake_waiter
  wake_waiter_self key s e =
      let logged = times-cons_self x key.co s.woken e in
      let P : Threads → Type 0 = λ s'. times x s'.woken ≡ 1 + times x s.woken in
      by_cases P (ltb 0 (length values) && not key.wd) _ _ (λ b. civil.1 key.co values _ ∙ logged)
        (λ b. civil.1 key.co (boolean (key.wd || deaded) ∷ []) _ ∙ logged)

  resume_waiter-other :
      (co : ℕ) (s : Threads) → co ≢ x → IsUntouched x s (resume_waiter resume values deaded co s)
  unfolding resume_waiter
  resume_waiter-other co s ne =
      let r = get_thread_rbtree_key co s.keys in
      let g = get_thread_rbtree_key-Got co s.keys in
      let left = (r.0.w + 65535) % 65536 in
      let key : Key = record (r.0) { w = left } in
      let counted = record s { keys = put_key key r.1 } in
      let ne' : key.co ≢ x = λ h. ne (sym g.same_co ∙ h) in
      let same : counter x counted.keys ≡ counter x s.keys =
        ap w_of (find_key-put_other x r.1 key ne') ∙ g.same_counter x in
      let (same_counter, same_suspended, same_woken) = wake_waiter-other key counted ne' in
      by_cases (IsUntouched x s) (not (s.suspended co)) _ _ (λ b. (g.same_counter x, refl, refl))
        (λ b.
          by_cases (IsUntouched x s) (left == 0) _ _
            (λ z. (same_counter ∙ same, same_suspended, same_woken)) (λ z. (same, refl, refl)))

  -- A round for the coroutine itself, which waits for one only; or for more.
  resume_waiter-last :
      (s : Threads)
      → s.suspended x ≡ true
      → counter x s.keys ≡ 1
      → times x (resume_waiter resume values deaded x s).woken ≡ 1 + times x s.woken
  unfolding resume_waiter
  resume_waiter-last s waits one =
      let r = get_thread_rbtree_key x s.keys in
      let g = get_thread_rbtree_key-Got x s.keys in
      let left = (r.0.w + 65535) % 65536 in
      let key : Key = record (r.0) { w = left } in
      let counted = record s { keys = put_key key r.1 } in
      let w_one : r.0.w ≡ 1 = sym (ap w_of g.there) ∙ g.same_counter x ∙ one in
      let P : Threads → Type 0 = λ s'. times x s'.woken ≡ 1 + times x s.woken in
      by_cases P (not (s.suspended x)) _ _ (λ b. absurd (ground (arith, b, waits)))
        (λ b.
          by_cases P (left == 0) _ _ (λ z. wake_waiter_self key counted g.same_co)
            (λ z. absurd (ground (arith, z, w_one))))

  resume_waiter-more :
      (w : ℕ) (s : Threads)
      → s.suspended x ≡ true
      → counter x s.keys ≡ suc (suc w)
      → suc (suc w) < 65536
      → let s' = resume_waiter resume values deaded x s in
        (counter x s'.keys ≡ suc w) × (s'.suspended x ≡ true) × (times x s'.woken ≡ times x s.woken)
  unfolding resume_waiter
  resume_waiter-more w s waits more small =
      let r = get_thread_rbtree_key x s.keys in
      let g = get_thread_rbtree_key-Got x s.keys in
      let left = (r.0.w + 65535) % 65536 in
      let key : Key = record (r.0) { w = left } in
      let w_more : r.0.w ≡ suc (suc w) = sym (ap w_of g.there) ∙ g.same_counter x ∙ more in
      let less : left ≡ suc w = omega (arith, w_more, small) in
      let P : Threads → Type 0 = λ s'.
        (counter x s'.keys ≡ suc w)
        × (s'.suspended x ≡ true)
        × (times x s'.woken ≡ times x s.woken) in
      by_cases P (not (s.suspended x)) _ _ (λ b. absurd (ground (arith, b, waits)))
        (λ b.
          by_cases P (left == 0) _ _ (λ z. absurd (ground (arith, z, less)))
            (λ z.
              (ap w_of (find_key-put_same x r.1 r.0 key g.there g.same_co) ∙ less, waits, refl)))

  -- Rounds for others.
  resume_waiters-without :
      (cos : List ℕ) (s : Threads)
      → times x cos ≡ 0
      → times x (resume_waiters resume values deaded cos s).woken ≡ times x s.woken
  unfolding resume_waiters times
  resume_waiters-without [] s none_left = refl
  resume_waiters-without (co ∷ cos) s none_left =
      let ne : co ≢ x = λ h. ground (arith, h, none_left) in
      resume_waiters-without cos (resume_waiter resume values deaded co s)
        (ground (arith, none_left))
      ∙ (resume_waiter-other co s ne).2

  -- After one round.
  told_later :
      (v w t t' : ℕ) (s s1 s' : Threads)
      → w + t ≡ v + t'
      → times x s1.woken ≡ times x s.woken
      → IsToldOf x v t s1 s'
      → IsToldOf x w t' s s'
  told_later v w t t' s s1 s' shift same (inl (all, woken)) =
      inl (omega (arith, shift, all), omega (arith, woken, same))
  told_later v w t t' s s1 s' shift same (inr (some_left, left, woken)) =
      inr (omega (arith, shift, some_left), omega (arith, shift, left), omega (arith, woken, same))

  -- The rounds from one for the coroutine itself on.
  from_own_round :
      (cos : List ℕ) (w : ℕ) (s : Threads)
      → ((v : ℕ) (s1 : Threads)
          → s1.suspended x ≡ true
          → counter x s1.keys ≡ suc v
          → suc v < 65536
          → times x cos ≤ suc v
          → IsToldOf x (suc v) (times x cos) s1 (resume_waiters resume values deaded cos s1))
      → s.suspended x ≡ true
      → counter x s.keys ≡ suc w
      → suc w < 65536
      → times x cos ≤ w
      → let s1 = resume_waiter resume values deaded x s in
        IsToldOf x (suc w) (1 + times x cos) s (resume_waiters resume values deaded cos s1)
  from_own_round cos zero s rest waits count small le =
      let s1 = resume_waiter resume values deaded x s in
      inl (
        omega (arith, le),
        resume_waiters-without cos s1 (omega (arith, le)) ∙ resume_waiter-last s waits count,
      )
  from_own_round cos (suc w) s rest waits count small le =
      let s1 = resume_waiter resume values deaded x s in
      let (count', waits', woken') = resume_waiter-more w s waits count small in
      told_later (suc w) (suc (suc w)) (times x cos) (1 + times x cos) s s1
        (resume_waiters resume values deaded cos s1) (omega arith) woken'
        (rest w s1 waits' count' (omega (arith, small)) le)

  resume_waiters-IsToldOf :
      (cos : List ℕ) (w : ℕ) (s : Threads)
      → s.suspended x ≡ true
      → counter x s.keys ≡ suc w
      → suc w < 65536
      → times x cos ≤ suc w
      → IsToldOf x (suc w) (times x cos) s (resume_waiters resume values deaded cos s)
  unfolding resume_waiters times
  resume_waiters-IsToldOf [] w s waits count small le =
      inr (omega arith, omega (arith, count), refl)
  resume_waiters-IsToldOf (co ∷ cos) w s waits count small le = elim (ℕ_discrete co x) [
    | yes here ↦
        let t : times x (co ∷ cos) ≡ 1 + times x cos = times-cons_self x co cos here in
        rw (t, here)
          (from_own_round cos w s (λ v s1 a b c d. resume_waiters-IsToldOf cos v s1 a b c d) waits
            count small (omega (arith, le, t)))
    | no away ↦
        let t : times x (co ∷ cos) ≡ times x cos = times-cons_other x co cos away in
        let s1 = resume_waiter resume values deaded co s in
        let (same_counter, same_suspended, same_woken) = resume_waiter-other co s away in
        let later =
          resume_waiters-IsToldOf cos w s1 (same_suspended ∙ waits) (same_counter ∙ count) small
            (omega (arith, le, t)) in
        told_later (suc w) (suc w) (times x cos) (times x (co ∷ cos)) s s1
          (resume_waiters resume values deaded cos s1) (omega (arith, t)) same_woken later
  ]

  -- When the coroutine `l` ends, one that waits, and is entered in its array `t` times and has yet to
  -- wait for `w`, is resumed because of it if and only if `t` is all of `w`, and then once; otherwise
  -- its counter falls by `t`. (The one that waits is another, suspended,
  -- and entered no more often than it has to wait; the Lua code that is resumed meanwhile leaves it
  -- alone.)
  pub lua_f_lua_uthread_resume_waitings-IsToldOf :
      (l w : ℕ) (k : Key) (s : Threads)
      → find_key l s.keys ≡ some k
      → x ≢ l
      → s.suspended x ≡ true
      → counter x s.keys ≡ w
      → 0 < w
      → w < 65536
      → times x k.waiting ≤ w
      → IsToldOf x w
          (times x k.waiting)
          s
          (lua_f_lua_uthread_resume_waitings resume values deaded l s)
  unfolding lua_f_lua_uthread_resume_waitings
  lua_f_lua_uthread_resume_waitings-IsToldOf l zero k s found ne waits count some_left small le =
      absurd (omega (arith, some_left))
  lua_f_lua_uthread_resume_waitings-IsToldOf l (suc w) k s found ne waits count some_left small le =
      let s' = resume_waiters resume values deaded k.waiting s in
      let same : counter x (remove_key l s'.keys) ≡ counter x s'.keys =
        ap w_of (find_key-remove_other x l s'.keys ne) in
      rw (found, lua_f_lua_uthread_resume_waitings)
        (elim (resume_waiters-IsToldOf k.waiting w s waits count small le) [
          | inl all ↦ inl all
          | inr (less, left, woken) ↦ inr (less, omega (arith, left, same), woken)
        ])
