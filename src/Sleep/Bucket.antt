-- ===== src/Sleep/Bucket.antt =====
-- The walk over a bucket of sleepers (src/lua-util.c).
use alilua_coevent_module.Prelude.{
  ℕ, ◌+◌, ◌%◌, ◌≤◌, ◌≡◌, refl, ap, ◌∙◌, inl, inr, true, false, Bool-cases, List, [], ◌∷◌, ◌++◌,
  append_assoc, arith, length, All, All-append, ◌==◌,
}
use alilua_coevent_module.Sleep.{
  Links, Sleeper, time_bucket_size, update_links, Wheel, wake, run, naps_to_come,
}
use alilua_coevent_module.Sleep.Turns.{
  AreOrderly, IsIn, IsRipe, newcomers, asleep, roused, known, asleep-append, run_turns,
}

All-append_left : {A : Type 0} (P : A → Type 0) (xs ys : List A) → All P (xs ++ ys) → All P xs
All-append_left P [] ys h = tt
All-append_left P (x ∷ xs) ys h = (h.0, All-append_left P xs ys h.1)

pub All-append_right : {A : Type 0} (P : A → Type 0) (xs ys : List A) → All P (xs ++ ys) → All P ys
All-append_right P [] ys h = h
All-append_right P (x ∷ xs) ys h = All-append_right P xs ys h.1

pub All-map :
    {A : Type 0} (P Q : A → Type 0) (xs : List A) → ((x : A) → P x → Q x) → All P xs → All Q xs
All-map P Q [] f h = tt
All-map P Q (x ∷ xs) f h = (f x h.0, All-map P Q xs f h.1)

update_here : (f : Links) (k : ℕ) (l : List Sleeper) → update_links f k l k ≡ l
update_here f k l = ground arith

update_there :
    (f : Links) (j k : ℕ) (l : List Sleeper) → j == k ≡ false → update_links f k l j ≡ f j
update_there f j k l e = rw e refl

-- A list without one of its elements.
All-removed :
    {A : Type 0} (P : A → Type 0) (xs ys : List A) (x : A) → All P (xs ++ x ∷ ys) → All P (xs ++ ys)
All-removed P [] ys x h = h.1
All-removed P (z ∷ xs) ys x h = (h.0, All-removed P xs ys x h.1)

module _ (horizon from k : ℕ) where
  -- What waking the sleeper `n` of bucket `k` does, which is `passed`, `n` and then `rest`. No
  -- sleeper is due before tick `from`.
  pub record Woken (passed rest : List Sleeper) (w v : Wheel) : Type 0 where
    pub later : w.l_now ≤ v.l_now
    pub orderly : AreOrderly horizon v.l_now v.turns
    pub same_hand : v.now_4sleep ≡ w.now_4sleep
    pub new : List Sleeper
    pub here : v.links k ≡ passed ++ (rest ++ new)
    pub in_time : All (IsIn v.l_now k) new
    pub fewer : length new + naps_to_come v.turns ≤ naps_to_come w.turns
    pub placed : (j : ℕ) → All (IsIn from j) (v.links j)
    pub ripe : All IsRipe w.woken → All IsRipe v.woken
    pub same_known : (c j : ℕ) → known c j v ≡ known c j w

  removed-placed :
      (passed rest : List Sleeper) (n : Sleeper) (w : Wheel) (j : ℕ)
      → w.links k ≡ passed ++ n ∷ rest
      → All (IsIn from j) (w.links j)
      → All (IsIn from j) (update_links w.links k (passed ++ rest) j)
  removed-placed passed rest n w j e h = elim (Bool-cases (j == k)) [
    | inl same ↦
        let at_k : w.links j ≡ passed ++ n ∷ rest = ap w.links (ground (arith, same)) ∙ e in
        rw same (All-removed (IsIn from j) passed rest n (rw at_k at h))
    | inr other ↦ rw other h
  ]

  removed-known :
      (c j : ℕ) (passed rest : List Sleeper) (n : Sleeper) (w : Wheel)
      → w.links k ≡ passed ++ n ∷ rest
      → n.timeout % time_bucket_size ≡ k
      → asleep c (update_links w.links k (passed ++ rest) j) + roused c j ((n, w.l_now) ∷ w.woken)
        ≡ asleep c (w.links j) + roused c j w.woken
  unfolding roused
  removed-known c j passed rest n w e home = elim (Bool-cases (j == k)) [
    | inl same ↦
        let at_k : w.links j ≡ passed ++ n ∷ rest = ap w.links (ground (arith, same)) ∙ e in
        let split = asleep-append c passed (n ∷ rest) in
        let joined = asleep-append c passed rest in
        let home' : n.timeout % time_bucket_size == j ≡ true = ground (arith, same, home) in
        rw (same, at_k, home') (unfold asleep in omega (arith, split, joined))
    | inr other ↦
        let away : n.timeout % time_bucket_size == j ≡ false = ground (arith, other, home) in
        rw (other, away) (omega arith)
  ]

  pub wake-Woken :
      (passed rest : List Sleeper) (n : Sleeper) (w : Wheel)
      → w.links k ≡ passed ++ n ∷ rest
      → ((j : ℕ) → All (IsIn from j) (w.links j))
      → from ≤ w.l_now
      → n.timeout ≤ w.l_now
      → AreOrderly horizon w.l_now w.turns
      → Woken passed rest w (wake k passed n rest w)
  unfolding wake
  wake-Woken passed rest n w e placed due ready orderly =
      let removed = record w {
        links = update_links w.links k (passed ++ rest);
        woken = (n, w.l_now) ∷ w.woken;
      } in
      let v = run w.turns removed in
      let ran = run_turns horizon removed orderly in
      let there : update_links w.links k (passed ++ rest) k ≡ passed ++ rest =
        update_here w.links k (passed ++ rest) in
      let n_home = (All-append_right (IsIn from k) passed (n ∷ rest) (rw e at (placed k))).0 in
      record {
        later = ran.later;
        orderly = ran.orderly;
        same_hand = ran.same_hand;
        new = newcomers k w.turns;
        here =
            ran.come k
            ∙ ap (λ (l : List Sleeper). l ++ newcomers k w.turns) there
            ∙ append_assoc passed rest (newcomers k w.turns);
        in_time = ran.in_time k;
        fewer = ran.fewer k;
        placed = λ j. rw (ran.come j) (
            All-append (IsIn from j) _ _ (removed-placed passed rest n w j e (placed j)) (
              All-map (IsIn v.l_now j) (IsIn from j) (newcomers j w.turns)
                (λ m h. (h.0, omega (arith, h.1, ran.later))) (ran.in_time j)));
        ripe = λ h. rw ran.same_woken (ready, h);
        same_known = λ c j.
            rw (ran.come j, ran.same_woken)
              (omega (
                arith,
                asleep-append c (removed.links j) (newcomers j w.turns),
                removed-known c j passed rest n w e n_home.0,
                ran.counted c j,
              ));
      }
