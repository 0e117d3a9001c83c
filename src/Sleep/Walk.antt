-- ===== src/Sleep/Walk.antt =====
-- The walk over a bucket of sleepers (src/lua-util.c), to its end.
use alilua_coevent_module.Prelude.{
  by_cases, ℕ, zero, suc, ◌+◌, ◌≤◌, ◌<◌, ◌≡◌, refl, sym, ap, ◌∙◌, true, List, [], ◌∷◌, ◌++◌, Option,
  some, append-nil, append_assoc, arith, length, length-append, drop, drop-append, All, All-append,
  leb,
}
use alilua_coevent_module.Sleep.{Sleeper, Wheel, wake, walk, naps_to_come, is_empty}
use alilua_coevent_module.Sleep.Turns.{AreOrderly, IsIn, IsRipe, known}
use alilua_coevent_module.Sleep.Bucket.{All-append_right, All-map, Woken, wake-Woken}

-- What is left of bucket `k` after a walk that began at tick `from`: sleepers to whom it came, all due
-- later, and some of those that came while it ran.
abbrev pub Kept : ℕ → ℕ → Wheel → Wheel → Type 0
Kept from k w v =
    (old : List Sleeper) × ((new : List Sleeper) × ((v.links k ≡ old ++ new)
        × (All (IsIn (suc from) k) old
            × (length new + naps_to_come v.turns ≤ naps_to_come w.turns))))

module _ (horizon from k : ℕ) where
  -- What a walk over bucket `k` leaves. If the tick has moved on past `from`, no sleeper of the
  -- bucket is left that was due then.
  pub record Walked (w v : Wheel) : Type 0 where
    pub later : w.l_now ≤ v.l_now
    pub orderly : AreOrderly horizon v.l_now v.turns
    pub same_hand : v.now_4sleep ≡ w.now_4sleep
    pub placed : (j : ℕ) → All (IsIn from j) (v.links j)
    pub passed : from < v.l_now → All (IsIn (suc from) k) (v.links k)
    pub kept : Kept from k w v
    pub ripe : All IsRipe w.woken → All IsRipe v.woken
    pub same_known : (c j : ℕ) → known c j v ≡ known c j w

  -- A bucket that has been passed.
  ended :
      (passed : List Sleeper) (w : Wheel)
      → w.links k ≡ passed ++ []
      → ((j : ℕ) → All (IsIn from j) (w.links j))
      → All (IsIn (suc from) k) passed
      → AreOrderly horizon w.l_now w.turns
      → Walked w w
  ended passed w e placed awake orderly = record {
    later = omega arith;
    orderly = orderly;
    same_hand = refl;
    placed = placed;
    passed = λ h. rw (e ∙ append-nil passed) awake;
    kept = (passed, ([], (e, (awake, omega arith))));
    ripe = λ h. h;
    same_known = λ c j. refl;
  }

  -- The last sleeper was due: those behind it are new.
  ended_by_waking :
      (passed rest : List Sleeper) (w v : Wheel)
      → is_empty rest ≡ true
      → Woken horizon from k passed rest w v
      → All (IsIn (suc from) k) passed
      → Walked w v
  ended_by_waking passed (n ∷ rest) w v last s awake = absurd (ground (arith, last))
  ended_by_waking passed [] w v last s awake = record {
    later = s.later;
    orderly = s.orderly;
    same_hand = s.same_hand;
    placed = s.placed;
    passed = λ h. rw s.here (
        All-append (IsIn (suc from) k) passed s.new awake (
          All-map (IsIn v.l_now k) (IsIn (suc from) k) s.new (λ m i. (i.0, omega (arith, i.1, h)))
            s.in_time));
    kept = (passed, (s.new, (s.here, (awake, s.fewer))));
    ripe = s.ripe;
    same_known = s.same_known;
  }

  and_then :
      (passed rest : List Sleeper) (w v u : Wheel)
      → Woken horizon from k passed rest w v
      → Walked v u
      → Walked w u
  and_then passed rest w v u s r = record {
    later = omega (arith, s.later, r.later);
    orderly = r.orderly;
    same_hand = r.same_hand ∙ s.same_hand;
    placed = r.placed;
    passed = r.passed;
    kept =
        let (old, (new, (here, (later, few)))) = r.kept in
        (old, (new, (here, (later, omega (arith, few, s.fewer)))));
    ripe = λ h. r.ripe (s.ripe h);
    same_known = λ c j. r.same_known c j ∙ s.same_known c j;
  }

  abbrev Result : Wheel → Option Wheel → Type 0
  Result w o = (v : Wheel) × ((o ≡ some v) × Walked w v)

  -- The walk ends, with fuel for each sleeper of the bucket and each that may come.
  pub walk-Walked :
      (fuel : ℕ) (passed rest : List Sleeper) (w : Wheel)
      → length rest + naps_to_come w.turns ≤ fuel
      → w.links k ≡ passed ++ rest
      → ((j : ℕ) → All (IsIn from j) (w.links j))
      → All (IsIn (suc from) k) passed
      → from ≤ w.l_now
      → AreOrderly horizon w.l_now w.turns
      → Result w (walk fuel k passed rest w)
  unfolding walk
  walk-Walked fuel passed [] w enough e placed awake due orderly =
      (w, (refl, ended passed w e placed awake orderly))
  walk-Walked zero passed (n ∷ rest) w enough e placed awake due orderly = absurd (omega arith)
  walk-Walked (suc fuel) passed (n ∷ rest) w enough e placed awake due orderly =
      let home = (All-append_right (IsIn from k) passed (n ∷ rest) (rw e at (placed k))).0.0 in
      by_cases (Result w) (leb n.timeout w.l_now) _ _
        (λ is_due.
          let v = wake k passed n rest w in
          let s =
            wake-Woken horizon from k passed rest n w e placed due (ground (arith, is_due))
              orderly in
          let behind : drop (length passed) (v.links k) ≡ rest ++ s.new =
            ap (drop (length passed)) s.here ∙ drop-append passed (rest ++ s.new) in
          let again =
            walk-Walked fuel passed (drop (length passed) (v.links k)) v
              (omega (arith, ap length behind, length-append rest s.new, s.fewer, enough))
              (s.here ∙ ap (λ (l : List Sleeper). passed ++ l) (sym behind)) s.placed awake
              (omega (arith, due, s.later)) s.orderly in
          by_cases (Result w) (is_empty rest) (some v) _
            (λ last. (v, (refl, ended_by_waking passed rest w v last s awake)))
            (λ more. (again.0, (again.1.0, and_then passed rest w v again.0 s again.1.1))))
        (λ asleep.
          walk-Walked fuel (passed ++ n ∷ []) rest w (omega (arith, enough))
            (e ∙ sym (append_assoc passed (n ∷ []) rest)) placed
            (All-append (IsIn (suc from) k) passed (n ∷ []) awake
              ((home, ground (arith, asleep, due)), tt))
            due orderly)
