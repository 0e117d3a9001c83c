-- ===== src/Sleep/Check.antt =====
-- `check_lua_sleep_timeouts` (src/lua-util.c): whom it wakes, and that it ends.
use alilua_coevent_module.Prelude.{
  by_cases, ℕ, zero, suc, ◌+◌, ◌/◌, ◌%◌, ◌≤◌, ◌<◌, ◌≡◌, ◌≢◌, refl, ap, ◌∙◌, inl, inr, Bool-cases,
  List, [], ◌∷◌, Option, some, arith, length, All, if◌then◌else◌, ◌==◌, ltb,
}
use alilua_coevent_module.Sleep.{
  Sleeper, time_bucket_size, Turn, Wheel, naps_to_come, walk_buckets, first_tick,
  check_lua_sleep_timeouts,
}
use alilua_coevent_module.Sleep.Turns.{AreOrderly, IsIn, IsRipe, known}
use alilua_coevent_module.Sleep.Bucket.{All-map}
use alilua_coevent_module.Sleep.Walk.{Kept, Walked, walk-Walked}

AreOrderly-horizon : (horizon now : ℕ) (ts : List Turn) → AreOrderly horizon now ts → now ≤ horizon
AreOrderly-horizon horizon now [] h = h
AreOrderly-horizon horizon now (t ∷ ts) h =
    omega (arith, h.0, AreOrderly-horizon horizon (t.clock / 10) ts h.1.1)

-- The state after a check, `v`, and before, `w`: the hand has reached the present tick; every
-- sleeper that is left sleeps to that tick or longer, in its bucket; and each coroutine that was
-- asleep in a bucket, was woken from it, or would come to it is so still, as often in all. Where the
-- hand began at the present tick, its bucket keeps sleepers of later ticks and some of the newcomers.
pub record Checked (w v : Wheel) : Type 0 where
  pub reached : v.now_4sleep ≡ v.l_now
  pub later : w.l_now ≤ v.l_now
  pub placed : (j : ℕ) → All (IsIn v.l_now j) (v.links j)
  pub ripe : All IsRipe v.woken
  pub on_time : w.now_4sleep ≡ v.l_now → Kept w.now_4sleep (w.now_4sleep % time_bucket_size) w v
  pub same_known : (c j : ℕ) → known c j v ≡ known c j w

-- The same, whoever was woken before.
record CaughtUp (w v : Wheel) : Type 0 where
  reached : v.now_4sleep ≡ v.l_now
  later : w.l_now ≤ v.l_now
  placed : (j : ℕ) → All (IsIn v.l_now j) (v.links j)
  ripe : All IsRipe w.woken → All IsRipe v.woken
  on_time : w.now_4sleep ≡ v.l_now → Kept w.now_4sleep (w.now_4sleep % time_bucket_size) w v
  same_known : (c j : ℕ) → known c j v ≡ known c j w

-- A bucket whose tick has passed holds no sleeper for it; another never did.
passed_by :
    (from j : ℕ) (ns : List Sleeper)
    → (j ≡ from % time_bucket_size → All (IsIn (suc from) j) ns)
    → All (IsIn from j) ns
    → All (IsIn (suc from) j) ns
passed_by from j ns passed placed = elim (Bool-cases (j == from % time_bucket_size)) [
  | inl here ↦ passed (ground (arith, here))
  | inr away ↦
      All-map (IsIn from j) (IsIn (suc from) j) ns
        (λ n i.
          let later : n.timeout ≢ from = λ e. ground (arith, away, i.0, e) in
          (i.0, omega (arith, i.1, later)))
        placed
]

abbrev Result : Wheel → Option Wheel → Type 0
Result w o = (v : Wheel) × ((o ≡ some v) × CaughtUp w v)

-- The hand has caught up with the clock.
caught_up :
    (horizon : ℕ) (w v : Wheel) (hand : ℕ)
    → Walked horizon w.now_4sleep (w.now_4sleep % time_bucket_size) w v
    → ((j : ℕ) → All (IsIn hand j) (v.links j))
    → hand ≡ v.l_now
    → CaughtUp w (record v { now_4sleep = hand })
caught_up horizon w v hand r placed e = record {
  reached = e;
  later = r.later;
  placed = λ j. rw e at (placed j);
  ripe = r.ripe;
  on_time = λ same. r.kept;
  same_known = r.same_known;
}

hand_on :
    (horizon : ℕ) (w v : Wheel)
    → Walked horizon w.now_4sleep (w.now_4sleep % time_bucket_size) w v
    → v.now_4sleep < v.l_now
    → (j : ℕ) → All (IsIn (v.now_4sleep + 1) j) (v.links j)
hand_on horizon w v r behind j =
    let from = w.now_4sleep in
    let passed = r.passed (omega (arith, behind, r.same_hand)) in
    let tick : suc from ≡ v.now_4sleep + 1 = omega (arith, r.same_hand) in
    rw (← tick) (passed_by from j (v.links j) (λ at_k. rw at_k passed) (r.placed j))

and_then :
    (horizon k : ℕ) (w v next u : Wheel)
    → Walked horizon w.now_4sleep k w v
    → next ≡ record v { now_4sleep = v.now_4sleep + 1 }
    → v.now_4sleep < v.l_now
    → CaughtUp next u
    → CaughtUp w u
and_then horizon k w v next u r e still c = record {
  reached = c.reached;
  later = omega (arith, r.later, c.later, ap (λ (x : Wheel). x.l_now) e);
  placed = c.placed;
  ripe = λ h. c.ripe (rw e (r.ripe h));
  on_time = λ same.
      absurd (omega (arith, same, still, r.same_hand, c.later, ap (λ (x : Wheel). x.l_now) e));
  same_known = λ a j. c.same_known a j ∙ ap (known a j) e ∙ r.same_known a j;
}

-- After a bucket: the end, or the next one, of which `later` tells.
after_bucket :
    (horizon fuel : ℕ) (w v : Wheel)
    → Walked horizon w.now_4sleep (w.now_4sleep % time_bucket_size) w v
    → w.now_4sleep ≤ w.l_now
    → (let next = record v { now_4sleep = v.now_4sleep + 1 } in
        next.now_4sleep ≤ next.l_now
        → ((j : ℕ) → All (IsIn next.now_4sleep j) (next.links j))
        → Result next (walk_buckets fuel next))
    → let next = record v { now_4sleep = v.now_4sleep + 1 } in
      Result w (
        if ltb v.now_4sleep v.l_now
        then if ltb next.now_4sleep v.l_now then walk_buckets fuel next else some next
        else some v)
after_bucket horizon fuel w v r behind later =
    let next = record v { now_4sleep = v.now_4sleep + 1 } in
    let k = w.now_4sleep % time_bucket_size in
    by_cases (Result w) (ltb v.now_4sleep v.l_now) _ _
      (λ still.
        let on_next = hand_on horizon w v r (ground (arith, still)) in
        by_cases (Result w) (ltb next.now_4sleep v.l_now) _ _
          (λ more.
            let (u, (e, c)) = later (ground (arith, more)) on_next in
            (u, (e, and_then horizon k w v next u r refl (ground (arith, still)) c)))
          (λ done. (
            next,
            (refl, caught_up horizon w v next.now_4sleep r on_next (ground (arith, still, done))),
          )))
      (λ done.
        let e : v.now_4sleep ≡ v.l_now = ground (arith, done, behind, r.later, r.same_hand) in
        (v, (refl, caught_up horizon w v v.now_4sleep r (rw r.same_hand r.placed) e)))

walk_buckets-CaughtUp :
    (horizon fuel : ℕ) (w : Wheel)
    → w.now_4sleep ≤ w.l_now
    → ((j : ℕ) → All (IsIn w.now_4sleep j) (w.links j))
    → AreOrderly horizon w.l_now w.turns
    → horizon < fuel + w.now_4sleep
    → Result w (walk_buckets fuel w)
unfolding walk_buckets
walk_buckets-CaughtUp horizon zero w behind placed orderly enough =
    absurd (omega (arith, AreOrderly-horizon horizon w.l_now w.turns orderly))
walk_buckets-CaughtUp horizon (suc fuel) w behind placed orderly enough =
    let k = w.now_4sleep % time_bucket_size in
    let (v, (found, r)) =
      walk-Walked horizon w.now_4sleep k (length (w.links k) + naps_to_come w.turns) [] (w.links k)
        w (omega arith) refl placed tt behind orderly in
    let next = record v { now_4sleep = v.now_4sleep + 1 } in
    rw (found, walk_buckets)
      (after_bucket horizon fuel w v r behind (λ on placed'.
        walk_buckets-CaughtUp horizon fuel next on placed' r.orderly
          (omega (arith, enough, r.same_hand))))

-- `check_lua_sleep_timeouts` ends, whatever the coroutines do that it resumes. Then every sleeper whose
-- time has passed is awake: those left sleep to the present tick or longer, in the bucket of their time.
-- Where the check begins and ends at the present tick, those of that tick are awake too, but for some
-- that came meanwhile, no more than calls of `_lua_sleep` were made.
-- None was woken early; and none was lost or woken twice: each coroutine is, as often as before, among
-- the sleepers of a bucket, those woken from it and those that would come to it. (Time does not run
-- back and stays within the horizon; naps are prompt; no sleeper is due before the tick where the
-- check begins, which is not in the future; and none was woken early before.)
pub check_lua_sleep_timeouts-Checked :
    (horizon fuel clock : ℕ) (w : Wheel)
    → first_tick clock w ≤ clock / 10
    → ((j : ℕ) → All (IsIn (first_tick clock w) j) (w.links j))
    → AreOrderly horizon (clock / 10) w.turns
    → horizon < fuel + first_tick clock w
    → All IsRipe w.woken
    → (v : Wheel) × ((check_lua_sleep_timeouts fuel clock w ≡ some v)
        × Checked (record w { l_now = clock / 10; now_4sleep = first_tick clock w }) v)
unfolding check_lua_sleep_timeouts
check_lua_sleep_timeouts-Checked horizon fuel clock w behind placed orderly enough ripe =
    let start = record w { l_now = clock / 10; now_4sleep = first_tick clock w } in
    let (v, (found, c)) = walk_buckets-CaughtUp horizon fuel start behind placed orderly enough in
    (
      v,
      (
        found,
        record {
          reached = c.reached;
          later = c.later;
          placed = c.placed;
          ripe = c.ripe ripe;
          on_time = c.on_time;
          same_known = c.same_known;
        },
      ),
    )
