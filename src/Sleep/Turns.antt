-- ===== src/Sleep/Turns.antt =====
-- What coroutines do to the sleepers (src/lua-util.c) while they run.
use alilua_coevent_module.Prelude.{
  ℕ, ◌+◌, ◌/◌, ◌%◌, ◌≤◌, ◌≡◌, refl, sym, ap, ◌∙◌, inl, inr, Bool-cases, List, [], ◌∷◌, ◌++◌,
  append-nil, append_assoc, arith, length, length-append, All, All-append, if◌then◌else◌, ◌==◌,
}
use alilua_coevent_module.Sleep.{
  Sleeper, time_bucket_size, Links, Nap, sleeper, _lua_sleep, Turn, Wheel, sleep_all, run,
  naps_to_come,
}

-- The sleepers that a call of `_lua_sleep` appends to bucket `j`.
unfoldable pub added : ℕ → Nap → List Sleeper
added j a =
    if a.allocated
    then if j == (sleeper a).timeout % time_bucket_size then sleeper a ∷ [] else []
    else []

unfoldable pub all_added : ℕ → List Nap → List Sleeper
all_added j [] = []
all_added j (a ∷ bs) = added j a ++ all_added j bs

_lua_sleep-added : (j : ℕ) (a : Nap) (f : Links) → (_lua_sleep a f).1 j ≡ f j ++ added j a
unfolding _lua_sleep added
_lua_sleep-added j a f = elim (Bool-cases a.allocated) [
  | inl there ↦ elim (Bool-cases (j == (sleeper a).timeout % time_bucket_size)) [
    | inl e ↦
        let here : (sleeper a).timeout % time_bucket_size ≡ j = ground (arith, e) in
        rw (there, e) (ap (λ k. f k ++ sleeper a ∷ []) here)
    | inr ne ↦ rw (there, ne) (sym (append-nil (f j)))
  ]
  | inr missing ↦ rw missing (sym (append-nil (f j)))
]

pub sleep_all-added : (j : ℕ) (bs : List Nap) (f : Links) → sleep_all bs f j ≡ f j ++ all_added j bs
unfolding sleep_all all_added
sleep_all-added j [] f = sym (append-nil (f j))
sleep_all-added j (a ∷ bs) f =
    sleep_all-added j bs (_lua_sleep a f).1
    ∙ ap (λ (l : List Sleeper). l ++ all_added j bs) (_lua_sleep-added j a f)
    ∙ append_assoc (f j) (added j a) (all_added j bs)

-- No tick ends between a coroutine's call of `_lua_sleep` and the end of its turn, unless it sleeps
-- past it.
abbrev pub IsPrompt : ℕ → Nap → Type 0
IsPrompt tick a = tick ≤ (a.now + a.msec) / 10

-- Time does not run back, nor past the tick `horizon`, and the naps are prompt.
abbrev pub AreOrderly : ℕ → ℕ → List Turn → Type 0
AreOrderly horizon now [] = now ≤ horizon
AreOrderly horizon now (t ∷ ts) =
    (now ≤ t.clock / 10)
    × (All (IsPrompt (t.clock / 10)) t.naps × AreOrderly horizon (t.clock / 10) ts)

-- The sleepers of bucket `j`, none of them due before tick `from`.
abbrev pub IsIn : ℕ → ℕ → Sleeper → Type 0
IsIn from j n = (n.timeout % time_bucket_size ≡ j) × (from ≤ n.timeout)

added-IsIn : (from j : ℕ) (a : Nap) → IsPrompt from a → All (IsIn from j) (added j a)
unfolding added
added-IsIn from j a h = elim (Bool-cases a.allocated) [
  | inl there ↦ elim (Bool-cases (j == (sleeper a).timeout % time_bucket_size)) [
    | inl e ↦ rw (there, e) ((ground (arith, e), h), tt)
    | inr ne ↦ rw (there, ne) tt
  ]
  | inr missing ↦ rw missing tt
]

pub all_added-IsIn :
    (from j : ℕ) (bs : List Nap) → All (IsPrompt from) bs → All (IsIn from j) (all_added j bs)
unfolding all_added
all_added-IsIn from j [] h = tt
all_added-IsIn from j (a ∷ bs) h =
    All-append (IsIn from j) (added j a) (all_added j bs) (added-IsIn from j a h.0)
      (all_added-IsIn from j bs h.1)

length-added : (j : ℕ) (a : Nap) → length (added j a) ≤ 1
unfolding added
length-added j a = ground arith

pub length-all_added : (j : ℕ) (bs : List Nap) → length (all_added j bs) ≤ length bs
unfolding all_added
length-all_added j [] = omega arith
length-all_added j (a ∷ bs) =
    rw (length-append (added j a) (all_added j bs))
      (omega (arith, length-added j a, length-all_added j bs))

-- The sleepers that the next turn appends to bucket `j`.
unfoldable pub newcomers : ℕ → List Turn → List Sleeper
newcomers j [] = []
newcomers j (t ∷ ts) = all_added j t.naps

-- How often a coroutine is among sleepers; among those woken from bucket `j`; and among those that
-- will come to bucket `j`.
unfoldable pub asleep : ℕ → List Sleeper → ℕ
asleep c [] = 0
asleep c (n ∷ ns) = (if n.co == c then 1 else 0) + asleep c ns

unfoldable pub roused : ℕ → ℕ → List (Sleeper × ℕ) → ℕ
roused c j [] = 0
roused c j ((n, tick) ∷ ns) =
    (if n.timeout % time_bucket_size == j then if n.co == c then 1 else 0 else 0) + roused c j ns

unfoldable pub coming : ℕ → ℕ → List Turn → ℕ
coming c j [] = 0
coming c j (t ∷ ts) = asleep c (all_added j t.naps) + coming c j ts

abbrev pub known : ℕ → ℕ → Wheel → ℕ
known c j w = asleep c (w.links j) + roused c j w.woken + coming c j w.turns

pub asleep-append : (c : ℕ) (ns ms : List Sleeper) → asleep c (ns ++ ms) ≡ asleep c ns + asleep c ms
unfolding asleep
asleep-append c [] ms = omega arith
asleep-append c (n ∷ ns) ms = omega (arith, asleep-append c ns ms)

-- A sleeper that was woken, and the tick at which it was.
abbrev pub IsRipe : Sleeper × ℕ → Type 0
IsRipe (n, tick) = n.timeout ≤ tick

-- A turn: where the newcomers go, and what becomes of the clock and of the turns to come.
pub record Ran (horizon : ℕ) (w v : Wheel) : Type 0 where
  pub later : w.l_now ≤ v.l_now
  pub orderly : AreOrderly horizon v.l_now v.turns
  pub same_hand : v.now_4sleep ≡ w.now_4sleep
  pub same_woken : v.woken ≡ w.woken
  pub come : (j : ℕ) → v.links j ≡ w.links j ++ newcomers j w.turns
  pub in_time : (j : ℕ) → All (IsIn v.l_now j) (newcomers j w.turns)
  pub fewer : (j : ℕ) → length (newcomers j w.turns) + naps_to_come v.turns ≤ naps_to_come w.turns
  pub counted : (c j : ℕ) → asleep c (newcomers j w.turns) + coming c j v.turns ≡ coming c j w.turns

run-Ran :
    (horizon : ℕ) (ts : List Turn) (w : Wheel)
    → AreOrderly horizon w.l_now ts
    → let start = record w { turns = ts } in Ran horizon start (run ts start)
unfolding run newcomers asleep coming naps_to_come
run-Ran horizon [] w h = record {
  later = omega arith;
  orderly = h;
  same_hand = refl;
  same_woken = refl;
  come = λ j. sym (append-nil (w.links j));
  in_time = λ j. tt;
  fewer = λ j. omega arith;
  counted = λ c j. omega arith;
}
run-Ran horizon (t ∷ ts) w h = record {
  later = h.0;
  orderly = h.1.1;
  same_hand = refl;
  same_woken = refl;
  come = λ j. sleep_all-added j t.naps w.links;
  in_time = λ j. all_added-IsIn (t.clock / 10) j t.naps h.1.0;
  fewer = λ j. omega (arith, length-all_added j t.naps);
  counted = λ c j. refl;
}

pub run_turns :
    (horizon : ℕ) (w : Wheel) → AreOrderly horizon w.l_now w.turns → Ran horizon w (run w.turns w)
run_turns horizon w h = run-Ran horizon w.turns w h
