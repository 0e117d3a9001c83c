-- ===== src/Sleep/Examples.antt =====
-- A check of the sleepers at concrete inputs.
use alilua_coevent_module.Prelude.{
  ℕ, ◌≡◌, inl, inr, Bool-cases, [], ◌∷◌, some, All, true, arith, if◌then◌else◌, ◌==◌,
}
use alilua_coevent_module.Sleep.{Wheel, first_tick, check_lua_sleep_timeouts}
use alilua_coevent_module.Sleep.Turns.{IsIn}
use alilua_coevent_module.Sleep.Check.{Checked, check_lua_sleep_timeouts-Checked}

-- One coroutine, due at tick 11, which sleeps again for 20 milliseconds.
abbrev wheel : Wheel
wheel = record {
  links = λ j. if j == 11 then record { co = 3; timeout = 11 } ∷ [] else [];
  now_4sleep = 10;
  l_now = 10;
  turns =
      record { naps = record { co = 3; now = 125; msec = 20; allocated = true } ∷ []; clock = 128 }
      ∷ [];
  woken = [];
}

wheel_placed : (j : ℕ) → All (IsIn 10 j) (wheel.links j)
wheel_placed j = elim (Bool-cases (j == 11)) [
  | inl e ↦ rw e ((ground (arith, e), omega arith), tt)
  | inr ne ↦ rw ne tt
]

check_lua_sleep_timeouts-Checked_example :
    (v : Wheel) × ((check_lua_sleep_timeouts 3 125 wheel ≡ some v)
      × Checked (record wheel { l_now = 12; now_4sleep = 10 }) v)
unfolding first_tick
check_lua_sleep_timeouts-Checked_example =
    check_lua_sleep_timeouts-Checked 12 3 125 wheel (omega arith) wheel_placed
      (omega arith, ((omega arith, tt), omega arith)) (omega arith) tt
