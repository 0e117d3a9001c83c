-- ===== src/Sleep.antt =====
-- The sleepers (src/lua-util.c): `_lua_sleep`, `lua_f_sleep` and `check_lua_sleep_timeouts`.
-- A doubly linked list of the source is a list here, from `timeout_links[k]` to
-- `timeout_link_ends[k]`.
pub mod Turns
pub mod Bucket
pub mod Walk
pub mod Check
mod Examples
use alilua_coevent_module.Prelude.{
  ℕ, ℤ, pos, negsuc, zero, suc, ◌+◌, ◌-◌, ◌*◌, ◌/◌, ◌%◌, ◌^◌, Bool, true, false, List, [], ◌∷◌,
  ◌++◌, Option, none, some, length, drop, if◌then◌else◌, ◌==◌, ltb, leb,
}
use alilua_coevent_module.Swop.{Swops, lua_f_coroutine_swop}

-- `sleep_timeout_t`, by its coroutine and its time, in hundredths of a second.
pub record Sleeper : Type 0 where
  pub co : ℕ
  pub timeout : ℕ

-- `TIME_BUCKET_SIZE`
abbrev pub time_bucket_size : ℕ
time_bucket_size = 6000

-- `timeout_links`
abbrev pub Links : Type 0
Links = ℕ → List Sleeper

abbrev pub update_links : Links → ℕ → List Sleeper → Links
update_links f k l j = if j == k then l else f j

-- A call of `_lua_sleep`: its coroutine, the time that `longtime` gives, in milliseconds, the
-- milliseconds to sleep, and whether `malloc` succeeds.
pub record Nap : Type 0 where
  pub co : ℕ
  pub now : ℕ
  pub msec : ℕ
  pub allocated : Bool

abbrev pub sleeper : Nap → Sleeper
sleeper a = record { co = a.co; timeout = (a.now + a.msec) / 10 }

-- `_lua_sleep`: whether it yields.
unfoldable pub _lua_sleep : Nap → Links → Bool × Links
_lua_sleep a f =
    let n = sleeper a in
    let k = n.timeout % time_bucket_size in
    if a.allocated then (true, update_links f k (f k ++ n ∷ [])) else (false, f)

-- What `sleep` does: it returns nothing, it answers as `swop` does, or it yields.
pub data Slept : Type 0 where
  nothing yields : Slept
  swopped : Bool → Slept

abbrev slept : Bool → Slept
slept true = yields
slept false = nothing

-- `lua_f_sleep`; the argument is `some` if it is a number.
unfoldable pub lua_f_sleep : Option ℤ → ℕ → ℕ → Bool → Links → Swops → Slept × (Links × Swops)
lua_f_sleep none l now allocated f s = (nothing, (f, s))
lua_f_sleep (some (negsuc n)) l now allocated f s =
    let r = lua_f_coroutine_swop allocated l s in (swopped r.0, (f, r.1))
lua_f_sleep (some (pos n)) l now allocated f s =
    let r = lua_f_coroutine_swop allocated l s in
    let q = _lua_sleep (record { co = l; now = now; msec = n; allocated = allocated }) f in
    if ltb n 1 then (swopped r.0, (f, r.1)) else (slept q.0, (q.1, s))

-- What happens while a coroutine runs that is resumed: the calls of `_lua_sleep` made, and then
-- the time, in milliseconds.
pub record Turn : Type 0 where
  pub naps : List Nap
  pub clock : ℕ

-- The file's state, with what is still to happen while coroutines run, in order, and the sleepers
-- woken, each with the time `l_now` at which it was, the latest first. After the last turn
-- coroutines run in no time and do not sleep.
pub record Wheel : Type 0 where
  pub links : Links
  pub now_4sleep : ℕ
  pub l_now : ℕ
  pub turns : List Turn
  pub woken : List (Sleeper × ℕ)

-- Calls of `_lua_sleep` one after another.
unfoldable pub sleep_all : List Nap → Links → Links
sleep_all [] f = f
sleep_all (a ∷ bs) f = sleep_all bs (_lua_sleep a f).1

-- `lua_f_lua_uthread_resume_in_c(L, 0); l_now = longtime() / 10`
unfoldable pub run : List Turn → Wheel → Wheel
run [] w = w
run (t ∷ ts) w = record w { links = sleep_all t.naps w.links; l_now = t.clock / 10; turns = ts }

abbrev pub is_empty {ℓ} : {A : Type ℓ} → List A → Bool
is_empty [] = true
is_empty (a ∷ bs) = false

-- A sleeper that is due is unlinked, and its coroutine resumed.
unfoldable pub wake : ℕ → List Sleeper → Sleeper → List Sleeper → Wheel → Wheel
wake k passed n rest w =
    run w.turns
      (record w { links = update_links w.links k (passed ++ rest); woken = (n, w.l_now) ∷ w.woken })

-- The walk over `timeout_links[k]`, which is `passed` and then `rest`; `m` points to the head of
-- `rest`, and was read before the coroutine ran: behind the last sleeper there is nothing to visit,
-- even if there is one by then. `none` if the fuel does not last.
unfoldable pub walk : ℕ → ℕ → List Sleeper → List Sleeper → Wheel → Option Wheel
walk fuel k passed [] w = some w
walk zero k passed (n ∷ rest) w = none
walk (suc fuel) k passed (n ∷ rest) w =
    let w' = wake k passed n rest w in
    let on_woken = walk fuel k passed (drop (length passed) (w'.links k)) w' in
    let on_sleeping = walk fuel k (passed ++ n ∷ []) rest w in
    if leb n.timeout w.l_now then if is_empty rest then some w' else on_woken else on_sleeping

-- How many sleepers there may still be to visit: the naps to come, and those in the bucket.
unfoldable pub naps_to_come : List Turn → ℕ
naps_to_come [] = 0
naps_to_come (t ∷ ts) = length t.naps + naps_to_come ts

abbrev pub walk_bucket : Wheel → Option Wheel
walk_bucket w =
    let k = w.now_4sleep % time_bucket_size in
    walk (length (w.links k) + naps_to_come w.turns) k [] (w.links k) w

-- The loop over the buckets, at most `fuel` of them.
unfoldable pub walk_buckets : ℕ → Wheel → Option Wheel
walk_buckets zero w = none
walk_buckets (suc fuel) w = elim (walk_bucket w) [
  | none ↦ none
  | some v ↦
      let next = record v { now_4sleep = v.now_4sleep + 1 } in
      let later = walk_buckets fuel next in
      if ltb v.now_4sleep v.l_now
      then if ltb next.now_4sleep v.l_now then later else some next
      else some v
]

-- Where `check_lua_sleep_timeouts` begins at the time `clock`, in milliseconds. The first call begins
-- five ticks before, in the arithmetic of an unsigned long.
unfoldable pub first_tick : ℕ → Wheel → ℕ
first_tick clock w = if w.now_4sleep == 0 then (clock / 10 + 2 ^ 64 - 5) % 2 ^ 64 else w.now_4sleep

unfoldable pub check_lua_sleep_timeouts : ℕ → ℕ → Wheel → Option Wheel
check_lua_sleep_timeouts fuel clock w =
    walk_buckets fuel (record w { l_now = clock / 10; now_4sleep = first_tick clock w })
