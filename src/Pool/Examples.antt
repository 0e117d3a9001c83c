-- ===== src/Pool/Examples.antt =====
-- Runs of the pool, and its theorems at concrete inputs.
use alilua_coevent_module.Prelude.{
  ℕ, ◌&&◌, not, inl, inr, Bool-cases, ◌+◌, ◌≡◌, refl, [], ◌∷◌, none, some, arith, true, false,
  if◌then◌else◌, ◌==◌,
}
use alilua_coevent_module.Pool.{
  Pool, Conn, Event, Waiter, checkout, add_connection_to_pool, clear_old,
  resume_in_waiting_get_connection, recycle_from, recycle_bucket, recycle_one, regetfd, take_in,
  take_first, resume_from, try_bucket, hand_over,
}
use alilua_coevent_module.Pool.Stock.{idle, in_closed, here}
use alilua_coevent_module.Pool.Clear.{spent}
use alilua_coevent_module.Pool.Taken.{checkout-IsTaken}
use alilua_coevent_module.Pool.Limit.{of_key, add_connection_to_pool-limit}
use alilua_coevent_module.Pool.Release.{add_connection_to_pool-IsKept}
use alilua_coevent_module.Pool.Waiting.{AreFiled, Served, resume_in_waiting_get_connection-Served}

abbrev event : Event
event = record { id = 1; fd = 9 }

abbrev conn : Conn
conn = record { ptr = event; pool_key = 70; ctx = none; ssl = none; ssl_pw = none; z = false }

abbrev waiter : Waiter
waiter = record { id = 5; cok = 3; k = 6 }

-- One idle connection of key 70 in generation 0, and one cosocket that waits for that key.
abbrev pool : Pool
pool = record {
  counters = λ k. [];
  links = λ g k. if g == 0 then (if k == 6 then conn ∷ [] else []) else [];
  waiting = λ k. if k == 6 then waiter ∷ [] else [];
  closed = [];
}

found : (checkout 60 70 pool).0 ≡ some (record conn { z = true })
unfolding checkout clear_old recycle_from recycle_bucket recycle_one regetfd take_in take_first
found = refl

checkout-IsTaken_example :
    let p' = (checkout 60 70 pool).1 in
    (conn.pool_key ≡ 70)
    × ((x : ℕ)
        → (in_closed x p'.closed ≡ spent x 60 pool + in_closed x [])
          × (idle x pool ≡ here x conn + spent x 60 pool + idle x p'))
unfolding checkout clear_old recycle_from recycle_bucket recycle_one regetfd take_in take_first
checkout-IsTaken_example =
    checkout-IsTaken 60 70 pool (checkout 60 70 pool).1 (record conn { z = true }) refl

abbrev event' : Event
event' = record { id = 2; fd = 11 }

-- A pool size of 1 is no bar to a second connection.
add_connection_to_pool-limit_example :
    let r = add_connection_to_pool 0 70 1 (some event') none none none none true true pool in
    (r.0 ≡ true) × (of_key 70 (r.1.links 0 6) ≡ 2)
unfolding of_key
add_connection_to_pool-limit_example =
    add_connection_to_pool-limit 0 70 1 event' none none none none pool

waiter_filed : AreFiled pool.waiting
waiter_filed j = elim (Bool-cases (j == 6)) [
  | inl here ↦ rw here (ground (arith, here), tt)
  | inr away ↦ rw away tt
]

abbrev served : Pool
served = (resume_in_waiting_get_connection 60 (λ cok. 70) pool).1

resume_in_waiting_get_connection-Served_example :
    Served 60 (λ cok. 70) pool waiter (record conn { z = true }) served
unfolding resume_in_waiting_get_connection resume_from try_bucket hand_over checkout clear_old
    recycle_from recycle_bucket recycle_one regetfd take_in take_first
resume_in_waiting_get_connection-Served_example =
    resume_in_waiting_get_connection-Served 60 (λ cok. 70) pool served waiter
      (record conn { z = true }) waiter_filed refl

-- The event cannot be watched: the pool takes the connection over and closes it.
add_connection_to_pool-IsKept_example :
    let r = add_connection_to_pool 0 70 1 (some event') none none none none true false pool in
    (idle 11 r.1 ≡ (if r.0 && false && 11 == 11 then 1 else 0) + idle 11 pool)
    × (in_closed 11 r.1.closed
        ≡ (if r.0 && not false && 11 == 11 then 1 else 0) + in_closed 11 pool.closed)
add_connection_to_pool-IsKept_example =
    add_connection_to_pool-IsKept 0 70 1 event' none none none none false pool (omega arith) 11
