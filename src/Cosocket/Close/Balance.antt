-- ===== src/Cosocket/Close/Balance.antt =====
-- What closing a cosocket (src/coevent.c) does with its socket and with the pool's counter.
use alilua_coevent_module.Prelude.{
  ℕ, ◌+◌, ◌%◌, ◌≡◌, refl, ap, ◌∙◌, inl, inr, Bool, false, List, [], ◌∷◌, Option, none, some, arith,
  Option-cases, if◌then◌else◌, ◌==◌,
}
use alilua_coevent_module.Pool.{
  Pool, Event, Waiter, buckets, minus_one, connection_pool_counter_operate,
  delete_in_waiting_get_connection, add_connection_to_pool,
}
use alilua_coevent_module.Pool.Stock.{owned, idle, links-operate}
use alilua_coevent_module.Pool.Release.{IsNew}
use alilua_coevent_module.Cosocket.{
  Cosocket, World, Call, se_delete, se_be_read, close, ssl_free, ctx_free, write_null, uncount,
  close_fd, free_ssl, free_ctx, leave_queue, called, with_cok, hang_up,
}
use alilua_coevent_module.Cosocket.Close.{
  Outside, close_own, hand_in, give_back, timeout_state, close_counted, end_ssl,
}

-- How often a socket was closed by the calls made.
unfoldable pub closes : ℕ → List Call → ℕ
closes x [] = 0
closes x (se_delete e ∷ cs) = closes x cs
closes x (se_be_read e ∷ cs) = closes x cs
closes x (close fd ∷ cs) = (if fd == x then 1 else 0) + closes x cs
closes x (ssl_free s ∷ cs) = closes x cs
closes x (ctx_free s ∷ cs) = closes x cs
closes x (write_null ∷ cs) = closes x cs

closes-se_delete :
    (x : ℕ) (e : Option Event) (cs : List Call) → closes x (se_delete e ∷ cs) ≡ closes x cs
unfolding closes
closes-se_delete x e cs = refl

-- How often a socket was closed, or is in the pool.
abbrev pub accounted : ℕ → World → ℕ
accounted x w = closes x w.calls + owned x w.pool

-- Whether the cosocket holds the socket.
abbrev pub held : ℕ → Option ℕ → ℕ
held x none = 0
held x (some fd) = if fd == x then 1 else 0

pub owned-operate :
    (x key : ℕ) (a : ℕ → ℕ) (p : Pool)
    → owned x (connection_pool_counter_operate key a p) ≡ owned x p
unfolding owned idle
owned-operate x key a p = ground (arith, links-operate key a p)

owned-delete :
    (x : ℕ) (n : Waiter) (p : Pool) → owned x (delete_in_waiting_get_connection n p) ≡ owned x p
unfolding delete_in_waiting_get_connection owned idle
owned-delete x n p = refl

-- Leaving the queue changes nothing but the queue.
pub leave_queue_fields :
    (w : World)
    → ((leave_queue w).cok ≡ record w.cok { pool_wait = none })
      × ((leave_queue w).pool.links ≡ w.pool.links)
      × ((leave_queue w).calls ≡ w.calls)
unfolding leave_queue delete_in_waiting_get_connection
leave_queue_fields w = ground arith

pub accounted-leave_queue : (x : ℕ) (w : World) → accounted x (leave_queue w) ≡ accounted x w
unfolding leave_queue
accounted-leave_queue x w = elim (Option-cases w.cok.pool_wait) [
  | inl no_wait ↦ rw (no_wait, leave_queue) refl
  | inr (n, waits) ↦
      rw (waits, leave_queue) (ap (λ (t : ℕ). closes x w.calls + t) (owned-delete x n w.pool))
]

-- Ending SSL closes no socket.
end_ssl_fields :
    (x : ℕ) (w : World)
    → (accounted x (end_ssl w) ≡ accounted x w)
      × ((end_ssl w).cok.fd ≡ w.cok.fd)
      × ((end_ssl w).cok.ptr ≡ w.cok.ptr)
      × ((end_ssl w).cok.status ≡ w.cok.status)
unfolding end_ssl free_ssl free_ctx closes
end_ssl_fields x w = ground arith

close_counted_fields :
    (w : World) → ((close_counted w).cok.fd ≡ none) × ((close_counted w).cok.ptr ≡ w.cok.ptr)
unfolding close_counted close_fd uncount
close_counted_fields w = ground arith

pub give_back_fields :
    (o : Outside) (w : World)
    → ((give_back o w).cok.fd ≡ none) × ((give_back o w).cok.status ≡ w.cok.status)
unfolding give_back hand_in close_own uncount close_fd free_ssl free_ctx
give_back_fields o w = ground arith

accounted-close_own :
    (x : ℕ) (w : World) → accounted x (close_own w) ≡ held x w.cok.fd + accounted x w
unfolding close_own uncount close_fd free_ssl free_ctx closes
accounted-close_own x w = ground (arith, owned-operate x w.cok.pool_key minus_one w.pool)

pub accounted-close_counted :
    (x : ℕ) (w : World) → accounted x (close_counted w) ≡ held x w.cok.fd + accounted x w
unfolding close_counted uncount close_fd closes
accounted-close_counted x w = ground (arith, owned-operate x w.cok.pool_key minus_one w.pool)

pub accounted-hang_up :
    (x : ℕ) (w : World) → accounted x (hang_up w) ≡ held x w.cok.fd + accounted x w
unfolding hang_up uncount close_fd closes
accounted-hang_up x w = ground (arith, owned-operate x w.cok.pool_key minus_one w.pool)

-- The event of the cosocket is new to the pool.
abbrev pub EventIsNew : Cosocket → Pool → Type 0
EventIsNew c p = (e : Event) → c.ptr ≡ some e → IsNew e (c.pool_key % buckets) p

pub add-unallocated :
    (now key size : ℕ) (e : Option Event) (ssl ctx ssl_pw stale : Option ℕ) (watched : Bool)
    (p : Pool)
    → add_connection_to_pool now key size e ssl ctx ssl_pw stale false watched p ≡ (false, p)
unfolding add_connection_to_pool
add-unallocated now key size none ssl ctx ssl_pw stale watched p = refl
add-unallocated now key size (some e) ssl ctx ssl_pw stale watched p = ground arith

-- Every socket of a cosocket has its event.
abbrev pub HasEvent : Cosocket → Type 0
HasEvent c = (fd : ℕ) → c.fd ≡ some fd → (e : Event) × (c.ptr ≡ some e)

-- A timeout closes the socket of the cosocket, if it has one, exactly once, and no other; the
-- cosocket is left without socket and event, with status 0, and free for the next call.
pub timeout_state-accounted :
    (x : ℕ) (w : World)
    → (accounted x (timeout_state w) ≡ held x w.cok.fd + accounted x w)
      × ((timeout_state w).cok.fd ≡ none)
      × ((timeout_state w).cok.ptr ≡ none)
      × ((timeout_state w).cok.status ≡ 0)
      × ((timeout_state w).cok.inuse ≡ false)
unfolding timeout_state
timeout_state-accounted x w =
    let start = with_cok w (record (w.cok) { timeout_ptr = false }) in
    let w1 = leave_queue start in
    let w2 = called (se_delete w1.cok.ptr) w1 in
    let w2' = with_cok w2 (record (w2.cok) { ptr = none }) in
    let w3 = close_counted w2' in
    let w3' = with_cok w3 (record (w3.cok) { status = 0 }) in
    let (ended, ended_fd, ended_ptr, ended_status) = end_ssl_fields x w3' in
    (
      omega (
        arith,
        ended,
        accounted-close_counted x w2',
        accounted-leave_queue x start,
        ap (λ (c : Cosocket). held x c.fd) (leave_queue_fields start).0,
        closes-se_delete x w1.cok.ptr w1.calls,
      ),
      ended_fd ∙ (close_counted_fields w2').0,
      ended_ptr ∙ (close_counted_fields w2').1,
      ended_status,
      refl,
    )
