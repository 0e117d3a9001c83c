-- ===== src/Cosocket/Close/Timeout.antt =====
-- What a timeout of a cosocket (src/coevent.c) closes, and what stays as it was.
use alilua_coevent_module.Prelude.{ℕ, ◌+◌, ◌≡◌, ap, ◌∙◌, none, false, arith}
use alilua_coevent_module.Pool.{minus_one, delete_in_waiting_get_connection}
use alilua_coevent_module.Pool.Stock.{in_closed, in_buckets, idle, owned, links-operate}
use alilua_coevent_module.Cosocket.{
  World, uncount, close_fd, free_ssl, free_ctx, leave_queue, called, with_cok, hang_up,
  hang_up_uncounted, se_delete,
}
use alilua_coevent_module.Cosocket.Close.{timeout_state, close_counted, end_ssl}
use alilua_coevent_module.Cosocket.Close.Balance.{closes, held, accounted, timeout_state-accounted}

-- The connections in the pool, and those that the pool has closed, are the same in both states.
abbrev pub SamePool : World → World → Type 0
SamePool w w' = (w'.pool.links ≡ w.pool.links) × (w'.pool.closed ≡ w.pool.closed)

pub SamePool-then : (u v w : World) → SamePool u v → SamePool v w → SamePool u w
SamePool-then u v w a b = (b.0 ∙ a.0, b.1 ∙ a.1)

pub leave_queue-SamePool : (w : World) → SamePool w (leave_queue w)
unfolding leave_queue delete_in_waiting_get_connection
leave_queue-SamePool w = ground arith

end_ssl-SamePool : (w : World) → SamePool w (end_ssl w)
unfolding end_ssl free_ssl free_ctx
end_ssl-SamePool w = ground arith

close_counted-SamePool : (w : World) → SamePool w (close_counted w)
unfolding close_counted close_fd uncount
close_counted-SamePool w = ground (arith, links-operate w.cok.pool_key minus_one w.pool)

pub hang_up-SamePool : (w : World) → SamePool w (hang_up w)
unfolding hang_up close_fd uncount
hang_up-SamePool w = ground (arith, links-operate w.cok.pool_key minus_one w.pool)

pub hang_up_uncounted-SamePool : (w : World) → SamePool w (hang_up_uncounted w)
unfolding hang_up_uncounted close_fd
hang_up_uncounted-SamePool w = ground arith

-- The calls close what is accounted for and is not in the pool.
pub closes-SamePool :
    (x n m : ℕ) (w w' : World)
    → SamePool w w'
    → n + accounted x w' ≡ m + accounted x w
    → n + closes x w'.calls ≡ m + closes x w.calls
unfolding owned idle
closes-SamePool x n m w w' same h = omega (
  arith,
  h,
  ap (in_closed x) same.1,
  ap (λ f. in_buckets x (f 0) 64 + in_buckets x (f 1) 64) same.0,
)

timeout_state-SamePool : (w : World) → SamePool w (timeout_state w)
unfolding timeout_state
timeout_state-SamePool w =
    let w1 = leave_queue (with_cok w (record (w.cok) { timeout_ptr = false })) in
    let w2 = called (se_delete w1.cok.ptr) w1 in
    let w2' = with_cok w2 (record (w2.cok) { ptr = none }) in
    let w3 = close_counted w2' in
    let w3' = with_cok w3 (record (w3.cok) { status = 0 }) in
    let queue = leave_queue-SamePool (with_cok w (record (w.cok) { timeout_ptr = false })) in
    let counted = close_counted-SamePool w2' in
    let ended = end_ssl-SamePool w3' in
    (ended.0 ∙ counted.0 ∙ queue.0, ended.1 ∙ counted.1 ∙ queue.1)

-- A timeout closes the socket of the cosocket, if it has one, exactly once, and no other; it puts no
-- connection into the pool and takes none out. The cosocket is left without socket and event, with
-- status 0, and free for the next call.
pub timeout_state-IsClosed :
    (w : World)
    → ((x : ℕ) → closes x (timeout_state w).calls ≡ held x w.cok.fd + closes x w.calls)
      × SamePool w (timeout_state w)
      × ((timeout_state w).cok.fd ≡ none)
      × ((timeout_state w).cok.ptr ≡ none)
      × ((timeout_state w).cok.status ≡ 0)
      × ((timeout_state w).cok.inuse ≡ false)
timeout_state-IsClosed w =
    let same = timeout_state-SamePool w in
    let (counted, fd, ptr, status, inuse) = timeout_state-accounted 0 w in
    (
      λ x.
          let h : 0 + accounted x (timeout_state w) ≡ held x w.cok.fd + accounted x w =
            omega (arith, (timeout_state-accounted x w).0) in
          omega (arith, closes-SamePool x 0 (held x w.cok.fd) w (timeout_state w) same h),
      same,
      fd,
      ptr,
      status,
      inuse,
    )
