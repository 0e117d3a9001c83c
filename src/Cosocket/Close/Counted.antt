-- ===== src/Cosocket/Close/Counted.antt =====
-- What closing a cosocket (src/coevent.c) does with the counter of its pool key.
use alilua_coevent_module.Prelude.{
  ℕ, pos, ◌%◌, ◌<◌, ◌≡◌, ◌≢◌, refl, ap, ◌∙◌, inl, inr, Bool, true, false, not, ◌&&◌, Option, none,
  some, arith, Bytes, Bool-cases, Option-cases, if◌then◌else◌, ◌==◌, ltb, leb,
}
use alilua_coevent_module.Pool.{
  Pool, Event, Counter, Conn, buckets, generation, minus_one, delete_in_waiting_get_connection,
  add_connection_to_pool, append_conn, cosocket_be_close, drop_connection, new_conn,
  get_connection_pool_counter,
}
use alilua_coevent_module.Pool.Counters.{
  counter_of, counter_of-operate, counter_of-get, counter_of-store, get-counter_of,
  pool_key-find_counter,
}
use alilua_coevent_module.Pool.Limit.{of_key, new_conn_fields, add_connection_to_pool-cases}
use alilua_coevent_module.Cosocket.{
  Cosocket, World, uncount, close_fd, free_ssl, free_ctx, leave_queue, called, with_cok,
  without_buffers, se_delete,
}
use alilua_coevent_module.Cosocket.Close.{
  Outside, pooled, close_own, hand_in, give_back, _lua_co_close, timeout_state, close_counted,
  end_ssl, raise_size, lua_co_setkeepalive,
}
use alilua_coevent_module.Cosocket.Close.Balance.{leave_queue_fields, add-unallocated}

-- The counter of `j` once a connection of `key` is counted out; key 0 is never counted.
abbrev pub counted_out : ℕ → ℕ → Counter → Counter
counted_out key j c =
    if ltb key 1 then c else if key == j then record c { count = minus_one c.count } else c

counter_of-leave_queue :
    (j : ℕ) (w : World) → counter_of (leave_queue w).pool j ≡ counter_of w.pool j
unfolding leave_queue delete_in_waiting_get_connection
counter_of-leave_queue j w = ground arith

counter_of-uncount :
    (j : ℕ) (w : World)
    → counter_of (uncount w).pool j ≡ counted_out w.cok.pool_key j (counter_of w.pool j)
unfolding uncount
counter_of-uncount j w = counter_of-operate w.cok.pool_key j minus_one w.pool

pool-close_fd : (w : World) → (close_fd w).pool ≡ w.pool
unfolding close_fd
pool-close_fd w = ground arith

counter_of-close_own :
    (j : ℕ) (w : World)
    → counter_of (close_own w).pool j ≡ counted_out w.cok.pool_key j (counter_of w.pool j)
unfolding close_own free_ssl free_ctx close_fd uncount
counter_of-close_own j w = ground (arith, counter_of-operate w.cok.pool_key j minus_one w.pool)

counter_of-append_conn :
    (g j : ℕ) (m : Conn) (watched : Bool) (p : Pool)
    → counter_of (append_conn g m watched p) j
      ≡ (if watched then counter_of p j else counted_out m.pool_key j (counter_of p j))
unfolding append_conn cosocket_be_close drop_connection
counter_of-append_conn g j m true p = refl
counter_of-append_conn g j m false p = counter_of-operate m.pool_key j minus_one _

counter_of-add :
    (now key size j : ℕ) (e : Event) (ssl ctx ssl_pw stale : Option ℕ) (allocated watched : Bool)
    (p : Pool)
    → let r =
        add_connection_to_pool now key size (some e) ssl ctx ssl_pw stale allocated watched p in
      (counter_of r.1 j
        ≡ (if r.0 && not watched then counted_out key j (counter_of p j) else counter_of p j))
counter_of-add now key size j e ssl ctx ssl_pw stale false watched p = rw add-unallocated refl
counter_of-add now key size j e ssl ctx ssl_pw stale true watched p =
    let list = p.links (generation now) (key % buckets) in
    let m = new_conn list e key ctx ssl ssl_pw stale in
    rw (add_connection_to_pool-cases now key size e ssl ctx ssl_pw stale watched p)
      (elim (Bool-cases (leb (of_key key list) size)) [
        | inl room ↦ rw room (
            ground (
              arith,
              counter_of-append_conn (generation now) j m watched p,
              (new_conn_fields list e key ctx ssl ssl_pw stale).0,
            ))
        | inr full ↦ rw full refl
      ])

counter_of-pooled :
    (j : ℕ) (e : Event) (o : Outside) (c : Cosocket) (p : Pool)
    → counter_of (pooled o e c p).1 j ≡ (
        if (pooled o e c p).0 && not o.watched
        then counted_out c.pool_key j (counter_of p j)
        else counter_of p j)
unfolding pooled
counter_of-pooled j e o c p = elim (Bool-cases (ltb c.pool_size 1)) [
  | inl unpooled ↦ rw unpooled refl
  | inr sized ↦ rw sized (
      counter_of-add o.now c.pool_key c.pool_size j e c.ssl c.ctx c.ssl_pw o.stale o.allocated
        o.watched p)
]

-- Whether the pool keeps the connection idle, with its event watched.
abbrev pub keeps : Outside → Event → Cosocket → Pool → Bool
keeps o e c p = (pooled o e c p).0 && o.watched

counter_of-hand_in :
    (j fd : ℕ) (e : Event) (o : Outside) (w : World)
    → counter_of (hand_in o fd (some e) w).pool j ≡ (
        if keeps o (record e { fd = fd }) w.cok w.pool
        then counter_of w.pool j
        else counted_out w.cok.pool_key j (counter_of w.pool j))
unfolding hand_in
counter_of-hand_in j fd e o w =
    let e' : Event = record e { fd = fd } in
    elim (Bool-cases (pooled o e' w.cok w.pool).0) [
      | inl taken ↦ rw taken (ground (arith, counter_of-pooled j e' o w.cok w.pool, taken))
      | inr refused ↦ rw refused (counter_of-close_own j w)
    ]

counter_of-give_back :
    (j fd : ℕ) (e : Event) (o : Outside) (w : World)
    → w.cok.fd ≡ some fd
    → w.cok.ptr ≡ some e
    → counter_of (give_back o w).pool j ≡ (
        if keeps o (record e { fd = fd }) w.cok w.pool
        then counter_of w.pool j
        else counted_out w.cok.pool_key j (counter_of w.pool j))
unfolding give_back
counter_of-give_back j fd e o w open_fd event =
    rw (open_fd, give_back)
      (ap (λ (q : Option Event). counter_of (hand_in o fd q w).pool j) event
        ∙ counter_of-hand_in j fd e o w)

-- `_lua_co_close` of a cosocket with a socket counts the connection out of its pool key, exactly
-- if the pool does not keep it idle; no other key's counter changes, and no pool size. (The socket has
-- its event.)
pub _lua_co_close-counted :
    (j fd : ℕ) (e : Event) (o : Outside) (w : World)
    → w.cok.fd ≡ some fd
    → w.cok.ptr ≡ some e
    → let v = leave_queue (with_cok w (without_buffers w.cok)) in
      let v' = with_cok v (record (v.cok) { timeout_ptr = false; status = 0 }) in
      (counter_of (_lua_co_close o w).pool j ≡ (
        if keeps o (record e { fd = fd }) v'.cok v'.pool
        then counter_of w.pool j
        else counted_out w.cok.pool_key j (counter_of w.pool j)))
unfolding _lua_co_close
_lua_co_close-counted j fd e o w open_fd event =
    let start = with_cok w (without_buffers w.cok) in
    let v = leave_queue start in
    let v' = with_cok v (record (v.cok) { timeout_ptr = false; status = 0 }) in
    let same_cok = (leave_queue_fields start).0 in
    let still_open : v'.cok.fd ≡ some fd = ap (λ (c : Cosocket). c.fd) same_cok ∙ open_fd in
    let same_event : v'.cok.ptr ≡ some e = ap (λ (c : Cosocket). c.ptr) same_cok ∙ event in
    let same_key : v'.cok.pool_key ≡ w.cok.pool_key = ap (λ (c : Cosocket). c.pool_key) same_cok in
    counter_of-give_back j fd e o v' still_open same_event
    ∙ rw (counter_of-leave_queue j start, same_key) refl

counter_of-end_ssl : (j : ℕ) (w : World) → counter_of (end_ssl w).pool j ≡ counter_of w.pool j
unfolding end_ssl free_ssl free_ctx
counter_of-end_ssl j w = ground arith

-- The same where the cosocket may have no socket.
abbrev pub counted_out_fd : Option ℕ → ℕ → ℕ → Counter → Counter
counted_out_fd none key j c = c
counted_out_fd (some fd) key j c = counted_out key j c

counter_of-close_counted :
    (j : ℕ) (w : World)
    → counter_of (close_counted w).pool j
      ≡ counted_out_fd w.cok.fd w.cok.pool_key j (counter_of w.pool j)
unfolding close_counted
counter_of-close_counted j w = elim (Option-cases w.cok.fd) [
  | inl no_fd ↦ rw (no_fd, close_counted) refl
  | inr (fd, open_fd) ↦
      rw (open_fd, close_counted)
        (ap (λ (p : Pool). counter_of p j) (pool-close_fd (uncount w)) ∙ counter_of-uncount j w)
]

-- A timeout counts a connection out of its pool key exactly if the cosocket had a socket: one that
-- only waited for the pool is not counted out.
pub timeout_state-counted :
    (j : ℕ) (w : World)
    → counter_of (timeout_state w).pool j
      ≡ counted_out_fd w.cok.fd w.cok.pool_key j (counter_of w.pool j)
unfolding timeout_state
timeout_state-counted j w =
    let start = with_cok w (record (w.cok) { timeout_ptr = false }) in
    let w1 = leave_queue start in
    let w2 = called (se_delete w1.cok.ptr) w1 in
    let w2' = with_cok w2 (record (w2.cok) { ptr = none }) in
    let w3 = close_counted w2' in
    let w3' = with_cok w3 (record (w3.cok) { status = 0 }) in
    let same_cok = (leave_queue_fields start).0 in
    counter_of-end_ssl j w3'
    ∙ counter_of-close_counted j w2'
    ∙ ap (λ (c : Cosocket). counted_out_fd c.fd c.pool_key j (counter_of w1.pool j)) same_cok
    ∙ ap (counted_out_fd w.cok.fd w.cok.pool_key j) (counter_of-leave_queue j start)

keeps-unpooled :
    (o : Outside) (e : Event) (c : Cosocket) (p : Pool) → c.pool_size ≡ 0 → keeps o e c p ≡ false
unfolding pooled
keeps-unpooled o e c p h = ground arith

count-raise_size :
    (size j : ℕ) (w : World)
    → (counter_of (raise_size size w).pool j).count ≡ (counter_of w.pool j).count
unfolding raise_size
count-raise_size size j w =
    let key = w.cok.pool_key in
    let r = get_connection_pool_counter key w.pool in
    ground (
      arith,
      counter_of-store (record (r.0) { size = size }) j r.1,
      counter_of-get key j w.pool,
      get-counter_of key w.pool,
      pool_key-find_counter key (w.pool.counters (key % buckets)),
    )

-- `setkeepalive` with a pool size of 0 and a new pool key: the connection is counted out of the
-- new key, where nothing has counted it in, and stays counted under the old key.
pub setkeepalive-miscounted :
    (fnv1a_32 : Bytes → ℕ) (o : Outside) (fd : ℕ) (e : Event) (key : Bytes) (w : World)
    → w.cok.fd ≡ some fd
    → w.cok.ptr ≡ some e
    → 0 < fnv1a_32 key
    → fnv1a_32 key ≢ w.cok.pool_key
    → let w' = (lua_co_setkeepalive fnv1a_32 o true (some (pos 0)) (some key) w).1 in
      ((counter_of w'.pool (fnv1a_32 key)).count
        ≡ minus_one (counter_of w.pool (fnv1a_32 key)).count)
      × ((counter_of w'.pool w.cok.pool_key).count ≡ (counter_of w.pool w.cok.pool_key).count)
unfolding lua_co_setkeepalive
setkeepalive-miscounted fnv1a_32 o fd e key w open_fd event pos_key new_key =
    let sized = with_cok w (record (w.cok) { pool_size = 0 }) in
    let w1 = raise_size 0 sized in
    let w2 = with_cok w1 (record (w1.cok) { pool_key = fnv1a_32 key }) in
    let start = with_cok w2 (without_buffers w2.cok) in
    let v = leave_queue start in
    let v' = with_cok v (record (v.cok) { timeout_ptr = false; status = 0 }) in
    let unpooled : keeps o (record e { fd = fd }) v'.cok v'.pool ≡ false =
      keeps-unpooled o (record e { fd = fd }) v'.cok v'.pool
        (ap (λ (c : Cosocket). c.pool_size) (leave_queue_fields start).0) in
    (
      ground (
        arith,
        _lua_co_close-counted (fnv1a_32 key) fd e o w2 open_fd event,
        unpooled,
        count-raise_size 0 (fnv1a_32 key) sized,
      ),
      ground (
        arith,
        _lua_co_close-counted w.cok.pool_key fd e o w2 open_fd event,
        unpooled,
        count-raise_size 0 w.cok.pool_key sized,
      ),
    )
