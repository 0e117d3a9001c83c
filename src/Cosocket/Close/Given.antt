-- ===== src/Cosocket/Close/Given.antt =====
-- Where `_lua_co_close` (src/coevent.c) gives the socket of a cosocket.
use alilua_coevent_module.Prelude.{
  ℕ, ◌+◌, ◌*◌, ◌%◌, ◌≡◌, refl, sym, ap, ◌∙◌, inl, inr, ◌⊎◌, false, not, ◌&&◌, Option, none, some,
  arith, Bool-cases, Option-cases, if◌then◌else◌, ◌==◌, ltb,
}
use alilua_coevent_module.Pool.{Pool, Event, buckets, minus_one}
use alilua_coevent_module.Pool.Stock.{in_closed, in_buckets, idle, links-operate}
use alilua_coevent_module.Pool.Release.{IsNew, add_connection_to_pool-IsKept}
use alilua_coevent_module.Cosocket.{
  Cosocket, World, uncount, close_fd, free_ssl, free_ctx, leave_queue, with_cok, without_buffers,
}
use alilua_coevent_module.Cosocket.Close.{
  Outside, pooled, close_own, hand_in, give_back, _lua_co_close,
}
use alilua_coevent_module.Cosocket.Close.Timeout.{SamePool, leave_queue-SamePool}
use alilua_coevent_module.Cosocket.Close.Balance.{
  closes, held, EventIsNew, HasEvent, leave_queue_fields, give_back_fields, add-unallocated,
}

-- Socket `s` is closed by a call `a` times more, idle in the pool `b` times more, and closed by the pool
-- `c` times more; and no other socket is.
abbrev pub Moved : Option ℕ → ℕ → ℕ → ℕ → World → World → Type 0
Moved s a b c w w' =
    (x : ℕ)
    → (closes x w'.calls ≡ a * held x s + closes x w.calls)
      × (idle x w'.pool ≡ b * held x s + idle x w.pool)
      × (in_closed x w'.pool.closed ≡ c * held x s + in_closed x w.pool.closed)

-- The socket, if any, is closed once, or put into the pool once, or closed by the pool once.
abbrev pub IsGiven : Option ℕ → World → World → Type 0
IsGiven s w w' = Moved s 1 0 0 w w' ⊎ (Moved s 0 1 0 w w' ⊎ Moved s 0 0 1 w w')

Moved-fd :
    (s t : Option ℕ) (a b c : ℕ) (w w' : World) → s ≡ t → Moved s a b c w w' → Moved t a b c w w'
Moved-fd s t a b c w w' e m x =
    let (closed, kept, dropped) = m x in
    (
      closed ∙ ap (λ r. a * held x r + closes x w.calls) e,
      kept ∙ ap (λ r. b * held x r + idle x w.pool) e,
      dropped ∙ ap (λ r. c * held x r + in_closed x w.pool.closed) e,
    )

IsGiven-fd : (s t : Option ℕ) (w w' : World) → s ≡ t → IsGiven s w w' → IsGiven t w w'
IsGiven-fd s t w w' e (inl m) = inl (Moved-fd s t 1 0 0 w w' e m)
IsGiven-fd s t w w' e (inr (inl m)) = inr (inl (Moved-fd s t 0 1 0 w w' e m))
IsGiven-fd s t w w' e (inr (inr m)) = inr (inr (Moved-fd s t 0 0 1 w w' e m))

close_own-Moved : (w : World) → Moved w.cok.fd 1 0 0 w (close_own w)
unfolding close_own uncount close_fd free_ssl free_ctx closes idle
close_own-Moved w x = ground (arith, links-operate w.cok.pool_key minus_one w.pool)

-- What the pool does with a connection that it takes, and with one that it refuses.
pooled-Kept :
    (x : ℕ) (o : Outside) (e : Event) (c : Cosocket) (p : Pool)
    → IsNew e (c.pool_key % buckets) p
    → let r = pooled o e c p in
      (idle x r.1 ≡ (if r.0 && o.watched && e.fd == x then 1 else 0) + idle x p)
      × (in_closed x r.1.closed
          ≡ (if r.0 && not o.watched && e.fd == x then 1 else 0) + in_closed x p.closed)
unfolding pooled
pooled-Kept x o e c p new = elim (Bool-cases (ltb c.pool_size 1)) [
  | inl unpooled ↦ rw unpooled (omega arith, omega arith)
  | inr sized ↦ elim (Bool-cases o.allocated) [
    | inl there ↦
        rw (sized, there)
          (add_connection_to_pool-IsKept o.now c.pool_key c.pool_size e c.ssl c.ctx c.ssl_pw o.stale
            o.watched p new x)
    | inr missing ↦ rw (sized, missing, add-unallocated) (omega arith, omega arith)
  ]
]

hand_in-IsGiven :
    (o : Outside) (fd : ℕ) (e : Event) (w : World)
    → IsNew e (w.cok.pool_key % buckets) w.pool
    → w.cok.fd ≡ some fd
    → IsGiven (some fd) w (hand_in o fd (some e) w)
unfolding hand_in
hand_in-IsGiven o fd e w new open_fd =
    let e' : Event = record e { fd = fd } in
    elim (Bool-cases (pooled o e' w.cok w.pool).0) [
      | inr refused ↦
          rw refused
            (inl (Moved-fd w.cok.fd (some fd) 1 0 0 w (close_own w) open_fd (close_own-Moved w)))
      | inl taken ↦ elim (Bool-cases o.watched) [
        | inl seen ↦
            rw taken
              (inr (inl λ x. ground (arith, pooled-Kept x o e' w.cok w.pool new, taken, seen)))
        | inr unseen ↦
            rw taken
              (inr (inr λ x. ground (arith, pooled-Kept x o e' w.cok w.pool new, taken, unseen)))
      ]
    ]

hand_in-IsGiven_ptr :
    (o : Outside) (fd : ℕ) (ptr : Option Event) (w : World)
    → ((e : Event) → ptr ≡ some e → IsNew e (w.cok.pool_key % buckets) w.pool)
    → w.cok.fd ≡ some fd
    → (e : Event) → ptr ≡ some e
    → IsGiven (some fd) w (hand_in o fd ptr w)
hand_in-IsGiven_ptr o fd none w new open_fd e event = absurd cc
hand_in-IsGiven_ptr o fd (some e') w new open_fd e event =
    hand_in-IsGiven o fd e' w (new e' refl) open_fd

give_back-IsGiven :
    (o : Outside) (w : World)
    → EventIsNew w.cok w.pool
    → HasEvent w.cok
    → IsGiven w.cok.fd w (give_back o w)
unfolding give_back
give_back-IsGiven o w new has = elim (Option-cases w.cok.fd) [
  | inl no_fd ↦ rw (no_fd, give_back) (inl λ x. (omega arith, omega arith, omega arith))
  | inr (fd, open_fd) ↦
      let (e, event) = has fd open_fd in
      let given : IsGiven (some fd) w (hand_in o fd w.cok.ptr w) =
        hand_in-IsGiven_ptr o fd w.cok.ptr w new open_fd e event in
      rw (open_fd, give_back) given
]

Moved-from :
    (s : Option ℕ) (a b c : ℕ) (u v w : World)
    → v.calls ≡ u.calls
    → SamePool u v
    → Moved s a b c v w
    → Moved s a b c u w
unfolding idle
Moved-from s a b c u v w calls same m x =
    let (closed, kept, dropped) = m x in
    (
      closed ∙ ap (λ cs. a * held x s + closes x cs) calls,
      kept
          ∙ ap (λ f. b * held x s + (in_buckets x (f 0) buckets + in_buckets x (f 1) buckets))
              same.0,
      dropped ∙ ap (λ l. c * held x s + in_closed x l) same.1,
    )

IsGiven-from :
    (s : Option ℕ) (u v w : World)
    → v.calls ≡ u.calls
    → SamePool u v
    → IsGiven s v w
    → IsGiven s u w
IsGiven-from s u v w calls same (inl m) = inl (Moved-from s 1 0 0 u v w calls same m)
IsGiven-from s u v w calls same (inr (inl m)) = inr (inl (Moved-from s 0 1 0 u v w calls same m))
IsGiven-from s u v w calls same (inr (inr m)) = inr (inr (Moved-from s 0 0 1 u v w calls same m))

-- `_lua_co_close` gives the socket of the cosocket, if it has one, away exactly once: it is closed, or
-- put into the pool, or closed by the pool, where its event cannot be watched. No other socket is
-- closed, comes into the pool or leaves it; and the cosocket has no socket and status 0. (The socket
-- has its event, and that is new to the pool.)
pub _lua_co_close-IsGiven :
    (o : Outside) (w : World)
    → EventIsNew w.cok w.pool
    → HasEvent w.cok
    → IsGiven w.cok.fd w (_lua_co_close o w)
      × ((_lua_co_close o w).cok.fd ≡ none)
      × ((_lua_co_close o w).cok.status ≡ 0)
unfolding _lua_co_close
_lua_co_close-IsGiven o w new has =
    let start = with_cok w (without_buffers w.cok) in
    let v = leave_queue start in
    let v' = with_cok v (record (v.cok) { timeout_ptr = false; status = 0 }) in
    let (same_cok, same_links, same_calls) = leave_queue_fields start in
    let new' : EventIsNew v'.cok v'.pool = λ e h. ground (arith, new e, same_cok, same_links) in
    let same_fd : v'.cok.fd ≡ w.cok.fd = ap (λ (c : Cosocket). c.fd) same_cok in
    let same_ptr : v'.cok.ptr ≡ w.cok.ptr = ap (λ (c : Cosocket). c.ptr) same_cok in
    let has' : HasEvent v'.cok =
      λ fd h. let (e, event) = has fd (sym same_fd ∙ h) in (e, same_ptr ∙ event) in
    let given : IsGiven w.cok.fd v' (give_back o v') =
      IsGiven-fd v'.cok.fd w.cok.fd v' (give_back o v') same_fd
        (give_back-IsGiven o v' new' has') in
    (
      IsGiven-from w.cok.fd w v' (give_back o v') same_calls (leave_queue-SamePool start) given,
      (give_back_fields o v').0,
      (give_back_fields o v').1,
    )
