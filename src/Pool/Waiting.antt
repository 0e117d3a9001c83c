-- ===== src/Pool/Waiting.antt =====
-- The queue of cosockets that wait for a connection (src/connection-pool.c): who is served.
use alilua_coevent_module.Prelude.{
  ℕ, zero, suc, ◌+◌, ◌%◌, ◌/◌, ◌≤◌, ◌<◌, ◌≡◌, refl, sym, ap, ◌∙◌, inl, inr, List, [], ◌∷◌,
  Option-cases, Option, none, some, arith, All,
}
use alilua_coevent_module.Pool.{
  Pool, Conn, Waiter, buckets, update, recycle_one, recycle_bucket, recycle_from, clear_old,
  drop_connection, minus_one, take_in, regetfd, checkout, hand_over, try_bucket, resume_from,
  resume_in_waiting_get_connection, remove_waiter, delete_in_waiting_get_connection,
}
use alilua_coevent_module.Pool.Stock.{owned, idle, in_closed, here, links-operate}
use alilua_coevent_module.Pool.Conserve.{owned-clear_old}
use alilua_coevent_module.Pool.Clear.{spent}
use alilua_coevent_module.Pool.Taken.{closed-checkout, spent-checkout, checkout-IsTaken}

-- Looking for a connection does not touch the queue.
waiting-recycle_one : (g : ℕ) (m : Conn) (p : Pool) → (recycle_one g m p).waiting ≡ p.waiting
unfolding recycle_one drop_connection
waiting-recycle_one g m p = ground (arith, links-operate m.pool_key minus_one p)

waiting-recycle_bucket :
    (g : ℕ) (ms : List Conn) (p : Pool) → (recycle_bucket g ms p).waiting ≡ p.waiting
unfolding recycle_bucket
waiting-recycle_bucket g [] p = refl
waiting-recycle_bucket g (m ∷ ms) p =
    waiting-recycle_bucket g ms (recycle_one g m p) ∙ waiting-recycle_one g m p

waiting-recycle_from : (g q n i : ℕ) (p : Pool) → (recycle_from g q n i p).waiting ≡ p.waiting
unfolding recycle_from
waiting-recycle_from g q zero i p = refl
waiting-recycle_from g q (suc n) i p =
    waiting-recycle_from g q n (i + 1) _ ∙ waiting-recycle_bucket g (p.links q i) p

waiting-regetfd :
    (g q key : ℕ) (p p' : Pool) (n : Conn)
    → regetfd g q key p ≡ some (n, p')
    → p'.waiting ≡ p.waiting
unfolding regetfd take_in
waiting-regetfd g q key p p' n e = ground arith

waiting-checkout : (now key : ℕ) (p : Pool) → (checkout now key p).1.waiting ≡ p.waiting
unfolding checkout clear_old
waiting-checkout now key p =
    let g = now / 60 % 2 in
    let q = (g + 1) % 2 in
    let p' = recycle_from g q buckets 0 p in
    elim (Option-cases (regetfd g q key p')) [
      | inl missing ↦ rw (missing, checkout) (waiting-recycle_from g q buckets 0 p)
      | inr (r, found) ↦
          rw (found, checkout)
            (waiting-regetfd g q key p' r.1 r.0 found ∙ waiting-recycle_from g q buckets 0 p)
    ]

-- A search without success only clears the old generation.
checkout-none :
    (x now key : ℕ) (p : Pool)
    → (checkout now key p).0 ≡ none
    → owned x (checkout now key p).1 ≡ owned x p
unfolding checkout
checkout-none x now key p e =
    let g = now / 60 % 2 in
    elim (Option-cases (regetfd g ((g + 1) % 2) key (clear_old now p))) [
      | inl missing ↦ rw (missing, checkout) (owned-clear_old x now p)
      | inr (r, found) ↦ absurd (ground arith)
    ]

-- Deleting a waiter moves no socket.
idle-delete :
    (x : ℕ) (w : Waiter) (p : Pool)
    → (idle x (delete_in_waiting_get_connection w p) ≡ idle x p)
      × ((delete_in_waiting_get_connection w p).closed ≡ p.closed)
unfolding delete_in_waiting_get_connection idle
idle-delete x w p = (refl, refl)

-- The waiters of each bucket carry its number.
abbrev pub AreFiled : (ℕ → List Waiter) → Type 0
AreFiled f = (j : ℕ) → All (λ (w : Waiter). w.k ≡ j) (f j)

remove_waiter-first : (w : Waiter) (ws : List Waiter) → remove_waiter w.id (w ∷ ws) ≡ ws
unfolding remove_waiter
remove_waiter-first w ws = ground arith

module _ (now : ℕ) (key_of : ℕ → ℕ) where
  -- The first waiter `w` of a bucket has left the queue with connection `n`, of the key that its
  -- cosocket asks for, and which has left the pool. The connections of the old generation that were
  -- kept once already are closed, each once. All other connections and waiters are where they were.
  pub record Served (p : Pool) (w : Waiter) (n : Conn) (p' : Pool) : Type 0 where
    pub bucket : ℕ
    pub behind : List Waiter
    pub in_range : bucket < buckets
    pub first : p.waiting bucket ≡ w ∷ behind
    pub right_key : n.pool_key ≡ key_of w.cok
    pub left : p'.waiting ≡ update p.waiting bucket behind
    pub cleared : (x : ℕ) → in_closed x p'.closed ≡ spent x now p + in_closed x p.closed
    pub others : (x : ℕ) → idle x p ≡ here x n + spent x now p + idle x p'

  -- What a search without success does to the sockets.
  abbrev Searched : Pool → Pool → ℕ → Type 0
  Searched p q x =
      (owned x q ≡ owned x p)
      × (spent x now q + in_closed x q.closed ≡ spent x now p + in_closed x p.closed)

  -- A search for the first waiter of a bucket that finds nothing.
  hand_over-none :
      (x key : ℕ) (w : Waiter) (p : Pool) (r : Option Conn × Pool)
      → checkout now key p ≡ r
      → (hand_over w r).0 ≡ none
      → ((hand_over w r).1.waiting ≡ p.waiting) × Searched p (hand_over w r).1 x
  unfolding hand_over
  hand_over-none x key w p (none, q) e h = (
    sym (ap (λ (r : Option Conn × Pool). r.1.waiting) e) ∙ waiting-checkout now key p,
    let nothing : (checkout now key p).0 ≡ none = ap (λ (r : Option Conn × Pool). r.0) e in
        (
          sym (ap (λ (r : Option Conn × Pool). owned x r.1) e) ∙ checkout-none x now key p nothing,
          omega (
            arith,
            ap (λ (r : Option Conn × Pool). in_closed x r.1.closed) e,
            ap (λ (r : Option Conn × Pool). spent x now r.1) e,
            closed-checkout x now key p,
            spent-checkout x now key p nothing,
          ),
        ),
  )
  hand_over-none x key w p (some n, q) e h = absurd (cc)

  try_bucket-none :
      (x : ℕ) (ws : List Waiter) (p : Pool)
      → (try_bucket now key_of ws p).0 ≡ none
      → ((try_bucket now key_of ws p).1.waiting ≡ p.waiting)
        × Searched p (try_bucket now key_of ws p).1 x
  unfolding try_bucket
  try_bucket-none x [] p e = (refl, (refl, refl))
  try_bucket-none x (w ∷ ws) p e = hand_over-none x (key_of w.cok) w p _ refl e

  hand_over-some :
      (k : ℕ) (ws : List Waiter) (p p' : Pool) (v w : Waiter) (n : Conn) (r : Option Conn × Pool)
      → k < buckets
      → AreFiled p.waiting
      → p.waiting k ≡ v ∷ ws
      → checkout now (key_of v.cok) p ≡ r
      → hand_over v r ≡ (some (w, n), p')
      → Served p w n p'
  unfolding hand_over
  hand_over-some k ws p p' v w n (none, q) lt filed front e h = absurd (ground arith)
  hand_over-some k ws p p' v w n (some m, q) lt filed front e h =
      let same_w : v ≡ w = ground arith in
      let same_n : m ≡ n = ground arith in
      let after : delete_in_waiting_get_connection v q ≡ p' =
        ap (λ (r : Option (Waiter × Conn) × Pool). r.1) h in
      let unmoved : q.waiting ≡ p.waiting =
        sym (ap (λ (r : Option Conn × Pool). r.1.waiting) e)
        ∙ waiting-checkout now (key_of v.cok) p in
      let home : v.k ≡ k = (rw front at (filed k)).0 in
      let at_home : update p.waiting v.k (remove_waiter v.id (p.waiting v.k))
          ≡ update p.waiting k ws =
        rw (home, front, remove_waiter-first v ws) refl in
      record {
        bucket = k;
        behind = ws;
        in_range = lt;
        first = ground arith;
        right_key = ground (arith, (checkout-IsTaken now (key_of v.cok) p q m e).0);
        left =
            sym (ap (λ (p : Pool). p.waiting) after)
            ∙ unfold delete_in_waiting_get_connection in
              ap (λ (f : ℕ → List Waiter). update f v.k (remove_waiter v.id (f v.k))) unmoved
              ∙ at_home;
        cleared = λ x.
            ap (λ (p : Pool). in_closed x p.closed) (sym after)
            ∙ ap (in_closed x) (idle-delete x v q).1
            ∙ ((checkout-IsTaken now (key_of v.cok) p q m e).1 x).0;
        others = λ x. omega (
          arith,
          ((checkout-IsTaken now (key_of v.cok) p q m e).1 x).1,
          ap (here x) same_n,
          (idle-delete x v q).0,
          ap (idle x) after,
        );
      }

  try_bucket-some :
      (k : ℕ) (ws : List Waiter) (p p' : Pool) (w : Waiter) (n : Conn)
      → k < buckets
      → AreFiled p.waiting
      → p.waiting k ≡ ws
      → try_bucket now key_of ws p ≡ (some (w, n), p')
      → Served p w n p'
  unfolding try_bucket
  try_bucket-some k [] p p' w n lt filed front e = absurd (ground arith)
  try_bucket-some k (v ∷ ws) p p' w n lt filed front e =
      hand_over-some k ws p p' v w n _ lt filed front refl e

  -- Buckets that serve nobody do not matter for what a later one does.
  Served-later :
      (p q p' : Pool) (w : Waiter) (n : Conn)
      → q.waiting ≡ p.waiting
      → ((x : ℕ) → Searched p q x)
      → Served q w n p'
      → Served p w n p'
  unfolding owned
  Served-later p q p' w n same searched s = record {
    bucket = s.bucket;
    behind = s.behind;
    in_range = s.in_range;
    first = rw (← same) s.first;
    right_key = s.right_key;
    left = rw (← same) s.left;
    cleared = λ x. omega (arith, s.cleared x, (searched x).1);
    others = λ x. omega (arith, s.others x, (searched x).0, (searched x).1);
  }

  resume_from-Served :
      (m k : ℕ) (p p' : Pool) (w : Waiter) (n : Conn)
      → k + m ≤ buckets
      → AreFiled p.waiting
      → resume_from now key_of m k p ≡ (some (w, n), p')
      → Served p w n p'
  unfolding resume_from
  resume_from-Served zero k p p' w n le filed e = absurd (ground arith)
  resume_from-Served (suc m) k p p' w n le filed e =
      elim (Option-cases (try_bucket now key_of (p.waiting k) p).0) [
        | inl missing ↦
            let q = (try_bucket now key_of (p.waiting k) p).1 in
            let same = (try_bucket-none 0 (p.waiting k) p missing).0 in
            Served-later p q p' w n same (λ x. (try_bucket-none x (p.waiting k) p missing).1)
              (resume_from-Served m (k + 1) q p' w n (omega arith) (rw same filed)
                (rw (missing, resume_from) at e))
        | inr (r, found) ↦
            try_bucket-some k (p.waiting k) p p' w n (omega arith) filed refl
              (rw (found, resume_from) at e)
      ]

  -- When `resume_in_waiting_get_connection` resumes a cosocket, it is the one that has waited
  -- longest in its bucket, and it alone leaves the queue. The connection it gets is of its pool key and
  -- has left the pool. The connections of the old generation that were kept once already are closed,
  -- each once; every other connection stays in the pool, and nothing else is closed. (The waiters of
  -- each bucket carry its number.)
  pub resume_in_waiting_get_connection-Served :
      (p p' : Pool) (w : Waiter) (n : Conn)
      → AreFiled p.waiting
      → resume_in_waiting_get_connection now key_of p ≡ (some (w, n), p')
      → Served p w n p'
  unfolding resume_in_waiting_get_connection
  resume_in_waiting_get_connection-Served p p' w n filed e =
      resume_from-Served buckets 0 p p' w n (omega arith) filed e
