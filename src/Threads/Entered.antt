-- ===== src/Threads/Entered.antt =====
-- Whom `lua_f_lua_uthread_wait` (src/lua-uthread.c) waits for.
use alilua_coevent_module.Prelude.{
  ℕ, ◌+◌, ◌%◌, ◌≡◌, refl, sym, ap, ◌∙◌, inl, inr, Bool, true, ◌&&◌, Bool-cases, Option-cases,
  ℕ_discrete, Option, none, some, List, [], ◌∷◌, ◌++◌, arith, length, length-append, if◌then◌else◌,
  ◌==◌, ltb,
}
use alilua_coevent_module.Threads.{
  Key, Threads, find_key, put_key, get_thread_rbtree_key, count_wait, wait_for, wait_all,
}
use alilua_coevent_module.Threads.Keys.{
  times, find_key-put_same, find_key-put_other, get_thread_rbtree_key-Got,
}

abbrev pub places_of : Option Key → ℕ
places_of none = 0
places_of (some k) = length k.waiting

-- How many places of a coroutine's array are taken; none if it has no key.
abbrev pub places : ℕ → List Key → ℕ
places co ks = places_of (find_key co ks)

-- The plain description: of the arguments, those count that are suspended coroutines whose array has
-- one of its six places free, when those of `before` have taken theirs, one each.
unfoldable pub entries : Threads → List ℕ → List (Option ℕ) → ℕ
entries s before [] = 0
entries s before (none ∷ cos) = entries s before cos
entries s before (some co ∷ cos) =
    let on = entries s (co ∷ before) cos in
    let past = entries s before cos in
    if s.suspended co && ltb (places co s.keys + times co before) 6 then 1 + on else past

places-get : (x co : ℕ) (ks : List Key) → places x (get_thread_rbtree_key co ks).1 ≡ places x ks
unfolding get_thread_rbtree_key find_key
places-get x co ks = elim (Option-cases (find_key co ks)) [
  | inl missing ↦ elim (Bool-cases (co == x)) [
    | inl here ↦
        let miss : find_key x ks ≡ none =
          ap (λ (y : ℕ). find_key y ks) (sym (ground (arith, here))) ∙ missing in
        rw (missing, get_thread_rbtree_key, here, miss) refl
    | inr away ↦ rw (missing, get_thread_rbtree_key, away) refl
  ]
  | inr (k, found) ↦ rw (found, get_thread_rbtree_key) refl
]

places-put :
    (x co : ℕ) (ks : List Key) (k key : Key)
    → find_key co ks ≡ some k
    → key.co ≡ co
    → places x (put_key key ks) ≡ (if co == x then length key.waiting else places x ks)
places-put x co ks k key e same = elim (ℕ_discrete co x) [
  | yes here ↦
      ap (λ (y : ℕ). places y (put_key key ks)) (sym here)
      ∙ ap places_of (find_key-put_same co ks k key e same)
      ∙ ground (arith, here)
  | no away ↦
      ap places_of (find_key-put_other x ks key (λ h. away (sym same ∙ h))) ∙ ground (arith, away)
]

-- A coroutine's own key, found.
places-found :
    (x co : ℕ) (ks : List Key) (k : Key)
    → find_key co ks ≡ some k
    → co ≡ x
    → places x ks ≡ length k.waiting
places-found x co ks k e here = ap (λ (y : ℕ). places y ks) (sym here) ∙ ap places_of e

places-count_wait : (x l : ℕ) (ks : List Key) → places x (count_wait l ks) ≡ places x ks
unfolding count_wait
places-count_wait x l ks =
    let r = get_thread_rbtree_key l ks in
    let g = get_thread_rbtree_key-Got l ks in
    let w = (r.0.w + 1) % 65536 in
    let key : Key = record (r.0) { w = w; wd = if ltb 1 w then true else r.0.wd } in
    places-put x l r.1 r.0 key g.there g.same_co
    ∙ ground (arith, places-get x l ks, places-found x l r.1 r.0 g.there)

-- Whether a coroutine is entered, and what it takes.
record Enters (co : ℕ) (s : Threads) (r : Bool × Threads) : Type 0 where
  entered : r.0 ≡ (s.suspended co && ltb (places co s.keys) 6)
  same_status : r.1.suspended ≡ s.suspended
  taken : (x : ℕ) → places x r.1.keys ≡ (if r.0 && co == x then 1 else 0) + places x s.keys

wait_for-Enters : (l co : ℕ) (s : Threads) → Enters co s (wait_for l co s)
unfolding wait_for
wait_for-Enters l co s =
    let r = get_thread_rbtree_key co s.keys in
    let g = get_thread_rbtree_key-Got co s.keys in
    let key : Key = record (r.0) { waiting = r.0.waiting ++ l ∷ [] } in
    let own : places co s.keys ≡ length r.0.waiting =
      sym (places-get co co s.keys) ∙ places-found co co r.1 r.0 g.there refl in
    elim (Bool-cases (s.suspended co)) [
      | inr running ↦
          rw running
            (record { entered = rw running refl; same_status = refl; taken = λ x. omega arith })
      | inl waits ↦ elim (Bool-cases (ltb (length r.0.waiting) 6)) [
        | inr full ↦
            rw (waits, full)
              (record {
                entered = rw (waits, own, full) refl;
                same_status = refl;
                taken = λ x. omega (arith, places-get x co s.keys);
              })
        | inl room ↦
            rw (waits, room)
              (record {
                entered = rw (waits, own, room) refl;
                same_status = refl;
                taken = λ x.
                    places-count_wait x l (put_key key r.1)
                    ∙ places-put x co r.1 r.0 key g.there g.same_co
                    ∙ ground (
                      arith,
                      own,
                      length-append r.0.waiting (l ∷ []),
                      places-get x co s.keys,
                      places-found x co r.1 r.0 g.there,
                    );
              })
      ]
    ]

-- The same argument list, seen from the state in which those of `before` have taken their places.
wait_all-entries_from :
    (l : ℕ) (cos : List (Option ℕ)) (before : List ℕ) (s s' : Threads)
    → s'.suspended ≡ s.suspended
    → ((x : ℕ) → places x s'.keys ≡ times x before + places x s.keys)
    → (wait_all l cos s').0 ≡ entries s before cos
unfolding wait_all entries
wait_all-entries_from l [] before s s' same taken = refl
wait_all-entries_from l (none ∷ cos) before s s' same taken =
    wait_all-entries_from l cos before s s' same taken
wait_all-entries_from l (some co ∷ cos) before s s' same taken =
    let r = wait_for l co s' in
    let e = wait_for-Enters l co s' in
    let test : r.0 ≡ (s.suspended co && ltb (places co s.keys + times co before) 6) =
      e.entered ∙ ground (arith, taken co, ap (λ (f : ℕ → Bool). f co) same) in
    elim (Bool-cases r.0) [
      | inl goes_in ↦
          let on : (wait_all l cos r.1).0 ≡ entries s (co ∷ before) cos =
            wait_all-entries_from l cos (co ∷ before) s r.1 (e.same_status ∙ same)
              (λ x. unfold times in ground (arith, e.taken x, taken x, goes_in)) in
          rw (← test, goes_in) (ap (λ (n : ℕ). 1 + n) on)
      | inr stays_out ↦
          let past : (wait_all l cos r.1).0 ≡ entries s before cos =
            wait_all-entries_from l cos before s r.1 (e.same_status ∙ same)
              (λ x. ground (arith, e.taken x, taken x, stays_out)) in
          rw (← test, stays_out) (omega (arith, past))
    ]

-- As many are entered as the plain description says.
pub wait_all-entries :
    (l : ℕ) (cos : List (Option ℕ)) (s : Threads) → (wait_all l cos s).0 ≡ entries s [] cos
unfolding times
wait_all-entries l cos s = wait_all-entries_from l cos [] s s refl (λ x. omega arith)
