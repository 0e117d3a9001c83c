-- ===== src/Files/Calls/Waits.antt =====
-- Coroutines that wait for files (src/lua-eio.c): who is suspended, and whom the callbacks resume.
use mathlib.Core.List.{Memᴰ}
use mathlib.Core.Path.{subst}
use alilua_coevent_module.Prelude.{
  ℕ, ℤ, pos, negsuc, ◌+◌, ◌≤◌, ◌≡◌, refl, sym, ap, ◌∙◌, Bool, true, false, inl, inr, List, [], ◌∷◌,
  ◌++◌, Option, some, All, All-append, arith, ℕ_discrete, Option-cases,
}
use alilua_coevent_module.Files.{Conversions, Request, Made}
use alilua_coevent_module.Files.Paths.{Users}
use alilua_coevent_module.Files.Handles.{lua_f_eio_gc}
use alilua_coevent_module.Files.Done.{Reply, Woken, nobody, woken, crashed, complete}
use alilua_coevent_module.Files.Calls.{
  Program, set_asleep, after_call, after_callback, handles_of, files_of,
}
use alilua_coevent_module.Files.Calls.Answered.{IsAnswered, refuses, waits, IsOpen, call-IsAnswered}
use alilua_coevent_module.Files.Calls.Resumed.{IsResumed, by_nobody, resumes, called_back-IsResumed}
use alilua_coevent_module.Files.Calls.Steps.{
  Step, calls, collects, completes, History, begins, next, waits_in, asked, as_number, IsHeld,
  IsSound,
}

asked-append : (l : ℕ) (rs ss : List Request) → asked l (rs ++ ss) ≡ asked l rs + asked l ss
asked-append l [] ss = omega arith
asked-append l (r ∷ rs) ss = omega (arith, asked-append l rs ss)

All-without {ℓ} :
    {A : Type 0} (P : A → Type ℓ) (xs : List A) (a : A) (ys : List A)
    → All P (xs ++ (a ∷ ys))
    → P a × All P (xs ++ ys)
All-without P [] a ys h = h
All-without P (x ∷ xs) a ys h = let (ha, rest) = All-without P xs a ys h.1 in (ha, (h.0, rest))

member : (fd : ℤ) (hs : List ℤ) → All IsOpen hs → Memᴰ fd hs → IsOpen fd
member fd [] h m = elim m [ ]
member fd (x ∷ xs) h (Memᴰ.head e) = subst IsOpen (sym e) h.0
member fd (x ∷ xs) h (Memᴰ.tail m) = member fd xs h.1 m

members : (fds hs : List ℤ) → All IsOpen hs → All (λ (fd : ℤ). Memᴰ fd hs) fds → All IsOpen fds
members [] hs h ms = tt
members (fd ∷ fds) hs h ms = (member fd hs h ms.0, members fds hs h ms.1)

after_call-IsSound :
    (l : ℕ) (m : Made) (p : Program)
    → p.asleep l ≡ false
    → IsSound p
    → IsAnswered l m
    → IsSound (after_call l m p)
unfolding after_call
after_call-IsSound l m p awake s (refuses text) = record {
  one_each = s.one_each;
  held = s.held;
  opened = s.opened;
}
after_call-IsSound l m p awake s (waits cb op) = record {
  one_each = λ k. elim (ℕ_discrete l k) [
    | yes e ↦ ground (arith, s.one_each k, subst (λ (j : ℕ). p.asleep j ≡ false) e awake)
    | no other ↦ ground (arith, s.one_each k)
  ];
  held = (tt, s.held);
  opened = s.opened;
}

collected-IsSound :
    (fd : ℤ) (before behind : List ℤ) (l : ℕ) (p : Program)
    → p.handles ≡ before ++ (fd ∷ behind)
    → IsSound p
    → IsSound (record (after_call l (lua_f_eio_gc fd) p) { handles = before ++ behind })
unfolding after_call lua_f_eio_gc
collected-IsSound (pos n) before behind l p e s = record {
  one_each = λ k. omega (arith, s.one_each k);
  held = (refl, s.held);
  opened = (All-without IsOpen before (pos n) behind (subst (All IsOpen) e s.opened)).1;
}
collected-IsSound (negsuc n) before behind l p e s = record {
  one_each = s.one_each;
  held = s.held;
  opened = (All-without IsOpen before (negsuc n) behind (subst (All IsOpen) e s.opened)).1;
}

as_number_small : (b : Bool) → as_number b ≤ 1
as_number_small true = omega arith
as_number_small false = omega arith

some_inj : {p q : Program} → ◌≡◌ {A = Option Program} (some p) (some q) → p ≡ q
some_inj e = cc (e)

-- One request less, and the coroutine that waited for it is resumed.
completed-IsSound :
    (r : Request) (before behind : List Request) (c : Woken) (p : Program)
    → p.pending ≡ before ++ (r ∷ behind)
    → IsSound p
    → IsResumed r.waiter c
    → (q : Program) × (after_callback c (record p { pending = before ++ behind }) ≡ some q)
      × IsSound q
completed-IsSound r before behind c p e s (by_nobody w) = (
  record p { pending = before ++ behind },
  refl,
  record {
    one_each = λ k. omega (
      arith,
      s.one_each k,
      ap (asked k) e,
      asked-append k before (r ∷ behind),
      asked-append k before behind,
      ap (waits_in k) w,
    );
    held = (All-without IsHeld before r behind (subst (All IsHeld) e s.held)).1;
    opened = s.opened;
  },
)
completed-IsSound r before behind c p e s (resumes l vs w h) =
    let split : (k : ℕ)
        → asked k (before ++ behind) + waits_in k (some l) ≡ as_number (p.asleep k) =
      λ (k : ℕ). omega (
        arith,
        s.one_each k,
        ap (asked k) e,
        asked-append k before (r ∷ behind),
        asked-append k before behind,
        ap (waits_in k) w,
      ) in
    let q = record p {
      asleep = set_asleep l false p.asleep;
      pending = before ++ behind;
      handles = handles_of vs ++ p.handles;
    } in
    (
      q,
      refl,
      record {
        one_each = λ k. elim (ℕ_discrete l k) [
          | yes same ↦ ground (arith, split k, as_number_small (p.asleep k))
          | no other ↦ ground (arith, split k)
        ];
        held = (All-without IsHeld before r behind (subst (All IsHeld) e s.held)).1;
        opened = All-append IsOpen (handles_of vs) p.handles h s.opened;
      },
    )

-- A request that is done, of a program that is sound.
complete-IsSound :
    (r : Request) (e : Reply) (before behind : List Request) (p : Program)
    → p.pending ≡ before ++ (r ∷ behind)
    → e.userdata ≡ true
    → IsSound p
    → (q : Program) × (after_callback (complete r e) (record p { pending = before ++ behind })
        ≡ some q)
      × IsSound q
unfolding complete
complete-IsSound r e before behind p split u s =
    let held = (All-without IsHeld before r behind (subst (All IsHeld) split s.held)).0 in
    completed-IsSound r before behind _ p split s
      (called_back-IsResumed r.callback r.waiter e held u)

Step-IsSound :
    {conv : Conversions} {users : Users} {p q : Program}
    → Step conv users p q
    → IsSound p
    → IsSound q
Step-IsSound {conv} {users} (calls m l args p awake known) s =
    after_call-IsSound l _ p awake s
      (call-IsAnswered conv users m l args (members (files_of args) p.handles s.opened known))
Step-IsSound (collects fd before behind l p e) s = collected-IsSound fd before behind l p e s
Step-IsSound (completes r e before behind p q split u done) s =
    let (q', done', sound) = complete-IsSound r e before behind p split u s in
    subst IsSound (some_inj (sym done' ∙ done)) sound

-- In any program that uses files, from a start that is sound, at any time: each coroutine that is
-- suspended has exactly one request that is not done, and the others have none; no callback that is
-- to come uses NULL for its coroutine; and no handle is without a descriptor. The handles that are
-- passed are Lua's own, and lua_newuserdata has memory.
pub History-IsSound :
    {conv : Conversions} {users : Users} {p q : Program}
    → IsSound p
    → History conv users p q
    → IsSound q
History-IsSound s begins = s
History-IsSound s (next h st) = Step-IsSound st (History-IsSound s h)

-- The request of a coroutine.
find :
    (l : ℕ) (rs : List Request)
    → 1 ≤ asked l rs
    → (r : Request) × (before : List Request) × (behind : List Request) × (rs
        ≡ before ++ (r ∷ behind))
      × (r.waiter ≡ some l)
find l [] h = absurd (omega arith)
find l (r ∷ rs) h = elim (Option-cases r.waiter) [
  | inl alone ↦
      let (r', before, behind, e, w) = find l rs (omega (arith, ap (waits_in l) alone)) in
      (r', r ∷ before, behind, ap (◌∷◌ r) e, w)
  | inr (k, held) ↦ elim (ℕ_discrete k l) [
    | yes e ↦ (r, [], rs, refl, held ∙ ap some e)
    | no other ↦
        let (r', before, behind, e, w) = find l rs (ground (arith, ap (waits_in l) held)) in
        (r', r ∷ before, behind, ap (◌∷◌ r) e, w)
  ]
]

awake_after :
    (l : ℕ) (w : Option ℕ) (c : Woken) (p q : Program)
    → IsResumed w c
    → w ≡ some l
    → after_callback c p ≡ some q
    → q.asleep l ≡ false
awake_after l w crashed p q r h done = elim r [ ]
awake_after l w nobody p q (by_nobody e) h done = absurd (cc (e, h))
awake_after l w (woken _ _) p q (resumes k vs e i) h done =
    let same : k ≡ l = ground (arith, e, h) in
    let left = some_inj done in ground (arith, same, ap (λ (x : Program). x.asleep l) left)

-- Whoever is suspended, at any time of a program that uses files, waits for a request that is not
-- done; and when it is done, however it ends and whatever was done before it, the coroutine is
-- resumed. The start is sound, Lua passes only handles that it has, and lua_newuserdata has memory.
pub History-wakes :
    {conv : Conversions} {users : Users} {p q : Program} (l : ℕ) (e : Reply)
    → IsSound p
    → History conv users p q
    → q.asleep l ≡ true
    → e.userdata ≡ true
    → (r : Request) × (before : List Request) × (behind : List Request) × (q' : Program)
      × (q.pending ≡ before ++ (r ∷ behind))
      × (after_callback (complete r e) (record q { pending = before ++ behind }) ≡ some q')
      × (q'.asleep l ≡ false)
unfolding complete
History-wakes {q = q} l e s h asleep u =
    let sound = History-IsSound s h in
    let (r, before, behind, split, w) =
      find l q.pending (omega (arith, sound.one_each l, ap as_number asleep)) in
    let (q', done, left) = complete-IsSound r e before behind q split u sound in
    let held = (All-without IsHeld before r behind (subst (All IsHeld) split sound.held)).0 in
    let resumed = called_back-IsResumed r.callback r.waiter e held u in
    (r, before, behind, q', split, done, awake_after l r.waiter _ _ q' resumed w done)
