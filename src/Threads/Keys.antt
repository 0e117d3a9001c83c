-- ===== src/Threads/Keys.antt =====
-- The keys of coroutines (src/lua-uthread.c): what stands in them after a write.
use alilua_coevent_module.Prelude.{
  ℕ, ◌+◌, ◌≡◌, ◌≢◌, refl, sym, ap, ◌∙◌, inl, inr, Bool-cases, Option-cases, Option, none, some,
  List, [], ◌∷◌, ◌++◌, arith, length, All, if◌then◌else◌, ◌==◌, ◌≤◌,
}
use alilua_coevent_module.Threads.{
  Key, find_key, put_key, get_thread_rbtree_key, remove_key, waiting_max,
}

-- How often a coroutine stands in a list, and in the arrays of all keys.
unfoldable pub times : ℕ → List ℕ → ℕ
times x [] = 0
times x (y ∷ ys) = (if y == x then 1 else 0) + times x ys

unfoldable pub awaiting : ℕ → List Key → ℕ
awaiting x [] = 0
awaiting x (k ∷ ks) = times x k.waiting + awaiting x ks

abbrev pub w_of : Option Key → ℕ
w_of none = 0
w_of (some k) = k.w

-- The counter of a coroutine; 0 if it has no key.
abbrev pub counter : ℕ → List Key → ℕ
counter x ks = w_of (find_key x ks)

-- The array of a key has six places.
abbrev pub Fits : Key → Type 0
Fits k = length k.waiting ≤ waiting_max

pub times-append : (x : ℕ) (xs ys : List ℕ) → times x (xs ++ ys) ≡ times x xs + times x ys
unfolding times
times-append x [] ys = omega arith
times-append x (y ∷ xs) ys = omega (arith, times-append x xs ys)

pub times_self : (x : ℕ) → times x (x ∷ []) ≡ 1
unfolding times
times_self x = ground arith

pub times_other : (x y : ℕ) → x ≢ y → times x (y ∷ []) ≡ 0
unfolding times
times_other x y ne = ground (arith, ne)

pub times-cons_self : (x y : ℕ) (ys : List ℕ) → y ≡ x → times x (y ∷ ys) ≡ 1 + times x ys
unfolding times
times-cons_self x y ys e = ground (arith, e)

pub times-cons_other : (x y : ℕ) (ys : List ℕ) → y ≢ x → times x (y ∷ ys) ≡ times x ys
unfolding times
times-cons_other x y ys ne = ground (arith, ne)

pub find_key-remove_other :
    (x co : ℕ) (ks : List Key) → x ≢ co → find_key x (remove_key co ks) ≡ find_key x ks
unfolding find_key remove_key
find_key-remove_other x co [] ne = refl
find_key-remove_other x co (m ∷ ks) ne = ground (arith, find_key-remove_other x co ks ne, ne)

pub find_key-co : (co : ℕ) (ks : List Key) (k : Key) → find_key co ks ≡ some k → k.co ≡ co
unfolding find_key
find_key-co co [] k e = absurd cc
find_key-co co (m ∷ ks) k e = ground (arith, find_key-co co ks k)

-- A write to the key of `co` is found there, and nowhere else.
pub find_key-put_same :
    (co : ℕ) (ks : List Key) (k key : Key)
    → find_key co ks ≡ some k
    → key.co ≡ co
    → find_key co (put_key key ks) ≡ some key
unfolding find_key put_key
find_key-put_same co [] k key e same = absurd cc
find_key-put_same co (m ∷ ks) k key e same = ground (arith, find_key-put_same co ks k key, same)

pub find_key-put_other :
    (x : ℕ) (ks : List Key) (key : Key) → key.co ≢ x → find_key x (put_key key ks) ≡ find_key x ks
unfolding find_key put_key
find_key-put_other x [] key ne = refl
find_key-put_other x (m ∷ ks) key ne = ground (arith, find_key-put_other x ks key ne)

pub awaiting-put :
    (x co : ℕ) (ks : List Key) (k key : Key)
    → find_key co ks ≡ some k
    → key.co ≡ co
    → awaiting x (put_key key ks) + times x k.waiting ≡ awaiting x ks + times x key.waiting
unfolding find_key put_key awaiting
awaiting-put x co [] k key e same = absurd cc
awaiting-put x co (m ∷ ks) k key e same = ground (arith, awaiting-put x co ks k key, same)

pub Fits-put : (ks : List Key) (key : Key) → Fits key → All Fits ks → All Fits (put_key key ks)
unfolding put_key
Fits-put [] key f h = tt
Fits-put (m ∷ ks) key f h = elim (Bool-cases (m.co == key.co)) [
  | inl here ↦ rw here (f, h.1)
  | inr away ↦ rw away (h.0, Fits-put ks key f h.1)
]

pub Fits-find : (co : ℕ) (ks : List Key) (k : Key) → find_key co ks ≡ some k → All Fits ks → Fits k
unfolding find_key
Fits-find co [] k e h = absurd cc
Fits-find co (m ∷ ks) k e h = elim (Bool-cases (m.co == co)) [
  | inl here ↦ let same : m ≡ k = ground (arith, e, here) in rw (← same) h.0
  | inr away ↦ Fits-find co ks k (ground (arith, e, away)) h.1
]

-- A key got is there, belongs to the coroutine, and changes nothing that is counted.
pub record Got (co : ℕ) (ks : List Key) (r : Key × List Key) : Type 0 where
  pub there : find_key co r.1 ≡ some r.0
  pub same_co : r.0.co ≡ co
  pub same_counter : (x : ℕ) → counter x r.1 ≡ counter x ks
  pub same_awaiting : (x : ℕ) → awaiting x r.1 ≡ awaiting x ks
  pub fitting : All Fits ks → All Fits r.1

pub get_thread_rbtree_key-Got : (co : ℕ) (ks : List Key) → Got co ks (get_thread_rbtree_key co ks)
unfolding get_thread_rbtree_key find_key awaiting times
get_thread_rbtree_key-Got co ks = elim (Option-cases (find_key co ks)) [
  | inl missing ↦
      rw (missing, get_thread_rbtree_key)
        (record {
          there = ground arith;
          same_co = refl;
          same_counter = λ x. elim (Bool-cases (co == x)) [
            | inl here ↦
                let here' : co ≡ x = ground (arith, here) in
                let miss : find_key x ks ≡ none =
                  ap (λ (y : ℕ). find_key y ks) (sym here') ∙ missing in
                rw (here, miss) refl
            | inr away ↦ rw away refl
          ];
          same_awaiting = λ x. omega arith;
          fitting = λ h. (omega arith, h);
        })
  | inr (k, found) ↦
      rw (found, get_thread_rbtree_key)
        (record {
          there = found;
          same_co = find_key-co co ks k found;
          same_counter = λ x. refl;
          same_awaiting = λ x. refl;
          fitting = λ h. h;
        })
]
