-- ===== src/Monip/Split.antt =====
-- The pieces that `lb_strsplit` cuts (lua-libs/lua-monip/lua-monip.c).
use mathlib.Core.Path.{subst}
use alilua_coevent_module.Prelude.{
  ℕ, zero, suc, ◌+◌, ◌-◌, ◌≤◌, ◌≡◌, ◌≢◌, refl, sym, ap, ◌∙◌, List, [], ◌∷◌, ◌++◌, Option, none,
  some, Bytes, length, take, drop, take_all, length-drop, drop-nil, All, arith, by_cases, ◌==◌, ◌⊎◌,
  inl, inr,
}
use alilua_coevent_module.Monip.{find_tab, split_at, lb_strsplit, split_loop}

-- The pieces with a tab between each two.
abbrev pub join : List Bytes → Bytes
join [] = []
join (f ∷ []) = f
join (f ∷ (g ∷ fs)) = f ++ (b'\t' ∷ join (g ∷ fs))

abbrev pub HasNoTab : Bytes → Type 0
HasNoTab s = All (λ (b : ℕ). b ≢ b'\t') s

-- A text and its pieces, of which there is one at least.
pub record IsSplit (text : Bytes) (fs : List Bytes) : Type 0 where
  pub joined : join fs ≡ text
  pub tabless : All HasNoTab fs
  pub some_piece : 1 ≤ length fs

-- A place in a text: of its first tab, or its end.
abbrev IsTab : Bytes → ℕ → Type 0
IsTab s i =
    HasNoTab (take i s)
    × (i ≤ length s)
    × ((i ≡ length s) ⊎ (s ≡ take i s ++ (b'\t' ∷ drop (suc i) s)))

find_tab-IsTab : (s : Bytes) → IsTab s (find_tab s)
unfolding find_tab
find_tab-IsTab [] = (tt, omega arith, inl refl)
find_tab-IsTab (b ∷ s) =
    let (clean, fits, rest) = find_tab-IsTab s in
    by_cases (IsTab (b ∷ s)) (b == b'\t') 0 (suc (find_tab s))
      (λ tab. (tt, omega arith, inr (ap (λ (x : ℕ). x ∷ s) (ground (arith, tab)))))
      (λ other. (
        (ground (arith, other), clean),
        omega (arith, fits),
        elim rest [
          | inl e ↦ inl (ap (λ (n : ℕ). suc n) e)
          | inr e ↦ inr (ap (λ (x : Bytes). b ∷ x) e)
        ],
      ))

drop_more : (m n : ℕ) (s : Bytes) → drop (m + n) s ≡ drop n (drop m s)
drop_more zero n s = ap (λ (k : ℕ). drop k s) (omega arith)
drop_more (suc m) n [] = drop-nil (suc m + n) ∙ sym (drop-nil n)
drop_more (suc m) n (b ∷ s) = ap (λ (k : ℕ). drop k (b ∷ s)) suc_left ∙ drop_more m n s
  where
    suc_left : suc m + n ≡ suc (m + n)
    suc_left = omega arith

join-cons : (f : Bytes) (fs : List Bytes) → 1 ≤ length fs → join (f ∷ fs) ≡ f ++ (b'\t' ∷ join fs)
join-cons f [] h = absurd (omega arith)
join-cons f (g ∷ fs) h = refl

nothing_left : (fuel : ℕ) (text : Bytes) → split_loop fuel text (some 0) ≡ []
unfolding split_loop lb_strsplit
nothing_left zero text = refl
nothing_left (suc fuel) text = refl

last_step :
    (fuel str : ℕ) (text : Bytes)
    → str ≤ length text
    → ((k : ℕ)
        → suc k ≤ length text
        → str ≤ k
        → IsSplit (drop (suc k) text) (split_loop fuel text (some (suc k))))
    → IsSplit
        (drop str text)
        ((split_at text str).0 ∷ split_loop fuel text (some (split_at text str).1))
last_step fuel str text h ih =
    let rest = drop str text in
    let i = find_tab rest in
    let (clean, fits, place) = find_tab-IsTab rest in
    let size : length rest ≡ length text - str = length-drop str text in
    let P : ℕ → Type 0 = λ n. IsSplit rest (take i rest ∷ split_loop fuel text (some n)) in
    by_cases P (str + i == length text) 0 (str + i + 1)
      (λ end_of. rw (nothing_left fuel text) (record {
        joined = take_all i rest (ground (arith, end_of, size));
        tabless = (clean, tt);
        some_piece = omega arith;
      }))
      (λ inside.
        let within : suc (str + i) ≤ length text = ground (arith, inside, size, fits, h) in
        let more = ih (str + i) within (omega arith) in
        let moved : suc (str + i) ≡ str + suc i = omega arith in
        let behind : drop (suc (str + i)) text ≡ drop (suc i) rest =
          ap (λ (k : ℕ). drop k text) moved ∙ drop_more str (suc i) text in
        let next : suc (str + i) ≡ str + i + 1 = omega arith in
        subst P next (record {
          joined =
              join-cons (take i rest) (split_loop fuel text (some (suc (str + i)))) more.some_piece
              ∙ ap (λ (x : Bytes). take i rest ++ (b'\t' ∷ x)) (more.joined ∙ behind)
              ∙ elim place [ inl e ↦ absurd (ground (arith, e, inside, size, h)) | inr e ↦ sym e ];
          tabless = (clean, more.tabless);
          some_piece = omega arith;
        }))

first_piece : (text : Bytes) → 1 ≤ length text → lb_strsplit text none ≡ some (split_at text 0)
unfolding lb_strsplit
first_piece text h = ground (arith, h)

next_piece :
    (text : Bytes) (k : ℕ)
    → 1 ≤ length text
    → lb_strsplit text (some (suc k)) ≡ some (split_at text (suc k))
unfolding lb_strsplit
next_piece text k h = ground (arith, h)

split_loop-step :
    (fuel : ℕ) (text : Bytes) (last : Option ℕ) (r : Bytes × ℕ)
    → lb_strsplit text last ≡ some r
    → r.0 ∷ split_loop fuel text (some r.1) ≡ split_loop (suc fuel) text last
unfolding split_loop
split_loop-step fuel text last r e = rw (e, split_loop) refl

split_loop-IsSplit :
    (fuel k : ℕ) (text : Bytes)
    → 1 ≤ length text
    → suc k ≤ length text
    → length text - k ≤ fuel
    → IsSplit (drop (suc k) text) (split_loop fuel text (some (suc k)))
split_loop-IsSplit zero k text h inside enough = absurd (omega arith)
split_loop-IsSplit (suc fuel) k text h inside enough =
    let ih = λ (j : ℕ) (fits : suc j ≤ length text) (further : suc k ≤ j).
      split_loop-IsSplit fuel j text h fits (omega arith) in
    subst (IsSplit (drop (suc k) text))
      (split_loop-step fuel text (some (suc k)) (split_at text (suc k)) (next_piece text k h))
      (last_step fuel (suc k) text inside ih)

-- The loop of `find` ends with all pieces of a text that is not empty: joined by tabs they are the
-- text, and none holds a tab. Empty pieces are kept, at the end too.
pub split_loop-pieces :
    (text : Bytes) → 1 ≤ length text → IsSplit text (split_loop (length text + 1) text none)
split_loop-pieces text h =
    let fuel = length text in
    let ih = λ (j : ℕ) (fits : suc j ≤ length text) (further : 0 ≤ j).
      split_loop-IsSplit fuel j text h fits (omega arith) in
    let rounds : suc fuel ≡ fuel + 1 = omega arith in
    subst (λ (n : ℕ). IsSplit text (split_loop n text none)) rounds
      (subst (IsSplit text) (split_loop-step fuel text none (split_at text 0) (first_piece text h))
        (last_step fuel 0 text (omega arith) ih))
