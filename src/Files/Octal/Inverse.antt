-- ===== src/Files/Octal/Inverse.antt =====
-- `oct2decimal` (src/lua-eio.c) against the octal numerals that "%o" prints.
use alilua_coevent_module.Prelude.{
  ℕ, ℤ, pos, negsuc, zero, suc, ◌+◌, ◌*◌, ◌/◌, ◌%◌, ◌≤◌, ◌<◌, ◌≡◌, ◌≢◌, ◌↔◌, ◌∙◌, refl, sym, ap,
  inl, inr, Option, none, some, [], ◌∷◌, Bytes, arith, Option-cases, if◌then◌else◌, ◌==◌, ltb,
  ℕ_discrete,
}
use alilua_coevent_module.Files.Octal.{
  octal_digits, decimal_digits, sprintf_octal, sprintf_decimal, atoi_from, atoi, oct_loop,
  oct2decimal,
}

-- The octal numeral of a number, read as a decimal one.
abbrev numeral : ℕ → ℕ → ℕ
numeral zero n = 0
numeral (suc fuel) n = let rest = numeral fuel (n / 8) * 10 + n % 8 in if n == 0 then 0 else rest

le-numeral : (f n : ℕ) → n ≤ f → n ≤ numeral f n
le-numeral zero n h = omega arith
le-numeral (suc f) n h = ground (arith, le-numeral f (n / 8) (omega arith))

numeral_step :
    (f n : ℕ)
    → n ≤ suc f
    → n ≢ 0
    → (numeral (suc f) n ≡ numeral f (n / 8) * 10 + n % 8) × (1 ≤ numeral (suc f) n)
numeral_step f n h nonzero = ground (arith, le-numeral f (n / 8) (omega arith))

atoi_from-octal_digits :
    (f n : ℕ) (out : Bytes) → atoi_from (octal_digits f n out) 0 ≡ atoi_from out (numeral f n)
unfolding octal_digits atoi_from
atoi_from-octal_digits zero n out = refl
atoi_from-octal_digits (suc f) n out =
    ground (arith, atoi_from-octal_digits f (n / 8) ((b'0' + n % 8) ∷ out))

atoi-sprintf_octal : (m : ℕ) → atoi (sprintf_octal m) ≡ numeral m m
unfolding atoi atoi_from sprintf_octal
atoi-sprintf_octal zero = refl
atoi-sprintf_octal (suc m) = ground (arith, atoi_from-octal_digits (suc m) (suc m) [])

decimal_digits_step :
    (g q d : ℕ) (out : Bytes)
    → d < 10
    → q * 10 + d ≢ 0
    → decimal_digits (suc g) (q * 10 + d) out ≡ decimal_digits g q ((b'0' + d) ∷ out)
unfolding decimal_digits
decimal_digits_step g q d out hd h =
    let e : (q * 10 + d) / 10 ≡ q = omega arith in
    let e' : (q * 10 + d) % 10 ≡ d = omega arith in ground (arith, e, e')

octal_digits_step :
    (f n : ℕ) (out : Bytes)
    → n ≢ 0
    → octal_digits (suc f) n out ≡ octal_digits f (n / 8) ((b'0' + n % 8) ∷ out)
unfolding octal_digits
octal_digits_step f n out h = ground arith

digits_zero :
    (f g : ℕ) (out : Bytes) → (octal_digits f 0 out ≡ out) × (decimal_digits g 0 out ≡ out)
unfolding octal_digits decimal_digits
digits_zero zero zero out = (refl, refl)
digits_zero zero (suc g) out = (refl, refl)
digits_zero (suc f) zero out = (refl, refl)
digits_zero (suc f) (suc g) out = (refl, refl)

-- The decimal digits of that reading are the octal digits.
IsSpelled : ℕ → ℕ → Type 0
IsSpelled f n =
    (g : ℕ) (out : Bytes)
    → numeral f n ≤ g
    → decimal_digits g (numeral f n) out ≡ octal_digits f n out

IsSpelled-suc : (f n : ℕ) → n ≤ suc f → n ≢ 0 → IsSpelled f (n / 8) → IsSpelled (suc f) n
unfolding IsSpelled
IsSpelled-suc f n hf nonzero ih zero out hg = absurd (omega (arith, le-numeral (suc f) n hf))
IsSpelled-suc f n hf nonzero ih (suc g) out hg =
    let (e, positive) = numeral_step f n hf nonzero in
    ap (λ (m : ℕ). decimal_digits (suc g) m out) e
    ∙ decimal_digits_step g (numeral f (n / 8)) (n % 8) out (omega arith) (omega (arith, e))
    ∙ ih g ((b'0' + n % 8) ∷ out) (omega (arith, e))
    ∙ sym (octal_digits_step f n out nonzero)

IsSpelled_lem : (f n : ℕ) → n ≤ f → IsSpelled f n
unfolding IsSpelled
IsSpelled_lem zero n hf = λ g out hg.
    let e : n ≡ 0 = omega arith in
    rw e ((digits_zero zero g out).1 ∙ sym (digits_zero zero g out).0)
IsSpelled_lem (suc f) n hf = elim (ℕ_discrete n 0) [
  | yes e ↦ λ g out hg. rw e ((digits_zero (suc f) g out).1 ∙ sym (digits_zero (suc f) g out).0)
  | no nonzero ↦ IsSpelled-suc f n hf nonzero (IsSpelled_lem f (n / 8) (omega arith))
]

oct_loop-octal_digits :
    (f n : ℕ) (out : Bytes) → n ≤ f → oct_loop (octal_digits f n out) 0 ≡ oct_loop out n
unfolding oct_loop octal_digits
oct_loop-octal_digits zero n out h = ap (oct_loop out) (omega arith)
oct_loop-octal_digits (suc f) n out h =
    let tested : n % 8 ≤ 7 = omega arith in
    let all : n / 8 * 8 + n % 8 ≡ n = omega arith in
    ground
      (arith, tested, all, oct_loop-octal_digits f (n / 8) ((b'0' + n % 8) ∷ out) (omega arith))

oct_loop_zero : oct_loop (b'0' ∷ []) 0 ≡ some 0
unfolding oct_loop
oct_loop_zero = refl

oct_loop_nil : (n : ℕ) → oct_loop [] n ≡ some n
unfolding oct_loop
oct_loop_nil n = refl

-- "%o", read by `atoi`, and back: no mode is changed.
pub oct2decimal-sprintf_octal : (m : ℕ) → oct2decimal (pos (atoi (sprintf_octal m))) ≡ some m
unfolding oct2decimal sprintf_decimal IsSpelled
oct2decimal-sprintf_octal zero = rw (atoi-sprintf_octal 0) (oct_loop_zero)
oct2decimal-sprintf_octal (suc m) =
    let n = suc m in
    let large = le-numeral n n (omega arith) in
    let same = IsSpelled_lem n n (omega arith) (numeral n n) [] (omega arith) in
    rw (atoi-sprintf_octal n)
      (ground (arith, large, same, oct_loop-octal_digits n n [] (omega arith), oct_loop_nil n))

-- What the decimal digits of a number say as octal ones.
abbrev meaning : ℕ → ℕ → Option ℕ
meaning zero n = some 0
meaning (suc fuel) n =
    let rest = meaning fuel (n / 10) in
    if n == 0
    then some 0
    else if ltb 7 (n % 10)
    then none
    else elim rest [ none ↦ none | some k ↦ some (k * 8 + n % 10) ]

abbrev go_on : Bytes → Option ℕ → Option ℕ
go_on out none = none
go_on out (some k) = oct_loop out k

oct_loop-decimal_digits :
    (f n : ℕ) (out : Bytes) → n ≤ f → oct_loop (decimal_digits f n out) 0 ≡ go_on out (meaning f n)
unfolding oct_loop decimal_digits
oct_loop-decimal_digits zero n out h = refl
oct_loop-decimal_digits (suc f) n out h =
    ground (arith, oct_loop-decimal_digits f (n / 10) ((b'0' + n % 10) ∷ out) (omega arith))

meaning_inv :
    (f n m : ℕ)
    → n ≢ 0
    → meaning (suc f) n ≡ some m
    → (k : ℕ) × (meaning f (n / 10) ≡ some k) × (m ≡ k * 8 + n % 10) × (n % 10 ≤ 7)
meaning_inv f n m nonzero h = elim (Option-cases (meaning f (n / 10))) [
  | inl e ↦ absurd (ground (arith, e))
  | inr (k, e) ↦ (k, e, ground (arith, e), ground (arith, e))
]

numeral-meaning : (f n g m : ℕ) → n ≤ f → meaning f n ≡ some m → m ≤ g → numeral g m ≡ n
numeral-meaning zero n zero m hf h hg = omega arith
numeral-meaning zero n (suc g) m hf h hg = ground arith
numeral-meaning (suc f) n g m hf h hg = elim (ℕ_discrete n 0) [
  | yes e ↦ zero_case g hg (ground (arith, e)) e
  | no nonzero ↦
      let (k, e, sum, digit) = meaning_inv f n m nonzero h in
      later g hg k sum digit nonzero
        (λ (g' : ℕ) (hk : k ≤ g'). numeral-meaning f (n / 10) g' k (omega arith) e hk)
]
  where
    zero_case : (g : ℕ) → m ≤ g → m ≡ 0 → n ≡ 0 → numeral g m ≡ n
    zero_case zero hg e e' = omega arith
    zero_case (suc g) hg e e' = ground arith

    later :
        (g : ℕ)
        → m ≤ g
        → (k : ℕ) → m ≡ k * 8 + n % 10
        → n % 10 ≤ 7
        → n ≢ 0
        → ((g' : ℕ) → k ≤ g' → numeral g' k ≡ n / 10)
        → numeral g m ≡ n
    later zero hg k sum digit nonzero ih = omega (arith, ih 0 (omega arith))
    later (suc g) hg k sum digit nonzero ih =
        ground (arith, ih g (omega arith), ih k (omega arith), ih 0)

go_on_nil : (o : Option ℕ) (m : ℕ) → go_on [] o ≡ some m → o ≡ some m
go_on_nil none m h = cc
go_on_nil (some k) m h = sym (oct_loop_nil k) ∙ h

oct2decimal_pos : (n m : ℕ) → oct2decimal (pos n) ≡ some m → atoi (sprintf_octal m) ≡ n
unfolding oct2decimal sprintf_decimal
oct2decimal_pos zero m h =
    let zeros : ◌≡◌ {A = Option ℕ} (some 0) (some m) = sym oct_loop_zero ∙ h in
    rw (atoi-sprintf_octal m) (numeral-meaning 0 0 m m (omega arith) zeros (omega arith))
oct2decimal_pos (suc n) m h =
    let e = oct_loop-decimal_digits (suc n) (suc n) [] (omega arith) in
    let h' : oct_loop (decimal_digits (suc n) (suc n) []) 0 ≡ some m = ground (arith, h) in
    rw (atoi-sprintf_octal m)
      (numeral-meaning (suc n) (suc n) m m (omega arith) (go_on_nil _ m (sym e ∙ h')) (omega arith))

minus_refused : (s : Bytes) → oct_loop (b'-' ∷ s) 0 ≡ none
unfolding oct_loop
minus_refused s = refl

-- `oct2decimal` accepts exactly the numbers that "%o" prints, and gives the mode that is printed so;
-- it refuses every other number, the negative ones too.
pub oct2decimal-octal :
    (z : ℤ) (m : ℕ) → (oct2decimal z ≡ some m) ↔ (z ≡ pos (atoi (sprintf_octal m)))
unfolding oct2decimal sprintf_decimal
oct2decimal-octal (pos n) m =
    (λ h. ap pos (sym (oct2decimal_pos n m h)), λ e. ap oct2decimal e ∙ oct2decimal-sprintf_octal m)
oct2decimal-octal (negsuc n) m =
    (λ h. absurd (cc (h, minus_refused (decimal_digits (suc n) (suc n) []))), λ e. absurd (cc))
