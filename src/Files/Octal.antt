-- ===== src/Files/Octal.antt =====
-- `sprintf` with "%o" and "%d", `atoi`, and `oct2decimal` (src/lua-eio.c), on numbers that are not
-- negative but for one sign.
pub mod Inverse
use alilua_coevent_module.Prelude.{
  ℕ, ℤ, pos, negsuc, zero, suc, ◌+◌, ◌-◌, ◌*◌, ◌/◌, ◌%◌, ◌||◌, [], ◌∷◌, Option, none, some, Bytes,
  if◌then◌else◌, ◌==◌, ltb,
}

-- The digits of a number in front of `out`, the lowest at the end; each round takes one off.
unfoldable pub octal_digits : ℕ → ℕ → Bytes → Bytes
octal_digits zero n out = out
octal_digits (suc fuel) n out =
    let rest = octal_digits fuel (n / 8) ((b'0' + n % 8) ∷ out) in if n == 0 then out else rest

unfoldable pub decimal_digits : ℕ → ℕ → Bytes → Bytes
decimal_digits zero n out = out
decimal_digits (suc fuel) n out =
    let rest = decimal_digits fuel (n / 10) ((b'0' + n % 10) ∷ out) in if n == 0 then out else rest

-- A number has no more digits than its value.
unfoldable pub sprintf_octal : ℕ → Bytes
sprintf_octal n = if n == 0 then b'0' ∷ [] else octal_digits n n []

unfoldable pub sprintf_decimal : ℤ → Bytes
sprintf_decimal (pos n) = if n == 0 then b'0' ∷ [] else decimal_digits n n []
sprintf_decimal (negsuc n) = b'-' ∷ decimal_digits (suc n) (suc n) []

-- `atoi` of digits
unfoldable pub atoi_from : Bytes → ℕ → ℕ
atoi_from [] n = n
atoi_from (b ∷ s) n = atoi_from s (n * 10 + (b - b'0'))

unfoldable pub atoi : Bytes → ℕ
atoi s = atoi_from s 0

-- The loop of `oct2decimal`: -1, here `none`, at the first byte that is no octal digit.
unfoldable pub oct_loop : Bytes → ℕ → Option ℕ
oct_loop [] decval = some decval
oct_loop (b ∷ s) decval =
    let rest = oct_loop s (decval * 8 + (b - b'0')) in
    if ltb b b'0' || ltb b'7' b then none else rest

unfoldable pub oct2decimal : ℤ → Option ℕ
oct2decimal z = oct_loop (sprintf_decimal z) 0
