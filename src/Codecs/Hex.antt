-- ===== src/Codecs/Hex.antt =====
-- The text of a digest (src/lua-sha1.c) can be read back.
use alilua_coevent_module.Prelude.{
  ℕ, ◌+◌, ◌-◌, ◌*◌, ◌/◌, ◌%◌, ◌<◌, ◌≡◌, refl, ap, List, [], ◌∷◌, Bytes, length, take, take_all, All,
  arith, by_test, if◌then◌else◌, ltb,
}
use alilua_coevent_module.Codecs.{
  Library, Arg, string, pushes, source_of, hex_digit, to_hex, is_raw, hmac_values, top_one,
  lua_f_hmac_sha1,
}

-- A hexadecimal digit, and the bytes of pairs of digits.
unfoldable pub digit_value : ℕ → ℕ
digit_value c = if ltb c b'a' then c - b'0' else c - b'a' + 10

unfoldable pub from_hex : Bytes → Bytes
from_hex [] = []
from_hex (c ∷ []) = []
from_hex (c ∷ (d ∷ s)) = (digit_value c * 16 + digit_value d) ∷ from_hex s

abbrev pub AreBytes : Bytes → Type 0
AreBytes s = All (λ (b : ℕ). b < 256) s

digit_value-hex_digit : (d : ℕ) → d < 16 → digit_value (hex_digit d) ≡ d
unfolding digit_value hex_digit
digit_value-hex_digit d h = ground arith

from_hex-to_hex : (s : Bytes) → AreBytes s → from_hex (to_hex s) ≡ s
unfolding from_hex to_hex
from_hex-to_hex [] h = refl
from_hex-to_hex (b ∷ s) h =
    rw
      (
        digit_value-hex_digit (b / 16) (omega (arith, h.0)),
        digit_value-hex_digit (b % 16) (omega arith),
      )
      (rw (from_hex-to_hex s h.1) (ap (λ (x : ℕ). x ∷ s) (omega arith)))

length-to_hex : (s : Bytes) → length (to_hex s) ≡ 2 * length s
unfolding to_hex
length-to_hex [] = refl
length-to_hex (b ∷ s) = omega (arith, length-to_hex s)

-- hmac_sha1 of two strings returns 40 digits, whose pairs are the bytes of the digest in order; a
-- digest has 20 bytes. It returns them also when it is asked for the bytes themselves.
pub lua_f_hmac_sha1-from_hex :
    (lib : Library) (src key : Bytes) (r : Arg)
    → length (lib.sha1_hmac key src) ≡ 20
    → AreBytes (lib.sha1_hmac key src)
    → (s : Bytes) × (lua_f_hmac_sha1 lib (string src) (string key) r ≡ pushes s)
      × (length s ≡ 40)
      × (from_hex s ≡ lib.sha1_hmac key src)
unfolding lua_f_hmac_sha1 source_of hmac_values
lua_f_hmac_sha1-from_hex lib src key r size bytes =
    let digest = lib.sha1_hmac key src in
    let all : take 20 digest ≡ digest = take_all 20 digest (omega (arith, size)) in
    (
      to_hex digest,
      rw all (
          by_test (λ (vs : List Bytes). top_one vs ≡ pushes (to_hex digest)) (is_raw r) _ _ refl
            refl),
      omega (arith, length-to_hex digest, size),
      from_hex-to_hex digest bytes,
    )
