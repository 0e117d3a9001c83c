-- ===== src/Codecs/Examples.antt =====
-- A digest at a concrete input.
use alilua_coevent_module.Prelude.{true, false, ◌≡◌, refl, [], ◌∷◌, replicate}
use alilua_coevent_module.Codecs.{
  string, flag, source_of, hmac_values, lua_f_hmac_sha1, Library, to_hex, hex_digit,
}

-- A library that copies its input, but for a digest of 20 bytes.
abbrev lib : Library
lib = record {
  md5 = λ s. s;
  sha1 = λ s. s;
  sha1_hmac = λ key s. replicate 20 171;
  base64_encode = λ s. s;
  base64_decode = λ s. s;
  base64_encode_url = λ s. s;
  base64_decode_url = λ s. s;
  urlencode = λ raw s. s;
  urldecode = λ raw s. s;
}

digits : to_hex (171 ∷ 9 ∷ []) ≡ b'a' ∷ b'b' ∷ b'0' ∷ b'9' ∷ []
unfolding to_hex hex_digit
digits = refl

-- The third argument changes nothing.
raw_ignored :
    lua_f_hmac_sha1 lib (string []) (string []) (flag true)
    ≡ lua_f_hmac_sha1 lib (string []) (string []) (flag false)
unfolding lua_f_hmac_sha1 source_of hmac_values
raw_ignored = refl
