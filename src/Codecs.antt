-- ===== src/Codecs.antt =====
-- The digests and codecs (src/lua-md5.c, src/lua-sha1.c, src/lua-base64.c, src/lua-escape.c): what
-- the functions for Lua do around the calls of the merry library, which are arguments here.
pub mod Hex
mod Examples
use Prim.Native.String.{String}
use alilua_coevent_module.Prelude.{
  ℕ, ◌+◌, ◌-◌, ◌/◌, ◌%◌, Bool, true, false, List, [], ◌∷◌, Option, none, some, Bytes, length, take,
  if◌then◌else◌, ltb, ◌==◌,
}

-- The functions of the library, from the bytes given to the bytes that they write; the flag of
-- `urlencode` and `urldecode` is for the raw variant.
pub record Library : Type 0 where
  pub md5 : Bytes → Bytes
  pub sha1 : Bytes → Bytes
  pub sha1_hmac : Bytes → Bytes → Bytes
  pub base64_encode : Bytes → Bytes
  pub base64_decode : Bytes → Bytes
  pub base64_encode_url : Bytes → Bytes
  pub base64_decode_url : Bytes → Bytes
  pub urlencode : Bool → Bytes → Bytes
  pub urldecode : Bool → Bytes → Bytes

-- An argument; `string` is a string or the text of a number, and `other` also stands for none at all.
pub data Arg : Type 0 where
  nil : Arg
  flag : Bool → Arg
  string : Bytes → Arg
  other : Arg

-- One string for Lua, or an error of Lua.
pub data Result : Type 0 where
  pushes : Bytes → Result
  raises : Result

-- `src` and `slen`: nothing for nil, and an error for what `luaL_checklstring` refuses.
unfoldable pub source_of : Arg → Option Bytes
source_of nil = some []
source_of (string s) = some s
source_of (flag b) = none
source_of other = none

abbrev pub with_source : Arg → (Bytes → Result) → Result
with_source a f = elim (source_of a) [ none ↦ raises | some s ↦ f s ]

unfoldable pub lua_f_md5 : Library → Arg → Result
lua_f_md5 lib a = with_source a (λ s. pushes (take 32 (lib.md5 s)))

unfoldable pub lua_f_sha1bin : Library → Arg → Result
lua_f_sha1bin lib a = with_source a (λ s. pushes (take 20 (lib.sha1 s)))

-- `sprintf` with "%.2x" for a byte
unfoldable pub hex_digit : ℕ → ℕ
hex_digit d = if ltb d 10 then b'0' + d else b'a' + (d - 10)

unfoldable pub to_hex : Bytes → Bytes
to_hex [] = []
to_hex (b ∷ s) = hex_digit (b / 16) ∷ hex_digit (b % 16) ∷ to_hex s

abbrev pub is_raw : Arg → Bool
is_raw a = elim a [ flag b ↦ b | _ ↦ false ]

-- The values on the stack, the top one first; `raw_output` pushes the digest below.
unfoldable pub hmac_values : Bool → Bytes → List Bytes
hmac_values raw_output output =
    if raw_output then to_hex output ∷ output ∷ [] else to_hex output ∷ []

-- `return 1` returns the top one.
abbrev pub top_one : List Bytes → Result
top_one [] = raises
top_one (s ∷ below) = pushes s

unfoldable pub lua_f_hmac_sha1 : Library → Arg → Arg → Arg → Result
lua_f_hmac_sha1 lib a k r =
    with_source a
      λ src. with_source k λ key. top_one (hmac_values (is_raw r) (take 20 (lib.sha1_hmac key src)))

unfoldable pub lua_f_base64_encode : Library → Arg → Result
lua_f_base64_encode lib a = with_source a (λ s. pushes (lib.base64_encode s))

unfoldable pub lua_f_base64_decode : Library → Arg → Result
lua_f_base64_decode lib a = with_source a (λ s. pushes (lib.base64_decode s))

unfoldable pub lua_f_base64_encode_url : Library → Arg → Result
lua_f_base64_encode_url lib a = with_source a (λ s. pushes (lib.base64_encode_url s))

unfoldable pub lua_f_base64_decode_url : Library → Arg → Result
lua_f_base64_decode_url lib a = with_source a (λ s. pushes (lib.base64_decode_url s))

-- The arguments of `escape_uri` and `unescape_uri`, all that there are: the first as a string.
unfoldable pub checked : List Arg → Option Bytes
checked [] = none
checked (string s ∷ args) = some s
checked (nil ∷ args) = none
checked (flag b ∷ args) = none
checked (other ∷ args) = none

-- `raw_encode`, from the second of two
unfoldable pub raw_encode : List Arg → Bool
raw_encode (a ∷ (flag b ∷ [])) = b
raw_encode args = false

-- For no bytes, the top value of the stack is returned: the last argument, not always the first.
unfoldable pub last_of : List Arg → Option Arg
last_of [] = none
last_of (a ∷ []) = some a
last_of (a ∷ (b ∷ args)) = last_of (b ∷ args)

-- What `escape_uri` returns: a new string, or one of its arguments.
pub data Escaped : Type 0 where
  escaped : Bytes → Escaped
  argument : Option Arg → Escaped
  refused : Escaped

unfoldable pub lua_f_escape_uri : Library → List Arg → Escaped
lua_f_escape_uri lib args = elim (checked args) [
  | none ↦ refused
  | some s ↦
      if length s == 0 then argument (last_of args) else escaped (lib.urlencode (raw_encode args) s)
]

unfoldable pub lua_f_unescape_uri : Library → List Arg → Escaped
lua_f_unescape_uri lib args = elim (checked args) [
  | none ↦ refused
  | some s ↦ escaped (lib.urldecode (raw_encode args) s)
]
