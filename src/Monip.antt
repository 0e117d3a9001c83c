-- ===== src/Monip.antt =====
-- The search for the place of an IP address (lua-libs/lua-monip/lua-monip.c), on a machine with
-- little-endian numbers.
pub mod Split
pub mod Scan
pub mod Range
pub mod Find
mod Examples
use Prim.Native.String.{String}
use alilua_coevent_module.Prelude.{
  ℕ, zero, suc, ◌+◌, ◌-◌, ◌*◌, ◌^◌, ◌%◌, ◌<◌, ◌≤◌, Bool, true, false, ◌||◌, List, [], ◌∷◌, ◌++◌,
  Option, none, some, Bytes, length, take, drop, get_elem?, if◌then◌else◌, ◌==◌, ltb, leb,
}

-- `lb_strsplit`, which cuts at tabs: `last` is `none` for NULL and counts from `string_org`, so that
-- 0 says that all is done. The piece and the new `last`, or NULL.
unfoldable pub find_tab : Bytes → ℕ
find_tab [] = 0
find_tab (b ∷ s) = let rest = suc (find_tab s) in if b == b'\t' then 0 else rest

abbrev pub split_at : Bytes → ℕ → Bytes × ℕ
split_at text str =
    let i = find_tab (drop str text) in
    (take i (drop str text), if str + i == length text then 0 else str + i + 1)

unfoldable pub lb_strsplit : Bytes → Option ℕ → Option (Bytes × ℕ)
lb_strsplit text none = if ltb (length text) 1 then none else some (split_at text 0)
lb_strsplit text (some zero) = none
lb_strsplit text (some (suc k)) = if ltb (length text) 1 then none else some (split_at text (suc k))

-- The loop of `find` over the pieces, at most `fuel` of them.
unfoldable pub split_loop : ℕ → Bytes → Option ℕ → List Bytes
split_loop zero text last = []
split_loop (suc fuel) text last = elim (lb_strsplit text last) [
  | none ↦ []
  | some r ↦ r.0 ∷ split_loop fuel text (some r.1)
]

-- The file's data, NULL at first, with `monipdata_offset` and `monipdata_len`; and for the reload the
-- counter of calls and the file's time.
pub record Database : Type 0 where
  pub monipdata : Option Bytes
  pub monipdata_offset : ℕ
  pub monipdata_len : ℕ
  pub check_per : ℕ
  pub monipdata_file_mtime : ℕ

-- `b` bytes from a place, as a number, the lowest first, or the highest first; `none` if they are not
-- all there.
abbrev pub little : Bytes → ℕ
little [] = 0
little (b ∷ s) = b + 256 * little s

abbrev pub big_from : Bytes → ℕ → ℕ
big_from [] n = n
big_from (b ∷ s) n = big_from s (n * 256 + b)

abbrev pub read_at : ℕ → ℕ → Bytes → Option Bytes
read_at n i d = let s = take n (drop i d) in if length s == n then some s else none

-- A file as the system gives it: nothing if it cannot be opened; whether there is memory, and whether
-- all of it is read.
pub record Opened : Type 0 where
  pub content : Option Bytes
  pub allocated : Bool
  pub is_read : Bool

-- `monipdata_init`; `none` if the first four bytes are not there to be read.
unfoldable pub monipdata_init : Opened → Database → Option (Bool × Database)
monipdata_init f s = elim f.content [
  | none ↦ some (false, s)
  | some d ↦
      if f.allocated
      then (if f.is_read
          then elim (read_at 4 0 d) [
            | none ↦ none
            | some header ↦ some (
              true,
              record s {
                monipdata = some d;
                monipdata_offset = big_from header 0;
                monipdata_len = length d;
              },
            )
          ]
          else some (false, s))
      else some (false, s)
]

-- The check of every millionth call: `mtime` is what `stat` gives for the file.
unfoldable pub auto_reload : Option ℕ → Opened → Database → Option Database
auto_reload mtime f s =
    let s' = record s { check_per = 0 } in
    if ltb 1000000 s.check_per
    then elim mtime [
      | none ↦ some s'
      | some t ↦
          if t == s.monipdata_file_mtime
          then some s'
          else elim (monipdata_init f (record s' { monipdata_file_mtime = t })) [
            | none ↦ none
            | some r ↦ some r.1
          ]
    ]
    else some (record s { check_per = s.check_per + 1 })

-- `b4` and `atoi(b4)`: the digits up to the first other byte of the first three, two, or one.
unfoldable pub atoi : Bytes → ℕ → ℕ
atoi [] n = n
atoi (b ∷ s) n =
    let rest = atoi s (n * 10 + (b - b'0')) in if ltb b b'0' || ltb b'9' b then n else rest

abbrev pub is_dot : Option ℕ → Bool
is_dot none = false
is_dot (some b) = b == b'.'

unfoldable pub first_number : Bytes → ℕ
first_number ip =
    if is_dot (get_elem? ip 3)
    then atoi (take 3 ip) 0
    else if is_dot (get_elem? ip 2)
    then atoi (take 2 ip) 0
    else atoi (take 1 ip) 0

-- `memcmp(a, b, 4) >= 0`
unfoldable pub memcmp_ge : Bytes → Bytes → Bool
memcmp_ge [] b = true
memcmp_ge (x ∷ a) [] = true
memcmp_ge (x ∷ a) (y ∷ b) = let rest = memcmp_ge a b in if x == y then rest else ltb y x

-- What the loop over the index finds: `index_offset` and `pos_len` of an entry, nothing, or a read
-- behind the data.
pub data Hit : Type 0 where
  hit : ℕ → ℕ → Hit
  miss : Hit
  overread : Hit

-- `index_offset` and `pos_len` behind the four bytes that were compared.
abbrev pub place_of : Option Bytes → Hit
place_of none = overread
place_of (some e) = hit (little (take 3 e)) (little (drop 3 e))

abbrev pub test_entry : Option Bytes → Option Bytes → Bytes → Hit → Hit
test_entry none place nip later = overread
test_entry (some key) place nip later = if memcmp_ge key nip then place_of place else later

-- The loop over the entries, at most `fuel` of them.
unfoldable pub index_loop : ℕ → ℕ → ℕ → Bytes → Bytes → Hit
index_loop zero max_comp_len start nip d = overread
index_loop (suc fuel) max_comp_len start nip d =
    let later = index_loop fuel max_comp_len ((start + 8) % 2 ^ 32) nip d in
    let here = test_entry (read_at 4 (4 + start) d) (read_at 4 (8 + start) d) nip later in
    if ltb start max_comp_len then here else miss

-- Where the text of an address stands in the data, and its length; or the text for an unknown one.
pub data Position : Type 0 where
  position : ℕ → ℕ → Position
  unknown : Position
  fault : Position

-- The test behind the loop, in the arithmetic of a uint32_t.
abbrev pub position_of : Database → Hit → Position
position_of s miss = unknown
position_of s overread = fault
position_of s (hit index_offset pos_len) =
    let at = s.monipdata_offset + index_offset + 2 ^ 32 - 1024 in
    if ltb index_offset 1 || ltb s.monipdata_len ((at + pos_len) % 2 ^ 32)
    then unknown
    else position (at % 2 ^ 32) pos_len

-- The search from the entry that the table gives for the first number of the address.
abbrev pub search_from : Database → Bytes → Bytes → Option Bytes → Position
search_from s nip d none = fault
search_from s nip d (some e) =
    let start = (little e * 8 + 1024) % 2 ^ 32 in
    let max_comp_len = (s.monipdata_offset + 2 ^ 32 - 1024) % 2 ^ 32 in
    position_of s (index_loop (length d + 1) max_comp_len start nip d)

-- `getposbyip` behind the reload; `inet_addr` gives the four bytes of an address, or INADDR_NONE.
unfoldable pub getposbyip : (Bytes → Option Bytes) → Bytes → Bytes → Database → Position
getposbyip inet_addr ip_str d s = if length ip_str == 0 then unknown else elim (inet_addr ip_str) [
  | none ↦ unknown
  | some nip ↦ search_from s nip d (read_at 4 (4 + first_number ip_str * 4) d)
]

-- "unknown" in Chinese, in UTF-8, three times, nothing, and once more, with tabs between them.
abbrev unknown_word : Bytes
unknown_word = 230 ∷ 156 ∷ 170 ∷ 231 ∷ 159 ∷ 165 ∷ []

abbrev pub unknown_text : Bytes
unknown_text =
    unknown_word
    ++ ((b'\t' ∷ [])
        ++ (unknown_word
            ++ ((b'\t' ∷ []) ++ (unknown_word ++ ((b'\t' ∷ b'\t' ∷ []) ++ unknown_word)))))

-- What `find` returns, or a read behind the data.
pub data Found : Type 0 where
  error : String → Found
  fields : List Bytes → Found
  crash : Found

abbrev pub fields_of : Bytes → Position → Found
fields_of d unknown = fields (split_loop (length unknown_text + 1) unknown_text none)
fields_of d fault = crash
fields_of d (position at n) =
    let text = take n (drop at d) in fields (split_loop (length text + 1) text none)

-- `find`, with the argument if it is a string, and the reload's file.
unfoldable pub find : (Bytes → Option Bytes) → Option ℕ → Opened → Option Bytes → Database → Found
find inet_addr mtime f none s = error "need IP"
find inet_addr mtime f (some ip) s = elim s.monipdata [
  | none ↦ error "monip not inited"
  | some before ↦ elim (auto_reload mtime f s) [
    | none ↦ crash
    | some s' ↦ elim s'.monipdata [
      | none ↦ crash
      | some d ↦ fields_of d (getposbyip inet_addr ip d s')
    ]
  ]
]
