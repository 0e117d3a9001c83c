-- ===== src/Resolver.antt =====
-- DNS messages (src/lua-resolver.c): `lua_co_build_dns_query_packet` and `lua_co_parse_dns_result`.
pub mod Query
pub mod Reply
pub mod Loop
mod Examples
use alilua_coevent_module.Prelude.{
  ℕ, zero, suc, ◌+◌, ◌-◌, ◌*◌, ◌/◌, ◌%◌, Bool, true, false, not, ◌&&◌, ◌||◌, Option, none, some,
  List, [], ◌∷◌, ◌++◌, Bytes, length, take, drop, if◌then◌else◌, ◌==◌, ltb, leb,
}

-- `++dns_tid`, a uint16_t that is 1 again past 65534.
unfoldable pub next_tid : ℕ → ℕ
next_tid tid = let t = (tid + 1) % 65536 in if ltb 65534 t then 1 else t

-- `strchr(name, '.')`: the bytes before the first dot, and what follows it. The search ends at a NUL.
unfoldable pub find_dot : Bytes → Option (Bytes × Bytes)
find_dot [] = none
find_dot (c ∷ cs) =
    let rest = find_dot cs in
    if c == b'.'
    then some ([], cs)
    else if c == 0
    then none
    else elim rest [ none ↦ none | some (label, more) ↦ some (c ∷ label, more) ]

-- A label as it is written: its length, in a byte, and its bytes.
abbrev pub label_bytes : Bytes → Bytes
label_bytes s = length s % 256 ∷ s

-- "Encode DNS name": the loop over the labels. `none` if the count of rounds does not suffice.
unfoldable pub encode_name : ℕ → Bytes → Option Bytes
encode_name zero name = none
encode_name (suc rounds) name = elim (find_dot name) [
  | none ↦ some (label_bytes name)
  | some (label, more) ↦ elim (encode_name rounds more) [
    | none ↦ none
    | some s ↦ some (label_bytes label ++ s)
  ]
]

-- The four bytes of an address, as `inet_addr` gives them.
pub record Address : Type 0 where
  pub a : ℕ
  pub b : ℕ
  pub c : ℕ
  pub d : ℕ

-- The header, all but its last byte, for a query.
abbrev pub query_header : ℕ → Bytes
query_header tid = tid / 256 ∷ tid % 256 ∷ 1 ∷ 0 ∷ 0 ∷ 1 ∷ 0 ∷ 0 ∷ 0 ∷ 0 ∷ 0 ∷ []

-- The end of the name, query type 1 and class 1.
abbrev pub query_end : Bytes
query_end = 0 ∷ 0 ∷ 1 ∷ 0 ∷ 1 ∷ []

-- The additional section with the client's network.
unfoldable pub subnet : Address → Bytes
subnet ip =
    (0 ∷ 0 ∷ 41 ∷ 16 ∷ 0 ∷ 0 ∷ 0 ∷ 128 ∷ 0 ∷ 0 ∷ 12 ∷ [])
    ++ (0 ∷ 8 ∷ 0 ∷ 8 ∷ 0 ∷ 1 ∷ 18 ∷ 0 ∷ ip.a ∷ ip.b ∷ ip.c ∷ 0 ∷ [])

-- `lua_co_build_dns_query_packet`: the new `dns_tid`, and the packet. `client_ip` is the result of
-- `inet_addr` on the second argument, if there is one.
unfoldable pub lua_co_build_dns_query_packet : ℕ → Bytes → Option Address → ℕ × Option Bytes
lua_co_build_dns_query_packet dns_tid name client_ip =
    let tid = next_tid dns_tid in
    let section : Bytes × Bytes = elim client_ip [
      | none ↦ (0 ∷ [], [])
      | some ip ↦ (1 ∷ [], subnet ip)
    ] in
    (
      tid,
      elim (encode_name (length name + 1) name) [
        | none ↦ none
        | some s ↦ some (query_header tid ++ (section.0 ++ (s ++ (query_end ++ section.1))))
      ],
    )

-- A byte of the message; behind its end stands a NUL.
unfoldable pub at : Bytes → ℕ → ℕ
at [] i = 0
at (c ∷ cs) zero = c
at (c ∷ cs) (suc i) = at cs i

-- `_NTOHS`
unfoldable pub ntohs : Bytes → ℕ → ℕ
ntohs s i = at s i * 256 + at s (i + 1)

-- "Skip host name": the message from the first NUL on.
unfoldable pub skip_host : Bytes → Bytes
skip_host [] = []
skip_host (c ∷ cs) = let rest = skip_host cs in if c == 0 then c ∷ cs else rest

-- `while(*p && &p[12] < e) p++`: how many bytes of the rest of the message are passed.
unfoldable pub walk : Bytes → ℕ
walk [] = 0
walk (c ∷ cs) =
    let more = walk cs in if c == 0 || not (ltb 12 (suc (length cs))) then 0 else suc more

-- Where the type of an answer stands, from its first byte on: behind a pointer of two bytes, or
-- behind the NUL that ends a name, to which `p--` and the pointer's width lead.
unfoldable pub type_at : Bytes → ℕ
type_at s = if at s 0 == 192 then 2 else walk s + 1

-- `memcpy(&ips[found], p, dlen)` into the 40 bytes of `ips`.
unfoldable pub write_at : ℕ → Bytes → Bytes → Bytes
write_at i s mem = take i mem ++ (s ++ drop (i + length s) mem)

-- How the loop over the answers ends: the number of answers and the bytes of `ips`; a write past the
-- end of `ips`; a read past the end of the message; or too few rounds.
pub data Parsed : Type 0 where
  parsed : ℕ → Bytes → Parsed
  overflow : Parsed
  overread : Parsed
  stuck : Parsed

-- One round: the end of the loop, or the rest of the message, `found` and `ips` after it.
pub data Round : Type 0 where
  ended : Parsed → Round
  next : Bytes → ℕ → Bytes → Round

-- An answer of type A whose data `rest` begins with `dlen` bytes.
unfoldable pub take_address : ℕ → ℕ → Bytes → ℕ → Bytes → Round
take_address nanswers dlen rest found mem =
    let whole = leb dlen (length rest) in
    let mem' = if whole then write_at (4 * found) (take dlen rest) mem else mem in
    let found' = found + 1 in
    if whole && ltb 40 (4 * found + dlen)
    then ended overflow
    else if found' == nanswers || leb 10 found'
    then ended (parsed found' mem')
    else next (drop dlen rest) found' mem'

-- One round of the loop over the answers. `nanswers` is the header's field as the machine reads it.
unfoldable pub one_answer : ℕ → Bytes → ℕ → Bytes → Round
one_answer nanswers s found mem =
    let k = type_at s in
    let type = ntohs s k in
    let dlen = ntohs s (k + 8) in
    let rest = drop (k + 10) s in
    if not (ltb 12 (length s))
    then ended (parsed found mem)
    else if ltb (length s) (k + 10)
    then ended overread
    else if type == 5
    then next (drop dlen rest) found mem
    else if type == 1
    then take_address nanswers dlen rest found mem
    else ended (parsed found mem)

unfoldable pub parse_answers : ℕ → ℕ → Bytes → ℕ → Bytes → Parsed
parse_answers nanswers zero s found mem = stuck
parse_answers nanswers (suc rounds) s found mem = elim (one_answer nanswers s found mem) [
  | ended r ↦ r
  | next s' found' mem' ↦ parse_answers nanswers rounds s' found' mem'
]

-- The question: `&p[5] > e || _NTOHS(p + 1) != 0x01`, negated.
unfoldable pub is_a_question : Bytes → Bool
is_a_question s = leb 5 (length s) && ntohs s 1 == 1

-- The addresses in the first `n` cells of `ips`.
unfoldable pub read_ips : ℕ → Bytes → List Bytes
read_ips zero mem = []
read_ips (suc n) mem = take 4 mem ∷ read_ips n (drop 4 mem)

-- What `lua_co_parse_dns_result` returns: addresses, none where it returns nothing.
pub data Result : Type 0 where
  addresses : List Bytes → Result
  broken : Parsed → Result

abbrev pub result_of : Parsed → Result
result_of (parsed n mem) = addresses (read_ips n mem)
result_of overflow = broken overflow
result_of overread = broken overread
result_of stuck = broken stuck

-- `lua_co_parse_dns_result`: `stack` is what the 40 bytes of `ips` held before. The header's fields
-- are read on a little-endian machine, where `nanswers` is left in network order.
unfoldable pub lua_co_parse_dns_result : ℕ → Bytes → Bytes → Result
lua_co_parse_dns_result dns_tid stack message =
    let question = skip_host (drop 12 message) in
    let nanswers = at message 6 + 256 * at message 7 in
    let body = drop 5 question in
    if ltb (length message) 6
    then broken overread
    else if ntohs message 4 == 1 && ntohs message 0 == dns_tid && is_a_question question
    then result_of (parse_answers nanswers (length body + 1) body 0 stack)
    else addresses []
