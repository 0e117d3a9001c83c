-- ===== src/Resolver/Reply.antt =====
-- A server's reply (src/lua-resolver.c): the addresses in it are returned, all of them and in order.
use alilua_coevent_module.Prelude.{
  ℕ, zero, suc, ◌+◌, ◌-◌, ◌*◌, ◌/◌, ◌%◌, ◌≤◌, ◌<◌, ◌≡◌, ◌≢◌, refl, sym, ap, ◌∙◌, inl, inr,
  Bool-cases, List, [], ◌∷◌, ◌++◌, Bytes, length, length-append, append_assoc, map, take, drop,
  take-append, drop-append, drop-append_right, length-drop, length-take, take-append-drop, ◌⊎◌, All,
  arith, if◌then◌else◌, leb, leb→le,
}
use alilua_coevent_module.Resolver.{
  Address, query_end, at, ntohs, skip_host, type_at, write_at, Parsed, parsed, ended, next,
  take_address, one_answer, parse_answers, is_a_question, read_ips, addresses, result_of,
  lua_co_parse_dns_result,
}

abbrev pub address_bytes : Address → Bytes
address_bytes ip = ip.a ∷ ip.b ∷ ip.c ∷ ip.d ∷ []

-- An answer of type A and class IN, its name a pointer to the question: RFC 1035, 4.1.3.
abbrev pub answer_bytes : Address → Address → Bytes
answer_bytes ttl ip =
    192 ∷ 12 ∷ 0 ∷ 1 ∷ 0 ∷ 1 ∷ ttl.a ∷ ttl.b ∷ ttl.c ∷ ttl.d ∷ 0 ∷ 4 ∷ address_bytes ip

abbrev pub answers : Address → List Address → Bytes
answers ttl [] = []
answers ttl (ip ∷ ips) = answer_bytes ttl ip ++ answers ttl ips

abbrev pub all_bytes : List Address → Bytes
all_bytes [] = []
all_bytes (ip ∷ ips) = address_bytes ip ++ all_bytes ips

one_answer-A :
    (nanswers : ℕ) (ttl ip : Address) (rest : Bytes) (found : ℕ) (mem : Bytes)
    → one_answer nanswers (answer_bytes ttl ip ++ rest) found mem
      ≡ take_address nanswers 4 (address_bytes ip ++ rest) found mem
unfolding one_answer type_at ntohs at
one_answer-A nanswers ttl ip rest found mem = ground arith

write_at-append :
    (pre s old tail : Bytes)
    → length s ≡ length old
    → write_at (length pre) s (pre ++ (old ++ tail)) ≡ pre ++ (s ++ tail)
unfolding write_at
write_at-append pre s old tail e =
    let back : drop (length pre + length s) (pre ++ (old ++ tail)) ≡ tail =
      drop-append_right pre (old ++ tail) (length s)
      ∙ ap (λ n. drop n (old ++ tail)) e
      ∙ drop-append old tail in
    rw (take-append pre (old ++ tail), back) refl

take_address-next :
    (nanswers found : ℕ) (ip : Address) (rest mem : Bytes)
    → found < 10
    → found + 1 ≢ nanswers
    → let mem' = write_at (4 * found) (address_bytes ip) mem in
      take_address nanswers 4 (address_bytes ip ++ rest) found mem
      ≡ (if leb 10 (found + 1) then ended (parsed (found + 1) mem') else next rest (found + 1) mem')
unfolding take_address
take_address-next nanswers found ip rest mem lt ne = ground arith

-- What is left of a list of a known length, at least four bytes of it.
four_and_rest :
    (s : Bytes) (n : ℕ)
    → length s ≡ n
    → 4 ≤ n
    → (old : Bytes) × ((tail : Bytes) × ((s ≡ old ++ tail)
          × ((length old ≡ 4) × (length tail + 4 ≡ n))))
four_and_rest s n e h = (
  take 4 s,
  (
    drop 4 s,
    (sym (take-append-drop 4 s), (omega (arith, length-take 4 s), omega (arith, length-drop 4 s))),
  ),
)

-- The cells of `ips` that the loop writes: after those of the answers before, those of `ips`.
pub record Written (pre : Bytes) (found : ℕ) (ips : List Address) (r : Parsed) : Type 0 where
  pub tail : Bytes
  pub is_parsed : r ≡ parsed (found + length ips) (pre ++ (all_bytes ips ++ tail))

one_answer-Written :
    (nanswers : ℕ) (ttl ip : Address) (rest : Bytes) (found : ℕ) (pre old tail : Bytes)
    → length pre ≡ 4 * found
    → length old ≡ 4
    → found < 10
    → found + 1 ≢ nanswers
    → let mem' = pre ++ (address_bytes ip ++ tail) in
      one_answer nanswers (answer_bytes ttl ip ++ rest) found (pre ++ (old ++ tail))
      ≡ (if leb 10 (found + 1) then ended (parsed (found + 1) mem') else next rest (found + 1) mem')
one_answer-Written nanswers ttl ip rest found pre old tail lp four lt ne =
    let mem = pre ++ (old ++ tail) in
    let placed : write_at (4 * found) (address_bytes ip) mem ≡ pre ++ (address_bytes ip ++ tail) =
      ap (λ i. write_at i (address_bytes ip) mem) (sym lp)
      ∙ write_at-append pre (address_bytes ip) old tail (omega (arith, four)) in
    one_answer-A nanswers ttl ip rest found mem
    ∙ take_address-next nanswers found ip rest mem lt ne
    ∙ ap (λ m. if leb 10 (found + 1) then ended (parsed (found + 1) m) else next rest (found + 1) m)
        placed

one_answer-end :
    (nanswers found : ℕ) (mem : Bytes) → one_answer nanswers [] found mem ≡ ended (parsed found mem)
unfolding one_answer
one_answer-end nanswers found mem = refl

pub parse_answers-ended :
    (nanswers rounds : ℕ) (s : Bytes) (found : ℕ) (mem : Bytes) (r : Parsed)
    → one_answer nanswers s found mem ≡ ended r
    → parse_answers nanswers (suc rounds) s found mem ≡ r
unfolding parse_answers
parse_answers-ended nanswers rounds s found mem r e = rw (e, parse_answers) refl

pub parse_answers-next :
    (nanswers rounds : ℕ) (s : Bytes) (found : ℕ) (mem s' : Bytes) (found' : ℕ) (mem' : Bytes)
    → one_answer nanswers s found mem ≡ next s' found' mem'
    → parse_answers nanswers (suc rounds) s found mem ≡ parse_answers nanswers rounds s' found' mem'
unfolding parse_answers
parse_answers-next nanswers rounds s found mem s' found' mem' e = rw (e, parse_answers) refl

Written-last :
    (ip : Address) (ips : List Address) (found : ℕ) (pre tail : Bytes) (r : Parsed)
    → length ips ≤ 0
    → r ≡ parsed (found + 1) (pre ++ (address_bytes ip ++ tail))
    → Written pre found (ip ∷ ips) r
Written-last ip [] found pre tail r h e = record { tail = tail; is_parsed = e }
Written-last ip (ip' ∷ ips) found pre tail r h e = absurd (omega arith)

-- A round that ends the loop at ten answers, or goes on.
Written-step :
    (nanswers rounds found : ℕ) (ttl ip : Address) (ips : List Address) (pre tail s mem : Bytes)
    → let mem' = pre ++ (address_bytes ip ++ tail) in
      one_answer nanswers s found mem ≡ (
        if leb 10 (found + 1)
        then ended (parsed (found + 1) mem')
        else next (answers ttl ips) (found + 1) mem')
      → found + length (ip ∷ ips) ≤ 10
      → Written (pre ++ address_bytes ip) (found + 1) ips (
          parse_answers nanswers rounds
            (answers ttl ips)
            (found + 1)
            ((pre ++ address_bytes ip) ++ tail))
      → Written pre found (ip ∷ ips) (parse_answers nanswers (suc rounds) s found mem)
Written-step nanswers rounds found ttl ip ips pre tail s mem e le w =
    elim (Bool-cases (leb 10 (found + 1))) [
      | inl full ↦
          let mem' = pre ++ (address_bytes ip ++ tail) in
          Written-last ip ips found pre tail (parse_answers nanswers (suc rounds) s found mem)
            (omega (arith, le, leb→le 10 (found + 1) full))
            (parse_answers-ended nanswers rounds s found mem (parsed (found + 1) mem')
              (e ∙ rw full refl))
      | inr room ↦
          let mem' = pre ++ (address_bytes ip ++ tail) in
          let same : (pre ++ address_bytes ip) ++ tail ≡ mem' =
            append_assoc pre (address_bytes ip) tail in
          record {
            tail = w.tail;
            is_parsed =
                parse_answers-next nanswers rounds s found mem (answers ttl ips) (found + 1) mem'
                  (e ∙ rw room refl)
                ∙ ap (parse_answers nanswers rounds (answers ttl ips) (found + 1)) (sym same)
                ∙ w.is_parsed
                ∙ rw (one_more, append_assoc pre (address_bytes ip) (all_bytes ips ++ w.tail)) refl;
          }
    ]
  where
    one_more : found + 1 + length ips ≡ found + length (ip ∷ ips)
    one_more = omega arith

parse_answers-Written :
    (nanswers rounds : ℕ) (ttl : Address) (ips : List Address) (found : ℕ) (pre tail : Bytes)
    → length ips < rounds
    → length pre ≡ 4 * found
    → length tail + 4 * found ≡ 40
    → found + length ips ≤ 10
    → (256 ≤ nanswers) ⊎ (nanswers ≡ 0)
    → Written pre found ips (parse_answers nanswers rounds (answers ttl ips) found (pre ++ tail))
parse_answers-Written nanswers zero ttl ips found pre tail lt lp lt' le big = absurd (omega arith)
parse_answers-Written nanswers (suc rounds) ttl [] found pre tail lt lp lt' le big = record {
  tail = tail;
  is_parsed =
      parse_answers-ended nanswers rounds [] found (pre ++ tail) (parsed found (pre ++ tail))
        (one_answer-end nanswers found (pre ++ tail))
      ∙ ap (λ n. parsed n (pre ++ tail)) (omega arith);
}
parse_answers-Written nanswers (suc rounds) ttl (ip ∷ ips) found pre tail lt lp lt' le big =
    let (old, (tail', (split, (four, left)))) =
      four_and_rest tail (40 - 4 * found) (omega arith) (omega arith) in
    let go =
      parse_answers-Written nanswers rounds ttl ips (found + 1) (pre ++ address_bytes ip) tail'
        (omega (arith, lt)) (omega (arith, lp, length-append pre (address_bytes ip)))
        (omega (arith, left)) (omega (arith, le)) big in
    Written-step nanswers rounds found ttl ip ips pre tail' (answers ttl (ip ∷ ips)) (pre ++ tail)
      (ap (λ t. one_answer nanswers (answers ttl (ip ∷ ips)) found (pre ++ t)) split
        ∙ one_answer-Written nanswers ttl ip (answers ttl ips) found pre old tail' lp four
            (omega (arith, le)) (λ q. ground (arith, le, big)))
      le go

pub skip_host-wire :
    (wire rest : Bytes) → All (λ c. c ≢ 0) wire → skip_host (wire ++ 0 ∷ rest) ≡ 0 ∷ rest
unfolding skip_host
skip_host-wire [] rest h = refl
skip_host-wire (c ∷ cs) rest h = ground (arith, skip_host-wire cs rest h.1)

read_ips-all_bytes :
    (ips : List Address) (tail : Bytes)
    → read_ips (length ips) (all_bytes ips ++ tail) ≡ map address_bytes ips
unfolding read_ips
read_ips-all_bytes [] tail = refl
read_ips-all_bytes (ip ∷ ips) tail = ap (◌∷◌ (address_bytes ip)) (read_ips-all_bytes ips tail)

-- A reply to the question with identifier `tid` and the name `wire`: RFC 1035, 4.1. The flags and the
-- time to live are the server's.
abbrev pub reply : ℕ → ℕ → ℕ → Bytes → Address → List Address → Bytes
reply tid flags flags' wire ttl ips =
    tid / 256
    ∷ tid % 256
    ∷ flags
    ∷ flags'
    ∷ 0
    ∷ 1
    ∷ 0
    ∷ length ips
    ∷ 0
    ∷ 0
    ∷ 0
    ∷ 0
    ∷ (wire ++ (query_end ++ answers ttl ips))

length-answers : (ttl : Address) (ips : List Address) → length ips ≤ length (answers ttl ips)
length-answers ttl [] = omega arith
length-answers ttl (ip ∷ ips) = omega (arith, length-answers ttl ips)

-- A message that answers the last query is parsed from behind its question on.
pub lua_co_parse_dns_result-accepted :
    (tid : ℕ) (stack message body : Bytes)
    → 6 ≤ length message
    → ntohs message 4 ≡ 1
    → ntohs message 0 ≡ tid
    → skip_host (drop 12 message) ≡ query_end ++ body
    → lua_co_parse_dns_result tid stack message
      ≡ result_of (parse_answers (at message 6 + 256 * at message 7) (length body + 1) body 0 stack)
unfolding lua_co_parse_dns_result is_a_question
lua_co_parse_dns_result-accepted tid stack message body long one same e =
    rw (e, one, same) (ground (arith, long, at_class))
  where
    at_class : ntohs (query_end ++ body) 1 ≡ 1
    at_class = unfold ntohs at in refl

-- `lua_co_parse_dns_result` returns the addresses of a reply to the last query, all of them and in
-- order, whatever the memory of `ips` held before. The reply consists of its question and at most ten
-- answers of type A with four bytes each, whose names are the pointer 0xC00C, and nothing behind them.
pub lua_co_parse_dns_result-reply :
    (tid flags flags' : ℕ) (wire : Bytes) (ttl : Address) (ips : List Address) (stack : Bytes)
    → All (λ c. c ≢ 0) wire
    → length stack ≡ 40
    → length ips ≤ 10
    → lua_co_parse_dns_result tid stack (reply tid flags flags' wire ttl ips)
      ≡ addresses (map address_bytes ips)
unfolding lua_co_parse_dns_result
lua_co_parse_dns_result-reply tid flags flags' wire ttl ips stack plain size le =
    let message = reply tid flags flags' wire ttl ips in
    let body = answers ttl ips in
    let w =
      parse_answers-Written (0 + 256 * length ips) (length body + 1) ttl ips 0 [] stack
        (omega (arith, length-answers ttl ips)) (omega arith) (omega (arith, size))
        (omega (arith, le)) (many (length ips)) in
    let nanswers = at message 6 + 256 * at message 7 in
    let found : parse_answers nanswers (length body + 1) body 0 stack
        ≡ parsed (0 + length ips) (all_bytes ips ++ w.tail) =
      unfold at in w.is_parsed in
    lua_co_parse_dns_result-accepted tid stack message body (omega arith) (unfold ntohs at in refl)
      (unfold ntohs at in omega arith) (skip_host-wire wire _ plain)
    ∙ ap result_of found
    ∙ ap (λ n. addresses (read_ips n (all_bytes ips ++ w.tail))) (omega arith)
    ∙ ap addresses (read_ips-all_bytes ips w.tail)
  where
    many : (n : ℕ) → (256 ≤ 0 + 256 * n) ⊎ (0 + 256 * n ≡ 0)
    many zero = inr (omega arith)
    many (suc n) = inl (omega arith)
