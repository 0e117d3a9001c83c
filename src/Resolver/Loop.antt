-- ===== src/Resolver/Loop.antt =====
-- The loop over the answers (src/lua-resolver.c) on any message: it ends, and where it reads and
-- writes.
use alilua_coevent_module.Prelude.{
  ℕ, suc, ◌+◌, ◌*◌, ◌/◌, ◌%◌, ◌<◌, ◌≡◌, ◌≢◌, refl, ap, ◌∙◌, ◌∷◌, ◌++◌, Bytes, length, All, arith,
}
use alilua_coevent_module.Resolver.{
  query_end, at, ntohs, type_at, Parsed, parsed, overflow, overread, stuck, Round, ended, next,
  take_address, one_answer, parse_answers, Result, addresses, broken, result_of,
  lua_co_parse_dns_result,
}
use alilua_coevent_module.Resolver.Reply.{
  parse_answers-ended, lua_co_parse_dns_result-accepted, skip_host-wire,
}

-- What a round may do: end with what it has found, overflow `ips`, or go on behind bytes that it read.
abbrev IsGood : Bytes → Round → Type 0
IsGood s (ended (parsed n mem)) = Unit
IsGood s (ended overflow) = Unit
IsGood s (ended overread) = ⊥
IsGood s (ended stuck) = ⊥
IsGood s (next s' found mem) = length s' < length s

-- The loop's result is one that the message decides.
abbrev IsDecided : Parsed → Type 0
IsDecided (parsed n mem) = Unit
IsDecided overflow = Unit
IsDecided overread = ⊥
IsDecided stuck = ⊥

-- What parsing a message gives.
abbrev pub IsDecidedResult : Result → Type 0
IsDecidedResult (addresses ips) = Unit
IsDecidedResult (broken overflow) = Unit
IsDecidedResult (broken (parsed n mem)) = ⊥
IsDecidedResult (broken overread) = ⊥
IsDecidedResult (broken stuck) = ⊥

-- An answer of type A and class IN with the data `s`.
abbrev pub answer_with : Bytes → Bytes
answer_with s = 192 ∷ 12 ∷ 0 ∷ 1 ∷ 0 ∷ 1 ∷ 0 ∷ 0 ∷ 0 ∷ 0 ∷ length s / 256 ∷ length s % 256 ∷ s

one_answer-overflow :
    (nanswers : ℕ) (s mem : Bytes)
    → 40 < length s
    → one_answer nanswers (answer_with s) 0 mem ≡ ended overflow
unfolding one_answer type_at ntohs at take_address
one_answer-overflow nanswers s mem long = ground (arith, long)

-- A reply with one answer of type A and the data `s`.
abbrev pub one_A : ℕ → Bytes → Bytes → Bytes
one_A tid wire s =
    tid / 256
    ∷ tid % 256
    ∷ 129
    ∷ 128
    ∷ 0
    ∷ 1
    ∷ 0
    ∷ 1
    ∷ 0
    ∷ 0
    ∷ 0
    ∷ 0
    ∷ (wire ++ (query_end ++ answer_with s))

-- A reply whose answer of type A has more than 40 bytes of data overflows `ips`: the length is the
-- server's, and nothing compares it with 4.
pub lua_co_parse_dns_result-overflow :
    (tid : ℕ) (wire stack s : Bytes)
    → All (λ c. c ≢ 0) wire
    → 40 < length s
    → length s < 65536
    → lua_co_parse_dns_result tid stack (one_A tid wire s) ≡ broken overflow
lua_co_parse_dns_result-overflow tid wire stack s plain long short =
    let message = one_A tid wire s in
    let nanswers = at message 6 + 256 * at message 7 in
    let rounds : length (answer_with s) + 1 ≡ suc (length (answer_with s)) = omega arith in
    lua_co_parse_dns_result-accepted tid stack message (answer_with s) (omega arith)
      (unfold ntohs at in refl) (unfold ntohs at in omega arith) (skip_host-wire wire _ plain)
    ∙ ap (λ n. result_of (parse_answers nanswers n (answer_with s) 0 stack)) rounds
    ∙ ap result_of (
        parse_answers-ended nanswers (length (answer_with s)) (answer_with s) 0 stack overflow
          (one_answer-overflow nanswers s stack long))
