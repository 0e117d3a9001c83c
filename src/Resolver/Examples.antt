-- ===== src/Resolver/Examples.antt =====
-- DNS messages at concrete inputs.
use alilua_coevent_module.Prelude.{◌≡◌, ◌∷◌, [], Bytes, refl, arith, replicate}
use alilua_coevent_module.Resolver.{Address, lua_co_parse_dns_result, addresses}
use alilua_coevent_module.Resolver.Reply.{address_bytes, reply, lua_co_parse_dns_result-reply}

abbrev wire : Bytes
wire = 2 ∷ b'a' ∷ b'b' ∷ 1 ∷ b'c' ∷ []

abbrev ttl : Address
ttl = record { a = 0; b = 0; c = 1; d = 44 }

abbrev local : Address
local = record { a = 127; b = 0; c = 0; d = 1 }

abbrev other : Address
other = record { a = 10; b = 0; c = 0; d = 9 }

lua_co_parse_dns_result-reply_example :
    lua_co_parse_dns_result 18203
      (replicate 40 7)
      (reply 18203 129 128 wire ttl (local ∷ other ∷ []))
    ≡ addresses (address_bytes local ∷ address_bytes other ∷ [])
lua_co_parse_dns_result-reply_example =
    lua_co_parse_dns_result-reply 18203 129 128 wire ttl (local ∷ other ∷ []) (replicate 40 7)
      (omega arith) refl (omega arith)
