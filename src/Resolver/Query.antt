-- ===== src/Resolver/Query.antt =====
-- The query packet (src/lua-resolver.c): its loop ends, and the name is in the wire format.
use alilua_coevent_module.Prelude.{
  ℕ, zero, suc, ◌+◌, ◌/◌, ◌%◌, ◌<◌, ◌≡◌, ◌≢◌, inl, inr, Option, none, some, Option-cases, List, [],
  ◌∷◌, ◌++◌, Bytes, length, All, arith,
}
use alilua_coevent_module.Resolver.{find_dot, encode_name, Address, lua_co_build_dns_query_packet}

-- A byte that may stand in a label.
abbrev pub IsPlain : ℕ → Type 0
IsPlain c = (c ≢ b'.') × (c ≢ 0)

-- A host name, by its labels.
abbrev pub dotted : Bytes → List Bytes → Bytes
dotted l [] = l
dotted l (m ∷ ls) = l ++ b'.' ∷ dotted m ls

find_dot-shorter : (s label more : Bytes) → find_dot s ≡ some (label, more) → length more < length s
unfolding find_dot
find_dot-shorter [] label more e = cc
find_dot-shorter (c ∷ cs) label more e = elim (Option-cases (find_dot cs)) [
  | inl missing ↦ ground (arith, missing)
  | inr (r, found) ↦ ground (arith, found, find_dot-shorter cs r.0 r.1)
]

-- Enough rounds: more than the name has bytes.
pub encode_name-total :
    (rounds : ℕ) (name : Bytes) → length name < rounds → encode_name rounds name ≢ none
unfolding encode_name
encode_name-total zero name h e = omega arith
encode_name-total (suc rounds) name h e = elim (Option-cases (find_dot name)) [
  | inl missing ↦ ground (arith, missing)
  | inr ((label, more), found) ↦
      let shorter = find_dot-shorter name label more found in
      let total = encode_name-total rounds more (omega (arith, shorter, h)) in
      elim (Option-cases (encode_name rounds more)) [
        | inl stuck ↦ total stuck
        | inr (s, done) ↦ ground (arith, found, done)
      ]
]

-- The message formats of RFC 1035, 6891 and 7871, by their fields: a number of 16 bits is written with
-- its higher byte first.
abbrev pub word : ℕ → Bytes
word n = n / 256 ∷ n % 256 ∷ []

-- A label behind its length, which is below 64: the two upper bits of the byte are 0.
abbrev pub IsLabel : Bytes → Type 0
IsLabel l = All IsPlain l × (length l < 64)

abbrev pub wire_name : List Bytes → Bytes
wire_name [] = 0 ∷ []
wire_name (l ∷ ls) = length l ∷ (l ++ wire_name ls)

-- A header: the identifier, the flags, of which only "recursion desired" is set, one question, no
-- answer, no authority, and `additional` records.
abbrev pub wire_header : ℕ → ℕ → Bytes → Bytes
wire_header tid additional rest =
    word tid ++ (word 256 ++ (word 1 ++ (word 0 ++ (word 0 ++ (word additional ++ rest)))))

-- The record OPT: the root's name, type 41, messages of up to 4096 bytes, no extended code, version 0,
-- the flag DO, and one option of 8 bytes, 8, for the network of a client: IPv4, of which 18 bits count
-- and none is answered for, in three bytes and a 0.
abbrev pub wire_opt : Option Address → Bytes
wire_opt none = []
wire_opt (some ip) =
    0
    ∷ (word 41
        ++ (word 4096
            ++ (word 0
                ++ (word 32768
                    ++ (word 12
                        ++ (word 8
                            ++ (word 8 ++ (word 1 ++ 18 ∷ 0 ∷ ip.a ∷ ip.b ∷ ip.c ∷ 0 ∷ []))))))))

abbrev count_of : Option Address → ℕ
count_of none = 0
count_of (some ip) = 1

-- A query of type A and class IN for the labels of a name.
abbrev pub wire_query : ℕ → List Bytes → Option Address → Bytes
wire_query tid ls client_ip =
    wire_header tid (count_of client_ip)
      (wire_name ls ++ (word 1 ++ (word 1 ++ wire_opt client_ip)))

-- The loop over the name ends on every name: a packet is always built.
pub lua_co_build_dns_query_packet-total :
    (tid : ℕ) (name : Bytes) (client_ip : Option Address)
    → (lua_co_build_dns_query_packet tid name client_ip).1 ≢ none
unfolding lua_co_build_dns_query_packet
lua_co_build_dns_query_packet-total tid name client_ip e =
    elim (Option-cases (encode_name (length name + 1) name)) [
      | inl stuck ↦ encode_name-total (length name + 1) name (omega arith) stuck
      | inr (s, done) ↦ ground (arith, done)
    ]
