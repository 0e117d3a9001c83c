-- ===== src/Monip/Scan.antt =====
-- The search of `getposbyip` (lua-libs/lua-monip/lua-monip.c) finds the range of an address.
use alilua_coevent_module.Prelude.{
  ℕ, zero, suc, ◌+◌, ◌*◌, ◌^◌, ◌%◌, ◌<◌, ◌≡◌, sym, ap, ◌∙◌, Bool, true, List, [], ◌∷◌, ◌++◌,
  append_assoc, some, Bytes, length, take, drop, take-append, drop-append, length-append, All,
  arith, if◌then◌else◌, ltb, leb, ℕ_discrete,
}
use alilua_coevent_module.Monip.{
  big_from, read_at, memcmp_ge, Hit, miss, place_of, test_entry, index_loop,
}

-- An entry of the index: the last address of its range, and where its text is.
pub record Entry : Type 0 where
  pub key : Bytes
  pub place : Bytes

abbrev pub IsEntry : Entry → Type 0
IsEntry e = (length e.key ≡ 4) × (length e.place ≡ 4) × All (λ (b : ℕ). b < 256) e.key

abbrev pub entries_bytes : List Entry → Bytes
entries_bytes [] = []
entries_bytes (e ∷ es) = e.key ++ (e.place ++ entries_bytes es)

-- The first entry whose range ends at an address or behind it, as the loop reports it.
abbrev pub first_at_least : ℕ → List Entry → Hit
first_at_least ip [] = miss
first_at_least ip (e ∷ es) =
    let rest = first_at_least ip es in
    if leb ip (big_from e.key 0) then place_of (some e.place) else rest

big_from-bounds :
    (a b : Bytes) (m n : ℕ)
    → m < n
    → All (λ (x : ℕ). x < 256) a
    → length a ≡ length b
    → big_from a m < big_from b n
big_from-bounds [] [] m n h ha e = h
big_from-bounds [] (y ∷ b) m n h ha e = absurd (omega (arith, e))
big_from-bounds (x ∷ a) [] m n h ha e = absurd (omega (arith, e))
big_from-bounds (x ∷ a) (y ∷ b) m n h ha e =
    big_from-bounds a b (m * 256 + x) (n * 256 + y) (omega (arith, ha.0)) ha.1 (omega (arith, e))

-- `memcmp` compares addresses as numbers.
memcmp_ge-leb :
    (a b : Bytes) (n : ℕ)
    → length a ≡ length b
    → All (λ (x : ℕ). x < 256) a
    → All (λ (x : ℕ). x < 256) b
    → memcmp_ge a b ≡ leb (big_from b n) (big_from a n)
unfolding memcmp_ge
memcmp_ge-leb [] [] n e ha hb = ground arith
memcmp_ge-leb [] (y ∷ b) n e ha hb = absurd (omega (arith, e))
memcmp_ge-leb (x ∷ a) [] n e ha hb = absurd (omega (arith, e))
memcmp_ge-leb (x ∷ a) (y ∷ b) n e ha hb = elim (ℕ_discrete x y) [
  | yes same ↦
      let step = memcmp_ge-leb a b (n * 256 + y) (omega (arith, e)) ha.1 hb.1 in
      ground (arith, same, step)
  | no other ↦
      let sizes : length a ≡ length b = omega (arith, e) in
      ground (
        arith,
        other,
        λ (h : x < y).
            big_from-bounds a b (n * 256 + x) (n * 256 + y) (omega (arith, h)) ha.1 sizes,
        λ (h : y < x).
            big_from-bounds b a (n * 256 + y) (n * 256 + x) (omega (arith, h)) hb.1 (sym sizes),
      )
]

pub read_at-append :
    (n i : ℕ) (pre s post : Bytes)
    → length pre ≡ i
    → length s ≡ n
    → read_at n i (pre ++ (s ++ post)) ≡ some s
read_at-append n i pre s post hp hs =
    let cut : take n (drop i (pre ++ (s ++ post))) ≡ s =
      ap (λ (k : ℕ). take n (drop k (pre ++ (s ++ post)))) (sym hp)
      ∙ ap (take n) (drop-append pre (s ++ post))
      ∙ ap (λ (k : ℕ). take k (s ++ post)) (sym hs)
      ∙ take-append s post in
    rw cut (ground (arith, hs))

first_hit_step :
    (nip : Bytes) (e : Entry) (later : Hit)
    → IsEntry e
    → length nip ≡ 4
    → All (λ (x : ℕ). x < 256) nip
    → test_entry (some e.key) (some e.place) nip later
      ≡ (if leb (big_from nip 0) (big_from e.key 0) then place_of (some e.place) else later)
first_hit_step nip e later h size small =
    let same = memcmp_ge-leb e.key nip 0 (omega (arith, h.0, size)) h.2 small in
    ap (λ (b : Bool). if b then place_of (some e.place) else later) same

-- The loop over entries that follow in the data.
pub index_loop-entries :
    (es : List Entry) (fuel start max : ℕ) (nip pre post : Bytes)
    → length es < fuel
    → length pre ≡ 4 + start
    → max ≡ start + 8 * length es
    → max < 2 ^ 32
    → length nip ≡ 4
    → All (λ (x : ℕ). x < 256) nip
    → All IsEntry es
    → index_loop fuel max start nip (pre ++ (entries_bytes es ++ post))
      ≡ first_at_least (big_from nip 0) es
unfolding index_loop
index_loop-entries es zero start max nip pre post hf hp hm hb size small all = absurd (omega arith)
index_loop-entries [] (suc fuel) start max nip pre post hf hp hm hb size small all =
    ground (arith, hm)
index_loop-entries (e ∷ es) (suc fuel) start max nip pre post hf hp hm hb size small all =
    let d = pre ++ ((e.key ++ (e.place ++ entries_bytes es)) ++ post) in
    let tail = entries_bytes es ++ post in
    let by_key : d ≡ pre ++ (e.key ++ (e.place ++ tail)) = simp append_assoc in
    let by_place : d ≡ (pre ++ e.key) ++ (e.place ++ tail) = simp append_assoc in
    let by_rest : d ≡ (pre ++ (e.key ++ e.place)) ++ tail = simp append_assoc in
    let (key_size, place_size, bytes) = all.0 in
    let before : length (pre ++ e.key) ≡ 8 + start =
      omega (arith, length-append pre e.key, hp, key_size) in
    let behind : length (pre ++ (e.key ++ e.place)) ≡ 4 + (start + 8) = omega (
      arith,
      length-append pre (e.key ++ e.place),
      length-append e.key e.place,
      hp,
      key_size,
      place_size,
    ) in
    let low : ltb start max ≡ true = ground (arith, hm) in
    let next : (start + 8) % 2 ^ 32 ≡ start + 8 = omega (arith, hm, hb) in
    let key_read =
      ap (read_at 4 (4 + start)) by_key
      ∙ read_at-append 4 (4 + start) pre e.key (e.place ++ tail) hp key_size in
    let place_read =
      ap (read_at 4 (8 + start)) by_place
      ∙ read_at-append 4 (8 + start) (pre ++ e.key) e.place tail before place_size in
    let later : index_loop fuel max ((start + 8) % 2 ^ 32) nip d
        ≡ first_at_least (big_from nip 0) es =
      ap (λ (n : ℕ). index_loop fuel max n nip d) next
      ∙ ap (index_loop fuel max (start + 8) nip) by_rest
      ∙ index_loop-entries es fuel (start + 8) max nip (pre ++ (e.key ++ e.place)) post
          (omega arith) behind (omega (arith, hm)) hb size small all.1 in
    rw (low, key_read, place_read, later, index_loop) (first_hit_step nip e _ all.0 size small)
