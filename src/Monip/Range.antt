-- ===== src/Monip/Range.antt =====
-- `getposbyip` (lua-libs/lua-monip/lua-monip.c) on a database as it should be.
use alilua_coevent_module.Prelude.{
  ℕ, ◌+◌, ◌-◌, ◌*◌, ◌^◌, ◌%◌, ◌<◌, ◌≤◌, ◌≡◌, refl, sym, ap, ◌∙◌, false, List, [], ◌∷◌, ◌++◌,
  append_assoc, Option, some, Bytes, length, length-append, All, arith, ◌==◌,
}
use alilua_coevent_module.Monip.{
  Database, big_from, little, read_at, first_number, index_loop, position_of, getposbyip,
}
use alilua_coevent_module.Monip.Scan.{
  Entry, IsEntry, entries_bytes, first_at_least, read_at-append, index_loop-entries,
}

entries_bytes-append :
    (xs ys : List Entry) → entries_bytes (xs ++ ys) ≡ entries_bytes xs ++ entries_bytes ys
entries_bytes-append [] ys = refl
entries_bytes-append (e ∷ xs) ys = simp (entries_bytes-append xs ys, append_assoc)

length-entries_bytes :
    (es : List Entry) → All IsEntry es → length (entries_bytes es) ≡ 8 * length es
length-entries_bytes [] h = refl
length-entries_bytes (e ∷ es) h = omega (
  arith,
  length-append e.key (e.place ++ entries_bytes es),
  length-append e.place (entries_bytes es),
  length-entries_bytes es h.1,
  h.0.0,
  h.0.1,
)

-- The entries in front of those that the table points to end below the address.
skip :
    (ip : ℕ) (xs ys : List Entry)
    → All (λ (e : Entry). big_from e.key 0 < ip) xs
    → first_at_least ip (xs ++ ys) ≡ first_at_least ip ys
skip ip [] ys h = refl
skip ip (e ∷ xs) ys h = ground (arith, h.0, skip ip xs ys h.1)

-- The layout of the data: four bytes, the table of 256 numbers of four bytes, of which `slot` is the
-- one for the first number of an address, the entries of the index, and the rest. The number in the
-- slot says how many entries are in front of those to search, and these end below the address.
pub record IsIndexed (end_of_index : ℕ) (d : Bytes) (first ip : ℕ) (es : List Entry) : Type 0 where
  pub header : Bytes
  pub slots : Bytes
  pub slot : Bytes
  pub more_slots : Bytes
  pub skipped : List Entry
  pub searched : List Entry
  pub texts : Bytes
  pub all_entries : es ≡ skipped ++ searched
  pub layout : d ≡ (header ++ slots) ++ (slot ++ (more_slots ++ (entries_bytes es ++ texts)))
  pub header_size : length header ≡ 4
  pub slots_size : length slots ≡ first * 4
  pub slot_size : length slot ≡ 4
  pub table_size : length slots + 4 + length more_slots ≡ 1024
  pub skips : little slot ≡ length skipped
  pub skipped_entries : All IsEntry skipped
  pub searched_entries : All IsEntry searched
  pub skipped_below : All (λ (e : Entry). big_from e.key 0 < ip) skipped
  pub offset : end_of_index ≡ 2048 + 8 * (length skipped + length searched)
  pub fits : length d < 2 ^ 32

-- What stands in front of the entries to search.
abbrev in_front :
    {at : ℕ} {d : Bytes} {first ip : ℕ} {es : List Entry} → IsIndexed at d first ip es → Bytes
in_front db = (db.header ++ db.slots) ++ (db.slot ++ (db.more_slots ++ entries_bytes db.skipped))

split_layout :
    {at : ℕ} {d : Bytes} {first ip : ℕ} {es : List Entry} (db : IsIndexed at d first ip es)
    → d ≡ in_front db ++ (entries_bytes db.searched ++ db.texts)
split_layout db =
    db.layout
    ∙ ap (λ (x : Bytes). (db.header ++ db.slots) ++ (db.slot ++ (db.more_slots ++ (x ++ db.texts))))
        (ap entries_bytes db.all_entries ∙ entries_bytes-append db.skipped db.searched)
    ∙ simp append_assoc

length-in_front :
    {at : ℕ} {d : Bytes} {first ip : ℕ} {es : List Entry} (db : IsIndexed at d first ip es)
    → length (in_front db) ≡ 1028 + 8 * length db.skipped
length-in_front db = omega (
  arith,
  length-append (db.header ++ db.slots) (db.slot ++ (db.more_slots ++ entries_bytes db.skipped)),
  length-append db.header db.slots,
  length-append db.slot (db.more_slots ++ entries_bytes db.skipped),
  length-append db.more_slots (entries_bytes db.skipped),
  length-entries_bytes db.skipped db.skipped_entries,
  db.header_size,
  db.slot_size,
  db.table_size,
)

search-IsIndexed :
    (nip d : Bytes) (s : Database) (es : List Entry) {first : ℕ}
    → length nip ≡ 4
    → All (λ (x : ℕ). x < 256) nip
    → (db : IsIndexed s.monipdata_offset d first (big_from nip 0) es)
    → index_loop
        (length d + 1)
        ((s.monipdata_offset + 2 ^ 32 - 1024) % 2 ^ 32)
        ((little db.slot * 8 + 1024) % 2 ^ 32)
        nip
        d
      ≡ first_at_least (big_from nip 0) es
search-IsIndexed nip d s es size small db =
    let pre = in_front db in
    let start = 1024 + 8 * length db.skipped in
    let max = start + 8 * length db.searched in
    let front_size = length-in_front db in
    let whole : length d
        ≡ 1028 + 8 * length db.skipped + (8 * length db.searched + length db.texts) =
      omega (
        arith,
        ap (λ (x : Bytes). length x) (split_layout db),
        length-append pre (entries_bytes db.searched ++ db.texts),
        length-append (entries_bytes db.searched) db.texts,
        length-entries_bytes db.searched db.searched_entries,
        front_size,
      ) in
    let from : (little db.slot * 8 + 1024) % 2 ^ 32 ≡ start =
      omega (arith, db.skips, whole, db.fits) in
    let until : (s.monipdata_offset + 2 ^ 32 - 1024) % 2 ^ 32 ≡ max =
      omega (arith, db.offset, whole, db.fits) in
    let found =
      index_loop-entries db.searched (length d + 1) start max nip pre db.texts
        (omega (arith, whole)) (omega (arith, front_size)) refl (omega (arith, whole, db.fits)) size
        small db.searched_entries in
    let left = skip (big_from nip 0) db.skipped db.searched db.skipped_below in
    rw (from, until)
      (ap (index_loop (length d + 1) max start nip) (split_layout db)
        ∙ found
        ∙ sym left
        ∙ ap (first_at_least (big_from nip 0)) (sym db.all_entries))

-- In an indexed database the search ends, reads nothing behind the data, and finds the first entry of
-- the whole index whose range ends at the address or behind it, if there is one; the position is that
-- of its text. The address is not empty, and inet_addr takes it for four bytes.
pub getposbyip-IsIndexed :
    (inet_addr : Bytes → Option Bytes) (ip_str nip d : Bytes) (s : Database) (es : List Entry)
    → 1 ≤ length ip_str
    → inet_addr ip_str ≡ some nip
    → length nip ≡ 4
    → All (λ (x : ℕ). x < 256) nip
    → IsIndexed s.monipdata_offset d (first_number ip_str) (big_from nip 0) es
    → getposbyip inet_addr ip_str d s ≡ position_of s (first_at_least (big_from nip 0) es)
unfolding getposbyip
getposbyip-IsIndexed inet_addr ip_str nip d s es given known size small db =
    let nonempty : (length ip_str == 0) ≡ false = ground (arith, given) in
    let table : length (db.header ++ db.slots) ≡ 4 + first_number ip_str * 4 =
      omega (arith, length-append db.header db.slots, db.header_size, db.slots_size) in
    let slot_read =
      ap (read_at 4 (4 + first_number ip_str * 4)) db.layout
      ∙ read_at-append 4 _ (db.header ++ db.slots) db.slot _ table db.slot_size in
    rw (nonempty, known, slot_read, getposbyip)
      (ap (position_of s) (search-IsIndexed nip d s es size small db))
