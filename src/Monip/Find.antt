-- ===== src/Monip/Find.antt =====
-- What `find` (lua-libs/lua-monip/lua-monip.c) returns for an address of an indexed database.
use alilua_coevent_module.Prelude.{
  ℕ, ◌+◌, ◌-◌, ◌^◌, ◌%◌, ◌≤◌, ◌<◌, ◌≡◌, refl, ap, ◌∙◌, false, List, Option, none, some, Bytes,
  length, take, drop, length-take, length-drop, All, arith, ltb,
}
use alilua_coevent_module.Monip.{
  Database, Opened, big_from, first_number, hit, position, position_of, auto_reload, getposbyip,
  split_loop, fields, fields_of, find,
}
use alilua_coevent_module.Monip.Split.{IsSplit, split_loop-pieces}
use alilua_coevent_module.Monip.Scan.{Entry, first_at_least}
use alilua_coevent_module.Monip.Range.{IsIndexed, getposbyip-IsIndexed}

abbrev once_more : Database → Database
once_more s = record s { check_per = s.check_per + 1 }

-- Not the millionth call: the file is not looked at.
auto_reload-idle :
    (mtime : Option ℕ) (f : Opened) (s : Database)
    → s.check_per ≤ 1000000
    → auto_reload mtime f s ≡ some (once_more s)
unfolding auto_reload
auto_reload-idle mtime f s h =
    let low : ltb 1000000 s.check_per ≡ false = ground (arith, h) in rw (low, auto_reload) refl

-- A text that the file holds.
position_of-hit :
    (s : Database) (i n size : ℕ)
    → s.monipdata_len ≡ size
    → size < 2 ^ 32
    → 1024 ≤ s.monipdata_offset
    → 1 ≤ i
    → s.monipdata_offset + i + n ≤ 1024 + size
    → position_of s (hit i n) ≡ position (s.monipdata_offset + i - 1024) n
position_of-hit s i n size hs small far given inside =
    let at : (s.monipdata_offset + i + 2 ^ 32 - 1024) % 2 ^ 32 ≡ s.monipdata_offset + i - 1024 =
      omega (arith, small, far, inside, given) in
    let ends : (s.monipdata_offset + i + 2 ^ 32 - 1024 + n) % 2 ^ 32
        ≡ s.monipdata_offset + i - 1024 + n =
      omega (arith, small, far, inside, given) in
    let known : ltb i 1 ≡ false = ground (arith, given) in
    let fits : ltb s.monipdata_len (s.monipdata_offset + i - 1024 + n) ≡ false =
      ground (arith, hs, inside, far, given) in
    rw (at, ends) (rw (known, fits) refl)

-- If the first range of the index that ends at the address or behind it has a text, of at least one
-- byte and all in the file, `find` returns the pieces of that text between its tabs, all of them and
-- in order. The database is loaded and indexed, the address is not empty and inet_addr takes it for
-- four bytes, and it is not the call that looks for a new file.
pub find-IsIndexed :
    (inet_addr : Bytes → Option Bytes) (mtime : Option ℕ) (f : Opened) (ip_str nip d : Bytes)
    (s : Database) (es : List Entry) (i n : ℕ)
    → s.monipdata ≡ some d
    → s.monipdata_len ≡ length d
    → s.check_per ≤ 1000000
    → 1 ≤ length ip_str
    → inet_addr ip_str ≡ some nip
    → length nip ≡ 4
    → All (λ (x : ℕ). x < 256) nip
    → IsIndexed s.monipdata_offset d (first_number ip_str) (big_from nip 0) es
    → first_at_least (big_from nip 0) es ≡ hit i n
    → 1 ≤ i
    → 1 ≤ n
    → s.monipdata_offset + i + n ≤ 1024 + length d
    → (fs : List Bytes) × (find inet_addr mtime f (some ip_str) s ≡ fields fs)
      × IsSplit (take n (drop (s.monipdata_offset + i - 1024) d)) fs
unfolding find
find-IsIndexed inet_addr mtime f ip_str nip d s es i n loaded len idle given known size small db
      first some_index some_text inside =
    let at = s.monipdata_offset + i - 1024 in
    let text = take n (drop at d) in
    let text_size : length text ≡ n =
      omega (arith, length-take n (drop at d), length-drop at d, inside, db.offset) in
    let found : getposbyip inet_addr ip_str d (once_more s) ≡ position at n =
      getposbyip-IsIndexed inet_addr ip_str nip d (once_more s) es given known size small db
      ∙ ap (position_of (once_more s)) first
      ∙ position_of-hit (once_more s) i n (length d) len db.fits (omega (arith, db.offset))
          some_index inside in
    (
      split_loop (length text + 1) text none,
      rw (loaded, auto_reload-idle mtime f s idle, find) (rw loaded (ap (fields_of d) found)),
      split_loop-pieces text (omega (arith, text_size, some_text)),
    )
