-- ===== src/Monip/Examples.antt =====
-- The search for an address at concrete inputs.
use alilua_coevent_module.Prelude.{
  List, true, ◌+◌, ◌≡◌, refl, [], ◌∷◌, ◌++◌, Option, none, some, Bytes, length, take, drop,
  replicate, arith,
}
use alilua_coevent_module.Monip.Find.{find-IsIndexed}
use alilua_coevent_module.Monip.{
  Opened, fields, find, Database, big_from, position_of, first_number, atoi, getposbyip, find_tab,
  lb_strsplit, split_loop,
}
use alilua_coevent_module.Monip.Split.{IsSplit}
use alilua_coevent_module.Monip.Scan.{Entry, entries_bytes, first_at_least}
use alilua_coevent_module.Monip.Range.{IsIndexed, getposbyip-IsIndexed}

-- "a", nothing, "b", and nothing.
abbrev text : Bytes
text = b'a' ∷ b'\t' ∷ b'\t' ∷ b'b' ∷ b'\t' ∷ []

pieces : split_loop (length text + 1) text none ≡ (b'a' ∷ []) ∷ [] ∷ (b'b' ∷ []) ∷ [] ∷ []
unfolding split_loop lb_strsplit find_tab
pieces = refl

-- 0.255.255.255 and 1.0.0.255 end the two ranges.
abbrev below : Entry
below = record { key = 0 ∷ 255 ∷ 255 ∷ 255 ∷ []; place = 1 ∷ 0 ∷ 0 ∷ 1 ∷ [] }

abbrev range : Entry
range = record { key = 1 ∷ 0 ∷ 0 ∷ 255 ∷ []; place = 4 ∷ 0 ∷ 0 ∷ 2 ∷ [] }

abbrev slots : Bytes
slots = replicate 4 0

abbrev more_slots : Bytes
more_slots = replicate 1016 0

abbrev content : Bytes
content =
    ((0 ∷ 0 ∷ 8 ∷ 16 ∷ []) ++ slots)
    ++ ((1 ∷ 0 ∷ 0 ∷ 0 ∷ [])
        ++ (more_slots ++ (entries_bytes (below ∷ range ∷ []) ++ (b'?' ∷ b'?' ∷ []))))

abbrev database : Database
database = record {
  monipdata = some content;
  monipdata_offset = 2064;
  monipdata_len = 1046;
  check_per = 0;
  monipdata_file_mtime = 0;
}

abbrev address : Bytes
address = b'1' ∷ b'.' ∷ b'0' ∷ b'.' ∷ b'0' ∷ b'.' ∷ b'1' ∷ []

-- An `inet_addr` for one address.
abbrev inet_addr : Bytes → Option Bytes
inet_addr s = some (1 ∷ 0 ∷ 0 ∷ 1 ∷ [])

first_is_one : first_number address ≡ 1
unfolding first_number atoi
first_is_one = refl

database-IsIndexed :
    IsIndexed 2064 content
      (first_number address)
      (big_from (1 ∷ 0 ∷ 0 ∷ 1 ∷ []) 0)
      (below ∷ range ∷ [])
unfolding first_number atoi
database-IsIndexed = record {
  header = 0 ∷ 0 ∷ 8 ∷ 16 ∷ [];
  slots = slots;
  slot = 1 ∷ 0 ∷ 0 ∷ 0 ∷ [];
  more_slots = more_slots;
  skipped = below ∷ [];
  searched = range ∷ [];
  texts = b'?' ∷ b'?' ∷ [];
  all_entries = refl;
  layout = refl;
  header_size = refl;
  slots_size = refl;
  slot_size = refl;
  table_size = refl;
  skips = refl;
  skipped_entries = omega arith;
  searched_entries = omega arith;
  skipped_below = omega arith;
  offset = refl;
  fits = omega arith;
}

getposbyip-IsIndexed_example :
    getposbyip inet_addr address content database
    ≡ position_of database (first_at_least (big_from (1 ∷ 0 ∷ 0 ∷ 1 ∷ []) 0) (below ∷ range ∷ []))
getposbyip-IsIndexed_example =
    getposbyip-IsIndexed inet_addr address (1 ∷ 0 ∷ 0 ∷ 1 ∷ []) content database
      (below ∷ range ∷ []) (omega arith) refl refl (omega arith) database-IsIndexed

abbrev no_file : Opened
no_file = record { content = none; allocated = true; is_read = true }

find-IsIndexed_example :
    (fs : List Bytes) × (find inet_addr none no_file (some address) database ≡ fields fs)
    × IsSplit (take 2 (drop 1044 content)) fs
find-IsIndexed_example =
    find-IsIndexed inet_addr none no_file address (1 ∷ 0 ∷ 0 ∷ 1 ∷ []) content database
      (below ∷ range ∷ []) 4 2 refl refl (omega arith) (omega arith) refl refl (omega arith)
      database-IsIndexed refl (omega arith) (omega arith) (omega arith)
