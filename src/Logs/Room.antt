-- ===== src/Logs/Room.antt =====
-- What `lua_f_log` (src/lua-log.c) writes, and the room of its buffers.
use alilua_coevent_module.Prelude.{
  ℕ, ℤ, suc, ◌+◌, ◌≤◌, ◌≡◌, refl, sym, ap, ◌∙◌, ◌⊎◌, inl, inr, Bool, true, false, by_test, by_cases,
  Option-cases, List, [], ◌∷◌, ◌++◌, append_assoc, append-nil, Option, some, Bytes, length,
  length-append, take, arith, ltb, if◌then◌else◌,
}
use alilua_coevent_module.LuaTable.{Table, lua_calc_strlen_in_table}
use alilua_coevent_module.LuaTable.Agree.{IsRegular, Fits, lua_copy_str_in_table-Fits}
use alilua_coevent_module.Logs.{
  Arg, flag, nil, number, text, table, other, tbuf_size, bytes_of, needed, log_loop, Logged, line,
  silent, raises, logged, log_table, log_from, level_of, lua_f_log,
}

-- The texts of arguments, each with a tab behind it.
abbrev pub tabbed : List Arg → Bytes
tabbed [] = []
tabbed (a ∷ args) = (bytes_of a ++ (b'\t' ∷ [])) ++ tabbed args

-- What the loop adds to its buffer: the texts of the first `k` arguments.
record IsAdded (args : List Arg) (buf out : Bytes) : Type 0 where
  k : ℕ
  added : out ≡ buf ++ tabbed (take k args)
  fits : length out ≤ tbuf_size
  whole : (k ≡ length args) ⊎ (tbuf_size ≤ length buf + length (tabbed args))

needed_enough :
    (a : Arg) → (length (bytes_of a) + 1 ≤ needed a) × (needed a ≤ length (bytes_of a) + 2)
needed_enough (flag true) = omega arith
needed_enough (flag false) = omega arith
needed_enough nil = omega arith
needed_enough (number z s) = omega arith
needed_enough (text s) = omega arith
needed_enough (table t) = omega arith
needed_enough other = omega arith

log_loop-IsAdded :
    (args : List Arg) (buf : Bytes) → length buf ≤ tbuf_size → IsAdded args buf (log_loop args buf)
unfolding log_loop
log_loop-IsAdded [] buf h = record {
  k = 0;
  added = sym (append-nil buf);
  fits = h;
  whole = inl refl;
}
log_loop-IsAdded (a ∷ args) buf h =
    let piece = bytes_of a ++ (b'\t' ∷ []) in
    let size = length-append buf piece in
    let width = length-append (bytes_of a) (b'\t' ∷ []) in
    let total = length-append piece (tabbed args) in
    let enough = needed_enough a in
    by_cases (IsAdded (a ∷ args) buf) (ltb tbuf_size (length buf + needed a)) _ _
      (λ full. record {
        k = 0;
        added = sym (append-nil buf);
        fits = h;
        whole = inr (ground (arith, full, width, total, enough));
      })
      λ free.
        let rest =
          log_loop-IsAdded args (buf ++ piece) (ground (arith, free, width, size, enough)) in
        record {
          k = suc rest.k;
          added = rest.added ∙ append_assoc buf piece (tabbed (take rest.k args));
          fits = rest.fits;
          whole = elim rest.whole [
            | inl all ↦ inl (ap (λ (n : ℕ). suc n) all)
            | inr much ↦ inr (omega (arith, much, size, total))
          ];
        }

-- The loop over the arguments writes the texts of the first of them, each with a tab behind it, and
-- never more than the buffer holds; it leaves out none, unless all would fill the buffer.
pub log_loop-tabbed :
    (args : List Arg)
    → (k : ℕ) × (log_loop args [] ≡ tabbed (take k args))
      × (length (log_loop args []) ≤ tbuf_size)
      × ((k ≡ length args) ⊎ (tbuf_size ≤ length (tabbed args)))
log_loop-tabbed args =
    let r = log_loop-IsAdded args [] (omega arith) in
    (
      r.k,
      r.added,
      r.fits,
      elim r.whole [ inl all ↦ inl all | inr much ↦ inr (omega (arith, much)) ],
    )

-- The tables among arguments are arrays all the way down.
abbrev pub AreRegular : List Arg → Type 0
AreRegular [] = Unit
AreRegular (table t ∷ args) = IsRegular t × AreRegular args
AreRegular (flag b ∷ args) = AreRegular args
AreRegular (nil ∷ args) = AreRegular args
AreRegular (number z s ∷ args) = AreRegular args
AreRegular (text s ∷ args) = AreRegular args
AreRegular (other ∷ args) = AreRegular args

-- The text of a line stays in its buffer; the NUL behind it is not counted.
pub data IsWithin : Logged → Type 0 where
  nothing : IsWithin silent
  failed : IsWithin raises
  within : (level : ℤ) (s : Bytes) (room : ℕ) → length s ≤ room → IsWithin (line level s room)

logged-IsWithin :
    (level : ℤ) (n room : ℕ) (o : Option Bytes)
    → Fits o n
    → n ≤ room
    → IsWithin (logged level room o)
logged-IsWithin level n room o (s, (e, size)) h = rw e (within level s room (omega (arith, size)))

log_table-IsWithin :
    (allocated : Bool) (level : ℤ) (t : Table)
    → IsRegular t
    → IsWithin (log_table allocated level t)
unfolding log_table
log_table-IsWithin allocated level t h = elim (Option-cases (lua_calc_strlen_in_table false t)) [
  | inl e ↦ rw (e, log_table) failed
  | inr (n, e) ↦
      let copy = lua_copy_str_in_table-Fits false t n h e in
      rw (e, log_table)
        (by_test IsWithin (ltb n 1) _ _ nothing (
          by_cases IsWithin (ltb tbuf_size n) _ _
            (λ long.
              by_test IsWithin allocated _ _ (logged-IsWithin level n n _ copy (omega arith))
                nothing)
            (λ short. logged-IsWithin level n tbuf_size _ copy (ground (arith, short)))))
]

log_loop-IsWithin :
    (level : ℤ) (args : List Arg) → IsWithin (line level (log_loop args []) tbuf_size)
log_loop-IsWithin level args =
    within level _ tbuf_size (log_loop-IsAdded args [] (omega arith)).fits

full :
    (level : ℤ) (s : Bytes) (n : ℕ)
    → length s ≡ n
    → tbuf_size ≤ n
    → (if ltb n 1
        then silent
        else if ltb tbuf_size n
        then line level s n
        else line level s tbuf_size)
      ≡ line level s (length s)
full level s n size large = ground arith

log_from-IsWithin :
    (allocated : Bool) (level : ℤ) (args : List Arg)
    → AreRegular args
    → IsWithin (log_from allocated level args)
unfolding log_from
log_from-IsWithin allocated level [] h = log_loop-IsWithin level []
log_from-IsWithin allocated level (table t ∷ args) h = log_table-IsWithin allocated level t h.0
log_from-IsWithin allocated level (flag b ∷ args) h = log_loop-IsWithin level _
log_from-IsWithin allocated level (nil ∷ args) h = log_loop-IsWithin level _
log_from-IsWithin allocated level (number z s ∷ args) h = log_loop-IsWithin level _
log_from-IsWithin allocated level (text s ∷ args) h = log_loop-IsWithin level _
log_from-IsWithin allocated level (other ∷ args) h = log_loop-IsWithin level _

level_of-AreRegular :
    (warn : ℤ) (args : List Arg) → AreRegular args → AreRegular (level_of warn args).1
unfolding level_of
level_of-AreRegular warn [] h = h
level_of-AreRegular warn (number z s ∷ []) h = h
level_of-AreRegular warn (number z s ∷ (a ∷ args)) h = h
level_of-AreRegular warn (table t ∷ args) h = h
level_of-AreRegular warn (flag b ∷ args) h = h
level_of-AreRegular warn (nil ∷ args) h = h
level_of-AreRegular warn (text s ∷ args) h = h
level_of-AreRegular warn (other ∷ args) h = h

-- Whatever is logged, its text stays within the buffer that it is written to; the NUL behind it is
-- not counted. The tables among the arguments are arrays all the way down, with no light userdata but
-- NULL.
pub lua_f_log-IsWithin :
    (source allocated : Bool) (warn : ℤ) (args : List Arg)
    → AreRegular args
    → IsWithin (lua_f_log source allocated warn args)
unfolding lua_f_log
lua_f_log-IsWithin source allocated warn args h =
    by_test IsWithin source _ _
      (log_from-IsWithin allocated (level_of warn args).0 (level_of warn args).1
        (level_of-AreRegular warn args h))
      nothing

-- The NUL behind a table of at least 8192 bytes is written past the end of the buffer: the text fills
-- all of it. The table is an array all the way down, with no light userdata but NULL, and there is
-- memory.
pub log_table-full :
    (level : ℤ) (t : Table) (n : ℕ)
    → IsRegular t
    → lua_calc_strlen_in_table false t ≡ some n
    → tbuf_size ≤ n
    → (s : Bytes) × (log_table true level t ≡ line level s (length s))
unfolding log_table
log_table-full level t n h e large =
    let (s, (copied, size)) = lua_copy_str_in_table-Fits false t n h e in
    (s, rw (e, log_table) (rw copied (full level s n size large)))
