-- ===== src/LuaTable/Agree.antt =====
-- The two walks over a table (src/lua-util.c) agree, and where they do not.
use alilua_coevent_module.Prelude.{
  ℕ, ◌+◌, ◌≡◌, refl, Bool, true, false, Option, none, some, arith, Bytes, [], ◌++◌, length,
  length-append, append-nil, ap,
}
use alilua_coevent_module.LuaTable.{
  Item, text, nil, boolean, table, light, other, Table, array, mixed, Items, done, item,
  lua_calc_strlen_in_table, calc_items, calc_item, lua_copy_str_in_table, copy_items, copy_item,
  sum, joined,
}

-- Every table in it is an array, and every light userdata is NULL.
unfoldable mutual
  pub IsRegular : Table → Type 0
  IsRegular (mixed xs) = ⊥
  IsRegular (array xs) = IsRegularItems xs

  pub IsRegularItems : Items → Type 0
  IsRegularItems done = Unit
  IsRegularItems (item x xs) = IsRegularItem x × IsRegularItems xs

  pub IsRegularItem : Item → Type 0
  IsRegularItem (table t) = IsRegular t
  IsRegularItem (light false) = ⊥
  IsRegularItem (light true) = Unit
  IsRegularItem (text s) = Unit
  IsRegularItem nil = Unit
  IsRegularItem (boolean b) = Unit
  IsRegularItem other = Unit

-- A copy that succeeds and is as long as measured.
abbrev pub Fits : Option Bytes → ℕ → Type 0
Fits c n = (s : Bytes) × ((c ≡ some s) × (length s ≡ n))

sum-cases :
    (a b : Option ℕ) (n : ℕ)
    → sum a b ≡ some n
    → (i : ℕ) × ((j : ℕ) × ((a ≡ some i) × ((b ≡ some j) × (i + j ≡ n))))
sum-cases none b n e = absurd cc
sum-cases (some i) none n e = absurd cc
sum-cases (some i) (some j) n e = (i, (j, (refl, (refl, cc))))

joined-Fits :
    (c d : Option Bytes) (i j n : ℕ) → i + j ≡ n → Fits c i → Fits d j → Fits (joined c d) n
joined-Fits c d i j n e (s, (es, ls)) (t, (et, lt)) =
    (s ++ t, (rw (es, et) refl, omega (arith, length-append s t, ls, lt, e)))

-- What is measured of a regular value is what is copied.
mutual
  unfolding IsRegular IsRegularItems IsRegularItem lua_calc_strlen_in_table calc_items calc_item
      lua_copy_str_in_table copy_items copy_item

  table-Fits :
      (strict : Bool) (t : Table) (n : ℕ)
      → IsRegular t
      → lua_calc_strlen_in_table strict t ≡ some n
      → Fits (lua_copy_str_in_table t) n
  table-Fits strict (mixed xs) n h e = absurd h
  table-Fits strict (array xs) n h e = items-Fits strict xs n h e

  items-Fits :
      (strict : Bool) (xs : Items) (n : ℕ)
      → IsRegularItems xs
      → calc_items strict xs ≡ some n
      → Fits (copy_items xs) n
  items-Fits strict done n h e = ([], (refl, ground (arith)))
  items-Fits strict (item x xs) n h e =
      let (i, (j, (ei, (ej, s)))) = sum-cases (calc_item strict x) (calc_items strict xs) n e in
      joined-Fits (copy_item x) (copy_items xs) i j n s (item-Fits strict x i h.0 ei)
        (items-Fits strict xs j h.1 ej)

  item-Fits :
      (strict : Bool) (x : Item) (n : ℕ)
      → IsRegularItem x
      → calc_item strict x ≡ some n
      → Fits (copy_item x) n
  item-Fits strict (table t) n h e = table-Fits strict t n h e
  item-Fits strict (light false) n h e = absurd h
  item-Fits true (light true) n h e = absurd cc
  item-Fits false (light true) n h e = (_, (refl, cc))
  item-Fits strict (text s) n h e = (s, (refl, cc))
  item-Fits true nil n h e = absurd cc
  item-Fits false nil n h e = (_, (refl, cc))
  item-Fits true (boolean b) n h e = absurd (ground arith)
  item-Fits false (boolean true) n h e = (_, (refl, cc))
  item-Fits false (boolean false) n h e = (_, (refl, cc))
  item-Fits strict other n h e = absurd cc

-- If every table in it is an array and every light userdata is NULL, then a table that is measured is
-- copied without an error, and the copy is exactly as long as measured.
pub lua_copy_str_in_table-Fits :
    (strict : Bool) (t : Table) (n : ℕ)
    → IsRegular t
    → lua_calc_strlen_in_table strict t ≡ some n
    → Fits (lua_copy_str_in_table t) n
lua_copy_str_in_table-Fits strict t n h e = table-Fits strict t n h e

-- A table `{ s, { …, key = … } }`: the inner table counts nothing, as it is no array, but its values
-- are copied all the same, so the copy is longer than the buffer allocated for it.
pub lua_copy_str_in_table-overrun :
    (s t : Bytes) (xs : Items)
    → lua_copy_str_in_table (mixed xs) ≡ some t
    → let outer = array (item (text s) (item (table (mixed xs)) done)) in
      (lua_calc_strlen_in_table true outer ≡ some (length s))
      × (lua_copy_str_in_table outer ≡ some (s ++ t))
unfolding lua_calc_strlen_in_table lua_copy_str_in_table
lua_copy_str_in_table-overrun s t xs e = (ap some (omega arith), rw (e, append-nil) refl)
