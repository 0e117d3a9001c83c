-- ===== src/LuaTable.antt =====
-- Tables as content to send (src/lua-util.c): `lua_calc_strlen_in_table` measures a table, and
-- `lua_copy_str_in_table` writes its bytes, over the same values.
pub mod Agree
mod Examples
use alilua_coevent_module.Prelude.{
  ℕ, ◌+◌, Bool, true, false, List, [], ◌∷◌, Option, none, some, Bytes, ◌++◌, length, if◌then◌else◌,
}

-- The values at the keys 1 to `max` of a table, as `lua_rawgeti` gives them. `text` is a string or a
-- number, with the bytes of `lua_tolstring`; the flag of `light` says that the pointer is NULL. A
-- table is `array` if all its keys are positive integers, and `mixed` if not; there `max` is the one
-- of `lua_copy_str_in_table`.
mutual
  pub data Item : Type 0 where
    text : Bytes → Item
    nil : Item
    boolean : Bool → Item
    table : Table → Item
    light : Bool → Item
    other : Item

  pub data Table : Type 0 where
    array : Items → Table
    mixed : Items → Table

  pub data Items : Type 0 where
    done : Items
    item : Item → Items → Items

abbrev pub nil_text : Bytes
nil_text = b'n' ∷ b'i' ∷ b'l' ∷ []

abbrev pub true_text : Bytes
true_text = b't' ∷ b'r' ∷ b'u' ∷ b'e' ∷ []

abbrev pub false_text : Bytes
false_text = b'f' ∷ b'a' ∷ b'l' ∷ b's' ∷ b'e' ∷ []

abbrev null_text : Bytes
null_text = b'n' ∷ b'u' ∷ b'l' ∷ b'l' ∷ []

abbrev sum : Option ℕ → Option ℕ → Option ℕ
sum none b = none
sum (some m) none = none
sum (some m) (some n) = some (m + n)

abbrev joined : Option Bytes → Option Bytes → Option Bytes
joined none b = none
joined (some s) none = none
joined (some s) (some t) = some (s ++ t)

-- `none` is the error of `luaL_argerror`; a table that is not an array has length 0.
unfoldable mutual
  pub lua_calc_strlen_in_table : Bool → Table → Option ℕ
  lua_calc_strlen_in_table strict (mixed xs) = some 0
  lua_calc_strlen_in_table strict (array xs) = calc_items strict xs

  pub calc_items : Bool → Items → Option ℕ
  calc_items strict done = some 0
  calc_items strict (item x xs) = sum (calc_item strict x) (calc_items strict xs)

  pub calc_item : Bool → Item → Option ℕ
  calc_item strict (text s) = some (length s)
  calc_item strict nil = if strict then none else some 3
  calc_item strict (boolean true) = if strict then none else some 4
  calc_item strict (boolean false) = if strict then none else some 5
  calc_item strict (table t) = lua_calc_strlen_in_table strict t
  calc_item strict (light true) = if strict then none else some 4
  calc_item strict (light false) = if strict then none else some 0
  calc_item strict other = none

-- The bytes written; `none` is the error of `luaL_error`.
unfoldable mutual
  pub lua_copy_str_in_table : Table → Option Bytes
  lua_copy_str_in_table (mixed xs) = copy_items xs
  lua_copy_str_in_table (array xs) = copy_items xs

  pub copy_items : Items → Option Bytes
  copy_items done = some []
  copy_items (item x xs) = joined (copy_item x) (copy_items xs)

  pub copy_item : Item → Option Bytes
  copy_item (text s) = some s
  copy_item nil = some nil_text
  copy_item (boolean true) = some true_text
  copy_item (boolean false) = some false_text
  copy_item (table t) = lua_copy_str_in_table t
  copy_item (light b) = some null_text
  copy_item other = none
