-- ===== src/LuaTable/Examples.antt =====
-- A table measured and copied, and one whose copy is longer than measured.
use alilua_coevent_module.Prelude.{refl, [], ◌∷◌, true}
use alilua_coevent_module.LuaTable.{
  Table, array, text, item, done, table, lua_calc_strlen_in_table, lua_copy_str_in_table,
}
use alilua_coevent_module.LuaTable.Agree.{IsRegular, Fits, lua_copy_str_in_table-Fits}

-- { "a", { "bc" } }
abbrev nested : Table
nested =
    array
      (item (text (b'a' ∷ [])) (item (table (array (item (text (b'b' ∷ b'c' ∷ [])) done))) done))

lua_copy_str_in_table-Fits_example : Fits (lua_copy_str_in_table nested) 3
unfolding IsRegular lua_calc_strlen_in_table
lua_copy_str_in_table-Fits_example =
    lua_copy_str_in_table-Fits true nested 3 ((tt, ((tt, tt), tt))) refl
