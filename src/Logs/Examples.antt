-- ===== src/Logs/Examples.antt =====
-- Logging at concrete inputs.
use alilua_coevent_module.Prelude.{
  ℕ, pos, ◌≤◌, ◌≡◌, refl, ◌⊎◌, true, false, List, [], ◌∷◌, none, some, Bytes, length, take,
  replicate,
}
use alilua_coevent_module.LuaTable.{
  Item, Table, array, done, item, lua_calc_strlen_in_table, calc_items, calc_item,
}
use alilua_coevent_module.LuaTable.Agree.{IsRegular, IsRegularItems, IsRegularItem}
use alilua_coevent_module.Logs.{
  lua_f_open_log, on_exit_handler, Arg, flag, nil, number, text, table, tbuf_size, log_loop,
  lua_f_log, LogFile,
}
use alilua_coevent_module.Logs.Room.{tabbed, IsWithin, log_loop-tabbed, lua_f_log-IsWithin}
use alilua_coevent_module.Logs.Handle.{Call, open_logs}

abbrev args : List Arg
args = flag true ∷ nil ∷ text (b'x' ∷ []) ∷ []

-- "true\tnil\tx\t"
written :
    log_loop args []
    ≡ b't' ∷ b'r' ∷ b'u' ∷ b'e' ∷ b'\t' ∷ b'n' ∷ b'i' ∷ b'l' ∷ b'\t' ∷ b'x' ∷ b'\t' ∷ []
unfolding log_loop
written = refl

log_loop-tabbed_example :
    (k : ℕ) × (log_loop args [] ≡ tabbed (take k args))
    × (length (log_loop args []) ≤ tbuf_size)
    × ((k ≡ length args) ⊎ (tbuf_size ≤ length (tabbed args)))
log_loop-tabbed_example = log_loop-tabbed args

-- A table of one string.
abbrev small : Table
small = array (item (Item.text (b'a' ∷ b'b' ∷ [])) done)

small-IsRegular : IsRegular small
unfolding IsRegular IsRegularItems IsRegularItem
small-IsRegular = (tt, tt)

lua_f_log-IsWithin_example :
    IsWithin (lua_f_log true true (pos 3) (number (pos 1) (b'1' ∷ []) ∷ table small ∷ []))
lua_f_log-IsWithin_example =
    lua_f_log-IsWithin true true (pos 3) (number (pos 1) (b'1' ∷ []) ∷ table small ∷ [])
      (small-IsRegular, tt)

-- 8192 bytes in one string.
abbrev long : Bytes
long = replicate 8192 b'a'

abbrev large : Table
large = array (item (Item.text long) done)

large-IsRegular : IsRegular large
unfolding IsRegular IsRegularItems IsRegularItem
large-IsRegular = (tt, tt)

large_measured : lua_calc_strlen_in_table false large ≡ some 8192
unfolding lua_calc_strlen_in_table calc_items calc_item
large_measured = refl

abbrev first : LogFile
first = record { current = none; destroyed = [] }

abbrev two_logs : List Call
two_logs = (some (b'a' ∷ []), some 1) ∷ (none, none) ∷ (some (b'b' ∷ []), some 2) ∷ []

closed_logs : (on_exit_handler (open_logs two_logs first)).destroyed ≡ 2 ∷ 1 ∷ []
unfolding on_exit_handler open_logs lua_f_open_log
closed_logs = refl
