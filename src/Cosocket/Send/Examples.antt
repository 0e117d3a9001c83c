-- ===== src/Cosocket/Send/Examples.antt =====
-- The theorems on sending at concrete inputs.
use alilua_coevent_module.Prelude.{refl, [], ◌∷◌, ◌++◌, arith, true}
use alilua_coevent_module.LuaTable.{
  array, text, item, done, table, lua_calc_strlen_in_table, lua_copy_str_in_table,
}
use alilua_coevent_module.LuaTable.Agree.{IsRegular}
use alilua_coevent_module.Cosocket.{World, number}
use alilua_coevent_module.Cosocket.Examples.{world}
use alilua_coevent_module.Cosocket.Send.{
  Content, sent, again, be_write_state, write_loop, finish_write, written_values, lua_co_send,
  a_table, load, load_table, load_copy, prepare, send_loaded, start_write, answer_write,
}
use alilua_coevent_module.Cosocket.Send.History.{
  start, more, suspended, Ended, be_write_state-Ended,
}
use alilua_coevent_module.Cosocket.Send.Method.{IsSending, lua_co_send-IsSending}

-- The cosocket once the system has taken two of the three bytes.
abbrev half : World
half = suspended (be_write_state (sent 2 ∷ again ∷ []) world).1.1

be_write_state-Ended_example :
    Ended
      (b'a' ∷ b'b' ∷ b'c' ∷ [])
      ((be_write_state (sent 2 ∷ again ∷ []) world).0
        ++ (be_write_state (sent 1 ∷ sent 0 ∷ []) half).0)
      (number 3 ∷ [])
      (be_write_state (sent 1 ∷ sent 0 ∷ []) half).1.1
unfolding be_write_state write_loop finish_write written_values
be_write_state-Ended_example =
    be_write_state-Ended world (b'a' ∷ b'b' ∷ []) half (sent 1 ∷ sent 0 ∷ []) (number 3 ∷ [])
      (record { same_buf = refl; same_len = refl; bound = omega arith; sent_so_far = refl })
      (omega arith) (more start (sent 2 ∷ again ∷ []) (omega arith) 1 refl) (omega arith) refl

-- { "a", { "bc" } }
abbrev content : Content
content = a_table (
    array
      (item (text (b'a' ∷ [])) (item (table (array (item (text (b'b' ∷ b'c' ∷ [])) done))) done)))

abbrev asleep : World
asleep = suspended (be_write_state (sent 2 ∷ again ∷ []) world).1.1

lua_co_send-IsSending_example : IsSending content (b'a' ∷ b'b' ∷ []) asleep
unfolding be_write_state write_loop lua_co_send load load_table load_copy prepare send_loaded
    start_write answer_write lua_calc_strlen_in_table lua_copy_str_in_table IsRegular
lua_co_send-IsSending_example =
    lua_co_send-IsSending true (sent 2 ∷ again ∷ []) 4 content world (b'a' ∷ b'b' ∷ []) asleep
      ((tt, ((tt, tt), tt))) (λ c e. ground arith) refl
