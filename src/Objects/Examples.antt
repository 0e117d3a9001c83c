-- ===== src/Objects/Examples.antt =====
-- A peer that cannot be found.
use alilua_coevent_module.Prelude.{refl, some, true, false}
use alilua_coevent_module.Cosocket.Examples.{world}
use alilua_coevent_module.Objects.{Peered, lua_co_dup_setpeername}
use alilua_coevent_module.Objects.Peer.{IsPeered, lua_co_dup_setpeername-IsPeered}

abbrev unresolved : Peered
unresolved = record {
  port_given = true;
  resolved = false;
  socket = some 12;
  nonblocking = true;
  event = 3;
}

lua_co_dup_setpeername-IsPeered_example :
    IsPeered unresolved world (lua_co_dup_setpeername true unresolved world)
lua_co_dup_setpeername-IsPeered_example = lua_co_dup_setpeername-IsPeered unresolved world refl
