-- ===== src/Cosocket/Connect/Examples.antt =====
-- The theorems on connecting at concrete inputs.
use alilua_coevent_module.Prelude.{
  ◌+◌, ◌≡◌, refl, [], ◌∷◌, none, some, pos, true, false, arith, if◌then◌else◌,
}
use alilua_coevent_module.Cosocket.{World}
use alilua_coevent_module.Cosocket.Examples.{cosocket, world}
use alilua_coevent_module.Cosocket.Close.Balance.{accounted}
use alilua_coevent_module.Cosocket.Close.Timeout.{SamePool}
use alilua_coevent_module.Cosocket.Connect.Socket.{balance}
use alilua_coevent_module.Cosocket.Connect.Method.{
  Network, Target, opened, set_options, lua_co_connect,
}
use alilua_coevent_module.Cosocket.Connect.Method.Balance.{opens, balance-lua_co_connect}
use alilua_coevent_module.Cosocket.Connect.{Setup, _be_connect}
use alilua_coevent_module.Cosocket.Connect.Settled.{IsKeptOrClosed, _be_connect-IsSet}

-- `se_be_read` fails while the handshake is set up.
abbrev unwatched : Setup
unwatched = record {
  event = 2;
  ctx_new = some 20;
  ssl_new = some 21;
  watched = false;
  ssl_connected = false;
}

abbrev idle : World
idle = record world {
  cok = record cosocket { fd = none; ptr = none; status = 0; use_ssl = true; pool_key = 0 };
}

_be_connect-IsSet_example :
    let r = (_be_connect unwatched 11 idle).1 in SamePool idle r × IsKeptOrClosed 11 idle r
_be_connect-IsSet_example = _be_connect-IsSet 11 unwatched idle

abbrev network : Network
network = record {
  now = 60;
  processes = 1;
  key_of = λ c. 0;
  fnv1a_32 = λ s. 70;
  digits = λ n. b'0' ∷ [];
  waiter = some 8;
  dial = opened 11;
  setup = unwatched;
}

abbrev target : Target
target = record {
  self = true;
  host = some (b'h' ∷ []);
  port = pos 80;
  size = some (pos 10);
  key = none;
}

balance-lua_co_connect_example :
    balance 11 (lua_co_connect 7 network 4 target idle).1
    ≡ (if opens 4 network target idle then 1 else 0) + accounted 11 idle
unfolding set_options
balance-lua_co_connect_example =
    balance-lua_co_connect 11 7 network 4 target idle refl (λ host. ground arith)
