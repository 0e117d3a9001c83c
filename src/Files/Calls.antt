-- ===== src/Files/Calls.antt =====
-- The tables `F` and `EIO_M` of functions and methods (src/lua-eio.c), and a program that calls them
-- from any number of coroutines while its requests are done in any order.
pub mod Answered
pub mod Steps
pub mod Resumed
pub mod Waits
mod Examples
use alilua_coevent_module.Prelude.{
  ℕ, ℤ, pos, ◌≡◌, Bool, true, false, List, [], ◌∷◌, ◌++◌, Option, none, some, All, not,
  if◌then◌else◌, ◌==◌,
}
use alilua_coevent_module.Files.{
  Arg, Conversions, Operation, Callback, Request, Value, handle, Answer, returns, yields, Made,
}
use alilua_coevent_module.Files.Paths.{
  Users, lua_f_eio_isdir, lua_f_eio_isfile, lua_f_eio_exists, lua_f_eio_readdir, lua_f_eio_unlink,
  lua_f_eio_rmdir, lua_f_eio_stat, lua_f_eio_rename, lua_f_eio_mkdir, lua_f_eio_chmod,
  lua_f_eio_chown, lua_f_eio_open,
}
use alilua_coevent_module.Files.Handles.{
  lua_f_eio_gc, lua_f_eio_close, lua_f_eio_read, lua_f_eio_write, lua_f_eio_seek, lua_f_eio_sync,
}
use alilua_coevent_module.Files.Done.{Reply, Woken, nobody, woken, crashed, complete}

-- What Lua can call, by the names in the tables; the method `__gc` is called by Lua itself.
pub data Method : Type 0 where
  mkdir : Method
  stat : Method
  chown : Method
  chmod : Method
  unlink : Method
  rmdir : Method
  rename : Method
  readdir : Method
  isdir : Method
  isfile : Method
  exists : Method
  open_file : Method
  write : Method
  read : Method
  seek : Method
  sync : Method
  close : Method

unfoldable pub call : Conversions → Users → Method → ℕ → List Arg → Made
call conv users mkdir l args = lua_f_eio_mkdir conv l args
call conv users stat l args = lua_f_eio_stat conv l args
call conv users chown l args = lua_f_eio_chown conv users l args
call conv users chmod l args = lua_f_eio_chmod conv l args
call conv users unlink l args = lua_f_eio_unlink conv l args
call conv users rmdir l args = lua_f_eio_rmdir conv l args
call conv users rename l args = lua_f_eio_rename conv l args
call conv users readdir l args = lua_f_eio_readdir conv l args
call conv users isdir l args = lua_f_eio_isdir conv l args
call conv users isfile l args = lua_f_eio_isfile conv l args
call conv users exists l args = lua_f_eio_exists conv l args
call conv users open_file l args = lua_f_eio_open conv l args
call conv users write l args = lua_f_eio_write conv l args
call conv users read l args = lua_f_eio_read conv l args
call conv users seek l args = lua_f_eio_seek conv l args
call conv users sync l args = lua_f_eio_sync l args
call conv users close l args = lua_f_eio_close l args

-- The coroutines that are suspended, the requests that are not done, and the descriptors of the
-- handles that Lua has.
pub record Program : Type 0 where
  pub asleep : ℕ → Bool
  pub pending : List Request
  pub handles : List ℤ

abbrev pub set_asleep : ℕ → Bool → (ℕ → Bool) → ℕ → Bool
set_asleep l b asleep k = if l == k then b else asleep k

abbrev pub add_request : Option Request → List Request → List Request
add_request none rs = rs
add_request (some r) rs = r ∷ rs

abbrev pub is_yielding : Answer → Bool
is_yielding (returns vs) = false
is_yielding yields = true

-- Coroutine `l` makes a call.
unfoldable pub after_call : ℕ → Made → Program → Program
after_call l m p = record p {
  asleep = if is_yielding m.0 then set_asleep l true p.asleep else p.asleep;
  pending = add_request m.1 p.pending;
}

-- The handles among values, which Lua then has.
abbrev pub handles_of : List Value → List ℤ
handles_of [] = []
handles_of (v ∷ vs) = let rest = handles_of vs in elim v [ handle fd ↦ fd ∷ rest | _ ↦ rest ]

-- A callback has run; a crash is the end of the program.
abbrev pub after_callback : Woken → Program → Option Program
after_callback nobody p = some p
after_callback (woken l vs) p =
    some (record p { asleep = set_asleep l false p.asleep; handles = handles_of vs ++ p.handles })
after_callback crashed p = none

-- The descriptors of the handles among the arguments.
abbrev pub files_of : List Arg → List ℤ
files_of [] = []
files_of (a ∷ args) = let rest = files_of args in elim a [ Arg.file fd ↦ fd ∷ rest | _ ↦ rest ]
