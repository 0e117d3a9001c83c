-- ===== src/Files.antt =====
-- Files (src/lua-eio.c): what the methods ask of the thread pool for files, and what its callbacks
-- give back to the coroutine that waits. The calls eio_* are outside: a call that is made is a
-- request, and a request that is done is a reply.
pub mod Octal
pub mod Paths
pub mod Handles
pub mod Done
pub mod Calls
use Prim.Native.String.{String}
use alilua_coevent_module.Prelude.{
  ℕ, ℤ, ◌-◌, Bool, List, [], ◌∷◌, Option, none, some, Bytes, if◌then◌else◌, ◌==◌,
}

-- An argument of a method; `file` is a userdata that holds a descriptor.
pub data Arg : Type 0 where
  absent : Arg
  flag : Bool → Arg
  number : ℤ → Arg
  string : Bytes → Arg
  file : ℤ → Arg
  other : Arg

-- Lua's conversions between strings and numbers.
pub record Conversions : Type 0 where
  pub numeral : Bytes → Option ℤ
  pub printed : ℤ → Bytes

-- The argument at a place, from 1; what is not there is no string, number or userdata.
abbrev pub arg : ℕ → List Arg → Arg
arg n [] = absent
arg n (a ∷ args) = if n == 1 then a else arg (n - 1) args

-- `lua_isnumber` and `lua_tonumber`
unfoldable pub lua_tonumber : Conversions → Arg → Option ℤ
lua_tonumber conv (number z) = some z
lua_tonumber conv (string s) = conv.numeral s
lua_tonumber conv absent = none
lua_tonumber conv (flag b) = none
lua_tonumber conv (file fd) = none
lua_tonumber conv other = none

-- `lua_isstring` and `lua_tolstring`
unfoldable pub lua_tostring : Conversions → Arg → Option Bytes
lua_tostring conv (number z) = some (conv.printed z)
lua_tostring conv (string s) = some s
lua_tostring conv absent = none
lua_tostring conv (flag b) = none
lua_tostring conv (file fd) = none
lua_tostring conv other = none

-- `lua_isuserdata` and the descriptor that `lua_touserdata` points to
unfoldable pub lua_touserdata : Arg → Option ℤ
lua_touserdata (file fd) = some fd
lua_touserdata absent = none
lua_touserdata (flag b) = none
lua_touserdata (number z) = none
lua_touserdata (string s) = none
lua_touserdata other = none

-- `O_RDONLY`, `O_APPEND | O_RDWR | O_CREAT` and `O_RDWR | O_CREAT`
pub data Flags : Type 0 where
  rdonly : Flags
  append : Flags
  rdwr : Flags

pub data Whence : Type 0 where
  seek_cur : Whence
  seek_set : Whence
  seek_end : Whence

-- The calls of the thread pool, with their arguments.
pub data Operation : Type 0 where
  eio_stat : Bytes → Operation
  eio_mkdir : Bytes → ℕ → Operation
  eio_readdir : Bytes → Operation
  eio_rename : Bytes → Bytes → Operation
  eio_chmod : Bytes → ℕ → Operation
  eio_unlink : Bytes → Operation
  eio_rmdir : Bytes → Operation
  eio_chown : Bytes → ℕ → ℕ → Operation
  eio_close : ℤ → Operation
  eio_read : ℤ → ℕ → ℤ → Operation
  eio_write : ℤ → Bytes → ℤ → Operation
  eio_seek : ℤ → ℤ → Whence → Operation
  eio_fsync : ℤ → Operation
  eio_open : Bytes → Flags → ℕ → Operation

-- The callbacks, `eio_res_cb` to `eio_open_cb`.
pub data Callback : Type 0 where
  res_cb : Callback
  readdir_cb : Callback
  stat_cb : Callback
  isdir_cb : Callback
  isfile_cb : Callback
  exists_cb : Callback
  read_cb : Callback
  seek_cb : Callback
  open_cb : Callback

-- A request: `waiter` is its `data`, the coroutine or NULL.
pub record Request : Type 0 where
  pub operation : Operation
  pub callback : Callback
  pub waiter : Option ℕ

-- `struct stat`
pub record Stat : Type 0 where
  pub st_dev : ℕ
  pub st_ino : ℕ
  pub st_mode : ℕ
  pub st_nlink : ℕ
  pub st_uid : ℕ
  pub st_gid : ℕ
  pub st_rdev : ℕ
  pub st_atime : ℕ
  pub st_mtime : ℕ
  pub st_ctime : ℕ
  pub st_size : ℕ

-- The table that `stat` returns; `mode` is a number and `kind` the text of the field `type`.
pub record Info : Type 0 where
  pub dev : ℕ
  pub ino : ℕ
  pub mode : ℕ
  pub kind : String
  pub nlink : ℕ
  pub uid : ℕ
  pub gid : ℕ
  pub rdev : ℕ
  pub access : ℕ
  pub modification : ℕ
  pub change : ℕ
  pub size : ℕ

-- Values for Lua: `error_text` is `strerror` of a number, `names` a table of file names, and `handle`
-- a new userdata with its descriptor.
pub data Value : Type 0 where
  nil : Value
  boolean : Bool → Value
  count : ℕ → Value
  bytes : Bytes → Value
  message : String → Value
  error_text : ℕ → Value
  names : List Bytes → Value
  info : Info → Value
  handle : ℤ → Value

-- What a method does: it returns values, or it yields its coroutine.
pub data Answer : Type 0 where
  returns : List Value → Answer
  yields : Answer

-- With the request that it makes, if any.
abbrev pub Made : Type 0
Made = Answer × Option Request

abbrev pub error_of : String → Made
error_of s = (returns (nil ∷ message s ∷ []), none)

-- A call of the thread pool with the coroutine as its data, and `return lua_yield(L, 0)`.
abbrev pub asks : ℕ → Callback → Operation → Made
asks l cb op = (yields, some (record { operation = op; callback = cb; waiter = some l }))
