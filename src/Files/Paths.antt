-- ===== src/Files/Paths.antt =====
-- The functions of the table `eio` (src/lua-eio.c), which take paths. `l` is the coroutine that calls.
use Prim.Native.String.{String}
use alilua_coevent_module.Prelude.{
  c_string, ℕ, ℤ, pos, negsuc, ◌-◌, ◌^◌, ◌%◌, List, [], ◌∷◌, Option, none, some, Bytes,
  if◌then◌else◌, ◌==◌,
}
use alilua_coevent_module.Files.{
  Arg, Conversions, arg, lua_tonumber, lua_tostring, Flags, rdonly, append, rdwr, Callback, res_cb,
  readdir_cb, stat_cb, isdir_cb, isfile_cb, exists_cb, open_cb, Operation, eio_stat, eio_mkdir,
  eio_readdir, eio_rename, eio_chmod, eio_unlink, eio_rmdir, eio_chown, eio_open, Made, error_of,
  asks,
}
use alilua_coevent_module.Files.Octal.{oct2decimal}

-- The functions that take one path and nothing else: the path as a string, or "Error params!".
abbrev pub with_path : Conversions → ℕ → List Arg → Callback → (Bytes → Operation) → Made
with_path conv l args cb op = elim (lua_tostring conv (arg 1 args)) [
  | none ↦ error_of "Error params!"
  | some path ↦ asks l cb (op (c_string path))
]

unfoldable pub lua_f_eio_isdir : Conversions → ℕ → List Arg → Made
lua_f_eio_isdir conv l args = with_path conv l args isdir_cb eio_stat

unfoldable pub lua_f_eio_isfile : Conversions → ℕ → List Arg → Made
lua_f_eio_isfile conv l args = with_path conv l args isfile_cb eio_stat

unfoldable pub lua_f_eio_exists : Conversions → ℕ → List Arg → Made
lua_f_eio_exists conv l args = with_path conv l args exists_cb eio_stat

unfoldable pub lua_f_eio_readdir : Conversions → ℕ → List Arg → Made
lua_f_eio_readdir conv l args = with_path conv l args readdir_cb eio_readdir

unfoldable pub lua_f_eio_unlink : Conversions → ℕ → List Arg → Made
lua_f_eio_unlink conv l args = with_path conv l args res_cb eio_unlink

unfoldable pub lua_f_eio_rmdir : Conversions → ℕ → List Arg → Made
lua_f_eio_rmdir conv l args = with_path conv l args res_cb eio_rmdir

unfoldable pub lua_f_eio_stat : Conversions → ℕ → List Arg → Made
lua_f_eio_stat conv l args = with_path conv l args stat_cb eio_stat

unfoldable pub lua_f_eio_rename : Conversions → ℕ → List Arg → Made
lua_f_eio_rename conv l args = elim (lua_tostring conv (arg 1 args)) [
  | none ↦ error_of "Error params!"
  | some path ↦ elim (lua_tostring conv (arg 2 args)) [
    | none ↦ error_of "Error params!"
    | some new_path ↦ asks l res_cb (eio_rename (c_string path) (c_string new_path))
  ]
]

-- `mode`, a default or what `oct2decimal` gives for a number; `none` is below 0.
unfoldable pub mode_of : Conversions → ℕ → Arg → Option ℕ
mode_of conv default a = elim (lua_tonumber conv a) [ none ↦ some default | some z ↦ oct2decimal z ]

-- 0700 is 448, 0600 is 384 and 0644 is 420.
unfoldable pub lua_f_eio_mkdir : Conversions → ℕ → List Arg → Made
lua_f_eio_mkdir conv l args = elim (lua_tostring conv (arg 1 args)) [
  | none ↦ error_of "Error params!"
  | some path ↦ elim (mode_of conv 448 (arg 2 args)) [
    | none ↦ error_of "Invalid mode for mkdir()"
    | some mode ↦ asks l res_cb (eio_mkdir (c_string path) mode)
  ]
]

unfoldable pub lua_f_eio_chmod : Conversions → ℕ → List Arg → Made
lua_f_eio_chmod conv l args = elim (lua_tostring conv (arg 1 args)) [
  | none ↦ error_of "Error params!"
  | some path ↦ elim (mode_of conv 384 (arg 2 args)) [
    | none ↦ error_of "Invalid mode for chmod()"
    | some mode ↦ asks l res_cb (eio_chmod (c_string path) mode)
  ]
]

-- `om` and the flags that it stands for, by the first byte.
unfoldable pub flags_of : Option Bytes → Flags
flags_of none = rdonly
flags_of (some []) = rdonly
flags_of (some (b ∷ s)) = if b == b'w' then rdwr else if b == b'a' then append else rdonly

unfoldable pub lua_f_eio_open : Conversions → ℕ → List Arg → Made
lua_f_eio_open conv l args = elim (lua_tostring conv (arg 1 args)) [
  | none ↦ error_of "Error params!"
  | some path ↦ elim (mode_of conv 420 (arg 3 args)) [
    | none ↦ error_of "Invalid mode for open()"
    | some mode ↦
        asks l open_cb (eio_open (c_string path) (flags_of (lua_tostring conv (arg 2 args))) mode)
  ]
]

-- The users of the system: `getpwnam` gives `pw_uid` and `pw_gid`.
pub record Users : Type 0 where
  pub getpwnam : Bytes → Option (ℕ × ℕ)
  pub getuid : ℕ
  pub getgid : ℕ

-- `(uid_t)` and `(gid_t)` of a number
unfoldable pub to_uid : ℤ → ℕ
to_uid (pos n) = n % 2 ^ 32
to_uid (negsuc n) = 2 ^ 32 - 1 - n % 2 ^ 32

-- A user or a group, or the message of an error.
pub data Found : Type 0 where
  found : ℕ → Found
  refused : String → Found

abbrev chown_usage : String
chown_usage = "Error params! chown(string, string|int, [string|int])"

-- `owner`, from the second argument
unfoldable pub owner_of : Conversions → Users → List Arg → Found
owner_of conv users args = elim (lua_tonumber conv (arg 2 args)) [
  | some z ↦ found (to_uid z)
  | none ↦ elim (lua_tostring conv (arg 2 args)) [
    | none ↦ refused chown_usage
    | some name ↦ elim (users.getpwnam (c_string name)) [
      | none ↦ refused "User not found in passwd"
      | some p ↦ found p.0
    ]
  ]
]

-- `group`: the third argument is tested, but a number is read from the second.
unfoldable pub group_of : Conversions → Users → List Arg → Found
group_of conv users args = elim (lua_tonumber conv (arg 3 args)) [
  | some _ ↦ elim (lua_tonumber conv (arg 2 args)) [ some z ↦ found (to_uid z) | none ↦ found 0 ]
  | none ↦ elim (lua_tostring conv (arg 3 args)) [
    | none ↦ found users.getgid
    | some name ↦ elim (users.getpwnam (c_string name)) [
      | none ↦ refused "User not found in passwd"
      | some p ↦ found p.1
    ]
  ]
]

unfoldable pub lua_f_eio_chown : Conversions → Users → ℕ → List Arg → Made
lua_f_eio_chown conv users l args = elim (lua_tostring conv (arg 1 args)) [
  | none ↦ error_of chown_usage
  | some path ↦ elim (owner_of conv users args) [
    | refused s ↦ error_of s
    | found owner ↦ elim (group_of conv users args) [
      | refused s ↦ error_of s
      | found group ↦ asks l res_cb (eio_chown (c_string path) owner group)
    ]
  ]
]
