-- ===== src/Logs.antt =====
-- Logging (src/lua-log.c): `lua_f_log` puts its arguments into a buffer, `lua_f_open_log` changes the
-- log file. The log itself, in the merry library, is outside.
pub mod Room
pub mod Handle
mod Examples
use alilua_coevent_module.Prelude.{
  ℕ, ℤ, ◌+◌, ◌-◌, ◌<◌, Bool, true, false, ◌&&◌, List, [], ◌∷◌, ◌++◌, Option, none, some, Bytes,
  length, drop, if◌then◌else◌, ltb,
}
use alilua_coevent_module.LuaTable.{
  Table, true_text, false_text, nil_text, lua_calc_strlen_in_table, lua_copy_str_in_table,
}

-- An argument: `number` is a number, or a string that Lua takes for one, with its text; `other` is a
-- value without text, for which `lua_tolstring` gives NULL and the length 0.
pub data Arg : Type 0 where
  flag : Bool → Arg
  nil : Arg
  number : ℤ → Bytes → Arg
  text : Bytes → Arg
  table : Table → Arg
  other : Arg

-- The size of `tbuf`.
abbrev pub tbuf_size : ℕ
tbuf_size = 8192

-- The bytes of an argument without its tab, and the room that the code asks for, the tab included.
abbrev pub bytes_of : Arg → Bytes
bytes_of (flag true) = true_text
bytes_of (flag false) = false_text
bytes_of nil = nil_text
bytes_of (number z s) = s
bytes_of (text s) = s
bytes_of (table t) = []
bytes_of other = []

abbrev pub needed : Arg → ℕ
needed (flag b) = 6
needed nil = 4
needed (number z s) = length s + 1
needed (text s) = length s + 1
needed (table t) = 1
needed other = 1

-- The loop over the arguments, with what `buf` holds below `blen`; it breaks where one does not fit.
unfoldable pub log_loop : List Arg → Bytes → Bytes
log_loop [] buf = buf
log_loop (a ∷ args) buf =
    let rest = log_loop args (buf ++ (bytes_of a ++ (b'\t' ∷ []))) in
    if ltb tbuf_size (length buf + needed a) then buf else rest

-- What a call does: nothing, an error of Lua, or a line for the log with its level. The line is
-- written, with a NUL behind it, into a buffer of `room` bytes.
pub data Logged : Type 0 where
  silent : Logged
  raises : Logged
  line : ℤ → Bytes → ℕ → Logged

-- The copy of a table into a buffer of `room` bytes.
abbrev pub logged : ℤ → ℕ → Option Bytes → Logged
logged level room none = raises
logged level room (some s) = line level s room

-- The branch for a table; `allocated` says whether `malloc` succeeds.
unfoldable pub log_table : Bool → ℤ → Table → Logged
log_table allocated level t = elim (lua_calc_strlen_in_table false t) [
  | none ↦ raises
  | some blen ↦
      if ltb blen 1
      then silent
      else if ltb tbuf_size blen
      then (if allocated then logged level blen (lua_copy_str_in_table t) else silent)
      else logged level tbuf_size (lua_copy_str_in_table t)
]

-- Both branches, for the arguments from `gn` on.
unfoldable pub log_from : Bool → ℤ → List Arg → Logged
log_from allocated level [] = line level (log_loop [] []) tbuf_size
log_from allocated level (table t ∷ args) = log_table allocated level t
log_from allocated level (flag b ∷ args) = line level (log_loop (flag b ∷ args) []) tbuf_size
log_from allocated level (nil ∷ args) = line level (log_loop (nil ∷ args) []) tbuf_size
log_from allocated level (number z s ∷ args) =
    line level (log_loop (number z s ∷ args) []) tbuf_size
log_from allocated level (text s ∷ args) = line level (log_loop (text s ∷ args) []) tbuf_size
log_from allocated level (other ∷ args) = line level (log_loop (other ∷ args) []) tbuf_size

-- `level` and `gn`: a number in front of other arguments is the level; `warn` is the default.
unfoldable pub level_of : ℤ → List Arg → ℤ × List Arg
level_of warn (number z s ∷ (a ∷ args)) = (z, a ∷ args)
level_of warn args = (warn, args)

-- `lua_f_log`; `source` says whether `lua_getinfo` gives a source.
unfoldable pub lua_f_log : Bool → Bool → ℤ → List Arg → Logged
lua_f_log source allocated warn args =
    let r = level_of warn args in if source then log_from allocated r.0 r.1 else silent

-- `LOGF_T`, by the number of an opened log, and the logs that `log_destory` was called with, newest
-- first.
pub record LogFile : Type 0 where
  pub current : Option ℕ
  pub destroyed : List ℕ

-- What `lua_f_open_log` returns: an error for a path that is no string, or whether a log was opened.
pub data Opened : Type 0 where
  need_filepath : Opened
  is_open : Bool → Opened

abbrev pub destroy : LogFile → List ℕ
destroy f = elim f.current [ none ↦ f.destroyed | some n ↦ n ∷ f.destroyed ]

abbrev is_some : Option ℕ → Bool
is_some none = false
is_some (some n) = true

-- `lua_f_open_log`; `path` is the first argument, if a string, and `opened` what `open_log` gives.
unfoldable pub lua_f_open_log : Option Bytes → Option ℕ → LogFile → Opened × LogFile
lua_f_open_log none opened f = (need_filepath, f)
lua_f_open_log (some path) opened f =
    (is_open (is_some opened), record { current = opened; destroyed = destroy f })

-- `on_exit_handler`
unfoldable pub on_exit_handler : LogFile → LogFile
on_exit_handler f = record { current = none; destroyed = destroy f }
