-- ===== src/Files/Done.antt =====
-- The callbacks of the requests on files (src/lua-eio.c): which coroutine is resumed, with what.
pub mod Names
pub mod Modes
use Prim.Native.String.{String}
use alilua_coevent_module.Prelude.{
  c_string, ℕ, ℤ, pos, negsuc, zero, suc, ◌+◌, ◌/◌, ◌%◌, List, [], ◌∷◌, Option, none, some, Bytes,
  Bool, true, length, take, drop, if◌then◌else◌, ◌==◌,
}
use alilua_coevent_module.Files.{
  Callback, res_cb, readdir_cb, stat_cb, isdir_cb, isfile_cb, exists_cb, read_cb, seek_cb, open_cb,
  Request, Stat, Info, Value, nil, boolean, count, bytes, message, error_text, names, info, handle,
}
use alilua_coevent_module.Files.Octal.{sprintf_octal, atoi}

-- A request that is done: `result`, `errorno`, EIO_BUF, EIO_STAT_BUF and `offs`; and whether
-- `lua_newuserdata` gives memory.
pub record Reply : Type 0 where
  pub result : ℤ
  pub errorno : ℕ
  pub buf : Bytes
  pub stat_buf : Stat
  pub offs : ℕ
  pub userdata : Bool

-- `lua_f_lua_uthread_resume_in_c(L, n)` with the values pushed before it, once, not at all, or
-- before a write or a call through NULL.
pub data Woken : Type 0 where
  nobody : Woken
  woken : ℕ → List Value → Woken
  crashed : Woken

-- `nil`, the number of the error and its text
abbrev pub failure : Reply → List Value
failure e = nil ∷ count e.errorno ∷ error_text e.errorno ∷ []

-- What `eio_res_cb` pushes.
abbrev pub outcome : Reply → ℤ → List Value
outcome e (pos n) = boolean true ∷ []
outcome e (negsuc n) = failure e

unfoldable pub eio_res_cb : Option ℕ → Reply → Woken
eio_res_cb none e = nobody
eio_res_cb (some l) e = woken l (outcome e e.result)

-- The loop over the names, each behind the NUL of the one before.
unfoldable pub read_names : ℕ → Bytes → List Bytes
read_names zero buf = []
read_names (suc n) buf = c_string buf ∷ read_names n (drop (length (c_string buf) + 1) buf)

abbrev pub listing : Reply → ℤ → List Value
listing e (pos n) = names (read_names n e.buf) ∷ []
listing e (negsuc n) = failure e

unfoldable pub eio_readdir_cb : ℕ → Reply → Woken
eio_readdir_cb l e = woken l (listing e e.result)

-- The bits of a mode that say what a file is; the values are those of Linux: 8 for S_ISREG, 4 for
-- S_ISDIR, 10 for S_ISLNK, 12 for S_ISSOCK, 1 for S_ISFIFO, 2 for S_ISCHR and 6 for S_ISBLK.
unfoldable pub file_type : ℕ → ℕ
file_type mode = mode / 4096 % 16

unfoldable pub mode2string : ℕ → String
mode2string mode =
    let t = file_type mode in
    if t == 8
    then "file"
    else if t == 4
    then "directory"
    else if t == 10
    then "link"
    else if t == 12
    then "socket"
    else if t == 1
    then "named pipe"
    else if t == 2
    then "char device"
    else if t == 6
    then "block device"
    else "other"

-- `0xfff & info->st_mode` is printed as octal and read as decimal. The numbers of 64 bits become
-- `lua_Number`s, which hold them exactly below 2 ^ 53: they are given as they are.
unfoldable pub info_of : Stat → Info
info_of s = record {
  dev = s.st_dev;
  ino = s.st_ino;
  mode = atoi (sprintf_octal (s.st_mode % 4096));
  kind = mode2string s.st_mode;
  nlink = s.st_nlink;
  uid = s.st_uid;
  gid = s.st_gid;
  rdev = s.st_rdev;
  access = s.st_atime;
  modification = s.st_mtime;
  change = s.st_ctime;
  size = s.st_size;
}

-- The callbacks of `eio_stat` succeed for a result of 0 only.
abbrev pub if_zero : Reply → ℤ → Value → List Value
if_zero e (pos n) v = if n == 0 then v ∷ [] else failure e
if_zero e (negsuc n) v = failure e

unfoldable pub eio_stat_cb : ℕ → Reply → Woken
eio_stat_cb l e = woken l (if_zero e e.result (info (info_of e.stat_buf)))

unfoldable pub eio_stat_isdir_cb : ℕ → Reply → Woken
eio_stat_isdir_cb l e = woken l (if_zero e e.result (boolean (file_type e.stat_buf.st_mode == 4)))

unfoldable pub eio_stat_isfile_cb : ℕ → Reply → Woken
eio_stat_isfile_cb l e = woken l (if_zero e e.result (boolean (file_type e.stat_buf.st_mode == 8)))

unfoldable pub eio_stat_exists_cb : ℕ → Reply → Woken
eio_stat_exists_cb l e =
    let text = if file_type e.stat_buf.st_mode == 4 then message "dir" else message "file" in
    woken l (if_zero e e.result text)

abbrev pub content : Reply → ℤ → List Value
content e (pos n) = bytes (take n e.buf) ∷ []
content e (negsuc n) = failure e

unfoldable pub eio_read_cb : ℕ → Reply → Woken
eio_read_cb l e = woken l (content e e.result)

abbrev pub position : Reply → ℤ → List Value
position e (pos n) = count e.offs ∷ []
position e (negsuc n) = failure e

unfoldable pub eio_seek_cb : ℕ → Reply → Woken
eio_seek_cb l e = woken l (position e e.result)

-- Without memory the coroutine is resumed with an error, and then `*efd` is written.
abbrev pub opening : ℕ → Reply → ℤ → Woken
opening l e (pos fd) = if e.userdata then woken l (handle (pos fd) ∷ []) else crashed
opening l e (negsuc n) = woken l (failure e)

unfoldable pub eio_open_cb : ℕ → Reply → Woken
eio_open_cb l e = opening l e e.result

-- The callback with the coroutine that is its data; only `eio_res_cb` expects NULL.
abbrev pub with_waiter : Option ℕ → (ℕ → Woken) → Woken
with_waiter none f = crashed
with_waiter (some l) f = f l

abbrev pub called_back : Callback → Option ℕ → Reply → Woken
called_back res_cb w e = eio_res_cb w e
called_back readdir_cb w e = with_waiter w (λ l. eio_readdir_cb l e)
called_back stat_cb w e = with_waiter w (λ l. eio_stat_cb l e)
called_back isdir_cb w e = with_waiter w (λ l. eio_stat_isdir_cb l e)
called_back isfile_cb w e = with_waiter w (λ l. eio_stat_isfile_cb l e)
called_back exists_cb w e = with_waiter w (λ l. eio_stat_exists_cb l e)
called_back read_cb w e = with_waiter w (λ l. eio_read_cb l e)
called_back seek_cb w e = with_waiter w (λ l. eio_seek_cb l e)
called_back open_cb w e = with_waiter w (λ l. eio_open_cb l e)

-- A request is done: its callback runs.
unfoldable pub complete : Request → Reply → Woken
complete r e = called_back r.callback r.waiter e
