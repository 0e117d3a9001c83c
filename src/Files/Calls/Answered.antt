-- ===== src/Files/Calls/Answered.antt =====
-- How the calls on files (src/lua-eio.c) end: at once, or with a request of their coroutine.
use Prim.Native.String.{String}
use alilua_coevent_module.Prelude.{
  c_string, by_test, ℕ, ℤ, pos, negsuc, List, [], ◌∷◌, Option, none, some, All, Bytes, ◌==◌,
}
use alilua_coevent_module.Files.{
  Arg, absent, flag, number, string, file, other, Conversions, arg, lua_tonumber, lua_tostring,
  lua_touserdata, Operation, Callback, res_cb, readdir_cb, stat_cb, isdir_cb, isfile_cb, exists_cb,
  open_cb, Made, error_of, asks, eio_stat, eio_readdir, eio_unlink, eio_rmdir, eio_mkdir, eio_chmod,
  eio_open,
}
use alilua_coevent_module.Files.Paths.{
  Users, with_path, Found, found, refused, owner_of, group_of, mode_of, flags_of, lua_f_eio_isdir,
  lua_f_eio_isfile, lua_f_eio_exists, lua_f_eio_readdir, lua_f_eio_unlink, lua_f_eio_rmdir,
  lua_f_eio_stat, lua_f_eio_rename, lua_f_eio_mkdir, lua_f_eio_chmod, lua_f_eio_chown,
  lua_f_eio_open,
}
use alilua_coevent_module.Files.Handles.{
  close_or_wait, if_open, read_length, lua_f_eio_close, lua_f_eio_read, lua_f_eio_write,
  lua_f_eio_seek, lua_f_eio_sync,
}
use alilua_coevent_module.Files.Calls.{
  Method, mkdir, stat, chown, chmod, unlink, rmdir, rename, readdir, isdir, isfile, exists,
  open_file, write, read, seek, sync, close, call, files_of,
}

-- `nil` and a message at once, with no request; or one request with the coroutine as its data, which
-- yields.
pub data IsAnswered (l : ℕ) : Made → Type 0 where
  refuses : (s : String) → IsAnswered l (error_of s)
  waits : (cb : Callback) (op : Operation) → IsAnswered l (asks l cb op)

abbrev pub IsOpen : ℤ → Type 0
IsOpen (pos n) = Unit
IsOpen (negsuc n) = ⊥

-- A method answers if it does so for either outcome of what it looks up.
on_option {ℓ} :
    {A : Type ℓ} (l : ℕ) (n : Made) (s : A → Made) (o : Option A)
    → IsAnswered l n
    → ((a : A) → IsAnswered l (s a))
    → IsAnswered l (elim o [ none ↦ n | some a ↦ s a ])
on_option l n s none hn hs = hn
on_option l n s (some a) hn hs = hs a

with_path-IsAnswered :
    (conv : Conversions) (l : ℕ) (args : List Arg) (cb : Callback) (op : Bytes → Operation)
    → IsAnswered l (with_path conv l args cb op)
with_path-IsAnswered conv l args cb op =
    on_option l _ _ (lua_tostring conv (arg 1 args)) (refuses _) (λ p. waits _ _)

-- A path and a mode.
with_mode-IsAnswered :
    (conv : Conversions) (l : ℕ) (args : List Arg) (e : String) (mode : Option ℕ) (cb : Callback)
    (op : Bytes → ℕ → Operation)
    → IsAnswered l (elim (lua_tostring conv (arg 1 args)) [
      | none ↦ error_of "Error params!"
      | some path ↦ elim mode [ none ↦ error_of e | some n ↦ asks l cb (op (c_string path) n) ]
    ])
with_mode-IsAnswered conv l args e mode cb op =
    on_option l _ _ (lua_tostring conv (arg 1 args)) (refuses _)
      (λ path. on_option l _ _ mode (refuses _) (λ n. waits _ _))

on_found :
    (l : ℕ) (r : String → Made) (s : ℕ → Made) (o : Found)
    → ((e : String) → IsAnswered l (r e))
    → ((n : ℕ) → IsAnswered l (s n))
    → IsAnswered l (elim o [ refused e ↦ r e | found n ↦ s n ])
on_found l r s (found n) hr hs = hs n
on_found l r s (refused e) hr hs = hr e

chown-IsAnswered :
    (conv : Conversions) (users : Users) (l : ℕ) (args : List Arg)
    → IsAnswered l (lua_f_eio_chown conv users l args)
unfolding lua_f_eio_chown
chown-IsAnswered conv users l args =
    on_option l _ _ (lua_tostring conv (arg 1 args)) (refuses _) λ path.
      on_found l _ _ (owner_of conv users args) (λ e. refuses e)
        λ owner. on_found l _ _ (group_of conv users args) (λ e. refuses e) (λ group. waits _ _)

close-IsAnswered :
    (l : ℕ) (args : List Arg) → All IsOpen (files_of args) → IsAnswered l (lua_f_eio_close l args)
unfolding lua_f_eio_close lua_touserdata close_or_wait
close-IsAnswered l [] h = refuses _
close-IsAnswered l (absent ∷ args) h = refuses _
close-IsAnswered l (flag b ∷ args) h = refuses _
close-IsAnswered l (number z ∷ args) h = refuses _
close-IsAnswered l (string s ∷ args) h = refuses _
close-IsAnswered l (other ∷ args) h = refuses _
close-IsAnswered l (file (pos n) ∷ args) h = waits _ _
close-IsAnswered l (file (negsuc n) ∷ args) h = absurd h.0

if_open-IsAnswered : (l : ℕ) (fd : ℤ) (m : Made) → IsAnswered l m → IsAnswered l (if_open fd m)
unfolding if_open
if_open-IsAnswered l (pos n) m h = h
if_open-IsAnswered l (negsuc n) m h = refuses _

read_length-IsAnswered : (l : ℕ) (fd z offset : ℤ) → IsAnswered l (read_length l fd z offset)
unfolding read_length
read_length-IsAnswered l fd (pos n) offset =
    by_test (IsAnswered l) (n == 0) _ _ (refuses _) (waits _ _)
read_length-IsAnswered l fd (negsuc n) offset = refuses _

read-IsAnswered :
    (conv : Conversions) (l : ℕ) (args : List Arg) → IsAnswered l (lua_f_eio_read conv l args)
unfolding lua_f_eio_read
read-IsAnswered conv l args =
    on_option l _ _ (lua_touserdata (arg 1 args)) (refuses _)
      (λ fd. if_open-IsAnswered l fd _ (read_length-IsAnswered l fd _ _))

write-IsAnswered :
    (conv : Conversions) (l : ℕ) (args : List Arg) → IsAnswered l (lua_f_eio_write conv l args)
unfolding lua_f_eio_write
write-IsAnswered conv l args =
    on_option l _ _ (lua_touserdata (arg 1 args)) (refuses _)
      λ fd. if_open-IsAnswered l fd _ (by_test (IsAnswered l) _ _ _ (refuses _) (waits _ _))

seek-IsAnswered :
    (conv : Conversions) (l : ℕ) (args : List Arg) → IsAnswered l (lua_f_eio_seek conv l args)
unfolding lua_f_eio_seek
seek-IsAnswered conv l args = on_option l _ _ (lua_touserdata (arg 1 args)) (refuses _) λ fd.
    on_option l _ _ (lua_tonumber conv (arg 2 args)) (refuses _) λ z.
      on_option l _ _ (lua_tostring conv (arg 3 args)) (refuses _)
        λ whence. if_open-IsAnswered l fd _ (by_test (IsAnswered l) _ _ _ (refuses _) (waits _ _))

-- Every function and method of files either returns nil and a message and makes no request, or makes
-- one request, with the calling coroutine as its data, and suspends that coroutine. The descriptors
-- of the handles among the arguments are not negative.
pub call-IsAnswered :
    (conv : Conversions) (users : Users) (m : Method) (l : ℕ) (args : List Arg)
    → All IsOpen (files_of args)
    → IsAnswered l (call conv users m l args)
unfolding call lua_f_eio_isdir lua_f_eio_isfile lua_f_eio_exists lua_f_eio_readdir lua_f_eio_unlink
    lua_f_eio_rmdir lua_f_eio_stat lua_f_eio_rename lua_f_eio_mkdir lua_f_eio_chmod lua_f_eio_open
    lua_f_eio_sync
call-IsAnswered conv users isdir l args h = with_path-IsAnswered conv l args isdir_cb eio_stat
call-IsAnswered conv users isfile l args h = with_path-IsAnswered conv l args isfile_cb eio_stat
call-IsAnswered conv users exists l args h = with_path-IsAnswered conv l args exists_cb eio_stat
call-IsAnswered conv users readdir l args h =
    with_path-IsAnswered conv l args readdir_cb eio_readdir
call-IsAnswered conv users unlink l args h = with_path-IsAnswered conv l args res_cb eio_unlink
call-IsAnswered conv users rmdir l args h = with_path-IsAnswered conv l args res_cb eio_rmdir
call-IsAnswered conv users stat l args h = with_path-IsAnswered conv l args stat_cb eio_stat
call-IsAnswered conv users rename l args h =
    on_option l _ _ (lua_tostring conv (arg 1 args)) (refuses _)
      λ path. on_option l _ _ (lua_tostring conv (arg 2 args)) (refuses _) (λ new_path. waits _ _)
call-IsAnswered conv users mkdir l args h =
    with_mode-IsAnswered conv l args _ (mode_of conv 448 (arg 2 args)) res_cb eio_mkdir
call-IsAnswered conv users chmod l args h =
    with_mode-IsAnswered conv l args _ (mode_of conv 384 (arg 2 args)) res_cb eio_chmod
call-IsAnswered conv users open_file l args h =
    with_mode-IsAnswered conv l args _ (mode_of conv 420 (arg 3 args)) open_cb
      (λ p n. eio_open p (flags_of (lua_tostring conv (arg 2 args))) n)
call-IsAnswered conv users chown l args h = chown-IsAnswered conv users l args
call-IsAnswered conv users write l args h = write-IsAnswered conv l args
call-IsAnswered conv users read l args h = read-IsAnswered conv l args
call-IsAnswered conv users seek l args h = seek-IsAnswered conv l args
call-IsAnswered conv users sync l args h =
    on_option l _ _ (lua_touserdata (arg 1 args)) (refuses _)
      (λ fd. if_open-IsAnswered l fd _ (waits _ _))
call-IsAnswered conv users close l args h = close-IsAnswered l args h
