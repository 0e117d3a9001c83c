-- ===== src/Files/Done/Modes.antt =====
-- Modes (src/lua-eio.c): from what `stat` says to what `chmod` and `mkdir` ask for.
use alilua_coevent_module.Prelude.{c_string, ℕ, pos, ◌%◌, ◌≡◌, refl, [], ◌∷◌, Bytes}
use alilua_coevent_module.Files.{
  number, string, Conversions, lua_tonumber, lua_tostring, res_cb, eio_chmod, eio_mkdir, asks, info,
}
use alilua_coevent_module.Files.Octal.Inverse.{oct2decimal-sprintf_octal}
use alilua_coevent_module.Files.Paths.{mode_of, lua_f_eio_chmod, lua_f_eio_mkdir}
use alilua_coevent_module.Files.Done.{Reply, woken, info_of, eio_stat_cb}

-- `stat` gives a table for a file whose `mode`, passed to `chmod` or `mkdir` as it is, asks for the
-- twelve bits of the file's mode.
pub eio_stat_cb-chmod :
    (conv : Conversions) (l k : ℕ) (e : Reply) (path : Bytes)
    → e.result ≡ pos 0
    → let i = info_of e.stat_buf in
      let bits = e.stat_buf.st_mode % 4096 in
      let args = string path ∷ number (pos i.mode) ∷ [] in
      (eio_stat_cb l e ≡ woken l (info i ∷ []))
      × (lua_f_eio_chmod conv k args ≡ asks k res_cb (eio_chmod (c_string path) bits))
      × (lua_f_eio_mkdir conv k args ≡ asks k res_cb (eio_mkdir (c_string path) bits))
unfolding eio_stat_cb info_of lua_f_eio_chmod lua_f_eio_mkdir mode_of lua_tonumber lua_tostring
eio_stat_cb-chmod conv l k e path h = (
  rw h refl,
  rw (oct2decimal-sprintf_octal (e.stat_buf.st_mode % 4096), lua_f_eio_chmod) refl,
  rw (oct2decimal-sprintf_octal (e.stat_buf.st_mode % 4096), lua_f_eio_mkdir) refl,
)
