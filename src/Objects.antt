-- ===== src/Objects.antt =====
-- The objects of udp and tcp (src/coevent.c): how a cosocket is made, and what is udp's own.
pub mod Peer
mod Examples
use alilua_coevent_module.Prelude.{
  c_string, ℕ, pos, Bool, true, false, not, ◌&&◌, List, [], ◌∷◌, ◌++◌, Option, none, some, Bytes,
  if◌then◌else◌,
}
use alilua_coevent_module.Pool.{Event}
use alilua_coevent_module.Cosocket.{
  Cosocket, World, boolean, Answer, returns, error_of, se_delete, close, called, with_cok, close_fd,
}

-- A cosocket of zeros, but for the coroutine, `fd` and `timeout`, which both constructors set.
unfoldable pub new_cosocket : ℕ → Bool → Cosocket
new_cosocket l use_ssl = record {
  fd = none;
  use_ssl = use_ssl;
  in_read_action = false;
  pool_wait = none;
  ctx = none;
  ssl_pw = none;
  ssl_sign = 0;
  ssl = none;
  ptr = none;
  co = l;
  send_buf = [];
  send_buf_len = 0;
  send_buf_ed = 0;
  send_buf_need_free = false;
  read_buf = record { chunks = []; total_buf_len = 0; buf_read_len = 0 };
  status = 0;
  timeout = pos 30000;
  timeout_ptr = false;
  pool_size = 0;
  reusedtimes = 0;
  pool_key = 0;
  inuse = false;
}

-- `lua_co_udp` from coroutine `l`. `secure` says that the first argument is `true`; there is memory.
unfoldable pub lua_co_udp : ℕ → Bool → Cosocket
lua_co_udp l secure = new_cosocket l secure

-- What the outside decides on a certificate: `SSL_CTX_new`, `malloc` for the password, and whether
-- OpenSSL takes the certificate, the key, and both together.
pub record Certified : Type 0 where
  pub ctx_new : Option ℕ
  pub password : Option ℕ
  pub certificate_ok : Bool
  pub key_ok : Bool
  pub check_ok : Bool
  pub fnv1a_32 : Bytes → ℕ

-- A new cosocket; or an error, which the code pushes to the field `L` of the cosocket, not yet set.
pub data Made : Type 0 where
  made : Cosocket → Made
  pushed_to_null : Made

-- The text whose hash is `ssl_sign`, for a text that fits the buffer of 4096 bytes.
unfoldable pub sign_text : Bytes → Bytes → Option Bytes → Bytes
sign_text certificate key none = c_string certificate ++ b':' ∷ c_string key ++ b':' ∷ []
sign_text certificate key (some p) =
    c_string certificate ++ b':' ∷ c_string key ++ b':' ∷ c_string p

-- The branch of `lua_co_tcp` with a certificate and a key.
unfoldable pub tcp_with : Certified → ℕ → Bytes → Bytes → Option Bytes → Option ℕ → Made
tcp_with o l certificate key password none = pushed_to_null
tcp_with o l certificate key password (some ctx) =
    let pw : Option ℕ = elim password [ none ↦ none | some p ↦ o.password ] in
    let c = record (new_cosocket l true) {
      ctx = some ctx;
      ssl_pw = pw;
      ssl_sign = o.fnv1a_32 (sign_text certificate key password);
    } in
    if o.certificate_ok && (o.key_ok && o.check_ok) then made c else pushed_to_null

-- `lua_co_tcp` from coroutine `l`: `files` are the certificate, the key and the password, if the
-- first two arguments are strings; else `secure` says that the first is `true`. There is memory.
unfoldable pub lua_co_tcp : Certified → ℕ → Option (Bytes × (Bytes × Option Bytes)) → Bool → Made
lua_co_tcp o l none secure = made (new_cosocket l secure)
lua_co_tcp o l (some (certificate, (key, password))) secure =
    tcp_with o l certificate key password o.ctx_new

-- What the outside decides on a peer: whether the port is a number, whether the host has an address,
-- the results of `socket` and `se_set_nonblocking`, and the event of `se_add`.
pub record Peered : Type 0 where
  pub port_given : Bool
  pub resolved : Bool
  pub socket : Option ℕ
  pub nonblocking : Bool
  pub event : ℕ

-- `if(cok->fd > -1) { se_delete; ptr = NULL; close }`: the field `fd` keeps its value.
unfoldable pub close_old : World → World
close_old w = elim w.cok.fd [
  | none ↦ w
  | some fd ↦
      let w' = called (se_delete w.cok.ptr) w in
      called (close fd) (with_cok w' (record (w'.cok) { ptr = none }))
]

-- `socket` and what follows it.
unfoldable pub open_peer : Peered → Option ℕ → World → Answer × World
open_peer o none w = (error_of "Connect Error!", w)
open_peer o (some fd) w =
    let event : Event = record { id = o.event; fd = fd } in
    if not o.nonblocking then (error_of "Connect Error!", called (close fd) w) else (
      returns (boolean true ∷ []),
      with_cok w (record (w.cok) { ptr = some event; fd = some fd; status = 2 }),
    )

-- `lua_co_dup_setpeername`; `ok` says that the arguments are a userdata and a string.
unfoldable pub lua_co_dup_setpeername : Bool → Peered → World → Answer × World
lua_co_dup_setpeername ok o w =
    let w' = close_old w in
    if not ok
    then (error_of "Error params!", w)
    else if not o.port_given
    then (returns [], w')
    else if not o.resolved
    then (error_of "Nslookup Error!", w')
    else open_peer o o.socket w'

-- `lua_co_udp_send`: `sent` says that `sendto` does not fail.
unfoldable pub lua_co_udp_send : Bool → Bool → World → Answer
lua_co_udp_send ok sent w = elim w.cok.fd [
  | none ↦ if not ok then error_of "Error params!" else error_of "Not Connected!"
  | some fd ↦
      if not ok
      then error_of "Error params!"
      else if not sent
      then error_of "Send Error!"
      else returns (boolean true ∷ [])
]
