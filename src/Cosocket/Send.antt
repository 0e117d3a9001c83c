-- ===== src/Cosocket/Send.antt =====
-- Sending on a cosocket (src/coevent.c): `cosocket_be_write`, which the event loop calls, and the
-- method `send`.
pub mod History
pub mod Method
mod Examples
use Prim.Native.String.{String}
use alilua_coevent_module.Prelude.{
  ℕ, ◌+◌, ◌-◌, Bool, true, false, not, ◌&&◌, ◌||◌, List, [], ◌∷◌, ◌++◌, Option, none, some, Bytes,
  length, take, drop, if◌then◌else◌, ◌==◌, ltb, leb,
}
use alilua_coevent_module.LuaTable.{Table, lua_calc_strlen_in_table, lua_copy_str_in_table}
use alilua_coevent_module.Cosocket.{
  Cosocket, World, Value, nil, boolean, number, message, Answer, returns, yields, error_of, Resume,
  with_cok, hang_up, hang_up_uncounted,
}
use alilua_coevent_module.Cosocket.Receive.{is_none}

-- One call of `send` or `SSL_write`: the number of bytes taken, an error, or EAGAIN.
pub data Sent : Type 0 where
  sent : ℕ → Sent
  failed again : Sent

unfoldable pub is_failed : Sent → Bool
is_failed (sent n) = false
is_failed failed = true
is_failed again = false

-- What the loop leaves: `send_buf_ed`, the bytes that the system took, and the last result.
pub record Progress : Type 0 where
  pub ed : ℕ
  pub wire : Bytes
  pub last : Sent

abbrev pub on_wire : Bytes → Progress → Progress
on_wire s r = record r { wire = s ++ r.wire }

-- The loop over `send`, which takes the bytes from `send_buf + send_buf_ed` on. It ends when the
-- result is not positive. A list that ends stands for EAGAIN.
unfoldable pub write_loop : List Sent → Bytes → ℕ → Progress
write_loop [] buf ed = record { ed = ed; wire = []; last = again }
write_loop (failed ∷ es) buf ed = record { ed = ed; wire = []; last = failed }
write_loop (again ∷ es) buf ed = record { ed = ed; wire = []; last = again }
write_loop (sent n ∷ es) buf ed =
    let rest = write_loop es buf (ed + n) in
    if n == 0
    then record { ed = ed; wire = []; last = sent 0 }
    else on_wire (take n (drop ed buf)) rest

-- What `cosocket_be_write` gives: the number of bytes left; values for the coroutine, which it
-- resumes; or values that it pushed, their number negated.
pub data Written : Type 0 where
  pending : ℕ → Written
  wakes : List Value → Written
  finished : List Value → Written

-- The values pushed at the end.
unfoldable pub written_values : Cosocket → List Value
unfolding is_none
written_values c =
    if leb c.send_buf_len c.send_buf_ed
    then number c.send_buf_ed ∷ []
    else if is_none c.fd
    then nil ∷ message "connection closed!" ∷ []
    else boolean false ∷ []

-- `cosocket_be_write`, everything sent or failed.
unfoldable pub finish_write : Bool → World → Written × World
unfolding hang_up written_values
finish_write broken w =
    let h = hang_up w in
    let w1 = if broken then with_cok h (record (h.cok) { send_buf_ed = 0 }) else w in
    let w2 = with_cok w1 (record (w1.cok) { send_buf_need_free = false; timeout_ptr = false }) in
    let vs = written_values w2.cok in
    if w2.cok.inuse
    then (wakes vs, with_cok w2 (record (w2.cok) { inuse = false }))
    else (finished vs, w2)

-- `cosocket_be_write` up to the resumption, and the bytes that it sent. The bytes left are a size_t in
-- the source, passed on as an int: for buffers below 2 ^ 31 bytes they are the same.
unfoldable pub be_write_state : List Sent → World → Bytes × (Written × World)
unfolding write_loop finish_write is_failed
be_write_state es w =
    let r = write_loop es w.cok.send_buf w.cok.send_buf_ed in
    let w1 = with_cok w (record (w.cok) { in_read_action = false; send_buf_ed = r.ed }) in
    let left = w.cok.send_buf_len - r.ed in
    if r.ed == w.cok.send_buf_len || is_failed r.last
    then (r.wire, finish_write (is_failed r.last) w1)
    else (r.wire, (pending left, w1))

-- `cosocket_be_write` as the event loop calls it.
unfoldable pub cosocket_be_write : Resume → List Sent → World → World
unfolding be_write_state
cosocket_be_write resume es w =
    let r = be_write_state es w in
    elim r.1.0 [
      | pending k ↦ r.1.1
      | finished vs ↦ r.1.1
      | wakes vs ↦ (resume r.1.1.cok.co vs r.1.1).0
    ]

-- What `send` is given: a string or a table.
pub data Content : Type 0 where
  a_string : Bytes → Content
  a_table : Table → Content

-- `_SENDBUF_SIZE`
abbrev pub sendbuf_size : ℕ
sendbuf_size = 3908

-- `send_buf` and `send_buf_len` for a content whose length is `len` and whose bytes are `s`; a
-- content that is not short lies in memory of its own.
unfoldable pub prepare : ℕ → Bytes → Cosocket → Cosocket
prepare len s c = record c {
  send_buf = s;
  send_buf_len = len;
  send_buf_need_free = not (ltb len sendbuf_size);
}

-- A table's bytes, copied into the buffer.
unfoldable pub load_copy : ℕ → Option Bytes → Cosocket → Option Cosocket
unfolding prepare
load_copy len none c = none
load_copy len (some s) c = some (prepare len s c)

-- A table: its length, measured, and its copy. A table of length 0 is not copied.
unfoldable pub load_table : Option ℕ → Option Bytes → Cosocket → Option Cosocket
unfolding load_copy
load_table none copy c = none
load_table (some len) copy c =
    if len == 0 then some (record c { send_buf_len = 0 }) else load_copy len copy c

-- The content measured and copied; `none` for an error raised in Lua.
unfoldable pub load : Content → Cosocket → Option Cosocket
unfolding prepare load_table
load (a_string s) c = some (prepare (length s) s c)
load (a_table t) c = load_table (lua_calc_strlen_in_table true t) (lua_copy_str_in_table t) c

-- The end of `lua_co_send`. `watched` says whether `se_be_write` succeeds.
unfoldable pub answer_write : Bool → Written → World → Answer × World
answer_write watched (finished vs) w = (returns vs, w)
answer_write watched (wakes vs) w = (returns [], w)
answer_write watched (pending k) w =
    if watched
    then (yields, with_cok w (record (w.cok) { timeout_ptr = true; inuse = true }))
    else (error_of "Network Error", hang_up_uncounted w)

unfoldable pub start_write : Bool → List Sent → World → Bytes × (Answer × World)
unfolding be_write_state answer_write
start_write watched es w =
    let r = be_write_state es (with_cok w (record (w.cok) { inuse = false })) in
    (r.0, answer_write watched r.1.0 r.1.1)

abbrev pub refused : String → World → Bytes × (Answer × World)
refused s w = ([], (returns (boolean false ∷ message s ∷ []), w))

-- The rest of `lua_co_send`, the content loaded.
unfoldable pub send_loaded :
    Bool → List Sent → Option Cosocket → World → Option (Bytes × (Answer × World))
unfolding start_write
send_loaded watched es none w = none
send_loaded watched es (some c) w =
    if c.send_buf_len == 0
    then some (refused "content empty!" (with_cok w c))
    else some (start_write watched es (with_cok w c))

-- The method `send`, called from coroutine `l`. `given` says that there are two arguments; `content` is `none` if the
-- second is no string and no table. The result is `none` where an error is raised in Lua, else the
-- bytes sent, and the answer.
unfoldable pub lua_co_send :
    Bool → List Sent → Bool → Bool → ℕ → Option Content → World → Option (Bytes × (Answer × World))
unfolding load send_loaded is_none
lua_co_send watched es given self l none w =
    if not given then some ([], (returns [], w)) else some (refused "Error params!" w)
lua_co_send watched es given self l (some content) w =
    let asked = record (w.cok) { co = l; send_buf_ed = 0 } in
    if not given
    then some ([], (returns [], w))
    else if not self
    then some (refused "Error params!" w)
    else if not (w.cok.status == 2) || is_none w.cok.fd || is_none w.cok.ptr
    then some (refused "Not connected!" w)
    else if w.cok.inuse
    then some ([], (error_of "socket busy!", w))
    else send_loaded watched es (load content asked) w
