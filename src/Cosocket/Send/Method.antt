-- ===== src/Cosocket/Send/Method.antt =====
-- What the method `send` (src/coevent.c) prepares before its coroutine sleeps.
use alilua_coevent_module.Prelude.{
  ℕ, ◌<◌, ◌≡◌, ◌≢◌, refl, sym, ap, ◌∙◌, inl, inr, Bool, true, false, Bool-cases, List, [], Option,
  none, some, arith, Bytes, length, if◌then◌else◌, ◌==◌,
}
use alilua_coevent_module.LuaTable.{Table, lua_calc_strlen_in_table, lua_copy_str_in_table}
use alilua_coevent_module.LuaTable.Agree.{IsRegular, Fits, lua_copy_str_in_table-Fits}
use alilua_coevent_module.Cosocket.{Cosocket, World, Answer, yields, with_cok}
use alilua_coevent_module.Cosocket.Send.{
  Sent, Written, pending, wakes, finished, Content, a_string, a_table, prepare, load_copy,
  load_table, load, be_write_state, answer_write, start_write, send_loaded, lua_co_send,
}
use alilua_coevent_module.Cosocket.Send.History.{Keeps, Sending, start, more, suspended, Midway}

-- Tables are arrays all the way down, and hold no light userdata but NULL.
abbrev pub IsRegularContent : Content → Type 0
IsRegularContent (a_string s) = Unit
IsRegularContent (a_table t) = IsRegular t

abbrev pub bytes_of : Content → Option Bytes
bytes_of (a_string s) = some s
bytes_of (a_table t) = lua_copy_str_in_table t

-- The buffer that is sent: the bytes of the content, all of them still to send.
pub record Loaded (content : Content) (c : Cosocket) : Type 0 where
  pub content_bytes : bytes_of content ≡ some c.send_buf
  pub nonempty : 0 < length c.send_buf
  pub midway : Midway c.send_buf [] c

prepare-Loaded :
    (content : Content) (len : ℕ) (s : Bytes) (c c' : Cosocket)
    → bytes_of content ≡ some s
    → length s ≡ len
    → len ≢ 0
    → c.send_buf_ed ≡ 0
    → prepare len s c ≡ c'
    → Loaded content c'
unfolding prepare
prepare-Loaded content len s c c' e l h z p = rw (sym p) (record {
  content_bytes = e;
  nonempty = omega (arith, l, h);
  midway = record {
    same_buf = refl;
    same_len = sym l;
    bound = omega (arith, z);
    sent_so_far = rw z refl;
  };
})

load_table-Loaded :
    (t : Table) (m : Option ℕ) (c c' : Cosocket)
    → ((n : ℕ) → m ≡ some n → Fits (lua_copy_str_in_table t) n)
    → c.send_buf_ed ≡ 0
    → load_table m (lua_copy_str_in_table t) c ≡ some c'
    → c'.send_buf_len ≢ 0
    → Loaded (a_table t) c'
unfolding load_table
load_table-Loaded t none c c' fits z e h = absurd cc
load_table-Loaded t (some len) c c' fits z e h =
    let (s, (copied, l)) = fits len refl in
    elim (Bool-cases (len == 0)) [
      | inl b ↦
          let empty : record c { send_buf_len = 0 } ≡ c' = ground (arith, b) in
          absurd (h (ap (λ (x : Cosocket). x.send_buf_len) (sym empty)))
      | inr b ↦
          let put : load_copy len (lua_copy_str_in_table t) c ≡ some c' = ground (arith, b) in
          let put' : load_copy len (some s) c ≡ some c' =
            ap (λ o. load_copy len o c) (sym copied) ∙ put in
          prepare-Loaded (a_table t) len s c c' copied l (λ q. ground arith) z
            (unfold load_copy in cc)
    ]

-- A content that is loaded and not empty lies in the buffer with the length that was measured.
load-Loaded :
    (content : Content) (c c' : Cosocket)
    → IsRegularContent content
    → c.send_buf_ed ≡ 0
    → load content c ≡ some c'
    → c'.send_buf_len ≢ 0
    → Loaded content c'
unfolding load
load-Loaded (a_string s) c c' reg z e h =
    let put : prepare (length s) s c ≡ c' = cc in
    let same_len : c'.send_buf_len ≡ length s =
      ap (λ (x : Cosocket). x.send_buf_len) (sym put) ∙ unfold prepare in refl in
    prepare-Loaded (a_string s) (length s) s c c' refl refl (λ q. h (same_len ∙ q)) z put
load-Loaded (a_table t) c c' reg z e h =
    load_table-Loaded t (lua_calc_strlen_in_table true t) c c'
      (λ n q. lua_copy_str_in_table-Fits true t n reg q) z e h

-- A suspended `send`: the bytes of the content are in the buffer, and these have been sent.
pub record IsSending (content : Content) (t : Bytes) (w' : World) : Type 0 where
  pub loaded : World
  pub is_loaded : Loaded content loaded.cok
  pub is_sending : Sending loaded t w'

answer_write-yields :
    (watched : Bool) (v : Written) (w w' : World)
    → answer_write watched v w ≡ (yields, w')
    → (left : ℕ) × ((v ≡ pending left) × (suspended w ≡ w'))
unfolding answer_write
answer_write-yields watched (finished vs) w w' e = absurd cc
answer_write-yields watched (wakes vs) w w' e = absurd cc
answer_write-yields true (pending k) w w' e = (k, (refl, ap (λ r. r.1) e))
answer_write-yields false (pending k) w w' e = absurd cc

-- The first call of `cosocket_be_write` leaves bytes to send.
start_write-IsSending :
    (watched : Bool) (es : List Sent) (content : Content) (w : World) (t : Bytes) (w' : World)
    → Loaded content w.cok
    → Keeps es w.cok.send_buf_len w.cok.send_buf_ed
    → start_write watched es w ≡ (t, (yields, w'))
    → IsSending content t w'
unfolding start_write
start_write-IsSending watched es content w t w' loaded k e =
    let w1 = with_cok w (record (w.cok) { inuse = false }) in
    let r = be_write_state es w1 in
    let (left, (p, s)) = answer_write-yields watched r.1.0 r.1.1 w' (ap (λ x. x.1) e) in
    let same : r.0 ≡ t = ap (λ x. x.0) e in
    rw (sym same, sym s)
      (record {
        loaded = w1;
        is_loaded = record {
          content_bytes = loaded.content_bytes;
          nonempty = loaded.nonempty;
          midway = record {
            same_buf = loaded.midway.same_buf;
            same_len = loaded.midway.same_len;
            bound = loaded.midway.bound;
            sent_so_far = loaded.midway.sent_so_far;
          };
        };
        is_sending = more start es k left p;
      })

send_loaded-IsSending :
    (watched : Bool) (es : List Sent) (content : Content) (c0 : Cosocket) (o : Option Cosocket)
    (w : World) (t : Bytes) (w' : World)
    → IsRegularContent content
    → c0.send_buf_ed ≡ 0
    → load content c0 ≡ o
    → ((c : Cosocket) → o ≡ some c → Keeps es c.send_buf_len c.send_buf_ed)
    → send_loaded watched es o w ≡ some (t, (yields, w'))
    → IsSending content t w'
unfolding send_loaded
send_loaded-IsSending watched es content c0 none w t w' reg z l k e = absurd cc
send_loaded-IsSending watched es content c0 (some c) w t w' reg z l k e =
    elim (Bool-cases (c.send_buf_len == 0)) [
      | inl b ↦ absurd (ground (arith, b))
      | inr b ↦
          let started : start_write watched es (with_cok w c) ≡ (t, (yields, w')) =
            ground (arith, b) in
          start_write-IsSending watched es content (with_cok w c) t w'
            (load-Loaded content c0 c reg z l (λ q. ground arith)) (k c refl) started
    ]

-- A call that suspends its coroutine was not refused.
not_refused :
    (a b : Bool) (s1 s2 : Bytes × (Answer × World)) (run : Option (Bytes × (Answer × World)))
    (t : Bytes) (w' : World)
    → s1.1.0 ≢ yields
    → s2.1.0 ≢ yields
    → (if a then some s1 else if b then some s2 else run) ≡ some (t, (yields, w'))
    → run ≡ some (t, (yields, w'))
not_refused true b s1 s2 run t w' h1 h2 e = absurd (h1 cc)
not_refused false true s1 s2 run t w' h1 h2 e = absurd (h2 cc)
not_refused false false s1 s2 run t w' h1 h2 e = e

-- If `send` suspends its coroutine, then it has put the bytes of its argument into the buffer, there
-- is at least one, and its calls of `send` have sent the first of them, from which
-- `cosocket_be_write` goes on. (A table is an array all the way down and holds no light userdata but
-- NULL, and `send` takes no more bytes than it is offered.)
pub lua_co_send-IsSending :
    (watched : Bool) (es : List Sent) (l : ℕ) (content : Content) (w : World) (t : Bytes)
    (w' : World)
    → IsRegularContent content
    → ((c : Cosocket)
        → load content (record (w.cok) { co = l; send_buf_ed = 0 }) ≡ some c
        → Keeps es c.send_buf_len c.send_buf_ed)
    → lua_co_send watched es true true l (some content) w ≡ some (t, (yields, w'))
    → IsSending content t w'
unfolding lua_co_send
lua_co_send-IsSending watched es l content w t w' reg k e =
    let asked = record (w.cok) { co = l; send_buf_ed = 0 } in
    send_loaded-IsSending watched es content asked (load content asked) w t w' reg refl refl k (
      not_refused _ w.cok.inuse _ _ (send_loaded watched es (load content asked) w) t w' (λ q. cc)
        (λ q. cc) e)
