-- ===== src/Cosocket/Send/History.antt =====
-- What `cosocket_be_write` (src/coevent.c) has sent when it is done, over all its calls.
use alilua_coevent_module.Prelude.{
  ℕ, ◌+◌, ◌-◌, ◌<◌, ◌≤◌, ◌≡◌, ◌≢◌, ◌⊎◌, refl, sym, ap, ◌∙◌, inl, inr, Bool, true, false, ◌||◌,
  Bool-cases, List, [], ◌∷◌, ◌++◌, append-nil, append_assoc, none, arith, Bytes, length, take, drop,
  take_all, take-add, if◌then◌else◌, ◌==◌,
}
use alilua_coevent_module.Cosocket.{
  Cosocket, World, Value, nil, number, message, hang_up, uncount, close_fd, with_cok,
}
use alilua_coevent_module.Cosocket.Receive.{is_none}
use alilua_coevent_module.Cosocket.Send.{
  Sent, sent, failed, again, is_failed, Progress, write_loop, Written, pending, wakes, finished,
  written_values, finish_write, be_write_state,
}

-- `send` takes no more bytes than it is offered.
abbrev pub Keeps : List Sent → ℕ → ℕ → Type 0
Keeps [] len ed = Unit
Keeps (sent n ∷ es) len ed = (ed + n ≤ len) × Keeps es len (ed + n)
Keeps (failed ∷ es) len ed = Unit
Keeps (again ∷ es) len ed = Unit

-- The state of the send buffer after a run of the loop.
pub record Advanced (buf : Bytes) (ed : ℕ) (r : Progress) : Type 0 where
  pub ahead : ed ≤ r.ed
  pub bound : r.ed ≤ length buf
  pub sent_so_far : take ed buf ++ r.wire ≡ take r.ed buf

write_loop-Advanced :
    (es : List Sent) (buf : Bytes) (ed : ℕ)
    → ed ≤ length buf
    → Keeps es (length buf) ed
    → Advanced buf ed (write_loop es buf ed)
unfolding write_loop
write_loop-Advanced [] buf ed h k = record {
  ahead = omega arith;
  bound = h;
  sent_so_far = append-nil (take ed buf);
}
write_loop-Advanced (failed ∷ es) buf ed h k = record {
  ahead = omega arith;
  bound = h;
  sent_so_far = append-nil (take ed buf);
}
write_loop-Advanced (again ∷ es) buf ed h k = record {
  ahead = omega arith;
  bound = h;
  sent_so_far = append-nil (take ed buf);
}
write_loop-Advanced (sent n ∷ es) buf ed h k =
    let rest = write_loop-Advanced es buf (ed + n) k.0 k.1 in
    let tail_wire = (write_loop es buf (ed + n)).wire in
    elim (Bool-cases (n == 0)) [
      | inl e ↦
          rw e (record { ahead = omega arith; bound = h; sent_so_far = append-nil (take ed buf) })
      | inr e ↦ rw e (record {
        ahead = omega (arith, rest.ahead);
        bound = rest.bound;
        sent_so_far =
            sym (append_assoc (take ed buf) (take n (drop ed buf)) tail_wire)
            ∙ ap (λ t. t ++ tail_wire) (sym (take-add ed n buf))
            ∙ rest.sent_so_far;
      })
    ]

-- The coroutine sleeps until the socket takes more; after the first call `send` sees to that.
abbrev pub suspended : World → World
suspended w = with_cok w (record (w.cok) { timeout_ptr = true; inuse = true })

-- The calls of `cosocket_be_write` that leave bytes to send, from the one that `send` makes on, and
-- all the bytes sent by them.
pub data Sending (w : World) : Bytes → World → Type 0 where
  start : Sending w [] w
  more :
      {s : Bytes} {w' : World}
      → Sending w s w'
      → (es : List Sent) → Keeps es w'.cok.send_buf_len w'.cok.send_buf_ed
      → (left : ℕ) → (be_write_state es w').1.0 ≡ pending left
      → Sending w (s ++ (be_write_state es w').0) (suspended (be_write_state es w').1.1)

-- How a cosocket stands that has sent `s` of its buffer.
pub record Midway (buf s : Bytes) (c : Cosocket) : Type 0 where
  pub same_buf : c.send_buf ≡ buf
  pub same_len : c.send_buf_len ≡ length buf
  pub bound : c.send_buf_ed ≤ length buf
  pub sent_so_far : take c.send_buf_ed buf ≡ s

finish_write-values :
    (broken : Bool) (w : World)
    → let h = hang_up w in
      let c = if broken then record (h.cok) { send_buf_ed = 0 } else w.cok in
      ((finish_write broken w).0 ≡ wakes (written_values c))
      ⊎ ((finish_write broken w).0 ≡ finished (written_values c))
unfolding finish_write written_values
finish_write-values true w = elim (Bool-cases (hang_up w).cok.inuse) [
  | inl h ↦ rw h (inl refl)
  | inr h ↦ rw h (inr refl)
]
finish_write-values false w = elim (Bool-cases w.cok.inuse) [
  | inl h ↦ rw h (inl refl)
  | inr h ↦ rw h (inr refl)
]

-- A test that decides between an end and a call that leaves bytes to send.
left_by_test :
    (b : Bool) (t : Bytes) (f p : Written × World) (left : ℕ)
    → (f.0 ≢ pending left)
    → let r : Bytes × (Written × World) = if b then (t, f) else (t, p) in
      r.1.0 ≡ pending left → r ≡ (t, p)
left_by_test true t f p left never e = absurd (never e)
left_by_test false t f p left never e = refl

-- One call that leaves bytes to send.
be_write_state-pending :
    (es : List Sent) (w : World) (left : ℕ)
    → (be_write_state es w).1.0 ≡ pending left
    → let r = write_loop es w.cok.send_buf w.cok.send_buf_ed in
      let w1 = with_cok w (record (w.cok) { in_read_action = false; send_buf_ed = r.ed }) in
      be_write_state es w ≡ (r.wire, (pending (w.cok.send_buf_len - r.ed), w1))
unfolding be_write_state
be_write_state-pending es w left e =
    let r = write_loop es w.cok.send_buf w.cok.send_buf_ed in
    let w1 = with_cok w (record (w.cok) { in_read_action = false; send_buf_ed = r.ed }) in
    left_by_test (r.ed == w.cok.send_buf_len || is_failed r.last) r.wire
      (finish_write (is_failed r.last) w1) (pending (w.cok.send_buf_len - r.ed), w1) left
      (λ h. elim (finish_write-values (is_failed r.last) w1) [ inl a ↦ cc | inr a ↦ cc ]) e

-- The loop, run on a cosocket that has sent `s`.
Midway-advance :
    (es : List Sent) (buf s : Bytes) (c : Cosocket)
    → Midway buf s c
    → Keeps es c.send_buf_len c.send_buf_ed
    → let r = write_loop es c.send_buf c.send_buf_ed in
      Midway buf (s ++ r.wire) (record c { in_read_action = false; send_buf_ed = r.ed })
Midway-advance es buf s c m k =
    let len : c.send_buf_len ≡ length c.send_buf = m.same_len ∙ ap length (sym m.same_buf) in
    let k' : Keeps es (length c.send_buf) c.send_buf_ed = rw (sym len) k in
    let adv =
      write_loop-Advanced es c.send_buf c.send_buf_ed (omega (arith, len, m.same_len, m.bound))
        k' in
    record {
      same_buf = m.same_buf;
      same_len = m.same_len;
      bound = omega (arith, adv.bound, len, m.same_len);
      sent_so_far = cc (adv.sent_so_far, m.same_buf, m.sent_so_far);
    }

Sending-Midway :
    (w : World) (s : Bytes) (w' : World)
    → Midway w.cok.send_buf [] w.cok
    → Sending w s w'
    → Midway w.cok.send_buf s w'.cok
Sending-Midway w s w' m start = m
Sending-Midway w s w' m (more {s = s0} {w' = w0} before es k left e) =
    let a = Midway-advance es w.cok.send_buf s0 w0.cok (Sending-Midway w s0 w0 m before) k in
    rw (be_write_state-pending es w0 left e) (record {
      same_buf = a.same_buf;
      same_len = a.same_len;
      bound = a.bound;
      sent_so_far = a.sent_so_far;
    })

-- How a send ends: all bytes sent and their number returned, or nil and a socket that is closed.
abbrev pub Ended : Bytes → Bytes → List Value → World → Type 0
Ended buf s vs w =
    ((vs ≡ number (length buf) ∷ []) × (s ≡ buf))
    ⊎ ((vs ≡ nil ∷ message "connection closed!" ∷ []) × (w.cok.fd ≡ none))

-- The call is the last one and gives these values.
abbrev pub HasEnded : List Value → Written → Type 0
HasEnded vs (pending k) = ⊥
HasEnded vs (wakes us) = us ≡ vs
HasEnded vs (finished us) = us ≡ vs

written_values-broken :
    (c : Cosocket)
    → 0 < c.send_buf_len
    → c.fd ≡ none
    → written_values (record c { send_buf_ed = 0 }) ≡ nil ∷ message "connection closed!" ∷ []
unfolding written_values is_none
written_values-broken c h e = rw e (ground arith)

written_values-all :
    (c : Cosocket) → c.send_buf_ed ≡ c.send_buf_len → written_values c ≡ number c.send_buf_len ∷ []
unfolding written_values
written_values-all c e = ground arith

hang_up_socket :
    (w : World) → ((hang_up w).cok.fd ≡ none) × ((hang_up w).cok.send_buf_len ≡ w.cok.send_buf_len)
unfolding hang_up uncount close_fd
hang_up_socket w = ground arith

-- Values that are handed to a coroutine or returned.
given_by_test :
    (inuse : Bool) (us vs : List Value) (a b : World)
    → a.cok.fd ≡ none
    → b.cok.fd ≡ none
    → let r : Written × World = if inuse then (wakes us, a) else (finished us, b) in
      HasEnded vs r.0 → (us ≡ vs) × (r.1.cok.fd ≡ none)
given_by_test true us vs a b ha hb e = (e, ha)
given_by_test false us vs a b ha hb e = (e, hb)

finish_write-broken :
    (w : World) (vs : List Value)
    → 0 < w.cok.send_buf_len
    → HasEnded vs (finish_write true w).0
    → (vs ≡ nil ∷ message "connection closed!" ∷ []) × ((finish_write true w).1.cok.fd ≡ none)
unfolding finish_write written_values
finish_write-broken w vs h e =
    let c = (hang_up w).cok in
    let (no_fd, same_len) = hang_up_socket w in
    let v = written_values-broken c (omega (arith, same_len, h)) no_fd in
    let w2 =
      with_cok (hang_up w)
        (record c { send_buf_ed = 0; send_buf_need_free = false; timeout_ptr = false }) in
    let r =
      given_by_test c.inuse (written_values w2.cok) vs
        (with_cok w2 (record (w2.cok) { inuse = false })) w2 no_fd no_fd e in
    (sym r.0 ∙ v, r.1)

finish_write-sent :
    (w : World) (vs : List Value)
    → w.cok.send_buf_ed ≡ w.cok.send_buf_len
    → HasEnded vs (finish_write false w).0
    → vs ≡ number w.cok.send_buf_len ∷ []
unfolding finish_write
finish_write-sent w vs h e =
    let v = written_values-all w.cok h in
    elim (Bool-cases w.cok.inuse) [ inl b ↦ ground arith | inr b ↦ ground arith ]

-- A cosocket that has sent all there is, or failed.
last_call :
    (full broken : Bool) (buf s t : Bytes) (w : World) (left : ℕ) (vs : List Value)
    → Midway buf (s ++ t) w.cok
    → 0 < length buf
    → (full ≡ true → w.cok.send_buf_ed ≡ w.cok.send_buf_len)
    → let r : Bytes × (Written × World) =
        if full || broken then (t, finish_write broken w) else (t, (pending left, w)) in
      HasEnded vs r.1.0 → Ended buf (s ++ r.0) vs r.1.1
last_call false false buf s t w left vs m h f e = absurd e
last_call false true buf s t w left vs m h f e =
    inr (finish_write-broken w vs (omega (arith, m.same_len, h)) e)
last_call true true buf s t w left vs m h f e =
    inr (finish_write-broken w vs (omega (arith, m.same_len, h)) e)
last_call true false buf s t w left vs m h f e =
    let full = f refl ∙ m.same_len in
    inl (
      finish_write-sent w vs (f refl) e ∙ ap (λ n. number n ∷ []) m.same_len,
      sym m.sent_so_far ∙ take_all w.cok.send_buf_ed buf (omega (arith, full)),
    )

-- From the first call of `cosocket_be_write` for a buffer that is not empty, through any number of
-- calls that leave bytes to send, to the one that ends it: either all the bytes of the buffer have
-- been sent, in order and none twice, and their number is returned, or nil is, and the socket is
-- closed. (`send` takes no more bytes than it is offered.)
pub be_write_state-Ended :
    (w : World) (s : Bytes) (w' : World) (es : List Sent) (vs : List Value)
    → Midway w.cok.send_buf [] w.cok
    → 0 < length w.cok.send_buf
    → Sending w s w'
    → Keeps es w'.cok.send_buf_len w'.cok.send_buf_ed
    → HasEnded vs (be_write_state es w').1.0
    → Ended w.cok.send_buf (s ++ (be_write_state es w').0) vs (be_write_state es w').1.1
unfolding be_write_state
be_write_state-Ended w s w' es vs m h before k e =
    let a = Midway-advance es w.cok.send_buf s w'.cok (Sending-Midway w s w' m before) k in
    let r = write_loop es w'.cok.send_buf w'.cok.send_buf_ed in
    let w1 = with_cok w' (record (w'.cok) { in_read_action = false; send_buf_ed = r.ed }) in
    let full : (r.ed == w'.cok.send_buf_len) ≡ true → r.ed ≡ w'.cok.send_buf_len =
      λ q. ground arith in
    last_call (r.ed == w'.cok.send_buf_len) (is_failed r.last) w.cok.send_buf s r.wire w1
      (w'.cok.send_buf_len - r.ed) vs
      (record {
        same_buf = a.same_buf;
        same_len = a.same_len;
        bound = a.bound;
        sent_so_far = a.sent_so_far;
      })
      h full e
