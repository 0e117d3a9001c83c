-- ===== src/Popen/Life.antt =====
-- How often the pipe of a process (src/coevent.c) is closed, in any order of its operations.
use alilua_coevent_module.Prelude.{
  by_test, ℕ, ◌+◌, ◌≡◌, refl, ap, inl, inr, Bool, true, false, not, ◌&&◌, Option-cases, List,
  Option, none, some, arith, ◌==◌, ltb,
}
use alilua_coevent_module.ReadBuf.Fill.{Recv, got, closed, failed, again, fill}
use alilua_coevent_module.Cosocket.{
  Cosocket, World, Value, Answer, se_delete, called, with_cok, leave_queue, without_buffers,
}
use alilua_coevent_module.Cosocket.Close.{Outside, _lua_co_close}
use alilua_coevent_module.Cosocket.Close.Balance.{leave_queue_fields, give_back_fields}
use alilua_coevent_module.Cosocket.Receive.{Pattern, pushed, buf_read_len_of, is_none}
use alilua_coevent_module.ReadBuf.{lua_co_read_}
use alilua_coevent_module.Popen.{
  Process, with_cosocket, pclose, end_pipe, hang_up_pipe, pclose_open, popen_timeout_state,
  popen_try_read, popen_read_closed, popen_read_more, popen_after_fill, be_popen_read_state,
  popen_wait_for_bytes, popen_read_or_wait, lua_co_popen_read, popen_close_all, lua_co_popen_close,
  lua_co_popen_gc,
}

abbrev pub is_open : Option ℕ → ℕ
is_open none = 0
is_open (some fd) = 1

-- The pipe's closings, made and to be made.
abbrev pub closings : Process → ℕ
closings p = p.pcloses + is_open p.world.cok.fd

-- One operation on a process, and how often it closes a pipe that is closed already. The event
-- loop calls the read handler while the process is registered; a coroutine that fails, resumed by
-- that handler, makes it close the pipe.
pub data Step : Process → Process → ℕ → Type 0 where
  reads :
      (below fd : ℕ) (es : List Recv) (p : Process)
      → p.world.cok.fd ≡ some fd
      → Step p (be_popen_read_state below es p).1 0
  fails : (fd : ℕ) (p : Process) → p.world.cok.fd ≡ some fd → Step p (hang_up_pipe p) 0
  fails_after : (p : Process) → p.world.cok.fd ≡ none → Step p (hang_up_pipe p) 1
  times_out : (p : Process) → Step p (popen_timeout_state p) 0
  read :
      (below : ℕ) (watched self : Bool) (l : ℕ) (pattern : Pattern) (p : Process)
      → Step p (lua_co_popen_read below watched self l pattern p).1 0
  close : (o : Outside) (self : Bool) (p : Process) → Step p (lua_co_popen_close o self p).1 0
  gc : (o : Outside) (self : Bool) (p : Process) → Step p (lua_co_popen_gc o self p).1 0

pub data History (p : Process) : Process → ℕ → Type 0 where
  begins : History p p 0
  next : {q r : Process} {m n : ℕ} → History p q m → Step q r n → History p r (m + n)

-- As many closings as before.
abbrev IsSame : Process → Process → Type 0
IsSame p q = closings q ≡ closings p

end_pipe-closings :
    (fd : ℕ) (p : Process) → p.world.cok.fd ≡ some fd → closings (end_pipe p) ≡ closings p
unfolding end_pipe pclose
end_pipe-closings fd p e = omega (arith, ap is_open e)

hang_up_pipe-closings : (p : Process) → closings (hang_up_pipe p) ≡ p.pcloses + 1
unfolding hang_up_pipe end_pipe pclose
hang_up_pipe-closings p = omega arith

popen_read_more-IsSame : (below : ℕ) (p : Process) → IsSame p (popen_read_more below p).1
unfolding popen_read_more popen_try_read
popen_read_more-IsSame below p =
    let r = lua_co_read_ below p.world.cok.status p.world.cok.read_buf in
    let P : Option (List Value) × Process → Type 0 = λ r. IsSame p r.1 in
    elim (Option-cases (pushed r.0)) [
      | inl missing ↦ rw missing (by_test P p.world.cok.in_read_action _ _ refl refl)
      | inr (vs, there) ↦ rw there (by_test P p.world.cok.in_read_action _ _ refl refl)
    ]

popen_read_closed-IsSame :
    (below fd : ℕ) (eof : Bool) (p : Process)
    → p.world.cok.fd ≡ some fd
    → IsSame p (popen_read_closed below eof p).1
unfolding popen_read_closed popen_try_read
popen_read_closed-IsSame below fd eof p e =
    let p1 = hang_up_pipe (with_cosocket p (record (p.world.cok) { timeout_ptr = false })) in
    let same : IsSame p p1 = omega (
      arith,
      hang_up_pipe-closings (with_cosocket p (record (p.world.cok) { timeout_ptr = false })),
      ap is_open e,
    ) in
    by_test (λ (r : Option (List Value) × Process). IsSame p r.1) p1.world.cok.in_read_action _ _
      same same

popen_after_fill-IsSame :
    (below fd : ℕ) (r : Recv) (p : Process)
    → p.world.cok.fd ≡ some fd
    → IsSame p (popen_after_fill below r p).1
unfolding popen_after_fill
popen_after_fill-IsSame below fd closed p e = popen_read_closed-IsSame below fd true p e
popen_after_fill-IsSame below fd failed p e = popen_read_closed-IsSame below fd false p e
popen_after_fill-IsSame below fd again p e = popen_read_more-IsSame below p
popen_after_fill-IsSame below fd (got b s) p e = popen_read_more-IsSame below p

be_popen_read_state-IsSame :
    (below fd : ℕ) (es : List Recv) (p : Process)
    → p.world.cok.fd ≡ some fd
    → IsSame p (be_popen_read_state below es p).1
unfolding be_popen_read_state
be_popen_read_state-IsSame below fd es p e =
    let r = fill es p.world.cok.read_buf in
    popen_after_fill-IsSame below fd r.1 (with_cosocket p (record (p.world.cok) { read_buf = r.0 }))
      e

popen_wait_for_bytes-IsSame :
    (watched : Bool) (p : Process) → IsSame p (popen_wait_for_bytes watched p).1
unfolding popen_wait_for_bytes pclose is_none
popen_wait_for_bytes-IsSame watched p = ground arith

popen_read_or_wait-IsSame :
    (watched : Bool) (o : Option (List Value)) (p : Process)
    → IsSame p (popen_read_or_wait watched (o, p)).1
unfolding popen_read_or_wait
popen_read_or_wait-IsSame watched (some vs) p = refl
popen_read_or_wait-IsSame watched none p = popen_wait_for_bytes-IsSame watched p

lua_co_popen_read-IsSame :
    (below : ℕ) (watched self : Bool) (l : ℕ) (pattern : Pattern) (p : Process)
    → IsSame p (lua_co_popen_read below watched self l pattern p).1
unfolding lua_co_popen_read popen_try_read
lua_co_popen_read-IsSame below watched self l pattern p =
    let P : Answer × Process → Type 0 = λ r. IsSame p r.1 in
    let c = p.world.cok in
    let connected = c.status == 2 && not (is_none c.fd) && not (is_none c.ptr) in
    let asked = with_cosocket p (record c {
      co = l;
      read_buf = record (c.read_buf) { buf_read_len = buf_read_len_of pattern };
    }) in
    let r = popen_try_read below asked in
    by_test P (not self) _ _ refl (
      by_test P (not connected && ltb c.read_buf.total_buf_len 1) _ _ refl
        (by_test P c.inuse _ _ refl (popen_read_or_wait-IsSame watched r.0 r.1)))

_lua_co_close-none : (o : Outside) (w : World) → (_lua_co_close o w).cok.fd ≡ none
unfolding _lua_co_close
_lua_co_close-none o w =
    let w' = leave_queue (with_cok w (without_buffers w.cok)) in
    (give_back_fields o (with_cok w' (record (w'.cok) { timeout_ptr = false; status = 0 }))).0

popen_close_all-IsSame : (o : Outside) (p : Process) → IsSame p (popen_close_all o p)
unfolding popen_close_all end_pipe pclose
popen_close_all-IsSame o p = elim (Option-cases p.world.cok.fd) [
  | inl shut ↦ rw shut (omega (arith, ap is_open (_lua_co_close-none o p.world)))
  | inr (fd, open_fd) ↦
      rw open_fd (omega (arith, ap is_open (_lua_co_close-none o (end_pipe p).world)))
]

pclose_open-IsSame : (p : Process) → IsSame p (pclose_open p)
unfolding pclose_open pclose
pclose_open-IsSame p = ground arith

popen_timeout_state-IsSame : (p : Process) → IsSame p (popen_timeout_state p)
unfolding popen_timeout_state
popen_timeout_state-IsSame p =
    let start = with_cok p.world (record (p.world.cok) { timeout_ptr = false }) in
    let w1 = leave_queue start in
    let w2 = called (se_delete w1.cok.ptr) w1 in
    let q = record p { world = with_cok w2 (record (w2.cok) { ptr = none }) } in
    omega (
      arith,
      pclose_open-IsSame q,
      ap (λ (c : Cosocket). is_open c.fd) (leave_queue_fields start).0,
    )

close-IsSame :
    (o : Outside) (self : Bool) (p : Process)
    → IsSame p (lua_co_popen_close o self p).1 × IsSame p (lua_co_popen_gc o self p).1
unfolding lua_co_popen_close lua_co_popen_gc
close-IsSame o self p =
    let P : Answer × Process → Type 0 = λ r. IsSame p r.1 in
    let ends = by_test P (not self) _ _ refl (
      by_test P (not (p.world.cok.status == 2)) _ _ refl
        (by_test P p.world.cok.inuse _ _ refl (popen_close_all-IsSame o p))) in
    (ends, ends)

Step-closings : {p q : Process} {n : ℕ} → Step p q n → closings q ≡ n + closings p
Step-closings (reads below fd es p e) = omega (arith, be_popen_read_state-IsSame below fd es p e)
Step-closings (fails fd p e) = omega (arith, hang_up_pipe-closings p, ap is_open e)
Step-closings (fails_after p e) = omega (arith, hang_up_pipe-closings p, ap is_open e)
Step-closings (times_out p) = omega (arith, popen_timeout_state-IsSame p)
Step-closings (read below watched self l pattern p) =
    omega (arith, lua_co_popen_read-IsSame below watched self l pattern p)
Step-closings (close o self p) = omega (arith, (close-IsSame o self p).0)
Step-closings (gc o self p) = omega (arith, (close-IsSame o self p).1)

-- In any order of its operations, the pipe of a process has been closed, or is still to be, once in
-- all, and once more for each coroutine that failed when its handler had closed the pipe already.
pub History-closings : {p q : Process} {n : ℕ} → History p q n → closings q ≡ n + closings p
History-closings begins = omega arith
History-closings (next h st) = omega (arith, History-closings h, Step-closings st)
