-- ===== src/Popen/Examples.antt =====
-- A process at concrete inputs.
use alilua_coevent_module.Prelude.{◌+◌, ◌≡◌, refl, [], ◌∷◌, none}
use alilua_coevent_module.ReadBuf.Fill.{closed, fill}
use alilua_coevent_module.Cosocket.Examples.{world}
use alilua_coevent_module.Popen.{
  Process, hang_up_pipe, end_pipe, pclose, popen_try_read, popen_read_closed, popen_after_fill,
  be_popen_read_state,
}
use alilua_coevent_module.Popen.Life.{closings, reads, fails_after, begins, next, History-closings}

-- A process whose reader waits.
abbrev child : Process
child = record { world = world; pcloses = 0 }

abbrev ended : Process
ended = (be_popen_read_state 0 (closed ∷ []) child).1

ended_fd : ended.world.cok.fd ≡ none
unfolding be_popen_read_state popen_after_fill popen_read_closed popen_try_read hang_up_pipe
    end_pipe pclose fill
ended_fd = refl

History-closings_example : closings (hang_up_pipe ended) ≡ 1 + closings child
History-closings_example =
    History-closings
      (next (next begins (reads 0 9 (closed ∷ []) child refl)) (fails_after ended ended_fd))
