-- ===== src/Logs/Handle.antt =====
-- The log files that `lua_f_open_log` (src/lua-log.c) opens.
use alilua_coevent_module.Prelude.{
  ℕ, ◌≡◌, refl, sym, ap, ◌∙◌, List, [], ◌∷◌, ◌++◌, append_assoc, Option, none, some, Bytes, arith,
}
use alilua_coevent_module.Logs.{LogFile, destroy, lua_f_open_log, on_exit_handler}

-- A call of `open_log`: its path, if a string, and the log that is opened, if any.
abbrev pub Call : Type 0
Call = Option Bytes × Option ℕ

unfoldable pub open_logs : List Call → LogFile → LogFile
open_logs [] f = f
open_logs ((path, opened) ∷ calls) f = open_logs calls (lua_f_open_log path opened f).1

-- The logs that the calls open, newest first.
abbrev pub front : Option ℕ → List ℕ
front none = []
front (some n) = n ∷ []

abbrev pub opened_by : List Call → List ℕ
opened_by [] = []
opened_by ((none, opened) ∷ calls) = opened_by calls
opened_by ((some path, opened) ∷ calls) = opened_by calls ++ front opened

destroy-front : (f : LogFile) → destroy f ≡ front f.current ++ f.destroyed
destroy-front f = ground arith

destroy-open_logs :
    (calls : List Call) (f : LogFile) → destroy (open_logs calls f) ≡ opened_by calls ++ destroy f
unfolding open_logs lua_f_open_log
destroy-open_logs [] f = refl
destroy-open_logs ((none, opened) ∷ calls) f = destroy-open_logs calls f
destroy-open_logs ((some path, opened) ∷ calls) f =
    let f' : LogFile = record { current = opened; destroyed = destroy f } in
    destroy-open_logs calls f'
    ∙ ap (λ (xs : List ℕ). opened_by calls ++ xs) (destroy-front f')
    ∙ sym (append_assoc (opened_by calls) (front opened) (destroy f))

-- After any calls of open_log and the end of the process, each log that was opened has been
-- destroyed, once and in order, and none is left open.
pub on_exit_handler-destroyed :
    (calls : List Call) (f : LogFile)
    → let g = on_exit_handler (open_logs calls f) in
      (g.current ≡ none) × (g.destroyed ≡ opened_by calls ++ destroy f)
unfolding on_exit_handler
on_exit_handler-destroyed calls f = (refl, destroy-open_logs calls f)
