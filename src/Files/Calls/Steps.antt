-- ===== src/Files/Calls/Steps.antt =====
-- The steps of a program that uses files (src/lua-eio.c), and what holds of it at any time.
use mathlib.Core.List.{Memᴰ}
use alilua_coevent_module.Prelude.{
  ℕ, ℤ, ◌+◌, ◌≡◌, Bool, true, false, List, [], ◌∷◌, ◌++◌, Option, none, some, All, if◌then◌else◌,
  ◌==◌,
}
use alilua_coevent_module.Files.{Arg, Conversions, Callback, res_cb, Request}
use alilua_coevent_module.Files.Paths.{Users}
use alilua_coevent_module.Files.Handles.{lua_f_eio_gc}
use alilua_coevent_module.Files.Done.{Reply, complete}
use alilua_coevent_module.Files.Calls.{Method, call, Program, after_call, after_callback, files_of}
use alilua_coevent_module.Files.Calls.Answered.{IsOpen}

-- One step of a program. A coroutine that runs makes a call, with handles that Lua has; Lua collects
-- a handle; a request, any of them, is done and its callback runs.
pub data Step (conv : Conversions) (users : Users) : Program → Program → Type 0 where
  calls :
      (m : Method) (l : ℕ) (args : List Arg) (p : Program)
      → p.asleep l ≡ false
      → All (λ (fd : ℤ). Memᴰ fd p.handles) (files_of args)
      → Step conv users p (after_call l (call conv users m l args) p)
  collects :
      (fd : ℤ) (before behind : List ℤ) (l : ℕ) (p : Program)
      → p.handles ≡ before ++ (fd ∷ behind)
      → Step conv users p (record (after_call l (lua_f_eio_gc fd) p) { handles = before ++ behind })
  completes :
      (r : Request) (e : Reply) (before behind : List Request) (p q : Program)
      → p.pending ≡ before ++ (r ∷ behind)
      → e.userdata ≡ true
      → after_callback (complete r e) (record p { pending = before ++ behind }) ≡ some q
      → Step conv users p q

pub data History (conv : Conversions) (users : Users) (p : Program) : Program → Type 0 where
  begins : History conv users p p
  next : {q r : Program} → History conv users p q → Step conv users q r → History conv users p r

-- How many requests have a coroutine as their data.
abbrev pub waits_in : ℕ → Option ℕ → ℕ
waits_in l none = 0
waits_in l (some k) = if k == l then 1 else 0

abbrev pub asked : ℕ → List Request → ℕ
asked l [] = 0
asked l (r ∷ rs) = waits_in l r.waiter + asked l rs

abbrev pub as_number : Bool → ℕ
as_number false = 0
as_number true = 1

-- A request without a coroutine is one that expects none, as that of the collector does.
abbrev pub IsHeldBy : Callback → Option ℕ → Type 0
IsHeldBy cb none = cb ≡ res_cb
IsHeldBy cb (some l) = Unit

abbrev pub IsHeld : Request → Type 0
IsHeld r = IsHeldBy r.callback r.waiter

-- Exactly one request for each coroutine that is suspended and none for the others; no request whose
-- callback would use NULL; and no handle without a descriptor.
pub record IsSound (p : Program) : Type 0 where
  pub one_each : (l : ℕ) → asked l p.pending ≡ as_number (p.asleep l)
  pub held : All IsHeld p.pending
  pub opened : All IsOpen p.handles
