-- ===== src/Files/Handles/Life.antt =====
-- How often the descriptor of a file (src/lua-eio.c) is closed.
use Prim.Native.String.{String}
use alilua_coevent_module.Prelude.{
  by_test, ℕ, ℤ, pos, negsuc, ◌+◌, ◌≡◌, refl, List, [], ◌∷◌, Option, none, some, arith, ◌==◌,
  if◌then◌else◌,
}
use alilua_coevent_module.Files.{
  Arg, file, Conversions, arg, lua_tonumber, lua_tostring, lua_touserdata, Operation, eio_close,
  Request, Callback, Made, error_of, asks,
}
use alilua_coevent_module.Files.Handles.{
  lua_f_eio_gc, lua_f_eio_close, lua_f_eio_read, lua_f_eio_write, lua_f_eio_seek, lua_f_eio_sync,
  close_or_wait, if_open, read_length,
}

-- A call of a method of a handle, with the arguments behind the handle.
pub data Use : Type 0 where
  reads : List Arg → Use
  writes : List Arg → Use
  seeks : List Arg → Use
  syncs : List Arg → Use
  closes : List Arg → Use

abbrev pub use_handle : Conversions → ℤ → ℕ → Use → Made
use_handle conv fd l (reads args) = lua_f_eio_read conv l (file fd ∷ args)
use_handle conv fd l (writes args) = lua_f_eio_write conv l (file fd ∷ args)
use_handle conv fd l (seeks args) = lua_f_eio_seek conv l (file fd ∷ args)
use_handle conv fd l (syncs args) = lua_f_eio_sync l (file fd ∷ args)
use_handle conv fd l (closes args) = lua_f_eio_close l (file fd ∷ args)

-- 1 for a request to close the descriptor.
abbrev pub is_close : ℕ → Operation → ℕ
is_close n op = elim op [
  | eio_close z ↦ elim z [ pos m ↦ if m == n then 1 else 0 | negsuc m ↦ 0 ]
  | _ ↦ 0
]

abbrev pub closing : ℕ → Option Request → ℕ
closing n none = 0
closing n (some r) = is_close n r.operation

-- The requests to close the descriptor, of all uses of its handle, each with its coroutine.
abbrev pub closings : Conversions → ℕ → List (ℕ × Use) → ℕ
closings conv n [] = 0
closings conv n ((l, u) ∷ us) = closing n (use_handle conv (pos n) l u).1 + closings conv n us

abbrev pub is_closes : Use → ℕ
is_closes u = elim u [ closes args ↦ 1 | _ ↦ 0 ]

abbrev pub calls_of_close : List (ℕ × Use) → ℕ
calls_of_close [] = 0
calls_of_close ((l, u) ∷ us) = is_closes u + calls_of_close us

-- A method that does not close.
data IsQuiet (n l : ℕ) : Made → Type 0 where
  refuses : (s : String) → IsQuiet n l (error_of s)
  asks_other : (cb : Callback) (op : Operation) → is_close n op ≡ 0 → IsQuiet n l (asks l cb op)

IsQuiet-closing : {n l : ℕ} {m : Made} → IsQuiet n l m → closing n m.1 ≡ 0
IsQuiet-closing (refuses s) = refl
IsQuiet-closing (asks_other cb op e) = e

on_option {ℓ} :
    {A : Type ℓ} (k l : ℕ) (n : Made) (s : A → Made) (o : Option A)
    → IsQuiet k l n
    → ((a : A) → IsQuiet k l (s a))
    → IsQuiet k l (elim o [ none ↦ n | some a ↦ s a ])
on_option k l n s none hn hs = hn
on_option k l n s (some a) hn hs = hs a

read_length-IsQuiet : (n l : ℕ) (fd z offset : ℤ) → IsQuiet n l (read_length l fd z offset)
unfolding read_length
read_length-IsQuiet n l fd (pos k) offset =
    by_test (IsQuiet n l) (k == 0) _ _ (refuses _) (asks_other _ _ refl)
read_length-IsQuiet n l fd (negsuc k) offset = refuses _

if_open-IsQuiet : (n l : ℕ) (fd : ℤ) (m : Made) → IsQuiet n l m → IsQuiet n l (if_open fd m)
unfolding if_open
if_open-IsQuiet n l (pos k) m h = h
if_open-IsQuiet n l (negsuc k) m h = refuses _

read-IsQuiet :
    (conv : Conversions) (n l : ℕ) (args : List Arg)
    → IsQuiet n l (lua_f_eio_read conv l (file (pos n) ∷ args))
unfolding lua_f_eio_read lua_touserdata
read-IsQuiet conv n l args = if_open-IsQuiet n l (pos n) _ (read_length-IsQuiet n l (pos n) _ _)

write-IsQuiet :
    (conv : Conversions) (n l : ℕ) (args : List Arg)
    → IsQuiet n l (lua_f_eio_write conv l (file (pos n) ∷ args))
unfolding lua_f_eio_write lua_touserdata
write-IsQuiet conv n l args =
    if_open-IsQuiet n l (pos n) _ (by_test (IsQuiet n l) _ _ _ (refuses _) (asks_other _ _ refl))

seek-IsQuiet :
    (conv : Conversions) (n l : ℕ) (args : List Arg)
    → IsQuiet n l (lua_f_eio_seek conv l (file (pos n) ∷ args))
unfolding lua_f_eio_seek lua_touserdata
seek-IsQuiet conv n l args =
    on_option n l _ _ (lua_tonumber conv (arg 2 (file (pos n) ∷ args))) (refuses _) λ z.
      on_option n l _ _ (lua_tostring conv (arg 3 (file (pos n) ∷ args))) (refuses _) λ whence.
        if_open-IsQuiet n l (pos n) _
          (by_test (IsQuiet n l) _ _ _ (refuses _) (asks_other _ _ refl))

use_handle-closing :
    (conv : Conversions) (n l : ℕ) (u : Use)
    → closing n (use_handle conv (pos n) l u).1 ≡ is_closes u
unfolding lua_f_eio_sync lua_f_eio_close lua_touserdata if_open close_or_wait
use_handle-closing conv n l (reads args) = IsQuiet-closing (read-IsQuiet conv n l args)
use_handle-closing conv n l (writes args) = IsQuiet-closing (write-IsQuiet conv n l args)
use_handle-closing conv n l (seeks args) = IsQuiet-closing (seek-IsQuiet conv n l args)
use_handle-closing conv n l (syncs args) = refl
use_handle-closing conv n l (closes args) = ground arith

-- Whatever is done with a handle, in any order, and then its collection: they ask to close the
-- descriptor once for each call of `close`, and once more. So a file that was closed is closed again.
pub closings-gc :
    (conv : Conversions) (n : ℕ) (us : List (ℕ × Use))
    → closings conv n us + closing n (lua_f_eio_gc (pos n)).1 ≡ calls_of_close us + 1
unfolding lua_f_eio_gc
closings-gc conv n [] = ground arith
closings-gc conv n ((l, u) ∷ us) =
    omega (arith, use_handle-closing conv n l u, closings-gc conv n us)
