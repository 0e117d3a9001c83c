-- ===== src/Files/Handles.antt =====
-- The methods of an open file (src/lua-eio.c). `l` is the coroutine that calls. Numbers that are read
-- into an int are integers that it holds.
pub mod Life
use alilua_coevent_module.Prelude.{
  c_string, ℕ, ℤ, pos, negsuc, ◌-◌, ◌^◌, ◌%◌, List, [], ◌∷◌, Option, none, some, Bytes, Bool, true,
  false, ◌&&◌, length, if◌then◌else◌, ◌==◌, ltb,
}
use alilua_coevent_module.Files.{
  Arg, Conversions, arg, lua_tonumber, lua_tostring, lua_touserdata, Whence, seek_cur, seek_set,
  seek_end, res_cb, read_cb, seek_cb, eio_close, eio_read, eio_write, eio_seek, eio_fsync, Made,
  returns, yields, error_of, asks,
}

-- `__gc`, with the descriptor of its handle; nobody waits for the request.
unfoldable pub lua_f_eio_gc : ℤ → Made
lua_f_eio_gc (negsuc n) = (returns [], none)
lua_f_eio_gc (pos n) =
    (returns [], some (record { operation = eio_close (pos n); callback = res_cb; waiter = none }))

-- `close(*efd)`, and a handle that is closed already: the coroutine yields in both cases.
unfoldable pub close_or_wait : ℕ → ℤ → Made
close_or_wait l (pos n) = asks l res_cb (eio_close (pos n))
close_or_wait l (negsuc n) = (yields, none)

unfoldable pub lua_f_eio_close : ℕ → List Arg → Made
lua_f_eio_close l args = elim (lua_touserdata (arg 1 args)) [
  | none ↦ error_of "Error params!"
  | some efd ↦ close_or_wait l efd
]

-- `if(*efd < 0)`
unfoldable pub if_open : ℤ → Made → Made
if_open (pos n) m = m
if_open (negsuc n) m = error_of "File handle closed!"

abbrev usage : Made
usage = error_of "Error params! read(length, [offset])"

-- A number, or a default.
abbrev number_or : Conversions → ℤ → Arg → ℤ
number_or conv default a = elim (lua_tonumber conv a) [ none ↦ default | some z ↦ z ]

-- `eio_read`, if the length is at least 1
unfoldable pub read_length : ℕ → ℤ → ℤ → ℤ → Made
read_length l efd (negsuc n) offset = usage
read_length l efd (pos n) offset = if n == 0 then usage else asks l read_cb (eio_read efd n offset)

unfoldable pub lua_f_eio_read : Conversions → ℕ → List Arg → Made
lua_f_eio_read conv l args = elim (lua_touserdata (arg 1 args)) [
  | none ↦ error_of "Error params!"
  | some efd ↦ if_open efd (
      read_length l efd (number_or conv (pos 0) (arg 2 args))
        (number_or conv (negsuc 0) (arg 3 args)))
]

-- A number as a `size_t`, and a `size_t` as an `off_t`.
unfoldable pub to_size : ℤ → ℕ
to_size (pos n) = n % 2 ^ 64
to_size (negsuc n) = 2 ^ 64 - 1 - n % 2 ^ 64

unfoldable pub to_off : ℕ → ℤ
to_off n = if ltb n (2 ^ 63) then pos n else negsuc (2 ^ 64 - 1 - n)

-- What is no string has length 0.
unfoldable pub bytes_of : Option Bytes → Bytes
bytes_of none = []
bytes_of (some s) = s

unfoldable pub lua_f_eio_write : Conversions → ℕ → List Arg → Made
lua_f_eio_write conv l args = elim (lua_touserdata (arg 1 args)) [
  | none ↦ error_of "Error params!"
  | some efd ↦
      let content = bytes_of (lua_tostring conv (arg 2 args)) in
      let offset = to_size (number_or conv (negsuc 0) (arg 3 args)) in
      if_open efd (
        if ltb (length content) 1
        then usage
        else asks l res_cb (eio_write efd content (to_off offset)))
]

-- `strcmp(a, b) == 0`
unfoldable pub is_same : Bytes → Bytes → Bool
is_same [] [] = true
is_same [] (b ∷ t) = false
is_same (a ∷ s) [] = false
is_same (a ∷ s) (b ∷ t) = let rest = is_same s t in a == b && rest

-- `whence`, by the texts "set" and "end"
unfoldable pub whence_of : Bytes → Whence
whence_of s =
    if is_same (c_string s) (b's' ∷ b'e' ∷ b't' ∷ [])
    then seek_set
    else if is_same (c_string s) (b'e' ∷ b'n' ∷ b'd' ∷ [])
    then seek_end
    else seek_cur

unfoldable pub lua_f_eio_seek : Conversions → ℕ → List Arg → Made
lua_f_eio_seek conv l args = elim (lua_touserdata (arg 1 args)) [
  | none ↦ error_of "Error params!"
  | some efd ↦ elim (lua_tonumber conv (arg 2 args)) [
    | none ↦ error_of "Error params!"
    | some z ↦ elim (lua_tostring conv (arg 3 args)) [
      | none ↦ error_of "Error params!"
      | some whence ↦ if_open efd (
          if ltb (to_size z) 0
          then usage
          else asks l seek_cb (eio_seek efd (to_off (to_size z)) (whence_of whence)))
    ]
  ]
]

unfoldable pub lua_f_eio_sync : ℕ → List Arg → Made
lua_f_eio_sync l args = elim (lua_touserdata (arg 1 args)) [
  | none ↦ error_of "Error params!"
  | some efd ↦ if_open efd (asks l res_cb (eio_fsync efd))
]
