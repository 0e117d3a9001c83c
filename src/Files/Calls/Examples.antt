-- ===== src/Files/Calls/Examples.antt =====
-- Files at concrete inputs.
use mathlib.Core.List.{Memᴰ}
use alilua_coevent_module.Prelude.{
  c_string, ℕ, pos, ◌%◌, ◌≡◌, ◌↔◌, refl, true, false, List, [], ◌∷◌, ◌++◌, none, some, Bytes, arith,
  ◌+◌,
}
use alilua_coevent_module.Files.{
  number, string, file, Conversions, lua_tostring, lua_tonumber, lua_touserdata, Request, res_cb,
  open_cb, eio_chmod, eio_mkdir, eio_open, rdonly, Stat, names, info, asks,
}
use alilua_coevent_module.Files.Octal.{oct2decimal, sprintf_octal, atoi}
use alilua_coevent_module.Files.Octal.Inverse.{oct2decimal-octal}
use alilua_coevent_module.Files.Paths.{
  Users, lua_f_eio_chmod, lua_f_eio_mkdir, lua_f_eio_open, mode_of, flags_of,
}
use alilua_coevent_module.Files.Handles.{lua_f_eio_gc, lua_f_eio_read, if_open, read_length}
use alilua_coevent_module.Files.Handles.Life.{
  Use, reads, closes, closings, closing, calls_of_close, closings-gc,
}
use alilua_coevent_module.Files.Done.{
  Reply, woken, info_of, complete, eio_stat_cb, eio_readdir_cb, eio_open_cb,
}
use alilua_coevent_module.Files.Done.Names.{eio_readdir_cb-listed}
use alilua_coevent_module.Files.Done.Modes.{eio_stat_cb-chmod}
use alilua_coevent_module.Files.Calls.{
  Program, set_asleep, call, chmod, open_file, read, after_call, after_callback,
}
use alilua_coevent_module.Files.Calls.Answered.{IsAnswered, call-IsAnswered}
use alilua_coevent_module.Files.Calls.Steps.{calls, completes, History, begins, next, IsSound}
use alilua_coevent_module.Files.Calls.Waits.{History-wakes}

abbrev conv : Conversions
conv = record { numeral = λ s. none; printed = λ z. b'0' ∷ [] }

abbrev users : Users
users = record { getpwnam = λ s. none; getuid = 0; getgid = 0 }

-- A regular file with the mode 0644.
abbrev a_stat : Stat
a_stat = record {
  st_dev = 1;
  st_ino = 2;
  st_mode = 33188;
  st_nlink = 1;
  st_uid = 0;
  st_gid = 0;
  st_rdev = 0;
  st_atime = 5;
  st_mtime = 6;
  st_ctime = 7;
  st_size = 8;
}

abbrev reply : ℕ → Bytes → Reply
reply n buf = record {
  result = pos n;
  errorno = 0;
  buf = buf;
  stat_buf = a_stat;
  offs = 0;
  userdata = true;
}

abbrev path : Bytes
path = b'/' ∷ b'a' ∷ []

oct2decimal-octal_example :
    (oct2decimal (pos 755) ≡ some 493) ↔ (pos 755 ≡ pos (atoi (sprintf_octal 493)))
oct2decimal-octal_example = oct2decimal-octal (pos 755) 493

eio_stat_cb-chmod_example :
    (eio_stat_cb 1 (reply 0 []) ≡ woken 1 (info (info_of a_stat) ∷ []))
    × (lua_f_eio_chmod conv 2 (string path ∷ number (pos (info_of a_stat).mode) ∷ [])
        ≡ asks 2 res_cb (eio_chmod (c_string path) (33188 % 4096)))
    × (lua_f_eio_mkdir conv 2 (string path ∷ number (pos (info_of a_stat).mode) ∷ [])
        ≡ asks 2 res_cb (eio_mkdir (c_string path) (33188 % 4096)))
eio_stat_cb-chmod_example = eio_stat_cb-chmod conv 1 2 (reply 0 []) path refl

-- Two names, and what was in the buffer before.
abbrev listed : Bytes
listed = b'x' ∷ 0 ∷ b'y' ∷ b'z' ∷ 0 ∷ b'q' ∷ []

eio_readdir_cb-listed_example :
    eio_readdir_cb 1 (reply 2 listed) ≡ woken 1 (names ((b'x' ∷ []) ∷ (b'y' ∷ b'z' ∷ []) ∷ []) ∷ [])
eio_readdir_cb-listed_example =
    eio_readdir_cb-listed 1 (reply 2 listed) ((b'x' ∷ []) ∷ (b'y' ∷ b'z' ∷ []) ∷ []) (b'q' ∷ [])
      refl refl (omega arith, omega arith)

call-IsAnswered_example :
    IsAnswered 1 (call conv users chmod 1 (string path ∷ number (pos 644) ∷ []))
call-IsAnswered_example =
    call-IsAnswered conv users chmod 1 (string path ∷ number (pos 644) ∷ []) tt

-- Coroutine 1 opens a file, reads from it, and waits.
abbrev start : Program
start = record { asleep = λ l. false; pending = []; handles = [] }

abbrev opening : Program
opening = after_call 1 (call conv users open_file 1 (string path ∷ [])) start

abbrev opened : Program
opened = record { asleep = set_asleep 1 false opening.asleep; pending = []; handles = pos 3 ∷ [] }

abbrev reading : Program
reading = after_call 1 (call conv users read 1 (file (pos 3) ∷ number (pos 10) ∷ [])) opened

abbrev open_request : Request
open_request = record { operation = eio_open path rdonly 420; callback = open_cb; waiter = some 1 }

opening_pending : opening.pending ≡ open_request ∷ []
unfolding after_call call lua_f_eio_open lua_tostring lua_tonumber mode_of flags_of c_string
opening_pending = refl

opening_done :
    after_callback (complete open_request (reply 3 [])) (record opening { pending = [] })
    ≡ some opened
unfolding complete eio_open_cb after_call call lua_f_eio_open lua_tostring lua_tonumber mode_of
    flags_of
opening_done = refl

opened_awake : opened.asleep 1 ≡ false
opened_awake = refl

reading_asleep : reading.asleep 1 ≡ true
unfolding after_call call lua_f_eio_read lua_touserdata lua_tonumber if_open read_length
reading_asleep = refl

start-IsSound : IsSound start
start-IsSound = record { one_each = λ l. refl; held = tt; opened = tt }

history : History conv users start reading
history =
    next
      (next (next begins (calls open_file 1 (string path ∷ []) start refl tt)) (
        completes open_request (reply 3 []) [] [] opening opened opening_pending refl opening_done))
      (calls read 1 (file (pos 3) ∷ number (pos 10) ∷ []) opened opened_awake (Memᴰ.head refl, tt))

History-wakes_example :
    (r : Request) × (before : List Request) × (behind : List Request) × (q' : Program)
    × (reading.pending ≡ before ++ (r ∷ behind))
    × (after_callback (complete r (reply 2 listed)) (record reading { pending = before ++ behind })
        ≡ some q')
    × (q'.asleep 1 ≡ false)
History-wakes_example = History-wakes 1 (reply 2 listed) start-IsSound history reading_asleep refl

abbrev uses : List (ℕ × Use)
uses = (1, reads (number (pos 9) ∷ [])) ∷ (1, closes []) ∷ []

closings-gc_example :
    closings conv 3 uses + closing 3 (lua_f_eio_gc (pos 3)).1 ≡ calls_of_close uses + 1
closings-gc_example = closings-gc conv 3 uses

-- The descriptor of a file that was closed is closed again.
closed_twice : closings conv 3 uses + closing 3 (lua_f_eio_gc (pos 3)).1 ≡ 2
closed_twice = closings-gc conv 3 uses
