-- ===== src/ReadBuf/Examples.antt =====
-- Runs of the receive buffer, and its theorems at concrete inputs.
use alilua_coevent_module.Prelude.{◌≡◌, refl, [], ◌∷◌, arith}
use alilua_coevent_module.ReadBuf.{ReadBuf, line, read_line, read_all, lua_co_read_}
use alilua_coevent_module.ReadBuf.Scan.{line_length}
use alilua_coevent_module.ReadBuf.Refine.{Taken, lua_co_read_-delivered}
use alilua_coevent_module.ReadBuf.Fill.{got, again, room, last_len, fill, Filled, fill-Filled}

-- "ab\r" and "\ncd" in two chunks, read by lines.
abbrev two_chunks : ReadBuf
two_chunks = record {
  chunks = (b'a' ∷ b'b' ∷ b'\r' ∷ []) ∷ (b'\n' ∷ b'c' ∷ b'd' ∷ []) ∷ [];
  total_buf_len = 6;
  buf_read_len = read_line;
}

abbrev one_line : ReadBuf
one_line = record { chunks = (b'\n' ∷ b'c' ∷ []) ∷ []; total_buf_len = 2; buf_read_len = read_line }

abbrev no_chunk : ReadBuf
no_chunk = record { chunks = []; total_buf_len = 0; buf_read_len = read_all }

abbrev no_line : ReadBuf
no_line = record { chunks = (b'c' ∷ b'd' ∷ []) ∷ []; total_buf_len = 2; buf_read_len = read_line }

reads_line : lua_co_read_ 0 2 two_chunks ≡ (
  line (b'a' ∷ b'b' ∷ []),
  record two_chunks { chunks = (b'c' ∷ b'd' ∷ []) ∷ []; total_buf_len = 2 },
)
unfolding lua_co_read_
reads_line = refl

lua_co_read_-delivered_example :
    ((lua_co_read_ 0 2 two_chunks).0 ≡ line (b'a' ∷ b'b' ∷ []))
    × Taken 4 two_chunks (lua_co_read_ 0 2 two_chunks).1
unfolding line_length
lua_co_read_-delivered_example =
    lua_co_read_-delivered 0 2 4 two_chunks (omega arith) (omega arith) (omega arith) refl

fill-Filled_example :
    Filled no_line (b'\n' ∷ b'e' ∷ []) (fill (got b'\n' [] ∷ got b'e' [] ∷ again ∷ []) no_line).0
unfolding fill room last_len
fill-Filled_example =
    fill-Filled (got b'\n' [] ∷ got b'e' [] ∷ again ∷ []) no_line (omega arith) (omega arith)
