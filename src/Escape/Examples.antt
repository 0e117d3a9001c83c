-- ===== src/Escape/Examples.antt =====
-- Escaping at a concrete input.
use alilua_coevent_module.Prelude.{[], ◌∷◌, Bytes}

-- O'Neil, with a line end and a NUL.
abbrev name : Bytes
name = b'O' ∷ 39 ∷ b'N' ∷ b'e' ∷ b'i' ∷ b'l' ∷ b'\n' ∷ 0 ∷ []
