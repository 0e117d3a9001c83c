-- ===== src/Objects/Peer.antt =====
-- Where the sockets are after `setpeername` (src/coevent.c).
use alilua_coevent_module.Prelude.{
  ℕ, ◌+◌, ◌≡◌, refl, inl, inr, ◌⊎◌, true, false, not, Bool-cases, Option-cases, some, none, [], ◌∷◌,
  arith, if◌then◌else◌,
}
use alilua_coevent_module.Cosocket.{World, Answer, boolean, error_of, returns}
use alilua_coevent_module.Cosocket.Close.Balance.{held, closes}
use alilua_coevent_module.Objects.{Peered, close_old, open_peer, lua_co_dup_setpeername}

-- A new socket in place of the old one.
abbrev pub IsNewPeer : Peered → Answer × World → Type 0
IsNewPeer o r =
    (fd : ℕ) × ((o.port_given ≡ true)
      × ((o.resolved ≡ true)
          × ((o.socket ≡ some fd)
              × ((r.0 ≡ returns (boolean true ∷ []))
                  × ((r.1.cok.fd ≡ some fd) × (r.1.cok.status ≡ 2))))))

-- What `setpeername` answers when it fails.
abbrev pub refusal : Peered → Answer
refusal o =
    if not o.port_given
    then returns []
    else if not o.resolved
    then error_of "Nslookup Error!"
    else error_of "Connect Error!"

-- The old socket still held, though it is closed.
abbrev pub IsRefused : Peered → World → Answer × World → Type 0
IsRefused o w r =
    ((o.port_given ≡ false) ⊎ ((o.resolved ≡ false) ⊎ (o.socket ≡ none)))
    × (r.0 ≡ refusal o)
    × (r.1.cok.fd ≡ w.cok.fd)

abbrev pub IsPeered : Peered → World → Answer × World → Type 0
IsPeered o w r =
    (IsNewPeer o r ⊎ IsRefused o w r)
    × (r.1.pool ≡ w.pool)
    × ((x : ℕ) → closes x r.1.calls ≡ held x w.cok.fd + closes x w.calls)

close_old_pool : (w : World) → (close_old w).pool ≡ w.pool
unfolding close_old
close_old_pool w = ground arith

close_old_fd : (w : World) → (close_old w).cok.fd ≡ w.cok.fd
unfolding close_old
close_old_fd w = ground arith

closes-close_old :
    (x : ℕ) (w : World) → closes x (close_old w).calls ≡ held x w.cok.fd + closes x w.calls
unfolding close_old closes
closes-close_old x w = ground arith

-- `setpeername` closes the old socket, if there was one, once, and no other, and leaves the pool alone.
-- Then it gives the cosocket a new socket, with status 2, and returns true, if there is a port, the
-- host has an address and `socket` gives one; else it answers with its refusal and leaves the old
-- socket in the cosocket, though it is closed. (The arguments are a userdata and a string, and a
-- socket can be made not to block.)
pub lua_co_dup_setpeername-IsPeered :
    (o : Peered) (w : World) → o.nonblocking ≡ true → IsPeered o w (lua_co_dup_setpeername true o w)
unfolding lua_co_dup_setpeername open_peer
lua_co_dup_setpeername-IsPeered o w b =
    let fd = close_old_fd w in
    let kept = close_old_pool w in
    let closed : (x : ℕ) → closes x (close_old w).calls ≡ held x w.cok.fd + closes x w.calls =
      λ x. closes-close_old x w in
    elim (Bool-cases o.port_given) [
      | inr no_port ↦ rw no_port (inr (inl refl, refl, fd), kept, closed)
      | inl port ↦ elim (Bool-cases o.resolved) [
        | inr no_host ↦ rw (port, no_host) (inr (inr (inl refl), refl, fd), kept, closed)
        | inl host ↦ elim (Option-cases o.socket) [
          | inl no_socket ↦
              rw (port, host, no_socket, open_peer) (inr (inr (inr refl), refl, fd), kept, closed)
          | inr (s, socket) ↦
              rw (port, host, socket, open_peer, b)
                (inl (s, (refl, (refl, (refl, (refl, (refl, refl)))))), kept, closed)
        ]
      ]
    ]
