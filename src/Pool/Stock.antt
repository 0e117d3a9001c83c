-- ===== src/Pool/Stock.antt =====
-- Where the pool keeps a socket: in a bucket of one of the two generations, or among the closed.
-- How often it stands there is a number, which each operation changes in a known way.
use alilua_coevent_module.Prelude.{
  ℕ, zero, suc, ◌+◌, ◌%◌, ◌≤◌, ◌<◌, ◌≡◌, ◌≢◌, ℕ_discrete, refl, List, [], ◌∷◌, ◌++◌, arith, ◌==◌,
  if◌then◌else◌,
}
use alilua_coevent_module.Pool.{
  Pool, Conn, buckets, update₂, connection_pool_counter_operate, get_connection_pool_counter,
  store_counter,
}

unfoldable pub in_list : ℕ → List Conn → ℕ
in_list x [] = 0
in_list x (n ∷ ns) = (if n.ptr.fd == x then 1 else 0) + in_list x ns

unfoldable pub in_closed : ℕ → List ℕ → ℕ
in_closed x [] = 0
in_closed x (fd ∷ fds) = (if fd == x then 1 else 0) + in_closed x fds

pub in_list-cons :
    (x : ℕ) (n : Conn) (ns : List Conn)
    → in_list x (n ∷ ns) ≡ (if n.ptr.fd == x then 1 else 0) + in_list x ns
unfolding in_list
in_list-cons x n ns = refl

-- The first `n` buckets of a generation.
unfoldable pub in_buckets : ℕ → (ℕ → List Conn) → ℕ → ℕ
unfolding in_list
in_buckets x f zero = 0
in_buckets x f (suc n) = in_list x (f n) + in_buckets x f n

unfoldable pub idle : ℕ → Pool → ℕ
idle x p = in_buckets x (p.links 0) buckets + in_buckets x (p.links 1) buckets

-- How often the socket is in the pool or closed by it.
unfoldable pub owned : ℕ → Pool → ℕ
owned x p = idle x p + in_closed x p.closed

pub in_list-append :
    (x : ℕ) (ns ms : List Conn) → in_list x (ns ++ ms) ≡ in_list x ns + in_list x ms
unfolding in_list
in_list-append x [] ms = omega arith
in_list-append x (n ∷ ns) ms = omega (arith, in_list-append x ns ms)

-- A write past the buckets that are counted.
in_buckets_past :
    (x g k n : ℕ) (f : ℕ → ℕ → List Conn) (ns : List Conn) (h : ℕ)
    → n ≤ k
    → in_buckets x (update₂ f g k ns h) n ≡ in_buckets x (f h) n
unfolding in_buckets
in_buckets_past x g k zero f ns h le = refl
in_buckets_past x g k (suc n) f ns h le =
    ground (arith, in_buckets_past x g k n f ns h (omega arith))

-- A write to a bucket that is counted exchanges the old list for the new one.
in_buckets-update :
    (x g k n : ℕ) (f : ℕ → ℕ → List Conn) (ns : List Conn)
    → k < n
    → in_buckets x (update₂ f g k ns g) n + in_list x (f g k) ≡ in_buckets x (f g) n + in_list x ns
unfolding in_buckets
in_buckets-update x g k zero f ns lt = elim lt [ ]
in_buckets-update x g k (suc n) f ns lt = elim (ℕ_discrete k n) [
  | yes e ↦ ground (arith, e, in_buckets_past x g k n f ns g)
  | no ne ↦ ground (arith, ne, in_buckets-update x g k n f ns)
]

-- The other generation is not touched.
in_buckets-update_ne :
    (x g h k n : ℕ) (f : ℕ → ℕ → List Conn) (ns : List Conn)
    → h ≢ g
    → in_buckets x (update₂ f g k ns h) n ≡ in_buckets x (f h) n
unfolding in_buckets
in_buckets-update_ne x g h k zero f ns ne = refl
in_buckets-update_ne x g h k (suc n) f ns ne =
    ground (arith, in_buckets-update_ne x g h k n f ns ne)

-- A write to a bucket of either generation.
pub idle-update :
    (x g k : ℕ) (p : Pool) (ns : List Conn)
    → g < 2
    → k < buckets
    → idle x (record p { links = update₂ p.links g k ns }) + in_list x (p.links g k)
      ≡ idle x p + in_list x ns
unfolding idle
idle-update x zero k p ns lt le = omega (
  arith,
  in_buckets-update x 0 k buckets p.links ns le,
  in_buckets-update_ne x 0 1 k buckets p.links ns (omega arith),
)
idle-update x (suc zero) k p ns lt le = omega (
  arith,
  in_buckets-update x 1 k buckets p.links ns le,
  in_buckets-update_ne x 1 0 k buckets p.links ns (omega arith),
)
idle-update x (suc (suc g)) k p ns lt le = absurd (omega arith)

-- Counting connections moves no socket.
pub links-operate :
    (key : ℕ) (a : ℕ → ℕ) (p : Pool)
    → ((connection_pool_counter_operate key a p).links ≡ p.links)
      × ((connection_pool_counter_operate key a p).closed ≡ p.closed)
      × ((connection_pool_counter_operate key a p).waiting ≡ p.waiting)
unfolding connection_pool_counter_operate get_connection_pool_counter store_counter
links-operate key a p = ground arith

abbrev pub here : ℕ → Conn → ℕ
here x m = if m.ptr.fd == x then 1 else 0

pub bucket_lt : (key : ℕ) → key % buckets < buckets
bucket_lt key = omega arith
