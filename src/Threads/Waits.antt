-- ===== src/Threads/Waits.antt =====
-- What `lua_f_lua_uthread_wait` (src/lua-uthread.c) counts.
use alilua_coevent_module.Prelude.{ℕ, ◌+◌, ◌%◌, ◌≡◌, ◌≢◌, List, All}
use alilua_coevent_module.Threads.{Key, Threads}
use alilua_coevent_module.Threads.Keys.{awaiting, counter, Fits}

-- A coroutine stands `n` times more in the arrays of others, its counter, a uint16_t, says so, and
-- no other coroutine is counted anew; and no array is overrun.
pub record Waits (l n : ℕ) (ks ks' : List Key) : Type 0 where
  pub registered : awaiting l ks' ≡ n + awaiting l ks
  pub counted : counter l ks' % 65536 ≡ (n + counter l ks) % 65536
  pub others : (x : ℕ) → x ≢ l → (awaiting x ks' ≡ awaiting x ks) × (counter x ks' ≡ counter x ks)
  pub in_bounds : All Fits ks'

-- `count_wait` adds one to the counter of its coroutine.
pub record Counts (l : ℕ) (ks ks' : List Key) : Type 0 where
  pub more : counter l ks' ≡ (counter l ks + 1) % 65536
  pub same_awaiting : (x : ℕ) → awaiting x ks' ≡ awaiting x ks
  pub others : (x : ℕ) → x ≢ l → counter x ks' ≡ counter x ks
  pub in_bounds : All Fits ks'
