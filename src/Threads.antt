-- ===== src/Threads.antt =====
-- Coroutines that wait for others (src/lua-uthread.c).
pub mod Waits
pub mod Keys
pub mod Entered
pub mod Wakes
mod Examples
use alilua_coevent_module.Prelude.{
  ℕ, zero, suc, ◌+◌, ◌-◌, ◌%◌, Bool, true, false, not, ◌&&◌, ◌||◌, Option, none, some, List, [],
  ◌∷◌, ◌++◌, length, if◌then◌else◌, ◌==◌, ltb, leb,
}
use alilua_coevent_module.Cosocket.{Value, nil, boolean, number, message, Answer, returns, yields}

-- `rb_key_t`, by its coroutine; `waiting` is the array up to `n`.
pub record Key : Type 0 where
  pub co : ℕ
  pub waiting : List ℕ
  pub wd : Bool
  pub w : ℕ
  pub ref : ℕ

-- The tree of keys; what `lua_status` says, whether a coroutine is suspended; and the coroutines that
-- were resumed because others ended, the latest first.
pub record Threads : Type 0 where
  pub keys : List Key
  pub suspended : ℕ → Bool
  pub woken : List ℕ

-- `rb_tree_find`
unfoldable pub find_key : ℕ → List Key → Option Key
find_key co [] = none
find_key co (k ∷ ks) = let rest = find_key co ks in if k.co == co then some k else rest

-- A write through the pointer to a key.
unfoldable pub put_key : Key → List Key → List Key
put_key key [] = []
put_key key (k ∷ ks) = let rest = put_key key ks in if k.co == key.co then key ∷ ks else k ∷ rest

abbrev pub new_key : ℕ → Key
new_key co = record { co = co; waiting = []; wd = false; w = 0; ref = 0 }

-- `get_thread_rbtree_key`: the key, inserted if it is not there.
unfoldable pub get_thread_rbtree_key : ℕ → List Key → Key × List Key
get_thread_rbtree_key co ks = elim (find_key co ks) [
  | none ↦ (new_key co, new_key co ∷ ks)
  | some k ↦ (k, ks)
]

-- `waiting[6]`
abbrev pub waiting_max : ℕ
waiting_max = 6

-- `key = get_thread_rbtree_key(L); key->w++; if(key->w > 1) key->wd = 1;`, with a uint16_t.
unfoldable pub count_wait : ℕ → List Key → List Key
count_wait l ks =
    let r = get_thread_rbtree_key l ks in
    let w = (r.0.w + 1) % 65536 in
    put_key (record (r.0) { w = w; wd = if ltb 1 w then true else r.0.wd }) r.1

-- One argument of `wait`, which is a coroutine: whether `l` waits for it.
unfoldable pub wait_for : ℕ → ℕ → Threads → Bool × Threads
wait_for l co s =
    let r = get_thread_rbtree_key co s.keys in
    let noted = put_key (record (r.0) { waiting = r.0.waiting ++ l ∷ [] }) r.1 in
    if not (s.suspended co)
    then (false, s)
    else if ltb (length r.0.waiting) waiting_max
    then (true, record s { keys = count_wait l noted })
    else (false, record s { keys = r.1 })

-- The arguments one after another: how many `l` waits for. An argument that is no coroutine is `none`.
unfoldable pub wait_all : ℕ → List (Option ℕ) → Threads → ℕ × Threads
wait_all l [] s = (0, s)
wait_all l (none ∷ cos) s = wait_all l cos s
wait_all l (some co ∷ cos) s =
    let r = wait_for l co s in
    let rest = wait_all l cos r.1 in ((if r.0 then 1 else 0) + rest.0, rest.1)

-- What `wait` is called with: a table; coroutines, the first of them certainly; or something else.
pub data Awaited : Type 0 where
  a_table : List (Option ℕ) → Awaited
  threads : ℕ → List (Option ℕ) → Awaited
  another : Awaited

unfoldable pub awaited : Awaited → List (Option ℕ)
awaited (a_table cos) = cos
awaited (threads co cos) = some co ∷ cos
awaited another = []

-- `lua_f_lua_uthread_wait`, called from coroutine `l`.
unfoldable pub lua_f_lua_uthread_wait : ℕ → Awaited → Threads → Answer × Threads
lua_f_lua_uthread_wait l a s =
    let r = wait_all l (awaited a) s in
    (if ltb 0 r.0 then yields else returns (number r.0 ∷ []), r.1)

-- `lua_f_lua_uthread_resume_in_c(co, n)`, as it is called again: Lua code runs and may change the
-- threads.
abbrev pub Resume : Type 0
Resume = ℕ → List Value → Threads → Threads

-- A coroutine that waited for its last: its key is reset, and it is resumed with the values that the
-- coroutine which ended has left, if it waited for one only and there are any.
unfoldable pub wake_waiter : Resume → List Value → Bool → Key → Threads → Threads
wake_waiter resume values deaded key s =
    let s' = record s { woken = key.co ∷ s.woken } in
    let plain = record s' { keys = put_key (record key { w = 0 }) s.keys } in
    let reset = record s' { keys = put_key (record key { w = 0; wd = false }) s.keys } in
    if ltb 0 (length values) && not key.wd
    then resume key.co values plain
    else resume key.co (boolean (key.wd || deaded) ∷ []) reset

-- One round of `lua_f_lua_uthread_resume_waitings`.
unfoldable pub resume_waiter : Resume → List Value → Bool → ℕ → Threads → Threads
resume_waiter resume values deaded co s =
    let r = get_thread_rbtree_key co s.keys in
    let left = (r.0.w + 65535) % 65536 in
    let key = record (r.0) { w = left } in
    let counted = record s { keys = put_key key r.1 } in
    if not (s.suspended co)
    then record s { keys = r.1 }
    else if left == 0
    then wake_waiter resume values deaded key counted
    else counted

-- The loop over `key->waiting`. Nobody can begin to wait for a coroutine that has ended, so the array
-- stays as it is meanwhile.
unfoldable pub resume_waiters : Resume → List Value → Bool → List ℕ → Threads → Threads
resume_waiters resume values deaded [] s = s
resume_waiters resume values deaded (co ∷ cos) s =
    resume_waiters resume values deaded cos (resume_waiter resume values deaded co s)

-- `rb_tree_remove`
unfoldable pub remove_key : ℕ → List Key → List Key
remove_key co [] = []
remove_key co (k ∷ ks) = let rest = remove_key co ks in if k.co == co then ks else k ∷ rest

-- `lua_f_lua_uthread_resume_waitings`, with the values on the stack of the coroutine `l`.
unfoldable pub lua_f_lua_uthread_resume_waitings :
    Resume → List Value → Bool → ℕ → Threads → Threads
lua_f_lua_uthread_resume_waitings resume values deaded l s = elim (find_key l s.keys) [
  | none ↦ s
  | some k ↦
      let s' = resume_waiters resume values deaded k.waiting s in
      record s' { keys = remove_key l s'.keys }
]

-- How `lua_resume` ends, with the values on the stack.
pub data Outcome : Type 0 where
  yielded finished failed : List Value → Outcome

-- The stack after an error: the last two values, the first of them made nil.
unfoldable pub error_values : List Value → List Value
error_values [] = []
error_values (e ∷ []) = nil ∷ []
error_values (v ∷ e ∷ []) = nil ∷ e ∷ []
error_values (v ∷ e ∷ f ∷ vs) = error_values (e ∷ f ∷ vs)

abbrev pub LuaResume : Type 0
LuaResume = ℕ → List Value → Threads → Outcome × Threads

-- What follows the end of `lua_resume`: those that wait for the coroutine are resumed if it has
-- ended. It then has a key, made for it if there is none.
unfoldable pub after_run : Resume → ℕ → Outcome × Threads → Threads
after_run resume l (yielded vs, s) = s
after_run resume l (finished vs, s) =
    let s' = record s { keys = (get_thread_rbtree_key l s.keys).1 } in
    lua_f_lua_uthread_resume_waitings resume vs true l s'
after_run resume l (failed vs, s) =
    let s' = record s { keys = (get_thread_rbtree_key l s.keys).1 } in
    lua_f_lua_uthread_resume_waitings resume (error_values vs) false l s'

-- `lua_f_lua_uthread_resume_in_c`: `lua_resume` runs the coroutine, `resume` those that wait for it.
unfoldable pub lua_f_lua_uthread_resume_in_c :
    LuaResume → Resume → ℕ → List Value → Threads → Outcome × Threads
lua_f_lua_uthread_resume_in_c lua_resume resume l values s =
    let r = lua_resume l values s in (r.0, after_run resume l r)

abbrev pub last_value : List Value → Value
last_value [] = nil
last_value (v ∷ []) = v
last_value (v ∷ w ∷ vs) = last_value (w ∷ vs)

-- The results of the method `resume`.
abbrev pub results_of : Outcome → List Value
results_of (yielded vs) = boolean true ∷ vs
results_of (finished vs) = boolean true ∷ vs
results_of (failed vs) = nil ∷ last_value vs ∷ []

-- `lua_f_lua_uthread_resume` of the coroutine `co`, on whose stack there are `height` values.
unfoldable pub lua_f_lua_uthread_resume :
    LuaResume → Resume → ℕ → ℕ → List Value → Threads → Answer × Threads
lua_f_lua_uthread_resume lua_resume resume co height values s =
    let r = lua_resume co values s in
    if not (s.suspended co) && height == 0
    then (returns (boolean false ∷ message "cannot resume dead coroutine" ∷ []), s)
    else (returns (results_of r.0), after_run resume co r)

-- `lua_f_lua_uthread_create`: `lua_newthread` gives the coroutine `co`, and `luaL_ref` its reference.
unfoldable pub lua_f_lua_uthread_create : ℕ → ℕ → Threads → Threads
lua_f_lua_uthread_create co ref s =
    let r = get_thread_rbtree_key co s.keys in
    record s { keys = put_key (record (r.0) { ref = ref }) r.1 }

-- What `spawn` returns: the coroutine, or nil and the error.
pub data Spawned : Type 0 where
  a_thread : ℕ → Spawned
  an_error : Value → Spawned

abbrev spawned : ℕ → Outcome → Spawned
spawned co (yielded vs) = a_thread co
spawned co (finished vs) = a_thread co
spawned co (failed vs) = an_error (last_value (error_values vs))

-- `lua_f_lua_uthread_spawn`: a coroutine is made as by `create`, and runs at once.
unfoldable pub lua_f_lua_uthread_spawn :
    LuaResume → Resume → ℕ → ℕ → List Value → Threads → Spawned × Threads
lua_f_lua_uthread_spawn lua_resume resume co ref values s =
    let made = lua_f_lua_uthread_create co ref s in
    let r = lua_f_lua_uthread_resume_in_c lua_resume resume co values made in (spawned co r.0, r.1)
