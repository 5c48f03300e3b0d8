-- ===== src/Runtime/Pools.antt =====
-- Autorelease pools, libwired/base/wi-pool.c. The record of locations that the debug mode keeps is
-- left out, and so is the context, which only messages show.
use libwired.Base.{
  ℕ, ◌+◌, false, List, [], ◌∷◌, ◌++◌, Option, none, some, length, leb, ◌==◌, if◌then◌else◌, max,
  Run, ok, bad_access, ◌>>=◌, ◌>>◌, wi_assert,
}
use libwired.Runtime.{World, Stack, Classes, update, base_at, is_valid, release}

-- `_WI_POOL_ARRAY_SIZE`, with words of 8 bytes
abbrev pub pool_array_size : ℕ
pool_array_size = 510

-- `_WI_POOL_STACK_INITIAL_SIZE`
abbrev pub pool_stack_initial_size : ℕ
pool_stack_initial_size = 4

abbrev pub stack_of : Option Stack → Stack
stack_of none = record { pools = []; capacity = 0 }
stack_of (some s) = s

-- `_wi_pool_add_pool`; `wi_malloc` clears a new stack.
unfoldable pub add_pool : World → ℕ → World
add_pool w pool =
    let s = stack_of w.stack in
    let capacity =
      if leb s.capacity (length s.pools)
      then max (s.capacity + s.capacity) pool_stack_initial_size
      else s.capacity in
    record w { stack = some (record { pools = pool ∷ s.pools; capacity = capacity }) }

-- `wi_pool_init` on a new instance; `wi_malloc` cleared it.
unfoldable pub init : World → ℕ → World
unfolding add_pool
init w pool =
    add_pool (record w { pools = update w.pools pool (record { count = 0; arrays = [] }) }) pool

-- `_wi_pool_pool`: NULL without a stack; a stack that has no pool is read below its first slot.
unfoldable pub current_pool : World → Run (Option ℕ)
current_pool w = elim w.stack [
  | none ↦ ok none
  | some s ↦ elim s.pools [ [] ↦ bad_access | pool ∷ below ↦ ok (some pool) ]
]

-- The inner loop of `_wi_pool_drain_pool`
unfoldable pub release_all : Classes → World → List ℕ → Run World
unfolding base_at release
release_all classes w [] = ok w
release_all classes w (instance_ ∷ others) = do
  b ← base_at w instance_
  wi_assert (is_valid b.magic)
  v ← release classes w instance_
  release_all classes v others

-- The outer loop, over the arrays
unfoldable pub release_arrays : Classes → World → List (List ℕ) → Run World
unfolding release_all
release_arrays classes w [] = ok w
release_arrays classes w (array ∷ others) = do
  v ← release_all classes w array
  release_arrays classes v others

-- `_wi_pool_drain_pool`
unfoldable pub drain : Classes → World → ℕ → Run World
unfolding release_arrays
drain classes w pool = do
  v ← release_arrays classes w (w.pools pool).arrays
  ok (record v { pools = update v.pools pool (record { count = 0; arrays = [] }) })

-- `_wi_pool_remove_pool`
unfoldable pub remove_pool : World → ℕ → Run World
remove_pool w pool = elim w.stack [
  | none ↦ wi_assert false >> ok w
  | some s ↦ elim s.pools [
    | [] ↦ bad_access
    | top ∷ below ↦ do
      wi_assert (pool == top)
      ok (record w {
        stack = if length below == 0 then none else some (record s { pools = below });
      })
  ]
]

-- `_wi_pool_dealloc`
unfoldable pub dealloc : Classes → World → ℕ → Run World
unfolding drain remove_pool
dealloc classes w pool = do v ← drain classes w pool; remove_pool v pool

-- The slot that `_wi_autorelease` takes: in the newest array, or in a new one if that is full.
unfoldable pub add_instance : List (List ℕ) → ℕ → List (List ℕ)
add_instance [] a = (a ∷ []) ∷ []
add_instance (array ∷ others) a =
    if leb pool_array_size (length array)
    then (a ∷ []) ∷ array ∷ others
    else (array ++ a ∷ []) ∷ others

-- `_wi_autorelease`; without a pool an assertion fails.
unfoldable pub autorelease : World → ℕ → Run World
unfolding current_pool add_instance
autorelease w a = if a == 0 then ok w else do
  pool ← current_pool w
  elim pool [
    | none ↦ wi_assert false >> ok w
    | some pool ↦
        let p = w.pools pool in
        ok (record w {
          pools =
              update w.pools pool
                (record { count = p.count + 1; arrays = add_instance p.arrays a });
        })
  ]
