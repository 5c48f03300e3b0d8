-- ===== src/Runtime.antt =====
-- The runtime, libwired/base/wi-runtime.c: instances, their retain counts and options. The class
-- table is a parameter; one thread is modelled, so the retain count lock stands for nothing.
pub mod Pools
pub mod Releasing
pub mod Draining
use libwired.Base.{
  ℕ, ◌+◌, ◌-◌, ◌%◌, Bool, true, false, not, ◌&&◌, ◌||◌, List, [], ◌∷◌, Option, none, some, ltb,
  ◌==◌, if◌then◌else◌, Run, ok, bad_access, ◌>>=◌, ◌>>◌, wi_assert,
}

-- `base.magic`: `WI_RUNTIME_MAGIC`, `_WI_RUNTIME_RELEASED_MAGIC`, or what else the memory holds.
pub data Magic : Type 0 where
  valid released other : Magic

-- `wi_runtime_base_t`; the bits of `options` stand apart.
pub record Base : Type 0 where
  pub magic : Magic
  pub id : ℕ
  pub retain_count : ℕ
  pub zombie : Bool
  pub immutable : Bool
  pub mutable : Bool

-- `struct _wi_pool` behind its base: the arrays of instances, the newest first, each in the order of
-- its slots.
pub record Pool : Type 0 where
  pub count : ℕ
  pub arrays : List (List ℕ)

-- `_wi_pool_stack_t`: the pools up to `length`, the top first, and the capacity.
pub record Stack : Type 0 where
  pub pools : List ℕ
  pub capacity : ℕ

-- The memory: the base of each instance, by its address, if it is allocated; what follows the base
-- of a pool; the thread's `poolstack`, which may be NULL; and `_wi_zombie_enabled`.
pub record World : Type 0 where
  pub heap : ℕ → Option Base
  pub pools : ℕ → Pool
  pub stack : Option Stack
  pub zombie_enabled : Bool

abbrev pub update {ℓ} : {A : Type ℓ} → (ℕ → A) → ℕ → A → ℕ → A
update f a v b = if b == a then v else f b

-- `_wi_runtime_class_table`, by class id: how many there are, and their functions, which may be NULL.
pub record Classes : Type 1 where
  pub count : ℕ
  pub pool_id : ℕ
  pub dealloc : ℕ → Option (World → ℕ → Run World)
  pub copy : ℕ → Option (World → ℕ → Run (ℕ × World))
  pub is_equal : ℕ → Option (World → ℕ → ℕ → Run Bool)

-- A read of `WI_RUNTIME_BASE(instance)`
unfoldable pub base_at : World → ℕ → Run Base
base_at w a = elim (w.heap a) [ some b ↦ ok b | none ↦ bad_access ]

abbrev pub is_valid : Magic → Bool
is_valid valid = true
is_valid _ = false

-- `_WI_RUNTIME_ASSERT_MAGIC` and `_WI_RUNTIME_ASSERT_ZOMBIE`
abbrev pub assert_live : Base → Run (Unit {0})
assert_live b = wi_assert (is_valid b.magic) >> wi_assert (not b.zombie)

abbrev pub write_base : World → ℕ → Base → World
write_base w a b = record w { heap = update w.heap a (some b) }

-- `wi_free`
abbrev pub free : World → ℕ → World
free w a = record w { heap = update w.heap a none }

-- `wi_runtime_create_instance_with_options`, with the address that `wi_malloc` returns.
unfoldable pub create_instance_with_options : Classes → World → ℕ → ℕ → Bool → Bool → Run World
create_instance_with_options classes w a id immutable mutable = do
  wi_assert (ltb 0 id && ltb id classes.count)
  ok (
      write_base w a (record {
        magic = Magic.valid;
        id = id;
        retain_count = 1;
        zombie = false;
        immutable = immutable;
        mutable = mutable;
      }))

unfoldable pub make_immutable : World → ℕ → Run World
make_immutable w a = if a == 0 then ok w else do
  b ← base_at w a
  ok (if b.mutable then write_base w a (record b { mutable = false; immutable = true }) else w)

-- The count has 16 bits.
unfoldable pub retain : World → ℕ → Run World
unfolding base_at
retain w a = if a == 0 then ok w else do
  b ← base_at w a
  assert_live b
  ok (write_base w a (record b { retain_count = (b.retain_count + 1) % 65536 }))

unfoldable pub retain_count : World → ℕ → Run ℕ
retain_count w a = if a == 0 then ok 0 else do b ← base_at w a; assert_live b; ok b.retain_count

-- The rest of `wi_release`, behind its checks. The instance that a zombie was before is closed
-- first, if it is a file or a socket; that is not modelled.
unfoldable pub release_base : Classes → World → ℕ → Base → Run World
release_base classes w a b =
    let n = (b.retain_count + 65535) % 65536 in
    let v = write_base w a (record b { retain_count = n }) in
    elim (n == 0) [
      | false ↦ ok v
      | true ↦ elim (w.zombie_enabled && not (b.id == classes.pool_id)) [
        | true ↦ ok (write_base w a (record b { retain_count = (n + 1) % 65536; zombie = true }))
        | false ↦ elim (classes.dealloc b.id) [
          | none ↦ ok (free v a)
          | some dealloc ↦ do u ← dealloc v a; ok (free u a)
        ]
      ]
    ]

unfoldable pub release : Classes → World → ℕ → Run World
release classes w a =
    if a == 0 then ok w else do b ← base_at w a; assert_live b; release_base classes w a b

-- `wi_copy`
unfoldable pub copy : Classes → World → ℕ → Run (ℕ × World)
unfolding base_at retain
copy classes w a = if a == 0 then ok (0, w) else do
  b ← base_at w a
  assert_live b
  elim b.immutable [
    | true ↦ do v ← retain w a; ok (a, v)
    | false ↦ elim (classes.copy b.id) [
      | some make ↦ make w a
      | none ↦ wi_assert false >> ok (0, w)
    ]
  ]

unfoldable pub mutable_copy : Classes → World → ℕ → Run (ℕ × World)
unfolding base_at
mutable_copy classes w a = if a == 0 then ok (0, w) else do
  b ← base_at w a
  assert_live b
  wi_assert (b.immutable || b.mutable)
  elim (classes.copy b.id) [
    | some make ↦ do
      (c, v) ← make w a
      d ← base_at v c
      ok (c, write_base v c (record d { immutable = false; mutable = true }))
    | none ↦ wi_assert false >> ok (0, w)
  ]

-- Two classes are one when their ids are.
unfoldable pub is_equal : Classes → World → ℕ → ℕ → Run Bool
unfolding base_at
is_equal classes w a b = if a == b then ok true else if a == 0 || b == 0 then ok false else (do
  x ← base_at w a
  y ← base_at w b
  wi_assert (is_valid x.magic)
  wi_assert (is_valid y.magic)
  wi_assert (not x.zombie)
  wi_assert (not y.zombie)
  if not (x.id == y.id)
      then ok false
      else elim (classes.is_equal x.id) [ some test ↦ test w a b | none ↦ ok false ])
