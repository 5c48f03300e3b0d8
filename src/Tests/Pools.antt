-- ===== src/Tests/Pools.antt =====
-- The theorems on pools at a small memory: one pool, at address 1, with an instance, at 5, twice.
use mathlib.Core.Path.{subst}
use libwired.Base.{
  ℕ, ◌+◌, ◌≡◌, refl, sym, true, false, [], ◌∷◌, none, some, count, ◌==◌, if◌then◌else◌, to_nat,
  Returns, arith,
}
use libwired.Runtime.{Base, Magic, Pool, World, Classes}
use libwired.Runtime.Pools.{drain, autorelease}
use libwired.Runtime.Releasing.{Releasable, AllReleasable, after_releases}
use libwired.Runtime.Draining.{Valid, instances, drain-after, autorelease-Valid}

abbrev plain_classes : Classes
plain_classes = record {
  count = 9;
  pool_id = 1;
  dealloc = λ id. none;
  copy = λ id. none;
  is_equal = λ id. none;
}

abbrev number_base : Base
number_base = record {
  magic = Magic.valid;
  id = 3;
  retain_count = 3;
  zombie = false;
  immutable = true;
  mutable = false;
}

abbrev twice : Pool
twice = record { count = 2; arrays = (5 ∷ 5 ∷ []) ∷ [] }

abbrev small_world : World
small_world = record {
  heap = λ a. if a == 5 then some number_base else none;
  pools = λ a. twice;
  stack = some (record { pools = 1 ∷ []; capacity = 4 });
  zombie_enabled = false;
}

five-Releasable : Releasable plain_classes small_world 5 2
five-Releasable = record {
  base = number_base;
  found = refl;
  valid = refl;
  alive = refl;
  enough = omega arith;
  small = omega arith;
  plain = refl;
  not_null = omega arith;
}

all-Releasable : AllReleasable plain_classes small_world (5 ∷ 5 ∷ [])
all-Releasable a left =
    let same : a ≡ 5 = ground arith in
    subst (λ a. Releasable plain_classes small_world a (count a (5 ∷ 5 ∷ []))) (sym same)
      five-Releasable

drain-after_example : Returns (drain plain_classes small_world 1) (λ v.
    ((x : ℕ) → v.heap x ≡ after_releases (small_world.heap x) (count x (instances twice.arrays)))
    × (v.pools 1 ≡ record { count = 0; arrays = [] }))
drain-after_example = drain-after plain_classes small_world 1 refl all-Releasable

autorelease-Valid_example : Returns (autorelease small_world 5) (λ v.
    Valid (v.pools 1)
    × ((q : ℕ)
        → count q (instances (v.pools 1).arrays)
          ≡ to_nat (q == 5) + count q (instances twice.arrays))
    × (v.heap ≡ small_world.heap)
    × (v.stack ≡ small_world.stack))
autorelease-Valid_example =
    autorelease-Valid small_world 5 1 [] 4 (omega arith) refl
      (record { counted = refl; in_slots = (omega arith, tt) })
