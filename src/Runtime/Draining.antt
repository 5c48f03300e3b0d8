-- ===== src/Runtime/Draining.antt =====
-- What autoreleasing does to a pool, and what draining it does to the instances,
-- libwired/base/wi-pool.c.
use mathlib.Core.Path.{subst}
use libwired.Base.{
  ℕ, ◌+◌, ◌≤◌, ◌≡◌, ◌≢◌, refl, sym, ap, ◌∙◌, false, List, [], ◌∷◌, ◌++◌, All, some, count,
  count-append, length, length-append, leb, ◌==◌, to_nat, Run, ok, ◌>>=◌, arith, Bool-cases, inl,
  inr, Returns, ==_refl, bind-ok, bind-same, bind_assoc, wi_assert,
}
use libwired.Runtime.{World, Pool, Classes, update, base_at, is_valid, release}
use libwired.Runtime.Pools.{
  pool_array_size, release_all, release_arrays, drain, add_instance, current_pool, autorelease,
}
use libwired.Runtime.Releasing.{AllReleasable, after_releases, release_all-after}

-- What the arrays hold, in the order in which a drain releases it
abbrev pub instances : List (List ℕ) → List ℕ
instances [] = []
instances (array ∷ others) = array ++ instances others

-- The count is that of the instances, and no array is longer than its slots.
pub record Valid (p : Pool) : Type 0 where
  pub counted : p.count ≡ length (instances p.arrays)
  pub in_slots : All (λ array. length array ≤ pool_array_size) p.arrays

length-add_instance :
    (arrays : List (List ℕ)) (a : ℕ)
    → length (instances (add_instance arrays a)) ≡ length (instances arrays) + 1
unfolding add_instance
length-add_instance [] a = omega arith
length-add_instance (array ∷ others) a = elim (Bool-cases (leb pool_array_size (length array))) [
  | inl e ↦ rw e (omega arith)
  | inr e ↦ rw e (
      omega (
        arith,
        length-append (array ++ a ∷ []) (instances others),
        length-append array (a ∷ []),
        length-append array (instances others),
      ))
]

count-add_instance :
    (q : ℕ) (arrays : List (List ℕ)) (a : ℕ)
    → count q (instances (add_instance arrays a)) ≡ to_nat (q == a) + count q (instances arrays)
unfolding add_instance
count-add_instance q [] a = refl
count-add_instance q (array ∷ others) a = elim (Bool-cases (leb pool_array_size (length array))) [
  | inl e ↦ rw e refl
  | inr e ↦ rw e (
      omega (
        arith,
        count-append q (array ++ a ∷ []) (instances others),
        count-append q array (a ∷ []),
        count-append q array (instances others),
      ))
]

add_instance-in_slots :
    (arrays : List (List ℕ)) (a : ℕ)
    → All (λ array. length array ≤ pool_array_size) arrays
    → All (λ array. length array ≤ pool_array_size) (add_instance arrays a)
unfolding add_instance
add_instance-in_slots [] a h = (omega arith, tt)
add_instance-in_slots (array ∷ others) a h =
    elim (Bool-cases (leb pool_array_size (length array))) [
      | inl e ↦ rw e (omega arith, h)
      | inr e ↦ rw e (ground (arith, length-append array (a ∷ [])), h.1)
    ]

-- An autorelease puts the instance into the pool on top of the stack, and nowhere else.
pub autorelease-Valid :
    (w : World) (a pool : ℕ) (below : List ℕ) (capacity : ℕ)
    → a ≢ 0
    → w.stack ≡ some (record { pools = pool ∷ below; capacity = capacity })
    → Valid (w.pools pool)
    → Returns (autorelease w a) (λ v.
      Valid (v.pools pool)
      × ((q : ℕ)
          → count q (instances (v.pools pool).arrays)
            ≡ to_nat (q == a) + count q (instances (w.pools pool).arrays))
      × (v.heap ≡ w.heap)
      × (v.stack ≡ w.stack))
unfolding autorelease current_pool
autorelease-Valid w a pool below capacity real top h =
    let p = w.pools pool in
    let q : Pool = record { count = p.count + 1; arrays = add_instance p.arrays a } in
    let v : World = record w { pools = update w.pools pool q } in
    let at : v.pools pool ≡ q = rw (==_refl pool) refl in
    let not_null : (a == 0) ≡ false = ground (arith, real) in
    let current : current_pool w ≡ ok (some pool) = rw (current_pool, top) refl in
    let ran : autorelease w a ≡ ok v = rw not_null (bind-ok _ current) in
    let valid : Valid q = record {
      counted = omega (arith, h.counted, length-add_instance p.arrays a);
      in_slots = add_instance-in_slots p.arrays a h.in_slots;
    } in
    (
      v,
      ran,
      (
        subst Valid (sym at) valid,
        λ x. ap (λ p. count x (instances p.arrays)) at ∙ count-add_instance x p.arrays a,
        refl,
        refl,
      ),
    )

release_all-append :
    (classes : Classes) (xs ys : List ℕ) (w : World)
    → release_all classes w (xs ++ ys)
      ≡ (release_all classes w xs >>= λ v. release_all classes v ys)
unfolding release_all
release_all-append classes [] ys w = refl
release_all-append classes (x ∷ xs) ys w =
    let others : World → Run World = λ v. release_all classes v ys in
    bind-same (base_at w x) _ _ (λ b.
      bind-same (wi_assert (is_valid b.magic)) _ _ (λ _.
        bind-same (release classes w x) _ _ (λ v. release_all-append classes xs ys v)
        ∙ sym (bind_assoc (release classes w x) (λ v. release_all classes v xs) others))
      ∙ sym (bind_assoc (wi_assert (is_valid b.magic)) _ others))
    ∙ sym (bind_assoc (base_at w x) _ others)

release_arrays-instances :
    (classes : Classes) (arrays : List (List ℕ)) (w : World)
    → release_arrays classes w arrays ≡ release_all classes w (instances arrays)
unfolding release_arrays release_all
release_arrays-instances classes [] w = refl
release_arrays-instances classes (array ∷ others) w =
    bind-same (release_all classes w array) _ _ (λ v. release_arrays-instances classes others v)
    ∙ sym (release_all-append classes array (instances others) w)

-- A drain releases each instance as often as it was autoreleased, and empties the pool.
pub drain-after :
    (classes : Classes) (w : World) (pool : ℕ)
    → w.zombie_enabled ≡ false
    → AllReleasable classes w (instances (w.pools pool).arrays)
    → Returns (drain classes w pool) (λ v.
      ((x : ℕ) → v.heap x ≡ after_releases (w.heap x) (count x (instances (w.pools pool).arrays)))
      × (v.pools pool ≡ record { count = 0; arrays = [] }))
unfolding drain
drain-after classes w pool off all =
    let (v, ran, (heap, pools)) =
      release_all-after classes (instances (w.pools pool).arrays) w off all in
    (
      record v { pools = update v.pools pool (record { count = 0; arrays = [] }) },
      bind-ok _ (release_arrays-instances classes (w.pools pool).arrays w ∙ ran),
      (heap, rw (==_refl pool) refl),
    )
