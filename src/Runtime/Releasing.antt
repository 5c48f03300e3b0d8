-- ===== src/Runtime/Releasing.antt =====
-- What releases do to the retain counts, libwired/base/wi-runtime.c and the inner loop of
-- `_wi_pool_drain_pool` of libwired/base/wi-pool.c.
use mathlib.Core.Path.{subst}
use libwired.Base.{
  ℕ, ◌+◌, ◌-◌, ◌%◌, ◌≤◌, ◌<◌, ◌≡◌, ◌≢◌, refl, sym, ap, ◌∙◌, true, false, not, ◌&&◌, List, [], ◌∷◌,
  Option, none, some, count, ◌==◌, if◌then◌else◌, to_nat, ok, arith, Bool-cases, inl, inr, Returns,
  ==_iff, ==_refl, bind-ok, wi_assert-holds,
}
use libwired.Runtime.{
  World, Base, Classes, update, base_at, is_valid, free, write_base, release, release_base,
  assert_live,
}
use libwired.Runtime.Pools.{release_all}

-- An instance whose base is `b`, after `n` releases: gone at the last.
abbrev pub after_releases : Option Base → ℕ → Option Base
after_releases none n = none
after_releases (some b) n =
    if n == 0
    then some b
    else if b.retain_count == n
    then none
    else some (record b { retain_count = b.retain_count - n })

-- The instance at `a` can be released `n` times, and its class has no `dealloc`.
pub record Releasable (classes : Classes) (w : World) (a n : ℕ) : Type 0 where
  pub base : Base
  pub found : w.heap a ≡ some base
  pub valid : is_valid base.magic ≡ true
  pub alive : base.zombie ≡ false
  pub enough : n ≤ base.retain_count
  pub small : base.retain_count < 65536
  pub plain : classes.dealloc base.id ≡ none
  pub not_null : a ≢ 0

freed :
    (f : ℕ → Option Base) (a : ℕ) (o : Option Base) (x : ℕ)
    → update (update f a o) a none x ≡ update f a none x
freed f a o x = elim (Bool-cases (x == a)) [ inl e ↦ rw e refl | inr e ↦ rw e refl ]

base_at-found : (w : World) (a : ℕ) {b : Base} → w.heap a ≡ some b → base_at w a ≡ ok b
unfolding base_at
base_at-found w a e = rw (base_at, e) refl

release-base :
    (classes : Classes) (w : World) (a : ℕ) {n : ℕ} (r : Releasable classes w a n)
    → release classes w a ≡ release_base classes w a r.base
unfolding release
release-base classes w a r =
    let real : (a == 0) ≡ false = ground (arith, r.not_null) in
    let live : assert_live r.base ≡ ok tt = rw (r.valid, r.alive) refl in
    rw real (bind-ok _ (base_at-found w a r.found) ∙ bind-ok _ live)

-- One release of an instance that has the count for it
release-after :
    (classes : Classes) (w : World) (a k : ℕ)
    → w.zombie_enabled ≡ false
    → (r : Releasable classes w a (1 + k))
    → Returns (release classes w a) (λ v.
      ((x : ℕ) → v.heap x ≡ update w.heap a (after_releases (some r.base) 1) x)
      × (v.pools ≡ w.pools)
      × (v.zombie_enabled ≡ false))
unfolding release_base
release-after classes w a k off r =
    let rc = r.base.retain_count in
    let n : (rc + 65535) % 65536 ≡ rc - 1 = omega (arith, r.enough, r.small) in
    let enter = release-base classes w a r in
    elim (Bool-cases (rc == 1)) [
      | inl e ↦
          let zero : ((rc + 65535) % 65536 == 0) ≡ true = ground arith in
          let test : (w.zombie_enabled && not (r.base.id == classes.pool_id)) ≡ false =
            ap (λ b. b && not (r.base.id == classes.pool_id)) off in
          (
            free (write_base w a (record r.base { retain_count = (rc + 65535) % 65536 })) a,
            enter ∙ rw (release_base, zero, test, r.plain) refl,
            (λ x. freed w.heap a _ x ∙ rw e refl, refl, off),
          )
      | inr e ↦
          let more : ((rc + 65535) % 65536 == 0) ≡ false = ground (arith, n, r.enough) in
          let kept : ℕ → World = λ n. write_base w a (record r.base { retain_count = n }) in
          (
            kept (rc - 1),
            enter ∙ rw (release_base, more) refl ∙ ap (λ n. ok (kept n)) n,
            (λ x. rw e refl, refl, off),
          )
    ]

after_once :
    (b : Base) (k : ℕ)
    → 1 + k ≤ b.retain_count
    → after_releases (after_releases (some b) 1) k ≡ after_releases (some b) (1 + k)
after_once b k h =
    let rc = b.retain_count in
    let never : (1 + k == 0) ≡ false = ground arith in
    let fewer : rc - 1 - k ≡ rc - (1 + k) = omega arith in
    elim (Bool-cases (rc == 1)) [
      | inl e ↦ let last : (rc == 1 + k) ≡ true = ground (arith, h) in rw (e, never, last) refl
      | inr e ↦ elim (Bool-cases (k == 0)) [
        | inl f ↦
            let more : (rc == 1 + k) ≡ false = ground (arith, h) in
            let one_less : rc - 1 ≡ rc - (1 + k) = ground (arith, h) in
            rw (e, f, never, more) (ap (λ n. some (record b { retain_count = n })) one_less)
        | inr f ↦ elim (Bool-cases (rc == 1 + k)) [
          | inl g ↦
              let last : (rc - 1 == k) ≡ true = ground (arith, h) in rw (e, f, never, g, last) refl
          | inr g ↦
              let more : (rc - 1 == k) ≡ false = ground (arith, h) in
              rw (e, f, never, g, more) (ap (λ n. some (record b { retain_count = n })) fewer)
        ]
      ]
    ]

-- The instance that was released can be released as often as is left.
released-Releasable :
    (classes : Classes) (w v : World) (i k : ℕ) (r : Releasable classes w i (1 + k))
    → 0 < k
    → v.heap i ≡ after_releases (some r.base) 1
    → Releasable classes v i k
released-Releasable classes w v i k r some_left e =
    let more : (r.base.retain_count == 1) ≡ false = ground (arith, r.enough, some_left) in
    record {
      base = record r.base { retain_count = r.base.retain_count - 1 };
      found = e ∙ rw more refl;
      valid = r.valid;
      alive = r.alive;
      enough = omega (arith, r.enough);
      small = omega (arith, r.small);
      plain = r.plain;
      not_null = r.not_null;
    }

other-Releasable :
    (classes : Classes) (w v : World) (a n : ℕ)
    → Releasable classes w a n
    → v.heap a ≡ w.heap a
    → Releasable classes v a n
other-Releasable classes w v a n r e = record {
  base = r.base;
  found = e ∙ r.found;
  valid = r.valid;
  alive = r.alive;
  enough = r.enough;
  small = r.small;
  plain = r.plain;
  not_null = r.not_null;
}

updated : (f : ℕ → Option Base) (a : ℕ) (o : Option Base) → update f a o a ≡ o
updated f a o = rw (==_refl a) refl

-- Each instance that the list has can be released as often as it stands there.
abbrev pub AllReleasable : Classes → World → List ℕ → Type 0
AllReleasable classes w instances =
    (a : ℕ) → 0 < count a instances → Releasable classes w a (count a instances)

abbrev pub Released : World → List ℕ → World → Type 0
Released w instances v =
    ((x : ℕ) → v.heap x ≡ after_releases (w.heap x) (count x instances)) × (v.pools ≡ w.pools)

count_first : (i : ℕ) (others : List ℕ) → count i (i ∷ others) ≡ 1 + count i others
count_first i others = ap (λ b. to_nat b + count i others) (==_refl i)

count_other : (a i : ℕ) (others : List ℕ) → (a == i) ≡ false → count a (i ∷ others) ≡ count a others
count_other a i others e = ap (λ b. to_nat b + count a others) e ∙ omega arith

-- After the first release, the rest of the list can still be released.
rest-Releasable :
    (classes : Classes) (w v : World) (i : ℕ) (others : List ℕ)
    → AllReleasable classes w (i ∷ others)
    → (r : Releasable classes w i (1 + count i others))
    → ((x : ℕ) → v.heap x ≡ update w.heap i (after_releases (some r.base) 1) x)
    → AllReleasable classes v others
rest-Releasable classes w v i others h r heap a left = elim (Bool-cases (a == i)) [
  | inl e ↦
      let same = sym ((==_iff a i).0 e) in
      subst (λ a. Releasable classes v a (count a others)) same
        (released-Releasable classes w v i (count i others) r
          (subst (λ a. 0 < count a others) (sym same) left) (heap i ∙ updated w.heap i _))
  | inr e ↦
      let uncounted = count_other a i others e in
      other-Releasable classes w v a (count a others)
        (subst (Releasable classes w a) uncounted (h a (subst (λ n. 0 < n) (sym uncounted) left)))
        (heap a ∙ rw e refl)
]

-- The base at an address after the first release and the others
first_and_rest :
    (classes : Classes) (w v : World) (i : ℕ) (others : List ℕ)
    (r : Releasable classes w i (1 + count i others))
    → ((x : ℕ) → v.heap x ≡ update w.heap i (after_releases (some r.base) 1) x)
    → (x : ℕ)
    → after_releases (v.heap x) (count x others) ≡ after_releases (w.heap x) (count x (i ∷ others))
first_and_rest classes w v i others r heap x = elim (Bool-cases (x == i)) [
  | inl e ↦
      subst
        (λ x.
          after_releases (v.heap x) (count x others)
          ≡ after_releases (w.heap x) (count x (i ∷ others)))
        (sym ((==_iff x i).0 e))
        (ap (λ o. after_releases o (count i others)) (heap i ∙ updated w.heap i _)
          ∙ after_once r.base (count i others) r.enough
          ∙ ap (λ n. after_releases (some r.base) n) (sym (count_first i others))
          ∙ ap (λ o. after_releases o (count i (i ∷ others))) (sym r.found))
  | inr e ↦
      ap (λ o. after_releases o (count x others)) (heap x ∙ rw e refl)
      ∙ ap (λ n. after_releases (w.heap x) n) (sym (count_other x i others e))
]

release_all_step :
    (classes : Classes) (w : World) (i : ℕ) (others : List ℕ)
    → w.zombie_enabled ≡ false
    → AllReleasable classes w (i ∷ others)
    → Releasable classes w i (1 + count i others)
    → ((v : World)
        → v.zombie_enabled ≡ false
        → AllReleasable classes v others
        → Returns (release_all classes v others) (Released v others))
    → Returns (release_all classes w (i ∷ others)) (Released w (i ∷ others))
unfolding release_all
release_all_step classes w i others off h r next =
    let (v, ran, (heap, pools, still_off)) = release-after classes w i (count i others) off r in
    let (u, ran_u, (heap_u, pools_u)) =
      next v still_off (rest-Releasable classes w v i others h r heap) in
    (
      u,
      bind-ok _ (base_at-found w i r.found) ∙ wi_assert-holds _ r.valid ∙ bind-ok _ ran ∙ ran_u,
      (λ x. heap_u x ∙ first_and_rest classes w v i others r heap x, pools_u ∙ pools),
    )

-- Releasing the instances of a list, each as often as it stands there
pub release_all-after :
    (classes : Classes) (instances : List ℕ) (w : World)
    → w.zombie_enabled ≡ false
    → AllReleasable classes w instances
    → Returns (release_all classes w instances) (Released w instances)
unfolding release_all
release_all-after classes [] w off h = (w, refl, (λ x. untouched (w.heap x), refl))
  where
    untouched : (o : Option Base) → o ≡ after_releases o 0
    untouched none = refl
    untouched (some b) = refl
release_all-after classes (i ∷ others) w off h =
    release_all_step classes w i others off h
      (subst (Releasable classes w i) (count_first i others)
        (h i (omega (arith, count_first i others))))
      (λ v still_off rest. release_all-after classes others v still_off rest)
