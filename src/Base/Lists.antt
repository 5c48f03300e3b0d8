-- ===== src/Base/Lists.antt =====
-- Lists measured and indexed by native numbers, with the edits that `memmove` makes.
use Prim.Native.Nat.{ℕ, zero, suc, ◌+◌, ◌<◌, ◌≤◌, min}
use mathlib.Core.Path.{◌≡◌, refl, ap}
use mathlib.Core.List.{List, [], ◌∷◌, ◌++◌, map}
use mathlib.Core.Option.{Option, none, some}
use native.Mathlib.Omega.{arith}
use libwired.Base.Bools.{◌==◌, to_nat}

module _ {ℓ} {A : Type ℓ} where
  abbrev pub length : List A → ℕ
  length [] = 0
  length (x ∷ xs) = suc (length xs)

  abbrev pub get_elem? : List A → ℕ → Option A
  get_elem? [] i = none
  get_elem? (x ∷ xs) zero = some x
  get_elem? (x ∷ xs) (suc i) = get_elem? xs i

  -- A write out of bounds changes nothing.
  abbrev pub set : List A → ℕ → A → List A
  set [] i v = []
  set (x ∷ xs) zero v = v ∷ xs
  set (x ∷ xs) (suc i) v = x ∷ set xs i v

  abbrev pub get_or : List A → ℕ → A → A
  get_or [] i d = d
  get_or (x ∷ xs) zero d = x
  get_or (x ∷ xs) (suc i) d = get_or xs i d

  abbrev pub take : ℕ → List A → List A
  take zero xs = []
  take (suc n) [] = []
  take (suc n) (x ∷ xs) = x ∷ take n xs

  abbrev pub drop : ℕ → List A → List A
  drop zero xs = xs
  drop (suc n) [] = []
  drop (suc n) (x ∷ xs) = drop n xs

  abbrev pub replicate : ℕ → A → List A
  replicate zero a = []
  replicate (suc n) a = a ∷ replicate n a

  -- The tail from `i` on moves up by one, and `v` takes the place.
  abbrev pub insert_at : List A → ℕ → A → List A
  insert_at xs zero v = v ∷ xs
  insert_at [] (suc i) v = []
  insert_at (x ∷ xs) (suc i) v = x ∷ insert_at xs i v

  -- The tail behind `i` moves down by one.
  abbrev pub remove_at : List A → ℕ → List A
  remove_at [] i = []
  remove_at (x ∷ xs) zero = xs
  remove_at (x ∷ xs) (suc i) = x ∷ remove_at xs i

  -- `n` items from the position on are gone.
  abbrev pub remove_range : List A → ℕ → ℕ → List A
  remove_range xs zero n = drop n xs
  remove_range [] (suc i) n = []
  remove_range (x ∷ xs) (suc i) n = x ∷ remove_range xs i n

  abbrev pub All {κ} : (A → Type κ) → List A → Type κ
  All P [] = Unit {κ}
  All P (x ∷ xs) = P x × All P xs

  pub All-append {κ} : (P : A → Type κ) (xs ys : List A) → All P (xs ++ ys) → All P xs × All P ys
  All-append P [] ys h = (tt, h)
  All-append P (x ∷ xs) ys h = let (l, r) = All-append P xs ys h.1 in ((h.0, l), r)

  pub length-append : (xs ys : List A) → length (xs ++ ys) ≡ length xs + length ys
  length-append [] ys = omega arith
  length-append (x ∷ xs) ys = omega (arith, length-append xs ys)

  pub length-set : (xs : List A) (i : ℕ) (v : A) → length (set xs i v) ≡ length xs
  length-set (x ∷ xs) (suc i) v = ap suc (length-set xs i v)
  length-set _ _ v = refl

  pub length-replicate : (n : ℕ) (a : A) → length (replicate n a) ≡ n
  length-replicate zero a = refl
  length-replicate (suc n) a = ap suc (length-replicate n a)

  pub length-take : (n : ℕ) (xs : List A) → length (take n xs) ≡ min n (length xs)
  length-take zero xs = omega arith
  length-take (suc n) [] = omega arith
  length-take (suc n) (x ∷ xs) = omega (arith, length-take n xs)

  pub length-insert_at :
      (xs : List A) (i : ℕ) (v : A) → i ≤ length xs → length (insert_at xs i v) ≡ suc (length xs)
  length-insert_at [] zero v h = refl
  length-insert_at [] (suc i) v h = absurd (omega arith)
  length-insert_at (x ∷ xs) zero v h = refl
  length-insert_at (x ∷ xs) (suc i) v h = ap suc (length-insert_at xs i v (omega arith))

  pub length-remove_at :
      (xs : List A) (i : ℕ) → i < length xs → suc (length (remove_at xs i)) ≡ length xs
  length-remove_at [] i h = absurd (omega arith)
  length-remove_at (x ∷ xs) zero h = refl
  length-remove_at (x ∷ xs) (suc i) h = ap suc (length-remove_at xs i (omega arith))

  pub remove_range-zero : (xs : List A) (i : ℕ) → remove_range xs i 0 ≡ xs
  remove_range-zero xs zero = refl
  remove_range-zero [] (suc i) = refl
  remove_range-zero (x ∷ xs) (suc i) = ap (λ l. x ∷ l) (remove_range-zero xs i)

  pub remove_range-remove_at :
      (xs : List A) (i n : ℕ)
      → i < length xs
      → remove_range (remove_at xs i) i n ≡ remove_range xs i (suc n)
  remove_range-remove_at [] i n h = absurd (omega arith)
  remove_range-remove_at (x ∷ xs) zero n h = refl
  remove_range-remove_at (x ∷ xs) (suc i) n h =
      ap (λ l. x ∷ l) (remove_range-remove_at xs i n (omega arith))

  pub take_all : (n : ℕ) (xs : List A) → length xs ≤ n → take n xs ≡ xs
  take_all zero [] h = refl
  take_all zero (x ∷ xs) h = absurd (omega arith)
  take_all (suc n) [] h = refl
  take_all (suc n) (x ∷ xs) h = ap (λ l. x ∷ l) (take_all n xs (omega arith))

  pub get_elem?-get : (xs : List A) (i : ℕ) → i < length xs → (a : A) × (get_elem? xs i ≡ some a)
  get_elem?-get [] i h = absurd (omega arith)
  get_elem?-get (x ∷ xs) zero h = (x, refl)
  get_elem?-get (x ∷ xs) (suc i) h = get_elem?-get xs i (omega arith)

  pub get_elem?-none : (xs : List A) (i : ℕ) → length xs ≤ i → get_elem? xs i ≡ none
  get_elem?-none [] i h = refl
  get_elem?-none (x ∷ xs) zero h = absurd (omega arith)
  get_elem?-none (x ∷ xs) (suc i) h = get_elem?-none xs i (omega arith)

module _ {ℓ κ} {A : Type ℓ} {B : Type κ} (f : A → B) where
  pub length-map : (xs : List A) → length (map f xs) ≡ length xs
  length-map [] = refl
  length-map (x ∷ xs) = ap suc (length-map xs)

  pub map-insert_at :
      (xs : List A) (i : ℕ) (v : A) → map f (insert_at xs i v) ≡ insert_at (map f xs) i (f v)
  map-insert_at xs zero v = refl
  map-insert_at [] (suc i) v = refl
  map-insert_at (x ∷ xs) (suc i) v = ap (λ l. f x ∷ l) (map-insert_at xs i v)

  pub map-remove_at : (xs : List A) (i : ℕ) → map f (remove_at xs i) ≡ remove_at (map f xs) i
  map-remove_at [] i = refl
  map-remove_at (x ∷ xs) zero = refl
  map-remove_at (x ∷ xs) (suc i) = ap (λ l. f x ∷ l) (map-remove_at xs i)

  pub map-set : (xs : List A) (i : ℕ) (v : A) → map f (set xs i v) ≡ set (map f xs) i (f v)
  map-set [] i v = refl
  map-set (x ∷ xs) zero v = refl
  map-set (x ∷ xs) (suc i) v = ap (λ l. f x ∷ l) (map-set xs i v)

  pub get_elem?-map :
      (xs : List A) (i : ℕ) {a : A} → get_elem? xs i ≡ some a → get_elem? (map f xs) i ≡ some (f a)
  get_elem?-map [] i h = cc
  get_elem?-map (x ∷ xs) zero h = cc
  get_elem?-map (x ∷ xs) (suc i) h = get_elem?-map xs i h

-- How often a number stands in a list.
abbrev pub count : ℕ → List ℕ → ℕ
count q [] = 0
count q (u ∷ us) = to_nat (q == u) + count q us

pub count-append : (q : ℕ) (us vs : List ℕ) → count q (us ++ vs) ≡ count q us + count q vs
count-append q (u ∷ us) vs = omega (count-append q us vs, arith)
count-append q [] vs = omega arith

pub count-insert_at :
    (a : ℕ) (xs : List ℕ) (i v : ℕ)
    → i ≤ length xs
    → count a (insert_at xs i v) ≡ to_nat (a == v) + count a xs
count-insert_at a xs zero v h = refl
count-insert_at a [] (suc i) v h = absurd (omega arith)
count-insert_at a (x ∷ xs) (suc i) v h = omega (arith, count-insert_at a xs i v (omega arith))

pub count-remove_at :
    (a : ℕ) (xs : List ℕ) (i : ℕ) {v : ℕ}
    → get_elem? xs i ≡ some v
    → to_nat (a == v) + count a (remove_at xs i) ≡ count a xs
count-remove_at a [] i h = cc
count-remove_at a (x ∷ xs) zero h = ground arith
count-remove_at a (x ∷ xs) (suc i) h = omega (arith, count-remove_at a xs i h)

pub count-set :
    (a : ℕ) (xs : List ℕ) (i w : ℕ) {v : ℕ}
    → get_elem? xs i ≡ some v
    → to_nat (a == v) + count a (set xs i w) ≡ to_nat (a == w) + count a xs
count-set a [] i w h = cc
count-set a (x ∷ xs) zero w h = ground arith
count-set a (x ∷ xs) (suc i) w h = omega (arith, count-set a xs i w h)
