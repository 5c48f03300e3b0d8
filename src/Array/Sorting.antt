-- ===== src/Array/Sorting.antt =====
-- `wi_mutable_array_sort` of libwired/collections/wi-array.c.
use mathlib.Core.Path.{subst}
use libwired.Base.{
  ℕ, ◌-◌, ◌%◌, ◌^◌, ◌≤◌, ◌⊎◌, ◌<◌, ◌≡◌, refl, sym, ap, ◌∙◌, List, [], ◌∷◌, length, count, ◌==◌,
  length-map, Guarded, wi_assert-Returns, arith, Bool-cases, inl, inr,
}
use libwired.Callbacks.{Compare, CompareFunc, sign, int_sign, compare_data}
use libwired.Array.State.{Item, Array, contents}
use libwired.Array.Write.{write_data, mutable_sort}
use libwired.Array.Valid.{item_cells, item_data, IsValid, perm-Owns}
use libwired.Array.Bulk.{get_data-ok}
use libwired.Array.Order.{IsSorted}

-- What the documentation of `qsort` promises: the same data, in order.
pub record Sorts (qsort : Compare → List ℕ → List ℕ) (compare : Compare) : Type 0 where
  pub same_length : (ds : List ℕ) → length (qsort compare ds) ≡ length ds
  pub same_data : (ds : List ℕ) (q : ℕ) → count q (qsort compare ds) ≡ count q ds
  pub ordered : (ds : List ℕ) → IsSorted compare (qsort compare ds)

write_data-data :
    (xs : List Item) (ds : List ℕ) → length ds ≡ length xs → item_data (write_data xs ds) ≡ ds
unfolding write_data
write_data-data [] [] h = refl
write_data-data [] (d ∷ ds) h = absurd (omega arith)
write_data-data (x ∷ xs) [] h = absurd (omega arith)
write_data-data (x ∷ xs) (d ∷ ds) h = ap (λ l. d ∷ l) (write_data-data xs ds (omega arith))

write_data-cells : (xs : List Item) (ds : List ℕ) → item_cells (write_data xs ds) ≡ item_cells xs
unfolding write_data
write_data-cells [] [] = refl
write_data-cells [] (d ∷ ds) = refl
write_data-cells (x ∷ xs) [] = refl
write_data-cells (x ∷ xs) (d ∷ ds) = ap (λ l. x.cell ∷ l) (write_data-cells xs ds)

-- `b` is the valid array `a` with the same data in sorted order.
pub record Sorted (compare : Compare) (a b : Array) : Type 0 where
  pub valid : IsValid b
  pub ordered : IsSorted compare (contents b)
  pub same_data : (q : ℕ) → count q (contents b) ≡ count q (contents a)
  pub same_calls : b.calls ≡ a.calls

empty_items : (a : Array) → IsValid a → a.data_count ≡ 0 → a.items ≡ []
empty_items a v e = go a.items (v.filled ∙ e)
  where
    go : (xs : List Item) → length xs ≡ 0 → xs ≡ []
    go [] h = refl
    go (x ∷ xs) h = absurd (omega arith)

rewritten-Sorted :
    (qsort : Compare → List ℕ → List ℕ) (a : Array) (compare : Compare)
    → Sorts qsort compare
    → IsValid a
    → Sorted compare a (record a { items = write_data a.items (qsort compare (contents a)) })
rewritten-Sorted qsort a compare sorts v =
    let ds = qsort compare (contents a) in
    let size = length-map (λ (x : Item). x.datum) a.items in
    let data_now = write_data-data a.items ds (sorts.same_length (contents a) ∙ size) in
    let xs = write_data a.items ds in
    record {
      valid = record {
        filled =
            sym (length-map (λ (x : Item). x.cell) xs)
            ∙ ap length (write_data-cells a.items ds)
            ∙ length-map (λ (x : Item). x.cell) a.items
            ∙ v.filled;
        room = v.room;
        owns =
            perm-Owns a.items xs (λ q. ap (count q) (write_data-cells a.items ds))
              (λ q. ap (count q) data_now ∙ sorts.same_data (contents a) q) v.owns;
      };
      ordered = rw data_now (sorts.ordered (contents a));
      same_data = λ q. ap (count q) data_now ∙ sorts.same_data (contents a) q;
      same_calls = refl;
    }

-- `wi_mutable_array_sort`, with a `qsort` that sorts, leaves a valid mutable array valid and sorted
-- by the sign of the low 32 bits of what the comparison returns, with the same data as before, each
-- as often, and makes no call of a callback; on an array that is not mutable an assertion fails.
pub mutable_sort_outcome :
    (qsort : Compare → List ℕ → List ℕ) (a : Array) (compare : CompareFunc)
    → Sorts qsort (compare_data compare)
    → IsValid a
    → Guarded a.mutable (mutable_sort qsort a compare) (Sorted (compare_data compare) a)
unfolding mutable_sort
mutable_sort_outcome qsort a compare sorts v = wi_assert-Returns a.mutable λ _.
    elim (Bool-cases (a.data_count == 0)) [
      | inl empty ↦
          let none : contents a ≡ [] = ap item_data (empty_items a v (ground arith)) in
          (
            a,
            rw empty,
            record { valid = v; ordered = rw none tt; same_data = λ q. refl; same_calls = refl },
          )
      | inr some_data ↦ (
        record a { items = write_data a.items (qsort (compare_data compare) (contents a)) },
        rw (some_data, get_data-ok a v),
        rewritten-Sorted qsort a (compare_data compare) sorts v,
      )
    ]

-- A word that stands for a number of an `int`
abbrev IsInt : ℕ → Type 0
IsInt r = (r < 2 ^ 31) ⊎ ((2 ^ 64 - 2 ^ 31 ≤ r) × (r < 2 ^ 64))

-- Its low 32 bits have its sign.
int_sign-sign : (r : ℕ) → IsInt r → int_sign r ≡ sign (2 ^ 63) r
unfolding int_sign sign
int_sign-sign r (inl small) =
    let same : r % 4294967296 ≡ r = omega (arith, small) in rw same (ground (arith, small))
int_sign-sign r (inr (low, high)) =
    let shift : r % 4294967296 ≡ r - 18446744069414584320 = omega (arith, low, high) in
    rw shift (ground (arith, low, high))

-- With results that are numbers of an `int`, the array is sorted by their signs.
mutable_sort_by_sign :
    (qsort : Compare → List ℕ → List ℕ) (a : Array) (compare : CompareFunc)
    → ((x y : ℕ) → IsInt (compare x y))
    → Sorts qsort (λ x y. sign (2 ^ 63) (compare x y))
    → IsValid a
    → Guarded a.mutable
        (mutable_sort qsort a compare)
        (Sorted (λ x y. sign (2 ^ 63) (compare x y)) a)
unfolding compare_data
mutable_sort_by_sign qsort a compare ints sorts v =
    let same : compare_data compare ≡ (λ x y. sign (2 ^ 63) (compare x y)) =
      λ i x y. int_sign-sign (compare x y) (ints x y) i in
    subst (λ c. Guarded a.mutable (mutable_sort qsort a compare) (Sorted c a)) same
      (mutable_sort_outcome qsort a compare (subst (Sorts qsort) (sym same) sorts) v)
