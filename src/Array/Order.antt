-- ===== src/Array/Order.antt =====
-- Sorted insertion.
use Prim.Native.Nat.{Ordering}
use libwired.Base.{
  ℕ, suc, ◌+◌, ◌<◌, ◌≡◌, ◌≢◌, refl, ap, ◌∙◌, true, false, ◌&&◌, List, [], ◌∷◌, ◌++◌, Option, none,
  some, length, ◌==◌, insert_at, length-map, take, take_all, returns, fails, Returns, Guarded,
  wi_assert-Guarded, wi_assert-Returns, arith, Bool-cases, inl, inr,
}
use libwired.Callbacks.{Compare, retained, insertable}
use libwired.Array.State.{
  Item, Array, contents, create_item, first_greater, add_item, add_item_sorted,
  insert_item_at_index, add_data,
}
use libwired.Array.Write.{mutable_add_data_sorted}
use libwired.Array.Valid.{item_data, IsValid}
use libwired.Array.Add.{Updated, add_data-Updated, insert_data-Updated}

-- `d` in front of the first datum that is greater.
unfoldable pub insert_sorted : Compare → ℕ → List ℕ → List ℕ
insert_sorted compare d [] = d ∷ []
insert_sorted compare d (x ∷ xs) = elim (compare d x) [
  | Ordering.lt ↦ d ∷ x ∷ xs
  | _ ↦ x ∷ insert_sorted compare d xs
]

-- No datum is less than the one in front of it.
abbrev pub IsSorted : Compare → List ℕ → Type 0
IsSorted compare [] = Unit {0}
IsSorted compare (x ∷ []) = Unit {0}
IsSorted compare (x ∷ y ∷ xs) = (compare y x ≢ Ordering.lt) × IsSorted compare (y ∷ xs)

-- Where `first_greater` stops is where `insert_sorted` inserts.
data Place (compare : Compare) (d : ℕ) (xs : List ℕ) (i : ℕ) (r : Option ℕ) : Type 0 where
  before :
      (j : ℕ)
      → j < length xs
      → r ≡ some (i + j)
      → insert_sorted compare d xs ≡ insert_at xs j d
      → Place compare d xs i r
  behind : r ≡ none → insert_sorted compare d xs ≡ xs ++ d ∷ [] → Place compare d xs i r

first_greater-Place :
    (compare : Compare) (d : ℕ) (xs : List Item) (i : ℕ)
    → Place compare d (item_data xs) i (first_greater compare d xs i)
unfolding first_greater insert_sorted
first_greater-Place compare d [] i = behind refl refl
first_greater-Place compare d (x ∷ xs) i =
    step (compare d x.datum) refl (first_greater-Place compare d xs (i + 1))
  where
    step :
        (o : Ordering)
        → compare d x.datum ≡ o
        → Place compare d (item_data xs) (i + 1) (first_greater compare d xs (i + 1))
        → Place compare d (item_data (x ∷ xs)) i (first_greater compare d (x ∷ xs) i)
    step Ordering.lt e p =
        before 0 (omega arith) (rw (e, first_greater) (ap some (omega arith)))
          (rw (e, insert_sorted))
    step Ordering.eq e (before j below r same) =
        before (suc j) (omega arith) (rw (e, first_greater) (r ∙ ap some (omega arith)))
          (rw (e, insert_sorted) (ap (λ l. x.datum ∷ l) same))
    step Ordering.eq e (behind r same) =
        behind (rw (e, first_greater) r) (rw (e, insert_sorted) (ap (λ l. x.datum ∷ l) same))
    step Ordering.gt e (before j below r same) =
        before (suc j) (omega arith) (rw (e, first_greater) (r ∙ ap some (omega arith)))
          (rw (e, insert_sorted) (ap (λ l. x.datum ∷ l) same))
    step Ordering.gt e (behind r same) =
        behind (rw (e, first_greater) r) (rw (e, insert_sorted) (ap (λ l. x.datum ∷ l) same))

module _ (b : Array) (item : Item) (compare : Compare) where
  sorted_before :
      (j : ℕ)
      → 0 < b.data_count
      → first_greater compare item.datum (take b.data_count b.items) 0 ≡ some j
      → add_item_sorted b item compare ≡ insert_item_at_index b item j
  unfolding add_item_sorted
  sorted_before j pos e = let ne : (b.data_count == 0) ≡ false = ground arith in rw (ne, e)

  sorted_behind :
      first_greater compare item.datum (take b.data_count b.items) 0 ≡ none
      → add_item_sorted b item compare ≡ add_item b item
  unfolding add_item_sorted
  sorted_behind e = elim (Bool-cases (b.data_count == 0)) [
    | inl empty ↦ rw empty
    | inr some_data ↦ rw (some_data, e)
  ]

add_sorted-Updated :
    (a : Array) (d : ℕ) (compare : Compare)
    → IsValid a
    → let (item, b) = create_item a d in
      Returns
        (add_item_sorted b item compare)
        (Updated a (insert_sorted compare (retained a.callbacks d) (contents a)))
unfolding create_item
add_sorted-Updated a d compare v =
    let (item, b) = create_item a d in
    let all : take a.data_count a.items ≡ a.items =
      take_all a.data_count a.items (omega (arith, v.filled)) in
    let size = length-map (λ (x : Item). x.datum) a.items in
    elim (first_greater-Place compare item.datum a.items 0) [
      | before j below r same ↦
          let (c, run, u) = insert_data-Updated a d j v (omega (arith, size, v.filled)) in
          (
            c,
            sorted_before b item compare j (omega (arith, size, v.filled))
                  (rw all (r ∙ ap some (omega arith)))
                ∙ run,
            rw same u,
          )
      | behind r same ↦
          let (c, run, u) = add_data-Updated a d v in
          (c, sorted_behind b item compare (rw all r) ∙ unfold add_data in run, rw same u)
    ]

-- On a valid array `wi_mutable_array_add_data_sorted` puts the retained datum in front of the first
-- one that is greater, if the array is mutable and the datum may be inserted; if not, an assertion
-- fails.
pub mutable_add_data_sorted_outcome :
    (a : Array) (d : ℕ) (compare : Compare)
    → IsValid a
    → Guarded
        (a.mutable && insertable a.callbacks d)
        (mutable_add_data_sorted a d compare)
        (Updated a (insert_sorted compare (retained a.callbacks d) (contents a)))
unfolding mutable_add_data_sorted
mutable_add_data_sorted_outcome a d compare v =
    wi_assert-Guarded a.mutable
      λ _. wi_assert-Returns (insertable a.callbacks d) λ _. add_sorted-Updated a d compare v

-- What a comparison must never answer both ways.
abbrev pub IsAsymmetric : Compare → Type 0
IsAsymmetric compare = (x y : ℕ) → compare x y ≡ Ordering.lt → compare y x ≢ Ordering.lt

pub insert_sorted-IsSorted :
    (compare : Compare) (d : ℕ) (xs : List ℕ)
    → IsAsymmetric compare
    → IsSorted compare xs
    → IsSorted compare (insert_sorted compare d xs)
unfolding insert_sorted
insert_sorted-IsSorted compare d [] asym s = tt
insert_sorted-IsSorted compare d (x ∷ []) asym s = ground (arith, asym d x)
insert_sorted-IsSorted compare d (x ∷ y ∷ xs) asym s =
    ground (arith, asym d x, insert_sorted-IsSorted compare d (y ∷ xs) asym)

-- On a valid mutable array, sorted insertion of a datum that may be inserted returns a valid array
-- that is sorted if the first was, for every comparison that is asymmetric.
pub mutable_add_data_sorted-IsSorted :
    (a : Array) (d : ℕ) (compare : Compare)
    → IsValid a
    → a.mutable ≡ true
    → insertable a.callbacks d ≡ true
    → IsAsymmetric compare
    → IsSorted compare (contents a)
    → Returns (mutable_add_data_sorted a d compare) λ b. IsValid b × IsSorted compare (contents b)
mutable_add_data_sorted-IsSorted a d compare v m free asym s =
    elim (mutable_add_data_sorted_outcome a d compare v) [
      | fails g run ↦ absurd (ground arith)
      | returns g b run u ↦ (
        b,
        run,
        (
          u.valid,
          rw u.holds (insert_sorted-IsSorted compare (retained a.callbacks d) (contents a) asym s),
        ),
      )
    ]
