-- ===== src/IndexSet/Laws.antt =====
-- An index set is a sorted multiset of indexes: what the changes do to its counts.
use libwired.Base.{
  ℕ, ◌+◌, ◌-◌, ◌≤◌, ◌<◌, ◌≡◌, refl, ap, ◌∙◌, true, false, ◌&&◌, List, [], ◌∷◌, count, length,
  length-map, to_nat, ◌==◌, ltb, ok, ◌>>=◌, Returns, returns, fails, Guarded, wi_assert-Returns,
  arith,
}
use libwired.Callbacks.{Callbacks, null_callbacks, retained, insertable, removable}
use libwired.Array.State.{Array, Item, contents, array_max_count}
use libwired.Array.Read.{not_found}
use libwired.Array.Write.{mutable_add_data_sorted, mutable_remove_data}
use libwired.Array.Valid.{IsValid}
use libwired.Array.Search.{any_equal, remove_first, contains_data_any}
use libwired.Array.Remove.{mutable_remove_data_outcome}
use libwired.Array.Order.{
  insert_sorted, IsSorted, IsAsymmetric, insert_sorted-IsSorted, mutable_add_data_sorted_outcome,
}
use libwired.IndexSet.State.{IndexSet, index_compare, contains_index, add_index, remove_index}

-- A valid array without callbacks, changeable, in the order of the indexes.
pub record IsIndexSet (s : IndexSet) : Type 0 where
  pub valid : IsValid s.array
  pub plain : s.array.callbacks ≡ null_callbacks
  pub open' : s.array.mutable ≡ true
  pub sorted : IsSorted index_compare (contents s.array)

-- How often the set holds an index.
abbrev pub multiplicity : ℕ → IndexSet → ℕ
multiplicity q s = count q (contents s.array)

pub index_compare-IsAsymmetric : IsAsymmetric index_compare
unfolding index_compare
index_compare-IsAsymmetric x y h = ground arith

pub count-insert_sorted :
    (q d : ℕ) (xs : List ℕ)
    → count q (insert_sorted index_compare d xs) ≡ to_nat (q == d) + count q xs
unfolding insert_sorted index_compare
count-insert_sorted q d [] = omega arith
count-insert_sorted q d (x ∷ xs) = ground (arith, count-insert_sorted q d xs)

-- `t` holds `d` once more than `s`, and all other indexes as often.
pub record Added (s : IndexSet) (d : ℕ) (t : IndexSet) : Type 0 where
  pub indexes : IsIndexSet t
  pub counts : (q : ℕ) → multiplicity q t ≡ to_nat (q == d) + multiplicity q s
  pub same_mutable : t.mutable ≡ s.mutable

added :
    (s : IndexSet) (d : ℕ)
    → IsIndexSet s
    → Returns
        (mutable_add_data_sorted s.array d index_compare >>= λ b. ok (record s { array = b }))
        (Added s d)
added s d v = elim (mutable_add_data_sorted_outcome s.array d index_compare v.valid) [
  | fails g run ↦ absurd (refused s d v g)
  | returns g b run u ↦
      let now : contents b ≡ insert_sorted index_compare d (contents s.array) =
        u.holds
        ∙ ap (λ (cb : Callbacks). insert_sorted index_compare (retained cb d) (contents s.array))
            v.plain in
      (
        record s { array = b },
        rw run,
        record {
          indexes = record {
            valid = u.valid;
            plain = u.same_callbacks ∙ v.plain;
            open' = u.same_mutable ∙ v.open';
            sorted = rw now (
                insert_sorted-IsSorted index_compare d (contents s.array) index_compare-IsAsymmetric
                  v.sorted);
          };
          counts = λ q. ap (count q) now ∙ count-insert_sorted q d (contents s.array);
          same_mutable = refl;
        },
      )
]
  where
    refused :
        (s : IndexSet) (d : ℕ)
        → IsIndexSet s
        → (s.array.mutable && insertable s.array.callbacks d) ≡ false
        → ⊥
    refused s d v g = let h = rw (v.open', v.plain) at g in cc

-- `wi_mutable_indexset_add_index` on a mutable set keeps it sorted and adds the index once more,
-- also where the set holds it already; on a set that is not mutable an assertion fails.
pub add_index_outcome :
    (s : IndexSet) (index : ℕ)
    → IsIndexSet s
    → Guarded s.mutable (add_index s index) (Added s index)
unfolding add_index
add_index_outcome s index v = wi_assert-Returns s.mutable λ _. added s index v

any_equal-count : (d : ℕ) (xs : List ℕ) → any_equal null_callbacks d xs ≡ ltb 0 (count d xs)
unfolding any_equal
any_equal-count d [] = refl
any_equal-count d (x ∷ xs) = ground (arith, any_equal-count d xs)

count-remove_first :
    (q d : ℕ) (xs : List ℕ)
    → count q (remove_first null_callbacks d xs) ≡ count q xs - to_nat (q == d)
unfolding remove_first
count-remove_first q d [] = ground arith
count-remove_first q d (x ∷ xs) = ground (arith, count-remove_first q d xs)

remove_first-IsSorted :
    (d : ℕ) (xs : List ℕ)
    → IsSorted index_compare xs
    → IsSorted index_compare (remove_first null_callbacks d xs)
unfolding remove_first index_compare
remove_first-IsSorted d [] s = tt
remove_first-IsSorted d (x ∷ []) s = ground arith
remove_first-IsSorted d (x ∷ y ∷ []) s = ground arith
remove_first-IsSorted d (x ∷ y ∷ z ∷ xs) s = ground (arith, remove_first-IsSorted d (y ∷ z ∷ xs))

-- `t` holds `d` once less than `s`, and all other indexes as often.
pub record Removed (s : IndexSet) (d : ℕ) (t : IndexSet) : Type 0 where
  pub indexes : IsIndexSet t
  pub counts : (q : ℕ) → multiplicity q t ≡ multiplicity q s - to_nat (q == d)
  pub no_larger : t.array.data_count ≤ s.array.data_count
  pub same_mutable : t.mutable ≡ s.mutable

length-remove_first : (d : ℕ) (xs : List ℕ) → length (remove_first null_callbacks d xs) ≤ length xs
unfolding remove_first
length-remove_first d [] = omega arith
length-remove_first d (x ∷ xs) = ground (arith, length-remove_first d xs)

size_of : (a : Array) → IsValid a → length (contents a) ≡ a.data_count
size_of a v = length-map (λ (x : Item). x.datum) a.items ∙ v.filled

removed :
    (s : IndexSet) (d : ℕ)
    → IsIndexSet s
    → s.array.data_count ≤ array_max_count
    → Returns (mutable_remove_data s.array d >>= λ b. ok (record s { array = b })) (Removed s d)
removed s d v few = elim (mutable_remove_data_outcome s.array d v.valid few) [
  | fails g run ↦ absurd (refused s d v g)
  | returns g b run u ↦
      let now : contents b ≡ remove_first null_callbacks d (contents s.array) =
        u.holds ∙ ap (λ (cb : Callbacks). remove_first cb d (contents s.array)) v.plain in
      (
        record s { array = b },
        rw run,
        record {
          indexes = record {
            valid = u.valid;
            plain = u.same_callbacks ∙ v.plain;
            open' = u.same_mutable ∙ v.open';
            sorted = rw now (remove_first-IsSorted d (contents s.array) v.sorted);
          };
          counts = λ q. ap (count q) now ∙ count-remove_first q d (contents s.array);
          no_larger = omega (
            arith,
            size_of b u.valid,
            size_of s.array v.valid,
            ap length now,
            length-remove_first d (contents s.array),
          );
          same_mutable = refl;
        },
      )
]
  where
    refused :
        (s : IndexSet) (d : ℕ)
        → IsIndexSet s
        → (s.array.mutable && removable s.array.callbacks d) ≡ false
        → ⊥
    refused s d v g = let h = rw (v.open', v.plain) at g in cc

-- `wi_mutable_indexset_remove_index` on a mutable set of at most `_WI_ARRAY_MAX_COUNT` entries
-- keeps it sorted and takes one entry of the index out, if there is one; on a set that is not
-- mutable an assertion fails.
pub remove_index_outcome :
    (s : IndexSet) (index : ℕ)
    → IsIndexSet s
    → s.array.data_count ≤ array_max_count
    → Guarded s.mutable (remove_index s index) (Removed s index)
unfolding remove_index
remove_index_outcome s index v few = wi_assert-Returns s.mutable λ _. removed s index v few

-- `wi_indexset_contains_index` says whether a set of fewer than `WI_NOT_FOUND` entries holds the
-- index at all.
pub contains_index_lem :
    (s : IndexSet) (index : ℕ)
    → IsIndexSet s
    → s.array.data_count < not_found
    → contains_index s index ≡ ok (ltb 0 (multiplicity index s))
unfolding contains_index
contains_index_lem s index v few =
    contains_data_any s.array index v.valid few
    ∙ ap (λ (cb : Callbacks). ok (any_equal cb index (contents s.array))) v.plain
    ∙ ap ok (any_equal-count index (contents s.array))

-- After one removal a mutable set of at most `_WI_ARRAY_MAX_COUNT` entries still contains the index
-- exactly if it held it twice or more.
pub contains_index-remove_index :
    (s : IndexSet) (index : ℕ)
    → IsIndexSet s
    → s.mutable ≡ true
    → s.array.data_count ≤ array_max_count
    → remove_index s index >>= (λ t. contains_index t index) ≡ ok (ltb 1 (multiplicity index s))
contains_index-remove_index s index v m few = elim (remove_index_outcome s index v few) [
  | fails g run ↦ absurd (cc)
  | returns g t run u ↦ rw run (
      contains_index_lem t index u.indexes (omega (arith, u.no_larger))
      ∙ ap ok (ground (arith, u.counts index)))
]
