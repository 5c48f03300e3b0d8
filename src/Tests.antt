-- ===== src/Tests.antt =====
-- The theorems at concrete arrays, index sets and bytes.
mod Samples
mod Keys
mod Bytes
mod Pools
use Prim.Native.Nat.{Ordering}
use libwired.Base.{
  replicate, ℕ, ◌+◌, ◌≡◌, ◌≤◌, ◌<◌, refl, Bool, true, false, ◌&&◌, ◌||◌, List, [], ◌∷◌, ◌++◌, set,
  insert_at, remove_at, remove_range, ltb, leb, ◌==◌, Run, ok, ◌>>=◌, Returns, Guarded, arith, All,
}
use libwired.Callbacks.{null_callbacks, compare_data, retained, insertable, removable}
use libwired.Array.State.{array_max_count, contents, check_optimize}
use libwired.Array.Read.{not_found, contains_data, copy, is_equal}
use libwired.Array.Write.{
  mutable_add_data, mutable_insert_data_at_index, mutable_replace_data_at_index,
  mutable_remove_data_at_index, mutable_remove_data, mutable_remove_all_data, mutable_set_array,
  mutable_remove_data_in_range, mutable_add_data_sorted, mutable_sort,
}
use libwired.Array.Valid.{IsValid}
use libwired.Array.Add.{
  Updated, retained_all, insertable_at, mutable_add_data_outcome,
  mutable_insert_data_at_index_outcome,
}
use libwired.Array.Search.{any_equal, remove_first, contains_data_any}
use libwired.Array.Remove.{mutable_remove_data_at_index_outcome, mutable_remove_data_outcome}
use libwired.Array.Bulk.{
  mutable_remove_all_data_outcome, mutable_set_array_outcome, mutable_remove_data_in_range_outcome,
}
use libwired.Array.Replace.{mutable_replace_data_at_index_outcome}
use libwired.Array.Order.{
  IsSorted, insert_sorted, mutable_add_data_sorted_outcome, mutable_add_data_sorted-IsSorted,
}
use libwired.Array.Sorting.{Sorted, mutable_sort_outcome}
use libwired.Array.Copy.{Copied, copy-Copied, is_equal-all_equal, copy-is_equal}
use libwired.IndexSet.State.{index_compare, add_index, remove_index, contains_index}
use libwired.IndexSet.Laws.{
  index_compare-IsAsymmetric, Added, Removed, add_index_outcome, remove_index_outcome,
  contains_index_lem, contains_index-remove_index,
}
use libwired.Base64.Codec.{data_from_string, string_from_data}
use libwired.Base64.RoundTrip.{data_from_string-string_from_data}
use libwired.Chains.Enumerate.{start}
use libwired.Dictionary.Read.{data_enumerator}
use libwired.Enumerator.{Collection, all_data}
use libwired.Enumerator.AllData.{Result}
use libwired.Enumerator.Chained.{dictionary_all_data-Result}
use libwired.Chains.{entries, rehash_all}
use libwired.Chains.Fresh.{Rehashed, rehash_all-Rehashed}
use libwired.Dictionary.State.{key_equal, key_code, optimize}
use libwired.Dictionary.Write.{mutable_set_data_for_key, mutable_remove_data_for_key}
use libwired.Dictionary.Valid.{Kept, optimize-Kept}
use libwired.Dictionary.Lookups.{Assigned, mutable_set_data_for_key_outcome}
use libwired.Dictionary.Removal.{Unassigned, mutable_remove_data_for_key_outcome}
use libwired.IndexSet.Arrays.{
  replace_data_from_array_at_indexes, replace_data_from_array_at_indexes_fails,
}
use libwired.Base.{assert_failed}
use libwired.Tests.Samples.{one_index, one_index-IsValid}
use libwired.Dictionary.Write as DictionaryWrite
use libwired.Dictionary.Write.{mutable_set_dictionary}
use libwired.Dictionary.Emptying.{Emptied, mutable_dictionary_remove_all_data_outcome}
use libwired.Dictionary.Transfer.{Replaced, mutable_set_dictionary_outcome}
use libwired.HashSet.Read.{count_for_data}
use libwired.HashSet.Write as SetWrite
use libwired.HashSet.Counts.{
  Recounted, left_over, mutable_set_add_data_outcome, mutable_set_remove_data_outcome,
}
use libwired.Tests.Keys.{
  three_keys, three_keys-IsValid, one_key, one_key-IsValid, counted_set, counted_set-IsValid,
}
use libwired.Tests.Samples.{
  three, three-IsValid, pair, pair-IsValid, word_compare, word_compare-Sorts, indexes,
  indexes-IsIndexSet, by_insertion, buckets,
}

mutable_add_data_outcome_example :
    Guarded true (mutable_add_data three 9) (Updated three (5 ∷ 7 ∷ 5 ∷ 9 ∷ []))
mutable_add_data_outcome_example = mutable_add_data_outcome three 9 three-IsValid

mutable_insert_data_at_index_outcome_example :
    Guarded true (mutable_insert_data_at_index three 9 1) (Updated three (5 ∷ 9 ∷ 7 ∷ 5 ∷ []))
mutable_insert_data_at_index_outcome_example =
    mutable_insert_data_at_index_outcome three 9 1 three-IsValid

mutable_replace_data_at_index_outcome_example :
    Guarded true (mutable_replace_data_at_index three 9 2) (Updated three (5 ∷ 7 ∷ 9 ∷ []))
mutable_replace_data_at_index_outcome_example =
    mutable_replace_data_at_index_outcome three 9 2 three-IsValid

mutable_remove_data_at_index_outcome_example :
    Guarded true (mutable_remove_data_at_index three 1) (Updated three (5 ∷ 5 ∷ []))
mutable_remove_data_at_index_outcome_example =
    mutable_remove_data_at_index_outcome three 1 three-IsValid (omega arith)

mutable_remove_data_outcome_example :
    Guarded true
      (mutable_remove_data three 7)
      (Updated three (remove_first three.callbacks 7 (5 ∷ 7 ∷ 5 ∷ [])))
mutable_remove_data_outcome_example =
    mutable_remove_data_outcome three 7 three-IsValid (omega arith)

mutable_set_array_outcome_example :
    Guarded true (mutable_set_array three pair) (Updated three (2 ∷ 4 ∷ []))
mutable_set_array_outcome_example = mutable_set_array_outcome three pair three-IsValid pair-IsValid

mutable_remove_data_in_range_outcome_example :
    Guarded true (mutable_remove_data_in_range three 1 2) (Updated three (5 ∷ []))
mutable_remove_data_in_range_outcome_example =
    mutable_remove_data_in_range_outcome three 1 2 three-IsValid (omega arith)

mutable_add_data_sorted_outcome_example :
    Guarded true
      (mutable_add_data_sorted pair 3 index_compare)
      (Updated pair (insert_sorted index_compare 3 (2 ∷ 4 ∷ [])))
mutable_add_data_sorted_outcome_example =
    mutable_add_data_sorted_outcome pair 3 index_compare pair-IsValid

mutable_add_data_sorted-IsSorted_example :
    Returns
      (mutable_add_data_sorted pair 3 index_compare)
      λ b. IsValid b × IsSorted index_compare (contents b)
unfolding index_compare
mutable_add_data_sorted-IsSorted_example =
    mutable_add_data_sorted-IsSorted pair 3 index_compare pair-IsValid refl refl
      index_compare-IsAsymmetric (ground arith)

mutable_sort_outcome_example :
    Guarded true
      (mutable_sort by_insertion three word_compare)
      (Sorted (compare_data word_compare) three)
mutable_sort_outcome_example =
    mutable_sort_outcome by_insertion three word_compare word_compare-Sorts three-IsValid

copy-Copied_example : Returns (copy three) (Copied three false (5 ∷ 7 ∷ 5 ∷ []))
copy-Copied_example = copy-Copied three three-IsValid

copy-is_equal_example : copy three >>= (λ b. is_equal three b) ≡ ok true
copy-is_equal_example = copy-is_equal three three-IsValid (λ x. refl) (λ x. ground arith)

add_index_outcome_example : Guarded true (add_index indexes 3) (Added indexes 3)
add_index_outcome_example = add_index_outcome indexes 3 indexes-IsIndexSet

remove_index_outcome_example : Guarded true (remove_index indexes 3) (Removed indexes 3)
remove_index_outcome_example = remove_index_outcome indexes 3 indexes-IsIndexSet (omega arith)

contains_index-remove_index_example : remove_index indexes 3 >>= (λ t. contains_index t 3) ≡ ok true
contains_index-remove_index_example =
    contains_index-remove_index indexes 3 indexes-IsIndexSet refl (omega arith)

data_from_string-string_from_data_example :
    data_from_string 0 0 0 0 (string_from_data (77 ∷ 97 ∷ 110 ∷ 33 ∷ [])) ≡ 77 ∷ 97 ∷ 110 ∷ 33 ∷ []
data_from_string-string_from_data_example =
    data_from_string-string_from_data 0 0 0 0 (77 ∷ 97 ∷ 110 ∷ 33 ∷ []) (ground arith)

dictionary_all_data-Result_example :
    Returns
      (all_data 10 null_callbacks
        (Collection.dictionary three_keys)
        (λ c. ok (data_enumerator three_keys c))
        4
        start)
      (Result three_keys.value_callbacks (6 ∷ 5 ∷ 5 ∷ []))
dictionary_all_data-Result_example =
    dictionary_all_data-Result 10 null_callbacks three_keys 4 (omega arith) refl
      (omega arith, (omega arith, (omega arith, tt))) (omega arith)

optimize-Kept_example : Kept three_keys (optimize three_keys)
optimize-Kept_example = optimize-Kept three_keys three_keys-IsValid

rehash_all-Rehashed_example :
    Rehashed
      (key_equal three_keys)
      (key_code three_keys)
      7
      three_keys.buckets
      (rehash_all (key_code three_keys) three_keys.buckets (replicate 7 []))
rehash_all-Rehashed_example =
    rehash_all-Rehashed (key_equal three_keys) (key_code three_keys) 7 three_keys.buckets
      three_keys-IsValid.laws (omega arith) three_keys-IsValid.placed three_keys-IsValid.once

mutable_set_data_for_key_outcome_example :
    Guarded true (mutable_set_data_for_key three_keys 9 23) (Assigned three_keys 9 23)
mutable_set_data_for_key_outcome_example =
    mutable_set_data_for_key_outcome three_keys 9 23 three_keys-IsValid

mutable_remove_data_for_key_outcome_example :
    Guarded true (mutable_remove_data_for_key three_keys 12) (Unassigned three_keys 12)
mutable_remove_data_for_key_outcome_example =
    mutable_remove_data_for_key_outcome three_keys 12 three_keys-IsValid

mutable_set_add_data_outcome_example :
    Guarded true
      (SetWrite.mutable_add_data counted_set 12)
      (Recounted counted_set 12 (count_for_data counted_set 12 + 1))
mutable_set_add_data_outcome_example =
    mutable_set_add_data_outcome counted_set 12 counted_set-IsValid

mutable_set_remove_data_outcome_example :
    Guarded true
      (SetWrite.mutable_remove_data counted_set 1)
      (Recounted counted_set 1 (left_over true (count_for_data counted_set 1)))
mutable_set_remove_data_outcome_example =
    mutable_set_remove_data_outcome counted_set 1 counted_set-IsValid

mutable_dictionary_remove_all_data_outcome_example :
    Guarded true (DictionaryWrite.mutable_remove_all_data three_keys) (Emptied three_keys)
mutable_dictionary_remove_all_data_outcome_example =
    mutable_dictionary_remove_all_data_outcome three_keys three_keys-IsValid

mutable_set_dictionary_outcome_example :
    Guarded true (mutable_set_dictionary three_keys one_key) (Replaced three_keys one_key)
mutable_set_dictionary_outcome_example =
    mutable_set_dictionary_outcome three_keys one_key three_keys-IsValid one_key-IsValid refl

replace_data_from_array_at_indexes_fails_example :
    replace_data_from_array_at_indexes three one_index.array one_index ≡ assert_failed
replace_data_from_array_at_indexes_fails_example =
    replace_data_from_array_at_indexes_fails three one_index.array one_index 2 one_index-IsValid
      refl refl refl (omega arith)
