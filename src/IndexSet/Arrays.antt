-- ===== src/IndexSet/Arrays.antt =====
-- The functions of libwired/collections/wi-array.c that take an index set. The set's enumerator is
-- that of its array; the sets that are given do not change meanwhile.
use libwired.Base.{
  ℕ, ◌+◌, ◌-◌, ◌^◌, ◌≡◌, ◌≤◌, refl, sym, ap, ◌∙◌, true, false, List, [], ◌∷◌, ◌==◌, ltb, length,
  length-map, arith, Run, ok, assert_failed, ◌>>=◌, ◌>>◌, wi_assert,
}
use libwired.Array.State.{Array, Item, contents, init_with_capacity_and_callbacks, add_data}
use libwired.Array.Read.{word, assert_index, data_at_index, get_data}
use libwired.Array.Write.{
  assert_mutable, mutable_insert_data_at_index, mutable_replace_data_at_index,
  mutable_remove_data_at_index,
}
use libwired.Array.Valid.{IsValid}
use libwired.Array.Bulk.{get_data-ok}
use libwired.IndexSet.State.{IndexSet, indexset_count}

unfoldable pub add_data_at_each : List ℕ → Array → Array → Run Array
add_data_at_each [] a new = ok new
add_data_at_each (index ∷ rest) a new = do
  assert_index a index
  d ← data_at_index a index
  b ← add_data new d
  add_data_at_each rest a b

unfoldable pub data_at_indexes : Array → IndexSet → Run Array
unfolding indexset_count add_data_at_each
data_at_indexes a s = do
  indexes ← get_data s.array
  add_data_at_each indexes a
      (init_with_capacity_and_callbacks false a.cells.per_page (indexset_count s) a.callbacks)

-- The data of the other array one by one, each at its index
unfoldable pub insert_each : List ℕ → ℕ → Array → Array → Run Array
insert_each [] offset other a = ok a
insert_each (index ∷ rest) offset other a = do
  d ← data_at_index other offset
  b ← mutable_insert_data_at_index a d index
  insert_each rest (offset + 1) other b

unfoldable pub insert_data_from_array_at_indexes : Array → Array → IndexSet → Run Array
unfolding indexset_count insert_each
insert_data_from_array_at_indexes a other s = do
  assert_mutable a
  wi_assert (other.data_count == indexset_count s)
  indexes ← get_data s.array
  insert_each indexes 0 other a

-- The datum is read at the index itself.
unfoldable pub replace_each : List ℕ → Array → Array → Run Array
replace_each [] other a = ok a
replace_each (index ∷ rest) other a = do
  d ← data_at_index other index
  b ← mutable_replace_data_at_index a d index
  replace_each rest other b

unfoldable pub replace_data_from_array_at_indexes : Array → Array → IndexSet → Run Array
unfolding indexset_count replace_each
replace_data_from_array_at_indexes a other s = do
  assert_mutable a
  wi_assert (other.data_count == indexset_count s)
  indexes ← get_data s.array
  replace_each indexes other a

-- `index = i - offset`, of unsigned numbers
unfoldable pub remove_at_each : List ℕ → ℕ → Array → Run Array
remove_at_each [] offset a = ok a
remove_at_each (i ∷ rest) offset a = do
  b ← mutable_remove_data_at_index a (word (i + 2 ^ 64 - offset))
  remove_at_each rest (offset + 1) b

unfoldable pub remove_data_at_indexes : Array → IndexSet → Run Array
unfolding remove_at_each
remove_data_at_indexes a s = do
  assert_mutable a
  indexes ← get_data s.array
  remove_at_each indexes 0 a

-- With one datum and one index, `wi_mutable_array_replace_data_from_array_at_indexes` on a mutable
-- array, with a valid index set, fails an assertion at every index but 0.
pub replace_data_from_array_at_indexes_fails :
    (a other : Array) (s : IndexSet) (index : ℕ)
    → IsValid s.array
    → a.mutable ≡ true
    → contents s.array ≡ index ∷ []
    → other.data_count ≡ 1
    → 1 ≤ index
    → replace_data_from_array_at_indexes a other s ≡ assert_failed
unfolding replace_data_from_array_at_indexes indexset_count replace_each data_at_index
replace_data_from_array_at_indexes_fails a other s index w m one single far =
    let size : s.array.data_count ≡ 1 =
      sym w.filled ∙ sym (length-map (λ (x : Item). x.datum) s.array.items) ∙ ap length one in
    let counts : (other.data_count == s.array.data_count) ≡ true = ground arith in
    let run : get_data s.array ≡ ok (index ∷ []) = get_data-ok s.array w ∙ ap ok one in
    let outside : ltb index other.data_count ≡ false = ground arith in
    rw (m, counts, run, outside) refl
