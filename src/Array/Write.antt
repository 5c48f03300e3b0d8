-- ===== src/Array/Write.antt =====
-- The functions of libwired/collections/wi-array.c that change an array, `wi_mutable_array_...`.
use libwired.Base.{
  ℕ, zero, suc, ◌+◌, ◌-◌, ◌/◌, true, false, ◌&&◌, List, [], ◌∷◌, set, remove_at, ◌==◌,
  if◌then◌else◌, Run, ok, ◌>>=◌, ◌>>◌, wi_assert,
}
use libwired.Callbacks.{Compare, CompareFunc, compare_data, assert_insertable, assert_removable}
use libwired.Array.State.{
  Item, Array, check_optimize, create_item, remove_item, insert_item_at_index, add_item_sorted,
  add_data, remove_all_data,
}
use libwired.Array.Read.{
  not_found, item_at, assert_index, index_of_data, get_data, add_all, mutable_copy, make_immutable,
}

-- `WI_RUNTIME_ASSERT_MUTABLE`
abbrev pub assert_mutable : Array → Run (Unit {0})
assert_mutable a = wi_assert a.mutable

unfoldable pub mutable_add_data : Array → ℕ → Run Array
mutable_add_data a d = do assert_mutable a; assert_insertable a.callbacks d; add_data a d

unfoldable pub mutable_add_data_sorted : Array → ℕ → Compare → Run Array
mutable_add_data_sorted a d compare = do
  assert_mutable a
  assert_insertable a.callbacks d
  let (item, b) = create_item a d
  add_item_sorted b item compare

unfoldable pub mutable_add_data_from_array : Array → Array → Run Array
unfolding get_data
mutable_add_data_from_array a other = do assert_mutable a; ds ← get_data other; add_all a ds

unfoldable pub mutable_insert_data_at_index : Array → ℕ → ℕ → Run Array
unfolding mutable_add_data
mutable_insert_data_at_index a d index =
    if a.data_count == 0 && index == 0 then mutable_add_data a d else do
      assert_mutable a
      assert_index a index
      assert_insertable a.callbacks d
      let (item, b) = create_item a d
      insert_item_at_index b item index

-- The new item is made before the old one is released, so that a datum may replace itself.
unfoldable pub mutable_replace_data_at_index : Array → ℕ → ℕ → Run Array
mutable_replace_data_at_index a d index = do
  assert_mutable a
  assert_index a index
  assert_insertable a.callbacks d
  let (item, b) = create_item a d
  old ← item_at b index
  let c = remove_item b old
  ok (record c { items = set c.items index item })

-- `_WI_ARRAY_CHECK_OPTIMIZE` sees the new count.
unfoldable pub mutable_remove_data_at_index : Array → ℕ → Run Array
mutable_remove_data_at_index a index = do
  assert_mutable a
  assert_index a index
  item ← item_at a index
  let b = remove_item a item
  ok (check_optimize (record b { items = remove_at b.items index; data_count = b.data_count - 1 }))

unfoldable pub mutable_remove_data : Array → ℕ → Run Array
unfolding index_of_data mutable_remove_data_at_index
mutable_remove_data a d = do
  assert_mutable a
  assert_removable a.callbacks d
  index ← index_of_data a d
  if index == not_found then ok a else mutable_remove_data_at_index a index

unfoldable pub mutable_set_array : Array → Array → Run Array
unfolding mutable_add_data_from_array
mutable_set_array a other = do
  assert_mutable a
  b ← remove_all_data a
  mutable_add_data_from_array b other

-- `while(count > 0)`
unfoldable pub remove_rounds : ℕ → ℕ → Array → Run Array
unfolding mutable_remove_data_at_index
remove_rounds zero location a = ok a
remove_rounds (suc rounds) location a = do
  b ← mutable_remove_data_at_index a location
  remove_rounds rounds location b

unfoldable pub mutable_remove_data_in_range : Array → ℕ → ℕ → Run Array
unfolding remove_rounds
mutable_remove_data_in_range a location range_length = do
  assert_mutable a
  remove_rounds range_length location a

-- The index is looked up with no check against NULL.
unfoldable pub remove_each : List ℕ → Array → Run Array
unfolding index_of_data mutable_remove_data_at_index
remove_each [] a = ok a
remove_each (d ∷ ds) a = do
  index ← index_of_data a d
  b ← (if index == not_found then ok a else mutable_remove_data_at_index a index)
  remove_each ds b

unfoldable pub mutable_remove_data_in_array : Array → Array → Run Array
unfolding get_data remove_each
mutable_remove_data_in_array a other = do assert_mutable a; ds ← get_data other; remove_each ds a

unfoldable pub mutable_remove_last_data : Array → Run Array
unfolding mutable_remove_data_at_index
mutable_remove_last_data a = do
  assert_mutable a
  elim (a.data_count == 0) [
    | true ↦ ok a
    | false ↦ mutable_remove_data_at_index a (a.data_count - 1)
  ]

unfoldable pub mutable_remove_all_data : Array → Run Array
mutable_remove_all_data a = do assert_mutable a; remove_all_data a

-- `array->items[i]->data = data[i]`
unfoldable pub write_data : List Item → List ℕ → List Item
write_data (x ∷ xs) (d ∷ ds) = record x { datum = d } ∷ write_data xs ds
write_data xs [] = xs
write_data [] ds = []

-- `qsort` is the C library's.
unfoldable pub mutable_sort : (Compare → List ℕ → List ℕ) → Array → CompareFunc → Run Array
unfolding get_data write_data
mutable_sort qsort a compare = do
  assert_mutable a
  elim (a.data_count == 0) [
    | true ↦ ok a
    | false ↦ get_data a >>= λ ds.
        ok (record a { items = write_data a.items (qsort (compare_data compare) ds) })
  ]

-- One round of the loop of `wi_mutable_array_reverse` exchanges two items.
unfoldable pub exchange : ℕ → ℕ → Array → Run Array
exchange i j a = do
  x ← item_at a i
  y ← item_at a j
  ok (record a { items = set (set a.items i y) j x })

unfoldable pub reverse_rounds : ℕ → ℕ → ℕ → Array → Run Array
unfolding exchange
reverse_rounds zero i n a = ok a
reverse_rounds (suc rounds) i n a = do
  b ← exchange i (n - i - 1) a
  reverse_rounds rounds (i + 1) n b

unfoldable pub mutable_reverse : Array → Run Array
unfolding reverse_rounds
mutable_reverse a = do assert_mutable a; reverse_rounds (a.data_count / 2) 0 a.data_count a

-- `wi_array_by_adding_data` and its two siblings: a changed mutable copy, made immutable.
unfoldable pub by_adding_data : Array → ℕ → Run Array
unfolding mutable_copy mutable_add_data
by_adding_data a d = do b ← mutable_copy a; c ← mutable_add_data b d; ok (make_immutable c)

unfoldable pub by_adding_data_from_array : Array → Array → Run Array
unfolding mutable_copy mutable_add_data_from_array
by_adding_data_from_array a other = do
  b ← mutable_copy a
  c ← mutable_add_data_from_array b other
  ok (make_immutable c)

unfoldable pub by_sorting : (Compare → List ℕ → List ℕ) → Array → CompareFunc → Run Array
unfolding mutable_copy mutable_sort
by_sorting qsort a compare = do
  b ← mutable_copy a
  c ← mutable_sort qsort b compare
  ok (make_immutable c)

-- `wi_mutable_array_add_data` for each of the data, as the loops of other collections call it
unfoldable pub mutable_add_each : Array → List ℕ → Run Array
unfolding mutable_add_data
mutable_add_each a [] = ok a
mutable_add_each a (d ∷ ds) = do b ← mutable_add_data a d; mutable_add_each b ds
