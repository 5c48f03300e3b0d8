-- ===== src/Array/Read.antt =====
-- The functions of libwired/collections/wi-array.c that read an array, or make a new one from it.
use libwired.Base.{
  ℕ, zero, suc, ◌+◌, ◌-◌, ◌%◌, ◌^◌, Bool, true, false, ◌&&◌, not, List, [], ◌∷◌, map, Option, none,
  some, length, get_elem?, ltb, ◌==◌, if◌then◌else◌, Run, ok, bad_access, ◌>>=◌, ◌>>◌, wi_assert,
}
use libwired.Callbacks.{Callbacks, default_callbacks, is_equal_data, same_is_equal}
use libwired.Array.State.{Item, Array, init_with_capacity_and_callbacks, add_data, slots}

-- `WI_NOT_FOUND`
abbrev pub not_found : ℕ
not_found = 2 ^ 63 - 1

-- Sums of wi_uinteger_t.
abbrev pub word : ℕ → ℕ
word n = n % 2 ^ 64

-- `array->items[index]`
abbrev pub item_at : Array → ℕ → Run Item
item_at a index = elim (get_elem? a.items index) [ none ↦ bad_access | some item ↦ ok item ]

-- `_WI_ARRAY_ASSERT_INDEX`
abbrev pub assert_index : Array → ℕ → Run (Unit {0})
assert_index a index = wi_assert (ltb index a.data_count)

unfoldable pub data_at_index : Array → ℕ → Run ℕ
data_at_index a index = do assert_index a index; item ← item_at a index; ok item.datum

unfoldable pub first_data : Array → Run ℕ
first_data a = elim (ltb 0 a.data_count) [
  | true ↦ item_at a 0 >>= λ item. ok item.datum
  | false ↦ ok 0
]

unfoldable pub last_data : Array → Run ℕ
last_data a = elim (ltb 0 a.data_count) [
  | true ↦ item_at a (a.data_count - 1) >>= λ item. ok item.datum
  | false ↦ ok 0
]

-- The loop of `wi_array_index_of_data` over the slots from `i` on.
unfoldable pub index_from : Callbacks → ℕ → List Item → ℕ → ℕ
index_from cb d [] i = not_found
index_from cb d (x ∷ xs) i =
    let rest = index_from cb d xs (i + 1) in if is_equal_data cb x.datum d then i else rest

unfoldable pub index_of_data : Array → ℕ → Run ℕ
index_of_data a d = do all ← slots a; ok (index_from a.callbacks d all 0)

unfoldable pub contains_data : Array → ℕ → Run Bool
unfolding index_of_data
contains_data a d = do i ← index_of_data a d; ok (not (i == not_found))

-- The data that `wi_array_get_data` writes to the caller's buffer.
unfoldable pub get_data : Array → Run (List ℕ)
get_data a = do all ← slots a; ok (map (λ x. x.datum) all)

-- `for(i = start; rounds > 0; i++)`: the data of the items from `start` on.
unfoldable pub read_data : ℕ → ℕ → Array → Run (List ℕ)
read_data zero start a = ok []
read_data (suc rounds) start a = do
  item ← item_at a start
  rest ← read_data rounds (start + 1) a
  ok (item.datum ∷ rest)

unfoldable pub get_data_in_range : Array → ℕ → ℕ → Run (List ℕ)
get_data_in_range a location range_length = do
  assert_index a location
  assert_index a (word (location + range_length + 2 ^ 64 - 1))
  read_data (word (location + range_length) - location) location a

-- `_wi_array_add_data` for each of the data.
unfoldable pub add_all : Array → List ℕ → Run Array
add_all a [] = ok a
add_all a (d ∷ ds) = do b ← add_data a d; add_all b ds

unfoldable pub init_with_data_and_count : Array → List ℕ → ℕ → (ℕ → ℕ → Bool) → Run Array
init_with_data_and_count a ds address wi_is_equal =
    add_all
      (init_with_capacity_and_callbacks a.mutable a.cells.per_page (length ds)
        (default_callbacks address wi_is_equal))
      ds

-- The copy is a new immutable array.
unfoldable pub copy : Array → Run Array
unfolding get_data
copy a = do
  ds ← get_data a
  add_all (init_with_capacity_and_callbacks false a.cells.per_page a.data_count a.callbacks) ds

-- `wi_mutable_copy` and `wi_runtime_make_immutable`, on an array.
unfoldable pub mutable_copy : Array → Run Array
unfolding copy
mutable_copy a = do b ← copy a; ok (record b { mutable = true })

abbrev pub make_immutable : Array → Array
make_immutable a = record a { mutable = false }

unfoldable pub equal_data : Callbacks → List Item → List Item → Bool
equal_data cb (x ∷ xs) (y ∷ ys) = is_equal_data cb x.datum y.datum && equal_data cb xs ys
equal_data cb _ _ = true

unfoldable pub is_equal : Array → Array → Run Bool
is_equal a b =
    if not (a.data_count == b.data_count)
    then ok false
    else if not (same_is_equal a.callbacks.is_equal b.callbacks.is_equal)
    then ok false
    else do xs ← slots a; ys ← slots b; ok (equal_data a.callbacks xs ys)

unfoldable pub hash : Array → ℕ
hash a = a.data_count

unfoldable pub subarray_with_range : Array → ℕ → ℕ → Run Array
unfolding get_data_in_range
subarray_with_range a location range_length = do
  ds ← get_data_in_range a location range_length
  add_all (init_with_capacity_and_callbacks false a.cells.per_page range_length a.callbacks) ds

-- One call of an enumerator's function on its context: the datum and the context's new index.
unfoldable pub data_enumerator : Array → ℕ → Run (Option (ℕ × ℕ))
unfolding data_at_index
data_enumerator a index = elim (index == a.data_count) [
  | true ↦ ok none
  | false ↦ data_at_index a index >>= λ d. ok (some (d, index + 1))
]

unfoldable pub reverse_data_enumerator : Array → ℕ → Run (Option (ℕ × ℕ))
unfolding data_at_index
reverse_data_enumerator a index = elim (index == a.data_count) [
  | true ↦ ok none
  | false ↦ data_at_index a (word (a.data_count + 2 ^ 64 - index + 2 ^ 64 - 1)) >>= λ d.
      ok (some (d, index + 1))
]
