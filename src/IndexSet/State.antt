-- ===== src/IndexSet/State.antt =====
-- The state and the functions of libwired/collections/wi-indexset.c.
use Prim.Native.Nat.{Ordering}
use libwired.Base.{
  ℕ, zero, suc, ◌+◌, ◌-◌, Bool, true, false, List, [], ◌∷◌, ltb, if◌then◌else◌, Run, ok, ◌>>=◌,
  ◌>>◌, wi_assert,
}
use libwired.Callbacks.{Compare, null_callbacks}
use libwired.Array.State.{Array, init_with_capacity_and_callbacks}
use libwired.Array.Read.{word, contains_data, first_data, last_data, get_data}
use libwired.Array.Read
use libwired.Array.Write.{
  mutable_add_data, mutable_add_data_sorted, mutable_set_array, mutable_remove_data,
  mutable_remove_all_data,
}

pub record IndexSet : Type 0 where
  pub mutable : Bool
  pub array : Array

-- `_wi_index_compare`
unfoldable pub index_compare : Compare
index_compare index1 index2 =
    if ltb index2 index1
    then Ordering.gt
    else if ltb index1 index2
    then Ordering.lt
    else Ordering.eq

unfoldable pub init : Bool → ℕ → IndexSet
init mutable per_page = record {
  mutable = mutable;
  array = init_with_capacity_and_callbacks true per_page 0 null_callbacks;
}

unfoldable pub init_with_index : Bool → ℕ → ℕ → Run IndexSet
unfolding init
init_with_index mutable per_page index = do
  let s = init mutable per_page
  b ← mutable_add_data s.array index
  ok (record s { array = b })

-- `for(index = range.location; index < range.location + range.length; index++)`: the rounds.
abbrev pub range_rounds : ℕ → ℕ → ℕ
range_rounds location range_length = word (location + range_length) - location

unfoldable pub add_range : ℕ → ℕ → Array → Run Array
add_range zero index a = ok a
add_range (suc rounds) index a = do b ← mutable_add_data a index; add_range rounds (index + 1) b

unfoldable pub init_with_indexes_in_range : Bool → ℕ → ℕ → ℕ → Run IndexSet
unfolding init add_range
init_with_indexes_in_range mutable per_page location range_length = do
  let s = init mutable per_page
  b ← add_range (range_rounds location range_length) location s.array
  ok (record s { array = b })

-- The copy is immutable, as the runtime's `alloc` makes it.
unfoldable pub copy : IndexSet → Run IndexSet
unfolding init
copy s = do
  let t = init false s.array.cells.per_page
  b ← mutable_set_array t.array s.array
  ok (record t { array = b })

unfoldable pub is_equal : IndexSet → IndexSet → Run Bool
is_equal s t = Read.is_equal s.array t.array

unfoldable pub hash : IndexSet → ℕ
hash s = Read.hash s.array

unfoldable pub indexset_count : IndexSet → ℕ
indexset_count s = s.array.data_count

unfoldable pub contains_index : IndexSet → ℕ → Run Bool
contains_index s index = contains_data s.array index

unfoldable pub contains_each : List ℕ → Array → Run Bool
contains_each [] a = ok true
contains_each (index ∷ rest) a =
    contains_data a index >>= λ found. elim found [ true ↦ contains_each rest a | false ↦ ok false ]

unfoldable pub contains_indexes : IndexSet → IndexSet → Run Bool
unfolding contains_each
contains_indexes s other = do indexes ← get_data other.array; contains_each indexes s.array

unfoldable pub contains_range : ℕ → ℕ → Array → Run Bool
contains_range zero index a = ok true
contains_range (suc rounds) index a = contains_data a index >>= λ found. elim found [
  | true ↦ contains_range rounds (index + 1) a
  | false ↦ ok false
]

unfoldable pub contains_indexes_in_range : IndexSet → ℕ → ℕ → Run Bool
unfolding contains_range
contains_indexes_in_range s location range_length =
    contains_range (range_rounds location range_length) location s.array

unfoldable pub first_index : IndexSet → Run ℕ
first_index s = first_data s.array

unfoldable pub last_index : IndexSet → Run ℕ
last_index s = last_data s.array

-- `WI_RUNTIME_ASSERT_MUTABLE(indexset)` in front of a change of the array.
abbrev pub change : IndexSet → (Array → Run Array) → Run IndexSet
change s f = do wi_assert s.mutable; b ← f s.array; ok (record s { array = b })

unfoldable pub add_index : IndexSet → ℕ → Run IndexSet
add_index s index = change s λ a. mutable_add_data_sorted a index index_compare

unfoldable pub add_each : List ℕ → Array → Run Array
add_each [] a = ok a
add_each (index ∷ rest) a = do b ← mutable_add_data_sorted a index index_compare; add_each rest b

unfoldable pub add_indexes : IndexSet → IndexSet → Run IndexSet
unfolding add_each
add_indexes s other = change s λ a. get_data other.array >>= λ indexes. add_each indexes a

unfoldable pub add_sorted_range : ℕ → ℕ → Array → Run Array
add_sorted_range zero index a = ok a
add_sorted_range (suc rounds) index a = do
  b ← mutable_add_data_sorted a index index_compare
  add_sorted_range rounds (index + 1) b

unfoldable pub add_indexes_in_range : IndexSet → ℕ → ℕ → Run IndexSet
unfolding add_sorted_range
add_indexes_in_range s location range_length =
    change s λ a. add_sorted_range (range_rounds location range_length) location a

unfoldable pub set_indexes : IndexSet → IndexSet → Run IndexSet
set_indexes s other = change s λ a. mutable_set_array a other.array

unfoldable pub remove_index : IndexSet → ℕ → Run IndexSet
remove_index s index = change s λ a. mutable_remove_data a index

unfoldable pub remove_each_index : List ℕ → Array → Run Array
remove_each_index [] a = ok a
remove_each_index (index ∷ rest) a = do b ← mutable_remove_data a index; remove_each_index rest b

unfoldable pub remove_indexes : IndexSet → IndexSet → Run IndexSet
unfolding remove_each_index
remove_indexes s other =
    change s λ a. get_data other.array >>= λ indexes. remove_each_index indexes a

unfoldable pub remove_range_of : ℕ → ℕ → Array → Run Array
remove_range_of zero index a = ok a
remove_range_of (suc rounds) index a = do
  b ← mutable_remove_data a index
  remove_range_of rounds (index + 1) b

unfoldable pub remove_indexes_in_range : IndexSet → ℕ → ℕ → Run IndexSet
unfolding remove_range_of
remove_indexes_in_range s location range_length =
    change s λ a. remove_range_of (range_rounds location range_length) location a

unfoldable pub remove_all_indexes : IndexSet → Run IndexSet
remove_all_indexes s = change s mutable_remove_all_data
