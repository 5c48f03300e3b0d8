-- ===== src/Dictionary/Read.antt =====
-- The functions of wi-dictionary.c that read a dictionary or make another object from it.
use Prim.Native.Nat.{Ordering}
use libwired.Base.{
  ℕ, Bool, true, false, not, ◌&&◌, List, [], ◌∷◌, map, Option, none, some, ◌==◌, if◌then◌else◌, Run,
  ok, ◌>>=◌,
}
use libwired.Callbacks.{
  Callbacks, CompareFunc, int_sign, default_callbacks, is_equal_data, same_is_equal,
}
use libwired.Chains.{Entry, entries, chain_at, find_entry}
use libwired.Chains.Enumerate.{Context, enumerate}
use libwired.Array.State.{Array}
use libwired.Array.Read.{make_immutable}
use libwired.Array.Write.{mutable_add_each}
use libwired.Dictionary.State.{
  Dictionary, init_with_capacity_and_callbacks, key_equal, bucket_index, set_data_for_key,
}

unfoldable pub bucket_for_key : Dictionary → ℕ → Option Entry
bucket_for_key d key = find_entry (key_equal d) key (chain_at d.buckets (bucket_index d key))

unfoldable pub data_for_key : Dictionary → ℕ → ℕ
unfolding bucket_for_key
data_for_key d key = elim (bucket_for_key d key) [ none ↦ 0 | some e ↦ e.value ]

unfoldable pub contains_key : Dictionary → ℕ → Bool
unfolding bucket_for_key
contains_key d key = elim (bucket_for_key d key) [ none ↦ false | some e ↦ true ]

-- `_wi_dictionary_set_data_for_key` for each of the entries
unfoldable pub set_all : Dictionary → List Entry → Dictionary
set_all d [] = d
set_all d (e ∷ c) = set_all (set_data_for_key d e.value e.key) c

unfoldable pub copy : Dictionary → Dictionary
copy d =
    set_all
      (init_with_capacity_and_callbacks false d.cells.per_page d.key_count d.key_callbacks
        d.key_hash d.value_callbacks)
      (entries d.buckets)

-- The loop over the buckets of the first dictionary
unfoldable pub equal_entries : Dictionary → Dictionary → List Entry → Bool
equal_entries d1 d2 [] = true
equal_entries d1 d2 (e ∷ c) =
    is_equal_data d1.value_callbacks e.value (data_for_key d2 e.key) && equal_entries d1 d2 c

unfoldable pub is_equal : Dictionary → Dictionary → Bool
is_equal d1 d2 =
    if not (d1.key_count == d2.key_count)
    then false
    else if not (same_is_equal d1.value_callbacks.is_equal d2.value_callbacks.is_equal)
    then false
    else equal_entries d1 d2 (entries d1.buckets)

unfoldable pub hash : Dictionary → ℕ
hash d = d.key_count

-- An immutable array of the data, made by `wi_mutable_array_add_data`
unfoldable pub array_of : ℕ → ℕ → Callbacks → List ℕ → Run Array
array_of per_page capacity callbacks ds =
    mutable_add_each
      (libwired.Array.State.init_with_capacity_and_callbacks true per_page capacity callbacks) ds
    >>= λ a. ok (make_immutable a)

-- `per_page` is the number of items that a page of the new array holds.
unfoldable pub all_keys : ℕ → Dictionary → Run Array
unfolding array_of
all_keys per_page d =
    array_of per_page d.key_count d.key_callbacks (map (λ e. e.key) (entries d.buckets))

unfoldable pub all_values : ℕ → Dictionary → Run Array
unfolding array_of
all_values per_page d =
    array_of per_page d.key_count d.value_callbacks (map (λ e. e.value) (entries d.buckets))

-- `_wi_dictionary_compare_buckets`
unfoldable pub compare_buckets : CompareFunc → Entry → Entry → Ordering
unfolding int_sign
compare_buckets compare a b = int_sign (compare a.value b.value)

-- `qsort` is the C library's.
unfoldable pub keys_sorted_by_value :
    ((Entry → Entry → Ordering) → List Entry → List Entry)
    → ℕ
    → (ℕ → ℕ → Bool)
    → ℕ
    → Dictionary
    → CompareFunc
    → Run Array
unfolding array_of
keys_sorted_by_value qsort address wi_is_equal per_page d compare =
    if d.key_count == 0
    then ok (
        libwired.Array.State.init_with_capacity_and_callbacks false per_page 0
          (default_callbacks address wi_is_equal))
    else array_of per_page d.key_count d.key_callbacks
        (map (λ e. e.key) (qsort (compare_buckets compare) (entries d.buckets)))

-- The two enumerators: the datum they yield, and the context they leave.
unfoldable pub key_enumerator : Dictionary → Context → Option ℕ × Context
key_enumerator d context =
    let (found, next) = enumerate d.buckets context in
    (elim found [ none ↦ none | some e ↦ some e.key ], next)

unfoldable pub data_enumerator : Dictionary → Context → Option ℕ × Context
data_enumerator d context =
    let (found, next) = enumerate d.buckets context in
    (elim found [ none ↦ none | some e ↦ some e.value ], next)
