-- ===== src/HashSet/Read.antt =====
-- The functions of wi-set.c that read a set or make another object from it.
use libwired.Base.{
  ℕ, Bool, true, false, not, ◌&&◌, List, [], ◌∷◌, ◌++◌, map, Option, none, some, replicate, ◌==◌,
  if◌then◌else◌, Run, ok, ◌>>=◌,
}
use libwired.Callbacks.{Callbacks, Hash}
use libwired.Chains.{Entry, entries, chain_at, find_entry}
use libwired.Chains.Enumerate.{Context, enumerate}
use libwired.Array.State.{Array}
use libwired.Array.Read.{get_data}
use libwired.Dictionary.Read.{array_of}
use libwired.HashSet.State.{
  HashSet, init_with_capacity_and_callbacks, data_equal, bucket_index, add_all,
}

unfoldable pub bucket_for_data : HashSet → ℕ → Option Entry
bucket_for_data s d = find_entry (data_equal s) d (chain_at s.buckets (bucket_index s d))

unfoldable pub contains_data : HashSet → ℕ → Bool
unfolding bucket_for_data
contains_data s d = elim (bucket_for_data s d) [ none ↦ false | some e ↦ true ]

unfoldable pub count_for_data : HashSet → ℕ → ℕ
unfolding bucket_for_data
count_for_data s d = elim (bucket_for_data s d) [ none ↦ 0 | some e ↦ e.value ]

-- `_wi_set_add_data_from_array`
unfoldable pub add_data_from_array : HashSet → Array → Run HashSet
add_data_from_array s a = do ds ← get_data a; ok (add_all s ds)

unfoldable pub init_with_array : ℕ → Callbacks → Hash → Array → Run HashSet
unfolding add_data_from_array
init_with_array per_page callbacks data_hash a =
    add_data_from_array
      (init_with_capacity_and_callbacks false per_page a.data_count false callbacks data_hash) a

-- `for(j = 0; j < bucket->count; j++)`: the data to add, each as often as it is counted
abbrev pub with_counts : List Entry → List ℕ
with_counts [] = []
with_counts (e ∷ c) = replicate e.value e.key ++ with_counts c

unfoldable pub copy : HashSet → HashSet
copy s =
    add_all
      (init_with_capacity_and_callbacks false s.cells.per_page s.data_count s.counted s.callbacks
        s.data_hash)
      (with_counts (entries s.buckets))

-- The loop over the buckets of the first set
unfoldable pub contains_entries : HashSet → List Entry → Bool
contains_entries s [] = true
contains_entries s (e ∷ c) = contains_data s e.key && contains_entries s c

unfoldable pub is_equal : HashSet → HashSet → Bool
is_equal s1 s2 =
    if not (s1.data_count == s2.data_count) then false else contains_entries s2 (entries s1.buckets)

unfoldable pub hash : HashSet → ℕ
hash s = s.data_count

unfoldable pub all_data : ℕ → HashSet → Run Array
all_data per_page s =
    array_of per_page s.data_count s.callbacks (map (λ e. e.key) (entries s.buckets))

unfoldable pub data_enumerator : HashSet → Context → Option ℕ × Context
data_enumerator s context =
    let (found, next) = enumerate s.buckets context in
    (elim found [ none ↦ none | some e ↦ some e.key ], next)
