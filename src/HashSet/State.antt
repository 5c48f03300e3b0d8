-- ===== src/HashSet/State.antt =====
-- The state of a set and the operations on its buckets: wi-set.c, 46-108, 242-253 and 474-609.
use libwired.Base.{
  ℕ, ◌+◌, ◌-◌, ◌*◌, ◌%◌, Bool, ◌&&◌, ◌||◌, List, [], ◌∷◌, none, some, length, set, replicate, ltb,
  leb, if◌then◌else◌, max,
}
use libwired.Numbers.{log2, exp2m1, clamp}
use libwired.Cells.{Cells, no_cells, create, put_back}
use libwired.Callbacks.{
  Callbacks, Call, Hash, retained, retain_calls, release_calls, is_equal_data, hash_data,
}
use libwired.Chains.{Entry, entries, chain_at, find_entry, assign_entry, rehash_all}

-- An entry's key is the bucket's `data`, and its value the bucket's `count`.
pub record HashSet : Type 0 where
  pub mutable : Bool
  pub counted : Bool
  pub callbacks : Callbacks
  pub data_hash : Hash
  pub buckets : List (List Entry)
  pub min_count : ℕ
  pub data_count : ℕ
  pub cells : Cells
  pub calls : List Call

-- `_WI_SET_MIN_COUNT`, `_WI_SET_MAX_COUNT`
abbrev pub set_min_count : ℕ
set_min_count = 11

abbrev pub set_max_count : ℕ
set_max_count = 16777213

unfoldable pub init_with_capacity_and_callbacks : Bool → ℕ → ℕ → Bool → Callbacks → Hash → HashSet
init_with_capacity_and_callbacks mutable per_page capacity counted callbacks data_hash =
    let min_count = max (exp2m1 (log2 capacity + 1)) set_min_count in
    record {
      mutable = mutable;
      counted = counted;
      callbacks = callbacks;
      data_hash = data_hash;
      buckets = replicate min_count [];
      min_count = min_count;
      data_count = 0;
      cells = no_cells per_page;
      calls = [];
    }

-- `_WI_SET_IS_EQUAL` and `_WI_SET_HASH`
abbrev pub data_equal : HashSet → ℕ → ℕ → Bool
data_equal s a b = is_equal_data s.callbacks a b

abbrev pub data_code : HashSet → ℕ → ℕ
data_code s d = hash_data s.data_hash d

-- `_wi_set_optimize`
unfoldable pub optimize : HashSet → HashSet
optimize s =
    let buckets_count = clamp (exp2m1 (log2 s.data_count + 1)) s.min_count set_max_count in
    record s { buckets = rehash_all (data_code s) s.buckets (replicate buckets_count []) }

-- `_WI_SET_CHECK_OPTIMIZE`
unfoldable pub check_optimize : HashSet → HashSet
unfolding optimize
check_optimize s =
    if leb (3 * s.data_count) (length s.buckets) && ltb s.min_count (length s.buckets)
      || leb (3 * length s.buckets) s.data_count && ltb (length s.buckets) set_max_count
    then optimize s
    else s

-- `_wi_set_bucket_remove`, for a bucket that has left its chain
unfoldable pub bucket_remove : HashSet → Entry → HashSet
bucket_remove s e = record s {
  data_count = s.data_count - 1;
  cells = put_back e.cell s.cells;
  calls = release_calls s.callbacks e.key s.calls;
}

abbrev pub bucket_index : HashSet → ℕ → ℕ
bucket_index s d = data_code s d % length s.buckets

-- `bucket->count = count`, for the bucket of an equal datum
unfoldable pub set_count : HashSet → ℕ → Entry → ℕ → HashSet
set_count s d e count =
    let i = bucket_index s d in
    record s {
      buckets = set s.buckets i (assign_entry (data_equal s) d e.key count (chain_at s.buckets i));
    }

-- A new bucket, counted once, at the head of its chain
unfoldable pub add_bucket : HashSet → ℕ → HashSet
add_bucket s d =
    let i = bucket_index s d in
    let made = create s.cells in
    record s {
      buckets = set s.buckets i (
          record { cell = made.0; key = retained s.callbacks d; value = 1 } ∷ chain_at s.buckets i);
      data_count = s.data_count + 1;
      cells = made.1;
      calls = retain_calls s.callbacks d s.calls;
    }

-- `_wi_set_add_data`
unfoldable pub add_data : HashSet → ℕ → HashSet
unfolding check_optimize set_count add_bucket
add_data s d = elim (find_entry (data_equal s) d (chain_at s.buckets (bucket_index s d))) [
  | some e ↦ check_optimize (set_count s d e (e.value + 1))
  | none ↦ check_optimize (add_bucket s d)
]

-- `_wi_set_add_data` for each of the data
unfoldable pub add_all : HashSet → List ℕ → HashSet
add_all s [] = s
add_all s (d ∷ ds) = add_all (add_data s d) ds

-- The loops of `_wi_set_remove_all_data`, over the buckets in their order
unfoldable pub remove_buckets : List Entry → HashSet → HashSet
unfolding bucket_remove
remove_buckets [] s = s
remove_buckets (e ∷ c) s = remove_buckets c (bucket_remove s e)

unfoldable pub remove_all_data : HashSet → HashSet
unfolding check_optimize remove_buckets
remove_all_data s =
    let emptied = remove_buckets (entries s.buckets) s in
    check_optimize (record emptied { buckets = replicate (length s.buckets) [] })
