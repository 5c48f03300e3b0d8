-- ===== src/Dictionary/State.antt =====
-- The state of a dictionary and the operations on its buckets: wi-dictionary.c, 33-108, 326-335
-- and 752-911. `calloc` in `wi_malloc` clears a vector of buckets.
use libwired.Base.{
  ℕ, ◌+◌, ◌-◌, ◌*◌, ◌%◌, Bool, ◌&&◌, ◌||◌, List, [], ◌∷◌, none, some, length, set, replicate, ltb,
  leb, if◌then◌else◌, max,
}
use libwired.Numbers.{log2, exp2m1, clamp}
use libwired.Cells.{Cells, no_cells, create, put_back}
use libwired.Callbacks.{
  Callbacks, Call, Hash, retained, retain_calls, release_calls, is_equal_data, hash_data,
}
use libwired.Chains.{Entry, entries, chain_at, find_entry, assign_entry, unlink_entry, rehash_all}

-- `buckets_count` is the length of `buckets`. Each bucket holds a key and a value; the calls to
-- the callbacks of the keys and of the values are logged apart.
pub record Dictionary : Type 0 where
  pub mutable : Bool
  pub key_callbacks : Callbacks
  pub key_hash : Hash
  pub value_callbacks : Callbacks
  pub buckets : List (List Entry)
  pub min_count : ℕ
  pub key_count : ℕ
  pub cells : Cells
  pub key_calls : List Call
  pub value_calls : List Call

-- `_WI_DICTIONARY_MIN_COUNT`, `_WI_DICTIONARY_MAX_COUNT`
abbrev pub dictionary_min_count : ℕ
dictionary_min_count = 11

abbrev pub dictionary_max_count : ℕ
dictionary_max_count = 16777213

unfoldable pub init_with_capacity_and_callbacks :
    Bool → ℕ → ℕ → Callbacks → Hash → Callbacks → Dictionary
init_with_capacity_and_callbacks mutable per_page capacity key_callbacks key_hash value_callbacks =
    let min_count = max (exp2m1 (log2 capacity + 1)) dictionary_min_count in
    record {
      mutable = mutable;
      key_callbacks = key_callbacks;
      key_hash = key_hash;
      value_callbacks = value_callbacks;
      buckets = replicate min_count [];
      min_count = min_count;
      key_count = 0;
      cells = no_cells per_page;
      key_calls = [];
      value_calls = [];
    }

-- `_WI_DICTIONARY_KEY_IS_EQUAL` and `_WI_DICTIONARY_KEY_HASH`
abbrev pub key_equal : Dictionary → ℕ → ℕ → Bool
key_equal d a b = is_equal_data d.key_callbacks a b

abbrev pub key_code : Dictionary → ℕ → ℕ
key_code d k = hash_data d.key_hash k

-- `_wi_dictionary_optimize`: a fresh vector, into which every bucket is pushed.
unfoldable pub optimize : Dictionary → Dictionary
optimize d =
    let buckets_count = clamp (exp2m1 (log2 d.key_count + 1)) d.min_count dictionary_max_count in
    record d { buckets = rehash_all (key_code d) d.buckets (replicate buckets_count []) }

-- `_WI_DICTIONARY_CHECK_OPTIMIZE`
unfoldable pub check_optimize : Dictionary → Dictionary
unfolding optimize
check_optimize d =
    if leb (3 * d.key_count) (length d.buckets) && ltb d.min_count (length d.buckets)
      || leb (3 * length d.buckets) d.key_count && ltb (length d.buckets) dictionary_max_count
    then optimize d
    else d

-- `_wi_dictionary_bucket_remove`, for a bucket that has left its chain
unfoldable pub bucket_remove : Dictionary → Entry → Dictionary
bucket_remove d e = record d {
  key_count = d.key_count - 1;
  cells = put_back e.cell d.cells;
  key_calls = release_calls d.key_callbacks e.key d.key_calls;
  value_calls = release_calls d.value_callbacks e.value d.value_calls;
}

-- `index = HASH(key) % buckets_count`
abbrev pub bucket_index : Dictionary → ℕ → ℕ
bucket_index d k = key_code d k % length d.buckets

-- The bucket with an equal key takes the new references, and the old ones are released.
unfoldable pub assign_bucket : Dictionary → ℕ → ℕ → Entry → Dictionary
assign_bucket d value key old =
    let i = bucket_index d key in
    record d {
      buckets = set d.buckets i (
          assign_entry (key_equal d) key (retained d.key_callbacks key)
            (retained d.value_callbacks value) (chain_at d.buckets i));
      key_calls =
          release_calls d.key_callbacks old.key (retain_calls d.key_callbacks key d.key_calls);
      value_calls =
          release_calls d.value_callbacks old.value
            (retain_calls d.value_callbacks value d.value_calls);
    }

-- A new bucket with the new references at the head of its chain.
unfoldable pub add_bucket : Dictionary → ℕ → ℕ → Dictionary
add_bucket d value key =
    let i = bucket_index d key in
    let made = create d.cells in
    record d {
      buckets = set d.buckets i (
          record {
            cell = made.0;
            key = retained d.key_callbacks key;
            value = retained d.value_callbacks value;
          }
          ∷ chain_at d.buckets i);
      key_count = d.key_count + 1;
      cells = made.1;
      key_calls = retain_calls d.key_callbacks key d.key_calls;
      value_calls = retain_calls d.value_callbacks value d.value_calls;
    }

-- `_wi_dictionary_set_data_for_key`
unfoldable pub set_data_for_key : Dictionary → ℕ → ℕ → Dictionary
unfolding check_optimize assign_bucket add_bucket
set_data_for_key d value key =
    elim (find_entry (key_equal d) key (chain_at d.buckets (bucket_index d key))) [
      | some old ↦ check_optimize (assign_bucket d value key old)
      | none ↦ check_optimize (add_bucket d value key)
    ]

unfoldable pub unlink_bucket : Dictionary → ℕ → Dictionary
unlink_bucket d key =
    let i = bucket_index d key in
    record d { buckets = set d.buckets i (unlink_entry (key_equal d) key (chain_at d.buckets i)) }

-- `_wi_dictionary_remove_data_for_key`
unfoldable pub remove_data_for_key : Dictionary → ℕ → Dictionary
unfolding check_optimize unlink_bucket bucket_remove
remove_data_for_key d key =
    elim (find_entry (key_equal d) key (chain_at d.buckets (bucket_index d key))) [
      | some old ↦ check_optimize (bucket_remove (unlink_bucket d key) old)
      | none ↦ check_optimize d
    ]

-- The loops of `_wi_dictionary_remove_all_data`, over the buckets in their order
unfoldable pub remove_buckets : List Entry → Dictionary → Dictionary
unfolding bucket_remove
remove_buckets [] d = d
remove_buckets (e ∷ c) d = remove_buckets c (bucket_remove d e)

unfoldable pub remove_all_data : Dictionary → Dictionary
unfolding check_optimize remove_buckets
remove_all_data d =
    let emptied = remove_buckets (entries d.buckets) d in
    check_optimize (record emptied { buckets = replicate (length d.buckets) [] })
