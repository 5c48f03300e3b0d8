-- ===== src/HashSet/Write.antt =====
-- The functions of wi-set.c that change a set, `wi_mutable_set_...`.
use libwired.Base.{
  ℕ, ◌-◌, ◌&&◌, not, map, none, some, set, ◌==◌, if◌then◌else◌, Run, ok, ◌>>◌, wi_assert,
}
use libwired.Callbacks.{insertable, removable}
use libwired.Chains.{Entry, entries, chain_at, find_entry, unlink_entry}
use libwired.Array.State.{Array}
use libwired.HashSet.State.{
  HashSet, data_equal, bucket_index, check_optimize, bucket_remove, set_count, add_data, add_all,
  remove_all_data,
}
use libwired.HashSet.Read.{add_data_from_array}

-- `WI_RUNTIME_ASSERT_MUTABLE`
abbrev pub assert_mutable : HashSet → Run (Unit {0})
assert_mutable s = wi_assert s.mutable

unfoldable pub mutable_add_data : HashSet → ℕ → Run HashSet
mutable_add_data s d = do assert_mutable s; wi_assert (insertable s.callbacks d); ok (add_data s d)

unfoldable pub mutable_add_data_from_array : HashSet → Array → Run HashSet
mutable_add_data_from_array s a = do assert_mutable s; add_data_from_array s a

-- Each datum of the other set is added once, whatever its count. The other set is another object.
unfoldable pub mutable_set_set : HashSet → HashSet → Run HashSet
mutable_set_set s other = do
  assert_mutable s
  ok (add_all (remove_all_data s) (map (λ e. e.key) (entries other.buckets)))

-- The bucket with an equal datum leaves its chain.
unfoldable pub unlink_bucket : HashSet → ℕ → HashSet
unlink_bucket s d =
    let i = bucket_index s d in
    record s { buckets = set s.buckets i (unlink_entry (data_equal s) d (chain_at s.buckets i)) }

-- `if(set->counted) { if(--bucket->count == 0) remove = true; } else remove = true;`
unfoldable pub remove_counted : HashSet → ℕ → Entry → HashSet
unfolding set_count unlink_bucket bucket_remove
remove_counted s d e =
    if s.counted && not (e.value - 1 == 0)
    then set_count s d e (e.value - 1)
    else bucket_remove (unlink_bucket s d) e

-- `wi_mutable_set_remove_data`, past its assertions. A bucket's count is at least 1, so that
-- the decrement of an unsigned number does not wrap.
unfoldable pub remove_data : HashSet → ℕ → HashSet
unfolding remove_counted check_optimize
remove_data s d = elim (find_entry (data_equal s) d (chain_at s.buckets (bucket_index s d))) [
  | none ↦ check_optimize s
  | some e ↦ check_optimize (remove_counted s d e)
]

unfoldable pub mutable_remove_data : HashSet → ℕ → Run HashSet
unfolding remove_data
mutable_remove_data s d = do
  assert_mutable s
  wi_assert (removable s.callbacks d)
  ok (remove_data s d)

unfoldable pub mutable_remove_all_data : HashSet → Run HashSet
mutable_remove_all_data s = do assert_mutable s; ok (remove_all_data s)
