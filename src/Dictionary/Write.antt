-- ===== src/Dictionary/Write.antt =====
-- The functions of wi-dictionary.c that change a dictionary, `wi_mutable_dictionary_...`.
use libwired.Base.{ℕ, Run, ok, ◌>>◌, wi_assert}
use libwired.Callbacks.{insertable, insertable_key, removable}
use libwired.Chains.{entries}
use libwired.Dictionary.State.{Dictionary, set_data_for_key, remove_data_for_key, remove_all_data}
use libwired.Dictionary.Read.{set_all}

-- `WI_RUNTIME_ASSERT_MUTABLE`
abbrev pub assert_mutable : Dictionary → Run (Unit {0})
assert_mutable d = wi_assert d.mutable

unfoldable pub mutable_set_data_for_key : Dictionary → ℕ → ℕ → Run Dictionary
mutable_set_data_for_key d value key = do
  assert_mutable d
  wi_assert (insertable d.value_callbacks value)
  wi_assert (insertable_key d.key_callbacks key)
  ok (set_data_for_key d value key)

-- The other dictionary is another object.
unfoldable pub mutable_add_entries_from_dictionary : Dictionary → Dictionary → Run Dictionary
mutable_add_entries_from_dictionary d other = do
  assert_mutable d
  ok (set_all d (entries other.buckets))

unfoldable pub mutable_set_dictionary : Dictionary → Dictionary → Run Dictionary
unfolding mutable_add_entries_from_dictionary
mutable_set_dictionary d other = do
  assert_mutable d
  mutable_add_entries_from_dictionary (remove_all_data d) other

unfoldable pub mutable_remove_data_for_key : Dictionary → ℕ → Run Dictionary
mutable_remove_data_for_key d key = do
  assert_mutable d
  wi_assert (removable d.key_callbacks key)
  ok (remove_data_for_key d key)

unfoldable pub mutable_remove_all_data : Dictionary → Run Dictionary
mutable_remove_all_data d = do assert_mutable d; ok (remove_all_data d)
