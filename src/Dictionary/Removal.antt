-- ===== src/Dictionary/Removal.antt =====
-- What removing the data of a key does to the lookups of a dictionary.
use libwired.Base.{
  ℕ, ◌-◌, ◌≡◌, refl, sym, ap, ◌∙◌, ◌&&◌, not, some, none, Bool-cases, Option-cases, inl, inr,
  if◌then◌else◌, Guarded, wi_assert-Guarded, wi_assert-Returns,
}
use libwired.Callbacks.{removable}
use libwired.Chains.{Entry}
use libwired.Dictionary.State.{
  Dictionary, key_equal, check_optimize, bucket_remove, unlink_bucket, remove_data_for_key,
}
use libwired.Dictionary.Read.{bucket_for_key, data_for_key, contains_key}
use libwired.Dictionary.Write.{mutable_remove_data_for_key}
use libwired.Dictionary.Valid.{IsValid, check_optimize-Kept}
use libwired.Chains.Update.{lookup-congr}
use libwired.Dictionary.Change.{Changed, remove_bucket-Changed}
use libwired.Dictionary.Lookups.{
  value_of, is_some, data_for_key-value_of, contains_key-is_some, settled, choose, member,
}

-- In `new` the keys equal to `key` find nothing, all others what they found in `d`; the count is
-- right, and `new` is valid.
pub record Unassigned (d : Dictionary) (key : ℕ) (new : Dictionary) : Type 0 where
  pub valid : IsValid new
  pub finds : (q : ℕ) → data_for_key new q ≡ (if key_equal d key q then 0 else data_for_key d q)
  pub members : (q : ℕ) → contains_key new q ≡ (not (key_equal d key q) && contains_key d q)
  pub counts : new.key_count ≡ (if contains_key d key then d.key_count - 1 else d.key_count)
  pub same_mutable : new.mutable ≡ d.mutable

unassigned :
    (d new : Dictionary) (key : ℕ)
    → Changed d key none new
    → new.key_count ≡ (if contains_key d key then d.key_count - 1 else d.key_count)
    → new.mutable ≡ d.mutable
    → Unassigned d key (check_optimize new)
unassigned d new key c counted same =
    let k = check_optimize-Kept new c.0 in
    record {
      valid = k.valid;
      finds = λ q.
          data_for_key-value_of (check_optimize new) q
          ∙ ap value_of (settled d new key none c q)
          ∙ choose value_of (key_equal d key q) none (bucket_for_key d q)
          ∙ rw data_for_key-value_of refl;
      members = λ q.
          contains_key-is_some (check_optimize new) q
          ∙ ap is_some (settled d new key none c q)
          ∙ choose is_some (key_equal d key q) none (bucket_for_key d q)
          ∙ rw contains_key-is_some
              (elim (Bool-cases (key_equal d key q)) [ inl b ↦ rw b refl | inr b ↦ rw b refl ]);
      counts = k.same_count ∙ counted;
      same_mutable = k.same_mutable ∙ same;
    }

remove_found :
    (d : Dictionary) (key : ℕ) {old : Entry}
    → bucket_for_key d key ≡ some old
    → remove_data_for_key d key ≡ check_optimize (bucket_remove (unlink_bucket d key) old)
unfolding bucket_for_key remove_data_for_key check_optimize
remove_found d key h = rw (h, remove_data_for_key) refl

remove_absent :
    (d : Dictionary) (key : ℕ)
    → bucket_for_key d key ≡ none
    → remove_data_for_key d key ≡ check_optimize d
unfolding bucket_for_key remove_data_for_key check_optimize
remove_absent d key h = rw (h, remove_data_for_key) refl

-- Where no key is equal, removing it changes no lookup.
absent-Changed :
    (d : Dictionary) (key : ℕ) → IsValid d → bucket_for_key d key ≡ none → Changed d key none d
unfolding bucket_for_key
absent-Changed d key v h = (
  v,
  λ q. elim (Bool-cases (key_equal d key q)) [
    | inl asked ↦ rw asked (sym (lookup-congr v.laws key d.buckets v.some_chain q asked) ∙ h)
    | inr other ↦ rw other refl
  ],
)

-- `_wi_dictionary_remove_data_for_key` on a valid dictionary: keys equal to the key find nothing
-- from then on, all others what they found before, the count falls by one if the key was there,
-- and the dictionary stays valid.
pub remove_data_for_key-Unassigned :
    (d : Dictionary) (key : ℕ) → IsValid d → Unassigned d key (remove_data_for_key d key)
unfolding bucket_remove unlink_bucket
remove_data_for_key-Unassigned d key v = elim (Option-cases (bucket_for_key d key)) [
  | inl absent ↦
      rw (remove_absent d key absent) (
        unassigned d d key (absent-Changed d key v absent) (rw (member d key none absent) refl)
          refl)
  | inr (old, found) ↦ rw (remove_found d key found) (
      unassigned d (bucket_remove (unlink_bucket d key) old) key
        (remove_bucket-Changed d key v found) (rw (member d key (some old) found) refl) refl)
]

-- `wi_mutable_dictionary_remove_data_for_key` on a valid mutable dictionary, for a key that passes
-- the check: keys equal to the key find nothing from then on, all others what they found before,
-- the count falls by one if the key was there, and the dictionary stays valid, so its cells and
-- references are in order. Otherwise an assertion fails.
pub mutable_remove_data_for_key_outcome :
    (d : Dictionary) (key : ℕ)
    → IsValid d
    → Guarded
        (d.mutable && removable d.key_callbacks key)
        (mutable_remove_data_for_key d key)
        (Unassigned d key)
unfolding mutable_remove_data_for_key
mutable_remove_data_for_key_outcome d key v = wi_assert-Guarded d.mutable λ _.
    wi_assert-Returns (removable d.key_callbacks key)
      λ _. (remove_data_for_key d key, refl, remove_data_for_key-Unassigned d key v)
