-- ===== src/Dictionary/Lookups.antt =====
-- What setting and removing the data of a key do to the lookups of a dictionary.
use libwired.Base.{
  ℕ, ◌+◌, ◌≡◌, refl, ap, ◌∙◌, Bool, true, false, ◌&&◌, ◌||◌, some, none, Option, Bool-cases,
  Option-cases, inl, inr, if◌then◌else◌, Guarded, wi_assert-Guarded, wi_assert-Returns,
}
use libwired.Callbacks.{retained, insertable, insertable_key}
use libwired.Chains.{Entry}
use libwired.Dictionary.State.{
  Dictionary, key_equal, check_optimize, assign_bucket, add_bucket, set_data_for_key,
}
use libwired.Dictionary.Read.{bucket_for_key, data_for_key, contains_key}
use libwired.Dictionary.Write.{mutable_set_data_for_key}
use libwired.Dictionary.Valid.{IsValid, check_optimize-Kept}
use libwired.Dictionary.Change.{Changed, assign_bucket-Changed, add_bucket-Changed}

-- In `new` the keys equal to `key` find the reference to `value`, all others what they found in
-- `d`; the count is right, and `new` is valid.
pub record Assigned (d : Dictionary) (value key : ℕ) (new : Dictionary) : Type 0 where
  pub valid : IsValid new
  pub finds :
      (q : ℕ)
      → data_for_key new q
        ≡ (if key_equal d key q then retained d.value_callbacks value else data_for_key d q)
  pub members : (q : ℕ) → contains_key new q ≡ (key_equal d key q || contains_key d q)
  pub counts : new.key_count ≡ (if contains_key d key then d.key_count else d.key_count + 1)
  pub same_mutable : new.mutable ≡ d.mutable
  pub same_keys : new.key_callbacks ≡ d.key_callbacks
  pub same_values : new.value_callbacks ≡ d.value_callbacks

abbrev pub value_of : Option Entry → ℕ
value_of none = 0
value_of (some e) = e.value

abbrev pub is_some : Option Entry → Bool
is_some none = false
is_some (some e) = true

pub data_for_key-value_of :
    (d : Dictionary) (q : ℕ) → data_for_key d q ≡ value_of (bucket_for_key d q)
unfolding data_for_key
data_for_key-value_of d q = refl

pub contains_key-is_some :
    (d : Dictionary) (q : ℕ) → contains_key d q ≡ is_some (bucket_for_key d q)
unfolding contains_key
contains_key-is_some d q = refl

-- After a change that the optimisation follows
pub settled :
    (d new : Dictionary) (key : ℕ) (found : Option Entry)
    → Changed d key found new
    → (q : ℕ)
    → bucket_for_key (check_optimize new) q
      ≡ (if key_equal d key q then found else bucket_for_key d q)
settled d new key found c q = (check_optimize-Kept new c.0).lookups q ∙ c.1 q

pub choose :
    {A : Type 0} (f : Option Entry → A) (b : Bool) (x y : Option Entry)
    → f (if b then x else y) ≡ (if b then f x else f y)
choose f true x y = refl
choose f false x y = refl

assigned :
    (d new : Dictionary) (value key : ℕ) (e : Entry)
    → Changed d key (some e) new
    → e.value ≡ retained d.value_callbacks value
    → new.key_count ≡ (if contains_key d key then d.key_count else d.key_count + 1)
    → new.mutable ≡ d.mutable
    → new.key_callbacks ≡ d.key_callbacks
    → new.value_callbacks ≡ d.value_callbacks
    → Assigned d value key (check_optimize new)
assigned d new value key e c stored counted same keys values =
    let k = check_optimize-Kept new c.0 in
    record {
      valid = k.valid;
      finds = λ q.
          data_for_key-value_of (check_optimize new) q
          ∙ ap value_of (settled d new key (some e) c q)
          ∙ choose value_of (key_equal d key q) (some e) (bucket_for_key d q)
          ∙ rw (stored, data_for_key-value_of) refl;
      members = λ q.
          contains_key-is_some (check_optimize new) q
          ∙ ap is_some (settled d new key (some e) c q)
          ∙ choose is_some (key_equal d key q) (some e) (bucket_for_key d q)
          ∙ rw contains_key-is_some
              (elim (Bool-cases (key_equal d key q)) [ inl b ↦ rw b refl | inr b ↦ rw b refl ]);
      counts = k.same_count ∙ counted;
      same_mutable = k.same_mutable ∙ same;
      same_keys = k.same_keys ∙ keys;
      same_values = k.same_values ∙ values;
    }

set_found :
    (d : Dictionary) (value key : ℕ) {old : Entry}
    → bucket_for_key d key ≡ some old
    → set_data_for_key d value key ≡ check_optimize (assign_bucket d value key old)
unfolding bucket_for_key set_data_for_key check_optimize
set_found d value key h = rw (h, set_data_for_key) refl

set_fresh :
    (d : Dictionary) (value key : ℕ)
    → bucket_for_key d key ≡ none
    → set_data_for_key d value key ≡ check_optimize (add_bucket d value key)
unfolding bucket_for_key set_data_for_key check_optimize
set_fresh d value key h = rw (h, set_data_for_key) refl

pub member :
    (d : Dictionary) (key : ℕ) (found : Option Entry)
    → bucket_for_key d key ≡ found
    → contains_key d key ≡ is_some found
member d key found h = contains_key-is_some d key ∙ ap is_some h

-- `_wi_dictionary_set_data_for_key` on a valid dictionary: keys equal to the key find the new
-- reference from then on, all others what they found before, the count grows by one if the key was
-- not there, and the dictionary stays valid.
pub set_data_for_key-Assigned :
    (d : Dictionary) (value key : ℕ)
    → IsValid d
    → Assigned d value key (set_data_for_key d value key)
unfolding assign_bucket add_bucket
set_data_for_key-Assigned d value key v = elim (Option-cases (bucket_for_key d key)) [
  | inl fresh ↦ rw (set_fresh d value key fresh) (
      assigned d (add_bucket d value key) value key _ (add_bucket-Changed d v value key fresh) refl
        (rw (member d key none fresh) refl) refl refl refl)
  | inr (old, found) ↦ rw (set_found d value key found) (
      assigned d (assign_bucket d value key old) value key _
        (assign_bucket-Changed d v value key found) refl (rw (member d key (some old) found) refl)
        refl refl refl)
]

-- `wi_mutable_dictionary_set_data_for_key` on a valid mutable dictionary, for a value and a key that
-- may be inserted: keys equal to the key find the new reference from then on, all others what they
-- found before, the count grows by one if the key was not there, and the dictionary stays valid, so
-- its cells and references are in order. Otherwise an assertion fails.
pub mutable_set_data_for_key_outcome :
    (d : Dictionary) (value key : ℕ)
    → IsValid d
    → Guarded
        (d.mutable && (insertable d.value_callbacks value && insertable_key d.key_callbacks key))
        (mutable_set_data_for_key d value key)
        (Assigned d value key)
unfolding mutable_set_data_for_key
mutable_set_data_for_key_outcome d value key v = wi_assert-Guarded d.mutable λ _.
    wi_assert-Guarded (insertable d.value_callbacks value) λ _.
      wi_assert-Returns (insertable_key d.key_callbacks key)
        λ _. (set_data_for_key d value key, refl, set_data_for_key-Assigned d value key v)
