-- ===== src/Dictionary/Transfer.antt =====
-- What the transfer of all entries of one dictionary to another does.
use libwired.Base.{
  ℕ, ◌≡◌, ◌≤◌, refl, sym, ap, ◌∙◌, true, List, [], ◌∷◌, none, some, Option, to_nat, arith,
  if◌then◌else◌, Bool-cases, inl, inr, Guarded, wi_assert-Returns,
}
use mathlib.Core.Path.{subst}
use libwired.Callbacks.{Callbacks, retained, is_equal_data}
use libwired.Chains.{Entry, entries, find_entry}
use libwired.Chains.Totals.{total}
use libwired.Chains.Lookup.{find-none}
use libwired.Chains.Rehash.{lookup-entries}
use libwired.Dictionary.State.{Dictionary, set_data_for_key, remove_all_data}
use libwired.Dictionary.Read.{bucket_for_key, data_for_key, contains_key, set_all}
use libwired.Dictionary.Write.{mutable_add_entries_from_dictionary, mutable_set_dictionary}
use libwired.Dictionary.Valid.{IsValid}
use libwired.Dictionary.Lookups.{
  set_data_for_key-Assigned, data_for_key-value_of, contains_key-is_some, is_some, value_of,
}
use libwired.Dictionary.Emptying.{remove_all_data-Emptied}

-- The reference to the found entry's value, or `other`
abbrev picked : Callbacks → ℕ → Option Entry → ℕ
picked cb other none = other
picked cb other (some e) = retained cb e.value

record Filled (d : Dictionary) (c : List Entry) (new : Dictionary) : Type 0 where
  valid : IsValid new
  finds :
      (q : ℕ)
      → data_for_key new q
        ≡ picked d.value_callbacks
            (data_for_key d q)
            (find_entry (is_equal_data d.key_callbacks) q c)
  same_mutable : new.mutable ≡ d.mutable
  same_keys : new.key_callbacks ≡ d.key_callbacks
  same_values : new.value_callbacks ≡ d.value_callbacks

set_all-Filled :
    (c : List Entry) (d : Dictionary)
    → IsValid d
    → ((q : ℕ) → total (λ e. to_nat (is_equal_data d.key_callbacks e.key q)) c ≤ 1)
    → Filled d c (set_all d c)
unfolding set_all find_entry
set_all-Filled [] d v once = record {
  valid = v;
  finds = λ q. refl;
  same_mutable = refl;
  same_keys = refl;
  same_values = refl;
}
set_all-Filled (e ∷ c) d v once =
    let a = set_data_for_key-Assigned d e.value e.key v in
    let b = set_data_for_key d e.value e.key in
    let f = set_all-Filled c b a.valid (λ q. rw a.same_keys (ground (arith, once q))) in
    record {
      valid = f.valid;
      finds = λ q.
          let rest : data_for_key (set_all b c) q
              ≡ picked d.value_callbacks (data_for_key b q)
                  (find_entry (is_equal_data d.key_callbacks) q c) =
            f.finds q
            ∙ ap
                (λ (cb : Callbacks).
                  picked cb (data_for_key b q) (find_entry (is_equal_data b.key_callbacks) q c))
                a.same_values
            ∙ ap
                (λ (cb : Callbacks).
                  picked d.value_callbacks (data_for_key b q) (find_entry (is_equal_data cb) q c))
                a.same_keys in
          elim (Bool-cases (is_equal_data d.key_callbacks e.key q)) [
            | inl found ↦
                let gone =
                  find-none (is_equal_data d.key_callbacks) q c (ground (arith, found, once q)) in
                let first : data_for_key b q ≡ retained d.value_callbacks e.value =
                  a.finds q ∙ rw found refl in
                rest ∙ rw (gone, found, first) refl
            | inr differs ↦
                let first : data_for_key b q ≡ data_for_key d q = a.finds q ∙ rw differs refl in
                rest ∙ rw (differs, first) refl
          ];
      same_mutable = f.same_mutable ∙ a.same_mutable;
      same_keys = f.same_keys ∙ a.same_keys;
      same_values = f.same_values ∙ a.same_values;
    }

-- `new` is valid and holds what `other` holds, in references of its own.
pub record Replaced (d other new : Dictionary) : Type 0 where
  pub valid : IsValid new
  pub finds :
      (q : ℕ)
      → data_for_key new q
        ≡ (if contains_key other q then retained d.value_callbacks (data_for_key other q) else 0)
  pub same_mutable : new.mutable ≡ d.mutable

replaced :
    (d other : Dictionary)
    → IsValid d
    → IsValid other
    → other.key_callbacks ≡ d.key_callbacks
    → Replaced d other (set_all (remove_all_data d) (entries other.buckets))
unfolding bucket_for_key
replaced d other v w same =
    let b = remove_all_data d in
    let e = remove_all_data-Emptied d v in
    let keys : other.key_callbacks ≡ b.key_callbacks = same ∙ sym e.same_keys in
    let c = entries other.buckets in
    let once : (q : ℕ) → total (λ x. to_nat (is_equal_data b.key_callbacks x.key q)) c ≤ 1 = λ q.
      subst (λ (cb : Callbacks). total (λ x. to_nat (is_equal_data cb x.key q)) c ≤ 1) keys
        (w.once q) in
    let f = set_all-Filled c b e.valid once in
    record {
      valid = f.valid;
      finds = λ q.
          let walk : find_entry (is_equal_data b.key_callbacks) q c ≡ bucket_for_key other q =
            ap (λ (cb : Callbacks). find_entry (is_equal_data cb) q c) (sym keys)
            ∙ sym (lookup-entries w.laws q other.buckets w.placed) in
          f.finds q
          ∙ ap (picked b.value_callbacks (data_for_key b q)) walk
          ∙ ap (λ (n : ℕ). picked b.value_callbacks n (bucket_for_key other q)) (e.finds q)
          ∙ ap (λ (cb : Callbacks). picked cb 0 (bucket_for_key other q)) e.same_values
          ∙ as_lookup d.value_callbacks other q;
      same_mutable = f.same_mutable ∙ e.same_mutable;
    }
  where
    by_cases :
        (cb : Callbacks) (o : Option Entry)
        → picked cb 0 o ≡ (if is_some o then retained cb (value_of o) else 0)
    by_cases cb none = refl
    by_cases cb (some x) = refl

    as_lookup :
        (cb : Callbacks) (other : Dictionary) (q : ℕ)
        → picked cb 0 (bucket_for_key other q)
          ≡ (if contains_key other q then retained cb (data_for_key other q) else 0)
    as_lookup cb other q =
        by_cases cb (bucket_for_key other q) ∙ rw (data_for_key-value_of, contains_key-is_some) refl

-- `wi_mutable_dictionary_set_dictionary` of another valid dictionary with the same key callbacks:
-- a valid mutable dictionary then finds, under every key, a reference to what the other one finds,
-- and NULL where that has no such key; on a dictionary that is not mutable an assertion fails.
pub mutable_set_dictionary_outcome :
    (d other : Dictionary)
    → IsValid d
    → IsValid other
    → other.key_callbacks ≡ d.key_callbacks
    → Guarded d.mutable (mutable_set_dictionary d other) (Replaced d other)
unfolding mutable_set_dictionary mutable_add_entries_from_dictionary
mutable_set_dictionary_outcome d other v w same = wi_assert-Returns d.mutable λ m.
    let m' : (remove_all_data d).mutable ≡ true = (remove_all_data-Emptied d v).same_mutable ∙ m in
    (set_all (remove_all_data d) (entries other.buckets), rw m' refl, replaced d other v w same)
