-- ===== src/Dictionary/Emptying.antt =====
-- What the removal of all data leaves of a dictionary.
use libwired.Base.{
  ℕ, ◌≡◌, refl, ap, ◌∙◌, false, List, [], ◌∷◌, map, none, length, to_nat, arith, replicate,
  length-replicate, Guarded, wi_assert-Returns,
}
use libwired.Cells.{Cells, put_back-IsTidy}
use libwired.Callbacks.{Call, release-IsBalanced}
use libwired.Chains.{Entry, entries}
use libwired.Chains.Totals.{total, total-replicate}
use libwired.Chains.Fresh.{replicate-Placed, lookup-fresh}
use libwired.Dictionary.State.{
  Dictionary, key_equal, key_code, bucket_remove, remove_buckets, remove_all_data, check_optimize,
}
use libwired.Dictionary.Read.{bucket_for_key, data_for_key, contains_key}
use libwired.Dictionary.Write.{mutable_remove_all_data}
use libwired.Dictionary.Valid.{IsValid, Owns, same-Owns, check_optimize-Kept}
use libwired.Dictionary.Lookups.{value_of, is_some, data_for_key-value_of, contains_key-is_some}

-- `new` is valid and empty.
pub record Emptied (d new : Dictionary) : Type 0 where
  pub valid : IsValid new
  pub finds : (q : ℕ) → data_for_key new q ≡ 0
  pub members : (q : ℕ) → contains_key new q ≡ false
  pub counts : new.key_count ≡ 0
  pub same_mutable : new.mutable ≡ d.mutable
  pub same_keys : new.key_callbacks ≡ d.key_callbacks
  pub same_values : new.value_callbacks ≡ d.value_callbacks

bucket_remove-Owns :
    (d : Dictionary) (e : Entry) (c : List Entry) → Owns d (e ∷ c) → Owns (bucket_remove d e) c
unfolding bucket_remove
bucket_remove-Owns d e c o = record {
  tidy = put_back-IsTidy d.cells _ _ e.cell (λ a. refl) o.tidy;
  keys = release-IsBalanced o.keys e.key (map (λ x. x.key) c) (λ q. refl);
  values = release-IsBalanced o.values e.value (map (λ x. x.value) c) (λ q. refl);
  counted = omega (arith, o.counted);
}

-- The loop changes the count, the cells and the logs, and at its end nothing is owned.
drained :
    (c : List Entry) (d : Dictionary)
    → Owns d c
    → (n : ℕ) × (cells : Cells) × (ks : List Call) × (vs : List Call) × (remove_buckets c d
        ≡ record d { key_count = n; cells = cells; key_calls = ks; value_calls = vs })
      × Owns (record d { key_count = n; cells = cells; key_calls = ks; value_calls = vs }) []
unfolding remove_buckets bucket_remove
drained [] d o = (d.key_count, d.cells, d.key_calls, d.value_calls, refl, o)
drained (e ∷ c) d o = drained c (bucket_remove d e) (bucket_remove-Owns d e c o)

-- `_wi_dictionary_remove_all_data` empties a valid dictionary, releases every key and value, frees
-- every bucket, and leaves it valid.
pub remove_all_data-Emptied : (d : Dictionary) → IsValid d → Emptied d (remove_all_data d)
unfolding remove_all_data bucket_for_key
remove_all_data-Emptied d v =
    let (n, cells, ks, vs, run, o) = drained (entries d.buckets) d v.owns in
    let fresh : List (List Entry) = replicate (length d.buckets) [] in
    let new : Dictionary = record d {
      key_count = n;
      cells = cells;
      key_calls = ks;
      value_calls = vs;
      buckets = fresh;
    } in
    let size : length fresh ≡ length d.buckets = length-replicate (length d.buckets) [] in
    let none_left : (w : Entry → ℕ) → total w (entries fresh) ≡ 0 =
      λ w. total-replicate w (length d.buckets) in
    let owned =
      same-Owns (record d { key_count = n; cells = cells; key_calls = ks; value_calls = vs }) []
        (entries fresh) none_left o in
    let valid : IsValid new = record {
      laws = v.laws;
      stored = v.stored;
      some_min = v.some_min;
      some_chain = omega (arith, size, v.some_chain);
      placed = replicate-Placed (key_code d) (length d.buckets);
      once = λ q. omega (arith, none_left (λ e. to_nat (key_equal d e.key q)));
      owns = record {
        tidy = owned.tidy;
        keys = owned.keys;
        values = owned.values;
        counted = owned.counted;
      };
    } in
    let k = check_optimize-Kept new valid in
    let empty : (q : ℕ) → bucket_for_key (check_optimize new) q ≡ none =
      λ q. k.lookups q ∙ lookup-fresh (key_equal d) (key_code d) (length d.buckets) q in
    rw run (record {
      valid = k.valid;
      finds = λ q. data_for_key-value_of (check_optimize new) q ∙ ap value_of (empty q);
      members = λ q. contains_key-is_some (check_optimize new) q ∙ ap is_some (empty q);
      counts = k.same_count ∙ omega (arith, o.counted);
      same_mutable = k.same_mutable;
      same_keys = k.same_keys;
      same_values = k.same_values;
    })

-- `wi_mutable_dictionary_remove_all_data` empties a valid mutable dictionary, releases every key
-- and value, frees every bucket, and leaves it valid; on one that is not mutable an assertion fails.
pub mutable_dictionary_remove_all_data_outcome :
    (d : Dictionary) → IsValid d → Guarded d.mutable (mutable_remove_all_data d) (Emptied d)
unfolding mutable_remove_all_data
mutable_dictionary_remove_all_data_outcome d v =
    wi_assert-Returns d.mutable λ _. (remove_all_data d, refl, remove_all_data-Emptied d v)
