-- ===== src/HashSet/Counts.antt =====
-- What adding and removing a datum do to the counts of a set.
use libwired.Base.{
  ℕ, ◌+◌, ◌-◌, ◌≡◌, refl, sym, ap, ◌∙◌, Bool, true, false, ◌&&◌, not, some, none, Option, arith,
  ◌==◌, if◌then◌else◌, Bool-cases, Option-cases, inl, inr, Guarded, wi_assert-Guarded,
  wi_assert-Returns,
}
use libwired.Callbacks.{insertable, removable}
use libwired.Chains.{Entry}
use libwired.Chains.Update.{lookup-congr}
use libwired.HashSet.State.{
  HashSet, data_equal, check_optimize, set_count, add_bucket, add_data, bucket_remove,
}
use libwired.HashSet.Read.{bucket_for_data, count_for_data}
use libwired.HashSet.Write.{
  unlink_bucket, remove_counted, remove_data, mutable_add_data, mutable_remove_data,
}
use libwired.HashSet.Valid.{IsValid, check_optimize-Kept}
use libwired.HashSet.Change.{Changed, set_count-Changed, add_bucket-Changed, remove_bucket-Changed}

-- In `new` the data equal to `d` are counted `n` times, all others as in `s`, and `new` is valid.
pub record Recounted (s : HashSet) (d n : ℕ) (new : HashSet) : Type 0 where
  pub valid : IsValid new
  pub counts : (q : ℕ) → count_for_data new q ≡ (if data_equal s d q then n else count_for_data s q)
  pub same_mutable : new.mutable ≡ s.mutable
  pub same_counted : new.counted ≡ s.counted

abbrev count_of : Option Entry → ℕ
count_of none = 0
count_of (some e) = e.value

count_for_data-count_of :
    (s : HashSet) (q : ℕ) → count_for_data s q ≡ count_of (bucket_for_data s q)
unfolding count_for_data
count_for_data-count_of s q = refl

choose :
    (b : Bool) (x y : Option Entry)
    → count_of (if b then x else y) ≡ (if b then count_of x else count_of y)
choose true x y = refl
choose false x y = refl

-- A change that the optimisation follows
recounted :
    (s new : HashSet) (d : ℕ) (found : Option Entry)
    → Changed s d found new
    → new.mutable ≡ s.mutable
    → new.counted ≡ s.counted
    → Recounted s d (count_of found) (check_optimize new)
recounted s new d found c mutable counted =
    let k = check_optimize-Kept new c.0 in
    record {
      valid = k.valid;
      counts = λ q.
          count_for_data-count_of (check_optimize new) q
          ∙ ap count_of (k.lookups q ∙ c.1 q)
          ∙ choose (data_equal s d q) found (bucket_for_data s q)
          ∙ rw count_for_data-count_of refl;
      same_mutable = k.same_mutable ∙ mutable;
      same_counted = k.same_counted ∙ counted;
    }

counted_as :
    (s : HashSet) (d : ℕ) (found : Option Entry)
    → bucket_for_data s d ≡ found
    → count_for_data s d ≡ count_of found
counted_as s d found h = count_for_data-count_of s d ∙ ap count_of h

add_found :
    (s : HashSet) (d : ℕ) {e : Entry}
    → bucket_for_data s d ≡ some e
    → add_data s d ≡ check_optimize (set_count s d e (e.value + 1))
unfolding bucket_for_data add_data check_optimize
add_found s d h = rw (h, add_data) refl

add_fresh :
    (s : HashSet) (d : ℕ)
    → bucket_for_data s d ≡ none
    → add_data s d ≡ check_optimize (add_bucket s d)
unfolding bucket_for_data add_data check_optimize
add_fresh s d h = rw (h, add_data) refl

-- `_wi_set_add_data` on a valid set counts the datum once more and no other, and keeps the set
-- valid.
pub add_data-Recounted :
    (s : HashSet) (d : ℕ) → IsValid s → Recounted s d (count_for_data s d + 1) (add_data s d)
unfolding set_count add_bucket
add_data-Recounted s d v = elim (Option-cases (bucket_for_data s d)) [
  | inl fresh ↦
      rw (add_fresh s d fresh, counted_as s d none fresh)
        (recounted s (add_bucket s d) d _ (add_bucket-Changed s v d fresh) refl refl)
  | inr (e, found) ↦
      rw (add_found s d found, counted_as s d (some e) found)
        (recounted s (set_count s d e (e.value + 1)) d _
          (set_count-Changed s v d (e.value + 1) (omega arith) found) refl refl)
]

-- `wi_mutable_set_add_data` counts the datum once more and no other, and keeps the set valid, on a
-- valid mutable set and for a datum that may be inserted; otherwise an assertion fails.
pub mutable_set_add_data_outcome :
    (s : HashSet) (d : ℕ)
    → IsValid s
    → Guarded
        (s.mutable && insertable s.callbacks d)
        (mutable_add_data s d)
        (Recounted s d (count_for_data s d + 1))
unfolding mutable_add_data
mutable_set_add_data_outcome s d v = wi_assert-Guarded s.mutable λ _.
    wi_assert-Returns (insertable s.callbacks d) λ _. (add_data s d, refl, add_data-Recounted s d v)

-- What is left of a count: one less in a counted set, nothing in another.
abbrev pub left_over : Bool → ℕ → ℕ
left_over counted n = if counted then n - 1 else 0

remove_found :
    (s : HashSet) (d : ℕ) {e : Entry}
    → bucket_for_data s d ≡ some e
    → remove_data s d ≡ check_optimize (remove_counted s d e)
unfolding bucket_for_data remove_data check_optimize remove_counted
remove_found s d h = rw (h, remove_data) refl

remove_absent :
    (s : HashSet) (d : ℕ) → bucket_for_data s d ≡ none → remove_data s d ≡ check_optimize s
unfolding bucket_for_data remove_data check_optimize
remove_absent s d h = rw (h, remove_data) refl

absent-Changed : (s : HashSet) (d : ℕ) → IsValid s → bucket_for_data s d ≡ none → Changed s d none s
unfolding bucket_for_data
absent-Changed s d v h = (
  v,
  λ q. elim (Bool-cases (data_equal s d q)) [
    | inl asked ↦ rw asked (sym (lookup-congr v.laws d s.buckets v.some_chain q asked) ∙ h)
    | inr other ↦ rw other refl
  ],
)

-- The two branches for a bucket that is there
remove_counted-Recounted :
    (s : HashSet) (d : ℕ) (e : Entry)
    → IsValid s
    → bucket_for_data s d ≡ some e
    → Recounted s d (left_over s.counted e.value) (check_optimize (remove_counted s d e))
unfolding remove_counted set_count unlink_bucket bucket_remove
remove_counted-Recounted s d e v found = elim (Bool-cases (s.counted && not (e.value - 1 == 0))) [
  | inl stays ↦
      let n : left_over s.counted e.value ≡ e.value - 1 = ground arith in
      rw (stays, n)
        (recounted s (set_count s d e (e.value - 1)) d _
          (set_count-Changed s v d (e.value - 1) (ground arith) found) refl refl)
  | inr goes ↦
      let n : left_over s.counted e.value ≡ 0 = ground arith in
      rw (goes, n)
        (recounted s (bucket_remove (unlink_bucket s d) e) d none
          (remove_bucket-Changed s v d found) refl refl)
]

-- `wi_mutable_set_remove_data` on a valid mutable set, for a datum that passes the check, takes one
-- off the datum's count if the set is counted, and removes it if not; it changes no other count and
-- keeps the set valid. Otherwise an assertion fails.
pub mutable_set_remove_data_outcome :
    (s : HashSet) (d : ℕ)
    → IsValid s
    → Guarded
        (s.mutable && removable s.callbacks d)
        (mutable_remove_data s d)
        (Recounted s d (left_over s.counted (count_for_data s d)))
unfolding mutable_remove_data
mutable_set_remove_data_outcome s d v =
    wi_assert-Guarded s.mutable
      λ _. wi_assert-Returns (removable s.callbacks d) λ _. (remove_data s d, refl, removed)
  where
    removed : Recounted s d (left_over s.counted (count_for_data s d)) (remove_data s d)
    removed = elim (Option-cases (bucket_for_data s d)) [
      | inl absent ↦
          let n : left_over s.counted 0 ≡ 0 = ground arith in
          rw (remove_absent s d absent, counted_as s d none absent, n)
            (recounted s s d none (absent-Changed s d v absent) refl refl)
      | inr (e, found) ↦
          rw (remove_found s d found, counted_as s d (some e) found)
            (remove_counted-Recounted s d e v found)
    ]
