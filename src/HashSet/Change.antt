-- ===== src/HashSet/Change.antt =====
-- One change of a valid set's buckets: another count, a new bucket, a removal.
use libwired.Base.{
  ℕ, ◌+◌, ◌≡◌, ◌<◌, ◌∷◌, map, some, none, Option, to_nat, arith, ◌==◌, if◌then◌else◌, set, count,
}
use native.Mathlib.Nat.{mod-lt}
use libwired.Cells.{create, create-IsTidy, put_back-IsTidy}
use libwired.Callbacks.{retained, retain-IsBalanced, release-IsBalanced, perm-IsBalanced}
use libwired.Chains.{Entry, entries, chain_at, assign_entry, unlink_entry}
use libwired.Chains.Totals.{total, count-total, total-set, total-assign, total-unlink}
use libwired.Chains.Update.{find-matches, assign-Put, front-Put, unlink-Put}
use libwired.HashSet.State.{
  HashSet, data_equal, data_code, bucket_index, set_count, add_bucket, bucket_remove,
}
use libwired.HashSet.Read.{bucket_for_data}
use libwired.HashSet.Write.{unlink_bucket}
use libwired.HashSet.Valid.{IsValid}

-- A valid set in which the data equal to `d` find `found`, and all others what they found in `s`
abbrev pub Changed : HashSet → ℕ → Option Entry → HashSet → Type 0
Changed s d found new =
    IsValid new
    × ((q : ℕ) → bucket_for_data new q ≡ (if data_equal s d q then found else bucket_for_data s q))

module _ (s : HashSet) (v : IsValid s) (d : ℕ) where
  pub set_count-Changed :
      (count : ℕ) {old : Entry}
      → 0 < count
      → bucket_for_data s d ≡ some old
      → Changed s d (some (record old { key = old.key; value = count })) (set_count s d old count)
  unfolding set_count bucket_for_data
  set_count-Changed count {old} pos h =
      let i = bucket_index s d in
      let c = chain_at s.buckets i in
      let assigned = assign_entry (data_equal s) d old.key count c in
      let new = set s.buckets i assigned in
      let put =
        assign-Put v.laws d s.buckets v.some_chain v.placed v.once old.key count
          (find-matches (data_equal s) d c h) h in
      let sums : (w : Entry → ℕ)
          → total w (entries new) + w old
            ≡ total w (entries s.buckets) + w (record old { key = old.key; value = count }) =
        λ w. omega (
          arith,
          total-set w s.buckets i assigned (mod-lt (data_code s d) v.some_chain),
          total-assign (data_equal s) w d old.key count c h,
        ) in
      let o = v.owns in
      (
        record {
          laws = v.laws;
          stored = v.stored;
          some_min = v.some_min;
          some_chain = omega (arith, put.size, v.some_chain);
          placed = put.placed;
          once = put.once;
          owns = record {
            tidy = record {
              page = o.tidy.page;
              within = o.tidy.within;
              started = o.tidy.started;
              split = λ a. omega (arith, o.tidy.split a, sums (λ e. to_nat (a == e.cell)));
            };
            references = perm-IsBalanced o.references (map (λ e. e.key) (entries new)) λ q. omega (
              arith,
              sums (λ e. to_nat (q == e.key)),
              count-total (λ e. e.key) q (entries new),
              count-total (λ e. e.key) q (entries s.buckets),
            );
            counted = omega (arith, sums (λ e. 1), o.counted);
            positive =
                let z : to_nat (count == 0) ≡ 0 = ground arith in
                omega (arith, sums (λ e. to_nat (e.value == 0)), o.positive, z);
          };
        },
        put.lookups,
      )

  pub add_bucket-Changed :
      bucket_for_data s d ≡ none
      → Changed s d
          (some (record { cell = (create s.cells).0; key = retained s.callbacks d; value = 1 }))
          (add_bucket s d)
  unfolding add_bucket bucket_for_data
  add_bucket-Changed h =
      let i = bucket_index s d in
      let e : Entry = record {
        cell = (create s.cells).0;
        key = retained s.callbacks d;
        value = 1;
      } in
      let new = set s.buckets i (e ∷ chain_at s.buckets i) in
      let put = front-Put v.laws d s.buckets v.some_chain v.placed v.once e (v.stored d) h in
      let sums : (w : Entry → ℕ) → total w (entries new) ≡ w e + total w (entries s.buckets) = λ w.
        omega (
          arith,
          total-set w s.buckets i (e ∷ chain_at s.buckets i) (mod-lt (data_code s d) v.some_chain),
        ) in
      let o = v.owns in
      let made = create-IsTidy s.cells _ o.tidy in
      (
        record {
          laws = v.laws;
          stored = v.stored;
          some_min = v.some_min;
          some_chain = omega (arith, put.size, v.some_chain);
          placed = put.placed;
          once = put.once;
          owns = record {
            tidy = record {
              page = made.page;
              within = made.within;
              started = made.started;
              split = λ a. omega (arith, made.split a, sums (λ e. to_nat (a == e.cell)));
            };
            references =
                perm-IsBalanced (retain-IsBalanced o.references d) (map (λ e. e.key) (entries new))
                  λ q. omega (
                    arith,
                    sums (λ e. to_nat (q == e.key)),
                    count-total (λ e. e.key) q (entries new),
                    count-total (λ e. e.key) q (entries s.buckets),
                  );
            counted = omega (arith, sums (λ e. 1), o.counted);
            positive = omega (arith, sums (λ e. to_nat (e.value == 0)), o.positive);
          };
        },
        put.lookups,
      )

  pub remove_bucket-Changed :
      {old : Entry}
      → bucket_for_data s d ≡ some old
      → Changed s d none (bucket_remove (unlink_bucket s d) old)
  unfolding unlink_bucket bucket_remove bucket_for_data
  remove_bucket-Changed {old} h =
      let i = bucket_index s d in
      let c = chain_at s.buckets i in
      let new = set s.buckets i (unlink_entry (data_equal s) d c) in
      let put = unlink-Put v.laws d s.buckets v.some_chain v.placed v.once h in
      let sums : (w : Entry → ℕ) → total w (entries new) + w old ≡ total w (entries s.buckets) =
        λ w. omega (
          arith,
          total-set w s.buckets i (unlink_entry (data_equal s) d c)
              (mod-lt (data_code s d) v.some_chain),
          total-unlink (data_equal s) w d c h,
        ) in
      let o = v.owns in
      (
        record {
          laws = v.laws;
          stored = v.stored;
          some_min = v.some_min;
          some_chain = omega (arith, put.size, v.some_chain);
          placed = put.placed;
          once = put.once;
          owns = record {
            tidy =
                put_back-IsTidy s.cells _ _ old.cell
                  (λ a. omega (arith, sums (λ e. to_nat (a == e.cell)))) o.tidy;
            references =
                release-IsBalanced o.references old.key (map (λ e. e.key) (entries new)) λ q.
                  omega (
                    arith,
                    sums (λ e. to_nat (q == e.key)),
                    count-total (λ e. e.key) q (entries new),
                    count-total (λ e. e.key) q (entries s.buckets),
                  );
            counted = omega (arith, sums (λ e. 1), o.counted);
            positive = omega (arith, sums (λ e. to_nat (e.value == 0)), o.positive);
          };
        },
        put.lookups,
      )
