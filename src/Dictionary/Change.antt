-- ===== src/Dictionary/Change.antt =====
-- One change of a valid dictionary's buckets: an assignment, a new bucket, a removal.
use libwired.Base.{
  ℕ, ◌+◌, ◌≡◌, ◌∷◌, map, some, none, Option, to_nat, arith, ◌==◌, if◌then◌else◌, set,
}
use native.Mathlib.Nat.{mod-lt}
use libwired.Cells.{create, create-IsTidy, put_back-IsTidy}
use libwired.Callbacks.{retained, retain-IsBalanced, release-IsBalanced, perm-IsBalanced}
use libwired.Chains.{Entry, entries, chain_at, assign_entry, unlink_entry}
use libwired.Chains.Totals.{total, count-total, total-set, total-assign, total-unlink}
use libwired.Chains.Update.{assign-Put, front-Put, unlink-Put}
use libwired.Dictionary.State.{
  Dictionary, key_equal, key_code, bucket_index, assign_bucket, add_bucket, bucket_remove,
  unlink_bucket,
}
use libwired.Dictionary.Read.{bucket_for_key}
use libwired.Dictionary.Valid.{IsValid}

-- A valid dictionary in which the keys equal to `key` find `found`, and all others what they found
-- in `d`
abbrev pub Changed : Dictionary → ℕ → Option Entry → Dictionary → Type 0
Changed d key found new =
    IsValid new
    × ((q : ℕ) → bucket_for_key new q ≡ (if key_equal d key q then found else bucket_for_key d q))

module _ (d : Dictionary) (v : IsValid d) (value key : ℕ) where
  pub assign_bucket-Changed :
      {old : Entry}
      → bucket_for_key d key ≡ some old
      → Changed d key
          (some (record old {
            key = retained d.key_callbacks key;
            value = retained d.value_callbacks value;
          }))
          (assign_bucket d value key old)
  unfolding assign_bucket bucket_for_key
  assign_bucket-Changed {old} h =
      let i = bucket_index d key in
      let key' = retained d.key_callbacks key in
      let value' = retained d.value_callbacks value in
      let c = chain_at d.buckets i in
      let new = set d.buckets i (assign_entry (key_equal d) key key' value' c) in
      let put =
        assign-Put v.laws key d.buckets v.some_chain v.placed v.once key' value' (v.stored key) h in
      let sums : (w : Entry → ℕ)
          → total w (entries new) + w old
            ≡ total w (entries d.buckets) + w (record old { key = key'; value = value' }) =
        λ w. omega (
          arith,
          total-set w d.buckets i (assign_entry (key_equal d) key key' value' c)
              (mod-lt (key_code d key) v.some_chain),
          total-assign (key_equal d) w key key' value' c h,
        ) in
      (
        record {
          laws = v.laws;
          stored = v.stored;
          some_min = v.some_min;
          some_chain = omega (arith, put.size, v.some_chain);
          placed = put.placed;
          once = put.once;
          owns = record {
            tidy = record {
              page = v.owns.tidy.page;
              within = v.owns.tidy.within;
              started = v.owns.tidy.started;
              split = λ a. omega (arith, v.owns.tidy.split a, sums (λ e. to_nat (a == e.cell)));
            };
            keys =
                release-IsBalanced (retain-IsBalanced v.owns.keys key) old.key
                  (map (λ e. e.key) (entries new))
                  λ q. omega (
                    arith,
                    sums (λ e. to_nat (q == e.key)),
                    count-total (λ e. e.key) q (entries new),
                    count-total (λ e. e.key) q (entries d.buckets),
                  );
            values =
                release-IsBalanced (retain-IsBalanced v.owns.values value) old.value
                  (map (λ e. e.value) (entries new))
                  λ q. omega (
                    arith,
                    sums (λ e. to_nat (q == e.value)),
                    count-total (λ e. e.value) q (entries new),
                    count-total (λ e. e.value) q (entries d.buckets),
                  );
            counted = omega (arith, sums (λ e. 1), v.owns.counted);
          };
        },
        put.lookups,
      )

  pub add_bucket-Changed :
      bucket_for_key d key ≡ none
      → Changed d key
          (some (record {
            cell = (create d.cells).0;
            key = retained d.key_callbacks key;
            value = retained d.value_callbacks value;
          }))
          (add_bucket d value key)
  unfolding add_bucket bucket_for_key
  add_bucket-Changed h =
      let i = bucket_index d key in
      let e : Entry = record {
        cell = (create d.cells).0;
        key = retained d.key_callbacks key;
        value = retained d.value_callbacks value;
      } in
      let new = set d.buckets i (e ∷ chain_at d.buckets i) in
      let put = front-Put v.laws key d.buckets v.some_chain v.placed v.once e (v.stored key) h in
      let sums : (w : Entry → ℕ) → total w (entries new) ≡ w e + total w (entries d.buckets) = λ w.
        omega (
          arith,
          total-set w d.buckets i (e ∷ chain_at d.buckets i) (mod-lt (key_code d key) v.some_chain),
        ) in
      let made = create-IsTidy d.cells _ v.owns.tidy in
      (
        record {
          laws = v.laws;
          stored = v.stored;
          some_min = v.some_min;
          some_chain = omega (arith, put.size, v.some_chain);
          placed = put.placed;
          once = put.once;
          owns = record {
            tidy = record {
              page = made.page;
              within = made.within;
              started = made.started;
              split = λ a. omega (arith, made.split a, sums (λ e. to_nat (a == e.cell)));
            };
            keys =
                perm-IsBalanced (retain-IsBalanced v.owns.keys key) (map (λ e. e.key) (entries new))
                  λ q. omega (
                    arith,
                    sums (λ e. to_nat (q == e.key)),
                    count-total (λ e. e.key) q (entries new),
                    count-total (λ e. e.key) q (entries d.buckets),
                  );
            values =
                perm-IsBalanced (retain-IsBalanced v.owns.values value)
                  (map (λ e. e.value) (entries new))
                  λ q. omega (
                    arith,
                    sums (λ e. to_nat (q == e.value)),
                    count-total (λ e. e.value) q (entries new),
                    count-total (λ e. e.value) q (entries d.buckets),
                  );
            counted = omega (arith, sums (λ e. 1), v.owns.counted);
          };
        },
        put.lookups,
      )

pub remove_bucket-Changed :
    (d : Dictionary) (key : ℕ) {old : Entry}
    → IsValid d
    → bucket_for_key d key ≡ some old
    → Changed d key none (bucket_remove (unlink_bucket d key) old)
unfolding unlink_bucket bucket_remove bucket_for_key
remove_bucket-Changed d key {old} v h =
    let i = bucket_index d key in
    let c = chain_at d.buckets i in
    let new = set d.buckets i (unlink_entry (key_equal d) key c) in
    let put = unlink-Put v.laws key d.buckets v.some_chain v.placed v.once h in
    let sums : (w : Entry → ℕ) → total w (entries new) + w old ≡ total w (entries d.buckets) = λ w.
      omega (
        arith,
        total-set w d.buckets i (unlink_entry (key_equal d) key c)
            (mod-lt (key_code d key) v.some_chain),
        total-unlink (key_equal d) w key c h,
      ) in
    (
      record {
        laws = v.laws;
        stored = v.stored;
        some_min = v.some_min;
        some_chain = omega (arith, put.size, v.some_chain);
        placed = put.placed;
        once = put.once;
        owns = record {
          tidy =
              put_back-IsTidy d.cells _ _ old.cell
                (λ a. omega (arith, sums (λ e. to_nat (a == e.cell)))) v.owns.tidy;
          keys = release-IsBalanced v.owns.keys old.key (map (λ e. e.key) (entries new)) λ q.
              omega (
                arith,
                sums (λ e. to_nat (q == e.key)),
                count-total (λ e. e.key) q (entries new),
                count-total (λ e. e.key) q (entries d.buckets),
              );
          values =
              release-IsBalanced v.owns.values old.value (map (λ e. e.value) (entries new)) λ q.
                omega (
                  arith,
                  sums (λ e. to_nat (q == e.value)),
                  count-total (λ e. e.value) q (entries new),
                  count-total (λ e. e.value) q (entries d.buckets),
                );
          counted = omega (arith, sums (λ e. 1), v.owns.counted);
        };
      },
      put.lookups,
    )
