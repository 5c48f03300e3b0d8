-- ===== src/HashSet/Valid.antt =====
-- The invariant of a set, and that its optimisation keeps it and every lookup.
use libwired.Base.{
  ℕ, ◌*◌, [], ◌+◌, ◌≡◌, ◌≤◌, ◌<◌, refl, ◌∙◌, ◌&&◌, ◌||◌, List, map, to_nat, arith, ltb, leb, ◌==◌,
  length, Bool-cases, inl, inr, replicate, true,
}
use libwired.Numbers.{clamp, exp2m1, log2}
use libwired.Cells.{IsTidy}
use libwired.Callbacks.{IsBalanced, retained, perm-IsBalanced}
use libwired.Chains.{Entry, entries, rehash_all}
use libwired.Chains.Totals.{total, count-total}
use libwired.Chains.Lookup.{IsKeyed}
use libwired.Chains.Rehash.{Placed}
use libwired.Chains.Fresh.{rehash_all-Rehashed}
use libwired.HashSet.State.{HashSet, set_max_count, data_equal, data_code, optimize, check_optimize}
use libwired.HashSet.Read.{bucket_for_data}

-- The cells in use, the data whose references are held, and the number of data are those of the
-- entries `held`; each of them is counted at least once.
pub record Owns (s : HashSet) (held : List Entry) : Type 0 where
  pub tidy : IsTidy s.cells (λ a. total (λ e. to_nat (a == e.cell)) held)
  pub references : IsBalanced s.callbacks s.calls (map (λ e. e.key) held)
  pub counted : total (λ e. 1) held ≡ s.data_count
  pub positive : total (λ e. to_nat (e.value == 0)) held ≡ 0

-- The callbacks fit together, every entry stands in the chain of its hash, no datum is there twice,
-- and cells, references and counts are in order.
pub record IsValid (s : HashSet) : Type 0 where
  pub laws : IsKeyed (data_equal s) (data_code s)
  pub stored : (d : ℕ) → data_equal s (retained s.callbacks d) d ≡ true
  pub some_min : 0 < s.min_count
  pub some_chain : 0 < length s.buckets
  pub placed : Placed (data_code s) s.buckets
  pub once : (q : ℕ) → total (λ e. to_nat (data_equal s e.key q)) (entries s.buckets) ≤ 1
  pub owns : Owns s (entries s.buckets)

-- `new` is valid, finds what `s` finds, and has its option and its kind.
pub record Kept (s new : HashSet) : Type 0 where
  pub valid : IsValid new
  pub lookups : (q : ℕ) → bucket_for_data new q ≡ bucket_for_data s q
  pub same_mutable : new.mutable ≡ s.mutable
  pub same_counted : new.counted ≡ s.counted

-- `_wi_set_optimize` keeps a valid set valid and every lookup as it is.
pub optimize-Kept : (s : HashSet) → IsValid s → Kept s (optimize s)
unfolding optimize bucket_for_data
optimize-Kept s v =
    let n = clamp (exp2m1 (log2 s.data_count + 1)) s.min_count set_max_count in
    let pos : 0 < n = unfold clamp in ground (arith, v.some_min) in
    let r =
      rehash_all-Rehashed (data_equal s) (data_code s) n s.buckets v.laws pos v.placed v.once in
    let new = rehash_all (data_code s) s.buckets (replicate n []) in
    let o = v.owns in
    record {
      valid = record {
        laws = v.laws;
        stored = v.stored;
        some_min = v.some_min;
        some_chain = omega (arith, r.size);
        placed = r.placed;
        once = λ q. omega (arith, v.once q, r.totals (λ e. to_nat (data_equal s e.key q)));
        owns = record {
          tidy = record {
            page = o.tidy.page;
            within = o.tidy.within;
            started = o.tidy.started;
            split = λ a. rw (r.totals (λ e. to_nat (a == e.cell))) (o.tidy.split a);
          };
          references = perm-IsBalanced o.references (map (λ e. e.key) (entries new)) λ q. omega (
            arith,
            count-total (λ e. e.key) q (entries new),
            count-total (λ e. e.key) q (entries s.buckets),
            r.totals (λ e. to_nat (q == e.key)),
          );
          counted = r.totals (λ e. 1) ∙ o.counted;
          positive = r.totals (λ e. to_nat (e.value == 0)) ∙ o.positive;
        };
      };
      lookups = r.lookups;
      same_mutable = refl;
      same_counted = refl;
    }

pub check_optimize-Kept : (s : HashSet) → IsValid s → Kept s (check_optimize s)
unfolding check_optimize
check_optimize-Kept s v =
    elim (Bool-cases (
      leb (3 * s.data_count) (length s.buckets) && ltb s.min_count (length s.buckets)
      || leb (3 * length s.buckets) s.data_count && ltb (length s.buckets) set_max_count)) [
        | inl e ↦ rw e (optimize-Kept s v)
        | inr e ↦
            rw e
              (record { valid = v; lookups = λ q. refl; same_mutable = refl; same_counted = refl })
      ]
