-- ===== src/Dictionary/Valid.antt =====
-- The invariant of a dictionary, and that its optimisation keeps it and every lookup.
use libwired.Base.{
  ℕ, ◌*◌, [], ◌+◌, ◌≡◌, ◌≤◌, ◌<◌, refl, ◌∙◌, true, ◌&&◌, ◌||◌, List, map, length, to_nat, arith,
  ltb, leb, ◌==◌, Bool-cases, inl, inr, replicate,
}
use libwired.Numbers.{clamp, exp2m1, log2}
use libwired.Cells.{IsTidy}
use libwired.Callbacks.{IsBalanced, retained, perm-IsBalanced}
use libwired.Chains.{Entry, entries, rehash_all}
use libwired.Chains.Totals.{total, count-total}
use libwired.Chains.Lookup.{IsKeyed}
use libwired.Chains.Rehash.{Placed}
use libwired.Chains.Fresh.{rehash_all-Rehashed}
use libwired.Dictionary.State.{
  Dictionary, dictionary_max_count, key_equal, key_code, optimize, check_optimize,
}
use libwired.Dictionary.Read.{bucket_for_key}

-- The cells in use, the keys and values whose references are held, and the count are those of the
-- entries `held`.
pub record Owns (d : Dictionary) (held : List Entry) : Type 0 where
  pub tidy : IsTidy d.cells (λ a. total (λ e. to_nat (a == e.cell)) held)
  pub keys : IsBalanced d.key_callbacks d.key_calls (map (λ e. e.key) held)
  pub values : IsBalanced d.value_callbacks d.value_calls (map (λ e. e.value) held)
  pub counted : total (λ e. 1) held ≡ d.key_count

-- The callbacks fit together, every entry stands in the chain of its hash, no key is there twice,
-- and cells, references and the count are in order.
pub record IsValid (d : Dictionary) : Type 0 where
  pub laws : IsKeyed (key_equal d) (key_code d)
  pub stored : (k : ℕ) → key_equal d (retained d.key_callbacks k) k ≡ true
  pub some_min : 0 < d.min_count
  pub some_chain : 0 < length d.buckets
  pub placed : Placed (key_code d) d.buckets
  pub once : (q : ℕ) → total (λ e. to_nat (key_equal d e.key q)) (entries d.buckets) ≤ 1
  pub owns : Owns d (entries d.buckets)

-- `new` is valid, finds what `d` finds, and has its callbacks and its option.
pub record Kept (d new : Dictionary) : Type 0 where
  pub valid : IsValid new
  pub lookups : (q : ℕ) → bucket_for_key new q ≡ bucket_for_key d q
  pub same_count : new.key_count ≡ d.key_count
  pub same_mutable : new.mutable ≡ d.mutable
  pub same_keys : new.key_callbacks ≡ d.key_callbacks
  pub same_values : new.value_callbacks ≡ d.value_callbacks

-- Entries with the same totals are owned alike.
pub same-Owns :
    (d : Dictionary) (held held' : List Entry)
    → ((w : Entry → ℕ) → total w held' ≡ total w held)
    → Owns d held
    → Owns d held'
same-Owns d held held' same o = record {
  tidy = record {
    page = o.tidy.page;
    within = o.tidy.within;
    started = o.tidy.started;
    split = λ a. rw (same (λ e. to_nat (a == e.cell))) (o.tidy.split a);
  };
  keys = perm-IsBalanced o.keys (map (λ e. e.key) held') λ q. omega (
    arith,
    count-total (λ e. e.key) q held',
    count-total (λ e. e.key) q held,
    same (λ e. to_nat (q == e.key)),
  );
  values = perm-IsBalanced o.values (map (λ e. e.value) held') λ q. omega (
    arith,
    count-total (λ e. e.value) q held',
    count-total (λ e. e.value) q held,
    same (λ e. to_nat (q == e.value)),
  );
  counted = same (λ e. 1) ∙ o.counted;
}

-- `_wi_dictionary_optimize` keeps a valid dictionary valid and every lookup as it is.
pub optimize-Kept : (d : Dictionary) → IsValid d → Kept d (optimize d)
unfolding optimize bucket_for_key
optimize-Kept d v =
    let n = clamp (exp2m1 (log2 d.key_count + 1)) d.min_count dictionary_max_count in
    let pos : 0 < n = unfold clamp in ground (arith, v.some_min) in
    let r = rehash_all-Rehashed (key_equal d) (key_code d) n d.buckets v.laws pos v.placed v.once in
    let new = rehash_all (key_code d) d.buckets (replicate n []) in
    record {
      valid = record {
        laws = v.laws;
        stored = v.stored;
        some_min = v.some_min;
        some_chain = omega (arith, r.size);
        placed = r.placed;
        once = λ q. omega (arith, v.once q, r.totals (λ e. to_nat (key_equal d e.key q)));
        owns =
            let o = same-Owns d (entries d.buckets) (entries new) r.totals v.owns in
            record { tidy = o.tidy; keys = o.keys; values = o.values; counted = o.counted };
      };
      lookups = r.lookups;
      same_count = refl;
      same_mutable = refl;
      same_keys = refl;
      same_values = refl;
    }

pub check_optimize-Kept : (d : Dictionary) → IsValid d → Kept d (check_optimize d)
unfolding check_optimize
check_optimize-Kept d v =
    elim (Bool-cases (
      leb (3 * d.key_count) (length d.buckets) && ltb d.min_count (length d.buckets)
      || leb (3 * length d.buckets) d.key_count && ltb (length d.buckets) dictionary_max_count)) [
        | inl e ↦ rw e (optimize-Kept d v)
        | inr e ↦ rw e (record {
          valid = v;
          lookups = λ q. refl;
          same_count = refl;
          same_mutable = refl;
          same_keys = refl;
          same_values = refl;
        })
      ]
