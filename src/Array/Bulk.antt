-- ===== src/Array/Bulk.antt =====
-- What the functions that take out several data at once do, and `wi_mutable_array_set_array`.
use libwired.Base.{
  ℕ, zero, suc, ◌+◌, ◌≤◌, ◌<◌, ◌≡◌, refl, ap, ◌∙◌, true, ◌&&◌, ◌||◌, List, [], ◌∷◌, length, ◌==◌,
  remove_at, remove_range, remove_range-zero, remove_range-remove_at, length-remove_at, length-map,
  leb, ok, Returns, Guarded, Guarded-cast, returns, fails, wi_assert-Guarded, wi_assert-Returns,
  arith,
}
use libwired.Array.State.{
  Item, Array, contents, array_max_count, remove_item, check_optimize, remove_items,
  remove_all_data,
}
use libwired.Array.Read.{get_data}
use libwired.Array.Write.{
  mutable_remove_data_at_index, mutable_remove_all_data, remove_rounds,
  mutable_remove_data_in_range, mutable_set_array,
}
use libwired.Array.Valid.{item_data, Owns, IsValid, Edited-IsValid, remove_item-Owns}
use libwired.Array.Capacity.{check_optimize-Edited}
use libwired.Array.Add.{Updated, add_all-Updated, retained_all}
use libwired.Array.Search.{slots-ok}
use libwired.Array.Remove.{mutable_remove_data_at_index_outcome, Updated-refl}

-- Releasing items one by one leaves nothing in use, and touches only the cells and the calls.
record Emptied (a b : Array) : Type 0 where
  owns : Owns b.cells b.callbacks b.calls []
  same_callbacks : b.callbacks ≡ a.callbacks
  same_mutable : b.mutable ≡ a.mutable
  same_min : b.min_count ≡ a.min_count
  same_size : b.items_count ≡ a.items_count

remove_items-Emptied :
    (a : Array) (held : List Item)
    → Owns a.cells a.callbacks a.calls held
    → Emptied a (remove_items a held)
unfolding remove_items remove_item
remove_items-Emptied a [] o = record {
  owns = o;
  same_callbacks = refl;
  same_mutable = refl;
  same_min = refl;
  same_size = refl;
}
remove_items-Emptied a (item ∷ rest) o =
    let e =
      remove_items-Emptied (remove_item a item) rest
        (remove_item-Owns a item rest (λ q. refl) (λ q. refl) o) in
    record {
      owns = e.owns;
      same_callbacks = e.same_callbacks;
      same_mutable = e.same_mutable;
      same_min = e.same_min;
      same_size = e.same_size;
    }

pub remove_all_data-Updated : (a : Array) → IsValid a → Returns (remove_all_data a) (Updated a [])
unfolding remove_all_data
remove_all_data-Updated a v =
    let b = remove_items a a.items in
    let e = remove_items-Emptied a a.items v.owns in
    let c = record b { items = []; data_count = 0 } in
    let f = check_optimize-Edited c refl (omega arith) (omega arith) in
    (
      check_optimize c,
      rw (slots-ok a v) refl,
      record {
        valid = Edited-IsValid f e.owns;
        holds = ap item_data f.new_items;
        same_callbacks = f.same_callbacks ∙ e.same_callbacks;
        same_mutable = f.same_mutable ∙ e.same_mutable;
        same_min = f.same_min ∙ e.same_min;
      },
    )

-- `wi_mutable_array_remove_all_data` empties a valid mutable array of any size, releases every
-- datum and frees every item; on one that is not mutable an assertion fails.
pub mutable_remove_all_data_outcome :
    (a : Array) → IsValid a → Guarded a.mutable (mutable_remove_all_data a) (Updated a [])
unfolding mutable_remove_all_data
mutable_remove_all_data_outcome a v = wi_assert-Returns a.mutable λ _. remove_all_data-Updated a v

pub get_data-ok : (a : Array) → IsValid a → get_data a ≡ ok (contents a)
unfolding get_data
get_data-ok a v = rw (slots-ok a v)

-- `wi_mutable_array_set_array` of another valid array leaves its data, retained, in place of the
-- old ones, whatever the two sizes are; on an array that is not mutable an assertion fails.
pub mutable_set_array_outcome :
    (a other : Array)
    → IsValid a
    → IsValid other
    → Guarded a.mutable
        (mutable_set_array a other)
        (Updated a (retained_all a.callbacks (contents other)))
unfolding mutable_set_array
mutable_set_array_outcome a other v w = wi_assert-Returns a.mutable λ m.
    let (b, emptied, u) = remove_all_data-Updated a v in
    let (c, filled, t) = add_all-Updated b (contents other) u.valid in
    let m' : b.mutable ≡ true = u.same_mutable ∙ m in
    (
      c,
      rw (emptied, m', get_data-ok other w) filled,
      record {
        valid = t.valid;
        holds = t.holds ∙ rw (u.holds, u.same_callbacks);
        same_callbacks = t.same_callbacks ∙ u.same_callbacks;
        same_mutable = t.same_mutable ∙ u.same_mutable;
        same_min = t.same_min ∙ u.same_min;
      },
    )

count-Updated :
    (a : Array) (location : ℕ) (b : Array)
    → IsValid a
    → location < a.data_count
    → Updated a (remove_at (contents a) location) b
    → suc b.data_count ≡ a.data_count
count-Updated a location b v inside u = omega (
  arith,
  v.filled,
  u.valid.filled,
  length-map (λ (x : Item). x.datum) a.items,
  length-map (λ (x : Item). x.datum) b.items,
  ap length u.holds,
  length-remove_at (contents a) location (rw (length-map, v.filled) inside),
)

still_few :
    (a : Array) (location : ℕ) (b : Array)
    → IsValid a
    → a.data_count ≤ array_max_count
    → location < a.data_count
    → Updated a (remove_at (contents a) location) b
    → b.data_count ≤ array_max_count
still_few a location b v few inside u = omega (arith, count-Updated a location b v inside u)

remove_rounds_step :
    (n location : ℕ) (a : Array)
    → IsValid a
    → (b : Array) → mutable_remove_data_at_index a location ≡ ok b
    → Updated a (remove_at (contents a) location) b
    → location < a.data_count
    → Guarded
        (n == 0 || leb (location + n) b.data_count)
        (remove_rounds n location b)
        (Updated b (remove_range (contents b) location n))
    → Guarded
        (suc n == 0 || leb (location + suc n) a.data_count)
        (remove_rounds (suc n) location a)
        (Updated a (remove_range (contents a) location (suc n)))
remove_rounds_step n location a v b run u inside rest =
    let fewer = count-Updated a location b v inside u in
    let step : remove_rounds (suc n) location a ≡ remove_rounds n location b =
      unfold remove_rounds in rw run in
    let guard : (n == 0 || leb (location + n) b.data_count)
        ≡ (suc n == 0 || leb (location + suc n) a.data_count) =
      ground arith in
    Guarded-cast guard step
      (λ c w. record {
        valid = w.valid;
        holds =
            w.holds
            ∙ rw u.holds
                (remove_range-remove_at (contents a) location n (rw (length-map, v.filled) inside));
        same_callbacks = w.same_callbacks ∙ u.same_callbacks;
        same_mutable = w.same_mutable ∙ u.same_mutable;
        same_min = w.same_min ∙ u.same_min;
      })
      rest

-- The loop of `wi_mutable_array_remove_data_in_range`, which takes out the datum at the same index
-- again and again.
remove_rounds_outcome :
    (n location : ℕ) (a : Array)
    → IsValid a
    → a.data_count ≤ array_max_count
    → a.mutable ≡ true
    → Guarded
        (n == 0 || leb (location + n) a.data_count)
        (remove_rounds n location a)
        (Updated a (remove_range (contents a) location n))
remove_rounds_outcome zero location a v few m =
    returns refl a (unfold remove_rounds in refl)
      (rw (remove_range-zero (contents a) location) (Updated-refl a v))
remove_rounds_outcome (suc n) location a v few m =
    elim (mutable_remove_data_at_index_outcome a location v few) [
      | fails g run ↦ fails (ground arith) (unfold remove_rounds in rw run)
      | returns g b run u ↦ remove_rounds_step n location a v b run u (ground arith) (
          remove_rounds_outcome n location b u.valid (still_few a location b v few (ground arith) u)
            (u.same_mutable ∙ m))
    ]

-- On a valid array of at most `_WI_ARRAY_MAX_COUNT` data `wi_mutable_array_remove_data_in_range`
-- takes out the data of the range, if the array is mutable and the range is empty or ends within
-- the array; if not, an assertion fails.
pub mutable_remove_data_in_range_outcome :
    (a : Array) (location range_length : ℕ)
    → IsValid a
    → a.data_count ≤ array_max_count
    → Guarded
        (a.mutable && (range_length == 0 || leb (location + range_length) a.data_count))
        (mutable_remove_data_in_range a location range_length)
        (Updated a (remove_range (contents a) location range_length))
unfolding mutable_remove_data_in_range
mutable_remove_data_in_range_outcome a location range_length v few =
    wi_assert-Guarded a.mutable λ m. remove_rounds_outcome range_length location a v few m
