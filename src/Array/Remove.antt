-- ===== src/Array/Remove.antt =====
-- What the functions that take data out of an array do.
use libwired.Base.{
  ℕ, ◌+◌, ◌-◌, ◌≤◌, ◌<◌, ◌≡◌, refl, ap, ◌∙◌, true, false, ◌&&◌, List, map, some, count, to_nat,
  ◌==◌, get_elem?, remove_at, length-map, map-remove_at, get_elem?-get, get_elem?-map,
  length-remove_at, count-remove_at, ltb, if◌then◌else◌, Run, ok, ◌>>=◌, Returns, returns, fails,
  Guarded, wi_assert-Guarded, wi_assert-Returns, arith,
}
use libwired.Callbacks.{removable}
use libwired.Array.State.{Item, Array, contents, array_max_count, remove_item, check_optimize}
use libwired.Array.Read.{item_at, not_found, index_of_data}
use libwired.Array.Write.{mutable_remove_data_at_index, mutable_remove_data}
use libwired.Array.Valid.{item_data, IsValid, Edited-IsValid, remove_item-Owns}
use libwired.Array.Search.{remove_first, found_at, nowhere, index_of_data_first}
use libwired.Array.Capacity.{check_optimize-Edited}
use libwired.Array.Add.{Updated}

pub item_at-ok :
    (a : Array) (index : ℕ)
    → IsValid a
    → index < a.data_count
    → (item : Item) × (get_elem? a.items index ≡ some item) × (item_at a index ≡ ok item)
item_at-ok a index v below =
    let (item, at) = get_elem?-get a.items index (omega (arith, v.filled)) in
    (item, at, rw (at, item_at))

count-map-remove_at :
    (f : Item → ℕ) (xs : List Item) (i : ℕ) {x : Item}
    → get_elem? xs i ≡ some x
    → (q : ℕ) → to_nat (q == f x) + count q (map f (remove_at xs i)) ≡ count q (map f xs)
count-map-remove_at f xs i h q =
    rw (map-remove_at f xs i) (count-remove_at q (map f xs) i (get_elem?-map f xs i h))

-- The array once the item at the index is gone, before its vector is looked at.
abbrev without : Array → Item → ℕ → Array
without a item index =
    let b = remove_item a item in
    record b { items = remove_at b.items index; data_count = b.data_count - 1 }

without-Updated :
    (a : Array) (index : ℕ) {item : Item}
    → IsValid a
    → a.data_count ≤ array_max_count
    → index < a.data_count
    → get_elem? a.items index ≡ some item
    → Updated a (remove_at (contents a) index) (check_optimize (without a item index))
unfolding remove_item
without-Updated a index {item} v few below at =
    let rest = remove_at a.items index in
    let shorter = length-remove_at a.items index (omega (arith, v.filled)) in
    let e =
      check_optimize-Edited (without a item index) (omega (arith, v.filled)) (omega (arith, v.room))
        (omega arith) in
    let same = λ (f : Item → ℕ) (q : ℕ). count-map-remove_at f a.items index at q in
    let o = remove_item-Owns a item rest (same (λ i. i.cell)) (same (λ i. i.datum)) v.owns in
    record {
      valid = Edited-IsValid e o;
      holds = ap item_data e.new_items ∙ map-remove_at _ a.items index;
      same_callbacks = e.same_callbacks;
      same_mutable = e.same_mutable;
      same_min = e.same_min;
    }

-- On a valid array of at most `_WI_ARRAY_MAX_COUNT` data `wi_mutable_array_remove_data_at_index`
-- takes the datum at the index out, moves the later ones down and keeps the array valid, if the
-- array is mutable and the index is below the count; if not, an assertion fails.
pub mutable_remove_data_at_index_outcome :
    (a : Array) (index : ℕ)
    → IsValid a
    → a.data_count ≤ array_max_count
    → Guarded
        (a.mutable && ltb index a.data_count)
        (mutable_remove_data_at_index a index)
        (Updated a (remove_at (contents a) index))
unfolding mutable_remove_data_at_index
mutable_remove_data_at_index_outcome a index v few = wi_assert-Guarded a.mutable λ _.
    wi_assert-Returns (ltb index a.data_count) λ inside.
      let below : index < a.data_count = ground arith in
      let (item, at, run) = item_at-ok a index v below in
      (check_optimize (without a item index), rw run refl, without-Updated a index v few below at)

remove_at-Returns :
    (a : Array) (index : ℕ)
    → IsValid a
    → a.data_count ≤ array_max_count
    → a.mutable ≡ true
    → index < a.data_count
    → Returns (mutable_remove_data_at_index a index) (Updated a (remove_at (contents a) index))
remove_at-Returns a index v few m below =
    elim (mutable_remove_data_at_index_outcome a index v few) [
      | returns g b run u ↦ (b, run, u)
      | fails g run ↦ absurd (ground arith)
    ]

pub Updated-refl : (a : Array) → IsValid a → Updated a (contents a) a
Updated-refl a v = record {
  valid = v;
  holds = refl;
  same_callbacks = refl;
  same_mutable = refl;
  same_min = refl;
}

abbrev remove_if_found : Array → ℕ → Run Array
remove_if_found a index = if index == not_found then ok a else mutable_remove_data_at_index a index

pub remove_found :
    (a : Array) (d : ℕ)
    → IsValid a
    → a.data_count ≤ array_max_count
    → a.mutable ≡ true
    → Returns
        (index_of_data a d >>= λ index. remove_if_found a index)
        (Updated a (remove_first a.callbacks d (contents a)))
remove_found a d v few m =
    let (index, run, found) = index_of_data_first a d v in
    elim found [
      | found_at j below r any first ↦
          let size = length-map (λ (x : Item). x.datum) a.items in
          let here : index ≡ j = omega (arith, r) in
          let inside : index < a.data_count = omega (arith, size, v.filled) in
          let differs : (index == not_found) ≡ false = ground arith in
          let (b, gone, u) = remove_at-Returns a j v few m (omega arith) in
          (b, rw (run, differs, here) gone, rw first u)
      | nowhere r any first ↦ (a, rw (run, r), rw first (Updated-refl a v))
    ]

-- On a valid array of at most `_WI_ARRAY_MAX_COUNT` data `wi_mutable_array_remove_data` takes out
-- the first datum that equals the argument, and nothing if there is none, if the array is mutable
-- and the datum passes the check against NULL; if not, an assertion fails.
pub mutable_remove_data_outcome :
    (a : Array) (d : ℕ)
    → IsValid a
    → a.data_count ≤ array_max_count
    → Guarded
        (a.mutable && removable a.callbacks d)
        (mutable_remove_data a d)
        (Updated a (remove_first a.callbacks d (contents a)))
unfolding mutable_remove_data mutable_remove_data_at_index
mutable_remove_data_outcome a d v few =
    wi_assert-Guarded a.mutable
      λ m. wi_assert-Returns (removable a.callbacks d) λ _. remove_found a d v few m
