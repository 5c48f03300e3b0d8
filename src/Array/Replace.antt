-- ===== src/Array/Replace.antt =====
-- What `wi_mutable_array_replace_data_at_index` does.
use libwired.Base.{
  ℕ, ◌+◌, ◌≡◌, refl, ◌∙◌, ◌&&◌, List, ◌∷◌, map, some, count, to_nat, ◌==◌, get_elem?, set, map-set,
  length-set, count-set, get_elem?-map, ltb, ok, ◌>>=◌, Guarded, wi_assert-Guarded,
  wi_assert-Returns, arith,
}
use libwired.Callbacks.{retained, insertable}
use libwired.Array.State.{Item, Array, contents, create_item, remove_item}
use libwired.Array.Read.{item_at}
use libwired.Array.Write.{mutable_replace_data_at_index}
use libwired.Array.Valid.{IsValid, create_item-Owns, remove_item-Owns}
use libwired.Array.Add.{Updated}
use libwired.Array.Remove.{item_at-ok}

count-map-set :
    (f : Item → ℕ) (xs : List Item) (i : ℕ) (x : Item) {old : Item}
    → get_elem? xs i ≡ some old
    → (q : ℕ) → to_nat (q == f old) + count q (map f (set xs i x)) ≡ count q (f x ∷ map f xs)
count-map-set f xs i x e q =
    rw (map-set f xs i x) (count-set q (map f xs) i (f x) (get_elem?-map f xs i e))

-- The array with `item` in the place of `old`, which is released.
abbrev replaced : Array → ℕ → Item → Item → Array
replaced b index old item = let c = remove_item b old in record c { items = set c.items index item }

replaced-Updated :
    (a : Array) (d index : ℕ) {old : Item}
    → IsValid a
    → get_elem? a.items index ≡ some old
    → let (item, b) = create_item a d in
      Updated a (set (contents a) index (retained a.callbacks d)) (replaced b index old item)
unfolding create_item remove_item
replaced-Updated a d index {old} v e =
    let (item, b) = create_item a d in
    let same = λ (f : Item → ℕ) (q : ℕ). count-map-set f a.items index item e q in
    record {
      valid = record {
        filled = length-set a.items index item ∙ v.filled;
        room = v.room;
        owns =
            remove_item-Owns b old (set a.items index item) (same (λ i. i.cell))
              (same (λ i. i.datum)) (create_item-Owns a d v.owns);
      };
      holds = map-set _ a.items index item;
      same_callbacks = refl;
      same_mutable = refl;
      same_min = refl;
    }

-- On a valid array `wi_mutable_array_replace_data_at_index` puts the retained datum in the place of
-- the one at the index, releases that one and changes no other, if the array is mutable, the index
-- is below the count and the datum may be inserted; if not, an assertion fails.
pub mutable_replace_data_at_index_outcome :
    (a : Array) (d index : ℕ)
    → IsValid a
    → Guarded
        (a.mutable && (ltb index a.data_count && insertable a.callbacks d))
        (mutable_replace_data_at_index a d index)
        (Updated a (set (contents a) index (retained a.callbacks d)))
unfolding mutable_replace_data_at_index
mutable_replace_data_at_index_outcome a d index v = wi_assert-Guarded a.mutable λ _.
    wi_assert-Guarded (ltb index a.data_count) λ inside.
      wi_assert-Returns (insertable a.callbacks d) λ _.
        let (old, found, run) = item_at-ok a index v (ground arith) in
        let (item, b) = create_item a d in
        (replaced b index old item, same_item a d index run, replaced-Updated a d index v found)
  where
    same_item :
        (a : Array) (d index : ℕ) {old : Item}
        → item_at a index ≡ ok old
        → let (item, b) = create_item a d in
          (item_at b index >>= λ o. ok (replaced b index o item)) ≡ ok (replaced b index old item)
    same_item a d index run = unfold create_item in rw run
