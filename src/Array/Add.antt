-- ===== src/Array/Add.antt =====
-- What `wi_mutable_array_add_data`, `..._insert_data_at_index` and the loops over them do.
use libwired.Base.{
  ℕ, ◌≤◌, ◌≡◌, refl, sym, ap, ◌∙◌, Bool, ◌&&◌, ◌||◌, List, [], ◌∷◌, ◌++◌, map, length, count, ◌==◌,
  insert_at, length-map, map-append, map-insert_at, count-append, count-insert_at, append_assoc,
  append-nil, wi_assert-Guarded, wi_assert-Returns, Guarded-cast, ltb, Returns, Guarded, arith,
  Bool-cases, inl, inr,
}
use libwired.Callbacks.{Callbacks, retained, insertable}
use libwired.Array.State.{Item, Array, contents, create_item, insert_item_at_index, add_data}
use libwired.Array.Read.{add_all}
use libwired.Array.Write.{mutable_add_data, mutable_insert_data_at_index}
use libwired.Array.Valid.{
  item_data, IsValid, Edited-IsValid, create_item-Owns, perm-Owns, add_item-Edited,
  insert_item-Edited,
}

-- `b` is a valid array with the data `ds` and the settings of `a`.
pub record Updated (a : Array) (ds : List ℕ) (b : Array) : Type 0 where
  pub valid : IsValid b
  pub holds : contents b ≡ ds
  pub same_callbacks : b.callbacks ≡ a.callbacks
  pub same_mutable : b.mutable ≡ a.mutable
  pub same_min : b.min_count ≡ a.min_count

pub add_data-Updated :
    (a : Array) (d : ℕ)
    → IsValid a
    → Returns (add_data a d) (Updated a (contents a ++ retained a.callbacks d ∷ []))
unfolding add_data create_item
add_data-Updated a d v =
    let (item, b) = create_item a d in
    let (c, run, e) = add_item-Edited b v.filled v.room item in
    let o = create_item-Owns a d v.owns in
    (
      c,
      run,
      record {
        valid = Edited-IsValid e (
            perm-Owns (item ∷ a.items) (a.items ++ item ∷ [])
              (λ q. rw (map-append, count-append) (omega arith))
              (λ q. rw (map-append, count-append) (omega arith)) o);
        holds = ap item_data e.new_items ∙ map-append _ a.items (item ∷ []);
        same_callbacks = e.same_callbacks;
        same_mutable = e.same_mutable;
        same_min = e.same_min;
      },
    )

count-map-insert_at :
    (f : Item → ℕ) (xs : List Item) (i : ℕ) (x : Item)
    → i ≤ length xs
    → (q : ℕ) → count q (map f (insert_at xs i x)) ≡ count q (f x ∷ map f xs)
count-map-insert_at f xs i x h q =
    rw (map-insert_at f xs i x) (count-insert_at q (map f xs) i (f x) (rw length-map h))

pub insert_data-Updated :
    (a : Array) (d index : ℕ)
    → IsValid a
    → index ≤ a.data_count
    → let (item, b) = create_item a d in
      Returns
        (insert_item_at_index b item index)
        (Updated a (insert_at (contents a) index (retained a.callbacks d)))
unfolding create_item
insert_data-Updated a d index v h =
    let (item, b) = create_item a d in
    let (c, run, e) = insert_item-Edited b v.filled v.room item index h in
    let o = create_item-Owns a d v.owns in
    let same =
      λ (f : Item → ℕ). count-map-insert_at f a.items index item (omega (arith, v.filled)) in
    (
      c,
      run,
      record {
        valid = Edited-IsValid e (
            perm-Owns (item ∷ a.items) (insert_at a.items index item) (same (λ i. i.cell))
              (same (λ i. i.datum)) o);
        holds = ap item_data e.new_items ∙ map-insert_at _ a.items index item;
        same_callbacks = e.same_callbacks;
        same_mutable = e.same_mutable;
        same_min = e.same_min;
      },
    )

-- The data that a loop of additions stores.
abbrev pub retained_all : Callbacks → List ℕ → List ℕ
retained_all cb = map (retained cb)

pub add_all-Updated :
    (a : Array) (ds : List ℕ)
    → IsValid a
    → Returns (add_all a ds) (Updated a (contents a ++ retained_all a.callbacks ds))
unfolding add_all
add_all-Updated a [] v = (
  a,
  refl,
  record {
    valid = v;
    holds = sym (append-nil (contents a));
    same_callbacks = refl;
    same_mutable = refl;
    same_min = refl;
  },
)
add_all-Updated a (d ∷ ds) v =
    let (b, first, u) = add_data-Updated a d v in
    let (c, rest, w) = add_all-Updated b ds u.valid in
    (
      c,
      rw first rest,
      record {
        valid = w.valid;
        holds = w.holds ∙ rw (u.holds, u.same_callbacks, append_assoc);
        same_callbacks = w.same_callbacks ∙ u.same_callbacks;
        same_mutable = w.same_mutable ∙ u.same_mutable;
        same_min = w.same_min ∙ u.same_min;
      },
    )

-- On a valid array `wi_mutable_array_add_data` stores the retained datum behind the others and
-- keeps the array valid, if the array is mutable and the datum may be inserted; if not, an
-- assertion fails.
pub mutable_add_data_outcome :
    (a : Array) (d : ℕ)
    → IsValid a
    → Guarded
        (a.mutable && insertable a.callbacks d)
        (mutable_add_data a d)
        (Updated a (contents a ++ retained a.callbacks d ∷ []))
unfolding mutable_add_data
mutable_add_data_outcome a d v =
    wi_assert-Guarded a.mutable
      λ _. wi_assert-Returns (insertable a.callbacks d) λ _. add_data-Updated a d v

-- The index can be inserted at: below the count, or 0 in an empty array.
abbrev pub insertable_at : Array → ℕ → Bool
insertable_at a index = ltb index a.data_count || (a.data_count == 0 && index == 0)

empty_contents :
    (a : Array) (d index : ℕ)
    → IsValid a
    → a.data_count ≡ 0
    → index ≡ 0
    → contents a ++ d ∷ [] ≡ insert_at (contents a) index d
empty_contents a d index v empty first = rw first (go a.items (v.filled ∙ empty))
  where
    go : (xs : List Item) → length xs ≡ 0 → item_data xs ++ d ∷ [] ≡ d ∷ item_data xs
    go [] h = refl
    go (x ∷ xs) h = absurd (omega arith)

-- `wi_mutable_array_insert_data_at_index` moves the data from the index on up by one: on a mutable
-- array, at an index below the count (or 0 in an empty array), for a datum that may be inserted.
-- Otherwise an assertion fails; so nothing can be inserted behind the last datum.
pub mutable_insert_data_at_index_outcome :
    (a : Array) (d index : ℕ)
    → IsValid a
    → Guarded
        (a.mutable && (insertable_at a index && insertable a.callbacks d))
        (mutable_insert_data_at_index a d index)
        (Updated a (insert_at (contents a) index (retained a.callbacks d)))
unfolding mutable_insert_data_at_index
mutable_insert_data_at_index_outcome a d index v =
    elim (Bool-cases (a.data_count == 0 && index == 0)) [
      | inl e ↦
          let same =
            empty_contents a (retained a.callbacks d) index v (ground arith) (ground arith) in
          Guarded-cast (rw e (ground arith)) (rw e) (λ b u. rw same at u)
            (mutable_add_data_outcome a d v)
      | inr e ↦
          Guarded-cast (rw e (ground arith)) (rw e) (λ b u. u)
            (wi_assert-Guarded a.mutable λ _. wi_assert-Guarded (ltb index a.data_count) λ below.
              wi_assert-Returns (insertable a.callbacks d)
                λ _. insert_data-Updated a d index v (ground arith))
    ]
