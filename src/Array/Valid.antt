-- ===== src/Array/Valid.antt =====
-- The invariant of an array, and how the private functions keep it.
use libwired.Base.{
  ℕ, ◌+◌, ◌*◌, ◌≤◌, ◌<◌, ◌≡◌, refl, List, [], ◌∷◌, ◌++◌, map, length, count, to_nat, ◌==◌, take_all,
  insert_at, length-append, length-insert_at, leb, Returns, arith, Bool-cases, inl, inr, ◌/◌,
}
use libwired.Cells.{Cells, IsTidy, create-IsTidy, put_back-IsTidy}
use libwired.Callbacks.{
  Callbacks, Call, IsBalanced, retain-IsBalanced, release-IsBalanced, perm-IsBalanced,
}
use libwired.Array.State.{
  Item, Array, grow, make_room, add_item, insert_item_at_index, create_item, remove_item,
}

abbrev pub item_cells : List Item → List ℕ
item_cells = map (λ i. i.cell)

abbrev pub item_data : List Item → List ℕ
item_data = map (λ i. i.datum)

-- The cells in use and the references held are those of the items `held`.
pub record Owns (cells : Cells) (cb : Callbacks) (calls : List Call) (held : List Item)
    : Type 0 where
  pub tidy : IsTidy cells (λ c. count c (item_cells held))
  pub balanced : IsBalanced cb calls (item_data held)

-- The slots below `data_count` are there and lie in the vector; every cell is used once or free
-- once; every reference that was acquired is held or was released.
pub record IsValid (a : Array) : Type 0 where
  pub filled : length a.items ≡ a.data_count
  pub room : a.data_count ≤ a.items_count
  pub owns : Owns a.cells a.callbacks a.calls a.items

-- `b` is `a` with the slots `items`, and with the same bookkeeping.
pub record Edited (a : Array) (items : List Item) (b : Array) : Type 0 where
  pub new_items : b.items ≡ items
  pub filled : length items ≡ b.data_count
  pub room : b.data_count ≤ b.items_count
  pub same_cells : b.cells ≡ a.cells
  pub same_calls : b.calls ≡ a.calls
  pub same_callbacks : b.callbacks ≡ a.callbacks
  pub same_mutable : b.mutable ≡ a.mutable
  pub same_min : b.min_count ≡ a.min_count

pub Edited-IsValid :
    {a b : Array} {items : List Item}
    → Edited a items b
    → Owns a.cells a.callbacks a.calls items
    → IsValid b
Edited-IsValid {a} {b} {items} e o = record {
  filled = rw e.new_items e.filled;
  room = e.room;
  owns = rw (e.new_items, e.same_cells, e.same_calls, e.same_callbacks) o;
}

module _ (a : Array) (d : ℕ) {held : List Item} where
  pub create_item-Owns :
      Owns a.cells a.callbacks a.calls held
      → let (item, b) = create_item a d in Owns b.cells b.callbacks b.calls (item ∷ held)
  unfolding create_item
  create_item-Owns o = record {
    tidy = create-IsTidy a.cells _ o.tidy;
    balanced = retain-IsBalanced o.balanced d;
  }

module _ (a : Array) (item : Item) {held : List Item} (rest : List Item) where
  pub remove_item-Owns :
      ((q : ℕ) → to_nat (q == item.cell) + count q (item_cells rest) ≡ count q (item_cells held))
      → ((q : ℕ) → to_nat (q == item.datum) + count q (item_data rest) ≡ count q (item_data held))
      → Owns a.cells a.callbacks a.calls held
      → let b = remove_item a item in Owns b.cells b.callbacks b.calls rest
  unfolding remove_item
  remove_item-Owns same_cells same_data o = record {
    tidy = put_back-IsTidy a.cells _ _ item.cell same_cells o.tidy;
    balanced = release-IsBalanced o.balanced item.datum (item_data rest) same_data;
  }

pub perm-Owns :
    {cells : Cells} {cb : Callbacks} {calls : List Call} (held held' : List Item)
    → ((q : ℕ) → count q (item_cells held') ≡ count q (item_cells held))
    → ((q : ℕ) → count q (item_data held') ≡ count q (item_data held))
    → Owns cells cb calls held
    → Owns cells cb calls held'
perm-Owns held held' same_cells same_data o = record {
  tidy = record {
    page = o.tidy.page;
    within = o.tidy.within;
    started = o.tidy.started;
    split = λ q. rw same_cells (o.tidy.split q);
  };
  balanced = perm-IsBalanced o.balanced (item_data held') same_data;
}

record HasSlot (a b : Array) : Type 0 where
  edited : Edited a a.items b
  count : b.data_count ≡ a.data_count
  slot : b.data_count < b.items_count

module _ (a : Array) (filled : length a.items ≡ a.data_count)
    (room : a.data_count ≤ a.items_count) where
  make_room-HasSlot : (index : ℕ) → a.data_count ≤ index → HasSlot a (make_room a index)
  make_room-HasSlot index h = elim (Bool-cases (leb a.items_count a.data_count)) [
    | inl full ↦
        let grown : make_room a index ≡ record a { items_count = (index + 1) * 3 / 2 } =
          unfold make_room grow in
          rw (full, take_all ((index + 1) * 3 / 2) a.items (omega arith)) in
        rw grown (record {
          edited = record {
            new_items = refl;
            filled = filled;
            room = omega arith;
            same_cells = refl;
            same_calls = refl;
            same_callbacks = refl;
            same_mutable = refl;
            same_min = refl;
          };
          count = refl;
          slot = omega arith;
        })
    | inr free ↦
        let same : make_room a index ≡ a = unfold make_room in rw free in
        rw same (record {
          edited = record {
            new_items = refl;
            filled = filled;
            room = room;
            same_cells = refl;
            same_calls = refl;
            same_callbacks = refl;
            same_mutable = refl;
            same_min = refl;
          };
          count = refl;
          slot = ground arith;
        })
  ]

  pub add_item-Edited : (item : Item) → Returns (add_item a item) (Edited a (a.items ++ item ∷ []))
  unfolding add_item
  add_item-Edited item =
      let b = make_room a a.data_count in
      let s = make_room-HasSlot a.data_count (omega arith) in
      let e = s.edited in
      (
        record b { items = a.items ++ item ∷ []; data_count = b.data_count + 1 },
        ground (arith, s.slot, s.count, e.new_items, filled),
        record {
          new_items = refl;
          filled = omega (arith, length-append a.items (item ∷ []), s.count, filled);
          room = omega (arith, s.slot);
          same_cells = e.same_cells;
          same_calls = e.same_calls;
          same_callbacks = e.same_callbacks;
          same_mutable = e.same_mutable;
          same_min = e.same_min;
        },
      )

  pub insert_item-Edited :
      (item : Item) (index : ℕ)
      → index ≤ a.data_count
      → Returns (insert_item_at_index a item index) (Edited a (insert_at a.items index item))
  unfolding insert_item_at_index
  insert_item-Edited item index h =
      let b = make_room a (a.data_count + 1) in
      let s = make_room-HasSlot (a.data_count + 1) (omega arith) in
      let e = s.edited in
      (
        record b { items = insert_at a.items index item; data_count = b.data_count + 1 },
        ground (arith, s.slot, s.count, e.new_items, filled),
        record {
          new_items = refl;
          filled =
              omega (arith, length-insert_at a.items index item (omega arith), s.count, filled);
          room = omega (arith, s.slot);
          same_cells = e.same_cells;
          same_calls = e.same_calls;
          same_callbacks = e.same_callbacks;
          same_mutable = e.same_mutable;
          same_min = e.same_min;
        },
      )
