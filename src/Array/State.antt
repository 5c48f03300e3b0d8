-- ===== src/Array/State.antt =====
-- The state of an array and the functions of libwired/collections/wi-array.c that are private to
-- the file, `_wi_array_init...` to `_wi_array_remove_all_data`, with the initialiser.
use Prim.Native.Nat.{Ordering}
use libwired.Base.{
  ℕ, ◌+◌, ◌*◌, ◌/◌, Bool, ◌&&◌, ◌||◌, List, [], ◌∷◌, ◌++◌, Option, none, some, map, length, take,
  insert_at, ltb, leb, ◌==◌, if◌then◌else◌, max, Run, ok, bad_access, ◌>>=◌,
}
use libwired.Numbers.{log2, exp2m1, clamp}
use libwired.Cells.{Cells, no_cells, create, put_back}
use libwired.Callbacks.{Callbacks, Call, Compare, retained, retain_calls, release_calls}

-- `_wi_array_item_t`: the cell it stands in and its datum. The link is the list in `Cells`.
pub record Item : Type 0 where
  pub cell : ℕ
  pub datum : ℕ

-- `items` are the slots of the vector of `items_count` slots that have been written and lie below
-- `data_count`; the slots behind them are never read. `mutable` is the runtime's option, and
-- `calls` are the calls of the callbacks so far, the latest first.
pub record Array : Type 0 where
  pub mutable : Bool
  pub callbacks : Callbacks
  pub items : List Item
  pub items_count : ℕ
  pub min_count : ℕ
  pub data_count : ℕ
  pub cells : Cells
  pub calls : List Call

-- What the array holds, in order.
abbrev pub contents : Array → List ℕ
contents a = map (λ i. i.datum) a.items

abbrev pub array_min_count : ℕ
array_min_count = 10

abbrev pub array_max_count : ℕ
array_max_count = 16777213

-- `wi_array_init_with_capacity_and_callbacks`, on a new instance.
unfoldable pub init_with_capacity_and_callbacks : Bool → ℕ → ℕ → Callbacks → Array
init_with_capacity_and_callbacks mutable per_page capacity cb =
    let n = max (exp2m1 (log2 capacity + 1)) array_min_count in
    record {
      mutable = mutable;
      callbacks = cb;
      items = [];
      items_count = n;
      min_count = n;
      data_count = 0;
      cells = no_cells per_page;
      calls = [];
    }

-- `wi_realloc` of the vector: slots past its new end are lost.
abbrev pub realloc_items : Array → ℕ → Array
realloc_items a n = record a { items = take n a.items; items_count = n }

-- The double `((index + 1) * 3) / 2.0` is exact below 2 ^ 53, and the cast rounds down.
unfoldable pub grow : Array → ℕ → Array
grow a index = realloc_items a ((index + 1) * 3 / 2)

unfoldable pub optimize : Array → Array
optimize a = realloc_items a (clamp a.data_count a.min_count array_max_count)

-- `_WI_ARRAY_CHECK_OPTIMIZE`
unfoldable pub check_optimize : Array → Array
check_optimize a =
    if (leb (3 * a.data_count) a.items_count && ltb a.min_count a.items_count)
      || (leb (3 * a.items_count) a.data_count && ltb a.items_count array_max_count)
    then optimize a
    else a

-- `item = _wi_array_create_item(array); item->data = _WI_ARRAY_RETAIN(array, data);`
unfoldable pub create_item : Array → ℕ → Item × Array
create_item a d =
    let (cell, cells) = create a.cells in
    (
      record { cell = cell; datum = retained a.callbacks d },
      record a { cells = cells; calls = retain_calls a.callbacks d a.calls },
    )

unfoldable pub remove_item : Array → Item → Array
remove_item a item = record a {
  cells = put_back item.cell a.cells;
  calls = release_calls a.callbacks item.datum a.calls;
}

-- `if(data_count >= items_count) _wi_array_grow(array, index);`
unfoldable pub make_room : Array → ℕ → Array
make_room a index = if leb a.items_count a.data_count then grow a index else a

-- `items[data_count] = item` wants a slot there.
unfoldable pub add_item : Array → Item → Run Array
add_item a item =
    let b = make_room a a.data_count in
    if ltb b.data_count b.items_count && b.data_count == length b.items
    then ok (record b { items = b.items ++ item ∷ []; data_count = b.data_count + 1 })
    else bad_access

-- The `memmove` reads the slots from `index` up to `data_count`, and writes one slot further.
unfoldable pub insert_item_at_index : Array → Item → ℕ → Run Array
insert_item_at_index a item index =
    let b = make_room a (a.data_count + 1) in
    if ltb b.data_count b.items_count && leb index b.data_count && b.data_count == length b.items
    then ok (record b { items = insert_at b.items index item; data_count = b.data_count + 1 })
    else bad_access

-- The index of the first item that is greater than `d`, in the slots from `i` on.
unfoldable pub first_greater : Compare → ℕ → List Item → ℕ → Option ℕ
first_greater compare d [] i = none
first_greater compare d (x ∷ xs) i =
    let rest = first_greater compare d xs (i + 1) in
    elim (compare d x.datum) [ Ordering.lt ↦ some i | _ ↦ rest ]

unfoldable pub add_item_sorted : Array → Item → Compare → Run Array
add_item_sorted a item compare =
    if a.data_count == 0
    then add_item a item
    else elim (first_greater compare item.datum (take a.data_count a.items) 0) [
      | some i ↦ insert_item_at_index a item i
      | none ↦ add_item a item
    ]

unfoldable pub add_data : Array → ℕ → Run Array
add_data a d = let (item, b) = create_item a d in add_item b item

-- The slots below `data_count`, as a loop over all of them reads them.
unfoldable pub slots : Array → Run (List Item)
slots a = if leb a.data_count (length a.items) then ok (take a.data_count a.items) else bad_access

unfoldable pub remove_items : Array → List Item → Array
remove_items a [] = a
remove_items a (item ∷ rest) = remove_items (remove_item a item) rest

unfoldable pub remove_all_data : Array → Run Array
remove_all_data a = do
  all ← slots a
  ok (check_optimize (record (remove_items a all) { items = []; data_count = 0 }))
