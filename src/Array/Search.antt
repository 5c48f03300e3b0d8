-- ===== src/Array/Search.antt =====
-- `wi_array_index_of_data` against an independent description of the first equal datum.
use libwired.Base.{
  ℕ, suc, ◌+◌, ◌≤◌, ◌<◌, ◌≡◌, refl, ap, Bool, true, false, ◌||◌, not, List, [], ◌∷◌, length,
  remove_at, length-map, take_all, ◌==◌, if◌then◌else◌, ok, Returns, arith, Bool-cases, inl, inr,
}
use libwired.Callbacks.{Callbacks, is_equal_data}
use libwired.Array.State.{Item, Array, contents, slots}
use libwired.Array.Read.{not_found, index_from, index_of_data, contains_data}
use libwired.Array.Valid.{IsValid, item_data}

-- On a valid array a loop over all slots sees all items.
pub slots-ok : (a : Array) → IsValid a → slots a ≡ ok a.items
unfolding slots
slots-ok a v = rw (← v.filled, take_all _ a.items le_self) (ground arith)
  where
    le_self : length a.items ≤ length a.items
    le_self = omega arith

-- Some datum of the list equals `d`.
unfoldable pub any_equal : Callbacks → ℕ → List ℕ → Bool
any_equal cb d [] = false
any_equal cb d (x ∷ xs) = is_equal_data cb x d || any_equal cb d xs

-- The list without the first datum that equals `d`.
unfoldable pub remove_first : Callbacks → ℕ → List ℕ → List ℕ
remove_first cb d [] = []
remove_first cb d (x ∷ xs) = if is_equal_data cb x d then xs else x ∷ remove_first cb d xs

-- The search from `i` on stopped at the position `j` of the list, or found nothing.
pub data Found (cb : Callbacks) (d : ℕ) (xs : List ℕ) (i : ℕ) (r : ℕ) : Type 0 where
  found_at :
      (j : ℕ)
      → j < length xs
      → r ≡ i + j
      → any_equal cb d xs ≡ true
      → remove_first cb d xs ≡ remove_at xs j
      → Found cb d xs i r
  nowhere :
      r ≡ not_found → any_equal cb d xs ≡ false → remove_first cb d xs ≡ xs → Found cb d xs i r

pub index_from-Found :
    (cb : Callbacks) (d : ℕ) (xs : List Item) (i : ℕ)
    → Found cb d (item_data xs) i (index_from cb d xs i)
unfolding any_equal remove_first index_from
index_from-Found cb d [] i = nowhere refl refl refl
index_from-Found cb d (x ∷ xs) i = elim (Bool-cases (is_equal_data cb x.datum d)) [
  | inl e ↦ found_at 0 (omega arith) (rw e (omega arith)) (rw e) (rw e)
  | inr e ↦ elim (index_from-Found cb d xs (i + 1)) [
    | found_at j below r any first ↦
        found_at (suc j) (omega arith) (rw e (omega (arith, r))) (rw e any)
          (rw e (ap (λ l. x.datum ∷ l) first))
    | nowhere r any first ↦ nowhere (rw e r) (rw e any) (rw e (ap (λ l. x.datum ∷ l) first))
  ]
]

pub index_of_data_first :
    (a : Array) (d : ℕ)
    → IsValid a
    → Returns (index_of_data a d) (Found a.callbacks d (contents a) 0)
unfolding index_of_data
index_of_data_first a d v = (
  index_from a.callbacks d a.items 0,
  rw (slots-ok a v),
  index_from-Found a.callbacks d a.items 0,
)

-- On a valid array of fewer than `WI_NOT_FOUND` data `wi_array_contains_data` says whether some datum equals the argument.
pub contains_data_any :
    (a : Array) (d : ℕ)
    → IsValid a
    → a.data_count < not_found
    → contains_data a d ≡ ok (any_equal a.callbacks d (contents a))
unfolding contains_data
contains_data_any a d v small =
    let (i, run, found) = index_of_data_first a d v in
    elim found [
      | found_at j below r any first ↦
          let ne : (i == not_found) ≡ false =
            ground (arith, length-map (λ (x : Item). x.datum) a.items, v.filled) in
          rw (run, any) (ap (λ (b : Bool). ok (not b)) ne)
      | nowhere r any first ↦ rw (run, any, r)
    ]
