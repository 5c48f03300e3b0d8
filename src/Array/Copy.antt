-- ===== src/Array/Copy.antt =====
-- New arrays: the initialiser, copies and subarrays, and `_wi_array_is_equal` on a copy.
use libwired.Base.{
  ℕ, ◌<◌, ◌≡◌, refl, ap, ◌∙◌, Bool, true, false, ◌&&◌, List, [], ◌∷◌, map, length, length-map, ◌==◌,
  ok, ◌>>=◌, Returns, arith, Bool-cases, inl, inr,
}
use libwired.Cells.{no_cells-IsTidy}
use libwired.Callbacks.{
  Callbacks, IsEqual, retained, is_equal_data, same_is_equal, has_retain, has_release,
}
use libwired.Array.State.{Item, Array, contents, init_with_capacity_and_callbacks}
use libwired.Array.Read.{copy, is_equal, equal_data}
use libwired.Array.Valid.{item_data, IsValid}
use libwired.Array.Add.{add_all-Updated, retained_all}
use libwired.Array.Search.{slots-ok}
use libwired.Array.Bulk.{get_data-ok}

-- `wi_array_init_with_capacity_and_callbacks` makes a valid empty array.
pub init-IsValid :
    (mutable : Bool) (per_page capacity : ℕ) (cb : Callbacks)
    → 0 < per_page
    → has_retain cb ≡ has_release cb
    → IsValid (init_with_capacity_and_callbacks mutable per_page capacity cb)
unfolding init_with_capacity_and_callbacks
init-IsValid mutable per_page capacity cb page paired = record {
  filled = refl;
  room = omega arith;
  owns = record {
    tidy = no_cells-IsTidy per_page page;
    balanced = record { paired = paired; books = λ d. ground arith };
  };
}

-- `b` is a valid copy of `a` that is mutable or not, with the retained data.
pub record Copied (a : Array) (mutable : Bool) (ds : List ℕ) (b : Array) : Type 0 where
  pub valid : IsValid b
  pub holds : contents b ≡ ds
  pub same_callbacks : b.callbacks ≡ a.callbacks
  pub new_mutable : b.mutable ≡ mutable

-- `_wi_array_copy` of a valid array makes a valid immutable array with the same callbacks, which
-- holds the retained data in the same order.
pub copy-Copied :
    (a : Array)
    → IsValid a
    → Returns (copy a) (Copied a false (retained_all a.callbacks (contents a)))
unfolding copy
copy-Copied a v =
    let new = init_with_capacity_and_callbacks false a.cells.per_page a.data_count a.callbacks in
    let w =
      init-IsValid false a.cells.per_page a.data_count a.callbacks v.owns.tidy.page
        v.owns.balanced.paired in
    let (b, run, u) = add_all-Updated new (contents a) w in
    (
      b,
      rw (get_data-ok a v) run,
      unfold init_with_capacity_and_callbacks in
          record {
            valid = u.valid;
            holds = u.holds;
            same_callbacks = u.same_callbacks;
            new_mutable = u.same_mutable;
          },
    )

and_false : (b : Bool) → false ≡ b && false
and_false true = refl
and_false false = refl

map_id : (f : ℕ → ℕ) → ((x : ℕ) → f x ≡ x) → (xs : List ℕ) → map f xs ≡ xs
map_id f h [] = refl
map_id f h (x ∷ xs) = rw (h x) (ap (λ l. x ∷ l) (map_id f h xs))

same_func : (p : IsEqual) → same_is_equal p p && true ≡ true
same_func IsEqual.null = refl
same_func (IsEqual.func p f) = ground arith

-- The two lists agree, place for place.
pub all_equal : Callbacks → List ℕ → List ℕ → Bool
all_equal cb [] [] = true
all_equal cb (x ∷ xs) (y ∷ ys) = is_equal_data cb x y && all_equal cb xs ys
all_equal cb _ _ = false

equal_data-all_equal :
    (cb : Callbacks) (xs ys : List Item)
    → length xs ≡ length ys
    → equal_data cb xs ys ≡ all_equal cb (item_data xs) (item_data ys)
unfolding equal_data all_equal
equal_data-all_equal cb [] [] h = refl
equal_data-all_equal cb [] (y ∷ ys) h = absurd (omega arith)
equal_data-all_equal cb (x ∷ xs) [] h = absurd (omega arith)
equal_data-all_equal cb (x ∷ xs) (y ∷ ys) h = rw (equal_data-all_equal cb xs ys (omega arith))

all_equal-length :
    (cb : Callbacks) (xs ys : List ℕ) → all_equal cb xs ys ≡ true → length xs ≡ length ys
unfolding all_equal
all_equal-length cb [] [] h = refl
all_equal-length cb [] (y ∷ ys) h = cc
all_equal-length cb (x ∷ xs) [] h = cc
all_equal-length cb (x ∷ xs) (y ∷ ys) h = ground (arith, all_equal-length cb xs ys)

-- `_wi_array_is_equal` of two valid arrays: the same callback, and equal data place for place.
pub is_equal-all_equal :
    (a b : Array)
    → IsValid a
    → IsValid b
    → is_equal a b
      ≡ ok (
          same_is_equal a.callbacks.is_equal b.callbacks.is_equal
          && all_equal a.callbacks (contents a) (contents b))
unfolding is_equal
is_equal-all_equal a b v w =
    let sizes = λ (c : Array). length-map (λ (x : Item). x.datum) c.items in
    elim (Bool-cases (a.data_count == b.data_count)) [
      | inl same ↦
          let e : length a.items ≡ length b.items = ground (arith, v.filled, w.filled) in
          elim (Bool-cases (same_is_equal a.callbacks.is_equal b.callbacks.is_equal)) [
            | inl func ↦
                rw (same, func, slots-ok a v, slots-ok b w)
                  (ap ok (equal_data-all_equal a.callbacks a.items b.items e))
            | inr differ ↦ rw (same, differ)
          ]
      | inr differ ↦ elim (Bool-cases (all_equal a.callbacks (contents a) (contents b))) [
        | inl all ↦ absurd (
            ground (
              arith,
              all_equal-length a.callbacks (contents a) (contents b) all,
              sizes a,
              sizes b,
              v.filled,
              w.filled,
            ))
        | inr some ↦ rw (differ, some) (ap ok (and_false _))
      ]
    ]

all_equal_refl :
    (cb : Callbacks) (xs : List ℕ)
    → ((x : ℕ) → is_equal_data cb x x ≡ true)
    → all_equal cb xs xs ≡ true
unfolding all_equal
all_equal_refl cb [] same = refl
all_equal_refl cb (x ∷ xs) same = rw (same x) (all_equal_refl cb xs same)

-- A valid array whose retain callback stores its argument, and whose equality is reflexive, equals
-- its copy by `_wi_array_is_equal`.
pub copy-is_equal :
    (a : Array)
    → IsValid a
    → ((x : ℕ) → retained a.callbacks x ≡ x)
    → ((x : ℕ) → is_equal_data a.callbacks x x ≡ true)
    → copy a >>= (λ b. is_equal a b) ≡ ok true
copy-is_equal a v same equal =
    let (b, run, c) = copy-Copied a v in
    rw run (
      is_equal-all_equal a b v c.valid
      ∙ rw
          (
            c.holds,
            map_id (retained a.callbacks) same (contents a),
            all_equal_refl a.callbacks (contents a) equal,
            c.same_callbacks,
          )
          (ap ok (same_func a.callbacks.is_equal)))
