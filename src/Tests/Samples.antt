-- ===== src/Tests/Samples.antt =====
-- Sample states, with their invariants.
use mathlib.Core.Path.{subst}
use libwired.Base.{
  inl, inr, Bool-cases, ltb, if◌then◌else◌, sym, ℕ, suc, length, ◌≡◌, refl, true, List, [], ◌∷◌,
  ◌==◌, count, arith,
}
use libwired.Callbacks.{
  acquired, Compare, CompareFunc, sign, int_sign, compare_data, null_callbacks, default_callbacks,
}
use libwired.Array.State.{Array}
use libwired.Array.Valid.{IsValid}
use libwired.Array.Sorting.{Sorts}
use libwired.Array.Order.{IsSorted, insert_sorted, insert_sorted-IsSorted}
use libwired.IndexSet.State.{IndexSet, index_compare}
use libwired.IndexSet.Laws.{IsIndexSet, count-insert_sorted, index_compare-IsAsymmetric}
use libwired.Chains.{Entry}

abbrev pub three : Array
three = record {
  mutable = true;
  callbacks = default_callbacks 1 ◌==◌;
  items =
      record { cell = 0; datum = 5 }
      ∷ record { cell = 1; datum = 7 }
      ∷ record { cell = 2; datum = 5 }
      ∷ [];
  items_count = 10;
  min_count = 10;
  data_count = 3;
  cells = record { per_page = 4; chunks_count = 1; chunks_offset = 3; free_list = [] };
  calls = acquired 5 ∷ acquired 7 ∷ acquired 5 ∷ [];
}

pub three-IsValid : IsValid three
three-IsValid = record {
  filled = refl;
  room = omega arith;
  owns = record {
    tidy = record {
      page = omega arith;
      within = omega arith;
      started = omega arith;
      split = λ a. ground arith;
    };
    balanced = record { paired = refl; books = λ d. ground arith };
  };
}

abbrev pub pair : Array
pair = record {
  mutable = true;
  callbacks = null_callbacks;
  items = record { cell = 0; datum = 2 } ∷ record { cell = 2; datum = 4 } ∷ [];
  items_count = 10;
  min_count = 10;
  data_count = 2;
  cells = record { per_page = 4; chunks_count = 1; chunks_offset = 3; free_list = 1 ∷ [] };
  calls = [];
}

pub pair-IsValid : IsValid pair
pair-IsValid = record {
  filled = refl;
  room = omega arith;
  owns = record {
    tidy = record {
      page = omega arith;
      within = omega arith;
      started = omega arith;
      split = λ a. ground arith;
    };
    balanced = record { paired = refl; books = λ d. ground arith };
  };
}

-- The counts of an array that is larger than `_WI_ARRAY_MAX_COUNT`

abbrev pub indexes : IndexSet
indexes = record {
  mutable = true;
  array = record pair {
    items =
        record { cell = 0; datum = 3 }
        ∷ record { cell = 1; datum = 3 }
        ∷ record { cell = 2; datum = 8 }
        ∷ [];
    data_count = 3;
    cells = record { per_page = 4; chunks_count = 1; chunks_offset = 3; free_list = [] };
  };
}

pub indexes-IsIndexSet : IsIndexSet indexes
unfolding index_compare
indexes-IsIndexSet = record {
  valid = record {
    filled = refl;
    room = omega arith;
    owns = record {
      tidy = record {
        page = omega arith;
        within = omega arith;
        started = omega arith;
        split = λ a. ground arith;
      };
      balanced = record { paired = refl; books = λ d. ground arith };
    };
  };
  plain = refl;
  open' = refl;
  sorted = ground arith;
}

-- A `qsort`: insertion, one by one.
abbrev pub by_insertion : Compare → List ℕ → List ℕ
by_insertion compare [] = []
by_insertion compare (x ∷ xs) = insert_sorted compare x (by_insertion compare xs)

by_insertion-Sorts : Sorts by_insertion index_compare
unfolding insert_sorted index_compare
by_insertion-Sorts = record { same_length = size; same_data = counts; ordered = sorted }
  where
    inserted : (x : ℕ) (xs : List ℕ) → length (insert_sorted index_compare x xs) ≡ suc (length xs)
    inserted x [] = refl
    inserted x (y ∷ ys) = ground (arith, inserted x ys)

    size : (ds : List ℕ) → length (by_insertion index_compare ds) ≡ length ds
    size [] = refl
    size (x ∷ xs) = omega (arith, inserted x (by_insertion index_compare xs), size xs)

    counts : (ds : List ℕ) (q : ℕ) → count q (by_insertion index_compare ds) ≡ count q ds
    counts [] q = refl
    counts (x ∷ xs) q =
        omega (arith, count-insert_sorted q x (by_insertion index_compare xs), counts xs q)

    sorted : (ds : List ℕ) → IsSorted index_compare (by_insertion index_compare ds)
    sorted [] = tt
    sorted (x ∷ xs) =
        insert_sorted-IsSorted index_compare x (by_insertion index_compare xs)
          index_compare-IsAsymmetric (sorted xs)

-- `_wi_index_compare` with the numbers that it returns: 1, -1 and 0
abbrev pub word_compare : CompareFunc
word_compare a b = if ltb b a then 1 else if ltb a b then 18446744073709551615 else 0

compare_data-word_compare : (a b : ℕ) → compare_data word_compare a b ≡ index_compare a b
unfolding compare_data int_sign sign index_compare
compare_data-word_compare a b = elim (Bool-cases (ltb b a)) [
  | inl e ↦ rw e refl
  | inr e ↦ elim (Bool-cases (ltb a b)) [ inl f ↦ rw (e, f) refl | inr f ↦ rw (e, f) refl ]
]

pub word_compare-Sorts : Sorts by_insertion (compare_data word_compare)
word_compare-Sorts =
    let same : index_compare ≡ compare_data word_compare =
      λ i a b. sym (compare_data-word_compare a b) i in
    subst (Sorts by_insertion) same by_insertion-Sorts

abbrev pub buckets : List (List Entry)
buckets =
    []
    ∷ (record { cell = 0; key = 1; value = 5 } ∷ record { cell = 1; key = 12; value = 6 } ∷ [])
    ∷ []
    ∷ (record { cell = 2; key = 3; value = 7 } ∷ [])
    ∷ []

abbrev pub one_index : IndexSet
one_index = record {
  mutable = true;
  array = record pair {
    items = record { cell = 1; datum = 2 } ∷ [];
    data_count = 1;
    cells = record { per_page = 4; chunks_count = 1; chunks_offset = 2; free_list = 0 ∷ [] };
  };
}

pub one_index-IsValid : IsValid one_index.array
one_index-IsValid = record {
  filled = refl;
  room = omega arith;
  owns = record {
    tidy = record {
      page = omega arith;
      within = omega arith;
      started = omega arith;
      split = λ a. ground arith;
    };
    balanced = record { paired = refl; books = λ d. ground arith };
  };
}
