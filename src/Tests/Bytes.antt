-- ===== src/Tests/Bytes.antt =====
-- The theorems on strings and data at short texts.
use mathlib.Core.Path.{subst}
use libwired.Base.{
  ℕ, ◌+◌, ◌-◌, ◌^◌, ◌≡◌, ◌≢◌, ◌≤◌, ◌<◌, refl, true, false, ◌&&◌, List, [], ◌∷◌, ◌++◌, All, Option,
  none, some, length, leb, ◌==◌, sym, ap, ◌∙◌, some_injective, Bool-cases, Option-cases, inl, inr,
  if◌then◌else◌, Returns, Ends, bad_access, arith,
}
use mathlib.Core.Logic.{◌↔◌}
use libwired.Strings.State.{String, init_with_utf8_bytes}
use libwired.Strings.Edit.{
  append_string, insert_string_at_index, delete_characters_in_range, replace_characters_in_range,
  delete_surrounding_whitespace,
}
use libwired.Strings.Search.{Compat, components_separated_by_string}
use libwired.Strings.Paths.{
  constant_string, slash, components_joined_by_string, normalize_components, append_format_object,
}
use libwired.Strings.Format.{Arg, Printf, append_arguments}
use libwired.Strings.Holds.{Holds, HoldsAs, fits}
use libwired.Strings.Appending.{append_string-Holds}
use libwired.Strings.Overflow.{init_with_utf8_bytes_overflow}
use libwired.Strings.Insertion.{insert_fits, insert_string_at_index-Holds}
use libwired.Strings.Deletion.{delete_characters_in_range-Holds}
use libwired.Strings.Replacement.{replace_characters_in_range-Holds}
use libwired.Strings.Trimming.{skip_whitespace, strip_end, delete_surrounding_whitespace-Holds}
use libwired.Strings.Splitting.{Strsep, AllHold, join, split_join}
use libwired.Strings.Normalizing.{resolve, bottom_up, constant-Holds}
use libwired.Strings.Resolving.{normalize_components-Holds}
use libwired.Strings.Formatting.{append_arguments-object}
use libwired.Strings.Substitution.{Strnstr, forwards, replace_string, replace_string_ends}
use libwired.Base.{ok, zero, suc}
use libwired.Data.{Data, make_immutable, by_appending_bytes}
use libwired.Data.Contents as DataContents
use libwired.Data.Contents.{by_appending_bytes-Holds}

-- `abc`, mutable
abbrev abc : String
abc = record (constant_string (97 ∷ 98 ∷ 99 ∷ [])) { mutable = true }

-- `hi`
abbrev hi : String
hi = constant_string (104 ∷ 105 ∷ [])

-- ` a `, mutable
abbrev padded : String
padded = record (constant_string (32 ∷ 97 ∷ 32 ∷ [])) { mutable = true }

mutable-Holds :
    (bs : List ℕ) → length bs < 256 → Holds (record (constant_string bs) { mutable = true }) bs
mutable-Holds bs short =
    let h = constant-Holds bs short in
    record {
      spare = h.spare;
      string_is = h.string_is;
      length_is = h.length_is;
      capacity_is = h.capacity_is;
    }

hi-Holds : Holds hi (104 ∷ 105 ∷ [])
hi-Holds = constant-Holds (104 ∷ 105 ∷ []) (omega arith)

abc-Holds : Holds abc (97 ∷ 98 ∷ 99 ∷ [])
abc-Holds = mutable-Holds (97 ∷ 98 ∷ 99 ∷ []) (omega arith)

append_string-Holds_example :
    Ends true (fits abc 2) (append_string [] abc hi) (HoldsAs abc (97 ∷ 98 ∷ 99 ∷ 104 ∷ 105 ∷ []))
append_string-Holds_example =
    append_string-Holds [] abc hi abc-Holds hi-Holds (omega arith, (omega arith, tt)) (omega arith)

insert_string_at_index-Holds_example :
    Ends
      (true && leb 1 3)
      (insert_fits 256 3 1 2)
      (insert_string_at_index [] abc hi 1)
      (HoldsAs abc (97 ∷ 104 ∷ 105 ∷ 98 ∷ 99 ∷ []))
insert_string_at_index-Holds_example =
    insert_string_at_index-Holds [] abc hi 1 abc-Holds hi-Holds (omega arith)

delete_characters_in_range-Holds_example :
    Ends
      (true && (leb 1 3 && leb (1 + 1) 3))
      true
      (delete_characters_in_range abc 1 1)
      (λ t. HoldsAs abc (97 ∷ 99 ∷ []) t × t.capacity ≡ 256)
delete_characters_in_range-Holds_example =
    delete_characters_in_range-Holds abc 1 1 abc-Holds (omega arith) (omega arith)

replace_characters_in_range-Holds_example :
    Ends
      (true && (leb 1 3 && leb (1 + 1) 3))
      (insert_fits 256 (3 - 1) 1 2)
      (replace_characters_in_range [] abc 1 1 hi)
      (HoldsAs abc (97 ∷ 104 ∷ 105 ∷ 99 ∷ []))
replace_characters_in_range-Holds_example =
    replace_characters_in_range-Holds [] abc hi 1 1 abc-Holds hi-Holds (omega arith) (omega arith)

delete_surrounding_whitespace-Holds_example :
    Ends true true
      (delete_surrounding_whitespace padded)
      (HoldsAs padded (strip_end (skip_whitespace (32 ∷ 97 ∷ 32 ∷ []))))
delete_surrounding_whitespace-Holds_example =
    delete_surrounding_whitespace-Holds padded (mutable-Holds (32 ∷ 97 ∷ 32 ∷ []) (omega arith))
      (omega arith)

init_with_utf8_bytes_overflow_example :
    (init_with_utf8_bytes [] false (104 ∷ 105 ∷ []) ≡ bad_access)
    ↔ ((k : ℕ) × (2 + 1 ≡ 2 ^ k) × (256 ≤ 2))
init_with_utf8_bytes_overflow_example =
    init_with_utf8_bytes_overflow [] false (104 ∷ 105 ∷ []) (omega arith)

-- A `strsep` for one delimiter
span : ℕ → List ℕ → List ℕ × Option (List ℕ)
span d [] = ([], none)
span d (b ∷ bs) = let rest = span d bs in if b == d then ([], some bs) else (b ∷ rest.0, rest.1)

abbrev one_delimiter : Compat
one_delimiter = record {
  strnstr = λ s find n. none;
  strncasestr = λ s find n. none;
  strrnstr = λ s find n. none;
  strrncasestr = λ s find n. none;
  strsep = λ s delimiters. elim delimiters [ [] ↦ (s, none) | d ∷ others ↦ span d s ];
}

span-hit : (d b : ℕ) (bs : List ℕ) → (b == d) ≡ true → span d (b ∷ bs) ≡ ([], some bs)
unfolding span
span-hit d b bs e = rw e refl

span-miss :
    (d b : ℕ) (bs : List ℕ)
    → (b == d) ≡ false
    → span d (b ∷ bs) ≡ (b ∷ (span d bs).0, (span d bs).1)
unfolding span
span-miss d b bs e = rw e refl

span-clean : (d : ℕ) (s : List ℕ) → All (λ b. b ≢ d) (span d s).0
unfolding span
span-clean d [] = tt
span-clean d (b ∷ bs) = elim (Bool-cases (b == d)) [
  | inl e ↦ subst (λ r. All (λ b. b ≢ d) r.0) (sym (span-hit d b bs e)) tt
  | inr e ↦
      let other : b ≢ d = ground arith in
      subst (λ r. All (λ b. b ≢ d) r.0) (sym (span-miss d b bs e)) (other, span-clean d bs)
]

span-all : (d : ℕ) (s : List ℕ) → (span d s).1 ≡ none → s ≡ (span d s).0
unfolding span
span-all d [] h = refl
span-all d (b ∷ bs) h = elim (Bool-cases (b == d)) [
  | inl e ↦ let hit = ap (λ r. r.1) (span-hit d b bs e) in cc
  | inr e ↦
      let miss = span-miss d b bs e in
      let rest = span-all d bs (sym (ap (λ r. r.1) miss) ∙ h) in
      ap (λ l. b ∷ l) rest ∙ sym (ap (λ r. r.0) miss)
]

span-rest : (d : ℕ) (s rest : List ℕ) → (span d s).1 ≡ some rest → s ≡ (span d s).0 ++ d ∷ rest
unfolding span
span-rest d [] rest h = cc
span-rest d (b ∷ bs) rest h = elim (Bool-cases (b == d)) [
  | inl e ↦
      let hit = span-hit d b bs e in
      let left = some_injective (sym (ap (λ r. r.1) hit) ∙ h) in
      let same : b ≡ d = ground arith in
      ap (λ b. b ∷ bs) same
      ∙ ap (λ l. d ∷ l) left
      ∙ ap (λ l. l ++ d ∷ rest) (sym (ap (λ r. r.0) hit))
  | inr e ↦
      let miss = span-miss d b bs e in
      let split = span-rest d bs rest (sym (ap (λ r. r.1) miss) ∙ h) in
      ap (λ l. b ∷ l) split ∙ ap (λ l. l ++ d ∷ rest) (sym (ap (λ r. r.0) miss))
]

one_delimiter-Strsep : (d : ℕ) → Strsep one_delimiter d
one_delimiter-Strsep d = record {
  token_end = span-clean d;
  all_taken = span-all d;
  rest_left = span-rest d;
}

-- `a/b`
abbrev path : String
path = constant_string (97 ∷ 47 ∷ 98 ∷ [])

split_join_example : Returns (components_separated_by_string [] one_delimiter path slash) (λ parts.
    (first : List ℕ) × (names : List (List ℕ)) × AllHold parts (first ∷ names)
    × All (λ ys. All (λ b. b ≢ 47) ys) (first ∷ names)
    × (join 47 (first ∷ names) ≡ 97 ∷ 47 ∷ 98 ∷ [])
    × Returns (components_joined_by_string [] parts slash) (λ t. Holds t (97 ∷ 47 ∷ 98 ∷ [])))
split_join_example =
    split_join [] one_delimiter 47 path slash (one_delimiter-Strsep 47)
      (constant-Holds (97 ∷ 47 ∷ 98 ∷ []) (omega arith)) (constant-Holds (47 ∷ []) (omega arith))
      (omega arith, (omega arith, (omega arith, tt))) (omega arith) (omega arith)

-- `hi` and `..`
abbrev hi_parent : List String
hi_parent = hi ∷ constant_string (46 ∷ 46 ∷ []) ∷ []

hi_parent-AllHold : AllHold hi_parent ((104 ∷ 105 ∷ []) ∷ (46 ∷ 46 ∷ []) ∷ [])
hi_parent-AllHold =
    AllHold.more hi (104 ∷ 105 ∷ []) _ _ hi-Holds (omega arith, (omega arith, tt))
      (AllHold.more (constant_string (46 ∷ 46 ∷ [])) (46 ∷ 46 ∷ []) [] []
        (constant-Holds (46 ∷ 46 ∷ []) (omega arith)) (omega arith, (omega arith, tt))
        AllHold.nothing)

normalize_components-Holds_example :
    Returns
      (normalize_components true 3 0 hi_parent)
      (λ left. AllHold left (bottom_up (resolve true [] ((104 ∷ 105 ∷ []) ∷ (46 ∷ 46 ∷ []) ∷ []))))
normalize_components-Holds_example =
    normalize_components-Holds true hi_parent ((104 ∷ 105 ∷ []) ∷ (46 ∷ 46 ∷ []) ∷ [])
      hi_parent-AllHold

abbrev no_printf : Printf
no_printf = record { number = λ cfmt v. []; text = λ cfmt star bs. bs; error_string = [] }

-- The format `.%@`
append_arguments-object_example :
    append_arguments [] no_printf (46 ∷ 37 ∷ 64 ∷ []) [] none (Arg.object (some hi) ∷ []) abc
    ≡ append_format_object [] abc (46 ∷ []) hi
append_arguments-object_example =
    append_arguments-object [] no_printf 46 [] hi abc (omega arith, tt)

abbrev three_bytes : Data
three_bytes = record {
  mutable = true;
  bytes = 1 ∷ 0 ∷ 2 ∷ [];
  length = 3;
  capacity = 3;
  free = true;
}

by_appending_bytes-Holds_example : Returns (by_appending_bytes [] three_bytes (7 ∷ [])) (λ result.
    (result.0 ≡ make_immutable three_bytes)
    × DataContents.Holds result.1 (1 ∷ 0 ∷ 2 ∷ 7 ∷ [])
    × (result.1.mutable ≡ true))
by_appending_bytes-Holds_example =
    by_appending_bytes-Holds [] three_bytes (7 ∷ []) {xs = 1 ∷ 0 ∷ 2 ∷ []}
      (record { spare = []; bytes_is = refl; length_is = refl; capacity_is = refl }) (omega arith)

-- A search for one byte, within the first bytes
find_byte : ℕ → List ℕ → ℕ → Option ℕ
find_byte c [] n = none
find_byte c (b ∷ bs) zero = none
find_byte c (b ∷ bs) (suc n) =
    let rest = find_byte c bs n in
    if b == c then some 0 else elim rest [ some d ↦ some (suc d) | none ↦ none ]

find_byte-hit :
    (c b : ℕ) (bs : List ℕ) (n : ℕ) → (b == c) ≡ true → find_byte c (b ∷ bs) (suc n) ≡ some 0
unfolding find_byte
find_byte-hit c b bs n e = rw e refl

find_byte-miss-none :
    (c b : ℕ) (bs : List ℕ) (n : ℕ)
    → (b == c) ≡ false
    → find_byte c bs n ≡ none
    → find_byte c (b ∷ bs) (suc n) ≡ none
unfolding find_byte
find_byte-miss-none c b bs n e f = rw (e, f) refl

find_byte-miss-some :
    (c b : ℕ) (bs : List ℕ) (n d : ℕ)
    → (b == c) ≡ false
    → find_byte c bs n ≡ some d
    → find_byte c (b ∷ bs) (suc n) ≡ some (suc d)
unfolding find_byte
find_byte-miss-some c b bs n d e f = rw (e, f) refl

find_byte-within : (c : ℕ) (s : List ℕ) (n d : ℕ) → find_byte c s n ≡ some d → d + 1 ≤ n
unfolding find_byte
find_byte-within c [] n d e = cc
find_byte-within c (b ∷ bs) zero d e = cc
find_byte-within c (b ∷ bs) (suc n) d e = elim (Bool-cases (b == c)) [
  | inl f ↦ let start = some_injective (sym (find_byte-hit c b bs n f) ∙ e) in omega (arith, start)
  | inr f ↦ elim (Option-cases (find_byte c bs n)) [
    | inl g ↦ absurd (none_some (sym (find_byte-miss-none c b bs n f g) ∙ e))
    | inr (d', g) ↦
        let later = some_injective (sym (find_byte-miss-some c b bs n d' f g) ∙ e) in
        let inside = find_byte-within c bs n d' g in omega (arith, later, inside)
  ]
]
  where
    none_some : {k : ℕ} → ◌≢◌ {A = Option ℕ} none (some k)
    none_some q = cc

abbrev one_byte : Compat
one_byte = record one_delimiter {
  strnstr = λ s find n. elim find [ [] ↦ none | c ∷ others ↦ find_byte c s n ];
}

-- `b`
abbrev b_text : String
b_text = constant_string (98 ∷ [])

b_text-Strnstr : Strnstr one_byte b_text
b_text-Strnstr = record { within = λ block n d e. find_byte-within 98 block n d e }

replace_string_ends_example : replace_string [] one_byte 4 abc b_text hi forwards ≢ ok none
replace_string_ends_example =
    replace_string_ends [] one_byte abc b_text hi b_text-Strnstr (omega arith) abc-Holds hi-Holds
      (omega arith)
