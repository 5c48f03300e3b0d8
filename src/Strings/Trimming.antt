-- ===== src/Strings/Trimming.antt =====
-- What a string holds after `wi_mutable_string_delete_surrounding_whitespace` of
-- libwired/data/wi-string.c.
use libwired.Base.{
  ℕ, zero, suc, ◌+◌, ◌-◌, ◌≤◌, ◌<◌, ◌≡◌, refl, sym, ap, ◌∙◌, true, false, ◌&&◌, ◌⊎◌, List, [], ◌∷◌,
  ◌++◌, some, length, take, drop, get_elem?, leb, ◌==◌, if◌then◌else◌, ok, arith, Bool-cases, inl,
  inr, length-append, append-nil, append_assoc, Returns, Ends, returns, Ends-Returns, Ends-bind,
  wi_assert_only,
}
use libwired.Memory.Laws.{take-append, drop-append_more}
use libwired.Strings.State.{String}
use libwired.Strings.Edit.{
  char_is_whitespace, whitespace_at, delete_characters_in_range, trim_front, trim_back,
  delete_surrounding_whitespace,
}
use libwired.Strings.Holds.{Holds, HoldsAs, Holds-cast}
use libwired.Strings.Deletion.{without, delete_characters_in_range-Holds}

-- The bytes from the first one on that is no whitespace
unfoldable pub skip_whitespace : List ℕ → List ℕ
skip_whitespace [] = []
skip_whitespace (x ∷ xs) =
    let rest = skip_whitespace xs in if char_is_whitespace x then rest else x ∷ xs

-- The bytes up to the last one that is no whitespace
unfoldable pub strip_end : List ℕ → List ℕ
strip_end [] = []
strip_end (x ∷ xs) = elim (strip_end xs) [
  | [] ↦ if char_is_whitespace x then [] else x ∷ []
  | y ∷ ys ↦ x ∷ y ∷ ys
]

strip_end-white :
    (xs : List ℕ) (z : ℕ) → char_is_whitespace z ≡ true → strip_end (xs ++ z ∷ []) ≡ strip_end xs
unfolding strip_end
strip_end-white [] z e = rw e refl
strip_end-white (x ∷ xs) z e = rw (strip_end-white xs z e) refl

strip_end-other :
    (xs : List ℕ) (z : ℕ) → char_is_whitespace z ≡ false → strip_end (xs ++ z ∷ []) ≡ xs ++ z ∷ []
unfolding strip_end
strip_end-other [] z e = rw e refl
strip_end-other (x ∷ xs) z e = rw (strip_end-other xs z e) (snoc xs)
  where
    snoc :
        (xs : List ℕ)
        → (elim (xs ++ z ∷ []) [
          | [] ↦ (if char_is_whitespace x then [] else x ∷ [])
          | y ∷ ys ↦ x ∷ y ∷ ys
        ])
          ≡ x ∷ (xs ++ z ∷ [])
    snoc [] = refl
    snoc (y ∷ ys) = refl

strip_end-empty : strip_end [] ≡ []
unfolding strip_end
strip_end-empty = refl

last-cases : (xs : List ℕ) → (xs ≡ []) ⊎ ((ys : List ℕ) × (z : ℕ) × (xs ≡ ys ++ z ∷ []))
last-cases [] = inl refl
last-cases (x ∷ xs) = elim (last-cases xs) [
  | inl e ↦ inr ([], x, ap (λ l. x ∷ l) e)
  | inr (ys, z, e) ↦ inr (x ∷ ys, z, ap (λ l. x ∷ l) e)
]

get_elem?-behind :
    (xs : List ℕ) (z : ℕ) (rest : List ℕ) → get_elem? (xs ++ z ∷ rest) (length xs) ≡ some z
get_elem?-behind [] z rest = refl
get_elem?-behind (x ∷ xs) z rest = get_elem?-behind xs z rest

whitespace_at_end :
    (s : String) (xs ys : List ℕ) (z : ℕ) (index : ℕ)
    → Holds s (xs ++ z ∷ ys)
    → index ≡ length xs
    → whitespace_at s index ≡ ok (char_is_whitespace z)
unfolding whitespace_at
whitespace_at_end s xs ys z index h e =
    let some_bytes : (s.length == 0) ≡ false =
      ground (arith, h.length_is, length-append xs (z ∷ ys)) in
    let found : get_elem? s.string index ≡ some z =
      ap (λ i. get_elem? s.string i) e
      ∙ ap (λ m. get_elem? m (length xs)) (h.string_is ∙ append_assoc xs (z ∷ ys) (0 ∷ h.spare))
      ∙ get_elem?-behind xs z (ys ++ 0 ∷ h.spare) in
    rw (some_bytes, found) refl

whitespace_at_start : (s : String) (index : ℕ) → Holds s [] → whitespace_at s index ≡ ok false
unfolding whitespace_at
whitespace_at_start s index h =
    let no_bytes : (s.length == 0) ≡ true = ground (arith, h.length_is) in rw no_bytes refl

-- One round deletes one byte.
delete_one :
    (s : String) (index : ℕ) (xs ys : List ℕ) (z : ℕ)
    → Holds s (xs ++ z ∷ ys)
    → index ≡ length xs
    → s.mutable ≡ true
    → length (xs ++ z ∷ ys) < 18446744073709551616
    → Returns (delete_characters_in_range s index 1) (HoldsAs s (xs ++ ys))
delete_one s index xs ys z h e open_ small =
    let zs = xs ++ z ∷ ys in
    let count = length-append xs (z ∷ ys) in
    let guard : s.mutable && (leb index s.length && leb (index + 1) s.length) ≡ true =
      ground (arith, open_, e, count, h.length_is) in
    let (t, ran, after) =
      Ends-Returns guard refl
        (delete_characters_in_range-Holds s index 1 h small (omega (arith, e, count, small))) in
    let content : without zs index 1 ≡ xs ++ ys =
      ap (λ i. take i zs ++ drop (i + 1) zs) e
      ∙ ap (λ l. l ++ drop (length xs + 1) zs) (take-append xs (z ∷ ys))
      ∙ ap (λ l. xs ++ l) (drop-append_more 1 xs (z ∷ ys)) in
    (t, ran, (Holds-cast content after.0.0, after.0.1))

-- The first loop takes the whitespace in front.
trim_front-Holds :
    (fuel : ℕ) (s : String) (xs : List ℕ)
    → Holds s xs
    → s.mutable ≡ true
    → length xs < fuel
    → length xs < 18446744073709551616
    → Returns (trim_front fuel s) (HoldsAs s (skip_whitespace xs))
unfolding trim_front skip_whitespace
trim_front-Holds zero s xs h open_ enough small = absurd (omega arith)
trim_front-Holds (suc fuel) s [] h open_ enough small =
    rw (whitespace_at_start s 0 h) (s, refl, (h, refl))
trim_front-Holds (suc fuel) s (x ∷ xs) h open_ enough small =
    let seen = whitespace_at_end s [] xs x 0 h refl in
    elim (Bool-cases (char_is_whitespace x)) [
      | inr e ↦ rw (seen, e) (s, refl, (h, refl))
      | inl e ↦
          let (t, ran, (holds, same)) = delete_one s 0 [] xs x h refl open_ small in
          let (u, end, (holds_u, same_u)) =
            trim_front-Holds fuel t xs holds (same ∙ open_) (omega (arith, enough))
              (omega (arith, small)) in
          rw (seen, e, ran, end) (u, refl, (holds_u, same_u ∙ same))
    ]

-- The second loop takes the whitespace at the end.
trim_back-Holds :
    (fuel : ℕ) (s : String) (xs : List ℕ)
    → Holds s xs
    → s.mutable ≡ true
    → length xs < fuel
    → length xs < 18446744073709551616
    → Returns (trim_back fuel s) (HoldsAs s (strip_end xs))
unfolding trim_back
trim_back-Holds zero s xs h open_ enough small = absurd (omega arith)
trim_back-Holds (suc fuel) s xs h open_ enough small = elim (last-cases xs) [
  | inl none_left ↦
      let nothing = Holds-cast none_left h in
      rw (whitespace_at_start s (s.length - 1) nothing)
        (s, refl, (Holds-cast (none_left ∙ sym (ap strip_end none_left ∙ strip_end-empty)) h, refl))
  | inr (ys, z, split) ↦
      let h₂ = Holds-cast split h in
      let count = length-append ys (z ∷ []) in
      let few : length (ys ++ z ∷ []) < 18446744073709551616 =
        omega (arith, ap length split, small) in
      let index : s.length - 1 ≡ length ys = omega (arith, h₂.length_is, count) in
      let seen = whitespace_at_end s ys [] z (s.length - 1) h₂ index in
      elim (Bool-cases (char_is_whitespace z)) [
        | inr e ↦
            let kept = split ∙ sym (ap strip_end split ∙ strip_end-other ys z e) in
            rw (seen, e) (s, refl, (Holds-cast kept h, refl))
        | inl e ↦
            let (t, ran, (deleted, same)) =
              delete_one s (s.length - 1) ys [] z h₂ index open_ few in
            let holds = Holds-cast (append-nil ys) deleted in
            let (u, end, (holds_u, same_u)) =
              trim_back-Holds fuel t ys holds (same ∙ open_)
                (omega (arith, enough, ap length split, count)) (omega (arith, few, count)) in
            let content = sym (ap strip_end split ∙ strip_end-white ys z e) in
            rw (seen, e, ran, end) (u, refl, (Holds-cast content holds_u, same_u ∙ same))
      ]
]

length-skip_whitespace : (xs : List ℕ) → length (skip_whitespace xs) ≤ length xs
unfolding skip_whitespace
length-skip_whitespace [] = omega arith
length-skip_whitespace (x ∷ xs) = ground (arith, length-skip_whitespace xs)

-- Both loops end, and leave the bytes between the first and the last that are no whitespace.
pub delete_surrounding_whitespace-Holds :
    (s : String) {xs : List ℕ}
    → Holds s xs
    → length xs < 18446744073709551616
    → Ends s.mutable true
        (delete_surrounding_whitespace s)
        (HoldsAs s (strip_end (skip_whitespace xs)))
unfolding delete_surrounding_whitespace
delete_surrounding_whitespace-Holds s {xs} h small = wi_assert_only s.mutable (λ open_.
    let (t, ran, (holds, same)) =
      trim_front-Holds (suc s.length) s xs h open_ (omega (arith, h.length_is)) small in
    let ys = skip_whitespace xs in
    let (u, end, (holds_u, same_u)) =
      trim_back-Holds (suc t.length) t ys holds (same ∙ open_) (omega (arith, holds.length_is))
        (omega (arith, small, length-skip_whitespace xs)) in
    Ends-bind _ t ran (returns refl refl u end (holds_u, same_u ∙ same)))
