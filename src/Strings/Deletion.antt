-- ===== src/Strings/Deletion.antt =====
-- What a string holds after `wi_mutable_string_delete_characters_in_range` of
-- libwired/data/wi-string.c.
use libwired.Base.{
  ℕ, zero, suc, ◌+◌, ◌-◌, ◌≤◌, ◌<◌, ◌≡◌, refl, sym, ap, ◌∙◌, List, [], ◌∷◌, ◌++◌, length, take,
  drop, leb, ltb, if◌then◌else◌, true, ◌&&◌, ok, arith, Bool-cases, inl, inr, length-append,
  append_assoc, append-nil, length-take, Ends, Ends-cast, Ends-bind, wi_assert-Ends, wi_assert_both,
}
use libwired.Memory.{memmove}
use libwired.Memory.Laws.{close_gap, take-drop, length-drop}
use libwired.Strings.State.{String, word_add, word_sub}
use libwired.Strings.Edit.{delete_characters_in_range}
use libwired.Strings.Holds.{Holds, HoldsAs, Starts, Holds-room, terminate-Ends}

-- The part of a list that a deletion leaves
abbrev pub without : List ℕ → ℕ → ℕ → List ℕ
without xs location n = take location xs ++ drop (location + n) xs

drop-drop : (i n : ℕ) (xs : List ℕ) → drop n (drop i xs) ≡ drop (i + n) xs
drop-drop zero n xs = let e : 0 + n ≡ n = omega arith in rw e refl
drop-drop (suc i) zero [] = let e : suc i + 0 ≡ suc i = omega arith in rw e refl
drop-drop (suc i) (suc n) [] = let e : suc i + suc n ≡ suc (i + suc n) = omega arith in rw e refl
drop-drop (suc i) n (x ∷ xs) =
    let e : suc i + n ≡ suc (i + n) = omega arith in rw e (drop-drop i n xs)

empty : (xs : List ℕ) → length xs ≡ 0 → xs ≡ []
empty [] e = refl
empty (x ∷ xs) e = absurd (omega (arith, e))

-- The block of a string, cut at both ends of a range
cut_range :
    (s : String) (xs : List ℕ) (location n : ℕ) (h : Holds s xs)
    → s.string
      ≡ take location xs ++ (take n (drop location xs) ++ (drop (location + n) xs ++ 0 ∷ h.spare))
cut_range s xs location n h =
    let a = take location xs in
    let d = drop location xs in
    h.string_is
    ∙ ap (λ l. l ++ 0 ∷ h.spare) (sym (take-drop location xs))
    ∙ append_assoc a d (0 ∷ h.spare)
    ∙ ap (λ l. a ++ (l ++ 0 ∷ h.spare)) (sym (take-drop n d))
    ∙ ap (λ l. a ++ l) (append_assoc (take n d) (drop n d) (0 ∷ h.spare))
    ∙ ap (λ l. a ++ (take n d ++ (l ++ 0 ∷ h.spare))) (drop-drop location n xs)

same_length :
    (a d c behind rest : List ℕ)
    → length behind ≡ length (d ++ (c ++ rest)) - length c
    → length (a ++ (d ++ (c ++ rest))) ≡ length (a ++ (c ++ behind))
same_length a d c behind rest e = omega (
  arith,
  e,
  length-append a (d ++ (c ++ rest)),
  length-append d (c ++ rest),
  length-append c rest,
  length-append a (c ++ behind),
  length-append c behind,
)

-- The bytes behind the range move to its place, if there are any.
delete-Starts :
    (s : String) (xs : List ℕ) (location n : ℕ)
    → Holds s xs
    → location + n ≤ length xs
    → (m : List ℕ) × ((if ltb (location + n) (length xs)
          then memmove s.string location (location + n) (length xs - location - n)
          else ok s.string)
        ≡ ok m)
      × Starts (record s { string = m; length = length xs - n }) (without xs location n)
delete-Starts s xs location n h inside =
    let a = take location xs in
    let d = take n (drop location xs) in
    let c = drop (location + n) xs in
    let rest = 0 ∷ h.spare in
    let a_length : length a ≡ location = omega (arith, length-take location xs, inside) in
    let d_length : length d ≡ n =
      omega (arith, length-take n (drop location xs), length-drop location xs, inside) in
    let c_length : length c ≡ length xs - location - n =
      omega (arith, length-drop (location + n) xs) in
    let block = cut_range s xs location n h in
    elim (Bool-cases (ltb (location + n) (length xs))) [
      | inr f ↦
          let none_left : c ≡ [] = empty c (ground (arith, c_length, f)) in
          (
            s.string,
            rw f refl,
            record {
              spare = d ++ rest;
              string_is =
                  block
                  ∙ ap (λ l. a ++ (d ++ (l ++ rest))) none_left
                  ∙ ap (λ l. l ++ (d ++ rest))
                      (sym (append-nil a) ∙ ap (λ l. a ++ l) (sym none_left));
              capacity_is = h.capacity_is;
            },
          )
      | inl f ↦
          let behind = drop (length c) (d ++ (c ++ rest)) in
          (
            a ++ (c ++ behind),
            rw f (
                ap (λ m. memmove m location (location + n) (length xs - location - n)) block
                ∙ rw (a_length, d_length, c_length) refl
                ∙ close_gap a d c rest),
            record {
              spare = behind;
              string_is = sym (append_assoc a c behind);
              capacity_is =
                  h.capacity_is
                  ∙ ap length block
                  ∙ same_length a d c behind rest (length-drop (length c) (d ++ (c ++ rest)));
            },
          )
    ]

pub length-without :
    (xs : List ℕ) (location n : ℕ)
    → location + n ≤ length xs
    → length (without xs location n) ≡ length xs - n
length-without xs location n h = omega (
  arith,
  h,
  length-append (take location xs) (drop (location + n) xs),
  length-take location xs,
  length-drop (location + n) xs,
)

-- On a string of fewer than 2 ^ 64 bytes, the deletion takes out the bytes of a range that does not
-- wrap around and keeps the capacity, if the string is mutable and the range is within it; otherwise
-- an assertion fails.
pub delete_characters_in_range-Holds :
    (s : String) (location n : ℕ) {xs : List ℕ}
    → Holds s xs
    → length xs < 18446744073709551616
    → location + n < 18446744073709551616
    → Ends
        (s.mutable && (leb location s.length && leb (location + n) s.length))
        true
        (delete_characters_in_range s location n)
        (λ t. HoldsAs s (without xs location n) t × t.capacity ≡ s.capacity)
unfolding delete_characters_in_range
delete_characters_in_range-Holds s location n {xs} h small range =
    let sum : word_add location n ≡ location + n = omega (arith, range) in
    rw sum (
      wi_assert-Ends s.mutable (λ _.
        wi_assert_both (leb location s.length) (leb (location + n) s.length) (λ e f.
          let inside : location + n ≤ length xs = ground (arith, f, h.length_is) in
          let few : word_sub (word_sub s.length location) n ≡ length xs - location - n =
            omega (arith, inside, small, h.length_is) in
          let left : word_sub s.length n ≡ length xs - n =
            omega (arith, inside, small, h.length_is) in
          let (m, moved, placed) = delete-Starts s xs location n h inside in
          rw (few, left, h.length_is)
            (Ends-bind _ m moved (
              Ends-cast refl (has_room inside) refl (λ t p. p)
                (terminate-Ends _ (without xs location n) placed
                  (sym (length-without xs location n inside))))))))
  where
    has_room : location + n ≤ length xs → ltb (length (without xs location n)) s.capacity ≡ true
    has_room inside = ground (arith, length-without xs location n inside, Holds-room s h)
