-- ===== src/Strings/Replacement.antt =====
-- What a string holds after `wi_mutable_string_replace_characters_in_range_with_string` of
-- libwired/data/wi-string.c.
use libwired.Base.{
  ℕ, ◌+◌, ◌-◌, ◌≤◌, ◌<◌, ◌≡◌, refl, sym, ap, ◌∙◌, List, ◌++◌, length, take, drop, leb, true, ◌&&◌,
  arith, length-append, length-take, Ends, Ends-Returns, Ends-cast, Ends-bind, wi_assert-Ends,
  wi_assert_both,
}
use libwired.Memory.Laws.{drop-append_more, take-append, length-drop}
use libwired.Strings.State.{String, word_add}
use libwired.Strings.Edit.{insert_string_at_index, replace_characters_in_range}
use libwired.Strings.Holds.{Holds, HoldsAs, Holds-cast}
use libwired.Strings.Insertion.{insert_fits, inserted, insert_string_at_index-Holds}
use libwired.Strings.Deletion.{without, length-without, delete_characters_in_range-Holds}

-- A replacement does what an insertion does behind the deletion.
replaced_by :
    (junk : List ℕ) (s other : String) (location n : ℕ) {xs ys : List ℕ}
    → Holds s xs
    → Holds other ys
    → length xs < 18446744073709551616
    → location + n < 18446744073709551616
    → ((t : String)
        → Holds t (without xs location n)
        → Ends
            (t.mutable && leb location t.length)
            (insert_fits t.capacity t.length location other.length)
            (insert_string_at_index junk t other location)
            (HoldsAs t (
              take location (without xs location n)
              ++ ys
              ++ drop location (without xs location n))))
    → Ends
        (s.mutable && (leb location s.length && leb (location + n) s.length))
        (insert_fits s.capacity (length xs - n) location (length ys))
        (replace_characters_in_range junk s location n other)
        (HoldsAs s (take location xs ++ ys ++ drop (location + n) xs))
unfolding replace_characters_in_range
replaced_by junk s other location n {xs} {ys} h k small range insertion =
    let sum : word_add location n ≡ location + n = omega (arith, range) in
    let wrapped = ap (λ end. s.mutable && (leb location s.length && leb end s.length)) sum in
    Ends-cast wrapped refl refl (λ t p. p)
      (wi_assert-Ends s.mutable (λ open_.
        wi_assert_both (leb location s.length) (leb (word_add location n) s.length) (λ e f.
          let inside : location + n ≤ length xs = ground (arith, f, sum, h.length_is) in
          let (t, ran, after) =
            Ends-Returns (rw (open_, e) (ground (arith, inside, h.length_is))) refl
              (delete_characters_in_range-Holds s location n h small range) in
          let holds = after.0.0 in
          let same = after.0.1 in
          let size = after.1 in
          let count : t.length ≡ length xs - n =
            holds.length_is ∙ length-without xs location n inside in
          let below : leb location t.length ≡ true = ground (arith, count, inside) in
          let guard : t.mutable && leb location t.length ≡ true =
            ap (λ b. b && leb location t.length) (same ∙ open_) ∙ below in
          let a_length : length (take location xs) ≡ location =
            omega (arith, length-take location xs, inside) in
          let a_end : location ≡ length (take location xs) + 0 = omega (arith, a_length) in
          let front : take location (without xs location n) ≡ take location xs =
            ap (λ k. take k (without xs location n)) (sym a_length)
            ∙ take-append (take location xs) (drop (location + n) xs) in
          let back : drop location (without xs location n) ≡ drop (location + n) xs =
            ap (λ k. drop k (without xs location n)) a_end
            ∙ drop-append_more 0 (take location xs) (drop (location + n) xs) in
          let content =
            ap (λ l. l ++ ys ++ drop location (without xs location n)) front
            ∙ ap (λ l. take location xs ++ ys ++ l) back in
          Ends-bind _ t ran (
            Ends-cast guard (rw (size, count, k.length_is) refl) refl
              (λ v p. (Holds-cast content p.0, p.1 ∙ same)) (insertion t holds)))))

-- What a replacement does, whether or not the shift of `wi_exp2m1` stays in an `int`.
pub replaced :
    (junk : List ℕ) (s other : String) (location n : ℕ) {xs ys : List ℕ}
    → Holds s xs
    → Holds other ys
    → length xs < 18446744073709551616
    → location + n < 18446744073709551616
    → Ends
        (s.mutable && (leb location s.length && leb (location + n) s.length))
        (insert_fits s.capacity (length xs - n) location (length ys))
        (replace_characters_in_range junk s location n other)
        (HoldsAs s (take location xs ++ ys ++ drop (location + n) xs))
replaced junk s other location n h k small range =
    replaced_by junk s other location n h k small range
      (λ t held. inserted junk t other location held k)

-- On a string that holds some bytes, the replacement puts the bytes of another string in the place of
-- the range, if the string is mutable and the range, which does not wrap around, is within it, and the
-- insertion stays in the block; if one of the first two fails, an assertion fails, and otherwise the
-- call makes a bad access. The lengths add up to less than 2 ^ 30.
pub replace_characters_in_range-Holds :
    (junk : List ℕ) (s other : String) (location n : ℕ) {xs ys : List ℕ}
    → Holds s xs
    → Holds other ys
    → length xs + length ys < 1073741824
    → location + n < 18446744073709551616
    → Ends
        (s.mutable && (leb location s.length && leb (location + n) s.length))
        (insert_fits s.capacity (length xs - n) location (length ys))
        (replace_characters_in_range junk s location n other)
        (HoldsAs s (take location xs ++ ys ++ drop (location + n) xs))
replace_characters_in_range-Holds junk s other location n {xs} {ys} h k small range =
    let shorter : length (without xs location n) ≤ length xs = omega (
      arith,
      length-append (take location xs) (drop (location + n) xs),
      length-take location xs,
      length-drop (location + n) xs,
    ) in
    replaced_by junk s other location n h k (omega (arith, small)) range (λ t held.
      insert_string_at_index-Holds junk t other location held k (omega (arith, small, shorter)))
