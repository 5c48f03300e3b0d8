-- ===== src/Strings/Substitution.antt =====
-- Replacing every occurrence, `wi_mutable_string_replace_string_with_string` of
-- libwired/data/wi-string.c.
use native.Mathlib.Nat.{mul-le-mul_right, suc-mul}
use mathlib.Core.Path.{subst}
use libwired.Base.{
  ℕ, zero, suc, ◌+◌, ◌-◌, ◌*◌, ◌≤◌, ◌<◌, ◌≡◌, ◌≢◌, refl, sym, ap, ◌∙◌, Bool, true, false, List,
  ◌++◌, Option, none, some, length, take, drop, leb, ltb, ◌==◌, Run, ok, bad_access, ◌>>=◌, ◌>>◌,
  arith, Bool-cases, Option-cases, inl, inr, returns, fails, overruns, length-append, length-take,
  bind-ok, bind-bad_access, bind-failed, assert_failed, wi_assert,
}
use libwired.Memory.Laws.{length-drop}
use libwired.Strings.State.{
  String, word_add, word_sub, assert_mutable, mutable_copy, make_immutable,
}
use libwired.Strings.Edit.{replace_characters_in_range}
use libwired.Strings.Search.{
  Compat, Options, Range, not_found, range_of_string_in_range, index_of_string_in_range,
  is_insensitive,
}
use libwired.Strings.Holds.{Holds}
use libwired.Strings.Replacement.{replaced}

-- The loop, on fuel, from a search range on: without a result when the fuel is used up.
unfoldable pub replace_rounds :
    List ℕ → Compat → String → String → Options → ℕ → String → ℕ → ℕ → Run (Option String)
replace_rounds junk c target replacement options zero s location n = ok none
replace_rounds junk c target replacement options (suc fuel) s location n = do
  range ← range_of_string_in_range c s target options location n
  elim (range.location == not_found) [
    | true ↦ ok (some s)
    | false ↦ do
      t ← replace_characters_in_range junk s range.location range.length replacement
      let next = word_add range.location replacement.length
      replace_rounds junk c target replacement options fuel t next (word_sub t.length next)
  ]

unfoldable pub replace_string :
    List ℕ → Compat → ℕ → String → String → String → Options → Run (Option String)
unfolding replace_rounds
replace_string junk c fuel s target replacement options = do
  assert_mutable s
  replace_rounds junk c target replacement options fuel s 0 s.length

-- On a copy, which becomes immutable.
unfoldable pub by_replacing_string :
    List ℕ → Compat → ℕ → String → String → String → Options → Run (Option String)
unfolding replace_string
by_replacing_string junk c fuel s target replacement options = do
  t ← mutable_copy junk s
  changed ← replace_string junk c fuel t target replacement options
  ok (elim changed [ some u ↦ some (make_immutable u) | none ↦ none ])

-- What `wi_strnstr` documents of the place that it finds: the match is within the bytes to search.
pub record Strnstr (c : Compat) (target : String) : Type 0 where
  pub within :
      (block : List ℕ) (n d : ℕ) → c.strnstr block target.string n ≡ some d → d + target.length ≤ n

abbrev pub forwards : Options
forwards = record { backwards = false; case_insensitive = false; smart_case_insensitive = false }

-- A round finds nothing, or a range in what is left to search.
pub data Found (location n : ℕ) (target : String) (r : Run Range) : Type 0 where
  no_more : (range : Range) → r ≡ ok range → range.location ≡ not_found → Found location n target r
  next :
      (range : Range)
      → r ≡ ok range
      → range.length ≡ target.length
      → location ≤ range.location
      → range.location + range.length ≤ location + n
      → Found location n target r

range_of_string_in_range-Found :
    (c : Compat) (s target : String) (location n : ℕ)
    → Strnstr c target
    → location + n ≤ s.length
    → location + n < not_found
    → Found location n target (range_of_string_in_range c s target forwards location n)
unfolding range_of_string_in_range index_of_string_in_range is_insensitive
range_of_string_in_range-Found c s target location n law inside small =
    let sum : word_add location n ≡ location + n = omega (arith, small) in
    let start : leb location s.length ≡ true = ground (arith, inside) in
    let end : leb (location + n) s.length ≡ true = ground (arith, inside) in
    elim (Bool-cases (n == 0)) [
      | inl e ↦
          no_more (record { location = not_found; length = 0 }) (rw (sum, start, end, e) refl) refl
      | inr e ↦ elim (Option-cases (c.strnstr (drop location s.string) target.string n)) [
        | inl f ↦
            no_more (record { location = not_found; length = 0 }) (rw (sum, start, end, e, f) refl)
              refl
        | inr (d, f) ↦
            let fit = law.within (drop location s.string) n d f in
            let before : ltb (word_add location n) (location + d) ≡ false =
              ground (arith, sum, fit) in
            let real : (location + d == 9223372036854775807) ≡ false = ground (arith, fit, small) in
            next (record { location = location + d; length = target.length })
              (rw (sum, start, end, e, f, before, real) refl) refl (omega arith)
              (omega (arith, fit))
      ]
    ]

replace_rounds_stop :
    (junk : List ℕ) (c : Compat) (target replacement : String) (fuel : ℕ) (s : String)
    (location n : ℕ) (range : Range)
    → range_of_string_in_range c s target forwards location n ≡ ok range
    → (range.location == not_found) ≡ true
    → replace_rounds junk c target replacement forwards (suc fuel) s location n ≡ ok (some s)
unfolding replace_rounds
replace_rounds_stop junk c target replacement fuel s location n range found test =
    bind-ok _ found ∙ rw test refl

replace_rounds_step :
    (junk : List ℕ) (c : Compat) (target replacement : String) (fuel : ℕ) (s : String)
    (location n : ℕ) (range : Range)
    → range_of_string_in_range c s target forwards location n ≡ ok range
    → (range.location == not_found) ≡ false
    → replace_rounds junk c target replacement forwards (suc fuel) s location n ≡ (
        replace_characters_in_range junk s range.location range.length replacement >>= λ t.
        replace_rounds junk c target replacement forwards fuel t
          (word_add range.location replacement.length)
          (word_sub t.length (word_add range.location replacement.length)))
unfolding replace_rounds
replace_rounds_step junk c target replacement fuel s location n range found test =
    bind-ok _ found ∙ rw test refl

-- The loop is never without a result when its fuel is more than the bytes that are left to search: if
-- the target has a byte, each round leaves fewer.
pub replace_rounds_ends :
    (junk : List ℕ) (c : Compat) (target replacement : String) {zs : List ℕ}
    → Strnstr c target
    → 0 < target.length
    → Holds replacement zs
    → (fuel : ℕ) (s : String) (location n : ℕ) (xs : List ℕ) → Holds s xs
    → location + n ≡ length xs
    → n < fuel
    → length xs + n * length zs + length zs < not_found
    → replace_rounds junk c target replacement forwards fuel s location n ≢ ok none
unfolding replace_rounds
replace_rounds_ends junk c target replacement {zs} law some_byte k zero s location n xs h all enough
      small =
    absurd (omega arith)
replace_rounds_ends junk c target replacement {zs} law some_byte k (suc fuel) s location n xs h all
      enough small =
    elim (range_of_string_in_range-Found c s target location n law (omega (arith, all, h.length_is))
      (omega (arith, all, small))) [
        | no_more range found stop ↦
            let test : (range.location == not_found) ≡ true = ground (arith, stop) in
            let ended =
              replace_rounds_stop junk c target replacement fuel s location n range found test in
            λ e. some_result (sym ended ∙ e)
        | next range found same after within ↦
            let i = range.location in
            let m = range.length in
            let reach : i + m ≤ length xs = omega (arith, within, all) in
            let test : (i == not_found) ≡ false = ground (arith, reach, small) in
            let bytes = take i xs ++ zs ++ drop (i + m) xs in
            let total : length bytes + m ≡ length xs + length zs = omega (
              arith,
              reach,
              length-append (take i xs ++ zs) (drop (i + m) xs),
              length-append (take i xs) zs,
              length-take i xs,
              length-drop (i + m) xs,
            ) in
            let step =
              replace_rounds_step junk c target replacement fuel s location n range found test in
            elim (replaced junk s replacement i m h k (omega (arith, small))
              (omega (arith, reach, small))) [
                | fails _ ran ↦ λ e. failed (sym (step ∙ bind-failed _ ran) ∙ e)
                | overruns _ _ ran ↦ λ e. overrun (sym (step ∙ bind-bad_access _ ran) ∙ e)
                | returns _ _ t ran (holds, _) ↦
                    let left = n - (i + m - location) in
                    let next_place : word_add i replacement.length ≡ i + length zs =
                      omega (arith, k.length_is, reach, small) in
                    let next_left : word_sub t.length (i + length zs) ≡ left =
                      omega (arith, holds.length_is, total, reach, small, all, within, after) in
                    let fewer : suc left ≤ n = omega (arith, same, some_byte, within, after) in
                    let place =
                      ap
                        (λ p.
                          replace_rounds junk c target replacement forwards fuel t p
                            (word_sub t.length p))
                        next_place
                      ∙ ap
                          (replace_rounds junk c target replacement forwards fuel t (i + length zs))
                          next_left in
                    let rest =
                      replace_rounds_ends junk c target replacement law some_byte k fuel t
                        (i + length zs) left bytes holds
                        (omega (arith, total, all, within, after, reach))
                        (omega (arith, enough, fewer))
                        (omega (
                          arith,
                          total,
                          small,
                          mul-le-mul_right (length zs) fewer,
                          suc-mul left (length zs),
                        )) in
                    λ e. rest (sym (step ∙ bind-ok _ ran ∙ place) ∙ e)
              ]
      ]
  where
    some_result : {s : String} → ok (some s) ≢ ok none
    some_result e = cc

    failed : ◌≢◌ {A = Run (Option String)} assert_failed (ok none)
    failed e = cc

    overrun : ◌≢◌ {A = Run (Option String)} bad_access (ok none)
    overrun e = cc

-- With a `strnstr` whose matches are within the bytes to search, and a target of at least one byte,
-- the loop, searching forwards and with case, on fuel of one more than the bytes of the string, never
-- ends because the fuel is used up. The bytes of the string, with those of the replacement once for
-- each of them and once more, are fewer than `WI_NOT_FOUND`.
pub replace_string_ends :
    (junk : List ℕ) (c : Compat) (s target replacement : String) {xs zs : List ℕ}
    → Strnstr c target
    → 0 < target.length
    → Holds s xs
    → Holds replacement zs
    → length xs + length xs * length zs + length zs < not_found
    → replace_string junk c (suc (length xs)) s target replacement forwards ≢ ok none
unfolding replace_string
replace_string_ends junk c s target replacement {xs} {zs} law some_byte h k small =
    by_mutable s.mutable
  where
    rounds :
        replace_rounds junk c target replacement forwards (suc (length xs)) s 0 s.length ≢ ok none
    rounds =
        replace_rounds_ends junk c target replacement law some_byte k (suc (length xs)) s 0 s.length
          xs h (omega (arith, h.length_is)) (omega (arith, h.length_is))
          (subst (λ n. length xs + n * length zs + length zs < not_found) (sym h.length_is) small)

    by_mutable :
        (b : Bool)
        → (wi_assert b
            >> replace_rounds junk c target replacement forwards (suc (length xs)) s 0 s.length)
          ≢ ok none
    by_mutable true = rounds
    by_mutable false = λ e. cc
