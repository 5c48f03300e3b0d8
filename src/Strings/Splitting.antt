-- ===== src/Strings/Splitting.antt =====
-- Taking a string apart and joining the parts, `wi_string_components_separated_by_string` of
-- libwired/data/wi-string.c and `wi_array_components_joined_by_string` of
-- libwired/collections/wi-array.c.
use mathlib.Core.Path.{subst}
use libwired.Base.{
  ℕ, zero, suc, ◌+◌, ◌<◌, ◌≡◌, ◌≢◌, refl, sym, ap, ◌∙◌, true, false, List, [], ◌∷◌, ◌++◌, All,
  All-append, none, some, length, arith, Option-cases, inl, inr, Returns, Ends-Returns,
  length-append, append_assoc, append-nil,
}
use libwired.Strings.State.{String, init, make_immutable, init_with_utf8_string}
use libwired.Strings.Edit.{append_string}
use libwired.Strings.Search.{Compat, separate, components_separated_by_string}
use libwired.Strings.Paths.{append_joined, components_joined_by_string}
use libwired.Strings.Holds.{Holds, HoldsAs, Holds-cast}
use libwired.Strings.Appending.{
  NulFree, c_string-Holds, init_with_utf8_string-Holds, append_string-Holds, init-Holds,
}
use libwired.Strings.Overflow.{short_fits, short_append_fits}

-- What `strsep` documents, for one delimiter: the token goes up to the first delimiter, or is all.
pub record Strsep (c : Compat) (delimiter : ℕ) : Type 0 where
  pub token_end : (s : List ℕ) → All (λ b. b ≢ delimiter) (c.strsep s (delimiter ∷ [])).0
  pub all_taken :
      (s : List ℕ) → (c.strsep s (delimiter ∷ [])).1 ≡ none → s ≡ (c.strsep s (delimiter ∷ [])).0
  pub rest_left :
      (s rest : List ℕ)
      → (c.strsep s (delimiter ∷ [])).1 ≡ some rest
      → s ≡ (c.strsep s (delimiter ∷ [])).0 ++ delimiter ∷ rest

-- The strings hold the names, one each, with no NUL.
pub data AllHold : List String → List (List ℕ) → Type 0 where
  nothing : AllHold [] []
  more :
      (s : String) (xs : List ℕ) (strings : List String) (names : List (List ℕ))
      → Holds s xs
      → NulFree xs
      → AllHold strings names
      → AllHold (s ∷ strings) (xs ∷ names)

-- The names with a byte between each two
unfoldable pub join : ℕ → List (List ℕ) → List ℕ
join d [] = []
join d (xs ∷ []) = xs
join d (xs ∷ ys ∷ names) = xs ++ d ∷ join d (ys ∷ names)

new_component :
    (junk token : List ℕ)
    → length token < 511
    → NulFree token
    → Returns
        (init_with_utf8_string junk false (token ++ 0 ∷ []))
        (λ s. Holds s token × s.mutable ≡ false)
new_component junk token short clean =
    Ends-Returns refl (short_fits (length token) short)
      (init_with_utf8_string-Holds junk false token [] clean (omega (arith, short)))

-- The loop ends, and the parts that it makes join to the bytes.
separate-Holds :
    (junk : List ℕ) (c : Compat) (d : ℕ)
    → Strsep c d
    → (fuel : ℕ) (rest : List ℕ) → length rest < fuel
    → length rest < 511
    → NulFree rest
    → Returns (separate junk c (d ∷ []) fuel rest) (λ strings.
      (first : List ℕ) × (names : List (List ℕ)) × AllHold strings (first ∷ names)
      × (join d (first ∷ names) ≡ rest)
      × All (λ xs. All (λ b. b ≢ d) xs) (first ∷ names))
unfolding separate join
separate-Holds junk c d law zero rest enough short free = absurd (omega arith)
separate-Holds junk c d law (suc fuel) rest enough short free =
    let token = (c.strsep rest (d ∷ [])).0 in
    elim (Option-cases (c.strsep rest (d ∷ [])).1) [
      | inl e ↦
          let all = law.all_taken rest e in
          let (s, made, (holds, _)) =
            new_component junk token (omega (arith, ap length all, short))
              (subst NulFree all free) in
          let clean = subst NulFree all free in
          rw (made, e)
            (
              s ∷ [],
              refl,
              (
                token,
                [],
                more s token [] [] holds clean nothing,
                sym all,
                (law.token_end rest, tt),
              ),
            )
      | inr (left, e) ↦
          let split = law.rest_left rest left e in
          let count = length-append token (d ∷ left) ∙ refl in
          let (clean, clean_rest) = All-append _ token (d ∷ left) (subst NulFree split free) in
          let (s, made, (holds, _)) =
            new_component junk token (omega (arith, ap length split, count, short)) clean in
          let (strings, ran, (first, names, hold, joined, others)) =
            separate-Holds junk c d law fuel left (omega (arith, ap length split, count, enough))
              (omega (arith, ap length split, count, short)) clean_rest.1 in
          rw (made, e, ran)
            (
              s ∷ strings,
              refl,
              (
                token,
                first ∷ names,
                more s token strings (first ∷ names) holds clean hold,
                ap (λ l. token ++ d ∷ l) joined ∙ sym split,
                (law.token_end rest, others),
              ),
            )
    ]

pub short_append :
    (junk : List ℕ) (s other : String) (xs ys : List ℕ)
    → Holds s xs
    → Holds other ys
    → NulFree ys
    → s.mutable ≡ true
    → length xs + length ys < 511
    → Returns (append_string junk s other) (HoldsAs s (xs ++ ys))
short_append junk s other xs ys h k clean open_ short =
    Ends-Returns open_ (short_append_fits s (length ys) (omega (arith, h.length_is, short)))
      (append_string-Holds junk s other h k clean (omega (arith, short)))

-- Joining strings appends their bytes, with the separator between each two.
append_joined-Holds :
    (junk : List ℕ) (d : ℕ) (separator : String)
    → Holds separator (d ∷ [])
    → d ≢ 0
    → {strings : List String} {names : List (List ℕ)} → AllHold strings names
    → (s : String) (xs : List ℕ) → Holds s xs
    → s.mutable ≡ true
    → length xs + length (join d names) < 511
    → Returns (append_joined junk s strings separator) (λ t. Holds t (xs ++ join d names))
unfolding append_joined join
append_joined-Holds junk d separator k real nothing s xs h open_ short =
    (s, refl, Holds-cast (sym (append-nil xs)) h)
append_joined-Holds junk d separator k real (more x ys strings names holds clean nothing) s xs h
      open_ short =
    let (t, ran, after) = short_append junk s x xs ys h holds clean open_ short in (t, ran, after.0)
append_joined-Holds junk d separator k real
      (more x ys _ _ holds clean (more z zs strings names holds_z clean_z last)) s xs h open_
      short =
    let left = join d (zs ∷ names) in
    let count = length-append ys (d ∷ left) in
    let (t, ran, (held, same)) =
      short_append junk s x xs ys h holds clean open_ (omega (arith, short, count)) in
    let so_far = length-append xs ys in
    let (u, ran_u, (held_u, same_u)) =
      short_append junk t separator (xs ++ ys) (d ∷ []) held k (real, tt) (same ∙ open_)
        (omega (arith, short, count, so_far)) in
    let (v, ran_v, held_v) =
      append_joined-Holds junk d separator k real (more z zs strings names holds_z clean_z last) u
        (xs ++ ys ++ d ∷ []) held_u (same_u ∙ same ∙ open_)
        (omega (arith, short, count, so_far, length-append (xs ++ ys) (d ∷ []))) in
    let content : xs ++ ys ++ d ∷ [] ++ left ≡ xs ++ (ys ++ d ∷ left) =
      append_assoc (xs ++ ys) (d ∷ []) left ∙ append_assoc xs ys (d ∷ left) in
    rw (ran, ran_u, ran_v) (v, refl, Holds-cast content held_v)

-- Joining strings gives their bytes, with the separator between each two.
pub components_joined_by_string-Holds :
    (junk : List ℕ) (d : ℕ) (separator : String)
    → Holds separator (d ∷ [])
    → d ≢ 0
    → {strings : List String} {names : List (List ℕ)} → AllHold strings names
    → length (join d names) < 511
    → Returns (components_joined_by_string junk strings separator) (λ t. Holds t (join d names))
unfolding components_joined_by_string init
components_joined_by_string-Holds junk d separator k real {strings} {names} all short =
    let (t, ran, held) =
      append_joined-Holds junk d separator k real all (init true) [] (init-Holds true 0) refl
        (omega (arith, short)) in
    rw ran (
      make_immutable t,
      refl,
      record {
        spare = held.spare;
        string_is = held.string_is;
        length_is = held.length_is;
        capacity_is = held.capacity_is;
      },
    )

-- With a `strsep` that does what is documented, a string with no NUL inside and fewer than 511 bytes
-- is taken apart at each separator, a byte that is not the NUL: there is at least one part, the parts
-- hold bytes with no separator in them, which give the bytes of the string with a separator between
-- each two; and joining the parts with the separator gives a string of the same bytes.
pub split_join :
    (junk : List ℕ) (c : Compat) (d : ℕ) (s separator : String) {xs : List ℕ}
    → Strsep c d
    → Holds s xs
    → Holds separator (d ∷ [])
    → NulFree xs
    → d ≢ 0
    → length xs < 511
    → Returns (components_separated_by_string junk c s separator) (λ parts.
      (first : List ℕ) × (names : List (List ℕ)) × AllHold parts (first ∷ names)
      × All (λ ys. All (λ b. b ≢ d) ys) (first ∷ names)
      × (join d (first ∷ names) ≡ xs)
      × Returns (components_joined_by_string junk parts separator) (λ t. Holds t xs))
unfolding components_separated_by_string
split_join junk c d s separator {xs} law h k clean real short =
    let (parts, ran, (first, names, all, joined, free)) =
      separate-Holds junk c d law (suc (length xs)) xs (omega arith) short clean in
    let (t, ran_t, held) =
      components_joined_by_string-Holds junk d separator k real all
        (omega (arith, ap length joined, short)) in
    rw (c_string-Holds s h clean, c_string-Holds separator k (real, tt), ran)
      (parts, refl, (first, names, all, free, joined, (t, ran_t, Holds-cast joined held)))
