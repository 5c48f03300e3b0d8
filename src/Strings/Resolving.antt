-- ===== src/Strings/Resolving.antt =====
-- The loop of `wi_mutable_string_normalize_path` of libwired/data/wi-string.c leaves the components
-- that a stack keeps.
use mathlib.Core.Path.{subst}
use libwired.Base.{
  ℕ, zero, suc, ◌+◌, ◌-◌, ◌<◌, ◌≡◌, refl, sym, ap, ◌∙◌, Bool, true, false, ◌&&◌, List, [], ◌∷◌,
  ◌++◌, All, none, length, get_elem?, get_elem?-none, remove_at, ltb, ok, arith, Bool-cases, inl,
  inr, length-append, append_assoc, append-nil, Returns,
}
use libwired.Strings.State.{String}
use libwired.Strings.Paths.{normalize_components}
use libwired.Strings.Holds.{Holds}
use libwired.Strings.Appending.{NulFree}
use libwired.Strings.Splitting.{AllHold}
use libwired.Strings.Normalizing.{
  is_idle, is_parent, resolve, bottom_up, length-bottom_up, get_elem?-behind, remove_at-behind,
  normalize_components_round, resolve-idle, resolve-parent, resolve-kept, resolve-bottom,
}

-- A round at the first string behind a stack
module _ (absolute : Bool) (fuel : ℕ) (stack strings : List String) (x : String) {xs : List ℕ}
    (holds : Holds x xs) (clean : NulFree xs) where
  at_stack :
      normalize_components absolute (suc fuel) (length stack) (bottom_up stack ++ x ∷ strings)
      ≡ elim (is_idle xs) [
        | true ↦
            normalize_components absolute fuel
              (length stack)
              (remove_at (bottom_up stack ++ x ∷ strings) (length stack))
        | false ↦ elim (absolute && (is_parent xs && ltb 0 (length stack))) [
          | true ↦ normalize_components absolute fuel (length stack - 1) (
              remove_at
                (remove_at (bottom_up stack ++ x ∷ strings) (length stack - 1))
                (length stack - 1))
          | false ↦
              normalize_components absolute fuel (length stack + 1) (bottom_up stack ++ x ∷ strings)
        ]
      ]
  at_stack =
      normalize_components_round absolute fuel (length stack) (bottom_up stack ++ x ∷ strings) x
        (ap (λ i. get_elem? (bottom_up stack ++ x ∷ strings) i) (sym (length-bottom_up stack))
          ∙ get_elem?-behind (bottom_up stack) x strings)
        holds clean

  round_dropped :
      is_idle xs ≡ true
      → normalize_components absolute (suc fuel) (length stack) (bottom_up stack ++ x ∷ strings)
        ≡ normalize_components absolute fuel (length stack) (bottom_up stack ++ strings)
  round_dropped e =
      let removed : remove_at (bottom_up stack ++ x ∷ strings) (length stack)
          ≡ bottom_up stack ++ strings =
        ap (λ i. remove_at (bottom_up stack ++ x ∷ strings) i) (sym (length-bottom_up stack))
        ∙ remove_at-behind (bottom_up stack) x strings in
      at_stack ∙ rw (e, removed) refl

  round_pushed :
      is_idle xs ≡ false
      → (absolute && (is_parent xs && ltb 0 (length stack))) ≡ false
      → normalize_components absolute (suc fuel) (length stack) (bottom_up stack ++ x ∷ strings)
        ≡ normalize_components absolute fuel (length (x ∷ stack)) (bottom_up (x ∷ stack) ++ strings)
  round_pushed e f =
      let next : length stack + 1 ≡ suc (length stack) = omega arith in
      at_stack
      ∙ rw (e, f, next)
          (ap (λ l. normalize_components absolute fuel (suc (length stack)) l)
            (sym (append_assoc (bottom_up stack) (x ∷ []) strings)))

round_popped :
    (absolute : Bool) (fuel : ℕ) (y : String) (stack strings : List String) (x : String)
    {xs : List ℕ}
    → Holds x xs
    → NulFree xs
    → is_idle xs ≡ false
    → (absolute && is_parent xs) ≡ true
    → normalize_components absolute
        (suc fuel)
        (length (y ∷ stack))
        (bottom_up (y ∷ stack) ++ x ∷ strings)
      ≡ normalize_components absolute fuel (length stack) (bottom_up stack ++ strings)
round_popped absolute fuel y stack strings x {xs} holds clean e f =
    let below : suc (length stack) - 1 ≡ length stack = omega arith in
    let any : ltb 0 (suc (length stack)) ≡ true = ground arith in
    let guard : (absolute && (is_parent xs && true)) ≡ true = and_true absolute (is_parent xs) f in
    let first : remove_at (bottom_up (y ∷ stack) ++ x ∷ strings) (length stack)
        ≡ bottom_up stack ++ x ∷ strings =
      ap (λ l. remove_at l (length stack)) (append_assoc (bottom_up stack) (y ∷ []) (x ∷ strings))
      ∙ removed (y) (x ∷ strings) in
    at_stack absolute fuel (y ∷ stack) strings x holds clean
    ∙ rw (e, any, guard, below, first, removed x strings) refl
  where
    removed :
        (z : String) (rest : List String)
        → remove_at (bottom_up stack ++ z ∷ rest) (length stack) ≡ bottom_up stack ++ rest
    removed z rest =
        ap (λ i. remove_at (bottom_up stack ++ z ∷ rest) i) (sym (length-bottom_up stack))
        ∙ remove_at-behind (bottom_up stack) z rest

    and_true : (a b : Bool) → (a && b) ≡ true → (a && (b && true)) ≡ true
    and_true true true h = refl
    and_true true false h = h
    and_true false b h = h

-- The loop from a stack on, over what is behind it, ends in what `resolve` says.
abbrev Resolves : Bool → ℕ → List String → List (List ℕ) → List String → List (List ℕ) → Type 0
Resolves absolute fuel strings names stack tops =
    (left : List String) × (normalize_components absolute fuel (length stack)
        (bottom_up stack ++ strings)
      ≡ ok (bottom_up left))
    × AllHold left (resolve absolute tops names)

parent_step :
    (absolute : Bool) (fuel : ℕ) (x : String) {xs : List ℕ} (strings : List String)
    (names : List (List ℕ))
    → Holds x xs
    → NulFree xs
    → is_idle xs ≡ false
    → (absolute && is_parent xs) ≡ true
    → ((stack : List String) (tops : List (List ℕ))
        → AllHold stack tops
        → Resolves absolute fuel strings names stack tops)
    → {stack : List String} {tops : List (List ℕ)} → AllHold stack tops
    → Resolves absolute (suc fuel) (x ∷ strings) (xs ∷ names) stack tops
parent_step absolute fuel x {xs} strings names holds clean e f next AllHold.nothing =
    let (left, ran, hold) =
      next (x ∷ []) (xs ∷ []) (AllHold.more x xs [] [] holds clean AllHold.nothing) in
    (
      left,
      round_pushed absolute fuel [] strings x holds clean e (alone absolute (is_parent xs)) ∙ ran,
      subst (AllHold left) (sym (resolve-bottom absolute xs names e)) hold,
    )
  where
    alone : (a b : Bool) → (a && (b && false)) ≡ false
    alone true true = refl
    alone true false = refl
    alone false b = refl
parent_step absolute fuel x {xs} strings names holds clean e f next
      (AllHold.more y ys stack tops _ _ below) =
    let (left, ran, hold) = next stack tops below in
    (
      left,
      round_popped absolute fuel y stack strings x holds clean e f ∙ ran,
      subst (AllHold left) (sym (resolve-parent absolute ys tops xs names e f)) hold,
    )

-- The strings of a stack, and the rest of the array behind it
normalize_components-resolve :
    (absolute : Bool) (fuel : ℕ) {strings : List String} {names : List (List ℕ)}
    → (stack : List String) (tops : List (List ℕ)) → AllHold stack tops
    → AllHold strings names
    → length strings < fuel
    → Resolves absolute fuel strings names stack tops
unfolding normalize_components resolve
normalize_components-resolve absolute zero stack tops s h enough = absurd (omega arith)
normalize_components-resolve absolute (suc fuel) stack tops s AllHold.nothing enough =
    let ended : get_elem? (bottom_up stack ++ []) (length stack) ≡ none =
      get_elem?-none (bottom_up stack ++ []) (length stack)
        (omega (arith, length-append (bottom_up stack) [], length-bottom_up stack)) in
    (stack, rw (normalize_components, ended) (ap ok (append-nil (bottom_up stack))), s)
normalize_components-resolve absolute (suc fuel) stack tops s
      (AllHold.more x xs strings names holds clean others) enough =
    let fewer : length strings < fuel = omega (arith, enough) in
    elim (Bool-cases (is_idle xs)) [
      | inl e ↦
          let (left, ran, hold) =
            normalize_components-resolve absolute fuel stack tops s others fewer in
          (
            left,
            round_dropped absolute fuel stack strings x holds clean e ∙ ran,
            subst (AllHold left) (sym (resolve-idle absolute tops xs names e)) hold,
          )
      | inr e ↦
          let (left, ran, hold) =
            normalize_components-resolve absolute fuel (x ∷ stack) (xs ∷ tops)
              (AllHold.more x xs stack tops holds clean s) others fewer in
          elim (Bool-cases (absolute && is_parent xs)) [
            | inl f ↦
                parent_step absolute fuel x strings names holds clean e f
                  (λ st tp q. normalize_components-resolve absolute fuel st tp q others fewer) s
            | inr f ↦ (
              left,
              round_pushed absolute fuel stack strings x holds clean e
                    (no_parent _ absolute (is_parent xs) f)
                  ∙ ran,
              subst (AllHold left) (sym (resolve-kept absolute tops xs names e f)) hold,
            )
          ]
    ]
  where
    no_parent : (c a b : Bool) → (a && b) ≡ false → (a && (b && c)) ≡ false
    no_parent c true false h = refl
    no_parent c true true h = cc
    no_parent c false b h = refl

AllHold-append :
    {strings others : List String} {names more_names : List (List ℕ)}
    → AllHold strings names
    → AllHold others more_names
    → AllHold (strings ++ others) (names ++ more_names)
AllHold-append AllHold.nothing k = k
AllHold-append (AllHold.more x xs strings names h clean rest) k =
    AllHold.more x xs _ _ h clean (AllHold-append rest k)

AllHold-bottom_up :
    {strings : List String} {names : List (List ℕ)}
    → AllHold strings names
    → AllHold (bottom_up strings) (bottom_up names)
AllHold-bottom_up AllHold.nothing = AllHold.nothing
AllHold-bottom_up (AllHold.more x xs strings names h clean rest) =
    AllHold-append (AllHold-bottom_up rest) (AllHold.more x xs [] [] h clean AllHold.nothing)

-- The loop ends, and leaves strings that hold what the stack keeps, in order.
pub normalize_components-Holds :
    (absolute : Bool) (strings : List String) (names : List (List ℕ))
    → AllHold strings names
    → Returns
        (normalize_components absolute (suc (length strings)) 0 strings)
        (λ left. AllHold left (bottom_up (resolve absolute [] names)))
normalize_components-Holds absolute strings names all =
    let (left, ran, hold) =
      normalize_components-resolve absolute (suc (length strings)) [] [] AllHold.nothing all
        (omega arith) in
    (bottom_up left, ran, AllHold-bottom_up hold)

-- What is left has no component that is idle.
pub resolve_busy :
    (absolute : Bool) (tops names : List (List ℕ))
    → All (λ xs. is_idle xs ≡ false) tops
    → All (λ xs. is_idle xs ≡ false) (resolve absolute tops names)
unfolding resolve
resolve_busy absolute tops [] h = h
resolve_busy absolute [] (name ∷ names) h = elim (Bool-cases (is_idle name)) [
  | inl e ↦ rw e (resolve_busy absolute [] names h)
  | inr e ↦ rw e (resolve_busy absolute (name ∷ []) names (e, h))
]
resolve_busy absolute (top ∷ stack) (name ∷ names) h = elim (Bool-cases (is_idle name)) [
  | inl e ↦ rw e (resolve_busy absolute (top ∷ stack) names h)
  | inr e ↦ elim (Bool-cases (absolute && is_parent name)) [
    | inl f ↦ rw (e, f) (resolve_busy absolute stack names h.1)
    | inr f ↦ rw (e, f) (resolve_busy absolute (name ∷ top ∷ stack) names (e, h))
  ]
]
