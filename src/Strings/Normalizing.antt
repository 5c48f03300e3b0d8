-- ===== src/Strings/Normalizing.antt =====
-- What the loop of `wi_mutable_string_normalize_path` of libwired/data/wi-string.c makes of the
-- components of a path.
use libwired.Base.{
  ℕ, suc, ◌+◌, ◌-◌, ◌<◌, ◌≡◌, ◌≢◌, refl, ap, Bool, true, false, ◌&&◌, ◌||◌, List, [], ◌∷◌, ◌++◌,
  some, length, get_elem?, remove_at, ltb, ◌==◌, if◌then◌else◌, arith, length-append,
  length-replicate, replicate,
}
use libwired.Strings.State.{String}
use libwired.Strings.Paths.{constant_string, slash, normalize_components}
use libwired.Strings.Holds.{Holds}
use libwired.Strings.Appending.{NulFree}
use libwired.Strings.Equality.{same_bytes, is_equal-same}

-- A component that the path loses: one with no bytes, `/` or `.`
unfoldable pub is_idle : List ℕ → Bool
is_idle xs = length xs == 0 || (same_bytes xs (47 ∷ []) || same_bytes xs (46 ∷ []))

unfoldable pub is_parent : List ℕ → Bool
is_parent xs = same_bytes xs (46 ∷ 46 ∷ [])

-- The components in order, on a stack: an idle one is left out, and in an absolute path `..` takes
-- the top away, if there is one.
unfoldable pub resolve : Bool → List (List ℕ) → List (List ℕ) → List (List ℕ)
resolve absolute stack [] = stack
resolve absolute [] (name ∷ names) =
    let kept = resolve absolute (name ∷ []) names in
    let left = resolve absolute [] names in if is_idle name then left else kept
resolve absolute (top ∷ stack) (name ∷ names) =
    let kept = resolve absolute (name ∷ top ∷ stack) names in
    let left = resolve absolute (top ∷ stack) names in
    let popped = resolve absolute stack names in
    if is_idle name then left else if absolute && is_parent name then popped else kept

-- The top of the stack is the last.
abbrev pub bottom_up {ℓ} : {A : Type ℓ} → List A → List A
bottom_up [] = []
bottom_up (x ∷ xs) = bottom_up xs ++ x ∷ []

pub length-bottom_up {ℓ} : {A : Type ℓ} (xs : List A) → length (bottom_up xs) ≡ length xs
length-bottom_up [] = refl
length-bottom_up (x ∷ xs) =
    omega (arith, length-append (bottom_up xs) (x ∷ []), length-bottom_up xs)

pub get_elem?-behind {ℓ} :
    {A : Type ℓ} (xs : List A) (z : A) (rest : List A)
    → get_elem? (xs ++ z ∷ rest) (length xs) ≡ some z
get_elem?-behind [] z rest = refl
get_elem?-behind (x ∷ xs) z rest = get_elem?-behind xs z rest

pub remove_at-behind {ℓ} :
    {A : Type ℓ} (xs : List A) (z : A) (rest : List A)
    → remove_at (xs ++ z ∷ rest) (length xs) ≡ xs ++ rest
remove_at-behind [] z rest = refl
remove_at-behind (x ∷ xs) z rest = ap (λ l. x ∷ l) (remove_at-behind xs z rest)

pub constant-Holds : (bs : List ℕ) → length bs < 256 → Holds (constant_string bs) bs
constant-Holds bs short =
    let e : 256 - length bs ≡ suc (255 - length bs) = omega (arith, short) in
    record {
      spare = replicate (255 - length bs) 0;
      string_is = ap (λ k. bs ++ replicate k 0) e;
      length_is = refl;
      capacity_is = omega (
        arith,
        short,
        length-append bs (replicate (256 - length bs) 0),
        length-replicate {A = ℕ} (256 - length bs) 0,
      );
    }

-- One round at index `i`
pub normalize_components_round :
    (absolute : Bool) (fuel i : ℕ) (array : List String) (x : String) {xs : List ℕ}
    → get_elem? array i ≡ some x
    → Holds x xs
    → NulFree xs
    → normalize_components absolute (suc fuel) i array ≡ elim (is_idle xs) [
      | true ↦ normalize_components absolute fuel i (remove_at array i)
      | false ↦ elim (absolute && (is_parent xs && ltb 0 i)) [
        | true ↦
            normalize_components absolute fuel (i - 1) (remove_at (remove_at array (i - 1)) (i - 1))
        | false ↦ normalize_components absolute fuel (i + 1) array
      ]
    ]
unfolding normalize_components is_idle is_parent
normalize_components_round absolute fuel i array x {xs} found h clean =
    let slash_byte : ◌≢◌ {A = ℕ} 47 0 = omega arith in
    let dot : ◌≢◌ {A = ℕ} 46 0 = omega arith in
    let root =
      is_equal-same x slash h (constant-Holds (47 ∷ []) (omega arith)) clean (slash_byte, tt) in
    let current =
      is_equal-same x (constant_string (46 ∷ [])) h (constant-Holds (46 ∷ []) (omega arith)) clean
        (dot, tt) in
    let parent =
      is_equal-same x (constant_string (46 ∷ 46 ∷ [])) h
        (constant-Holds (46 ∷ 46 ∷ []) (omega arith)) clean (dot, (dot, tt)) in
    rw (normalize_components, found, root, current, parent, h.length_is) refl

pub resolve-idle :
    (absolute : Bool) (tops : List (List ℕ)) (name : List ℕ) (names : List (List ℕ))
    → is_idle name ≡ true
    → resolve absolute tops (name ∷ names) ≡ resolve absolute tops names
unfolding resolve
resolve-idle absolute [] name names e = rw e refl
resolve-idle absolute (top ∷ stack) name names e = rw e refl

pub resolve-parent :
    (absolute : Bool) (top : List ℕ) (stack : List (List ℕ)) (name : List ℕ) (names : List (List ℕ))
    → is_idle name ≡ false
    → (absolute && is_parent name) ≡ true
    → resolve absolute (top ∷ stack) (name ∷ names) ≡ resolve absolute stack names
unfolding resolve
resolve-parent absolute top stack name names e f = rw (e, f) refl

pub resolve-kept :
    (absolute : Bool) (tops : List (List ℕ)) (name : List ℕ) (names : List (List ℕ))
    → is_idle name ≡ false
    → (absolute && is_parent name) ≡ false
    → resolve absolute tops (name ∷ names) ≡ resolve absolute (name ∷ tops) names
unfolding resolve
resolve-kept absolute [] name names e f = rw e refl
resolve-kept absolute (top ∷ stack) name names e f = rw (e, f) refl

pub resolve-bottom :
    (absolute : Bool) (name : List ℕ) (names : List (List ℕ))
    → is_idle name ≡ false
    → resolve absolute [] (name ∷ names) ≡ resolve absolute (name ∷ []) names
unfolding resolve
resolve-bottom absolute name names e = rw e refl
