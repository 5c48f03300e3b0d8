-- ===== src/Strings/Equality.antt =====
-- What the comparisons of libwired/data/wi-string.c say about the contents.
use Prim.Native.Nat.{Ordering}
use mathlib.Core.Logic.{◌↔◌}
use libwired.Base.{ℕ, ◌≡◌, refl, sym, ap, ◌∙◌, Bool, true, false, List, [], ◌∷◌, ok, arith}
use libwired.Strings.State.{String, strcmp, is_equal, string_compare}
use libwired.Strings.Search.{is_eq}
use libwired.Strings.Holds.{Holds}
use libwired.Strings.Appending.{NulFree, c_string-Holds}

strcmp_refl : (xs : List ℕ) → strcmp xs xs ≡ Ordering.eq
strcmp_refl [] = refl
strcmp_refl (x ∷ xs) = ground (arith, strcmp_refl xs)

strcmp_eq : (xs ys : List ℕ) → strcmp xs ys ≡ Ordering.eq → xs ≡ ys
strcmp_eq [] [] e = refl
strcmp_eq [] (y ∷ ys) e = cc
strcmp_eq (x ∷ xs) [] e = cc
strcmp_eq (x ∷ xs) (y ∷ ys) e =
    let head : x ≡ y = ground arith in
    let tail : strcmp xs ys ≡ Ordering.eq = ground arith in
    ap (λ z. z ∷ xs) head ∙ ap (λ l. y ∷ l) (strcmp_eq xs ys tail)

is_eq-true : (o : Ordering) → is_eq o ≡ true → o ≡ Ordering.eq
is_eq-true Ordering.eq e = refl
is_eq-true Ordering.lt e = cc
is_eq-true Ordering.gt e = cc

-- What `strcmp(...) == 0` tests
unfoldable pub same_bytes : List ℕ → List ℕ → Bool
same_bytes xs ys = is_eq (strcmp xs ys)

pub same_bytes_iff : (xs ys : List ℕ) → (same_bytes xs ys ≡ true) ↔ (xs ≡ ys)
unfolding same_bytes
same_bytes_iff xs ys = (
  λ e. strcmp_eq xs ys (is_eq-true (strcmp xs ys) e),
  λ e. ap (λ l. is_eq (strcmp xs l)) (sym e) ∙ ap is_eq (strcmp_refl xs),
)

pub is_equal-same :
    (s t : String) {xs ys : List ℕ}
    → Holds s xs
    → Holds t ys
    → NulFree xs
    → NulFree ys
    → is_equal s t ≡ ok (same_bytes xs ys)
unfolding is_equal string_compare same_bytes
is_equal-same s t {xs} {ys} h k free free_t =
    rw (c_string-Holds s h free, c_string-Holds t k free_t) (by_order (strcmp xs ys))
  where
    by_order : (o : Ordering) → ok (elim o [ Ordering.eq ↦ true | _ ↦ false ]) ≡ ok (is_eq o)
    by_order Ordering.eq = refl
    by_order Ordering.lt = refl
    by_order Ordering.gt = refl

-- Two strings with no NUL inside are equal exactly when their bytes are.
pub is_equal-Holds :
    (s t : String) {xs ys : List ℕ}
    → Holds s xs
    → Holds t ys
    → NulFree xs
    → NulFree ys
    → (b : Bool) × (is_equal s t ≡ ok b) × ((b ≡ true) ↔ (xs ≡ ys))
is_equal-Holds s t {xs} {ys} h k free free_t =
    (same_bytes xs ys, is_equal-same s t h k free free_t, same_bytes_iff xs ys)
