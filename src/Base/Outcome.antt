-- ===== src/Base/Outcome.antt =====
-- The outcome of a call: a value; a failed `WI_ASSERT`, whose default handler ends the process;
-- or an access to memory that holds no such object.
use mathlib.Core.Bool.{Bool, true, false, ◌&&◌, false≢true}
use mathlib.Core.Path.{◌≡◌, refl, sym, ap, ◌∙◌}

pub data Run {ℓ} (A : Type ℓ) : Type ℓ where
  ok : A → Run A
  assert_failed : Run A
  bad_access : Run A

infixl 5 ◌>>=◌ ◌>>◌
abbrev pub ◌>>=◌ {ℓ κ} : {X : Type ℓ} {Y : Type κ} → Run X → (X → Run Y) → Run Y
assert_failed >>= next = assert_failed
bad_access >>= next = bad_access
ok value >>= next = next value

abbrev pub ◌>>◌ {ℓ} : {B : Type ℓ} → Run (Unit {0}) → Run B → Run B
m >> k = m >>= λ _. k

-- `WI_ASSERT(b, ...)` with the default handler.
abbrev pub wi_assert : Bool → Run (Unit {0})
wi_assert true = ok tt
wi_assert false = assert_failed

-- The call ends normally, in a value that satisfies `P`.
abbrev pub Returns {ℓ κ} : {X : Type ℓ} → Run X → (X → Type κ) → Type (ℓ ⊔ κ)
Returns {X} run P = (value : X) × (run ≡ ok value) × P value

-- If the guard holds, the call ends normally in a value that satisfies `P`; if not, an assertion
-- fails. So it never makes a bad access.
pub data Guarded {ℓ} {A : Type ℓ} (guard : Bool) (r : Run A) (P : A → Type ℓ) : Type ℓ where
  returns : guard ≡ true → (a : A) → r ≡ ok a → P a → Guarded guard r P
  fails : guard ≡ false → r ≡ assert_failed → Guarded guard r P

-- An assertion in front of a call joins its guard, and holds in the call.
pub wi_assert-Guarded {ℓ} :
    {A : Type ℓ} (b : Bool) {c : Bool} {r : Run A} {P : A → Type ℓ}
    → (b ≡ true → Guarded c r P)
    → Guarded (b && c) (wi_assert b >> r) P
wi_assert-Guarded true h = h refl
wi_assert-Guarded false h = fails refl refl

pub wi_assert-Returns {ℓ} :
    {A : Type ℓ} (b : Bool) {r : Run A} {P : A → Type ℓ}
    → (b ≡ true → Returns r P)
    → Guarded b (wi_assert b >> r) P
wi_assert-Returns true h = let (a, e, p) = h refl in returns refl a e p
wi_assert-Returns false h = fails refl refl

pub Guarded-cast {ℓ} :
    {A : Type ℓ} {b c : Bool} {r s : Run A} {P Q : A → Type ℓ}
    → b ≡ c
    → s ≡ r
    → ((a : A) → P a → Q a)
    → Guarded b r P
    → Guarded c s Q
Guarded-cast e f h (returns g a k p) = returns (sym e ∙ g) a (f ∙ k) (h a p)
Guarded-cast e f h (fails g k) = fails (sym e ∙ g) (f ∙ k)

-- If the guard fails, an assertion does; if not, and `fits`, the call ends normally in a value that
-- satisfies `P`; otherwise it makes a bad access.
pub data Ends {ℓ} {A : Type ℓ} (guard fits : Bool) (r : Run A) (P : A → Type ℓ) : Type ℓ where
  returns : guard ≡ true → fits ≡ true → (a : A) → r ≡ ok a → P a → Ends guard fits r P
  fails : guard ≡ false → r ≡ assert_failed → Ends guard fits r P
  overruns : guard ≡ true → fits ≡ false → r ≡ bad_access → Ends guard fits r P

pub wi_assert-Ends {ℓ} :
    {A : Type ℓ} (b : Bool) {c fits : Bool} {r : Run A} {P : A → Type ℓ}
    → (b ≡ true → Ends c fits r P)
    → Ends (b && c) fits (wi_assert b >> r) P
wi_assert-Ends true h = h refl
wi_assert-Ends false h = fails refl refl

pub Ends-cast {ℓ} :
    {A : Type ℓ} {b c f g : Bool} {r s : Run A} {P Q : A → Type ℓ}
    → b ≡ c
    → f ≡ g
    → s ≡ r
    → ((a : A) → P a → Q a)
    → Ends b f r P
    → Ends c g s Q
Ends-cast e d k h (returns x y a i p) = returns (sym e ∙ x) (sym d ∙ y) a (k ∙ i) (h a p)
Ends-cast e d k h (fails x i) = fails (sym e ∙ x) (k ∙ i)
Ends-cast e d k h (overruns x y i) = overruns (sym e ∙ x) (sym d ∙ y) (k ∙ i)

-- The guard is the assertion alone.
pub wi_assert_only {ℓ} :
    {A : Type ℓ} (b : Bool) {fits : Bool} {r : Run A} {P : A → Type ℓ}
    → (b ≡ true → Ends true fits r P)
    → Ends b fits (wi_assert b >> r) P
wi_assert_only true h = h refl
wi_assert_only false h = fails refl refl

-- A call behind one that has ended
pub Ends-bind {ℓ κ} :
    {A : Type ℓ} {B : Type κ} {b f : Bool} {r : Run A} (k : A → Run B) {Q : B → Type κ} (a : A)
    → r ≡ ok a
    → Ends b f (k a) Q
    → Ends b f (r >>= k) Q
Ends-bind k a e h = Ends-cast refl refl (ap (λ r. r >>= k) e) (λ v q. q) h

pub Ends-map {ℓ} :
    {A : Type ℓ} {B : Type ℓ} {b f : Bool} {r : Run A} {P : A → Type ℓ} {Q : B → Type ℓ} (g : A → B)
    → ((a : A) → P a → Q (g a))
    → Ends b f r P
    → Ends b f (r >>= λ a. ok (g a)) Q
Ends-map g h (returns x y a i p) = returns x y (g a) (ap (λ r. r >>= λ a. ok (g a)) i) (h a p)
Ends-map g h (fails x i) = fails x (ap (λ r. r >>= λ a. ok (g a)) i)
Ends-map g h (overruns x y i) = overruns x y (ap (λ r. r >>= λ a. ok (g a)) i)

-- A call whose guards hold and that fits ends normally.
pub Ends-Returns {ℓ} :
    {A : Type ℓ} {b f : Bool} {r : Run A} {P : A → Type ℓ}
    → b ≡ true
    → f ≡ true
    → Ends b f r P
    → Returns r P
Ends-Returns x y (returns _ _ a i p) = (a, i, p)
Ends-Returns x y (fails z i) = absurd (false≢true (sym z ∙ x))
Ends-Returns x y (overruns _ z i) = absurd (false≢true (sym z ∙ y))

pub Ends_overruns {ℓ} :
    {A : Type ℓ} {f : Bool} {r : Run A} {P : A → Type ℓ}
    → f ≡ false
    → Ends true f r P
    → r ≡ bad_access
Ends_overruns x (returns _ y _ _ _) = absurd (false≢true (sym x ∙ y))
Ends_overruns x (fails y _) = absurd (false≢true (sym y))
Ends_overruns x (overruns _ _ i) = i

pub Ends_bad_access {ℓ} :
    {A : Type ℓ} {b f : Bool} {r : Run A} {P : A → Type ℓ}
    → r ≡ bad_access
    → Ends b f r P
    → f ≡ false
Ends_bad_access x (returns _ _ _ i _) = cc
Ends_bad_access x (fails _ i) = cc
Ends_bad_access x (overruns _ y _) = y

pub bind-bad_access {ℓ κ} :
    {A : Type ℓ} {B : Type κ} {r : Run A} (k : A → Run B) → r ≡ bad_access → (r >>= k) ≡ bad_access
bind-bad_access k e = ap (λ r. r >>= k) e

-- Two assertions in front of a call
pub wi_assert_both {ℓ} :
    {A : Type ℓ} (a b : Bool) {fits : Bool} {r : Run A} {P : A → Type ℓ}
    → (a ≡ true → b ≡ true → Ends true fits r P)
    → Ends (a && b) fits (wi_assert a >> wi_assert b >> r) P
wi_assert_both true true h = h refl refl
wi_assert_both true false h = fails refl refl
wi_assert_both false b h = fails refl refl

pub bind-ok {ℓ κ} :
    {A : Type ℓ} {B : Type κ} {r : Run A} {a : A} (k : A → Run B) → r ≡ ok a → (r >>= k) ≡ k a
bind-ok k e = ap (λ r. r >>= k) e

pub wi_assert-holds {ℓ} : {A : Type ℓ} (r : Run A) {b : Bool} → b ≡ true → (wi_assert b >> r) ≡ r
wi_assert-holds r e = ap (λ b. wi_assert b >> r) e

pub bind_assoc {ℓ κ μ} :
    {A : Type ℓ} {B : Type κ} {C : Type μ} (r : Run A) (k : A → Run B) (l : B → Run C)
    → (r >>= k >>= l) ≡ (r >>= λ a. k a >>= l)
bind_assoc (ok a) k l = refl
bind_assoc assert_failed k l = refl
bind_assoc bad_access k l = refl

pub bind-same {ℓ κ} :
    {A : Type ℓ} {B : Type κ} (r : Run A) (k l : A → Run B)
    → ((a : A) → k a ≡ l a)
    → (r >>= k) ≡ (r >>= l)
bind-same (ok a) k l h = h a
bind-same assert_failed k l h = refl
bind-same bad_access k l h = refl

pub bind-failed {ℓ κ} :
    {A : Type ℓ} {B : Type κ} {r : Run A} (k : A → Run B)
    → r ≡ assert_failed
    → (r >>= k) ≡ assert_failed
bind-failed k e = ap (λ r. r >>= k) e
