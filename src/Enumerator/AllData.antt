-- ===== src/Enumerator/AllData.antt =====
-- What `wi_enumerator_all_data` of libwired/collections/wi-enumerator.c collects.
use libwired.Base.{
  ℕ, zero, suc, ◌≡◌, ◌<◌, refl, sym, ap, ◌∙◌, true, false, List, [], ◌∷◌, ◌++◌, Option, none, some,
  map, length, ◌==◌, ok, Returns, returns, fails, arith, bind-ok, append_assoc, append-nil,
}
use mathlib.Core.Bool.{false≢true}
use libwired.Callbacks.{Callbacks, Retain, retained, insertable, has_retain, has_release}
use libwired.Array.State.{Array, contents, init_with_capacity_and_callbacks}
use libwired.Array.Write.{mutable_add_data}
use libwired.Array.Valid.{IsValid}
use libwired.Array.Copy.{init-IsValid}
use libwired.Array.Add.{mutable_add_data_outcome, Updated}
use libwired.Enumerator.{Func, Collection, collection_callbacks, next_data, add_rounds, all_data}

-- From a context on, the calls of the function yield these data, none of them NULL.
pub data Yields {ℓ} {S : Type ℓ} (func : Func S) : S → List ℕ → Type ℓ where
  done : {c c' : S} → func c ≡ ok (none, c') → Yields func c []
  more :
      {c c' : S} {d : ℕ} {ds : List ℕ}
      → func c ≡ ok (some d, c')
      → 0 < d
      → Yields func c' ds
      → Yields func c (d ∷ ds)

-- The array `a` with the data `ds` behind its own, and the settings that it had.
record Collected {ℓ} {S : Type ℓ} (a : Array) (ds : List ℕ) (r : Option (Array × S)) : Type ℓ where
  pub collected : Array
  pub context : S
  pub result : r ≡ some (collected, context)
  pub updated : Updated a ds collected

add_rounds_done {ℓ} :
    {S : Type ℓ} (func : Func S) (fuel : ℕ) {c c' : S} (a : Array)
    → func c ≡ ok (none, c')
    → add_rounds func (suc fuel) c a ≡ ok (some (a, c'))
unfolding add_rounds next_data
add_rounds_done func fuel a e = rw e refl

add_rounds_more {ℓ} :
    {S : Type ℓ} (func : Func S) (fuel : ℕ) {c c' : S} {d : ℕ} (a t : Array)
    → func c ≡ ok (some d, c')
    → (d == 0) ≡ false
    → mutable_add_data a d ≡ ok t
    → add_rounds func (suc fuel) c a ≡ add_rounds func fuel c' t
unfolding add_rounds next_data
add_rounds_more func fuel a t e test added = bind-ok _ (bind-ok _ e) ∙ rw test (bind-ok _ added)

insertable_datum : (cb : Callbacks) (d : ℕ) → 0 < d → insertable cb d ≡ true
insertable_datum cb d h = go cb.retain
  where
    go :
        (r : Retain)
        → insertable (record { retain = r; release = cb.release; is_equal = cb.is_equal }) d ≡ true
    go Retain.null = refl
    go Retain.wi_retain = ground (arith, h)
    go (Retain.wi_copy f) = refl
    go (Retain.other f) = refl

add_datum :
    (a : Array) (d : ℕ)
    → IsValid a
    → a.mutable ≡ true
    → 0 < d
    → Returns (mutable_add_data a d) (Updated a (contents a ++ retained a.callbacks d ∷ []))
add_datum a d v changeable h = elim (mutable_add_data_outcome a d v) [
  | returns _ t e u ↦ (t, e, u)
  | fails closed _ ↦
      absurd (false≢true (sym closed ∙ rw (changeable, insertable_datum a.callbacks d h) refl))
]

-- The loop adds what the calls yield, in order, on fuel that is more than their number.
add_rounds-Collected {ℓ} :
    {S : Type ℓ} (func : Func S) {c : S} {ds : List ℕ}
    → Yields func c ds
    → (fuel : ℕ) (a : Array) → length ds < fuel
    → IsValid a
    → a.mutable ≡ true
    → Returns (add_rounds func fuel c a) (Collected a (contents a ++ map (retained a.callbacks) ds))
add_rounds-Collected func walk zero a enough v changeable = absurd (omega arith)
add_rounds-Collected func (done {c' = c'} e) (suc fuel) a enough v changeable = (
  some (a, c'),
  add_rounds_done func fuel a e,
  record {
    collected = a;
    context = c';
    result = refl;
    updated = record {
      valid = v;
      holds = sym (append-nil (contents a));
      same_callbacks = refl;
      same_mutable = refl;
      same_min = refl;
    };
  },
)
add_rounds-Collected func (more {d = d} {ds = ds} e real walk) (suc fuel) a enough v changeable =
    let (t, added, u) = add_datum a d v changeable real in
    let (r, ran, w) =
      add_rounds-Collected func walk fuel t (omega (arith, enough)) u.valid
        (u.same_mutable ∙ changeable) in
    (
      r,
      add_rounds_more func fuel a t e (ground (arith, real)) added ∙ ran,
      record {
        collected = w.collected;
        context = w.context;
        result = w.result;
        updated = record {
          valid = w.updated.valid;
          holds = w.updated.holds ∙ joined t u;
          same_callbacks = w.updated.same_callbacks ∙ u.same_callbacks;
          same_mutable = w.updated.same_mutable ∙ u.same_mutable;
          same_min = w.updated.same_min ∙ u.same_min;
        };
      },
    )
  where
    joined :
        (t : Array)
        → Updated a (contents a ++ retained a.callbacks d ∷ []) t
        → contents t ++ map (retained t.callbacks) ds
          ≡ contents a ++ retained a.callbacks d ∷ map (retained a.callbacks) ds
    joined t u =
        ap (λ l. l ++ map (retained t.callbacks) ds) u.holds
        ∙ ap (λ cb. (contents a ++ retained a.callbacks d ∷ []) ++ map (retained cb) ds)
            u.same_callbacks
        ∙ append_assoc (contents a) (retained a.callbacks d ∷ []) (map (retained a.callbacks) ds)

-- A result: an immutable array of these data.
pub record Result {ℓ} {S : Type ℓ} (cb : Callbacks) (ds : List ℕ) (r : Option (Array × S))
    : Type ℓ where
  pub collected : Array
  pub context : S
  pub result : r ≡ some (collected, context)
  pub valid : IsValid collected
  pub holds : contents collected ≡ ds
  pub same_callbacks : collected.callbacks ≡ cb
  pub immutable : collected.mutable ≡ false

-- The array has the callbacks of the collection, whatever the calls of the function yield.
pub all_data-Result {ℓ} :
    {S : Type ℓ} (per_page : ℕ) (default : Callbacks) (collection : Collection) (func : Func S)
    {c : S} {ds : List ℕ} (fuel : ℕ)
    → 0 < per_page
    → has_retain (collection_callbacks default collection).1
      ≡ has_release (collection_callbacks default collection).1
    → Yields func c ds
    → length ds < fuel
    → Returns (all_data per_page default collection func fuel c) (
        Result
          (collection_callbacks default collection).1
          (map (retained (collection_callbacks default collection).1) ds))
unfolding all_data init_with_capacity_and_callbacks
all_data-Result per_page default collection func {c} {ds} fuel page paired walk enough =
    let (count, cb) = collection_callbacks default collection in
    let new = init_with_capacity_and_callbacks true per_page count cb in
    let (r, ran, w) =
      add_rounds-Collected func walk fuel new enough
        (init-IsValid true per_page count cb page paired) refl in
    let result = some (record w.collected { mutable = false }, w.context) in
    (
      result,
      bind-ok _ (ran ∙ ap ok w.result),
      record {
        collected = record w.collected { mutable = false };
        context = w.context;
        result = refl;
        valid = record {
          filled = w.updated.valid.filled;
          room = w.updated.valid.room;
          owns = w.updated.valid.owns;
        };
        holds = w.updated.holds;
        same_callbacks = w.updated.same_callbacks;
        immutable = refl;
      },
    )
