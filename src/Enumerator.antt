-- ===== src/Enumerator.antt =====
-- libwired/collections/wi-enumerator.c: an enumerator holds a collection with the function that walks
-- it, and that function's context, which is zero at first.
use libwired.Base.{ℕ, zero, suc, Bool, true, false, Option, none, some, ◌==◌, Run, ok, ◌>>=◌}
use libwired.Callbacks.{Callbacks}
use libwired.Array.State.{Array, init_with_capacity_and_callbacks}
use libwired.Array.Write.{mutable_add_data}
use libwired.Dictionary.State.{Dictionary}
use libwired.HashSet.State.{HashSet}
pub mod AllData
pub mod Chained

-- `wi_enumerator_func_t`, on one collection: the datum, if there is one more, and the context that is
-- left.
abbrev pub Func {ℓ} : Type ℓ → Type ℓ
Func S = S → Run (Option ℕ × S)

-- A datum, NULL at the end
unfoldable pub next_data {ℓ} : {S : Type ℓ} → Func S → S → Run (ℕ × S)
next_data func context = do r ← func context; ok (elim r.0 [ none ↦ 0 | some d ↦ d ], r.1)

unfoldable pub get_next_data {ℓ} : {S : Type ℓ} → Func S → S → Run (Option ℕ × S)
get_next_data func context = func context

pub data Collection : Type 0 where
  array : Array → Collection
  dictionary : Dictionary → Collection
  set : HashSet → Collection
  other : Collection

-- The count of a collection and the callbacks of its data; those of the values of a dictionary.
unfoldable pub collection_callbacks : Callbacks → Collection → ℕ × Callbacks
collection_callbacks default (array a) = (a.data_count, a.callbacks)
collection_callbacks default (dictionary d) = (d.key_count, d.value_callbacks)
collection_callbacks default (set s) = (s.data_count, s.callbacks)
collection_callbacks default other = (0, default)

-- `while((data = wi_enumerator_next_data(enumerator)))`, on fuel; without a result when it is used up
unfoldable pub add_rounds {ℓ} : {S : Type ℓ} → Func S → ℕ → S → Array → Run (Option (Array × S))
unfolding next_data
add_rounds func zero context a = ok none
add_rounds func (suc fuel) context a = do
  r ← next_data func context
  elim (r.0 == 0) [
    | true ↦ ok (some (a, r.1))
    | false ↦ do t ← mutable_add_data a r.0; add_rounds func fuel r.1 t
  ]

unfoldable pub all_data {ℓ} :
    {S : Type ℓ} → ℕ → Callbacks → Collection → Func S → ℕ → S → Run (Option (Array × S))
unfolding add_rounds
all_data per_page default collection func fuel context = do
  let (count, callbacks) = collection_callbacks default collection
  r ← add_rounds func fuel context (init_with_capacity_and_callbacks true per_page count callbacks)
  ok (elim r [ none ↦ none | some s ↦ some (record s.0 { mutable = false }, s.1) ])
