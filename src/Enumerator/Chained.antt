-- ===== src/Enumerator/Chained.antt =====
-- `wi_enumerator_all_data` of libwired/collections/wi-enumerator.c on dictionaries and sets.
use libwired.Base.{
  ℕ, ◌≡◌, ◌≢◌, ◌<◌, refl, sym, ap, ◌∙◌, List, [], ◌∷◌, none, some, map, length, length-map, ok,
  Returns, All, inl, inr, Option-cases, arith,
}
use libwired.Callbacks.{Callbacks, retained, has_retain, has_release}
use libwired.Chains.{Entry, entries}
use libwired.Chains.Enumerate.{Context, start, enumerate, remaining, yielded, enumerate-yielded}
use libwired.Dictionary.State.{Dictionary}
use libwired.Dictionary.Read as Dictionaries
use libwired.HashSet.State.{HashSet}
use libwired.HashSet.Read as Sets
use libwired.Enumerator.{Func, Collection, collection_callbacks, all_data}
use libwired.Enumerator.AllData.{Yields, done, more, Result, all_data-Result}

-- The calls that walk the buckets and read a field of each.
abbrev reads : (Entry → ℕ) → List (List Entry) → Func Context
reads field bs context =
    let (found, next) = enumerate bs context in
    ok (elim found [ none ↦ none | some e ↦ some (field e) ], next)

reads-none :
    (field : Entry → ℕ) (bs : List (List Entry)) (context : Context)
    → (enumerate bs context).0 ≡ none
    → reads field bs context ≡ ok (none, (enumerate bs context).1)
reads-none field bs context e = rw e refl

reads-some :
    (field : Entry → ℕ) (bs : List (List Entry)) (context : Context) (e : Entry)
    → (enumerate bs context).0 ≡ some e
    → reads field bs context ≡ ok (some (field e), (enumerate bs context).1)
reads-some field bs context e f = rw f refl

reads-Yields :
    (field : Entry → ℕ) (bs : List (List Entry)) (es : List Entry) (context : Context)
    → remaining bs context ≡ es
    → All (λ e. 0 < field e) es
    → Yields (reads field bs) context (map field es)
reads-Yields field bs [] context left real = elim (Option-cases (enumerate bs context).0) [
  | inl stop ↦ done (reads-none field bs context stop)
  | inr (e, found) ↦ absurd (no_more (sym left ∙ enumerate-yielded bs context ∙ found_one e found))
]
  where
    found_one :
        (e : Entry)
        → (enumerate bs context).0 ≡ some e
        → yielded bs (enumerate bs context) ≡ e ∷ remaining bs (enumerate bs context).1
    found_one e f = rw f refl

    no_more : {e : Entry} {l : List Entry} → ◌≢◌ {A = List Entry} [] (e ∷ l)
    no_more q = cc
reads-Yields field bs (e ∷ es) context left (real, reals) =
    elim (Option-cases (enumerate bs context).0) [
      | inl stop ↦ absurd (one_more (sym left ∙ enumerate-yielded bs context ∙ rw stop refl))
      | inr (e', found) ↦
          let same : e ∷ es ≡ e' ∷ remaining bs (enumerate bs context).1 =
            sym left ∙ enumerate-yielded bs context ∙ rw found refl in
          let this : e ≡ e' = cc in
          let others : es ≡ remaining bs (enumerate bs context).1 = cc in
          more (reads-some field bs context e (found ∙ ap some (sym this))) real
            (reads-Yields field bs es (enumerate bs context).1 (sym others) reals)
    ]
  where
    one_more : {e : Entry} {es : List Entry} → ◌≢◌ {A = List Entry} (e ∷ es) []
    one_more q = cc

chained_all_data-Result :
    (per_page : ℕ) (default : Callbacks) (collection : Collection) (field : Entry → ℕ)
    (bs : List (List Entry)) (fuel : ℕ)
    → 0 < per_page
    → has_retain (collection_callbacks default collection).1
      ≡ has_release (collection_callbacks default collection).1
    → All (λ e. 0 < field e) (entries bs)
    → length (entries bs) < fuel
    → Returns (all_data per_page default collection (reads field bs) fuel start) (
        Result
          (collection_callbacks default collection).1
          (map (retained (collection_callbacks default collection).1) (map field (entries bs))))
chained_all_data-Result per_page default collection field bs fuel page paired real enough =
    all_data-Result per_page default collection (reads field bs) fuel page paired
      (reads-Yields field bs (entries bs) start refl real)
      (omega (arith, enough, length-map field (entries bs)))

-- On the enumerator of a dictionary's data, none of them NULL, `wi_enumerator_all_data` ends on fuel
-- of more than their number, and returns an immutable array of the data, in the order of the buckets
-- and their chains, each retained with the callbacks of the dictionary's data, which the array has.
-- These callbacks retain and release or do neither, and a page of items is not empty.
pub dictionary_all_data-Result :
    (per_page : ℕ) (default : Callbacks) (d : Dictionary) (fuel : ℕ)
    → 0 < per_page
    → has_retain d.value_callbacks ≡ has_release d.value_callbacks
    → All (λ e. 0 < e.value) (entries d.buckets)
    → length (entries d.buckets) < fuel
    → Returns
        (all_data per_page default
          (Collection.dictionary d)
          (λ c. ok (Dictionaries.data_enumerator d c))
          fuel
          start)
        (Result d.value_callbacks
          (map (retained d.value_callbacks) (map (λ e. e.value) (entries d.buckets))))
unfolding Dictionaries.data_enumerator collection_callbacks
dictionary_all_data-Result per_page default d fuel page paired real enough =
    chained_all_data-Result per_page default (Collection.dictionary d) (λ e. e.value) d.buckets fuel
      page paired real enough

-- On the enumerator of a dictionary's keys, none of them NULL, the keys are collected, in the same
-- order, but with the callbacks of the dictionary's data instead of those of its keys.
keys_collected :
    (per_page : ℕ) (default : Callbacks) (d : Dictionary) (fuel : ℕ)
    → 0 < per_page
    → has_retain d.value_callbacks ≡ has_release d.value_callbacks
    → All (λ e. 0 < e.key) (entries d.buckets)
    → length (entries d.buckets) < fuel
    → Returns
        (all_data per_page default
          (Collection.dictionary d)
          (λ c. ok (Dictionaries.key_enumerator d c))
          fuel
          start)
        (Result d.value_callbacks
          (map (retained d.value_callbacks) (map (λ e. e.key) (entries d.buckets))))
unfolding Dictionaries.key_enumerator collection_callbacks
keys_collected per_page default d fuel page paired real enough =
    chained_all_data-Result per_page default (Collection.dictionary d) (λ e. e.key) d.buckets fuel
      page paired real enough

-- A set's data, none of them NULL, are collected in the order of the buckets and their chains, each
-- once, and with the callbacks of the set.
members_collected :
    (per_page : ℕ) (default : Callbacks) (s : HashSet) (fuel : ℕ)
    → 0 < per_page
    → has_retain s.callbacks ≡ has_release s.callbacks
    → All (λ e. 0 < e.key) (entries s.buckets)
    → length (entries s.buckets) < fuel
    → Returns
        (all_data per_page default
          (Collection.set s)
          (λ c. ok (Sets.data_enumerator s c))
          fuel
          start)
        (Result s.callbacks (map (retained s.callbacks) (map (λ e. e.key) (entries s.buckets))))
unfolding Sets.data_enumerator collection_callbacks
members_collected per_page default s fuel page paired real enough =
    chained_all_data-Result per_page default (Collection.set s) (λ e. e.key) s.buckets fuel page
      paired real enough
