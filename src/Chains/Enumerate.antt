-- ===== src/Chains/Enumerate.antt =====
-- `_wi_enumerator_dictionary_enumerator` (wi-dictionary.c) and `wi_enumerator_set_data_enumerator`
-- (wi-set.c): the walk over all buckets, one call per bucket.
use libwired.Base.{
  inl, inr, List-cases, Option-cases, ◌<◌, ℕ, zero, suc, ◌≡◌, refl, sym, ap, ◌∙◌, List, [], ◌∷◌,
  ◌++◌, Option, none, some, drop, length, arith,
}
use libwired.Chains.{Entry, entries}

-- `context->index`, and the chain from `context->bucket` on: empty where that is NULL.
pub record Context : Type 0 where
  pub index : ℕ
  pub chain : List Entry

abbrev pub start : Context
start = record { index = 0; chain = [] }

-- `while(context->index < buckets_count)`, over the chains from the index on
unfoldable pub scan : List (List Entry) → ℕ → Option Entry × Context
scan [] i = (none, record { index = i; chain = [] })
scan ([] ∷ cs) i = scan cs (suc i)
scan ((e ∷ c) ∷ cs) i = (some e, record { index = i; chain = e ∷ c })

unfoldable pub enumerate : List (List Entry) → Context → Option Entry × Context
unfolding scan
enumerate bs context = elim context.chain [
  | [] ↦ scan (drop context.index bs) context.index
  | e ∷ c ↦ elim c [
    | [] ↦ scan (drop (suc context.index) bs) (suc context.index)
    | next ∷ rest ↦ (some next, record { index = context.index; chain = next ∷ rest })
  ]
]

-- Calls until one finds nothing, at most as many as the fuel
unfoldable enumerate_all : ℕ → List (List Entry) → Context → List Entry
unfolding enumerate
enumerate_all zero bs context = []
enumerate_all (suc fuel) bs context =
    let (found, next) = enumerate bs context in
    elim found [ none ↦ [] | some e ↦ e ∷ enumerate_all fuel bs next ]

-- What the calls from a context on have to yield
abbrev pub remaining : List (List Entry) → Context → List Entry
remaining bs context = elim context.chain [
  | [] ↦ entries (drop context.index bs)
  | e ∷ c ↦ c ++ entries (drop (suc context.index) bs)
]

abbrev pub yielded : List (List Entry) → Option Entry × Context → List Entry
yielded bs r = elim r.0 [ none ↦ [] | some e ↦ e ∷ remaining bs r.1 ]

drop-suc :
    (i : ℕ) (bs : List (List Entry)) {c : List Entry} {cs : List (List Entry)}
    → drop i bs ≡ c ∷ cs
    → drop (suc i) bs ≡ cs
drop-suc zero [] h = cc
drop-suc zero (b ∷ bs) h = cc
drop-suc (suc i) [] h = cc
drop-suc (suc i) (b ∷ bs) h = drop-suc i bs h

scan-yielded :
    (bs cs : List (List Entry)) (i : ℕ) → drop i bs ≡ cs → entries cs ≡ yielded bs (scan cs i)
unfolding scan
scan-yielded bs [] i h = refl
scan-yielded bs ([] ∷ cs) i h = scan-yielded bs cs (suc i) (drop-suc i bs h)
scan-yielded bs ((e ∷ c) ∷ cs) i h = rw (drop-suc i bs h) refl

pub enumerate-yielded :
    (bs : List (List Entry)) (context : Context)
    → remaining bs context ≡ yielded bs (enumerate bs context)
unfolding enumerate
enumerate-yielded bs context = elim (List-cases context.chain) [
  | inl none_left ↦ rw none_left (scan-yielded bs _ context.index refl)
  | inr (e, rest, chain) ↦ elim (List-cases rest) [
    | inl last ↦ rw (chain, last) (scan-yielded bs _ (suc context.index) refl)
    | inr (next, more, eq) ↦ rw (chain, eq) refl
  ]
]

enumerate_all_step :
    (fuel : ℕ) (bs : List (List Entry)) (context : Context)
    → enumerate_all (suc fuel) bs context ≡ elim (enumerate bs context).0 [
      | none ↦ []
      | some e ↦ e ∷ enumerate_all fuel bs (enumerate bs context).1
    ]
unfolding enumerate_all
enumerate_all_step fuel bs context = refl

enumerate_all-remaining :
    (fuel : ℕ) (bs : List (List Entry)) (context : Context)
    → length (remaining bs context) < fuel
    → enumerate_all fuel bs context ≡ remaining bs context
enumerate_all-remaining zero bs context h = absurd (omega arith)
enumerate_all-remaining (suc fuel) bs context h =
    let step = enumerate_all_step fuel bs context in
    let same = enumerate-yielded bs context in
    elim (Option-cases (enumerate bs context).0) [
      | inl stop ↦
          let none_left : remaining bs context ≡ [] = same ∙ rw stop refl in
          let no_call : enumerate_all (suc fuel) bs context ≡ [] = step ∙ rw stop refl in
          no_call ∙ sym none_left
      | inr (e, found) ↦
          let next = (enumerate bs context).1 in
          let same' : remaining bs context ≡ e ∷ remaining bs next = same ∙ (rw found refl) in
          let size : length (remaining bs context) ≡ suc (length (remaining bs next)) =
            ap length same' in
          let called : enumerate_all (suc fuel) bs context ≡ e ∷ enumerate_all fuel bs next =
            step ∙ rw found refl in
          called ∙ ap (λ l. e ∷ l) (enumerate_all-remaining fuel bs next (omega arith)) ∙ sym same'
    ]

-- The enumerator yields every bucket once, in the order of the vector and its chains, and then
-- finds nothing more: as many calls as there are buckets, and one, are enough.
enumerate_all-entries :
    (bs : List (List Entry)) (fuel : ℕ)
    → length (entries bs) < fuel
    → enumerate_all fuel bs start ≡ entries bs
enumerate_all-entries bs fuel h = enumerate_all-remaining fuel bs start h
