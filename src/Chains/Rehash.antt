-- ===== src/Chains/Rehash.antt =====
-- Where the entries of a vector stand, and what a rehash keeps.
use libwired.Base.{
  ℕ, zero, suc, ◌+◌, ◌%◌, ◌≡◌, ◌≢◌, ◌<◌, refl, sym, ap, ◌∙◌, Bool, true, List, [], ◌∷◌, none, some,
  Option, length, arith, All, if◌then◌else◌, inl, inr, Bool-cases, ◌==◌, ==_iff, length-set,
}
use native.Mathlib.Nat.{mod-lt}
use libwired.Chains.{Entry, entries, chain_at, find_entry, push_entry}
use libwired.Chains.Lookup.{IsKeyed, chain_at-set, find-append_none, find-none_append}

-- The lookup of the code: in the chain that the hash names.
abbrev pub lookup : (ℕ → ℕ → Bool) → (ℕ → ℕ) → ℕ → List (List Entry) → Option Entry
lookup equal hash q bs = find_entry equal q (chain_at bs (hash q % length bs))

-- Every entry of the chain stands at the index `i` of a vector of `n` chains.
abbrev pub Stand : (ℕ → ℕ) → ℕ → ℕ → List Entry → Type 0
Stand hash n i c = All (λ e. hash e.key % n ≡ i) c

-- Every entry stands in the chain that its key's hash names.
abbrev pub Placed : (ℕ → ℕ) → List (List Entry) → Type 0
Placed hash bs = (i : ℕ) → Stand hash (length bs) i (chain_at bs i)

-- The same for the chains from the index `j` on.
abbrev PlacedFrom : (ℕ → ℕ) → ℕ → ℕ → List (List Entry) → Type 0
PlacedFrom hash n j bs = (i p : ℕ) → j + i ≡ p → Stand hash n p (chain_at bs i)

tail-PlacedFrom :
    (hash : ℕ → ℕ) (n j : ℕ) (c : List Entry) (bs : List (List Entry))
    → PlacedFrom hash n j (c ∷ bs)
    → PlacedFrom hash n (suc j) bs
tail-PlacedFrom hash n j c bs s i p e = s (suc i) p (omega arith)

pub moved :
    (hash : ℕ → ℕ) (n : ℕ) {i p : ℕ} (c : List Entry) → i ≡ p → Stand hash n i c → Stand hash n p c
moved hash n c e s = rw e at s

module _ {equal : ℕ → ℕ → Bool} {hash : ℕ → ℕ} (laws : IsKeyed equal hash) (q : ℕ) where
  -- A chain of another index holds no entry that matches.
  Stand-none :
      (n i : ℕ) (c : List Entry) → Stand hash n i c → hash q % n ≢ i → find_entry equal q c ≡ none
  unfolding find_entry
  Stand-none n i [] s other = refl
  Stand-none n i (e ∷ c) s other = elim (Bool-cases (equal e.key q)) [
    | inl found ↦
        let same : hash e.key % n ≡ hash q % n = ap (λ h. h % n) (laws.same_hash e.key q found) in
        absurd (other (sym same ∙ s.0))
    | inr differs ↦ rw differs (Stand-none n i c s.1 other)
  ]

  -- The chains from the index `j` on, where the one that is looked for lies before.
  before-none :
      (n j : ℕ) (bs : List (List Entry))
      → PlacedFrom hash n j bs
      → hash q % n < j
      → find_entry equal q (entries bs) ≡ none
  unfolding find_entry
  before-none n j [] s h = refl
  before-none n j (c ∷ bs) s h =
      find-append_none equal q c (entries bs)
        (Stand-none n j c (s 0 j (omega arith)) (λ e. omega (arith, e)))
      ∙ before-none n (suc j) bs (tail-PlacedFrom hash n j c bs s) (omega arith)

  find-entries_from :
      (n j i : ℕ) (bs : List (List Entry))
      → PlacedFrom hash n j bs
      → hash q % n ≡ j + i
      → find_entry equal q (entries bs) ≡ find_entry equal q (chain_at bs i)
  find-entries_from n j i [] s h = refl
  find-entries_from n j zero (c ∷ bs) s h =
      find-none_append equal q c (entries bs)
        (before-none n (suc j) bs (tail-PlacedFrom hash n j c bs s) (omega arith))
  find-entries_from n j (suc i) (c ∷ bs) s h =
      find-append_none equal q c (entries bs)
        (Stand-none n j c (s 0 j (omega arith)) (λ e. omega (arith, e)))
      ∙ find-entries_from n (suc j) i bs (tail-PlacedFrom hash n j c bs s) (omega arith)

  -- The lookup finds what a walk over all entries finds.
  pub lookup-entries :
      (bs : List (List Entry))
      → Placed hash bs
      → lookup equal hash q bs ≡ find_entry equal q (entries bs)
  lookup-entries bs placed = sym (
      find-entries_from (length bs) 0 (hash q % length bs) bs
        (λ i p e. moved hash (length bs) (chain_at bs i) (omega (arith, e)) (placed i))
        (omega arith))

  -- A pushed entry is found under its key, and changes no other lookup.
  pub lookup-push :
      (e : Entry) (bs : List (List Entry))
      → 0 < length bs
      → lookup equal hash q (push_entry hash e bs)
        ≡ (if equal e.key q then some e else lookup equal hash q bs)
  unfolding push_entry find_entry
  lookup-push e bs some_chain =
      let i = hash e.key % length bs in
      let j = hash q % length bs in
      let size = length-set bs i (e ∷ chain_at bs i) in
      let written = chain_at-set bs i j (e ∷ chain_at bs i) (mod-lt (hash e.key) some_chain) in
      elim (Bool-cases (equal e.key q)) [
        | inl found ↦
            let same : i ≡ j = ap (λ h. h % length bs) (laws.same_hash e.key q found) in
            let same' : (i == j) ≡ true = (==_iff i j).1 same in
            rw (size, written, same', found) refl
        | inr differs ↦ elim (Bool-cases (i == j)) [
          | inl same ↦
              let here : i ≡ j = (==_iff i j).0 same in
              rw (size, written, same, differs) (ap (λ n. find_entry equal q (chain_at bs n)) here)
          | inr other ↦ rw (size, written, other, differs) refl
        ]
      ]

pub push-Placed :
    (hash : ℕ → ℕ) (e : Entry) (bs : List (List Entry))
    → 0 < length bs
    → Placed hash bs
    → Placed hash (push_entry hash e bs)
unfolding push_entry
push-Placed hash e bs some_chain placed j =
    let i = hash e.key % length bs in
    let size = length-set bs i (e ∷ chain_at bs i) in
    let written = chain_at-set bs i j (e ∷ chain_at bs i) (mod-lt (hash e.key) some_chain) in
    elim (Bool-cases (i == j)) [
      | inl same ↦
          let here : i ≡ j = (==_iff i j).0 same in
          rw (size, written, same)
            (moved hash (length bs) (e ∷ chain_at bs i) here (refl, placed i))
      | inr other ↦ rw (size, written, other) (placed j)
    ]
