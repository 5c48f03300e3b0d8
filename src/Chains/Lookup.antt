-- ===== src/Chains/Lookup.antt =====
-- The lookup of a key, before and after each change of a chain and of the vector.
use libwired.Base.{
  ℕ, zero, suc, ◌≡◌, ◌≤◌, ◌<◌, refl, sym, ◌∙◌, Bool, true, List, [], ◌∷◌, ◌++◌, none, some, length,
  set, to_nat, arith, if◌then◌else◌, inl, inr, Bool-cases, some_injective, ◌==◌,
}
use libwired.Chains.{Entry, chain_at, find_entry, assign_entry, unlink_entry}
use libwired.Chains.Totals.{total}

-- What the equality and the hash of keys have to be: an equivalence, which the hash respects.
pub record IsKeyed (equal : ℕ → ℕ → Bool) (hash : ℕ → ℕ) : Type 0 where
  pub reflexive : (a : ℕ) → equal a a ≡ true
  pub symmetric : (a b : ℕ) → equal a b ≡ true → equal b a ≡ true
  pub transitive : (a b c : ℕ) → equal a b ≡ true → equal b c ≡ true → equal a c ≡ true
  pub same_hash : (a b : ℕ) → equal a b ≡ true → hash a ≡ hash b

pub chain_at-set :
    (bs : List (List Entry)) (i j : ℕ) (c : List Entry)
    → i < length bs
    → chain_at (set bs i c) j ≡ (if i == j then c else chain_at bs j)
chain_at-set [] i j c h = absurd (omega arith)
chain_at-set (b ∷ bs) zero zero c h = refl
chain_at-set (b ∷ bs) zero (suc j) c h = ground arith
chain_at-set (b ∷ bs) (suc i) zero c h = ground arith
chain_at-set (b ∷ bs) (suc i) (suc j) c h = ground (arith, chain_at-set bs i j c)

-- A key is found exactly if some entry matches it.
module _ (equal : ℕ → ℕ → Bool) (q : ℕ) where
  pub find-none :
      (c : List Entry) → total (λ e. to_nat (equal e.key q)) c ≡ 0 → find_entry equal q c ≡ none
  unfolding find_entry
  find-none [] h = refl
  find-none (e ∷ c) h = elim (Bool-cases (equal e.key q)) [
    | inl found ↦ absurd (ground (arith, found))
    | inr differs ↦ rw differs (find-none c (ground (arith, differs)))
  ]

  pub none-total :
      (c : List Entry) → find_entry equal q c ≡ none → total (λ e. to_nat (equal e.key q)) c ≡ 0
  unfolding find_entry
  none-total [] h = refl
  none-total (e ∷ c) h = elim (Bool-cases (equal e.key q)) [
    | inl found ↦ let h' : some e ≡ none = rw found at h in absurd cc
    | inr differs ↦ let rest = none-total c (rw differs at h) in rw differs (omega (arith, rest))
  ]

  pub find-append_none :
      (a b : List Entry)
      → find_entry equal q a ≡ none
      → find_entry equal q (a ++ b) ≡ find_entry equal q b
  unfolding find_entry
  find-append_none [] b h = refl
  find-append_none (e ∷ a) b h = elim (Bool-cases (equal e.key q)) [
    | inl found ↦ let h' : some e ≡ none = rw found at h in absurd cc
    | inr differs ↦ rw differs (find-append_none a b (rw differs at h))
  ]

  pub find-none_append :
      (a b : List Entry)
      → find_entry equal q b ≡ none
      → find_entry equal q (a ++ b) ≡ find_entry equal q a
  unfolding find_entry
  find-none_append [] b h = h
  find-none_append (e ∷ a) b h = rw (find-none_append a b h) refl

module _ {equal : ℕ → ℕ → Bool} {hash : ℕ → ℕ} (laws : IsKeyed equal hash) where
  -- Equal keys match the same entries.
  pub match-congr : (a k q : ℕ) → equal k q ≡ true → equal a k ≡ equal a q
  match-congr a k q same = elim (Bool-cases (equal a k)) [
    | inl matches ↦ matches ∙ sym (laws.transitive a k q matches same)
    | inr differs ↦ elim (Bool-cases (equal a q)) [
      | inl matches ↦
          let back = laws.transitive a q k matches (laws.symmetric k q same) in absurd cc
      | inr differs' ↦ differs ∙ sym differs'
    ]
  ]

  pub match-shift : (a k q : ℕ) → equal a k ≡ true → equal a q ≡ equal k q
  match-shift a k q same = elim (Bool-cases (equal k q)) [
    | inl matches ↦ laws.transitive a k q same matches ∙ sym matches
    | inr differs ↦ elim (Bool-cases (equal a q)) [
      | inl matches ↦
          let back = laws.transitive k a q (laws.symmetric a k same) matches in absurd cc
      | inr differs' ↦ differs' ∙ sym differs
    ]
  ]

  pub find-congr :
      (k q : ℕ) (c : List Entry) → equal k q ≡ true → find_entry equal k c ≡ find_entry equal q c
  unfolding find_entry
  find-congr k q [] same = refl
  find-congr k q (e ∷ c) same = rw (match-congr e.key k q same, find-congr k q c same) refl

module _ {equal : ℕ → ℕ → Bool} {hash : ℕ → ℕ} (laws : IsKeyed equal hash) (k q : ℕ) where
  -- The new key is one that equals `k`.
  pub find-assign :
      (key value : ℕ) (c : List Entry) {old : Entry}
      → equal key k ≡ true
      → find_entry equal k c ≡ some old
      → find_entry equal q (assign_entry equal k key value c) ≡ (
          if equal k q
          then some (record old { key = key; value = value })
          else find_entry equal q c)
  unfolding find_entry assign_entry
  find-assign key value [] same h = cc
  find-assign key value (e ∷ c) {old} same h = elim (Bool-cases (equal e.key k)) [
    | inl found ↦
        let h' : some e ≡ some old = rw found at h in
        let is_old : e ≡ old = some_injective h' in
        let shifted = match-shift laws e.key k q found in
        let shifted' = match-shift laws key k q same in
        elim (Bool-cases (equal k q)) [
          | inl asked ↦ rw (found, shifted', asked) (rw is_old refl)
          | inr other ↦ rw (found, shifted', shifted, other) refl
        ]
    | inr differs ↦
        let rest = find-assign key value c same (rw differs at h) in
        elim (Bool-cases (equal k q)) [
          | inl asked ↦
              let skipped = sym (match-congr laws e.key k q asked) ∙ differs in
              rw (differs, skipped, rest, asked) refl
          | inr other ↦ rw (differs, rest, other) refl
        ]
  ]

  pub find-unlink :
      (c : List Entry)
      → total (λ e. to_nat (equal e.key k)) c ≤ 1
      → find_entry equal q (unlink_entry equal k c)
        ≡ (if equal k q then none else find_entry equal q c)
  unfolding find_entry unlink_entry
  find-unlink [] once = elim (Bool-cases (equal k q)) [ inl b ↦ rw b refl | inr b ↦ rw b refl ]
  find-unlink (e ∷ c) once = elim (Bool-cases (equal e.key k)) [
    | inl found ↦
        let gone = find-none equal k c (ground (arith, found)) in
        let shifted = match-shift laws e.key k q found in
        elim (Bool-cases (equal k q)) [
          | inl asked ↦ rw (found, asked) (sym (find-congr laws k q c asked) ∙ gone)
          | inr other ↦ rw (found, shifted, other) refl
        ]
    | inr differs ↦
        let rest = find-unlink c (ground (arith, differs)) in
        elim (Bool-cases (equal k q)) [
          | inl asked ↦
              let skipped = sym (match-congr laws e.key k q asked) ∙ differs in
              rw (differs, skipped, rest, asked) refl
          | inr other ↦ rw (differs, rest, other) refl
        ]
  ]
