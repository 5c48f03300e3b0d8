-- ===== src/Chains/Totals.antt =====
-- Sums over entries: of cells, of references, of keys. Every change of a chain is seen by them.
use libwired.Base.{
  inl, inr, Bool-cases, some_injective, ℕ, zero, suc, ◌+◌, ◌≡◌, ◌<◌, refl, ap, Bool, List, [], ◌∷◌,
  ◌++◌, map, some, length, set, replicate, count, to_nat, ◌==◌, arith,
}
use libwired.Chains.{Entry, entries, chain_at, find_entry, assign_entry, unlink_entry}

abbrev pub total : (Entry → ℕ) → List Entry → ℕ
total w [] = 0
total w (e ∷ c) = w e + total w c

pub total-append : (w : Entry → ℕ) (a b : List Entry) → total w (a ++ b) ≡ total w a + total w b
total-append w [] b = omega arith
total-append w (e ∷ a) b = omega (arith, total-append w a b)

-- How often `q` is a field of the entries.
pub count-total :
    (f : Entry → ℕ) (q : ℕ) (c : List Entry) → count q (map f c) ≡ total (λ e. to_nat (q == f e)) c
count-total f q [] = refl
count-total f q (e ∷ c) = ap (λ n. to_nat (q == f e) + n) (count-total f q c)

pub total-set :
    (w : Entry → ℕ) (bs : List (List Entry)) (i : ℕ) (c : List Entry)
    → i < length bs
    → total w (entries (set bs i c)) + total w (chain_at bs i) ≡ total w (entries bs) + total w c
total-set w [] i c h = absurd (omega arith)
total-set w (x ∷ bs) zero c h =
    omega (arith, total-append w c (entries bs), total-append w x (entries bs))
total-set w (x ∷ bs) (suc i) c h = omega (
  arith,
  total-append w x (entries (set bs i c)),
  total-append w x (entries bs),
  total-set w bs i c (omega arith),
)

pub total-replicate : (w : Entry → ℕ) (n : ℕ) → total w (entries (replicate n [])) ≡ 0
total-replicate w zero = refl
total-replicate w (suc n) = total-replicate w n

module _ (equal : ℕ → ℕ → Bool) (w : Entry → ℕ) (k : ℕ) where
  pub total-assign :
      (key value : ℕ) (c : List Entry) {old : Entry}
      → find_entry equal k c ≡ some old
      → total w (assign_entry equal k key value c) + w old
        ≡ total w c + w (record old { key = key; value = value })
  unfolding find_entry assign_entry
  total-assign key value [] h = cc
  total-assign key value (e ∷ c) {old} h = elim (Bool-cases (equal e.key k)) [
    | inl same ↦
        let h' : some e ≡ some old = rw same at h in
        let found : e ≡ old = some_injective h' in rw (same, found) (omega arith)
    | inr differs ↦
        let rest = total-assign key value c (rw differs at h) in rw differs (omega arith)
  ]

  pub total-unlink :
      (c : List Entry) {old : Entry}
      → find_entry equal k c ≡ some old
      → total w (unlink_entry equal k c) + w old ≡ total w c
  unfolding find_entry unlink_entry
  total-unlink [] h = cc
  total-unlink (e ∷ c) {old} h = elim (Bool-cases (equal e.key k)) [
    | inl same ↦
        let h' : some e ≡ some old = rw same at h in
        let found : e ≡ old = some_injective h' in rw (same, found) (omega arith)
    | inr differs ↦ let rest = total-unlink c (rw differs at h) in rw differs (omega arith)
  ]
