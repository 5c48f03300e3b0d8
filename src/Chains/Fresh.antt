-- ===== src/Chains/Fresh.antt =====
-- The rehash of a whole vector into a fresh one: the same entries, in their places, found alike.
use libwired.Base.{
  ℕ, zero, suc, ◌+◌, ◌%◌, ◌≡◌, ◌≤◌, ◌<◌, refl, sym, ◌∙◌, Bool, List, [], ◌∷◌, ◌++◌, none, some,
  Option, length, replicate, to_nat, arith, inl, inr, Bool-cases, length-set, length-replicate,
}
use native.Mathlib.Nat.{mod-lt}
use libwired.Chains.{Entry, entries, chain_at, find_entry, push_entry, rehash_chain, rehash_all}
use libwired.Chains.Totals.{total, total-set, total-replicate}
use libwired.Chains.Lookup.{IsKeyed, find-none}
use libwired.Chains.Rehash.{lookup, Placed, lookup-entries, lookup-push, push-Placed}

pub length-push :
    (hash : ℕ → ℕ) (e : Entry) (bs : List (List Entry)) → length (push_entry hash e bs) ≡ length bs
unfolding push_entry
length-push hash e bs =
    length-set bs (hash e.key % length bs) (e ∷ chain_at bs (hash e.key % length bs))

pub total-push :
    (hash : ℕ → ℕ) (w : Entry → ℕ) (e : Entry) (bs : List (List Entry))
    → 0 < length bs
    → total w (entries (push_entry hash e bs)) ≡ w e + total w (entries bs)
unfolding push_entry
total-push hash w e bs some_chain =
    let i = hash e.key % length bs in
    omega (arith, total-set w bs i (e ∷ chain_at bs i) (mod-lt (hash e.key) some_chain))

length-rehash_chain :
    (hash : ℕ → ℕ) (c : List Entry) (fresh : List (List Entry))
    → length (rehash_chain hash c fresh) ≡ length fresh
unfolding rehash_chain
length-rehash_chain hash [] fresh = refl
length-rehash_chain hash (e ∷ c) fresh =
    length-rehash_chain hash c (push_entry hash e fresh) ∙ length-push hash e fresh

total-rehash_chain :
    (hash : ℕ → ℕ) (w : Entry → ℕ) (c : List Entry) (fresh : List (List Entry))
    → 0 < length fresh
    → total w (entries (rehash_chain hash c fresh)) ≡ total w c + total w (entries fresh)
unfolding rehash_chain
total-rehash_chain hash w [] fresh some_chain = omega arith
total-rehash_chain hash w (e ∷ c) fresh some_chain = omega (
  arith,
  total-rehash_chain hash w c (push_entry hash e fresh) (omega (arith, length-push hash e fresh)),
  total-push hash w e fresh some_chain,
)

rehash_chain-Placed :
    (hash : ℕ → ℕ) (c : List Entry) (fresh : List (List Entry))
    → 0 < length fresh
    → Placed hash fresh
    → Placed hash (rehash_chain hash c fresh)
unfolding rehash_chain
rehash_chain-Placed hash [] fresh some_chain placed = placed
rehash_chain-Placed hash (e ∷ c) fresh some_chain placed =
    rehash_chain-Placed hash c (push_entry hash e fresh) (omega (arith, length-push hash e fresh))
      (push-Placed hash e fresh some_chain placed)

-- The first of two results that finds an entry
abbrev first_of : Option Entry → Option Entry → Option Entry
first_of none other = other
first_of (some e) other = some e

module _ {equal : ℕ → ℕ → Bool} {hash : ℕ → ℕ} (laws : IsKeyed equal hash) (q : ℕ) where
  lookup-rehash_chain :
      (c : List Entry) (fresh : List (List Entry))
      → 0 < length fresh
      → total (λ e. to_nat (equal e.key q)) c ≤ 1
      → lookup equal hash q (rehash_chain hash c fresh)
        ≡ first_of (find_entry equal q c) (lookup equal hash q fresh)
  unfolding rehash_chain find_entry
  lookup-rehash_chain [] fresh some_chain once = refl
  lookup-rehash_chain (e ∷ c) fresh some_chain once =
      let more =
        lookup-rehash_chain c (push_entry hash e fresh) (omega (arith, length-push hash e fresh))
          (ground arith) in
      let pushed = lookup-push laws q e fresh some_chain in
      elim (Bool-cases (equal e.key q)) [
        | inl found ↦
            let gone = find-none equal q c (ground (arith, found)) in
            more ∙ rw (gone, pushed, found) refl
        | inr differs ↦ more ∙ rw (pushed, differs) refl
      ]

rehash_chain-append :
    (hash : ℕ → ℕ) (a b : List Entry) (fresh : List (List Entry))
    → rehash_chain hash (a ++ b) fresh ≡ rehash_chain hash b (rehash_chain hash a fresh)
unfolding rehash_chain
rehash_chain-append hash [] b fresh = refl
rehash_chain-append hash (e ∷ a) b fresh = rehash_chain-append hash a b (push_entry hash e fresh)

rehash_all-entries :
    (hash : ℕ → ℕ) (bs fresh : List (List Entry))
    → rehash_all hash bs fresh ≡ rehash_chain hash (entries bs) fresh
unfolding rehash_all rehash_chain
rehash_all-entries hash [] fresh = refl
rehash_all-entries hash (c ∷ bs) fresh =
    rehash_all-entries hash bs (rehash_chain hash c fresh)
    ∙ sym (rehash_chain-append hash c (entries bs) fresh)

pub chain_at-replicate : (n i : ℕ) → chain_at (replicate n []) i ≡ []
chain_at-replicate zero i = refl
chain_at-replicate (suc n) zero = refl
chain_at-replicate (suc n) (suc i) = chain_at-replicate n i

pub replicate-Placed : (hash : ℕ → ℕ) (n : ℕ) → Placed hash (replicate n [])
replicate-Placed hash n i = rw (chain_at-replicate n i) tt

pub lookup-fresh :
    (equal : ℕ → ℕ → Bool) (hash : ℕ → ℕ) (n q : ℕ) → lookup equal hash q (replicate n []) ≡ none
unfolding find_entry
lookup-fresh equal hash n q =
    let fresh : List (List Entry) = replicate n [] in
    rw (chain_at-replicate n (hash q % length fresh)) refl

first_of-none : (o : Option Entry) → first_of o none ≡ o
first_of-none none = refl
first_of-none (some e) = refl

-- What the rehash of a vector into `n` fresh chains is to keep.
pub record Rehashed (equal : ℕ → ℕ → Bool) (hash : ℕ → ℕ) (n : ℕ) (bs new : List (List Entry))
    : Type 0 where
  pub size : length new ≡ n
  pub placed : Placed hash new
  pub totals : (w : Entry → ℕ) → total w (entries new) ≡ total w (entries bs)
  pub lookups : (q : ℕ) → lookup equal hash q new ≡ lookup equal hash q bs

-- The rehash of a vector in which every entry stands in its chain and no key is twice, into at
-- least one fresh chain, keeps all entries, puts each in its chain and changes no lookup.
pub rehash_all-Rehashed :
    (equal : ℕ → ℕ → Bool) (hash : ℕ → ℕ) (n : ℕ) (bs : List (List Entry))
    → IsKeyed equal hash
    → 0 < n
    → Placed hash bs
    → ((q : ℕ) → total (λ e. to_nat (equal e.key q)) (entries bs) ≤ 1)
    → Rehashed equal hash n bs (rehash_all hash bs (replicate n []))
rehash_all-Rehashed equal hash n bs laws pos placed once =
    let fresh : List (List Entry) = replicate n [] in
    let size : length fresh ≡ n = length-replicate n [] in
    let some_chain : 0 < length fresh = omega (arith, size) in
    rw (rehash_all-entries hash bs fresh) (record {
      size = length-rehash_chain hash (entries bs) fresh ∙ size;
      placed = rehash_chain-Placed hash (entries bs) fresh some_chain (replicate-Placed hash n);
      totals = λ w.
          omega
            (arith, total-rehash_chain hash w (entries bs) fresh some_chain, total-replicate w n);
      lookups = λ q.
          lookup-rehash_chain laws q (entries bs) fresh some_chain (once q)
          ∙ rw (lookup-fresh equal hash n q) (first_of-none (find_entry equal q (entries bs)))
          ∙ sym (lookup-entries laws q bs placed);
    })
