-- ===== src/Chains/Update.antt =====
-- The change of one chain of a vector: where the entries stand, and what every key finds.
use libwired.Base.{
  ℕ, ◌%◌, ◌≡◌, ◌≤◌, ◌<◌, refl, sym, ap, ◌∙◌, Bool, true, List, [], ◌∷◌, none, some, Option, length,
  set, to_nat, arith, if◌then◌else◌, inl, inr, Bool-cases, some_injective, length-set, ◌==◌, ==_iff,
}
use native.Mathlib.Nat.{mod-lt}
use libwired.Chains.{Entry, entries, chain_at, find_entry, assign_entry, unlink_entry}
use libwired.Chains.Totals.{total, total-set, total-assign, total-unlink}
use libwired.Chains.Lookup.{
  IsKeyed, chain_at-set, match-shift, find-congr, find-assign, find-unlink, none-total,
}
use libwired.Chains.Rehash.{lookup, Stand, Placed, moved, lookup-entries}

pub find-matches :
    (equal : ℕ → ℕ → Bool) (k : ℕ) (c : List Entry) {old : Entry}
    → find_entry equal k c ≡ some old
    → equal old.key k ≡ true
unfolding find_entry
find-matches equal k [] h = cc
find-matches equal k (e ∷ c) {old} h = elim (Bool-cases (equal e.key k)) [
  | inl found ↦
      let h' : some e ≡ some old = rw found at h in
      let is_old : e ≡ old = some_injective h' in
      sym (ap (λ (x : Entry). equal x.key k) is_old) ∙ found
  | inr differs ↦ find-matches equal k c (rw differs at h)
]

assign-Stand :
    (equal : ℕ → ℕ → Bool) (hash : ℕ → ℕ) (n i k key value : ℕ) (c : List Entry)
    → hash key % n ≡ i
    → Stand hash n i c
    → Stand hash n i (assign_entry equal k key value c)
unfolding assign_entry
assign-Stand equal hash n i k key value [] h s = tt
assign-Stand equal hash n i k key value (e ∷ c) h s = elim (Bool-cases (equal e.key k)) [
  | inl found ↦ rw found (h, s.1)
  | inr differs ↦ rw differs (s.0, assign-Stand equal hash n i k key value c h s.1)
]

unlink-Stand :
    (equal : ℕ → ℕ → Bool) (hash : ℕ → ℕ) (n i k : ℕ) (c : List Entry)
    → Stand hash n i c
    → Stand hash n i (unlink_entry equal k c)
unfolding unlink_entry
unlink-Stand equal hash n i k [] s = tt
unlink-Stand equal hash n i k (e ∷ c) s = elim (Bool-cases (equal e.key k)) [
  | inl found ↦ rw found s.1
  | inr differs ↦ rw differs (s.0, unlink-Stand equal hash n i k c s.1)
]

set-Placed :
    (hash : ℕ → ℕ) (bs : List (List Entry)) (i : ℕ) (c : List Entry)
    → i < length bs
    → Stand hash (length bs) i c
    → Placed hash bs
    → Placed hash (set bs i c)
set-Placed hash bs i c inside s placed j =
    let size = length-set bs i c in
    let written = chain_at-set bs i j c inside in
    elim (Bool-cases (i == j)) [
      | inl same ↦ rw (size, written, same) (moved hash (length bs) c ((==_iff i j).0 same) s)
      | inr other ↦ rw (size, written, other) (placed j)
    ]

-- What one change of a vector does: under keys equal to `k` the lookup finds `found`, and under no
-- other key it changes.
pub record Put (equal : ℕ → ℕ → Bool) (hash : ℕ → ℕ) (k : ℕ) (found : Option Entry)
    (bs new : List (List Entry)) : Type 0 where
  pub size : length new ≡ length bs
  pub placed : Placed hash new
  pub lookups :
      (q : ℕ) → lookup equal hash q new ≡ (if equal k q then found else lookup equal hash q bs)
  pub once : (q : ℕ) → total (λ e. to_nat (equal e.key q)) (entries new) ≤ 1

module _ {equal : ℕ → ℕ → Bool} {hash : ℕ → ℕ} (laws : IsKeyed equal hash) (k : ℕ)
    (bs : List (List Entry)) (some_chain : 0 < length bs) where
  lookup-set :
      (q : ℕ) (c : List Entry) (found : Option Entry)
      → let i = hash k % length bs in
        (find_entry equal q c ≡ (if equal k q then found else find_entry equal q (chain_at bs i)))
        → lookup equal hash q (set bs i c) ≡ (if equal k q then found else lookup equal hash q bs)
  lookup-set q c found h =
      let i = hash k % length bs in
      let j = hash q % length bs in
      let size = length-set bs i c in
      let written = chain_at-set bs i j c (mod-lt (hash k) some_chain) in
      elim (Bool-cases (i == j)) [
        | inl same ↦
            let here : i ≡ j = (==_iff i j).0 same in
            rw (size, written, same)
              (h ∙ ap (λ n. if equal k q then found else find_entry equal q (chain_at bs n)) here)
        | inr other ↦ elim (Bool-cases (equal k q)) [
          | inl asked ↦
              let here : i ≡ j = ap (λ h. h % length bs) (laws.same_hash k q asked) in
              let here' : (i == j) ≡ true = (==_iff i j).1 here in absurd cc
          | inr differs ↦ rw (size, written, other, differs) refl
        ]
      ]

  pub lookup-congr : (q : ℕ) → equal k q ≡ true → lookup equal hash k bs ≡ lookup equal hash q bs
  lookup-congr q same =
      let here = ap (λ h. h % length bs) (laws.same_hash k q same) in
      find-congr laws k q (chain_at bs (hash k % length bs)) same
      ∙ ap (λ n. find_entry equal q (chain_at bs n)) here

module _ {equal : ℕ → ℕ → Bool} {hash : ℕ → ℕ} (laws : IsKeyed equal hash) (k : ℕ)
    (bs : List (List Entry)) (some_chain : 0 < length bs) (placed : Placed hash bs)
    (once : (q : ℕ) → total (λ e. to_nat (equal e.key q)) (entries bs) ≤ 1) where
  -- The first change: an entry with an equal key takes another equal key and a value.
  pub assign-Put :
      (key value : ℕ) {old : Entry}
      → equal key k ≡ true
      → lookup equal hash k bs ≡ some old
      → let i = hash k % length bs in
        Put equal hash k
          (some (record old { key = key; value = value }))
          bs
          (set bs i (assign_entry equal k key value (chain_at bs i)))
  assign-Put key value {old} same h =
      let i = hash k % length bs in
      let c = chain_at bs i in
      let inside = mod-lt (hash k) some_chain in
      let stands = ap (λ h. h % length bs) (laws.same_hash key k same) in
      record {
        size = length-set bs i (assign_entry equal k key value c);
        placed =
            set-Placed hash bs i _ inside
              (assign-Stand equal hash (length bs) i k key value c stands (placed i)) placed;
        lookups =
            λ q. lookup-set laws k bs some_chain q _ _ (find-assign laws k q key value c same h);
        once = λ q.
            let old_matches = match-shift laws old.key k q (find-matches equal k c h) in
            let new_matches = match-shift laws key k q same in
            let w : Entry → ℕ = λ e. to_nat (equal e.key q) in
            let same_weight = ap to_nat (old_matches ∙ sym new_matches) in
            omega (
              arith,
              once q,
              total-set w bs i (assign_entry equal k key value c) inside,
              total-assign equal w k key value c h,
              same_weight,
            );
      }

  -- The second change: where no key is equal, an entry with such a key is put in front.
  pub front-Put :
      (e : Entry)
      → equal e.key k ≡ true
      → lookup equal hash k bs ≡ none
      → let i = hash k % length bs in Put equal hash k (some e) bs (set bs i (e ∷ chain_at bs i))
  unfolding find_entry
  front-Put e same h =
      let i = hash k % length bs in
      let c = chain_at bs i in
      let inside = mod-lt (hash k) some_chain in
      let stands = ap (λ h. h % length bs) (laws.same_hash e.key k same) in
      record {
        size = length-set bs i (e ∷ c);
        placed = set-Placed hash bs i (e ∷ c) inside (stands, placed i) placed;
        lookups = λ q.
            lookup-set laws k bs some_chain q (e ∷ c) (some e)
              (rw (match-shift laws e.key k q same) refl);
        once = λ q.
            let w : Entry → ℕ = λ x. to_nat (equal x.key q) in
            let matches = match-shift laws e.key k q same in
            let sum = total-set w bs i (e ∷ c) inside in
            elim (Bool-cases (equal k q)) [
              | inl asked ↦
                  let gone =
                    sym (lookup-entries laws q bs placed)
                    ∙ sym (lookup-congr laws k bs some_chain q asked)
                    ∙ h in
                  let nothing = none-total equal q (entries bs) gone in
                  ground (arith, sum, nothing, matches)
              | inr other ↦ ground (arith, sum, once q, matches)
            ];
      }

  -- The third change: the entry with an equal key is unlinked.
  pub unlink-Put :
      {old : Entry}
      → lookup equal hash k bs ≡ some old
      → let i = hash k % length bs in
        Put equal hash k none bs (set bs i (unlink_entry equal k (chain_at bs i)))
  unlink-Put {old} h =
      let i = hash k % length bs in
      let c = chain_at bs i in
      let inside = mod-lt (hash k) some_chain in
      let w : Entry → ℕ = λ e. to_nat (equal e.key k) in
      let few : total w c ≤ 1 = omega (arith, once k, total-set w bs i [] inside) in
      record {
        size = length-set bs i (unlink_entry equal k c);
        placed =
            set-Placed hash bs i _ inside (unlink-Stand equal hash (length bs) i k c (placed i))
              placed;
        lookups = λ q. lookup-set laws k bs some_chain q _ none (find-unlink laws k q c few);
        once = λ q.
            let w : Entry → ℕ = λ e. to_nat (equal e.key q) in
            omega (
              arith,
              once q,
              total-set w bs i (unlink_entry equal k c) inside,
              total-unlink equal w k c h,
            );
      }
