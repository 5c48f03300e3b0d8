-- ===== src/Chains.antt =====
-- The vector of chains that libwired/collections/wi-dictionary.c and wi-set.c both keep: the
-- lookup in a chain, the changes of a chain, and the rehash of all entries.
pub mod Totals
pub mod Lookup
pub mod Rehash
pub mod Fresh
pub mod Update
pub mod Enumerate
use libwired.Base.{
  ℕ, zero, suc, ◌+◌, ◌%◌, ◌≡◌, Bool, true, false, List, [], ◌∷◌, ◌++◌, Option, none, some, length,
  get_or, set, replicate, if◌then◌else◌,
}

-- A bucket: the cell it stands in, and its two data. `next` is the order of the chain.
pub record Entry : Type 0 where
  pub cell : ℕ
  pub key : ℕ
  pub value : ℕ

-- All entries, bucket by bucket, as the loops over a container meet them.
abbrev pub entries : List (List Entry) → List Entry
entries [] = []
entries (c ∷ cs) = c ++ entries cs

abbrev pub chain_at : List (List Entry) → ℕ → List Entry
chain_at bs i = get_or bs i []

module _ (equal : ℕ → ℕ → Bool) where
  -- The first entry of the chain with an equal key.
  unfoldable pub find_entry : ℕ → List Entry → Option Entry
  find_entry k [] = none
  find_entry k (e ∷ c) = if equal e.key k then some e else find_entry k c

  -- That entry is given a new key and a new value, in place.
  unfoldable pub assign_entry : ℕ → ℕ → ℕ → List Entry → List Entry
  assign_entry k key value [] = []
  assign_entry k key value (e ∷ c) =
      if equal e.key k
      then record e { key = key; value = value } ∷ c
      else e ∷ assign_entry k key value c

  -- That entry is unlinked.
  unfoldable pub unlink_entry : ℕ → List Entry → List Entry
  unlink_entry k [] = []
  unlink_entry k (e ∷ c) = if equal e.key k then c else e ∷ unlink_entry k c

module _ (hash : ℕ → ℕ) where
  -- `bucket->next = buckets[index]; buckets[index] = bucket;`
  unfoldable pub push_entry : Entry → List (List Entry) → List (List Entry)
  push_entry e bs = let i = hash e.key % length bs in set bs i (e ∷ chain_at bs i)

  unfoldable pub rehash_chain : List Entry → List (List Entry) → List (List Entry)
  unfolding push_entry
  rehash_chain [] fresh = fresh
  rehash_chain (e ∷ c) fresh = rehash_chain c (push_entry e fresh)

  unfoldable pub rehash_all : List (List Entry) → List (List Entry) → List (List Entry)
  unfolding rehash_chain
  rehash_all [] fresh = fresh
  rehash_all (c ∷ cs) fresh = rehash_all cs (rehash_chain c fresh)
