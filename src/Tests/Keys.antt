-- ===== src/Tests/Keys.antt =====
-- A sample dictionary and a sample set, with their invariants.
use libwired.Base.{zero, suc, refl, true, false, [], ◌∷◌, ◌==◌, replicate, arith}
use libwired.Callbacks.{acquired, null_callbacks, default_callbacks, Hash, hash_data}
use libwired.Chains.Rehash.{Placed}
use libwired.Chains.Fresh.{chain_at-replicate}
use libwired.Dictionary.State.{Dictionary, key_code}
use libwired.Dictionary.Valid.{IsValid}
use libwired.HashSet.State.{HashSet}
use libwired.HashSet.Valid

-- A dictionary of the smallest size in which two keys share a chain
abbrev pub three_keys : Dictionary
three_keys = record {
  mutable = true;
  key_callbacks = null_callbacks;
  key_hash = Hash.func (λ k. k);
  value_callbacks = default_callbacks 1 ◌==◌;
  buckets =
      []
      ∷ (record { cell = 1; key = 12; value = 6 } ∷ record { cell = 0; key = 1; value = 5 } ∷ [])
      ∷ []
      ∷ (record { cell = 2; key = 3; value = 5 } ∷ [])
      ∷ replicate 7 [];
  min_count = 11;
  key_count = 3;
  cells = record { per_page = 4; chunks_count = 1; chunks_offset = 3; free_list = [] };
  key_calls = [];
  value_calls = acquired 5 ∷ acquired 6 ∷ acquired 5 ∷ [];
}

three_keys-Placed : Placed (key_code three_keys) three_keys.buckets
unfolding hash_data
three_keys-Placed zero = tt
three_keys-Placed (suc zero) = (refl, (refl, tt))
three_keys-Placed (suc (suc zero)) = tt
three_keys-Placed (suc (suc (suc zero))) = (refl, tt)
three_keys-Placed (suc (suc (suc (suc i)))) = rw (chain_at-replicate 7 i) tt

pub three_keys-IsValid : IsValid three_keys
unfolding hash_data
three_keys-IsValid = record {
  laws = record {
    reflexive = λ a. ground arith;
    symmetric = λ a b h. ground arith;
    transitive = λ a b c h k. ground arith;
    same_hash = λ a b h. ground arith;
  };
  stored = λ k. ground arith;
  some_min = omega arith;
  some_chain = omega arith;
  placed = three_keys-Placed;
  once = λ q. ground arith;
  owns = record {
    tidy = record {
      page = omega arith;
      within = omega arith;
      started = omega arith;
      split = λ a. ground arith;
    };
    keys = record { paired = refl; books = λ q. ground arith };
    values = record { paired = refl; books = λ q. ground arith };
    counted = refl;
  };
}

-- A counted set with the same chains
abbrev pub counted_set : HashSet
counted_set = record {
  mutable = true;
  counted = true;
  callbacks = null_callbacks;
  data_hash = Hash.func (λ k. k);
  buckets = three_keys.buckets;
  min_count = 11;
  data_count = 3;
  cells = three_keys.cells;
  calls = [];
}

pub counted_set-IsValid : libwired.HashSet.Valid.IsValid counted_set
unfolding hash_data
counted_set-IsValid = record {
  laws = three_keys-IsValid.laws;
  stored = three_keys-IsValid.stored;
  some_min = omega arith;
  some_chain = omega arith;
  placed = three_keys-Placed;
  once = three_keys-IsValid.once;
  owns = record {
    tidy = three_keys-IsValid.owns.tidy;
    references = three_keys-IsValid.owns.keys;
    counted = refl;
    positive = refl;
  };
}

-- An immutable dictionary of one key, without callbacks for its value
abbrev pub one_key : Dictionary
one_key = record three_keys {
  mutable = false;
  value_callbacks = null_callbacks;
  buckets = [] ∷ (record { cell = 0; key = 12; value = 8 } ∷ []) ∷ replicate 9 [];
  key_count = 1;
  cells = record { per_page = 4; chunks_count = 1; chunks_offset = 1; free_list = [] };
  value_calls = [];
}

one_key-Placed : Placed (key_code one_key) one_key.buckets
unfolding hash_data
one_key-Placed zero = tt
one_key-Placed (suc zero) = (refl, tt)
one_key-Placed (suc (suc i)) = rw (chain_at-replicate 9 i) tt

pub one_key-IsValid : IsValid one_key
unfolding hash_data
one_key-IsValid = record {
  laws = three_keys-IsValid.laws;
  stored = three_keys-IsValid.stored;
  some_min = omega arith;
  some_chain = omega arith;
  placed = one_key-Placed;
  once = λ q. ground arith;
  owns = record {
    tidy = record {
      page = omega arith;
      within = omega arith;
      started = omega arith;
      split = λ a. ground arith;
    };
    keys = record { paired = refl; books = λ q. ground arith };
    values = record { paired = refl; books = λ q. ground arith };
    counted = refl;
  };
}
