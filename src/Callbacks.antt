-- ===== src/Callbacks.antt =====
-- The callbacks of a collection (libwired/collections/wi-array.h and its siblings). Data are
-- `void *` pointers, and a pointer is a number; 0 is NULL. A function pointer is NULL, a function
-- of the runtime that the code compares it with, or any other function.
use Prim.Native.Nat.{Ordering, bit_xor, ◌/◌, ◌%◌, ◌^◌}
use libwired.Base.{
  ℕ, ◌+◌, ◌≡◌, Bool, true, false, not, ◌==◌, ltb, if◌then◌else◌, to_nat, List, [], ◌∷◌, Run,
  wi_assert, count, arith,
}

-- `wi_retain_func_t *`: the function returns the reference that the collection stores.
pub data Retain : Type 0 where
  null wi_retain : Retain
  wi_copy other : (ℕ → ℕ) → Retain

-- `wi_release_func_t *`
pub data Release : Type 0 where
  null wi_release other : Release

-- `wi_is_equal_func_t *`, as its address and what it computes
pub data IsEqual : Type 0 where
  null : IsEqual
  func : ℕ → (ℕ → ℕ → Bool) → IsEqual

pub record Callbacks : Type 0 where
  pub retain : Retain
  pub release : Release
  pub is_equal : IsEqual

-- `wi_array_null_callbacks`
abbrev pub null_callbacks : Callbacks
null_callbacks = record { retain = Retain.null; release = Release.null; is_equal = IsEqual.null }

-- `wi_array_default_callbacks`, given the address of `wi_is_equal` and what it computes
abbrev pub default_callbacks : ℕ → (ℕ → ℕ → Bool) → Callbacks
default_callbacks address wi_is_equal = record {
  retain = Retain.wi_retain;
  release = Release.wi_release;
  is_equal = IsEqual.func address wi_is_equal;
}

-- A call that a collection made: a reference that it acquired, or one that it released.
pub data Call : Type 0 where
  acquired released : ℕ → Call

-- The reference that is stored: `wi_retain` returns its argument.
abbrev pub retained : Callbacks → ℕ → ℕ
retained cb d = elim cb.retain [ null ↦ d | wi_retain ↦ d | wi_copy f ↦ f d | other f ↦ f d ]

abbrev pub retain_calls : Callbacks → ℕ → List Call → List Call
retain_calls cb d calls = elim cb.retain [
  | null ↦ calls
  | wi_retain ↦ acquired d ∷ calls
  | wi_copy f ↦ acquired (f d) ∷ calls
  | other f ↦ acquired (f d) ∷ calls
]

abbrev pub release_calls : Callbacks → ℕ → List Call → List Call
release_calls cb d calls = elim cb.release [
  | null ↦ calls
  | wi_release ↦ released d ∷ calls
  | other ↦ released d ∷ calls
]

abbrev pub is_equal_data : Callbacks → ℕ → ℕ → Bool
is_equal_data cb a b = elim cb.is_equal [ null ↦ a == b | func _ f ↦ f a b ]

-- `callbacks1.is_equal != callbacks2.is_equal`, negated
abbrev pub same_is_equal : IsEqual → IsEqual → Bool
same_is_equal IsEqual.null IsEqual.null = true
same_is_equal (IsEqual.func p f) (IsEqual.func q g) = p == q
same_is_equal _ _ = false

-- The datum passes the check against NULL that is made if the callback is the runtime's.
abbrev pub insertable : Callbacks → ℕ → Bool
insertable cb d = elim cb.retain [
  | null ↦ true
  | wi_retain ↦ not (d == 0)
  | wi_copy f ↦ true
  | other f ↦ true
]

abbrev pub removable : Callbacks → ℕ → Bool
removable cb d = elim cb.release [ null ↦ true | wi_release ↦ not (d == 0) | other ↦ true ]

-- `if(callbacks.retain == wi_retain) WI_ASSERT(data != NULL, ...)`
abbrev pub assert_insertable : Callbacks → ℕ → Run (Unit {0})
assert_insertable cb d = wi_assert (insertable cb d)

-- `if(callbacks.release == wi_release) WI_ASSERT(data != NULL, ...)`
abbrev pub assert_removable : Callbacks → ℕ → Run (Unit {0})
assert_removable cb d = wi_assert (removable cb d)

-- The check of a dictionary's key, made if the callback is `wi_copy`.
abbrev pub insertable_key : Callbacks → ℕ → Bool
insertable_key cb d = elim cb.retain [
  | null ↦ true
  | wi_retain ↦ true
  | wi_copy f ↦ not (d == 0)
  | other f ↦ true
]

-- `wi_hash_func_t *`
pub data Hash : Type 0 where
  null : Hash
  func : (ℕ → ℕ) → Hash

-- `wi_hash_pointer` on 64 bits: the high half mixed into the low one.
unfoldable pub hash_pointer : ℕ → ℕ
hash_pointer p = bit_xor (p / 2 ^ 32) p

unfoldable pub hash_data : Hash → ℕ → ℕ
unfolding hash_pointer
hash_data hash d = elim hash [ null ↦ hash_pointer d | func f ↦ f d ]

-- `wi_compare_func_t`, where only the sign of the wi_integer_t that it returns is used
abbrev pub Compare : Type 0
Compare = ℕ → ℕ → Ordering

-- `wi_compare_func_t`, with the wi_integer_t that it returns as a word of 64 bits
abbrev pub CompareFunc : Type 0
CompareFunc = ℕ → ℕ → ℕ

-- The sign of a word, given the first that stands for a negative number.
unfoldable pub sign : ℕ → ℕ → Ordering
sign first r = if r == 0 then Ordering.eq else if ltb r first then Ordering.gt else Ordering.lt

-- The sign that is left when a wi_integer_t is returned as an `int`: that of its low 32 bits.
unfoldable pub int_sign : ℕ → Ordering
unfolding sign
int_sign r = sign (2 ^ 31) (r % 2 ^ 32)

-- `_wi_array_compare_data`, which `qsort` calls
unfoldable pub compare_data : CompareFunc → Compare
unfolding int_sign
compare_data compare a b = int_sign (compare a b)

abbrev pub count_acquired : ℕ → List Call → ℕ
count_acquired a [] = 0
count_acquired a (acquired d ∷ calls) = to_nat (a == d) + count_acquired a calls
count_acquired a (released d ∷ calls) = count_acquired a calls

abbrev pub count_released : ℕ → List Call → ℕ
count_released a [] = 0
count_released a (acquired d ∷ calls) = count_released a calls
count_released a (released d ∷ calls) = to_nat (a == d) + count_released a calls

abbrev pub has_retain : Callbacks → Bool
has_retain cb = elim cb.retain [
  | null ↦ false
  | wi_retain ↦ true
  | wi_copy f ↦ true
  | other f ↦ true
]

abbrev pub has_release : Callbacks → Bool
has_release cb = elim cb.release [ null ↦ false | wi_release ↦ true | other ↦ true ]

-- Every acquired reference was released, or is one of those that are held. Without callbacks
-- there is none. A client gives both callbacks or neither.
pub record IsBalanced (cb : Callbacks) (calls : List Call) (held : List ℕ) : Type 0 where
  pub paired : has_retain cb ≡ has_release cb
  pub books :
      (d : ℕ)
      → count_acquired d calls
        ≡ count_released d calls + (if has_retain cb then count d held else 0)

module _ {cb : Callbacks} {calls : List Call} {held : List ℕ} (v : IsBalanced cb calls held) where
  pub retain-IsBalanced : (d : ℕ) → IsBalanced cb (retain_calls cb d calls) (retained cb d ∷ held)
  retain-IsBalanced d = record { paired = v.paired; books = λ q. ground (arith, v.books q) }

  pub release-IsBalanced :
      (d : ℕ) (rest : List ℕ)
      → ((q : ℕ) → to_nat (q == d) + count q rest ≡ count q held)
      → IsBalanced cb (release_calls cb d calls) rest
  release-IsBalanced d rest same = record {
    paired = v.paired;
    books = λ q. ground (arith, v.books q, v.paired, same q);
  }

  pub perm-IsBalanced :
      (held' : List ℕ) → ((q : ℕ) → count q held' ≡ count q held) → IsBalanced cb calls held'
  perm-IsBalanced held' same = record {
    paired = v.paired;
    books = λ q. ground (arith, v.books q, same q);
  }
