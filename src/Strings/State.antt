-- ===== src/Strings/State.antt =====
-- The state of a string and the functions of libwired/data/wi-string.c that make one, fill it and
-- read it. The contents are bytes; the instance of a call is never the object it reads from.
use Prim.Native.Nat.{Ordering, compare}
use libwired.Base.{
  ℕ, ◌+◌, ◌-◌, ◌%◌, Bool, true, false, ◌&&◌, List, [], ◌∷◌, Option, none, some, map, length,
  get_elem?, max, leb, if◌then◌else◌, Run, ok, bad_access, ◌>>=◌, ◌>>◌, wi_assert,
}
use libwired.Numbers.{log2, exp2m1}
use libwired.Memory.{read_bytes, write_bytes, wi_malloc, wi_realloc, c_string}

-- `struct _wi_string`: the block behind the pointer `string`, whose size `capacity` states, and the
-- number of bytes in front of the NUL. `mutable` is the runtime's option.
pub record String : Type 0 where
  pub mutable : Bool
  pub string : List ℕ
  pub length : ℕ
  pub capacity : ℕ

-- `_WI_STRING_MIN_SIZE`
abbrev pub string_min_size : ℕ
string_min_size = 256

-- Sums and differences of wi_uinteger_t wrap around.
abbrev pub word_add : ℕ → ℕ → ℕ
word_add a b = (a + b) % 18446744073709551616

abbrev pub word_sub : ℕ → ℕ → ℕ
word_sub a b = (a + (18446744073709551616 - b)) % 18446744073709551616

-- The capacity that an initialiser and `_wi_string_grow` choose for a number of bytes.
unfoldable pub capacity_for : ℕ → ℕ
capacity_for n = max (exp2m1 (log2 n + 1)) string_min_size

unfoldable pub init_with_capacity : Bool → ℕ → String
init_with_capacity mutable n = record {
  mutable = mutable;
  string = wi_malloc (capacity_for n);
  length = 0;
  capacity = capacity_for n;
}

-- `wi_string_init`
unfoldable pub init : Bool → String
unfolding init_with_capacity
init mutable = init_with_capacity mutable 0

-- `WI_RUNTIME_ASSERT_MUTABLE`
abbrev pub assert_mutable : String → Run (Unit {0})
assert_mutable s = wi_assert s.mutable

-- `_WI_STRING_INDEX_ASSERT`
abbrev pub assert_index : String → ℕ → Run (Unit {0})
assert_index s index = wi_assert (leb index s.length)

-- `_WI_STRING_RANGE_ASSERT`: the end of the range may have wrapped around.
abbrev pub assert_range : String → ℕ → ℕ → Run (Unit {0})
assert_range s location n = do assert_index s location; assert_index s (word_add location n)

-- `string->string[string->length] = '\0'`
unfoldable pub terminate : String → Run String
terminate s = do m ← write_bytes s.string s.length (0 ∷ []); ok (record s { string = m })

-- `_wi_string_grow`
unfoldable pub grow : List ℕ → String → ℕ → String
grow junk s n = record s {
  string = wi_realloc junk s.string (capacity_for n);
  capacity = capacity_for n;
}

-- `_WI_STRING_GROW`
unfoldable pub make_room : List ℕ → String → ℕ → String
make_room junk s n = if leb s.capacity (s.length + n) then grow junk s (s.length + n) else s

unfoldable pub append_utf8_bytes : List ℕ → String → List ℕ → Run String
append_utf8_bytes junk s bs =
    let t = make_room junk s (length bs) in
    do
      m ← write_bytes t.string t.length bs
      terminate (record t { string = m; length = t.length + length bs })

-- The argument is the block that the `const char *` points into.
unfoldable pub append_utf8_string : List ℕ → String → List ℕ → Run String
unfolding append_utf8_bytes
append_utf8_string junk s block = do bs ← c_string block; append_utf8_bytes junk s bs

unfoldable pub init_with_utf8_bytes : List ℕ → Bool → List ℕ → Run String
unfolding append_utf8_bytes
init_with_utf8_bytes junk mutable bs =
    append_utf8_bytes junk (init_with_capacity mutable (length bs)) bs

unfoldable pub init_with_utf8_string : List ℕ → Bool → List ℕ → Run String
unfolding append_utf8_string
init_with_utf8_string junk mutable block = do
  bs ← c_string block
  append_utf8_string junk (init_with_capacity mutable (length bs)) block

-- `_wi_string_copy`
unfoldable pub copy : List ℕ → String → Run String
unfolding init_with_utf8_string
copy junk s = init_with_utf8_string junk false s.string

-- `wi_mutable_copy` and `wi_runtime_make_immutable`, on a string.
unfoldable pub mutable_copy : List ℕ → String → Run String
unfolding copy
mutable_copy junk s = do t ← copy junk s; ok (record t { mutable = true })

abbrev pub make_immutable : String → String
make_immutable s = record s { mutable = false }

-- What `strcmp` and `strcasecmp` return, by its sign.
abbrev pub strcmp : List ℕ → List ℕ → Ordering
strcmp [] [] = Ordering.eq
strcmp [] (y ∷ ys) = Ordering.lt
strcmp (x ∷ xs) [] = Ordering.gt
strcmp (x ∷ xs) (y ∷ ys) =
    let rest = strcmp xs ys in elim (compare x y) [ Ordering.eq ↦ rest | o ↦ o ]

abbrev pub toupper : ℕ → ℕ
toupper c = if leb 97 c && leb c 122 then c - 32 else c

abbrev pub isupper : ℕ → Bool
isupper c = leb 65 c && leb c 90

abbrev pub tolower : ℕ → ℕ
tolower c = if isupper c then c + 32 else c

unfoldable pub string_compare : String → String → Run Ordering
string_compare s t = do a ← c_string s.string; b ← c_string t.string; ok (strcmp a b)

unfoldable pub case_insensitive_compare : String → String → Run Ordering
case_insensitive_compare s t = do
  a ← c_string s.string
  b ← c_string t.string
  ok (strcmp (map tolower a) (map tolower b))

-- `_wi_string_is_equal`
unfoldable pub is_equal : String → String → Run Bool
unfolding string_compare
is_equal s t = do o ← string_compare s t; ok (elim o [ Ordering.eq ↦ true | _ ↦ false ])

-- `wi_string_length` of a pointer that may be NULL.
unfoldable pub string_length : Option String → ℕ
string_length none = 0
string_length (some s) = s.length

-- The byte behind the last is the NUL, and may be asked for.
unfoldable pub character_at_index : String → ℕ → Run ℕ
character_at_index s index = do
  assert_index s index
  elim (get_elem? s.string index) [ some c ↦ ok c | none ↦ bad_access ]

-- `wi_string_utf8_data` copies that many bytes of the block.
unfoldable pub utf8_data : String → Run (List ℕ)
utf8_data s = read_bytes s.string 0 s.length
