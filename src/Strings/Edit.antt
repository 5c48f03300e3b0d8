-- ===== src/Strings/Edit.antt =====
-- The functions of libwired/data/wi-string.c that change a string, `wi_mutable_string_...`, but for
-- those of paths and formats.
use libwired.Base.{
  ℕ, zero, suc, ◌+◌, ◌-◌, Bool, true, false, ◌||◌, List, [], ◌∷◌, none, some, map, get_elem?, ltb,
  ◌==◌, if◌then◌else◌, Run, ok, bad_access, ◌>>=◌, ◌>>◌,
}
use libwired.Memory.{read_bytes, write_bytes, memmove}
use libwired.Strings.State.{
  String, word_add, word_sub, assert_mutable, assert_index, assert_range, terminate, make_room,
  append_utf8_string, mutable_copy, make_immutable, init_with_utf8_bytes, tolower, toupper,
}

unfoldable pub set_string : List ℕ → String → String → Run String
set_string junk s other = do
  assert_mutable s
  m ← write_bytes s.string 0 (0 ∷ [])
  append_utf8_string junk (record s { string = m; length = 0 }) other.string

unfoldable pub append_string : List ℕ → String → String → Run String
append_string junk s other = do assert_mutable s; append_utf8_string junk s other.string

-- The first `memmove` moves as many bytes as the string has, from `index` on.
unfoldable pub insert_string_at_index : List ℕ → String → String → ℕ → Run String
insert_string_at_index junk s other index = do
  assert_mutable s
  assert_index s index
  let n = other.length
  let t = make_room junk s n
  m ← memmove t.string (index + n) index t.length
  bs ← read_bytes other.string 0 n
  m ← write_bytes m index bs
  terminate (record t { string = m; length = t.length + n })

unfoldable pub delete_characters_in_range : String → ℕ → ℕ → Run String
delete_characters_in_range s location n = do
  assert_mutable s
  assert_range s location n
  m ←
      (if ltb (word_add location n) s.length
        then memmove s.string location (word_add location n)
            (word_sub (word_sub s.length location) n)
        else ok s.string)
  terminate (record s { string = m; length = word_sub s.length n })

unfoldable pub delete_characters_from_index : String → ℕ → Run String
unfolding delete_characters_in_range
delete_characters_from_index s index = do
  assert_mutable s
  delete_characters_in_range s index (word_sub s.length index)

unfoldable pub delete_characters_to_index : String → ℕ → Run String
unfolding delete_characters_in_range
delete_characters_to_index s index = do assert_mutable s; delete_characters_in_range s 0 index

unfoldable pub replace_characters_in_range : List ℕ → String → ℕ → ℕ → String → Run String
unfolding delete_characters_in_range insert_string_at_index
replace_characters_in_range junk s location n replacement = do
  assert_mutable s
  assert_range s location n
  t ← delete_characters_in_range s location n
  insert_string_at_index junk t replacement location

unfoldable pub char_is_whitespace : ℕ → Bool
char_is_whitespace ch = ch == 32 || (ch == 9 || ch == 10)

-- `length > 0 && _wi_mutable_string_char_is_whitespace(string[index])`
unfoldable pub whitespace_at : String → ℕ → Run Bool
unfolding char_is_whitespace
whitespace_at s index = if s.length == 0 then ok false else elim (get_elem? s.string index) [
  | some ch ↦ ok (char_is_whitespace ch)
  | none ↦ bad_access
]

-- The two loops of `wi_mutable_string_delete_surrounding_whitespace`, on fuel: a round takes a byte.
unfoldable pub trim_front : ℕ → String → Run String
unfolding whitespace_at delete_characters_in_range
trim_front zero s = bad_access
trim_front (suc fuel) s = do
  white ← whitespace_at s 0
  elim white [ false ↦ ok s | true ↦ delete_characters_in_range s 0 1 >>= λ t. trim_front fuel t ]

unfoldable pub trim_back : ℕ → String → Run String
unfolding whitespace_at delete_characters_in_range
trim_back zero s = bad_access
trim_back (suc fuel) s = do
  white ← whitespace_at s (s.length - 1)
  elim white [
    | false ↦ ok s
    | true ↦ delete_characters_in_range s (s.length - 1) 1 >>= λ t. trim_back fuel t
  ]

unfoldable pub delete_surrounding_whitespace : String → Run String
unfolding trim_front trim_back
delete_surrounding_whitespace s = do
  assert_mutable s
  t ← trim_front (suc s.length) s
  trim_back (suc t.length) t

-- The functions `wi_string_by_...`: a mutable copy is changed and made immutable.
abbrev pub by_changing : List ℕ → String → (String → Run String) → Run String
by_changing junk s change = do t ← mutable_copy junk s; u ← change t; ok (make_immutable u)

unfoldable pub by_appending_string : List ℕ → String → String → Run String
by_appending_string junk s other = by_changing junk s (λ t. append_string junk t other)

unfoldable pub by_inserting_string_at_index : List ℕ → String → String → ℕ → Run String
by_inserting_string_at_index junk s other index =
    by_changing junk s (λ t. insert_string_at_index junk t other index)

unfoldable pub by_replacing_characters_in_range : List ℕ → String → ℕ → ℕ → String → Run String
by_replacing_characters_in_range junk s location n replacement =
    by_changing junk s (λ t. replace_characters_in_range junk t location n replacement)

unfoldable pub by_deleting_characters_in_range : List ℕ → String → ℕ → ℕ → Run String
by_deleting_characters_in_range junk s location n =
    by_changing junk s (λ t. delete_characters_in_range t location n)

unfoldable pub by_deleting_characters_from_index : List ℕ → String → ℕ → Run String
by_deleting_characters_from_index junk s index =
    by_changing junk s (λ t. delete_characters_from_index t index)

unfoldable pub by_deleting_characters_to_index : List ℕ → String → ℕ → Run String
by_deleting_characters_to_index junk s index =
    by_changing junk s (λ t. delete_characters_to_index t index)

unfoldable pub by_deleting_surrounding_whitespace : List ℕ → String → Run String
by_deleting_surrounding_whitespace junk s =
    by_changing junk s (λ t. delete_surrounding_whitespace t)

unfoldable pub substring_with_range : List ℕ → String → ℕ → ℕ → Run String
substring_with_range junk s location n = do
  assert_range s location n
  bs ← read_bytes s.string location n
  init_with_utf8_bytes junk false bs

unfoldable pub substring_from_index : List ℕ → String → ℕ → Run String
unfolding substring_with_range
substring_from_index junk s index = substring_with_range junk s index (word_sub s.length index)

unfoldable pub substring_to_index : List ℕ → String → ℕ → Run String
unfolding substring_with_range
substring_to_index junk s index = substring_with_range junk s 0 index

-- The loops write in place, `string[i] = f(string[i])` below the length.
abbrev pub map_bytes : (ℕ → ℕ) → String → Run String
map_bytes f s = do
  bs ← read_bytes s.string 0 s.length
  m ← write_bytes s.string 0 (map f bs)
  ok (record s { string = m })

unfoldable pub lowercase_string : List ℕ → String → Run String
lowercase_string junk s = by_changing junk s (map_bytes tolower)

unfoldable pub uppercase_string : List ℕ → String → Run String
uppercase_string junk s = by_changing junk s (map_bytes toupper)
