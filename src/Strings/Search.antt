-- ===== src/Strings/Search.antt =====
-- The functions of libwired/data/wi-string.c that look for bytes in a string and take it apart. The
-- searches of libwired/compat/wi-compat.c are parameters.
use Prim.Native.Nat.{Ordering}
use libwired.Base.{
  ℕ, zero, suc, ◌+◌, ◌-◌, Bool, true, false, not, ◌&&◌, ◌||◌, List, [], ◌∷◌, ◌++◌, Option, none,
  some, length, take, drop, ltb, ◌==◌, if◌then◌else◌, Run, ok, bad_access, ◌>>=◌, ◌>>◌,
}
use libwired.Memory.{read_bytes, c_string}
use libwired.Strings.State.{
  String, word_add, assert_range, strcmp, isupper, tolower, init_with_utf8_string,
}

-- `wi_strnstr`, `wi_strncasestr`, `wi_strrnstr` and `wi_strrncasestr`, on the block from the pointer
-- on, the block of the string to find, and a number of bytes; a pointer that they return is given by
-- its distance. `wi_strsep`, on a C string and the delimiters: the token and what is left, if it has
-- met a delimiter.
pub record Compat : Type 0 where
  pub strnstr : List ℕ → List ℕ → ℕ → Option ℕ
  pub strncasestr : List ℕ → List ℕ → ℕ → Option ℕ
  pub strrnstr : List ℕ → List ℕ → ℕ → Option ℕ
  pub strrncasestr : List ℕ → List ℕ → ℕ → Option ℕ
  pub strsep : List ℕ → List ℕ → List ℕ × Option (List ℕ)

-- `wi_string_options_t`: its three bits
pub record Options : Type 0 where
  pub backwards : Bool
  pub case_insensitive : Bool
  pub smart_case_insensitive : Bool

-- `WI_NOT_FOUND`
abbrev pub not_found : ℕ
not_found = 9223372036854775807

abbrev pub any_upper : List ℕ → Bool
any_upper [] = false
any_upper (c ∷ cs) = isupper c || any_upper cs

unfoldable pub is_insensitive : Options → String → Run Bool
is_insensitive options other =
    if options.case_insensitive
    then ok true
    else if options.smart_case_insensitive
    then (read_bytes other.string 0 other.length >>= λ bs. ok (not (any_upper bs)))
    else ok false

abbrev pub search : Compat → Bool → Bool → List ℕ → List ℕ → ℕ → Option ℕ
search c true true = c.strrncasestr
search c true false = c.strrnstr
search c false true = c.strncasestr
search c false false = c.strnstr

unfoldable pub index_of_string_in_range : Compat → String → String → Options → ℕ → ℕ → Run ℕ
unfolding is_insensitive
index_of_string_in_range c s other options location n = do
  assert_range s location n
  if n == 0 then ok not_found else do
    insensitive ← is_insensitive options other
    elim (search c options.backwards insensitive (drop location s.string) other.string n) [
      | none ↦ ok not_found
      | some distance ↦ ok (
          if ltb (word_add location n) (location + distance)
          then not_found
          else location + distance)
    ]

-- `wi_range_t`
pub record Range : Type 0 where
  pub location : ℕ
  pub length : ℕ

unfoldable pub range_of_string_in_range : Compat → String → String → Options → ℕ → ℕ → Run Range
unfolding index_of_string_in_range
range_of_string_in_range c s other options location n = do
  index ← index_of_string_in_range c s other options location n
  ok (record { location = index; length = if index == not_found then 0 else other.length })

unfoldable pub range_of_string : Compat → String → String → Options → Run Range
unfolding range_of_string_in_range
range_of_string c s other options = range_of_string_in_range c s other options 0 s.length

unfoldable pub index_of_string : Compat → String → String → Options → Run ℕ
unfolding index_of_string_in_range
index_of_string c s other options = index_of_string_in_range c s other options 0 s.length

-- The loop over the bytes in front of the NUL: the first index where the byte is `ch`, or, if
-- backwards, the last.
unfoldable pub scan_char : Bool → Bool → ℕ → List ℕ → ℕ → ℕ → ℕ
scan_char insensitive backwards ch [] i index = index
scan_char insensitive backwards ch (b ∷ bs) i index =
    let c = if insensitive then tolower b else b in
    let rest = scan_char insensitive backwards ch bs (i + 1) (if c == ch then i else index) in
    if c == ch && not backwards then i else rest

unfoldable pub index_of_char : String → ℕ → Options → Run ℕ
unfolding scan_char
index_of_char s ch options = do
  bs ← c_string s.string
  let insensitive = options.case_insensitive || (options.smart_case_insensitive && not (isupper ch))
  ok (
      scan_char insensitive options.backwards (if insensitive then tolower ch else ch) bs 0
        not_found)

unfoldable pub contains_string : Compat → String → String → Options → Run Bool
unfolding index_of_string
contains_string c s other options = do
  index ← index_of_string c s other options
  ok (not (index == not_found))

abbrev pub is_eq : Ordering → Bool
is_eq Ordering.eq = true
is_eq _ = false

-- `strncmp` sees at most that many bytes of both.
unfoldable pub has_prefix : String → String → Run Bool
has_prefix s prefix = do
  a ← c_string s.string
  b ← c_string prefix.string
  ok (is_eq (strcmp (take prefix.length a) (take prefix.length b)))

unfoldable pub has_suffix : String → String → Run Bool
has_suffix s suffix = if ltb s.length suffix.length then ok false else do
  a ← c_string (drop (s.length - suffix.length) s.string)
  b ← c_string suffix.string
  ok (is_eq (strcmp a b))

-- The loop on fuel: a round shortens the rest, unless it is the last.
unfoldable pub separate : List ℕ → Compat → List ℕ → ℕ → List ℕ → Run (List String)
separate junk c delimiters zero rest = bad_access
separate junk c delimiters (suc fuel) rest =
    let (token, left) = c.strsep rest delimiters in
    do
      component ← init_with_utf8_string junk false (token ++ 0 ∷ [])
      elim left [
        | none ↦ ok (component ∷ [])
        | some rest ↦ separate junk c delimiters fuel rest >>= λ others. ok (component ∷ others)
      ]

unfoldable pub components_separated_by_string :
    List ℕ → Compat → String → String → Run (List String)
unfolding separate
components_separated_by_string junk c s separator = do
  bs ← c_string s.string
  delimiters ← c_string separator.string
  separate junk c delimiters (suc (length bs)) bs
