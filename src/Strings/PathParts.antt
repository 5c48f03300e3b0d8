-- ===== src/Strings/PathParts.antt =====
-- The functions of libwired/data/wi-string.c on the last component and the extension of a path, and
-- those that make a changed copy of it.
use libwired.Base.{
  ℕ, zero, suc, ◌+◌, ◌-◌, true, false, not, ◌&&◌, List, [], ◌∷◌, length, remove_at, ltb, ◌==◌,
  if◌then◌else◌, Run, ok, bad_access, ◌>>=◌, ◌>>◌,
}
use libwired.Strings.State.{String, word_sub, assert_mutable, is_equal}
use libwired.Strings.Edit.{
  set_string, append_string, delete_characters_from_index, by_changing,
  by_deleting_characters_to_index, substring_with_range,
}
use libwired.Strings.Search.{
  Compat, not_found, index_of_string_in_range, index_of_char, has_prefix, has_suffix,
}
use libwired.Strings.Paths.{
  Users, constant_string, slash, backwards, append_format_object, components_joined_by_string,
  path_components, expand_tilde_in_path, normalize_path,
}

unfoldable pub append_path_component : List ℕ → String → String → Run String
unfolding append_string has_suffix has_prefix delete_characters_from_index append_format_object
    is_equal
append_path_component junk path component = do
  assert_mutable path
  elim (path.length == 0) [
    | true ↦ append_string junk path component
    | false ↦ do
      ends ← has_suffix path slash
      elim ends [
        | true ↦ do
          starts ← has_prefix component slash
          shorter ←
              (if starts
                then delete_characters_from_index path (word_sub path.length 1)
                else ok path)
          append_string junk shorter component
        | false ↦ do
          root ← is_equal component slash
          elim root [
            | true ↦ ok path
            | false ↦ do assert_mutable path; append_format_object junk path (47 ∷ []) component
          ]
      ]
  ]

unfoldable pub append_each_component : List ℕ → String → List String → Run String
unfolding append_path_component
append_each_component junk path [] = ok path
append_each_component junk path (component ∷ others) = do
  longer ← append_path_component junk path component
  append_each_component junk longer others

unfoldable pub append_path_components : List ℕ → String → List String → Run String
unfolding append_each_component
append_path_components junk path components = do
  assert_mutable path
  append_each_component junk path components

abbrev pub without_last : List String → List String
without_last array = remove_at array (length array - 1)

unfoldable pub delete_last_path_component : List ℕ → Compat → Users → String → Run String
unfolding path_components components_joined_by_string set_string normalize_path
delete_last_path_component junk c users path = do
  assert_mutable path
  root ← is_equal path slash
  elim root [
    | true ↦ ok path
    | false ↦ do
      array ← path_components junk c path
      elim (ltb 0 (length array)) [
        | false ↦ ok path
        | true ↦ do
          string ← components_joined_by_string junk (without_last array) slash
          shorter ← set_string junk path string
          normalize_path junk c users shorter
      ]
  ]

unfoldable pub append_path_extension : List ℕ → String → String → Run String
unfolding append_format_object
append_path_extension junk path extension = do
  assert_mutable path
  append_format_object junk path (46 ∷ []) extension

unfoldable pub delete_path_extension : String → Run String
unfolding index_of_char delete_characters_from_index
delete_path_extension path = do
  assert_mutable path
  index ← index_of_char path 46 backwards
  if index == not_found then ok path else delete_characters_from_index path index

unfoldable pub path_extension : List ℕ → String → Run String
unfolding index_of_char by_deleting_characters_to_index
path_extension junk path = do
  index ← index_of_char path 46 backwards
  elim (not (index == not_found) && ltb (index + 1) path.length) [
    | true ↦ by_deleting_characters_to_index junk path (index + 1)
    | false ↦ ok (constant_string [])
  ]

-- The loop of `wi_string_last_path_component`, on fuel: a round shortens the range.
unfoldable pub last_component : List ℕ → Compat → String → ℕ → ℕ → Run String
unfolding index_of_string_in_range substring_with_range
last_component junk c path zero n = bad_access
last_component junk c path (suc fuel) n = do
  index ← index_of_string_in_range c path slash backwards 0 n
  elim (index == not_found) [
    | true ↦ ok path
    | false ↦ elim (index == word_sub path.length 1) [
      | false ↦ substring_with_range junk path (index + 1) (word_sub (word_sub n index) 1)
      | true ↦ elim (word_sub n 1 == 0) [
        | true ↦ ok slash
        | false ↦ last_component junk c path fuel (word_sub n 1)
      ]
    ]
  ]

unfoldable pub last_path_component : List ℕ → Compat → String → Run String
unfolding is_equal last_component
last_path_component junk c path = do
  root ← is_equal path slash
  if root then ok path else last_component junk c path (suc path.length) path.length

unfoldable pub by_normalizing_path : List ℕ → Compat → Users → String → Run String
by_normalizing_path junk c users path = by_changing junk path (normalize_path junk c users)

unfoldable pub by_expanding_tilde_in_path : List ℕ → Compat → Users → String → Run String
by_expanding_tilde_in_path junk c users path =
    by_changing junk path (expand_tilde_in_path junk c users)

unfoldable pub by_appending_path_component : List ℕ → String → String → Run String
by_appending_path_component junk path component =
    by_changing junk path (λ t. append_path_component junk t component)

unfoldable pub by_appending_path_components : List ℕ → String → List String → Run String
by_appending_path_components junk path components =
    by_changing junk path (λ t. append_path_components junk t components)

unfoldable pub by_appending_path_extension : List ℕ → String → String → Run String
by_appending_path_extension junk path extension =
    by_changing junk path (λ t. append_path_extension junk t extension)

unfoldable pub by_deleting_last_path_component : List ℕ → Compat → Users → String → Run String
by_deleting_last_path_component junk c users path =
    by_changing junk path (delete_last_path_component junk c users)

unfoldable pub by_deleting_path_extension : List ℕ → String → Run String
by_deleting_path_extension junk path = by_changing junk path delete_path_extension
