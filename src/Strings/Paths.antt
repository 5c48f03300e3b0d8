-- ===== src/Strings/Paths.antt =====
-- The functions of libwired/data/wi-string.c on paths. The users that `getpwuid(getuid())` and
-- `getpwnam` find are a parameter.
use libwired.Base.{
  ℕ, zero, suc, ◌+◌, ◌-◌, Bool, true, false, ◌&&◌, ◌||◌, List, [], ◌∷◌, ◌++◌, Option, none, some,
  length, get_elem?, remove_at, replicate, ltb, ◌==◌, if◌then◌else◌, Run, ok, bad_access, ◌>>=◌,
  ◌>>◌,
}
use libwired.Memory.{c_string}
use libwired.Strings.State.{
  String, assert_mutable, init, append_utf8_bytes, append_utf8_string, init_with_utf8_string,
  mutable_copy, make_immutable, is_equal,
}
use libwired.Strings.Edit.{
  set_string, append_string, insert_string_at_index, delete_characters_to_index,
}
use libwired.Strings.Search.{Compat, Options, has_prefix, components_separated_by_string}

-- `WI_STR` of fewer than 256 bytes
abbrev pub constant_string : List ℕ → String
constant_string bs = record {
  mutable = false;
  string = bs ++ replicate (256 - length bs) 0;
  length = length bs;
  capacity = 256;
}

abbrev pub slash : String
slash = constant_string (47 ∷ [])

abbrev pub backwards : Options
backwards = record { backwards = true; case_insensitive = false; smart_case_insensitive = false }

-- `wi_string_init_with_format_and_arguments` of a format that is some bytes and `%@`, and
-- `wi_mutable_string_append_format` of one
unfoldable pub append_format_object : List ℕ → String → List ℕ → String → Run String
unfolding append_utf8_bytes append_utf8_string
append_format_object junk s front object = do
  t ← append_utf8_bytes junk s front
  append_utf8_string junk t object.string

-- `wi_array_components_joined_by_string`, on an array of strings, each its own description.
unfoldable pub append_joined : List ℕ → String → List String → String → Run String
unfolding append_string
append_joined junk s [] separator = ok s
append_joined junk s (x ∷ []) separator = append_string junk s x
append_joined junk s (x ∷ y ∷ others) separator = do
  t ← append_string junk s x
  u ← append_string junk t separator
  append_joined junk u (y ∷ others) separator

unfoldable pub components_joined_by_string : List ℕ → List String → String → Run String
unfolding append_joined init
components_joined_by_string junk array separator = do
  s ← append_joined junk (init true) array separator
  ok (make_immutable s)

-- The loop of `_wi_string_path_components`, from index `i` on.
unfoldable pub keep_components : ℕ → List String → List String
keep_components i [] = []
keep_components i (component ∷ others) =
    let rest = keep_components (i + 1) others in
    if ltb 0 component.length then component ∷ rest else if i == 0 then slash ∷ rest else rest

unfoldable pub path_components : List ℕ → Compat → String → Run (List String)
unfolding components_separated_by_string keep_components
path_components junk c path = do
  components ← components_separated_by_string junk c path slash
  ok (keep_components 0 components)

-- The loop of `wi_mutable_string_normalize_path` at index `i`, on fuel: a round brings the index
-- nearer to the count.
unfoldable pub normalize_components : Bool → ℕ → ℕ → List String → Run (List String)
unfolding is_equal
normalize_components absolute zero i array = bad_access
normalize_components absolute (suc fuel) i array = elim (get_elem? array i) [
  | none ↦ ok array
  | some component ↦ do
    root ← is_equal component slash
    current ← is_equal component (constant_string (46 ∷ []))
    parent ← is_equal component (constant_string (46 ∷ 46 ∷ []))
    elim (component.length == 0 || (root || current)) [
      | true ↦ normalize_components absolute fuel i (remove_at array i)
      | false ↦ elim (absolute && (parent && ltb 0 i)) [
        | true ↦
            normalize_components absolute fuel (i - 1) (remove_at (remove_at array (i - 1)) (i - 1))
        | false ↦ normalize_components absolute fuel (i + 1) array
      ]
    ]
]

-- What the users' database says: the home of the user who runs the process, or of a named one.
pub record Users : Type 0 where
  pub own_home : Option (List ℕ)
  pub home_of : List ℕ → Option (List ℕ)

unfoldable pub expand_tilde_in_path : List ℕ → Compat → Users → String → Run String
unfolding has_prefix path_components mutable_copy delete_characters_to_index insert_string_at_index
expand_tilde_in_path junk c users path = do
  assert_mutable path
  tilde ← has_prefix path (constant_string (126 ∷ []))
  elim tilde [
    | false ↦ ok path
    | true ↦ do
      array ← path_components junk c path
      elim array [
        | [] ↦ bad_access
        | first ∷ others ↦ do
          component ← mutable_copy junk first
          user ←
              (if component.length == 1 then ok users.own_home else do
                named ← delete_characters_to_index component 1
                name ← c_string named.string
                ok (users.home_of name))
          elim user [
            | none ↦ ok path
            | some home ↦ do
              shorter ← delete_characters_to_index path component.length
              string ← init_with_utf8_string junk false (home ++ 0 ∷ [])
              insert_string_at_index junk shorter string 0
          ]
      ]
  ]

unfoldable pub normalize_path : List ℕ → Compat → Users → String → Run String
unfolding expand_tilde_in_path normalize_components components_joined_by_string append_format_object
    set_string
normalize_path junk c users path = do
  assert_mutable path
  root ← is_equal path slash
  elim (path.length == 0 || root) [
    | true ↦ ok path
    | false ↦ do
      expanded ← expand_tilde_in_path junk c users path
      absolute ← has_prefix expanded slash
      array ← path_components junk c expanded
      left ← normalize_components absolute (suc (length array)) 0 array
      string ← components_joined_by_string junk left slash
      rooted ← has_prefix expanded slash
      elim rooted [
        | true ↦ do
          assert_mutable expanded
          new ← append_format_object junk (init false) (47 ∷ []) string
          set_string junk expanded new
        | false ↦ set_string junk expanded string
      ]
  ]
