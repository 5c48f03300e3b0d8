-- ===== src/Strings/Format.antt =====
-- Formats, `_wi_string_append_arguments` of libwired/data/wi-string.c. What `snprintf`,
-- `wi_asprintf` and `wi_error_string` produce are parameters. The letters for the size of an argument
-- only choose the C type in which it is read; what `%n` stores is memory of the caller.
use libwired.Base.{
  ℕ, ◌+◌, Bool, true, false, ◌&&◌, ◌||◌, List, [], ◌∷◌, ◌++◌, Option, none, some, length, take,
  replicate, leb, ◌==◌, if◌then◌else◌, Run, ok, bad_access, ◌>>=◌, ◌>>◌,
}
use libwired.Memory.{read_bytes, c_string}
use libwired.Strings.State.{String, assert_mutable, init, append_utf8_bytes, append_utf8_string}
use libwired.Strings.Edit.{set_string, by_changing}

-- `_WI_STRING_FORMAT_BUFSIZ`
abbrev pub format_bufsiz : ℕ
format_bufsiz = 64

-- An argument of the call: an instance given by its description, a number in the type that the
-- directive asks for, the `int` of a `*`, or a C string by its block.
pub data Arg : Type 0 where
  object : Option String → Arg
  number width : ℕ → Arg
  text : Option (List ℕ) → Arg

-- The full output for a directive and an argument: `snprintf` on a number; `wi_asprintf` on bytes,
-- with the width of a `*`.
pub record Printf : Type 0 where
  pub number : List ℕ → ℕ → List ℕ
  pub text : List ℕ → Option ℕ → List ℕ → List ℕ
  pub error_string : List ℕ

-- A directive as far as it is read: `cfmt` without the NUL, `alt`, and `length` if `star`.
pub record Directive : Type 0 where
  pub cfmt : List ℕ
  pub alt : Bool
  pub star : Option ℕ

-- The cases of the `switch`
pub data Kind : Type 0 where
  flag alternate star object number error_string store text other : Kind

abbrev pub one_of : ℕ → List ℕ → Bool
one_of ch [] = false
one_of ch (c ∷ cs) = ch == c || one_of ch cs

-- The letters in the order of the code: `#`, `@`; space, `-`, `+`, `.`, `'`, the digits, `h`, `j`, `t`,
-- `l`, `L` and the first `z`; `*`; the letters of numbers; `m`; `n`; `s`.
unfoldable pub kind_of : ℕ → Kind
kind_of ch =
    if ch == 35
    then alternate
    else if ch == 64
    then object
    else if one_of ch (32 ∷ 45 ∷ 43 ∷ 46 ∷ 39 ∷ 104 ∷ 106 ∷ 116 ∷ 108 ∷ 76 ∷ 122 ∷ [])
        || (leb 48 ch && leb ch 57)
    then flag
    else if ch == 42
    then star
    else if one_of ch (
        97 ∷ 65 ∷ 101 ∷ 69 ∷ 102 ∷ 103 ∷ 71 ∷ 99 ∷ 68 ∷ 100 ∷ 105 ∷ 79 ∷ 111 ∷ 112 ∷ 85 ∷ 117 ∷ 88
        ∷ 120 ∷ [])
    then number
    else if ch == 109
    then error_string
    else if ch == 110
    then store
    else if ch == 115
    then text
    else other

-- `"(null)"`
abbrev pub null_bytes : List ℕ
null_bytes = 40 ∷ 110 ∷ 117 ∷ 108 ∷ 108 ∷ 41 ∷ []

-- `snprintf(buffer, sizeof(buffer), ...)` keeps 63 bytes and a NUL; the bytes behind are 0 here.
abbrev pub buffer_of : List ℕ → List ℕ
buffer_of out = take format_bufsiz (take 63 out ++ replicate format_bufsiz 0)

-- What one directive appends, when it is complete. `snprintf` is never given the width of a `*`, so
-- that it reads an argument that is not there.
unfoldable pub append_directive : List ℕ → Printf → Directive → Kind → ℕ → Arg → String → Run String
append_directive junk p d object ch (object (some x)) s = append_utf8_string junk s x.string
append_directive junk p d object ch (object none) s =
    if d.alt then ok s else append_utf8_bytes junk s null_bytes
append_directive junk p d number ch (number v) s = elim d.star [
  | some _ ↦ bad_access
  | none ↦ do
    bs ← read_bytes (buffer_of (p.number d.cfmt v)) 0 (length (p.number d.cfmt v))
    append_utf8_bytes junk s bs
]
append_directive junk p d text ch (text (some block)) s = do
  bs ← c_string block
  let out = p.text d.cfmt d.star bs
  if length out == 0 then ok s else append_utf8_bytes junk s out
append_directive junk p d text ch (text none) s =
    if d.alt then ok s else append_utf8_bytes junk s null_bytes
append_directive junk p d store ch arg s = ok s
append_directive junk p d _ ch arg s = bad_access

-- The bytes in front of a `%`, if there are any
unfoldable pub flush : List ℕ → List ℕ → String → Run String
flush junk [] s = ok s
flush junk (b ∷ bs) s = append_utf8_bytes junk s (b ∷ bs)

-- The loop, over the bytes of the format in front of its NUL: those that wait to be appended, and the
-- directive that is being read, if one is. An argument that is missing or of another kind is a bad
-- access, and so is a directive that is too long for `cfmt`.
unfoldable pub append_arguments :
    List ℕ → Printf → List ℕ → List ℕ → Option Directive → List Arg → String → Run String
unfolding append_directive flush kind_of
append_arguments junk p [] waiting none args s = flush junk waiting s
append_arguments junk p [] waiting (some d) args s =
    if leb format_bufsiz (length d.cfmt + 1) then bad_access else ok s
append_arguments junk p (ch ∷ fmt) waiting none args s = elim (ch == 37) [
  | false ↦ append_arguments junk p fmt (waiting ++ ch ∷ []) none args s
  | true ↦ do
    t ← flush junk waiting s
    append_arguments junk p fmt [] (some (record { cfmt = 37 ∷ []; alt = false; star = none })) args
        t
]
append_arguments junk p (ch ∷ fmt) waiting (some d) args s =
    let e = record d { cfmt = d.cfmt ++ ch ∷ [] } in
    elim (leb format_bufsiz (length e.cfmt)) [
      | true ↦ bad_access
      | false ↦ elim (kind_of ch) [
        | flag ↦ append_arguments junk p fmt [] (some e) args s
        | alternate ↦ append_arguments junk p fmt [] (some (record e { alt = true })) args s
        | star ↦ elim args [
          | width n ∷ others ↦
              append_arguments junk p fmt [] (some (record e { star = some n })) others s
          | _ ↦ bad_access
        ]
        | error_string ↦ do
          t ← append_utf8_bytes junk s p.error_string
          append_arguments junk p fmt [] none args t
        | other ↦ do
          t ← append_utf8_bytes junk s (ch ∷ [])
          append_arguments junk p fmt [] none args t
        | kind ↦ elim args [
          | [] ↦ bad_access
          | arg ∷ others ↦ do
            t ← append_directive junk p e kind ch arg s
            append_arguments junk p fmt [] none others t
        ]
      ]
    ]

-- `wi_string_init_with_format_and_arguments`
unfoldable pub init_with_format_and_arguments :
    List ℕ → Printf → Bool → List ℕ → List Arg → Run String
unfolding append_arguments init
init_with_format_and_arguments junk p mutable fmt args = do
  bs ← c_string fmt
  append_arguments junk p bs [] none args (init mutable)

unfoldable pub append_format : List ℕ → Printf → String → List ℕ → List Arg → Run String
unfolding append_arguments
append_format junk p s fmt args = do
  assert_mutable s
  bs ← c_string fmt
  append_arguments junk p bs [] none args s

unfoldable pub set_format : List ℕ → Printf → String → List ℕ → List Arg → Run String
unfolding init_with_format_and_arguments set_string
set_format junk p s fmt args = do
  assert_mutable s
  new ← init_with_format_and_arguments junk p false fmt args
  set_string junk s new

unfoldable pub by_appending_format : List ℕ → Printf → String → List ℕ → List Arg → Run String
by_appending_format junk p s fmt args = by_changing junk s (λ t. append_format junk p t fmt args)
