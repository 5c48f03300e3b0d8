-- ===== src/Strings/Formatting.antt =====
-- What `_wi_string_append_arguments` of libwired/data/wi-string.c does with plain bytes and `%@`.
use libwired.Base.{
  ℕ, ◌≡◌, ◌≢◌, refl, sym, ap, ◌∙◌, false, List, [], ◌∷◌, ◌++◌, All, none, some, ◌==◌, Run, ok,
  assert_failed, bad_access, ◌>>=◌, arith, append_assoc, append-nil, bind-same,
}
use libwired.Strings.State.{String, append_utf8_bytes, append_utf8_string}
use libwired.Strings.Paths.{append_format_object}
use libwired.Strings.Format.{Arg, Printf, append_arguments, append_directive, flush, kind_of}

-- The bytes wait until the `%`.
plain_waits :
    (junk : List ℕ) (p : Printf) (front fmt waiting : List ℕ) (args : List Arg) (s : String)
    → All (λ b. b ≢ 37) front
    → append_arguments junk p (front ++ fmt) waiting none args s
      ≡ append_arguments junk p fmt (waiting ++ front) none args s
unfolding append_arguments
plain_waits junk p [] fmt waiting args s h =
    ap (λ w. append_arguments junk p fmt w none args s) (sym (append-nil waiting))
plain_waits junk p (b ∷ front) fmt waiting args s h =
    let plain : (b == 37) ≡ false = ground (arith, h.0) in
    rw (append_arguments, plain)
      (plain_waits junk p front fmt (waiting ++ b ∷ []) args s h.1
        ∙ ap (λ w. append_arguments junk p fmt w none args s) (append_assoc waiting (b ∷ []) front))

bind_ok : {A : Type 0} (r : Run A) → (r >>= λ a. ok a) ≡ r
bind_ok (ok a) = refl
bind_ok assert_failed = refl
bind_ok bad_access = refl

-- A format of bytes and `%@` appends the bytes, and what the instance is described by.
pub append_arguments-object :
    (junk : List ℕ) (p : Printf) (b : ℕ) (front : List ℕ) (x s : String)
    → All (λ b. b ≢ 37) (b ∷ front)
    → append_arguments junk p (b ∷ front ++ 37 ∷ 64 ∷ []) [] none (Arg.object (some x) ∷ []) s
      ≡ append_format_object junk s (b ∷ front) x
unfolding append_arguments append_directive flush kind_of append_format_object
append_arguments-object junk p b front x s h =
    plain_waits junk p (b ∷ front) (37 ∷ 64 ∷ []) [] (Arg.object (some x) ∷ []) s h
    ∙ bind-same (append_utf8_bytes junk s (b ∷ front)) _ _
        (λ t. bind_ok (append_utf8_string junk t x.string))

-- A format with no `%` is appended as it is.
pub append_arguments-plain :
    (junk : List ℕ) (p : Printf) (b : ℕ) (front : List ℕ) (args : List Arg) (s : String)
    → All (λ b. b ≢ 37) (b ∷ front)
    → append_arguments junk p (b ∷ front) [] none args s ≡ append_utf8_bytes junk s (b ∷ front)
unfolding append_arguments flush
append_arguments-plain junk p b front args s h =
    ap (λ l. append_arguments junk p l [] none args s) (sym (append-nil (b ∷ front)))
    ∙ plain_waits junk p (b ∷ front) [] [] args s h
