-- ===== src/Strings/Appending.antt =====
-- What a string holds after the functions of libwired/data/wi-string.c that append, copy and set.
use libwired.Base.{
  ℕ, suc, ◌+◌, ◌-◌, ◌≤◌, ◌<◌, ◌≡◌, ◌≢◌, refl, sym, ap, ◌∙◌, Bool, List, [], ◌∷◌, ◌++◌, All, length,
  drop, replicate, leb, ltb, true, false, ok, arith, Bool-cases, inl, inr, length-append,
  length-replicate, Ends, Ends-cast, wi_assert_only, Ends-bind, Ends-map,
}
use libwired.Memory.{write_bytes, c_string}
use libwired.Memory.Laws.{length-drop, write-append, c_string-append}
use libwired.Strings.State.{
  String, capacity_for, init_with_capacity, append_utf8_bytes, append_utf8_string,
  init_with_utf8_bytes, init_with_utf8_string, copy, mutable_copy,
}
use libwired.Strings.Edit.{append_string, set_string}
use libwired.Strings.Holds.{Holds, HoldsAs, fits, room_for, append_utf8_bytes-Holds}

-- No byte is the NUL.
abbrev pub NulFree : List ℕ → Type 0
NulFree xs = All (λ b. b ≢ 0) xs

pub c_string-Holds :
    (s : String) {xs : List ℕ} → Holds s xs → NulFree xs → c_string s.string ≡ ok xs
c_string-Holds s {xs} h free = ap c_string h.string_is ∙ c_string-append xs h.spare free

-- On a string that holds some bytes, the append of another string with no NUL inside puts its bytes
-- behind them, if the string is mutable and the grown block has a place for the NUL; if it is not
-- mutable an assertion fails, and otherwise the call makes a bad access. The lengths add up to less
-- than 2 ^ 30.
pub append_string-Holds :
    (junk : List ℕ) (s other : String) {xs ys : List ℕ}
    → Holds s xs
    → Holds other ys
    → NulFree ys
    → length xs + length ys < 1073741824
    → Ends s.mutable (fits s (length ys)) (append_string junk s other) (HoldsAs s (xs ++ ys))
unfolding append_string append_utf8_string
append_string-Holds junk s other {xs} {ys} h k free small =
    wi_assert_only s.mutable (λ e.
      Ends-bind _ ys (c_string-Holds other k free) (append_utf8_bytes-Holds junk s ys h small))

capacity_for_least : (n : ℕ) → 256 ≤ capacity_for n
unfolding capacity_for
capacity_for_least n = omega arith

-- A block that is written to `n` bytes, starting from one of that capacity
pub init-Holds : (mutable : Bool) (n : ℕ) → Holds (init_with_capacity mutable n) []
unfolding init_with_capacity
init-Holds mutable n =
    let c = capacity_for n in
    let e : c ≡ suc (c - 1) = omega (arith, capacity_for_least n) in
    record {
      spare = replicate (c - 1) 0;
      string_is = ap (λ k. replicate k 0) e;
      length_is = refl;
      capacity_is = sym (length-replicate {A = ℕ} c 0);
    }

room_for-capacity_for : (n : ℕ) → room_for (capacity_for n) n ≡ capacity_for n
unfolding room_for
room_for-capacity_for n = elim (Bool-cases (leb (capacity_for n) n)) [
  | inl e ↦ rw e refl
  | inr e ↦ rw e refl
]

-- Whether a new string of `n` bytes has a place for the NUL.
abbrev pub new_fits : ℕ → Bool
new_fits n = ltb n (capacity_for n)

append_to_empty :
    (junk : List ℕ) (s : String) (bs : List ℕ)
    → Holds s []
    → length bs < 1073741824
    → Ends true
        (ltb (length bs) (room_for s.capacity (length bs)))
        (append_utf8_bytes junk s bs)
        (HoldsAs s bs)
append_to_empty junk s bs h small =
    let e : s.length + length bs ≡ length bs = omega (arith, h.length_is) in
    Ends-cast refl (ap (λ n. ltb n (room_for s.capacity n)) e) refl (λ t p. p)
      (append_utf8_bytes-Holds junk s bs h (omega (arith, small)))

-- What a new string holds: it takes exactly `capacity_for` bytes.
pub init_with_utf8_bytes-Holds :
    (junk : List ℕ) (mutable : Bool) (bs : List ℕ)
    → length bs < 1073741824
    → Ends true
        (new_fits (length bs))
        (init_with_utf8_bytes junk mutable bs)
        (λ t. Holds t bs × t.mutable ≡ mutable)
unfolding init_with_utf8_bytes init_with_capacity
init_with_utf8_bytes-Holds junk mutable bs small =
    let s = init_with_capacity mutable (length bs) in
    Ends-cast refl (ap (λ c. ltb (length bs) c) (room_for-capacity_for (length bs))) refl (λ t p. p)
      (append_to_empty junk s bs (init-Holds mutable (length bs)) small)

pub init_with_utf8_string-Holds :
    (junk : List ℕ) (mutable : Bool) (xs rest : List ℕ)
    → NulFree xs
    → length xs < 1073741824
    → Ends true
        (new_fits (length xs))
        (init_with_utf8_string junk mutable (xs ++ 0 ∷ rest))
        (λ t. Holds t xs × t.mutable ≡ mutable)
unfolding init_with_utf8_string append_utf8_string init_with_utf8_bytes
init_with_utf8_string-Holds junk mutable xs rest free small =
    let read = c_string-append xs rest free in
    Ends-bind _ xs read (Ends-bind _ xs read (init_with_utf8_bytes-Holds junk mutable xs small))

pub copy-Holds :
    (junk : List ℕ) (s : String) {xs : List ℕ}
    → Holds s xs
    → NulFree xs
    → length xs < 1073741824
    → Ends true (new_fits (length xs)) (copy junk s) (λ t. Holds t xs × t.mutable ≡ false)
unfolding copy
copy-Holds junk s {xs} h free small =
    Ends-cast refl refl (ap (init_with_utf8_string junk false) h.string_is) (λ t p. p)
      (init_with_utf8_string-Holds junk false xs h.spare free small)

pub mutable_copy-Holds :
    (junk : List ℕ) (s : String) {xs : List ℕ}
    → Holds s xs
    → NulFree xs
    → length xs < 1073741824
    → Ends true (new_fits (length xs)) (mutable_copy junk s) (λ t. Holds t xs × t.mutable ≡ true)
unfolding mutable_copy
mutable_copy-Holds junk s {xs} h free small =
    Ends-map opened (λ t p. (holds_opened t p.0, refl)) (copy-Holds junk s h free small)
  where
    opened : String → String
    opened t = record t { mutable = true }

    holds_opened : (t : String) → Holds t xs → Holds (opened t) xs
    holds_opened t k = record {
      spare = k.spare;
      string_is = k.string_is;
      length_is = k.length_is;
      capacity_is = k.capacity_is;
    }

-- The new contents go to the front of the old block.
pub set_string-Holds :
    (junk : List ℕ) (s other : String) {xs ys : List ℕ}
    → Holds s xs
    → Holds other ys
    → NulFree ys
    → length ys < 1073741824
    → Ends s.mutable
        (ltb (length ys) (room_for s.capacity (length ys)))
        (set_string junk s other)
        (HoldsAs s ys)
unfolding set_string append_utf8_string
set_string-Holds junk s other {xs} {ys} h k free small =
    let rest = drop 1 (xs ++ 0 ∷ h.spare) in
    let some_byte : 1 ≤ length (xs ++ 0 ∷ h.spare) =
      omega (arith, length-append xs (0 ∷ h.spare)) in
    let cleared : write_bytes s.string 0 (0 ∷ []) ≡ ok (0 ∷ rest) =
      ap (λ m. write_bytes m 0 (0 ∷ [])) h.string_is
      ∙ write-append 0 [] (0 ∷ []) (xs ++ 0 ∷ h.spare) refl some_byte in
    let emptied : Holds (record s { string = 0 ∷ rest; length = 0 }) [] = record {
      spare = rest;
      string_is = refl;
      length_is = refl;
      capacity_is =
          h.capacity_is
          ∙ ap length h.string_is
          ∙ omega (arith, some_byte, length-drop 1 (xs ++ 0 ∷ h.spare));
    } in
    wi_assert_only s.mutable (λ e.
      Ends-bind _ (0 ∷ rest) cleared
        (Ends-bind _ ys (c_string-Holds other k free) (append_to_empty junk _ ys emptied small)))
