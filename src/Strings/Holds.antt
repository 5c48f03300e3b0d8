-- ===== src/Strings/Holds.antt =====
-- What a string holds, and the first functions that keep to it.
use mathlib.Core.Path.{subst}
use libwired.Base.{
  ℕ, zero, suc, ◌+◌, ◌-◌, ◌≤◌, ◌<◌, ◌≡◌, refl, sym, ap, ◌∙◌, Bool, List, [], ◌∷◌, ◌++◌, length,
  take, drop, replicate, leb, ltb, if◌then◌else◌, true, ok, bad_access, ◌>>=◌, arith, Bool-cases,
  inl, inr, length-append, append_assoc, Ends-cast, Ends, returns, overruns, Returns,
}
use libwired.Memory.{wi_realloc, write_bytes}
use libwired.Numbers.{exp2m1-log2, log2_bounds}
use libwired.Memory.Laws.{length-drop, write-append, write_beyond, realloc-append, length-realloc}
use libwired.Strings.State.{String, capacity_for, grow, make_room, terminate, append_utf8_bytes}

-- The block starts with the bytes `xs` and a NUL, and has the size that `capacity` states.
pub record Holds (s : String) (xs : List ℕ) : Type 0 where
  pub spare : List ℕ
  pub string_is : s.string ≡ xs ++ 0 ∷ spare
  pub length_is : s.length ≡ length xs
  pub capacity_is : s.capacity ≡ length s.string

-- The block starts with the bytes `xs`, and may be full.
pub record Starts (s : String) (xs : List ℕ) : Type 0 where
  pub spare : List ℕ
  pub string_is : s.string ≡ xs ++ spare
  pub capacity_is : s.capacity ≡ length s.string

-- `s` holds `xs`, and has the option that `old` has.
abbrev pub HoldsAs : String → List ℕ → String → Type 0
HoldsAs old xs s = Holds s xs × s.mutable ≡ old.mutable

pub Holds-cast : {s : String} {xs ys : List ℕ} → xs ≡ ys → Holds s xs → Holds s ys
Holds-cast {s} e h = subst (Holds s) e h

-- The NUL has a place.
pub Holds-room : (s : String) {xs : List ℕ} → Holds s xs → length xs < s.capacity
Holds-room s {xs} h =
    omega (arith, h.capacity_is, ap length h.string_is, length-append xs (0 ∷ h.spare))

-- The NUL behind `xs` is the first byte of the rest of the block.
terminate-fits :
    (s : String) (xs : List ℕ)
    → Starts s xs
    → s.length ≡ length xs
    → length xs < s.capacity
    → Returns (terminate s) (λ t. HoldsAs s xs t × t.capacity ≡ s.capacity)
unfolding terminate
terminate-fits s xs h e room =
    let written : write_bytes s.string s.length (0 ∷ []) ≡ ok (xs ++ 0 ∷ drop 1 h.spare) =
      ap (λ m. write_bytes m s.length (0 ∷ [])) h.string_is
      ∙ write-append s.length xs (0 ∷ []) h.spare e (omega (arith, spare_room)) in
    (
      record s { string = xs ++ 0 ∷ drop 1 h.spare },
      ap (λ r. r >>= λ m. ok (record s { string = m })) written,
      (
        (
          record {
            spare = drop 1 h.spare;
            string_is = refl;
            length_is = e;
            capacity_is = h.capacity_is ∙ same_size;
          },
          refl,
        ),
        refl,
      ),
    )
  where
    spare_room : length xs + length h.spare ≡ s.capacity
    spare_room = omega (arith, length-append xs h.spare, ap length h.string_is, h.capacity_is)

    same_size : length s.string ≡ length (xs ++ 0 ∷ drop 1 h.spare)
    same_size = omega (
      arith,
      length-append xs (0 ∷ drop 1 h.spare),
      length-drop 1 h.spare,
      spare_room,
      h.capacity_is,
    )

terminate_full :
    (s : String) (xs : List ℕ)
    → Starts s xs
    → s.length ≡ length xs
    → s.capacity ≤ length xs
    → terminate s ≡ bad_access
unfolding terminate
terminate_full s xs h e full =
    ap (λ r. r >>= λ m. ok (record s { string = m }))
      (write_beyond s.string s.length (0 ∷ []) (omega (arith, h.capacity_is)))

pub capacity_for_room : (n : ℕ) → n < 1073741824 → n ≤ capacity_for n
unfolding capacity_for
capacity_for_room zero h = omega arith
capacity_for_room (suc n) h =
    let below = (log2_bounds (suc n) (omega arith) (omega (arith, h))).1 in
    omega (arith, below, exp2m1-log2 (suc n) (omega arith) h)

-- The capacity after `_WI_STRING_GROW`, from the capacity and the sum of the length and the new bytes.
unfoldable pub room_for : ℕ → ℕ → ℕ
room_for c n = if leb c n then capacity_for n else c

-- Whether a string and `n` more bytes leave a place for the NUL, after `_WI_STRING_GROW`.
abbrev pub fits : String → ℕ → Bool
fits s n = ltb (s.length + n) (room_for s.capacity (s.length + n))

pub room_for_room : (c n : ℕ) → n < 1073741824 → n ≤ room_for c n
unfolding room_for
room_for_room c n h = elim (Bool-cases (leb c n)) [
  | inl e ↦ rw e (capacity_for_room n h)
  | inr e ↦ rw e (ground arith)
]

-- The block has the size that its capacity states after `_WI_STRING_GROW`, large enough or not.
pub make_room-sizes :
    (junk : List ℕ) (s : String) (n : ℕ) {xs : List ℕ}
    → Holds s xs
    → ((make_room junk s n).capacity ≡ length (make_room junk s n).string)
      × ((make_room junk s n).capacity ≡ room_for s.capacity (s.length + n))
      × ((make_room junk s n).length ≡ length xs)
unfolding make_room grow room_for
make_room-sizes junk s n h = elim (Bool-cases (leb s.capacity (s.length + n))) [
  | inl e ↦
      rw e (sym (length-realloc junk s.string (capacity_for (s.length + n))), refl, h.length_is)
  | inr e ↦ rw e (h.capacity_is, refl, h.length_is)
]

pub make_room-Starts :
    (junk : List ℕ) (s : String) (n : ℕ) {xs : List ℕ}
    → Holds s xs
    → length xs ≤ room_for s.capacity (s.length + n)
    → Starts (make_room junk s n) xs
      × ((make_room junk s n).capacity ≡ room_for s.capacity (s.length + n))
      × ((make_room junk s n).length ≡ length xs)
      × ((make_room junk s n).mutable ≡ s.mutable)
unfolding make_room grow room_for
make_room-Starts junk s n {xs} h enough = elim (Bool-cases (leb s.capacity (s.length + n))) [
  | inl e ↦
      let c = capacity_for (s.length + n) in
      let room : length xs ≤ c = subst (λ k. length xs ≤ k) (rw e refl) enough in
      rw e (
        record {
          spare = take (c - length xs) (0 ∷ h.spare ++ junk ++ replicate c 0);
          string_is =
              ap (λ m. wi_realloc junk m c) h.string_is
              ∙ realloc-append junk xs (0 ∷ h.spare) c room;
          capacity_is = sym (length-realloc junk s.string c);
        },
        refl,
        h.length_is,
        refl,
      )
  | inr e ↦ rw e (
    record { spare = 0 ∷ h.spare; string_is = h.string_is; capacity_is = h.capacity_is },
    refl,
    h.length_is,
    refl,
  )
]

-- A write of `bs` behind `xs`
pub write-Starts :
    (t : String) (xs bs : List ℕ)
    → Starts t xs
    → t.length ≡ length xs
    → length xs + length bs ≤ t.capacity
    → (m : List ℕ) × (write_bytes t.string t.length bs ≡ ok m)
      × Starts (record t { string = m; length = t.length + length bs }) (xs ++ bs)
write-Starts t xs bs h e room =
    let size : length xs + length h.spare ≡ t.capacity =
      omega (arith, length-append xs h.spare, ap length h.string_is, h.capacity_is) in
    let left = drop (length bs) h.spare in
    (
      xs ++ (bs ++ left),
      ap (λ m. write_bytes m t.length bs) h.string_is
          ∙ write-append t.length xs bs h.spare e (omega (arith, size)),
      record {
        spare = left;
        string_is = sym (append_assoc xs bs left);
        capacity_is = omega (
          arith,
          size,
          length-append xs (bs ++ left),
          length-append bs left,
          length-drop (length bs) h.spare,
        );
      },
    )

-- The NUL behind the bytes fits, or lies behind the block.
pub terminate-Ends :
    (s : String) (xs : List ℕ)
    → Starts s xs
    → s.length ≡ length xs
    → Ends true
        (ltb (length xs) s.capacity)
        (terminate s)
        (λ t. HoldsAs s xs t × t.capacity ≡ s.capacity)
terminate-Ends s xs h e = elim (Bool-cases (ltb (length xs) s.capacity)) [
  | inl f ↦
      let (t, ends, holds) = terminate-fits s xs h e (ground arith) in returns refl f t ends holds
  | inr f ↦ overruns refl f (terminate_full s xs h e (ground arith))
]

-- What an append does to the contents, and when it writes behind the block.
pub append_utf8_bytes-Holds :
    (junk : List ℕ) (s : String) (bs : List ℕ) {xs : List ℕ}
    → Holds s xs
    → length xs + length bs < 1073741824
    → Ends true (fits s (length bs)) (append_utf8_bytes junk s bs) (HoldsAs s (xs ++ bs))
unfolding append_utf8_bytes
append_utf8_bytes-Holds junk s bs {xs} h small =
    let t = make_room junk s (length bs) in
    let room =
      room_for_room s.capacity (s.length + length bs) (omega (arith, small, h.length_is)) in
    let (starts, size, len, same) =
      make_room-Starts junk s (length bs) h (omega (arith, room, h.length_is)) in
    let (m, written, placed) =
      write-Starts t xs bs starts len (omega (arith, room, size, h.length_is)) in
    let sum = length-append xs bs in
    let u = record t { string = m; length = t.length + length bs } in
    let same_test : ltb (length (xs ++ bs)) u.capacity ≡ fits s (length bs) =
      ap (λ a. ltb a u.capacity) (omega (arith, sum, h.length_is))
      ∙ ap (λ c. ltb (s.length + length bs) c) size in
    Ends-cast refl same_test
      (ap (λ r. r >>= λ m. terminate (record t { string = m; length = t.length + length bs }))
        written)
      (λ v k. (k.0.0, k.0.1 ∙ same)) (terminate-Ends u (xs ++ bs) placed (omega (arith, sum, len)))
