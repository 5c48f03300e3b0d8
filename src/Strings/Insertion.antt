-- ===== src/Strings/Insertion.antt =====
-- What a string holds after `wi_mutable_string_insert_string_at_index` of
-- libwired/data/wi-string.c.
use libwired.Base.{
  ℕ, ◌+◌, ◌≤◌, ◌<◌, ◌≡◌, refl, sym, ap, ◌∙◌, Bool, List, [], ◌∷◌, ◌++◌, length, take, drop, leb,
  ltb, false, ◌&&◌, ok, bad_access, arith, Bool-cases, inl, inr, length-append, append_assoc,
  length-take, Ends, overruns, bind-bad_access, Ends-cast, Ends-bind, wi_assert_only,
  wi_assert-Ends,
}
use libwired.Memory.{memmove, read_bytes, write_bytes}
use libwired.Memory.Laws.{
  open_gap, take-append_more, take-drop, length-drop, read-append, take-append, write_beyond,
}
use libwired.Strings.State.{String, make_room}
use libwired.Strings.Edit.{insert_string_at_index}
use libwired.Strings.Holds.{
  Holds, HoldsAs, Starts, room_for, room_for_room, make_room-Starts, make_room-sizes,
  terminate-Ends,
}

-- Whether the bytes that an insertion moves stay in the block, from the capacity, the length, the
-- index and the number of new bytes: it moves as many bytes as the string has, from the index on.
abbrev pub insert_fits : ℕ → ℕ → ℕ → ℕ → Bool
insert_fits c l index n =
    leb (index + n + l) (room_for c (l + n)) && ltb (l + n) (room_for c (l + n))

-- A block that starts with `xs`, cut at an index
cut :
    (t : String) (xs : List ℕ) (index : ℕ) (h : Starts t xs)
    → t.string ≡ take index xs ++ (drop index xs ++ h.spare)
cut t xs index h =
    h.string_is
    ∙ ap (λ l. l ++ h.spare) (sym (take-drop index xs))
    ∙ append_assoc (take index xs) (drop index xs) h.spare

-- The first of the two moves, when it stays in the block
insert-Starts :
    (t : String) (xs bs : List ℕ) (index : ℕ)
    → Starts t xs
    → t.length ≡ length xs
    → index ≤ length xs
    → index + length bs + length xs ≤ t.capacity
    → (m : List ℕ) × (m₂ : List ℕ) × (memmove t.string (index + length bs) index t.length ≡ ok m)
      × (write_bytes m index bs ≡ ok m₂)
      × Starts
          (record t { string = m₂; length = t.length + length bs })
          (take index xs ++ bs ++ drop index xs)
insert-Starts t xs bs index h e inside room =
    let a = take index xs in
    let c = drop index xs in
    let b = c ++ h.spare in
    let l = t.length in
    let a_length : length a ≡ index = omega (arith, length-take index xs, inside) in
    let c_length : l ≡ length c + index = omega (arith, length-drop index xs, inside, e) in
    let b_length : index + length b ≡ t.capacity = omega (
      arith,
      length-append c h.spare,
      c_length,
      e,
      length-append xs h.spare,
      ap length h.string_is,
      h.capacity_is,
    ) in
    let (m, moved, written) = open_gap a b bs l (omega (arith, b_length, room, e)) in
    let w = drop l (drop (length bs) b) in
    let kept : take l b ≡ c ++ take index h.spare =
      ap (λ k. take k b) c_length ∙ take-append_more index c h.spare in
    (
      m,
      a ++ (bs ++ (take l b ++ w)),
      ap (λ s. memmove s (index + length bs) index l) (cut t xs index h)
          ∙ ap (λ k. memmove (a ++ b) (k + length bs) k l) (sym a_length)
          ∙ moved,
      ap (λ k. write_bytes m k bs) (sym a_length) ∙ written,
      record {
        spare = take index h.spare ++ w;
        string_is =
            ap (λ x. a ++ (bs ++ (x ++ w))) kept
            ∙ ap (λ x. a ++ (bs ++ x)) (append_assoc c (take index h.spare) w)
            ∙ sym (append_assoc a bs (c ++ (take index h.spare ++ w)))
            ∙ sym (append_assoc (a ++ bs) c (take index h.spare ++ w));
        capacity_is = omega (
          arith,
          length-append a (bs ++ (take l b ++ w)),
          length-append bs (take l b ++ w),
          length-append (take l b) w,
          length-take l b,
          length-drop l (drop (length bs) b),
          length-drop (length bs) b,
          b_length,
          a_length,
          room,
          e,
        );
      },
    )

-- Otherwise it makes a bad access.
insert_beyond :
    (t : String) (index n : ℕ)
    → t.capacity ≡ length t.string
    → t.capacity < index + n + t.length
    → memmove t.string (index + n) index t.length ≡ bad_access
unfolding memmove read_bytes
insert_beyond t index n e beyond = elim (Bool-cases (leb (index + t.length) (length t.string))) [
  | inr f ↦ rw f refl
  | inl f ↦
      let inside : index + t.length ≤ length t.string = ground arith in
      let read : length (take t.length (drop index t.string)) ≡ t.length =
        omega
          (arith, length-take t.length (drop index t.string), length-drop index t.string, inside) in
      rw f (
        write_beyond t.string (index + n) (take t.length (drop index t.string))
          (omega (arith, read, beyond, e)))
]

pub read-Holds : (s : String) {xs : List ℕ} → Holds s xs → read_bytes s.string 0 (length xs) ≡ ok xs
read-Holds s {xs} h =
    ap (λ m. read_bytes m 0 (length xs)) h.string_is
    ∙ read-append 0 (length xs) [] (xs ++ 0 ∷ h.spare) refl
        (omega (arith, length-append xs (0 ∷ h.spare)))
    ∙ ap ok (take-append xs (0 ∷ h.spare))

length-insert :
    (xs ys : List ℕ) (index : ℕ)
    → index ≤ length xs
    → length (take index xs ++ ys ++ drop index xs) ≡ length xs + length ys
length-insert xs ys index h = omega (
  arith,
  h,
  length-append (take index xs ++ ys) (drop index xs),
  length-append (take index xs) ys,
  length-take index xs,
  length-drop index xs,
)

-- A block that is grown to hold the bytes
inserted_roomy :
    (junk : List ℕ) (s other : String) (index : ℕ) {xs ys : List ℕ}
    → Holds s xs
    → Holds other ys
    → length xs + length ys ≤ room_for s.capacity (s.length + length ys)
    → Ends
        (s.mutable && leb index s.length)
        (insert_fits s.capacity s.length index other.length)
        (insert_string_at_index junk s other index)
        (HoldsAs s (take index xs ++ ys ++ drop index xs))
unfolding insert_string_at_index
inserted_roomy junk s other index {xs} {ys} h k enough = wi_assert-Ends s.mutable (λ _.
    wi_assert_only (leb index s.length) (λ below.
      let n = length ys in
      let t = make_room junk s n in
      let (starts, size, len, same) = make_room-Starts junk s n h (omega (arith, enough)) in
      let room = room_for s.capacity (s.length + n) in
      let reach : index + n + t.length ≡ index + n + s.length = omega (arith, len, h.length_is) in
      rw k.length_is (elim (Bool-cases (leb (index + n + s.length) room)) [
        | inr f ↦ overruns refl (rw f refl) (
            bind-bad_access _
              (insert_beyond t index n starts.capacity_is (ground (arith, size, reach, f))))
        | inl f ↦
            let within : index ≤ length xs = ground (arith, below, h.length_is) in
            let enough : index + n + length xs ≤ t.capacity =
              ground (arith, f, size, h.length_is) in
            let (m, m₂, moved, written, placed) =
              insert-Starts t xs ys index starts len within enough in
            let zs = take index xs ++ ys ++ drop index xs in
            let total : length zs ≡ length xs + n = length-insert xs ys index within in
            let same_test : ltb (length zs) t.capacity ≡ ltb (s.length + n) room =
              ap (λ l. ltb l t.capacity) (omega (arith, total, h.length_is))
              ∙ ap (λ c. ltb (s.length + n) c) size in
            rw f (
              Ends-bind _ m moved (
                Ends-bind _ ys (read-Holds other k) (
                  Ends-bind _ m₂ written (
                    Ends-cast refl same_test refl (λ v p. (p.0.0, p.0.1 ∙ same))
                      (terminate-Ends _ zs placed (omega (arith, total, len)))))))
      ])))

-- A block that is not: the first move is already behind it.
inserted_short :
    (junk : List ℕ) (s other : String) (index : ℕ) {xs ys : List ℕ}
    → Holds s xs
    → Holds other ys
    → room_for s.capacity (s.length + length ys) < length xs + length ys
    → Ends
        (s.mutable && leb index s.length)
        (insert_fits s.capacity s.length index other.length)
        (insert_string_at_index junk s other index)
        (HoldsAs s (take index xs ++ ys ++ drop index xs))
unfolding insert_string_at_index
inserted_short junk s other index {xs} {ys} h k short = wi_assert-Ends s.mutable (λ _.
    wi_assert_only (leb index s.length) (λ below.
      let n = length ys in
      let t = make_room junk s n in
      let (stated, size, len) = make_room-sizes junk s n h in
      let beyond : t.capacity < index + n + t.length =
        omega (arith, size, len, short, h.length_is) in
      let out : leb (index + n + s.length) (room_for s.capacity (s.length + n)) ≡ false =
        ground (arith, short, h.length_is) in
      rw k.length_is
        (overruns refl (rw out refl) (bind-bad_access _ (insert_beyond t index n stated beyond)))))

-- What an insertion does to the contents, and when it makes a bad access, whether or not the shift
-- of `wi_exp2m1` stays in an `int`.
pub inserted :
    (junk : List ℕ) (s other : String) (index : ℕ) {xs ys : List ℕ}
    → Holds s xs
    → Holds other ys
    → Ends
        (s.mutable && leb index s.length)
        (insert_fits s.capacity s.length index other.length)
        (insert_string_at_index junk s other index)
        (HoldsAs s (take index xs ++ ys ++ drop index xs))
inserted junk s other index {xs} {ys} h k =
    let room = room_for s.capacity (s.length + length ys) in
    elim (Bool-cases (leb (length xs + length ys) room)) [
      | inl e ↦ inserted_roomy junk s other index h k (ground arith)
      | inr e ↦ inserted_short junk s other index h k (ground arith)
    ]

-- On a string that holds some bytes, the insertion of another string puts the bytes of that one at
-- the index, if the string is mutable, the index is in range and the index, the new bytes and the old
-- length together stay within the grown block, as does the NUL; if one of the first two fails, an
-- assertion fails, and otherwise the call makes a bad access. The lengths add up to less than 2 ^ 30,
-- so that the shift of `wi_exp2m1` stays in an `int`.
pub insert_string_at_index-Holds :
    (junk : List ℕ) (s other : String) (index : ℕ) {xs ys : List ℕ}
    → Holds s xs
    → Holds other ys
    → length xs + length ys < 1073741824
    → Ends
        (s.mutable && leb index s.length)
        (insert_fits s.capacity s.length index other.length)
        (insert_string_at_index junk s other index)
        (HoldsAs s (take index xs ++ ys ++ drop index xs))
insert_string_at_index-Holds junk s other index {xs} {ys} h k small =
    let room =
      room_for_room s.capacity (s.length + length ys) (omega (arith, small, h.length_is)) in
    inserted_roomy junk s other index h k (omega (arith, room, h.length_is))
