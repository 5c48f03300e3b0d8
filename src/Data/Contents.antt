-- ===== src/Data/Contents.antt =====
-- What data hold after the functions of libwired/data/wi-data.c that make, copy and append.
use libwired.Base.{
  ℕ, zero, suc, ◌+◌, ◌-◌, ◌≤◌, ◌<◌, ◌≡◌, refl, sym, ap, ◌∙◌, Bool, true, false, List, [], ◌++◌,
  length, take, drop, replicate, ltb, ok, arith, Bool-cases, inl, inr, length-append,
  length-replicate, append_assoc, Returns, bind-ok, Guarded, wi_assert-Returns,
}
use libwired.Numbers.{exp2m1-log2, log2_bounds}
use libwired.Memory.{read_bytes, write_bytes, wi_realloc}
use libwired.Memory.Laws.{
  length-drop, write-append, read-append, take-append, realloc-append, length-realloc,
}
use libwired.Data.{
  Data, capacity_for, init_with_capacity, init_with_bytes, copy, mutable_copy, make_room, append,
  append_bytes, by_appending_bytes, make_immutable,
}

-- The block starts with the bytes `xs`, and has the size that `capacity` states.
pub record Holds (d : Data) (xs : List ℕ) : Type 0 where
  pub spare : List ℕ
  pub bytes_is : d.bytes ≡ xs ++ spare
  pub length_is : d.length ≡ length xs
  pub capacity_is : d.capacity ≡ length d.bytes

-- A write of `bs` behind `xs`, when it fits
write-Holds :
    (d : Data) (xs bs : List ℕ)
    → Holds d xs
    → length xs + length bs ≤ d.capacity
    → (m : List ℕ) × (write_bytes d.bytes d.length bs ≡ ok m)
      × Holds (record d { bytes = m; length = d.length + length bs }) (xs ++ bs)
write-Holds d xs bs h room =
    let size : length xs + length h.spare ≡ d.capacity =
      omega (arith, length-append xs h.spare, ap length h.bytes_is, h.capacity_is) in
    let left = drop (length bs) h.spare in
    (
      xs ++ (bs ++ left),
      ap (λ m. write_bytes m d.length bs) h.bytes_is
          ∙ write-append d.length xs bs h.spare h.length_is (omega (arith, size, room)),
      record {
        spare = left;
        bytes_is = sym (append_assoc xs bs left);
        length_is = omega (arith, h.length_is, length-append xs bs);
        capacity_is = omega (
          arith,
          size,
          room,
          length-append xs (bs ++ left),
          length-append bs left,
          length-drop (length bs) h.spare,
        );
      },
    )

make_room-Holds :
    (junk : List ℕ) (d : Data) (n : ℕ) {xs : List ℕ}
    → Holds d xs
    → Holds (make_room junk d n) xs
      × (length xs + n ≤ (make_room junk d n).capacity)
      × ((make_room junk d n).mutable ≡ d.mutable)
unfolding make_room
make_room-Holds junk d n {xs} h = elim (Bool-cases (ltb d.capacity (d.length + n))) [
  | inl e ↦
      let c = d.length + n in
      rw e (
        record {
          spare = take (c - length xs) (h.spare ++ junk ++ replicate c 0);
          bytes_is =
              ap (λ m. wi_realloc junk m c) h.bytes_is
              ∙ realloc-append junk xs h.spare c (omega (arith, h.length_is));
          length_is = h.length_is;
          capacity_is = sym (length-realloc junk d.bytes c);
        },
        omega (arith, h.length_is),
        refl,
      )
  | inr e ↦ rw e (h, ground (arith, e, h.length_is), refl)
]

append-Holds :
    (junk : List ℕ) (d : Data) (bs : List ℕ) {xs : List ℕ}
    → Holds d xs
    → Returns (append junk d bs) (λ e. Holds e (xs ++ bs) × e.mutable ≡ d.mutable)
unfolding append
append-Holds junk d bs {xs} h =
    let (held, room, same) = make_room-Holds junk d (length bs) h in
    let e = make_room junk d (length bs) in
    let (m, written, holds) = write-Holds e xs bs held room in
    (record e { bytes = m; length = e.length + length bs }, bind-ok _ written, (holds, same))

-- An append to mutable data always has the room that it needs.
pub append_bytes-Holds :
    (junk : List ℕ) (d : Data) (bs : List ℕ) {xs : List ℕ}
    → Holds d xs
    → Guarded d.mutable (append_bytes junk d bs) (λ e. Holds e (xs ++ bs) × e.mutable ≡ d.mutable)
unfolding append_bytes
append_bytes-Holds junk d bs h = wi_assert-Returns d.mutable (λ _. append-Holds junk d bs h)

capacity_for_room : (n : ℕ) → n < 1073741824 → n ≤ capacity_for n
unfolding capacity_for
capacity_for_room zero h = omega arith
capacity_for_room (suc n) h =
    let below = (log2_bounds (suc n) (omega arith) (omega (arith, h))).1 in
    omega (arith, below, exp2m1-log2 (suc n) (omega arith) h)

pub init_with_bytes-Holds :
    (mutable : Bool) (bs : List ℕ)
    → length bs < 1073741824
    → Returns (init_with_bytes mutable bs) (λ d. Holds d bs × d.mutable ≡ mutable)
unfolding init_with_bytes init_with_capacity
init_with_bytes-Holds mutable bs small =
    let d = init_with_capacity mutable (length bs) in
    let empty : Holds d [] = record {
      spare = replicate (capacity_for (length bs)) 0;
      bytes_is = refl;
      length_is = refl;
      capacity_is = sym (length-replicate {A = ℕ} (capacity_for (length bs)) 0);
    } in
    let (m, written, holds) =
      write-Holds d [] bs empty (omega (arith, capacity_for_room (length bs) small)) in
    (
      record d { bytes = m; length = length bs },
      bind-ok _ written,
      (
        record {
          spare = holds.spare;
          bytes_is = holds.bytes_is;
          length_is = refl;
          capacity_is = holds.capacity_is;
        },
        refl,
      ),
    )

read-Holds : (d : Data) {xs : List ℕ} → Holds d xs → read_bytes d.bytes 0 d.length ≡ ok xs
read-Holds d {xs} h =
    ap (λ n. read_bytes d.bytes 0 n) h.length_is
    ∙ ap (λ m. read_bytes m 0 (length xs)) h.bytes_is
    ∙ read-append 0 (length xs) [] (xs ++ h.spare) refl (omega (arith, length-append xs h.spare))
    ∙ ap ok (take-append xs h.spare)

-- `wi_data_by_appending_bytes` of data of fewer than 2 ^ 30 bytes returns mutable data that hold its
-- bytes and then the new ones, and makes its argument immutable.
pub by_appending_bytes-Holds :
    (junk : List ℕ) (d : Data) (bs : List ℕ) {xs : List ℕ}
    → Holds d xs
    → length xs < 1073741824
    → Returns (by_appending_bytes junk d bs) (λ result.
      (result.0 ≡ make_immutable d) × Holds result.1 (xs ++ bs) × (result.1.mutable ≡ true))
unfolding by_appending_bytes mutable_copy copy append_bytes
by_appending_bytes-Holds junk d bs {xs} h small =
    let (c, made, (held, _)) = init_with_bytes-Holds false xs small in
    let opened : Data = record c { mutable = true } in
    let held_opened : Holds opened xs = record {
      spare = held.spare;
      bytes_is = held.bytes_is;
      length_is = held.length_is;
      capacity_is = held.capacity_is;
    } in
    let (e, ran, (holds, same)) = append-Holds junk opened bs held_opened in
    let copied : mutable_copy d ≡ ok opened = bind-ok _ (bind-ok _ (read-Holds d h) ∙ made) in
    ((make_immutable d, e), bind-ok _ copied ∙ bind-ok _ ran, (refl, holds, same))
