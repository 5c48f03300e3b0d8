-- ===== src/Memory/Laws.antt =====
-- Reads and writes of a block that is known piece by piece.
use libwired.Base.{
  ℕ, zero, suc, ◌+◌, ◌-◌, ◌≤◌, ◌<◌, ◌≡◌, refl, sym, ap, ◌∙◌, List, [], ◌∷◌, ◌++◌, length, take,
  drop, replicate, leb, true, false, ok, bad_access, ◌>>=◌, arith, length-append, length-take,
  length-replicate, append_assoc, ◌==◌, All, ◌≢◌,
}
use libwired.Memory.{read_bytes, write_bytes, c_string, wi_realloc, memmove}

module _ {ℓ} {A : Type ℓ} where
  pub take-append : (xs ys : List A) → take (length xs) (xs ++ ys) ≡ xs
  take-append [] ys = refl
  take-append (x ∷ xs) ys = ap (λ l. x ∷ l) (take-append xs ys)

  pub take-append_more :
      (k : ℕ) (xs ys : List A) → take (length xs + k) (xs ++ ys) ≡ xs ++ take k ys
  take-append_more k [] ys = ap (λ n. take n ys) (omega arith)
  take-append_more k (x ∷ xs) ys =
      let e : length (x ∷ xs) + k ≡ suc (length xs + k) = omega arith in
      rw e (ap (λ l. x ∷ l) (take-append_more k xs ys))

  pub drop-append_more : (k : ℕ) (xs ys : List A) → drop (length xs + k) (xs ++ ys) ≡ drop k ys
  drop-append_more k [] ys = ap (λ n. drop n ys) (omega arith)
  drop-append_more k (x ∷ xs) ys =
      let e : length (x ∷ xs) + k ≡ suc (length xs + k) = omega arith in
      rw e (drop-append_more k xs ys)

  pub take-drop : (n : ℕ) (xs : List A) → take n xs ++ drop n xs ≡ xs
  take-drop zero xs = refl
  take-drop (suc n) [] = refl
  take-drop (suc n) (x ∷ xs) = ap (λ l. x ∷ l) (take-drop n xs)

  pub length-drop : (n : ℕ) (xs : List A) → length (drop n xs) ≡ length xs - n
  length-drop zero xs = omega arith
  length-drop (suc n) [] = omega arith
  length-drop (suc n) (x ∷ xs) = omega (arith, length-drop n xs)

-- A write behind `xs`, over the beginning of `ys`
pub write-append :
    (i : ℕ) (xs bs ys : List ℕ)
    → i ≡ length xs
    → length bs ≤ length ys
    → write_bytes (xs ++ ys) i bs ≡ ok (xs ++ (bs ++ drop (length bs) ys))
unfolding write_bytes
write-append i xs bs ys e h =
    let fits : leb (length xs + length bs) (length (xs ++ ys)) ≡ true =
      ground (arith, length-append xs ys) in
    rw (e, fits, take-append, drop-append_more) (ap ok (append_assoc xs bs (drop (length bs) ys)))

pub read-append :
    (i n : ℕ) (xs ys : List ℕ)
    → i ≡ length xs
    → n ≤ length ys
    → read_bytes (xs ++ ys) i n ≡ ok (take n ys)
unfolding read_bytes
read-append i n xs ys e h =
    let fits : leb (length xs + n) (length (xs ++ ys)) ≡ true =
      ground (arith, length-append xs ys) in
    let dropped : drop (length xs) (xs ++ ys) ≡ ys =
      ap (λ k. drop k (xs ++ ys)) (omega arith) ∙ drop-append_more 0 xs ys in
    rw (e, fits, dropped) refl

pub write_beyond :
    (m : List ℕ) (i : ℕ) (bs : List ℕ) → length m < i + length bs → write_bytes m i bs ≡ bad_access
unfolding write_bytes
write_beyond m i bs h =
    let outside : leb (i + length bs) (length m) ≡ false = ground arith in rw outside refl

-- The C string of a block that holds `xs`, a NUL and more, where no byte of `xs` is 0
pub c_string-append : (xs rest : List ℕ) → All (λ b. b ≢ 0) xs → c_string (xs ++ 0 ∷ rest) ≡ ok xs
unfolding c_string
c_string-append [] rest h = refl
c_string-append (b ∷ xs) rest h =
    let some_byte : (b == 0) ≡ false = ground (arith, h.0) in
    rw (some_byte, c_string-append xs rest h.1) refl

pub realloc-append :
    (junk xs ys : List ℕ) (n : ℕ)
    → length xs ≤ n
    → wi_realloc junk (xs ++ ys) n ≡ xs ++ take (n - length xs) (ys ++ junk ++ replicate n 0)
realloc-append junk xs ys n h =
    let e : n ≡ length xs + (n - length xs) = omega arith in
    let behind : xs ++ ys ++ junk ++ replicate n 0 ≡ xs ++ (ys ++ junk ++ replicate n 0) =
      ap (λ l. l ++ replicate n 0) (append_assoc xs ys junk)
      ∙ append_assoc xs (ys ++ junk) (replicate n 0) in
    ap (λ l. take n l) behind
    ∙ ap (λ k. take k (xs ++ (ys ++ junk ++ replicate n 0))) e
    ∙ take-append_more (n - length xs) xs (ys ++ junk ++ replicate n 0)

pub length-realloc : (junk m : List ℕ) (n : ℕ) → length (wi_realloc junk m n) ≡ n
length-realloc junk m n =
    length-take n (m ++ junk ++ replicate n 0)
    ∙ omega (arith, length-append (m ++ junk) (replicate n 0), length-replicate {A = ℕ} n 0)

-- The bytes behind `a` move up by the length of `bs`, and `bs` takes their place.
pub open_gap :
    (a b bs : List ℕ) (l : ℕ)
    → length bs + l ≤ length b
    → (m : List ℕ) × (memmove (a ++ b) (length a + length bs) (length a) l ≡ ok m)
      × (write_bytes m (length a) bs ≡ ok (a ++ (bs ++ (take l b ++ drop l (drop (length bs) b)))))
unfolding memmove
open_gap a b bs l h =
    let n = length bs in
    let moved = take l b in
    let behind = moved ++ drop (length moved) (drop n b) in
    let moved_length : length moved ≡ l = length-take l b ∙ omega (arith, h) in
    let front : a ++ b ≡ a ++ take n b ++ drop n b =
      ap (λ x. a ++ x) (sym (take-drop n b)) ∙ sym (append_assoc a (take n b) (drop n b)) in
    let front_length : length a + n ≡ length (a ++ take n b) =
      omega (arith, length-append a (take n b), length-take n b, h) in
    let first : write_bytes (a ++ b) (length a + n) moved ≡ ok (a ++ take n b ++ behind) =
      ap (λ m. write_bytes m (length a + n) moved) front
      ∙ write-append (length a + n) (a ++ take n b) moved (drop n b) front_length
          (omega (arith, moved_length, length-drop n b, h)) in
    let taken : n ≡ length (take n b) + 0 = omega (arith, length-take n b, h) in
    let second =
      ap (λ m. write_bytes m (length a) bs) (append_assoc a (take n b) behind)
      ∙ write-append (length a) a bs (take n b ++ behind) refl
          (omega (arith, length-append (take n b) behind, length-take n b, h)) in
    (
      a ++ take n b ++ behind,
      ap (λ r. r >>= λ bs. write_bytes (a ++ b) (length a + n) bs)
            (read-append (length a) l a b refl (omega (arith, h)))
          ∙ first,
      second
          ∙ ap (λ x. ok (a ++ (bs ++ x)))
              (ap (λ k. drop k (take n b ++ behind)) taken
                ∙ drop-append_more 0 (take n b) behind
                ∙ ap (λ k. moved ++ drop k (drop n b)) moved_length),
    )

-- The bytes `c` move down over `d`.
pub close_gap :
    (a d c rest : List ℕ)
    → memmove (a ++ (d ++ (c ++ rest))) (length a) (length a + length d) (length c)
      ≡ ok (a ++ (c ++ drop (length c) (d ++ (c ++ rest))))
unfolding memmove
close_gap a d c rest =
    let m = a ++ (d ++ (c ++ rest)) in
    let read : read_bytes m (length a + length d) (length c) ≡ ok c =
      ap (λ m. read_bytes m (length a + length d) (length c)) (sym (append_assoc a d (c ++ rest)))
      ∙ read-append (length a + length d) (length c) (a ++ d) (c ++ rest) (sym (length-append a d))
          (omega (arith, length-append c rest))
      ∙ ap ok (take-append c rest) in
    ap (λ r. r >>= λ bs. write_bytes m (length a) bs) read
    ∙ write-append (length a) a c (d ++ (c ++ rest)) refl
        (omega (arith, length-append d (c ++ rest), length-append c rest))
