-- ===== src/Strings/Overflow.antt =====
-- When the NUL of a string is written behind its block, libwired/data/wi-string.c.
use native.Mathlib.Nat.{pow-suc, pow-le-pow_right}
use mathlib.Core.Logic.{◌↔◌}
use libwired.Base.{
  ℕ, suc, ◌+◌, ◌-◌, ◌∙◌, ◌^◌, ◌≤◌, ◌<◌, ◌≡◌, ap, Bool, true, false, List, length, leb, ltb,
  bad_access, arith, Bool-cases, inl, inr, Ends_overruns, Ends_bad_access,
}
use libwired.Numbers.{log2, exp2m1-log2, log2_bounds}
use libwired.Strings.State.{String, capacity_for, append_utf8_bytes, init_with_utf8_bytes}
use libwired.Strings.Holds.{Holds, room_for, fits, append_utf8_bytes-Holds}
use libwired.Strings.Appending.{new_fits, init_with_utf8_bytes-Holds}

-- The exponent of a number that is one less than a power of two
log2-power : (n k : ℕ) → n + 1 ≡ 2 ^ k → 0 < n → n < 1073741824 → suc (log2 n) ≡ k
log2-power n k e least small =
    let (low, high) = log2_bounds n least (omega (arith, small)) in
    let l = log2 n in
    elim (Bool-cases (leb k l)) [
      | inl f ↦
          let above : 2 ^ k ≤ 2 ^ l = pow-le-pow_right (omega arith) (ground arith) in
          absurd (omega (arith, above, low, e))
      | inr f ↦ elim (Bool-cases (leb (suc (suc l)) k)) [
        | inl g ↦
            let below : 2 ^ suc (suc l) ≤ 2 ^ k = pow-le-pow_right (omega arith) (ground arith) in
            absurd (omega (arith, below, high, e, pow-suc 2 (suc l), least))
        | inr g ↦ ground arith
      ]
    ]

-- The capacity for one less than a power of two is that number itself.
capacity_for-power : (n k : ℕ) → n + 1 ≡ 2 ^ k → 256 ≤ n → n < 1073741824 → capacity_for n ≡ n
unfolding capacity_for
capacity_for-power n k e least small =
    let pos : 0 < n = omega (arith, least) in
    let grown = exp2m1-log2 n pos small ∙ ap (λ j. 2 ^ j - 1) (log2-power n k e pos small) in
    omega (arith, grown, e, least)

-- The other numbers get more.
capacity_for_tight :
    (n : ℕ) → n < 1073741824 → capacity_for n ≤ n → (n + 1 ≡ 2 ^ suc (log2 n)) × (256 ≤ n)
unfolding capacity_for
capacity_for_tight n small tight =
    let least : 256 ≤ n = omega arith in
    let (low, high) = log2_bounds n (omega arith) (omega (arith, small)) in
    (omega (arith, tight, exp2m1-log2 n (omega (arith, least)) small, high), least)

-- A new string of fewer than 2 ^ 30 bytes writes behind its block exactly when its length is one less
-- than a power of two, and at least 256.
pub init_with_utf8_bytes_overflow :
    (junk : List ℕ) (mutable : Bool) (bs : List ℕ)
    → length bs < 1073741824
    → (init_with_utf8_bytes junk mutable bs ≡ bad_access)
      ↔ ((k : ℕ) × (length bs + 1 ≡ 2 ^ k) × (256 ≤ length bs))
init_with_utf8_bytes_overflow junk mutable bs small =
    let n = length bs in
    let ends = init_with_utf8_bytes-Holds junk mutable bs small in
    (
      λ bad.
          let full : new_fits n ≡ false = Ends_bad_access bad ends in
          let (power, least) = capacity_for_tight n small (ground arith) in
          (suc (log2 n), power, least),
      λ (k, power, least).
          let grown = capacity_for-power n k power least small in Ends_overruns (ground arith) ends,
    )

-- An append that has to grow the block to one less than a power of two writes behind it.
pub append_utf8_bytes_overflow :
    (junk : List ℕ) (s : String) (bs : List ℕ) {xs : List ℕ} (k : ℕ)
    → Holds s xs
    → s.capacity ≤ length xs + length bs
    → length xs + length bs + 1 ≡ 2 ^ k
    → 256 ≤ length xs + length bs
    → length xs + length bs < 1073741824
    → append_utf8_bytes junk s bs ≡ bad_access
unfolding room_for
append_utf8_bytes_overflow junk s bs {xs} k h full e least small =
    let n = s.length + length bs in
    let grown =
      capacity_for-power n k (omega (arith, h.length_is, e)) (omega (arith, h.length_is, least))
        (omega (arith, h.length_is, small)) in
    let asked : leb s.capacity n ≡ true = ground (arith, h.length_is, full) in
    let not_fits : fits s (length bs) ≡ false = rw asked (ground (arith, grown)) in
    Ends_overruns not_fits (append_utf8_bytes-Holds junk s bs h small)

-- Fewer than 511 bytes always leave a place for the NUL.
pub capacity_for_short : (n : ℕ) → n < 511 → n < capacity_for n
capacity_for_short n h = elim (Bool-cases (ltb n (capacity_for n))) [
  | inl e ↦ ground arith
  | inr e ↦
      let (power, least) = capacity_for_tight n (omega (arith, h)) (ground arith) in
      let k = suc (log2 n) in
      elim (Bool-cases (leb k 8)) [
        | inl f ↦
            let below : 2 ^ k ≤ 2 ^ 8 = pow-le-pow_right (omega arith) {j = 8} (ground arith) in
            absurd (omega (arith, below, power, least))
        | inr f ↦
            let above : 2 ^ 9 ≤ 2 ^ k = pow-le-pow_right (omega arith) {i = 9} (ground arith) in
            absurd (omega (arith, above, power, h))
      ]
]

pub short_fits : (n : ℕ) → n < 511 → new_fits n ≡ true
short_fits n h = ground (arith, capacity_for_short n h)

pub short_append_fits : (s : String) (n : ℕ) → s.length + n < 511 → fits s n ≡ true
unfolding room_for
short_append_fits s n h = elim (Bool-cases (leb s.capacity (s.length + n))) [
  | inl e ↦ rw e (ground (arith, capacity_for_short (s.length + n) h))
  | inr e ↦ rw e (ground arith)
]
