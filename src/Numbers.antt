-- ===== src/Numbers.antt =====
-- The number helpers of libwired/base/wi-base.h and wi-macros.h. A wi_uinteger_t has 64 bits.
use native.Mathlib.Nat.{pow-suc, pow-le-pow_right}
use native.Mathlib.Numerals.{towards_suc}
use libwired.Base.{
  ℕ, zero, suc, ◌+◌, ◌-◌, ◌/◌, ◌%◌, ◌^◌, ◌≤◌, ◌<◌, ◌≡◌, refl, ap, ltb, if◌then◌else◌, arith,
  Bool-cases, inl, inr,
}

-- `n < 2 ? 0 : wi_log2(n >> 1) + 1`, on fuel: 64 halvings bring every wi_uinteger_t below 2.
unfoldable pub log2_fuel : ℕ → ℕ → ℕ
log2_fuel zero n = 0
log2_fuel (suc f) n = let rest = log2_fuel f (n / 2) in if ltb n 2 then 0 else rest + 1

unfoldable pub log2 : ℕ → ℕ
unfolding log2_fuel
log2 n = log2_fuel 64 n

-- `(1 << n) - 1`. The shift is one of a 32-bit `int`, which C defines for n < 31. Past that this is
-- what machines compute that take the count of a shift modulo 32: no power of two comes out that is
-- larger than 2 ^ 31.
unfoldable pub exp2m1 : ℕ → ℕ
exp2m1 n = 2 ^ (n % 32) - 1

-- `WI_CLAMP(x, min, max)`: the test against the maximum comes first.
unfoldable pub clamp : ℕ → ℕ → ℕ → ℕ
clamp x lo hi = if ltb hi x then hi else if ltb x lo then lo else x

log2_fuel_step : (f n : ℕ) → log2_fuel (suc f) n ≡ (if ltb n 2 then 0 else log2_fuel f (n / 2) + 1)
unfolding log2_fuel
log2_fuel_step f n = refl

log2_fuel_bounds :
    (f n : ℕ) → 0 < n → n < 2 ^ f → (2 ^ log2_fuel f n ≤ n) × (n < 2 ^ suc (log2_fuel f n))
log2_fuel_bounds zero n pos h = absurd (omega arith)
log2_fuel_bounds (suc f) n pos h = elim (Bool-cases (ltb n 2)) [
  | inl small ↦ rw (log2_fuel_step, small) (ground arith)
  | inr large ↦
      let big : 2 ≤ n = ground arith in
      let half = log2_fuel_bounds f (n / 2) (omega arith) (omega (arith, pow-suc 2 f)) in
      let k = log2_fuel f (n / 2) in
      rw (log2_fuel_step, large) (simp towards_suc (omega (arith, pow-suc 2 k, pow-suc 2 (suc k))))
]

-- With 64 rounds `log2` is the position of the highest bit of every wi_uinteger_t.
pub log2_bounds : (n : ℕ) → 0 < n → n < 2 ^ 64 → (2 ^ log2 n ≤ n) × (n < 2 ^ suc (log2 n))
unfolding log2
log2_bounds n pos h = log2_fuel_bounds 64 n pos h

log2_below : (n : ℕ) → 0 < n → n < 1073741824 → log2 n < 30
log2_below n pos small = elim (Bool-cases (ltb (log2 n) 30)) [
  | inl e ↦ ground arith
  | inr e ↦
      let above : 2 ^ 30 ≤ 2 ^ log2 n = pow-le-pow_right (omega arith) {i = 30} (ground arith) in
      absurd (omega (arith, above, (log2_bounds n pos (omega (arith, small))).0, small))
]

-- For a number below 2 ^ 30 the shift stays in an `int`.
pub exp2m1-log2 : (n : ℕ) → 0 < n → n < 1073741824 → exp2m1 (log2 n + 1) ≡ 2 ^ suc (log2 n) - 1
unfolding exp2m1
exp2m1-log2 n pos small =
    let few : log2 n < 30 = log2_below n pos small in ap (λ k. 2 ^ k - 1) (omega (arith, few))
