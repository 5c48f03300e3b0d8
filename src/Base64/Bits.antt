-- ===== src/Base64/Bits.antt =====
-- The masks and shifts of the codec as plain arithmetic, by tables over one byte.
use Prim.Native.Nat.{bit_and, bit_or}
use libwired.Base.{
  ℕ, zero, suc, ◌+◌, ◌*◌, ◌/◌, ◌%◌, ◌<◌, ◌≡◌, refl, ap, Bool, true, ◌==◌, ◌&&◌, arith,
}
use libwired.Base64.Codec.{table_char, Symbol, value, padding, ignored, classify}

module _ (f g : ℕ → ℕ) where
  pub agree : ℕ → Bool
  agree zero = true
  agree (suc n) = f n == g n && agree n

  pub agree→eq : (n : ℕ) → agree n ≡ true → (i : ℕ) → i < n → f i ≡ g i
  unfolding agree
  agree→eq zero e i h = absurd (omega arith)
  agree→eq (suc n) e i h = ground (arith, agree→eq n (ground arith) i)

pub and_fc : (b : ℕ) → b < 256 → bit_and b 0xFC / 4 ≡ b / 4
unfolding agree
and_fc = agree→eq _ _ 256 refl

pub and_03 : (b : ℕ) → b < 256 → bit_and b 0x03 ≡ b % 4
unfolding agree
and_03 = agree→eq _ _ 256 refl

pub and_f0 : (b : ℕ) → b < 256 → bit_and b 0xF0 / 16 ≡ b / 16
unfolding agree
and_f0 = agree→eq _ _ 256 refl

pub and_0f : (b : ℕ) → b < 256 → bit_and b 0x0F ≡ b % 16
unfolding agree
and_0f = agree→eq _ _ 256 refl

pub and_c0 : (b : ℕ) → b < 256 → bit_and b 0xC0 / 64 ≡ b / 64
unfolding agree
and_c0 = agree→eq _ _ 256 refl

pub and_3f : (b : ℕ) → b < 256 → bit_and b 0x3F ≡ b % 64
unfolding agree
and_3f = agree→eq _ _ 256 refl

pub and_30 : (b : ℕ) → b < 64 → bit_and b 0x30 / 16 ≡ b / 16
unfolding agree
and_30 = agree→eq _ _ 64 refl

pub and_3c : (b : ℕ) → b < 64 → bit_and b 0x3C / 4 ≡ b / 4
unfolding agree
and_3c = agree→eq _ _ 64 refl

or_4 : (n : ℕ) → n < 256 → bit_or (n / 4 * 4) (n % 4) ≡ n
unfolding agree
or_4 = agree→eq _ _ 256 refl

or_16 : (n : ℕ) → n < 256 → bit_or (n / 16 * 16) (n % 16) ≡ n
unfolding agree
or_16 = agree→eq _ _ 256 refl

or_64 : (n : ℕ) → n < 256 → bit_or (n / 64 * 64) (n % 64) ≡ n
unfolding agree
or_64 = agree→eq _ _ 256 refl

-- Joining a high and a low part that do not overlap is a sum.
module _ (h l : ℕ) where
  pub join_4 : h < 64 → l < 4 → bit_or (h * 4) l ≡ h * 4 + l
  join_4 p q =
      let n = h * 4 + l in
      let hi : n / 4 ≡ h = omega arith in
      let lo : n % 4 ≡ l = omega arith in rw (hi, lo) at (or_4 n (omega arith))

  pub join_16 : h < 16 → l < 16 → bit_or (h * 16) l ≡ h * 16 + l
  join_16 p q =
      let n = h * 16 + l in
      let hi : n / 16 ≡ h = omega arith in
      let lo : n % 16 ≡ l = omega arith in rw (hi, lo) at (or_16 n (omega arith))

  pub join_64 : h < 4 → l < 64 → bit_or (h * 64) l ≡ h * 64 + l
  join_64 p q =
      let n = h * 64 + l in
      let hi : n / 64 ≡ h = omega arith in
      let lo : n % 64 ≡ l = omega arith in rw (hi, lo) at (or_64 n (omega arith))

-- The value of a symbol, and 64 or 65 for the others.
symbol_code : Symbol → ℕ
symbol_code (value v) = v
symbol_code padding = 64
symbol_code ignored = 65

symbol_of_code : (s : Symbol) (v : ℕ) → symbol_code s ≡ v → v < 64 → s ≡ value v
unfolding symbol_code
symbol_of_code (value v) w e h = ap value e
symbol_of_code padding w e h = absurd (omega arith)
symbol_of_code ignored w e h = absurd (omega arith)

table_codes : (i : ℕ) → i < 64 → symbol_code (classify (table_char i)) ≡ i
unfolding agree symbol_code classify table_char
table_codes = agree→eq _ _ 64 refl

-- The decoder reads every character of the table as its index.
pub classify-table_char : (i : ℕ) → i < 64 → classify (table_char i) ≡ value i
classify-table_char i h = symbol_of_code _ i (table_codes i h) h
