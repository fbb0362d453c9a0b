-- ===== src/Base/Bits.antt =====
-- The bit operations at the masks and shifts of whole bytes, as arithmetic.
use Prim.Native.Nat.{
  ℕ, zero, suc, ◌+◌, ◌*◌, ◌/◌, ◌%◌, ◌≤◌, ◌<◌, min, max, bit_and, bit_or, digits, bit_and-bitwise,
  bit_or-bitwise,
}
use mathlib.Core.Path.{◌≡◌, refl}
use native.Mathlib.Omega.{arith}

bit_and_fuel : (n m a b : ℕ) → a ≤ n → a ≤ m → digits (λ d. 0) min n a b ≡ digits (λ d. 0) min m a b
bit_and_fuel zero zero a b p q = refl
bit_and_fuel zero (suc m) zero b p q = refl
bit_and_fuel zero (suc m) (suc a) b p q = absurd (omega arith)
bit_and_fuel (suc n) zero zero b p q = refl
bit_and_fuel (suc n) zero (suc a) b p q = absurd (omega arith)
bit_and_fuel (suc n) (suc m) zero b p q = refl
bit_and_fuel (suc n) (suc m) (suc a) b p q =
    omega (arith, bit_and_fuel n m (suc a / 2) (b / 2) (omega arith) (omega arith))

-- The lowest digit of `&` and of `|`.
pub bit_and_digit : (a b : ℕ) → bit_and a b ≡ bit_and (a / 2) (b / 2) * 2 + min (a % 2) (b % 2)
bit_and_digit zero b = omega (arith, bit_and-bitwise 0 b, bit_and-bitwise 0 (b / 2))
bit_and_digit (suc a) b = omega (
  arith,
  bit_and-bitwise (suc a) b,
  bit_and-bitwise (suc a / 2) (b / 2),
  bit_and_fuel a (suc a / 2) (suc a / 2) (b / 2) (omega arith) (omega arith),
)

bit_and-zero_below : (n a : ℕ) → a ≤ n → bit_and a 0 ≡ 0
bit_and-zero_below n zero h = refl
bit_and-zero_below zero (suc a) h = absurd (omega arith)
bit_and-zero_below (suc n) (suc a) h =
    omega (arith, bit_and_digit (suc a) 0, bit_and-zero_below n (suc a / 2) (omega arith))

bit_or_fuel : (n m a b : ℕ) → a ≤ n → a ≤ m → digits (λ d. d) max n a b ≡ digits (λ d. d) max m a b
bit_or_fuel zero zero a b p q = refl
bit_or_fuel zero (suc m) zero b p q = refl
bit_or_fuel zero (suc m) (suc a) b p q = absurd (omega arith)
bit_or_fuel (suc n) zero zero b p q = refl
bit_or_fuel (suc n) zero (suc a) b p q = absurd (omega arith)
bit_or_fuel (suc n) (suc m) zero b p q = refl
bit_or_fuel (suc n) (suc m) (suc a) b p q =
    omega (arith, bit_or_fuel n m (suc a / 2) (b / 2) (omega arith) (omega arith))

pub bit_or_digit : (a b : ℕ) → bit_or a b ≡ bit_or (a / 2) (b / 2) * 2 + max (a % 2) (b % 2)
bit_or_digit zero b = omega (arith, bit_or-bitwise 0 b, bit_or-bitwise 0 (b / 2))
bit_or_digit (suc a) b = omega (
  arith,
  bit_or-bitwise (suc a) b,
  bit_or-bitwise (suc a / 2) (b / 2),
  bit_or_fuel a (suc a / 2) (suc a / 2) (b / 2) (omega arith) (omega arith),
)

bit_or-zero_below : (n a : ℕ) → a ≤ n → bit_or a 0 ≡ a
bit_or-zero_below n zero h = refl
bit_or-zero_below zero (suc a) h = absurd (omega arith)
bit_or-zero_below (suc n) (suc a) h =
    omega (arith, bit_or_digit (suc a) 0, bit_or-zero_below n (suc a / 2) (omega arith))

-- One digit, two, four and eight at a time: of `&` where the mask ends in zeros, of `&` where it
-- ends in ones, and of `|` where the left side ends in zeros.
and_zero_1 : (a m : ℕ) → bit_and a (2 * m) ≡ bit_and (a / 2) m * 2
and_zero_1 a m =
    let half : 2 * m / 2 ≡ m = omega arith in omega (arith, rw half at (bit_and_digit a (2 * m)))

and_zero_2 : (a m : ℕ) → bit_and a (4 * m) ≡ bit_and (a / 4) m * 4
and_zero_2 a m =
    let mask : 4 * m ≡ 2 * (2 * m) = omega arith in
    let part : a / 4 ≡ a / 2 / 2 = omega arith in
    rw (mask, part, and_zero_1 a (2 * m), and_zero_1 (a / 2) m) (omega arith)

and_zero_4 : (a m : ℕ) → bit_and a (16 * m) ≡ bit_and (a / 16) m * 16
and_zero_4 a m =
    let mask : 16 * m ≡ 4 * (4 * m) = omega arith in
    let part : a / 16 ≡ a / 4 / 4 = omega arith in
    rw (mask, part, and_zero_2 a (4 * m), and_zero_2 (a / 4) m) (omega arith)

-- `a & (m << 8)`
pub bit_and_shifted : (a m : ℕ) → bit_and a (256 * m) ≡ bit_and (a / 256) m * 256
bit_and_shifted a m =
    let mask : 256 * m ≡ 16 * (16 * m) = omega arith in
    let part : a / 256 ≡ a / 16 / 16 = omega arith in
    rw (mask, part, and_zero_4 a (16 * m), and_zero_4 (a / 16) m) (omega arith)

and_one_1 : (a m : ℕ) → bit_and a (2 * m + 1) ≡ bit_and (a / 2) m * 2 + a % 2
and_one_1 a m =
    let half : (2 * m + 1) / 2 ≡ m = omega arith in
    omega (arith, rw half at (bit_and_digit a (2 * m + 1)))

and_one_2 : (a m : ℕ) → bit_and a (4 * m + 3) ≡ bit_and (a / 4) m * 4 + a % 4
and_one_2 a m =
    let mask : 4 * m + 3 ≡ 2 * (2 * m + 1) + 1 = omega arith in
    let part : a / 4 ≡ a / 2 / 2 = omega arith in
    rw (mask, part, and_one_1 a (2 * m + 1), and_one_1 (a / 2) m) (omega arith)

and_one_4 : (a m : ℕ) → bit_and a (16 * m + 15) ≡ bit_and (a / 16) m * 16 + a % 16
and_one_4 a m =
    let mask : 16 * m + 15 ≡ 4 * (4 * m + 3) + 3 = omega arith in
    let part : a / 16 ≡ a / 4 / 4 = omega arith in
    rw (mask, part, and_one_2 a (4 * m + 3), and_one_2 (a / 4) m) (omega arith)

-- `a & 0xff`
pub bit_and_byte : (a : ℕ) → bit_and a 255 ≡ a % 256
bit_and_byte a = omega (
  arith,
  and_one_4 a 15,
  and_one_4 (a / 16) 0,
  bit_and-zero_below (a / 16 / 16) (a / 16 / 16) (omega arith),
)

or_1 : (a b : ℕ) → bit_or (2 * a) b ≡ bit_or a (b / 2) * 2 + b % 2
or_1 a b =
    let half : 2 * a / 2 ≡ a = omega arith in omega (arith, rw half at (bit_or_digit (2 * a) b))

or_2 : (a b : ℕ) → bit_or (4 * a) b ≡ bit_or a (b / 4) * 4 + b % 4
or_2 a b =
    let left : 4 * a ≡ 2 * (2 * a) = omega arith in
    let part : b / 4 ≡ b / 2 / 2 = omega arith in
    rw (left, part, or_1 (2 * a) b, or_1 a (b / 2)) (omega arith)

or_4 : (a b : ℕ) → bit_or (16 * a) b ≡ bit_or a (b / 16) * 16 + b % 16
or_4 a b =
    let left : 16 * a ≡ 4 * (4 * a) = omega arith in
    let part : b / 16 ≡ b / 4 / 4 = omega arith in
    rw (left, part, or_2 (4 * a) b, or_2 a (b / 4)) (omega arith)

or_8 : (a b : ℕ) → bit_or (256 * a) b ≡ bit_or a (b / 256) * 256 + b % 256
or_8 a b =
    let left : 256 * a ≡ 16 * (16 * a) = omega arith in
    let part : b / 256 ≡ b / 16 / 16 = omega arith in
    rw (left, part, or_4 (16 * a) b, or_4 a (b / 16)) (omega arith)

-- `(a << 8) | b` is a sum if `b` is a byte.
pub bit_or_byte : (a b : ℕ) → b < 256 → bit_or (256 * a) b ≡ a * 256 + b
bit_or_byte a b h =
    let none_left : b / 256 ≡ 0 = omega arith in
    omega (arith, rw none_left at (or_8 a b), bit_or-zero_below a a (omega arith))

-- `(a << 16) | (b << 8)`
pub bit_or_shifted : (a b : ℕ) → b < 256 → bit_or (65536 * a) (256 * b) ≡ (a * 256 + b) * 256
bit_or_shifted a b h =
    let left : 65536 * a ≡ 256 * (256 * a) = omega arith in
    let part : 256 * b / 256 ≡ b = omega arith in
    rw (left, or_8 (256 * a) (256 * b), part, bit_or_byte a b h) (omega arith)

pub bit_and_word : (a : ℕ) → bit_and a 65535 ≡ a % 65536
bit_and_word a = omega (
  arith,
  and_one_4 a 4095,
  and_one_4 (a / 16) 255,
  and_one_4 (a / 16 / 16) 15,
  and_one_4 (a / 16 / 16 / 16) 0,
  bit_and-zero_below (a / 16 / 16 / 16 / 16) (a / 16 / 16 / 16 / 16) (omega arith),
)

-- `(a << 16) | b`
pub bit_or_word : (a b : ℕ) → b < 65536 → bit_or (65536 * a) b ≡ a * 65536 + b
bit_or_word a b h =
    let left : 65536 * a ≡ 256 * (256 * a) = omega arith in
    rw (left, or_8 (256 * a) b, bit_or_byte a (b / 256) (omega arith)) (omega arith)
