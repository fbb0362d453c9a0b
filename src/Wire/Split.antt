-- ===== src/Wire/Split.antt =====
-- common/Util.cpp: a number and its three low bytes.
use Prim.Native.Nat.{bit_or}
use timer_and_callback.Base.{ℕ, ◌+◌, ◌*◌, ◌/◌, ◌%◌, ◌^◌, ◌<◌, ◌≡◌, ap, ◌∙◌, arith}
use timer_and_callback.Base.Bits.{bit_and_shifted, bit_and_byte, bit_or_byte, bit_or_shifted}
use timer_and_callback.Wire.{
  split_uint32_to_3_byte_uint8_array, unsplit_3_byte_uint8_array_to_uint32,
}

triple_eq {ℓ} :
    {A : Type ℓ} {a a' b b' c c' : A}
    → a ≡ a'
    → b ≡ b'
    → c ≡ c'
    → ◌≡◌ {A = A × A × A} (a, b, c) (a', b', c')
triple_eq p q r = λ i. (p i, q i, r i)

split_lem :
    (v : ℕ) → split_uint32_to_3_byte_uint8_array v ≡ (v / 65536 % 256, v / 256 % 256, v % 256)
unfolding split_uint32_to_3_byte_uint8_array
split_lem v =
    triple_eq
      (omega (
        arith,
        bit_and_shifted v 65280,
        bit_and_shifted (v / 256) 255,
        bit_and_byte (v / 256 / 256),
      ))
      (omega (arith, bit_and_shifted v 255, bit_and_byte (v / 256))) (bit_and_byte v)

unsplit_lem :
    (a b c : ℕ)
    → b < 256
    → c < 256
    → unsplit_3_byte_uint8_array_to_uint32 (a, b, c) ≡ (a * 256 + b) * 256 + c
unfolding unsplit_3_byte_uint8_array_to_uint32
unsplit_lem a b c hb hc =
    let first : a * 2 ^ 16 ≡ 65536 * a = omega arith in
    let second : b * 2 ^ 8 ≡ 256 * b = omega arith in
    let both : (a * 256 + b) * 256 ≡ 256 * (a * 256 + b) = omega arith in
    rw (first, second, bit_or_shifted a b hb)
      (ap (λ t. bit_or t c) both ∙ bit_or_byte (a * 256 + b) c hc)

-- Splitting a number and joining the bytes gives its low 24 bits; the byte above them is lost.
pub unsplit-split :
    (v : ℕ)
    → unsplit_3_byte_uint8_array_to_uint32 (split_uint32_to_3_byte_uint8_array v) ≡ v % 2 ^ 24
unsplit-split v = rw (split_lem v) (
    omega
      (arith, unsplit_lem (v / 65536 % 256) (v / 256 % 256) (v % 256) (omega arith) (omega arith)))

-- Joining three numbers below 256 and splitting the result gives the three numbers.
pub split-unsplit :
    (a b c : ℕ)
    → a < 256
    → b < 256
    → c < 256
    → split_uint32_to_3_byte_uint8_array (unsplit_3_byte_uint8_array_to_uint32 (a, b, c))
      ≡ (a, b, c)
split-unsplit a b c ha hb hc =
    rw (unsplit_lem a b c hb hc, split_lem) (triple_eq (omega arith) (omega arith) (omega arith))
