-- ===== src/Wire/Words.antt =====
-- include/common/Util.h: the macros that take a UINT32 apart and put 24 bits together.
use Prim.Native.Nat.{bit_and, bit_or}
use timer_and_callback.Base.Bits.{bit_and_byte, bit_and_word, bit_or_word}
use timer_and_callback.Base.{ℕ, ◌*◌, ◌/◌, ◌%◌, ◌^◌, ◌<◌, ◌≡◌, arith}

pub uint32_msb : ℕ → ℕ
uint32_msb x = bit_and (x / 2 ^ 16) 0xffff

pub uint32_lsb : ℕ → ℕ
uint32_lsb x = bit_and x 0xffff

pub uint32_lsb_of_msb : ℕ → ℕ
uint32_lsb_of_msb x = bit_and (x / 2 ^ 16) 0xff

pub uint24_to_uint32 : ℕ → ℕ → ℕ
uint24_to_uint32 lsb_of_msb lsb = bit_or (lsb_of_msb * 2 ^ 16) lsb

-- The low 24 bits of a number, taken apart and put together.
pub uint24-parts : (x : ℕ) → uint24_to_uint32 (uint32_lsb_of_msb x) (uint32_lsb x) ≡ x % 2 ^ 24
unfolding uint24_to_uint32 uint32_lsb_of_msb uint32_lsb
uint24-parts x =
    let low : x % 65536 < 65536 = omega arith in
    let left : x / 65536 % 256 * 65536 ≡ 65536 * (x / 65536 % 256) = omega arith in
    rw (bit_and_word x, bit_and_byte (x / 2 ^ 16), left)
      (omega (arith, bit_or_word (x / 65536 % 256) (x % 65536) low))
