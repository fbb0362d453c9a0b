-- ===== src/Wire/Floats.antt =====
-- common/Util.cpp: 32-bit floats, given by their bit patterns, on a host that stores the least
-- significant byte first. `deserializeFLT32` copies the bytes into a float and hands that float to
-- `ntohl`, so its value is converted to an integer and the answer back to a float.
use timer_and_callback.Base.{
  ℕ, ◌≡◌, sym, ap, ◌∙◌, ◌∷◌, length, ◌+◌, ◌*◌, ◌/◌, ◌%◌, ◌^◌, ◌≤◌, ◌<◌, ◌≢◌, List, [], ◌++◌, drop,
  arith,
}
use timer_and_callback.Wire.{read_into, network_bytes, byte_at}

-- The conversions of the language between `float` and `uint32_t`. A float made of an unsigned
-- number is not negative: its sign bit is 0.
pub record Conversions : Type 0 where
  pub to_uint32 : ℕ → ℕ
  pub of_uint32 : ℕ → ℕ
  pub not_negative : (n : ℕ) → of_uint32 n < 2 ^ 31

-- The number that four bytes in memory stand for, and `ntohl`, on that host.
abbrev host_value : List ℕ → ℕ
host_value buffer =
    byte_at 0 buffer
    + byte_at 1 buffer * 2 ^ 8
    + byte_at 2 buffer * 2 ^ 16
    + byte_at 3 buffer * 2 ^ 24

abbrev ntohl : ℕ → ℕ
ntohl v = v % 256 * 2 ^ 24 + v / 2 ^ 8 % 256 * 2 ^ 16 + v / 2 ^ 16 % 256 * 2 ^ 8 + v / 2 ^ 24 % 256

pub serialize_flt32 : ℕ → List ℕ → List ℕ
serialize_flt32 bits os = os ++ network_bytes bits

-- The union FLT64: a long double of 16 bytes, of which the first eight are the two floats.
pub record Flt64 : Type 0 where
  pub msb : ℕ
  pub lsb : ℕ
  pub others : List ℕ

pub serialize_flt64 : Flt64 → List ℕ → List ℕ
unfolding serialize_flt32
serialize_flt64 value os = serialize_flt32 value.lsb (serialize_flt32 value.msb os)

-- Two numbers that differ past their first eight bytes, where a long double keeps its sign and its
-- exponent, are written as the same bytes: no way of reading tells them apart.
pub flt64-no_decoder :
    (decode : List ℕ → Flt64) → ¬ ((value : Flt64) → decode (serialize_flt64 value []) ≡ value)
unfolding serialize_flt32 serialize_flt64
flt64-no_decoder decode round_trip =
    let same =
      sym (round_trip (record { msb = 0; lsb = 0; others = [] }))
      ∙ round_trip (record { msb = 0; lsb = 0; others = 0 ∷ [] }) in
    let impossible = ap (λ v. length v.others) same in absurd (omega arith)

module _ (c : Conversions) where
  pub deserialize_flt32 : List ℕ → List ℕ → ℕ × List ℕ
  deserialize_flt32 fresh stream =
      (c.of_uint32 (ntohl (c.to_uint32 (host_value (read_into 4 fresh stream)))), drop 4 stream)

  -- The low bytes are set, and the others stay as they were.
  pub deserialize_flt64 : List ℕ → Flt64 → List ℕ → Flt64 × List ℕ
  unfolding deserialize_flt32
  deserialize_flt64 fresh value stream =
      let (high, rest) = deserialize_flt32 fresh stream in
      let (low, rest') = deserialize_flt32 fresh rest in
      (record value { msb = high; lsb = low }, rest')

  -- A negative float that is written does not come back when it is read.
  pub flt32-no_round_trip :
      (bits : ℕ) (fresh rest : List ℕ)
      → 2 ^ 31 ≤ bits
      → (deserialize_flt32 fresh (serialize_flt32 bits [] ++ rest)).0 ≢ bits
  unfolding deserialize_flt32
  flt32-no_round_trip bits fresh rest negative e = omega (
    arith,
    c.not_negative
        (ntohl (c.to_uint32 (host_value (read_into 4 fresh (serialize_flt32 bits [] ++ rest))))),
  )
