-- ===== src/Wire/RoundTrip.antt =====
-- common/Util.cpp: what is read is what was written, for the integers of a fixed size.
use timer_and_callback.Base.{ℕ, ◌<◌, ◌≡◌, refl, ap, List, [], ◌++◌, arith}
use timer_and_callback.Types.{u32_mod, u64_mod}
use timer_and_callback.Wire.{
  network_bytes, from_network_bytes, msb, lsb, join, serialize_uint32, deserialize_uint32,
  serialize_sint32, deserialize_sint32, serialize_uint64, deserialize_uint64, serialize_sint64,
  deserialize_sint64, Bytes3, serialize_3_byte_unsigned_char, deserialize_to_3_byte_unsigned_char,
}

pub network_bytes_value :
    (v : ℕ) (rest : List ℕ) → v < u32_mod → from_network_bytes (network_bytes v ++ rest) ≡ v
network_bytes_value v rest h = omega arith

-- A 32-bit number that is written and then read comes back, and the rest of the stream is left.
pub uint32_round_trip :
    (v : ℕ) (fresh rest : List ℕ)
    → v < u32_mod
    → deserialize_uint32 fresh (serialize_uint32 v [] ++ rest) ≡ (v, rest)
unfolding serialize_uint32 deserialize_uint32
uint32_round_trip v fresh rest h = ap (λ n. (n, rest)) (omega arith)

pub join_parts : (v : ℕ) → join (msb v) (lsb v) ≡ v
join_parts v = omega arith

-- A 64-bit number that is written and then read comes back, though the two halves are written and
-- read one by one; and the rest of the stream is left.
pub uint64_round_trip :
    (v : ℕ) (fresh rest : List ℕ)
    → v < u64_mod
    → deserialize_uint64 fresh (serialize_uint64 v [] ++ rest) ≡ (v, rest)
unfolding serialize_uint32 deserialize_uint32 serialize_uint64 deserialize_uint64
uint64_round_trip v fresh rest h = ap (λ n. (n, rest)) (omega arith)

-- A signed 64-bit number, given by its bit pattern, that is written and then read comes back, and
-- the rest of the stream is left.
pub sint64_round_trip :
    (v : ℕ) (fresh rest : List ℕ)
    → v < u64_mod
    → deserialize_sint64 fresh (serialize_sint64 v [] ++ rest) ≡ (v, rest)
unfolding serialize_uint32 deserialize_uint32 serialize_sint32 deserialize_sint32 serialize_sint64
    deserialize_sint64
sint64_round_trip v fresh rest h = ap (λ n. (n, rest)) (omega arith)

-- Three bytes are written in the opposite order, and read back as they were.
pub bytes3_round_trip :
    (b : Bytes3) (fresh rest : List ℕ)
    → deserialize_to_3_byte_unsigned_char fresh (serialize_3_byte_unsigned_char b [] ++ rest)
      ≡ (b, rest)
unfolding serialize_3_byte_unsigned_char deserialize_to_3_byte_unsigned_char
bytes3_round_trip b fresh rest = refl
