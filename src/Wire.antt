-- ===== src/Wire.antt =====
-- common/Util.cpp: serialization. A stream is the list of the bytes written and not yet read, and a
-- `CHAR*` buffer the list of its bytes. `htonl` and `memcpy` together write the most significant
-- byte first, on every host. What a fresh buffer holds before it is written is the argument `fresh`:
-- a read from a stream that is too short leaves that in place. A signed number is its bit pattern,
-- and so is a float.
pub mod RoundTrip
pub mod Text
pub mod Split
pub mod Floats
pub mod Words
pub mod Buffers
use Prim.Native.Nat.{bit_and, bit_or}
use timer_and_callback.Base.{
  ℕ, zero, suc, ◌+◌, ◌*◌, ◌/◌, ◌%◌, ◌^◌, List, [], ◌∷◌, ◌++◌, ◌==◌, if◌then◌else◌, length, take,
  drop,
}
use timer_and_callback.Types.{u32, u32_mod}

-- `memcpy` of `bytes` to the front of `buffer`.
abbrev pub overwrite : List ℕ → List ℕ → List ℕ
overwrite bytes buffer = bytes ++ drop (length bytes) buffer

-- The buffer after `in.read (buffer, n)`.
abbrev pub read_into : ℕ → List ℕ → List ℕ → List ℕ
read_into n fresh stream = overwrite (take n stream) fresh

-- The bytes of `htonl (value)` in memory.
abbrev pub network_bytes : ℕ → List ℕ
network_bytes value =
    value / 2 ^ 24 % 256 ∷ value / 2 ^ 16 % 256 ∷ value / 2 ^ 8 % 256 ∷ value % 256 ∷ []

-- `ntohl` of the four bytes at the front of a buffer.
abbrev pub from_network_bytes : List ℕ → ℕ
from_network_bytes (a ∷ b ∷ c ∷ d ∷ _) = ((a * 256 + b) * 256 + c) * 256 + d
from_network_bytes _ = 0

-- The union UINT64: `msb` and `lsb`.
abbrev pub msb : ℕ → ℕ
msb value = value / 2 ^ 32

abbrev pub lsb : ℕ → ℕ
lsb value = value % 2 ^ 32

abbrev pub join : ℕ → ℕ → ℕ
join high low = high * 2 ^ 32 + low

unfoldable pub serialize_uint32 : ℕ → List ℕ → List ℕ
serialize_uint32 value os = os ++ network_bytes value

pub deserialize_uint32 : List ℕ → List ℕ → ℕ × List ℕ
deserialize_uint32 fresh stream = (from_network_bytes (read_into 4 fresh stream), drop 4 stream)

pub serialize_sint32 : ℕ → List ℕ → List ℕ
serialize_sint32 value os = os ++ network_bytes value

pub deserialize_sint32 : List ℕ → List ℕ → ℕ × List ℕ
deserialize_sint32 fresh stream = (from_network_bytes (read_into 4 fresh stream), drop 4 stream)

pub serialize_uint64 : ℕ → List ℕ → List ℕ
serialize_uint64 value os = serialize_uint32 (lsb value) (serialize_uint32 (msb value) os)

pub deserialize_uint64 : List ℕ → List ℕ → ℕ × List ℕ
deserialize_uint64 fresh stream =
    let (high, rest) = deserialize_uint32 fresh stream in
    let (low, rest') = deserialize_uint32 fresh rest in (join high low, rest')

pub serialize_sint64 : ℕ → List ℕ → List ℕ
serialize_sint64 value os = serialize_uint32 (lsb value) (serialize_sint32 (msb value) os)

pub deserialize_sint64 : List ℕ → List ℕ → ℕ × List ℕ
deserialize_sint64 fresh stream =
    let (high, rest) = deserialize_sint32 fresh stream in
    let (low, rest') = deserialize_uint32 fresh rest in (join high low, rest')

-- `buf` points at `offset` in the buffer.
unfoldable pub serialize_uint32_to_char_buf : ℕ → ℕ → List ℕ → List ℕ
serialize_uint32_to_char_buf value offset buffer =
    take offset buffer ++ overwrite (network_bytes value) (drop offset buffer)

unfoldable pub deserialize_uint32_from_char_buf : ℕ → List ℕ → ℕ
deserialize_uint32_from_char_buf offset buffer = from_network_bytes (drop offset buffer)

unfoldable pub serialize_uint64_to_char_buf : ℕ → ℕ → List ℕ → List ℕ
serialize_uint64_to_char_buf value offset buffer =
    serialize_uint32_to_char_buf (lsb value) (offset + 4)
      (serialize_uint32_to_char_buf (msb value) offset buffer)

unfoldable pub deserialize_uint64_from_char_buf : ℕ → List ℕ → ℕ
deserialize_uint64_from_char_buf offset buffer =
    join (deserialize_uint32_from_char_buf offset buffer)
      (deserialize_uint32_from_char_buf (offset + 4) buffer)

pub serialize_uint8 : ℕ → List ℕ → List ℕ
serialize_uint8 value os = os ++ value ∷ []

abbrev pub byte_at : ℕ → List ℕ → ℕ
byte_at i [] = 0
byte_at zero (x ∷ _) = x
byte_at (suc i) (_ ∷ xs) = byte_at i xs

pub deserialize_uint8 : List ℕ → List ℕ → ℕ × List ℕ
deserialize_uint8 fresh stream = (byte_at 0 (read_into 1 fresh stream), drop 1 stream)

-- An array of three bytes.
abbrev pub Bytes3 : Type 0
Bytes3 = ℕ × ℕ × ℕ

pub serialize_3_byte_unsigned_char : Bytes3 → List ℕ → List ℕ
serialize_3_byte_unsigned_char (b0, b1, b2) os = os ++ b2 ∷ b1 ∷ b0 ∷ []

pub deserialize_to_3_byte_unsigned_char : List ℕ → List ℕ → Bytes3 × List ℕ
deserialize_to_3_byte_unsigned_char fresh stream =
    let buffer = read_into 3 fresh stream in
    ((byte_at 2 buffer, byte_at 1 buffer, byte_at 0 buffer), drop 3 stream)

pub split_uint32_to_3_byte_uint8_array : ℕ → Bytes3
split_uint32_to_3_byte_uint8_array value =
    (bit_and value 0xff0000 / 2 ^ 16, bit_and value 0xff00 / 2 ^ 8, bit_and value 0xff)

pub unsplit_3_byte_uint8_array_to_uint32 : Bytes3 → ℕ
unsplit_3_byte_uint8_array_to_uint32 (b0, b1, b2) = bit_or (bit_or (b0 * 2 ^ 16) (b1 * 2 ^ 8)) b2

pub get_uint32_from_3_byte_uint8_array : Bytes3 → ℕ
get_uint32_from_3_byte_uint8_array (b0, b1, b2) = bit_or (bit_or (b0 * 2 ^ 16) (b1 * 2 ^ 8)) b2

-- A C string: the bytes before the first 0.
abbrev pub c_string : List ℕ → List ℕ
c_string [] = []
c_string (c ∷ cs) = if c == 0 then [] else c ∷ c_string cs

pub serialize_string : List ℕ → List ℕ → List ℕ → List ℕ
serialize_string fresh value os =
    os ++ take (length value) (overwrite (c_string value ++ 0 ∷ []) fresh)

pub deserialize_string : List ℕ → ℕ → List ℕ → List ℕ × List ℕ
deserialize_string fresh datalen stream =
    (c_string (take datalen (read_into datalen fresh stream)), drop datalen stream)

abbrev pub zeros : ℕ → List ℕ
zeros zero = []
zeros (suc n) = 0 ∷ zeros n

pub serialize_padding : ℕ → List ℕ → List ℕ
serialize_padding pad_len os = os ++ zeros pad_len

pub deserialize_padding : ℕ → List ℕ → List ℕ
deserialize_padding pad_len stream = drop pad_len stream
