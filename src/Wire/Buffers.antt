-- ===== src/Wire/Buffers.antt =====
-- common/Util.cpp: the functions that write into a buffer and read from it, against those that
-- write to a stream and read from it.
use timer_and_callback.Base.{ℕ, suc, ◌+◌, ◌≡◌, refl, ap, ◌∙◌, List, [], ◌∷◌, ◌++◌, length, arith}
use timer_and_callback.Wire.{
  serialize_uint32, deserialize_uint32, serialize_uint64, deserialize_uint64,
  serialize_uint32_to_char_buf, deserialize_uint32_from_char_buf, serialize_uint64_to_char_buf,
  deserialize_uint64_from_char_buf,
}

-- Bytes in front of the place that is written are kept.
module _ (value byte : ℕ) where
  uint64-front :
      (offset : ℕ) (buffer : List ℕ)
      → serialize_uint64_to_char_buf value (suc offset) (byte ∷ buffer)
        ≡ byte ∷ serialize_uint64_to_char_buf value offset buffer
  unfolding serialize_uint64_to_char_buf serialize_uint32_to_char_buf
  uint64-front offset buffer =
      let next : suc offset + 4 ≡ suc (offset + 4) = omega arith in rw next refl

uint64_read-front :
    (byte offset : ℕ) (buffer : List ℕ)
    → deserialize_uint64_from_char_buf (suc offset) (byte ∷ buffer)
      ≡ deserialize_uint64_from_char_buf offset buffer
unfolding deserialize_uint64_from_char_buf deserialize_uint32_from_char_buf
uint64_read-front byte offset buffer =
    let next : suc offset + 4 ≡ suc (offset + 4) = omega arith in rw next refl

-- The first eight bytes of a buffer are overwritten.
uint64-first :
    (value : ℕ) (old after : List ℕ)
    → length old ≡ 8
    → serialize_uint64_to_char_buf value 0 (old ++ after) ≡ serialize_uint64 value [] ++ after
unfolding serialize_uint64_to_char_buf serialize_uint32_to_char_buf serialize_uint64
    serialize_uint32
uint64-first value (a ∷ b ∷ c ∷ d ∷ e ∷ f ∷ g ∷ h ∷ []) after same = refl
uint64-first value old after same = absurd (omega arith)

uint64_written :
    (value : ℕ) (before old after : List ℕ)
    → length old ≡ 8
    → serialize_uint64_to_char_buf value (length before) (before ++ old ++ after)
      ≡ before ++ serialize_uint64 value [] ++ after
uint64_written value [] old after same = uint64-first value old after same
uint64_written value (byte ∷ before) old after same =
    uint64-front value byte (length before) (before ++ old ++ after)
    ∙ ap (λ l. byte ∷ l) (uint64_written value before old after same)

uint64_read-first :
    (fresh old after : List ℕ)
    → length old ≡ 8
    → deserialize_uint64_from_char_buf 0 (old ++ after)
      ≡ (deserialize_uint64 fresh (old ++ after)).0
unfolding deserialize_uint64_from_char_buf deserialize_uint32_from_char_buf deserialize_uint64
    deserialize_uint32
uint64_read-first fresh (a ∷ b ∷ c ∷ d ∷ e ∷ f ∷ g ∷ h ∷ []) after same = refl
uint64_read-first fresh old after same = absurd (omega arith)

uint64_read :
    (fresh before old after : List ℕ)
    → length old ≡ 8
    → deserialize_uint64_from_char_buf (length before) (before ++ old ++ after)
      ≡ (deserialize_uint64 fresh (old ++ after)).0
uint64_read fresh [] old after same = uint64_read-first fresh old after same
uint64_read fresh (byte ∷ before) old after same =
    uint64_read-front byte (length before) (before ++ old ++ after)
    ∙ uint64_read fresh before old after same

-- At any place of a buffer, with eight bytes there, `serializeUINT64ToCharBuf` puts the bytes that
-- `serializeUINT64` writes to a stream, and leaves all other bytes as they are; and
-- `deserializeUINT64FromCharBuf` reads there what `deserializeUINT64` reads from a stream that begins
-- there.
pub uint64_buffer-stream :
    (value : ℕ) (fresh before old after : List ℕ)
    → length old ≡ 8
    → (serialize_uint64_to_char_buf value (length before) (before ++ old ++ after)
        ≡ before ++ serialize_uint64 value [] ++ after)
      × (deserialize_uint64_from_char_buf (length before) (before ++ old ++ after)
          ≡ (deserialize_uint64 fresh (old ++ after)).0)
uint64_buffer-stream value fresh before old after same =
    (uint64_written value before old after same, uint64_read fresh before old after same)
