-- ===== src/Tests/Bytes.antt =====
-- common/Util.cpp and include/platform/PosixMessageQueueObject.h at concrete bytes.
use timer_and_callback.Base.{ℕ, ◌≡◌, refl, List, [], ◌∷◌, ◌++◌, arith}
use timer_and_callback.Wire.{
  serialize_uint32, serialize_uint64, deserialize_uint64, serialize_uint64_to_char_buf,
  deserialize_uint64_from_char_buf,
}
use timer_and_callback.Wire.Buffers.{uint64_buffer-stream}
use timer_and_callback.Wire.Floats.{Conversions}
use timer_and_callback.Message.{PosixMessageQueueObject}

abbrev fresh : List ℕ
fresh = 1 ∷ 2 ∷ 3 ∷ []

abbrev rest : List ℕ
rest = 7 ∷ []

-- Conversions that give 0 for every number.
abbrev to_zero : Conversions
to_zero = record { to_uint32 = λ n. 0; of_uint32 = λ n. 0; not_negative = λ n. omega arith }

abbrev sent : PosixMessageQueueObject
sent = record { from = 2; event = 5; shm_index = 3 }

abbrev received : PosixMessageQueueObject
received = record { from = 0; event = 9; shm_index = 0 }

-- The most significant byte comes first.
serialize_uint32_test : serialize_uint32 305419896 [] ≡ 18 ∷ 52 ∷ 86 ∷ 120 ∷ []
unfolding serialize_uint32
serialize_uint32_test = refl

uint64_buffer-stream_example :
    (serialize_uint64_to_char_buf 258 2 (9 ∷ 9 ∷ 1 ∷ 2 ∷ 3 ∷ 4 ∷ 5 ∷ 6 ∷ 7 ∷ 8 ∷ rest)
      ≡ 9 ∷ 9 ∷ [] ++ serialize_uint64 258 [] ++ rest)
    × (deserialize_uint64_from_char_buf 2 (9 ∷ 9 ∷ 1 ∷ 2 ∷ 3 ∷ 4 ∷ 5 ∷ 6 ∷ 7 ∷ 8 ∷ rest)
        ≡ (deserialize_uint64 fresh (1 ∷ 2 ∷ 3 ∷ 4 ∷ 5 ∷ 6 ∷ 7 ∷ 8 ∷ [] ++ rest)).0)
uint64_buffer-stream_example =
    uint64_buffer-stream 258 fresh (9 ∷ 9 ∷ []) (1 ∷ 2 ∷ 3 ∷ 4 ∷ 5 ∷ 6 ∷ 7 ∷ 8 ∷ []) rest refl
