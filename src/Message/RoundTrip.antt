-- ===== src/Message/RoundTrip.antt =====
-- include/platform/PosixMessageQueueObject.h: what a receiver reads of a message.
use Prim.Native.String.{String}
use text.Mathlib.Text.{◌==◌ as str_eq}
use text.Mathlib.TextEquality.{eq_iff}
use timer_and_callback.Base.{◌++◌, ℕ, ◌≤◌, ◌<◌, ◌≡◌, ◌≢◌, refl, false, List, ◌∷◌, length, arith}
use timer_and_callback.Types.{u32_mod, u64_mod}
use timer_and_callback.Wire.{
  zeros, network_bytes, from_network_bytes, msb, lsb, join, serialize_uint32_to_char_buf,
  deserialize_uint32_from_char_buf, serialize_uint64_to_char_buf, deserialize_uint64_from_char_buf,
}
use timer_and_callback.Message.{
  max_tasks, get_path_name_from_id, PosixMessageQueueObject, serialize_to_char_buf,
  deserialize_from_char_buf,
}

pub record IsMessage (m : PosixMessageQueueObject) : Type 0 where
  pub from : m.from < u32_mod
  pub event : m.event < u32_mod
  pub shm_index : m.shm_index < u64_mod

-- A message that is put in a buffer of 16 bytes or more and taken out again keeps its task and its
-- index, but not its event: the receiver's object keeps the event that it had.
pub message_round_trip :
    (m old : PosixMessageQueueObject) (buf : List ℕ)
    → IsMessage m
    → 16 ≤ length buf
    → deserialize_from_char_buf old (serialize_to_char_buf m buf) ≡ record m { event = old.event }
unfolding serialize_to_char_buf deserialize_from_char_buf serialize_uint32_to_char_buf
    deserialize_uint32_from_char_buf serialize_uint64_to_char_buf deserialize_uint64_from_char_buf
message_round_trip m old (_ ∷ _ ∷ _ ∷ _ ∷ _ ∷ _ ∷ _ ∷ _ ∷ _ ∷ _ ∷ _ ∷ _ ∷ _ ∷ _ ∷ _ ∷ _ ∷ rest) v
      h =
    let from : from_network_bytes (network_bytes m.from) ≡ m.from = omega (arith, v.from) in
    let shm_index : join (from_network_bytes (network_bytes (msb m.shm_index)))
          (from_network_bytes (network_bytes (lsb m.shm_index)))
        ≡ m.shm_index =
      omega (arith, v.shm_index) in
    λ i. record { from = from i; event = old.event; shm_index = shm_index i }
message_round_trip m old buf v h = absurd (omega arith)

-- What stands behind the 16 bytes of a message does not matter.
pub serialize-append :
    (m : PosixMessageQueueObject) (rest : List ℕ)
    → serialize_to_char_buf m (zeros 16) ++ rest ≡ serialize_to_char_buf m (zeros 16 ++ rest)
unfolding serialize_to_char_buf serialize_uint32_to_char_buf serialize_uint64_to_char_buf
serialize-append m rest = refl

pub length-serialize :
    (m : PosixMessageQueueObject) → length (serialize_to_char_buf m (zeros 16)) ≡ 16
unfolding serialize_to_char_buf serialize_uint32_to_char_buf serialize_uint64_to_char_buf
length-serialize m = refl

different : (s t : String) → str_eq s t ≡ false → s ≢ t
different s t h e = cc ((eq_iff s t).1 e)

-- An id below MAX_TASKS shares the name of its message queue with no other id, valid or not.
pub get_path_name_from_id-injective :
    (i j : ℕ) → i < max_tasks → get_path_name_from_id i ≡ get_path_name_from_id j → i ≡ j
unfolding get_path_name_from_id
get_path_name_from_id-injective i j hi e = ground (
  arith,
  different "/Test" "/ApplicationBaseTask" refl,
  different "/Test" "/TimerTask" refl,
  different "/ApplicationBaseTask" "/TimerTask" refl,
  different "/Test" "Invalid" refl,
  different "/ApplicationBaseTask" "Invalid" refl,
  different "/TimerTask" "Invalid" refl,
)
