-- ===== src/Message.antt =====
-- include/platform/TaskId.h and PosixMessageQueueObject.h: the ids of the tasks, and the message
-- that names a task, an event and a place in the pool of timers. The C++ enum `Id` may hold any
-- number that is cast to it, so an id is a number here.
pub mod RoundTrip
use Prim.Native.String.{String}
use timer_and_callback.Base.{ℕ, ◌+◌, List, ◌==◌, if◌then◌else◌}
use timer_and_callback.Wire.{
  serialize_uint32_to_char_buf, deserialize_uint32_from_char_buf, serialize_uint64_to_char_buf,
  deserialize_uint64_from_char_buf,
}

-- `TaskId::Test`, `ApplicationBaseTask`, `TimerTask` and `MAX_TASKS`
abbrev pub test_task : ℕ
test_task = 0

abbrev pub application_base_task : ℕ
application_base_task = 1

abbrev pub timer_task : ℕ
timer_task = 2

abbrev pub max_tasks : ℕ
max_tasks = 3

pub get_path_name_from_id : ℕ → String
get_path_name_from_id id =
    if id == test_task
    then "/Test"
    else if id == application_base_task
    then "/ApplicationBaseTask"
    else if id == timer_task
    then "/TimerTask"
    else "Invalid"

pub record PosixMessageQueueObject : Type 0 where
  pub from : ℕ
  pub event : ℕ
  pub shm_index : ℕ

pub serialize_to_char_buf : PosixMessageQueueObject → List ℕ → List ℕ
serialize_to_char_buf m buf =
    serialize_uint64_to_char_buf m.shm_index (4 + 4)
      (serialize_uint32_to_char_buf m.event 4 (serialize_uint32_to_char_buf m.from 0 buf))

-- The event is read from the buffer, and stored nowhere.
pub deserialize_from_char_buf : PosixMessageQueueObject → List ℕ → PosixMessageQueueObject
deserialize_from_char_buf m buf =
    let id = deserialize_uint32_from_char_buf 0 buf in
    let event = deserialize_uint32_from_char_buf 4 buf in
    let shm_index = deserialize_uint64_from_char_buf (4 + 4) buf in
    record m { from = id; shm_index = shm_index }
