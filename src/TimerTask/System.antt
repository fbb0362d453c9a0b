-- ===== src/TimerTask/System.antt =====
-- platform/Timer.cpp and TimerTask.cpp together: calls of the methods of timers by the tasks, and
-- rounds of TimerTask, one after the other in any order.
use timer_and_callback.Base.{
  ℕ, ◌+◌, ◌≤◌, ◌<◌, ◌≡◌, ◌≢◌, ◌⊎◌, Option, some, none, true, ok, count, List,
}
use timer_and_callback.Types.{max_number_of_timers}
use timer_and_callback.MinHeap.Order.{AllLive}
use timer_and_callback.Pool.{MemoryPool, null, get_memory_location_from_index}
use timer_and_callback.Pool.Addresses.{IsPlaced}
use timer_and_callback.Message.{max_tasks, PosixMessageQueueObject, deserialize_from_char_buf}
use timer_and_callback.World.{TimerState, Timer, World, M, pure, ◌>>=◌, fires}
use timer_and_callback.Timer.{
  schedule_one_shot_at_timeout, schedule_periodic_at_timeout, cancel, restart, stop,
}
use timer_and_callback.Timer.Times.{now}
use timer_and_callback.TimerTask.{oldest, deliver, round}
use timer_and_callback.TimerTask.Room.{HasRoom}

-- A call of a method of the timer at `this`, a turn of the receiver of a task with its message object,
-- or a round of TimerTask.
pub data Command : Type 0 where
  periodic_at_timeout : (this p_cb timeout how_many : ℕ) → Command
  one_shot_at_timeout : (this p_cb dummy timeout : ℕ) → Command
  restarting stopping cancelling : (this : ℕ) → Command
  receiving : (queue : ℕ) (fresh : PosixMessageQueueObject) → Command
  timer_task_round : Command

unfoldable pub perform : Command → M (Unit {0})
perform (periodic_at_timeout this p_cb timeout how_many) =
    schedule_periodic_at_timeout this p_cb timeout how_many
perform (one_shot_at_timeout this p_cb dummy timeout) =
    schedule_one_shot_at_timeout this p_cb dummy timeout
perform (restarting this) = restart this
perform (stopping this) = stop this
perform (cancelling this) = cancel this
perform (receiving queue fresh) = do _ ← deliver queue fresh; pure tt
perform timer_task_round = round

-- What the tasks keep to: a timer is scheduled, or restarted if it is not active, where it is not
-- in the heap, which has room; it is stopped, or restarted if it is active, where the search of the
-- heap finds it; it is cancelled once; a receiver has a turn when the oldest message in its queue
-- is of a timer that is done and has its callback object; and TimerTask makes a round when it has
-- room for the message that the round sends.
abbrev pub CanSchedule : World → ℕ → Timer → Type 0
CanSchedule w this t =
    (w.timers this ≡ some t)
    × (w.min_heap.number_of_timers_being_managed < max_number_of_timers)
    × (count this w.min_heap.heap w.min_heap.number_of_timers_being_managed ≡ 0)

abbrev pub CanStop : World → ℕ → Timer → ℕ → Type 0
CanStop w this t index =
    (w.timers this ≡ some t)
    × (w.min_heap.heap index ≡ this)
    × ((index + 1 < w.min_heap.number_of_timers_being_managed)
        ⊎ ((index < w.min_heap.number_of_timers_being_managed)
            × (w.min_heap.number_of_timers_being_managed ≤ 3)))

-- The address that a message leads to.
abbrev pub sender : World → PosixMessageQueueObject → List ℕ → ℕ
sender w fresh bytes =
    get_memory_location_from_index w.pool (deserialize_from_char_buf fresh bytes).shm_index

-- If the timer at the top is to fire, the queue of its task has room for its message.
abbrev pub CanRound : World → Type 0
CanRound w =
    (t : Timer)
    → 0 < w.min_heap.number_of_timers_being_managed
    → w.timers (w.min_heap.heap 0) ≡ some t
    → t.state ≡ TimerState.active
    → t.when_to_fire ≤ now w
    → HasRoom w.queues w.sent t.cb_contex_t_id 1

abbrev pub Allowed : World → Command → Type 0
Allowed w (periodic_at_timeout this p_cb timeout how_many) = (t : Timer) × CanSchedule w this t
Allowed w (one_shot_at_timeout this p_cb dummy timeout) = (t : Timer) × CanSchedule w this t
Allowed w (restarting this) =
    (t : Timer) × (((t.state ≢ TimerState.active) × CanSchedule w this t)
      ⊎ ((t.state ≡ TimerState.active) × ((index : ℕ) × CanStop w this t index)))
Allowed w (stopping this) = (t : Timer) × (index : ℕ) × CanStop w this t index
Allowed w (cancelling this) =
    (t : Timer) × (w.timers this ≡ some t) × (t.p_cb ≢ null) × (w.callbacks t.p_cb ≡ true)
Allowed w (receiving queue fresh) =
    (bytes : List ℕ) × (others : List (ℕ × List ℕ)) × (oldest queue w.sent ≡ some (bytes, others))
    × ((t : Timer) × (t.state ≡ TimerState.done)
        × (t.p_cb ≢ null)
        × (w.callbacks t.p_cb ≡ true)
        × CanSchedule w (sender w fresh bytes) t)
Allowed w timer_task_round = CanRound w

-- The states that such commands lead to.
pub data Reached (w : World) : World → Type 0 where
  start : Reached w w
  after :
      {w' w'' : World} (command : Command)
      → Reached w w'
      → Allowed w' command
      → perform command w' ≡ ok (tt, w'')
      → Reached w w''

-- A Timer object is in the pool, and its task can be sent to.
pub record IsObject (pool : MemoryPool) (p : ℕ) (t : Timer) : Type 0 where
  pub task : t.cb_contex_t_id < max_tasks
  pub index : ℕ
  pub inside : index < pool.max_number_of_objects
  pub location : p ≡ get_memory_location_from_index pool index

abbrev pub IsObjectOrNone : MemoryPool → ℕ → Option Timer → Type 0
IsObjectOrNone pool p none = Unit
IsObjectOrNone pool p (some t) = IsObject pool p t

-- No call is in progress; the heap holds at most 1024 timers, each once, and all are Timer objects.
pub record IsSystem (w : World) : Type 0 where
  pub unlocked : w.semaphore ≡ 1
  pub fits : w.min_heap.number_of_timers_being_managed ≤ max_number_of_timers
  pub live : AllLive (fires w) w.min_heap.heap w.min_heap.number_of_timers_being_managed
  pub once : (p : ℕ) → count p w.min_heap.heap w.min_heap.number_of_timers_being_managed ≤ 1
  pub placed : IsPlaced w.pool
  pub objects : (p : ℕ) → IsObjectOrNone w.pool p (w.timers p)
