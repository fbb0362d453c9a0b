-- ===== src/TimerTask.antt =====
-- platform/TimerTask.cpp: one round of the loop of `run`, and the receiver's side of a message as
-- the tasks of test/ write it. Forking the process and opening the queues are left out.
pub mod Room
pub mod Fire
pub mod Full
pub mod Cycle
pub mod Firings
pub mod Initialize
pub mod Postpone
pub mod System
pub mod Kept
pub mod Rounds
pub mod Invariant
pub mod Race
pub mod Drain
pub mod Blocked
pub mod Stuck
pub mod Waiting
pub mod Late
pub mod Lifecycle
pub mod Dangling
pub mod Made
pub mod Startup
pub mod Receivers
use timer_and_callback.Base.{
  Option, none, some, zero, suc, [], blocked, aborted, one_if_eq, ℕ, ◌+◌, Bool, List, ◌∷◌, ltb,
  ◌==◌, if◌then◌else◌, ok, fault,
}
use timer_and_callback.Types.{Result, u32, uint64_leq}
use timer_and_callback.MinHeap.{TimerTaskShared, remove_from_heap}
use timer_and_callback.World.{
  TimerState, Timer, World, M, pure, ◌>>=◌, ◌>>◌, load, store, on_heap, get_current_time_in_msec,
}
use timer_and_callback.Wire.{zeros}
use timer_and_callback.Message.{
  timer_task, max_tasks, PosixMessageQueueObject, serialize_to_char_buf, deserialize_from_char_buf,
}
use timer_and_callback.Timer.{
  set_state, change_firing_time, get_index, get_timer_at_index, process_a_callback,
}

-- How many messages wait in a queue.
unfoldable pub waiting : ℕ → List (ℕ × List ℕ) → ℕ
waiting queue [] = 0
waiting queue (message ∷ sent) = waiting queue sent + one_if_eq message.0 queue

-- `pMQToTasks[queue]->send (buf, …)`: on a queue that has not been opened the call fails, which an
-- assertion ends; on a full one it waits, as the queues are opened without O_NONBLOCK.
pub send : ℕ → List ℕ → M (Unit {0})
unfolding waiting
send queue buf w =
    if ltb queue max_tasks
    then elim (w.queues queue) [
      | none ↦ aborted
      | some capacity ↦
          if ltb (waiting queue w.sent) capacity
          then ok (tt, record w { sent = (queue, buf) ∷ w.sent })
          else blocked
    ]
    else fault

-- `case Timer::Active`. The buffer has the size of the object, 16 bytes, and all are written.
pub fire : ℕ → M (Unit {0})
unfolding send
fire top = do
  in_pool ← get_index top
  t ← load top
  store top (record t { number_of_times_fired = u32 (t.number_of_times_fired + 1) })
  _ ← on_heap λ f s. remove_from_heap f s top
  set_state top TimerState.done
  t' ← load top
  send t'.cb_contex_t_id (
      serialize_to_char_buf (record { from = timer_task; event = 0; shm_index = in_pool })
        (zeros 16))

-- `case Timer::Idle`
pub postpone : ℕ → Timer → M (Unit {0})
postpone top t = do _ ← on_heap λ f s. remove_from_heap f s top; change_firing_time top t.timeout

pub top_timer : M ℕ
top_timer w = ok (w.min_heap.heap 0, w)

-- The `switch` on the state of a timer that is due.
pub act : TimerState → ℕ → Timer → M (Unit {0})
unfolding fire postpone
act TimerState.active top t = fire top
act TimerState.idle top t = postpone top t
act TimerState.done top t = pure tt

-- The part of a round that looks at the top of a heap that is not empty.
pub look_at_top : M (Unit {0})
unfolding act top_timer
look_at_top = do
  top ← top_timer
  t ← load top
  current ← get_current_time_in_msec
  if uint64_leq t.when_to_fire current then act t.state top t else pure tt

-- One round of `while (1)`.
pub round : M (Unit {0})
unfolding look_at_top
round w = if w.min_heap.number_of_timers_being_managed == 0 then ok (tt, w) else look_at_top w

-- What a task does with a message: `fresh` is the receiver's new message object.
pub receive : PosixMessageQueueObject → List ℕ → M Result
receive fresh buf = do
  this ← get_timer_at_index (deserialize_from_char_buf fresh buf).shm_index
  process_a_callback this

-- The message in a queue that was sent to it first, and all others.
abbrev pub oldest : ℕ → List (ℕ × List ℕ) → Option (List ℕ × List (ℕ × List ℕ))
oldest queue [] = none
oldest queue (message ∷ sent) = elim (oldest queue sent) [
  | none ↦ if message.0 == queue then some (message.1, sent) else none
  | some (first, others) ↦ some (first, message ∷ others)
]

-- A turn of the receiver of a task: it takes the message that was sent first to its own queue; with
-- none it waits.
pub deliver : ℕ → PosixMessageQueueObject → M Result
unfolding receive
deliver queue fresh w = elim (oldest queue w.sent) [
  | none ↦ blocked
  | some (message, others) ↦ receive fresh message (record w { sent = others })
]

-- A round of TimerTask, and then one turn of the receiver of a task, `count` times.
pub cycles : ℕ → ℕ → PosixMessageQueueObject → M (Unit {0})
unfolding round deliver
cycles queue zero fresh = pure tt
cycles queue (suc count) fresh = do round; _ ← deliver queue fresh; cycles queue count fresh

-- So many rounds of `while (1)`.
pub rounds : ℕ → M (Unit {0})
unfolding round
rounds zero = pure tt
rounds (suc count) = do round; rounds count
