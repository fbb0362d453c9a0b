-- ===== src/TimerTask/Startup.antt =====
-- platform/Timer.cpp, MemoryPool.cpp, TimerMinHeap.cpp and TimerTask.cpp together: a task makes timers
-- and schedules each of them.
pub mod Joined
pub mod Drained
pub mod OneShots
pub mod Answered
use mathlib.Core.Path.{subst}
use timer_and_callback.Base.{
  ℕ, zero, suc, ◌+◌, ◌≤◌, ◌<◌, ◌≡◌, ◌≢◌, refl, sym, ap, ◌∙◌, inl, inr, some, true, false, List, [],
  ◌∷◌, ◌++◌, Bool-cases, ◌==◌, if◌then◌else◌, count, update, length, has, one_if_eq, occurrences,
  Returns, returns, Returns-bind, Returns-map, arith,
}
use timer_and_callback.Types.{u64, u64_mod, max_number_of_timers}
use timer_and_callback.Pool.{MemoryPool, null, get_from_pool, get_memory_location_from_index}
use timer_and_callback.Pool.Addresses.{
  IsPlaced, SamePlace, IsPlaced_same, get_from_pool-SamePlace, location-SamePlace, index-location,
}
use timer_and_callback.Pool.Free.{IsPool, get_from_pool-cons}
use timer_and_callback.Message.{max_tasks}
use timer_and_callback.MinHeap.Order.{IsHeap}
use timer_and_callback.World.{
  TimerType, TimerState, Timer, Timeval, World, M, pure, ◌>>=◌, ◌>>◌, fires,
}
use timer_and_callback.Timer.{new_timer, schedule_one_shot_at_timeout, schedule_periodic_at_timeout}
use timer_and_callback.Timer.Times.{now, later}
use timer_and_callback.Timer.Ready.{IsReady, live_of}
use timer_and_callback.Timer.Create.{made, with_new, new_timer-made}
use timer_and_callback.Timer.Schedule.{
  IsScheduled, CanRun, schedule_one_shot_at_timeout-IsScheduled,
  schedule_periodic_at_timeout-IsScheduled,
}
use timer_and_callback.TimerTask.{rounds}
use timer_and_callback.TimerTask.Cycle.{reading}
use timer_and_callback.TimerTask.System.{IsSystem}
use timer_and_callback.TimerTask.Kept.{later-IsSystem, scheduled-IsSystem}
use timer_and_callback.TimerTask.Drain.{held, IsMonotone, IsFiring, IsDrained, rounds-IsDrained}
use timer_and_callback.TimerTask.Made.{kept_timer, with_new-IsSystem, with_new-IsHeap}

-- A one-shot timer, with the value that its uninitialised timeout has, or a periodic one that is to
-- fire so many times.
pub data Mode : Type 0 where
  once : (dummy : ℕ) → Mode
  repeated : (how_many : ℕ) → Mode

-- A timer that a task wants: what its memory holds is `memory`.
pub record Request : Type 0 where
  pub creating : ℕ
  pub context : ℕ
  pub memory : Timer
  pub p_cb : ℕ
  pub timeout : ℕ
  pub mode : Mode

pub schedule_as : Mode → (this p_cb timeout : ℕ) → M (Unit {0})
schedule_as (once dummy) this p_cb timeout = schedule_one_shot_at_timeout this p_cb dummy timeout
schedule_as (repeated how_many) this p_cb timeout =
    schedule_periodic_at_timeout this p_cb timeout how_many

pub start : Request → M (Unit {0})
unfolding schedule_as
start r = do
  this ← new_timer r.creating r.context r.memory
  schedule_as r.mode this r.p_cb r.timeout

pub start_all : List Request → M (Unit {0})
unfolding start
start_all [] = pure tt
start_all (r ∷ requests) = do start r; start_all requests

abbrev pub type_of : Mode → TimerType
type_of (once dummy) = TimerType.one_shot
type_of (repeated how_many) = TimerType.periodic

abbrev pub how_many_of : Mode → ℕ
how_many_of (once dummy) = 0
how_many_of (repeated how_many) = how_many

abbrev pub timeout_of : Mode → ℕ → ℕ
timeout_of (once dummy) timeout = dummy
timeout_of (repeated how_many) timeout = timeout

-- The timer that has been made, and the one that has been scheduled when the clock was at `current`.
abbrev pub new_of : Request → Timer
new_of r = made r.creating r.context r.memory

abbrev pub started : ℕ → Request → Timer
started current r = record (new_of r) {
  p_cb = if r.memory.p_cb == null then r.p_cb else r.memory.p_cb;
  state = TimerState.active;
  type = type_of r.mode;
  how_many_times_to_fire = how_many_of r.mode;
  first = r.timeout;
  when_to_fire = u64 (current + r.timeout);
  timeout = timeout_of r.mode r.timeout;
  number_of_times_fired = 0;
}

pub schedule_as-IsScheduled :
    (mode : Mode) {w : World} {this : ℕ} {t : Timer}
    → CanRun w this t
    → IsReady w this
    → (p_cb timeout : ℕ)
    → Returns
        (λ (_, w').
          IsScheduled
            (later w)
            this
            (record t {
              p_cb = if t.p_cb == null then p_cb else t.p_cb;
              state = TimerState.active;
              type = type_of mode;
              how_many_times_to_fire = how_many_of mode;
              first = timeout;
              when_to_fire = u64 (now w + timeout);
              timeout = timeout_of mode timeout;
              number_of_times_fired = 0;
            })
            w')
        (schedule_as mode this p_cb timeout w)
unfolding schedule_as
schedule_as-IsScheduled (once dummy) can ready p_cb timeout =
    schedule_one_shot_at_timeout-IsScheduled can ready p_cb dummy timeout
schedule_as-IsScheduled (repeated how_many) can ready p_cb timeout =
    schedule_periodic_at_timeout-IsScheduled can ready p_cb timeout how_many

-- The timer at `p` is active, and is to fire at `bound` at the latest.
pub record IsAwaited (w : World) (bound p : ℕ) : Type 0 where
  pub timer : Timer
  pub object : w.timers p ≡ some timer
  pub active : timer.state ≡ TimerState.active
  pub before : timer.when_to_fire ≤ bound

-- The objects `free` of the pool are free, and none of them is in the heap, which is in order; every
-- timer in it is active, and is to fire at `bound` at the latest.
pub record IsRunning (w : World) (free : List ℕ) (bound : ℕ) : Type 0 where
  pub system : IsSystem w
  pub pool : IsPool w.pool free
  pub unheld : (i : ℕ) → has i free ≡ true → held w (get_memory_location_from_index w.pool i) ≡ 0
  pub in_order : IsHeap (fires w) w.min_heap.heap w.min_heap.number_of_timers_being_managed
  pub awaited : (p : ℕ) → 0 < held w p → IsAwaited w bound p
