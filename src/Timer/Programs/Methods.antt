-- ===== src/Timer/Programs/Methods.antt =====
-- platform/Timer.cpp: the calls that tasks make, and their steps.
use timer_and_callback.Base.{ℕ, ◌≡◌, Bool}
use timer_and_callback.World.{TimerType, World, M, ◌>>◌, wait, post}
use timer_and_callback.Timer.{restart, stop, cancel, change_firing_time, schedule}
use timer_and_callback.Timer.Programs.{Program, run}
use timer_and_callback.Timer.Programs.Stopping.{
  take_out_steps, cancel_steps, restart_steps, change_firing_time_steps, stop-run, cancel-run,
  restart-run, change_firing_time-run,
}
use timer_and_callback.Timer.Programs.Scheduling.{schedule_steps, schedule-run}

-- The methods' calls, each by some task.
pub data Method : Type 0 where
  stopping cancelling restarting : (this : ℕ) → Method
  changing_firing_time : (this new_timeout : ℕ) → Method
  scheduling :
      (this p_cb first : ℕ) (first_is_absolute : Bool) (timeout : ℕ) (timeout_is_absolute : Bool)
      (type : TimerType) (how_many_times_to_fire : ℕ) (is_fuzzy_one_shot : Bool)
      → Method

pub call : Method → M (Unit {0})
call (stopping this) = stop this
call (cancelling this) = cancel this
call (restarting this) = restart this
call (changing_firing_time this new_timeout) = change_firing_time this new_timeout
call (scheduling this p_cb first first_abs timeout timeout_abs type how_many fuzzy) =
    schedule this p_cb first first_abs timeout timeout_abs type how_many fuzzy

-- What a method does between `wait ()` and `post ()`.
unfoldable pub steps : Method → Program
steps (stopping this) = take_out_steps this
steps (cancelling this) = cancel_steps this
steps (restarting this) = restart_steps this
steps (changing_firing_time this new_timeout) = change_firing_time_steps this new_timeout
steps (scheduling this p_cb first first_abs timeout timeout_abs type how_many fuzzy) =
    schedule_steps this p_cb first first_abs timeout timeout_abs type how_many fuzzy

-- A call is its steps between `wait ()` and `post ()`.
pub call-run : (method : Method) (w : World) → call method w ≡ (wait >> run (steps method) post) w
unfolding call steps
call-run (stopping this) w = stop-run this w
call-run (cancelling this) w = cancel-run this w
call-run (restarting this) w = restart-run this w
call-run (changing_firing_time this new_timeout) w = change_firing_time-run this new_timeout w
call-run (scheduling this p_cb first first_abs timeout timeout_abs type how_many fuzzy) w =
    schedule-run this p_cb first first_abs timeout timeout_abs type how_many fuzzy w
