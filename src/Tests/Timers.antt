-- ===== src/Tests/Timers.antt =====
-- platform/Timer.cpp, TimerUtils.cpp and TimerTask.cpp in a small system: two timers in the pool, at
-- 4172 and 4236. The time is 1500 ms.
use timer_and_callback.Base.{
  ℕ, ◌<◌, ◌≤◌, ◌≡◌, ◌≢◌, refl, inl, inr, some, List, [], ◌∷◌, ok, Returns, ◌==◌, count, arith,
}
use timer_and_callback.Types.{Result}
use timer_and_callback.Message.{deserialize_from_char_buf}
use timer_and_callback.World.{TimerType, TimerState, Timer, World}
use timer_and_callback.Timer.{
  schedule_one_shot_between_timeouts, schedule_one_shot_at_absolute_time,
  schedule_periodic_at_timeout, restart, stop, get_timer_at_index, process_a_callback,
}
use timer_and_callback.Timer.Ready.{IsReady}
use timer_and_callback.Timer.Times.{later}
use timer_and_callback.Timer.Fuzzy.{fuzzy, schedule_one_shot_between_timeouts-IsScheduled}
use timer_and_callback.Timer.Schedule.{
  IsScheduled, CanRun, restart-IsScheduled, schedule_periodic_at_timeout-IsScheduled,
  schedule_one_shot_at_absolute_time-first,
}
use timer_and_callback.Timer.Callback.{after_trigger, process_a_callback-again}
use timer_and_callback.Timer.Stop.{IsStopped, IsInHeap, stop-IsStopped}
use timer_and_callback.TimerTask.{waiting, round}
use timer_and_callback.TimerTask.Fire.{IsDue, message, IsFired, round-IsFired, round-receiver}
use timer_and_callback.Tests.Memory.{pool, placed, location_of_1}

abbrev timer : TimerType → TimerState → ℕ → Timer
timer type state fired = record {
  type = type;
  state = state;
  p_cb = 900;
  creating_t_id = 0;
  cb_contex_t_id = 1;
  how_many_times_to_fire = 3;
  number_of_times_fired = fired;
  first = 800;
  timeout = 500;
  when_to_fire = 1200;
}

-- The heap holds the timer at 4236.
abbrev world : Timer → World
world t = record {
  timers = λ p. some t;
  min_heap = record { heap = λ i. 4236; number_of_timers_being_managed = 1 };
  pool = pool;
  semaphore = 1;
  callbacks = λ p. p == 900;
  triggered = [];
  queues = λ q. some 10;
  sent = [];
  clock = λ k. record { tv_sec = 1; tv_usec = 500000 };
  random = λ k. 12345;
}

world-IsReady : (t : Timer) → IsReady (world t) 4172
unfolding count
world-IsReady t = record { room = omega arith; live = λ i h. refl; object = refl }

world-CanRun : (t : Timer) → CanRun (world t) 4172 t
world-CanRun t = record { unlocked = omega arith; object = refl }

abbrev stopped : Timer
stopped = timer TimerType.periodic TimerState.idle 1

abbrev fired : TimerType → ℕ → Timer
fired type times = timer type TimerState.done times

idle_differs : TimerState.idle ≢ TimerState.active
idle_differs e = cc

restart-IsScheduled_example :
    Returns
      (λ (_, w').
        IsScheduled
          (world stopped)
          4172
          (record stopped { state = TimerState.active; when_to_fire = 2000 })
          w')
      (restart 4172 (world stopped))
restart-IsScheduled_example =
    restart-IsScheduled (world-CanRun stopped) (world-IsReady stopped) idle_differs

schedule_periodic_at_timeout-IsScheduled_example :
    Returns
      (λ (_, w').
        IsScheduled
          (world stopped)
          4172
          (record stopped {
            type = TimerType.periodic;
            state = TimerState.active;
            how_many_times_to_fire = 9;
            number_of_times_fired = 0;
            first = 70;
            timeout = 70;
            when_to_fire = 1570;
          })
          w')
      (schedule_periodic_at_timeout 4172 901 70 9 (world stopped))
schedule_periodic_at_timeout-IsScheduled_example =
    schedule_periodic_at_timeout-IsScheduled (world-CanRun stopped) (world-IsReady stopped) 901 70 9

schedule_one_shot_at_absolute_time-first_example :
    Returns
      (λ (_, w').
        IsScheduled
          (world stopped)
          4172
          (record stopped {
            type = TimerType.one_shot;
            state = TimerState.active;
            how_many_times_to_fire = 0;
            number_of_times_fired = 0;
            timeout = 33;
            when_to_fire = 800;
          })
          w')
      (schedule_one_shot_at_absolute_time 4172 901 33 99000 (world stopped))
schedule_one_shot_at_absolute_time-first_example =
    schedule_one_shot_at_absolute_time-first (world-CanRun stopped) (world-IsReady stopped) 901 33
      99000

process_a_callback-again_example :
    Returns
      (λ (code, w').
        (code ≡ Result.ok)
        × IsScheduled
            (later (after_trigger (world (fired TimerType.periodic 3)) 900))
            4172
            (record (fired TimerType.periodic 3) { state = TimerState.active; when_to_fire = 2000 })
            w')
      (process_a_callback 4172 (world (fired TimerType.periodic 3)))
process_a_callback-again_example =
    process_a_callback-again (world-CanRun (fired TimerType.periodic 3)) (omega arith) refl refl
      (world-IsReady (fired TimerType.periodic 3)) (inl (omega arith))

schedule_one_shot_between_timeouts-IsScheduled_example :
    Returns
      (λ (_, w').
        IsScheduled (later (world stopped)) 4172 (fuzzy (world stopped) stopped 901 40 70) w'
        × (1540 < (fuzzy (world stopped) stopped 901 40 70).when_to_fire)
        × ((fuzzy (world stopped) stopped 901 40 70).when_to_fire ≤ 1570))
      (schedule_one_shot_between_timeouts 4172 901 40 70 (world stopped))
schedule_one_shot_between_timeouts-IsScheduled_example =
    schedule_one_shot_between_timeouts-IsScheduled (world-CanRun stopped) (world-IsReady stopped)
      901 40 70 (omega arith) (omega arith)

abbrev running : Timer
running = timer TimerType.periodic TimerState.active 1

running-IsDue : IsDue (world running) 1 running
unfolding waiting
running-IsDue = record {
  some_left = omega arith;
  fits = omega arith;
  live = λ i h. refl;
  object = refl;
  placed = placed;
  inside = omega arith;
  top = location_of_1;
  task = omega arith;
  room = record { capacity = 10; opened = refl; enough = omega arith };
  active = refl;
  due = omega arith;
}

round-IsFired_example :
    Returns (λ (_, w'). IsFired (world running) 1 running w') (round (world running))
round-IsFired_example = round-IsFired running-IsDue

round-receiver_example :
    Returns
      (λ (_, w').
        (bytes : List ℕ) × (w'.sent ≡ (1, bytes) ∷ [])
        × (get_timer_at_index (deserialize_from_char_buf (message 7) bytes).shm_index w'
            ≡ ok (4236, w')))
      (round (world running))
round-receiver_example = round-receiver running-IsDue (message 7)

-- The timer at 4236 stands in the heap of one.
only-IsInHeap : IsInHeap (world running) 4236
only-IsInHeap = record {
  fits = omega arith;
  live = λ i h. refl;
  index = 0;
  held = refl;
  place = inr (omega arith, omega arith);
}

stop-IsStopped_example :
    Returns (λ (_, w'). IsStopped (world running) 4236 running w') (stop 4236 (world running))
stop-IsStopped_example =
    stop-IsStopped (record { unlocked = omega arith; object = refl }) only-IsInHeap
