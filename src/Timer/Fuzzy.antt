-- ===== src/Timer/Fuzzy.antt =====
-- platform/Timer.cpp, `scheduleOneShotBetweenTimeouts`: a timer that is to fire at some moment
-- between two.
use timer_and_callback.Base.{
  ℕ, suc, ◌+◌, ◌-◌, ◌%◌, ◌≤◌, ◌<◌, ◌≡◌, refl, some, true, false, ◌==◌, ltb, if◌then◌else◌, ok,
  Returns, Returns-map, arith,
}
use timer_and_callback.Types.{u64, u64_mod, sub64}
use timer_and_callback.Pool.{null}
use timer_and_callback.World.{
  TimerType, TimerState, Timer, World, ◌>>=◌, ◌>>◌, wait, load, store, rand, with_timer,
  get_current_time_in_msec, convert_timer_timeout_to_absolute_time_since_epoch,
}
use timer_and_callback.Timer.{schedule, schedule_fuzzy, schedule_one_shot_between_timeouts}
use timer_and_callback.Timer.Times.{now, later}
use timer_and_callback.Timer.Ready.{IsReady, IsReady-others}
use timer_and_callback.Timer.Schedule.{IsScheduled, CanRun, add_and_post-IsScheduled}

-- The moment that is chosen: `x` is what `rand ()` answers.
abbrev pub moment : (current timeout1 timeout2 x : ℕ) → ℕ
moment current timeout1 timeout2 x =
    u64 (current + u64 (timeout1 + 1 + x % sub64 timeout2 timeout1))

-- The timer that is scheduled. Its member `first` is as before.
abbrev pub fuzzy : World → Timer → (p_cb timeout1 timeout2 : ℕ) → Timer
fuzzy w t p_cb timeout1 timeout2 = record t {
  p_cb = if t.p_cb == null then p_cb else t.p_cb;
  state = TimerState.active;
  type = TimerType.one_shot;
  how_many_times_to_fire = 0;
  when_to_fire = moment (now w) timeout1 timeout2 (w.random 0);
  timeout = timeout2;
  number_of_times_fired = 0;
}

-- The choice of the moment changes the time of the timer, and reads the clock and a random number.
schedule_fuzzy-ok :
    (w : World) (this x1 x2 : ℕ) (t : Timer)
    → w.timers this ≡ some t
    → x1 < x2
    → x2 < u64_mod
    → schedule_fuzzy this x1 false x2 false w
      ≡ ok (
        tt,
        with_timer
            (record (later w) { random = λ k. w.random (suc k) })
            this
            (some (record t { when_to_fire = moment (now w) x1 x2 (w.random 0) })),
      )
unfolding schedule_fuzzy convert_timer_timeout_to_absolute_time_since_epoch get_current_time_in_msec
    rand load store
schedule_fuzzy-ok w this x1 x2 t here lt fits =
    let order : ltb x2 x1 ≡ false = ground arith in
    let apart : (sub64 x2 x1 == 0) ≡ false = ground arith in rw (order, apart, here) refl

module _ {w : World} {this : ℕ} {t : Timer} (can : CanRun w this t) (v : IsReady w this) where
  -- `scheduleOneShotBetweenTimeouts`, the first timeout shorter than the second, which ends before
  -- 2 ^ 64, with the semaphore free and a heap of fewer than 1024 timers, returns: the timer is
  -- active and in the heap, which stays in order if it did not hold the timer, and is to fire after
  -- the first timeout and no later than the second, whatever `rand` answers; the other timers and
  -- the semaphore are as before.
  pub schedule_one_shot_between_timeouts-IsScheduled :
      (p_cb timeout1 timeout2 : ℕ)
      → timeout1 < timeout2
      → now w + timeout2 < u64_mod
      → Returns
          (λ (_, w').
            IsScheduled (later w) this (fuzzy w t p_cb timeout1 timeout2) w'
            × (now w + timeout1 < (fuzzy w t p_cb timeout1 timeout2).when_to_fire)
            × ((fuzzy w t p_cb timeout1 timeout2).when_to_fire ≤ now w + timeout2))
          (schedule_one_shot_between_timeouts this p_cb timeout1 timeout2 w)
  unfolding schedule_one_shot_between_timeouts schedule wait load store
  schedule_one_shot_between_timeouts-IsScheduled p_cb timeout1 timeout2 lt fits =
      let free : (w.semaphore == 0) ≡ false = ground (arith, can.unlocked) in
      let same : (this == this) ≡ true = ground arith in
      let t1 = record t {
        p_cb = if t.p_cb == null then p_cb else t.p_cb;
        state = TimerState.active;
        type = TimerType.one_shot;
        how_many_times_to_fire = 0;
      } in
      let w1 = with_timer (record w { semaphore = w.semaphore - 1 }) this (some t1) in
      rw
        (
          free,
          can.object,
          ◌>>◌,
          schedule_fuzzy-ok w1 this timeout1 timeout2 t1 (ground arith) lt (omega arith),
          ◌>>=◌,
          load,
          same,
        )
        (Returns-map
          (add_and_post-IsScheduled (later w) _ this _
            (IsReady-others v (later w) refl (λ p ne. refl) v.object) can.unlocked refl
            (ground arith) (λ p ne. ground arith) refl (refl, refl, refl, refl, refl, refl))
          λ _ s. (s, omega arith, omega arith))
