-- ===== src/Timer/Times.antt =====
-- platform/TimerUtils.cpp and `Timer::schedule`: the moment at which a timer is to fire.
use timer_and_callback.Base.{
  ℕ, suc, ◌+◌, ◌-◌, ◌*◌, ◌/◌, ◌%◌, ◌≤◌, ◌<◌, ◌≡◌, refl, ap, some, true, false, leb, ltb, ◌==◌,
  if◌then◌else◌, ok, fault, Returns, returns, arith,
}
use timer_and_callback.Types.{u64, u64_mod, sub64}
use timer_and_callback.World.{
  Timer, World, load, store, get_current_time_in_msec,
  convert_timer_timeout_to_absolute_time_since_epoch, convert_absolute_time_since_epoch_to_relative,
  rand,
}
use timer_and_callback.Timer.{schedule_fuzzy}

-- What the next call of `getCurrentTimeInMsec` returns, and the world after it.
abbrev pub now : World → ℕ
now w = u64 ((w.clock 0).tv_sec * 1000 + (w.clock 0).tv_usec / 1000)

abbrev pub later : World → World
later w = record w { clock = λ k. w.clock (suc k) }

-- The time from now to a moment that has not passed is their difference; a moment that has passed
-- is taken to lie ahead, by 2 ^ 64 milliseconds less the time that has gone by since.
pub relative-cases :
    (w : World) (moment : ℕ)
    → moment < u64_mod
    → convert_absolute_time_since_epoch_to_relative moment w
      ≡ ok (if leb (now w) moment then moment - now w else u64_mod - (now w - moment), later w)
unfolding convert_absolute_time_since_epoch_to_relative get_current_time_in_msec
relative-cases w moment h = ap (λ d. ok (d, later w)) (ground arith)

-- A fuzzy timer with two timeouts, the first one shorter and the second one ending before 2 ^ 64, is
-- to fire after the first and no later than the second, whatever `rand` answers.
pub schedule_fuzzy-window :
    (w : World) (this x1 x2 : ℕ) (t : Timer)
    → w.timers this ≡ some t
    → x1 < x2
    → now w + x2 < u64_mod
    → Returns
        (λ (_, w').
          (t' : Timer) × (w'.timers this ≡ some t')
          × (now w + x1 < t'.when_to_fire)
          × (t'.when_to_fire ≤ now w + x2))
        (schedule_fuzzy this x1 false x2 false w)
unfolding schedule_fuzzy convert_timer_timeout_to_absolute_time_since_epoch get_current_time_in_msec
    rand load store
schedule_fuzzy-window w this x1 x2 t here lt fits =
    let order : ltb x2 x1 ≡ false = ground arith in
    let apart : (sub64 x2 x1 == 0) ≡ false = ground arith in
    rw (order, apart, here)
      (returns (
        record t { when_to_fire = u64 (now w + u64 (x1 + 1 + w.random 0 % sub64 x2 x1)) },
        ground arith,
        omega arith,
        omega arith,
      ))

-- A fuzzy timer with two equal timeouts is a division by zero, which is undefined behaviour.
pub schedule_fuzzy-fault :
    (w : World) (this x : ℕ) → x < u64_mod → schedule_fuzzy this x false x false w ≡ fault
unfolding schedule_fuzzy rand
schedule_fuzzy-fault w this x h =
    let order : ltb x x ≡ false = ground arith in
    let same : (sub64 x x == 0) ≡ true = ground arith in rw (order, same) refl
