-- ===== src/TimerTask/Blocked.antt =====
-- platform/TimerTask.cpp: a timer that is done at the top of the heap.
use timer_and_callback.Base.{
  ℕ, zero, suc, ◌+◌, ◌∙◌, ◌<◌, ◌≡◌, refl, Bool-cases, inl, inr, some, false, ◌==◌, leb, ok, arith,
}
use timer_and_callback.World.{
  TimerState, Timer, World, pure, ◌>>=◌, ◌>>◌, load, get_current_time_in_msec,
}
use timer_and_callback.Timer.Times.{now, later}
use timer_and_callback.TimerTask.{act, top_timer, look_at_top, round, rounds}

-- The clock has been read so many times.
abbrev pub after_readings : ℕ → World → World
after_readings zero w = w
after_readings (suc k) w = after_readings k (later w)

-- All readings are that many places further on.
abbrev pub past : ℕ → World → World
past n w = record w { clock = λ k. w.clock (n + k) }

pub after_readings-past : (n : ℕ) (w : World) → after_readings n w ≡ past n w
after_readings-past zero w =
    let e : (k : ℕ) → k ≡ 0 + k = λ k. omega arith in λ i. record w { clock = λ k. w.clock (e k i) }
after_readings-past (suc n) w =
    let e : (k : ℕ) → suc (n + k) ≡ suc n + k = λ k. omega arith in
    after_readings-past n (later w) ∙ (λ i. record w { clock = λ k. w.clock (e k i) })

-- A timer that is done is at the top of the heap.
pub record IsBlocked (w : World) (t : Timer) : Type 0 where
  pub some_left : 0 < w.min_heap.number_of_timers_being_managed
  pub object : w.timers (w.min_heap.heap 0) ≡ some t
  pub finished : t.state ≡ TimerState.done

act_done : (s : TimerState) (p : ℕ) (t : Timer) → s ≡ TimerState.done → act s p t ≡ pure tt
unfolding act
act_done s p t e = rw e refl

blocked_round : {w : World} {t : Timer} → IsBlocked w t → round w ≡ ok (tt, later w)
unfolding round look_at_top top_timer load get_current_time_in_msec
blocked_round {w} {t} v = elim (Bool-cases (leb t.when_to_fire (now w))) [
  | inl e ↦
      let more : (w.min_heap.number_of_timers_being_managed == 0) ≡ false =
        ground (arith, v.some_left) in
      rw (more, ◌>>=◌, load, v.object, e, act_done t.state _ t v.finished) refl
  | inr e ↦
      let more : (w.min_heap.number_of_timers_being_managed == 0) ≡ false =
        ground (arith, v.some_left) in
      rw (more, ◌>>=◌, load, v.object, e) refl
]

-- While a timer that is done is at the top of the heap, any number of rounds of TimerTask returns
-- and only reads the clock, once in each round, however many other timers are due.
pub rounds_blocked :
    (n : ℕ) (w : World) (t : Timer) → IsBlocked w t → rounds n w ≡ ok (tt, after_readings n w)
unfolding rounds
rounds_blocked zero w t v = refl
rounds_blocked (suc n) w t v =
    rw (blocked_round v, ◌>>◌, ◌>>=◌)
      (rounds_blocked n (later w) t
        (record { some_left = v.some_left; object = v.object; finished = v.finished }))
