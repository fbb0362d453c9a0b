-- ===== src/TimerTask/Late.antt =====
-- platform/TimerTask.cpp and TimerMinHeap.cpp: the rounds after the top of three timers has been
-- taken out of the heap.
use timer_and_callback.Base.{
  ℕ, zero, suc, ◌<◌, ◌≤◌, ◌≡◌, ◌≢◌, refl, ap, ◌∙◌, some, false, ◌∷◌, ◌==◌, leb, ok, Returns,
  Returns-bind, returns, arith,
}
use timer_and_callback.Wire.{zeros}
use timer_and_callback.Message.{serialize_to_char_buf}
use timer_and_callback.World.{TimerState, Timer, World, ◌>>=◌, ◌>>◌, load, get_current_time_in_msec}
use timer_and_callback.Timer.Times.{now, later}
use timer_and_callback.TimerTask.{top_timer, look_at_top, round, rounds}
use timer_and_callback.TimerTask.Fire.{IsDue, IsFired, message, round-IsFired}
use timer_and_callback.TimerTask.Cycle.{reading}
use timer_and_callback.TimerTask.Blocked.{after_readings}

-- The timer at the top of the heap is not due at the next `steps` readings of the clock.
pub record IsEarly (w : World) (t : Timer) (steps : ℕ) : Type 0 where
  pub some_left : 0 < w.min_heap.number_of_timers_being_managed
  pub object : w.timers (w.min_heap.heap 0) ≡ some t
  pub early : (k : ℕ) → k < steps → reading w.clock k < t.when_to_fire

early_round :
    {w : World} {t : Timer} {steps : ℕ} → IsEarly w t (suc steps) → round w ≡ ok (tt, later w)
unfolding round look_at_top top_timer load get_current_time_in_msec
early_round {w} {t} v =
    let more : (w.min_heap.number_of_timers_being_managed == 0) ≡ false =
      ground (arith, v.some_left) in
    let not_past : leb t.when_to_fire (now w) ≡ false = ground (arith, v.early 0 (omega arith)) in
    rw (more, ◌>>=◌, load, v.object, not_past) refl

-- Such rounds only read the clock, whatever other timers are in the heap.
pub rounds_early :
    (steps : ℕ) (w : World) (t : Timer)
    → IsEarly w t steps
    → rounds steps w ≡ ok (tt, after_readings steps w)
unfolding rounds
rounds_early zero w t v = refl
rounds_early (suc steps) w t v =
    rw (early_round v, ◌>>◌, ◌>>=◌)
      (rounds_early steps (later w) t (record {
        some_left = v.some_left;
        object = v.object;
        early = λ k h. v.early (suc k) (omega arith);
      }))

same_but_clock :
    (steps : ℕ) (w : World)
    → ((after_readings steps w).timers ≡ w.timers)
      × ((after_readings steps w).min_heap ≡ w.min_heap)
      × ((after_readings steps w).sent ≡ w.sent)
same_but_clock zero w = (refl, refl, refl)
same_but_clock (suc steps) w = same_but_clock steps (later w)

-- Three timers are in the heap. The top, `t`, and the second, `second`, are due at the first reading
-- of the clock; the third, `last`, is due at none of the `steps` readings after it.
pub record IsOvertaken (w : World) (index : ℕ) (t second last : Timer) (steps : ℕ) : Type 0 where
  pub top : IsDue w index t
  pub three : w.min_heap.number_of_timers_being_managed ≡ 3
  pub second_object : w.timers (w.min_heap.heap 1) ≡ some second
  pub second_active : second.state ≡ TimerState.active
  pub second_due : second.when_to_fire ≤ now w
  pub second_other : w.min_heap.heap 1 ≢ w.min_heap.heap 0
  pub last_object : w.timers (w.min_heap.heap 2) ≡ some last
  pub last_other : w.min_heap.heap 2 ≢ w.min_heap.heap 0
  pub last_early : (k : ℕ) → k < steps → reading w.clock (suc k) < last.when_to_fire

-- The second timer is still in the heap, active, behind the third, and one message has been sent.
pub record IsKeptBack (w : World) (index : ℕ) (t second : Timer) (w' : World) : Type 0 where
  pub two : w'.min_heap.number_of_timers_being_managed ≡ 2
  pub behind : w'.min_heap.heap 0 ≡ w.min_heap.heap 2
  pub waits : w'.min_heap.heap 1 ≡ w.min_heap.heap 1
  pub not_fired : w'.timers (w.min_heap.heap 1) ≡ some second
  pub sent : w'.sent ≡ (t.cb_contex_t_id, serialize_to_char_buf (message index) (zeros 16)) ∷ w.sent

module _ {w : World} {index : ℕ} {t second last : Timer} {steps : ℕ}
    (v : IsOvertaken w index t second last steps) where
  module _ {w' : World} (f : IsFired w index t w') where
    third_first : w'.min_heap.heap 0 ≡ w.min_heap.heap 2
    third_first = ground (arith, f.taken_out.stays (omega (arith, v.three)) 0, v.three)

    second_stays : w'.min_heap.heap 1 ≡ w.min_heap.heap 1
    second_stays = ground (arith, f.taken_out.stays (omega (arith, v.three)) 1, v.three)

    two_left : w'.min_heap.number_of_timers_being_managed ≡ 2
    two_left = omega (arith, f.taken_out.shrunk, v.three)

    fired-IsEarly : IsEarly w' last steps
    fired-IsEarly = record {
      some_left = omega (arith, two_left);
      object = ap w'.timers third_first ∙ f.others _ v.last_other ∙ v.last_object;
      early = λ k h. rw f.clock (v.last_early k h);
    }

    fired-IsKeptBack : IsKeptBack w index t second (after_readings steps w')
    fired-IsKeptBack =
        let (timers, heap, sent) = same_but_clock steps w' in
        record {
          two = ap (λ s. s.number_of_timers_being_managed) heap ∙ two_left;
          behind = ap (λ s. s.heap 0) heap ∙ third_first;
          waits = ap (λ s. s.heap 1) heap ∙ second_stays;
          not_fired =
              ap (λ o. o (w.min_heap.heap 1)) timers ∙ f.others _ v.second_other ∙ v.second_object;
          sent = sent ∙ f.sent;
        }

    rounds-IsKeptBack : Returns (λ (_, w''). IsKeptBack w index t second w'') (rounds steps w')
    rounds-IsKeptBack = rw (rounds_early steps w' last fired-IsEarly) (returns fired-IsKeptBack)

  -- Of three timers in the heap, the first two are due at the first reading of the clock and the
  -- last is due at none of the readings after it: a round fires the top and any number of rounds
  -- after it fires nothing; the second timer, overdue all the time, stays in the heap behind the
  -- last.
  pub overtaken-IsKeptBack :
      Returns (λ (_, w'). IsKeptBack w index t second w') (rounds (suc steps) w)
  unfolding rounds
  overtaken-IsKeptBack = Returns-bind (round-IsFired v.top) λ (_, w') f. rounds-IsKeptBack f
