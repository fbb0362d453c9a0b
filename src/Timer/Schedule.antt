-- ===== src/Timer/Schedule.antt =====
-- platform/Timer.cpp: the methods that put a timer in the heap.
use mathlib.Core.Path.{subst}
use timer_and_callback.Base.{
  suc, ℕ, count, ◌+◌, ◌-◌, ◌<◌, ◌≡◌, ◌≢◌, refl, ap, sym, ◌∙◌, some, true, false, ◌==◌,
  if◌then◌else◌, Returns, returns, Returns-bind, Returns-map, arith,
}
use timer_and_callback.Types.{Result, u64}
use timer_and_callback.MinHeap.{add_to_heap}
use timer_and_callback.MinHeap.Order.{IsHeap}
use timer_and_callback.MinHeap.Up.{Added}
use timer_and_callback.Pool.{null}
use timer_and_callback.World.{
  TimerType, TimerState, Timer, World, ◌>>=◌, ◌>>◌, wait, post, load, store, with_timer, fires,
  on_heap, get_current_time_in_msec, convert_timer_timeout_to_absolute_time_since_epoch,
}
use timer_and_callback.Timer.{
  is_active, schedule_plain, schedule, schedule_one_shot_at_absolute_time,
  schedule_one_shot_at_timeout, schedule_periodic_at_timeout, reschedule, restart,
  change_firing_time,
}
use timer_and_callback.Timer.Times.{now, later}
use timer_and_callback.Timer.Ready.{
  IsReady, IsBeside, IsReady-others, IsHeap-others, live_of, on_heap-Grown,
}

-- The timer has become `t`, and is in the heap, which stays in order if it did not hold it before; the
-- other timers and the semaphore are as before.
pub record IsScheduled (w : World) (this : ℕ) (t : Timer) (w' : World) : Type 0 where
  pub timer : w'.timers this ≡ some t
  pub others : (p : ℕ) → p ≢ this → w'.timers p ≡ w.timers p
  pub heap : Added (fires w') w.min_heap this (Result.ok, w'.min_heap)
  pub ordered :
      count this w.min_heap.heap w.min_heap.number_of_timers_being_managed ≡ 0
      → IsHeap (fires w) w.min_heap.heap w.min_heap.number_of_timers_being_managed
      → IsHeap (fires w') w'.min_heap.heap w'.min_heap.number_of_timers_being_managed
  pub beside : IsBeside w w'
  pub semaphore : w'.semaphore ≡ w.semaphore

-- The method is called on a Timer object `t`, with no other call in progress.
pub record CanRun (w : World) (this : ℕ) (t : Timer) : Type 0 where
  pub unlocked : 0 < w.semaphore
  pub object : w.timers this ≡ some t

-- While the method runs, the semaphore is one lower.
abbrev pub locked : World → World
locked w = record w { semaphore = w.semaphore - 1 }

post-IsScheduled :
    {w0 w : World} {this : ℕ} {t : Timer}
    → 0 < w0.semaphore
    → IsScheduled (locked w0) this t w
    → Returns (λ (_, w'). IsScheduled w0 this t w') (post w)
unfolding post
post-IsScheduled unlocked v = returns (record {
  timer = v.timer;
  others = v.others;
  heap = v.heap;
  ordered = v.ordered;
  beside = v.beside;
  semaphore = omega (arith, v.semaphore);
})

-- The last steps of each of the methods.
module _ (w0 w : World) (this : ℕ) (t : Timer) (v : IsReady w0 this) (unlocked : 0 < w0.semaphore)
    (same_heap : w.min_heap ≡ w0.min_heap) (object : w.timers this ≡ some t)
    (others : (p : ℕ) → p ≢ this → w.timers p ≡ w0.timers p) (down : w.semaphore ≡ w0.semaphore - 1)
    (beside : IsBeside w0 w) where
  add_to_heap-IsScheduled :
      Returns
        (λ (_, w'). IsScheduled (locked w0) this t w')
        (on_heap (λ f s. add_to_heap f s this) w)
  add_to_heap-IsScheduled =
      Returns-map (on_heap-Grown (IsReady-others v w same_heap others (live_of w object)))
        λ (code, w') g. record {
          timer = ap (λ u. u.timers this) g.same ∙ object;
          others = λ p ne. ap (λ u. u.timers p) g.same ∙ others p ne;
          heap =
              subst (λ s. Added (fires w') s this (Result.ok, w'.min_heap)) same_heap
                (subst (λ c. Added (fires w') w.min_heap this (c, w'.min_heap)) g.heap.result
                  g.heap);
          ordered = λ absent in_order.
              let here =
                subst (λ f. IsHeap f w.min_heap.heap w.min_heap.number_of_timers_being_managed)
                  (sym (ap fires g.same))
                  (IsHeap-others w0 this absent w same_heap others in_order) in
              subst (IsHeap (fires w') w'.min_heap.heap) (sym g.heap.grown) (g.heap.ordered here);
          beside = subst (IsBeside w0) (sym g.same) beside;
          semaphore = ap (λ u. u.semaphore) g.same ∙ down;
        }

  pub add_and_post-IsScheduled :
      Returns
        (λ (_, w'). IsScheduled w0 this t w')
        ((on_heap (λ f s. add_to_heap f s this) >>= λ _. post) w)
  add_and_post-IsScheduled =
      Returns-bind add_to_heap-IsScheduled λ (code, w') p. post-IsScheduled unlocked p

module _ (w0 w : World) (this : ℕ) (t : Timer) (v : IsReady w0 this) (unlocked : 0 < w0.semaphore)
    (same_heap : w.min_heap ≡ w0.min_heap) (object : w.timers this ≡ some t)
    (others : (p : ℕ) → p ≢ this → w.timers p ≡ w0.timers p) (down : w.semaphore ≡ w0.semaphore - 1)
    (beside : IsBeside w0 w) where
  IsBeside-later : IsBeside (later w0) (later w)
  IsBeside-later =
      let (pool, callbacks, triggered, sent, clock, queues) = beside in
      (pool, callbacks, triggered, sent, ap (λ c k. c (suc k)) clock, queues)

  pub reschedule_and_post-IsScheduled :
      (timeout : ℕ)
      → Returns
          (λ (_, w').
            IsScheduled
              (later w0)
              this
              (record t { state = TimerState.active; when_to_fire = u64 (now w + timeout) })
              w')
          ((reschedule this timeout >> post) w)
  unfolding reschedule load store get_current_time_in_msec
      convert_timer_timeout_to_absolute_time_since_epoch
  reschedule_and_post-IsScheduled timeout =
      let t' = record t { state = TimerState.active; when_to_fire = u64 (now w + timeout) } in
      rw object (
        Returns-bind
          (Returns-bind
            (add_to_heap-IsScheduled (later w0) (with_timer (later w) this (some t')) this t'
              (IsReady-others v (later w0) refl (λ p ne. refl) v.object) unlocked same_heap
              (ground arith) (λ p ne. ground (arith, others p)) down (IsBeside-later))
            λ r p. returns p)
          λ r p. post-IsScheduled unlocked p)

module _ {w : World} {this : ℕ} {t : Timer} (can : CanRun w this t) (v : IsReady w this) where
  -- `changeFiringTime`, with the semaphore free and a heap of fewer than 1024 timers, returns: the
  -- timer is active, has the new timeout, is to fire that long from now, and has been added to the
  -- heap, which stays in order if it did not hold the timer; other timers and the semaphore are as
  -- before.
  pub change_firing_time-IsScheduled :
      (timeout : ℕ)
      → Returns
          (λ (_, w').
            IsScheduled
              (later w)
              this
              (record t {
                state = TimerState.active;
                timeout = timeout;
                when_to_fire = u64 (now w + timeout);
              })
              w')
          (change_firing_time this timeout w)
  unfolding change_firing_time wait load store
  change_firing_time-IsScheduled timeout =
      let free : (w.semaphore == 0) ≡ false = ground (arith, can.unlocked) in
      rw (free, can.object)
        (reschedule_and_post-IsScheduled w
          (with_timer (record w { semaphore = w.semaphore - 1 }) this
            (some (record t { timeout = timeout })))
          this (record t { timeout = timeout }) v can.unlocked refl (ground arith)
          (λ p ne. ground arith) refl (refl, refl, refl, refl, refl, refl) timeout)

  inactive : (s : TimerState) → s ≢ TimerState.active → is_active s ≡ false
  unfolding is_active
  inactive TimerState.idle h = refl
  inactive TimerState.done h = refl
  inactive TimerState.active h = absurd (h refl)

  -- `restart` of a timer that is not active, with or without a callback, with the semaphore free
  -- and a heap of fewer than 1024 timers, returns: the timer has been added to the heap, which
  -- stays in order if it did not hold the timer, is active and is to fire one timeout from now; a
  -- timer that was in the heap is in it once more.
  pub restart-IsScheduled :
      t.state ≢ TimerState.active
      → Returns
          (λ (_, w').
            IsScheduled
              (later w)
              this
              (record t { state = TimerState.active; when_to_fire = u64 (now w + t.timeout) })
              w')
          (restart this w)
  unfolding restart wait load
  restart-IsScheduled stopped =
      let free : (w.semaphore == 0) ≡ false = ground (arith, can.unlocked) in
      let idle : is_active t.state ≡ false = inactive t.state stopped in
      rw (free, can.object, idle)
        (reschedule_and_post-IsScheduled w (locked w) this t v can.unlocked refl can.object
          (λ p ne. refl) refl (refl, refl, refl, refl, refl, refl) t.timeout)

  -- The timer `t` as `schedule` leaves it.
  abbrev pub set_up : (p_cb : ℕ) (type : TimerType) (how_many first timeout moment : ℕ) → Timer
  set_up p_cb type how_many first timeout moment = record t {
    p_cb = if t.p_cb == null then p_cb else t.p_cb;
    state = TimerState.active;
    type = type;
    how_many_times_to_fire = how_many;
    first = first;
    when_to_fire = moment;
    timeout = timeout;
    number_of_times_fired = 0;
  }

  schedule-IsScheduled :
      (p_cb first timeout : ℕ) (type : TimerType) (how_many : ℕ)
      → Returns
          (λ (_, w').
            IsScheduled
              (later w)
              this
              (set_up p_cb type how_many first timeout (u64 (now w + first)))
              w')
          (schedule this p_cb first false timeout false type how_many false w)
  unfolding schedule schedule_plain wait load store get_current_time_in_msec
      convert_timer_timeout_to_absolute_time_since_epoch
  schedule-IsScheduled p_cb first timeout type how_many =
      let free : (w.semaphore == 0) ≡ false = ground (arith, can.unlocked) in
      let same : (this == this) ≡ true = ground arith in
      rw (free, can.object, ◌>>◌, ◌>>=◌, load, same, ◌>>=◌, load, same)
        (add_and_post-IsScheduled (later w) _ this _
          (IsReady-others v (later w) refl (λ p ne. refl) v.object) can.unlocked refl (ground arith)
          (λ p ne. ground arith) refl (refl, refl, refl, refl, refl, refl))

  -- `scheduleOneShotAtTimeout`, with the semaphore free and a heap of fewer than 1024 timers, returns
  -- with the semaphore as before, and the timer is active, is to fire that long from now, and has been
  -- added to the heap, which stays in order if it did not hold the timer.
  pub schedule_one_shot_at_timeout-IsScheduled :
      (p_cb dummy timeout : ℕ)
      → Returns
          (λ (_, w').
            IsScheduled
              (later w)
              this
              (set_up p_cb TimerType.one_shot 0 timeout dummy (u64 (now w + timeout)))
              w')
          (schedule_one_shot_at_timeout this p_cb dummy timeout w)
  unfolding schedule_one_shot_at_timeout
  schedule_one_shot_at_timeout-IsScheduled p_cb dummy timeout =
      schedule-IsScheduled p_cb timeout dummy TimerType.one_shot 0

  -- `schedulePeriodicAtTimeout`, with the semaphore free and a heap of fewer than 1024 timers,
  -- returns with the semaphore as before: the timer is active, is to fire that long from now, has
  -- been added to the heap, which stays in order if it did not hold the timer, keeps its timeout
  -- and how often it is to fire, and has fired 0 times.
  pub schedule_periodic_at_timeout-IsScheduled :
      (p_cb timeout how_many : ℕ)
      → Returns
          (λ (_, w').
            IsScheduled
              (later w)
              this
              (set_up p_cb TimerType.periodic how_many timeout timeout (u64 (now w + timeout)))
              w')
          (schedule_periodic_at_timeout this p_cb timeout how_many w)
  unfolding schedule_periodic_at_timeout
  schedule_periodic_at_timeout-IsScheduled p_cb timeout how_many =
      schedule-IsScheduled p_cb timeout timeout TimerType.periodic how_many

  -- `scheduleOneShotAtAbsoluteTime`, with the semaphore free and a heap of fewer than 1024 timers,
  -- returns and adds the timer to the heap, but it is to fire at what its member `first` held before,
  -- whatever time was asked for.
  pub schedule_one_shot_at_absolute_time-first :
      (p_cb dummy absolute_time : ℕ)
      → Returns
          (λ (_, w').
            IsScheduled w this (set_up p_cb TimerType.one_shot 0 t.first dummy t.first) w')
          (schedule_one_shot_at_absolute_time this p_cb dummy absolute_time w)
  unfolding schedule_one_shot_at_absolute_time schedule schedule_plain wait load store
  schedule_one_shot_at_absolute_time-first p_cb dummy absolute_time =
      let free : (w.semaphore == 0) ≡ false = ground (arith, can.unlocked) in
      let same : (this == this) ≡ true = ground arith in
      rw (free, can.object, ◌>>◌, ◌>>=◌, load, same, ◌>>=◌, load, same)
        (add_and_post-IsScheduled w _ this _ v can.unlocked refl (ground arith)
          (λ p ne. ground arith) refl (refl, refl, refl, refl, refl, refl))
