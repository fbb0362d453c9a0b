-- ===== src/TimerTask/Postpone.antt =====
-- platform/TimerTask.cpp: a round in which the timer at the top of the heap is due and idle, as
-- `cancel` leaves it.
use mathlib.Core.Path.{subst}
use timer_and_callback.Base.{
  ℕ, ◌+◌, ◌%◌, ◌≤◌, ◌<◌, ◌≡◌, ◌≢◌, refl, ap, sym, ◌∙◌, inl, some, true, false, ◌==◌, leb, Returns,
  returns, Returns-bind, Returns-map, count, arith,
}
use timer_and_callback.Types.{Result, u64, max_number_of_timers}
use timer_and_callback.MinHeap.Order.{AllLive, IsHeap}
use timer_and_callback.MinHeap.Remove.{Filled, Filled-IsHeap}
use timer_and_callback.MinHeap.Removal.{remove_root-Done}
use timer_and_callback.World.{
  TimerState, Timer, World, ◌>>=◌, load, fires, on_heap, get_current_time_in_msec,
}
use timer_and_callback.Timer.Times.{now, later}
use timer_and_callback.Timer.Ready.{IsReady, live_of}
use timer_and_callback.Timer.Schedule.{IsScheduled, CanRun, change_firing_time-IsScheduled}
use timer_and_callback.TimerTask.{postpone, top_timer, act, look_at_top, round}

-- The timer `t` at the top of the heap is idle and due, and stands there once; the semaphore is free.
pub record IsIdleTop (w : World) (t : Timer) : Type 0 where
  pub unlocked : 0 < w.semaphore
  pub some_left : 0 < w.min_heap.number_of_timers_being_managed
  pub fits : w.min_heap.number_of_timers_being_managed ≤ max_number_of_timers
  pub live : AllLive (fires w) w.min_heap.heap w.min_heap.number_of_timers_being_managed
  pub once : count (w.min_heap.heap 0) w.min_heap.heap w.min_heap.number_of_timers_being_managed ≡ 1
  pub object : w.timers (w.min_heap.heap 0) ≡ some t
  pub idle : t.state ≡ TimerState.idle
  pub due : t.when_to_fire ≤ now w

-- The timer is active and is to fire one timeout later; the heap holds the same timers, in order if
-- an even number of them was.
pub record IsPostponed (w : World) (t : Timer) (w' : World) : Type 0 where
  pub timer :
      w'.timers (w.min_heap.heap 0)
      ≡ some
          (record t { state = TimerState.active; when_to_fire = u64 (now (later w) + t.timeout) })
  pub others : (p : ℕ) → p ≢ w.min_heap.heap 0 → w'.timers p ≡ w.timers p
  pub number :
      w'.min_heap.number_of_timers_being_managed ≡ w.min_heap.number_of_timers_being_managed
  pub same_timers :
      (p : ℕ)
      → count p w'.min_heap.heap w'.min_heap.number_of_timers_being_managed
        ≡ count p w.min_heap.heap w.min_heap.number_of_timers_being_managed
  pub live : AllLive (fires w') w'.min_heap.heap w'.min_heap.number_of_timers_being_managed
  pub ordered :
      w.min_heap.number_of_timers_being_managed % 2 ≡ 0
      → IsHeap (fires w) w.min_heap.heap w.min_heap.number_of_timers_being_managed
      → IsHeap (fires w') w'.min_heap.heap w'.min_heap.number_of_timers_being_managed
  pub pool : w'.pool ≡ w.pool
  pub semaphore : w'.semaphore ≡ w.semaphore
  pub sent : w'.sent ≡ w.sent

module _ {w : World} {t : Timer} (v : IsIdleTop w t) where
  abbrev top : ℕ
  top = w.min_heap.heap 0

  absent :
      (w' : World)
      → Filled (fires w) w.min_heap 0 w'.min_heap
      → count top w'.min_heap.heap w'.min_heap.number_of_timers_being_managed ≡ 0
  absent w' f = ground (arith, f.items top, v.once)

  -- The world between the removal and the firing time.
  module _ (w' : World) (f : Filled (fires w) w.min_heap 0 w'.min_heap)
      (rest : w' ≡ record (later w) { min_heap = w'.min_heap }) where
    same_fires : fires w' ≡ fires w
    same_fires = ap fires rest

    removed-CanRun : CanRun w' top t
    removed-CanRun = record {
      unlocked = subst (λ u. 0 < u.semaphore) (sym rest) v.unlocked;
      object = ap (λ u. u.timers top) rest ∙ v.object;
    }

    removed-IsReady : IsReady w' top
    removed-IsReady = record {
      room = omega (arith, f.shrunk, v.fits);
      live =
          subst (λ g. AllLive g w'.min_heap.heap w'.min_heap.number_of_timers_being_managed)
            (sym same_fires) (λ i p. f.live i (omega (arith, f.shrunk)));
      object = live_of w' (removed-CanRun.object);
    }

    postponed :
        {w'' : World}
        → IsScheduled
            (later w')
            top
            (record t { state = TimerState.active; when_to_fire = u64 (now w' + t.timeout) })
            w''
        → IsPostponed w t w''
    postponed {w''} s =
        let grown : w''.min_heap.number_of_timers_being_managed
            ≡ w.min_heap.number_of_timers_being_managed =
          omega (arith, s.heap.grown, f.shrunk) in
        record {
          timer =
              s.timer
              ∙ ap
                  (λ u. some (record t {
                    state = TimerState.active;
                    when_to_fire = u64 (now u + t.timeout);
                  }))
                  rest;
          others = λ p ne. s.others p ne ∙ ap (λ u. u.timers p) rest;
          number = grown;
          same_timers =
              λ p. ap (count p w''.min_heap.heap) s.heap.grown ∙ s.heap.items p ∙ f.items p;
          live = λ i h. s.heap.live i (omega (arith, s.heap.grown));
          ordered = λ even in_order. s.ordered (absent w' f) (
              subst (λ g. IsHeap g w'.min_heap.heap w'.min_heap.number_of_timers_being_managed)
                (sym same_fires)
                (Filled-IsHeap (fires w) w.min_heap 0 v.some_left v.fits v.live f in_order
                  (inl refl) even));
          pool = s.beside.0 ∙ ap (λ u. u.pool) rest;
          semaphore = s.semaphore ∙ ap (λ u. u.semaphore) rest;
          sent = s.beside.3 ∙ ap (λ u. u.sent) rest;
        }

  abbrev IsRemoved : Result × World → Type 0
  IsRemoved (_, w') =
      Filled (fires w) w.min_heap 0 w'.min_heap × (w' ≡ record (later w) { min_heap = w'.min_heap })

  postpone-IsPostponed : Returns (λ (_, w'). IsPostponed w t w') (postpone top t (later w))
  unfolding postpone on_heap
  postpone-IsPostponed =
      Returns-bind {P = IsRemoved}
        (Returns-bind (remove_root-Done (fires w) w.min_heap v.fits v.live v.some_left)
          λ (code, s') (done, f). returns (f, refl))
        λ (_, w') (f, rest).
          Returns-map
            (change_firing_time-IsScheduled (removed-CanRun w' f rest) (removed-IsReady w' f rest)
              t.timeout)
            λ r s. postponed w' f rest s

  act_idle : (s : TimerState) → s ≡ TimerState.idle → act s top t ≡ postpone top t
  unfolding act
  act_idle s e = rw e refl

  -- A round in which the timer at the top of the heap is due but idle, as after `cancel`, and stands
  -- there once, with the semaphore free, returns, sends no message, and makes the timer active: it is
  -- to fire one timeout after the next reading of the clock, and the heap holds the same timers, in
  -- order if it was in order with an even number of them.
  pub round-IsPostponed : Returns (λ (_, w'). IsPostponed w t w') (round w)
  unfolding round look_at_top top_timer load get_current_time_in_msec
  round-IsPostponed =
      let more : (w.min_heap.number_of_timers_being_managed == 0) ≡ false =
        ground (arith, v.some_left) in
      let past : leb t.when_to_fire (now w) ≡ true = ground (arith, v.due) in
      rw (more, ◌>>=◌, load, v.object, past, act_idle t.state v.idle) postpone-IsPostponed
