-- ===== src/Timer/Restart.antt =====
-- platform/Timer.cpp, `restart` of a timer that is active: it leaves the heap and comes back.
use mathlib.Core.Path.{subst}
use timer_and_callback.Base.{
  ℕ, ◌+◌, ◌≡◌, ◌≢◌, refl, ap, ◌∙◌, some, true, false, ◌==◌, Returns, Returns-bind, Returns-map,
  returns, count, one_if_eq, arith,
}
use timer_and_callback.Types.{Result, u64}
use timer_and_callback.MinHeap.Order.{AllLive}
use timer_and_callback.World.{TimerState, Timer, World, ◌>>=◌, ◌>>◌, wait, load, store, fires}
use timer_and_callback.Timer.{is_active, restart}
use timer_and_callback.Timer.Times.{now, later}
use timer_and_callback.Timer.Ready.{IsReady, live_of, still-IsLive}
use timer_and_callback.Timer.Schedule.{IsScheduled, CanRun, reschedule_and_post-IsScheduled}
use timer_and_callback.Timer.Stop.{IsInHeap, IsTaken, idle_timer, object, kept, on_heap-IsTaken}

-- The timer is active and is to fire one timeout from now; the heap holds the same timers as before,
-- and other timers, the pool and the semaphore are as before.
pub record IsRestarted (w : World) (this : ℕ) (t : Timer) (w' : World) : Type 0 where
  pub timer :
      w'.timers this
      ≡ some (record t { state = TimerState.active; when_to_fire = u64 (now w + t.timeout) })
  pub others : (p : ℕ) → p ≢ this → w'.timers p ≡ w.timers p
  pub number :
      w'.min_heap.number_of_timers_being_managed ≡ w.min_heap.number_of_timers_being_managed
  pub same_timers :
      (p : ℕ)
      → count p w'.min_heap.heap w'.min_heap.number_of_timers_being_managed
        ≡ count p w.min_heap.heap w.min_heap.number_of_timers_being_managed
  pub live : AllLive (fires w') w'.min_heap.heap w'.min_heap.number_of_timers_being_managed
  pub semaphore : w'.semaphore ≡ w.semaphore
  pub pool : w'.pool ≡ w.pool

module _ {w : World} {this : ℕ} {t : Timer} (can : CanRun w this t) (v : IsInHeap w this)
    (once : count this w.min_heap.heap w.min_heap.number_of_timers_being_managed ≡ 1) where
  -- The world between the removal and the return to the heap.
  module _ (r : Result) (w' : World) (taken : IsTaken can v (r, w')) where
    abbrev unlocked_again : World
    unlocked_again = record w' { semaphore = w.semaphore }

    removed-object : w'.timers this ≡ some (idle_timer can v)
    removed-object = ap (λ f. f this) taken.1 ∙ object can v

    removed-others : (p : ℕ) → p ≢ this → w'.timers p ≡ w.timers p
    removed-others p ne = ap (λ f. f p) taken.1 ∙ kept can v p ne

    items :
        (p : ℕ)
        → count p w'.min_heap.heap w'.min_heap.number_of_timers_being_managed + one_if_eq this p
          ≡ count p w.min_heap.heap w.min_heap.number_of_timers_being_managed
    items p =
        subst
          (λ h.
            count p w'.min_heap.heap w'.min_heap.number_of_timers_being_managed + one_if_eq h p
            ≡ count p w.min_heap.heap w.min_heap.number_of_timers_being_managed)
          taken.0.held (taken.0.filled.items p)

    removed-IsReady : IsReady unlocked_again this
    removed-IsReady = record {
      room = omega (arith, taken.0.filled.shrunk, v.fits);
      live = λ i h.
          still-IsLive w w' this (live_of w' removed-object) removed-others (w'.min_heap.heap i)
            (taken.0.filled.live i (omega (arith, taken.0.filled.shrunk)));
      object = live_of unlocked_again removed-object;
    }

    back-IsRestarted :
        {w'' : World}
        → IsScheduled
            (later unlocked_again)
            this
            (record t { state = TimerState.active; when_to_fire = u64 (now w' + t.timeout) })
            w''
        → IsRestarted w this t w''
    back-IsRestarted {w''} s = record {
      timer =
          s.timer
          ∙ ap
              (λ c. some (record t {
                state = TimerState.active;
                when_to_fire = u64 (now (record w { clock = c }) + t.timeout);
              }))
              taken.4;
      others = λ p ne. s.others p ne ∙ removed-others p ne;
      number = omega (arith, s.heap.grown, taken.0.filled.shrunk);
      same_timers = λ p. ap (count p w''.min_heap.heap) s.heap.grown ∙ s.heap.items p ∙ items p;
      live = λ i h. s.heap.live i (omega (arith, s.heap.grown));
      semaphore = s.semaphore;
      pool = s.beside.0 ∙ taken.3;
    }

  active-is_active : t.state ≡ TimerState.active → is_active t.state ≡ true
  unfolding is_active
  active-is_active e = rw e refl

  -- `restart` of an active timer that stands once in the heap, before the last place or among at most
  -- three, with the semaphore free, returns: the timer is active and is to fire one timeout from now,
  -- and the heap holds the same timers as before; other timers, the pool and the semaphore are as
  -- before.
  pub restart-IsRestarted :
      t.state ≡ TimerState.active → Returns (λ (_, w'). IsRestarted w this t w') (restart this w)
  unfolding restart wait load store
  restart-IsRestarted active =
      let free : (w.semaphore == 0) ≡ false = ground (arith, can.unlocked) in
      rw (free, can.object, active-is_active active, ◌>>◌, ◌>>=◌, load, can.object)
        (Returns-bind {P = λ (_, w'). (r : Result) × IsTaken can v (r, w')}
          (Returns-bind (on_heap-IsTaken can v) λ (r, w') taken. returns (r, taken))
          λ (_, w') (r, taken).
            Returns-map
              (reschedule_and_post-IsScheduled (unlocked_again r w' taken) w' this
                (idle_timer can v) (removed-IsReady r w' taken) can.unlocked refl
                (removed-object r w' taken) (λ p ne. refl) taken.2
                (refl, refl, refl, refl, refl, refl) t.timeout)
              λ q s. back-IsRestarted r w' taken s)
