-- ===== src/Timer/Stopped.antt =====
-- platform/Timer.cpp, `stop` and `~Timer`: a timer that has been stopped is deleted.
use timer_and_callback.Base.{
  ℕ, ◌-◌, ◌≡◌, ◌≢◌, refl, ap, ◌∙◌, inr, true, ◌==◌, if◌then◌else◌, Bool, false, fault, Returns-map,
  Returns, arith,
}
use timer_and_callback.Types.{Result}
use timer_and_callback.MinHeap.{TimerTaskShared}
use timer_and_callback.MinHeap.Order.{AllLive}
use timer_and_callback.MinHeap.Search.{TakenOut}
use timer_and_callback.MinHeap.Stale.{remove_from_heap-fault}
use timer_and_callback.World.{TimerType, Timer, World, fires}
use timer_and_callback.Timer.{stop, delete_timer}
use timer_and_callback.Timer.Schedule.{CanRun}
use timer_and_callback.Timer.Stop.{IsStopped, stop-IsStopped}
use timer_and_callback.Timer.Delete.{delete_timer-fault}

-- The timer `t`, which has been scheduled, is the only one in the heap.
pub record IsOnly (w : World) (this : ℕ) (t : Timer) : Type 0 where
  pub can : CanRun w this t
  pub one : w.min_heap.number_of_timers_being_managed ≡ 1
  pub live : AllLive (fires w) w.min_heap.heap w.min_heap.number_of_timers_being_managed
  pub held : w.min_heap.heap 0 ≡ this
  pub scheduled : t.type ≢ TimerType.invalid

either : (b : Bool) {x y : ℕ} → x ≡ y → (if b then x else y) ≡ y
either true e = e
either false e = refl

module _ {w : World} {this : ℕ} {t : Timer} (v : IsOnly w this t) where
  left_behind :
      (r : Result × TimerTaskShared) → TakenOut (fires w) w.min_heap this r → r.1.heap 0 ≡ this
  left_behind r out =
      let last : w.min_heap.number_of_timers_being_managed - 1 ≡ 0 = omega (arith, v.one) in
      out.filled.stays (omega (arith, v.one)) 0
      ∙ either (out.index == 0) (ap w.min_heap.heap last)
      ∙ v.held

  -- `stop` of a timer that is alone in the heap, with the semaphore free, returns and makes it
  -- idle; `delete` of it then takes it to be in the heap, and reads outside of the array.
  pub delete_timer-stop :
      Returns (λ (_, w'). IsStopped w this t w' × (delete_timer this w' ≡ fault)) (stop this w)
  delete_timer-stop =
      Returns-map
        (stop-IsStopped v.can (record {
          fits = omega (arith, v.one);
          live = v.live;
          index = 0;
          held = v.held;
          place = inr (omega (arith, v.one), omega (arith, v.one));
        }))
        λ (_, w') s. (
          s,
          delete_timer-fault
              (record { unlocked = omega (arith, s.semaphore, v.can.unlocked); object = s.timer })
              v.scheduled (λ e. cc)
              (remove_from_heap-fault (fires w') w'.min_heap this
                (omega (arith, s.heap.filled.shrunk, v.one)) (left_behind _ s.heap)),
        )
