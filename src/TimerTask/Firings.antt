-- ===== src/TimerTask/Firings.antt =====
-- platform/TimerTask.cpp and the receiver: how often a periodic timer fires before it is deleted.
use mathlib.Core.Path.{subst}
use timer_and_callback.Base.{
  ℕ, zero, suc, ◌+◌, ◌*◌, ◌≤◌, ◌<◌, ◌≡◌, inl, refl, ap, sym, ◌∙◌, none, true, false, List, ◌∷◌,
  Returns, returns, Returns-bind, Returns-map, arith,
}
use timer_and_callback.Types.{u32, u32_mod}
use timer_and_callback.Message.{PosixMessageQueueObject}
use timer_and_callback.World.{Timer, World}
use timer_and_callback.Timer.Callback.{process_a_callback-again, process_a_callback-last}
use timer_and_callback.TimerTask.{deliver, cycles}
use timer_and_callback.TimerTask.Fire.{IsFired, round-IsFired}
use timer_and_callback.TimerTask.Cycle.{
  IsTimely, IsSolo, solo-IsDue, none_left, fired-CanRun, fired-IsReady, deliver_lem, next_timer,
  IsNext, cycle-IsNext,
}

-- The callback `p`, triggered `n` times more.
abbrev pub times_more : ℕ → ℕ → List ℕ → List ℕ
times_more zero p triggered = triggered
times_more (suc n) p triggered = times_more n p (p ∷ triggered)

-- The timer at `timer` is gone with its callback object, which has been triggered `n` times more, and
-- no timer is left in the heap.
pub record IsFinished (w : World) (timer p_cb n : ℕ) (w' : World) : Type 0 where
  pub deleted_timer : w'.timers timer ≡ none
  pub deleted_callback : w'.callbacks p_cb ≡ false
  pub triggered : w'.triggered ≡ times_more n p_cb w.triggered
  pub none_managed : w'.min_heap.number_of_timers_being_managed ≡ 0

module _ {w : World} {index : ℕ} {t : Timer} (fresh : PosixMessageQueueObject)
    (v : IsSolo w index t) where
  there_still : {w' : World} (f : IsFired w index t w') → w'.callbacks t.p_cb ≡ true
  there_still f = ap (λ c. c t.p_cb) f.callbacks ∙ v.there

  -- The receiver's turn after a firing that is not the last one.
  deliver-IsNext :
      {w' : World}
      → IsTimely t.timeout w.clock 2
      → u32 (t.number_of_times_fired + 1) ≤ t.how_many_times_to_fire
      → IsFired w index t w'
      → Returns (λ (_, w''). IsNext w index t w'') (deliver t.cb_contex_t_id fresh w')
  deliver-IsNext {w'} timely more f = rw (deliver_lem v f fresh) (
      Returns-map
        (process_a_callback-again (fired-CanRun v f) v.some_cb (there_still f) v.periodic
          (fired-IsReady v f) (inl more))
        λ r p. cycle-IsNext v f p.1 timely)

  -- The receiver's turn after the last firing.
  deliver-IsFinished :
      {w' : World}
      → 0 < t.how_many_times_to_fire
      → t.how_many_times_to_fire < u32 (t.number_of_times_fired + 1)
      → IsFired w index t w'
      → Returns
          (λ (_, w''). IsFinished w (w.min_heap.heap 0) t.p_cb 1 w'')
          (deliver t.cb_contex_t_id fresh w')
  deliver-IsFinished {w'} some_times over f =
      rw
        (
          deliver_lem v f fresh,
          process_a_callback-last (fired-CanRun v f) v.some_cb (there_still f) v.periodic refl
              some_times over,
        )
        (returns (record {
          deleted_timer = ground arith;
          deleted_callback = ground arith;
          triggered = ap (λ l. t.p_cb ∷ l) f.triggered;
          none_managed = none_left v f;
        }))

-- The world after a cycle, seen from the world before it.
IsFinished-earlier :
    {w w' w'' : World} {p_cb n : ℕ} {timer : ℕ}
    → w'.triggered ≡ p_cb ∷ w.triggered
    → IsFinished w' timer p_cb n w''
    → IsFinished w timer p_cb (suc n) w''
IsFinished-earlier {p_cb} {n} e f = record {
  deleted_timer = f.deleted_timer;
  deleted_callback = f.deleted_callback;
  triggered = f.triggered ∙ ap (times_more n p_cb) e;
  none_managed = f.none_managed;
}

-- A periodic timer, alone in the heap, active and due, that has fired some times and is to fire
-- `left` more times, with a callback object, the semaphore free, no message on its way, room for
-- one message in the queue of its task, and a clock that its timeout goes by on between readings:
-- within `left + 1` cycles of TimerTask and the receiver of its task the callback is triggered
-- `left + 1` times, and then the timer and its callback are deleted.
pub cycles-IsFinished :
    (left : ℕ) (w : World) (index : ℕ) (t : Timer) (fresh : PosixMessageQueueObject)
    → IsSolo w index t
    → 0 < t.how_many_times_to_fire
    → t.how_many_times_to_fire + 1 < u32_mod
    → t.number_of_times_fired + left ≡ t.how_many_times_to_fire
    → IsTimely t.timeout w.clock (2 * left)
    → Returns
        (λ (_, w'). IsFinished w (w.min_heap.heap 0) t.p_cb (suc left) w')
        (cycles t.cb_contex_t_id (suc left) fresh w)
unfolding cycles
cycles-IsFinished zero w index t fresh v some_times fits all_fired timely =
    Returns-bind (round-IsFired (solo-IsDue v)) λ (_, w') f.
      Returns-bind (deliver-IsFinished fresh v some_times (omega arith) f) λ (_, w'') p. returns p
cycles-IsFinished (suc left) w index t fresh v some_times fits more_left timely =
    Returns-bind (round-IsFired (solo-IsDue v)) λ (_, w') f.
      Returns-bind (deliver-IsNext fresh v (λ k h. timely k (omega arith)) (omega arith) f)
        λ (_, w'') p.
          Returns-map
            (cycles-IsFinished left w'' index (next_timer w t) fresh p.solo some_times fits
              (omega arith)
              (subst (λ c. IsTimely t.timeout c (2 * left)) (sym p.clock)
                (λ k h. timely (suc (suc k)) (omega arith))))
            λ r q.
              IsFinished-earlier p.triggered
                (subst (λ timer. IsFinished w'' timer t.p_cb (suc left) (r.1)) p.same_top q)
