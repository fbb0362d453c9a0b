-- ===== src/TimerTask/Dangling.antt =====
-- platform/Timer.cpp and TimerTask.cpp together: a round after the deletion of the timer that
-- stands in the last place of the heap.
use timer_and_callback.Base.{
  ℕ, ◌+◌, ◌-◌, ◌≤◌, ◌<◌, ◌≡◌, ◌≢◌, refl, ap, ◌∙◌, Returns, returns, none, some, true, false, ◌==◌,
  leb, ok, fault, arith,
}
use timer_and_callback.Types.{Result, u32, max_number_of_timers}
use timer_and_callback.MinHeap.{remove_from_heap}
use timer_and_callback.MinHeap.Order.{AllLive}
use timer_and_callback.MinHeap.Search.{remove_from_heap-last}
use timer_and_callback.MinHeap.Stale.{remove_root-fault}
use timer_and_callback.World.{
  TimerState, Timer, World, ◌>>=◌, load, store, with_timer, fires, on_heap,
  get_current_time_in_msec,
}
use timer_and_callback.Timer.{delete_timer, get_index}
use timer_and_callback.Timer.Times.{now, later}
use timer_and_callback.Timer.Ready.{when_of}
use timer_and_callback.Timer.Schedule.{CanRun}
use timer_and_callback.Timer.Delete.{IsManaged, after, delete_timer-after}
use timer_and_callback.TimerTask.{fire, top_timer, act, look_at_top, round}

-- The heap holds four timers or more, all Timer objects; only the last entry holds `this`, and the
-- timer at the top, `first`, is active and due.
pub record IsLast (w : World) (this : ℕ) (first : Timer) : Type 0 where
  pub many : 3 < w.min_heap.number_of_timers_being_managed
  pub fits : w.min_heap.number_of_timers_being_managed ≤ max_number_of_timers
  pub live : AllLive (fires w) w.min_heap.heap w.min_heap.number_of_timers_being_managed
  pub last : w.min_heap.heap (w.min_heap.number_of_timers_being_managed - 1) ≡ this
  pub only : (i : ℕ) → i + 1 < w.min_heap.number_of_timers_being_managed → w.min_heap.heap i ≢ this
  pub first_object : w.timers (w.min_heap.heap 0) ≡ some first
  pub first_active : first.state ≡ TimerState.active
  pub first_due : first.when_to_fire ≤ now w

-- The firing of the top, where the last pointer leads to no timer.
module _ (w : World) (first : Timer) (some_left : 1 < w.min_heap.number_of_timers_being_managed)
    (fits : w.min_heap.number_of_timers_being_managed ≤ max_number_of_timers)
    (object : w.timers (w.min_heap.heap 0) ≡ some first)
    (gone : w.timers (w.min_heap.heap (w.min_heap.number_of_timers_being_managed - 1)) ≡ none) where
  abbrev counted : World
  counted =
      with_timer w (w.min_heap.heap 0)
        (some (record first { number_of_times_fired = u32 (first.number_of_times_fired + 1) }))

  still_gone :
      counted.timers (w.min_heap.heap (w.min_heap.number_of_timers_being_managed - 1)) ≡ none
  still_gone = ground (arith, object, gone)

  removal-fault : on_heap (λ f s. remove_from_heap f s (w.min_heap.heap 0)) counted ≡ fault
  unfolding on_heap
  removal-fault =
      rw (remove_root-fault (fires counted) w.min_heap (omega arith) fits (ap when_of still_gone))
        refl

  fire-fault : fire (w.min_heap.heap 0) w ≡ fault
  unfolding fire load store get_index
  fire-fault = rw (◌>>=◌, get_index, load, object, removal-fault) refl

module _ (w : World) (first : Timer) (some_left : 1 < w.min_heap.number_of_timers_being_managed)
    (fits : w.min_heap.number_of_timers_being_managed ≤ max_number_of_timers)
    (object : w.timers (w.min_heap.heap 0) ≡ some first)
    (gone : w.timers (w.min_heap.heap (w.min_heap.number_of_timers_being_managed - 1)) ≡ none) where
  due_round-fault : first.state ≡ TimerState.active → first.when_to_fire ≤ now w → round w ≡ fault
  unfolding round look_at_top top_timer load get_current_time_in_msec act
  due_round-fault active due =
      let more : (w.min_heap.number_of_timers_being_managed == 0) ≡ false =
        ground (arith, some_left) in
      let past : leb first.when_to_fire (now w) ≡ true = ground (arith, due) in
      rw (more, ◌>>=◌, load, object, past, active)
        (fire-fault (later w) first some_left fits object gone)

module _ {w : World} {this : ℕ} {t first : Timer} (can : CanRun w this t) (managed : IsManaged w t)
    (v : IsLast w this first) where
  abbrev left : World
  left = after can managed w.min_heap

  first_kept : left.timers (w.min_heap.heap 0) ≡ some first
  first_kept =
      let other = v.only 0 (omega (arith, v.many)) in
      let old : left.timers (w.min_heap.heap 0) ≡ w.timers (w.min_heap.heap 0) = ground arith in
      old ∙ v.first_object

  last_gone : left.timers (w.min_heap.heap (w.min_heap.number_of_timers_being_managed - 1)) ≡ none
  last_gone = rw v.last (ground arith)

  delete_timer-kept : delete_timer this w ≡ ok (tt, left)
  delete_timer-kept =
      delete_timer-after can managed Result.error w.min_heap
        (remove_from_heap-last (fires w) w.min_heap this v.fits v.live v.many v.only)

  -- `delete` of a timer that has been scheduled and is not done, and that only the last entry of a
  -- heap of four timers or more holds, with the semaphore free, returns and leaves the heap as it
  -- is; if the timer at the top is active and due, the next round of TimerTask then reads the
  -- firing time of the deleted timer.
  pub round-delete_timer :
      Returns
        (λ (_, w'). (w'.min_heap ≡ w.min_heap) × (w'.timers this ≡ none) × (round w' ≡ fault))
        (delete_timer this w)
  round-delete_timer = rw delete_timer-kept (
      returns (
        refl,
        ground arith,
        due_round-fault left first (omega (arith, v.many)) v.fits first_kept last_gone
            v.first_active v.first_due,
      ))
