-- ===== src/TimerTask/Race.antt =====
-- platform/TimerTask.cpp, `run`, which takes no semaphore: a call of another task that falls into a
-- round.
use timer_and_callback.Base.{
  ℕ, ◌+◌, ◌-◌, ◌%◌, ◌^◌, ◌<◌, ◌≤◌, ◌≡◌, refl, ap, ◌∙◌, inr, some, Bool, true, false, ◌==◌, leb,
  if◌then◌else◌, fault, arith,
}
use timer_and_callback.Types.{Result, uint64_leq}
use timer_and_callback.MinHeap.{TimerTaskShared, remove_from_heap}
use timer_and_callback.MinHeap.Order.{AllLive}
use timer_and_callback.MinHeap.Search.{TakenOut}
use timer_and_callback.MinHeap.Stale.{remove_from_heap-fault}
use timer_and_callback.World.{
  TimerState, Timer, World, M, pure, ◌>>=◌, ◌>>◌, load, store, with_timer, fires, on_heap,
  get_current_time_in_msec,
}
use timer_and_callback.Timer.{stop, get_index}
use timer_and_callback.Timer.Times.{now, later}
use timer_and_callback.Timer.Stop.{stop-IsStopped}
use timer_and_callback.TimerTask.{fire, top_timer, act, look_at_top}

-- The part of a round that looks at the top of the heap, with a call of another task between the
-- `switch` on the state of the timer and its cases.
pub interrupted_look : M (Unit {0}) → M (Unit {0})
interrupted_look other = do
  top ← top_timer
  t ← load top
  current ← get_current_time_in_msec
  if uint64_leq t.when_to_fire current then (do other; act t.state top t) else pure tt

-- With no call in between this is the code of `round`.
interrupted_look-none : (w : World) → interrupted_look (pure tt) w ≡ look_at_top w
unfolding interrupted_look look_at_top
interrupted_look-none w = refl

-- The only timer in the heap is `t`, active and due, and the semaphore is free.
pub record IsOnlyDue (w : World) (t : Timer) : Type 0 where
  pub unlocked : 0 < w.semaphore
  pub one : w.min_heap.number_of_timers_being_managed ≡ 1
  pub live : AllLive (fires w) w.min_heap.heap w.min_heap.number_of_timers_being_managed
  pub object : w.timers (w.min_heap.heap 0) ≡ some t
  pub active : t.state ≡ TimerState.active
  pub due : t.when_to_fire ≤ now w

-- The timer that left the heap last is fired.
module _ (w : World) (top : ℕ) (t : Timer) (object : w.timers top ≡ some t)
    (none_left : w.min_heap.number_of_timers_being_managed ≡ 0)
    (left_behind : w.min_heap.heap 0 ≡ top) where
  abbrev counted : World
  counted =
      with_timer w top
        (some (record t { number_of_times_fired = (t.number_of_times_fired + 1) % 2 ^ 32 }))

  removal-fault : on_heap (λ f s. remove_from_heap f s top) counted ≡ fault
  unfolding on_heap
  removal-fault =
      rw (remove_from_heap-fault (fires counted) w.min_heap top none_left left_behind) refl

  fire-fault : fire top w ≡ fault
  unfolding fire load store get_index
  fire-fault = rw (◌>>=◌, get_index, load, object, removal-fault) refl

either : (b : Bool) {x y : ℕ} → x ≡ y → (if b then x else y) ≡ y
either true e = e
either false e = refl

module _ {w : World} {t : Timer} (v : IsOnlyDue w t) where
  abbrev top : ℕ
  top = w.min_heap.heap 0

  left_behind :
      (s : TimerTaskShared) (code : Result)
      → TakenOut (fires w) w.min_heap top (code, s)
      → s.heap 0 ≡ top
  left_behind s code out =
      let last : w.min_heap.number_of_timers_being_managed - 1 ≡ 0 = omega (arith, v.one) in
      out.filled.stays (omega (arith, v.one)) 0 ∙ either (out.index == 0) (ap w.min_heap.heap last)

  -- The only timer in the heap is active and due, and TimerTask is about to fire it when its task
  -- calls `stop`, with the semaphore free: then TimerTask reads outside of the array of the heap.
  pub interrupted_look-fault : interrupted_look (stop top) w ≡ fault
  unfolding interrupted_look top_timer load get_current_time_in_msec act
  interrupted_look-fault =
      let past : leb t.when_to_fire (now w) ≡ true = ground (arith, v.due) in
      let stopped =
        stop-IsStopped {w = later w} {this = top}
          (record { unlocked = v.unlocked; object = v.object })
          (record {
            fits = omega (arith, v.one);
            live = v.live;
            index = 0;
            held = refl;
            place = inr (omega (arith, v.one), omega (arith, v.one));
          }) in
      let (_, w') = stopped.value in
      rw (◌>>=◌, load, v.object, past, v.active, stopped.ended)
        (fire-fault w' top _ stopped.holds.timer
          (omega (arith, stopped.holds.heap.filled.shrunk, v.one))
          (left_behind w'.min_heap Result.ok stopped.holds.heap))
