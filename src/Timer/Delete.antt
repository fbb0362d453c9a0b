-- ===== src/Timer/Delete.antt =====
-- platform/Timer.cpp, `~Timer` and `operator delete`: a timer that is in the heap is deleted.
use mathlib.Core.Path.{subst}
use timer_and_callback.Base.{
  ℕ, ◌+◌, ◌-◌, ◌≡◌, ◌≢◌, ◌⊎◌, inl, inr, refl, Bool, none, true, false, ◌==◌, if◌then◌else◌, update,
  ok, fault, Returns, returns, arith,
}
use timer_and_callback.Types.{Result}
use timer_and_callback.Pool.{null, remove_from_pool}
use timer_and_callback.MinHeap.{TimerTaskShared, remove_from_heap}
use timer_and_callback.MinHeap.Search.{TakenOut, remove_from_heap-TakenOut}
use timer_and_callback.World.{
  TimerType, TimerState, Timer, World, wait, post, load, fires, on_heap, delete_callback,
}
use timer_and_callback.Timer.{
  is_invalid, is_done, out_of_heap, destroy, operator_delete, delete_timer,
}
use timer_and_callback.Timer.Schedule.{CanRun}
use timer_and_callback.Timer.Stop.{IsInHeap}

-- The timer has been scheduled and is not done, and it has its callback object or none.
pub record IsManaged (w : World) (t : Timer) : Type 0 where
  pub scheduled : t.type ≢ TimerType.invalid
  pub unfinished : t.state ≢ TimerState.done
  pub callback : (t.p_cb ≡ null) ⊎ ((t.p_cb ≢ null) × (w.callbacks t.p_cb ≡ true))

-- The callback objects that are left.
abbrev pub callbacks_left : World → Timer → ℕ → Bool
callbacks_left w t = if t.p_cb == null then w.callbacks else update w.callbacks t.p_cb false

-- The timer, its callback and one entry of it in the heap are gone, its object is given back to
-- the pool, and the other timers and the semaphore are as before.
pub record IsDeleted (w : World) (this : ℕ) (t : Timer) (w' : World) : Type 0 where
  pub timer : w'.timers this ≡ none
  pub others : (p : ℕ) → p ≢ this → w'.timers p ≡ w.timers p
  pub heap : TakenOut (fires w) w.min_heap this (Result.ok, w'.min_heap)
  pub callbacks : w'.callbacks ≡ callbacks_left w t
  pub pool : w'.pool ≡ remove_from_pool w.pool this
  pub semaphore : w'.semaphore ≡ w.semaphore
  pub sent : w'.sent ≡ w.sent
  pub clock : w'.clock ≡ w.clock

module _ {w : World} {this : ℕ} {t : Timer} (can : CanRun w this t)
    (scheduled : t.type ≢ TimerType.invalid) (unfinished : t.state ≢ TimerState.done) where
  type_is : (type : TimerType) → type ≢ TimerType.invalid → is_invalid type ≡ false
  unfolding is_invalid
  type_is TimerType.one_shot h = refl
  type_is TimerType.periodic h = refl
  type_is TimerType.invalid h = absurd (h refl)

  state_is : (state : TimerState) → state ≢ TimerState.done → is_done state ≡ false
  unfolding is_done
  state_is TimerState.idle h = refl
  state_is TimerState.active h = refl
  state_is TimerState.done h = absurd (h refl)

  in_heap : out_of_heap t ≡ false
  unfolding out_of_heap
  in_heap = rw (type_is t.type scheduled, state_is t.state unfinished) refl

  -- The destructor reads where the search of the heap reads.
  pub delete_timer-fault :
      remove_from_heap (fires w) w.min_heap this ≡ fault → delete_timer this w ≡ fault
  unfolding delete_timer destroy wait load on_heap
  delete_timer-fault removal =
      let free : (w.semaphore == 0) ≡ false = ground (arith, can.unlocked) in
      rw (free, can.object, in_heap, removal) refl

module _ {w : World} {this : ℕ} {t : Timer} (can : CanRun w this t) (v : IsManaged w t) where
  not_out : out_of_heap t ≡ false
  not_out = in_heap can v.scheduled v.unfinished

  -- The world after a removal that has left the heap so.
  abbrev pub after : TimerTaskShared → World
  after heap = record w {
    timers = update w.timers this none;
    callbacks = callbacks_left w t;
    pool = remove_from_pool w.pool this;
    min_heap = heap;
  }

  pub delete_timer-after :
      (code : Result) (heap : TimerTaskShared)
      → remove_from_heap (fires w) w.min_heap this ≡ ok (code, heap)
      → delete_timer this w ≡ ok (tt, after heap)
  unfolding delete_timer destroy operator_delete wait post load on_heap delete_callback
  delete_timer-after code heap removal =
      let free : (w.semaphore == 0) ≡ false = ground (arith, can.unlocked) in
      let again : (w.semaphore - 1 + 1 == 0) ≡ false = ground (arith, can.unlocked) in
      let restored : w.semaphore - 1 + 1 - 1 + 1 ≡ w.semaphore = omega (arith, can.unlocked) in
      elim v.callback [
        | inl none_left ↦
            let cb : (t.p_cb == null) ≡ true = ground arith in
            rw (free, can.object, not_out, removal, cb, again, restored) refl
        | inr (some_cb, there) ↦
            let cb : (t.p_cb == null) ≡ false = ground arith in
            rw (free, can.object, not_out, removal, cb, there, again, restored) refl
      ]

  -- `delete` of a timer that has been scheduled and is not done, with the semaphore free, and that
  -- stands in the heap before the last place or in a heap of at most three, returns: one entry of
  -- it and no other has left the heap, there is no timer at the address any more, the callback
  -- object, if any, is deleted, the object is given back to the pool, and the other timers, the
  -- messages and the semaphore are as before.
  pub delete_timer-IsDeleted :
      IsInHeap w this → Returns (λ (_, w'). IsDeleted w this t w') (delete_timer this w)
  delete_timer-IsDeleted h =
      let removal =
        remove_from_heap-TakenOut (fires w) w.min_heap this h.fits h.live h.index h.place h.held in
      let (code, heap) = removal.value in
      rw (delete_timer-after code heap removal.ended) (
        returns (record {
          timer = ground arith;
          others = λ p ne. ground arith;
          heap =
              subst (λ c. TakenOut (fires w) w.min_heap this (c, heap)) removal.holds.result
                removal.holds;
          callbacks = refl;
          pool = refl;
          semaphore = refl;
          sent = refl;
          clock = refl;
        }))
