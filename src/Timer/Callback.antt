-- ===== src/Timer/Callback.antt =====
-- platform/Timer.cpp, `processACallback`: what a task does with a timer that has fired, and `cancel`.
use timer_and_callback.Base.{
  ℕ, ◌+◌, ◌-◌, ◌≤◌, ◌<◌, ◌≡◌, ◌≢◌, ◌⊎◌, inl, inr, refl, some, none, Bool, true, false, ◌||◌, ◌∷◌,
  ◌==◌, ok, Returns, returns, Returns-bind, update, arith,
}
use timer_and_callback.Types.{Result, u64}
use timer_and_callback.Pool.{null, remove_from_pool}
use timer_and_callback.World.{
  TimerType, TimerState, Timer, World, ◌>>=◌, ◌>>◌, wait, post, load, store, trigger,
  delete_callback,
}
use timer_and_callback.Timer.{
  is_invalid, is_done, out_of_heap, destroy, operator_delete, delete_timer, goes_on, cancel,
  process_periodic, process_one_shot, process_by_type, process_a_callback,
}
use timer_and_callback.Timer.Times.{now, later}
use timer_and_callback.Timer.Ready.{IsReady, IsReady-others}
use timer_and_callback.Timer.Schedule.{IsScheduled, CanRun, change_firing_time-IsScheduled}

-- The world after a timer that is not in the heap has been deleted with its callback.
abbrev pub deleted : World → ℕ → ℕ → World
deleted w this p_cb = record w {
  timers = update w.timers this none;
  callbacks = update w.callbacks p_cb false;
  pool = remove_from_pool w.pool this;
}

abbrev pub after_trigger : World → ℕ → World
after_trigger w p_cb = record w { triggered = p_cb ∷ w.triggered }

or_true : (b : Bool) → (b || true) ≡ true
or_true true = refl
or_true false = refl

module _ {w : World} {this : ℕ} {t : Timer} (can : CanRun w this t) where
  restored : w.semaphore - 1 + 1 - 1 + 1 ≡ w.semaphore
  restored = omega (arith, can.unlocked)

  done-out_of_heap : t.state ≡ TimerState.done → out_of_heap t ≡ true
  unfolding out_of_heap is_done
  done-out_of_heap done = rw done (or_true (is_invalid t.type))

  delete_timer-deleted :
      t.p_cb ≢ null
      → w.callbacks t.p_cb ≡ true
      → t.state ≡ TimerState.done
      → delete_timer this w ≡ ok (tt, deleted w this t.p_cb)
  unfolding delete_timer destroy operator_delete wait post load delete_callback
  delete_timer-deleted some_cb there done =
      let free : (w.semaphore == 0) ≡ false = ground (arith, can.unlocked) in
      let again : (w.semaphore - 1 + 1 == 0) ≡ false = ground (arith, can.unlocked) in
      let cb : (t.p_cb == null) ≡ false = ground arith in
      rw (free, can.object, done-out_of_heap done, cb, there, again, restored) refl

module _ {w : World} {this : ℕ} {t : Timer} (can : CanRun w this t) where
  triggered-CanRun : CanRun (after_trigger w t.p_cb) this t
  triggered-CanRun = record { unlocked = can.unlocked; object = can.object }

  goes_on_lem :
      (t.number_of_times_fired ≤ t.how_many_times_to_fire) ⊎ (t.how_many_times_to_fire ≡ 0)
      → goes_on t ≡ true
  unfolding goes_on
  goes_on_lem more = ground arith

  by_type :
      (type : TimerType)
      → (t.p_cb ≡ null) ⊎ (type ≡ TimerType.invalid)
      → process_by_type type this t w ≡ ok (Result.error, w)
  unfolding process_by_type process_one_shot process_periodic
  by_type TimerType.one_shot (inl none_left) =
      let cb : (t.p_cb == null) ≡ true = ground arith in rw cb refl
  by_type TimerType.periodic (inl none_left) =
      let cb : (t.p_cb == null) ≡ true = ground arith in rw cb refl
  by_type TimerType.invalid bad = refl
  by_type TimerType.one_shot (inr e) = cc
  by_type TimerType.periodic (inr e) = cc

  -- `processACallback` of a timer without a callback, or of a type that was never set, answers ERROR
  -- and changes nothing.
  pub process_a_callback-error :
      (t.p_cb ≡ null) ⊎ (t.type ≡ TimerType.invalid)
      → process_a_callback this w ≡ ok (Result.error, w)
  unfolding process_a_callback load
  process_a_callback-error bad = rw (load, can.object) (by_type t.type bad)

  module _ (some_cb : t.p_cb ≢ null) (there : w.callbacks t.p_cb ≡ true) where
    -- `processACallback` of a one-shot timer that is done, with a callback object and the semaphore
    -- free, answers OK: the callback has been triggered once, the timer and its callback are deleted,
    -- and the object has been given back to the pool.
    pub process_a_callback-one_shot :
        t.type ≡ TimerType.one_shot
        → t.state ≡ TimerState.done
        → process_a_callback this w ≡ ok (Result.ok, deleted (after_trigger w t.p_cb) this t.p_cb)
    unfolding process_a_callback process_by_type process_one_shot load trigger
    process_a_callback-one_shot kind done =
        let cb : (t.p_cb == null) ≡ false = ground arith in
        rw
          (
            load,
            can.object,
            kind,
            cb,
            there,
            delete_timer-deleted triggered-CanRun some_cb there done,
          )
          refl

    -- `processACallback` of a periodic timer that is done and has fired more often than asked for,
    -- with a callback object and the semaphore free, answers OK: the callback has been triggered
    -- once more, and the timer and its callback are deleted.
    pub process_a_callback-last :
        t.type ≡ TimerType.periodic
        → t.state ≡ TimerState.done
        → 0 < t.how_many_times_to_fire
        → t.how_many_times_to_fire < t.number_of_times_fired
        → process_a_callback this w ≡ ok (Result.ok, deleted (after_trigger w t.p_cb) this t.p_cb)
    unfolding process_a_callback process_by_type process_periodic goes_on load trigger
    process_a_callback-last kind done some_times over =
        let cb : (t.p_cb == null) ≡ false = ground arith in
        let ended : goes_on t ≡ false = ground arith in
        rw
          (
            load,
            can.object,
            kind,
            cb,
            there,
            ended,
            delete_timer-deleted triggered-CanRun some_cb there done,
          )
          refl

    -- `processACallback` of a periodic timer with a callback object that has fired as often as
    -- asked for, or less, or is to fire for ever, with the semaphore free and a heap of fewer than
    -- 1024 timers, answers OK: the callback has been triggered, and the timer has been added to the
    -- heap, to fire one timeout from now.
    pub process_a_callback-again :
        t.type ≡ TimerType.periodic
        → IsReady w this
        → (t.number_of_times_fired ≤ t.how_many_times_to_fire) ⊎ (t.how_many_times_to_fire ≡ 0)
        → Returns
            (λ (code, w').
              (code ≡ Result.ok)
              × IsScheduled
                  (later (after_trigger w t.p_cb))
                  this
                  (record t { state = TimerState.active; when_to_fire = u64 (now w + t.timeout) })
                  w')
            (process_a_callback this w)
    unfolding process_a_callback process_by_type process_periodic load trigger
    process_a_callback-again kind ready more =
        let cb : (t.p_cb == null) ≡ false = ground arith in
        rw (load, can.object, kind, cb, there, goes_on_lem more)
          (Returns-bind
            (change_firing_time-IsScheduled triggered-CanRun
              (IsReady-others ready (after_trigger w t.p_cb) refl (λ p ne. refl) ready.object)
              t.timeout)
            λ r p. returns (refl, rw kind at p))

-- What `cancel` leaves: the timer is idle and has no callback, its callback object is deleted, and
-- the heap is as before, so that the timer stays in it if it was there.
pub record IsCancelled (w : World) (this : ℕ) (t : Timer) (w' : World) : Type 0 where
  pub timer : w'.timers this ≡ some (record t { p_cb = null; state = TimerState.idle })
  pub others : (p : ℕ) → p ≢ this → w'.timers p ≡ w.timers p
  pub heap : w'.min_heap ≡ w.min_heap
  pub callback : w'.callbacks t.p_cb ≡ false
  pub other_callbacks : (p : ℕ) → p ≢ t.p_cb → w'.callbacks p ≡ w.callbacks p
  pub semaphore : w'.semaphore ≡ w.semaphore
  pub pool : w'.pool ≡ w.pool
  pub triggered : w'.triggered ≡ w.triggered
  pub queues : w'.queues ≡ w.queues
  pub sent : w'.sent ≡ w.sent
  pub clock : w'.clock ≡ w.clock

module _ {w : World} {this : ℕ} {t : Timer} (can : CanRun w this t) where
  -- `cancel` of a timer with a callback object, with the semaphore free, returns: the timer is idle
  -- and without a callback, the callback object is deleted, and the heap, the other timers and
  -- callbacks and the semaphore are as before: the timer is not taken out of the heap.
  pub cancel-IsCancelled :
      t.p_cb ≢ null
      → w.callbacks t.p_cb ≡ true
      → Returns (λ (_, w'). IsCancelled w this t w') (cancel this w)
  unfolding cancel wait post load store delete_callback
  cancel-IsCancelled some_cb there =
      let free : (w.semaphore == 0) ≡ false = ground (arith, can.unlocked) in
      let same : (this == this) ≡ true = ground arith in
      let cb : (t.p_cb == null) ≡ false = ground arith in
      rw (free, can.object, cb, there, ◌>>◌, ◌>>=◌, load, same)
        (returns (record {
          timer = ground arith;
          others = λ p ne. ground arith;
          heap = refl;
          callback = ground arith;
          other_callbacks = λ p ne. ground arith;
          semaphore = omega (arith, can.unlocked);
          pool = refl;
          triggered = refl;
          queues = refl;
          sent = refl;
          clock = refl;
        }))
