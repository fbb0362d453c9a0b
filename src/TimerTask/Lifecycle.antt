-- ===== src/TimerTask/Lifecycle.antt =====
-- platform/Timer.cpp, TimerTask.cpp and MemoryPool.cpp together: a one-shot timer from `new` to
-- `delete`.
use mathlib.Core.Path.{subst}
use timer_and_callback.Base.{
  ℕ, suc, ◌+◌, ◌<◌, ◌≤◌, ◌≡◌, ◌≢◌, refl, ap, sym, ◌∙◌, some, none, true, false, List, [], ◌∷◌, ok,
  Returns, Returns-bind, returns, arith,
}
use timer_and_callback.Types.{Result, u64_mod, u32}
use timer_and_callback.Pool.{null, get_memory_location_from_index, remove_from_pool}
use timer_and_callback.Pool.Addresses.{
  IsPlaced, IsPlaced_same, SamePlace, get_from_pool-SamePlace, location-SamePlace,
}
use timer_and_callback.Pool.Free.{IsPool, get_from_pool-cons, remove_from_pool-cons}
use timer_and_callback.Message.{max_tasks, PosixMessageQueueObject}
use timer_and_callback.World.{TimerState, Timer, World, M, ◌>>=◌, ◌>>◌}
use timer_and_callback.Timer.Create.{made, with_new, new_timer-made}
use timer_and_callback.Timer.{new_timer, schedule_one_shot_at_timeout, process_a_callback}
use timer_and_callback.Timer.Times.{now, later}
use timer_and_callback.Timer.Schedule.{IsScheduled, schedule_one_shot_at_timeout-IsScheduled}
use timer_and_callback.Timer.Callback.{deleted, after_trigger, process_a_callback-one_shot}
use timer_and_callback.TimerTask.{round, rounds, deliver}
use timer_and_callback.TimerTask.Fire.{IsDue, IsFired, round-IsFired}
use timer_and_callback.TimerTask.Room.{HasRoom}
use timer_and_callback.TimerTask.Cycle.{reading, deliver-fired}
use timer_and_callback.TimerTask.Blocked.{past, after_readings-past}
use timer_and_callback.TimerTask.Waiting.{
  IsPending, after_readings-IsPending, pending-IsDue, IsFirst, one_shot, first-IsReady,
  scheduled-IsPending,
}
use timer_and_callback.TimerTask.Late.{IsEarly, rounds_early}

-- A task makes a timer and schedules it, TimerTask makes `steps` rounds and one more, and the receiver
-- of its task has a turn.
pub live_once :
    (creating context : ℕ) (memory : Timer) (p_cb dummy timeout steps : ℕ)
    → PosixMessageQueueObject
    → M Result
live_once creating context memory p_cb dummy timeout steps fresh = do
  this ← new_timer creating context memory
  schedule_one_shot_at_timeout this p_cb dummy timeout
  rounds steps
  round
  deliver context fresh

-- No timer is in the heap, no message is on its way, no call is in progress, the objects `index ∷
-- free` of the pool are free, and `p_cb` is a callback object.
pub record IsAtRest (w : World) (index : ℕ) (free : List ℕ) (p_cb : ℕ) : Type 0 where
  pub unlocked : 0 < w.semaphore
  pub empty : w.min_heap.number_of_timers_being_managed ≡ 0
  pub quiet : w.sent ≡ []
  pub pool : IsPool w.pool (index ∷ free)
  pub placed : IsPlaced w.pool
  pub some_cb : p_cb ≢ null
  pub there : w.callbacks p_cb ≡ true

-- The callback has been triggered once more and is deleted, the timer is gone, its object is again the
-- first free one of the pool, and all else is as before.
pub record IsOver (w : World) (index : ℕ) (free : List ℕ) (p_cb : ℕ) (w' : World) : Type 0 where
  pub triggered : w'.triggered ≡ p_cb ∷ w.triggered
  pub callback : w'.callbacks p_cb ≡ false
  pub other_callbacks : (p : ℕ) → p ≢ p_cb → w'.callbacks p ≡ w.callbacks p
  pub timer : w'.timers (get_memory_location_from_index w.pool index) ≡ none
  pub others : (p : ℕ) → p ≢ get_memory_location_from_index w.pool index → w'.timers p ≡ w.timers p
  pub empty : w'.min_heap.number_of_timers_being_managed ≡ 0
  pub quiet : w'.sent ≡ []
  pub semaphore : w'.semaphore ≡ w.semaphore
  pub pool : IsPool w'.pool (index ∷ free)

module _ {w : World} {index : ℕ} {free : List ℕ} {p_cb : ℕ} (v : IsAtRest w index free p_cb)
    (creating context : ℕ) (memory : Timer) (dummy timeout steps : ℕ)
    (sendable : context < max_tasks) (room : HasRoom w.queues w.sent context 1)
    (no_cb : memory.p_cb ≡ null) (fits : now w + timeout < u64_mod)
    (early : (k : ℕ) → k < steps → reading w.clock (suc k) < now w + timeout)
    (due : now w + timeout ≤ reading w.clock (suc steps)) where
  abbrev this : ℕ
  this = get_memory_location_from_index w.pool index

  abbrev new : Timer
  new = made creating context memory

  abbrev created : World
  created = with_new w index new

  abbrev scheduled : Timer
  scheduled = one_shot created new p_cb dummy timeout

  same_place : SamePlace w.pool created.pool
  same_place = get_from_pool-SamePlace w.pool

  created-IsFirst : IsFirst created this index new
  created-IsFirst = record {
    can = record { unlocked = v.unlocked; object = ground arith };
    empty = v.empty;
    placed = IsPlaced_same created.pool same_place v.placed;
    inside = rw (same_place.3) v.pool.inside.0;
    location = sym (location-SamePlace w.pool created.pool index same_place);
    task = sendable;
    room = room;
  }

  own_cb : scheduled.p_cb ≡ p_cb
  own_cb = ground (arith, no_cb)

  exact : scheduled.when_to_fire ≡ now w + timeout
  exact = omega (arith, fits)

  module _ {w1 : World} (s : IsScheduled (later created) this scheduled w1) where
    w1-IsPending : IsPending w1 index scheduled
    w1-IsPending = scheduled-IsPending created-IsFirst p_cb dummy timeout w1 s

    w1-IsEarly : IsEarly w1 scheduled steps
    w1-IsEarly = record {
      some_left = w1-IsPending.some_left;
      object = w1-IsPending.object;
      early = λ k h.
          subst (λ c. reading c k < scheduled.when_to_fire) (sym s.beside.4)
            (omega (arith, early k h, exact));
    }

    past-IsPending : IsPending (past steps w1) index scheduled
    past-IsPending =
        subst (λ u. IsPending u index scheduled) (after_readings-past steps w1)
          (after_readings-IsPending steps w1 w1-IsPending)

    past-IsDue : IsDue (past steps w1) index scheduled
    past-IsDue =
        let last : steps + 0 ≡ steps = omega arith in
        pending-IsDue past-IsPending (
          subst (λ c. scheduled.when_to_fire ≤ reading c (steps + 0)) (sym s.beside.4)
            (rw last (omega (arith, due, exact))))

    waited : rounds steps w1 ≡ ok (tt, past steps w1)
    waited =
        rounds_early steps w1 scheduled w1-IsEarly
        ∙ ap (λ u. ok (tt, u)) (after_readings-past steps w1)

    module _ {w3 : World} (f : IsFired (past steps w1) index scheduled w3) where
      at_top : w1.min_heap.heap 0 ≡ this
      at_top =
          past-IsPending.top
          ∙ ap (λ p. get_memory_location_from_index p index) s.beside.0
          ∙ location-SamePlace w.pool created.pool index same_place

      delivered :
          (fresh : PosixMessageQueueObject)
          → deliver context fresh w3 ≡ process_a_callback this (record w3 { sent = [] })
      delivered fresh =
          deliver-fired past-IsDue (s.beside.3 ∙ v.quiet) f fresh
          ∙ ap (λ p. process_a_callback p (record w3 { sent = [] })) at_top

      fired_timer :
          w3.timers this
          ≡ some (record scheduled { number_of_times_fired = u32 (0 + 1); state = TimerState.done })
      fired_timer = ap w3.timers (sym at_top) ∙ f.timer

      same_semaphore : w3.semaphore ≡ w.semaphore
      same_semaphore = f.semaphore ∙ s.semaphore

      same_callbacks : w3.callbacks ≡ w.callbacks
      same_callbacks = f.callbacks ∙ s.beside.1

      abbrev over : World
      over = deleted (after_trigger (record w3 { sent = [] }) p_cb) this p_cb

      called : (fresh : PosixMessageQueueObject) → deliver context fresh w3 ≡ ok (Result.ok, over)
      called fresh =
          delivered fresh
          ∙ subst
              (λ c.
                process_a_callback this (record w3 { sent = [] })
                ≡ ok (Result.ok, deleted (after_trigger (record w3 { sent = [] }) c) this c))
              own_cb
              (process_a_callback-one_shot
                (record { unlocked = rw same_semaphore v.unlocked; object = fired_timer })
                (rw own_cb v.some_cb)
                (ap (λ c. c scheduled.p_cb) same_callbacks ∙ rw own_cb v.there) refl refl)

      freed : IsPool (remove_from_pool w3.pool this) (index ∷ free)
      freed =
          let back : IsPool (remove_from_pool created.pool this) (index ∷ free) =
            subst (λ p. IsPool (remove_from_pool created.pool p) (index ∷ free))
              (location-SamePlace w.pool created.pool index same_place)
              (remove_from_pool-cons index created-IsFirst.placed (get_from_pool-cons v.pool).1
                created-IsFirst.inside v.pool.distinct.0) in
          subst (λ p. IsPool (remove_from_pool p this) (index ∷ free)) (sym (f.pool ∙ s.beside.0))
            back

      kept : (p : ℕ) → p ≢ this → w3.timers p ≡ w.timers p
      kept p ne =
          let old : created.timers p ≡ w.timers p = ground arith in
          f.others p (λ e. ne (e ∙ at_top)) ∙ s.others p ne ∙ old

      over-IsOver : IsOver w index free p_cb over
      over-IsOver = record {
        triggered = ap (λ l. p_cb ∷ l) (f.triggered ∙ s.beside.2);
        callback = ground arith;
        other_callbacks = λ p ne.
            let old : over.callbacks p ≡ w3.callbacks p = ground arith in
            old ∙ ap (λ c. c p) same_callbacks;
        timer = ground arith;
        others = λ p ne. let old : over.timers p ≡ w3.timers p = ground arith in old ∙ kept p ne;
        empty = omega (arith, f.taken_out.shrunk, s.heap.grown, v.empty);
        quiet = refl;
        semaphore = same_semaphore;
        pool = freed;
      }

  -- With no call in progress, no timer in the heap, no message on its way and an object of the pool
  -- free, a timer for a task whose queue has room is made, whose memory holds no callback, and
  -- scheduled with a callback object as a one-shot timer, whose timeout ends before 2 ^ 64; the
  -- first reading of the clock by TimerTask that is not before its end is that of the round after
  -- `steps` rounds. All the calls return, the receiver answers OK, the callback has been triggered
  -- exactly once and is deleted, the timer is gone, the heap is empty and no message on its way,
  -- the free objects of the pool are the same as before, in the same order, and the other timers
  -- and callbacks and the semaphore are as before.
  pub live_once-IsOver :
      (fresh : PosixMessageQueueObject)
      → Returns
          (λ (code, w'). (code ≡ Result.ok) × IsOver w index free p_cb w')
          (live_once creating context memory p_cb dummy timeout steps fresh w)
  unfolding live_once
  live_once-IsOver fresh =
      rw (new_timer-made w index v.unlocked v.placed v.pool creating context memory) (
        Returns-bind
          (schedule_one_shot_at_timeout-IsScheduled created-IsFirst.can
            (first-IsReady created-IsFirst) p_cb dummy timeout)
          λ (_, w1) s. rw (waited s) (
            Returns-bind (round-IsFired (past-IsDue s))
              λ (_, w3) f. rw (called s f fresh) (returns (refl, over-IsOver s f))))
