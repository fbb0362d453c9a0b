-- ===== src/TimerTask/Stuck.antt =====
-- platform/TimerTask.cpp and Timer.cpp: how `cancel` and `restart` bring a timer that is done to
-- the top of the heap.
use mathlib.Core.Path.{subst}
use timer_and_callback.Base.{
  ℕ, zero, suc, ◌+◌, ◌≤◌, ◌<◌, ◌≡◌, ◌≢◌, refl, ap, sym, ◌∙◌, inl, some, true, [], ok, Returns,
  returns, Returns-bind, count, one_if_eq, arith,
}
use timer_and_callback.Base.Slots.{count_pos}
use timer_and_callback.Types.{Result, u32, u64}
use timer_and_callback.MinHeap.Order.{IsLive}
use timer_and_callback.Pool.{null, get_memory_location_from_index}
use timer_and_callback.Pool.Addresses.{IsPlaced}
use timer_and_callback.Message.{max_tasks, PosixMessageQueueObject}
use timer_and_callback.World.{TimerState, Timer, World, M, pure, ◌>>=◌, ◌>>◌, fires}
use timer_and_callback.Timer.{cancel, restart}
use timer_and_callback.Timer.Times.{now, later}
use timer_and_callback.Timer.Ready.{IsReady, live_of}
use timer_and_callback.Timer.Schedule.{IsScheduled, CanRun, restart-IsScheduled}
use timer_and_callback.Timer.Callback.{IsCancelled, cancel-IsCancelled, process_a_callback-error}
use timer_and_callback.TimerTask.Fire.{IsDue, IsFired, round-IsFired}
use timer_and_callback.TimerTask.Room.{HasRoom, same-HasRoom}
use timer_and_callback.TimerTask.Cycle.{deliver-fired}
use timer_and_callback.TimerTask.{round, rounds, deliver}
use timer_and_callback.TimerTask.Blocked.{after_readings, rounds_blocked}

-- The timer at `this` is the only one in the heap, with a callback object, and is an object of the
-- pool, at the place `index`, with a task whose queue has room. No message is on its way.
pub record IsAlone (w : World) (this index : ℕ) (t : Timer) : Type 0 where
  pub unlocked : 0 < w.semaphore
  pub one : w.min_heap.number_of_timers_being_managed ≡ 1
  pub top : w.min_heap.heap 0 ≡ this
  pub object : w.timers this ≡ some t
  pub placed : IsPlaced w.pool
  pub inside : index < w.pool.max_number_of_objects
  pub location : this ≡ get_memory_location_from_index w.pool index
  pub task : t.cb_contex_t_id < max_tasks
  pub room : HasRoom w.queues w.sent t.cb_contex_t_id 1
  pub some_cb : t.p_cb ≢ null
  pub there : w.callbacks t.p_cb ≡ true
  pub quiet : w.sent ≡ []

-- The timer after `cancel`, and after `restart` as well.
abbrev pub cancelled : Timer → Timer
cancelled t = record t { p_cb = null; state = TimerState.idle }

abbrev pub restarted : World → Timer → Timer
restarted w t = record (cancelled t) {
  state = TimerState.active;
  when_to_fire = u64 (now w + t.timeout);
}

-- The timer at `this` is done and has no callback, and the heap still holds it, at the top; nothing
-- has been called back.
pub record IsStuck (w : World) (this : ℕ) (t : Timer) (w' : World) : Type 0 where
  pub number : w'.min_heap.number_of_timers_being_managed ≡ 1
  pub top : w'.min_heap.heap 0 ≡ this
  pub timer :
      w'.timers this
      ≡ some (record (restarted w t) {
        state = TimerState.done;
        number_of_times_fired = u32 (t.number_of_times_fired + 1);
      })
  pub triggered : w'.triggered ≡ w.triggered

readings-IsStuck :
    (n : ℕ) (w : World) (this : ℕ) (t : Timer) (w' : World)
    → IsStuck w this t w'
    → IsStuck w this t (after_readings n w')
readings-IsStuck zero w this t w' v = v
readings-IsStuck (suc n) w this t w' v =
    readings-IsStuck n w this t (later w')
      (record { number = v.number; top = v.top; timer = v.timer; triggered = v.triggered })

-- Rounds leave the timer as it is.
rounds-IsStuck :
    (n : ℕ) (w : World) (this : ℕ) (t : Timer) (w' : World)
    → IsStuck w this t w'
    → Returns (λ (_, w''). IsStuck w this t w'') (rounds n w')
rounds-IsStuck n w this t w' v =
    rw
      (rounds_blocked n w' _ (record {
        some_left = omega (arith, v.number);
        object = ap w'.timers v.top ∙ v.timer;
        finished = refl;
      }))
      (returns (readings-IsStuck n w this t w' v))

count_one : (f : ℕ → ℕ) (p n : ℕ) → n ≡ 1 → count p f n ≡ one_if_eq (f 0) p
unfolding count
count_one f p n e = rw e (omega arith)

-- A call of `cancel` and one of `restart`, the round that fires the timer, the turn of the receiver
-- of a task, and more rounds.
abbrev pub cancel_and_restart : ℕ → ℕ → PosixMessageQueueObject → ℕ → M Result
cancel_and_restart this queue fresh n = do
  cancel this
  restart this
  round
  code ← deliver queue fresh
  rounds n
  pure code

module _ {w : World} {this index : ℕ} {t : Timer} (v : IsAlone w this index t) where
  idle_not_active : TimerState.idle ≢ TimerState.active
  idle_not_active e = cc

  cancel_lem : Returns (λ (_, w'). IsCancelled w this t w') (cancel this w)
  cancel_lem =
      cancel-IsCancelled (record { unlocked = v.unlocked; object = v.object }) v.some_cb v.there

  module _ {w1 : World} (c : IsCancelled w this t w1) where
    number1 : w1.min_heap.number_of_timers_being_managed ≡ 1
    number1 = ap (λ s. s.number_of_timers_being_managed) c.heap ∙ v.one

    top1 : w1.min_heap.heap 0 ≡ this
    top1 = ap (λ s. s.heap 0) c.heap ∙ v.top

    only1 : (i : ℕ) → i < w1.min_heap.number_of_timers_being_managed → w1.min_heap.heap i ≡ this
    only1 i h = subst (λ j. w1.min_heap.heap j ≡ this) (omega (arith, number1)) top1

    cancelled-CanRun : CanRun w1 this (cancelled t)
    cancelled-CanRun = record { unlocked = rw c.semaphore v.unlocked; object = c.timer }

    cancelled-IsReady : IsReady w1 this
    cancelled-IsReady = record {
      room = omega (arith, number1);
      live = λ i h. subst (IsLive (fires w1)) (sym (only1 i h)) (live_of w1 c.timer);
      object = live_of w1 c.timer;
    }

    restart_lem :
        Returns (λ (_, w'). IsScheduled (later w1) this (restarted w t) w') (restart this w1)
    restart_lem =
        subst
          (λ clock.
            Returns
              (λ (_, w').
                IsScheduled (later w1) this (restarted (record w1 { clock = clock }) t) w')
              (restart this w1))
          c.clock (restart-IsScheduled cancelled-CanRun cancelled-IsReady idle_not_active)

    module _ {w2 : World} (s : IsScheduled (later w1) this (restarted w t) w2) where
      count2 :
          (p : ℕ)
          → count p w2.min_heap.heap w2.min_heap.number_of_timers_being_managed
            ≡ one_if_eq this p + one_if_eq this p
      count2 p =
          ap (count p w2.min_heap.heap) s.heap.grown
          ∙ s.heap.items p
          ∙ ap (λ c. c + one_if_eq this p) (count_one w1.min_heap.heap p _ number1)
          ∙ ap (λ q. one_if_eq q p + one_if_eq this p) top1

      some_left2 : 0 < w2.min_heap.number_of_timers_being_managed
      some_left2 = omega (arith, s.heap.grown)

      top2 : w2.min_heap.heap 0 ≡ this
      top2 = ground (
        arith,
        count2 (w2.min_heap.heap 0),
        count_pos (w2.min_heap.heap 0) w2.min_heap.heap 0 _ some_left2 refl,
      )

      due : u64 (now w + t.timeout) ≤ now (later w) → u64 (now w + t.timeout) ≤ now w2
      due h =
          subst (λ clock. u64 (now w + t.timeout) ≤ now (record w2 { clock = clock }))
            (sym (s.beside.4 ∙ ap (λ c k. c (suc k)) c.clock)) h

      same_pool : w2.pool ≡ w.pool
      same_pool = s.beside.0 ∙ c.pool

      restarted-IsDue : u64 (now w + t.timeout) ≤ now (later w) → IsDue w2 index (restarted w t)
      restarted-IsDue h = record {
        some_left = some_left2;
        fits = omega (arith, s.heap.grown, number1);
        live = λ i h. s.heap.live i (omega (arith, s.heap.grown));
        object = rw top2 s.timer;
        placed = subst IsPlaced (sym same_pool) v.placed;
        inside = rw same_pool v.inside;
        top = rw (top2, same_pool) v.location;
        task = v.task;
        room = same-HasRoom (s.beside.5 ∙ c.queues) (s.beside.3 ∙ c.sent) (omega arith) v.room;
        active = refl;
        due = due h;
      }

      quiet2 : w2.sent ≡ []
      quiet2 = s.beside.3 ∙ c.sent ∙ v.quiet

      module _ (h : u64 (now w + t.timeout) ≤ now (later w)) {w3 : World}
          (f : IsFired w2 index (restarted w t) w3) where
        number3 : w3.min_heap.number_of_timers_being_managed ≡ 1
        number3 = omega (arith, f.taken_out.shrunk, s.heap.grown, number1)

        count3 :
            (p : ℕ)
            → one_if_eq (w3.min_heap.heap 0) p + one_if_eq (w2.min_heap.heap 0) p
              ≡ one_if_eq this p + one_if_eq this p
        count3 p =
            ap (λ c. c + one_if_eq (w2.min_heap.heap 0) p)
              (sym (count_one w3.min_heap.heap p _ number3))
            ∙ f.taken_out.items p
            ∙ count2 p

        top3 : w3.min_heap.heap 0 ≡ this
        top3 = ground (arith, count3 (w3.min_heap.heap 0), top2)

        stuck : IsStuck w this t w3
        stuck = record {
          number = number3;
          top = top3;
          timer = ap w3.timers (sym top2) ∙ f.timer;
          triggered = f.triggered ∙ s.beside.2 ∙ c.triggered;
        }

        -- The receiver, which finds no callback.
        deliver_lem :
            (fresh : PosixMessageQueueObject)
            → deliver t.cb_contex_t_id fresh w3 ≡ ok (Result.error, record w3 { sent = [] })
        deliver_lem fresh =
            deliver-fired (restarted-IsDue h) quiet2 f fresh
            ∙ process_a_callback-error
                (record {
                  unlocked =
                      subst (λ m. 0 < m) (sym (f.semaphore ∙ s.semaphore ∙ c.semaphore)) v.unlocked;
                  object = f.timer;
                })
                (inl refl)

  -- A timer that is alone in the heap, with a callback object, no message on its way and room in
  -- the queue of its task, is cancelled and then restarted, and is due in the next round: it fires,
  -- the receiver of its message answers ERROR, and nothing is called back; however many rounds
  -- follow, the heap still holds the timer, at the top and done, so that it blocks the heap.
  pub cancel_and_restart-IsStuck :
      (fresh : PosixMessageQueueObject) (n : ℕ)
      → u64 (now w + t.timeout) ≤ now (later w)
      → Returns
          (λ (code, w'). (code ≡ Result.error) × IsStuck w this t w')
          (cancel_and_restart this t.cb_contex_t_id fresh n w)
  cancel_and_restart-IsStuck fresh n h = Returns-bind cancel_lem λ (_, w1) c.
      Returns-bind (restart_lem c) λ (_, w2) s.
        Returns-bind (round-IsFired (restarted-IsDue c s h)) λ (_, w3) f.
          let v3 = stuck c s h f in
          rw (deliver_lem c s h f fresh) (
            Returns-bind
              (rounds-IsStuck n w this t (record w3 { sent = [] })
                (record {
                  number = v3.number;
                  top = v3.top;
                  timer = v3.timer;
                  triggered = v3.triggered;
                }))
              λ (_, w4) v. returns (refl, v))
