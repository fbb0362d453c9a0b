-- ===== src/TimerTask/Waiting.antt =====
-- platform/TimerTask.cpp and Timer.cpp: the rounds until the timer at the top of the heap is due.
use mathlib.Core.Path.{subst}
use timer_and_callback.Base.{
  ℕ, zero, suc, ◌+◌, ◌≤◌, ◌<◌, ◌≡◌, refl, ap, sym, ◌∙◌, Bool-cases, inl, inr, some, false, ◌==◌,
  leb, if◌then◌else◌, ok, Returns, Returns-map, count, arith,
}
use timer_and_callback.Base.Slots.{count_pos}
use timer_and_callback.Types.{u64, u64_mod, max_number_of_timers}
use timer_and_callback.MinHeap.Order.{AllLive}
use timer_and_callback.Pool.{null, get_memory_location_from_index}
use timer_and_callback.Pool.Addresses.{IsPlaced}
use timer_and_callback.Message.{max_tasks}
use timer_and_callback.World.{
  TimerType, TimerState, Timer, World, ◌>>=◌, ◌>>◌, load, fires, get_current_time_in_msec,
}
use timer_and_callback.Timer.{schedule_one_shot_at_timeout}
use timer_and_callback.Timer.Times.{now, later}
use timer_and_callback.Timer.Ready.{IsReady, live_of}
use timer_and_callback.Timer.Schedule.{
  IsScheduled, CanRun, schedule_one_shot_at_timeout-IsScheduled,
}
use timer_and_callback.TimerTask.{top_timer, look_at_top, round, rounds}
use timer_and_callback.TimerTask.Fire.{IsDue, IsFired, round-IsFired}
use timer_and_callback.TimerTask.Room.{HasRoom, same-HasRoom}
use timer_and_callback.TimerTask.Cycle.{reading}
use timer_and_callback.TimerTask.Blocked.{after_readings}

-- The timer `t` at the top of the heap is active, and is to fire at some time. The queue of its
-- task has room for a message.
pub record IsPending (w : World) (index : ℕ) (t : Timer) : Type 0 where
  pub some_left : 0 < w.min_heap.number_of_timers_being_managed
  pub fits : w.min_heap.number_of_timers_being_managed ≤ max_number_of_timers
  pub live : AllLive (fires w) w.min_heap.heap w.min_heap.number_of_timers_being_managed
  pub object : w.timers (w.min_heap.heap 0) ≡ some t
  pub placed : IsPlaced w.pool
  pub inside : index < w.pool.max_number_of_objects
  pub top : w.min_heap.heap 0 ≡ get_memory_location_from_index w.pool index
  pub task : t.cb_contex_t_id < max_tasks
  pub room : HasRoom w.queues w.sent t.cb_contex_t_id 1
  pub active : t.state ≡ TimerState.active

later-IsPending :
    {w : World} {index : ℕ} {t : Timer} → IsPending w index t → IsPending (later w) index t
later-IsPending v = record {
  some_left = v.some_left;
  fits = v.fits;
  live = v.live;
  object = v.object;
  placed = v.placed;
  inside = v.inside;
  top = v.top;
  task = v.task;
  room = v.room;
  active = v.active;
}

pub after_readings-IsPending :
    {index : ℕ} {t : Timer} (n : ℕ) (w : World)
    → IsPending w index t
    → IsPending (after_readings n w) index t
after_readings-IsPending zero w v = v
after_readings-IsPending (suc n) w v = after_readings-IsPending n (later w) (later-IsPending v)

pub pending-IsDue :
    {w : World} {index : ℕ} {t : Timer}
    → IsPending w index t
    → t.when_to_fire ≤ now w
    → IsDue w index t
pending-IsDue v h = record {
  some_left = v.some_left;
  fits = v.fits;
  live = v.live;
  object = v.object;
  placed = v.placed;
  inside = v.inside;
  top = v.top;
  task = v.task;
  room = v.room;
  active = v.active;
  due = h;
}

waiting_round :
    {w : World} {index : ℕ} {t : Timer}
    → IsPending w index t
    → now w < t.when_to_fire
    → round w ≡ ok (tt, later w)
unfolding round look_at_top top_timer load get_current_time_in_msec
waiting_round {w} {index} {t} v early =
    let more : (w.min_heap.number_of_timers_being_managed == 0) ≡ false =
      ground (arith, v.some_left) in
    let not_past : leb t.when_to_fire (now w) ≡ false = ground arith in
    rw (more, ◌>>=◌, load, v.object, not_past) refl

-- The timer at the top fires in the round after `rounds_before` rounds, whose reading of the clock
-- is the first one that is not before its time; the rounds before only read the clock.
pub record FiresOnTime (w : World) (index : ℕ) (t : Timer) (last : ℕ) : Type 0 where
  pub rounds_before : ℕ
  pub in_time : rounds_before ≤ last
  pub not_early : (k : ℕ) → k < rounds_before → reading w.clock k < t.when_to_fire
  pub due : t.when_to_fire ≤ reading w.clock rounds_before
  pub waited : rounds rounds_before w ≡ ok (tt, after_readings rounds_before w)
  pub fired :
      Returns
        (λ (_, w'). IsFired (after_readings rounds_before w) index t w')
        (round (after_readings rounds_before w))

fires_now :
    {w : World} {index : ℕ} {t : Timer} (last : ℕ)
    → IsPending w index t
    → t.when_to_fire ≤ now w
    → FiresOnTime w index t last
unfolding rounds
fires_now last v h = record {
  rounds_before = 0;
  in_time = omega arith;
  not_early = λ k early. absurd (omega arith);
  due = h;
  waited = refl;
  fired = round-IsFired (pending-IsDue v h);
}

fires_later :
    {w : World} {index : ℕ} {t : Timer} {last : ℕ}
    → IsPending w index t
    → now w < t.when_to_fire
    → FiresOnTime (later w) index t last
    → FiresOnTime w index t (suc last)
unfolding rounds
fires_later {w} {t = t} v early f = record {
  rounds_before = suc f.rounds_before;
  in_time = omega (arith, f.in_time);
  not_early = λ k h. not_early_from k h;
  due = f.due;
  waited = rw (waiting_round v early, ◌>>◌, ◌>>=◌) f.waited;
  fired = f.fired;
}
  where
    not_early_from : (k : ℕ) → k < suc f.rounds_before → reading w.clock k < t.when_to_fire
    not_early_from zero h = early
    not_early_from (suc k) h = f.not_early k (omega arith)

-- An active timer at the top of the heap, for a task whose queue has room, whose time the clock
-- reaches within `last + 1` rounds, fires in the first round of TimerTask whose reading of the
-- clock is not before its time; the rounds before that change nothing but the clock.
pub pending-FiresOnTime :
    (last : ℕ) (w : World) (index : ℕ) (t : Timer)
    → IsPending w index t
    → t.when_to_fire ≤ reading w.clock last
    → FiresOnTime w index t last
pending-FiresOnTime zero w index t v due = fires_now zero v due
pending-FiresOnTime (suc last) w index t v due = elim (Bool-cases (leb t.when_to_fire (now w))) [
  | inl e ↦ fires_now (suc last) v (ground arith)
  | inr e ↦
      fires_later v (ground arith)
        (pending-FiresOnTime last (later w) index t (later-IsPending v) due)
]

-- The timer `t` at `this`, the object at the place `index` of the pool, has a task whose queue has
-- room, the semaphore is free, and no timer is in the heap.
pub record IsFirst (w : World) (this index : ℕ) (t : Timer) : Type 0 where
  pub can : CanRun w this t
  pub empty : w.min_heap.number_of_timers_being_managed ≡ 0
  pub placed : IsPlaced w.pool
  pub inside : index < w.pool.max_number_of_objects
  pub location : this ≡ get_memory_location_from_index w.pool index
  pub task : t.cb_contex_t_id < max_tasks
  pub room : HasRoom w.queues w.sent t.cb_contex_t_id 1

-- The timer that is scheduled.
abbrev pub one_shot : World → Timer → (p_cb dummy timeout : ℕ) → Timer
one_shot w t p_cb dummy timeout = record t {
  p_cb = if t.p_cb == null then p_cb else t.p_cb;
  state = TimerState.active;
  type = TimerType.one_shot;
  how_many_times_to_fire = 0;
  first = timeout;
  when_to_fire = u64 (now w + timeout);
  timeout = dummy;
  number_of_times_fired = 0;
}

count_none : (p : ℕ) (f : ℕ → ℕ) (n : ℕ) → n ≡ 0 → count p f n ≡ 0
unfolding count
count_none p f n e = rw e refl

module _ {w : World} {this index : ℕ} {t : Timer} (v : IsFirst w this index t) where
  pub first-IsReady : IsReady w this
  first-IsReady = record {
    room = omega (arith, v.empty);
    live = λ i h. absurd (omega (arith, v.empty));
    object = live_of w v.can.object;
  }

  pub scheduled-IsPending :
      (p_cb dummy timeout : ℕ) (w' : World)
      → IsScheduled (later w) this (one_shot w t p_cb dummy timeout) w'
      → IsPending w' index (one_shot w t p_cb dummy timeout)
  scheduled-IsPending p_cb dummy timeout w' s =
      let some_left : 0 < w'.min_heap.number_of_timers_being_managed =
        omega (arith, s.heap.grown) in
      let at_top =
        count_pos (w'.min_heap.heap 0) w'.min_heap.heap 0
          (w.min_heap.number_of_timers_being_managed + 1) (omega arith) refl in
      let none_before =
        count_none (w'.min_heap.heap 0) w.min_heap.heap w.min_heap.number_of_timers_being_managed
          v.empty in
      let top : w'.min_heap.heap 0 ≡ this =
        ground (arith, s.heap.items (w'.min_heap.heap 0), at_top, none_before) in
      record {
        some_left = some_left;
        fits = omega (arith, s.heap.grown, v.empty);
        live = λ i h. s.heap.live i (omega (arith, s.heap.grown));
        object = ap w'.timers top ∙ s.timer;
        placed = subst IsPlaced (sym s.beside.0) v.placed;
        inside = rw s.beside.0 v.inside;
        top = rw (top, s.beside.0) v.location;
        task = v.task;
        room = same-HasRoom s.beside.5 s.beside.3 (omega arith) v.room;
        active = refl;
      }

  -- `scheduleOneShotAtTimeout`, with no timer in the heap and the semaphore free, when the timeout
  -- ends before 2 ^ 64 and the clock reaches its end within `last + 1` rounds, returns, and then
  -- the timer fires in the first round of TimerTask whose reading of the clock is not before the
  -- end of the timeout; the rounds before that change nothing but the clock.
  pub schedule_one_shot-FiresOnTime :
      (p_cb dummy timeout last : ℕ)
      → now w + timeout < u64_mod
      → now w + timeout ≤ reading w.clock (suc last)
      → Returns
          (λ (_, w').
            (((one_shot w t p_cb dummy timeout).when_to_fire ≡ now w + timeout)
              × FiresOnTime w' index (one_shot w t p_cb dummy timeout) last))
          (schedule_one_shot_at_timeout this p_cb dummy timeout w)
  schedule_one_shot-FiresOnTime p_cb dummy timeout last fits due =
      Returns-map (schedule_one_shot_at_timeout-IsScheduled v.can first-IsReady p_cb dummy timeout)
        λ (_, w') s.
          let exact : u64 (now w + timeout) ≡ now w + timeout = omega arith in
          (
            exact,
            pending-FiresOnTime last w' index (one_shot w t p_cb dummy timeout)
                (scheduled-IsPending p_cb dummy timeout w' s)
                (subst (λ c. u64 (now w + timeout) ≤ reading c last) (sym s.beside.4)
                  (omega (arith, exact, due))),
          )
