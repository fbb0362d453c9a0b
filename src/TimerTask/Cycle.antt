-- ===== src/TimerTask/Cycle.antt =====
-- platform/TimerTask.cpp and the receiver: a periodic timer that is alone in the system, from one
-- firing to the next and to its end.
use mathlib.Core.Path.{subst}
use timer_and_callback.Base.{
  ℕ, zero, suc, ◌+◌, ◌*◌, ◌/◌, ◌≤◌, ◌<◌, ◌≡◌, ◌≢◌, refl, ap, sym, ◌∙◌, some, true, ◌==◌, [], ◌∷◌,
  count, arith,
}
use timer_and_callback.Types.{u32, u64}
use timer_and_callback.MinHeap.Order.{IsLive}
use timer_and_callback.Pool.{null, get_memory_location_from_index}
use timer_and_callback.Pool.Addresses.{IsPlaced}
use timer_and_callback.Message.{
  max_tasks, PosixMessageQueueObject, serialize_to_char_buf, deserialize_from_char_buf,
}
use timer_and_callback.Wire.{zeros}
use timer_and_callback.World.{TimerType, TimerState, Timer, Timeval, World, ◌>>=◌, fires}
use timer_and_callback.Timer.{get_timer_at_index, process_a_callback}
use timer_and_callback.Timer.Times.{now, later}
use timer_and_callback.Timer.Ready.{IsReady, when_of, time_or_0, live_of}
use timer_and_callback.Timer.Schedule.{IsScheduled, CanRun}
use timer_and_callback.Timer.Callback.{after_trigger}
use timer_and_callback.TimerTask.Room.{HasRoom, same-HasRoom}
use timer_and_callback.TimerTask.{oldest, receive, deliver}
use timer_and_callback.TimerTask.Fire.{IsDue, IsFired, message, decoded_location}

-- The `k`-th reading of the clock, in milliseconds.
abbrev pub reading : (ℕ → Timeval) → ℕ → ℕ
reading clock k = u64 ((clock k).tv_sec * 1000 + (clock k).tv_usec / 1000)

-- Between two readings, of the next `steps`, the timeout goes by.
abbrev pub IsTimely : ℕ → (ℕ → Timeval) → ℕ → Type 0
IsTimely timeout clock steps =
    (k : ℕ) → k < steps → reading clock k + timeout ≤ reading clock (suc k)

-- The receiver's turn after a firing, with no other message on its way: it calls the timer that fired.
pub deliver-fired :
    {w w' : World} {index : ℕ} {t : Timer}
    → IsDue w index t
    → w.sent ≡ []
    → IsFired w index t w'
    → (fresh : PosixMessageQueueObject)
    → deliver t.cb_contex_t_id fresh w'
      ≡ process_a_callback (w.min_heap.heap 0) (record w' { sent = [] })
unfolding deliver receive get_timer_at_index
deliver-fired {w} {w'} {index} {t} v quiet f fresh =
    let message_sent =
      f.sent
      ∙ ap (λ l. (t.cb_contex_t_id, serialize_to_char_buf (message index) (zeros 16)) ∷ l) quiet in
    let location =
      subst
        (λ p.
          get_memory_location_from_index p
            (deserialize_from_char_buf fresh
              (serialize_to_char_buf (message index) (zeros 16))).shm_index
          ≡ w.min_heap.heap 0)
        (sym f.pool) (decoded_location v fresh) in
    let own : (t.cb_contex_t_id == t.cb_contex_t_id) ≡ true = ground arith in
    let oldest_one : oldest t.cb_contex_t_id w'.sent
        ≡ some (serialize_to_char_buf (message index) (zeros 16), []) =
      ap (oldest t.cb_contex_t_id) message_sent ∙ rw own refl in
    rw (deliver, oldest_one, ◌>>=◌, receive, get_timer_at_index, location) refl

-- The only timer in the heap is `t`, at the place `index` of the pool: periodic, active and due, with
-- a callback object, for a task whose queue has room. No message is on its way.
pub record IsSolo (w : World) (index : ℕ) (t : Timer) : Type 0 where
  pub unlocked : 0 < w.semaphore
  pub one : w.min_heap.number_of_timers_being_managed ≡ 1
  pub object : w.timers (w.min_heap.heap 0) ≡ some t
  pub placed : IsPlaced w.pool
  pub inside : index < w.pool.max_number_of_objects
  pub top : w.min_heap.heap 0 ≡ get_memory_location_from_index w.pool index
  pub task : t.cb_contex_t_id < max_tasks
  pub room : HasRoom w.queues w.sent t.cb_contex_t_id 1
  pub periodic : t.type ≡ TimerType.periodic
  pub active : t.state ≡ TimerState.active
  pub due : t.when_to_fire ≤ now w
  pub some_cb : t.p_cb ≢ null
  pub there : w.callbacks t.p_cb ≡ true
  pub quiet : w.sent ≡ []

module _ {w : World} {index : ℕ} {t : Timer} (v : IsSolo w index t) where
  abbrev pub this : ℕ
  this = w.min_heap.heap 0

  top-IsLive : IsLive (fires w) this
  top-IsLive = subst (λ o. o ≡ some (time_or_0 o)) (sym (ap when_of v.object)) refl

  first : (i : ℕ) → i < w.min_heap.number_of_timers_being_managed → 0 ≡ i
  first i h = omega (arith, v.one)

  pub solo-IsDue : IsDue w index t
  solo-IsDue = record {
    some_left = omega (arith, v.one);
    fits = omega (arith, v.one);
    live = λ i h. subst (λ j. IsLive (fires w) (w.min_heap.heap j)) (first i h) top-IsLive;
    object = v.object;
    placed = v.placed;
    inside = v.inside;
    top = v.top;
    task = v.task;
    room = v.room;
    active = v.active;
    due = v.due;
  }

  -- The timer after the round.
  abbrev pub fired : Timer
  fired = record t {
    number_of_times_fired = u32 (t.number_of_times_fired + 1);
    state = TimerState.done;
  }

  module _ {w' : World} (f : IsFired w index t w') where
    abbrev pub empty_queue : World
    empty_queue = record w' { sent = [] }

    pub fired-CanRun : CanRun empty_queue this fired
    fired-CanRun = record { unlocked = rw f.semaphore v.unlocked; object = f.timer }

    pub none_left : w'.min_heap.number_of_timers_being_managed ≡ 0
    none_left = omega (arith, f.taken_out.shrunk, v.one)

    pub fired-IsReady : IsReady empty_queue this
    unfolding count
    fired-IsReady = record {
      room = omega (arith, none_left);
      live = λ i h. absurd (omega (arith, none_left));
      object = live_of empty_queue f.timer;
    }

    pub none_counted :
        count this empty_queue.min_heap.heap empty_queue.min_heap.number_of_timers_being_managed ≡ 0
    unfolding count
    none_counted = rw none_left refl

    pub deliver_lem :
        (fresh : PosixMessageQueueObject)
        → deliver t.cb_contex_t_id fresh w' ≡ process_a_callback this empty_queue
    deliver_lem = deliver-fired solo-IsDue v.quiet f

-- What one entry holds if it is counted.
only_item : (p : ℕ) (heap : ℕ → ℕ) (n : ℕ) → n ≡ 0 → count p heap (n + 1) ≡ 1 → heap 0 ≡ p
unfolding count
only_item p heap zero empty one = ground arith
only_item p heap (suc n) empty one = absurd (omega arith)

-- The world one cycle later: the timer has fired once more, and is to fire a timeout after the second
-- reading of the clock.
abbrev pub next_timer : World → Timer → Timer
next_timer w t = record t {
  number_of_times_fired = u32 (t.number_of_times_fired + 1);
  state = TimerState.active;
  when_to_fire = u64 (reading w.clock 1 + t.timeout);
}

pub record IsNext (w : World) (index : ℕ) (t : Timer) (w' : World) : Type 0 where
  pub solo : IsSolo w' index (next_timer w t)
  pub same_top : w'.min_heap.heap 0 ≡ w.min_heap.heap 0
  pub triggered : w'.triggered ≡ t.p_cb ∷ w.triggered
  pub clock : w'.clock ≡ (λ k. w.clock (suc (suc k)))

module _ {w : World} {index : ℕ} {t : Timer} (v : IsSolo w index t) where
  module _ {w' w'' : World} (f : IsFired w index t w')
      (s : IsScheduled
        (later (after_trigger (empty_queue v f) t.p_cb))
        (this v)
        (record (fired v) { state = TimerState.active; when_to_fire = u64 (now w' + t.timeout) })
        w'')
      (timely : IsTimely t.timeout w.clock 2) where
    same_queues : w''.queues ≡ w.queues
    same_queues = s.beside.5 ∙ f.queues

    same_room : HasRoom w''.queues w''.sent t.cb_contex_t_id 1
    same_room = same-HasRoom same_queues (s.beside.3 ∙ sym v.quiet) (omega arith) v.room

    back : w''.min_heap.heap 0 ≡ this v
    back =
        only_item (this v) w''.min_heap.heap _ (none_left v f)
          (ground (arith, s.heap.items (this v), none_counted v f))

    clock_twice : w''.clock ≡ (λ k. w.clock (suc (suc k)))
    clock_twice = s.beside.4 ∙ ap (λ c k. c (suc k)) f.clock

    when_next : u64 (now w' + t.timeout) ≡ u64 (reading w.clock 1 + t.timeout)
    when_next = ap (λ c. u64 (reading c 0 + t.timeout)) f.clock

    next_object : w''.timers (this v) ≡ some (next_timer w t)
    next_object =
        s.timer
        ∙ ap (λ m. some (record (fired v) { state = TimerState.active; when_to_fire = m }))
            when_next

    pub cycle-IsNext : IsNext w index t w''
    cycle-IsNext = record {
      solo = record {
        unlocked = omega (arith, s.semaphore, f.semaphore, v.unlocked);
        one = omega (arith, s.heap.grown, none_left v f);
        object = subst (λ p. w''.timers p ≡ some (next_timer w t)) (sym back) next_object;
        placed = subst IsPlaced (sym (s.beside.0 ∙ f.pool)) v.placed;
        inside = subst (λ p. index < p.max_number_of_objects) (sym (s.beside.0 ∙ f.pool)) v.inside;
        top =
            back
            ∙ v.top
            ∙ ap (λ p. get_memory_location_from_index p index) (sym (s.beside.0 ∙ f.pool));
        task = v.task;
        room = same_room;
        periodic = v.periodic;
        active = refl;
        due =
            subst (λ c. u64 (reading w.clock 1 + t.timeout) ≤ reading c 0) (sym clock_twice)
              (omega (arith, timely 1 (omega arith)));
        some_cb = v.some_cb;
        there = ap (λ c. c t.p_cb) (s.beside.1 ∙ f.callbacks) ∙ v.there;
        quiet = s.beside.3;
      };
      same_top = back;
      triggered = s.beside.2 ∙ ap (λ l. t.p_cb ∷ l) f.triggered;
      clock = clock_twice;
    }
