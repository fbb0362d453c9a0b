-- ===== src/TimerTask/Drain.antt =====
-- platform/TimerTask.cpp: rounds one after the other, while all timers in the heap are active and due.
use mathlib.Core.Path.{subst}
use timer_and_callback.Base.{
  ℕ, zero, suc, ◌+◌, ◌≤◌, ◌<◌, ◌≡◌, ◌≢◌, refl, ap, sym, ◌∙◌, inl, inr, Option, some, none,
  Bool-cases, ◌==◌, List, [], ◌∷◌, length, Returns, returns, Returns-bind, Returns-map, count,
  one_if_eq, occurrences, arith,
}
use timer_and_callback.Base.Slots.{count_pos}
use timer_and_callback.Types.{u32}
use timer_and_callback.Pool.{get_index_from_memory_location}
use timer_and_callback.Pool.Addresses.{index-location}
use timer_and_callback.Wire.{zeros}
use timer_and_callback.Message.{serialize_to_char_buf}
use timer_and_callback.World.{TimerState, Timer, Timeval, World}
use timer_and_callback.Timer.Times.{now}
use timer_and_callback.TimerTask.{rounds}
use timer_and_callback.TimerTask.Fire.{IsDue, IsFired, message, round-IsFired}
use timer_and_callback.TimerTask.Room.{HasRoom, same-HasRoom, sent-HasRoom}
use timer_and_callback.TimerTask.Cycle.{reading}
use timer_and_callback.TimerTask.System.{IsObject, IsObjectOrNone, IsSystem}
use timer_and_callback.TimerTask.Kept.{fired-IsSystem}

-- How often the heap holds a timer.
abbrev pub held : World → ℕ → ℕ
held w p = count p w.min_heap.heap w.min_heap.number_of_timers_being_managed

-- The clock does not go back.
abbrev pub IsMonotone : (ℕ → Timeval) → Type 0
IsMonotone clock = (k : ℕ) → reading clock k ≤ reading clock (suc k)

-- The timer at `p` is active and due.
pub record IsFiring (w : World) (p : ℕ) : Type 0 where
  pub timer : Timer
  pub object : w.timers p ≡ some timer
  pub active : timer.state ≡ TimerState.active
  pub due : timer.when_to_fire ≤ now w

-- A timer that has fired once more.
abbrev pub finish : Option Timer → Option Timer
finish none = none
finish (some t) = some (record t {
  number_of_times_fired = u32 (t.number_of_times_fired + 1);
  state = TimerState.done;
})

abbrev pub task_of : Option Timer → ℕ
task_of none = 0
task_of (some t) = t.cb_contex_t_id

-- The queue of the task of each timer in the heap has room for so many messages.
abbrev pub AllHaveRoom : World → ℕ → Type 0
AllHaveRoom w n = (p : ℕ) → 0 < held w p → HasRoom w.queues w.sent (task_of (w.timers p)) n

-- The message of the timer at `p`, and the task that it goes to.
abbrev pub message_of : World → ℕ → ℕ × List ℕ
message_of w p = (
  task_of (w.timers p),
  serialize_to_char_buf (message (get_index_from_memory_location w.pool p)) (zeros 16),
)

-- The messages of a list of timers on top of others, the last one first.
abbrev pub on_top {ℓ} : {A : Type ℓ} → (ℕ → A) → List ℕ → List A → List A
on_top f [] sent = sent
on_top f (p ∷ ps) sent = on_top f ps (f p ∷ sent)

-- The timers of `order`, which are those of the heap, each as often, have fired in that order: the
-- heap is empty, each of them has fired once more and is done, each has sent its message, and the
-- other timers, the pool, the callbacks and the semaphore are as before.
pub record IsDrained (w : World) (order : List ℕ) (w' : World) : Type 0 where
  pub none_left : w'.min_heap.number_of_timers_being_managed ≡ 0
  pub all_of_them : (p : ℕ) → occurrences p order ≡ held w p
  pub fired : (p : ℕ) → 0 < held w p → w'.timers p ≡ finish (w.timers p)
  pub others : (p : ℕ) → held w p ≡ 0 → w'.timers p ≡ w.timers p
  pub sent : w'.sent ≡ on_top (message_of w) order w.sent
  pub counted : length order ≡ w.min_heap.number_of_timers_being_managed
  pub semaphore : w'.semaphore ≡ w.semaphore
  pub pool : w'.pool ≡ w.pool
  pub callbacks : w'.callbacks ≡ w.callbacks
  pub triggered : w'.triggered ≡ w.triggered

-- One round.
module _ {w : World} (v : IsSystem w) (some_left : 0 < w.min_heap.number_of_timers_being_managed)
    (firing : (p : ℕ) → 0 < held w p → IsFiring w p) {n : ℕ} (room : AllHaveRoom w (suc n)) where
  abbrev top : ℕ
  top = w.min_heap.heap 0

  top_held : 0 < held w top
  top_held = count_pos top w.min_heap.heap 0 _ some_left refl

  abbrev t : Timer
  t = (firing top top_held).timer

  top-IsObject : IsObject w.pool top t
  top-IsObject = subst (IsObjectOrNone w.pool top) (firing top top_held).object (v.objects top)

  abbrev index : ℕ
  index = top-IsObject.index

  top-IsDue : IsDue w index t
  top-IsDue = record {
    some_left = some_left;
    fits = v.fits;
    live = v.live;
    object = (firing top top_held).object;
    placed = v.placed;
    inside = top-IsObject.inside;
    top = top-IsObject.location;
    task = top-IsObject.task;
    room = same-HasRoom refl refl (omega arith) (
        subst (λ queue. HasRoom w.queues w.sent queue (suc n))
          (ap task_of (firing top top_held).object) (room top top_held));
    active = (firing top top_held).active;
    due = (firing top top_held).due;
  }

  index_lem : get_index_from_memory_location w.pool top ≡ index
  index_lem =
      subst (λ p. get_index_from_memory_location w.pool p ≡ index) (sym top-IsObject.location)
        (index-location v.placed index top-IsObject.inside)

  module _ (w' : World) (f : IsFired w index t w') where
    held_less : (p : ℕ) → held w' p + one_if_eq top p ≡ held w p
    held_less p = f.taken_out.items p

    held_twice : (p : ℕ) → p ≡ top → 0 < held w' p → ⊥
    held_twice p e h = ground (arith, held_less p, v.once p)

    still_held : (p : ℕ) → 0 < held w' p → (0 < held w p) × (p ≢ top)
    still_held p h = (omega (arith, held_less p), λ e. held_twice p e h)

    top_finished : w'.timers top ≡ finish (w.timers top)
    top_finished = f.timer ∙ ap finish (sym (firing top top_held).object)

    still-IsFiring : IsMonotone w.clock → (p : ℕ) → 0 < held w' p → IsFiring w' p
    still-IsFiring monotone p h =
        let (before, other) = still_held p h in
        let fp = firing p before in
        record {
          timer = fp.timer;
          object = f.others p other ∙ fp.object;
          active = fp.active;
          due =
              subst (λ c. fp.timer.when_to_fire ≤ reading c 0) (sym f.clock)
                (omega (arith, fp.due, monotone 0));
        }

    same_task : (p : ℕ) → task_of (w'.timers p) ≡ task_of (w.timers p)
    same_task p = elim (Bool-cases (p == top)) [
      | inl e ↦
          let same : p ≡ top = ground arith in
          subst (λ q. task_of (w'.timers q) ≡ task_of (w.timers q)) (sym same)
            (ap task_of f.timer ∙ sym (ap task_of (firing top top_held).object))
      | inr e ↦ ap task_of (f.others p (ground arith))
    ]

    still-AllHaveRoom : AllHaveRoom w' n
    still-AllHaveRoom p h =
        subst (λ queue. HasRoom w'.queues w'.sent queue n) (sym (same_task p))
          (sent-HasRoom _ f.queues f.sent (room p (still_held p h).0))

    same_message : message_of w' ≡ message_of w
    same_message = λ i p. (
      same_task p i,
      serialize_to_char_buf (message (get_index_from_memory_location (f.pool i) p)) (zeros 16),
    )

    message_sent : w'.sent ≡ message_of w top ∷ w.sent
    message_sent = f.sent ∙ (λ i.
        (
          task_of (sym (firing top top_held).object i),
          serialize_to_char_buf (message (sym index_lem i)) (zeros 16),
        )
        ∷ w.sent)

    not_top : (p : ℕ) → held w p ≡ 0 → p ≢ top
    not_top p h e = ground (arith, held_less p)

    fired_in_the_end :
        {order : List ℕ} {w'' : World}
        → IsDrained w' order w''
        → (p : ℕ) → 0 < held w p
        → w''.timers p ≡ finish (w.timers p)
    fired_in_the_end {w'' = w''} d p h = elim (Bool-cases (p == top)) [
      | inl e ↦
          let same : p ≡ top = ground arith in
          d.others p (ground (arith, held_less p, v.once p))
          ∙ subst (λ q. w'.timers q ≡ finish (w.timers q)) (sym same) top_finished
      | inr e ↦ d.fired p (ground (arith, held_less p)) ∙ ap finish (f.others p (ground arith))
    ]

    drained :
        {order : List ℕ} {w'' : World} → IsDrained w' order w'' → IsDrained w (top ∷ order) w''
    drained {order} {w''} d = record {
      none_left = d.none_left;
      all_of_them = λ p. omega (arith, d.all_of_them p, held_less p);
      fired = λ p h. fired_in_the_end d p h;
      others = λ p h. d.others p (omega (arith, held_less p)) ∙ f.others p (not_top p h);
      sent = d.sent ∙ (λ i. on_top (same_message i) order (message_sent i));
      counted = omega (arith, d.counted, f.taken_out.shrunk);
      semaphore = d.semaphore ∙ f.semaphore;
      pool = d.pool ∙ f.pool;
      callbacks = d.callbacks ∙ f.callbacks;
      triggered = d.triggered ∙ f.triggered;
    }

pub none_held : (w : World) (p : ℕ) → w.min_heap.number_of_timers_being_managed ≡ 0 → held w p ≡ 0
unfolding count
none_held w p number = ap (count p w.min_heap.heap) number

none_left-IsDrained : (w : World) → w.min_heap.number_of_timers_being_managed ≡ 0 → IsDrained w [] w
none_left-IsDrained w number = record {
  none_left = number;
  all_of_them = λ p. sym (none_held w p number);
  fired = λ p h. absurd (omega (arith, none_held w p number));
  others = λ p h. refl;
  sent = refl;
  counted = omega (arith, number);
  semaphore = refl;
  pool = refl;
  callbacks = refl;
  triggered = refl;
}

-- When every timer in the heap, each there once, is active and due, the semaphore is free, the
-- clock does not go back, and the queues of their tasks have room for as many messages as there are
-- timers, then as many rounds of TimerTask as there are timers return with an empty heap, and each
-- of the timers has fired exactly once and sent its message, in some order.
pub rounds-IsDrained :
    (n : ℕ) (w : World)
    → IsSystem w
    → w.min_heap.number_of_timers_being_managed ≡ n
    → ((p : ℕ) → 0 < held w p → IsFiring w p)
    → IsMonotone w.clock
    → AllHaveRoom w n
    → Returns (λ (_, w'). (order : List ℕ) × IsDrained w order w') (rounds n w)
unfolding rounds
rounds-IsDrained zero w v number firing monotone room = returns ([], none_left-IsDrained w number)
rounds-IsDrained (suc n) w v number firing monotone room =
    let some_left : 0 < w.min_heap.number_of_timers_being_managed = omega (arith, number) in
    Returns-bind (round-IsFired (top-IsDue v some_left firing room)) λ (_, w') f.
      Returns-map
        (rounds-IsDrained n w' (fired-IsSystem v (top-IsDue v some_left firing room).object f)
          (omega (arith, f.taken_out.shrunk, number))
          (still-IsFiring v some_left firing room w' f monotone)
          (subst IsMonotone (sym f.clock) (λ k. monotone (suc k)))
          (still-AllHaveRoom v some_left firing room w' f))
        λ _ (order, d). (w.min_heap.heap 0 ∷ order, drained v some_left firing room w' f d)
