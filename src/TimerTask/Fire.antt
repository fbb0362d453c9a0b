-- ===== src/TimerTask/Fire.antt =====
-- platform/TimerTask.cpp: a round in which the timer at the top of the heap is due.
use mathlib.Core.Path.{subst}
use timer_and_callback.Base.{
  suc, update, ◌≢◌, ℕ, ◌+◌, ◌*◌, ◌≤◌, ◌<◌, ◌≡◌, refl, ap, sym, ◌∙◌, Bool-cases, inl, inr, Option,
  some, true, false, List, ◌∷◌, ◌==◌, leb, ok, Returns, returns, Returns-bind, Returns-map, arith,
}
use timer_and_callback.Types.{Result, u32, max_number_of_timers}
use timer_and_callback.MinHeap.{remove_from_heap}
use timer_and_callback.MinHeap.Order.{AllLive}
use timer_and_callback.MinHeap.Remove.{Filled}
use timer_and_callback.MinHeap.Removal.{Done, remove_root-Done}
use timer_and_callback.Pool.{get_memory_location_from_index, get_index_from_memory_location}
use timer_and_callback.Pool.Addresses.{IsPlaced, index-location}
use timer_and_callback.Wire.{zeros}
use timer_and_callback.Message.{
  max_tasks, timer_task, PosixMessageQueueObject, serialize_to_char_buf, deserialize_from_char_buf,
}
use timer_and_callback.Message.RoundTrip.{IsMessage, message_round_trip}
use timer_and_callback.World.{
  TimerState, Timer, World, ◌>>=◌, ◌>>◌, load, store, with_timer, fires, on_heap,
  get_current_time_in_msec,
}
use timer_and_callback.Timer.{get_index, get_timer_at_index}
use timer_and_callback.Timer.Times.{now, later}
use timer_and_callback.Timer.Ready.{when_of}
use timer_and_callback.TimerTask.Room.{HasRoom, same-HasRoom, send-HasRoom}
use timer_and_callback.TimerTask.{send, fire, top_timer, act, look_at_top, round}

-- The heap is not empty and leads to Timer objects only, and the one at the top is `t`, the object
-- at the place `index` of the pool, with a task whose queue has room.
pub record IsDue (w : World) (index : ℕ) (t : Timer) : Type 0 where
  pub some_left : 0 < w.min_heap.number_of_timers_being_managed
  pub fits : w.min_heap.number_of_timers_being_managed ≤ max_number_of_timers
  pub live : AllLive (fires w) w.min_heap.heap w.min_heap.number_of_timers_being_managed
  pub object : w.timers (w.min_heap.heap 0) ≡ some t
  pub placed : IsPlaced w.pool
  pub inside : index < w.pool.max_number_of_objects
  pub top : w.min_heap.heap 0 ≡ get_memory_location_from_index w.pool index
  pub task : t.cb_contex_t_id < max_tasks
  pub room : HasRoom w.queues w.sent t.cb_contex_t_id 1
  pub active : t.state ≡ TimerState.active
  pub due : t.when_to_fire ≤ now w

-- The message of the timer at the place `index`.
abbrev pub message : ℕ → PosixMessageQueueObject
message index = record { from = timer_task; event = 0; shm_index = index }

-- What the round leaves.
pub record IsFired (w : World) (index : ℕ) (t : Timer) (w' : World) : Type 0 where
  pub timer :
      w'.timers (w.min_heap.heap 0)
      ≡ some (record t {
        number_of_times_fired = u32 (t.number_of_times_fired + 1);
        state = TimerState.done;
      })
  pub others : (p : ℕ) → p ≢ w.min_heap.heap 0 → w'.timers p ≡ w.timers p
  pub taken_out : Filled (fires w) w.min_heap 0 w'.min_heap
  pub semaphore : w'.semaphore ≡ w.semaphore
  pub pool : w'.pool ≡ w.pool
  pub callbacks : w'.callbacks ≡ w.callbacks
  pub triggered : w'.triggered ≡ w.triggered
  pub clock : w'.clock ≡ (λ k. w.clock (suc k))
  pub queues : w'.queues ≡ w.queues
  pub sent : w'.sent ≡ (t.cb_contex_t_id, serialize_to_char_buf (message index) (zeros 16)) ∷ w.sent

module _ {w : World} {index : ℕ} {t : Timer} (v : IsDue w index t) where
  abbrev top : ℕ
  top = w.min_heap.heap 0

  abbrev pub counted : World
  counted =
      with_timer (later w) top
        (some (record t { number_of_times_fired = u32 (t.number_of_times_fired + 1) }))

  abbrev counted_timer : Timer
  counted_timer = record t { number_of_times_fired = u32 (t.number_of_times_fired + 1) }

  at_top : (p : ℕ) → (top == p) ≡ true → w.timers p ≡ some t
  at_top p e = ground (arith, v.object)

  same_time : (p : ℕ) → fires counted p ≡ fires w p
  same_time p = elim (Bool-cases (top == p)) [
    | inl e ↦
        let new : counted.timers p ≡ some counted_timer = ground arith in
        ap when_of new ∙ sym (ap when_of (at_top p e))
    | inr e ↦ let kept : counted.timers p ≡ w.timers p = ground arith in ap when_of kept
  ]

  pub same_fires : fires counted ≡ fires w
  same_fires = λ i p. same_time p i

  pub removed_from :
      (f : ℕ → Option ℕ)
      → f ≡ fires w
      → Returns (Done (fires w) w.min_heap v.fits v.live 0) (remove_from_heap f w.min_heap top)
  removed_from f e =
      subst
        (λ g.
          Returns (Done (fires w) w.min_heap v.fits v.live 0) (remove_from_heap g w.min_heap top))
        (sym e) (remove_root-Done (fires w) w.min_heap v.fits v.live v.some_left)

  abbrev IsRemoved : Result × World → Type 0
  IsRemoved (code, w') =
      Filled (fires w) w.min_heap 0 w'.min_heap × (w' ≡ record counted { min_heap = w'.min_heap })

  on_heap-IsRemoved : Returns IsRemoved (on_heap (λ f s. remove_from_heap f s top) counted)
  unfolding on_heap
  on_heap-IsRemoved =
      Returns-bind (removed_from (fires counted) same_fires)
        λ r (done, filled). returns (filled, refl)

  send_ok :
      (buf : List ℕ) (w' : World)
      → w'.queues ≡ w.queues
      → w'.sent ≡ w.sent
      → send t.cb_contex_t_id buf w'
        ≡ ok (tt, record w' { sent = (t.cb_contex_t_id, buf) ∷ w'.sent })
  send_ok buf w' same unsent =
      send-HasRoom t.cb_contex_t_id buf w' v.task (same-HasRoom same unsent (omega arith) v.room)

  in_pool : get_index_from_memory_location w.pool top ≡ index
  in_pool =
      subst (λ p. get_index_from_memory_location w.pool p ≡ index) (sym v.top)
        (index-location v.placed index v.inside)

  message-IsMessage : IsMessage (message index)
  message-IsMessage =
      let room : w.pool.max_number_of_objects ≤ w.pool.max_number_of_objects * w.pool.object_size =
        grind (arith, v.placed.sized) in
      record {
        from = omega arith;
        event = omega arith;
        shm_index = omega (arith, v.inside, v.placed.ends, room);
      }

  kept : (p : ℕ) → p ≢ top → counted.timers p ≡ w.timers p
  kept p ne = ground arith

  put_other :
      (w' : World) (t' : Timer) (p : ℕ) → p ≢ top → update w'.timers top (some t') p ≡ w'.timers p
  put_other w' t' p ne = ground arith

  fire-IsFired : Returns (λ (_, w'). IsFired w index t w') (fire top (later w))
  unfolding fire load store get_index
  fire-IsFired =
      rw (◌>>=◌, get_index, load, v.object)
        (Returns-bind on_heap-IsRemoved λ (code, w') (filled, rest).
          let new : counted.timers top ≡ some counted_timer = ground arith in
          let object : w'.timers top ≡ some counted_timer = ap (λ u. u.timers top) rest ∙ new in
          let same : (top == top) ≡ true = ground arith in
          let sends = λ (buf : List ℕ) (c : ℕ → Option Timer).
            send_ok buf (record w' { timers = c }) (ap (λ u. u.queues) rest)
              (ap (λ u. u.sent) rest) in
          rw (◌>>◌, ◌>>=◌, load, object, ◌>>=◌, load, same, sends, in_pool)
            (returns (record {
              timer = ground arith;
              others = λ p ne. put_other w' _ p ne ∙ ap (λ u. u.timers p) rest ∙ kept p ne;
              semaphore = ap (λ u. u.semaphore) rest;
              pool = ap (λ u. u.pool) rest;
              callbacks = ap (λ u. u.callbacks) rest;
              triggered = ap (λ u. u.triggered) rest;
              clock = ap (λ u. u.clock) rest;
              queues = ap (λ u. u.queues) rest;
              taken_out = filled;
              sent =
                  ap
                    (λ u.
                      (t.cb_contex_t_id, serialize_to_char_buf (message index) (zeros 16)) ∷ u.sent)
                    rest;
            })))

  act_active : (s : TimerState) → s ≡ TimerState.active → act s top t ≡ fire top
  unfolding act
  act_active s e = rw e refl

  -- A round in which the timer at the top of the heap is active and due returns: the timer has fired
  -- once more and is done, exactly the top has been taken out of the heap, and one message has been
  -- sent, to the task of the timer.
  pub round-IsFired : Returns (λ (_, w'). IsFired w index t w') (round w)
  unfolding round look_at_top top_timer load get_current_time_in_msec
  round-IsFired =
      let more : (w.min_heap.number_of_timers_being_managed == 0) ≡ false =
        ground (arith, v.some_left) in
      let past : leb t.when_to_fire (now w) ≡ true = ground (arith, v.due) in
      rw (more, ◌>>=◌, load, v.object, past, act_active t.state v.active) fire-IsFired

  pub decoded_location :
      (old : PosixMessageQueueObject)
      → get_memory_location_from_index w.pool
          (deserialize_from_char_buf old
            (serialize_to_char_buf (message index) (zeros 16))).shm_index
        ≡ top
  decoded_location old =
      rw
        (
          message_round_trip (message index) old (zeros 16) message-IsMessage (omega arith),
          sym v.top,
        )
        refl

  -- Such a round sends one message, to the task of the timer that was at the top, whose receiver,
  -- whatever its message object held, decodes it and finds the address of that very timer.
  pub round-receiver :
      (old : PosixMessageQueueObject)
      → Returns
          (λ (_, w').
            (bytes : List ℕ) × (w'.sent ≡ (t.cb_contex_t_id, bytes) ∷ w.sent)
            × (get_timer_at_index (deserialize_from_char_buf old bytes).shm_index w'
                ≡ ok (w.min_heap.heap 0, w')))
          (round w)
  unfolding get_timer_at_index
  round-receiver old = Returns-map round-IsFired λ (_, w') f. (
    serialize_to_char_buf (message index) (zeros 16),
    f.sent,
    ap
          (λ pool. ok (
            get_memory_location_from_index pool
                (deserialize_from_char_buf old
                  (serialize_to_char_buf (message index) (zeros 16))).shm_index,
            w',
          ))
          f.pool
        ∙ ap (λ p. ok (p, w')) (decoded_location old),
  )
