-- ===== src/TimerTask/Full.antt =====
-- platform/TimerTask.cpp and PosixMessageQueue.cpp: a round that cannot send its message.
use timer_and_callback.Base.{
  ℕ, ◌<◌, ◌≤◌, ◌≡◌, ap, ◌∙◌, Option, some, none, true, false, ◌==◌, leb, ltb, List, Run, refl,
  blocked, aborted, arith,
}
use timer_and_callback.Message.{max_tasks}
use timer_and_callback.World.{
  TimerState, Timer, World, ◌>>=◌, load, store, fires, on_heap, get_current_time_in_msec,
}
use timer_and_callback.Timer.{get_index}
use timer_and_callback.Timer.Times.{now, later}
use timer_and_callback.TimerTask.{waiting, send, fire, top_timer, act, look_at_top, round}
use timer_and_callback.TimerTask.Fire.{IsDue, counted, removed_from, same_fires}

-- The queue `queue` has not been opened, or is full.
module _ (queue : ℕ) (buf : List ℕ) (w : World) (task : queue < max_tasks) where
  send-unopened : w.queues queue ≡ none → send queue buf w ≡ aborted
  unfolding send
  send-unopened unopened =
      let one : ltb queue max_tasks ≡ true = ground arith in rw (one, unopened) refl

  send-full :
      (capacity : ℕ)
      → w.queues queue ≡ some capacity
      → capacity ≤ waiting queue w.sent
      → send queue buf w ≡ blocked
  unfolding send
  send-full capacity opened full =
      let one : ltb queue max_tasks ≡ true = ground arith in
      let no_room : ltb (waiting queue w.sent) capacity ≡ false = ground arith in
      rw (one, opened, no_room) refl

-- But for the queues, the timer `t` at the top would fire.
module _ (w : World) {index : ℕ} {t : Timer} (queues : ℕ → Option ℕ)
    (v : IsDue (record w { queues = queues }) index t) where
  -- What becomes of the send becomes of the round.
  fire-sends :
      (outcome : Run (Unit {0} × World))
      → ((buf : List ℕ) (w' : World)
          → w'.queues ≡ w.queues
          → w'.sent ≡ w.sent
          → send t.cb_contex_t_id buf w' ≡ outcome)
      → fire (w.min_heap.heap 0) (later w) ≡ outcome
  unfolding fire load store get_index on_heap
  fire-sends outcome sends =
      let r = removed_from v (fires (counted v)) (same_fires v) in
      let same : (w.min_heap.heap 0 == w.min_heap.heap 0) ≡ true = ground arith in
      rw (◌>>=◌, get_index, load, v.object, r.ended, same, ◌>>=◌, load, same) (sends _ _ refl refl)

  act_active :
      (s : TimerState)
      → s ≡ TimerState.active
      → act s (w.min_heap.heap 0) t ≡ fire (w.min_heap.heap 0)
  unfolding act
  act_active s e = rw e refl

  round-sends :
      (outcome : Run (Unit {0} × World))
      → ((buf : List ℕ) (w' : World)
          → w'.queues ≡ w.queues
          → w'.sent ≡ w.sent
          → send t.cb_contex_t_id buf w' ≡ outcome)
      → round w ≡ outcome
  unfolding round look_at_top top_timer load get_current_time_in_msec
  round-sends outcome sends =
      let more : (w.min_heap.number_of_timers_being_managed == 0) ≡ false =
        ground (arith, v.some_left) in
      let past : leb t.when_to_fire (now w) ≡ true = ground (arith, v.due) in
      rw (more, ◌>>=◌, load, v.object, past, act_active t.state v.active) (fire-sends outcome sends)

-- Why a message cannot be sent to a queue, and what becomes of the call.
pub data CannotSend (w : World) (queue : ℕ) : Run (Unit {0} × World) → Type 0 where
  unopened : w.queues queue ≡ none → CannotSend w queue aborted
  full :
      (capacity : ℕ)
      → w.queues queue ≡ some capacity
      → capacity ≤ waiting queue w.sent
      → CannotSend w queue blocked

-- A timer at the top of the heap is active and due, and would fire if the queues were as in
-- `queues`, where that of its task has room. If that queue has not been opened, the round ends in a
-- failed assert; if it is open and full, the round waits.
pub round-unsent :
    (w : World) (index : ℕ) (t : Timer) (queues : ℕ → Option ℕ) (outcome : Run (Unit {0} × World))
    → IsDue (record w { queues = queues }) index t
    → CannotSend w t.cb_contex_t_id outcome
    → round w ≡ outcome
round-unsent w index t queues _ v (unopened none_there) =
    round-sends w queues v aborted λ buf w' same unsent.
      send-unopened t.cb_contex_t_id buf w' v.task (ap (λ q. q t.cb_contex_t_id) same ∙ none_there)
round-unsent w index t queues _ v (full capacity opened no_room) =
    round-sends w queues v blocked λ buf w' same unsent.
      send-full t.cb_contex_t_id buf w' v.task capacity (ap (λ q. q t.cb_contex_t_id) same ∙ opened)
        (omega (arith, no_room, ap (waiting t.cb_contex_t_id) unsent))
