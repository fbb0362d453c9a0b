-- ===== src/TimerTask/Invariant.antt =====
-- platform/Timer.cpp and TimerTask.cpp together: what every command keeps, and that it returns.
use timer_and_callback.Base.{
  ℕ, ◌≤◌, ◌<◌, ◌≡◌, ◌≢◌, refl, ◌⊎◌, inl, inr, some, true, Bool-cases, ◌==◌, leb, ◌||◌, Run, ok,
  Returns, returns, List, Returns-map, Returns-bind, Returns-at, count, arith,
}
use timer_and_callback.Base.Slots.{count_pos}
use timer_and_callback.Types.{Result}
use timer_and_callback.Pool.{null}
use timer_and_callback.World.{TimerType, TimerState, Timer, World, ◌>>=◌}
use timer_and_callback.Timer.Times.{later}
use timer_and_callback.Timer.Ready.{IsReady, live_of}
use timer_and_callback.Timer.Schedule.{
  IsScheduled, CanRun, restart-IsScheduled, schedule_one_shot_at_timeout-IsScheduled,
  schedule_periodic_at_timeout-IsScheduled,
}
use timer_and_callback.Timer.Stop.{IsInHeap, stop-IsStopped}
use timer_and_callback.Timer.Callback.{
  cancel-IsCancelled, after_trigger, deleted, process_a_callback-error, process_a_callback-one_shot,
  process_a_callback-again, process_a_callback-last,
}
use timer_and_callback.Message.{PosixMessageQueueObject}
use timer_and_callback.TimerTask.{receive, deliver}
use timer_and_callback.Timer.{get_timer_at_index, process_a_callback}
use timer_and_callback.TimerTask.System.{
  Command, periodic_at_timeout, one_shot_at_timeout, restarting, stopping, cancelling, receiving,
  timer_task_round, perform, CanSchedule, CanStop, Allowed, Reached, start, after, IsSystem,
}
use timer_and_callback.Timer.Restart.{restart-IsRestarted}
use timer_and_callback.TimerTask.Kept.{
  restarted-IsSystem, later-IsSystem, scheduled-IsSystem, stopped-IsSystem, cancelled-IsSystem,
  deleted-IsSystem,
}
use timer_and_callback.TimerTask.Rounds.{round-IsSystem}

more_or_last : (n m : ℕ) → ((n ≤ m) ⊎ (m ≡ 0)) ⊎ ((0 < m) × (m < n))
more_or_last n m = elim (Bool-cases (leb n m || m == 0)) [
  | inl e ↦ inl (ground arith)
  | inr e ↦ inr (ground arith, ground arith)
]

module _ {w : World} (v : IsSystem w) where
  scheduled :
      {this : ℕ} {t t' : Timer} {call : Run (Unit {0} × World)}
      → CanSchedule w this t
      → t'.cb_contex_t_id ≡ t.cb_contex_t_id
      → Returns (λ (_, w'). IsScheduled (later w) this t' w') call
      → Returns (λ (_, w'). IsSystem w') call
  scheduled can same_task call =
      Returns-map call λ r s. scheduled-IsSystem (later-IsSystem v) can same_task s

  can_run : {this : ℕ} {t : Timer} → w.timers this ≡ some t → CanRun w this t
  can_run object = record { unlocked = omega (arith, v.unlocked); object = object }

  is_ready : {this : ℕ} {t : Timer} → CanSchedule w this t → IsReady w this
  is_ready (object, room, absent) = record { room = room; live = v.live; object = live_of w object }

  is_in_heap : {this index : ℕ} {t : Timer} → CanStop w this t index → IsInHeap w this
  is_in_heap {index = index} (object, held, place) = record {
    fits = v.fits;
    live = v.live;
    index = index;
    held = held;
    place = place;
  }

  held_once :
      {this : ℕ} {t : Timer} (index : ℕ)
      → CanStop w this t index
      → count this w.min_heap.heap w.min_heap.number_of_timers_being_managed ≡ 1
  held_once {this} index (object, held, place) =
      let inside : index < w.min_heap.number_of_timers_being_managed = ground (arith, place) in
      ground (arith, v.once this, count_pos this w.min_heap.heap index _ inside held)

  triggered-IsSystem : (p_cb : ℕ) → IsSystem (after_trigger w p_cb)
  triggered-IsSystem p_cb = record {
    unlocked = v.unlocked;
    fits = v.fits;
    live = v.live;
    once = v.once;
    placed = v.placed;
    objects = v.objects;
  }

  module _ {this : ℕ} {t : Timer} (done : t.state ≡ TimerState.done) (some_cb : t.p_cb ≢ null)
      (there : w.callbacks t.p_cb ≡ true) (can : CanSchedule w this t) where
    deleted_after :
        process_a_callback this w ≡ ok (Result.ok, deleted (after_trigger w t.p_cb) this t.p_cb)
        → Returns (λ (_, w'). IsSystem w') (process_a_callback this w)
    deleted_after e =
        rw e (returns (deleted-IsSystem (triggered-IsSystem t.p_cb) this can.2 t.p_cb))

    periodic_received :
        t.type ≡ TimerType.periodic → Returns (λ (_, w'). IsSystem w') (process_a_callback this w)
    periodic_received kind = elim (more_or_last t.number_of_times_fired t.how_many_times_to_fire) [
      | inl more ↦
          Returns-map
            (process_a_callback-again (can_run can.0) some_cb there kind (is_ready can) more)
            λ r (_, s). scheduled-IsSystem (later-IsSystem (triggered-IsSystem t.p_cb)) can refl s
      | inr (some_times, over) ↦
          deleted_after
            (process_a_callback-last (can_run can.0) some_cb there kind done some_times over)
    ]

    received :
        (type : TimerType)
        → t.type ≡ type
        → Returns (λ (_, w'). IsSystem w') (process_a_callback this w)
    received TimerType.one_shot kind =
        deleted_after (process_a_callback-one_shot (can_run can.0) some_cb there kind done)
    received TimerType.periodic kind = periodic_received kind
    received TimerType.invalid kind =
        rw (process_a_callback-error (can_run can.0) (inr kind)) (returns v)

  sent-IsSystem : (sent : List (ℕ × List ℕ)) → IsSystem (record w { sent = sent })
  sent-IsSystem sent = record {
    unlocked = v.unlocked;
    fits = v.fits;
    live = v.live;
    once = v.once;
    placed = v.placed;
    objects = v.objects;
  }

module _ {w : World} (v : IsSystem w) where
  turn-IsSystem :
      (queue : ℕ) (fresh : PosixMessageQueueObject)
      → Allowed w (receiving queue fresh)
      → Returns (λ (_, w'). IsSystem w') (deliver queue fresh w)
  unfolding deliver receive get_timer_at_index
  turn-IsSystem queue fresh (bytes, others, oldest_one, (t, done, some_cb, there, can)) =
      rw (deliver, oldest_one, ◌>>=◌)
        (received (sent-IsSystem v others) done some_cb there can t.type refl)

  perform-IsSystem :
      (command : Command) → Allowed w command → Returns (λ (_, w'). IsSystem w') (perform command w)
  unfolding perform
  perform-IsSystem (periodic_at_timeout this p_cb timeout how_many) (t, can) =
      scheduled v can refl (
        schedule_periodic_at_timeout-IsScheduled (can_run v can.0) (is_ready v can) p_cb timeout
          how_many)
  perform-IsSystem (one_shot_at_timeout this p_cb dummy timeout) (t, can) = scheduled v can refl (
      schedule_one_shot_at_timeout-IsScheduled (can_run v can.0) (is_ready v can) p_cb dummy
        timeout)
  perform-IsSystem (restarting this) (t, inl (inactive, can)) =
      scheduled v can refl (restart-IsScheduled (can_run v can.0) (is_ready v can) inactive)
  perform-IsSystem (restarting this) (t, inr (active, (index, can))) =
      Returns-map
        (restart-IsRestarted (can_run v can.0) (is_in_heap v can) (held_once v index can) active)
        λ r s. restarted-IsSystem v can.0 s
  perform-IsSystem (stopping this) (t, index, can) =
      Returns-map (stop-IsStopped (can_run v can.0) (is_in_heap v can))
        λ r s. stopped-IsSystem v can.0 s
  perform-IsSystem (cancelling this) (t, object, some_cb, there) =
      Returns-map (cancel-IsCancelled (can_run v object) some_cb there)
        λ r s. cancelled-IsSystem v object s
  perform-IsSystem (receiving queue fresh) turn =
      Returns-bind (turn-IsSystem queue fresh turn) λ r s. returns s
  perform-IsSystem timer_task_round can = round-IsSystem v can

Reached-IsSystem : {w w' : World} → IsSystem w → Reached w w' → IsSystem w'
Reached-IsSystem v start = v
Reached-IsSystem v (after command before allowed ended) =
    Returns-at (perform-IsSystem (Reached-IsSystem v before) command allowed) ended

-- From a state in which no call is in progress and the heap holds at most 1024 timers, each once,
-- all of them Timer objects of the pool, whatever allowed commands have been carried out, in any
-- order, the next allowed command returns and leaves such a state; a round of TimerTask is allowed
-- unless it has to send a message to a queue without room, or one that has not been opened.
pub reached-Returns :
    {w w' : World} (command : Command)
    → IsSystem w
    → Reached w w'
    → Allowed w' command
    → Returns (λ (_, w''). IsSystem w'') (perform command w')
reached-Returns command v reached allowed =
    perform-IsSystem (Reached-IsSystem v reached) command allowed
