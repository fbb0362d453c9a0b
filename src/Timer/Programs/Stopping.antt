-- ===== src/Timer/Programs/Stopping.antt =====
-- platform/Timer.cpp: stop, cancel, restart and changeFiringTime as steps between `wait ()` and
-- `post ()`.
use timer_and_callback.Base.{
  ℕ, ◌≡◌, sym, ap, ◌∙◌, Bool, true, false, ◌==◌, if◌then◌else◌, ◌>>=◌ as and_then,
}
use timer_and_callback.MinHeap.{add_to_heap, remove_from_heap}
use timer_and_callback.Pool.{null}
use timer_and_callback.World.{
  TimerState, Timer, World, M, pure, ◌>>=◌, ◌>>◌, wait, post, load, store, on_heap,
  convert_timer_timeout_to_absolute_time_since_epoch, delete_callback,
}
use timer_and_callback.Timer.{
  set_state, is_active, reschedule, restart, stop, cancel, change_firing_time,
}
use timer_and_callback.Timer.Programs.{
  Program, done, step, run, then_do, and_then_assoc, and_then_same, run-then_do, run-later,
}

unfoldable pub set_state_steps : ℕ → TimerState → Program
set_state_steps this state =
    step (load this) λ t. step (store this (record t { state = state })) λ _. done

unfoldable pub take_out_steps : ℕ → Program
unfolding set_state_steps
take_out_steps this =
    then_do (set_state_steps this TimerState.idle)
      (step (on_heap λ f s. remove_from_heap f s this) λ _. done)

unfoldable pub cancel_steps : ℕ → Program
unfolding set_state_steps
cancel_steps this = step (load this) λ t.
    then_do
      (if t.p_cb == null
        then done
        else step (delete_callback t.p_cb)
            λ _. step (store this (record t { p_cb = null })) λ _. done)
      (set_state_steps this TimerState.idle)

unfoldable pub reschedule_steps : ℕ → ℕ → Program
reschedule_steps this timeout =
    step (convert_timer_timeout_to_absolute_time_since_epoch timeout) λ when_to_fire.
      step (load this) λ t.
        step (store this (record t { when_to_fire = when_to_fire; state = TimerState.active }))
          λ _. step (on_heap λ f s. add_to_heap f s this) λ _. done

unfoldable pub restart_steps : ℕ → Program
unfolding take_out_steps reschedule_steps is_active
restart_steps this = step (load this) λ t.
    then_do (if is_active t.state then take_out_steps this else done)
      (reschedule_steps this t.timeout)

unfoldable pub change_firing_time_steps : ℕ → ℕ → Program
unfolding reschedule_steps
change_firing_time_steps this new_timeout = step (load this) λ t.
    step (store this (record t { timeout = new_timeout })) λ _. reschedule_steps this new_timeout

pub stop-run : (this : ℕ) (w : World) → stop this w ≡ (wait >> run (take_out_steps this) post) w
unfolding stop take_out_steps set_state_steps
stop-run this w = and_then_same (wait w) λ (u, w').
    and_then_assoc (load this w') (λ (t, w1). store this (record t { state = TimerState.idle }) w1)
      _

reschedule-run :
    (this timeout : ℕ) (last : M (Unit {0})) (w : World)
    → (reschedule this timeout >> last) w ≡ run (reschedule_steps this timeout) last w
unfolding reschedule reschedule_steps
reschedule-run this timeout last w = run-later (reschedule_steps this timeout) (pure tt) last w

pub change_firing_time-run :
    (this new_timeout : ℕ) (w : World)
    → change_firing_time this new_timeout w
      ≡ (wait >> run (change_firing_time_steps this new_timeout) post) w
unfolding change_firing_time change_firing_time_steps
change_firing_time-run this new_timeout w = and_then_same (wait w) λ (u, w').
    and_then_same (load this w') λ (t, w1).
      and_then_same (store this (record t { timeout = new_timeout }) w1)
        λ (u', w2). reschedule-run this new_timeout post w2

drop_callback : ℕ → Timer → M (Unit {0})
drop_callback this t = do delete_callback t.p_cb; store this (record t { p_cb = null })

drop_steps : ℕ → Timer → Program
drop_steps this t =
    step (delete_callback t.p_cb) λ _. step (store this (record t { p_cb = null })) λ _. done

set_state-run :
    (this : ℕ) (state : TimerState) (last : M (Unit {0})) (w : World)
    → (set_state this state >> last) w ≡ run (set_state_steps this state) last w
unfolding set_state_steps
set_state-run this state last w =
    and_then_assoc (load this w) (λ (t, w1). store this (record t { state = state }) w1) _

cancel_body-run :
    (this : ℕ) (t : Timer) (no_cb : Bool) (w : World)
    → ((if no_cb then pure tt else drop_callback this t)
          >> (set_state this TimerState.idle >> post))
        w
      ≡ run
          (then_do
            (if no_cb then done else drop_steps this t)
            (set_state_steps this TimerState.idle))
          post
          w
unfolding drop_callback drop_steps
cancel_body-run this t true w = set_state-run this TimerState.idle post w
cancel_body-run this t false w =
    and_then_assoc (delete_callback t.p_cb w) (λ (u, w'). store this (record t { p_cb = null }) w')
      _
    ∙ and_then_same (delete_callback t.p_cb w) λ (u, w').
      and_then_same (store this (record t { p_cb = null }) w')
        λ (u', w''). set_state-run this TimerState.idle post w''

pub cancel-run : (this : ℕ) (w : World) → cancel this w ≡ (wait >> run (cancel_steps this) post) w
unfolding cancel cancel_steps drop_callback drop_steps
cancel-run this w =
    and_then_same (wait w) λ (u, w').
      and_then_same (load this w') λ (t, w''). cancel_body-run this t (t.p_cb == null) w''

take_out : ℕ → M (Unit {0})
take_out this = do
  set_state this TimerState.idle
  _ ← on_heap λ f s. remove_from_heap f s this
  pure tt

take_out-run : (this : ℕ) (w : World) → take_out this w ≡ run (take_out_steps this) (pure tt) w
unfolding take_out take_out_steps set_state_steps
take_out-run this w = set_state-run this TimerState.idle _ w

restart_body-run :
    (this timeout : ℕ) (active : Bool) (w : World)
    → ((if active then take_out this else pure tt) >> (reschedule this timeout >> post)) w
      ≡ run
          (then_do (if active then take_out_steps this else done) (reschedule_steps this timeout))
          post
          w
restart_body-run this timeout false w = reschedule-run this timeout post w
restart_body-run this timeout true w =
    ap (λ r. and_then r λ (u, w'). (reschedule this timeout >> post) w') (take_out-run this w)
    ∙ run-later (take_out_steps this) (pure tt) (reschedule this timeout >> post) w
    ∙ ap (λ last. run (take_out_steps this) last w) (λ i w'. reschedule-run this timeout post w' i)
    ∙ sym (run-then_do (take_out_steps this) (reschedule_steps this timeout) post w)

pub restart-run :
    (this : ℕ) (w : World) → restart this w ≡ (wait >> run (restart_steps this) post) w
unfolding restart restart_steps take_out
restart-run this w = and_then_same (wait w) λ (u, w').
    and_then_same (load this w') λ (t, w''). restart_body-run this t.timeout (is_active t.state) w''
