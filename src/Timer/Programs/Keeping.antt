-- ===== src/Timer/Programs/Keeping.antt =====
-- platform/Timer.cpp: between `wait ()` and `post ()` no step of a method touches the semaphore.
use timer_and_callback.Base.{
  ltb, ℕ, ◌≡◌, refl, Bool, true, false, Option, some, none, ◌==◌, if◌then◌else◌, Run, ok, fault,
  IfReturns, IfReturns-any, IfReturns-bind, IfReturns-if,
}
use timer_and_callback.Types.{Result}
use timer_and_callback.Pool.{null}
use timer_and_callback.MinHeap.{TimerTaskShared, remove_from_heap}
use timer_and_callback.World.{
  TimerState, Timer, World, M, pure, undefined, rand, convert_absolute_time_since_epoch_to_relative,
  load, store, on_heap, get_current_time_in_msec,
  convert_timer_timeout_to_absolute_time_since_epoch, delete_callback,
}
use timer_and_callback.Timer.{is_active}
use timer_and_callback.Timer.Programs.{Program, done, step, then_do}
use timer_and_callback.Timer.Programs.Stopping.{
  set_state_steps, take_out_steps, cancel_steps, reschedule_steps, restart_steps,
  change_firing_time_steps,
}
use timer_and_callback.Timer.Programs.Scheduling.{
  relative, schedule_fuzzy_steps, schedule_plain_steps, schedule_end_steps, schedule_steps,
}
use timer_and_callback.Timer.Programs.Methods.{
  scheduling, Method, stopping, cancelling, restarting, changing_firing_time, steps,
}

-- A step leaves the semaphore as it is.
abbrev pub Keeps : {A : Type 0} → M A → Type 0
Keeps m = (w : World) → IfReturns (λ (a, w'). w'.semaphore ≡ w.semaphore) (m w)

abbrev pub KeepsAll : Program → Type 0
KeepsAll done = Unit
KeepsAll (step m next) = Keeps m × ((a : _) → KeepsAll (next a))

KeepsAll-then_do : (p q : Program) → KeepsAll p → KeepsAll q → KeepsAll (then_do p q)
KeepsAll-then_do done q v v' = v'
KeepsAll-then_do (step m next) q (keeps, rest) v' =
    (keeps, λ a. KeepsAll-then_do (next a) q (rest a) v')

KeepsAll-if :
    (test : Bool) (p q : Program) → KeepsAll p → KeepsAll q → KeepsAll (if test then p else q)
KeepsAll-if true p q v v' = v
KeepsAll-if false p q v v' = v'

loaded :
    (o : Option Timer) (w : World)
    → IfReturns
        (λ (a, w'). w'.semaphore ≡ w.semaphore)
        (elim o [ some t ↦ ok (t, w) | none ↦ fault ])
loaded (some t) w = record { holds = refl }
loaded none w = record { holds = tt }

load-Keeps : (this : ℕ) → Keeps (load this)
unfolding load
load-Keeps this w = loaded (w.timers this) w

store-Keeps : (this : ℕ) (t : Timer) → Keeps (store this t)
unfolding store
store-Keeps this t w = record { holds = refl }

on_heap-Keeps :
    (operation : (ℕ → Option ℕ) → TimerTaskShared → Run (Result × TimerTaskShared))
    → Keeps (on_heap operation)
unfolding on_heap
on_heap-Keeps operation w =
    IfReturns-bind (operation _ w.min_heap) (IfReturns-any (operation _ w.min_heap))
      λ (code, heap) v. record { holds = refl }

clock-Keeps : (timeout : ℕ) → Keeps (convert_timer_timeout_to_absolute_time_since_epoch timeout)
unfolding convert_timer_timeout_to_absolute_time_since_epoch get_current_time_in_msec
clock-Keeps timeout w = record { holds = refl }

delete_callback-Keeps : (p : ℕ) → Keeps (delete_callback p)
unfolding delete_callback
delete_callback-Keeps p w =
    IfReturns-if (w.callbacks p) (record { holds = refl }) (record { holds = tt })

set_state_steps-KeepsAll : (this : ℕ) (state : TimerState) → KeepsAll (set_state_steps this state)
unfolding set_state_steps
set_state_steps-KeepsAll this state = (load-Keeps this, λ t. (store-Keeps this _, λ u. tt))

take_out_steps-KeepsAll : (this : ℕ) → KeepsAll (take_out_steps this)
unfolding take_out_steps
take_out_steps-KeepsAll this =
    KeepsAll-then_do (set_state_steps this TimerState.idle)
      (step (on_heap λ f s. remove_from_heap f s this) λ r. done)
      (set_state_steps-KeepsAll this TimerState.idle) (on_heap-Keeps _, λ r. tt)

reschedule_steps-KeepsAll : (this timeout : ℕ) → KeepsAll (reschedule_steps this timeout)
unfolding reschedule_steps
reschedule_steps-KeepsAll this timeout = (
  clock-Keeps timeout,
  λ when_to_fire. (load-Keeps this, λ t. (store-Keeps this _, λ u. (on_heap-Keeps _, λ r. tt))),
)

relative-Keeps : (time : ℕ) (is_absolute : Bool) → Keeps (relative time is_absolute)
unfolding convert_absolute_time_since_epoch_to_relative get_current_time_in_msec
relative-Keeps time true w = record { holds = refl }
relative-Keeps time false w = record { holds = refl }

rand-Keeps : Keeps rand
unfolding rand
rand-Keeps w = record { holds = refl }

choice-Keeps : (test : Bool) (value : ℕ) → Keeps (if test then undefined else pure value)
choice-Keeps true value w = record { holds = tt }
choice-Keeps false value w = record { holds = refl }

schedule_fuzzy_steps-KeepsAll :
    (this first : ℕ) (first_abs : Bool) (timeout : ℕ) (timeout_abs : Bool)
    → KeepsAll (schedule_fuzzy_steps this first first_abs timeout timeout_abs)
unfolding schedule_fuzzy_steps
schedule_fuzzy_steps-KeepsAll this first first_abs timeout timeout_abs = (
  relative-Keeps first first_abs,
  λ x1. (
    relative-Keeps timeout timeout_abs,
    λ x2. KeepsAll-if (ltb x2 x1) done _ tt (
      rand-Keeps,
      λ r. (
        choice-Keeps _ _,
        λ random_timeout. (
          clock-Keeps random_timeout,
          λ when_to_fire. (load-Keeps this, λ t. (store-Keeps this _, λ u. tt)),
        ),
      ),
    ),
  ),
)

schedule_plain_steps-KeepsAll :
    (this first : ℕ) (first_abs : Bool) → KeepsAll (schedule_plain_steps this first first_abs)
unfolding schedule_plain_steps
schedule_plain_steps-KeepsAll this first true =
    (load-Keeps this, λ t. (store-Keeps this _, λ u. tt))
schedule_plain_steps-KeepsAll this first false = (
  load-Keeps this,
  λ t. (
    store-Keeps this _,
    λ u. (
      clock-Keeps first,
      λ when_to_fire. (load-Keeps this, λ t'. (store-Keeps this _, λ u'. tt)),
    ),
  ),
)

schedule_end_steps-KeepsAll :
    (this timeout : ℕ) (timeout_abs : Bool) → KeepsAll (schedule_end_steps this timeout timeout_abs)
unfolding schedule_end_steps
schedule_end_steps-KeepsAll this timeout timeout_abs = (
  relative-Keeps timeout timeout_abs,
  λ new_timeout. (load-Keeps this, λ t. (store-Keeps this _, λ u. (on_heap-Keeps _, λ r. tt))),
)

-- A method's steps.
pub steps-KeepsAll : (method : Method) → KeepsAll (steps method)
unfolding steps cancel_steps restart_steps change_firing_time_steps schedule_steps
steps-KeepsAll (stopping this) = take_out_steps-KeepsAll this
steps-KeepsAll (cancelling this) = (
  load-Keeps this,
  λ t.
      KeepsAll-then_do (if t.p_cb == null then done else _) (set_state_steps this TimerState.idle)
        (KeepsAll-if (t.p_cb == null) done _ tt
          (delete_callback-Keeps t.p_cb, λ u. (store-Keeps this _, λ u'. tt)))
        (set_state_steps-KeepsAll this TimerState.idle),
)
steps-KeepsAll (restarting this) = (
  load-Keeps this,
  λ t.
      KeepsAll-then_do (if is_active t.state then take_out_steps this else done)
        (reschedule_steps this t.timeout)
        (KeepsAll-if (is_active t.state) (take_out_steps this) done (take_out_steps-KeepsAll this)
          tt)
        (reschedule_steps-KeepsAll this t.timeout),
)
steps-KeepsAll (changing_firing_time this new_timeout) =
    (load-Keeps this, λ t. (store-Keeps this _, λ u. reschedule_steps-KeepsAll this new_timeout))
steps-KeepsAll (scheduling this p_cb first first_abs timeout timeout_abs type how_many fuzzy) = (
  load-Keeps this,
  λ t. (
    store-Keeps this _,
    λ u.
        KeepsAll-then_do
          (if fuzzy
            then schedule_fuzzy_steps this first first_abs timeout timeout_abs
            else schedule_plain_steps this first first_abs)
          (schedule_end_steps this timeout timeout_abs)
          (KeepsAll-if fuzzy (schedule_fuzzy_steps this first first_abs timeout timeout_abs)
            (schedule_plain_steps this first first_abs)
            (schedule_fuzzy_steps-KeepsAll this first first_abs timeout timeout_abs)
            (schedule_plain_steps-KeepsAll this first first_abs))
          (schedule_end_steps-KeepsAll this timeout timeout_abs),
  ),
)
