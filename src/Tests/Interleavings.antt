-- ===== src/Tests/Interleavings.antt =====
-- platform/Timer.cpp: two tasks that cancel the same timer, step by step.
use timer_and_callback.Base.{
  ℕ, ◌≡◌, refl, false, inl, inr, Bool-cases, List, [], ◌∷◌, ◌++◌, ◌==◌, ok,
}
use timer_and_callback.World.{wait, post, load, store, delete_callback}
use timer_and_callback.Timer.Programs.Stopping.{cancel_steps, set_state_steps}
use timer_and_callback.Timer.Programs.Methods.{Method, cancelling, steps}
use timer_and_callback.Timer.Programs.Clients.{
  Tasks, enters, proceeds, leaves, Steps, none_yet, and_then, perform_all, calls_of,
}
use timer_and_callback.Timer.Programs.Serial.{is_inside, pending}
use timer_and_callback.Timer.Programs.Interleaving.{at_start, interleaved-serial}
use timer_and_callback.Tests.Histories.{world}

-- Every task is to cancel the timer.
abbrev calls : ℕ → List Method
calls i = cancelling 4236 ∷ []

-- Task 1 has taken the semaphore, made its five steps and given the semaphore back.
abbrev finished : (c : Tasks) × Steps (at_start world calls) c
unfolding wait post load store delete_callback steps cancel_steps set_state_steps
finished = (
  _,
  and_then
      (and_then
        (and_then
          (and_then
            (and_then (and_then (and_then none_yet (enters 1 refl refl)) (proceeds 1 refl refl))
              (proceeds 1 refl refl))
            (proceeds 1 refl refl))
          (proceeds 1 refl refl))
        (proceeds 1 refl refl))
      (leaves 1 refl refl),
)

finished_outside : (i : ℕ) → is_inside (finished.0.tasks i) ≡ false
unfolding wait post load store delete_callback steps cancel_steps set_state_steps
finished_outside i = elim (Bool-cases (1 == i)) [ inl e ↦ rw e refl | inr e ↦ rw e refl ]

interleaved-serial_example :
    (history : List (ℕ × Method)) × (perform_all history world ≡ ok (tt, finished.0.world))
    × ((i : ℕ) → calls i ≡ calls_of i history ++ pending (finished.0.tasks i))
interleaved-serial_example = interleaved-serial world calls refl finished.1 finished_outside
