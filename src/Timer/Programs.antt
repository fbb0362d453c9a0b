-- ===== src/Timer/Programs.antt =====
-- platform/Timer.cpp: the methods that take the semaphore, as sequences of single steps between
-- `wait ()` and `post ()`. A step is a read or a write of a Timer object, a reading of the clock,
-- or a call of the heap, of the pool or of the callback object.
pub mod Stopping
pub mod Scheduling
pub mod Methods
pub mod Keeping
pub mod Clients
pub mod Serial
pub mod Interleaving
use timer_and_callback.Base.{
  ℕ, ◌+◌, ◌%◌, ◌≡◌, refl, sym, ap, ◌∙◌, Bool, true, false, Option, some, none, ltb, leb, ◌==◌,
  if◌then◌else◌, Run, ok, fault, blocked, aborted, out_of_fuel, ◌>>=◌ as and_then,
}
use timer_and_callback.Types.{Result, u64, sub64}
use timer_and_callback.MinHeap.{add_to_heap, remove_from_heap}
use timer_and_callback.Pool.{null, get_from_pool, remove_from_pool}
use timer_and_callback.World.{
  TimerType, TimerState, Timer, World, M, pure, ◌>>=◌, ◌>>◌, undefined, wait, post, load, store,
  on_heap, convert_timer_timeout_to_absolute_time_since_epoch,
  convert_absolute_time_since_epoch_to_relative, rand, delete_callback,
}
use timer_and_callback.Timer.{
  set_state, is_active, reschedule, restart, stop, cancel, change_firing_time, operator_delete,
  schedule_plain, schedule_fuzzy, schedule,
}

-- A step, and what follows for each value that it may return.
pub data Program : Type 1 where
  done : Program
  step : {A : Type 0} → M A → (A → Program) → Program

-- The steps in a row, and then a call.
abbrev pub run : Program → M (Unit {0}) → M (Unit {0})
run done last = last
run (step m next) last = m >>= λ a. run (next a) last

abbrev pub then_do : Program → Program → Program
then_do done q = q
then_do (step m next) q = step m λ a. then_do (next a) q

pub and_then_assoc {ℓ ℓ' ℓ''} :
    {A : Type ℓ} {B : Type ℓ'} {C : Type ℓ''} (r : Run A) (f : A → Run B) (g : B → Run C)
    → and_then (and_then r f) g ≡ and_then r (λ a. and_then (f a) g)
and_then_assoc (ok a) f g = refl
and_then_assoc fault f g = refl
and_then_assoc blocked f g = refl
and_then_assoc aborted f g = refl
and_then_assoc out_of_fuel f g = refl

-- Equal calls, one step at a time.
pub and_then_same {ℓ ℓ'} :
    {A : Type ℓ} {B : Type ℓ'} (r : Run A) {f g : A → Run B}
    → ((a : A) → f a ≡ g a)
    → and_then r f ≡ and_then r g
and_then_same r same = λ i. and_then r λ a. same a i

pub run-then_do :
    (p q : Program) (last : M (Unit {0})) (w : World)
    → run (then_do p q) last w ≡ run p (run q last) w
run-then_do done q last w = refl
run-then_do (step m next) q last w = and_then_same (m w) (λ (a, w'). run-then_do (next a) q last w')

pub run-later :
    (p : Program) (first last : M (Unit {0})) (w : World)
    → (run p first >> last) w ≡ run p (first >> last) w
run-later done first last w = refl
run-later (step m next) first last w =
    and_then_assoc (m w) (λ (a, w'). run (next a) first w') (λ (u, w'). last w')
    ∙ and_then_same (m w) (λ (a, w'). run-later (next a) first last w')
