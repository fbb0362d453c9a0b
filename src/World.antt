-- ===== src/World.antt =====
-- What the Timer objects and the tasks share: include/platform/Timer.h (the fields and the static
-- members), PosixSemaphore.h and platform/TimerUtils.cpp. A method is a function from the state of
-- the system to its result and the new state; calls of several tasks are calls in a row. The system
-- calls' answers (the time of day, `rand ()`) are streams in the state.
use timer_and_callback.Base.{
  ℕ, suc, ◌+◌, ◌-◌, ◌*◌, ◌/◌, Bool, Option, none, some, List, ◌∷◌, leb, ◌==◌, if◌then◌else◌, Run,
  ok, fault, blocked, update, ◌>>=◌ as and_then,
}
use timer_and_callback.Types.{Result, u64, sub64}
use timer_and_callback.MinHeap.{TimerTaskShared}
use timer_and_callback.Pool.{MemoryPool}

-- `Timer::TimerType` and `Timer::TimerState`
pub data TimerType : Type 0 where
  one_shot periodic invalid : TimerType

pub data TimerState : Type 0 where
  idle active done : TimerState

pub record Timer : Type 0 where
  pub type : TimerType
  pub state : TimerState
  pub p_cb : ℕ
  pub creating_t_id : ℕ
  pub cb_contex_t_id : ℕ
  pub how_many_times_to_fire : ℕ
  pub number_of_times_fired : ℕ
  pub first : ℕ
  pub timeout : ℕ
  pub when_to_fire : ℕ

-- `struct timeval`, as `gettimeofday` fills it.
pub record Timeval : Type 0 where
  pub tv_sec : ℕ
  pub tv_usec : ℕ

-- `timers p` is the Timer object at the address `p`. `callbacks p` says whether a callback object
-- is at `p`, and `triggered` lists those whose `triggered ()` was called, the last one first; what
-- such a call does to timers is left out. `queues q` is how many messages the queue of the task `q`
-- holds, if it has been opened, and `sent` lists the messages by queue, the last one first.
pub record World : Type 0 where
  pub timers : ℕ → Option Timer
  pub min_heap : TimerTaskShared
  pub pool : MemoryPool
  pub semaphore : ℕ
  pub callbacks : ℕ → Bool
  pub triggered : List ℕ
  pub queues : ℕ → Option ℕ
  pub sent : List (ℕ × List ℕ)
  pub clock : ℕ → Timeval
  pub random : ℕ → ℕ

abbrev pub M : Type 0 → Type 0
M A = World → Run (A × World)

abbrev pub pure : {A : Type 0} → A → M A
pure a w = ok (a, w)

infixl 5 ◌>>=◌ ◌>>◌
abbrev pub ◌>>=◌ : {A B : Type 0} → M A → (A → M B) → M B
◌>>=◌ m f w = and_then (m w) λ (a, w'). f a w'

abbrev pub ◌>>◌ : {B : Type 0} → M (Unit {0}) → M B → M B
m >> k = m >>= λ _. k

abbrev pub undefined : {A : Type 0} → M A
undefined w = fault

-- `semaphore->wait ()` and `semaphore->post ()`
unfoldable pub wait : M (Unit {0})
wait w = if w.semaphore == 0 then blocked else ok (tt, record w { semaphore = w.semaphore - 1 })

unfoldable pub post : M (Unit {0})
post w = ok (tt, record w { semaphore = w.semaphore + 1 })

-- The fields of the Timer object at an address.
unfoldable pub load : ℕ → M Timer
load this w = elim (w.timers this) [ some t ↦ ok (t, w) | none ↦ fault ]

abbrev pub with_timer : World → ℕ → Option Timer → World
with_timer w this t = record w { timers = update w.timers this t }

unfoldable pub store : ℕ → Timer → M (Unit {0})
store this t w = ok (tt, with_timer w this (some t))

-- `whenToFire` of the object at an address.
abbrev pub fires : World → ℕ → Option ℕ
fires w p = elim (w.timers p) [ some t ↦ some t.when_to_fire | none ↦ none ]

-- A call of an operation of the heap.
unfoldable pub on_heap :
    ((ℕ → Option ℕ) → TimerTaskShared → Run (Result × TimerTaskShared)) → M Result
on_heap operation w =
    and_then (operation (fires w) w.min_heap)
      λ (code, heap). ok (code, record w { min_heap = heap })

-- `tv_sec * 1000 + tv_usec / 1000.0`, cut to an integer. The sum is a double, whose fraction is exact
-- enough to be cut right as long as `tv_sec * 1000` is below 2 ^ 43.
unfoldable pub get_current_time_in_msec : M ℕ
get_current_time_in_msec w =
    let now = w.clock 0 in
    ok (u64 (now.tv_sec * 1000 + now.tv_usec / 1000), record w { clock = λ k. w.clock (suc k) })

unfoldable pub convert_timer_timeout_to_absolute_time_since_epoch : ℕ → M ℕ
unfolding get_current_time_in_msec
convert_timer_timeout_to_absolute_time_since_epoch timeout_ms = do
  current_ms ← get_current_time_in_msec
  pure (u64 (current_ms + timeout_ms))

-- The difference is unsigned, so it is never below 0.
unfoldable pub convert_absolute_time_since_epoch_to_relative : ℕ → M ℕ
unfolding get_current_time_in_msec
convert_absolute_time_since_epoch_to_relative absolute_time = do
  current_ms ← get_current_time_in_msec
  pure (if leb 0 (sub64 absolute_time current_ms) then sub64 absolute_time current_ms else 0)

-- `rand ()`
unfoldable pub rand : M ℕ
rand w = ok (w.random 0, record w { random = λ k. w.random (suc k) })

-- `pCb->triggered ()` and `delete pCb`, on an object that is there.
unfoldable pub trigger : ℕ → M (Unit {0})
trigger p w = if w.callbacks p then ok (tt, record w { triggered = p ∷ w.triggered }) else fault

unfoldable pub delete_callback : ℕ → M (Unit {0})
delete_callback p w =
    if w.callbacks p
    then ok (tt, record w { callbacks = update w.callbacks p Bool.false })
    else fault
