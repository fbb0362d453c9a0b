-- ===== src/Thread.antt =====
-- include/platform/PosixThread.h, platform/PosixThread.cpp and Runnable. The calls of <pthread.h> are
-- parameters: each answers 0 or the number of an error. What a task does in its thread
-- is a parameter, as `run` of Runnable is abstract.
use timer_and_callback.Base.{
  ℕ, ◌+◌, ◌≡◌, refl, Option, some, none, ltb, if◌then◌else◌, Run, ok, ◌>>=◌, false, arith, fault,
  blocked, aborted, out_of_fuel,
}
use timer_and_callback.Types.{Result, u32, pred32}
use timer_and_callback.Pool.{null}

-- `PosixThread::PosixThreadType`
pub data PosixThreadType : Type 0 where
  joinable detached : PosixThreadType

-- PTHREAD_CREATE_JOINABLE and PTHREAD_CREATE_DETACHED
pub data DetachState : Type 0 where
  create_joinable create_detached : DetachState

-- The addresses of the members `thread` and `attr`.
pub record PosixThread : Type 0 where
  pub task : ℕ
  pub thread : ℕ
  pub attr : ℕ
  pub type : PosixThreadType

pub record ThreadCalls : Type 1 where
  pub State : Type 0
  pub pthread_attr_init : ℕ → State → ℕ × State
  pub pthread_attr_setdetachstate : ℕ → DetachState → State → ℕ × State
  pub pthread_create : (thread attr arg : ℕ) → State → ℕ × State
  pub pthread_join : ℕ → State → Run (ℕ × State)
  pub pthread_exit : State → Run State

module _ (calls : ThreadCalls) where
  open calls use {
    State, pthread_attr_init, pthread_attr_setdetachstate, pthread_create, pthread_join,
    pthread_exit,
  }

  pub detach_state_of : PosixThreadType → DetachState
  detach_state_of PosixThreadType.joinable = create_joinable
  detach_state_of PosixThreadType.detached = create_detached

  -- The constructor.
  pub posix_thread : (task thread attr : ℕ) → PosixThreadType → State → PosixThread × State
  unfolding detach_state_of
  posix_thread task thread attr type s =
      let (_, s1) = pthread_attr_init attr s in
      let (_, s2) = pthread_attr_setdetachstate attr (detach_state_of type) s1 in
      (record { task = task; thread = thread; attr = attr; type = type }, s2)

  -- The thread object at `this` is what its entry function gets. Both branches return, and what stands
  -- behind them is never reached.
  pub create : (this : ℕ) → PosixThread → State → Result × State
  create this t s =
      let (ret_val, s') = pthread_create t.thread t.attr this s in
      if ltb ret_val 0 then (Result.error, s') else (Result.ok, s')

  abbrev answer : ℕ × State → Run (Result × State)
  answer (ret_val, s') = ok (if ltb ret_val 0 then (Result.error, s') else (Result.ok, s'))

  pub join_joinable : PosixThread → State → Run (Result × State)
  join_joinable t s = pthread_join t.thread s >>= answer

  pub join : PosixThread → State → Run (Result × State)
  unfolding join_joinable
  join t s = elim t.type [
    | PosixThreadType.detached ↦ ok (Result.error, s)
    | PosixThreadType.joinable ↦ join_joinable t s
  ]

  pub exit : State → Run (Result × State)
  exit s = do s' ← pthread_exit s; ok (Result.ok, s')

  -- The destructor.
  pub destroy : PosixThread → State → Run State
  unfolding join exit
  destroy t s = do
    s' ← elim t.type [
      | PosixThreadType.joinable ↦ (do (_, s1) ← join t s; ok s1)
      | PosixThreadType.detached ↦ ok s
    ]
    (_, s'') ← exit s'
    ok s''

  -- `internalPosixThreadEntryFunction`, which returns NULL: `threads p` is the thread object at
  -- `p`, and `task_run task arg` the call of `run (arg)` of the task at `task`.
  unfoldable internal_posix_thread_entry_function :
      (threads : ℕ → Option PosixThread) (task_run : (task arg : ℕ) → State → Run State) (arg : ℕ)
      → State
      → Run (ℕ × State)
  internal_posix_thread_entry_function threads task_run arg s = elim (threads arg) [
    | some t ↦ (do s' ← task_run t.task arg s; ok (null, s'))
    | none ↦ fault
  ]

  abbrev succeed : State → Run (Result × State)
  succeed s = ok (Result.ok, s)

  never_negative : (ret_val : ℕ) → ltb ret_val 0 ≡ false
  never_negative ret_val = ground arith

  joined : (r : Run (ℕ × State)) → (r >>= answer) ≡ (r >>= λ (_, s'). succeed s')
  joined (ok (ret_val, s')) = rw (never_negative ret_val) refl
  joined fault = refl
  joined blocked = refl
  joined aborted = refl
  joined out_of_fuel = refl

  -- Whatever `pthread_create` and `pthread_join` answer, `create` answers OK, and so does `join` of a
  -- joinable thread once it returns; `join` of a detached thread answers ERROR and makes no call.
  pub create-join-blind :
      (this : ℕ) (t : PosixThread) (s : State)
      → ((create this t s).0 ≡ Result.ok)
        × (join (record t { type = PosixThreadType.joinable }) s
            ≡ (pthread_join t.thread s >>= λ (_, s'). succeed s'))
        × (join (record t { type = PosixThreadType.detached }) s ≡ ok (Result.error, s))
  unfolding create join join_joinable
  create-join-blind this t s = (
    rw (never_negative (pthread_create t.thread t.attr this s).0) refl,
    joined (pthread_join t.thread s),
    refl,
  )

-- `Runnable::numberOfRunnables` after the constructor and after the destructor.
pub runnable : ℕ → ℕ
runnable number_of_runnables = u32 (number_of_runnables + 1)

pub destroy_runnable : ℕ → ℕ
destroy_runnable number_of_runnables = pred32 number_of_runnables
