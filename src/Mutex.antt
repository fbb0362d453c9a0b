-- ===== src/Mutex.antt =====
-- include/platform/Mutex.h and platform/Mutex.cpp. The calls of <pthread.h> are parameters: each
-- answers 0 or the number of an error. Of the log lines only those about errors are kept, without the
-- address of the mutex that some of them name.
use Prim.Native.String.{String}
use timer_and_callback.Base.{
  ℕ, ◌≡◌, refl, ap, List, [], ◌∷◌, ◌++◌, ltb, if◌then◌else◌, Run, ok, fault, blocked, aborted,
  out_of_fuel, ◌>>=◌, arith, false,
}

-- `Mutex::MutexType` and `Mutex::ProcessSharedAttrType`
pub data MutexType : Type 0 where
  normal errorcheck recursive default : MutexType

pub data ProcessSharedAttrType : Type 0 where
  shared private : ProcessSharedAttrType

-- PTHREAD_MUTEX_NORMAL and the others, PTHREAD_PROCESS_SHARED and the other.
pub data PthreadMutexKind : Type 0 where
  mutex_normal mutex_errorcheck mutex_recursive mutex_default : PthreadMutexKind

pub data PthreadProcess : Type 0 where
  process_shared process_private : PthreadProcess

-- The addresses of the two members.
pub record Mutex : Type 0 where
  pub mutex : ℕ
  pub mutex_attr : ℕ

-- The second argument of `pthread_mutex_init` may be NULL, which is 0 here.
pub record MutexCalls : Type 1 where
  pub State : Type 0
  pub pthread_mutexattr_settype : ℕ → PthreadMutexKind → State → ℕ × State
  pub pthread_mutexattr_setpshared : ℕ → PthreadProcess → State → ℕ × State
  pub pthread_mutex_init : ℕ → ℕ → State → ℕ × State
  pub pthread_mutex_lock : ℕ → State → Run (ℕ × State)
  pub pthread_mutex_unlock : ℕ → State → ℕ × State
  pub pthread_mutex_destroy : ℕ → State → ℕ × State
  pub pthread_yield : State → ℕ × State

-- `if (retVal < 0)` the line is printed; `retVal` is a `UINT32`.
abbrev pub complain : ℕ → String → List String
complain ret_val line = if ltb ret_val 0 then line ∷ [] else []

pub kind_of : MutexType → PthreadMutexKind
kind_of MutexType.normal = mutex_normal
kind_of MutexType.errorcheck = mutex_errorcheck
kind_of MutexType.recursive = mutex_recursive
kind_of MutexType.default = mutex_default

pub process_of : ProcessSharedAttrType → PthreadProcess
process_of ProcessSharedAttrType.shared = process_shared
process_of ProcessSharedAttrType.private = process_private

-- Each method returns the lines that it prints.
module _ (calls : MutexCalls) where
  open calls use {
    State, pthread_mutexattr_settype, pthread_mutexattr_setpshared, pthread_mutex_init,
    pthread_mutex_lock, pthread_mutex_unlock, pthread_mutex_destroy, pthread_yield,
  }

  abbrev told : List String → State → Run (List String × State)
  told lines s = ok (lines, s)

  -- `Mutex ()`
  pub default_mutex : Mutex → State → List String × State
  default_mutex m s =
      let (ret_val, s') = pthread_mutex_init m.mutex 0 s in
      (complain ret_val "Could not create default mutex! ", s')

  -- `Mutex (MutexType, ProcessSharedAttrType)`
  pub typed_mutex : MutexType → ProcessSharedAttrType → Mutex → State → List String × State
  unfolding kind_of process_of
  typed_mutex type psatype m s =
      let (typed, s1) = pthread_mutexattr_settype m.mutex_attr (kind_of type) s in
      let (placed, s2) = pthread_mutexattr_setpshared m.mutex_attr (process_of psatype) s1 in
      let (made, s3) = pthread_mutex_init m.mutex m.mutex_attr s2 in
      (
        complain typed "Error setting the mutex type..."
            ++ complain placed "Error setting the mutex process shared type..."
            ++ complain made "Could not create the mutex!",
        s3,
      )

  pub lock : Mutex → State → Run (List String × State)
  lock m s = do
    (ret_val, s') ← pthread_mutex_lock m.mutex s
    told (complain ret_val "Locking the mutex failed!") s'

  -- The answer of the call is not kept: `retVal` stays 0.
  pub unlock : Mutex → State → List String × State
  unlock m s =
      let (_, s') = pthread_mutex_unlock m.mutex s in (complain 0 "Unlocking the mutex failed!", s')

  pub yield : Mutex → State → List String × State
  yield m s =
      let (ret_val, s') = pthread_yield s in
      (complain ret_val "Alas! Couldn't yield, and I am a glutton for resources", s')

  -- The destructor does the same.
  pub destroy : Mutex → State → State
  destroy m s = (pthread_mutex_destroy m.mutex s).1

  silent : (ret_val : ℕ) (line : String) → complain ret_val line ≡ []
  silent ret_val line = let never : ltb ret_val 0 ≡ false = ground arith in rw never refl

  all_silent : (a b c : ℕ) (x y z : String) → complain a x ++ complain b y ++ complain c z ≡ []
  all_silent a b c x y z = λ i. (silent a x i ++ silent b y i) ++ silent c z i

  lock-silent :
      (r : Run (ℕ × State))
      → (r >>= λ (ret_val, s'). told (complain ret_val "Locking the mutex failed!") s')
        ≡ (r >>= λ (_, s'). told [] s')
  lock-silent (ok (ret_val, s')) = ap (λ l. told l s') (silent ret_val "Locking the mutex failed!")
  lock-silent fault = refl
  lock-silent blocked = refl
  lock-silent aborted = refl
  lock-silent out_of_fuel = refl

  -- Whatever the calls of the system answer, no method of a mutex reports an error, and `lock` goes on
  -- as if it had the mutex, also where `pthread_mutex_lock` answers the number of an error.
  pub never_reports :
      (m : Mutex) (type : MutexType) (psatype : ProcessSharedAttrType) (s : State)
      → ((default_mutex m s).0 ≡ [])
        × ((typed_mutex type psatype m s).0 ≡ [])
        × (lock m s ≡ (pthread_mutex_lock m.mutex s >>= λ (_, s'). told [] s'))
        × ((unlock m s).0 ≡ [])
        × ((yield m s).0 ≡ [])
  unfolding default_mutex typed_mutex unlock yield lock
  never_reports m type psatype s =
      let typed = pthread_mutexattr_settype m.mutex_attr (kind_of type) s in
      let placed = pthread_mutexattr_setpshared m.mutex_attr (process_of psatype) typed.1 in
      let made = pthread_mutex_init m.mutex m.mutex_attr placed.1 in
      (
        silent (pthread_mutex_init m.mutex 0 s).0 "Could not create default mutex! ",
        all_silent typed.0 placed.0 made.0 "Error setting the mutex type..."
            "Error setting the mutex process shared type..." "Could not create the mutex!",
        lock-silent (pthread_mutex_lock m.mutex s),
        refl,
        silent (pthread_yield s).0 "Alas! Couldn't yield, and I am a glutton for resources",
      )
