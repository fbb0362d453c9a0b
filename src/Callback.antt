-- ===== src/Callback.antt =====
-- include/platform/TimerCallback.h and platform/TimerCallback.cpp: the base class of callback
-- objects, and the classes of test/TestCallback.cpp and test/PooledObject.cpp, whose memory comes
-- from a pool. An address is a number. A pointer that the constructor does not set holds what the
-- memory held.
use Prim.Native.String.{String}
use timer_and_callback.Base.{
  ℕ, ◌+◌, ◌-◌, ◌≡◌, ◌≢◌, refl, Option, some, none, true, false, ◌==◌, if◌then◌else◌, Run, ok, fault,
  blocked, ◌>>=◌, update, arith,
}
use timer_and_callback.Pool.{null, MemoryPool, get_from_pool, remove_from_pool}
use timer_and_callback.Message.{get_path_name_from_id}

-- `callbacks p` is `pIdOfCallbackContextTask` of the callback object at `p`, and `ids p` the id in the
-- TaskId object at `p`.
pub record Objects : Type 0 where
  pub callbacks : ℕ → Option ℕ
  pub ids : ℕ → Option ℕ

-- `TimerCallback ()`
pub timer_callback : (this memory : ℕ) → Objects → Objects
timer_callback this memory s = record s { callbacks = update s.callbacks this (some memory) }

-- `delete` of a TaskId: nothing for NULL.
pub delete_id : ℕ → Objects → Run Objects
delete_id p s =
    if p == null
    then ok s
    else elim (s.ids p) [ some id ↦ ok (record s { ids = update s.ids p none }) | none ↦ fault ]

-- `~TimerCallback ()`
pub destroy_callback : ℕ → Objects → Run Objects
unfolding delete_id
destroy_callback this s = elim (s.callbacks this) [
  | some p ↦ do s' ← delete_id p s; ok (record s' { callbacks = update s'.callbacks this none })
  | none ↦ fault
]

-- `operator=`
pub assign : (this another : ℕ) → Objects → Run Objects
assign this another s = elim (s.callbacks another) [
  | some p ↦ ok (record s { callbacks = update s.callbacks this (some p) })
  | none ↦ fault
]

pub get_path_name_of_callback_context_task : ℕ → Objects → Run String
get_path_name_of_callback_context_task this s = elim (s.callbacks this) [
  | some p ↦ elim (s.ids p) [ some id ↦ ok (get_path_name_from_id id) | none ↦ fault ]
  | none ↦ fault
]

-- `operator new` and `operator delete` of PooledObject.
pub new_pooled_object : MemoryPool → ℕ × MemoryPool
new_pooled_object pool = get_from_pool pool

pub delete_pooled_object : MemoryPool → ℕ → MemoryPool
delete_pooled_object pool object = remove_from_pool pool object

-- The pool of TestCallback, with its semaphore.
pub record CallbackPool : Type 0 where
  pub test_callback_pool : MemoryPool
  pub semaphore : ℕ

-- Between `wait ()` and `post ()`, which leave the semaphore as it was.
pub new_test_callback : CallbackPool → Run (ℕ × CallbackPool)
new_test_callback s =
    if s.semaphore == 0
    then blocked
    else (let (location, pool) = get_from_pool s.test_callback_pool in
        ok (location, record { test_callback_pool = pool; semaphore = s.semaphore - 1 + 1 }))

pub delete_test_callback : CallbackPool → ℕ → Run CallbackPool
delete_test_callback s object =
    if s.semaphore == 0
    then blocked
    else ok (record {
      test_callback_pool = remove_from_pool s.test_callback_pool object;
      semaphore = s.semaphore - 1 + 1;
    })

-- After `*this = *another`, where the other object has a TaskId, both point at it: the destructor
-- of one deletes it, and that of the other then deletes it again, which is undefined behaviour.
pub destroy-assigned :
    (this another p id : ℕ) (s : Objects)
    → this ≢ another
    → p ≢ null
    → s.callbacks another ≡ some p
    → s.ids p ≡ some id
    → (do s1 ← assign this another s; s2 ← destroy_callback this s1; destroy_callback another s2)
      ≡ fault
unfolding assign destroy_callback delete_id
destroy-assigned this another p id s other some_id there id_there =
    let not_null : (p == null) ≡ false = ground arith in
    let same : (this == this) ≡ true = ground arith in
    let apart : (this == another) ≡ false = ground arith in
    let same_p : (p == p) ≡ true = ground arith in
    rw
      (
        assign, there, destroy_callback, same, delete_id, not_null, id_there, apart, there,
        delete_id, not_null, same_p,
      )
      refl

-- A callback object whose pointer was not NULL in memory, and not a TaskId, cannot be destroyed.
pub destroy-new :
    (this memory : ℕ) (s : Objects)
    → memory ≢ null
    → s.ids memory ≡ none
    → destroy_callback this (timer_callback this memory s) ≡ fault
unfolding destroy_callback delete_id timer_callback
destroy-new this memory s some_id none_there =
    let not_null : (memory == null) ≡ false = ground arith in
    let same : (this == this) ≡ true = ground arith in
    rw (destroy_callback, same, delete_id, not_null, none_there) refl
