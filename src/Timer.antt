-- ===== src/Timer.antt =====
-- include/platform/Timer.h and platform/Timer.cpp: the methods of a timer at the address `this`.
-- Log lines are left out. The heap is a singleton that is always there, so its test for NULL is too.
pub mod Ready
pub mod Create
pub mod Delete
pub mod Stopped
pub mod Fuzzy
pub mod Times
pub mod Schedule
pub mod Callback
pub mod Stop
pub mod Restart
pub mod Programs
use timer_and_callback.Base.{
  ℕ, ◌+◌, ◌-◌, ◌%◌, Bool, true, false, ◌||◌, none, some, ltb, leb, ◌==◌, if◌then◌else◌, ok,
}
use timer_and_callback.Types.{Result, u32, u64, sub64}
use timer_and_callback.MinHeap.{add_to_heap, remove_from_heap}
use timer_and_callback.Pool.{
  null, get_from_pool, remove_from_pool, get_memory_location_from_index,
  get_index_from_memory_location,
}
use timer_and_callback.World.{
  TimerType, TimerState, Timer, World, M, pure, ◌>>=◌, ◌>>◌, undefined, wait, post, load, store,
  with_timer, on_heap, convert_timer_timeout_to_absolute_time_since_epoch,
  convert_absolute_time_since_epoch_to_relative, rand, trigger, delete_callback,
}

-- `Timer ()`: `memory` is what the memory of the object holds before.
pub default_timer : Timer → Timer
default_timer memory = record memory {
  type = TimerType.invalid;
  state = TimerState.idle;
  p_cb = null;
  first = 0;
  timeout = 0;
}

-- `Timer (TaskId, TaskId)` sets the two ids only.
pub timer_for_tasks : ℕ → ℕ → Timer → Timer
timer_for_tasks creating_t_id cb_context_t_id memory = record memory {
  creating_t_id = creating_t_id;
  cb_contex_t_id = cb_context_t_id;
}

abbrev pub set_state : ℕ → TimerState → M (Unit {0})
set_state this state = do t ← load this; store this (record t { state = state })

-- The time of a fuzzy timer: some moment after the first bound and up to the second.
pub schedule_fuzzy : ℕ → ℕ → Bool → ℕ → Bool → M (Unit {0})
schedule_fuzzy this first first_is_absolute timeout timeout_is_absolute = do
  x1 ← if first_is_absolute then convert_absolute_time_since_epoch_to_relative first else pure first
  x2 ←
      if timeout_is_absolute
      then convert_absolute_time_since_epoch_to_relative timeout
      else pure timeout
  if ltb x2 x1 then pure tt else do
    r ← rand
    random_timeout ← if sub64 x2 x1 == 0 then undefined else pure (u64 (x1 + 1 + r % sub64 x2 x1))
    when_to_fire ← convert_timer_timeout_to_absolute_time_since_epoch random_timeout
    t ← load this
    store this (record t { when_to_fire = when_to_fire })

-- With an absolute first time `whenToFire` is taken from the member `first`, and the argument `_first`
-- is not looked at.
pub schedule_plain : ℕ → ℕ → Bool → M (Unit {0})
schedule_plain this first first_is_absolute =
    let at_member : M (Unit {0}) = do
      t ← load this
      store this (record t { when_to_fire = t.first })
    in let after_timeout : M (Unit {0}) = do
      t ← load this
      store this (record t { first = first })
      when_to_fire ← convert_timer_timeout_to_absolute_time_since_epoch first
      t' ← load this
      store this (record t' { when_to_fire = when_to_fire })
      in if first_is_absolute then at_member else after_timeout

pub schedule :
    ℕ
    → (p_cb first : ℕ) (first_is_absolute : Bool) (timeout : ℕ) (timeout_is_absolute : Bool)
      (type : TimerType) (how_many_times_to_fire : ℕ) (is_fuzzy_one_shot : Bool)
    → M (Unit {0})
unfolding schedule_fuzzy schedule_plain
schedule this p_cb first first_is_absolute timeout timeout_is_absolute type how_many fuzzy = do
  wait
  t ← load this
  store this (record t {
    p_cb = if t.p_cb == null then p_cb else t.p_cb;
    state = TimerState.active;
    type = type;
    how_many_times_to_fire = how_many;
  })
  if fuzzy
      then schedule_fuzzy this first first_is_absolute timeout timeout_is_absolute
      else schedule_plain this first first_is_absolute
  new_timeout ←
      if timeout_is_absolute
      then convert_absolute_time_since_epoch_to_relative timeout
      else pure timeout
  t' ← load this
  store this (record t' { timeout = new_timeout; number_of_times_fired = 0 })
  _ ← on_heap λ f s. add_to_heap f s this
  post

-- `dummy`, the timeout of a plain one-shot timer, is uninitialised: it is the argument `dummy` here.
module _ (this p_cb : ℕ) where
  pub schedule_one_shot_at_absolute_time : (dummy absolute_time : ℕ) → M (Unit {0})
  schedule_one_shot_at_absolute_time dummy absolute_time =
      schedule this p_cb absolute_time true dummy false TimerType.one_shot 0 false

  pub schedule_one_shot_at_timeout : (dummy timeout : ℕ) → M (Unit {0})
  schedule_one_shot_at_timeout dummy timeout =
      schedule this p_cb timeout false dummy false TimerType.one_shot 0 false

  pub schedule_one_shot_between_absolute_times : ℕ → ℕ → M (Unit {0})
  schedule_one_shot_between_absolute_times absolute_time1 absolute_time2 =
      schedule this p_cb absolute_time1 true absolute_time2 true TimerType.one_shot 0 true

  pub schedule_one_shot_between_timeouts : ℕ → ℕ → M (Unit {0})
  schedule_one_shot_between_timeouts timeout1 timeout2 =
      schedule this p_cb timeout1 false timeout2 false TimerType.one_shot 0 true

  pub schedule_periodic_at_absolute_time : (absolute_time timeout how_many : ℕ) → M (Unit {0})
  schedule_periodic_at_absolute_time absolute_time timeout how_many =
      schedule this p_cb absolute_time true timeout false TimerType.periodic how_many false

  pub schedule_periodic_at_timeout : (timeout how_many : ℕ) → M (Unit {0})
  schedule_periodic_at_timeout timeout how_many =
      schedule this p_cb timeout false timeout false TimerType.periodic how_many false

-- A cancelled timer stays in the heap.
pub cancel : ℕ → M (Unit {0})
cancel this = do
  wait
  t ← load this
  if t.p_cb == null
      then pure tt
      else do delete_callback t.p_cb; store this (record t { p_cb = null })
  set_state this TimerState.idle
  post

-- Sets the next firing time, `timeout` from now, and puts the timer in the heap.
pub reschedule : ℕ → ℕ → M (Unit {0})
reschedule this timeout = do
  when_to_fire ← convert_timer_timeout_to_absolute_time_since_epoch timeout
  t ← load this
  store this (record t { when_to_fire = when_to_fire; state = TimerState.active })
  _ ← on_heap λ f s. add_to_heap f s this
  pure tt

is_active : TimerState → Bool
is_active TimerState.active = true
is_active _ = false

pub restart : ℕ → M (Unit {0})
unfolding reschedule is_active
restart this =
    let take_out : M (Unit {0}) = do
      set_state this TimerState.idle
      _ ← on_heap λ f s. remove_from_heap f s this
      pure tt
    in do
      wait
      t ← load this
      if is_active t.state then take_out else pure tt
      reschedule this t.timeout
      post

pub stop : ℕ → M (Unit {0})
stop this = do
  wait
  set_state this TimerState.idle
  _ ← on_heap λ f s. remove_from_heap f s this
  post

pub change_firing_time : ℕ → ℕ → M (Unit {0})
unfolding reschedule
change_firing_time this new_timeout = do
  wait
  t ← load this
  store this (record t { timeout = new_timeout })
  reschedule this new_timeout
  post

is_invalid : TimerType → Bool
is_invalid TimerType.invalid = true
is_invalid _ = false

is_done : TimerState → Bool
is_done TimerState.done = true
is_done _ = false

-- `(type == Invalid) || (state == Done)`
out_of_heap : Timer → Bool
unfolding is_invalid is_done
out_of_heap t = is_invalid t.type || is_done t.state

-- `~Timer ()`, after which there is no object at the address.
pub destroy : ℕ → M (Unit {0})
unfolding out_of_heap
destroy this =
    let take_out : M (Unit {0}) = do _ ← on_heap λ f s. remove_from_heap f s this; pure tt
    in do
      wait
      t ← load this
      if out_of_heap t then pure tt else take_out
      if t.p_cb == null then pure tt else delete_callback t.p_cb
      post
      λ w. ok (tt, with_timer w this none)

pub operator_new : M ℕ
operator_new = do
  wait
  object ← λ w. (let (p, pool) = get_from_pool w.pool in ok (p, record w { pool = pool }))
  post
  pure object

pub operator_delete : ℕ → M (Unit {0})
operator_delete object = do
  wait
  λ w. ok (tt, record w { pool = remove_from_pool w.pool object })
  post

-- `new Timer (creating, context)`; without memory the constructor runs on NULL.
pub new_timer : (creating context : ℕ) (memory : Timer) → M ℕ
unfolding operator_new timer_for_tasks
new_timer creating context memory = do
  this ← operator_new
  if this == null then undefined else pure tt
  store this (timer_for_tasks creating context memory)
  pure this

-- `delete this`
pub delete_timer : ℕ → M (Unit {0})
unfolding destroy operator_delete
delete_timer this = do destroy this; operator_delete this

unfoldable pub get_index : ℕ → M ℕ
get_index this w = ok (get_index_from_memory_location w.pool this, w)

unfoldable pub get_timer_at_index : ℕ → M ℕ
get_timer_at_index index w = ok (get_memory_location_from_index w.pool index, w)

-- A periodic timer goes on while `numberOfFirings <= howManyFirings`, and for ever if that is 0.
pub goes_on : Timer → Bool
goes_on t = leb t.number_of_times_fired t.how_many_times_to_fire || t.how_many_times_to_fire == 0

pub process_periodic : ℕ → Timer → M Result
unfolding change_firing_time delete_timer goes_on
process_periodic this t = if t.p_cb == null then pure Result.error else do
  trigger t.p_cb
  if goes_on t then change_firing_time this t.timeout else delete_timer this
  pure Result.ok

pub process_one_shot : ℕ → Timer → M Result
unfolding delete_timer
process_one_shot this t =
    if t.p_cb == null
    then pure Result.error
    else do trigger t.p_cb; delete_timer this; pure Result.ok

-- The `switch` on the type.
pub process_by_type : TimerType → ℕ → Timer → M Result
unfolding process_one_shot process_periodic
process_by_type TimerType.one_shot this t = process_one_shot this t
process_by_type TimerType.periodic this t = process_periodic this t
process_by_type TimerType.invalid this t = pure Result.error

pub process_a_callback : ℕ → M Result
unfolding process_by_type
process_a_callback this = do t ← load this; process_by_type t.type this t
