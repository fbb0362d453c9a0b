-- ===== src/TimerTask/Initialize.antt =====
-- platform/TimerTask.cpp, `initialize`, with the members of include/platform/Task.h: the fork of the
-- process, and the queues that the child opens. `fork` and the calls of <mqueue.h> are parameters.
-- The model ends where the child enters `run`, the loop of TimerTask. The task name is left out.
use mathlib.Core.Path.{subst}
use timer_and_callback.Base.{
  ℕ, zero, suc, ◌+◌, ◌-◌, ◌<◌, ◌≡◌, ◌≢◌, refl, Option, some, none, List, [], ◌∷◌, ◌==◌, true, false,
  if◌then◌else◌, Run, ok, aborted, ◌^◌, arith,
}
use timer_and_callback.Message.{timer_task, max_tasks, get_path_name_from_id}
use timer_and_callback.Queue.{MqCalls, PosixMessageQueue, posix_message_queue}
use timer_and_callback.Queue.Fifo.{posix_message_queue_lem}

-- `O_RDWR`
abbrev pub o_rdwr : ℕ
o_rdwr = 2

-- What `fork` answers in a `UINT32` where it fails, -1.
abbrev pub minus_1 : ℕ
minus_1 = 2 ^ 32 - 1

pub record TimerTask : Type 0 where
  pub pid : ℕ
  pub t_id : ℕ
  pub p_mq_to_tasks : List PosixMessageQueue

-- The child goes on to `run`; in the parent `initialize` returns.
pub data Started : Type 0 where
  runs waits : TimerTask → Started

module _ (calls : MqCalls) where
  -- The loop from `m_q_index` on, with `left` queues to open.
  pub open_queues : (left m_q_index : ℕ) → calls.State → List PosixMessageQueue × calls.State
  open_queues zero m_q_index s = ([], s)
  open_queues (suc left) m_q_index s =
      let ((q, _), s') =
        posix_message_queue calls (get_path_name_from_id m_q_index) o_rdwr 0 0 0 0 [] s in
      let (queues, s'') = open_queues left (suc m_q_index) s' in (q ∷ queues, s'')

  -- `fork` answers as it is stored, in a `UINT32`.
  pub initialize :
      (fork : calls.State → ℕ × calls.State) → TimerTask → calls.State → Run (Started × calls.State)
  unfolding open_queues
  initialize fork task s =
      let (pid, s') = fork s in
      let forked = record task { pid = pid; t_id = timer_task } in
      let (queues, s'') = open_queues max_tasks 0 s' in
      if pid == 0
      then ok (runs (record forked { p_mq_to_tasks = queues }), s'')
      else if pid == minus_1
      then aborted
      else ok (waits forked, s')

-- The element at an index.
abbrev pub get_elem? {ℓ} : {A : Type ℓ} → List A → ℕ → Option A
get_elem? [] i = none
get_elem? (x ∷ xs) zero = some x
get_elem? (x ∷ xs) (suc i) = get_elem? xs i

-- The object for the queue of the task `id`: opened for reading and writing under the name of the
-- task, without a buffer to receive in.
pub record IsQueueOf (id : ℕ) (q : PosixMessageQueue) : Type 0 where
  pub name : q.name ≡ get_path_name_from_id id
  pub flags : q.flags ≡ o_rdwr
  pub buffer : q.p_buffer ≡ []

abbrev pub HasQueueOf : List PosixMessageQueue → (i id : ℕ) → Type 0
HasQueueOf queues i id = (q : PosixMessageQueue) × (get_elem? queues i ≡ some q) × IsQueueOf id q

add_0 : (k : ℕ) → k ≡ k + zero
add_0 k = omega arith

zero_add : (k : ℕ) → zero + k ≡ k
zero_add k = omega arith

suc_add : (k i : ℕ) → suc k + i ≡ k + suc i
suc_add k i = omega arith

child_test : (pid : ℕ) → pid ≡ 0 → (pid == 0) ≡ true
child_test pid h = ground arith

not_child : (pid : ℕ) → pid ≢ 0 → (pid == 0) ≡ false
not_child pid h = ground arith

failed_test : (pid : ℕ) → pid ≡ minus_1 → (pid == minus_1) ≡ true
failed_test pid h = ground arith

not_failed : (pid : ℕ) → pid ≢ minus_1 → (pid == minus_1) ≡ false
not_failed pid h = ground arith

module _ (calls : MqCalls) where
  open_queues-each :
      (left m_q_index : ℕ) (s : calls.State) (i : ℕ)
      → i < left
      → HasQueueOf (open_queues calls left m_q_index s).0 i (m_q_index + i)
  unfolding open_queues
  open_queues-each zero m_q_index s i h = absurd (omega arith)
  open_queues-each (suc left) m_q_index s zero h =
      let (name, flags, buffer) =
        posix_message_queue_lem calls (get_path_name_from_id m_q_index) o_rdwr 0 0 0 0 [] s in
      subst (λ k. HasQueueOf (open_queues calls (suc left) m_q_index s).0 0 k) (add_0 m_q_index)
        (_, refl, record { name = name; flags = flags; buffer = buffer })
  open_queues-each (suc left) m_q_index s (suc i) h =
      let (_, s') =
        posix_message_queue calls (get_path_name_from_id m_q_index) o_rdwr 0 0 0 0 [] s in
      subst (λ k. HasQueueOf (open_queues calls (suc left) m_q_index s).0 (suc i) k)
        (suc_add m_q_index i) (open_queues-each left (suc m_q_index) s' i (omega arith))

  -- Whether `initialize` is in the child or the parent depends on `fork` alone. In the child each task
  -- has its queue, of the name of its id and at the place of its id, whether or not the system opened
  -- it; the parent has the process id of the child and opens none; and a fork that failed ends in the
  -- `assert`.
  pub initialize-cases :
      (fork : calls.State → ℕ × calls.State) (task : TimerTask) (s : calls.State)
      → ((fork s).0 ≡ 0
          → (child : TimerTask) × (s' : calls.State) × (initialize calls fork task s
              ≡ ok (runs child, s'))
            × (child.t_id ≡ timer_task)
            × ((id : ℕ) → id < max_tasks → HasQueueOf child.p_mq_to_tasks id id))
        × ((fork s).0 ≡ minus_1 → initialize calls fork task s ≡ aborted)
        × ((fork s).0 ≢ 0
            → (fork s).0 ≢ minus_1
            → initialize calls fork task s
              ≡ ok (waits (record task { pid = (fork s).0; t_id = timer_task }), (fork s).1))
  unfolding initialize
  initialize-cases fork task s =
      let (queues, s') = open_queues calls max_tasks 0 (fork s).1 in
      (
        λ zero_pid. (
          record task { pid = (fork s).0; t_id = timer_task; p_mq_to_tasks = queues },
          s',
          rw (child_test (fork s).0 zero_pid) refl,
          refl,
          λ id h.
              subst (HasQueueOf queues id) (zero_add id)
                (open_queues-each max_tasks 0 (fork s).1 id h),
        ),
        λ failed.
            rw (not_child (fork s).0 (omega (arith, failed)), failed_test (fork s).0 failed) refl,
        λ no_child no_failure.
            rw (not_child (fork s).0 no_child, not_failed (fork s).0 no_failure) refl,
      )
