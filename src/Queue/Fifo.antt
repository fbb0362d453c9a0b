-- ===== src/Queue/Fifo.antt =====
-- platform/PosixMessageQueue.cpp on a system whose queues hand out messages in the order in which
-- they were sent.
use Prim.Native.String.{String}
use timer_and_callback.Base.{
  ℕ, zero, suc, ◌-◌, ◌≤◌, ◌<◌, ◌≡◌, refl, ap, Option, none, some, List, [], ◌∷◌, ◌++◌, length, drop,
  drop_all, ltb, false, ok, Returns, returns, Returns-bind, arith,
}
use timer_and_callback.Wire.{zeros, overwrite}
use timer_and_callback.Wire.Text.{length-zeros}
use mathlib.Core.List.{append-nil}
use timer_and_callback.Queue.{
  Errno, answered, failed, MqCalls, PosixMessageQueue, posix_message_queue, send, receive, get_msg,
}

-- What mq_overview (7) says of the calls, for queues that are opened to wait and messages of one
-- priority: which queue a descriptor stands for, what the queue holds, the first message to go first,
-- and how many messages of what size it takes.
pub record IsFifo (calls : MqCalls) : Type 0 where
  pub queue_at : calls.State → ℕ → Option String
  pub contents : calls.State → String → List (List ℕ)
  pub max_msg : String → ℕ
  pub msg_size : String → ℕ
  pub sends :
      (s : calls.State) (fd : ℕ) (name : String) (m : List ℕ)
      → queue_at s fd ≡ some name
      → length (contents s name) < max_msg name
      → length m ≤ msg_size name
      → Returns
          (λ (answer, s').
            (answer ≡ answered tt)
            × (queue_at s' ≡ queue_at s)
            × (contents s' name ≡ contents s name ++ m ∷ []))
          (calls.mq_send (some fd) m s)
  pub receives :
      (s : calls.State) (fd : ℕ) (name : String) (m : List ℕ) (rest : List (List ℕ)) (size : ℕ)
      → queue_at s fd ≡ some name
      → contents s name ≡ m ∷ rest
      → msg_size name ≤ size
      → Returns
          (λ (answer, s').
            (answer ≡ answered m) × (queue_at s' ≡ queue_at s) × (contents s' name ≡ rest))
          (calls.mq_receive (some fd) size s)
  pub no_descriptor :
      (m : List ℕ) (s : calls.State) → calls.mq_send none m s ≡ ok (failed Errno.ebadf, s)

-- What the constructor keeps of its arguments.
pub posix_message_queue_lem :
    (calls : MqCalls) (name : String) (flags non_blocking mode max_msg msg_size : ℕ)
    (fresh : List ℕ) (s : calls.State)
    → let ((q, _), _) =
        posix_message_queue calls name flags non_blocking mode max_msg msg_size fresh s in
      (q.name ≡ name) × (q.flags ≡ flags) × (q.p_buffer ≡ fresh)
unfolding posix_message_queue
posix_message_queue_lem calls name flags non_blocking mode max_msg msg_size fresh s =
    (refl, refl, refl)

-- A message in a buffer of `size` bytes, filled up with zeros.
abbrev pub padded : ℕ → List ℕ → List ℕ
padded size m = m ++ zeros (size - length m)

sub-zero : (n : ℕ) → n ≡ n - zero
sub-zero n = omega arith

zero-sub : (k : ℕ) → zero ≡ zero - k
zero-sub k = omega arith

suc-sub_suc : (n k : ℕ) → suc n - suc k ≡ n - k
suc-sub_suc n k = omega arith

drop-zeros : (n k : ℕ) → drop k (zeros n) ≡ zeros (n - k)
drop-zeros zero zero = refl
drop-zeros zero (suc k) = ap zeros (zero-sub (suc k))
drop-zeros (suc n) zero = ap zeros (sub-zero (suc n))
drop-zeros (suc n) (suc k) = rw (suc-sub_suc n k) (drop-zeros n k)

-- A buffer that was cleared and then written to.
overwrite-cleared :
    (size : ℕ) (m buffer : List ℕ)
    → length buffer ≤ size
    → overwrite m (overwrite (zeros size) buffer) ≡ padded size m
overwrite-cleared size m buffer h =
    let cleared : drop (length (zeros size)) buffer ≡ [] =
      drop_all (length (zeros size)) buffer (omega (arith, length-zeros size)) in
    rw (cleared, append-nil (zeros size), drop-zeros size (length m)) refl

module _ {calls : MqCalls} (fifo : IsFifo calls) where
  open fifo use {queue_at, contents, max_msg, msg_size, sends, receives, no_descriptor}

  -- The object stands for the queue `name`, and its buffer takes each message of it.
  pub record IsOpen (q : PosixMessageQueue) (name : String) (s : calls.State) : Type 0 where
    pub fd : ℕ
    pub descriptor : q.msg_fd ≡ some fd
    pub queue : queue_at s fd ≡ some name

  pub send-Sent :
      (q : PosixMessageQueue) (name : String) (m : List ℕ) (s : calls.State)
      → IsOpen q name s
      → length (contents s name) < max_msg name
      → length m ≤ msg_size name
      → Returns
          (λ s'. (queue_at s' ≡ queue_at s) × (contents s' name ≡ contents s name ++ m ∷ []))
          (send calls q m s)
  unfolding send
  send-Sent q name m s o room small = rw o.descriptor (
      Returns-bind (sends s o.fd name m o.queue room small)
        λ (answer, s') (e, same, more). rw e (returns (same, more)))

  -- What `receive` leaves in the object.
  pub record IsReceived (r : PosixMessageQueue) (m : List ℕ) (n : ℕ) (r' : PosixMessageQueue)
      : Type 0 where
    pub count : n ≡ length m
    pub buffer : get_msg r' ≡ padded r.mq_attr.mq_msgsize m
    pub attributes : r'.mq_attr ≡ r.mq_attr
    pub descriptor : r'.msg_fd ≡ r.msg_fd

  pub receive-Received :
      (r : PosixMessageQueue) (name : String) (m : List ℕ) (rest : List (List ℕ)) (s : calls.State)
      → IsOpen r name s
      → contents s name ≡ m ∷ rest
      → msg_size name ≤ r.mq_attr.mq_msgsize
      → length r.p_buffer ≡ r.mq_attr.mq_msgsize
      → Returns
          (λ (n, r', s').
            IsReceived r m n r' × (queue_at s' ≡ queue_at s) × (contents s' name ≡ rest))
          (receive calls r s)
  unfolding receive get_msg
  receive-Received r name m rest s o first large fits =
      let whole : ltb (length r.p_buffer) r.mq_attr.mq_msgsize ≡ false = ground (arith, fits) in
      rw (whole, o.descriptor)
        (Returns-bind (receives s o.fd name m rest r.mq_attr.mq_msgsize o.queue first large)
          λ (answer, s') (e, same, left). rw e (
            returns (
              record {
                count = refl;
                buffer = overwrite-cleared r.mq_attr.mq_msgsize m r.p_buffer (omega (arith, fits));
                attributes = refl;
                descriptor = refl;
              },
              same,
              left,
            )))
