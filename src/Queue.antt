-- ===== src/Queue.antt =====
-- include/platform/PosixMessageQueue.h and platform/PosixMessageQueue.cpp: a message queue of the
-- system. The system calls are parameters, with a state of the system; `errno` is part of the answer
-- of a call that failed. A descriptor is `none` where `mq_open` returned -1. Of the log lines only
-- those that say why a queue was not opened are kept. A name has fewer than 64 characters.
pub mod Fifo
pub mod Delivery
use Prim.Native.String.{String}
use Prim.Native.Nat.{bit_or}
use timer_and_callback.Base.{
  ℕ, zero, suc, ◌+◌, Option, none, some, List, [], ◌∷◌, length, ltb, if◌then◌else◌, Run, ok, fault,
  aborted, ◌>>=◌,
}
use timer_and_callback.Wire.{zeros, overwrite}

-- The values of `errno` that the code tells apart.
pub data Errno : Type 0 where
  eacces eexist einval emfile enametoolong enfile enoent enomem enospc eagain ebadf eintr emsgsize
        etimedout other :
      Errno

pub data Answer {ℓ} (A : Type ℓ) : Type ℓ where
  answered : A → Answer A
  failed : Errno → Answer A

-- `struct mq_attr`
pub record MqAttr : Type 0 where
  pub mq_flags : ℕ
  pub mq_maxmsg : ℕ
  pub mq_msgsize : ℕ
  pub mq_curmsgs : ℕ

-- The calls of <mqueue.h>. `mq_setattr` answers with the attributes that were set before. The two
-- calls that can wait answer with a `Run`.
pub record MqCalls : Type 1 where
  pub State : Type 0
  pub o_nonblock : ℕ
  pub mq_open : String → (flags mode : ℕ) → MqAttr → State → Answer ℕ × State
  pub mq_close : Option ℕ → State → Answer (Unit {0}) × State
  pub mq_unlink : String → State → Answer (Unit {0}) × State
  pub mq_send : Option ℕ → List ℕ → State → Run (Answer (Unit {0}) × State)
  pub mq_receive : Option ℕ → ℕ → State → Run (Answer (List ℕ) × State)
  pub mq_setattr : Option ℕ → MqAttr → State → Answer MqAttr × State

pub record PosixMessageQueue : Type 0 where
  pub name : String
  pub flags : ℕ
  pub mode : ℕ
  pub msg_fd : Option ℕ
  pub mq_attr : MqAttr
  pub p_buffer : List ℕ

-- What the constructor prints for a value of `errno`.
pub open_error : Errno → List String
open_error Errno.eacces =
    "The queue exists, but the caller does not have the permissions to open the queue in the specified mode."
    ∷ "Name contains more than onen slash." ∷ []
open_error Errno.eexist =
    "Both O_CREAT and O_EXCL specified, but a queue with this name already exists." ∷ []
open_error Errno.einval =
    "O_CREAT was specified, but attr was not NULL, but attribute values, maxmsg, msgsize was not valid."
    ∷ []
open_error Errno.emfile = "The process already has the maximum number of message queues open." ∷ []
open_error Errno.enametoolong = "The specified name was too long." ∷ []
open_error Errno.enfile =
    "The system limit on the total number of open files and queues has been reached." ∷ []
open_error Errno.enoent =
    "O_CREAT was specified, but no MQ of this name exists."
    ∷ "The name as just a slash with no other characters." ∷ []
open_error Errno.enomem = "Insufficient memory." ∷ []
open_error Errno.enospc = "No space to create the message queue." ∷ []
open_error _ = "Invalid errno" ∷ []

pub get_msg : PosixMessageQueue → List ℕ
get_msg q = q.p_buffer

pub get_number_of_messages_in_queue : PosixMessageQueue → ℕ
get_number_of_messages_in_queue q = q.mq_attr.mq_curmsgs

module _ (calls : MqCalls) where
  open calls use {State, o_nonblock, mq_open, mq_close, mq_unlink, mq_send, mq_receive, mq_setattr}

  abbrev pub opened : Answer ℕ → Option ℕ × List String
  opened (answered fd) = (some fd, [])
  opened (failed e) = (none, open_error e)

  -- The constructor, with the lines that it prints; `fresh` is the new buffer, as long as a message.
  pub posix_message_queue :
      (name : String) (flags non_blocking_or_zero mode max_msg msg_size : ℕ) (fresh : List ℕ)
      → State
      → (PosixMessageQueue × List String) × State
  unfolding open_error
  posix_message_queue name flags non_blocking_or_zero mode max_msg msg_size fresh s =
      let attr : MqAttr = record {
        mq_flags = non_blocking_or_zero;
        mq_maxmsg = max_msg;
        mq_msgsize = msg_size;
        mq_curmsgs = 0;
      } in
      let (answer, s') = mq_open name flags mode attr s in
      let (fd, lines) = opened answer in
      (
        (
          record {
            name = name;
            flags = flags;
            mode = mode;
            msg_fd = fd;
            mq_attr = attr;
            p_buffer = fresh;
          },
          lines,
        ),
        s',
      )

  -- `assert (0)` if the call failed, whatever `errno` says.
  abbrev pub or_abort {ℓ} : {A : Type ℓ} → Answer A × State → Run (A × State)
  or_abort (answered a, s) = ok (a, s)
  or_abort (failed e, s) = aborted

  -- The destructor.
  pub close : PosixMessageQueue → State → Run State
  close q s = do
    (_, s') ← or_abort (mq_close q.msg_fd s)
    (_, s'') ← or_abort (mq_unlink q.name s')
    ok s''

  pub send : PosixMessageQueue → List ℕ → State → Run State
  send q buf s = do r ← mq_send q.msg_fd buf s; (_, s') ← or_abort r; ok s'

  -- The number of bytes that were received, and the queue with the message in its buffer. `memset`
  -- clears as many bytes as the attributes say, which may be more than the buffer has.
  pub receive : PosixMessageQueue → State → Run (ℕ × PosixMessageQueue × State)
  receive q s = if ltb (length q.p_buffer) q.mq_attr.mq_msgsize then fault else (do
    r ← mq_receive q.msg_fd q.mq_attr.mq_msgsize s
    (message, s') ← or_abort r
    let buffer = overwrite message (overwrite (zeros q.mq_attr.mq_msgsize) q.p_buffer)
    ok (length message, record q { p_buffer = buffer }, s'))

  abbrev set_to : PosixMessageQueue → Answer MqAttr → PosixMessageQueue
  set_to q (answered old) = record q { mq_attr = old }
  set_to q (failed e) = q

  -- The attributes that were set before are stored in the object, not the new ones.
  pub set_non_blocking_mode : PosixMessageQueue → State → PosixMessageQueue × State
  set_non_blocking_mode q s =
      let attr = q.mq_attr in
      let new_attr = record attr { mq_flags = bit_or attr.mq_flags o_nonblock } in
      let (answer, s') = mq_setattr q.msg_fd new_attr s in (set_to q answer, s')
