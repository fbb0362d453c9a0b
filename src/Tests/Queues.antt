-- ===== src/Tests/Queues.antt =====
-- platform/PosixMessageQueue.cpp, Mutex.cpp and PosixThread.cpp on small systems: one with a single
-- queue of at most 10 messages of 16 bytes, and one in which every call answers EINVAL.
use timer_and_callback.Base.{
  ℕ, ◌<◌, ◌≤◌, ◌≡◌, refl, Option, none, some, List, [], ◌∷◌, ◌++◌, length, ltb, leb, ◌==◌,
  if◌then◌else◌, true, false, Run, ok, blocked, ◌>>=◌, Returns, returns, arith,
}
use timer_and_callback.Wire.{zeros}
use timer_and_callback.Message.{
  PosixMessageQueueObject, serialize_to_char_buf, deserialize_from_char_buf,
}
use timer_and_callback.Message.RoundTrip.{IsMessage}
use timer_and_callback.Queue.{
  Errno, Answer, answered, failed, MqAttr, MqCalls, PosixMessageQueue, send, receive, get_msg,
}
use timer_and_callback.Queue.Fifo.{IsFifo, IsOpen}
use timer_and_callback.Queue.Delivery.{
  send_all, receive_all, all_padded, send_all-receive_all, message-receive,
}
use timer_and_callback.Mutex.{Mutex, MutexCalls}
use timer_and_callback.Thread.{PosixThread, PosixThreadType, ThreadCalls}

abbrev one_queue_send : Option ℕ → List ℕ → List (List ℕ) → Run (Answer (Unit {0}) × List (List ℕ))
one_queue_send none m s = ok (failed Errno.ebadf, s)
one_queue_send (some fd) m s =
    if leb (length m) 16
    then (if ltb (length s) 10 then ok (answered tt, s ++ m ∷ []) else blocked)
    else ok (failed Errno.emsgsize, s)

abbrev one_queue_receive : Option ℕ → ℕ → List (List ℕ) → Run (Answer (List ℕ) × List (List ℕ))
one_queue_receive none size s = ok (failed Errno.ebadf, s)
one_queue_receive (some fd) size [] = blocked
one_queue_receive (some fd) size (m ∷ s) =
    if ltb size 16 then ok (failed Errno.emsgsize, m ∷ s) else ok (answered m, s)

abbrev attributes : MqAttr
attributes = record { mq_flags = 0; mq_maxmsg = 10; mq_msgsize = 16; mq_curmsgs = 0 }

abbrev pub one_queue : MqCalls
one_queue = record {
  State = List (List ℕ);
  o_nonblock = 2048;
  mq_open =
      λ name flags mode attr s. if flags == 2 then (answered 3, s) else (failed Errno.eacces, s);
  mq_close = λ fd s. (answered tt, s);
  mq_unlink = λ name s. (answered tt, []);
  mq_send = one_queue_send;
  mq_receive = one_queue_receive;
  mq_setattr = λ fd attr s. (answered attributes, s);
}

is_short : (n : ℕ) → n ≤ 16 → leb n 16 ≡ true
is_short n h = ground arith

is_free : (n : ℕ) → n < 10 → ltb n 10 ≡ true
is_free n h = ground arith

is_large : (n : ℕ) → 16 ≤ n → ltb n 16 ≡ false
is_large n h = ground arith

abbrev one_queue_fifo : IsFifo one_queue
one_queue_fifo = record {
  queue_at = λ s fd. some "/Test";
  contents = λ s name. s;
  max_msg = λ name. 10;
  msg_size = λ name. 16;
  sends = λ s fd name m e room small.
      rw (is_short (length m) small, is_free (length s) room) (returns (refl, refl, refl));
  receives = λ s fd name m rest size e first large.
      rw (first, is_large size large) (returns (refl, refl, refl));
  no_descriptor = λ m s. refl;
}

abbrev queue : PosixMessageQueue
queue = record {
  name = "/Test";
  flags = 2;
  mode = 0;
  msg_fd = some 3;
  mq_attr = attributes;
  p_buffer = zeros 16;
}

queue-IsOpen : IsOpen one_queue_fifo queue "/Test" []
queue-IsOpen = record { fd = 3; descriptor = refl; queue = refl }

abbrev two_messages : List (List ℕ)
two_messages = (7 ∷ 8 ∷ []) ∷ (9 ∷ []) ∷ []

send_all-receive_all_example :
    Returns
      (λ (buffers, _, s'). (buffers ≡ all_padded 16 two_messages) × (s' ≡ []))
      (send_all one_queue queue two_messages [] >>= λ s'. receive_all one_queue 2 queue s')
send_all-receive_all_example =
    send_all-receive_all one_queue_fifo two_messages queue queue "/Test" [] queue-IsOpen
      queue-IsOpen refl (omega arith) (omega arith, (omega arith, tt)) (omega arith) refl

abbrev note : ℕ → PosixMessageQueueObject
note index = record { from = 2; event = 5; shm_index = index }

note_3-IsMessage : IsMessage (note 3)
note_3-IsMessage = record { from = omega arith; event = omega arith; shm_index = omega arith }

message-receive_example :
    Returns
      (λ (n, r', _). (n ≡ 16) × (deserialize_from_char_buf (note 8) (get_msg r') ≡ note 3))
      (send one_queue queue (serialize_to_char_buf (note 3) (zeros 16)) [] >>= λ s'.
        receive one_queue queue s')
message-receive_example =
    message-receive one_queue_fifo (note 3) (note 8) queue queue "/Test" [] note_3-IsMessage
      queue-IsOpen queue-IsOpen refl (omega arith) (omega arith) (omega arith) refl

abbrev failing_mutexes : MutexCalls
failing_mutexes = record {
  State = Unit;
  pthread_mutexattr_settype = λ attr kind s. (22, s);
  pthread_mutexattr_setpshared = λ attr process s. (22, s);
  pthread_mutex_init = λ mutex attr s. (22, s);
  pthread_mutex_lock = λ mutex s. ok (22, s);
  pthread_mutex_unlock = λ mutex s. (22, s);
  pthread_mutex_destroy = λ mutex s. (22, s);
  pthread_yield = λ s. (22, s);
}

abbrev a_mutex : Mutex
a_mutex = record { mutex = 4096; mutex_attr = 4136 }

abbrev failing_threads : ThreadCalls
failing_threads = record {
  State = Unit;
  pthread_attr_init = λ attr s. (22, s);
  pthread_attr_setdetachstate = λ attr state s. (22, s);
  pthread_create = λ thread attr arg s. (11, s);
  pthread_join = λ thread s. ok (22, s);
  pthread_exit = λ s. blocked;
}

abbrev a_thread : PosixThread
a_thread = record { task = 5000; thread = 5100; attr = 5200; type = PosixThreadType.joinable }
