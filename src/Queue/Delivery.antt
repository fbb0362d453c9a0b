-- ===== src/Queue/Delivery.antt =====
-- platform/PosixMessageQueue.cpp between two tasks: what one sends the other receives, in order; and
-- the message of a timer on its way.
use Prim.Native.String.{String}
use mathlib.Core.Path.{subst}
use mathlib.Core.List.{append_assoc, append-nil}
use timer_and_callback.Base.{
  ℕ, zero, suc, ◌+◌, ◌-◌, ◌≤◌, ◌<◌, ◌≡◌, refl, ap, sym, ◌∙◌, List, [], ◌∷◌, ◌++◌, length, Run, ok,
  aborted, ◌>>=◌, Returns, returns, Returns-bind, Returns-map, arith,
}
use timer_and_callback.Wire.{zeros}
use timer_and_callback.Wire.Text.{length-zeros}
use timer_and_callback.Message.{
  PosixMessageQueueObject, serialize_to_char_buf, deserialize_from_char_buf,
}
use timer_and_callback.Message.RoundTrip.{
  IsMessage, message_round_trip, serialize-append, length-serialize,
}
use timer_and_callback.Queue.{
  Errno, failed, MqCalls, PosixMessageQueue, posix_message_queue, send, receive, get_msg,
}
use timer_and_callback.Queue.Fifo.{IsFifo, IsOpen, padded, send-Sent, receive-Received}

module _ (calls : MqCalls) where
  -- A task that sends messages, and one that receives as many, with what its buffer holds each time.
  pub send_all : PosixMessageQueue → List (List ℕ) → calls.State → Run (calls.State)
  send_all q [] s = ok s
  send_all q (m ∷ messages) s = do s' ← send calls q m s; send_all q messages s'

  pub receive_all :
      ℕ → PosixMessageQueue → calls.State → Run (List (List ℕ) × PosixMessageQueue × calls.State)
  receive_all zero r s = ok ([], r, s)
  receive_all (suc n) r s = do
    (_, r', s') ← receive calls r s
    (messages, r'', s'') ← receive_all n r' s'
    ok (get_msg r' ∷ messages, r'', s'')

abbrev pub AllFit : ℕ → List (List ℕ) → Type 0
AllFit size [] = Unit
AllFit size (m ∷ messages) = (length m ≤ size) × AllFit size messages

abbrev pub all_padded : ℕ → List (List ℕ) → List (List ℕ)
all_padded size [] = []
all_padded size (m ∷ messages) = padded size m ∷ all_padded size messages

length-append_zeros : (m : List ℕ) (k : ℕ) → length (m ++ zeros k) ≡ length m + k
length-append_zeros [] k = omega (arith, length-zeros k)
length-append_zeros (x ∷ m) k = omega (arith, length-append_zeros m k)

length-padded : (size : ℕ) (m : List ℕ) → length m ≤ size → length (padded size m) ≡ size
length-padded size m h = omega (arith, length-append_zeros m (size - length m))

length-append_one : (xs : List (List ℕ)) (m : List ℕ) → length (xs ++ m ∷ []) ≡ length xs + 1
length-append_one [] m = refl
length-append_one (x ∷ xs) m = omega (arith, length-append_one xs m)

module _ {calls : MqCalls} (fifo : IsFifo calls) where
  open fifo use {queue_at, contents, max_msg, msg_size}

  IsOpen-same :
      {q : PosixMessageQueue} {name : String} {s s' : calls.State}
      → IsOpen fifo q name s
      → queue_at s' ≡ queue_at s
      → IsOpen fifo q name s'
  IsOpen-same o e = record {
    fd = o.fd;
    descriptor = o.descriptor;
    queue = ap (λ f. f o.fd) e ∙ o.queue;
  }

  send_all-Sent :
      (messages : List (List ℕ)) (q : PosixMessageQueue) (name : String) (s : calls.State)
      → IsOpen fifo q name s
      → length (contents s name) + length messages ≤ max_msg name
      → AllFit (msg_size name) messages
      → Returns
          (λ s'. (queue_at s' ≡ queue_at s) × (contents s' name ≡ contents s name ++ messages))
          (send_all calls q messages s)
  unfolding send_all
  send_all-Sent [] q name s o room fit = returns (refl, sym (append-nil (contents s name)))
  send_all-Sent (m ∷ messages) q name s o room fit =
      Returns-bind (send-Sent fifo q name m s o (omega arith) fit.0) λ s' (same, more).
        Returns-map
          (send_all-Sent messages q name s' (IsOpen-same o same)
            (omega (arith, ap length more, length-append_one (contents s name) m)) fit.1)
          λ s'' (same', all). (
            same' ∙ same,
            all ∙ ap (λ c. c ++ messages) more ∙ append_assoc (contents s name) (m ∷ []) messages,
          )

  receive_all-Received :
      (messages : List (List ℕ)) (r : PosixMessageQueue) (name : String) (s : calls.State)
      → IsOpen fifo r name s
      → contents s name ≡ messages
      → msg_size name ≤ r.mq_attr.mq_msgsize
      → length r.p_buffer ≡ r.mq_attr.mq_msgsize
      → AllFit r.mq_attr.mq_msgsize messages
      → Returns
          (λ (buffers, _, s').
            (buffers ≡ all_padded r.mq_attr.mq_msgsize messages) × (contents s' name ≡ []))
          (receive_all calls (length messages) r s)
  unfolding receive_all get_msg
  receive_all-Received [] r name s o held large fits fit = returns (refl, held)
  receive_all-Received (m ∷ messages) r name s o held large fits fit =
      Returns-bind (receive-Received fifo r name m messages s o held large fits)
        λ (n, r', s') (got, same, left).
          let size = ap (λ a. a.mq_msgsize) got.attributes in
          Returns-bind
            (receive_all-Received messages r' name s'
              (record {
                fd = o.fd;
                descriptor = got.descriptor ∙ o.descriptor;
                queue = ap (λ f. f o.fd) same ∙ o.queue;
              })
              left (omega (arith, size))
              (omega
                (arith, size, ap length got.buffer, length-padded r.mq_attr.mq_msgsize m fit.0))
              (subst (λ k. AllFit k messages) (sym size) fit.1))
            λ (buffers, _, s'') (all, empty).
              returns (λ i. got.buffer i ∷ (all ∙ ap (λ k. all_padded k messages) size) i, empty)

  AllFit-larger :
      {small large : ℕ} (messages : List (List ℕ))
      → small ≤ large
      → AllFit small messages
      → AllFit large messages
  AllFit-larger [] h fit = tt
  AllFit-larger (m ∷ messages) h fit = (omega (arith, fit.0), AllFit-larger messages h fit.1)

  -- On a system whose queues are first in, first out, messages that are sent to an empty queue with
  -- room for them are received by the same number of calls, in the order in which they were sent, each
  -- in a buffer filled up with zeros, and the queue is empty again.
  pub send_all-receive_all :
      (messages : List (List ℕ)) (q r : PosixMessageQueue) (name : String) (s : calls.State)
      → IsOpen fifo q name s
      → IsOpen fifo r name s
      → contents s name ≡ []
      → length messages ≤ max_msg name
      → AllFit (msg_size name) messages
      → msg_size name ≤ r.mq_attr.mq_msgsize
      → length r.p_buffer ≡ r.mq_attr.mq_msgsize
      → Returns
          (λ (buffers, _, s').
            (buffers ≡ all_padded r.mq_attr.mq_msgsize messages) × (contents s' name ≡ []))
          (send_all calls q messages s >>= λ s'. receive_all calls (length messages) r s')
  send_all-receive_all messages q r name s sender receiver empty room fit large fits =
      Returns-bind (send_all-Sent messages q name s sender (omega (arith, ap length empty)) fit)
        λ s' (same, more).
          receive_all-Received messages r name s' (IsOpen-same receiver same)
            (more ∙ ap (λ c. c ++ messages) empty) large fits (AllFit-larger messages large fit)

  decode-padded :
      (m old : PosixMessageQueueObject) (size : ℕ)
      → IsMessage m
      → deserialize_from_char_buf old (padded size (serialize_to_char_buf m (zeros 16)))
        ≡ record m { event = old.event }
  decode-padded m old size v =
      let rest = zeros (size - length (serialize_to_char_buf m (zeros 16))) in
      ap (deserialize_from_char_buf old) (serialize-append m rest)
      ∙ message_round_trip m old (zeros 16 ++ rest) v (omega arith)

  -- On such a system, a message object that is sent to an empty queue is received as 16 bytes, and the
  -- buffer of the receiver decodes to its task and index, with the event of the decoding object.
  pub message-receive :
      (m old : PosixMessageQueueObject) (q r : PosixMessageQueue) (name : String) (s : calls.State)
      → IsMessage m
      → IsOpen fifo q name s
      → IsOpen fifo r name s
      → contents s name ≡ []
      → 0 < max_msg name
      → 16 ≤ msg_size name
      → msg_size name ≤ r.mq_attr.mq_msgsize
      → length r.p_buffer ≡ r.mq_attr.mq_msgsize
      → Returns
          (λ (n, r', _).
            (n ≡ 16)
            × (deserialize_from_char_buf old (get_msg r') ≡ record m { event = old.event }))
          (send calls q (serialize_to_char_buf m (zeros 16)) s >>= λ s'. receive calls r s')
  message-receive m old q r name s v sender receiver empty room sixteen large fits =
      let bytes = serialize_to_char_buf m (zeros 16) in
      let size : length bytes ≡ 16 = length-serialize m in
      Returns-bind
        (send-Sent fifo q name bytes s sender (omega (arith, ap length empty))
          (omega (arith, size)))
        λ s' (same, more).
          Returns-map
            (receive-Received fifo r name bytes [] s' (IsOpen-same receiver same)
              (more ∙ ap (λ c. c ++ bytes ∷ []) empty) large fits)
            λ (n, r', s'') (got, _, _). (
              got.count ∙ size,
              ap (deserialize_from_char_buf old) got.buffer
                  ∙ decode-padded m old r.mq_attr.mq_msgsize v,
            )

  -- A queue that was not opened, for whatever reason, ends the task that sends to it: the `assert` in
  -- `send` fails.
  pub send-aborted :
      (name : String) (flags non_blocking mode max_msg msg_size : ℕ) (buffer : List ℕ)
      (s s' : calls.State) (e : Errno) (m : List ℕ)
      → calls.mq_open name flags mode
          (record {
            mq_flags = non_blocking;
            mq_maxmsg = max_msg;
            mq_msgsize = msg_size;
            mq_curmsgs = 0;
          })
          s
        ≡ (failed e, s')
      → (let ((q, lines), after) =
            posix_message_queue calls name flags non_blocking mode max_msg msg_size buffer s in
          send calls q m after)
        ≡ aborted
  unfolding posix_message_queue send
  send-aborted name flags non_blocking mode max_msg msg_size buffer s s' e m fails =
      rw (fails, fifo.no_descriptor m s') refl
