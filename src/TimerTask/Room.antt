-- ===== src/TimerTask/Room.antt =====
-- platform/TimerTask.cpp: the queues of the tasks, and whether a message can be sent to them.
use timer_and_callback.Base.{
  ℕ, suc, ◌+◌, ◌<◌, ◌≤◌, ◌≡◌, refl, ap, Option, some, true, List, ◌∷◌, ltb, ok, arith,
}
use timer_and_callback.Message.{max_tasks}
use timer_and_callback.World.{World}
use timer_and_callback.TimerTask.{waiting, send}

-- A queue has been opened and has room for `n` messages more than those that wait in it.
pub record HasRoom (queues : ℕ → Option ℕ) (sent : List (ℕ × List ℕ)) (queue n : ℕ) : Type 0 where
  pub capacity : ℕ
  pub opened : queues queue ≡ some capacity
  pub enough : waiting queue sent + n ≤ capacity

-- A message takes up room for one.
pub sent-HasRoom :
    {queues queues' : ℕ → Option ℕ} {sent sent' : List (ℕ × List ℕ)} {queue n : ℕ}
    (message : ℕ × List ℕ)
    → queues' ≡ queues
    → sent' ≡ message ∷ sent
    → HasRoom queues sent queue (suc n)
    → HasRoom queues' sent' queue n
unfolding waiting
sent-HasRoom {queue = queue} message same more r = record {
  capacity = r.capacity;
  opened = rw same r.opened;
  enough = ground (arith, ap (waiting queue) more, r.enough);
}

-- Fewer are needed, and the queues are as before.
pub same-HasRoom :
    {queues queues' : ℕ → Option ℕ} {sent sent' : List (ℕ × List ℕ)} {queue n m : ℕ}
    → queues' ≡ queues
    → sent' ≡ sent
    → m ≤ n
    → HasRoom queues sent queue n
    → HasRoom queues' sent' queue m
same-HasRoom {queue = queue} same unsent fewer r = record {
  capacity = r.capacity;
  opened = rw same r.opened;
  enough = rw unsent (omega (arith, r.enough));
}

-- A message to a task whose queue has room is sent.
pub send-HasRoom :
    (queue : ℕ) (buf : List ℕ) (w : World)
    → queue < max_tasks
    → HasRoom w.queues w.sent queue 1
    → send queue buf w ≡ ok (tt, record w { sent = (queue, buf) ∷ w.sent })
unfolding send
send-HasRoom queue buf w task r =
    let one_of_them : ltb queue max_tasks ≡ true = ground arith in
    let some_room : ltb (waiting queue w.sent) r.capacity ≡ true = ground (arith, r.enough) in
    rw (one_of_them, r.opened, some_room) refl
