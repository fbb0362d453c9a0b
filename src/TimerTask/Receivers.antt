-- ===== src/TimerTask/Receivers.antt =====
-- platform/Timer.cpp, `processACallback`, and the receiver: the messages of many one-shot timers that
-- have fired, received one after the other.
pub mod Turns
use mathlib.Core.Path.{subst}
use timer_and_callback.Base.{
  ℕ, zero, suc, ◌*◌, ◌≤◌, ◌<◌, ◌≡◌, ◌≢◌, refl, ap, sym, ◌∙◌, inl, inr, some, none, true, false,
  List, [], ◌∷◌, ◌==◌, Bool-cases, length, has, occurrences, ok, Returns, returns, Returns-map,
  arith,
}
use timer_and_callback.Types.{Result}
use timer_and_callback.Pool.{MemoryPool, null, get_memory_location_from_index, remove_from_pool}
use timer_and_callback.Pool.Addresses.{
  IsPlaced, SamePlace, remove_from_pool-SamePlace, IsPlaced_same, location-SamePlace,
}
use timer_and_callback.Pool.Free.{IsPool, remove_from_pool-cons}
use timer_and_callback.Wire.{zeros}
use timer_and_callback.Message.{
  PosixMessageQueueObject, serialize_to_char_buf, deserialize_from_char_buf,
}
use timer_and_callback.Message.RoundTrip.{IsMessage, message_round_trip}
use timer_and_callback.World.{TimerType, TimerState, Timer, World, M, pure, ◌>>=◌}
use timer_and_callback.Timer.{get_timer_at_index, process_a_callback}
use timer_and_callback.Timer.Callback.{deleted, after_trigger, process_a_callback-one_shot}
use timer_and_callback.TimerTask.{oldest, receive, deliver}
use timer_and_callback.TimerTask.Fire.{message}
use timer_and_callback.TimerTask.Drain.{on_top}

-- So many turns of the receiver of a task.
pub deliver_all : ℕ → ℕ → PosixMessageQueueObject → M (Unit {0})
deliver_all queue zero fresh = pure tt
deliver_all queue (suc count) fresh = do _ ← deliver queue fresh; deliver_all queue count fresh

-- The message that was sent first is the same when more have been sent.
pub oldest-on_top :
    (queue : ℕ) (f : ℕ → ℕ × List ℕ) (ps m : List ℕ) (sent rest : List (ℕ × List ℕ))
    → oldest queue sent ≡ some (m, rest)
    → oldest queue (on_top f ps sent) ≡ some (m, on_top f ps rest)
oldest-on_top queue f [] m sent rest e = e
oldest-on_top queue f (p ∷ ps) m sent rest e =
    oldest-on_top queue f ps m (f p ∷ sent) (f p ∷ rest) (rw e refl)

-- The timer at `p`, the object `index` of the pool, is a one-shot timer that has fired; `cb` is its
-- callback object, and `bytes` the message about it.
pub record IsCallable (w : World) (p index cb : ℕ) (bytes : List ℕ) : Type 0 where
  pub timer : Timer
  pub object : w.timers p ≡ some timer
  pub one_shot : timer.type ≡ TimerType.one_shot
  pub finished : timer.state ≡ TimerState.done
  pub callback : timer.p_cb ≡ cb
  pub some_cb : cb ≢ null
  pub there : w.callbacks cb ≡ true
  pub inside : index < w.pool.max_number_of_objects
  pub location : p ≡ get_memory_location_from_index w.pool index
  pub sent : bytes ≡ serialize_to_char_buf (message index) (zeros 16)

message-IsMessage :
    {pool : MemoryPool}
    → IsPlaced pool
    → (index : ℕ) → index < pool.max_number_of_objects
    → IsMessage (message index)
message-IsMessage {pool} placed index inside =
    let room : pool.max_number_of_objects ≤ pool.max_number_of_objects * pool.object_size =
      grind (arith, placed.sized) in
    record {
      from = omega arith;
      event = omega arith;
      shm_index = omega (arith, inside, placed.ends, room);
    }

module _ {w : World} {p index cb : ℕ} {bytes : List ℕ} (unlocked : 0 < w.semaphore)
    (placed : IsPlaced w.pool) (v : IsCallable w p index cb bytes) where
  -- The world after the turn in which the message is received.
  abbrev pub called : World
  called = deleted (after_trigger w cb) p cb

  pub receive-called :
      (fresh : PosixMessageQueueObject) → receive fresh bytes w ≡ ok (Result.ok, called)
  unfolding receive get_timer_at_index
  receive-called fresh =
      let decoded : get_memory_location_from_index w.pool
            (deserialize_from_char_buf fresh
              (serialize_to_char_buf (message index) (zeros 16))).shm_index
          ≡ p =
        rw
          (message_round_trip (message index) fresh (zeros 16)
            (message-IsMessage placed index v.inside) (omega arith))
          (sym v.location) in
      rw (v.sent, ◌>>=◌, decoded)
        (subst (λ c. process_a_callback p w ≡ ok (Result.ok, deleted (after_trigger w c) p c))
          v.callback
          (process_a_callback-one_shot (record { unlocked = unlocked; object = v.object })
            (rw v.callback v.some_cb) (rw v.callback v.there) v.one_shot v.finished))

-- The messages on their way are those of the timers `order`, all to the task `queue`, each there
-- once, one-shot timers that have fired, each with a callback object of its own; and of the pool
-- the objects `free` are free.
pub record IsOwed (w : World) (order free : List ℕ) (index cb : ℕ → ℕ) (msg : ℕ → ℕ × List ℕ)
    (queue : ℕ) : Type 0 where
  pub unlocked : 0 < w.semaphore
  pub placed : IsPlaced w.pool
  pub pool : IsPool w.pool free
  pub sent : w.sent ≡ on_top msg order []
  pub own : (p : ℕ) → 0 < occurrences p order → (msg p).0 ≡ queue
  pub each : (p : ℕ) → 0 < occurrences p order → IsCallable w p (index p) (cb p) (msg p).1
  pub once : (p : ℕ) → occurrences p order ≤ 1
  pub apart : (p q : ℕ) → 0 < occurrences p order → 0 < occurrences q order → cb p ≡ cb q → p ≡ q
  pub used : (p : ℕ) → 0 < occurrences p order → has (index p) free ≡ false

-- Every message has been received: the callbacks have been triggered, each once and in the order in
-- which the timers fired, and are deleted, the timers are gone, and their objects are free again.
pub record IsAnswered (w : World) (order free : List ℕ) (index cb : ℕ → ℕ) (w' : World)
    : Type 0 where
  pub triggered : w'.triggered ≡ on_top cb order w.triggered
  pub gone : (p : ℕ) → 0 < occurrences p order → w'.timers p ≡ none
  pub others : (p : ℕ) → occurrences p order ≡ 0 → w'.timers p ≡ w.timers p
  pub callbacks : (p : ℕ) → 0 < occurrences p order → w'.callbacks (cb p) ≡ false
  pub other_callbacks :
      (c : ℕ) → ((p : ℕ) → 0 < occurrences p order → cb p ≢ c) → w'.callbacks c ≡ w.callbacks c
  pub quiet : w'.sent ≡ []
  pub heap : w'.min_heap ≡ w.min_heap
  pub semaphore : w'.semaphore ≡ w.semaphore
  pub pool : IsPool w'.pool (on_top index order free)
