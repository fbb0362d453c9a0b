-- ===== src/TimerTask/Startup/Answered.antt =====
-- platform/Timer.cpp, MemoryPool.cpp, TimerMinHeap.cpp and TimerTask.cpp together: one-shot timers are
-- made and scheduled, TimerTask fires them, and the receiver calls back.
use mathlib.Core.Path.{subst}
use timer_and_callback.Base.{
  ℕ, ◌+◌, ◌≤◌, ◌<◌, ◌≡◌, ◌≢◌, refl, sym, ap, ◌∙◌, inl, inr, none, some, false, Option, Bool, List,
  [], ◌∷◌, ◌++◌, Bool-cases, ◌==◌, length, has, occurrences, Returns, Returns-bind, Returns-map,
  arith,
}
use timer_and_callback.Base.Occurrences.{images, images_same, image_pos, image_twice, image_of}
use timer_and_callback.Types.{u64_mod, u32, max_number_of_timers}
use timer_and_callback.Pool.{get_memory_location_from_index, get_index_from_memory_location}
use timer_and_callback.Pool.Addresses.{IsPlaced, index-location}
use timer_and_callback.Pool.Free.{IsPool}
use timer_and_callback.Message.{PosixMessageQueueObject}
use timer_and_callback.World.{TimerState, World, M, ◌>>◌}
use timer_and_callback.TimerTask.{rounds}
use timer_and_callback.TimerTask.Room.{HasRoom}
use timer_and_callback.TimerTask.Cycle.{reading}
use timer_and_callback.TimerTask.System.{IsObject, IsObjectOrNone}
use timer_and_callback.TimerTask.Drain.{
  held, IsMonotone, IsDrained, finish, task_of, message_of, on_top,
}
use timer_and_callback.TimerTask.Receivers.{deliver_all, IsCallable, IsOwed, IsAnswered}
use timer_and_callback.TimerTask.Receivers.Turns.{deliver_all-IsAnswered}
use timer_and_callback.TimerTask.Startup.{Request, start_all, IsRunning}
use timer_and_callback.TimerTask.Startup.Drained.{
  locations, length-locations, AllInTime, RequestsHaveRoom, IsLaunched, start_all-IsServed,
}
use timer_and_callback.TimerTask.Startup.OneShots.{
  callbacks_of, AllOneShot, cb_of, occurrences-on_top, length-on_top, own_cbs, IsStartedOneShot,
  all-IsStartedOneShot,
}

-- Timers are made and scheduled, TimerTask makes as many rounds, and the receiver of a task
-- has as many turns.
pub serve_all : ℕ → List Request → PosixMessageQueueObject → M (Unit {0})
serve_all queue requests fresh = do
  start_all requests
  rounds (length requests)
  deliver_all queue (length requests) fresh

-- No callback is given to two timers.
abbrev pub AllApart : List Request → Type 0
AllApart requests = (c : ℕ) → occurrences c (callbacks_of requests) ≤ 1

-- Each of the callbacks has been triggered exactly once more and is deleted, the timers are gone
-- and as many objects of the pool are free as before, no timer is in the heap and no message on its
-- way, and the other timers, callbacks and the semaphore are as before.
pub record IsAllDone (w : World) (used free : List ℕ) (requests : List Request) (w' : World)
    : Type 0 where
  pub triggered :
      (c : ℕ)
      → occurrences c w'.triggered
        ≡ occurrences c w.triggered + occurrences c (callbacks_of requests)
  pub deleted : (c : ℕ) → 0 < occurrences c (callbacks_of requests) → w'.callbacks c ≡ false
  pub other_callbacks :
      (c : ℕ) → occurrences c (callbacks_of requests) ≡ 0 → w'.callbacks c ≡ w.callbacks c
  pub gone : (p : ℕ) → 0 < occurrences p (locations w.pool used) → w'.timers p ≡ none
  pub others : (p : ℕ) → occurrences p (locations w.pool used) ≡ 0 → w'.timers p ≡ w.timers p
  pub none_left : w'.min_heap.number_of_timers_being_managed ≡ 0
  pub quiet : w'.sent ≡ []
  pub semaphore : w'.semaphore ≡ w.semaphore
  pub free_again : List ℕ
  pub pool : IsPool w'.pool free_again
  pub as_many : length free_again ≡ length used + length free

module _ {w w1 w2 : World} {used free : List ℕ} {bound : ℕ} {requests : List Request} (queue : ℕ)
    (same : length used ≡ length requests) (unlocked : w.semaphore ≡ 1)
    (empty : w.min_heap.number_of_timers_being_managed ≡ 0) (quiet : w.sent ≡ [])
    (one_shots : AllOneShot queue w.callbacks requests) (apart : AllApart requests)
    (l : IsLaunched w used free bound requests w1) {order : List ℕ} (d : IsDrained w1 order w2)
    (all : (p : ℕ) → occurrences p order ≡ occurrences p (locations w.pool used)) where
  abbrev cb : ℕ → ℕ
  cb = cb_of w1.timers

  abbrev index : ℕ → ℕ
  index = get_index_from_memory_location w1.pool

  places : length (locations w.pool used) ≡ length requests
  places = length-locations w.pool used ∙ same

  called : (c : ℕ) → occurrences c (images cb order) ≡ occurrences c (callbacks_of requests)
  called c =
      images_same cb order (locations w.pool used) all c
      ∙ ap (occurrences c) (
          own_cbs queue w.callbacks w1.timers w.clock (locations w.pool used) requests places
            l.timers one_shots)

  module _ (p : ℕ) (h : 0 < occurrences p order) where
    one : IsStartedOneShot queue w.callbacks w1.timers p
    one =
        all-IsStartedOneShot queue w.callbacks w1.timers w.clock (locations w.pool used) requests
          places l.timers one_shots p (omega (arith, all p))

    place : IsObject w1.pool p one.timer
    place = subst (IsObjectOrNone w1.pool p) one.object (l.running.system.objects p)

    index-place : index p ≡ place.index
    index-place =
        ap index place.location ∙ index-location l.running.system.placed place.index place.inside

    location : p ≡ get_memory_location_from_index w1.pool (index p)
    location = place.location ∙ ap (get_memory_location_from_index w1.pool) (sym index-place)

    fired : w2.timers p ≡ finish (some one.timer)
    fired = d.fired p (omega (arith, d.all_of_them p)) ∙ ap finish one.object

    fired-IsCallable : IsCallable w2 p (index p) (cb p) (message_of w1 p).1
    fired-IsCallable = record {
      timer = record (one.timer) {
        number_of_times_fired = u32 (one.timer.number_of_times_fired + 1);
        state = TimerState.done;
      };
      object = fired;
      one_shot = one.one_shot;
      finished = refl;
      callback = one.own;
      some_cb = one.some_cb;
      there = ap (λ c. c (cb p)) (d.callbacks ∙ l.callbacks) ∙ one.there;
      inside = rw (d.pool, index-place) place.inside;
      location = location ∙ ap (λ q. get_memory_location_from_index q (index p)) (sym d.pool);
      sent = refl;
    }

    index_used : has (index p) free ≡ false
    index_used = elim (Bool-cases (has (index p) free)) [
      | inl e ↦
          let unheld = subst (λ q. held w1 q ≡ 0) (sym location) (l.running.unheld (index p) e) in
          absurd (omega (arith, unheld, d.all_of_them p))
      | inr e ↦ e
    ]

  own_callback : (p q : ℕ) → 0 < occurrences p order → 0 < occurrences q order → cb p ≡ cb q → p ≡ q
  own_callback p q hp hq e = elim (Bool-cases (p == q)) [
    | inl same_one ↦ ground arith
    | inr different ↦ absurd (
        omega (arith, image_twice cb p q order hp hq (ground arith) e, called (cb p), apart (cb p)))
  ]

  own_queue : (p : ℕ) → 0 < occurrences p order → (message_of w1 p).0 ≡ queue
  own_queue p h = ap task_of (one p h).object ∙ (one p h).task

  drained-IsOwed : IsOwed w2 order free index cb (message_of w1) queue
  drained-IsOwed = record {
    unlocked = omega (arith, d.semaphore, l.running.system.unlocked);
    placed = subst IsPlaced (sym d.pool) l.running.system.placed;
    pool = subst (λ q. IsPool q free) (sym d.pool) l.running.pool;
    sent = d.sent ∙ ap (on_top (message_of w1) order) (l.sent ∙ quiet);
    own = own_queue;
    each = fired-IsCallable;
    once = λ p. omega (arith, d.all_of_them p, l.running.system.once p);
    apart = own_callback;
    used = index_used;
  }

  module _ {w3 : World} (a : IsAnswered w2 order free index cb w3) (c : ℕ) where
    triggered_once :
        occurrences c w3.triggered
        ≡ occurrences c w.triggered + occurrences c (callbacks_of requests)
    triggered_once =
        let before = ap (on_top cb order) (d.triggered ∙ l.triggered) in
        omega (
          arith,
          ap (occurrences c) (a.triggered ∙ before),
          occurrences-on_top cb c order w.triggered,
          called c,
        )

    deleted_after : 0 < occurrences c (callbacks_of requests) → w3.callbacks c ≡ false
    deleted_after h =
        let (p, there, e) = image_of cb c order (omega (arith, called c)) in
        subst (λ b. w3.callbacks b ≡ false) e (a.callbacks p there)

    not_called :
        occurrences c (callbacks_of requests) ≡ 0 → (p : ℕ) → 0 < occurrences p order → cb p ≢ c
    not_called h p there e =
        let called_then =
          subst (λ b. 0 < occurrences b (images cb order)) e (image_pos cb p order there) in
        omega (arith, called_then, called c)

    kept_callback : occurrences c (callbacks_of requests) ≡ 0 → w3.callbacks c ≡ w.callbacks c
    kept_callback h = a.other_callbacks c (not_called h) ∙ ap (λ f. f c) (d.callbacks ∙ l.callbacks)

  answered-IsAllDone :
      {w3 : World} → IsAnswered w2 order free index cb w3 → IsAllDone w used free requests w3
  answered-IsAllDone {w3} a = record {
    triggered = λ c. triggered_once a c;
    deleted = λ c h. deleted_after a c h;
    other_callbacks = λ c h. kept_callback a c h;
    gone = λ p h. a.gone p (omega (arith, all p));
    others = λ p h.
        a.others p (omega (arith, all p))
        ∙ d.others p (omega (arith, d.all_of_them p, all p))
        ∙ l.others p h;
    none_left = ap (λ s. s.number_of_timers_being_managed) a.heap ∙ d.none_left;
    quiet = a.quiet;
    semaphore = omega (arith, a.semaphore, d.semaphore, l.running.system.unlocked, unlocked);
    free_again = on_top index order free;
    pool = a.pool;
    as_many = omega (arith, length-on_top index order free, d.counted, l.grown, empty, same);
  }

requests-HaveRoom :
    {queue n : ℕ} {queues : ℕ → Option ℕ} {sent : List (ℕ × List ℕ)} (callbacks : ℕ → Bool)
    (requests : List Request)
    → AllOneShot queue callbacks requests
    → HasRoom queues sent queue n
    → RequestsHaveRoom queues sent n requests
requests-HaveRoom callbacks [] one_shots room = tt
requests-HaveRoom {n = n} {queues = queues} {sent = sent} callbacks (r ∷ requests)
      (task, kind, no_cb, some_cb, there, others) room =
    (
      subst (λ q. HasRoom queues sent q n) (sym task) room,
      requests-HaveRoom callbacks requests others room,
    )

-- From a state in which no call is in progress, no timer is in the heap and no message on its way,
-- one-shot timers of one task are made and scheduled, at most 1024 and at most as many as objects
-- of the pool are free, each with a callback object of its own, in memory that holds none, and with
-- a time that ends at `bound` at the latest, which is before 2 ^ 64; TimerTask then makes as many
-- rounds, the first of them not before `bound`, with a clock that does not go back and room for as
-- many messages in the queue of their task, and the receiver of that task has as many turns. All
-- the calls return; each of the callbacks has been triggered exactly once more and no other has,
-- they and the timers are deleted, the heap is empty, no message is on its way, as many objects of
-- the pool are free as before, and the other timers and callbacks and the semaphore are as before.
pub serve_all-IsAllDone :
    (queue : ℕ) (requests : List Request) (used free : List ℕ) (bound : ℕ) (w : World)
    (fresh : PosixMessageQueueObject)
    → length used ≡ length requests
    → IsRunning w (used ++ free) bound
    → w.min_heap.number_of_timers_being_managed ≡ 0
    → w.sent ≡ []
    → AllOneShot queue w.callbacks requests
    → AllApart requests
    → length requests ≤ max_number_of_timers
    → bound < u64_mod
    → AllInTime bound w.clock requests
    → IsMonotone w.clock
    → bound ≤ reading w.clock (length requests)
    → HasRoom w.queues w.sent queue (length requests)
    → Returns (λ (_, w'). IsAllDone w used free requests w') (serve_all queue requests fresh w)
unfolding serve_all
serve_all-IsAllDone queue requests used free bound w fresh same v empty quiet one_shots apart room
      fits in_time monotone late queues =
    Returns-bind
      (start_all-IsServed requests used free bound w same v empty room fits in_time monotone late
        (requests-HaveRoom w.callbacks requests one_shots queues))
      λ (_, w1) (l, served). Returns-bind served λ (_, w2) (order, d, all).
        let many : length order ≡ length requests = omega (arith, d.counted, l.grown, empty) in
        subst
          (λ n.
            Returns (λ (_, w'). IsAllDone w used free requests w') (deliver_all queue n fresh w2))
          many
          (Returns-map
            (deliver_all-IsAnswered order free _ _ _ queue w2 fresh
              (drained-IsOwed queue same v.system.unlocked empty quiet one_shots apart l d all))
            λ _ a.
              answered-IsAllDone queue same v.system.unlocked empty quiet one_shots apart l d all a)
