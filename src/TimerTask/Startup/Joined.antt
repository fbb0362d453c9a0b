-- ===== src/TimerTask/Startup/Joined.antt =====
-- platform/Timer.cpp, MemoryPool.cpp and TimerMinHeap.cpp together: one more timer is made and
-- scheduled.
use mathlib.Core.Path.{subst}
use timer_and_callback.Base.{
  ℕ, suc, ◌+◌, ◌≤◌, ◌<◌, ◌≡◌, ◌≢◌, refl, sym, ap, ◌∙◌, inl, inr, some, true, List, ◌∷◌,
  AllBelow-mem, Bool-cases, ◌==◌, has, one_if_eq, Returns, Returns-map, arith,
}
use timer_and_callback.Types.{u64_mod, max_number_of_timers}
use timer_and_callback.Pool.{get_memory_location_from_index, get_index_from_memory_location}
use timer_and_callback.Pool.Addresses.{
  SamePlace, get_from_pool-SamePlace, location-SamePlace, index-location,
}
use timer_and_callback.Pool.Free.{IsPool, get_from_pool-cons}
use timer_and_callback.Message.{max_tasks}
use timer_and_callback.World.{World}
use timer_and_callback.Timer.Times.{now, later}
use timer_and_callback.Timer.Ready.{live_of}
use timer_and_callback.Timer.Create.{with_new, new_timer-made}
use timer_and_callback.Timer.Schedule.{IsScheduled}
use timer_and_callback.TimerTask.System.{IsSystem}
use timer_and_callback.TimerTask.Kept.{later-IsSystem, scheduled-IsSystem}
use timer_and_callback.TimerTask.Drain.{held}
use timer_and_callback.TimerTask.Made.{kept_timer, with_new-IsSystem, with_new-IsHeap}
use timer_and_callback.TimerTask.Startup.{
  Request, start, new_of, started, schedule_as-IsScheduled, IsAwaited, IsRunning,
}

-- The timer that has been made in the object `index` of the pool is in the heap, in addition to those
-- that were in it, and the other timers, the callbacks and the messages are as before.
pub record IsJoined (w : World) (index : ℕ) (free : List ℕ) (bound : ℕ) (r : Request) (w' : World)
    : Type 0 where
  pub running : IsRunning w' free bound
  pub timer : w'.timers (get_memory_location_from_index w.pool index) ≡ some (started (now w) r)
  pub others : (p : ℕ) → p ≢ get_memory_location_from_index w.pool index → w'.timers p ≡ w.timers p
  pub joined :
      (p : ℕ) → held w' p ≡ held w p + one_if_eq (get_memory_location_from_index w.pool index) p
  pub grown :
      w'.min_heap.number_of_timers_being_managed ≡ w.min_heap.number_of_timers_being_managed + 1
  pub same_place : SamePlace w.pool w'.pool
  pub clock : w'.clock ≡ (λ k. w.clock (suc k))
  pub callbacks : w'.callbacks ≡ w.callbacks
  pub triggered : w'.triggered ≡ w.triggered
  pub sent : w'.sent ≡ w.sent
  pub queues : w'.queues ≡ w.queues

-- One more timer.
module _ {w : World} {index : ℕ} {free : List ℕ} {bound : ℕ} (v : IsRunning w (index ∷ free) bound)
    (r : Request) where
  abbrev this : ℕ
  this = get_memory_location_from_index w.pool index

  abbrev pub created : World
  created = with_new w index (new_of r)

  inside : index < w.pool.max_number_of_objects
  inside = v.pool.inside.0

  same_place : SamePlace w.pool created.pool
  same_place = get_from_pool-SamePlace w.pool

  absent : held w this ≡ 0
  absent = v.unheld index (ground arith)

  pub created_object : created.timers this ≡ some (new_of r)
  created_object = ground arith

  pub created-IsSystem : r.context < max_tasks → IsSystem created
  created-IsSystem task = with_new-IsSystem v.system index (new_of r) inside task absent

  -- Two objects of the pool stand at two addresses.
  other_place : (i : ℕ) → has i free ≡ true → (get_memory_location_from_index w.pool i ≢ this)
  other_place i h e =
      let below = AllBelow-mem w.pool.max_number_of_objects i free v.pool.inside.1 h in
      let same : i ≡ index =
        sym (index-location v.system.placed i below)
        ∙ ap (get_index_from_memory_location w.pool) e
        ∙ index-location v.system.placed index inside in
      ground (arith, v.pool.distinct.0)

  module _ {w' : World} (s : IsScheduled (later created) this (started (now w) r) w')
      (task : r.context < max_tasks)
      (room : w.min_heap.number_of_timers_being_managed < max_number_of_timers)
      (in_time : now w + r.timeout ≤ bound) (fits : bound < u64_mod) where
    joined : (p : ℕ) → held w' p ≡ held w p + one_if_eq this p
    joined p = rw s.heap.grown (s.heap.items p)

    pool-SamePlace : SamePlace w.pool w'.pool
    pool-SamePlace = subst (SamePlace w.pool) (sym s.beside.0) same_place

    unheld_yet :
        (i : ℕ) → has i free ≡ true → held w' (get_memory_location_from_index w'.pool i) ≡ 0
    unheld_yet i h =
        let old : held w (get_memory_location_from_index w.pool i) ≡ 0 =
          v.unheld i (ground arith) in
        let other = other_place i h in
        rw (location-SamePlace w.pool w'.pool i pool-SamePlace)
          (ground (arith, joined (get_memory_location_from_index w.pool i), old, other))

    still-IsAwaited : (p : ℕ) → 0 < held w' p → IsAwaited w' bound p
    still-IsAwaited p h = elim (Bool-cases (p == this)) [
      | inl e ↦
          let same : p ≡ this = ground arith in
          subst (IsAwaited w' bound) (sym same) (record {
            timer = started (now w) r;
            object = s.timer;
            active = refl;
            before = omega arith;
          })
      | inr e ↦
          let a = v.awaited p (ground (arith, joined p)) in
          let ne : p ≢ this = ground arith in
          record {
            timer = a.timer;
            object =
                s.others p ne ∙ kept_timer v.system index (new_of r) inside task p ne ∙ a.object;
            active = a.active;
            before = a.before;
          }
    ]

    scheduled-IsRunning : IsRunning w' free bound
    scheduled-IsRunning = record {
      system =
          scheduled-IsSystem (later-IsSystem (created-IsSystem task)) (created_object, room, absent)
            refl s;
      pool = subst (λ p. IsPool p free) (sym s.beside.0) (get_from_pool-cons v.pool).1;
      unheld = unheld_yet;
      in_order =
          s.ordered absent
            (with_new-IsHeap v.system index (new_of r) inside task absent v.in_order);
      awaited = still-IsAwaited;
    }

    -- What one more timer leaves.
    pub started-IsJoined : IsJoined w index free bound r w'
    started-IsJoined = record {
      running = scheduled-IsRunning;
      timer = s.timer;
      others = λ p ne. s.others p ne ∙ kept_timer v.system index (new_of r) inside task p ne;
      joined = joined;
      grown = s.heap.grown;
      same_place = pool-SamePlace;
      clock = s.beside.4;
      callbacks = s.beside.1;
      triggered = s.beside.2;
      sent = s.beside.3;
      queues = s.beside.5;
    }

  -- A timer that is made in the first free object of the pool and scheduled, with room in the heap and
  -- a time that ends before 2 ^ 64, returns: it is in the heap once more, and all stays in order.
  pub start-IsJoined :
      r.context < max_tasks
      → w.min_heap.number_of_timers_being_managed < max_number_of_timers
      → now w + r.timeout ≤ bound
      → bound < u64_mod
      → Returns (λ (_, w'). IsJoined w index free bound r w') (start r w)
  unfolding start
  start-IsJoined task room in_time fits =
      let unlocked : 0 < w.semaphore = omega (arith, v.system.unlocked) in
      let here = (created-IsSystem task) in
      rw (new_timer-made w index unlocked v.system.placed v.pool r.creating r.context r.memory) (
        Returns-map
          (schedule_as-IsScheduled r.mode (record { unlocked = unlocked; object = created_object })
            (record { room = room; live = here.live; object = live_of created created_object })
            r.p_cb r.timeout)
          λ r s. started-IsJoined s task room in_time fits)
