-- ===== src/TimerTask/Startup/Drained.antt =====
-- platform/Timer.cpp, MemoryPool.cpp, TimerMinHeap.cpp and TimerTask.cpp together: timers are made and
-- scheduled, and TimerTask fires them.
use mathlib.Core.Path.{subst}
use timer_and_callback.Base.{
  ℕ, suc, ◌+◌, ◌≤◌, ◌<◌, ◌≡◌, refl, sym, ap, inl, inr, Bool-cases, ◌==◌, ◌∙◌, some, Option, List,
  [], ◌∷◌, ◌++◌, length, occurrences, Returns, returns, Returns-bind, Returns-map, arith,
}
use timer_and_callback.Types.{u64_mod, max_number_of_timers}
use timer_and_callback.Pool.{MemoryPool, get_memory_location_from_index}
use timer_and_callback.Pool.Addresses.{SamePlace, location-SamePlace}
use timer_and_callback.Message.{max_tasks}
use timer_and_callback.World.{Timer, Timeval, World}
use timer_and_callback.Timer.Times.{now}
use timer_and_callback.TimerTask.{rounds}
use timer_and_callback.TimerTask.Room.{HasRoom, same-HasRoom}
use timer_and_callback.TimerTask.Cycle.{reading}
use timer_and_callback.TimerTask.Drain.{
  held, none_held, task_of, AllHaveRoom, IsMonotone, IsFiring, IsDrained, rounds-IsDrained,
}
use timer_and_callback.TimerTask.Startup.{Request, start_all, started, IsRunning}
use timer_and_callback.TimerTask.Startup.Joined.{IsJoined, start-IsJoined}

abbrev pub locations : MemoryPool → List ℕ → List ℕ
locations pool [] = []
locations pool (i ∷ indices) = get_memory_location_from_index pool i ∷ locations pool indices

locations-SamePlace :
    (pool pool' : MemoryPool) (indices : List ℕ)
    → SamePlace pool pool'
    → locations pool' indices ≡ locations pool indices
locations-SamePlace pool pool' [] same = refl
locations-SamePlace pool pool' (i ∷ indices) same =
    λ k. location-SamePlace pool pool' i same k ∷ locations-SamePlace pool pool' indices same k

pub length-locations :
    (pool : MemoryPool) (indices : List ℕ) → length (locations pool indices) ≡ length indices
length-locations pool [] = refl
length-locations pool (i ∷ indices) = omega (arith, length-locations pool indices)

-- Each of the timers is for a task that can be sent to, and its time, counted from the reading of the
-- clock at which it is scheduled, ends at `bound` at the latest.
abbrev pub AllInTime : ℕ → (ℕ → Timeval) → List Request → Type 0
AllInTime bound clock [] = Unit
AllInTime bound clock (r ∷ requests) =
    (r.context < max_tasks)
    × (reading clock 0 + r.timeout ≤ bound)
    × AllInTime bound (λ k. clock (suc k)) requests

-- The queues of their tasks have room for so many messages.
abbrev pub RequestsHaveRoom : (ℕ → Option ℕ) → List (ℕ × List ℕ) → ℕ → List Request → Type 0
RequestsHaveRoom queues sent n [] = Unit
RequestsHaveRoom queues sent n (r ∷ requests) =
    HasRoom queues sent r.context n × RequestsHaveRoom queues sent n requests

-- At each of the addresses is the timer as it has been scheduled.
abbrev pub AllStarted : (ℕ → Option Timer) → (ℕ → Timeval) → List ℕ → List Request → Type 0
AllStarted timers clock [] requests = Unit
AllStarted timers clock (p ∷ ps) [] = Unit
AllStarted timers clock (p ∷ ps) (r ∷ requests) =
    (timers p ≡ some (started (reading clock 0) r))
    × AllStarted timers (λ k. clock (suc k)) ps requests

started-HasRoom :
    {queues : ℕ → Option ℕ} {sent : List (ℕ × List ℕ)} {n : ℕ} (timers : ℕ → Option Timer)
    (clock : ℕ → Timeval) (ps : List ℕ) (requests : List Request)
    → length ps ≡ length requests
    → AllStarted timers clock ps requests
    → RequestsHaveRoom queues sent n requests
    → (p : ℕ) → 0 < occurrences p ps
    → HasRoom queues sent (task_of (timers p)) n
started-HasRoom timers clock [] requests same a room p h = absurd (omega arith)
started-HasRoom timers clock (q ∷ ps) [] same a room p h = absurd (omega arith)
started-HasRoom {queues} {sent} {n} timers clock (q ∷ ps) (r ∷ requests) same (a, more) (one, room)
      p h =
    elim (Bool-cases (q == p)) [
      | inl e ↦
          let here : q ≡ p = ground arith in
          subst (λ o. HasRoom queues sent (task_of (timers o)) n) here
            (subst (λ queue. HasRoom queues sent queue n) (sym (ap task_of a)) one)
      | inr e ↦
          started-HasRoom timers (λ k. clock (suc k)) ps requests (omega arith) more room p
            (ground arith)
    ]

-- The timers have been made in the objects `used`, one after the other, and each is in the heap, in
-- addition to those that were in it.
pub record IsLaunched (w : World) (used free : List ℕ) (bound : ℕ) (requests : List Request)
    (w' : World) : Type 0 where
  pub running : IsRunning w' free bound
  pub timers : AllStarted w'.timers w.clock (locations w.pool used) requests
  pub others : (p : ℕ) → occurrences p (locations w.pool used) ≡ 0 → w'.timers p ≡ w.timers p
  pub joined : (p : ℕ) → held w' p ≡ held w p + occurrences p (locations w.pool used)
  pub grown :
      w'.min_heap.number_of_timers_being_managed
      ≡ w.min_heap.number_of_timers_being_managed + length requests
  pub clock : w'.clock ≡ (λ k. w.clock (length requests + k))
  pub callbacks : w'.callbacks ≡ w.callbacks
  pub triggered : w'.triggered ≡ w.triggered
  pub sent : w'.sent ≡ w.sent
  pub queues : w'.queues ≡ w.queues

pub none-IsLaunched :
    {w : World} {free : List ℕ} {bound : ℕ}
    → IsRunning w free bound
    → IsLaunched w [] free bound [] w
none-IsLaunched {w} v =
    let e : (k : ℕ) → k ≡ 0 + k = λ k. omega arith in
    record {
      running = v;
      timers = tt;
      others = λ p h. refl;
      joined = λ p. omega arith;
      grown = omega arith;
      clock = λ i k. w.clock (e k i);
      callbacks = refl;
      triggered = refl;
      sent = refl;
      queues = refl;
    }

module _ {w : World} {index : ℕ} {used free : List ℕ} {bound : ℕ} {r : Request}
    {requests : List Request} where
  pub joined-IsLaunched :
      {w' w'' : World}
      → IsJoined w index (used ++ free) bound r w'
      → IsLaunched w' used free bound requests w''
      → IsLaunched w (index ∷ used) free bound (r ∷ requests) w''
  joined-IsLaunched {w'} {w''} j l =
      let this = get_memory_location_from_index w.pool index in
      let same = locations-SamePlace w.pool w'.pool used j.same_place in
      let held_after =
        λ (p : ℕ). subst (λ ps. held w'' p ≡ held w' p + occurrences p ps) same (l.joined p) in
      let others_after = λ (p : ℕ).
        subst (λ ps. occurrences p ps ≡ 0 → w''.timers p ≡ w'.timers p) same (l.others p) in
      let only : occurrences this (locations w.pool used) ≡ 0 =
        ground (arith, held_after this, j.joined this, l.running.system.once this) in
      let e : (k : ℕ) → suc (length requests + k) ≡ suc (length requests) + k = λ k. omega arith in
      record {
        running = l.running;
        timers = (
          others_after this only ∙ j.timer,
          subst (λ c. AllStarted w''.timers c (locations w.pool used) requests) j.clock
              (subst (λ ps. AllStarted w''.timers w'.clock ps requests) same l.timers),
        );
        others = λ p h. others_after p (omega arith) ∙ j.others p (ground arith);
        joined = λ p. omega (arith, held_after p, j.joined p);
        grown = omega (arith, l.grown, j.grown);
        clock = l.clock ∙ ap (λ c k. c (length requests + k)) j.clock ∙ (λ i k. w.clock (e k i));
        callbacks = l.callbacks ∙ j.callbacks;
        triggered = l.triggered ∙ j.triggered;
        sent = l.sent ∙ j.sent;
        queues = l.queues ∙ j.queues;
      }

-- Timers are made and scheduled one after the other, at least as many objects of the pool being
-- free and at least as many places of the heap, each for a task that can be sent to and with a time
-- that ends at `bound` at the latest, which is before 2 ^ 64, from a state in which no call is in
-- progress, the heap is in order and holds no free object, and its timers are active: all the calls
-- return. The timers stand in the first free objects of the pool, each in the heap exactly once
-- more than before, which stays in order, each active and due its timeout after the reading of the
-- clock at which it was scheduled; the other timers, the callbacks and the messages are as before.
pub start_all-IsLaunched :
    (requests : List Request) (used free : List ℕ) (bound : ℕ) (w : World)
    → length used ≡ length requests
    → IsRunning w (used ++ free) bound
    → w.min_heap.number_of_timers_being_managed + length requests ≤ max_number_of_timers
    → bound < u64_mod
    → AllInTime bound w.clock requests
    → Returns (λ (_, w'). IsLaunched w used free bound requests w') (start_all requests w)
unfolding start_all
start_all-IsLaunched [] [] free bound w same v room fits in_time = returns (none-IsLaunched v)
start_all-IsLaunched [] (i ∷ used) free bound w same v room fits in_time = absurd (omega arith)
start_all-IsLaunched (r ∷ requests) [] free bound w same v room fits in_time = absurd (omega arith)
start_all-IsLaunched (r ∷ requests) (i ∷ used) free bound w same v room fits (task, first, others) =
    Returns-bind (start-IsJoined v r task (omega arith) first fits) λ (_, w') j.
      Returns-map
        (start_all-IsLaunched requests used free bound w' (omega arith) j.running
          (omega (arith, j.grown)) fits
          (subst (λ c. AllInTime bound c requests) (sym j.clock) others))
        λ _ l. joined-IsLaunched j l

-- The timers in the objects `used` of the pool, and no other, have all fired, each once.
abbrev pub IsServed : World → List ℕ → World → World → Type 0
IsServed w used w' w'' =
    (order : List ℕ) × IsDrained w' order w''
    × ((p : ℕ) → occurrences p order ≡ occurrences p (locations w.pool used))

module _ {w w' : World} {used free : List ℕ} {bound : ℕ} {requests : List Request}
    (l : IsLaunched w used free bound requests w') where
  abbrev n : ℕ
  n = length requests

  launched_late : bound ≤ reading w.clock n → bound ≤ now w'
  launched_late late =
      let last : n + 0 ≡ n = omega arith in
      subst (λ c. bound ≤ reading c 0) (sym l.clock) (rw last late)

  launched-IsMonotone : IsMonotone w.clock → IsMonotone w'.clock
  launched-IsMonotone monotone =
      let next : (k : ℕ) → n + suc k ≡ suc (n + k) = λ k. omega arith in
      subst IsMonotone (sym l.clock) (λ k.
        subst (λ m. reading w.clock (n + k) ≤ reading w.clock m) (sym (next k)) (monotone (n + k)))

  launched-AllHaveRoom :
      {m : ℕ}
      → length used ≡ length requests
      → w.min_heap.number_of_timers_being_managed ≡ 0
      → RequestsHaveRoom w.queues w.sent m requests
      → AllHaveRoom w' m
  launched-AllHaveRoom same empty room p h = same-HasRoom l.queues l.sent (omega arith) (
      started-HasRoom w'.timers w.clock (locations w.pool used) requests
        (length-locations w.pool used ∙ same) l.timers room p
        (omega (arith, l.joined p, none_held w p empty)))

  launched-IsFiring : bound ≤ now w' → (p : ℕ) → 0 < held w' p → IsFiring w' p
  launched-IsFiring late p h =
      let a = l.running.awaited p h in
      record {
        timer = a.timer;
        object = a.object;
        active = a.active;
        due = omega (arith, a.before, late);
      }

-- From a state in which no call is in progress and no timer is in the heap, timers, one-shot or
-- periodic, are made and scheduled, at most 1024 and at most as many as objects of the pool are
-- free, each for a task that can be sent to and with a time that ends at `bound` at the latest,
-- which is before 2 ^ 64; then TimerTask makes as many rounds, the first of them not before
-- `bound`, with a clock that does not go back, and with room for as many messages in the queues of
-- their tasks. All the calls return: each of the timers stood in an object of its own of the pool
-- and once in the heap, which was in order, and then the heap is empty again, and each of them has
-- fired exactly once and sent its message, in some order.
pub start_all-IsServed :
    (requests : List Request) (used free : List ℕ) (bound : ℕ) (w : World)
    → length used ≡ length requests
    → IsRunning w (used ++ free) bound
    → w.min_heap.number_of_timers_being_managed ≡ 0
    → length requests ≤ max_number_of_timers
    → bound < u64_mod
    → AllInTime bound w.clock requests
    → IsMonotone w.clock
    → bound ≤ reading w.clock (length requests)
    → RequestsHaveRoom w.queues w.sent (length requests) requests
    → Returns
        (λ (_, w').
          IsLaunched w used free bound requests w'
          × Returns (λ (_, w''). IsServed w used w' w'') (rounds (length requests) w'))
        (start_all requests w)
start_all-IsServed requests used free bound w same v empty room fits in_time monotone late queues =
    Returns-map (start_all-IsLaunched requests used free bound w same v (omega arith) fits in_time)
      λ (_, w') l. (
        l,
        Returns-map
            (rounds-IsDrained (length requests) w' l.running.system (omega (arith, l.grown, empty))
              (launched-IsFiring l (launched_late l late)) (launched-IsMonotone l monotone)
              (launched-AllHaveRoom l same empty queues))
            λ (_, w'') (order, d).
              (order, d, λ p. omega (arith, d.all_of_them p, l.joined p, none_held w p empty)),
      )
