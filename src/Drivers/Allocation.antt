-- ===== src/Drivers/Allocation.antt =====
-- test/periodicTimerTest.cpp: the timers that it makes.
use timer_and_callback.Base.{
  ℕ, zero, suc, ◌+◌, ◌*◌, ◌≤◌, ◌<◌, ◌≡◌, refl, sym, true, false, fault, List, [], ◌∷◌, ◌++◌, ltb,
  length, Returns, returns, Returns-bind, Returns-map, arith,
}
use mathlib.Core.Path.{subst}
use timer_and_callback.Types.{u64_mod, max_number_of_timers}
use timer_and_callback.Message.{test_task, max_tasks}
use timer_and_callback.World.{Timer, World}
use timer_and_callback.Timer.Times.{now}
use timer_and_callback.Timer.Ready.{live_of}
use timer_and_callback.Timer.Create.{new_timer-made}
use timer_and_callback.Timer.Schedule.{schedule_periodic_at_timeout-IsScheduled}
use timer_and_callback.TimerTask.Startup.{repeated, Request, IsRunning}
use timer_and_callback.TimerTask.Startup.Joined.{
  IsJoined, created, created-IsSystem, created_object, started-IsJoined,
}
use timer_and_callback.TimerTask.Startup.Drained.{
  AllInTime, IsLaunched, none-IsLaunched, joined-IsLaunched,
}
use timer_and_callback.Drivers.{put, allocate, allocate_all}

-- The `j`-th timer of the two programs.
abbrev pub request : (ℕ → ℕ) → (ℕ → Timer) → (j timeout how_many : ℕ) → Request
request p_cb memory j timeout how_many = record {
  creating = test_task;
  context = test_task;
  memory = memory j;
  p_cb = p_cb j;
  timeout = timeout;
  mode = repeated how_many;
}

module _ (p_cb : ℕ → ℕ) (memory : ℕ → Timer) where
  -- An allocation in the bounds of the array makes a timer and schedules it.
  pub allocate-IsJoined :
      {w : World} {index : ℕ} {free : List ℕ} {bound : ℕ} (v : IsRunning w (index ∷ free) bound)
      (size j timeout how_many : ℕ) (pobj : ℕ → ℕ)
      → j < size
      → w.min_heap.number_of_timers_being_managed < max_number_of_timers
      → now w + timeout ≤ bound
      → bound < u64_mod
      → Returns
          (λ (_, w'). IsJoined w index free bound (request p_cb memory j timeout how_many) w')
          (allocate p_cb memory size j timeout how_many pobj w)
  unfolding allocate put
  allocate-IsJoined {w} {index} v size j timeout how_many pobj inside room in_time fits =
      let r = request p_cb memory j timeout how_many in
      let unlocked : 0 < w.semaphore = omega (arith, v.system.unlocked) in
      let sendable : test_task < max_tasks = omega arith in
      let here = created-IsSystem v r sendable in
      let in_bounds : ltb j size ≡ true = ground arith in
      rw
        (
          new_timer-made w index unlocked v.system.placed v.pool test_task test_task (memory j),
          in_bounds,
        )
        (Returns-bind
          (schedule_periodic_at_timeout-IsScheduled
            (record { unlocked = unlocked; object = created_object v r })
            (record {
              room = room;
              live = here.live;
              object = live_of (created v r) (created_object v r);
            })
            (p_cb j) timeout how_many)
          λ _ s. returns (started-IsJoined v r s sendable room in_time fits))

-- The timers of the loop.
abbrev pub requests_from : (ℕ → ℕ) → (ℕ → Timer) → (how_many rounds j : ℕ) → List Request
requests_from p_cb memory how_many zero j = []
requests_from p_cb memory how_many (suc rounds) j =
    request p_cb memory j (1000 + j * 100) how_many
    ∷ requests_from p_cb memory how_many rounds (suc j)

module _ (p_cb : ℕ → ℕ) (memory : ℕ → Timer) where
  -- The loop makes its timers and schedules them, as long as they fit into the array.
  pub allocate_all-IsLaunched :
      (size how_many rounds j : ℕ) (pobj : ℕ → ℕ) (used free : List ℕ) (bound : ℕ) (w : World)
      → j + rounds ≤ size
      → length used ≡ rounds
      → IsRunning w (used ++ free) bound
      → w.min_heap.number_of_timers_being_managed + rounds ≤ max_number_of_timers
      → bound < u64_mod
      → AllInTime bound w.clock (requests_from p_cb memory how_many rounds j)
      → Returns
          (λ (_, w'). IsLaunched w used free bound (requests_from p_cb memory how_many rounds j) w')
          (allocate_all p_cb memory size how_many rounds j pobj w)
  unfolding allocate_all
  allocate_all-IsLaunched size how_many zero j pobj [] free bound w inside same v room fits
        in_time =
      returns (none-IsLaunched v)
  allocate_all-IsLaunched size how_many zero j pobj (i ∷ used) free bound w inside same v room fits
        in_time =
      absurd (omega arith)
  allocate_all-IsLaunched size how_many (suc rounds) j pobj [] free bound w inside same v room fits
        in_time =
      absurd (omega arith)
  allocate_all-IsLaunched size how_many (suc rounds) j pobj (i ∷ used) free bound w inside same v
        room fits (task, first, others) =
      Returns-bind
        (allocate-IsJoined p_cb memory v size j (1000 + j * 100) how_many pobj (omega arith)
          (omega arith) first fits)
        λ (pobj', w') joined.
          Returns-map
            (allocate_all-IsLaunched size how_many rounds (suc j) pobj' used free bound w'
              (omega arith) (omega arith) joined.running (omega (arith, joined.grown)) fits
              (subst (λ c. AllInTime bound c (requests_from p_cb memory how_many rounds (suc j)))
                (sym joined.clock) others))
            λ _ l. joined-IsLaunched joined l

  -- A round of the loop past the end of the array writes outside of it.
  pub allocate-fault :
      {w : World} {index : ℕ} {free : List ℕ} {bound : ℕ}
      → IsRunning w (index ∷ free) bound
      → (size j timeout how_many : ℕ) (pobj : ℕ → ℕ) → size ≤ j
      → allocate p_cb memory size j timeout how_many pobj w ≡ fault
  unfolding allocate put
  allocate-fault {w} {index} v size j timeout how_many pobj outside =
      let unlocked : 0 < w.semaphore = omega (arith, v.system.unlocked) in
      let out : ltb j size ≡ false = ground arith in
      rw
        (new_timer-made w index unlocked v.system.placed v.pool test_task test_task (memory j), out)
        refl
