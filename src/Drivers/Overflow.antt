-- ===== src/Drivers/Overflow.antt =====
-- test/longTermPeriodicTest.cpp and periodicTimerTest.cpp: a hundred timers, and twenty, in an
-- array of twenty pointers.
use mathlib.Core.Path.{subst}
use timer_and_callback.Base.{
  ℕ, zero, suc, ◌+◌, ◌*◌, ◌≤◌, ◌<◌, ◌≡◌, refl, sym, List, [], ◌∷◌, ◌++◌, fault, length, Returns,
  Returns-bind, Returns-map, arith,
}
use timer_and_callback.Types.{u64_mod, max_number_of_timers}
use timer_and_callback.World.{Timer, World, ◌>>=◌}
use timer_and_callback.TimerTask.Cycle.{reading}
use timer_and_callback.TimerTask.Startup.{IsRunning}
use timer_and_callback.TimerTask.Startup.Joined.{IsJoined}
use timer_and_callback.TimerTask.Startup.Drained.{AllInTime, IsLaunched}
use timer_and_callback.Drivers.{allocate_all, periodic_timer_test, long_term_periodic_test}
use timer_and_callback.Drivers.Allocation.{
  request, requests_from, allocate-IsJoined, allocate_all-IsLaunched, allocate-fault,
}

module _ (p_cb : ℕ → ℕ) (memory : ℕ → Timer) where
  allocate_all-fault :
      (size how_many more n j : ℕ) (pobj : ℕ → ℕ) (used free : List ℕ) (i bound : ℕ) (w : World)
      → j + n ≡ size
      → length used ≡ n
      → IsRunning w (used ++ i ∷ free) bound
      → w.min_heap.number_of_timers_being_managed + n ≤ max_number_of_timers
      → bound < u64_mod
      → AllInTime bound w.clock (requests_from p_cb memory how_many n j)
      → allocate_all p_cb memory size how_many (n + suc more) j pobj w ≡ fault
  unfolding allocate_all
  allocate_all-fault size how_many more zero j pobj [] free i bound w inside same v room fits
        in_time =
      let count : zero + suc more ≡ suc more = omega arith in
      rw
        (
          count,
          ◌>>=◌,
          allocate-fault p_cb memory v size j (1000 + j * 100) how_many pobj (omega arith),
        )
        refl
  allocate_all-fault size how_many more zero j pobj (k ∷ used) free i bound w inside same v room
        fits in_time =
      absurd (omega arith)
  allocate_all-fault size how_many more (suc n) j pobj [] free i bound w inside same v room fits
        in_time =
      absurd (omega arith)
  allocate_all-fault size how_many more (suc n) j pobj (k ∷ used) free i bound w inside same v room
        fits (task, first, others) =
      let count : suc n + suc more ≡ suc (n + suc more) = omega arith in
      let one =
        allocate-IsJoined p_cb memory v size j (1000 + j * 100) how_many pobj (omega arith)
          (omega arith) first fits in
      let (pobj', w') = one.value in
      let joined = one.holds in
      rw (count, ◌>>=◌, one.ended)
        (allocate_all-fault size how_many more n (suc j) pobj' used free i bound w' (omega arith)
          (omega arith) joined.running (omega (arith, joined.grown)) fits
          (subst (λ c. AllInTime bound c (requests_from p_cb memory how_many n (suc j)))
            (sym joined.clock) others))

  -- In longTermPeriodicTest, with 21 objects of the pool free and room for 20 timers in the heap,
  -- no call in progress, and the first 20 times ending at `bound` at the latest, which is before 2
  -- ^ 64, the twenty-first round writes outside of the array.
  pub long_term_periodic_test-fault :
      (pobj : ℕ → ℕ) (used free : List ℕ) (i bound : ℕ) (w : World)
      → length used ≡ 20
      → IsRunning w (used ++ i ∷ free) bound
      → w.min_heap.number_of_timers_being_managed + 20 ≤ max_number_of_timers
      → bound < u64_mod
      → AllInTime bound w.clock (requests_from p_cb memory 10 20 0)
      → long_term_periodic_test p_cb memory pobj w ≡ fault
  unfolding long_term_periodic_test
  long_term_periodic_test-fault pobj used free i bound w same v room fits in_time =
      allocate_all-fault 20 10 79 20 0 pobj used free i bound w refl same v room fits in_time

  -- In periodicTimerTest, with 20 objects of the pool free and room for 20 timers in the heap, no
  -- call in progress, and the times ending at `bound` at the latest, which is before 2 ^ 64, all
  -- the calls return: each of the 20 timers is active and in the heap once, which is in order.
  pub periodic_timer_test-IsLaunched :
      (pobj : ℕ → ℕ) (used free : List ℕ) (i bound : ℕ) (w : World)
      → length used ≡ 19
      → IsRunning w (used ++ i ∷ free) bound
      → w.min_heap.number_of_timers_being_managed + 20 ≤ max_number_of_timers
      → bound < u64_mod
      → AllInTime bound w.clock (requests_from p_cb memory 10 19 0)
      → reading w.clock 19 + 1345 ≤ bound
      → Returns
          (λ (_, w').
            (w1 : World) × IsLaunched w used (i ∷ free) bound (requests_from p_cb memory 10 19 0) w1
            × IsJoined w1 i free bound (request p_cb memory 19 1345 10) w')
          (periodic_timer_test p_cb memory pobj w)
  unfolding periodic_timer_test
  periodic_timer_test-IsLaunched pobj used free i bound w same v room fits in_time last =
      Returns-bind
        (allocate_all-IsLaunched p_cb memory 20 10 19 0 pobj used (i ∷ free) bound w (omega arith)
          same v (omega arith) fits in_time)
        λ (pobj', w1) l.
          Returns-map
            (allocate-IsJoined p_cb memory l.running 20 19 1345 10 pobj' (omega arith)
              (omega (arith, l.grown)) (subst (λ c. reading c 0 + 1345 ≤ bound) (sym l.clock) last)
              fits)
            λ _ joined. (w1, l, joined)
