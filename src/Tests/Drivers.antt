-- ===== src/Tests/Drivers.antt =====
-- test/longTermPeriodicTest.cpp at a pool of 32 objects and a clock that stands still.
use timer_and_callback.Base.{◌+◌, ◌≡◌, refl, none, true, fault, count, arith}
use timer_and_callback.Pool.{memory_pool}
use timer_and_callback.Pool.Addresses.{IsPlaced}
use timer_and_callback.Pool.Free.{range, memory_pool-IsPool}
use timer_and_callback.World.{World}
use timer_and_callback.TimerTask.System.{IsSystem}
use timer_and_callback.TimerTask.Startup.{IsRunning}
use timer_and_callback.Drivers.{long_term_periodic_test}
use timer_and_callback.Drivers.Overflow.{long_term_periodic_test-fault}
use timer_and_callback.Tests.Memory.{garbage}
use timer_and_callback.Tests.Histories.{timer, world}

abbrev large : World
large = record world {
  timers = λ p. none;
  min_heap = record { heap = λ i. 0; number_of_timers_being_managed = 0 };
  pool = memory_pool true 4096 64 32 garbage;
  clock = λ k. record { tv_sec = 2; tv_usec = 0 };
}

large-IsPlaced : IsPlaced large.pool
unfolding memory_pool
large-IsPlaced = record { mapped = omega arith; sized = omega arith; ends = omega arith }

large-IsSystem : IsSystem large
unfolding count
large-IsSystem = record {
  unlocked = refl;
  fits = omega arith;
  live = λ i h. absurd (omega arith);
  once = λ p. omega arith;
  placed = large-IsPlaced;
  objects = λ p. tt;
}

large-IsRunning : IsRunning large (range 0 32) 5000
unfolding count
large-IsRunning = record {
  system = large-IsSystem;
  pool = memory_pool-IsPool 4096 64 32 garbage (omega arith);
  unheld = λ i h. refl;
  in_order = λ c p h. absurd (omega arith);
  awaited = λ p h. absurd (omega arith);
}

long_term_periodic_test-fault_example :
    long_term_periodic_test (λ j. j + 900) (λ j. timer) (λ j. 0) large ≡ fault
long_term_periodic_test-fault_example =
    long_term_periodic_test-fault (λ j. j + 900) (λ j. timer) (λ j. 0) (range 0 20) (range 21 11) 20
      5000 large refl large-IsRunning (omega arith) (omega arith)
      (
        omega arith,
        omega arith,
        (
          omega arith,
          omega arith,
          (
            omega arith,
            omega arith,
            (
              omega arith,
              omega arith,
              (
                omega arith,
                omega arith,
                (
                  omega arith,
                  omega arith,
                  (
                    omega arith,
                    omega arith,
                    (
                      omega arith,
                      omega arith,
                      (
                        omega arith,
                        omega arith,
                        (
                          omega arith,
                          omega arith,
                          (
                            omega arith,
                            omega arith,
                            (
                              omega arith,
                              omega arith,
                              (
                                omega arith,
                                omega arith,
                                (
                                  omega arith,
                                  omega arith,
                                  (
                                    omega arith,
                                    omega arith,
                                    (
                                      omega arith,
                                      omega arith,
                                      (
                                        omega arith,
                                        omega arith,
                                        (
                                          omega arith,
                                          omega arith,
                                          (
                                            omega arith,
                                            omega arith,
                                            (omega arith, omega arith, tt),
                                          ),
                                        ),
                                      ),
                                    ),
                                  ),
                                ),
                              ),
                            ),
                          ),
                        ),
                      ),
                    ),
                  ),
                ),
              ),
            ),
          ),
        ),
      )
