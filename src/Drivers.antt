-- ===== src/Drivers.antt =====
-- test/periodicTimerTest.cpp, test/longTermPeriodicTest.cpp and test/timerPoolTest.cpp: what the
-- main programs do with timers. An array of the program is a function from the index, with its
-- size; `p_cb j` is what the `j`-th `new TestCallback ()` returns, and `memory j` what the memory
-- of the `j`-th timer holds.
pub mod Allocation
pub mod Overflow
use timer_and_callback.Base.{ℕ, zero, suc, ◌+◌, ◌*◌, List, [], ◌∷◌, ltb, if◌then◌else◌, update}
use timer_and_callback.Message.{test_task}
use timer_and_callback.World.{Timer, M, pure, ◌>>=◌, ◌>>◌, undefined}
use timer_and_callback.Timer.{
  new_timer, delete_timer, schedule_one_shot_at_timeout, schedule_periodic_at_timeout,
}

-- `pobj[index] = p`
pub put : (size : ℕ) → (ℕ → ℕ) → (index p : ℕ) → M (ℕ → ℕ)
put size pobj index p = if ltb index size then pure (update pobj index p) else undefined

module _ (p_cb : ℕ → ℕ) (memory : ℕ → Timer) where
  -- The body of the loop of the two programs with periodic timers, and what follows the loop of one.
  pub allocate : (size j timeout how_many : ℕ) → (ℕ → ℕ) → M (ℕ → ℕ)
  unfolding put
  allocate size j timeout how_many pobj = do
    this ← new_timer test_task test_task (memory j)
    pobj' ← put size pobj j this
    schedule_periodic_at_timeout this (p_cb j) timeout how_many
    pure pobj'

  -- The loop, with the rounds left.
  pub allocate_all : (size how_many rounds j : ℕ) → (ℕ → ℕ) → M (ℕ → ℕ)
  unfolding allocate
  allocate_all size how_many zero j pobj = pure pobj
  allocate_all size how_many (suc rounds) j pobj = do
    pobj' ← allocate size j (1000 + j * 100) how_many pobj
    allocate_all size how_many rounds (suc j) pobj'

  -- The array has twenty pointers in both programs.
  pub periodic_timer_test : (ℕ → ℕ) → M (ℕ → ℕ)
  unfolding allocate_all
  periodic_timer_test pobj = do pobj' ← allocate_all 20 10 19 0 pobj; allocate 20 19 1345 10 pobj'

  pub long_term_periodic_test : (ℕ → ℕ) → M (ℕ → ℕ)
  unfolding allocate_all
  long_term_periodic_test pobj = allocate_all 20 10 100 0 pobj

  -- The body of the loop of timerPoolTest, and what follows the loop.
  pub allocate_one_shot : (j index timeout dummy : ℕ) → (ℕ → ℕ) → M (ℕ → ℕ)
  unfolding put
  allocate_one_shot j index timeout dummy pobj = do
    this ← new_timer test_task test_task (memory j)
    pobj' ← put 15 pobj index this
    schedule_one_shot_at_timeout this (p_cb j) dummy timeout
    pure pobj'

  pub allocate_one_shots : (dummy rounds j : ℕ) → (ℕ → ℕ) → M (ℕ → ℕ)
  unfolding allocate_one_shot
  allocate_one_shots dummy zero j pobj = pure pobj
  allocate_one_shots dummy (suc rounds) j pobj = do
    pobj' ← allocate_one_shot j j (1000 * (j + 1)) dummy pobj
    allocate_one_shots dummy rounds (suc j) pobj'

  -- `first` is the memory of the timer that is made and deleted at once.
  unfoldable timer_pool_test : (first : Timer) (dummy : ℕ) → (ℕ → ℕ) → M (ℕ → ℕ)
  unfolding allocate_one_shots
  timer_pool_test first dummy pobj = do
    this ← new_timer test_task test_task first
    pobj1 ← put 15 pobj 14 this
    delete_timer (pobj1 14)
    pobj2 ← allocate_one_shots dummy 10 0 pobj1
    delete_timer (pobj2 2)
    delete_timer (pobj2 5)
    pobj3 ← allocate_one_shot 10 2 15000 dummy pobj2
    pobj4 ← allocate_one_shot 11 10 16000 dummy pobj3
    allocate_one_shot 12 11 17000 dummy pobj4
