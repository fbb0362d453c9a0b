-- ===== src/Tests/Starts.antt =====
-- platform/Timer.cpp and TimerTask.cpp: timers that are made, scheduled, fired and deleted, at
-- concrete states.
use timer_and_callback.Base.{
  ◌≡◌, refl, List, [], ◌∷◌, Returns, ◌==◌, ◌||◌, if◌then◌else◌, ltb, count, arith,
}
use timer_and_callback.Types.{Result}
use timer_and_callback.World.{TimerType, Timer, World}
use timer_and_callback.TimerTask.{rounds}
use timer_and_callback.TimerTask.Fire.{message}
use timer_and_callback.TimerTask.System.{IsSystem}
use timer_and_callback.TimerTask.Lifecycle.{live_once, IsAtRest, IsOver, live_once-IsOver}
use timer_and_callback.TimerTask.Startup.{once, repeated, Request, start_all, IsRunning}
use timer_and_callback.TimerTask.Startup.Drained.{IsLaunched, IsServed, start_all-IsServed}
use timer_and_callback.TimerTask.Startup.Answered.{serve_all, IsAllDone, serve_all-IsAllDone}
use timer_and_callback.Tests.Memory.{placed, pool-IsPool}
use timer_and_callback.Tests.Histories.{timer, object_of_world, world-HasRoom}
use timer_and_callback.Tests.Rounds.{empty_world}

-- Memory of the pool as a timer may find it, without a callback.
abbrev memory : Timer
memory = record timer { p_cb = 0; type = TimerType.invalid }

empty_world-IsAtRest : IsAtRest empty_world 2 (3 ∷ 4 ∷ 5 ∷ 6 ∷ 7 ∷ []) 900
empty_world-IsAtRest = record {
  unlocked = omega arith;
  empty = refl;
  quiet = refl;
  pool = pool-IsPool;
  placed = placed;
  some_cb = omega arith;
  there = refl;
}

-- The clock is at 2000, 3000, 4000, 5000: the timer is to fire at 4500.
live_once-IsOver_example :
    Returns
      (λ (code, w'). (code ≡ Result.ok) × IsOver empty_world 2 (3 ∷ 4 ∷ 5 ∷ 6 ∷ 7 ∷ []) 900 w')
      (live_once 0 1 memory 900 77 2500 2 (message 7) empty_world)
live_once-IsOver_example =
    live_once-IsOver empty_world-IsAtRest 0 1 memory 77 2500 2 (omega arith)
      (world-HasRoom 1 1 (omega arith)) refl (omega arith) (λ k h. omega arith) (omega arith)
      (message 7)

abbrev requests : List Request
requests =
    record {
      creating = 0;
      context = 1;
      memory = memory;
      p_cb = 900;
      timeout = 1500;
      mode = once 77;
    }
    ∷ record {
      creating = 0;
      context = 1;
      memory = memory;
      p_cb = 901;
      timeout = 200;
      mode = repeated 3;
    }
    ∷ []

-- The clock is at 2000 twice, and then stands at 10000; there are two callback objects.
abbrev stepping : World
stepping = record empty_world {
  callbacks = λ p. (p == 900) || (p == 901);
  clock = λ k. record { tv_sec = if ltb k 2 then 2 else 10; tv_usec = 0 };
}

stepping-IsSystem : IsSystem stepping
unfolding count
stepping-IsSystem = record {
  unlocked = refl;
  fits = omega arith;
  live = λ i h. absurd (omega arith);
  once = λ p. omega arith;
  placed = placed;
  objects = object_of_world;
}

stepping-IsRunning : IsRunning stepping (2 ∷ 3 ∷ 4 ∷ 5 ∷ 6 ∷ 7 ∷ []) 5000
unfolding count
stepping-IsRunning = record {
  system = stepping-IsSystem;
  pool = pool-IsPool;
  unheld = λ i h. refl;
  in_order = λ c p h. absurd (omega arith);
  awaited = λ p h. absurd (omega arith);
}

start_all-IsServed_example :
    Returns
      (λ (_, w').
        IsLaunched stepping (2 ∷ 3 ∷ []) (4 ∷ 5 ∷ 6 ∷ 7 ∷ []) 5000 requests w'
        × Returns (λ (_, w''). IsServed stepping (2 ∷ 3 ∷ []) w' w'') (rounds 2 w'))
      (start_all requests stepping)
start_all-IsServed_example =
    start_all-IsServed requests (2 ∷ 3 ∷ []) (4 ∷ 5 ∷ 6 ∷ 7 ∷ []) 5000 stepping refl
      stepping-IsRunning refl (omega arith) (omega arith)
      (omega arith, omega arith, (omega arith, omega arith, tt)) (λ k. ground arith) (omega arith)
      (world-HasRoom 1 2 (omega arith), (world-HasRoom 1 2 (omega arith), tt))

abbrev one_shots : List Request
one_shots =
    record {
      creating = 0;
      context = 1;
      memory = memory;
      p_cb = 900;
      timeout = 1500;
      mode = once 77;
    }
    ∷ record {
      creating = 0;
      context = 1;
      memory = memory;
      p_cb = 901;
      timeout = 200;
      mode = once 78;
    }
    ∷ []

serve_all-IsAllDone_example :
    Returns
      (λ (_, w'). IsAllDone stepping (2 ∷ 3 ∷ []) (4 ∷ 5 ∷ 6 ∷ 7 ∷ []) one_shots w')
      (serve_all 1 one_shots (message 7) stepping)
serve_all-IsAllDone_example =
    serve_all-IsAllDone 1 one_shots (2 ∷ 3 ∷ []) (4 ∷ 5 ∷ 6 ∷ 7 ∷ []) 5000 stepping (message 7) refl
      stepping-IsRunning refl refl
      (refl, refl, refl, omega arith, refl, (refl, refl, refl, omega arith, refl, tt))
      (λ c. ground arith) (omega arith) (omega arith)
      (omega arith, omega arith, (omega arith, omega arith, tt)) (λ k. ground arith) (omega arith)
      (world-HasRoom 1 2 (omega arith))
