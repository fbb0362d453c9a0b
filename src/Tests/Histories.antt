-- ===== src/Tests/Histories.antt =====
-- platform/TimerTask.cpp and TimerMinHeap.cpp over several rounds and calls.
use mathlib.Core.Path.{subst}
use timer_and_callback.Base.{
  fault, ℕ, ◌+◌, ◌≤◌, ◌<◌, ◌≡◌, refl, some, none, [], ◌∷◌, Returns, ◌==◌, if◌then◌else◌, ◌⊎◌, inl,
  inr, sym, Bool-cases, count, arith,
}
use timer_and_callback.MinHeap.{TimerTaskShared}
use timer_and_callback.MinHeap.Bag.{
  add, remove, bag_of, SpecRun, perform_all, HasRoom, perform_all-refines,
}
use timer_and_callback.World.{TimerType, TimerState, Timer, World, fires}
use timer_and_callback.TimerTask.{waiting, round, cycles}
use timer_and_callback.TimerTask.Postpone.{IsIdleTop, IsPostponed, round-IsPostponed}
use timer_and_callback.MinHeap.Order.{AllLive}
use timer_and_callback.TimerTask.Room
use timer_and_callback.TimerTask.System.{
  CanRound, timer_task_round, perform, start, IsObjectOrNone, IsSystem,
}
use timer_and_callback.TimerTask.Invariant.{reached-Returns}
use timer_and_callback.TimerTask.Race.{interrupted_look, IsOnlyDue, interrupted_look-fault}
use timer_and_callback.Timer.{stop, restart}
use timer_and_callback.Timer.Stop.{IsInHeap}
use timer_and_callback.Timer.Restart.{IsRestarted, restart-IsRestarted}
use timer_and_callback.TimerTask.Cycle.{IsSolo}
use timer_and_callback.TimerTask.Firings.{IsFinished, cycles-IsFinished}
use timer_and_callback.TimerTask.Fire.{message}
use timer_and_callback.Tests.Memory.{pool, placed, location_of_1}

-- The only timer, at 4236, has fired once, and is to fire three times. It is due at 1200 ms, and the
-- clock goes on by a second with each reading.
abbrev pub timer : Timer
timer = record {
  type = TimerType.periodic;
  state = TimerState.active;
  p_cb = 900;
  creating_t_id = 0;
  cb_contex_t_id = 1;
  how_many_times_to_fire = 3;
  number_of_times_fired = 1;
  first = 500;
  timeout = 500;
  when_to_fire = 1200;
}

abbrev pub world : World
world = record {
  timers = λ p. if p == 4236 then some timer else none;
  min_heap = record { heap = λ i. 4236; number_of_timers_being_managed = 1 };
  pool = pool;
  semaphore = 1;
  callbacks = λ p. p == 900;
  triggered = [];
  queues = λ q. some 10;
  sent = [];
  clock = λ k. record { tv_sec = k + 2; tv_usec = 0 };
  random = λ k. 12345;
}

world-IsSolo : IsSolo world 1 timer
unfolding waiting
world-IsSolo = record {
  unlocked = omega arith;
  one = refl;
  object = refl;
  placed = placed;
  inside = omega arith;
  top = location_of_1;
  task = omega arith;
  room = record { capacity = 10; opened = refl; enough = omega arith };
  periodic = refl;
  active = refl;
  due = omega arith;
  some_cb = omega arith;
  there = refl;
  quiet = refl;
}

cycles-IsFinished_example :
    Returns (λ (_, w'). IsFinished world 4236 900 3 w') (cycles 1 3 (message 7) world)
cycles-IsFinished_example =
    cycles-IsFinished 2 world 1 timer (message 7) world-IsSolo (omega arith) (omega arith) refl
      (λ k h. omega arith)

abbrev two_timers : TimerTaskShared
two_timers = record { heap = λ i. i + 10; number_of_timers_being_managed = 2 }

two_timers-HasRoom : HasRoom (λ p. some p) two_timers 1
two_timers-HasRoom = record { room = omega arith; live = λ i h. refl }

perform_all-refines_example :
    Returns
      (λ (answers, s').
        SpecRun (bag_of two_timers) (add 5 ∷ remove 10 ∷ remove 77 ∷ []) answers (bag_of s'))
      (perform_all (λ p. some p) two_timers (add 5 ∷ remove 10 ∷ remove 77 ∷ []))
perform_all-refines_example =
    perform_all-refines (λ p. some p) (add 5 ∷ remove 10 ∷ remove 77 ∷ []) two_timers
      two_timers-HasRoom (refl, (tt, (tt, tt)))

-- Two timers in the heap, the one at the top cancelled.
abbrev cancelled : Timer
cancelled = record timer { state = TimerState.idle; p_cb = 0 }

abbrev pub two_slots : ℕ → ℕ
two_slots i = if i == 0 then 4236 else 4300

abbrev cancelled_world : World
cancelled_world = record world {
  timers = λ p.
      if p == 4236
      then some cancelled
      else if p == 4300
      then some (record timer { when_to_fire = 9000 })
      else none;
  min_heap = record { heap = two_slots; number_of_timers_being_managed = 2 };
}

pub slot_0_or_1 : (i : ℕ) → i < 2 → (i ≡ 0) ⊎ (i ≡ 1)
slot_0_or_1 i h = ground arith

cancelled_world-AllLive : AllLive (fires cancelled_world) two_slots 2
cancelled_world-AllLive i h = elim (slot_0_or_1 i h) [ inl e ↦ rw e refl | inr e ↦ rw e refl ]

cancelled_world-IsIdleTop : IsIdleTop cancelled_world cancelled
unfolding count
cancelled_world-IsIdleTop = record {
  unlocked = omega arith;
  some_left = omega arith;
  fits = omega arith;
  live = cancelled_world-AllLive;
  once = refl;
  object = refl;
  idle = refl;
  due = omega arith;
}

round-IsPostponed_example :
    Returns (λ (_, w'). IsPostponed cancelled_world cancelled w') (round cancelled_world)
round-IsPostponed_example = round-IsPostponed cancelled_world-IsIdleTop

pub object_of_world : (p : ℕ) → IsObjectOrNone pool p (world.timers p)
object_of_world p = elim (Bool-cases (p == 4236)) [
  | inl e ↦
      let same : p ≡ 4236 = ground arith in
      subst (λ q. IsObjectOrNone pool q (world.timers q)) (sym same)
        (record { task = omega arith; index = 1; inside = omega arith; location = location_of_1 })
  | inr e ↦ rw e tt
]

world-IsSystem : IsSystem world
unfolding count
world-IsSystem = record {
  unlocked = refl;
  fits = omega arith;
  live = λ i h. refl;
  once = λ p. ground arith;
  placed = placed;
  objects = object_of_world;
}

-- The queues are empty, and hold ten messages each.
pub world-HasRoom : (queue n : ℕ) → n ≤ 10 → Room.HasRoom world.queues world.sent queue n
unfolding waiting
world-HasRoom queue n fits = record { capacity = 10; opened = refl; enough = omega arith }

world-CanRound : CanRound world
unfolding waiting
world-CanRound t some_left object active due = record {
  capacity = 10;
  opened = refl;
  enough = omega arith;
}

reached-Returns_example : Returns (λ (_, w''). IsSystem w'') (perform timer_task_round world)
reached-Returns_example = reached-Returns timer_task_round world-IsSystem start world-CanRound

world-IsOnlyDue : IsOnlyDue world timer
world-IsOnlyDue = record {
  unlocked = omega arith;
  one = refl;
  live = λ i h. refl;
  object = refl;
  active = refl;
  due = omega arith;
}

interrupted_look-fault_example : interrupted_look (stop 4236) world ≡ fault
interrupted_look-fault_example = interrupted_look-fault world-IsOnlyDue

pub world-IsInHeap : IsInHeap world 4236
world-IsInHeap = record {
  fits = omega arith;
  live = λ i h. refl;
  index = 0;
  held = refl;
  place = inr (omega arith, omega arith);
}

once_in_heap : count 4236 (λ i. 4236) 1 ≡ 1
unfolding count
once_in_heap = refl

restart-IsRestarted_example :
    Returns (λ (_, w'). IsRestarted world 4236 timer w') (restart 4236 world)
restart-IsRestarted_example =
    restart-IsRestarted (record { unlocked = omega arith; object = refl }) world-IsInHeap
      once_in_heap refl
