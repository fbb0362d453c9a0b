-- ===== src/Tests/Rounds.antt =====
-- platform/TimerTask.cpp: many rounds in a row, at concrete states.
use mathlib.Core.Path.{subst}
use timer_and_callback.Base.{
  ℕ, ◌<◌, ◌≡◌, ◌⊎◌, refl, sym, inl, inr, none, some, List, Returns, ◌==◌, if◌then◌else◌, Bool-cases,
  count, arith,
}
use timer_and_callback.Types.{Result}
use timer_and_callback.Pool.{get_memory_location_from_index}
use timer_and_callback.Pool.Addresses.{location-eq}
use timer_and_callback.MinHeap.Order.{AllLive}
use timer_and_callback.World.{TimerState, Timer, World, fires}
use timer_and_callback.TimerTask.{waiting, rounds}
use timer_and_callback.TimerTask.Fire.{message}
use timer_and_callback.TimerTask.System.{IsObjectOrNone, IsSystem}
use timer_and_callback.TimerTask.Drain.{held, IsFiring, IsDrained, rounds-IsDrained}
use timer_and_callback.TimerTask.Stuck.{
  IsStuck, IsAlone, cancel_and_restart, cancel_and_restart-IsStuck,
}
use timer_and_callback.TimerTask.Waiting.{IsPending, FiresOnTime, pending-FiresOnTime}
use timer_and_callback.Tests.Memory.{pool, placed, location_of_1}
use timer_and_callback.Tests.Histories.{timer, world, world-HasRoom, two_slots, slot_0_or_1}

-- Two timers, both active and due, at the places 1 and 2 of the pool.
location_of_2 : 4300 ≡ get_memory_location_from_index pool 2
location_of_2 = omega (arith, location-eq placed 2 (omega arith))

abbrev late_timer : Timer
late_timer = record timer { when_to_fire = 1500 }

abbrev both_due : World
both_due = record world {
  timers = λ p. if p == 4236 then some timer else if p == 4300 then some late_timer else none;
  min_heap = record { heap = two_slots; number_of_timers_being_managed = 2 };
}

both_due-AllLive : AllLive (fires both_due) two_slots 2
both_due-AllLive i h = elim (slot_0_or_1 i h) [ inl e ↦ rw e refl | inr e ↦ rw e refl ]

object_of_both_due : (p : ℕ) → IsObjectOrNone pool p (both_due.timers p)
object_of_both_due p = elim (Bool-cases (p == 4236)) [
  | inl e ↦
      let same : p ≡ 4236 = ground arith in
      subst (λ q. IsObjectOrNone pool q (both_due.timers q)) (sym same)
        (record { task = omega arith; index = 1; inside = omega arith; location = location_of_1 })
  | inr e ↦ elim (Bool-cases (p == 4300)) [
    | inl e' ↦
        let same : p ≡ 4300 = ground arith in
        subst (λ q. IsObjectOrNone pool q (both_due.timers q)) (sym same)
          (record { task = omega arith; index = 2; inside = omega arith; location = location_of_2 })
    | inr e' ↦ rw (e, e') tt
  ]
]

both_due-IsSystem : IsSystem both_due
unfolding count
both_due-IsSystem = record {
  unlocked = refl;
  fits = omega arith;
  live = both_due-AllLive;
  once = λ p. ground arith;
  placed = placed;
  objects = object_of_both_due;
}

either_timer : (p : ℕ) → 0 < held both_due p → (p ≡ 4236) ⊎ (p ≡ 4300)
unfolding count
either_timer p h = ground arith

both_due-IsFiring : (p : ℕ) → 0 < held both_due p → IsFiring both_due p
both_due-IsFiring p h = elim (either_timer p h) [
  | inl e ↦
      subst (IsFiring both_due) (sym e)
        (record { timer = timer; object = refl; active = refl; due = omega arith })
  | inr e ↦
      subst (IsFiring both_due) (sym e)
        (record { timer = late_timer; object = refl; active = refl; due = omega arith })
]

-- A clock that stands still.
abbrev still : World
still = record both_due { clock = λ k. record { tv_sec = 2; tv_usec = 0 } }

still-IsSystem : IsSystem still
still-IsSystem = record {
  unlocked = refl;
  fits = both_due-IsSystem.fits;
  live = both_due-IsSystem.live;
  once = both_due-IsSystem.once;
  placed = placed;
  objects = both_due-IsSystem.objects;
}

still-IsFiring : (p : ℕ) → 0 < held still p → IsFiring still p
still-IsFiring p h =
    let v = both_due-IsFiring p h in
    record { timer = v.timer; object = v.object; active = v.active; due = v.due }

rounds-IsDrained_example :
    Returns (λ (_, w'). (order : List ℕ) × IsDrained still order w') (rounds 2 still)
rounds-IsDrained_example =
    rounds-IsDrained 2 still still-IsSystem refl still-IsFiring (λ k. omega arith)
      (λ p h. world-HasRoom _ 2 (omega arith))

-- The timer at the top is done, and the other one is due.
abbrev blocked_world : World
blocked_world = record world {
  timers = λ p.
      if p == 4236
      then some (record timer { state = TimerState.done })
      else if p == 4300
      then some late_timer
      else none;
  min_heap = record { heap = two_slots; number_of_timers_being_managed = 2 };
}

world-IsAlone : IsAlone world 4236 1 timer
unfolding waiting
world-IsAlone = record {
  unlocked = omega arith;
  one = refl;
  top = refl;
  object = refl;
  placed = placed;
  inside = omega arith;
  location = location_of_1;
  task = omega arith;
  room = record { capacity = 10; opened = refl; enough = omega arith };
  some_cb = omega arith;
  there = refl;
  quiet = refl;
}

cancel_and_restart-IsStuck_example :
    Returns
      (λ (code, w'). (code ≡ Result.error) × IsStuck world 4236 timer w')
      (cancel_and_restart 4236 1 (message 7) 5 world)
cancel_and_restart-IsStuck_example =
    cancel_and_restart-IsStuck world-IsAlone (message 7) 5 (omega arith)

-- The only timer is to fire at 4500, and the clock goes on by a second from 2000.
abbrev late_world : World
late_world = record world {
  timers = λ p. if p == 4236 then some (record timer { when_to_fire = 4500 }) else none;
}

late_world-IsPending : IsPending late_world 1 (record timer { when_to_fire = 4500 })
unfolding waiting
late_world-IsPending = record {
  some_left = omega arith;
  fits = omega arith;
  live = λ i h. refl;
  object = refl;
  placed = placed;
  inside = omega arith;
  top = location_of_1;
  task = omega arith;
  room = record { capacity = 10; opened = refl; enough = omega arith };
  active = refl;
}

pending-FiresOnTime_example : FiresOnTime late_world 1 (record timer { when_to_fire = 4500 }) 5
pending-FiresOnTime_example =
    pending-FiresOnTime 5 late_world 1 (record timer { when_to_fire = 4500 }) late_world-IsPending
      (omega arith)

abbrev pub empty_world : World
empty_world = record world {
  min_heap = record { heap = λ i. 0; number_of_timers_being_managed = 0 };
}
