-- ===== src/Tests/Accidents.antt =====
-- platform/Timer.cpp and TimerTask.cpp: deleted and overtaken timers, at concrete states.
use timer_and_callback.Base.{
  ℕ, ◌<◌, ◌≡◌, ◌⊎◌, refl, inl, inr, none, some, [], ◌∷◌, blocked, Returns, ◌==◌, if◌then◌else◌,
  fault, arith,
}
use timer_and_callback.MinHeap.Order.{AllLive}
use timer_and_callback.World.{Timer, World, fires}
use timer_and_callback.Timer.{stop, delete_timer}
use timer_and_callback.Timer.Stop.{IsStopped}
use timer_and_callback.Timer.Stopped.{IsOnly, delete_timer-stop}
use timer_and_callback.Timer.Delete.{IsManaged, IsDeleted, delete_timer-IsDeleted}
use timer_and_callback.TimerTask.{waiting, round, rounds}
use timer_and_callback.TimerTask.Fire.{IsDue}
use timer_and_callback.TimerTask.Full.{CannotSend, full, round-unsent}
use timer_and_callback.TimerTask.Late.{IsOvertaken, IsKeptBack, overtaken-IsKeptBack}
use timer_and_callback.TimerTask.Dangling.{IsLast, round-delete_timer}
use timer_and_callback.Tests.Memory.{placed, location_of_1}
use timer_and_callback.Tests.Histories.{timer, world, world-IsInHeap}

timer-IsManaged : (w : World) → (w.callbacks 900 ≡ world.callbacks 900) → IsManaged w timer
timer-IsManaged w there = record {
  scheduled = λ e. cc;
  unfinished = λ e. cc;
  callback = inr (omega arith, there);
}

delete_timer-IsDeleted_example :
    Returns (λ (_, w'). IsDeleted world 4236 timer w') (delete_timer 4236 world)
delete_timer-IsDeleted_example =
    delete_timer-IsDeleted (record { unlocked = omega arith; object = refl })
      (timer-IsManaged world refl) world-IsInHeap

-- Timers at 4236, 4300, 4364 and 4428, the places 1 to 4 of the pool.
abbrev slots : ℕ → ℕ
slots i = if i == 0 then 4236 else if i == 1 then 4300 else if i == 2 then 4364 else 4428

abbrev second : Timer
second = record timer { when_to_fire = 1500 }

abbrev last : Timer
last = record timer { when_to_fire = 9000 }

abbrev full_world : ℕ → World
full_world n = record world {
  timers = λ p.
      if p == 4236
      then some timer
      else if p == 4300
      then some second
      else if p == 4364
      then some last
      else if p == 4428
      then some timer
      else none;
  min_heap = record { heap = slots; number_of_timers_being_managed = n };
}

one_of_four : (i : ℕ) → i < 4 → (i ≡ 0) ⊎ ((i ≡ 1) ⊎ ((i ≡ 2) ⊎ (i ≡ 3)))
one_of_four i h = ground arith

four-AllLive : AllLive (fires (full_world 4)) slots 4
four-AllLive i h = elim (one_of_four i h) [
  | inl e ↦ rw e refl
  | inr (inl e) ↦ rw e refl
  | inr (inr (inl e)) ↦ rw e refl
  | inr (inr (inr e)) ↦ rw e refl
]

three-IsDue : IsDue (full_world 3) 1 timer
unfolding waiting
three-IsDue = record {
  some_left = omega arith;
  fits = omega arith;
  live = λ i h. four-AllLive i (omega arith);
  object = refl;
  placed = placed;
  inside = omega arith;
  top = location_of_1;
  task = omega arith;
  room = record { capacity = 10; opened = refl; enough = omega arith };
  active = refl;
  due = omega arith;
}

three-IsOvertaken : IsOvertaken (full_world 3) 1 timer second last 5
three-IsOvertaken = record {
  top = three-IsDue;
  three = refl;
  second_object = refl;
  second_active = refl;
  second_due = omega arith;
  second_other = omega arith;
  last_object = refl;
  last_other = omega arith;
  last_early = λ k h. omega arith;
}

overtaken-IsKeptBack_example :
    Returns (λ (_, w'). IsKeptBack (full_world 3) 1 timer second w') (rounds 6 (full_world 3))
overtaken-IsKeptBack_example = overtaken-IsKeptBack three-IsOvertaken

four-IsLast : IsLast (full_world 4) 4428 timer
four-IsLast = record {
  many = omega arith;
  fits = omega arith;
  live = four-AllLive;
  last = refl;
  only = λ i h. ground arith;
  first_object = refl;
  first_active = refl;
  first_due = omega arith;
}

round-delete_timer_example :
    Returns
      (λ (_, w').
        (w'.min_heap ≡ (full_world 4).min_heap) × (w'.timers 4428 ≡ none) × (round w' ≡ fault))
      (delete_timer 4428 (full_world 4))
round-delete_timer_example =
    round-delete_timer (record { unlocked = omega arith; object = refl })
      (timer-IsManaged (full_world 4) refl) four-IsLast

world-IsOnly : IsOnly world 4236 timer
world-IsOnly = record {
  can = record { unlocked = omega arith; object = refl };
  one = refl;
  live = λ i h. refl;
  held = refl;
  scheduled = λ e. cc;
}

delete_timer-stop_example :
    Returns
      (λ (_, w'). IsStopped world 4236 timer w' × (delete_timer 4236 w' ≡ fault))
      (stop 4236 world)
delete_timer-stop_example = delete_timer-stop world-IsOnly

-- The queue of task 1 holds one message, and one waits in it.
abbrev full_queue : World
full_queue = record (full_world 3) { queues = λ q. some 1; sent = (1, []) ∷ [] }

with_queues-IsDue : IsDue (record full_queue { queues = λ q. some 10 }) 1 timer
unfolding waiting
with_queues-IsDue = record {
  some_left = omega arith;
  fits = omega arith;
  live = three-IsDue.live;
  object = refl;
  placed = placed;
  inside = omega arith;
  top = location_of_1;
  task = omega arith;
  room = record { capacity = 10; opened = refl; enough = omega arith };
  active = refl;
  due = omega arith;
}

no_room : CannotSend full_queue 1 blocked
unfolding waiting
no_room = full 1 refl (omega arith)

round-unsent_example : round full_queue ≡ blocked
round-unsent_example =
    round-unsent full_queue 1 timer (λ q. some 10) blocked with_queues-IsDue no_room
