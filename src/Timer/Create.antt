-- ===== src/Timer/Create.antt =====
-- platform/Timer.cpp, `operator new` and the constructor with two task ids.
use timer_and_callback.Base.{
  ℕ, ◌-◌, ◌+◌, ◌<◌, ◌≡◌, refl, some, false, List, ◌∷◌, ◌==◌, update, ok, arith,
}
use timer_and_callback.Pool.{null, get_from_pool, get_memory_location_from_index}
use timer_and_callback.Pool.Addresses.{IsPlaced, location_pos}
use timer_and_callback.Pool.Free.{IsPool, get_from_pool-cons}
use timer_and_callback.World.{Timer, World, wait, post, store}
use timer_and_callback.Timer.{operator_new, timer_for_tasks, new_timer}

-- The Timer that the constructor makes of what the memory held.
abbrev pub made : ℕ → ℕ → Timer → Timer
made creating context memory = record memory { creating_t_id = creating; cb_contex_t_id = context }

-- The timer `t` has been made in the first free object of the pool, which is at `index`.
abbrev pub with_new : World → ℕ → Timer → World
with_new w index t = record w {
  timers = update w.timers (get_memory_location_from_index w.pool index) (some t);
  pool = (get_from_pool w.pool).1;
}

-- `new Timer (creating, context)`, with the semaphore free and an object free, returns the address
-- of the first free object, where the timer is, with the two ids and else what the memory held.
pub new_timer-made :
    (w : World) (index : ℕ) {free : List ℕ}
    → 0 < w.semaphore
    → IsPlaced w.pool
    → IsPool w.pool (index ∷ free)
    → (creating context : ℕ) (memory : Timer)
    → new_timer creating context memory w
      ≡ ok (
        get_memory_location_from_index w.pool index,
        with_new w index (made creating context memory),
      )
unfolding new_timer operator_new timer_for_tasks wait post store
new_timer-made w index unlocked placed pool creating context memory =
    let free_lock : (w.semaphore == 0) ≡ false = ground (arith, unlocked) in
    let not_null : (get_memory_location_from_index w.pool index == null) ≡ false =
      ground (arith, location_pos placed index pool.inside.0) in
    let restored : w.semaphore - 1 + 1 ≡ w.semaphore = omega (arith, unlocked) in
    rw (free_lock, (get_from_pool-cons pool).0, not_null, restored) refl
