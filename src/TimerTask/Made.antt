-- ===== src/TimerTask/Made.antt =====
-- platform/Timer.cpp and MemoryPool.cpp together: a timer is made in an object of the pool that the
-- heap does not hold.
use mathlib.Core.Path.{subst}
use timer_and_callback.Base.{
  ℕ, ◌<◌, ◌≡◌, ◌≢◌, refl, sym, ◌∙◌, inl, inr, Option, none, some, Bool-cases, ◌==◌, count, arith,
}
use timer_and_callback.Base.Slots.{count_pos}
use timer_and_callback.Pool.{MemoryPool, get_memory_location_from_index}
use timer_and_callback.Pool.Addresses.{
  SamePlace, IsPlaced_same, get_from_pool-SamePlace, location-SamePlace,
}
use timer_and_callback.Message.{max_tasks}
use timer_and_callback.MinHeap.Order.{IsHeap}
use timer_and_callback.World.{Timer, World, fires}
use timer_and_callback.Timer.Ready.{when_of, time_or_0, IsHeap-others}
use timer_and_callback.Timer.Create.{with_new}
use timer_and_callback.TimerTask.System.{IsObject, IsObjectOrNone, IsSystem}

-- The pool has moved no object.
IsObjectOrNone-SamePlace :
    (pool pool' : MemoryPool) (p : ℕ) (o : Option Timer)
    → SamePlace pool pool'
    → IsObjectOrNone pool p o
    → IsObjectOrNone pool' p o
IsObjectOrNone-SamePlace pool pool' p none same v = tt
IsObjectOrNone-SamePlace pool pool' p (some t) same v = record {
  task = v.task;
  index = v.index;
  inside = rw (same.3) v.inside;
  location = v.location ∙ sym (location-SamePlace pool pool' v.index same);
}

module _ {w : World} (v : IsSystem w) (index : ℕ) (t : Timer)
    (inside : index < w.pool.max_number_of_objects) (task : t.cb_contex_t_id < max_tasks) where
  abbrev this : ℕ
  this = get_memory_location_from_index w.pool index

  abbrev w' : World
  w' = with_new w index t

  same_place : SamePlace w.pool w'.pool
  same_place = get_from_pool-SamePlace w.pool

  new-IsObject : IsObject w'.pool this t
  new-IsObject = record {
    task = task;
    index = index;
    inside = rw (same_place.3) inside;
    location = sym (location-SamePlace w.pool w'.pool index same_place);
  }

  pub kept_timer : (p : ℕ) → p ≢ this → w'.timers p ≡ w.timers p
  kept_timer p ne = ground arith

  with_new-IsObjectOrNone : (p : ℕ) → IsObjectOrNone w'.pool p (w'.timers p)
  with_new-IsObjectOrNone p = elim (Bool-cases (p == this)) [
    | inl e ↦
        let here : w'.timers p ≡ some t = ground arith in
        let same : p ≡ this = ground arith in
        subst (IsObjectOrNone w'.pool p) (sym here)
          (subst (λ q. IsObject w'.pool q t) (sym same) new-IsObject)
    | inr e ↦
        subst (IsObjectOrNone w'.pool p) (sym (kept_timer p (ground arith)))
          (IsObjectOrNone-SamePlace w.pool w'.pool p (w.timers p) same_place (v.objects p))
  ]

  module _ (absent : count this w.min_heap.heap w.min_heap.number_of_timers_being_managed ≡ 0) where
    not_this : (i : ℕ) → i < w.min_heap.number_of_timers_being_managed → w.min_heap.heap i ≢ this
    not_this i h e = omega (arith, absent, count_pos this w.min_heap.heap i _ h e)

    pub with_new-IsSystem : IsSystem w'
    with_new-IsSystem = record {
      unlocked = v.unlocked;
      fits = v.fits;
      live = λ i h.
          subst (λ o. when_of o ≡ some (time_or_0 (when_of o)))
            (sym (kept_timer (w.min_heap.heap i) (not_this i h))) (v.live i h);
      once = v.once;
      placed = IsPlaced_same w'.pool same_place v.placed;
      objects = with_new-IsObjectOrNone;
    }

    pub with_new-IsHeap :
        IsHeap (fires w) w.min_heap.heap w.min_heap.number_of_timers_being_managed
        → IsHeap (fires w') w.min_heap.heap w.min_heap.number_of_timers_being_managed
    with_new-IsHeap h = IsHeap-others w this absent w' refl kept_timer h
