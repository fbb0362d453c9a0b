-- ===== src/Tests/Orders.antt =====
-- platform/TimerMinHeap.cpp: heaps that lead to no Timer object, and heaps filled in another order.
use timer_and_callback.Base.{
  ℕ, ◌+◌, ◌-◌, ◌≡◌, ◌≢◌, refl, some, none, [], ◌∷◌, out_of_fuel, Returns, count, arith,
}
use timer_and_callback.MinHeap.{TimerTaskShared, add_to_heap, remove_from_heap}
use timer_and_callback.MinHeap.Bag.{HasRoom}
use timer_and_callback.MinHeap.Ends.{heap_terminates}
use timer_and_callback.MinHeap.Unordered.{IsSameToClients, add_all, add_all-any_order}

-- The same two timers, at other places.
abbrev as_placed : TimerTaskShared
as_placed = record { heap = λ i. i + 10; number_of_timers_being_managed = 2 }

abbrev the_other_way : TimerTaskShared
the_other_way = record { heap = λ i. 11 - i; number_of_timers_being_managed = 2 }

as_placed-HasRoom : HasRoom (λ p. some 500) as_placed 2
as_placed-HasRoom = record { room = omega arith; live = λ i h. refl }

the_other_way-HasRoom : HasRoom (λ p. some 500) the_other_way 2
the_other_way-HasRoom = record { room = omega arith; live = λ i h. refl }

same_count : (p : ℕ) → count p (λ i. i + 10) 2 ≡ count p (λ i. 11 - i) 2
unfolding count
same_count p = omega arith

add_all-any_order_example :
    Returns
      (λ h.
        Returns
          (λ h'. IsSameToClients (λ p. some 500) h h')
          (add_all (λ p. some 500) the_other_way (6 ∷ 5 ∷ [])))
      (add_all (λ p. some 500) as_placed (5 ∷ 6 ∷ []))
add_all-any_order_example =
    add_all-any_order (λ p. some 500) (5 ∷ 6 ∷ []) (6 ∷ 5 ∷ []) as_placed the_other_way
      as_placed-HasRoom the_other_way-HasRoom (λ c h h'. omega arith) (λ c h h'. omega arith)
      (refl, (refl, tt)) (refl, (refl, tt)) same_count (λ p. omega arith) (omega arith)

heap_terminates_example :
    (add_to_heap (λ p. none) as_placed 7 ≢ out_of_fuel)
    × (remove_from_heap (λ p. none) as_placed 7 ≢ out_of_fuel)
heap_terminates_example = heap_terminates (λ p. none) as_placed 7 (omega arith)
