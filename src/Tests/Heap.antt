-- ===== src/Tests/Heap.antt =====
-- platform/TimerMinHeap.cpp at concrete heaps. A timer fires at the time that is its address.
use timer_and_callback.Base.{ℕ, ◌+◌, ◌<◌, ◌≤◌, ◌≡◌, refl, inl, Option, some, Returns, arith}
use timer_and_callback.Types.{Result}
use timer_and_callback.MinHeap.{TimerTaskShared, add_to_heap, remove_from_heap}
use timer_and_callback.MinHeap.Order.{IsHeap}
use timer_and_callback.MinHeap.Up.{Added, add_to_heap-Added}
use timer_and_callback.MinHeap.Remove.{Filled}
use timer_and_callback.MinHeap.Search.{Outcome, remove_from_heap-Outcome}
use timer_and_callback.MinHeap.Removal.{remove_top-IsHeap}

abbrev times : ℕ → Option ℕ
times p = some p

-- The timers 10, 11, 12, … in this order.
abbrev ascending : ℕ → TimerTaskShared
ascending n = record { heap = λ i. i + 10; number_of_timers_being_managed = n }

add_to_heap-Added_example :
    Returns (Added times (ascending 4) 5) (add_to_heap times (ascending 4) 5)
add_to_heap-Added_example = add_to_heap-Added times (ascending 4) 5 (omega arith) (λ i h. refl) refl

remove_from_heap-Outcome_example :
    Returns (Outcome times (ascending 5) 12) (remove_from_heap times (ascending 5) 12)
remove_from_heap-Outcome_example =
    remove_from_heap-Outcome times (ascending 5) 12 (omega arith) (λ i h. refl) (inl (omega arith))

remove_top-IsHeap_example :
    Returns
      (λ (code, s').
        (code ≡ Result.ok)
        × ((i : ℕ) → i < 4 → 10 ≤ i + 10)
        × Filled times (ascending 4) 0 s'
        × IsHeap times s'.heap s'.number_of_timers_being_managed)
      (remove_from_heap times (ascending 4) 10)
remove_top-IsHeap_example =
    remove_top-IsHeap times (ascending 4) (omega arith) (λ i h. refl) (omega arith)
      (λ c p h. omega arith) refl
