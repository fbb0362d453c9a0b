-- ===== src/MinHeap/Removal.antt =====
-- platform/TimerMinHeap.cpp, `removeFromHeap`: what the removal of a timer does to the order.
use timer_and_callback.Base.{
  ℕ, suc, ◌+◌, ◌-◌, ◌%◌, ◌≤◌, ◌<◌, ◌≡◌, refl, ◌⊎◌, inl, Option, true, ◌==◌, Returns, returns,
  Returns-bind, Returns-map, arith,
}
use timer_and_callback.Types.{Result, max_number_of_timers}
use timer_and_callback.MinHeap.{TimerTaskShared, remove_specific_from_index, remove_from_heap}
use timer_and_callback.MinHeap.Order.{parent, key, AllLive, IsHeap, read_slot-ok, root_least}
use timer_and_callback.MinHeap.Remove.{
  Filled, fill_from_last-Filled, Filled-disorders, Filled-one_child, Filled-IsHeap,
}
use timer_and_callback.MinHeap.Search.{remove_from_heap-TakenOut}

-- No other entry holds the pointer of the entry at `index`.
abbrev pub IsAlone : TimerTaskShared → ℕ → Type 0
IsAlone s index =
    (j : ℕ) → j < s.number_of_timers_being_managed → s.heap j ≡ s.heap index → j ≡ index

module _ (fires : ℕ → Option ℕ) (s : TimerTaskShared)
    (fits : s.number_of_timers_being_managed ≤ max_number_of_timers)
    (live : AllLive fires s.heap s.number_of_timers_being_managed) where
  abbrev n : ℕ
  n = s.number_of_timers_being_managed

  abbrev pub Done : ℕ → Result × TimerTaskShared → Type 0
  Done index (code, s') = (code ≡ Result.ok) × Filled fires s index s'

  root_first-Done :
      (fuel : ℕ)
      → 0 < n
      → Returns (Done 0) (remove_specific_from_index fires (suc fuel) s (s.heap 0) 0)
  unfolding remove_specific_from_index
  root_first-Done fuel some_left =
      let same : (s.heap 0 == s.heap 0) ≡ true = ground arith in
      rw (read_slot-ok s.heap 0 (omega arith), same)
        (Returns-bind (fill_from_last-Filled fires s 0 some_left fits live)
          λ s' f. returns (refl, f))

  pub remove_root-Done : 0 < n → Returns (Done 0) (remove_from_heap fires s (s.heap 0))
  unfolding remove_from_heap
  remove_root-Done some_left =
      let fuel : n + 2 ≡ suc (n + 1) = omega arith in rw fuel (root_first-Done (n + 1) some_left)

  remove_alone-Done :
      (index : ℕ)
      → (index + 1 < n) ⊎ ((index < n) × (n ≤ 3))
      → IsAlone s index
      → Returns (Done index) (remove_from_heap fires s (s.heap index))
  remove_alone-Done index place alone =
      Returns-map (remove_from_heap-TakenOut fires s (s.heap index) fits live index place refl)
        λ (code, s') out.
          (out.result, rw (alone out.index (omega (arith, out.visited)) out.held) at out.filled)

  -- `removeFromHeap` of the top of a heap of an even number of timers answers OK, takes out a timer
  -- that fires first, and leaves a heap.
  pub remove_top-IsHeap :
      0 < n
      → IsHeap fires s.heap n
      → n % 2 ≡ 0
      → Returns
          (λ (code, s').
            (code ≡ Result.ok)
            × ((i : ℕ) → i < n → key fires s.heap 0 ≤ key fires s.heap i)
            × Filled fires s 0 s'
            × IsHeap fires s'.heap s'.number_of_timers_being_managed)
          (remove_from_heap fires s (s.heap 0))
  remove_top-IsHeap some_left h even =
      Returns-map (remove_root-Done some_left) λ (code, s') (done, f). (
        done,
        λ i p. root_least fires s.heap n i h p,
        f,
        Filled-IsHeap fires s 0 some_left fits live f h (inl refl) even,
      )

  -- `removeFromHeap` of the top of three timers, the third later than the second, answers OK and
  -- puts the third before the second: the array is no heap.
  pub remove_top-one_child :
      n ≡ 3
      → key fires s.heap 1 < key fires s.heap 2
      → Returns
          (λ (code, s').
            (code ≡ Result.ok) × ¬ (IsHeap fires s'.heap s'.number_of_timers_being_managed))
          (remove_from_heap fires s (s.heap 0))
  remove_top-one_child three early =
      Returns-map (remove_root-Done (omega arith)) λ (code, s') (done, f).
        (done, Filled-one_child fires s 0 (omega arith) fits live f (omega arith) (ground arith))

  -- `removeFromHeap` of a timer below the top, held once, when the last timer fires before the
  -- parent of the removed one: the call answers OK, and the array is no heap.
  pub remove_inner-disorders :
      (index : ℕ)
      → 0 < index
      → index + 1 < n
      → IsAlone s index
      → key fires s.heap (n - 1) < key fires s.heap (parent index)
      → Returns
          (λ (code, s').
            (code ≡ Result.ok) × ¬ (IsHeap fires s'.heap s'.number_of_timers_being_managed))
          (remove_from_heap fires s (s.heap index))
  remove_inner-disorders index inner below alone early =
      Returns-map (remove_alone-Done index (inl below) alone) λ (code, s') (done, f).
        (done, Filled-disorders fires s index (omega arith) fits live f inner below early)
