-- ===== src/MinHeap/Stale.antt =====
-- platform/TimerMinHeap.cpp, `removeFromHeap` on a heap that has become empty, where the first slot of
-- the array still has the pointer of the timer that was there last, and on a heap whose last pointer
-- leads to no timer.
use timer_and_callback.Base.{
  fault, ℕ, suc, ◌+◌, ◌-◌, ◌≤◌, ◌≡◌, refl, ◌∙◌, ap, Option, none, true, ◌==◌, ◌<◌, update, Returns,
  Returns-map, arith,
}
use timer_and_callback.Types.{Result, pred32, max_number_of_timers}
use timer_and_callback.MinHeap.{
  read_slot, firing_time, down_loop, down_heapify_from_index, fill_from_last, TimerTaskShared,
  remove_specific_from_index, remove_from_heap,
}
use timer_and_callback.MinHeap.Order.{AllLive, read_slot-ok, write_slot-ok}
use timer_and_callback.MinHeap.Removal.{remove_root-Done}

read_slot-fault : (heap : ℕ → ℕ) (i : ℕ) → max_number_of_timers ≤ i → read_slot heap i ≡ fault
unfolding read_slot
read_slot-fault heap i h = ground arith

module _ (fires : ℕ → Option ℕ) (s : TimerTaskShared) (timer : ℕ) where
  remove_specific_from_index-fault :
      (fuel : ℕ)
      → s.number_of_timers_being_managed ≡ 0
      → s.heap 0 ≡ timer
      → remove_specific_from_index fires (suc fuel) s timer 0 ≡ fault
  unfolding remove_specific_from_index fill_from_last
  remove_specific_from_index-fault fuel none_left left_behind =
      let same : (timer == timer) ≡ true = ground arith in
      rw
        (
          read_slot-ok s.heap 0 (omega arith),
          left_behind,
          same,
          none_left,
          read_slot-fault s.heap 4294967295 (omega arith),
        )
        refl

  pub remove_from_heap-fault :
      s.number_of_timers_being_managed ≡ 0
      → s.heap 0 ≡ timer
      → remove_from_heap fires s timer ≡ fault
  unfolding remove_from_heap
  remove_from_heap-fault none_left left_behind =
      let fuel : s.number_of_timers_being_managed + 2 ≡ suc 1 = omega arith in
      rw fuel (remove_specific_from_index-fault 1 none_left left_behind)

-- `removeFromHeap` of the only timer answers OK, and a second call for the same timer reads outside
-- of the array.
pub remove_from_heap-again :
    (fires : ℕ → Option ℕ) (s : TimerTaskShared)
    → s.number_of_timers_being_managed ≡ 1
    → AllLive fires s.heap s.number_of_timers_being_managed
    → Returns
        (λ (code, s'). (code ≡ Result.ok) × (remove_from_heap fires s' (s.heap 0) ≡ fault))
        (remove_from_heap fires s (s.heap 0))
remove_from_heap-again fires s one live =
    let first : s.number_of_timers_being_managed - 1 ≡ 0 = omega arith in
    Returns-map (remove_root-Done fires s (omega arith) live (omega arith)) λ (code, s') (done, f).
      (
        done,
        remove_from_heap-fault fires s' (s.heap 0) (omega (arith, f.shrunk))
            (f.stays (omega arith) 0 ∙ ap s.heap first),
      )

-- The last pointer leads to no Timer object.
module _ (fires : ℕ → Option ℕ) (s : TimerTaskShared)
    (some_left : 0 < s.number_of_timers_being_managed)
    (fits : s.number_of_timers_being_managed ≤ max_number_of_timers)
    (gone : fires (s.heap (s.number_of_timers_being_managed - 1)) ≡ none) where
  abbrev last : ℕ
  last = s.number_of_timers_being_managed - 1

  down_loop-fault :
      (fuel number : ℕ)
      → down_loop fires (suc fuel) number (update s.heap 0 (s.heap last)) 0 ≡ fault
  unfolding down_loop firing_time
  down_loop-fault fuel number =
      rw (read_slot-ok (update s.heap 0 (s.heap last)) 0 (omega arith), gone) refl

  fill_from_last-fault : fill_from_last fires s 0 ≡ fault
  unfolding fill_from_last down_heapify_from_index
  fill_from_last-fault =
      let down : pred32 s.number_of_timers_being_managed ≡ last = omega arith in
      let fuel : last + 1 ≡ suc last = omega arith in
      rw
        (
          down,
          read_slot-ok s.heap last (omega arith),
          write_slot-ok s.heap 0 (s.heap last) (omega arith),
          fuel,
          down_loop-fault last last,
        )
        refl

  root_first-fault : (fuel : ℕ) → remove_specific_from_index fires (suc fuel) s (s.heap 0) 0 ≡ fault
  unfolding remove_specific_from_index
  root_first-fault fuel =
      let same : (s.heap 0 == s.heap 0) ≡ true = ground arith in
      rw (read_slot-ok s.heap 0 (omega arith), same, fill_from_last-fault) refl

  -- Then the removal of the top reads the firing time of what is no Timer.
  pub remove_root-fault : remove_from_heap fires s (s.heap 0) ≡ fault
  unfolding remove_from_heap
  remove_root-fault =
      let n = s.number_of_timers_being_managed in
      let fuel : n + 2 ≡ suc (n + 1) = omega arith in rw fuel (root_first-fault (n + 1))
