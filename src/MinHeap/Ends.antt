-- ===== src/MinHeap/Ends.antt =====
-- platform/TimerMinHeap.cpp: the loops of the heap end, whatever the array leads to.
use timer_and_callback.Base.{
  ℕ, zero, suc, ◌+◌, ◌*◌, ◌/◌, ◌≤◌, ◌<◌, ◌≡◌, ◌≢◌, refl, Option, some, none, Bool, true, false,
  ◌||◌, ltb, leb, ◌==◌, if◌then◌else◌, Run, ok, fault, blocked, aborted, out_of_fuel, ◌>>=◌,
  Bool-cases, inl, inr, arith,
}
use timer_and_callback.Types.{u32, pred32, max_number_of_timers, uint64_lt, uint64_geq}
use timer_and_callback.MinHeap.{
  TimerTaskShared, read_slot, write_slot, exchange, or_fault, firing_time, up_loop, up_heapify,
  down_loop, down_heapify_from_index, fill_from_last, holds_below_last, removed,
  remove_specific_from_index, add_to_heap, remove_from_heap,
}

-- The call comes to an end, whichever it is.
record Ends {ℓ} {A : Type ℓ} (call : Run A) : Type ℓ where
  ended : call ≢ out_of_fuel

ok-Ends {ℓ} : {A : Type ℓ} {a : A} → Ends (ok a)
ok-Ends = record { ended = λ e. cc }

fault-Ends {ℓ} : {A : Type ℓ} → Ends {A = A} fault
fault-Ends = record { ended = λ e. cc }

Ends-bind {ℓ ℓ'} :
    {A : Type ℓ} {B : Type ℓ'} (call : Run A) {next : A → Run B}
    → Ends call
    → ((a : A) → Ends (next a))
    → Ends (call >>= next)
Ends-bind (ok a) e k = k a
Ends-bind fault e k = fault-Ends
Ends-bind blocked e k = record { ended = λ h. cc }
Ends-bind aborted e k = record { ended = λ h. cc }
Ends-bind out_of_fuel e k = absurd (e.ended refl)

Ends-if {ℓ} :
    {A : Type ℓ} {yes no : Run A} (test : Bool)
    → (test ≡ true → Ends yes)
    → (test ≡ false → Ends no)
    → Ends (if test then yes else no)
Ends-if true on_yes on_no = on_yes refl
Ends-if false on_yes on_no = on_no refl

read_slot-Ends : (heap : ℕ → ℕ) (i : ℕ) → Ends (read_slot heap i)
unfolding read_slot
read_slot-Ends heap i = Ends-if (ltb i max_number_of_timers) (λ e. ok-Ends) (λ e. fault-Ends)

write_slot-Ends : (heap : ℕ → ℕ) (i p : ℕ) → Ends (write_slot heap i p)
unfolding write_slot
write_slot-Ends heap i p = Ends-if (ltb i max_number_of_timers) (λ e. ok-Ends) (λ e. fault-Ends)

exchange-Ends : (heap : ℕ → ℕ) (i j : ℕ) → Ends (exchange heap i j)
unfolding exchange
exchange-Ends heap i j = Ends-bind (read_slot heap i) (read_slot-Ends heap i) λ tmp.
    Ends-bind (read_slot heap j) (read_slot-Ends heap j) λ other.
      Ends-bind (write_slot heap i other) (write_slot-Ends heap i other)
        λ moved. write_slot-Ends moved j tmp

or_fault-Ends {ℓ} : {A : Type ℓ} (o : Option A) → Ends (or_fault o)
or_fault-Ends (some a) = ok-Ends
or_fault-Ends none = fault-Ends

module _ (fires : ℕ → Option ℕ) where
  firing_time-Ends : (heap : ℕ → ℕ) (i : ℕ) → Ends (firing_time fires heap i)
  unfolding firing_time
  firing_time-Ends heap i =
      Ends-bind (read_slot heap i) (read_slot-Ends heap i) λ p. or_fault-Ends (fires p)

  up_loop-Ends :
      (fuel : ℕ) (heap : ℕ → ℕ) (index : ℕ)
      → 0 < index
      → index < fuel
      → index ≤ max_number_of_timers
      → Ends (up_loop fires fuel heap index)
  unfolding up_loop
  up_loop-Ends zero heap index some_left enough inside = absurd (omega arith)
  up_loop-Ends (suc fuel) heap index some_left enough inside =
      let parent = pred32 index / 2 in
      Ends-bind (firing_time fires heap parent) (firing_time-Ends heap parent) λ parent_time.
        Ends-bind (firing_time fires heap index) (firing_time-Ends heap index) λ index_time.
          Ends-if (uint64_lt parent_time index_time) (λ e. ok-Ends)
            λ e. Ends-bind (exchange heap index parent) (exchange-Ends heap index parent) λ moved.
              Ends-if (parent == 0) (λ e'. ok-Ends)
                λ e'. up_loop-Ends fuel moved parent (ground arith) (omega arith) (omega arith)

  down_loop-Ends :
      (fuel number : ℕ) (heap : ℕ → ℕ) (parent : ℕ)
      → number < fuel + parent
      → number ≤ max_number_of_timers
      → parent ≤ 4 * max_number_of_timers
      → 0 < fuel
      → Ends (down_loop fires fuel number heap parent)
  unfolding down_loop
  down_loop-Ends zero number heap parent enough fits inside some_fuel = absurd (omega arith)
  down_loop-Ends (suc fuel) number heap parent enough fits inside some_fuel =
      let left = u32 (2 * parent + 1) in
      let right = u32 (left + 1) in
      let at_left : left ≡ 2 * parent + 1 = omega arith in
      let at_right : right ≡ 2 * parent + 2 = omega arith in
      Ends-bind (firing_time fires heap parent) (firing_time-Ends heap parent) λ parent_time.
        Ends-bind (if ltb left number then firing_time fires heap left else ok 0)
          (Ends-if (ltb left number) (λ e. firing_time-Ends heap left) (λ e. ok-Ends))
          λ left_time.
            Ends-bind (if leb right number then firing_time fires heap right else ok 0)
              (Ends-if (leb right number) (λ e. firing_time-Ends heap right) (λ e. ok-Ends))
              λ right_time.
                Ends-if (leb number left || leb number right) (λ e. ok-Ends)
                  λ e.
                    Ends-if (uint64_lt left_time parent_time || uint64_lt right_time parent_time)
                      (λ e1.
                        Ends-if (uint64_lt left_time right_time)
                          (λ e2.
                            Ends-bind (exchange heap left parent) (exchange-Ends heap left parent)
                              λ moved.
                                down_loop-Ends fuel number moved left (ground arith) fits
                                  (ground arith) (ground arith))
                          λ e2.
                            Ends-if (uint64_geq left_time right_time)
                              (λ e3.
                                Ends-bind (exchange heap right parent)
                                  (exchange-Ends heap right parent)
                                  λ moved.
                                    down_loop-Ends fuel number moved right (ground arith) fits
                                      (ground arith) (ground arith))
                              λ e3. absurd (ground arith))
                      λ e1. ok-Ends

  down_heapify_from_index-Ends :
      (s : TimerTaskShared) (index : ℕ)
      → s.number_of_timers_being_managed ≤ max_number_of_timers
      → index ≤ 4 * max_number_of_timers
      → Ends (down_heapify_from_index fires s index)
  unfolding down_heapify_from_index
  down_heapify_from_index-Ends s index fits inside =
      let number = s.number_of_timers_being_managed in
      Ends-bind (down_loop fires (number + 1) number s.heap index)
        (down_loop-Ends (number + 1) number s.heap index (omega arith) fits inside (omega arith))
        λ heap. ok-Ends

  -- With no timer the number wraps, and the last entry lies outside of the array.
  fill_from_last-Ends :
      (s : TimerTaskShared) (index : ℕ)
      → s.number_of_timers_being_managed ≤ max_number_of_timers
      → index ≤ 4 * max_number_of_timers
      → Ends (fill_from_last fires s index)
  unfolding fill_from_last read_slot
  fill_from_last-Ends s index fits inside =
      let number = pred32 s.number_of_timers_being_managed in
      elim (Bool-cases (ltb number max_number_of_timers)) [
        | inl e ↦ rw e (
            Ends-bind (write_slot s.heap index (s.heap number))
              (write_slot-Ends s.heap index (s.heap number))
              λ heap.
                down_heapify_from_index-Ends
                  (record { heap = heap; number_of_timers_being_managed = number }) index
                  (ground arith) inside)
        | inr e ↦ rw e fault-Ends
      ]

  removed-Ends :
      (s : TimerTaskShared) (index : ℕ)
      → s.number_of_timers_being_managed ≤ max_number_of_timers
      → index ≤ 4 * max_number_of_timers
      → Ends (removed fires (fill_from_last fires s index))
  removed-Ends s index fits inside =
      Ends-bind (fill_from_last fires s index) (fill_from_last-Ends s index fits inside)
        λ s'. ok-Ends

  holds_below_last-Ends :
      (skip : Bool) (s : TimerTaskShared) (timer i : ℕ)
      → Ends (if skip then ok false else holds_below_last fires s timer i)
  unfolding holds_below_last
  holds_below_last-Ends skip s timer i =
      Ends-if skip (λ e. ok-Ends)
        λ e.
          Ends-if (ltb i (pred32 s.number_of_timers_being_managed))
            (λ e'. Ends-bind (read_slot s.heap i) (read_slot-Ends s.heap i) λ p. ok-Ends)
            λ e'. ok-Ends

  remove_specific_from_index-Ends :
      (fuel : ℕ) (s : TimerTaskShared) (timer parent : ℕ)
      → s.number_of_timers_being_managed ≤ max_number_of_timers
      → s.number_of_timers_being_managed + 1 < fuel + parent
      → 2 * parent ≤ s.number_of_timers_being_managed + 1
      → Ends (remove_specific_from_index fires fuel s timer parent)
  unfolding remove_specific_from_index
  remove_specific_from_index-Ends zero s timer parent fits enough inside = absurd (omega arith)
  remove_specific_from_index-Ends (suc fuel) s timer parent fits enough inside =
      let left = u32 (parent * 2 + 1) in
      let right = u32 (left + 1) in
      Ends-bind (read_slot s.heap parent) (read_slot-Ends s.heap parent) λ p.
        Ends-bind (if p == timer then ok false else holds_below_last fires s timer left)
          (holds_below_last-Ends (p == timer) s timer left)
          λ at_left.
            Ends-bind
              (if p == timer || at_left then ok false else holds_below_last fires s timer right)
              (holds_below_last-Ends (p == timer || at_left) s timer right)
              λ at_right.
                Ends-if (p == timer) (λ e. removed-Ends s parent fits (omega arith))
                  λ e.
                    Ends-if at_left (λ e1. removed-Ends s left fits (omega arith))
                      λ e1.
                        Ends-if at_right (λ e2. removed-Ends s right fits (omega arith))
                          λ e2.
                            Ends-if (ltb s.number_of_timers_being_managed left) (λ e3. ok-Ends)
                              λ e3.
                                let more : left ≤ s.number_of_timers_being_managed = ground arith in
                                remove_specific_from_index-Ends fuel s timer (u32 (parent + 1)) fits
                                  (omega arith) (omega arith)

  add_to_heap-Ends :
      (s : TimerTaskShared) (timer : ℕ)
      → s.number_of_timers_being_managed ≤ max_number_of_timers
      → Ends (add_to_heap fires s timer)
  unfolding add_to_heap up_heapify
  add_to_heap-Ends s timer fits =
      let index = s.number_of_timers_being_managed in
      Ends-bind (write_slot s.heap index timer) (write_slot-Ends s.heap index timer) λ heap.
        Ends-bind (if index == 0 then ok heap else up_loop fires (index + 1) heap index)
          (Ends-if (index == 0) (λ e. ok-Ends)
            λ e. up_loop-Ends (index + 1) heap index (ground arith) (omega arith) fits)
          λ heap'. ok-Ends

  -- With at most 1024 timers in the heap, whatever the entries of the array hold, Timer objects or
  -- not and in order or not, the loops of `addToHeap` and of `removeFromHeap` of any timer end:
  -- neither call spends the fuel of a loop.
  pub heap_terminates :
      (s : TimerTaskShared) (timer : ℕ)
      → s.number_of_timers_being_managed ≤ max_number_of_timers
      → (add_to_heap fires s timer ≢ out_of_fuel) × (remove_from_heap fires s timer ≢ out_of_fuel)
  unfolding remove_from_heap
  heap_terminates s timer fits = (
    (add_to_heap-Ends s timer fits).ended,
    (remove_specific_from_index-Ends (s.number_of_timers_being_managed + 2) s timer 0 fits
        (omega arith) (omega arith)).ended,
  )
