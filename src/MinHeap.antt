-- ===== src/MinHeap.antt =====
-- include/platform/TimerMinHeap.h, TimerTaskShared.h and platform/TimerMinHeap.cpp: the array of
-- timer pointers in shared memory and the operations on it. A pointer is a number. `fires p` is
-- `p->getWhenToFire ()`, and `none` where `p` points at no Timer object. An index outside of the
-- array is a fault, as is such a pointer. Of `printHeap` the pointers are kept; the log lines are
-- left out.
pub mod Order
pub mod Up
pub mod Down
pub mod Remove
pub mod Search
pub mod Removal
pub mod Stale
pub mod Bag
pub mod Ends
pub mod Unordered
use timer_and_callback.Base.{
  ℕ, zero, suc, ◌+◌, ◌*◌, ◌/◌, Bool, false, ◌||◌, Option, none, some, ltb, leb, ◌==◌, if◌then◌else◌,
  List, [], ◌∷◌, Run, ok, fault, out_of_fuel, ◌>>=◌, update,
}
use timer_and_callback.Types.{Result, u32, pred32, max_number_of_timers, uint64_lt, uint64_geq}

-- `struct TimerTaskShared`
pub record TimerTaskShared : Type 0 where
  pub heap : ℕ → ℕ
  pub number_of_timers_being_managed : ℕ

abbrev pub get_number_of_timers : TimerTaskShared → ℕ
get_number_of_timers s = s.number_of_timers_being_managed

abbrev pub set_number_of_timers : TimerTaskShared → ℕ → TimerTaskShared
set_number_of_timers s number = record s { number_of_timers_being_managed = number }

abbrev pub inc_number_of_timers : TimerTaskShared → TimerTaskShared
inc_number_of_timers s = set_number_of_timers s (u32 (get_number_of_timers s + 1))

abbrev pub dec_number_of_timers : TimerTaskShared → TimerTaskShared
dec_number_of_timers s = set_number_of_timers s (pred32 (get_number_of_timers s))

pub read_slot : (ℕ → ℕ) → ℕ → Run ℕ
read_slot heap i = if ltb i max_number_of_timers then ok (heap i) else fault

pub write_slot : (ℕ → ℕ) → ℕ → ℕ → Run (ℕ → ℕ)
write_slot heap i p = if ltb i max_number_of_timers then ok (update heap i p) else fault

-- `tmp = heap[i]; heap[i] = heap[j]; heap[j] = tmp`
pub exchange : (ℕ → ℕ) → ℕ → ℕ → Run (ℕ → ℕ)
exchange heap i j = do
  tmp ← read_slot heap i
  other ← read_slot heap j
  moved ← write_slot heap i other
  write_slot moved j tmp

-- The pointers that `printHeap` writes from a place on.
pub print_slots : (ℕ → ℕ) → (left index : ℕ) → Run (List ℕ)
print_slots heap zero index = ok []
print_slots heap (suc left) index = do
  p ← read_slot heap index
  rest ← print_slots heap left (index + 1)
  ok (p ∷ rest)

pub print_heap : TimerTaskShared → Run (List ℕ)
unfolding print_slots
print_heap s = print_slots s.heap (get_number_of_timers s) 0

abbrev pub or_fault {ℓ} : {A : Type ℓ} → Option A → Run A
or_fault (some a) = ok a
or_fault none = fault

module _ (fires : ℕ → Option ℕ) where
  -- `heap[i]->getWhenToFire ()`
  pub firing_time : (ℕ → ℕ) → ℕ → Run ℕ
  firing_time heap i = do p ← read_slot heap i; or_fault (fires p)

  -- The `while (!heaped)` of `upHeapify`: it ends at a parent that fires earlier, and after the
  -- exchange with the root.
  pub up_loop : ℕ → (ℕ → ℕ) → ℕ → Run (ℕ → ℕ)
  up_loop zero heap index = out_of_fuel
  up_loop (suc fuel) heap index =
      let parent = pred32 index / 2 in
      let rise : Run (ℕ → ℕ) = do
        moved ← exchange heap index parent
        let again = up_loop fuel moved parent
        if parent == 0 then ok moved else again
      in do
        parent_time ← firing_time heap parent
        index_time ← firing_time heap index
        if uint64_lt parent_time index_time then ok heap else rise

  pub up_heapify : TimerTaskShared → ℕ → Run (Result × TimerTaskShared)
  up_heapify s timer = do
    let index = get_number_of_timers s
    heap ← write_slot s.heap index timer
    heap' ← if index == 0 then ok heap else up_loop (index + 1) heap index
    ok (Result.ok, inc_number_of_timers (record s { heap = heap' }))

  -- The `while (!heaped)` of `downHeapifyFromIndex`, with `number` timers in the heap. A firing
  -- time that is not read stays uninitialised; the loop returns before it is used.
  pub down_loop : ℕ → ℕ → (ℕ → ℕ) → ℕ → Run (ℕ → ℕ)
  down_loop zero number heap parent = out_of_fuel
  down_loop (suc fuel) number heap parent =
      let left = u32 (2 * parent + 1) in
      let right = u32 (left + 1) in
      let sink_left = exchange heap left parent >>= λ moved. down_loop fuel number moved left in
      let sink_right = exchange heap right parent >>= λ moved. down_loop fuel number moved right in
      let stay = down_loop fuel number heap parent in
      do
        parent_time ← firing_time heap parent
        left_time ← if ltb left number then firing_time heap left else ok 0
        right_time ← if leb right number then firing_time heap right else ok 0
        if leb number left || leb number right
            then ok heap
            else if uint64_lt left_time parent_time || uint64_lt right_time parent_time
            then (if uint64_lt left_time right_time
                then sink_left
                else if uint64_geq left_time right_time
                then sink_right
                else stay)
            else ok heap

  -- Each round goes down by a level, so `number + 1` rounds are enough.
  pub down_heapify_from_index : TimerTaskShared → ℕ → Run TimerTaskShared
  down_heapify_from_index s index = do
    let number = s.number_of_timers_being_managed
    heap ← down_loop (number + 1) number s.heap index
    ok (record s { heap = heap })

  -- Overwrite the entry at `index` by the last one, shrink the heap, and restore it below `index`.
  pub fill_from_last : TimerTaskShared → ℕ → Run TimerTaskShared
  fill_from_last s index = do
    last ← read_slot s.heap (pred32 (get_number_of_timers s))
    heap ← write_slot s.heap index last
    down_heapify_from_index (dec_number_of_timers (record s { heap = heap })) index

  pub remove_from_index : TimerTaskShared → ℕ → Run (ℕ × TimerTaskShared)
  remove_from_index s index = do
    timer ← read_slot s.heap index
    s' ← fill_from_last s index
    ok (timer, s')

  -- `(i < numberOfTimers - 1) && (minheap[i] == pTimer)`
  pub holds_below_last : TimerTaskShared → ℕ → ℕ → Run Bool
  holds_below_last s timer i =
      if ltb i (pred32 s.number_of_timers_being_managed)
      then (do p ← read_slot s.heap i; ok (p == timer))
      else ok false

  abbrev pub removed : Run TimerTaskShared → Run (Result × TimerTaskShared)
  removed r = do s ← r; ok (Result.ok, s)

  -- The recursion over `parent`.
  pub remove_specific_from_index : ℕ → TimerTaskShared → ℕ → ℕ → Run (Result × TimerTaskShared)
  remove_specific_from_index zero s timer parent = out_of_fuel
  remove_specific_from_index (suc fuel) s timer parent =
      let left = u32 (parent * 2 + 1) in
      let right = u32 (left + 1) in
      let next = remove_specific_from_index fuel s timer (u32 (parent + 1)) in
      do
        p ← read_slot s.heap parent
        at_left ← if p == timer then ok false else holds_below_last s timer left
        at_right ← if p == timer || at_left then ok false else holds_below_last s timer right
        if p == timer
            then removed (fill_from_last s parent)
            else if at_left
            then removed (fill_from_last s left)
            else if at_right
            then removed (fill_from_last s right)
            else if ltb s.number_of_timers_being_managed left
            then ok (Result.error, s)
            else next

  pub add_to_heap : TimerTaskShared → ℕ → Run (Result × TimerTaskShared)
  add_to_heap s timer = up_heapify s timer

  -- The search ends once `2 * parent + 1` is past the number of timers.
  pub remove_from_heap : TimerTaskShared → ℕ → Run (Result × TimerTaskShared)
  remove_from_heap s timer =
      remove_specific_from_index (s.number_of_timers_being_managed + 2) s timer 0
