-- ===== src/MinHeap/Order.antt =====
-- platform/TimerMinHeap.cpp: the order of the heap, and the array steps once they are in bounds.
use timer_and_callback.Base.{
  ℕ, zero, suc, ◌-◌, ◌/◌, ◌≤◌, ◌<◌, ◌≡◌, Option, none, some, ok, update, swap, arith,
}
use timer_and_callback.Types.{max_number_of_timers}
use timer_and_callback.MinHeap.{read_slot, write_slot, exchange, firing_time}

abbrev pub parent : ℕ → ℕ
parent c = (c - 1) / 2

-- The firing time behind a pointer, 0 where there is no Timer object.
abbrev pub time_of : (ℕ → Option ℕ) → ℕ → ℕ
time_of fires p = elim (fires p) [ some t ↦ t | none ↦ 0 ]

abbrev pub key : (ℕ → Option ℕ) → (ℕ → ℕ) → ℕ → ℕ
key fires heap i = time_of fires (heap i)

-- The pointer leads to a Timer object.
abbrev pub IsLive : (ℕ → Option ℕ) → ℕ → Type 0
IsLive fires p = fires p ≡ some (time_of fires p)

abbrev pub AllLive : (ℕ → Option ℕ) → (ℕ → ℕ) → ℕ → Type 0
AllLive fires heap n = (i : ℕ) → i < n → IsLive fires (heap i)

-- Each of the entries 1, …, m - 1 fires no earlier than its parent.
abbrev pub IsHeap : (ℕ → Option ℕ) → (ℕ → ℕ) → ℕ → Type 0
IsHeap fires heap m = (c : ℕ) → 0 < c → c < m → key fires heap (parent c) ≤ key fires heap c

-- The edges past `i`, from its parent to its children, are in order.
abbrev pub IsBridged : (ℕ → Option ℕ) → (ℕ → ℕ) → ℕ → ℕ → Type 0
IsBridged fires heap m i =
    (c : ℕ) → 0 < c → c < m → parent c ≡ i → 0 < i → key fires heap (parent i) ≤ key fires heap c

pub read_slot-ok :
    (heap : ℕ → ℕ) (i : ℕ) → i < max_number_of_timers → read_slot heap i ≡ ok (heap i)
unfolding read_slot
read_slot-ok heap i h = ground arith

pub write_slot-ok :
    (heap : ℕ → ℕ) (i p : ℕ) → i < max_number_of_timers → write_slot heap i p ≡ ok (update heap i p)
unfolding write_slot
write_slot-ok heap i p h = ground arith

pub exchange-swap :
    (heap : ℕ → ℕ) (i j : ℕ)
    → i < max_number_of_timers
    → j < max_number_of_timers
    → exchange heap i j ≡ ok (swap heap i j)
unfolding exchange
exchange-swap heap i j hi hj =
    rw (read_slot-ok heap i hi, read_slot-ok heap j hj, write_slot-ok heap i (heap j) hi)
      (write_slot-ok (update heap i (heap j)) j (heap i) hj)

module _ (fires : ℕ → Option ℕ) (heap : ℕ → ℕ) where
  pub firing_time-ok :
      (i : ℕ)
      → i < max_number_of_timers
      → IsLive fires (heap i)
      → firing_time fires heap i ≡ ok (key fires heap i)
  unfolding firing_time
  firing_time-ok i h live = rw (read_slot-ok heap i h) (rw live)

  pub AllLive-swap :
      (n i j : ℕ) → i < n → j < n → AllLive fires heap n → AllLive fires (swap heap i j) n
  AllLive-swap n i j hi hj live k h = ground (arith, live k, live i, live j)

  root_least_below :
      (fuel m i : ℕ) → IsHeap fires heap m → i < fuel → i < m → key fires heap 0 ≤ key fires heap i
  root_least_below zero m i h f p = absurd (omega arith)
  root_least_below (suc fuel) m i h f p = ground (arith, h i, root_least_below fuel m (parent i) h)

  -- The root of a heap is a timer that fires first.
  pub root_least : (m i : ℕ) → IsHeap fires heap m → i < m → key fires heap 0 ≤ key fires heap i
  root_least m i h p = root_least_below (suc i) m i h (omega arith) p
