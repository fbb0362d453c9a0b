-- ===== src/MinHeap/Remove.antt =====
-- platform/TimerMinHeap.cpp, `removeFromIndex` and the removal step of `removeSpecificFromIndex`:
-- the last timer takes the place of the removed one and sinks.
use timer_and_callback.Base.{
  ℕ, ◌+◌, ◌-◌, ◌*◌, ◌%◌, ◌≤◌, ◌<◌, ◌≡◌, refl, ◌⊎◌, inl, inr, Option, ◌==◌, Bool-cases, Returns,
  returns, Returns-bind, update, one_if_eq, count, arith,
}
use timer_and_callback.Base.Slots.{count-update, count-update_above, count_add_one}
use timer_and_callback.Types.{pred32, max_number_of_timers}
use timer_and_callback.MinHeap.{
  TimerTaskShared, down_heapify_from_index, fill_from_last, remove_from_index,
}
use timer_and_callback.MinHeap.Order.{parent, key, AllLive, IsHeap, read_slot-ok, write_slot-ok}
use timer_and_callback.MinHeap.Down.{paired, DownInv, down_loop-Sunk}

-- The last timer may take the place `index` without coming above its parent.
abbrev pub FitsAt : (ℕ → Option ℕ) → TimerTaskShared → ℕ → Type 0
FitsAt fires s index =
    (index ≡ 0)
    ⊎ (key fires s.heap (parent index) ≤ key fires s.heap (s.number_of_timers_being_managed - 1))

-- What is left of the heap `s` when the timer at `index` has been taken out.
pub record Filled (fires : ℕ → Option ℕ) (s : TimerTaskShared) (index : ℕ) (s' : TimerTaskShared)
    : Type 0 where
  pub shrunk : s'.number_of_timers_being_managed + 1 ≡ s.number_of_timers_being_managed
  pub live : AllLive fires s'.heap s.number_of_timers_being_managed
  pub items :
      (p : ℕ)
      → count p s'.heap s'.number_of_timers_being_managed + one_if_eq (s.heap index) p
        ≡ count p s.heap s.number_of_timers_being_managed
  pub ordered :
      IsHeap fires s.heap s.number_of_timers_being_managed
      → FitsAt fires s index
      → IsHeap fires s'.heap (paired s'.number_of_timers_being_managed)
  pub before : (j : ℕ) → j < index → s'.heap j ≡ s.heap j
  pub no_later :
      index + 1 < s.number_of_timers_being_managed
      → key fires s'.heap index ≤ key fires s.heap (s.number_of_timers_being_managed - 1)
  pub stays :
      s.number_of_timers_being_managed ≤ 2 * index + 3
      → (j : ℕ) → s'.heap j ≡ update s.heap index (s.heap (s.number_of_timers_being_managed - 1)) j

module _ (fires : ℕ → Option ℕ) (s : TimerTaskShared) (index : ℕ)
    (inside : index < s.number_of_timers_being_managed)
    (fits : s.number_of_timers_being_managed ≤ max_number_of_timers)
    (live : AllLive fires s.heap s.number_of_timers_being_managed) where
  abbrev pub left_over : ℕ
  left_over = s.number_of_timers_being_managed - 1

  left_over-fits : left_over < max_number_of_timers
  left_over-fits = omega arith

  abbrev Sound : Type 0
  Sound = IsHeap fires s.heap s.number_of_timers_being_managed × FitsAt fires s index

  filled : ℕ → ℕ
  filled = update s.heap index (s.heap left_over)

  filled-DownInv : DownInv fires left_over left_over-fits Sound filled index
  unfolding filled
  filled-DownInv = record {
    inside = omega arith;
    live = λ i p. ground (arith, live i, live left_over);
    edges = λ o c p q r. ground (arith, o.0 c, o.1);
    bridged = λ o c p q r t. ground (arith, o.0 c, o.0 index);
  }

  count-filled :
      (p : ℕ)
      → count p filled left_over + one_if_eq (s.heap index) p
        ≡ count p s.heap s.number_of_timers_being_managed
  unfolding filled
  count-filled p =
      let last : s.number_of_timers_being_managed ≡ left_over + 1 = omega arith in
      rw (last, count_add_one p s.heap left_over)
        (elim (Bool-cases (index == left_over)) [
          | inl e ↦ ground (arith, count-update_above p s.heap index (s.heap left_over) left_over)
          | inr e ↦ ground (arith, count-update p s.heap index (s.heap left_over) left_over)
        ])

  pub fill_from_last-Filled : Returns (Filled fires s index) (fill_from_last fires s index)
  unfolding fill_from_last down_heapify_from_index filled
  fill_from_last-Filled =
      let down : pred32 s.number_of_timers_being_managed ≡ left_over = omega arith in
      rw
        (
          down,
          read_slot-ok s.heap left_over (omega arith),
          write_slot-ok s.heap index (s.heap left_over) (omega arith),
        )
        (Returns-bind
          (down_loop-Sunk fires left_over left_over-fits Sound (left_over + 1) filled index
            (omega arith) filled-DownInv)
          λ heap' v. returns (record {
            shrunk = omega arith;
            live = λ i p. v.all_live i (omega arith);
            items = λ p. omega (arith, v.same p, count-filled p);
            ordered = λ h f. v.ordered (h, f);
            before = λ j p. ground (arith, v.before j);
            no_later = λ p. ground (arith, v.no_later);
            stays = λ p j. v.stays (omega arith) j;
          }))

  -- `removeFromIndex` returns the timer that stood at the index and takes out exactly that entry;
  -- if the last timer may stand there, every entry with a sibling is again no earlier than its parent.
  pub remove_from_index-Filled :
      Returns
        (λ (timer, s'). (timer ≡ s.heap index) × Filled fires s index s')
        (remove_from_index fires s index)
  unfolding remove_from_index
  remove_from_index-Filled =
      rw (read_slot-ok s.heap index (omega arith))
        (Returns-bind fill_from_last-Filled λ s' f. returns (refl, f))

  module _ {s' : TimerTaskShared} (f : Filled fires s index s') where
    -- Where the last timer fires before the parent of the index, it, or an earlier one, comes below
    -- that parent.
    pub Filled-disorders :
        0 < index
        → index + 1 < s.number_of_timers_being_managed
        → key fires s.heap left_over < key fires s.heap (parent index)
        → ¬ (IsHeap fires s'.heap s'.number_of_timers_being_managed)
    Filled-disorders inner below early h = ground (
      arith,
      h index inner (omega (arith, f.shrunk)),
      f.no_later below,
      f.before (parent index) (omega arith),
    )

    -- A node that is left with one child keeps the last timer, also above a child that fires earlier.
    pub Filled-one_child :
        2 * index + 3 ≡ s.number_of_timers_being_managed
        → key fires s.heap (2 * index + 1) < key fires s.heap left_over
        → ¬ (IsHeap fires s'.heap s'.number_of_timers_being_managed)
    Filled-one_child one early h = ground (
      arith,
      h (2 * index + 1) (omega arith) (omega (arith, f.shrunk)),
      f.stays (omega arith) index,
      f.stays (omega arith) (2 * index + 1),
    )

    pub Filled-IsHeap :
        IsHeap fires s.heap s.number_of_timers_being_managed
        → FitsAt fires s index
        → s.number_of_timers_being_managed % 2 ≡ 0
        → IsHeap fires s'.heap s'.number_of_timers_being_managed
    Filled-IsHeap h at even c p q = f.ordered h at c p (omega (arith, f.shrunk))
