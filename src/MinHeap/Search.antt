-- ===== src/MinHeap/Search.antt =====
-- platform/TimerMinHeap.cpp, `removeSpecificFromIndex` and `removeFromHeap`: the search for a timer
-- over the parents, each with its two children, and what it finds.
use timer_and_callback.Base.{
  ℕ, zero, suc, ◌+◌, ◌-◌, ◌*◌, ◌≤◌, ◌<◌, ◌≡◌, refl, ◌∙◌, ◌≢◌, ◌⊎◌, inl, inr, Option, Bool, true,
  false, ◌||◌, ltb, ◌==◌, if◌then◌else◌, Bool-cases, ok, Returns, returns, Returns-if, Returns-bind,
  Returns-map, arith,
}
use timer_and_callback.Types.{Result, u32, pred32, max_number_of_timers}
use timer_and_callback.MinHeap.{
  TimerTaskShared, fill_from_last, holds_below_last, removed, remove_specific_from_index,
  remove_from_heap,
}
use timer_and_callback.MinHeap.Order.{AllLive, read_slot-ok}
use timer_and_callback.MinHeap.Remove.{Filled, fill_from_last-Filled}

-- The entries that the search compares with the timer: all but the last one, and those up to the
-- first parent whose left child would lie behind the array.
abbrev pub IsVisited : ℕ → ℕ → Type 0
IsVisited n i = (i + 1 < n) ⊎ ((i < n) × (2 * i ≤ n + 1))

-- One entry that holds the timer is taken out.
pub record TakenOut (fires : ℕ → Option ℕ) (s : TimerTaskShared) (timer : ℕ)
    (r : Result × TimerTaskShared) : Type 0 where
  pub result : r.0 ≡ Result.ok
  pub index : ℕ
  pub visited : IsVisited s.number_of_timers_being_managed index
  pub held : s.heap index ≡ timer
  pub filled : Filled fires s index r.1

-- No visited entry holds the timer, and nothing changes.
pub record NotFound (s : TimerTaskShared) (timer : ℕ) (r : Result × TimerTaskShared) : Type 0 where
  pub result : r.0 ≡ Result.error
  pub same : r.1 ≡ s
  pub absent : (i : ℕ) → IsVisited s.number_of_timers_being_managed i → s.heap i ≢ timer

abbrev pub Outcome : (ℕ → Option ℕ) → TimerTaskShared → ℕ → Result × TimerTaskShared → Type 0
Outcome fires s timer r = TakenOut fires s timer r ⊎ NotFound s timer r

module _ (fires : ℕ → Option ℕ) (s : TimerTaskShared) (timer : ℕ)
    (fits : s.number_of_timers_being_managed ≤ max_number_of_timers)
    (live : AllLive fires s.heap s.number_of_timers_being_managed) where
  abbrev n : ℕ
  n = s.number_of_timers_being_managed

  taken_out :
      (i : ℕ)
      → IsVisited n i
      → s.heap i ≡ timer
      → Returns (Outcome fires s timer) (removed fires (fill_from_last fires s i))
  taken_out i visited held =
      Returns-bind (fill_from_last-Filled fires s i (omega arith) fits live) λ s' f.
        returns
          (inl (record { result = refl; index = i; visited = visited; held = held; filled = f }))

  holds_below_last-ok :
      (skip : Bool) (i : ℕ)
      → 0 < n
      → Returns
          (λ b.
            (b ≡ true → (i + 1 < n) × (s.heap i ≡ timer))
            × (b ≡ false → skip ≡ false → i + 1 < n → s.heap i ≢ timer))
          (if skip then ok false else holds_below_last fires s timer i)
  unfolding holds_below_last
  holds_below_last-ok true i some_left = returns (λ e. cc, λ e e'. cc)
  holds_below_last-ok false i some_left =
      let down : pred32 n ≡ n - 1 = omega arith in
      rw down (elim (Bool-cases (ltb i (n - 1))) [
        | inl e ↦
            rw (e, read_slot-ok s.heap i (ground arith))
              (returns (λ h. ground arith, λ h e' p. ground arith))
        | inr e ↦ rw e (returns (λ h. cc, λ h e' p. absurd (ground arith)))
      ])

  remove_specific_from_index-Outcome :
      (fuel parent : ℕ)
      → n + 1 < fuel + parent
      → (1 < n) ⊎ ((n ≡ 1) × (parent ≡ 0) × (s.heap 0 ≡ timer))
      → 2 * parent ≤ n + 1
      → ((i : ℕ) → i < parent → s.heap i ≢ timer)
      → ((i : ℕ) → 0 < i → i < 2 * parent + 1 → i + 1 < n → s.heap i ≢ timer)
      → Returns (Outcome fires s timer) (remove_specific_from_index fires fuel s timer parent)
  unfolding remove_specific_from_index
  remove_specific_from_index-Outcome zero parent f two inside no_parent no_child =
      absurd (omega arith)
  remove_specific_from_index-Outcome (suc fuel) parent f two inside no_parent no_child =
      let at_left : u32 (parent * 2 + 1) ≡ 2 * parent + 1 = omega arith in
      let at_right : u32 (2 * parent + 1 + 1) ≡ 2 * parent + 2 = omega arith in
      let at_next : u32 (parent + 1) ≡ parent + 1 = omega arith in
      let here = s.heap parent == timer in
      rw (at_left, at_right, at_next, read_slot-ok s.heap parent (omega arith))
        (Returns-bind (holds_below_last-ok here (2 * parent + 1) (omega arith)) λ l (l_is, l_not).
          Returns-bind (holds_below_last-ok (here || l) (2 * parent + 2) (omega arith))
            λ r (r_is, r_not).
              Returns-if here (λ e. taken_out parent (omega arith) (ground arith))
                λ e.
                  Returns-if l (λ e'. taken_out (2 * parent + 1) (inl (l_is e').0) (l_is e').1)
                    λ e'.
                      Returns-if r
                        (λ e''. taken_out (2 * parent + 2) (inl (r_is e'').0) (r_is e'').1)
                        λ e''.
                          Returns-if (ltb n (2 * parent + 1))
                            (λ past. returns (
                              inr (record {
                                result = refl;
                                same = refl;
                                absent = λ i v. ground (arith, no_parent i, no_child i);
                              })))
                            (λ more.
                              remove_specific_from_index-Outcome fuel (parent + 1) (omega arith)
                                (ground arith) (ground arith) (λ i p. ground (arith, no_parent i))
                                (λ i z p q. ground (arith, no_child i))))

  -- The timers that `removeFromHeap` is meant to find: an array of more than one, or its only entry.
  abbrev pub CanSearch : Type 0
  CanSearch = (1 < n) ⊎ ((n ≡ 1) × (s.heap 0 ≡ timer))

  -- `removeFromHeap`, of two timers or more or of the only one, returns, and either takes out one
  -- entry that holds the timer, keeping all the others, or finds no such entry among those that it
  -- visits, answers ERROR and changes nothing.
  pub remove_from_heap-Outcome :
      CanSearch → Returns (Outcome fires s timer) (remove_from_heap fires s timer)
  unfolding remove_from_heap
  remove_from_heap-Outcome two =
      remove_specific_from_index-Outcome (n + 2) 0 (omega arith) (ground arith) (omega arith)
        (λ i p. absurd (omega arith)) (λ i z p q. absurd (omega arith))

  -- A timer that stands before the last place, or in a heap of at most three, is removed with OK:
  -- the number falls by one, and each pointer is held as often as before, but for one entry less of
  -- the timer.
  pub remove_from_heap-TakenOut :
      (i : ℕ)
      → (i + 1 < n) ⊎ ((i < n) × (n ≤ 3))
      → s.heap i ≡ timer
      → Returns (TakenOut fires s timer) (remove_from_heap fires s timer)
  remove_from_heap-TakenOut i place held =
      Returns-map (remove_from_heap-Outcome (ground arith)) λ r o. elim o [
        | inl out ↦ out
        | inr not_found ↦ absurd (not_found.absent i (omega arith) held)
      ]

  -- In a heap of four timers or more, a timer that only the last entry holds is not found:
  -- `removeFromHeap` answers ERROR and leaves the timer in the heap.
  pub remove_from_heap-last :
      3 < n
      → ((i : ℕ) → i + 1 < n → s.heap i ≢ timer)
      → remove_from_heap fires s timer ≡ ok (Result.error, s)
  remove_from_heap-last many only =
      let call = remove_from_heap-Outcome (inl (omega arith)) in
      elim call.holds [
        | inl out ↦ absurd (only out.index (omega (arith, out.visited)) out.held)
        | inr not_found ↦ call.ended ∙ (λ i. ok (not_found.result i, not_found.same i))
      ]
