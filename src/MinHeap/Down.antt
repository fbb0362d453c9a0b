-- ===== src/MinHeap/Down.antt =====
-- platform/TimerMinHeap.cpp, `downHeapifyFromIndex`: an entry sinks below the timers that fire
-- earlier. The loop looks at a node only if it has two children.
use timer_and_callback.Base.{
  ℕ, zero, suc, ◌+◌, ◌-◌, ◌*◌, ◌%◌, ◌≤◌, ◌<◌, ◌≡◌, refl, ◌≢◌, ◌⊎◌, Option, Bool, true, false, ◌||◌,
  ltb, leb, if◌then◌else◌, Run, ok, Returns, returns, Returns-if, Returns-bind, Returns-map,
  SameItems, swap, arith,
}
use timer_and_callback.Base.Slots.{count-swap}
use timer_and_callback.Types.{u32, max_number_of_timers, uint64_lt, uint64_geq}
use timer_and_callback.MinHeap.{firing_time, down_loop}
use timer_and_callback.MinHeap.Order.{
  parent, key, AllLive, IsHeap, IsBridged, exchange-swap, firing_time-ok, AllLive-swap,
}

-- How many of `n` entries have their edge looked at: all, or all but a last one with no sibling.
abbrev pub paired : ℕ → ℕ
paired n = n + n % 2 - 1

-- What is said of the order is said under `Ordered`, so that the rest also holds of an array in
-- no order.
module _ (fires : ℕ → Option ℕ) (n : ℕ) (fits : n < max_number_of_timers) (Ordered : Type 0) where
  -- Only the edges below `i` may be out of order. The slot behind the last timer is read too.
  pub record DownInv (heap : ℕ → ℕ) (i : ℕ) : Type 0 where
    pub inside : i ≤ n
    pub live : AllLive fires heap (n + 1)
    pub edges :
        Ordered
        → (c : ℕ) → 0 < c
        → c < paired n
        → parent c ≢ i
        → key fires heap (parent c) ≤ key fires heap c
    pub bridged : Ordered → IsBridged fires heap (paired n) i

  -- The entry at `i` has sunk: the same items, and nothing written before `i` or past the timers.
  pub record Sunk (heap : ℕ → ℕ) (i : ℕ) (heap' : ℕ → ℕ) : Type 0 where
    pub ordered : Ordered → IsHeap fires heap' (paired n)
    pub all_live : AllLive fires heap' (n + 1)
    pub same : SameItems heap' heap n
    pub kept : (j : ℕ) → n ≤ j → heap' j ≡ heap j
    pub before : (j : ℕ) → j < i → heap' j ≡ heap j
    pub no_later : key fires heap' i ≤ key fires heap i
    pub stays : n ≤ 2 * i + 2 → (j : ℕ) → heap' j ≡ heap j

  swap-DownInv :
      (heap : ℕ → ℕ) (i m other : ℕ)
      → DownInv heap i
      → 2 * i + 2 < n
      → ((m ≡ 2 * i + 1) × (other ≡ 2 * i + 2)) ⊎ ((m ≡ 2 * i + 2) × (other ≡ 2 * i + 1))
      → key fires heap m ≤ key fires heap i
      → key fires heap m ≤ key fires heap other
      → DownInv (swap heap m i) m
  swap-DownInv heap i m other v two which below least = record {
    inside = omega arith;
    live = AllLive-swap fires heap (n + 1) m i (omega arith) (omega arith) v.live;
    edges = λ o c p q r. ground (arith, v.edges o c, v.bridged o m);
    bridged = λ o c p q r s. ground (arith, v.edges o c);
  }

  Sunk-swap :
      (heap : ℕ → ℕ) (i j : ℕ) {r : Run (ℕ → ℕ)}
      → i < n
      → j < i
      → 2 * j + 2 < n
      → key fires heap i ≤ key fires heap j
      → Returns (Sunk (swap heap i j) i) r
      → Returns (Sunk heap j) r
  Sunk-swap heap i j hi hj two low run = Returns-map run λ heap' s. record {
    ordered = s.ordered;
    all_live = s.all_live;
    same = λ p. omega (arith, s.same p, count-swap heap i j n hi (omega arith) p);
    kept = λ k h. ground (arith, s.kept k h);
    before = λ k h. ground (arith, s.before k);
    no_later = ground (arith, s.before j hj);
    stays = λ h k. absurd (omega arith);
  }

  -- A firing time that is read only under a test.
  firing_time_if :
      (heap : ℕ → ℕ) (b : Bool) (i : ℕ)
      → AllLive fires heap (n + 1)
      → (b ≡ true → i ≤ n)
      → Returns
          (λ t. b ≡ true → t ≡ key fires heap i)
          (if b then firing_time fires heap i else ok 0)
  firing_time_if heap true i live h =
      let inside = h refl in
      rw (firing_time-ok fires heap i (omega arith) (live i (omega arith))) (returns (λ _. refl))
  firing_time_if heap false i live h = returns (λ e. cc)

  -- The loop may stop at a node without two children, or that fires before both.
  settled :
      (heap : ℕ → ℕ) (i : ℕ)
      → DownInv heap i
      → (2 * i + 2 < n
          → (key fires heap i ≤ key fires heap (2 * i + 1))
            × (key fires heap i ≤ key fires heap (2 * i + 2)))
      → Sunk heap i heap
  settled heap i v h = record {
    ordered = λ o c p q. ground (arith, v.edges o c, h);
    all_live = v.live;
    same = λ p. refl;
    kept = λ k _. refl;
    before = λ k _. refl;
    no_later = omega arith;
    stays = λ _ k. refl;
  }

  pub down_loop-Sunk :
      (fuel : ℕ) (heap : ℕ → ℕ) (i : ℕ)
      → n - i < fuel
      → DownInv heap i
      → Returns (Sunk heap i) (down_loop fires fuel n heap i)
  unfolding down_loop
  down_loop-Sunk zero heap i f v = absurd (omega arith)
  down_loop-Sunk (suc fuel) heap i f v =
      let at_left : u32 (2 * i + 1) ≡ 2 * i + 1 = omega (arith, v.inside, fits) in
      let at_right : u32 (2 * i + 1 + 1) ≡ 2 * i + 2 = omega (arith, v.inside, fits) in
      rw
        (
          at_left,
          at_right,
          firing_time-ok fires heap i (omega (arith, v.inside))
              (v.live i (omega (arith, v.inside))),
        )
        (Returns-bind
          (firing_time_if heap (ltb (2 * i + 1) n) (2 * i + 1) v.live (λ e. ground arith))
          λ lt is_left.
            Returns-bind
              (firing_time_if heap (leb (2 * i + 2) n) (2 * i + 2) v.live (λ e. ground arith))
              λ rt is_right.
                Returns-if (leb n (2 * i + 1) || leb n (2 * i + 2))
                  (λ few. returns (settled heap i v (λ two. absurd (ground arith))))
                  λ both.
                    let two : 2 * i + 2 < n = ground arith in
                    let l : lt ≡ key fires heap (2 * i + 1) = ground arith in
                    let r : rt ≡ key fires heap (2 * i + 2) = ground arith in
                    rw
                      (
                        exchange-swap heap (2 * i + 1) i (omega arith) (omega arith),
                        exchange-swap heap (2 * i + 2) i (omega arith) (omega arith),
                      )
                      (Returns-if
                        (uint64_lt lt (key fires heap i) || uint64_lt rt (key fires heap i))
                        (λ below.
                          Returns-if (uint64_lt lt rt)
                            (λ e.
                              Sunk-swap heap (2 * i + 1) i (omega arith) (omega arith) two
                                (ground arith)
                                (down_loop-Sunk fuel (swap heap (2 * i + 1) i) (2 * i + 1)
                                  (omega arith)
                                  (swap-DownInv heap i (2 * i + 1) (2 * i + 2) v two (omega arith)
                                    (ground arith) (ground arith))))
                            (λ e.
                              Returns-if (uint64_geq lt rt)
                                (λ e'.
                                  Sunk-swap heap (2 * i + 2) i (omega arith) (omega arith) two
                                    (ground arith)
                                    (down_loop-Sunk fuel (swap heap (2 * i + 2) i) (2 * i + 2)
                                      (omega arith)
                                      (swap-DownInv heap i (2 * i + 2) (2 * i + 1) v two
                                        (omega arith) (ground arith) (ground arith))))
                                (λ e'. absurd (ground arith))))
                        (λ above. returns (settled heap i v (λ _. (ground arith, ground arith))))))
