-- ===== src/MinHeap/Up.antt =====
-- platform/TimerMinHeap.cpp, `upHeapify`: a new timer rises to its place.
use timer_and_callback.Base.{
  ℕ, zero, suc, ◌+◌, ◌/◌, ◌≤◌, ◌<◌, ◌≡◌, refl, ◌≢◌, Option, ◌==◌, Bool-cases, inl, inr, Run,
  Returns, returns, Returns-if, Returns-bind, Returns-map, update, one_if_eq, SameItems, swap,
  count, arith,
}
use timer_and_callback.Base.Slots.{count-swap, count-update_last}
use timer_and_callback.Types.{Result, pred32, max_number_of_timers, uint64_lt}
use timer_and_callback.MinHeap.{TimerTaskShared, up_loop, up_heapify, add_to_heap}
use timer_and_callback.MinHeap.Order.{
  parent, key, IsLive, AllLive, IsHeap, IsBridged, write_slot-ok, exchange-swap, firing_time-ok,
  AllLive-swap,
}

-- What is said of the order is said under `Ordered`, so that the rest also holds of an array in
-- no order.
module _ (fires : ℕ → Option ℕ) (n : ℕ) (fits : n ≤ max_number_of_timers) (Ordered : Type 0) where
  -- Only the edge above `i` may be out of order.
  record UpInv (heap : ℕ → ℕ) (i : ℕ) : Type 0 where
    inside : i < n
    live : AllLive fires heap n
    edges : Ordered → (c : ℕ) → 0 < c → c < n → c ≢ i → key fires heap (parent c) ≤ key fires heap c
    bridged : Ordered → IsBridged fires heap n i

  -- A heap of the same items, and nothing written past the entries in use.
  record Sifted (heap heap' : ℕ → ℕ) : Type 0 where
    ordered : Ordered → IsHeap fires heap' n
    all_live : AllLive fires heap' n
    same : SameItems heap' heap n
    kept : (i : ℕ) → n ≤ i → heap' i ≡ heap i

  swap-UpInv :
      (heap : ℕ → ℕ) (i : ℕ)
      → UpInv heap i
      → 0 < i
      → key fires heap i ≤ key fires heap (parent i)
      → UpInv (swap heap i (parent i)) (parent i)
  swap-UpInv heap i v pos below = record {
    inside = omega arith;
    live = AllLive-swap fires heap n i (parent i) v.inside (omega arith) v.live;
    edges = λ o c p q r. ground (arith, v.edges o c, v.edges o i, v.bridged o c);
    bridged = λ o c p q r s. ground (arith, v.edges o c, v.edges o (parent i), v.bridged o c);
  }

  Sifted-swap :
      (heap : ℕ → ℕ) (i j : ℕ) {r : Run (ℕ → ℕ)}
      → i < n
      → j < n
      → Returns (Sifted (swap heap i j)) r
      → Returns (Sifted heap) r
  Sifted-swap heap i j hi hj run = Returns-map run λ heap' s. record {
    ordered = s.ordered;
    all_live = s.all_live;
    same = λ p. omega (arith, s.same p, count-swap heap i j n hi hj p);
    kept = λ k h. ground (arith, s.kept k h);
  }

  up_loop-Sifted :
      (fuel : ℕ) (heap : ℕ → ℕ) (i : ℕ)
      → 0 < i
      → i < fuel
      → UpInv heap i
      → Returns (Sifted heap) (up_loop fires fuel heap i)
  unfolding up_loop
  up_loop-Sifted zero heap i pos f v = absurd (omega arith)
  up_loop-Sifted (suc fuel) heap i pos f v =
      let up : pred32 i / 2 ≡ parent i = omega (arith, v.inside, fits) in
      let above : parent i < n = omega (arith, v.inside) in
      rw
        (
          up,
          firing_time-ok fires heap (parent i) (omega arith) (v.live (parent i) above),
          firing_time-ok fires heap i (omega (arith, v.inside)) (v.live i v.inside),
          exchange-swap heap i (parent i) (omega (arith, v.inside)) (omega arith),
        )
        (Returns-if (uint64_lt (key fires heap (parent i)) (key fires heap i))
          (λ e. returns (record {
            ordered = λ o c p q. ground (arith, v.edges o c);
            all_live = v.live;
            same = λ p. refl;
            kept = λ k h. refl;
          }))
          (λ e. Sifted-swap heap i (parent i) v.inside above (
            Returns-if (parent i == 0)
              (λ root. returns (record {
                ordered =
                    λ o c p q. ground (arith, (swap-UpInv heap i v pos (ground arith)).edges o c);
                all_live = (swap-UpInv heap i v pos (ground arith)).live;
                same = λ p. refl;
                kept = λ k h. refl;
              }))
              (λ inner.
                up_loop-Sifted fuel (swap heap i (parent i)) (parent i) (ground arith) (omega arith)
                  (swap-UpInv heap i v pos (ground arith))))))

-- What `addToHeap` returns for a heap `s` with room and the timer `timer`.
pub record Added (fires : ℕ → Option ℕ) (s : TimerTaskShared) (timer : ℕ)
    (r : Result × TimerTaskShared) : Type 0 where
  pub result : r.0 ≡ Result.ok
  pub grown : r.1.number_of_timers_being_managed ≡ s.number_of_timers_being_managed + 1
  pub live : AllLive fires r.1.heap (s.number_of_timers_being_managed + 1)
  pub ordered :
      IsHeap fires s.heap s.number_of_timers_being_managed
      → IsHeap fires r.1.heap (s.number_of_timers_being_managed + 1)
  pub items :
      (p : ℕ)
      → count p r.1.heap (s.number_of_timers_being_managed + 1)
        ≡ count p s.heap s.number_of_timers_being_managed + one_if_eq timer p
  pub kept : (i : ℕ) → s.number_of_timers_being_managed < i → r.1.heap i ≡ s.heap i

module _ (fires : ℕ → Option ℕ) (s : TimerTaskShared) (timer : ℕ) where
  -- The heap with the new timer behind the last one.
  placed-UpInv :
      (n : ℕ) (fits : n + 1 ≤ max_number_of_timers)
      → 0 < n
      → AllLive fires s.heap n
      → IsLive fires timer
      → UpInv fires (n + 1) fits (IsHeap fires s.heap n) (update s.heap n timer) n
  placed-UpInv n fits pos live new = record {
    inside = omega arith;
    live = λ i p. ground (arith, live i);
    edges = λ h c p q r. ground (arith, h c);
    bridged = λ h c p q r. ground arith;
  }

  -- `addToHeap`, called with fewer than 1024 timers in the heap, answers OK and adds exactly the
  -- timer: a heap that was ordered by firing time stays so, and no slot behind the timers is written.
  pub add_to_heap-Added :
      s.number_of_timers_being_managed < max_number_of_timers
      → AllLive fires s.heap s.number_of_timers_being_managed
      → IsLive fires timer
      → Returns (Added fires s timer) (add_to_heap fires s timer)
  unfolding add_to_heap up_heapify
  add_to_heap-Added room live new =
      let n = s.number_of_timers_being_managed in
      let fits : n + 1 ≤ max_number_of_timers = omega arith in
      rw (write_slot-ok s.heap n timer room) (elim (Bool-cases (n == 0)) [
        | inl first ↦ rw first (
            returns (record {
              result = refl;
              grown = omega arith;
              live = λ i p. ground arith;
              ordered = λ h c p q. ground arith;
              items = λ p. count-update_last p s.heap n timer;
              kept = λ i p. ground arith;
            }))
        | inr more ↦ rw more (
            Returns-bind
              (up_loop-Sifted fires (n + 1) fits (IsHeap fires s.heap n) (n + 1)
                (update s.heap n timer) n (ground arith) (omega arith)
                (placed-UpInv n fits (ground arith) live new))
              λ heap' v. returns (record {
                result = refl;
                grown = omega arith;
                live = v.all_live;
                ordered = v.ordered;
                items = λ p. omega (arith, v.same p, count-update_last p s.heap n timer);
                kept = λ i p. ground (arith, v.kept i);
              }))
      ])
