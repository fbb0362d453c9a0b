-- ===== src/MinHeap/Unordered.antt =====
-- platform/TimerMinHeap.cpp: heaps without the order in which the array holds the timers.
use mathlib.Core.Path.{subst}
use timer_and_callback.Base.{
  ℕ, ◌+◌, ◌≤◌, ◌<◌, ◌≡◌, refl, sym, ap, ◌∙◌, Option, List, [], ◌∷◌, Run, ok, ◌>>=◌, Returns,
  returns, Returns-bind, Returns-map, count, one_if_eq, occurrences, length, arith,
}
use timer_and_callback.Base.Slots.{count_pos, count_somewhere}
use timer_and_callback.MinHeap.{TimerTaskShared, add_to_heap}
use timer_and_callback.MinHeap.Order.{IsLive, IsHeap, key, root_least}
use timer_and_callback.MinHeap.Up.{add_to_heap-Added}
use timer_and_callback.MinHeap.Bag.{bag_of, HasRoom}

-- The same timers, each as often, at whatever places.
abbrev pub SameTimers : TimerTaskShared → TimerTaskShared → Type 0
SameTimers s s' = (p : ℕ) → (bag_of s).times p ≡ (bag_of s').times p

module _ (fires : ℕ → Option ℕ) where
  abbrev pub AreLive : List ℕ → Type 0
  AreLive [] = Unit
  AreLive (timer ∷ timers) = IsLive fires timer × AreLive timers

  -- `addToHeap` of one timer after the other.
  pub add_all : TimerTaskShared → List ℕ → Run TimerTaskShared
  add_all s [] = ok s
  add_all s (timer ∷ timers) = do (code, s') ← add_to_heap fires s timer; add_all s' timers

  record Grown (s : TimerTaskShared) (timers : List ℕ) (s' : TimerTaskShared) : Type 0 where
    number : s'.number_of_timers_being_managed ≡ s.number_of_timers_being_managed + length timers
    items : (p : ℕ) → (bag_of s').times p ≡ (bag_of s).times p + occurrences p timers
    ordered :
        IsHeap fires s.heap s.number_of_timers_being_managed
        → IsHeap fires s'.heap s'.number_of_timers_being_managed

  add_all-Grown :
      (timers : List ℕ) (s : TimerTaskShared)
      → HasRoom fires s (length timers)
      → AreLive timers
      → Returns (Grown s timers) (add_all s timers)
  unfolding add_all
  add_all-Grown [] s v live =
      returns (record { number = omega arith; items = λ p. omega arith; ordered = λ h. h })
  add_all-Grown (timer ∷ timers) s v (new, live) =
      Returns-bind (add_to_heap-Added fires s timer (omega (arith, v.room)) v.live new)
        λ (code, s') a.
          let room : HasRoom fires s' (length timers) = record {
            room = omega (arith, v.room, a.grown);
            live = λ i h. a.live i (omega (arith, a.grown));
          } in
          let one_more : (p : ℕ) → (bag_of s').times p ≡ (bag_of s).times p + one_if_eq timer p =
            λ p. ap (count p s'.heap) a.grown ∙ a.items p in
          Returns-map (add_all-Grown timers s' room live) λ s'' g. record {
            number = omega (arith, g.number, a.grown);
            items = λ p. omega (arith, g.items p, one_more p);
            ordered = λ h. g.ordered (subst (IsHeap fires s'.heap) (sym a.grown) (a.ordered h));
          }

  -- Two heaps of the same timers: one is not empty if the other is not, and neither has a timer at
  -- its top that fires later than the other's.
  module _ (s s' : TimerTaskShared) (same : SameTimers s s')
      (ordered : IsHeap fires s.heap s.number_of_timers_being_managed) where
    other_not_empty : 0 < s.number_of_timers_being_managed → 0 < s'.number_of_timers_being_managed
    other_not_empty h =
        let held = count_pos (s.heap 0) s.heap 0 _ h refl in
        let (i, inside, e) =
          count_somewhere (s.heap 0) s'.heap s'.number_of_timers_being_managed
            (omega (arith, held, same (s.heap 0))) in
        omega (arith, inside)

    no_later : 0 < s'.number_of_timers_being_managed → key fires s.heap 0 ≤ key fires s'.heap 0
    no_later h =
        let held = count_pos (s'.heap 0) s'.heap 0 _ h refl in
        let (i, inside, e) =
          count_somewhere (s'.heap 0) s.heap s.number_of_timers_being_managed
            (omega (arith, held, same (s'.heap 0))) in
        subst (λ p. key fires s.heap 0 ≤ key fires (λ j. p) 0) e
          (root_least fires s.heap s.number_of_timers_being_managed i ordered inside)

  -- The same timers, in order in both, and tops that fire at the same time.
  abbrev pub IsSameToClients : TimerTaskShared → TimerTaskShared → Type 0
  IsSameToClients h h' =
      SameTimers h h'
      × IsHeap fires h.heap h.number_of_timers_being_managed
      × IsHeap fires h'.heap h'.number_of_timers_being_managed
      × (key fires h.heap 0 ≡ key fires h'.heap 0)

  -- Two heaps of the same timers, both in order, with room: when the same timers are added to both,
  -- to each in an order of its own and one at least, all the calls return, the heaps that they
  -- leave hold the same timers, each as often, and are in order, and the timers at their tops have
  -- the same firing time.
  pub add_all-any_order :
      (timers timers' : List ℕ) (s s' : TimerTaskShared)
      → HasRoom fires s (length timers)
      → HasRoom fires s' (length timers')
      → IsHeap fires s.heap s.number_of_timers_being_managed
      → IsHeap fires s'.heap s'.number_of_timers_being_managed
      → AreLive timers
      → AreLive timers'
      → SameTimers s s'
      → ((p : ℕ) → occurrences p timers ≡ occurrences p timers')
      → 0 < length timers
      → Returns (λ h. Returns (λ h'. IsSameToClients h h') (add_all s' timers')) (add_all s timers)
  add_all-any_order timers timers' s s' v v' heap heap' live live' same same_added some_left =
      Returns-map (add_all-Grown timers s v live) λ h g.
        Returns-map (add_all-Grown timers' s' v' live') λ h' g'.
          let after : SameTimers h h' =
            λ p. omega (arith, g.items p, g'.items p, same p, same_added p) in
          let before : SameTimers h' h = λ p. sym (after p) in
          let first : 0 < h.number_of_timers_being_managed = omega (arith, g.number) in
          let second = other_not_empty h h' after (g.ordered heap) first in
          (
            after,
            g.ordered heap,
            g'.ordered heap',
            omega (
              arith,
              no_later h h' after (g.ordered heap) second,
              no_later h' h before (g'.ordered heap') first,
            ),
          )
