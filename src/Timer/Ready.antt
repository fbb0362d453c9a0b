-- ===== src/Timer/Ready.antt =====
-- platform/Timer.cpp: what a method relies on before it puts its timer in the heap.
use mathlib.Core.Path.{subst}
use timer_and_callback.Base.{
  Bool-cases, ◌==◌, inl, inr, ℕ, ◌≤◌, ◌<◌, ◌≡◌, ◌≢◌, refl, sym, ap, Option, some, none, Returns,
  returns, Returns-bind, count, arith,
}
use timer_and_callback.Base.Slots.{count_pos}
use timer_and_callback.Types.{Result, max_number_of_timers}
use timer_and_callback.MinHeap.{add_to_heap}
use timer_and_callback.MinHeap.Order.{parent, AllLive, IsHeap, IsLive}
use timer_and_callback.MinHeap.Up.{Added, add_to_heap-Added}
use timer_and_callback.World.{Timer, World, fires, on_heap}

-- The heap has room, and all that is in it, and the timer, are Timer objects.
pub record IsReady (w : World) (this : ℕ) : Type 0 where
  pub room : w.min_heap.number_of_timers_being_managed < max_number_of_timers
  pub live : AllLive (fires w) w.min_heap.heap w.min_heap.number_of_timers_being_managed
  pub object : IsLive (fires w) this

abbrev pub time_or_0 : Option ℕ → ℕ
time_or_0 o = elim o [ some t ↦ t | none ↦ 0 ]

abbrev pub when_of : Option Timer → Option ℕ
when_of o = elim o [ some t ↦ some t.when_to_fire | none ↦ none ]

-- The pool, the callbacks, the messages and the clock are as before.
abbrev pub IsBeside : World → World → Type 0
IsBeside w w' =
    (w'.pool ≡ w.pool)
    × (w'.callbacks ≡ w.callbacks)
    × (w'.triggered ≡ w.triggered)
    × (w'.sent ≡ w.sent)
    × (w'.clock ≡ w.clock)
    × (w'.queues ≡ w.queues)

-- What an operation of the heap that adds a timer leaves.
pub record IsGrown (w : World) (this : ℕ) (r : Result × World) : Type 0 where
  pub heap : Added (fires r.1) w.min_heap this (r.0, r.1.min_heap)
  pub same : r.1 ≡ record w { min_heap = r.1.min_heap }

-- A Timer object.
pub live_of : (w : World) {this : ℕ} {t : Timer} → w.timers this ≡ some t → IsLive (fires w) this
live_of w here = subst (λ o. when_of o ≡ some (time_or_0 (when_of o))) (sym here) refl

-- One timer has changed, and the others have not: each is still a Timer object.
pub still-IsLive :
    (w w' : World) (this : ℕ)
    → IsLive (fires w') this
    → ((p : ℕ) → p ≢ this → w'.timers p ≡ w.timers p)
    → (p : ℕ) → IsLive (fires w) p
    → IsLive (fires w') p
still-IsLive w w' this new others p live = elim (Bool-cases (p == this)) [
  | inl e ↦ let same : p ≡ this = ground arith in subst (λ q. IsLive (fires w') q) (sym same) new
  | inr e ↦
      subst (λ o. when_of o ≡ some (time_or_0 (when_of o))) (sym (others p (ground arith))) live
]

module _ {w : World} {this : ℕ} (v : IsReady w this) where
  -- The heap stays ready when the timer itself changes.
  pub IsReady-others :
      (w' : World)
      → w'.min_heap ≡ w.min_heap
      → ((p : ℕ) → p ≢ this → w'.timers p ≡ w.timers p)
      → IsLive (fires w') this
      → IsReady w' this
  IsReady-others w' same_heap others new = record {
    room = rw same_heap v.room;
    live =
        subst (λ s. AllLive (fires w') s.heap s.number_of_timers_being_managed) (sym same_heap)
          (λ i h. still-IsLive w w' this new others (w.min_heap.heap i) (v.live i h));
    object = new;
  }

  -- Then `addToHeap` answers OK, adds the timer, and changes nothing else.
  pub on_heap-Grown : Returns (IsGrown w this) (on_heap (λ g s. add_to_heap g s this) w)
  unfolding on_heap
  on_heap-Grown =
      Returns-bind (add_to_heap-Added (fires w) w.min_heap this v.room v.live v.object)
        λ r added. returns (record { heap = added; same = refl })

-- A heap that does not hold the timer stays in order when the timer changes.
module _ (w : World) (this : ℕ)
    (absent : count this w.min_heap.heap w.min_heap.number_of_timers_being_managed ≡ 0) where
  other : (i : ℕ) → i < w.min_heap.number_of_timers_being_managed → w.min_heap.heap i ≢ this
  other i h e = omega (arith, absent, count_pos this w.min_heap.heap i _ h e)

  pub IsHeap-others :
      (w' : World)
      → w'.min_heap ≡ w.min_heap
      → ((p : ℕ) → p ≢ this → w'.timers p ≡ w.timers p)
      → IsHeap (fires w) w.min_heap.heap w.min_heap.number_of_timers_being_managed
      → IsHeap (fires w') w'.min_heap.heap w'.min_heap.number_of_timers_being_managed
  IsHeap-others w' same_heap others in_order =
      let kept = λ (i : ℕ) (h : i < w.min_heap.number_of_timers_being_managed).
        ap when_of (others (w.min_heap.heap i) (other i h)) in
      let ordered' = λ (c : ℕ) (p : 0 < c) (h : c < w.min_heap.number_of_timers_being_managed).
        subst (λ k. time_or_0 k ≤ time_or_0 (fires w' (w.min_heap.heap c)))
          (sym (kept (parent c) (omega arith)))
          (subst (λ k. time_or_0 (fires w (w.min_heap.heap (parent c))) ≤ time_or_0 k)
            (sym (kept c h)) (in_order c p h)) in
      subst (λ s. IsHeap (fires w') s.heap s.number_of_timers_being_managed) (sym same_heap)
        ordered'
