-- ===== src/Timer/Stop.antt =====
-- platform/Timer.cpp, `stop`: a timer leaves the heap.
use timer_and_callback.Base.{
  ℕ, ◌+◌, ◌≤◌, ◌<◌, ◌≡◌, ◌≢◌, ◌⊎◌, inl, inr, refl, ap, sym, ◌∙◌, Bool-cases, Option, some, true,
  false, ◌==◌, Returns, returns, Returns-bind, arith,
}
use mathlib.Core.Path.{subst}
use timer_and_callback.Types.{Result, max_number_of_timers}
use timer_and_callback.MinHeap.{remove_from_heap}
use timer_and_callback.MinHeap.Order.{AllLive}
use timer_and_callback.MinHeap.Search.{TakenOut, remove_from_heap-TakenOut}
use timer_and_callback.World.{
  TimerState, Timer, World, wait, post, load, store, with_timer, fires, on_heap,
}
use timer_and_callback.Timer.{stop}
use timer_and_callback.Timer.Ready.{when_of}
use timer_and_callback.Timer.Schedule.{CanRun, locked}

-- The timer is idle, exactly one entry of it has left the heap, and the other timers and the
-- semaphore are as before.
pub record IsStopped (w : World) (this : ℕ) (t : Timer) (w' : World) : Type 0 where
  pub timer : w'.timers this ≡ some (record t { state = TimerState.idle })
  pub others : (p : ℕ) → p ≢ this → w'.timers p ≡ w.timers p
  pub heap : TakenOut (fires w) w.min_heap this (Result.ok, w'.min_heap)
  pub semaphore : w'.semaphore ≡ w.semaphore
  pub pool : w'.pool ≡ w.pool

-- The timer stands where the search of the heap finds it.
pub record IsInHeap (w : World) (this : ℕ) : Type 0 where
  pub fits : w.min_heap.number_of_timers_being_managed ≤ max_number_of_timers
  pub live : AllLive (fires w) w.min_heap.heap w.min_heap.number_of_timers_being_managed
  pub index : ℕ
  pub held : w.min_heap.heap index ≡ this
  pub place :
      (index + 1 < w.min_heap.number_of_timers_being_managed)
      ⊎ ((index < w.min_heap.number_of_timers_being_managed)
          × (w.min_heap.number_of_timers_being_managed ≤ 3))

module _ {w : World} {this : ℕ} {t : Timer} (can : CanRun w this t) (v : IsInHeap w this) where
  abbrev pub idle_timer : Timer
  idle_timer = record t { state = TimerState.idle }

  abbrev pub idle : World
  idle = with_timer (locked w) this (some idle_timer)

  at_this : (p : ℕ) → (this == p) ≡ true → w.timers p ≡ some t
  at_this p e = ground (arith, can.object)

  same_time : (p : ℕ) → fires idle p ≡ fires w p
  same_time p = elim (Bool-cases (this == p)) [
    | inl e ↦
        let new : idle.timers p ≡ some idle_timer = ground arith in
        ap when_of new ∙ sym (ap when_of (at_this p e))
    | inr e ↦ let kept : idle.timers p ≡ w.timers p = ground arith in ap when_of kept
  ]

  same_fires : fires idle ≡ fires w
  same_fires = λ i p. same_time p i

  TakenOut-fires :
      (f : ℕ → Option ℕ)
      → f ≡ fires w
      → Returns (TakenOut (fires w) w.min_heap this) (remove_from_heap f w.min_heap this)
  TakenOut-fires f e =
      subst (λ g. Returns (TakenOut (fires w) w.min_heap this) (remove_from_heap g w.min_heap this))
        (sym e)
        (remove_from_heap-TakenOut (fires w) w.min_heap this v.fits v.live v.index v.place v.held)

  pub object : idle.timers this ≡ some idle_timer
  object = ground arith

  pub kept : (p : ℕ) → p ≢ this → idle.timers p ≡ w.timers p
  kept p ne = ground arith

  abbrev pub IsTaken : Result × World → Type 0
  IsTaken (code, w') =
      TakenOut (fires w) w.min_heap this (Result.ok, w'.min_heap)
      × (w'.timers ≡ idle.timers)
      × (w'.semaphore ≡ idle.semaphore)
      × (w'.pool ≡ w.pool)
      × (w'.clock ≡ w.clock)

  pub on_heap-IsTaken : Returns IsTaken (on_heap (λ f s. remove_from_heap f s this) idle)
  unfolding on_heap
  on_heap-IsTaken = Returns-bind (TakenOut-fires (fires idle) same_fires) λ (code, heap) out.
      returns (
        subst (λ c. TakenOut (fires w) w.min_heap this (c, heap)) out.result out,
        refl,
        refl,
        refl,
        refl,
      )

  -- `stop` of a timer that stands in the heap before the last place, or in a heap of at most three,
  -- with the semaphore free, returns: the timer is idle, one entry of it and no other has left the
  -- heap, and the other timers and the semaphore are as before.
  pub stop-IsStopped : Returns (λ (_, w'). IsStopped w this t w') (stop this w)
  unfolding stop wait post load store
  stop-IsStopped =
      let free : (w.semaphore == 0) ≡ false = ground (arith, can.unlocked) in
      rw (free, can.object)
        (Returns-bind on_heap-IsTaken λ (code, w') (out, timers, semaphore, pool, _).
          returns (record {
            timer = ap (λ f. f this) timers ∙ object;
            others = λ p ne. ap (λ f. f p) timers ∙ kept p ne;
            heap = out;
            semaphore = omega (arith, semaphore, can.unlocked);
            pool = pool;
          }))
