-- ===== src/TimerTask/Rounds.antt =====
-- platform/TimerTask.cpp: every round of TimerTask keeps what the commands keep, and returns.
use mathlib.Core.Path.{subst}
use timer_and_callback.Base.{
  ℕ, ◌≤◌, ◌<◌, ◌≡◌, ◌≢◌, refl, ◌⊎◌, inl, inr, Option, some, none, true, false, Bool-cases, ◌==◌,
  leb, Returns, returns, Returns-map, arith,
}
use timer_and_callback.Base.Slots.{count_pos}
use timer_and_callback.World.{TimerState, Timer, World, ◌>>=◌, load, get_current_time_in_msec}
use timer_and_callback.Timer.Times.{now}
use timer_and_callback.Timer.Ready.{when_of, time_or_0}
use timer_and_callback.TimerTask.{top_timer, act, look_at_top, round}
use timer_and_callback.TimerTask.Fire.{round-IsFired}
use timer_and_callback.TimerTask.Postpone.{round-IsPostponed}
use timer_and_callback.TimerTask.System.{CanRound, IsObject, IsObjectOrNone, IsSystem}
use timer_and_callback.TimerTask.Kept.{later-IsSystem, fired-IsSystem, postponed-IsSystem}

none_not_some : (o : Option ℕ) (x : ℕ) → o ≡ none → o ≢ some x
none_not_some o x e e' = cc

-- The object at the address of a timer that is in the heap.
found : (o : Option Timer) → when_of o ≡ some (time_or_0 (when_of o)) → (t : Timer) × (o ≡ some t)
found none e = absurd (none_not_some none 0 refl e)
found (some t) e = (t, refl)

-- The rounds.
module _ {w : World} (v : IsSystem w) (can : CanRound w) where
  some_left-test : (n : ℕ) → ((n == 0) ≡ true) ⊎ (((n == 0) ≡ false) × (0 < n))
  some_left-test n = elim (Bool-cases (n == 0)) [ inl e ↦ inl e | inr e ↦ inr (e, ground arith) ]

  module _ {t : Timer} (some_left : 0 < w.min_heap.number_of_timers_being_managed)
      (object : w.timers (w.min_heap.heap 0) ≡ some t) where
    top-IsObject : IsObject w.pool (w.min_heap.heap 0) t
    top-IsObject =
        subst (IsObjectOrNone w.pool (w.min_heap.heap 0)) object (v.objects (w.min_heap.heap 0))

    due_round :
        (state : TimerState)
        → t.state ≡ state
        → t.when_to_fire ≤ now w
        → Returns (λ (_, w'). IsSystem w') (round w)
    unfolding round look_at_top top_timer load get_current_time_in_msec act
    due_round TimerState.active e due =
        Returns-map
          (round-IsFired (record {
            some_left = some_left;
            fits = v.fits;
            live = v.live;
            object = object;
            placed = v.placed;
            inside = top-IsObject.inside;
            top = top-IsObject.location;
            task = top-IsObject.task;
            room = can t some_left object e due;
            active = e;
            due = due;
          }))
          λ r f. fired-IsSystem v object f
    due_round TimerState.idle e due =
        Returns-map
          (round-IsPostponed (record {
            unlocked = omega (arith, v.unlocked);
            some_left = some_left;
            fits = v.fits;
            live = v.live;
            once = ground (
              arith,
              v.once (w.min_heap.heap 0),
              count_pos (w.min_heap.heap 0) w.min_heap.heap 0 _ some_left refl,
            );
            object = object;
            idle = e;
            due = due;
          }))
          λ r f. postponed-IsSystem v object f
    due_round TimerState.done e due =
        let more : (w.min_heap.number_of_timers_being_managed == 0) ≡ false = ground arith in
        let past : leb t.when_to_fire (now w) ≡ true = ground arith in
        rw (more, ◌>>=◌, load, object, past, e) (returns (later-IsSystem v))

    early_round : leb t.when_to_fire (now w) ≡ false → Returns (λ (_, w'). IsSystem w') (round w)
    unfolding round look_at_top top_timer load get_current_time_in_msec
    early_round early =
        let more : (w.min_heap.number_of_timers_being_managed == 0) ≡ false = ground arith in
        rw (more, ◌>>=◌, load, object, early) (returns (later-IsSystem v))

    busy_round : Returns (λ (_, w'). IsSystem w') (round w)
    busy_round = elim (Bool-cases (leb t.when_to_fire (now w))) [
      | inl e ↦ due_round t.state refl (ground arith)
      | inr e ↦ early_round e
    ]

  empty_round :
      (w.min_heap.number_of_timers_being_managed == 0) ≡ true
      → Returns (λ (_, w'). IsSystem w') (round w)
  unfolding round
  empty_round e = rw e (returns v)

  pub round-IsSystem : Returns (λ (_, w'). IsSystem w') (round w)
  round-IsSystem = elim (some_left-test w.min_heap.number_of_timers_being_managed) [
    | inl e ↦ empty_round e
    | inr (e, some_left) ↦
        let (t, object) = found (w.timers (w.min_heap.heap 0)) (v.live 0 some_left) in
        busy_round some_left object
  ]
