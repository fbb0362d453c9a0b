-- ===== src/TimerTask/Kept.antt =====
-- platform/Timer.cpp and TimerTask.cpp together: what each change of a timer and of the heap keeps.
use mathlib.Core.Path.{subst}
use timer_and_callback.Base.{
  ℕ, ◌<◌, ◌≡◌, ◌≢◌, refl, sym, ◌∙◌, inl, inr, Option, none, some, Bool-cases, ◌==◌, count, arith,
}
use timer_and_callback.Base.Slots.{count_pos}
use timer_and_callback.Pool.{remove_from_pool}
use timer_and_callback.MinHeap.Order.{AllLive}
use timer_and_callback.Pool.Addresses.{
  IsPlaced, remove_from_pool-IsPlaced, location-remove_from_pool, max-remove_from_pool,
}
use timer_and_callback.World.{Timer, World, fires}
use timer_and_callback.Timer.Times.{later}
use timer_and_callback.Timer.Ready.{when_of, time_or_0, live_of, still-IsLive}
use timer_and_callback.Timer.Schedule.{IsScheduled}
use timer_and_callback.Timer.Stop.{IsStopped}
use timer_and_callback.Timer.Restart.{IsRestarted}
use timer_and_callback.Timer.Callback.{IsCancelled, deleted}
use timer_and_callback.TimerTask.Fire.{IsFired}
use timer_and_callback.TimerTask.Postpone.{IsPostponed}
use timer_and_callback.TimerTask.System.{CanSchedule, IsObject, IsObjectOrNone, IsSystem}

-- One timer has changed, and the others have not.
module _ (w w' : World) {this : ℕ} {t t' : Timer} (object : w.timers this ≡ some t)
    (new : w'.timers this ≡ some t') (others : (p : ℕ) → p ≢ this → w'.timers p ≡ w.timers p) where
  still-IsObject :
      t'.cb_contex_t_id ≡ t.cb_contex_t_id
      → w'.pool ≡ w.pool
      → ((p : ℕ) → IsObjectOrNone w.pool p (w.timers p))
      → (p : ℕ) → IsObjectOrNone w'.pool p (w'.timers p)
  still-IsObject same_task same_pool objects p =
      subst (λ pool. IsObjectOrNone pool p (w'.timers p)) (sym same_pool)
        (elim (Bool-cases (p == this)) [
          | inl e ↦
              let same : p ≡ this = ground arith in
              let o : IsObject w.pool this t =
                subst (IsObjectOrNone w.pool this) object (objects this) in
              subst (λ q. IsObjectOrNone w.pool q (w'.timers q)) (sym same)
                (subst (IsObjectOrNone w.pool this) (sym new) (record {
                  task = omega (arith, o.task, same_task);
                  index = o.index;
                  inside = o.inside;
                  location = o.location;
                }))
          | inr e ↦ subst (IsObjectOrNone w.pool p) (sym (others p (ground arith))) (objects p)
        ])

pub later-IsSystem : {w : World} → IsSystem w → IsSystem (later w)
later-IsSystem v = record {
  unlocked = v.unlocked;
  fits = v.fits;
  live = v.live;
  once = v.once;
  placed = v.placed;
  objects = v.objects;
}

module _ {w : World} (v : IsSystem w) where
  pub scheduled-IsSystem :
      {this : ℕ} {t t' : Timer} {w' : World}
      → CanSchedule w this t
      → t'.cb_contex_t_id ≡ t.cb_contex_t_id
      → IsScheduled w this t' w'
      → IsSystem w'
  scheduled-IsSystem {this} {w'} (object, room, absent) same_task s = record {
    unlocked = s.semaphore ∙ v.unlocked;
    fits = omega (arith, s.heap.grown, room);
    live = λ i h. s.heap.live i (omega (arith, s.heap.grown));
    once = λ p. rw s.heap.grown (ground (arith, s.heap.items p, v.once p, absent));
    placed = subst IsPlaced (sym s.beside.0) v.placed;
    objects = still-IsObject w w' object s.timer s.others same_task s.beside.0 v.objects;
  }

  pub fired-IsSystem :
      {index : ℕ} {t : Timer} {w' : World}
      → w.timers (w.min_heap.heap 0) ≡ some t
      → IsFired w index t w'
      → IsSystem w'
  fired-IsSystem {w' = w'} object f = record {
    unlocked = f.semaphore ∙ v.unlocked;
    fits = omega (arith, f.taken_out.shrunk, v.fits);
    live = λ i h.
        still-IsLive w w' _ (live_of w' f.timer) f.others _
          (f.taken_out.live i (omega (arith, f.taken_out.shrunk)));
    once = λ p. omega (arith, f.taken_out.items p, v.once p);
    placed = subst IsPlaced (sym f.pool) v.placed;
    objects = still-IsObject w w' object f.timer f.others refl f.pool v.objects;
  }

  pub postponed-IsSystem :
      {t : Timer} {w' : World}
      → w.timers (w.min_heap.heap 0) ≡ some t
      → IsPostponed w t w'
      → IsSystem w'
  postponed-IsSystem {w' = w'} object f = record {
    unlocked = f.semaphore ∙ v.unlocked;
    fits = omega (arith, f.number, v.fits);
    live = f.live;
    once = λ p. omega (arith, f.same_timers p, v.once p);
    placed = subst IsPlaced (sym f.pool) v.placed;
    objects = still-IsObject w w' object f.timer f.others refl f.pool v.objects;
  }

  pub restarted-IsSystem :
      {this : ℕ} {t : Timer} {w' : World}
      → w.timers this ≡ some t
      → IsRestarted w this t w'
      → IsSystem w'
  restarted-IsSystem {w' = w'} object f = record {
    unlocked = f.semaphore ∙ v.unlocked;
    fits = omega (arith, f.number, v.fits);
    live = f.live;
    once = λ p. omega (arith, f.same_timers p, v.once p);
    placed = subst IsPlaced (sym f.pool) v.placed;
    objects = still-IsObject w w' object f.timer f.others refl f.pool v.objects;
  }

  pub stopped-IsSystem :
      {this : ℕ} {t : Timer} {w' : World}
      → w.timers this ≡ some t
      → IsStopped w this t w'
      → IsSystem w'
  stopped-IsSystem {w' = w'} object f = record {
    unlocked = f.semaphore ∙ v.unlocked;
    fits = omega (arith, f.heap.filled.shrunk, v.fits);
    live = λ i h.
        still-IsLive w w' _ (live_of w' f.timer) f.others _
          (f.heap.filled.live i (omega (arith, f.heap.filled.shrunk)));
    once = λ p. omega (arith, f.heap.filled.items p, v.once p);
    placed = subst IsPlaced (sym f.pool) v.placed;
    objects = still-IsObject w w' object f.timer f.others refl f.pool v.objects;
  }

  pub cancelled-IsSystem :
      {this : ℕ} {t : Timer} {w' : World}
      → w.timers this ≡ some t
      → IsCancelled w this t w'
      → IsSystem w'
  cancelled-IsSystem {this} {t} {w'} object f = record {
    unlocked = f.semaphore ∙ v.unlocked;
    fits = rw f.heap v.fits;
    live =
        subst (λ s. AllLive (fires w') s.heap s.number_of_timers_being_managed) (sym f.heap)
          (λ i h. still-IsLive w w' _ (live_of w' f.timer) f.others _ (v.live i h));
    once = λ p. rw f.heap (v.once p);
    placed = subst IsPlaced (sym f.pool) v.placed;
    objects = still-IsObject w w' object f.timer f.others refl f.pool v.objects;
  }

-- A timer that is not in the heap is deleted.
module _ {w : World} (v : IsSystem w) (this : ℕ)
    (absent : count this w.min_heap.heap w.min_heap.number_of_timers_being_managed ≡ 0)
    (p_cb : ℕ) where
  not_this : (i : ℕ) → i < w.min_heap.number_of_timers_being_managed → w.min_heap.heap i ≢ this
  not_this i h e = omega (arith, absent, count_pos this w.min_heap.heap i _ h e)

  undeleted : (p : ℕ) → p ≢ this → (deleted w this p_cb).timers p ≡ w.timers p
  undeleted p ne = ground arith

  deleted-IsObject :
      (p : ℕ)
      → (o : Option Timer) → IsObjectOrNone w.pool p o
      → IsObjectOrNone (remove_from_pool w.pool this) p o
  deleted-IsObject p none o = tt
  deleted-IsObject p (some t) o = record {
    task = o.task;
    index = o.index;
    inside = omega (arith, o.inside, max-remove_from_pool w.pool this);
    location = o.location ∙ sym (location-remove_from_pool w.pool this o.index);
  }

  pub deleted-IsSystem : IsSystem (deleted w this p_cb)
  deleted-IsSystem = record {
    unlocked = v.unlocked;
    fits = v.fits;
    live = λ i h.
        subst (λ o. when_of o ≡ some (time_or_0 (when_of o)))
          (sym (undeleted (w.min_heap.heap i) (not_this i h))) (v.live i h);
    once = v.once;
    placed = remove_from_pool-IsPlaced w.pool this v.placed;
    objects = λ p. elim (Bool-cases (p == this)) [
      | inl e ↦
          let gone : (deleted w this p_cb).timers p ≡ none = ground arith in
          subst (IsObjectOrNone (remove_from_pool w.pool this) p) (sym gone) tt
      | inr e ↦
          subst (IsObjectOrNone (remove_from_pool w.pool this) p) (sym (undeleted p (ground arith)))
            (deleted-IsObject p (w.timers p) (v.objects p))
    ];
  }
