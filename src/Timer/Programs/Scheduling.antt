-- ===== src/Timer/Programs/Scheduling.antt =====
-- platform/Timer.cpp: `schedule` as steps between `wait ()` and `post ()`.
use timer_and_callback.Base.{
  Bool-cases, inl, inr, ℕ, ◌+◌, ◌%◌, ◌≡◌, refl, sym, ap, ◌∙◌, Bool, true, false, ltb, ◌==◌,
  if◌then◌else◌, ◌>>=◌ as and_then,
}
use timer_and_callback.Types.{u64, sub64}
use timer_and_callback.MinHeap.{add_to_heap}
use timer_and_callback.Pool.{null}
use timer_and_callback.World.{
  TimerType, TimerState, World, M, pure, ◌>>=◌, ◌>>◌, undefined, wait, post, load, store, on_heap,
  convert_timer_timeout_to_absolute_time_since_epoch, convert_absolute_time_since_epoch_to_relative,
  rand,
}
use timer_and_callback.Timer.{schedule_plain, schedule_fuzzy, schedule}
use timer_and_callback.Timer.Programs.{
  Program, done, step, run, then_do, and_then_same, run-then_do, run-later,
}

-- A time from now: an absolute time less what the clock says, or the time itself.
abbrev pub relative : ℕ → Bool → M ℕ
relative time is_absolute =
    if is_absolute then convert_absolute_time_since_epoch_to_relative time else pure time

unfoldable pub schedule_fuzzy_steps : ℕ → ℕ → Bool → ℕ → Bool → Program
schedule_fuzzy_steps this first first_is_absolute timeout timeout_is_absolute =
    step (relative first first_is_absolute) λ x1. step (relative timeout timeout_is_absolute) λ x2.
      if ltb x2 x1
      then done
      else step rand λ r.
        step (if sub64 x2 x1 == 0 then undefined else pure (u64 (x1 + 1 + r % sub64 x2 x1)))
          λ random_timeout.
            step (convert_timer_timeout_to_absolute_time_since_epoch random_timeout) λ when_to_fire.
              step (load this)
                λ t. step (store this (record t { when_to_fire = when_to_fire })) λ _. done

unfoldable pub schedule_plain_steps : ℕ → ℕ → Bool → Program
schedule_plain_steps this first true =
    step (load this) λ t. step (store this (record t { when_to_fire = t.first })) λ _. done
schedule_plain_steps this first false = step (load this) λ t.
    step (store this (record t { first = first })) λ _.
      step (convert_timer_timeout_to_absolute_time_since_epoch first) λ when_to_fire.
        step (load this)
          λ t'. step (store this (record t' { when_to_fire = when_to_fire })) λ _. done

unfoldable pub schedule_end_steps : ℕ → ℕ → Bool → Program
schedule_end_steps this timeout timeout_is_absolute =
    step (relative timeout timeout_is_absolute) λ new_timeout. step (load this) λ t.
      step (store this (record t { timeout = new_timeout; number_of_times_fired = 0 }))
        λ _. step (on_heap λ f s. add_to_heap f s this) λ _. done

unfoldable pub schedule_steps :
    ℕ
    → (p_cb first : ℕ) (first_is_absolute : Bool) (timeout : ℕ) (timeout_is_absolute : Bool)
      (type : TimerType) (how_many_times_to_fire : ℕ) (is_fuzzy_one_shot : Bool)
    → Program
unfolding schedule_fuzzy_steps schedule_plain_steps schedule_end_steps
schedule_steps this p_cb first first_is_absolute timeout timeout_is_absolute type how_many fuzzy =
    step (load this) λ t.
      step
        (store this (record t {
          p_cb = if t.p_cb == null then p_cb else t.p_cb;
          state = TimerState.active;
          type = type;
          how_many_times_to_fire = how_many;
        }))
        λ _.
          then_do
            (if fuzzy
              then schedule_fuzzy_steps this first first_is_absolute timeout timeout_is_absolute
              else schedule_plain_steps this first first_is_absolute)
            (schedule_end_steps this timeout timeout_is_absolute)

schedule_fuzzy-run :
    (this first : ℕ) (first_abs : Bool) (timeout : ℕ) (timeout_abs : Bool) (w : World)
    → schedule_fuzzy this first first_abs timeout timeout_abs w
      ≡ run (schedule_fuzzy_steps this first first_abs timeout timeout_abs) (pure tt) w
unfolding schedule_fuzzy schedule_fuzzy_steps store
schedule_fuzzy-run this first first_abs timeout timeout_abs w =
    and_then_same (relative first first_abs w) λ (x1, w1).
      and_then_same (relative timeout timeout_abs w1)
        λ (x2, w2). elim (Bool-cases (ltb x2 x1)) [ inl e ↦ rw e refl | inr e ↦ rw e refl ]

schedule_plain-run :
    (this first : ℕ) (first_abs : Bool) (w : World)
    → schedule_plain this first first_abs w
      ≡ run (schedule_plain_steps this first first_abs) (pure tt) w
unfolding schedule_plain schedule_plain_steps store
schedule_plain-run this first true w = refl
schedule_plain-run this first false w = refl

-- What follows in `schedule`.
abbrev schedule_end : ℕ → ℕ → Bool → M (Unit {0})
schedule_end this timeout timeout_abs = do
  new_timeout ← relative timeout timeout_abs
  t ← load this
  store this (record t { timeout = new_timeout; number_of_times_fired = 0 })
  _ ← on_heap λ f s. add_to_heap f s this
  post

-- A part of `schedule`, and what follows.
part-run :
    (part : M (Unit {0})) (p : Program) (this timeout : ℕ) (timeout_abs : Bool) (w : World)
    → part w ≡ run p (pure tt) w
    → (part >> schedule_end this timeout timeout_abs) w
      ≡ run (then_do p (schedule_end_steps this timeout timeout_abs)) post w
unfolding schedule_end_steps
part-run part p this timeout timeout_abs w same =
    ap (λ r. and_then r λ (u, w'). schedule_end this timeout timeout_abs w') same
    ∙ run-later p (pure tt) (schedule_end this timeout timeout_abs) w
    ∙ sym (run-then_do p (schedule_end_steps this timeout timeout_abs) post w)

schedule_body-run :
    (this first : ℕ) (first_abs : Bool) (timeout : ℕ) (timeout_abs fuzzy : Bool) (w : World)
    → ((if fuzzy
            then schedule_fuzzy this first first_abs timeout timeout_abs
            else schedule_plain this first first_abs)
          >> schedule_end this timeout timeout_abs)
        w
      ≡ run
          (then_do
            (if fuzzy
              then schedule_fuzzy_steps this first first_abs timeout timeout_abs
              else schedule_plain_steps this first first_abs)
            (schedule_end_steps this timeout timeout_abs))
          post
          w
schedule_body-run this first first_abs timeout timeout_abs true w =
    part-run (schedule_fuzzy this first first_abs timeout timeout_abs)
      (schedule_fuzzy_steps this first first_abs timeout timeout_abs) this timeout timeout_abs w
      (schedule_fuzzy-run this first first_abs timeout timeout_abs w)
schedule_body-run this first first_abs timeout timeout_abs false w =
    part-run (schedule_plain this first first_abs) (schedule_plain_steps this first first_abs) this
      timeout timeout_abs w (schedule_plain-run this first first_abs w)

pub schedule-run :
    (this p_cb first : ℕ) (first_abs : Bool) (timeout : ℕ) (timeout_abs : Bool) (type : TimerType)
    (how_many : ℕ) (fuzzy : Bool) (w : World)
    → schedule this p_cb first first_abs timeout timeout_abs type how_many fuzzy w
      ≡ (wait
            >> run
                (schedule_steps this p_cb first first_abs timeout timeout_abs type how_many fuzzy)
                post)
          w
unfolding schedule schedule_steps
schedule-run this p_cb first first_abs timeout timeout_abs type how_many fuzzy w =
    and_then_same (wait w) λ (u, w1). and_then_same (load this w1) λ (t, w2).
      and_then_same
        (store this
          (record t {
            p_cb = if t.p_cb == null then p_cb else t.p_cb;
            state = TimerState.active;
            type = type;
            how_many_times_to_fire = how_many;
          })
          w2)
        λ (u', w3). schedule_body-run this first first_abs timeout timeout_abs fuzzy w3
