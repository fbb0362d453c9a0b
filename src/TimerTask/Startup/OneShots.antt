-- ===== src/TimerTask/Startup/OneShots.antt =====
-- platform/Timer.cpp: what is known of the callbacks of one-shot timers that have been made and
-- scheduled.
use mathlib.Core.Path.{subst}
use timer_and_callback.Base.{
  ℕ, suc, ◌+◌, ◌<◌, ◌≡◌, ◌≢◌, refl, sym, ap, ◌∙◌, inl, inr, Option, none, some, Bool, true, List,
  [], ◌∷◌, Bool-cases, ◌==◌, length, occurrences, arith,
}
use timer_and_callback.Base.Occurrences.{images}
use timer_and_callback.Pool.{null}
use timer_and_callback.World.{TimerType, Timer, Timeval}
use timer_and_callback.TimerTask.Cycle.{reading}
use timer_and_callback.TimerTask.Drain.{on_top}
use timer_and_callback.TimerTask.Startup.{Request, started, type_of}
use timer_and_callback.TimerTask.Startup.Drained.{AllStarted}

abbrev pub callbacks_of : List Request → List ℕ
callbacks_of requests = images (λ r. r.p_cb) requests

-- Each of the timers is a one-shot timer for the task `queue`, the memory that it is made in holds
-- no callback, and it is given a callback object.
abbrev pub AllOneShot : ℕ → (ℕ → Bool) → List Request → Type 0
AllOneShot queue callbacks [] = Unit
AllOneShot queue callbacks (r ∷ requests) =
    (r.context ≡ queue)
    × (type_of r.mode ≡ TimerType.one_shot)
    × (r.memory.p_cb ≡ null)
    × (r.p_cb ≢ null)
    × (callbacks r.p_cb ≡ true)
    × AllOneShot queue callbacks requests

abbrev pub cb_of : (ℕ → Option Timer) → ℕ → ℕ
cb_of timers p = elim (timers p) [ some t ↦ t.p_cb | none ↦ null ]

pub occurrences-on_top :
    (f : ℕ → ℕ) (c : ℕ) (xs l : List ℕ)
    → occurrences c (on_top f xs l) ≡ occurrences c l + occurrences c (images f xs)
occurrences-on_top f c [] l = omega arith
occurrences-on_top f c (x ∷ xs) l = omega (arith, occurrences-on_top f c xs (f x ∷ l))

pub length-on_top : (f : ℕ → ℕ) (xs l : List ℕ) → length (on_top f xs l) ≡ length xs + length l
length-on_top f [] l = omega arith
length-on_top f (x ∷ xs) l = omega (arith, length-on_top f xs (f x ∷ l))

-- The timers that have been started have the callbacks that were asked for.
own_cb :
    (timers : ℕ → Option Timer) (p current : ℕ) (r : Request)
    → timers p ≡ some (started current r)
    → r.memory.p_cb ≡ null
    → cb_of timers p ≡ r.p_cb
own_cb timers p current r e no_cb =
    ap (λ o. elim o as (λ _. ℕ) [ some t ↦ t.p_cb | none ↦ null ]) e ∙ ground (arith, no_cb)

pub own_cbs :
    (queue : ℕ) (callbacks : ℕ → Bool) (timers : ℕ → Option Timer) (clock : ℕ → Timeval)
    (ps : List ℕ) (requests : List Request)
    → length ps ≡ length requests
    → AllStarted timers clock ps requests
    → AllOneShot queue callbacks requests
    → images (cb_of timers) ps ≡ callbacks_of requests
own_cbs queue callbacks timers clock [] [] same a o = refl
own_cbs queue callbacks timers clock [] (r ∷ requests) same a o = absurd (omega arith)
own_cbs queue callbacks timers clock (p ∷ ps) [] same a o = absurd (omega arith)
own_cbs queue callbacks timers clock (p ∷ ps) (r ∷ requests) same (a, more)
      (task, kind, no_cb, some_cb, there, o) =
    let first = own_cb timers p (reading clock 0) r a no_cb in
    let others =
      own_cbs queue callbacks timers (λ k. clock (suc k)) ps requests (omega arith) more o in
    λ i. first i ∷ others i

-- What is known of one of them.
pub record IsStartedOneShot (queue : ℕ) (callbacks : ℕ → Bool) (timers : ℕ → Option Timer) (p : ℕ)
    : Type 0 where
  pub timer : Timer
  pub object : timers p ≡ some timer
  pub one_shot : timer.type ≡ TimerType.one_shot
  pub task : timer.cb_contex_t_id ≡ queue
  pub own : timer.p_cb ≡ cb_of timers p
  pub some_cb : cb_of timers p ≢ null
  pub there : callbacks (cb_of timers p) ≡ true

pub all-IsStartedOneShot :
    (queue : ℕ) (callbacks : ℕ → Bool) (timers : ℕ → Option Timer) (clock : ℕ → Timeval)
    (ps : List ℕ) (requests : List Request)
    → length ps ≡ length requests
    → AllStarted timers clock ps requests
    → AllOneShot queue callbacks requests
    → (p : ℕ) → 0 < occurrences p ps
    → IsStartedOneShot queue callbacks timers p
all-IsStartedOneShot queue callbacks timers clock [] requests same a o p h = absurd (omega arith)
all-IsStartedOneShot queue callbacks timers clock (q ∷ ps) [] same a o p h = absurd (omega arith)
all-IsStartedOneShot queue callbacks timers clock (q ∷ ps) (r ∷ requests) same (a, more)
      (task, kind, no_cb, some_cb, there, o) p h =
    elim (Bool-cases (q == p)) [
      | inl e ↦
          let cb = own_cb timers q (reading clock 0) r a no_cb in
          let here : q ≡ p = ground arith in
          subst (IsStartedOneShot queue callbacks timers) here (record {
            timer = started (reading clock 0) r;
            object = a;
            one_shot = kind;
            task = task;
            own = ground (arith, no_cb) ∙ sym cb;
            some_cb = rw cb some_cb;
            there = rw cb there;
          })
      | inr e ↦
          all-IsStartedOneShot queue callbacks timers (λ k. clock (suc k)) ps requests (omega arith)
            more o p (ground arith)
    ]
