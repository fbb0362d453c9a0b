-- ===== src/Timer/Programs/Interleaving.antt =====
-- platform/Timer.cpp: what holds of every interleaving of the methods' steps.
use timer_and_callback.Base.{ℕ, ◌≡◌, refl, sym, ap, ◌∙◌, true, false, inl, inr, List, [], ◌++◌, ok}
use timer_and_callback.World.{World}
use timer_and_callback.Timer.Programs.Methods.{Method}
use timer_and_callback.Timer.Programs.Clients.{
  Task, outside, Tasks, Step, enters, proceeds, leaves, Steps, none_yet, and_then, perform_all,
  calls_of,
}
use timer_and_callback.Timer.Programs.Serial.{
  is_inside, pending, IsQuiet, IsSerial, wait_at_0, is_who, enters-IsBusy, proceeds-IsBusy,
  leaves-IsQuiet,
}

-- No task is in a method yet.
abbrev pub at_start : World → (ℕ → List Method) → Tasks
at_start w calls = record { world = w; tasks = λ i. outside (calls i) }

module _ (w0 : World) (calls : ℕ → List Method) where
  outside_inside :
      {c : Tasks} (i : ℕ) {task : Task}
      → c.tasks i ≡ task
      → is_inside task ≡ true
      → IsQuiet w0 calls c
      → ⊥
  outside_inside {c} i e there v =
      let not_there = v.all_outside i in let is_there = ap is_inside e ∙ there in cc

  Step-IsSerial : {c c' : Tasks} → Step c c' → IsSerial w0 calls c → IsSerial w0 calls c'
  Step-IsSerial {c} (enters i e taken) (inl v) = inr (enters-IsBusy w0 calls c i e taken v)
  Step-IsSerial {c} (enters i e taken) (inr v) = absurd (wait_at_0 c.world _ v.locked taken)
  Step-IsSerial (proceeds i e made) (inl v) = absurd (outside_inside i e refl v)
  Step-IsSerial {c} (proceeds i e made) (inr v) = inr (proceeds-IsBusy w0 calls c i e made v)
  Step-IsSerial (leaves i e given) (inl v) = absurd (outside_inside i e refl v)
  Step-IsSerial {c} (leaves i e given) (inr v) = inl (leaves-IsQuiet w0 calls c i e given v)

  module _ (unlocked : w0.semaphore ≡ 1) where
    start-IsQuiet : IsQuiet w0 calls (at_start w0 calls)
    unfolding perform_all
    start-IsQuiet = record {
      history = [];
      is_history = record { performed = refl; unlocked = unlocked; of_each = λ i. refl };
      all_outside = λ i. refl;
    }

    Steps-IsSerial : {c : Tasks} → Steps (at_start w0 calls) c → IsSerial w0 calls c
    Steps-IsSerial none_yet = inl start-IsQuiet
    Steps-IsSerial (and_then before one) = Step-IsSerial one (Steps-IsSerial before)

    -- Any number of tasks make calls of `schedule`, `stop`, `cancel`, `restart` and
    -- `changeFiringTime`, one step at a time in any interleaving, from a state in which the
    -- semaphore is at 1. When no task is in a method, the state is one that the same calls lead to
    -- when they are made one after the other, each as a whole, in some order that keeps the order
    -- of the calls of each task.
    pub interleaved-serial :
        {c : Tasks}
        → Steps (at_start w0 calls) c
        → ((i : ℕ) → is_inside (c.tasks i) ≡ false)
        → (history : List (ℕ × Method)) × (perform_all history w0 ≡ ok (tt, c.world))
          × ((i : ℕ) → calls i ≡ calls_of i history ++ pending (c.tasks i))
    interleaved-serial {c} before quiet = elim (Steps-IsSerial before) [
      | inl v ↦ (v.history, v.is_history.performed, v.is_history.of_each)
      | inr v ↦ let is_there = v.someone in let not_there = quiet v.who in absurd cc
    ]

    -- At most one task is in a method at any time.
    pub one_inside :
        {c : Tasks}
        → Steps (at_start w0 calls) c
        → (i j : ℕ) → is_inside (c.tasks i) ≡ true
        → is_inside (c.tasks j) ≡ true
        → i ≡ j
    one_inside {c} before i j here there = elim (Steps-IsSerial before) [
      | inl v ↦ absurd (outside_inside {c = c} i refl here v)
      | inr v ↦ is_who w0 calls c i v here ∙ sym (is_who w0 calls c j v there)
    ]
