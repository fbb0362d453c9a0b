-- ===== src/Timer/Programs/Clients.antt =====
-- platform/Timer.cpp: any number of tasks that call methods of timers, step by step in any
-- interleaving.
use timer_and_callback.Base.{ℕ, ◌≡◌, List, [], ◌∷◌, ◌==◌, if◌then◌else◌, ok, update}
use timer_and_callback.World.{World, M, pure, ◌>>◌, wait, post}
use timer_and_callback.Timer.Programs.{Program, done, step}
use timer_and_callback.Timer.Programs.Methods.{Method, call, steps}

-- A task: the calls that it has yet to make, and between `wait ()` and `post ()` also the method
-- that it is in and the steps that are left of it.
pub data Task : Type 1 where
  outside : List Method → Task
  inside : Method → Program → List Method → Task

pub record Tasks : Type 1 where
  pub world : World
  pub tasks : ℕ → Task

abbrev pub moved : Tasks → ℕ → World → Task → Tasks
moved c i w task = record { world = w; tasks = update c.tasks i task }

-- One task goes on: it takes the semaphore, makes a step of its method, or gives the semaphore back.
pub data Step (c : Tasks) : Tasks → Type 1 where
  enters :
      (i : ℕ) {w : World} {method : Method} {later : List Method}
      → c.tasks i ≡ outside (method ∷ later)
      → wait c.world ≡ ok (tt, w)
      → Step c (moved c i w (inside method (steps method) later))
  proceeds :
      (i : ℕ) {w : World} {method : Method} {later : List Method} {A : Type 0} {m : M A}
      {next : A → Program} {a : A}
      → c.tasks i ≡ inside method (step m next) later
      → m c.world ≡ ok (a, w)
      → Step c (moved c i w (inside method (next a) later))
  leaves :
      (i : ℕ) {w : World} {method : Method} {later : List Method}
      → c.tasks i ≡ inside method done later
      → post c.world ≡ ok (tt, w)
      → Step c (moved c i w (outside later))

-- What any number of steps leads to.
pub data Steps (c : Tasks) : Tasks → Type 1 where
  none_yet : Steps c c
  and_then : {c' c'' : Tasks} → Steps c c' → Step c' c'' → Steps c c''

-- Calls one after the other, each by the task of that number.
unfoldable pub perform_all : List (ℕ × Method) → M (Unit {0})
perform_all [] = pure tt
perform_all ((i, method) ∷ history) = do call method; perform_all history

-- The calls of one task among them.
abbrev pub calls_of : ℕ → List (ℕ × Method) → List Method
calls_of i [] = []
calls_of i ((j, method) ∷ history) =
    if j == i then method ∷ calls_of i history else calls_of i history
