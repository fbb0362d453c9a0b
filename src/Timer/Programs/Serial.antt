-- ===== src/Timer/Programs/Serial.antt =====
-- platform/Timer.cpp: what the semaphore is for. Calls of methods by any number of tasks, step by
-- step in any interleaving, against the same calls one after the other.
use mathlib.Core.Path.{subst}
use timer_and_callback.Base.{
  ℕ, ◌+◌, ◌-◌, ◌≡◌, ◌≢◌, ◌⊎◌, refl, sym, ap, ◌∙◌, Bool, true, false, Bool-cases, inl, inr, List, [],
  ◌∷◌, ◌++◌, ◌==◌, if◌then◌else◌, Run, ok, fault, blocked, aborted, out_of_fuel, ◌>>=◌ as and_then,
  update, IfReturns, IfReturns-if, IfReturns-at, arith,
}
use timer_and_callback.World.{World, M, ◌>>◌, wait, post}
use timer_and_callback.Timer.Programs.{Program, done, step, run, and_then_assoc, and_then_same}
use timer_and_callback.Timer.Programs.Methods.{Method, stopping, call, steps, call-run}
use timer_and_callback.Timer.Programs.Keeping.{KeepsAll, steps-KeepsAll}
use timer_and_callback.Timer.Programs.Clients.{
  Task, outside, inside, Tasks, moved, perform_all, calls_of,
}

abbrev pub is_inside : Task → Bool
is_inside (outside later) = false
is_inside (inside method program later) = true

abbrev pub program_of : Task → Program
program_of (outside later) = done
program_of (inside method program later) = program

abbrev pub method_of : Task → Method
method_of (outside later) = stopping 0
method_of (inside method program later) = method

-- The calls that a task has not come back from.
abbrev pub pending : Task → List Method
pending (outside later) = later
pending (inside method program later) = method ∷ later

wait_lem : (w : World) → IfReturns (λ (u, w'). w'.semaphore ≡ w.semaphore - 1) (wait w)
unfolding wait
wait_lem w = IfReturns-if (w.semaphore == 0) (record { holds = tt }) (record { holds = refl })

pub wait_at_0 : (w w' : World) → w.semaphore ≡ 0 → wait w ≢ ok (tt, w')
unfolding wait
wait_at_0 w w' e h = ground arith

post_lem : (w : World) → IfReturns (λ (u, w'). w'.semaphore ≡ w.semaphore + 1) (post w)
unfolding post
post_lem w = record { holds = refl }

module _ {ℓ} {A : Type ℓ} (f : ℕ → A) (i : ℕ) (v : A) where
  update_here : update f i v i ≡ v
  update_here = let same : (i == i) ≡ true = ground arith in rw same refl

  update_elsewhere : (k : ℕ) → k ≢ i → update f i v k ≡ f k
  update_elsewhere k ne = let other : (i == k) ≡ false = ground arith in rw other refl

and_then_ok : (r : Run (Unit {0} × World)) → and_then r (λ (u, w). ok (tt, w)) ≡ r
and_then_ok (ok a) = refl
and_then_ok fault = refl
and_then_ok blocked = refl
and_then_ok aborted = refl
and_then_ok out_of_fuel = refl

-- One call more.
perform_all-append :
    (history : List (ℕ × Method)) (i : ℕ) (method : Method) (w : World)
    → perform_all (history ++ ((i, method) ∷ [])) w ≡ (perform_all history >> call method) w
unfolding perform_all
perform_all-append [] i method w = and_then_ok (call method w)
perform_all-append ((j, first) ∷ history) i method w =
    and_then_same (call first w) (λ (u, w'). perform_all-append history i method w')
    ∙ sym (
        and_then_assoc (call first w) (λ (u, w'). perform_all history w')
          (λ (u, w'). call method w'))

calls_of-append :
    (k : ℕ) (history : List (ℕ × Method)) (i : ℕ) (method : Method) (later : List Method)
    → calls_of k (history ++ ((i, method) ∷ [])) ++ later
      ≡ calls_of k history ++ (if i == k then method ∷ later else later)
calls_of-append k [] i method later = elim (Bool-cases (i == k)) [
  | inl e ↦ rw e refl
  | inr e ↦ rw e refl
]
calls_of-append k ((j, first) ∷ history) i method later = elim (Bool-cases (j == k)) [
  | inl e ↦ rw e (ap (λ l. first ∷ l) (calls_of-append k history i method later))
  | inr e ↦ rw e (calls_of-append k history i method later)
]

same_pending :
    (tasks : ℕ → Task) (i : ℕ) (task : Task)
    → pending task ≡ pending (tasks i)
    → (k : ℕ) → pending (update tasks i task k) ≡ pending (tasks k)
same_pending tasks i task e k = elim (Bool-cases (i == k)) [
  | inl h ↦ let same : i ≡ k = ground arith in rw h (e ∙ ap (λ j. pending (tasks j)) same)
  | inr h ↦ rw h refl
]

one_back :
    (tasks : ℕ → Task) (i : ℕ) {method : Method} {program : Program} {later : List Method}
    → tasks i ≡ inside method program later
    → (k : ℕ)
    → pending (tasks k) ≡ (
        if i == k
        then method ∷ pending (update tasks i (outside later) k)
        else pending (update tasks i (outside later) k))
one_back tasks i e k = elim (Bool-cases (i == k)) [
  | inl h ↦
      let same : k ≡ i = ground arith in rw h (ap (λ j. pending (tasks j)) same ∙ ap pending e)
  | inr h ↦ rw h refl
]

module _ (w0 : World) (start : ℕ → List Method) where
  -- The calls of the tasks up to now: those of the history have been made and come back.
  pub record IsHistory (c : Tasks) (history : List (ℕ × Method)) (w : World) : Type 1 where
    pub performed : perform_all history w0 ≡ ok (tt, w)
    pub unlocked : w.semaphore ≡ 1
    pub of_each : (i : ℕ) → start i ≡ calls_of i history ++ pending (c.tasks i)

  -- No task is in a method.
  pub record IsQuiet (c : Tasks) : Type 1 where
    pub history : List (ℕ × Method)
    pub is_history : IsHistory c history c.world
    pub all_outside : (i : ℕ) → is_inside (c.tasks i) ≡ false

  -- Exactly one task is in a method, which it has entered in the state `entered`.
  pub record IsBusy (c : Tasks) : Type 1 where
    pub history : List (ℕ × Method)
    pub entered : World
    pub is_history : IsHistory c history entered
    pub who : ℕ
    pub someone : is_inside (c.tasks who) ≡ true
    pub others : (i : ℕ) → i ≢ who → is_inside (c.tasks i) ≡ false
    pub locked : c.world.semaphore ≡ 0
    pub keeps : KeepsAll (program_of (c.tasks who))
    pub rest : run (program_of (c.tasks who)) post c.world ≡ call (method_of (c.tasks who)) entered

  abbrev pub IsSerial : Tasks → Type 1
  IsSerial c = IsQuiet c ⊎ IsBusy c

  -- The task that is in a method is the one that the invariant names.
  pub is_who : (c : Tasks) (i : ℕ) (v : IsBusy c) → is_inside (c.tasks i) ≡ true → i ≡ v.who
  is_who c i v e = elim (Bool-cases (i == v.who)) [
    | inl same ↦ ground arith
    | inr other ↦ let none_there = v.others i (ground arith) in absurd cc
  ]

  module _ (c : Tasks) (i : ℕ) {method : Method} {later : List Method} {w : World} where
    pub enters-IsBusy :
        c.tasks i ≡ outside (method ∷ later)
        → wait c.world ≡ ok (tt, w)
        → IsQuiet c
        → IsBusy (moved c i w (inside method (steps method) later))
    enters-IsBusy e taken v =
        let task = inside method (steps method) later in
        let here = update_here c.tasks i task in
        record {
          history = v.history;
          entered = c.world;
          is_history = record {
            performed = v.is_history.performed;
            unlocked = v.is_history.unlocked;
            of_each = λ k.
                v.is_history.of_each k
                ∙ ap (λ l. calls_of k v.history ++ l)
                    (sym (same_pending c.tasks i task (sym (ap pending e)) k));
          };
          who = i;
          someone = ap is_inside here;
          others = λ k ne. ap is_inside (update_elsewhere c.tasks i task k ne) ∙ v.all_outside k;
          locked = omega (arith, IfReturns-at (wait_lem c.world) taken, v.is_history.unlocked);
          keeps = subst (λ t. KeepsAll (program_of t)) (sym here) (steps-KeepsAll method);
          rest =
              subst (λ t. run (program_of t) post w ≡ call (method_of t) c.world) (sym here)
                (sym (
                  call-run method c.world
                  ∙ ap (λ r. and_then r λ (u, w'). run (steps method) post w') taken));
        }

    pub proceeds-IsBusy :
        {A : Type 0} {m : M A} {next : A → Program} {a : A}
        → c.tasks i ≡ inside method (step m next) later
        → m c.world ≡ ok (a, w)
        → IsBusy c
        → IsBusy (moved c i w (inside method (next a) later))
    proceeds-IsBusy {A} {m} {next} {a} e made v =
        let task = inside method (next a) later in
        let here = update_here c.tasks i task in
        let same = is_who c i v (ap is_inside e) in
        let before = sym (ap c.tasks same) ∙ e in
        let keeps = subst (λ t. KeepsAll (program_of t)) before v.keeps in
        record {
          history = v.history;
          entered = v.entered;
          is_history = record {
            performed = v.is_history.performed;
            unlocked = v.is_history.unlocked;
            of_each = λ k.
                v.is_history.of_each k
                ∙ ap (λ l. calls_of k v.history ++ l)
                    (sym (same_pending c.tasks i task (sym (ap pending e)) k));
          };
          who = i;
          someone = ap is_inside here;
          others = λ k ne.
              ap is_inside (update_elsewhere c.tasks i task k ne)
              ∙ v.others k (λ same'. ne (same' ∙ sym same));
          locked = IfReturns-at (keeps.0 c.world) made ∙ v.locked;
          keeps = subst (λ t. KeepsAll (program_of t)) (sym here) (keeps.1 a);
          rest =
              subst (λ t. run (program_of t) post w ≡ call (method_of t) v.entered) (sym here)
                (sym (ap (λ r. and_then r λ (b, w'). run (next b) post w') made)
                  ∙ subst (λ t. run (program_of t) post c.world ≡ call (method_of t) v.entered)
                      before v.rest);
        }

    pub leaves-IsQuiet :
        c.tasks i ≡ inside method done later
        → post c.world ≡ ok (tt, w)
        → IsBusy c
        → IsQuiet (moved c i w (outside later))
    leaves-IsQuiet e given v =
        let task = outside later in
        let here = update_here c.tasks i task in
        let same = is_who c i v (ap is_inside e) in
        let before = sym (ap c.tasks same) ∙ e in
        let last =
          subst (λ t. run (program_of t) post c.world ≡ call (method_of t) v.entered) before
            v.rest in
        record {
          history = v.history ++ ((i, method) ∷ []);
          is_history = record {
            performed =
                perform_all-append v.history i method w0
                ∙ ap (λ r. and_then r λ (u, w'). call method w') v.is_history.performed
                ∙ sym last
                ∙ given;
            unlocked = omega (arith, IfReturns-at (post_lem c.world) given, v.locked);
            of_each = λ k.
                v.is_history.of_each k
                ∙ ap (λ l. calls_of k v.history ++ l) (one_back c.tasks i e k)
                ∙ sym (calls_of-append k v.history i method (pending (update c.tasks i task k)));
          };
          all_outside = λ k. elim (Bool-cases (i == k)) [
            | inl h ↦ rw h refl
            | inr h ↦ rw h (v.others k (ground (arith, same)))
          ];
        }
