-- ===== src/Task.antt =====
-- include/platform/Task.h: the process id, the task id and the name of a task.
use timer_and_callback.Base.{
  true, false, ℕ, zero, suc, ◌+◌, ◌≤◌, ◌≡◌, ◌≢◌, refl, Bool-cases, inl, inr, List, [], ◌∷◌, ◌++◌,
  ◌==◌, ltb, if◌then◌else◌, Run, ok, fault, ◌>>=◌, length, take, arith,
}
use timer_and_callback.Wire.{zeros}

-- `MAX_TASK_PROCESS_NAME_LEN`
abbrev pub max_task_process_name_len : ℕ
max_task_process_name_len = 15

-- The name is an array of so many bytes.
pub record Task : Type 0 where
  pub t_id : ℕ
  pub pid : ℕ
  pub task_name : List ℕ

pub get_task_pid : Task → ℕ
get_task_pid task = task.pid

pub set_task_pid : ℕ → Task → Task
set_task_pid pid task = record task { pid = pid }

pub set_task_id : ℕ → Task → Task
set_task_id id task = record task { t_id = id }

-- `strncpy` of a string of the bytes `name` before its 0: the rest of the array is filled with 0.
pub set_this_task_name : List ℕ → Task → Task
set_this_task_name name task = record task {
  task_name = take max_task_process_name_len (name ++ zeros max_task_process_name_len);
}

-- The bytes up to the first 0; without one in the array what is read next is not of the name.
pub string_at : List ℕ → Run (List ℕ)
string_at [] = fault
string_at (c ∷ cs) = let rest = string_at cs in if c == 0 then ok [] else (do s ← rest; ok (c ∷ s))

pub get_this_task_name : Task → Run (List ℕ)
unfolding string_at
get_this_task_name task = string_at task.task_name

abbrev pub HasNoNul : List ℕ → Type 0
HasNoNul [] = Unit
HasNoNul (c ∷ cs) = (c ≢ 0) × HasNoNul cs

-- An array of `room` bytes holds a string with its 0, or only its first bytes.
string_at-cases :
    (room : ℕ) (name : List ℕ) (more : ℕ)
    → HasNoNul name
    → room ≤ length name + more
    → string_at (take room (name ++ zeros more))
      ≡ (if ltb (length name) room then ok name else fault)
unfolding string_at
string_at-cases zero name more no_nul fits = ground arith
string_at-cases (suc room) [] zero no_nul fits = absurd (omega arith)
string_at-cases (suc room) [] (suc more) no_nul fits = ground arith
string_at-cases (suc room) (c ∷ cs) more (not_0, no_nul) fits =
    let other : (c == 0) ≡ false = ground arith in
    rw (other, string_at-cases room cs more no_nul (omega arith))
      (elim (Bool-cases (ltb (length cs) room)) [
        | inl e ↦
            let within : ltb (suc (length cs)) (suc room) ≡ true = ground arith in
            rw (e, within) refl
        | inr e ↦
            let past : ltb (suc (length cs)) (suc room) ≡ false = ground arith in rw (e, past) refl
      ])

-- A name without 0 that is set comes back if it has fewer than 15 bytes; a longer one is cut, and no 0
-- stands after it, so that reading it goes on past the array.
pub task_name-cases :
    (name : List ℕ) (task : Task)
    → HasNoNul name
    → get_this_task_name (set_this_task_name name task)
      ≡ (if ltb (length name) max_task_process_name_len then ok name else fault)
unfolding get_this_task_name set_this_task_name
task_name-cases name task no_nul =
    string_at-cases max_task_process_name_len name max_task_process_name_len no_nul (omega arith)
