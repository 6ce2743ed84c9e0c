-- ===== src/Processes.antt =====
-- The processes over any sequence of `execute`, `halt` and what runs between them: student-distrib/sys_calls.c.
pub mod Reachable
pub mod Steps
mod Tests
use operating_system_ece.Common.{ℕ, ℤ, ◌-◌, ◌≤◌, ◌≡◌, ◌≢◌}
use operating_system_ece.Tasks.{Tasks, returned, enters, resumes, console, highest}
use operating_system_ece.Execute.{Frame, execute}
use operating_system_ece.Halt.{halt}
use operating_system_ece.Halt.Closing.{HasTables}

-- The terminals that are shown and scheduled are the first three.
pub record HasTerminals (s : Tasks) : Type 0 where
  pub shown : (1 ≤ (console s).curr_terminal) × ((console s).curr_terminal ≤ 3)
  pub scheduled : (1 ≤ (console s).curr_scheduled) × ((console s).curr_scheduled ≤ 3)

-- The count, the slots, the heads, and each process's number and parent are the same, the terminals are the
-- first three, and each open descriptor with a table has one still. The page in view may change, as the
-- timer changes it, and so may the stacks.
pub record LeavesProcesses (s s' : Tasks) : Type 0 where
  pub count : s'.process_count ≡ s.process_count
  pub slots : s'.pcb_slots ≡ s.pcb_slots
  pub heads : s'.system.highest_terminal_processes ≡ s.system.highest_terminal_processes
  pub parents : (p : ℕ) → (s'.tasks p).parent_task ≡ (s.tasks p).parent_task
  pub numbers : (p : ℕ) → (s'.tasks p).process_num ≡ (s.tasks p).process_num
  pub terminals : HasTerminals s'
  pub tables : (p : ℕ) → HasTables (s.system.pcbs p) → HasTables (s'.system.pcbs p)

-- A step: `execute` enters a program, or returns with the slots as they were; a process that has a parent
-- halts; a process without a parent halts in the terminal that is both scheduled and shown, and its shell is
-- entered; or something else runs that leaves the processes alone. These are no steps: an `execute` that
-- keeps a slot for a program it cannot read, the halt of a process without a parent in a terminal that is not
-- shown, and one whose shell cannot be entered.
pub data Next (s s' : Tasks) : Type 0 where
  starts :
      (fuel fs command entry : ℕ) (f : Frame)
      → execute fuel fs command f s ≡ enters entry s'
      → Next s s'
  fails :
      (fuel fs command : ℕ) (r : ℤ) (f : Frame)
      → execute fuel fs command f s ≡ returned r s'
      → s'.pcb_slots ≡ s.pcb_slots
      → Next s s'
  halts :
      (fuel fs shell status esp ebp : ℕ) (f : Frame)
      → highest (console s).curr_scheduled s ≢ 0
      → (s.tasks (highest (console s).curr_scheduled s)).parent_task ≢ 0
      → halt fuel fs shell f status s ≡ resumes status esp ebp s'
      → Next s s'
  restarts :
      (fuel fs shell status entry : ℕ) (f : Frame)
      → highest (console s).curr_scheduled s ≢ 0
      → (s.tasks (highest (console s).curr_scheduled s)).parent_task ≡ 0
      → (console s).curr_terminal ≡ (console s).curr_scheduled
      → halt fuel fs shell f status s ≡ enters entry s'
      → Next s s'
  others : LeavesProcesses s s' → Next s s'

pub data Run (s : Tasks) : Tasks → Type 0 where
  stay : Run s s
  then_next : {t u : Tasks} → Run s t → Next t u → Run s u
