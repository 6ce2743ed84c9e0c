-- ===== src/Processes/Reachable.antt =====
-- What holds of the processes in every state that the steps lead to.
use operating_system_ece.Common.{ℕ, ◌≢◌, refl}
use operating_system_ece.Files.{System}
use operating_system_ece.Tasks.{Tasks, console, highest, initial_tasks}
use operating_system_ece.Tasks.Forest.{initial_tasks-IsProcessTable}
use operating_system_ece.Execute.{Frame}
use operating_system_ece.Halt.{halt}
use operating_system_ece.Halt.Resumed.{Resumes}
use operating_system_ece.Processes.{HasTerminals, Run, stay, then_next}
use operating_system_ece.Processes.Steps.{IsKernelState, halting, Next-IsKernelState}

initial-IsKernelState :
    (system : System) → HasTerminals (initial_tasks system) → IsKernelState (initial_tasks system)
initial-IsKernelState system t = record {
  table = initial_tasks-IsProcessTable system;
  terminals = t;
  tabled = λ p a. absurd (a.2 refl);
}

Run-IsKernelState : (s t : Tasks) → IsKernelState s → Run s t → IsKernelState t
Run-IsKernelState s t k stay = k
Run-IsKernelState s t k (then_next {t = u} r n) =
    Next-IsKernelState u (Run-IsKernelState s u k r) t n

pub reachable-IsKernelState :
    (system : System) (t : Tasks)
    → HasTerminals (initial_tasks system)
    → Run (initial_tasks system) t
    → IsKernelState t
reachable-IsKernelState system t terminals r =
    Run-IsKernelState (initial_tasks system) t (initial-IsKernelState system terminals) r

-- From the start of the kernel on, after any sequence of the steps of `Next` (programs entered or refused,
-- processes that have a parent halt, processes without one halt in the terminal that is scheduled and shown
-- with the shell entered in their place, or the processes are left alone), a process that has a parent can
-- halt: the parent goes on, whatever descriptors were open. As for the invariant, an `execute` that keeps the
-- slot of a program it cannot read, the halt of a process without a parent in a terminal that is not shown,
-- and one whose shell cannot be entered are no steps.
pub reachable-Resumes :
    (system : System) (t : Tasks) (fuel fs shell : ℕ) (f : Frame) (status : ℕ)
    → HasTerminals (initial_tasks system)
    → Run (initial_tasks system) t
    → highest (console t).curr_scheduled t ≢ 0
    → (t.tasks (highest (console t).curr_scheduled t)).parent_task ≢ 0
    → Resumes (highest (console t).curr_scheduled t) status t (halt fuel fs shell f status t)
reachable-Resumes system t fuel fs shell f status terminals r running above =
    halting t (reachable-IsKernelState system t terminals r) fuel fs shell f status running above
