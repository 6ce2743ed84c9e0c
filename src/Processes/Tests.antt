-- ===== src/Processes/Tests.antt =====
-- Two programs started one above the other in the first terminal.
use operating_system_ece.Common.{ℕ, ◌≡◌, refl, ap, arith, some, write, load32, ◌+ℤ◌}
use operating_system_ece.Block.{memcpy}
use operating_system_ece.Strings.{strncmp}
use operating_system_ece.Filesys.{read_dentry_by_name, read_data}
use operating_system_ece.Tasks.{
  Tasks, Control, returned, enters, resumes, endless, lost, initial_tasks, console, highest,
  find_slot, map_program,
}
use operating_system_ece.Execute.{
  execute, load_program, start_process, take_slot, set_up, read_arguments,
}
use operating_system_ece.Execute.Image.{system, frame, entry_of, entry_test}
use operating_system_ece.Halt.{halt}
use operating_system_ece.Halt.Resumed.{Resumes}
use operating_system_ece.Processes.{HasTerminals, Next, Run, stay, then_next}
use operating_system_ece.Processes.Reachable.{reachable-Resumes}

abbrev state_of : Control → Tasks
state_of (enters e s) = s
state_of (returned r s) = s
state_of (resumes status esp ebp s) = s
state_of endless = initial_tasks system
state_of lost = initial_tasks system

enters_of : (c : Control) (e : ℕ) → entry_of c ≡ some e → c ≡ enters e (state_of c)
enters_of (enters e s) e' h =
    let same : e ≡ e' = ground (arith, h) in ap (λ (n : ℕ). enters n s) same
enters_of (returned r s) e h = absurd (ground arith)
enters_of (resumes status esp ebp s) e h = absurd (ground arith)
enters_of endless e h = absurd (ground arith)
enters_of lost e h = absurd (ground arith)

abbrev first : Tasks
first = state_of (execute 10 65536 200 frame (initial_tasks system))

first-Run : Run (initial_tasks system) first
first-Run = then_next stay (Next.starts 10 65536 200 0x08048018 frame (enters_of _ _ entry_test))

terminals : HasTerminals (initial_tasks system)
terminals = record { shown = (omega arith, omega arith); scheduled = (omega arith, omega arith) }

abbrev second : Tasks
second = state_of (execute 10 65536 200 frame first)

second_entry : entry_of (execute 10 65536 200 frame first) ≡ some 0x08048018
unfolding execute start_process load_program take_slot set_up read_arguments read_dentry_by_name
    read_data strncmp write load32 memcpy map_program ◌+ℤ◌ find_slot
second_entry = refl

second_head : highest (console second).curr_scheduled second ≡ 2
unfolding execute start_process load_program take_slot set_up read_arguments read_dentry_by_name
    read_data strncmp write load32 memcpy map_program ◌+ℤ◌ find_slot
second_head = refl

second_parent : (second.tasks 2).parent_task ≡ 1
unfolding execute start_process load_program take_slot set_up read_arguments read_dentry_by_name
    read_data strncmp write load32 memcpy map_program ◌+ℤ◌ find_slot
second_parent = refl

reachable-Resumes_example :
    Resumes
      (highest (console second).curr_scheduled second)
      7
      second
      (halt 10 65536 200 frame 7 second)
reachable-Resumes_example =
    reachable-Resumes system second 10 65536 200 frame 7 terminals
      (then_next first-Run (Next.starts 10 65536 200 0x08048018 frame (enters_of _ _ second_entry)))
      (rw second_head (omega arith)) (rw (second_head, second_parent) (omega arith))
