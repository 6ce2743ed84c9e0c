-- ===== src/Halt.antt =====
-- student-distrib/sys_calls.c: `halt`.
pub mod Closing
pub mod Resumed
pub mod RoundTrip
mod Tests
use operating_system_ece.Common.{
  ℕ, zero, suc, ◌+◌, ◌-◌, Option, none, some, ltb, ◌==◌, if◌then◌else◌, update, ℤ, pos, ◌-ℤ◌,
}
use operating_system_ece.Filesys.{dir_close}
use operating_system_ece.Screen.{clear, set_cursors, update_cursor}
use operating_system_ece.Files.{
  Ftable, no_table, stdin_table, stdout_table, rtc_table, dir_table, file_table, FdStruct, Pcb,
  System, sys_close, max_args, max_open_files,
}
use operating_system_ece.Files.Descriptors.{free_fd}
use operating_system_ece.Tasks.{
  Tasks, Task, Control, returned, enters, resumes, endless, lost, console, set_console, highest,
  set_highest, map_program,
}
use operating_system_ece.Execute.{Frame, execute}

-- The table's own close. That of a file is the system call `close`, on the process of the terminal shown.
unfoldable pub fops_close : Ftable → ℕ → System → Option System
fops_close t fd s = elim t [
  | no_table ↦ none
  | dir_table ↦ some (record s { dir_index = (dir_close s.dir_index).1 })
  | file_table ↦ some (sys_close (pos fd) s).1
  | _ ↦ some s
]

-- `flags = 0` for a descriptor of a process.
unfoldable pub unflag : ℕ → ℕ → System → System
unflag process i s =
    let p = s.pcbs process in
    record s {
      pcbs =
          update s.pcbs process
            (record p { file_array = update p.file_array i (free_fd (p.file_array i)) });
    }

-- The loop over the descriptors of the process, with `left` to go.
unfoldable pub close_round : ℕ → ℕ → System → Option System
close_round process i s =
    let file = (s.pcbs process).file_array i in
    if file.flags == 0 then some s else fops_close file.fops_table i s

unfoldable pub close_all : ℕ → ℕ → ℕ → System → Option System
close_all zero process i s = some s
close_all (suc left) process i s = elim (close_round process i s) [
  | none ↦ none
  | some s' ↦ close_all left process (i + 1) (unflag process i s')
]

-- The counts go down, the arguments are wiped, and the slot is free. `pcb_slots[-1]` is no slot.
unfoldable pub give_back : ℕ → Tasks → Tasks
give_back process s =
    let p = s.system.pcbs process in
    let wiped = record p { args = λ j. if ltb j max_args then 0 else p.args j } in
    record s {
      system = record s.system { pcbs = update s.system.pcbs process wiped };
      pcb_slots = if process == 0 then s.pcb_slots else update s.pcb_slots (process - 1) 0;
    }

unfoldable pub lower_counts : Tasks → Tasks
lower_counts s =
    let t = (console s).curr_scheduled - 1 in
    record s {
      process_count = s.process_count -ℤ pos 1;
      process_per_terminal = update s.process_per_terminal t (s.process_per_terminal t -ℤ pos 1);
    }

-- Back to the parent: its page, its place at the head of the terminal, its stack.
unfoldable pub to_parent : ℕ → ℕ → Tasks → Control
to_parent status process s =
    let task = s.tasks process in
    let parent = s.tasks task.parent_task in
    let s' =
      set_highest (console s).curr_scheduled parent.process_num
        (map_program parent.process_num s) in
    resumes status task.esp task.ebp (record s' { tss_esp0 = parent.esp0 })

-- A shell at the bottom of a terminal is started again; if that fails, the code goes on with the stack
-- that the halted process had kept.
unfoldable pub restart : ℕ → ℕ → ℕ → Frame → ℕ → ℕ → Tasks → Control
restart fuel fs shell f status process s =
    let s1 = set_highest (console s).curr_terminal 0 s in
    let s2 =
      set_console (update_cursor 0 0 (set_cursors (pos 0) (pos 0) (clear (console s1)))) s1 in
    elim (execute fuel fs shell f s2) [
      | returned r s' ↦ resumes status (s'.tasks process).esp (s'.tasks process).ebp s'
      | other ↦ other
    ]

-- `halt`; `shell` is the address of the text "shell".
unfoldable pub halt : ℕ → ℕ → ℕ → Frame → ℕ → Tasks → Control
halt fuel fs shell f status s =
    let process = highest (console s).curr_scheduled s in
    let s1 = lower_counts s in
    elim (close_all max_open_files process 0 s1.system) [
      | none ↦ lost
      | some system ↦
          let s2 = give_back process (record s1 { system = system }) in
          if (s2.tasks process).parent_task == 0
          then restart fuel fs shell f status process s2
          else to_parent status process s2
    ]
