-- ===== src/Execute.antt =====
-- student-distrib/sys_calls.c: `execute`.
pub mod Ends
pub mod Started
pub mod Outcome
pub mod Loading
pub mod Arguments
pub mod Image
mod Tests
use operating_system_ece.Common.{
  ℕ, zero, suc, ◌+◌, ◌-◌, ◌*◌, Bool, not, ◌||◌, ◌&&◌, Option, none, some, ◌==◌, if◌then◌else◌,
  update, ℤ, pos, minus_one, ◌+ℤ◌, ltb_ℤ, is_zero, Memory, write, load32, codes,
}
use operating_system_ece.Filesys.{read_dentry_by_name, read_data, file_size}
use operating_system_ece.Files.{Pcb, System, init_files}
use operating_system_ece.Tasks.{
  Tasks, Task, Control, returned, enters, endless, max_process_count, console, set_console, bytes,
  set_bytes, highest, set_highest, print_text, find_slot, map_program,
}

-- Where the local arrays stand, and the registers at the time they are saved.
pub record Frame : Type 0 where
  pub filename : ℕ
  pub data_block : ℕ
  pub temp : ℕ
  pub esp : ℕ
  pub ebp : ℕ

-- `= {'\0'}` for an array of 32 bytes.
pub clear_array : ℕ → Memory → ℕ → Memory
clear_array zero m a = m
clear_array (suc left) m a = clear_array left (write m a 0) (a + 1)

-- The first word of the command, at most 32 bytes of it: where it ends, and the memory.
pub copy_word : ℕ → Memory → ℕ → ℕ → ℕ → ℕ × Memory
copy_word zero m command filename i = (i, m)
copy_word (suc left) m command filename i =
    let rest = copy_word left (write m (filename + i) (m (command + i))) command filename (i + 1) in
    if (m (command + i) == 0) || (m (command + i) == b' ') then (i, m) else rest

-- The blanks before the arguments.
skip_blanks : ℕ → Memory → ℕ → ℕ → Option ℕ
skip_blanks zero m command i = none
skip_blanks (suc fuel) m command i =
    let rest = skip_blanks fuel m command (i + 1) in
    if m (command + i) == b' ' then rest else some i

-- The arguments, to `args` from `j` on. The block's text beyond them stays, and no NUL is added.
copy_arguments : ℕ → Memory → ℕ → ℕ → ℕ → (ℕ → ℕ) → Option (ℕ → ℕ)
copy_arguments zero m command i j args = none
copy_arguments (suc fuel) m command i j args =
    let rest = copy_arguments fuel m command (i + 1) (j + 1) (update args j (m (command + i))) in
    if m (command + i) == 0 then some args else rest

unfoldable pub read_arguments : ℕ → Memory → ℕ → ℕ → (ℕ → ℕ) → Option (ℕ → ℕ)
unfolding skip_blanks copy_arguments
read_arguments fuel m command i args = elim (skip_blanks fuel m command i) [
  | none ↦ none
  | some j ↦ copy_arguments fuel m command j 0 args
]

-- The first four bytes of an executable file.
abbrev pub is_executable : Memory → ℕ → Bool
is_executable m a =
    (m a == 0x7F) && (m (a + 1) == b'E') && (m (a + 2) == b'L') && (m (a + 3) == b'F')

-- `process_count++`, `process_per_terminal[curr_terminal-1]++` and `pcb_slots[pcb_index] = 1`.
unfoldable pub take_slot : ℕ → Tasks → Tasks
take_slot index s =
    let t = (console s).curr_terminal - 1 in
    record s {
      process_count = s.process_count +ℤ pos 1;
      process_per_terminal = update s.process_per_terminal t (s.process_per_terminal t +ℤ pos 1);
      pcb_slots = update s.pcb_slots index 1;
    }

-- The block of the new process, and its place at the head of the terminal.
unfoldable pub set_up : ℕ → ℕ → Frame → Tasks → Tasks
set_up index entry f s =
    let terminal = (console s).curr_terminal in
    let number = index + 1 in
    let stack = 0x800000 - index * 0x2000 - 4 in
    let task : Task = record {
      process_num = number;
      parent_task = highest terminal s;
      eip = entry;
      esp = f.esp;
      ebp = f.ebp;
      esp0 = stack;
    } in
    let s' = set_highest terminal number s in
    record s' {
      system = record s'.system {
        pcbs = update s'.system.pcbs number (init_files (s'.system.pcbs number));
      };
      tasks = update s.tasks number task;
      tss_esp0 = stack;
    }

-- From the arguments on, in a slot that is taken. `read_data` returns an `int32_t`.
unfoldable pub load_program : ℕ → ℕ → ℕ → (ℕ → ℕ) → Frame → Tasks → Control
load_program fs index inode args f s =
    let number = index + 1 in
    let pcb = record (s.system.pcbs number) { args = args } in
    let s1 =
      map_program number
        (record s { system = record s.system { pcbs = update s.system.pcbs number pcb } }) in
    let (count, m) = read_data (bytes s1) fs inode 0 0x08048000 (file_size (bytes s1) fs inode) in
    let s2 = set_bytes m s1 in
    let entry = load32 m (f.data_block + 24) in
    if count == 0xFFFF_FFFF then returned minus_one s2 else enters entry (set_up index entry f s2)

-- What follows the checks.
unfoldable pub start_process : ℕ → ℕ → ℕ → ℕ → ℕ → Frame → Tasks → Control
start_process fuel fs command i inode f s =
    let index = find_slot max_process_count s.pcb_slots 0 in
    let s' = take_slot index s in
    elim (read_arguments fuel (bytes s') command i (s'.system.pcbs (index + 1)).args) [
      | none ↦ endless
      | some args ↦ load_program fs index inode args f s'
    ]

unfoldable pub execute : ℕ → ℕ → ℕ → Frame → Tasks → Control
unfolding clear_array copy_word
execute fuel fs command f s =
    let m0 = clear_array 32 (clear_array 32 (bytes s) f.filename) f.data_block in
    let (i, m1) = copy_word 32 m0 command f.filename 0 in
    let (r, m2) = read_dentry_by_name m1 fs f.filename f.temp in
    let inode = load32 m2 (f.temp + 36) in
    let m3 = (read_data m2 fs inode 0 f.data_block 32).1 in
    if command == 0
    then returned minus_one s
    else if not (ltb_ℤ s.process_count (pos max_process_count))
    then returned (pos 0) (set_console (print_text (codes "MAX PROCESSES REACHED\n") (console s)) s)
    else if is_zero (r +ℤ pos 1)
    then returned minus_one (set_bytes m2 s)
    else if not (is_executable m3 f.data_block)
    then returned minus_one (set_bytes m3 s)
    else start_process fuel fs command i inode f (set_bytes m3 s)
