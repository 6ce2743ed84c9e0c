-- ===== src/Files.antt =====
-- student-distrib/sys_calls.c: the file descriptors of a process, and the system calls on them.
-- The memory of a process control block is kept apart from the byte memory: a buffer of the caller
-- never lies in one. `fs` is `filesys_addr`.
pub mod Slots
pub mod Descriptors
pub mod Opening
pub mod Refinement
pub mod Removing
mod Tests
use operating_system_ece.Common.{
  ℕ, zero, suc, ◌+◌, ◌-◌, ◌/◌, ◌%◌, ◌^◌, Bool, not, ◌||◌, Option, none, some, ltb, leb, ◌==◌,
  if◌then◌else◌, update, write, ℤ, pos, minus_one, ◌+ℤ◌, ◌-ℤ◌, ltb_ℤ, pos_part, i32, u32, is_zero,
  Memory, load32,
}
use operating_system_ece.Filesys.{
  read_dentry_by_name, read_data, dir_read, dir_open, dir_write, file_write,
}
use operating_system_ece.Block.{memcpy}
use operating_system_ece.Keyboard.{Keyboard, terminal_read, terminal_write}
use operating_system_ece.Rtc.{Rtc, rtc_open, rtc_read_start, rtc_read_waits, rtc_write}

-- The five `ftable` values; `no_table` is what a block holds before its first use.
pub data Ftable : Type 0 where
  no_table : Ftable
  stdin_table : Ftable
  stdout_table : Ftable
  rtc_table : Ftable
  dir_table : Ftable
  file_table : Ftable

-- `inode` and `f_pos` are the 32-bit patterns of the signed fields.
pub record FdStruct : Type 0 where
  pub fops_table : Ftable
  pub inode : ℕ
  pub f_pos : ℕ
  pub flags : ℕ

abbrev pub max_open_files : ℕ
max_open_files = 8

abbrev pub max_args : ℕ
max_args = 127

-- `file_array` is a function from the index below 8, and `args` one from the index below 127.
pub record Pcb : Type 0 where
  pub file_array : ℕ → FdStruct
  pub file_arr_size : ℤ
  pub args : ℕ → ℕ

-- The state that the calls share. `pcbs` has the block of a process by the process's number, and
-- `highest_terminal_processes` that number by the terminal's index from 0.
pub record System : Type 0 where
  pub keyboard : Keyboard
  pub dir_index : ℕ
  pub rtc : Rtc
  pub pcbs : ℕ → Pcb
  pub highest_terminal_processes : ℕ → ℕ

-- A call returns, or waits for an interrupt, or jumps through a pointer that was never set.
pub data Outcome : Type 0 where
  returned : ℤ → System → Outcome
  waiting : System → Outcome
  lost : Outcome

abbrev pub memory : System → Memory
memory s = s.keyboard.console.mem

abbrev pub set_memory : Memory → System → System
set_memory m s = record s {
  keyboard = record s.keyboard { console = record s.keyboard.console { mem = m } };
}

-- The calls take the process of the terminal that is shown.
abbrev pub current : System → ℕ
current s = s.highest_terminal_processes (s.keyboard.console.curr_terminal - 1)

abbrev pub cur_pcb : System → Pcb
cur_pcb s = s.pcbs (current s)

abbrev pub set_pcb : Pcb → System → System
set_pcb p s = record s { pcbs = update s.pcbs (current s) p }

-- Setting up the array in `execute`, whose third loop clears the other flags.
clear_flags : ℕ → (ℕ → FdStruct) → ℕ → ℕ → FdStruct
clear_flags zero files k = files
clear_flags (suc left) files k =
    clear_flags left (update files k (record (files k) { flags = 0 })) (k + 1)

unfoldable pub init_files : Pcb → Pcb
unfolding clear_flags
init_files p =
    let stdin : FdStruct = record {
      fops_table = stdin_table;
      inode = 2 ^ 32 - 1;
      f_pos = 0;
      flags = 1;
    } in
    let stdout : FdStruct = record {
      fops_table = stdout_table;
      inode = 2 ^ 32 - 1;
      f_pos = 0;
      flags = 1;
    } in
    record p {
      file_array = clear_flags 6 (update (update p.file_array 0 stdin) 1 stdout) 2;
      file_arr_size = pos 2;
    }

-- The search of `open`, with `left` slots to go: the first whose present bit is clear.
pub free_slot : ℕ → (ℕ → FdStruct) → ℕ → ℕ
free_slot zero files fd = fd
free_slot (suc left) files fd =
    let rest = free_slot left files (fd + 1) in if (files fd).flags % 2 == 0 then fd else rest

-- The descriptor that `open` fills in for an entry's type.
unfoldable pub describe : ℕ → ℕ → FdStruct → FdStruct
describe file_type inode_num old =
    if file_type == 0
    then record { fops_table = rtc_table; inode = 0; f_pos = 0; flags = 9 }
    else if file_type == 1
    then record { fops_table = dir_table; inode = 0; f_pos = 0; flags = 5 }
    else if file_type == 2
    then record { fops_table = file_table; inode = inode_num; f_pos = 0; flags = 3 }
    else record old { f_pos = 0; flags = 1 }

-- The table's own open, with the two bytes that `rtc_open` reads back from the clock.
unfoldable pub fops_open : ℕ → ℕ → Ftable → System → System
fops_open first second t s = elim t [
  | rtc_table ↦
      (let (ports, r) = rtc_open first second s.keyboard.console.ports s.rtc in
        record s {
          rtc = r;
          keyboard = record s.keyboard { console = record s.keyboard.console { ports = ports } };
        })
  | dir_table ↦ record s { dir_index = (dir_open s.dir_index).1 }
  | _ ↦ s
]

-- What `open` does once an entry is read to the address `entry` and the array is not full.
unfoldable pub open_entry : ℕ → ℕ → ℕ → System → Outcome
open_entry first second entry s =
    let p = cur_pcb s in
    let fd = free_slot 6 p.file_array 2 in
    let file =
      describe (load32 (memory s) (entry + 32)) (load32 (memory s) (entry + 36))
        (p.file_array fd) in
    let s' =
      set_pcb
        (record p {
          file_array = update p.file_array fd file;
          file_arr_size = p.file_arr_size +ℤ pos 1;
        })
        s in
    elim file.fops_table [
      | no_table ↦ lost
      | _ ↦ returned (pos fd) (fops_open first second file.fops_table s')
    ]

-- `open`; `entry` is the address of its local entry.
unfoldable pub sys_open : ℕ → ℕ → ℕ → ℕ → ℕ → System → Outcome
sys_open fs first second entry filename s =
    let (r, m) = read_dentry_by_name (memory s) fs filename entry in
    let s' = set_memory m s in
    if not (is_zero r) || not (ltb_ℤ (cur_pcb s').file_arr_size (pos max_open_files))
    then returned minus_one s'
    else open_entry first second entry s'

unfoldable pub sys_close : ℤ → System → ℤ × System
sys_close fd s =
    let p = cur_pcb s in
    let i = pos_part fd in
    if (ltb_ℤ fd (pos 2) || not (ltb_ℤ fd (pos max_open_files))) || ((p.file_array i).flags == 0)
    then (minus_one, s)
    else (
      pos 0,
      set_pcb
          (record p {
            file_array = update p.file_array i (record (p.file_array i) { flags = 0 });
            file_arr_size = p.file_arr_size -ℤ pos 1;
          })
          s,
    )
