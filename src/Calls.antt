-- ===== src/Calls.antt =====
-- student-distrib/sys_calls.c and filesys.c: `read` and `write` through a descriptor, `file_read`, and
-- `getargs`.
pub mod Invariant
pub mod Reading
mod Tests
use operating_system_ece.Common.{
  ℕ, zero, suc, ◌+◌, ◌-◌, ◌/◌, ◌%◌, ◌^◌, Bool, not, ◌||◌, Option, none, some, ltb, leb, ◌==◌,
  if◌then◌else◌, update, write, ℤ, pos, minus_one, ◌+ℤ◌, ◌-ℤ◌, ltb_ℤ, pos_part, i32, u32, is_zero,
  Memory, load32,
}
use operating_system_ece.Filesys.{read_data, dir_read, dir_write, file_write}
use operating_system_ece.Keyboard.{terminal_read, terminal_write}
use operating_system_ece.Rtc.{rtc_read_start, rtc_read_waits, rtc_write}
use operating_system_ece.Files.{
  Ftable, FdStruct, System, Outcome, returned, waiting, lost, no_table, stdin_table, stdout_table,
  rtc_table, dir_table, file_table, max_open_files, max_args, memory, set_memory, current, cur_pcb,
  set_pcb,
}

-- `file_read`, which moves the position on by what was read.
unfoldable pub file_read : ℕ → ℕ → ℕ → ℤ → System → ℤ × System
file_read fs fd buf nbytes s =
    let p = cur_pcb s in
    let file = p.file_array fd in
    let (n, m) = read_data (memory s) fs file.inode file.f_pos buf (u32 nbytes) in
    let moved : FdStruct = record file { f_pos = (file.f_pos + n) % 2 ^ 32 } in
    if ltb_ℤ nbytes (pos 0)
    then (minus_one, s)
    else if is_zero nbytes
    then (pos 0, s)
    else (i32 n, set_pcb (record p { file_array = update p.file_array fd moved }) (set_memory m s))

-- `rtc_read` waits until the counter that it sets is counted down.
unfoldable pub rtc_read : System → Outcome
rtc_read s =
    let t = s.keyboard.console.curr_scheduled in
    let s' = record s { rtc = rtc_read_start t s.rtc } in
    if rtc_read_waits t s'.rtc then waiting s' else returned (pos 0) s'

-- The table's own read and write; `dentry_test` is the address of the local entry of `dir_read`.
unfoldable pub fops_read : ℕ → ℕ → Ftable → ℕ → ℕ → ℤ → System → Outcome
fops_read fs dentry_test t fd buf nbytes s = elim t [
  | no_table ↦ lost
  | stdin_table ↦ elim (terminal_read buf nbytes s.keyboard) [
    | none ↦ waiting s
    | some out ↦ returned out.0 (record s { keyboard = out.1 })
  ]
  | stdout_table ↦ returned (pos 0) s
  | rtc_table ↦ rtc_read s
  | dir_table ↦
      (let (r, index, m) = dir_read (memory s) fs dentry_test s.dir_index buf nbytes in
        returned r (record (set_memory m s) { dir_index = index }))
  | file_table ↦ (let (r, s') = file_read fs fd buf nbytes s in returned r s')
]

unfoldable pub fops_write : Ftable → ℕ → ℤ → System → Outcome
fops_write t buf nbytes s = elim t [
  | no_table ↦ lost
  | stdin_table ↦ returned (pos 0) s
  | stdout_table ↦
      (let (r, k) = terminal_write buf nbytes s.keyboard in returned r (record s { keyboard = k }))
  | rtc_table ↦
      (let (r, c) = rtc_write (memory s) s.keyboard.console.curr_scheduled buf nbytes s.rtc in
        returned r (record s { rtc = c }))
  | dir_table ↦ returned dir_write s
  | file_table ↦ returned file_write s
]

abbrev pub out_of_range : ℤ → Bool
out_of_range fd = not (ltb_ℤ fd (pos max_open_files)) || ltb_ℤ fd (pos 0)

unfoldable pub sys_read : ℕ → ℕ → ℤ → ℕ → ℤ → System → Outcome
sys_read fs dentry_test fd buf nbytes s =
    let file = (cur_pcb s).file_array (pos_part fd) in
    if (buf == 0) || out_of_range fd || (pos_part fd == 1) || (file.flags == 0)
    then returned minus_one s
    else fops_read fs dentry_test file.fops_table (pos_part fd) buf nbytes s

unfoldable pub sys_write : ℤ → ℕ → ℤ → System → Outcome
sys_write fd buf nbytes s =
    let file = (cur_pcb s).file_array (pos_part fd) in
    if (buf == 0) || out_of_range fd || (pos_part fd == 0) || (file.flags == 0)
    then returned minus_one s
    else if file.flags / 2 % 2 == 1
    then returned minus_one s
    else fops_write file.fops_table buf nbytes s

-- `getargs`: the length of the arguments, the test (an unsigned one), and the copy of `nbytes` bytes.
args_length : ℕ → (ℕ → ℕ) → ℕ → Option ℕ
args_length zero args i = none
args_length (suc left) args i =
    let rest = args_length left args (i + 1) in if args i == 0 then some i else rest

copy_args : ℕ → (ℕ → ℕ) → Memory → ℕ → ℕ → Memory
copy_args zero args m buf i = m
copy_args (suc left) args m buf i = copy_args left args (write m (buf + i) (args i)) buf (i + 1)

-- `none` when the text has no end within the array: the loop then reads on behind it.
unfoldable pub getargs : ℕ → ℤ → System → Option (ℤ × System)
unfolding args_length copy_args
getargs buf nbytes s =
    let p = cur_pcb s in
    elim (args_length max_args p.args 0) [
      | none ↦ none
      | some character ↦
          if ltb (u32 (nbytes -ℤ pos 1)) character
          then some (minus_one, s)
          else some (pos 0, set_memory (copy_args (u32 nbytes) p.args (memory s) buf 0) s)
    ]
