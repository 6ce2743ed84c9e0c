-- ===== src/Files/Tests.antt =====
-- Opening and closing in student-distrib/sys_calls.c on a small file system.
use operating_system_ece.Common.{
  ℕ, ◌+◌, ◌≡◌, refl, arith, [], ◌∷◌, false, if◌then◌else◌, ◌==◌, pos, Memory, memory_of, load32,
  write, is_zero,
}
use operating_system_ece.Block.{memcpy}
use operating_system_ece.Strings.{strncmp}
use operating_system_ece.Filesys.{read_dentry_by_name}
use operating_system_ece.Keyboard.{initial_keyboard}
use operating_system_ece.Rtc.{initial_rtc}
use operating_system_ece.Files.{Ftable, Pcb, System, cur_pcb, sys_open, sys_close}
use operating_system_ece.Files.Slots.{used}
use operating_system_ece.Files.Descriptors.{IsOpenTable, Returns}
use operating_system_ece.Files.Opening.{sys_open-IsOpenTable, sys_close-sys_open}
use operating_system_ece.Files.Refinement.{view, entry_file, Step, sys_open-Step}
use operating_system_ece.Files.Removing.{CloseStep, sys_close-Step}

-- An image at 65536 of a file "b" of the three bytes 10, 20 and 30; "b" at 200, and "c" at 210.
abbrev image : Memory
image = memory_of (
    (65536, 1)
    ∷ (65540, 1)
    ∷ (65600, 98)
    ∷ (65632, 2)
    ∷ (69632, 3)
    ∷ (73728, 10)
    ∷ (73729, 20)
    ∷ (73730, 30)
    ∷ (200, 98)
    ∷ (210, 99)
    ∷ [])

-- A process with the file "b" open as 2.
abbrev process : Pcb
process = record {
  file_array = λ i.
      if i == 0
      then record { fops_table = Ftable.stdin_table; inode = 0; f_pos = 0; flags = 1 }
      else if i == 1
      then record { fops_table = Ftable.stdout_table; inode = 0; f_pos = 0; flags = 1 }
      else if i == 2
      then record { fops_table = Ftable.file_table; inode = 0; f_pos = 3; flags = 3 }
      else record { fops_table = Ftable.no_table; inode = 0; f_pos = 0; flags = 0 };
  file_arr_size = pos 3;
  args = λ i. 0;
}

abbrev start : System
start = record {
  keyboard = initial_keyboard image;
  dir_index = 0;
  rtc = initial_rtc;
  pcbs = λ n. process;
  highest_terminal_processes = λ t. 1;
}

process-IsOpenTable : IsOpenTable process
unfolding used
process-IsOpenTable = record {
  size = refl;
  tagged = λ i h e. ground arith;
  tables = λ i h e. ground arith;
}

found : (read_dentry_by_name image 65536 200 400).0 ≡ pos 0
unfolding read_dentry_by_name strncmp memcpy load32 write
found = refl

file_type : load32 (read_dentry_by_name image 65536 200 400).1 (400 + 32) ≡ 2
unfolding read_dentry_by_name strncmp memcpy load32 write
file_type = refl

missing : is_zero (read_dentry_by_name image 65536 210 400).0 ≡ false
unfolding read_dentry_by_name strncmp memcpy load32 write
missing = refl

in_use : used 6 process.file_array 2 ≡ 1
unfolding used
in_use = refl

sys_open-IsOpenTable_example :
    Returns (λ r s'. IsOpenTable (cur_pcb s')) (sys_open 65536 0 0 400 200 start)
sys_open-IsOpenTable_example =
    sys_open-IsOpenTable 65536 0 0 400 200 start process-IsOpenTable (rw file_type (omega arith))

sys_close-sys_open_example :
    Returns
      (λ fd s'.
        let (r', s'') = sys_close fd s' in
        (r' ≡ pos 0)
        × ((cur_pcb s'').file_arr_size ≡ process.file_arr_size)
        × ((i : ℕ) → ((cur_pcb s'').file_array i).flags ≡ (process.file_array i).flags))
      (sys_open 65536 0 0 400 200 start)
sys_close-sys_open_example =
    sys_close-sys_open 65536 0 0 400 200 start process-IsOpenTable found
      (rw file_type (omega arith)) (rw in_use (omega arith))

sys_close-Step_example :
    CloseStep
      (pos 2)
      (view process)
      (sys_close (pos 2) start).0
      (view (cur_pcb (sys_close (pos 2) start).1))
sys_close-Step_example = sys_close-Step start (pos 2)

sys_open-Step_example :
    Returns
      (λ r s'.
        Step
          (read_dentry_by_name image 65536 200 400).0
          (entry_file
            (load32 (read_dentry_by_name image 65536 200 400).1 (400 + 32))
            (load32 (read_dentry_by_name image 65536 200 400).1 (400 + 36)))
          (view process)
          r
          (view (cur_pcb s')))
      (sys_open 65536 0 0 400 200 start)
sys_open-Step_example =
    sys_open-Step start 65536 0 0 400 200 process-IsOpenTable (rw file_type (omega arith))
