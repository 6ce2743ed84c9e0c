-- ===== src/Calls/Tests.antt =====
-- The calls that read and write, of student-distrib/sys_calls.c on a small file system.
use operating_system_ece.Common.{
  ◌+◌, ◌%◌, ◌^◌, ◌≡◌, refl, arith, [], ◌∷◌, if◌then◌else◌, ◌==◌, pos, min, Memory, memory_of,
  load32,
}
use operating_system_ece.Filesys.{file_size}
use operating_system_ece.Keyboard.{initial_keyboard}
use operating_system_ece.Keyboard.Invariant.{initial_keyboard-IsValid}
use operating_system_ece.Rtc.{initial_rtc}
use operating_system_ece.Files.{Ftable, Pcb, System, cur_pcb}
use operating_system_ece.Files.Slots.{used}
use operating_system_ece.Files.Descriptors.{IsOpenTable, After}
use operating_system_ece.Calls.{sys_read, file_read}
use operating_system_ece.Calls.Invariant.{IsValidSystem, sys_read-IsValidSystem}
use operating_system_ece.Calls.Reading.{file_read-count}

-- An image at 65536 of a file "b" of the three bytes 10, 20 and 30; "b" at 200, and "c" at 210.
abbrev image : Memory
image = memory_of (
    (65536, 1)
    ∷ (65540, 1)
    ∷ (65600, 98)
    ∷ (65632, 2)
    ∷ (69632, 3)
    ∷ (73728, 10)
    ∷ (73729, 20)
    ∷ (73730, 30)
    ∷ (200, 98)
    ∷ (210, 99)
    ∷ [])

-- A process with the file "b" open as 2.
abbrev process : Pcb
process = record {
  file_array = λ i.
      if i == 0
      then record { fops_table = Ftable.stdin_table; inode = 0; f_pos = 0; flags = 1 }
      else if i == 1
      then record { fops_table = Ftable.stdout_table; inode = 0; f_pos = 0; flags = 1 }
      else if i == 2
      then record { fops_table = Ftable.file_table; inode = 0; f_pos = 3; flags = 3 }
      else record { fops_table = Ftable.no_table; inode = 0; f_pos = 0; flags = 0 };
  file_arr_size = pos 3;
  args = λ i. 0;
}

abbrev start : System
start = record {
  keyboard = initial_keyboard image;
  dir_index = 0;
  rtc = initial_rtc;
  pcbs = λ n. process;
  highest_terminal_processes = λ t. 1;
}

process-IsOpenTable : IsOpenTable process
unfolding used
process-IsOpenTable = record {
  size = refl;
  tagged = λ i h e. ground arith;
  tables = λ i h e. ground arith;
}

start-IsValidSystem : IsValidSystem start
start-IsValidSystem = record {
  keyboard = initial_keyboard-IsValid image;
  files = process-IsOpenTable;
}

size : file_size image 65536 0 ≡ 3
unfolding file_size load32
size = refl

sys_read-IsValidSystem_example :
    After IsValidSystem (sys_read 65536 400 (pos 2) 0x8048000 (pos 8) start)
sys_read-IsValidSystem_example =
    sys_read-IsValidSystem 65536 400 start start-IsValidSystem (pos 2) 0x8048000 (pos 8)
      (omega arith) (omega arith)

-- The file's position is at its end, and three bytes are read all the same.
file_read-count_example :
    let count = min (file_size image 65536 0) 8 in
    let (r, s') = file_read 65536 2 300 (pos 8) start in
    (r ≡ pos count) × (((cur_pcb s').file_array 2).f_pos ≡ (3 + count) % 2 ^ 32)
file_read-count_example =
    file_read-count 65536 2 300 8 start (omega arith) (omega arith) (rw size (omega arith))
