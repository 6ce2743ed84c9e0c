-- ===== src/Execute/Image.antt =====
-- A small file system for concrete runs: the file "b" at 65536, a program of 28 bytes; the command "b x" at 200.
use operating_system_ece.Common.{
  ℕ, ◌≡◌, refl, ◌∷◌, [], Memory, memory_of, write, load32, Option, none, some, pos, ◌+ℤ◌,
}
use operating_system_ece.Block.{memcpy}
use operating_system_ece.Strings.{strncmp}
use operating_system_ece.Filesys.{read_dentry_by_name, read_data}
use operating_system_ece.Keyboard.{initial_keyboard}
use operating_system_ece.Rtc.{initial_rtc}
use operating_system_ece.Files.{System, no_table}
use operating_system_ece.Tasks.{
  Control, returned, enters, resumes, endless, lost, initial_tasks, map_program,
}
use operating_system_ece.Execute.{
  Frame, execute, load_program, start_process, take_slot, set_up, read_arguments,
}

abbrev pub image : Memory
image = memory_of (
    (65536, 1)
    ∷ (65540, 1)
    ∷ (65600, 98)
    ∷ (65632, 2)
    ∷ (69632, 28)
    ∷ (73728, 0x7F)
    ∷ (73729, 69)
    ∷ (73730, 76)
    ∷ (73731, 70)
    ∷ (73752, 24)
    ∷ (73753, 128)
    ∷ (73754, 4)
    ∷ (73755, 8)
    ∷ (200, 98)
    ∷ (201, 32)
    ∷ (202, 120)
    ∷ [])

abbrev pub system : System
system = record {
  keyboard = initial_keyboard image;
  dir_index = 0;
  rtc = initial_rtc;
  pcbs = λ n. record {
    file_array = λ i. record { fops_table = no_table; inode = 0; f_pos = 0; flags = 0 };
    file_arr_size = pos 0;
    args = λ i. 0;
  };
  highest_terminal_processes = λ t. 0;
}

abbrev pub frame : Frame
frame = record { filename = 1000; data_block = 1100; temp = 1200; esp = 5000; ebp = 5100 }

abbrev pub entry_of : Control → Option ℕ
entry_of (enters entry s) = some entry
entry_of (returned r s) = none
entry_of (resumes status esp ebp s) = none
entry_of endless = none
entry_of lost = none

-- The program is entered at the address in its header.
pub entry_test : entry_of (execute 10 65536 200 frame (initial_tasks system)) ≡ some 0x08048018
unfolding execute start_process load_program take_slot set_up read_arguments read_dentry_by_name
    read_data strncmp write load32 memcpy map_program ◌+ℤ◌
entry_test = refl
