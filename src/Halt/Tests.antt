-- ===== src/Halt/Tests.antt =====
-- `halt` after two programs were started in the first terminal.
use operating_system_ece.Common.{ℕ, ◌+◌, ◌≡◌, refl, arith, update, pos}
use operating_system_ece.Keyboard.{initial_keyboard}
use operating_system_ece.Rtc.{initial_rtc}
use operating_system_ece.Files.{no_table}
use operating_system_ece.Tasks.{Tasks, resumes, initial_tasks, set_bytes, map_program}
use operating_system_ece.Tasks.Forest.{initial_tasks-IsProcessTable}
use operating_system_ece.Execute.{Frame, take_slot, set_up}
use operating_system_ece.Execute.Ends.{IsStarted}
use operating_system_ece.Execute.Started.{set_up-IsStarted}
use operating_system_ece.Halt.{halt}
use operating_system_ece.Halt.Resumed.{Resumes, halt-Resumes, Restarts, halt-Restarts}
use operating_system_ece.Halt.RoundTrip.{IsBack, execute_halt}

abbrev start : Tasks
start = initial_tasks (record {
  keyboard = initial_keyboard (λ a. 0);
  dir_index = 0;
  rtc = initial_rtc;
  pcbs = λ n. record {
    file_array = λ i. record { fops_table = no_table; inode = 0; f_pos = 0; flags = 0 };
    file_arr_size = pos 0;
    args = λ i. 0;
  };
  highest_terminal_processes = λ t. 0;
})

abbrev frame : Frame
frame = record { filename = 1000; data_block = 1100; temp = 1200; esp = 5000; ebp = 5100 }

-- The program of the slot `i`, with no arguments.
abbrev program : ℕ → Tasks → Tasks
program i s = set_up i 0x08048000 frame (
    set_bytes (λ a. 0)
      (map_program (i + 1) (record (take_slot i s) {
        system = record s.system {
          pcbs = update s.system.pcbs (i + 1) (record (s.system.pcbs (i + 1)) { args = λ j. 0 });
        };
      })))

abbrev shell : Tasks
shell = program 0 start

shell-IsStarted : IsStarted 0 start shell
shell-IsStarted =
    set_up-IsStarted frame start (initial_tasks-IsProcessTable start.system) (omega arith)
      (omega arith) 0 0x08048000 (λ j. 0) (λ a. 0)
      (record {
        above = omega arith;
        below = omega arith;
        free = refl;
        full = λ j a b. absurd (omega arith);
      })

counter-IsStarted : IsStarted 1 shell (program 1 shell)
unfolding set_up take_slot map_program
counter-IsStarted =
    set_up-IsStarted frame shell (shell-IsStarted.table) (omega arith) (omega arith) 1 0x08048000
      (λ j. 0) (λ a. 0)
      (record {
        above = omega arith;
        below = omega arith;
        free = refl;
        full = λ j a b. ground arith;
      })

execute_halt_example :
    (s2 : Tasks) × IsBack shell s2
    × (halt 10 65536 200 frame 7 (program 1 shell) ≡ resumes 7 5000 5100 s2)
unfolding set_up take_slot map_program
execute_halt_example =
    execute_halt shell (program 1 shell) 1 shell-IsStarted.table counter-IsStarted (omega arith)
      (omega arith) refl 10 65536 200 frame 7 (ground arith)

halt-Resumes_example : Resumes 2 7 (program 1 shell) (halt 10 65536 200 frame 7 (program 1 shell))
unfolding set_up take_slot map_program
halt-Resumes_example =
    halt-Resumes (program 1 shell) counter-IsStarted.table (omega arith) (omega arith)
      (ground arith) 10 65536 200 frame 7 counter-IsStarted.files.tables (ground arith)

halt-Restarts_example : Restarts 1 10 65536 200 frame 7 shell (halt 10 65536 200 frame 7 shell)
unfolding set_up take_slot map_program
halt-Restarts_example =
    halt-Restarts shell shell-IsStarted.table (omega arith) (omega arith) (ground arith) 10 65536
      200 frame 7 shell-IsStarted.files.tables refl refl
