-- ===== src/Tasks.antt =====
-- The processes of student-distrib/sys_calls.c: the globals that `execute` and `halt` share, the process
-- slots, and the program pages.
pub mod Slots
pub mod Forest
use operating_system_ece.Common.{
  ℕ, zero, suc, ◌+◌, ◌-◌, ◌*◌, ltb, leb, ◌&&◌, ◌==◌, if◌then◌else◌, update, ℤ, pos, Memory, List,
  [], ◌∷◌,
}
use operating_system_ece.Screen.{Console, putc}
use operating_system_ece.Files.{System, memory, set_memory}

abbrev pub max_process_count : ℕ
max_process_count = 6

-- The fields of `pcb_t` besides the files and the arguments, which `Pcb` has. `parent_task` is the
-- number of the parent, whose block `getPCB` finds, and 0 for NULL.
pub record Task : Type 0 where
  pub process_num : ℕ
  pub parent_task : ℕ
  pub eip : ℕ
  pub esp : ℕ
  pub ebp : ℕ
  pub esp0 : ℕ

-- `process_per_terminal` and `pcb_slots` are indexed from 0, and blocks by the process's number from 1.
-- `mapped` is the process whose program page `pageDirectory[_4B]` maps, and `pages` has the bytes of the
-- pages that are not mapped.
pub record Tasks : Type 0 where
  pub system : System
  pub process_count : ℤ
  pub process_per_terminal : ℕ → ℤ
  pub pcb_slots : ℕ → ℕ
  pub tasks : ℕ → Task
  pub mapped : ℕ
  pub pages : ℕ → Memory
  pub tss_esp0 : ℕ

-- The globals as the kernel starts, with no process.
abbrev pub initial_tasks : System → Tasks
initial_tasks system = record {
  system = record system { highest_terminal_processes = λ t. 0 };
  process_count = pos 0;
  process_per_terminal = λ t. pos 0;
  pcb_slots = λ i. 0;
  tasks = λ p. record { process_num = 0; parent_task = 0; eip = 0; esp = 0; ebp = 0; esp0 = 0 };
  mapped = 0;
  pages = λ p a. 0;
  tss_esp0 = 0;
}

abbrev pub console : Tasks → Console
console s = s.system.keyboard.console

abbrev pub set_console : Console → Tasks → Tasks
set_console c s = record s {
  system = record s.system { keyboard = record s.system.keyboard { console = c } };
}

abbrev pub bytes : Tasks → Memory
bytes s = memory s.system

abbrev pub set_bytes : Memory → Tasks → Tasks
set_bytes m s = record s { system = set_memory m s.system }

-- `highest_terminal_processes`, by the terminal's number from 1.
abbrev pub highest : ℕ → Tasks → ℕ
highest terminal s = s.system.highest_terminal_processes (terminal - 1)

abbrev pub set_highest : ℕ → ℕ → Tasks → Tasks
set_highest terminal process s = record s {
  system = record s.system {
    highest_terminal_processes = update s.system.highest_terminal_processes (terminal - 1) process;
  };
}

-- `printf` of a text without conversions.
unfoldable pub print_text : List ℕ → Console → Console
print_text [] c = c
print_text (x ∷ xs) c = print_text xs (putc x c)

-- The search of `execute`, with `left` slots to go: the first that is 0.
unfoldable pub find_slot : ℕ → (ℕ → ℕ) → ℕ → ℕ
find_slot zero slots i = i
find_slot (suc left) slots i =
    let rest = find_slot left slots (i + 1) in if slots i == 0 then i else rest

-- The page from 128 MB to 132 MB of another process comes into view.
unfoldable pub map_program : ℕ → Tasks → Tasks
map_program process s =
    let kept = update s.pages s.mapped (bytes s) in
    record (set_bytes
      (λ a. if leb 0x8000000 a && ltb a 0x8400000 then kept process a else bytes s a) s) {
        mapped = process;
        pages = kept;
      }

-- How a call ends: it returns to its caller, enters a program, goes on in `execute` of the parent with
-- the parent's stack, reads a text that has no end, or jumps through a pointer that was never set.
pub data Control : Type 0 where
  returned : ℤ → Tasks → Control
  enters : ℕ → Tasks → Control
  resumes : ℕ → ℕ → ℕ → Tasks → Control
  endless : Control
  lost : Control
