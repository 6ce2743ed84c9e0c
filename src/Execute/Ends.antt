-- ===== src/Execute/Ends.antt =====
-- The ways in which `execute` ends: what it looked at, and what it leaves of the processes.
use operating_system_ece.Common.{
  ℕ, ◌+◌, ◌-◌, ◌*◌, ◌≡◌, ◌≢◌, true, false, Bool, update, ℤ, pos, minus_one, ◌+ℤ◌, load32, Option,
  none, some,
}
use operating_system_ece.Files.Descriptors.{IsOpenTable}
use operating_system_ece.Tasks.{Tasks, Control, returned, enters, endless, console, bytes, highest}
use operating_system_ece.Tasks.Slots.{IsFirst}
use operating_system_ece.Tasks.Forest.{IsProcessTable}
use operating_system_ece.Execute.{Frame}

-- The processes of two states are the same with their descriptors, and so are the terminals and their heads.
pub record IsSameTable (s s' : Tasks) : Type 0 where
  pub same_count : s'.process_count ≡ s.process_count
  pub same_slots : s'.pcb_slots ≡ s.pcb_slots
  pub same_tasks : s'.tasks ≡ s.tasks
  pub same_heads : s'.system.highest_terminal_processes ≡ s.system.highest_terminal_processes
  pub same_page : s'.mapped ≡ s.mapped
  pub same_files : s'.system.pcbs ≡ s.system.pcbs
  pub same_shown : (console s').curr_terminal ≡ (console s).curr_terminal
  pub same_scheduled : (console s').curr_scheduled ≡ (console s).curr_scheduled

-- The slot `i` and the count are taken for a process, in the terminal that is shown.
pub record IsTaken (i : ℕ) (s s' : Tasks) : Type 0 where
  pub first : IsFirst 6 s.pcb_slots 0 i
  pub slots : s'.pcb_slots ≡ update s.pcb_slots i 1
  pub count : s'.process_count ≡ s.process_count +ℤ pos 1

-- The process `i + 1` is the head of the terminal shown, above the one that was its head, on its own
-- page and stack, with the two standard descriptors open.
pub record IsStarted (i : ℕ) (s s' : Tasks) : Type 0 where
  pub takes : IsTaken i s s'
  pub table : IsProcessTable s'
  pub heads :
      s'.system.highest_terminal_processes
      ≡ update s.system.highest_terminal_processes ((console s).curr_terminal - 1) (i + 1)
  pub parent : (s'.tasks (i + 1)).parent_task ≡ highest (console s).curr_terminal s
  pub others : (p : ℕ) → p ≢ i + 1 → s'.tasks p ≡ s.tasks p
  pub files : IsOpenTable (s'.system.pcbs (i + 1))
  pub other_files : (p : ℕ) → p ≢ i + 1 → s'.system.pcbs p ≡ s.system.pcbs p
  pub page : s'.mapped ≡ i + 1
  pub shown : (console s').curr_terminal ≡ (console s).curr_terminal
  pub scheduled : (console s').curr_scheduled ≡ (console s).curr_scheduled
  pub stack :
      ((s'.tasks (i + 1)).esp0 ≡ 0x800000 - i * 0x2000 - 4)
      × (s'.tss_esp0 ≡ 0x800000 - i * 0x2000 - 4)

-- What the tests of `execute` look at, in their order: the command, whether fewer than six processes run,
-- what the lookup of the file returns, the first bytes of the file, the arguments, which have no end when
-- there are none, and how many bytes of the program are read.
pub record Checks : Type 0 where
  pub command : ℕ
  pub below : Bool
  pub found : ℤ
  pub header : ℕ → ℕ
  pub arguments : Option (ℕ → ℕ)
  pub count : ℕ

-- The magic number of an executable: DEL, "E", "L" and "F".
abbrev pub IsElf : (ℕ → ℕ) → Type 0
IsElf header = (header 0 ≡ 0x7F) × (header 1 ≡ 69) × (header 2 ≡ 76) × (header 3 ≡ 70)

-- Why it refuses, with what it returns then.
pub data Refusal (c : Checks) : ℤ → Type 0 where
  no_command : c.command ≡ 0 → Refusal c minus_one
  full : c.command ≢ 0 → c.below ≡ false → Refusal c (pos 0)
  no_file : c.command ≢ 0 → c.below ≡ true → c.found ≡ minus_one → Refusal c minus_one
  no_program :
      c.command ≢ 0
      → c.below ≡ true
      → c.found ≢ minus_one
      → (IsElf c.header → ⊥)
      → Refusal c minus_one

pub record Passes (c : Checks) : Type 0 where
  pub has_command : c.command ≢ 0
  pub room : c.below ≡ true
  pub has_file : c.found ≢ minus_one
  pub program : IsElf c.header

pub data Executes (c : Checks) (f : Frame) (s : Tasks) (out : Control) : Type 0 where
  refuses :
      (r : ℤ) (s' : Tasks)
      → Refusal c r
      → IsSameTable s s'
      → out ≡ returned r s'
      → Executes c f s out
  unended : Passes c → c.arguments ≡ none → out ≡ endless → Executes c f s out
  leaks :
      (i : ℕ) (s' : Tasks)
      → Passes c
      → c.arguments ≢ none
      → c.count ≡ 0xFFFF_FFFF
      → IsTaken i s s'
      → out ≡ returned minus_one s'
      → Executes c f s out
  starts :
      (i : ℕ) (s' : Tasks)
      → Passes c
      → c.arguments ≡ some (s'.system.pcbs (i + 1)).args
      → c.count ≢ 0xFFFF_FFFF
      → IsStarted i s s'
      → out ≡ enters (load32 (bytes s') (f.data_block + 24)) s'
      → Executes c f s out
