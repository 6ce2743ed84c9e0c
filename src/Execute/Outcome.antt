-- ===== src/Execute/Outcome.antt =====
-- The four ways in which `execute` ends.
use operating_system_ece.Common.{
  List, [], ◌∷◌, ◌∙◌, ℕ, ◌+◌, ◌≤◌, ◌≡◌, refl, arith, Bool, true, false, not, ◌==◌, ==_iff, ◌≢◌, ℤ,
  ◌+ℤ◌, is_zero, if_intro, pos, minus_one, ltb_ℤ, Memory, codes, load32,
}
use operating_system_ece.Screen.{Console, putc}
use operating_system_ece.Screen.Cursor.{putc-SameTerminals}
use operating_system_ece.Filesys.{read_dentry_by_name, read_data, file_size}
use operating_system_ece.Tasks.{
  Tasks, Control, returned, max_process_count, console, set_console, print_text, bytes, set_bytes,
  find_slot, map_program,
}
use operating_system_ece.Tasks.Forest.{IsProcessTable}
use operating_system_ece.Execute.{
  Frame, read_arguments, is_executable, execute, clear_array, copy_word,
}
use operating_system_ece.Execute.Ends.{
  IsSameTable, IsTaken, Checks, IsElf, no_command, full, no_file, no_program, Executes, refuses,
  unended, leaks, starts,
}
use operating_system_ece.Execute.Started.{==_not, free_below_limit, start_process-Executes}

-- What the tests of `execute` look at: the file that the command's first word names, the first 32 bytes of
-- it, the rest of the command as arguments of the lowest free slot's process, and what `read_data` returns
-- for the whole file once that process's page is in view.
abbrev pub checks : ℕ → ℕ → ℕ → Frame → Tasks → Checks
checks fuel fs command f s =
    let m0 = clear_array 32 (clear_array 32 (bytes s) f.filename) f.data_block in
    let (i, m1) = copy_word 32 m0 command f.filename 0 in
    let (r, m2) = read_dentry_by_name m1 fs f.filename f.temp in
    let inode = load32 m2 (f.temp + 36) in
    let m3 = (read_data m2 fs inode 0 f.data_block 32).1 in
    let number = find_slot max_process_count s.pcb_slots 0 + 1 in
    let m4 = bytes (map_program number (set_bytes m3 s)) in
    record {
      command = command;
      below = ltb_ℤ s.process_count (pos max_process_count);
      found = r;
      header = λ j. m3 (f.data_block + j);
      arguments = read_arguments fuel m3 command i (s.system.pcbs number).args;
      count = (read_data m4 fs inode 0 0x08048000 (file_size m4 fs inode)).0;
    }

IsSameTable-before : (s s' : Tasks) (m : Memory) → IsSameTable (set_bytes m s) s' → IsSameTable s s'
IsSameTable-before s s' m same = record {
  same_count = same.same_count;
  same_slots = same.same_slots;
  same_tasks = same.same_tasks;
  same_heads = same.same_heads;
  same_page = same.same_page;
  same_files = same.same_files;
  same_shown = same.same_shown;
  same_scheduled = same.same_scheduled;
}

IsTaken-before : (i : ℕ) (s s' : Tasks) (m : Memory) → IsTaken i (set_bytes m s) s' → IsTaken i s s'
IsTaken-before i s s' m r = record { first = r.first; slots = r.slots; count = r.count }

-- Only the processes and the terminals' heads matter, not the memory.
from_bytes :
    (c : Checks) (f : Frame) (s : Tasks) (m : Memory) (out : Control)
    → Executes c f (set_bytes m s) out
    → Executes c f s out
from_bytes c f s m out (refuses r s' why same e) =
    refuses r s' why (IsSameTable-before s s' m same) e
from_bytes c f s m out (unended pass none_left e) = unended pass none_left e
from_bytes c f s m out (leaks i s' pass args count r e) =
    leaks i s' pass args count (IsTaken-before i s s' m r) e
from_bytes c f s m out (starts i s' pass args count r e) =
    starts i s' pass args count
      (record {
        takes = IsTaken-before i s s' m r.takes;
        table = r.table;
        heads = r.heads;
        parent = r.parent;
        others = r.others;
        files = r.files;
        other_files = r.other_files;
        page = r.page;
        shown = r.shown;
        scheduled = r.scheduled;
        stack = r.stack;
      })
      e

unchanged : (s : Tasks) → IsSameTable s s
unchanged s = record {
  same_count = refl;
  same_slots = refl;
  same_tasks = refl;
  same_heads = refl;
  same_page = refl;
  same_files = refl;
  same_shown = refl;
  same_scheduled = refl;
}

print_text-SameTerminals :
    (text : List ℕ) (c : Console)
    → ((print_text text c).curr_terminal ≡ c.curr_terminal)
      × ((print_text text c).curr_scheduled ≡ c.curr_scheduled)
unfolding print_text
print_text-SameTerminals [] c = (refl, refl)
print_text-SameTerminals (x ∷ xs) c =
    let (shown, scheduled) = print_text-SameTerminals xs (putc x c) in
    let same = putc-SameTerminals x c in (shown ∙ same.0, scheduled ∙ same.1)

printed_same :
    (s : Tasks)
    → IsSameTable s (set_console (print_text (codes "MAX PROCESSES REACHED\n") (console s)) s)
printed_same s = record {
  same_count = refl;
  same_slots = refl;
  same_tasks = refl;
  same_heads = refl;
  same_page = refl;
  same_files = refl;
  same_shown = (print_text-SameTerminals _ (console s)).0;
  same_scheduled = (print_text-SameTerminals _ (console s)).1;
}

set_bytes-IsSameTable : (m : Memory) (s : Tasks) → IsSameTable s (set_bytes m s)
set_bytes-IsSameTable m s = record {
  same_count = refl;
  same_slots = refl;
  same_tasks = refl;
  same_heads = refl;
  same_page = refl;
  same_files = refl;
  same_shown = refl;
  same_scheduled = refl;
}

set_bytes-IsProcessTable :
    (m : Memory) (s : Tasks) → IsProcessTable s → IsProcessTable (set_bytes m s)
set_bytes-IsProcessTable m s v = record { forest = v.forest; count = v.count }

not-false : (b : Bool) → not b ≡ false → b ≡ true
not-false b h = ground arith

not-true : (b : Bool) → not b ≡ true → b ≡ false
not-true b h = ground arith

-- The test for -1.
minus_one_test :
    (r : ℤ)
    → (is_zero (r +ℤ pos 1) ≡ true → r ≡ minus_one) × (is_zero (r +ℤ pos 1) ≡ false → r ≢ minus_one)
unfolding ◌+ℤ◌
minus_one_test r = (λ e. ground (arith, e), λ e e'. ground (arith, e, e'))

elf_test :
    (m : Memory) (a : ℕ)
    → (is_executable m a ≡ true → IsElf (λ j. m (a + j)))
      × (is_executable m a ≡ false → IsElf (λ j. m (a + j)) → ⊥)
elf_test m a =
    let z : a + 0 ≡ a = omega arith in
    rw z (λ e. ground (arith, e), λ e (a0, a1, a2, a3). ground (arith, e))

-- `execute`, with the processes well-formed and a terminal from 1 to 3 shown, ends in one of four ways.
-- Without a command, with six processes, without a file of that name, or with a file that does not start
-- with the magic number, tested in this order, it returns -1, for six processes 0, and leaves the processes
-- as they were. Otherwise: when the command has no end within the fuel, it does not return; when
-- `read_data` gives -1 for the whole file, it returns -1 and the lowest free slot stays taken; else it
-- enters the program at the address in its header, as the process of the lowest free slot, with the rest of
-- the command as its arguments, at the head of the terminal shown, above the process that was there, and
-- the processes are well-formed again.
pub execute-Executes :
    (fuel fs command : ℕ) (f : Frame) (s : Tasks)
    → IsProcessTable s
    → 1 ≤ (console s).curr_terminal
    → (console s).curr_terminal ≤ 3
    → Executes (checks fuel fs command f s) f s (execute fuel fs command f s)
unfolding execute
execute-Executes fuel fs command f s v shown shown' =
    let c = checks fuel fs command f s in
    let full_console = set_console (print_text (codes "MAX PROCESSES REACHED\n") (console s)) s in
    let m0 = clear_array 32 (clear_array 32 (bytes s) f.filename) f.data_block in
    let word = copy_word 32 m0 command f.filename 0 in
    let found = read_dentry_by_name word.1 fs f.filename f.temp in
    let inode = load32 found.1 (f.temp + 36) in
    let m3 = (read_data found.1 fs inode 0 f.data_block 32).1 in
    let P = Executes c f s in
    if_intro P (command == 0) {x = returned minus_one s}
      (λ e. refuses minus_one s (no_command ((==_iff command 0).0 e)) (unchanged s) refl)
      (λ e.
        let given : command ≢ 0 = ==_not command 0 e in
        if_intro P (not (ltb_ℤ s.process_count (pos max_process_count)))
          {x = returned (pos 0) full_console}
          (λ e'. refuses (pos 0) full_console (full given (not-true _ e')) (printed_same s) refl)
          (λ e'.
            let below = not-false _ e' in
            if_intro P (is_zero (found.0 +ℤ pos 1)) {x = returned minus_one (set_bytes found.1 s)}
              (λ e2.
                refuses minus_one _ (no_file given below ((minus_one_test found.0).0 e2))
                  (set_bytes-IsSameTable found.1 s) refl)
              (λ e2.
                let has_file = (minus_one_test found.0).1 e2 in
                if_intro P (not (is_executable m3 f.data_block))
                  {x = returned minus_one (set_bytes m3 s)}
                  (λ e3.
                    refuses minus_one _
                      (no_program given below has_file
                        ((elf_test m3 f.data_block).1 (not-true _ e3)))
                      (set_bytes-IsSameTable m3 s) refl)
                  (λ e3. from_bytes c f s m3 _ (
                    start_process-Executes f (set_bytes m3 s) (set_bytes-IsProcessTable m3 s v)
                      shown shown' c fuel fs command word.0 inode
                      (record {
                        has_command = given;
                        room = below;
                        has_file = has_file;
                        program = (elf_test m3 f.data_block).0 (not-false _ e3);
                      })
                      refl refl (free_below_limit s v below))))))
