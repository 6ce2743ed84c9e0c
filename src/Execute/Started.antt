-- ===== src/Execute/Started.antt =====
-- What `execute` leaves of the processes: a new one at the head of the terminal, or the same as before.
use operating_system_ece.Common.{
  ℕ, ◌+◌, ◌-◌, ◌*◌, ◌≤◌, ◌<◌, ◌≡◌, ◌≢◌, refl, arith, true, false, ◌==◌, ==_refl, ==_iff, ==_false,
  if_intro, sym, ◌∙◌, update, pos, ◌+ℤ◌, pos_add, ltb_ℤ, ap, subst, Memory, load32, Option, none,
  some,
}
use operating_system_ece.Files.Descriptors.{init_files-IsOpenTable}
use operating_system_ece.Files.{init_files}
use operating_system_ece.Filesys.{read_data, file_size}
use operating_system_ece.Tasks.{
  Tasks, endless, max_process_count, console, bytes, set_bytes, highest, find_slot, map_program,
}
use operating_system_ece.Tasks.Slots.{IsFirst, taken, taken-update, find_slot-IsFirst}
use operating_system_ece.Tasks.Forest.{IsProcessTable, grow}
use operating_system_ece.Execute.{
  Frame, take_slot, set_up, load_program, start_process, read_arguments,
}
use operating_system_ece.Execute.Ends.{IsStarted, Checks, Passes, Executes, unended, leaks, starts}

some_not_none : (args : ℕ → ℕ) → some args ≢ none
some_not_none args e = ground arith

pub ==_not : (m n : ℕ) → (m == n) ≡ false → m ≢ n
==_not m n h e = ground (arith, h, e)

-- The count is that of the slots, so one is free below the limit.
pub free_below_limit :
    (s : Tasks)
    → IsProcessTable s
    → ltb_ℤ s.process_count (pos max_process_count) ≡ true
    → taken 6 s.pcb_slots 0 < 6
free_below_limit s v h =
    let c : ltb_ℤ (pos (taken 6 s.pcb_slots 0)) (pos 6) ≡ true =
      subst (λ c. ltb_ℤ c (pos 6) ≡ true) (v.count) h in
    ground arith

pub count_taken :
    (s : Tasks) (i : ℕ)
    → IsProcessTable s
    → i < 6
    → s.pcb_slots i ≡ 0
    → s.process_count +ℤ pos 1 ≡ pos (taken 6 (update s.pcb_slots i 1) 0)
count_taken s i v lt free =
    let more = taken-update s.pcb_slots i 1 6 0 (omega arith) lt in
    let sum : taken 6 s.pcb_slots 0 + 1 ≡ taken 6 (update s.pcb_slots i 1) 0 =
      ground (arith, more, free) in
    rw (v.count, pos_add (taken 6 s.pcb_slots 0) 1) (ap pos sum)

module _ (f : Frame) (s : Tasks) (v : IsProcessTable s) (shown : 1 ≤ (console s).curr_terminal)
    (shown' : (console s).curr_terminal ≤ 3) where
  -- Setting up the process of the lowest free slot, once that is taken and its page is in view.
  pub set_up-IsStarted :
      (i entry : ℕ) (args : ℕ → ℕ) (m : Memory) (r : IsFirst 6 s.pcb_slots 0 i)
      → IsStarted i s (
          set_up i entry f (
            set_bytes m (
              map_program (i + 1) (record (take_slot i s) {
                system = record s.system {
                  pcbs =
                      update s.system.pcbs (i + 1) (record (s.system.pcbs (i + 1)) { args = args });
                };
              }))))
  unfolding set_up map_program take_slot
  set_up-IsStarted i entry args m r =
      let same : i + 1 == i + 1 ≡ true = ==_refl (i + 1) in
      let t = (console s).curr_terminal - 1 in
      record {
        takes = record { first = r; slots = refl; count = refl };
        table = record {
          forest =
              grow s.system.highest_terminal_processes s.tasks s.pcb_slots v.forest t i
                (record {
                  process_num = i + 1;
                  parent_task = highest (console s).curr_terminal s;
                  eip = entry;
                  esp = f.esp;
                  ebp = f.ebp;
                  esp0 = 0x800000 - i * 0x2000 - 4;
                })
                (let lt : t < 3 = omega arith in lt) (r.below) (r.free) refl refl;
          count = count_taken s i v (r.below) (r.free);
        };
        heads = refl;
        parent = rw same refl;
        other_files = λ p h. let miss : (p == i + 1) ≡ false = ==_false p (i + 1) h in rw miss refl;
        others = λ p h. let miss : (p == i + 1) ≡ false = ==_false p (i + 1) h in rw miss refl;
        files = rw same (init_files-IsOpenTable (record (s.system.pcbs (i + 1)) { args = args }));
        page = refl;
        shown = refl;
        scheduled = refl;
        stack = (rw same refl, refl);
      }

  load_program-Executes :
      (c : Checks) (fs i inode : ℕ) (args : ℕ → ℕ)
      → Passes c
      → c.arguments ≡ some args
      → c.count ≡ (
          let m = bytes (map_program (i + 1) s) in
          (read_data m fs inode 0 0x08048000 (file_size m fs inode)).0)
      → IsFirst 6 s.pcb_slots 0 i
      → Executes c f s (load_program fs i inode args f (take_slot i s))
  unfolding load_program map_program take_slot set_up init_files
  load_program-Executes c fs i inode args pass has_args counted r =
      let s1 = map_program (i + 1) (record (take_slot i s) {
        system = record s.system {
          pcbs = update s.system.pcbs (i + 1) (record (s.system.pcbs (i + 1)) { args = args });
        };
      }) in
      let m0 = bytes (map_program (i + 1) s) in
      let (count, m) = read_data m0 fs inode 0 0x08048000 (file_size m0 fs inode) in
      let entry = load32 m (f.data_block + 24) in
      let same : i + 1 == i + 1 ≡ true = ==_refl (i + 1) in
      if_intro (Executes c f s) (count == 0xFFFF_FFFF)
        (λ e.
          leaks i (set_bytes m s1) pass (λ e'. some_not_none args (sym has_args ∙ e'))
            (counted ∙ (==_iff count 0xFFFF_FFFF).0 e)
            (record { first = r; slots = refl; count = refl }) refl)
        (λ e.
          starts i (set_up i entry f (set_bytes m s1)) pass (rw same has_args)
            (λ e'. ==_not count 0xFFFF_FFFF e (sym counted ∙ e'))
            (set_up-IsStarted i entry args m r) refl)

  -- From the search for a slot on, with a slot free.
  pub start_process-Executes :
      (c : Checks) (fuel fs command i inode : ℕ)
      → Passes c
      → c.arguments
        ≡ read_arguments fuel
            (bytes s)
            command
            i
            (s.system.pcbs (find_slot max_process_count s.pcb_slots 0 + 1)).args
      → c.count ≡ (
          let m = bytes (map_program (find_slot max_process_count s.pcb_slots 0 + 1) s) in
          (read_data m fs inode 0 0x08048000 (file_size m fs inode)).0)
      → taken 6 s.pcb_slots 0 < 6
      → Executes c f s (start_process fuel fs command i inode f s)
  unfolding start_process take_slot
  start_process-Executes c fuel fs command i inode pass args counted room =
      let index = find_slot max_process_count s.pcb_slots 0 in
      let s' = take_slot index s in
      elim (read_arguments fuel (bytes s) command i (s.system.pcbs (index + 1)).args)
          as (λ (o : Option (ℕ → ℕ)).
            c.arguments ≡ o
            → Executes c f s
                (elim o [ none ↦ endless | some args ↦ load_program fs index inode args f s' ])) [
                  | none ↦ λ e. unended pass e refl
                  | some args ↦ λ e.
                      load_program-Executes c fs index inode args pass e counted
                        (find_slot-IsFirst 6 s.pcb_slots 0 room)
                ]
        args
