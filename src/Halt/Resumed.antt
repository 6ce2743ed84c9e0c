-- ===== src/Halt/Resumed.antt =====
-- What `halt` leaves of the processes, and that it undoes what `execute` did.
use operating_system_ece.Common.{
  ℕ, ◌+◌, ◌-◌, ◌≤◌, ◌<◌, ◌≡◌, ◌≢◌, refl, sym, subst, arith, false, ◌==◌, ==_refl, ==_iff, if_intro,
  ==_false, if◌then◌else◌, update, pos, ◌-ℤ◌, pos_sub, ltb,
}
use operating_system_ece.Files.{Pcb, max_open_files, max_args}
use operating_system_ece.Screen.{clear, set_cursors, update_cursor}
use operating_system_ece.Tasks.{
  Tasks, Control, returned, resumes, console, set_console, highest, set_highest, map_program,
}
use operating_system_ece.Tasks.Slots.{taken, taken-update}
use operating_system_ece.Tasks.Forest.{IsAlive, IsForest, IsProcessTable, shrink}
use operating_system_ece.Execute.{Frame, execute}
use operating_system_ece.Halt.{give_back, lower_counts, to_parent, restart, halt}
use operating_system_ece.Halt.Closing.{IsLess, Less, HasTables, closes_all, close_all-ClosesAll}

-- The process `process` is gone and its slot free, and the one that was `parent` is the head of the
-- terminal that is scheduled.
pub record IsGone (process parent : ℕ) (s s' : Tasks) : Type 0 where
  pub table : IsProcessTable s'
  pub slots : s'.pcb_slots ≡ update s.pcb_slots (process - 1) 0
  pub count : s'.process_count ≡ s.process_count -ℤ pos 1
  pub heads :
      s'.system.highest_terminal_processes
      ≡ update s.system.highest_terminal_processes ((console s).curr_scheduled - 1) parent
  pub tasks : s'.tasks ≡ s.tasks
  pub shown : (console s').curr_terminal ≡ (console s).curr_terminal
  pub scheduled : (console s').curr_scheduled ≡ (console s).curr_scheduled
  pub closed : (j : ℕ) → j < max_open_files → ((s'.system.pcbs process).file_array j).flags ≡ 0
  pub files : (p : ℕ) → Less (s.system.pcbs p) (s'.system.pcbs p)
  pub wiped : (j : ℕ) → j < max_args → (s'.system.pcbs process).args j ≡ 0

-- `execute` of the parent goes on, on the parent's page and with the stack that the process kept.
pub data Resumes (process status : ℕ) (s : Tasks) (out : Control) : Type 0 where
  goes_on :
      (s' : Tasks)
      → IsGone process (s.tasks process).parent_task s s'
      → s'.mapped ≡ (s.tasks process).parent_task
      → s'.tss_esp0 ≡ (s.tasks (s.tasks process).parent_task).esp0
      → out ≡ resumes status (s.tasks process).esp (s.tasks process).ebp s'
      → Resumes process status s out

-- The state that `restart` executes the shell in.
abbrev cleared_screen : Tasks → Tasks
cleared_screen s =
    let s1 = set_highest (console s).curr_terminal 0 s in
    set_console (update_cursor 0 0 (set_cursors (pos 0) (pos 0) (clear (console s1)))) s1

-- The shell is executed; should that fail, the code goes on with the halted process's stack.
pub data Restarts (process fuel fs shell : ℕ) (f : Frame) (status : ℕ) (s : Tasks) (out : Control)
    : Type 0 where
  restarts :
      (s2 : Tasks)
      → IsGone process 0 s s2
      → out ≡ elim (execute fuel fs shell f s2) [
        | returned r s' ↦ resumes status (s'.tasks process).esp (s'.tasks process).ebp s'
        | other ↦ other
      ]
      → Restarts process fuel fs shell f status s out

module _ (s : Tasks) (v : IsProcessTable s) (scheduled : 1 ≤ (console s).curr_scheduled)
    (scheduled' : (console s).curr_scheduled ≤ 3)
    (running : highest (console s).curr_scheduled s ≢ 0) where
  alive : IsAlive s.pcb_slots (highest (console s).curr_scheduled s)
  alive =
      v.forest.heads _
        (let t = (console s).curr_scheduled in let lt : t - 1 < 3 = omega arith in lt) running

  left-IsForest :
      IsForest
        (update s.system.highest_terminal_processes
          ((console s).curr_scheduled - 1)
          (s.tasks (highest (console s).curr_scheduled s)).parent_task)
        s.tasks
        (update s.pcb_slots (highest (console s).curr_scheduled s - 1) 0)
  left-IsForest =
      let p = highest (console s).curr_scheduled s in
      let t = (console s).curr_scheduled in
      let back : p - 1 + 1 ≡ p = omega arith in
      subst
        (λ q.
          IsForest (update s.system.highest_terminal_processes (t - 1) (s.tasks q).parent_task)
            s.tasks (update s.pcb_slots (p - 1) 0))
        back
        (shrink _ s.tasks s.pcb_slots v.forest (t - 1) (p - 1)
          (let lt : t - 1 < 3 = omega arith in lt) (sym back))

  left_count :
      s.process_count -ℤ pos 1
      ≡ pos (taken 6 (update s.pcb_slots (highest (console s).curr_scheduled s - 1) 0) 0)
  left_count =
      let p = highest (console s).curr_scheduled s in
      let (low, high, set) = alive in
      let less =
        taken-update s.pcb_slots (p - 1) 0 6 0 (omega arith)
          (let lt : p - 1 < 6 = omega arith in lt) in
      let sum : taken 6 s.pcb_slots 0 ≡ taken 6 (update s.pcb_slots (p - 1) 0) 0 + 1 =
        ground (arith, less, set) in
      rw (v.count, sum) (pos_sub (taken 6 (update s.pcb_slots (p - 1) 0) 0) 1)

  -- The process at the bottom of the terminal that is both scheduled and shown, whose open descriptors
  -- have tables, halts: the process is gone in the same way, and the shell is executed in its place.
  pub halt-Restarts :
      (fuel fs shell : ℕ) (f : Frame) (status : ℕ)
      → HasTables (s.system.pcbs (highest (console s).curr_scheduled s))
      → (s.tasks (highest (console s).curr_scheduled s)).parent_task ≡ 0
      → (console s).curr_terminal ≡ (console s).curr_scheduled
      → Restarts
          (highest (console s).curr_scheduled s)
          fuel
          fs
          shell
          f
          status
          s
          (halt fuel fs shell f status s)
  unfolding halt lower_counts give_back restart clear set_cursors update_cursor
  halt-Restarts fuel fs shell f status ok bottom same =
      let p = highest (console s).curr_scheduled s in
      elim (close_all-ClosesAll max_open_files p 0 s.system (omega arith) ok) [
        | closes_all d q less zeros e ↦
            let on : (p == 0) ≡ false = ==_false p 0 running in
            let s2 : Tasks = cleared_screen (
              give_back p (record (lower_counts s) {
                system = record s.system { dir_index = d; pcbs = q };
              })) in
            rw (halt, e, bottom)
              (restarts s2
                (record {
                  table = record {
                    forest = rw (on, same) (rw bottom at left-IsForest);
                    count = rw on left_count;
                  };
                  slots = rw on refl;
                  count = refl;
                  heads = rw same refl;
                  tasks = refl;
                  shown = refl;
                  scheduled = refl;
                  closed = λ j lt. rw (==_refl p) (zeros j (omega arith) (omega arith));
                  files = λ n j.
                      if_intro
                        (λ (b : Pcb). IsLess ((s.system.pcbs n).file_array j) (b.file_array j))
                        (n == p)
                        (λ e'.
                          subst (λ k. IsLess ((s.system.pcbs n).file_array j) ((q k).file_array j))
                            ((==_iff n p).0 e') (less n j))
                        (λ _. less n j);
                  wiped = λ j lt. rw (==_refl p) (
                      let z : (if ltb j max_args then 0 else (q p).args j) ≡ 0 = ground arith in z);
                })
                refl)
      ]

  -- A process that has a parent and whose open descriptors have tables halts: the parent's `execute`
  -- returns the status, on the parent's page and stack; the process's slot is free and its descriptors
  -- are closed, its arguments wiped, the count is one less, the parent is the terminal's head again,
  -- and the processes are well-formed.
  pub halt-Resumes :
      (fuel fs shell : ℕ) (f : Frame) (status : ℕ)
      → HasTables (s.system.pcbs (highest (console s).curr_scheduled s))
      → (s.tasks (highest (console s).curr_scheduled s)).parent_task ≢ 0
      → Resumes (highest (console s).curr_scheduled s) status s (halt fuel fs shell f status s)
  unfolding halt lower_counts give_back to_parent map_program
  halt-Resumes fuel fs shell f status ok above =
      let p = highest (console s).curr_scheduled s in
      let parent = (s.tasks p).parent_task in
      elim (close_all-ClosesAll max_open_files p 0 s.system (omega arith) ok) [
        | closes_all d q less zeros e ↦
            let off : (parent == 0) ≡ false = ==_false parent 0 above in
            let on : (p == 0) ≡ false = ==_false p 0 running in
            let number : (s.tasks parent).process_num ≡ parent =
              v.forest.numbers parent (v.forest.parents p alive above) in
            rw (halt, e, off)
              (goes_on _
                (record {
                  table = record {
                    forest = rw (on, number) left-IsForest;
                    count = rw on left_count;
                  };
                  slots = rw on refl;
                  count = refl;
                  heads = rw number refl;
                  tasks = refl;
                  shown = refl;
                  scheduled = refl;
                  closed = λ j lt. rw (==_refl p) (zeros j (omega arith) (omega arith));
                  files = λ n j.
                      if_intro
                        (λ (b : Pcb). IsLess ((s.system.pcbs n).file_array j) (b.file_array j))
                        (n == p)
                        (λ e'.
                          subst (λ k. IsLess ((s.system.pcbs n).file_array j) ((q k).file_array j))
                            ((==_iff n p).0 e') (less n j))
                        (λ _. less n j);
                  wiped = λ j lt. rw (==_refl p) (
                      let z : (if ltb j max_args then 0 else (q p).args j) ≡ 0 = ground arith in z);
                })
                number refl refl)
      ]
