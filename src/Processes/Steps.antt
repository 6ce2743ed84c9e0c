-- ===== src/Processes/Steps.antt =====
-- What one step keeps of the processes.
use operating_system_ece.Common.{
  ℤ, update, ==_refl, ◌==◌, ℕ, ◌+◌, ◌-◌, ◌<◌, ◌≡◌, ◌≢◌, refl, sym, ap, subst, ◌∙◌, arith, Bool,
  true, false,
}
use native.Mathlib.Decide.{ℕ_discrete}
use operating_system_ece.Tasks.{
  Task, Tasks, Control, returned, enters, resumes, endless, lost, console, highest,
}
use operating_system_ece.Tasks.Forest.{
  IsAlive, IsForest, IsProcessTable, IsAlive-back, IsAlive-before,
}
use operating_system_ece.Execute.{Frame, execute}
use operating_system_ece.Execute.Outcome.{execute-Executes}
use operating_system_ece.Execute.Ends.{
  refuses, unended, leaks, starts, IsStarted, IsSameTable, IsTaken,
}
use operating_system_ece.Halt.{halt}
use operating_system_ece.Halt.Closing.{HasTables, Less-HasTables}
use operating_system_ece.Halt.Resumed.{
  IsGone, Resumes, goes_on, halt-Resumes, restarts, halt-Restarts,
}
use operating_system_ece.Processes.{HasTerminals, LeavesProcesses, Next}

-- The processes are well-formed, and so are the terminals and the descriptors of what runs.
pub record IsKernelState (s : Tasks) : Type 0 where
  pub table : IsProcessTable s
  pub terminals : HasTerminals s
  pub tabled : (p : ℕ) → IsAlive s.pcb_slots p → HasTables (s.system.pcbs p)

abbrev has_entered : Control → Bool
has_entered (enters e s) = true
has_entered (returned r s) = false
has_entered (resumes status esp ebp s) = false
has_entered endless = false
has_entered lost = false

abbrev has_returned : Control → Bool
has_returned (returned r s) = true
has_returned (enters e s) = false
has_returned (resumes status esp ebp s) = false
has_returned endless = false
has_returned lost = false

-- The state at the end, or `d` if there is none.
abbrev end_state : Tasks → Control → Tasks
end_state d (enters e s) = s
end_state d (returned r s) = s
end_state d (resumes status esp ebp s) = s
end_state d endless = d
end_state d lost = d

true≢false : true ≢ false
true≢false e = ground arith

module _ (s : Tasks) (k : IsKernelState s) where
  started-IsKernelState : (i : ℕ) (s' : Tasks) → IsStarted i s s' → IsKernelState s'
  started-IsKernelState i s' r = record {
    table = r.table;
    terminals = record {
      shown = rw r.shown k.terminals.shown;
      scheduled = rw r.scheduled k.terminals.scheduled;
    };
    tabled = λ p a. elim (ℕ_discrete p (i + 1)) [
      | yes new ↦ rw new r.files.tables
      | no old ↦ rw (r.other_files p old) (
          k.tabled p (
            IsAlive-back s.pcb_slots i p
              (subst (λ (slots : ℕ → ℕ). IsAlive slots p) r.takes.slots a) old))
    ];
  }

  gone-IsKernelState :
      (parent : ℕ) (s' : Tasks)
      → highest (console s).curr_scheduled s ≢ 0
      → IsGone (highest (console s).curr_scheduled s) parent s s'
      → IsKernelState s'
  gone-IsKernelState parent s' running g = record {
    table = g.table;
    terminals = record {
      shown = rw g.shown k.terminals.shown;
      scheduled = rw g.scheduled k.terminals.scheduled;
    };
    tabled = λ p a. Less-HasTables (s.system.pcbs p) (s'.system.pcbs p) (g.files p) (
        k.tabled p
          (IsAlive-before s.pcb_slots (highest (console s).curr_scheduled s - 1) p
            (subst (λ (slots : ℕ → ℕ). IsAlive slots p) g.slots a)).0);
  }

  -- In a state of the kernel, a process that has a parent and halts goes back to it.
  pub halting :
      (fuel fs shell : ℕ) (f : Frame) (status : ℕ)
      → highest (console s).curr_scheduled s ≢ 0
      → (s.tasks (highest (console s).curr_scheduled s)).parent_task ≢ 0
      → Resumes (highest (console s).curr_scheduled s) status s (halt fuel fs shell f status s)
  halting fuel fs shell f status running above =
      let (low, high) = k.terminals.scheduled in
      let lt : (console s).curr_scheduled - 1 < 3 = omega arith in
      halt-Resumes s k.table low high running fuel fs shell f status
        (k.tabled _ (k.table.forest.heads _ lt running)) above

  -- In a state of the kernel, an `execute` that enters a program leaves one.
  entering :
      (fuel fs command entry : ℕ) (f : Frame) (s' : Tasks)
      → execute fuel fs command f s ≡ enters entry s'
      → IsKernelState s'
  entering fuel fs command entry f s' e =
      let (low, high) = k.terminals.shown in
      elim (execute-Executes fuel fs command f s k.table low high) [
        | refuses r t why same e' ↦ absurd (true≢false (ap has_entered (sym e ∙ e')))
        | unended pass ends e' ↦ absurd (true≢false (ap has_entered (sym e ∙ e')))
        | leaks i t pass args count took e' ↦ absurd (true≢false (ap has_entered (sym e ∙ e')))
        | starts i t pass args count r e' ↦
            subst IsKernelState (ap (end_state s) (sym e' ∙ e)) (started-IsKernelState i t r)
      ]

-- When `halt` enters a program, its `execute` of the shell does.
shell_entered :
    (process status entry : ℕ) (s' : Tasks) (shell : Control)
    → (elim shell [
      | returned r t ↦ resumes status (t.tasks process).esp (t.tasks process).ebp t
      | other ↦ other
    ])
      ≡ enters entry s'
    → shell ≡ enters entry s'
shell_entered process status entry s' (returned r t) e =
    absurd (true≢false (ap has_entered (sym e)))
shell_entered process status entry s' (enters n t) e = e
shell_entered process status entry s' (resumes st esp ebp t) e = e
shell_entered process status entry s' endless e = e
shell_entered process status entry s' lost e = e

-- A forest looks only at the numbers and the parents.
same-IsForest :
    (head : ℕ → ℕ) (tasks tasks' : ℕ → Task) (slots : ℕ → ℕ)
    → ((p : ℕ) → (tasks' p).parent_task ≡ (tasks p).parent_task)
    → ((p : ℕ) → (tasks' p).process_num ≡ (tasks p).process_num)
    → IsForest head tasks slots
    → IsForest head tasks' slots
same-IsForest head tasks tasks' slots parent number v = record {
  heads = v.heads;
  distinct = v.distinct;
  parents = λ p a. rw (parent p) (v.parents p a);
  single = λ p q a b. rw (parent p, parent q) (v.single p q a b);
  leaves = λ p t a lt set. rw (parent p) (v.leaves p t a lt set);
  numbers = λ p a. number p ∙ v.numbers p a;
}

module _ (s : Tasks) (k : IsKernelState s) where
  left_alone-IsKernelState : (s' : Tasks) → LeavesProcesses s s' → IsKernelState s'
  left_alone-IsKernelState s' l = record {
    table = record {
      forest =
          rw (l.heads, l.slots)
            (same-IsForest _ s.tasks s'.tasks _ l.parents l.numbers k.table.forest);
      count = rw (l.count, l.slots) k.table.count;
    };
    terminals = l.terminals;
    tabled = λ p a. l.tables p (k.tabled p (subst (λ (slots : ℕ → ℕ). IsAlive slots p) l.slots a));
  }

  same_table-IsKernelState : (s' : Tasks) → IsSameTable s s' → IsKernelState s'
  same_table-IsKernelState s' same = left_alone-IsKernelState s' (record {
    count = same.same_count;
    slots = same.same_slots;
    heads = same.same_heads;
    parents = λ p. rw same.same_tasks refl;
    numbers = λ p. rw same.same_tasks refl;
    terminals = record {
      shown = rw same.same_shown k.terminals.shown;
      scheduled = rw same.same_scheduled k.terminals.scheduled;
    };
    tables = λ p h. rw same.same_files h;
  })

  -- The slot that a failed `execute` keeps was free.
  not-taken : (i : ℕ) (s' : Tasks) → IsTaken i s s' → ¬ (s'.pcb_slots ≡ s.pcb_slots)
  not-taken i s' took same =
      let one : update s.pcb_slots i 1 i ≡ s.pcb_slots i =
        ap (λ (g : ℕ → ℕ). g i) (sym took.slots ∙ same) in
      let here : (i == i) ≡ true = ==_refl i in
      let zero_here = took.first.free in
      let full : 1 ≡ s.pcb_slots i = rw here at one in
      absurd (let no : 1 ≢ 0 = omega arith in no (full ∙ zero_here))

  failing :
      (fuel fs command : ℕ) (r : ℤ) (f : Frame) (s' : Tasks)
      → execute fuel fs command f s ≡ returned r s'
      → s'.pcb_slots ≡ s.pcb_slots
      → IsKernelState s'
  failing fuel fs command r f s' e slots =
      let (low, high) = k.terminals.shown in
      elim (execute-Executes fuel fs command f s k.table low high) [
        | refuses r' t why same e' ↦
            subst IsKernelState (ap (end_state s) (sym e' ∙ e)) (same_table-IsKernelState t same)
        | unended pass ends e' ↦ absurd (true≢false (ap has_returned (sym e ∙ e')))
        | leaks i t pass args count took e' ↦
            let at_end : t ≡ s' = ap (end_state s) (sym e' ∙ e) in
            absurd (not-taken i t took (ap (λ (x : Tasks). x.pcb_slots) at_end ∙ slots))
        | starts i t pass args count r' e' ↦ absurd (true≢false (ap has_returned (sym e ∙ e')))
      ]

  pub Next-IsKernelState : (s' : Tasks) → Next s s' → IsKernelState s'
  Next-IsKernelState s' (Next.starts fuel fs command entry f e) =
      entering s k fuel fs command entry f s' e
  Next-IsKernelState s' (Next.halts fuel fs shell status esp ebp f running above e) =
      elim (halting s k fuel fs shell f status running above) [
        | goes_on t g page stack e' ↦
            subst IsKernelState (ap (end_state s) (sym e' ∙ e))
              (gone-IsKernelState s k _ t running g)
      ]
  Next-IsKernelState s' (Next.restarts fuel fs shell status entry f running bottom same e) =
      let (low, high) = k.terminals.scheduled in
      let p = highest (console s).curr_scheduled s in
      let lt : (console s).curr_scheduled - 1 < 3 = omega arith in
      elim (halt-Restarts s k.table low high running fuel fs shell f status
        (k.tabled _ (k.table.forest.heads _ lt running)) bottom same) [
          | restarts s2 g e' ↦
              entering s2 (gone-IsKernelState s k 0 s2 running g) fuel fs shell entry f s'
                (shell_entered p status entry s' (execute fuel fs shell f s2) (sym e' ∙ e))
        ]
  Next-IsKernelState s' (Next.others l) = left_alone-IsKernelState s' l
  Next-IsKernelState s' (Next.fails fuel fs command r f e slots) =
      failing fuel fs command r f s' e slots
