-- ===== src/Halt/RoundTrip.antt =====
-- A program that `execute` started and that halts at once.
use operating_system_ece.Common.{
  ℕ, ◌+◌, ◌-◌, ◌≤◌, ◌≡◌, ◌≢◌, sym, subst, ◌∙◌, arith, update, pos_add, pos_sub,
}
use native.Mathlib.Decide.{ℕ_discrete}
use operating_system_ece.Tasks.{Tasks, resumes, console, highest}
use operating_system_ece.Tasks.Slots.{taken}
use operating_system_ece.Tasks.Forest.{IsProcessTable}
use operating_system_ece.Execute.{Frame}
use operating_system_ece.Execute.Ends.{IsStarted}
use operating_system_ece.Halt.{halt}
use operating_system_ece.Halt.Closing.{HasTables}
use operating_system_ece.Halt.Resumed.{IsGone, Resumes, goes_on, halt-Resumes}

-- The slots, the heads, and the count are those of `s`.
pub record IsBack (s s' : Tasks) : Type 0 where
  pub slots : (i : ℕ) → s'.pcb_slots i ≡ s.pcb_slots i
  pub heads :
      (t : ℕ) → s'.system.highest_terminal_processes t ≡ s.system.highest_terminal_processes t
  pub count : s'.process_count ≡ s.process_count
  pub page : s'.mapped ≡ highest (console s).curr_terminal s

back_and_forth : (f : ℕ → ℕ) (i v w : ℕ) → w ≡ f i → (j : ℕ) → update (update f i v) i w j ≡ f j
back_and_forth f i v w e j = elim (ℕ_discrete j i) [
  | yes same ↦ rw same (let b : update (update f i v) i w i ≡ f i = ground arith in b)
  | no other ↦ ground arith
]

module _ (s s1 : Tasks) (i : ℕ) (v : IsProcessTable s) (r : IsStarted i s s1)
    (shown : 1 ≤ (console s).curr_terminal) (shown' : (console s).curr_terminal ≤ 3)
    (scheduled : (console s1).curr_scheduled ≡ (console s).curr_terminal) where
  new_head : highest (console s1).curr_scheduled s1 ≡ i + 1
  new_head =
      let t = (console s).curr_terminal - 1 in
      rw (scheduled, r.heads)
        (let b : update s.system.highest_terminal_processes t (i + 1) t ≡ i + 1 = ground arith in b)

  gone-IsBack :
      (s2 : Tasks)
      → IsGone (i + 1) (s1.tasks (i + 1)).parent_task s1 s2
      → s2.mapped ≡ (s1.tasks (i + 1)).parent_task
      → IsBack s s2
  gone-IsBack s2 g page = record {
    slots = λ j.
        let e : i + 1 - 1 ≡ i = omega arith in
        rw (g.slots, e, r.takes.slots)
          (back_and_forth s.pcb_slots i 1 0 (sym r.takes.first.free) j);
    heads = λ t.
        rw (g.heads, scheduled, r.heads)
          (back_and_forth s.system.highest_terminal_processes ((console s).curr_terminal - 1)
            (i + 1) _ r.parent t);
    count =
        let n = taken 6 s.pcb_slots 0 in
        rw (g.count, r.takes.count, v.count, pos_add n 1) (pos_sub n 1);
    page = page ∙ r.parent;
  }

  -- When `execute` has started a process in a terminal that has one and that is scheduled, `halt` with any
  -- status gives the processes their slots, heads and count back, and the page of the one that called.
  pub execute_halt :
      (fuel fs shell : ℕ) (f : Frame) (status : ℕ)
      → highest (console s).curr_terminal s ≢ 0
      → (s2 : Tasks) × IsBack s s2
        × (halt fuel fs shell f status s1
            ≡ resumes status (s1.tasks (i + 1)).esp (s1.tasks (i + 1)).ebp s2)
  execute_halt fuel fs shell f status caller =
      let run : highest (console s1).curr_scheduled s1 ≢ 0 = omega (arith, new_head) in
      let ok = subst (λ p. HasTables (s1.system.pcbs p)) (sym new_head) r.files.tables in
      let above : (s1.tasks (highest (console s1).curr_scheduled s1)).parent_task ≢ 0 =
        subst (λ p. (s1.tasks p).parent_task ≢ 0) (sym new_head) (λ z. caller (sym r.parent ∙ z)) in
      let h =
        halt-Resumes s1 r.table
          (let a : 1 ≤ (console s1).curr_scheduled = omega (arith, scheduled) in a)
          (let a : (console s1).curr_scheduled ≤ 3 = omega (arith, scheduled) in a) run fuel fs
          shell f status ok above in
      elim (subst (λ p. Resumes p status s1 (halt fuel fs shell f status s1)) new_head h) [
        | goes_on s2 g page stack e ↦ (s2, gone-IsBack s2 g page, e)
      ]
