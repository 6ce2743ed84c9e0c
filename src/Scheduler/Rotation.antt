-- ===== src/Scheduler/Rotation.antt =====
-- The timer interrupt passes the processor on.
use operating_system_ece.Common.{
  ℕ, ◌+◌, ◌%◌, ◌<◌, ◌≡◌, ◌≢◌, refl, arith, false, ◌==◌, ==_refl, ltb, if_intro, ◌∙◌, ap,
}
use operating_system_ece.Screen.{switch_terminal, update_cursor}
use operating_system_ece.Keyboard.{Keyboard}
use operating_system_ece.Scheduler.{
  Scheduler, console, process_of, acknowledged, show_requested, map_video, run_next, pit_handler,
  returns, in_three,
}

-- What one interrupt does once the three shells run.
pub record Rotated (s s' : Scheduler) : Type 0 where
  pub next : (console s').curr_scheduled ≡ (console s).curr_scheduled % 3 + 1
  pub saved :
      let from = process_of (console s).curr_scheduled s in
      (s'.ebps from ≡ s.ebp) × (s'.esp0s from ≡ s.tss_esp0)
  pub restored :
      let from = process_of (console s).curr_scheduled s in
      let to = process_of ((console s).curr_scheduled % 3 + 1) s in
      from ≢ to → (s'.ebp ≡ s.ebps to) × (s'.tss_esp0 ≡ s.esp0s to)
  pub others :
      (p : ℕ)
      → p ≢ process_of (console s).curr_scheduled s
      → (s'.ebps p ≡ s.ebps p) × (s'.esp0s p ≡ s.esp0s p)

run_next-Rotated : (s : Scheduler) → Rotated s (run_next ((console s).curr_scheduled % 3 + 1) s)
unfolding run_next
run_next-Rotated s = record {
  next = refl;
  saved = rw (==_refl (process_of (console s).curr_scheduled s)) (refl, refl);
  restored = λ other. ground (arith, other);
  others = λ p other. ground (arith, other);
}

-- Switching the screen and mapping its page leave the processes alone.
pub record SameProcesses (s s' : Scheduler) : Type 0 where
  pub scheduled : (console s').curr_scheduled ≡ (console s).curr_scheduled
  ebp : s'.ebp ≡ s.ebp
  tss : s'.tss_esp0 ≡ s.tss_esp0
  ebps : s'.ebps ≡ s.ebps
  esp0s : s'.esp0s ≡ s.esp0s
  highest : s'.highest_terminal_processes ≡ s.highest_terminal_processes
  pub total : s'.total_terminal ≡ s.total_terminal

map_video-SameProcesses : (t : ℕ) (s : Scheduler) → SameProcesses s (map_video t s)
unfolding map_video
map_video-SameProcesses t s =
    let same : SameProcesses s s = record {
      scheduled = refl;
      ebp = refl;
      tss = refl;
      ebps = refl;
      esp0s = refl;
      highest = refl;
      total = refl;
    } in
    if_intro (SameProcesses s) (t == (console s).curr_terminal)
      (λ e. record {
        scheduled = refl;
        ebp = refl;
        tss = refl;
        ebps = refl;
        esp0s = refl;
        highest = refl;
        total = refl;
      })
      (λ e.
        if_intro (SameProcesses s) (in_three t)
          (λ e'. record {
            scheduled = refl;
            ebp = refl;
            tss = refl;
            ebps = refl;
            esp0s = refl;
            highest = refl;
            total = refl;
          })
          (λ e'. same))

pub show_requested_scheduled :
    (k : Keyboard) → (show_requested k).console.curr_scheduled ≡ k.console.curr_scheduled
unfolding show_requested switch_terminal update_cursor
show_requested_scheduled k = ground arith

Rotated-same : (s s2 s' : Scheduler) → SameProcesses s s2 → Rotated s2 s' → Rotated s s'
Rotated-same s s2 s' q r = record {
  next = r.next ∙ ap (λ (c : ℕ). c % 3 + 1) (q.scheduled);
  saved = rw (q.scheduled, q.highest, q.ebp, q.tss) at (r.saved);
  restored = λ other.
      rw (q.scheduled, q.highest, q.ebps, q.esp0s) at
        (r.restored (rw (q.scheduled, q.highest) other));
  others = λ p other. rw (q.ebps, q.esp0s) at (r.others p (rw (q.scheduled, q.highest) other));
}

-- The state that the handler's last part starts from.
abbrev pub prepared : Scheduler → Scheduler
prepared s =
    let s0 = acknowledged s in
    let s1 = record s0 { keyboard = show_requested s0.keyboard } in
    map_video ((console s1).curr_scheduled % 3 + 1) s1

pub prepared-SameProcesses : (s : Scheduler) → SameProcesses s (prepared s)
prepared-SameProcesses s =
    let s0 = acknowledged s in
    let s1 : Scheduler = record s0 { keyboard = show_requested s0.keyboard } in
    let r = map_video-SameProcesses ((console s1).curr_scheduled % 3 + 1) s1 in
    record {
      scheduled = r.scheduled ∙ show_requested_scheduled s0.keyboard;
      ebp = r.ebp;
      tss = r.tss;
      ebps = r.ebps;
      esp0s = r.esp0s;
      highest = r.highest;
      total = r.total;
    }

-- The timer interrupt, once the three shells run, returns. The terminals run in turn: the registers of
-- the process that ran are kept in its block, those of the next terminal's process, if that is another
-- one, come from its own block, and no other block changes.
pub pit_handler-Rotated :
    (s : Scheduler)
    → 3 < s.total_terminal
    → (s' : Scheduler) × (pit_handler s ≡ returns s') × Rotated s s'
unfolding pit_handler
pit_handler-Rotated s started =
    let p = prepared-SameProcesses s in
    let k = show_requested_scheduled (acknowledged s).keyboard in
    let early : ltb s.total_terminal 3 ≡ false = ground arith in
    let fourth : (s.total_terminal == 3) ≡ false = ground arith in
    (
      run_next ((console (prepared s)).curr_scheduled % 3 + 1) (prepared s),
      rw (p.scheduled, p.total, early, fourth, k) refl,
      Rotated-same s (prepared s) _ p (run_next-Rotated (prepared s)),
    )
