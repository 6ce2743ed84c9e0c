-- ===== src/Scheduler/Video.antt =====
-- The page that the running terminal prints to, as the timer interrupt and `vidmap` set it.
use operating_system_ece.Common.{
  ℕ, ◌+◌, ◌%◌, ◌^◌, ◌<◌, ◌≤◌, ◌≡◌, ◌⊎◌, refl, inl, inr, arith, true, false, not, ◌||◌, Bool-cases,
  ◌==◌, ltb, if◌then◌else◌, ◌∙◌, ap, bit_or, pos, minus_one, write, load32,
}
use operating_system_ece.Screen.{Console, video, video_buf, switch_terminal, update_cursor}
use operating_system_ece.Keyboard.{Keyboard}
use operating_system_ece.Scheduler.{
  Scheduler, console, acknowledged, show_requested, map_video, run_next, pit_handler, returns,
  in_three, vidmap, video_mapped, user_address, store32,
}
use operating_system_ece.Scheduler.Rotation.{
  prepared, prepared-SameProcesses, show_requested_scheduled,
}

-- The displayed page for the terminal that is shown, and the terminal's own page for any other.
abbrev pub page_for : ℕ → ℕ → ℕ
page_for terminal shown = if terminal == shown then video else video_buf terminal

-- The kernel prints to that page, and the user's page table entry points to it.
pub record PrintsTo (page : ℕ) (s : Scheduler) : Type 0 where
  pub kernel : (console s).video_mem ≡ page
  pub user : s.video_page ≡ bit_or page 7

map_video-PrintsTo :
    (t : ℕ) (s : Scheduler)
    → 1 ≤ t
    → t ≤ 3
    → PrintsTo (page_for t (console s).curr_terminal) (map_video t s)
unfolding map_video
map_video-PrintsTo t s h h' =
    let known : in_three t ≡ true = ground arith in
    elim (Bool-cases (t == (console s).curr_terminal)) [
      | inl shown ↦ rw shown (record { kernel = refl; user = refl })
      | inr hidden ↦ rw (hidden, known) (record { kernel = refl; user = refl })
    ]

-- The terminal that is shown after the switch that was asked for, if any.
abbrev pub requested : Keyboard → ℕ
requested k = if in_three k.switch_flag then k.switch_flag else k.console.curr_terminal

show_requested_terminal : (k : Keyboard) → (show_requested k).console.curr_terminal ≡ requested k
unfolding show_requested switch_terminal update_cursor
show_requested_terminal k = ground arith

map_video_terminal :
    (t : ℕ) (s : Scheduler) → (console (map_video t s)).curr_terminal ≡ (console s).curr_terminal
unfolding map_video
map_video_terminal t s = ground arith

-- Once the three shells run, the timer interrupt shows the terminal that a function key has asked for,
-- and the terminal that runs next prints to the screen if it is the one shown, and to its own page
-- otherwise.
pub pit_handler-PrintsTo :
    (s : Scheduler)
    → 3 < s.total_terminal
    → (s' : Scheduler) × (pit_handler s ≡ returns s')
      × ((console s').curr_terminal ≡ requested s.keyboard)
      × PrintsTo (page_for ((console s).curr_scheduled % 3 + 1) (requested s.keyboard)) s'
unfolding pit_handler run_next
pit_handler-PrintsTo s started =
    let k0 = (acknowledged s).keyboard in
    let s1 : Scheduler = record (acknowledged s) { keyboard = show_requested k0 } in
    let next = (console s1).curr_scheduled % 3 + 1 in
    let early : ltb s.total_terminal 3 ≡ false = ground arith in
    let fourth : (s.total_terminal == 3) ≡ false = ground arith in
    let total = (prepared-SameProcesses s).total in
    let same : next ≡ (console s).curr_scheduled % 3 + 1 =
      ap (λ (c : ℕ). c % 3 + 1) (show_requested_scheduled k0) in
    let p = map_video-PrintsTo next s1 (omega arith) (omega arith) in
    let e : page_for next (console s1).curr_terminal
        ≡ page_for ((console s).curr_scheduled % 3 + 1) (requested s.keyboard) =
      rw (same, show_requested_terminal k0) refl in
    (
      run_next next (prepared s),
      rw (total, early, fourth) refl,
      map_video_terminal next s1 ∙ show_requested_terminal k0,
      record { kernel = p.kernel ∙ e; user = p.user ∙ ap (λ (q : ℕ). bit_or q 7) e },
    )

pointer_bad :
    (a : ℕ)
    → ((a == 0) || (ltb a 0x8000000 || not (ltb a 0x08400000))) ≡ true
    → (a < 0x8000000) ⊎ (0x08400000 ≤ a)
pointer_bad a h = ground arith

pointer_good :
    (a : ℕ)
    → ((a == 0) || (ltb a 0x8000000 || not (ltb a 0x08400000))) ≡ false
    → (0x8000000 ≤ a) × (a < 0x08400000)
pointer_good a h = ground arith

-- What was stored is what is loaded.
load32-store32 : (a v : ℕ) (c : Console) → v < 2 ^ 32 → load32 (store32 a v c).mem a ≡ v
unfolding load32 write
load32-store32 a v c h = ground arith

stored :
    (table a : ℕ) (s : Scheduler)
    → (s.user_vid_mem ≡ 0) ⊎ (s.user_vid_mem ≡ 0x08400000)
    → load32 (console (video_mapped table a s)).mem a ≡ 0x08400000
unfolding video_mapped
stored table a s user =
    let address : user_address s ≡ 0x08400000 = ground arith in
    let s1 = map_video (console s).curr_scheduled (record s { video_directory = bit_or table 7 }) in
    rw address (load32-store32 a 0x08400000 (console s1) (omega arith))

mapped-PrintsTo :
    (table a : ℕ) (s : Scheduler)
    → 1 ≤ (console s).curr_scheduled
    → (console s).curr_scheduled ≤ 3
    → PrintsTo
        (page_for (console s).curr_scheduled (console s).curr_terminal)
        (video_mapped table a s)
unfolding video_mapped
mapped-PrintsTo table a s h h' =
    let p =
      map_video-PrintsTo (console s).curr_scheduled (record s { video_directory = bit_or table 7 })
        h h' in
    record { kernel = p.kernel; user = p.user }

-- While one of the three terminals runs and `user_vid_mem` is 0 or the address of the user's video
-- page, `vidmap` with a pointer into the page of the program, from 128 MB on, returns 0: the
-- pointer then holds that address, and the running terminal prints to the screen if it is the one
-- shown, and to its own page otherwise. With any other pointer it returns -1 and changes nothing.
pub vidmap-PrintsTo :
    (table screen_start : ℕ) (s : Scheduler)
    → 1 ≤ (console s).curr_scheduled
    → (console s).curr_scheduled ≤ 3
    → (s.user_vid_mem ≡ 0) ⊎ (s.user_vid_mem ≡ 0x08400000)
    → ((0x8000000 ≤ screen_start)
        × (screen_start < 0x08400000)
        × (s' : Scheduler) × (vidmap table screen_start s ≡ (pos 0, s'))
        × (load32 (console s').mem screen_start ≡ 0x08400000)
        × PrintsTo (page_for (console s).curr_scheduled (console s).curr_terminal) s')
      ⊎ (((screen_start < 0x8000000) ⊎ (0x08400000 ≤ screen_start))
          × (vidmap table screen_start s ≡ (minus_one, s)))
unfolding vidmap
vidmap-PrintsTo table a s h h' user =
    elim (Bool-cases ((a == 0) || (ltb a 0x8000000 || not (ltb a 0x08400000)))) [
      | inl bad ↦ inr (pointer_bad a bad, rw bad refl)
      | inr good ↦
          let (low, high) = pointer_good a good in
          inl (
            low,
            high,
            video_mapped table a s,
            rw good refl,
            stored table a s user,
            mapped-PrintsTo table a s h h',
          )
    ]
