-- ===== src/Scheduler/Tests.antt =====
-- The timer interrupt of student-distrib/scheduler.c and `vidmap` in concrete states.
use operating_system_ece.Common.{
  ◌+◌, ◌-◌, ◌*◌, ◌<◌, ◌≤◌, ◌≡◌, ◌⊎◌, refl, inl, arith, [], true, pos, minus_one, load32, memory_of,
}
use operating_system_ece.Keyboard.{initial_keyboard}
use operating_system_ece.Scheduler.{Scheduler, console, pit_handler, returns, vidmap}
use operating_system_ece.Scheduler.Rotation.{Rotated, pit_handler-Rotated}
use operating_system_ece.Scheduler.Video.{page_for, PrintsTo, pit_handler-PrintsTo, vidmap-PrintsTo}

-- Three shells run, the first terminal is shown and runs, and the second has been asked for.
abbrev start : Scheduler
start = record {
  keyboard = record (initial_keyboard (memory_of [])) { switch_flag = 2 };
  video_page = 0xB8007;
  video_directory = 0;
  program_page = 0x800087;
  user_vid_mem = 0;
  tss_esp0 = 0x7FFFFC;
  ebp = 0x7FFF00;
  esp0s = λ p. 0x801FFC - p * 0x2000;
  ebps = λ p. 0x801F00 - p * 0x2000;
  highest_terminal_processes = λ t. t + 1;
  total_terminal = 4;
  init_flag = true;
}

pit_handler-Rotated_example : (s' : Scheduler) × (pit_handler start ≡ returns s') × Rotated start s'
pit_handler-Rotated_example = pit_handler-Rotated start (omega arith)

pit_handler-PrintsTo_example :
    (s' : Scheduler) × (pit_handler start ≡ returns s')
    × ((console s').curr_terminal ≡ 2)
    × PrintsTo (page_for 2 2) s'
pit_handler-PrintsTo_example = pit_handler-PrintsTo start (omega arith)

vidmap-PrintsTo_example :
    ((0x8000000 ≤ 0x8000100)
      × (0x8000100 < 0x08400000)
      × (s' : Scheduler) × (vidmap 0x407000 0x8000100 start ≡ (pos 0, s'))
      × (load32 (console s').mem 0x8000100 ≡ 0x08400000)
      × PrintsTo (page_for 1 1) s')
    ⊎ (((0x8000100 < 0x8000000) ⊎ (0x08400000 ≤ 0x8000100))
        × (vidmap 0x407000 0x8000100 start ≡ (minus_one, start)))
vidmap-PrintsTo_example =
    vidmap-PrintsTo 0x407000 0x8000100 start (omega arith) (omega arith) (inl refl)
