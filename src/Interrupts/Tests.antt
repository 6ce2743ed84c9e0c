-- ===== src/Interrupts/Tests.antt =====
-- Keys and ticks between the timer's interrupts.
use operating_system_ece.Common.{
  ◌+◌, ◌-◌, ◌*◌, ◌≡◌, arith, [], ◌∷◌, ◌++◌, List, some, true, memory_of,
}
use operating_system_ece.Keyboard.{initial_keyboard}
use operating_system_ece.Keyboard.Invariant.{IsValid, initial_keyboard-IsValid}
use operating_system_ece.Rtc.{initial_rtc}
use operating_system_ece.Interrupts.{Devices, Event, timer, clock, key, interrupt_each}
use operating_system_ece.Interrupts.Turns.{running}
use operating_system_ece.Interrupts.Fairness.{timers, turn, interrupts-turn, every_terminal_runs}

-- Three shells run, and the first terminal is shown and runs.
abbrev start : Devices
start = record {
  scheduler = record {
    keyboard = initial_keyboard (memory_of []);
    video_page = 0xB8007;
    video_directory = 0;
    program_page = 0x800087;
    user_vid_mem = 0;
    tss_esp0 = 0x7FFFFC;
    ebp = 0x7FFF00;
    esp0s = λ p. 0x801FFC - p * 0x2000;
    ebps = λ p. 0x801F00 - p * 0x2000;
    highest_terminal_processes = λ t. t + 1;
    total_terminal = 4;
    init_flag = true;
  };
  rtc = initial_rtc;
}

-- Alt and F2, a tick of the clock, and two interrupts of the timer.
abbrev events : List Event
events = key 0x38 ∷ key 0x3C ∷ timer ∷ clock ∷ timer ∷ []

interrupts-turn_example :
    (s' : Devices) × (interrupt_each events start ≡ some s')
    × (running s' ≡ turn 1 (timers events))
    × IsValid s'.scheduler.keyboard
interrupts-turn_example =
    interrupts-turn events start (initial_keyboard-IsValid (memory_of [])) (omega arith)

every_terminal_runs_example :
    (before : List Event) × (after : List Event) × (s' : Devices) × (events ≡ before ++ after)
    × (interrupt_each before start ≡ some s')
    × (running s' ≡ 3)
unfolding timers
every_terminal_runs_example =
    every_terminal_runs events start 3 (initial_keyboard-IsValid (memory_of [])) (omega arith)
      (omega arith) (omega arith, omega arith)
