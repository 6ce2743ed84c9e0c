-- ===== src/Interrupts.antt =====
-- The interrupts together: the handlers of student-distrib/idt.c, and of student-distrib/scheduler.c for the timer,
-- which the assembly enters at once.
pub mod Turns
pub mod Fairness
mod Tests
use operating_system_ece.Common.{
  ℕ, zero, suc, ◌+◌, Option, none, some, ◌>>=◌, List, [], ◌∷◌, ℤ, pos,
}
use operating_system_ece.Keyboard.{keyboard_handler}
use operating_system_ece.Pic.{send_eoi}
use operating_system_ece.Rtc.{Rtc, rtc_handler}
use operating_system_ece.Scheduler.{Scheduler, Tick, returns, shell, pit_handler}

-- The scheduler has the keyboard and the screen.
pub record Devices : Type 0 where
  pub scheduler : Scheduler
  pub rtc : Rtc

-- The clock's register C is chosen, for the read that lets it interrupt again, and the interrupt is
-- acknowledged at both controllers.
unfoldable pub rtc_interrupt : Devices → Devices
rtc_interrupt s =
    let k = s.scheduler.keyboard in
    let ports = send_eoi 8 ((0x0C, 0x70) ∷ k.console.ports) in
    record s {
      rtc = rtc_handler s.rtc;
      scheduler = record s.scheduler {
        keyboard = record k { console = record k.console { ports = ports } };
      };
    }

-- With the scan code that the controller gives.
unfoldable pub keyboard_interrupt : ℕ → Devices → Devices
keyboard_interrupt c s = record s {
  scheduler = record s.scheduler { keyboard = keyboard_handler c s.scheduler.keyboard };
}

-- What the hardware raises.
pub data Event : Type 0 where
  timer : Event
  clock : Event
  key : ℕ → Event

abbrev pub after_tick : Devices → Tick → Option Devices
after_tick s (returns s') = some (record s { scheduler = s' })
after_tick s (shell s') = none

-- One interrupt; `none` when the timer's handler goes on to start a shell.
unfoldable pub interrupt : Event → Devices → Option Devices
interrupt timer s = after_tick s (pit_handler s.scheduler)
interrupt clock s = some (rtc_interrupt s)
interrupt (key c) s = some (keyboard_interrupt c s)

-- Interrupts in the order in which they come.
unfoldable pub interrupt_each : List Event → Devices → Option Devices
interrupt_each [] s = some s
interrupt_each (e ∷ es) s = interrupt e s >>= λ s'. interrupt_each es s'
