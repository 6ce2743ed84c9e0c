-- ===== src/Boot.antt =====
-- student-distrib/kernel.c: `entry`, with the segment descriptors of student-distrib/x86_desc.h. What it prints is
-- in Multiboot.antt; from there on it builds the two descriptors, fills the interrupt and page tables, and sets up
-- the controllers, the clock and the timer.
pub mod Segments
pub mod Devices
pub mod Refused
mod Tests
use operating_system_ece.Common.{
  ℕ, ◌+◌, ◌*◌, ◌/◌, ◌%◌, ◌^◌, bit_and, bit_or, Bool, true, false, Option, none, some, ◌>>=◌,
  if◌then◌else◌, List,
}
use operating_system_ece.Screen.{Console, clear, clear_buf}
use operating_system_ece.Pic.{Pic, send, i8259_init, enable_irq}
use operating_system_ece.Rtc.{Rtc, rtc_open}
use operating_system_ece.Scheduler.{pit_init}
use operating_system_ece.Idt.{Gate, Handler, idt_init}
use operating_system_ece.Paging.{Mmu, paging_init}
use operating_system_ece.Multiboot.{report_boot}

-- `seg_desc_t` by its fields.
pub record SegDesc : Type 0 where
  pub seg_lim_15_00 : ℕ
  pub base_15_00 : ℕ
  pub base_23_16 : ℕ
  pub type : ℕ
  pub sys : ℕ
  pub dpl : ℕ
  pub present : ℕ
  pub seg_lim_19_16 : ℕ
  pub avail : ℕ
  pub reserved : ℕ
  pub opsize : ℕ
  pub granularity : ℕ
  pub base_31_24 : ℕ

abbrev pub kernel_ds : ℕ
kernel_ds = 0x0018

abbrev pub kernel_tss : ℕ
kernel_tss = 0x0030

abbrev pub kernel_ldt : ℕ
kernel_ldt = 0x0038

abbrev pub tss_size : ℕ
tss_size = 104

-- `SET_LDT_PARAMS`, and `SET_TSS_PARAMS`, which has the same body, of a 32-bit address and limit.
unfoldable pub set_params : SegDesc → ℕ → ℕ → SegDesc
set_params d addr lim = record d {
  base_31_24 = addr % 2 ^ 32 / 2 ^ 24;
  base_23_16 = addr % 2 ^ 24 / 2 ^ 16;
  base_15_00 = addr % 2 ^ 16;
  seg_lim_19_16 = lim % 2 ^ 20 / 2 ^ 16;
  seg_lim_15_00 = lim % 2 ^ 16;
}

-- A local descriptor, whose fields that are not set hold what the stack held: `d`.
unfoldable pub ldt_descriptor : SegDesc → ℕ → ℕ → SegDesc
ldt_descriptor d addr lim =
    set_params
      (record d {
        granularity = 0;
        opsize = 1;
        reserved = 0;
        avail = 0;
        present = 1;
        dpl = 0;
        sys = 0;
        type = 2;
      })
      addr lim

unfoldable pub tss_descriptor : SegDesc → ℕ → ℕ → SegDesc
tss_descriptor d addr lim =
    set_params
      (record d {
        granularity = 0;
        opsize = 0;
        reserved = 0;
        avail = 0;
        seg_lim_19_16 = bit_and tss_size 0xF0000;
        present = 1;
        dpl = 0;
        sys = 0;
        type = 9;
        seg_lim_15_00 = bit_and tss_size 0xFFFF;
      })
      addr lim

-- The fields of `tss_t` that the kernel sets.
pub record Tss : Type 0 where
  pub ldt_segment_selector : ℕ
  pub ss0 : ℕ
  pub esp0 : ℕ

-- The machine: `pic` has the bytes sent to the devices, `console` those for the cursor.
pub record Machine : Type 0 where
  pub console : Console
  pub filesys_addr : ℕ
  pub ldt_desc_ptr : SegDesc
  pub tss_desc_ptr : SegDesc
  pub tss : Tss
  pub ldtr : ℕ
  pub task_register : ℕ
  pub idt : ℕ → Gate
  pub mmu : Mmu
  pub pic : Pic
  pub rtc : Rtc
  pub interrupts : Bool

-- What the linker places, and the sizes that x86_desc.S gives.
pub record Layout : Type 0 where
  pub ldt : ℕ
  pub ldt_size : ℕ
  pub tss : ℕ
  pub tss_limit : ℕ
  pub page_table : ℕ
  pub page_directory : ℕ
  pub handler : Handler → ℕ

-- What the clock's registers give back: register B, and register A twice.
pub record ClockBytes : Type 0 where
  pub register_b : ℕ
  pub first_a : ℕ
  pub second_a : ℕ

unfoldable pub clear_all : Console → Console
clear_all s = clear_buf 3 (clear_buf 2 (clear_buf 1 (clear s)))

-- The two descriptors, with the registers that name them.
unfoldable pub set_segments : Layout → SegDesc → SegDesc → Machine → Machine
set_segments l d e b = record b {
  ldt_desc_ptr = ldt_descriptor d l.ldt l.ldt_size;
  ldtr = kernel_ldt;
  tss_desc_ptr = tss_descriptor e l.tss l.tss_limit;
  tss = record { ldt_segment_selector = kernel_ldt; ss0 = kernel_ds; esp0 = 0x800000 };
  task_register = kernel_tss;
}

-- Register B with periodic interrupts on, then the rate, the clock's line, and the timer.
unfoldable pub start_clocks : ClockBytes → Pic → Rtc → Pic × Rtc
start_clocks bytes p r =
    let asked = send (bit_or bytes.register_b 0x40) 0x71 (send 0x8B 0x70 (send 0x8B 0x70 p)) in
    let (ports, r') = rtc_open bytes.first_a bytes.second_a asked.ports r in
    (pit_init (enable_irq 8 (record asked { ports = ports })), r')

-- `d` and `e` are what the stack held at the two local descriptors.
unfoldable pub bring_up : Layout → ClockBytes → SegDesc → SegDesc → Machine → Machine
bring_up l bytes d e b =
    let s = set_segments l d e b in
    let (pic, rtc) = start_clocks bytes (enable_irq 1 (i8259_init s.pic)) s.rtc in
    record s {
      idt = idt_init l.handler s.idt;
      mmu = paging_init l.page_table l.page_directory s.mmu;
      console = clear_all s.console;
      pic = pic;
      rtc = rtc;
      interrupts = true;
    }

-- `entry` returns without setting anything up, or spins with interrupts on.
pub data Entered : Type 0 where
  gives_up : Machine → Entered
  spins : Machine → Entered

-- Everything that `entry` finds: `fuel` to `literal` are those of the report.
module _ (fuel conv esp : ℕ) (literal : List ℕ → ℕ) (l : Layout) (bytes : ClockBytes)
    (d e : SegDesc) where
  unfoldable pub entry : ℕ → ℕ → Machine → Option Entered
  entry magic mbi b = do
    (going, addr, c) ← report_boot fuel conv esp literal magic mbi b.filesys_addr (clear b.console)
    (let b' : Machine = record b { console = c; filesys_addr = addr } in
        some (if going then spins (bring_up l bytes d e b') else gives_up b'))
