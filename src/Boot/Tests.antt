-- ===== src/Boot/Tests.antt =====
-- The second half of `entry` of student-distrib/kernel.c on a machine where nothing is set.
use operating_system_ece.Common.{
  ℕ, ◌+◌, ◌-◌, ◌<◌, ◌≤◌, ◌≡◌, ◌⊎◌, inl, refl, arith, [], false, leb, ltb, ◌&&◌, if◌then◌else◌,
  get_or, length, some, memory_of,
}
use operating_system_ece.Screen.{Console, video, initial_console, clear}
use operating_system_ece.Screen.Cursor.{initial_console-IsOnScreen}
use operating_system_ece.Printf.Returns.{Safe, Text}
use operating_system_ece.Rtc.{initial_rtc}
use operating_system_ece.Idt.{Gate}
use operating_system_ece.Boot.{SegDesc, Machine, Layout, ClockBytes, bring_up, gives_up, entry}
use operating_system_ece.Printf.{printf}
use operating_system_ece.Scheduler.{store32}
use operating_system_ece.Boot.Refused.{refusal, entry-gives_up}
use operating_system_ece.Boot.Devices.{IsBooted, bring_up-IsBooted}

abbrev no_segment : SegDesc
no_segment = record {
  seg_lim_15_00 = 0;
  base_15_00 = 0;
  base_23_16 = 0;
  type = 0;
  sys = 0;
  dpl = 0;
  present = 0;
  seg_lim_19_16 = 0;
  avail = 0;
  reserved = 0;
  opsize = 0;
  granularity = 0;
  base_31_24 = 0;
}

abbrev no_gate : Gate
no_gate = record {
  offset_15_00 = 0;
  seg_selector = 0;
  reserved4 = 0;
  reserved3 = 0;
  reserved2 = 0;
  reserved1 = 0;
  size = 0;
  reserved0 = 0;
  dpl = 0;
  present = 0;
  offset_31_16 = 0;
}

abbrev off : Machine
off = record {
  console = initial_console (memory_of []);
  filesys_addr = 0;
  ldt_desc_ptr = no_segment;
  tss_desc_ptr = no_segment;
  tss = record { ldt_segment_selector = 0; ss0 = 0; esp0 = 0 };
  ldtr = 0;
  task_register = 0;
  idt = λ i. no_gate;
  mmu = record { page_table = λ i. 0; page_directory = λ i. 0; cr0 = 1; cr3 = 0; cr4 = 0 };
  pic = record { ports = []; master_mask = 0xFF; slave_mask = 0xFF };
  rtc = initial_rtc;
  interrupts = false;
}

abbrev placed : Layout
placed = record {
  ldt = 0x40A000;
  ldt_size = 31;
  tss = 0x40B000;
  tss_limit = 104;
  page_table = 0x500000;
  page_directory = 0x501000;
  handler = λ h. 0x412345;
}

abbrev bytes : ClockBytes
bytes = record { register_b = 2; first_a = 0x26; second_a = 0x26 }

bring_up-IsBooted_example : IsBooted placed (bring_up placed bytes no_segment no_segment off)
bring_up-IsBooted_example = bring_up-IsBooted placed bytes no_segment no_segment off (record {
  ldt = omega arith;
  ldt_size = omega arith;
  tss = omega arith;
  tss_limit = omega arith;
  handler = λ h. omega arith;
})

-- The text at 0x3000.
abbrev with_text : Machine
with_text = record off {
  console =
      initial_console
        (λ a. if leb 0x3000 a && ltb a 0x301C then get_or refusal (a - 0x3000) 0 else 0);
}

refusal-Text : Text video 0x6000 with_text.console.mem 0x3000 refusal
refusal-Text = ground arith

entry-gives_up_example :
    (c : Console) × (entry 50 0x6000 0x5000
        (λ t. 0x3000)
        placed
        bytes
        no_segment
        no_segment
        7
        0
        with_text
      ≡ some (gives_up (record with_text { console = c })))
    × (printf 50 0x6000 0x3000 0x5000 (store32 0x5000 7 (clear with_text.console))
        ≡ some (length refusal, c))
    × ((a : ℕ)
        → Safe video 0x6000 a
        → (a < 0x5000) ⊎ (0x5000 + 4 ≤ a)
        → c.mem a ≡ with_text.console.mem a)
entry-gives_up_example =
    entry-gives_up 50 0x6000 0x5000 (λ t. 0x3000) placed bytes no_segment no_segment (omega arith)
      (λ j h. inl (omega arith)) 7 0 with_text (omega arith)
      (initial_console-IsOnScreen with_text.console.mem) refl refusal-Text
      (λ j h. (ground arith, (inl (omega arith), inl (omega arith)))) (inl (omega arith))
