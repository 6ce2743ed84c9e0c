-- ===== src/Boot/Devices.antt =====
-- The machine that `entry` leaves when it spins.
use operating_system_ece.Common.{
  ℕ, ◌+◌, ◌*◌, ◌^◌, ◌<◌, ◌≤◌, ◌≡◌, ◌⊎◌, inl, refl, ◌∙◌, arith, true, List,
}
use mathlib.Core.List.{Memᴰ}
use operating_system_ece.Screen.{Console, clear, clear_buf, blank_cells}
use operating_system_ece.Screen.Cells.{blanked, blank_cells-blanked}
use operating_system_ece.Pic.{Pic, i8259_init, enable_irq}
use operating_system_ece.Pic.Masks.{bit}
use operating_system_ece.Rtc.{Rtc, rtc_open}
use operating_system_ece.Scheduler.{pit_init}
use operating_system_ece.Idt.{Handler, Vector, vectors}
use operating_system_ece.Idt.Gates.{IsGateOf, idt_init-IsGateOf}
use operating_system_ece.Boot.{
  SegDesc, Machine, Layout, ClockBytes, kernel_tss, kernel_ldt, clear_all, set_segments,
  start_clocks, bring_up,
}
use operating_system_ece.Boot.Segments.{
  IsSystemSegment, ldt_descriptor-IsSystemSegment, tss_descriptor-IsSystemSegment,
}

-- The lines of the timer, the keyboard, the second controller and the clock are open.
abbrev pub AreOpen : Pic → Type 0
AreOpen p =
    (bit p.master_mask 0 ≡ 0)
    × (bit p.master_mask 1 ≡ 0)
    × (bit p.master_mask 2 ≡ 0)
    × (bit p.slave_mask 0 ≡ 0)

-- The masks hardly depend on those before: each `enable_irq` starts from the number of the port.
start_clocks-AreOpen : (bytes : ClockBytes) (p : Pic) (r : Rtc) → AreOpen (start_clocks bytes p r).0
unfolding start_clocks pit_init enable_irq
start_clocks-AreOpen bytes p r = (refl, refl, refl, refl)

-- A page of blanks: spaces in the one attribute.
abbrev pub IsBlankPage : Console → ℕ → Type 0
IsBlankPage s page =
    (i : ℕ) → i < 2000 → (s.mem (page + 2 * i) ≡ 32) × (s.mem (page + 2 * i + 1) ≡ 0x0A)

-- The page at `page` among the four cleared ones.
IsBlankPage-clear :
    (s s' : Console) (page : ℕ)
    → ((a : ℕ) → s'.mem a ≡ blanked s.mem page 0 2000 a)
    → IsBlankPage s' page
IsBlankPage-clear s s' page h i lt =
    (h (page + 2 * i) ∙ ground arith, h (page + 2 * i + 1) ∙ ground arith)

IsBlankPage-keep :
    (s s' : Console) (page other : ℕ)
    → ((a : ℕ) → s'.mem a ≡ blanked s.mem other 0 2000 a)
    → (page + 4000 ≤ other) ⊎ (other + 4000 ≤ page)
    → IsBlankPage s page
    → IsBlankPage s' page
IsBlankPage-keep s s' page other h away blank i lt =
    let (even, odd) = blank i lt in
    (h (page + 2 * i) ∙ ground arith, h (page + 2 * i + 1) ∙ ground arith)

cleared_page :
    (s : Console) (page : ℕ)
    → (let m = blank_cells 2000 s.mem page 0 in (a : ℕ) → m a ≡ blanked s.mem page 0 2000 a)
cleared_page s page a = blank_cells-blanked 2000 s.mem page 0 2000 a refl

-- The displayed page and the three behind it are blank.
pub record AreBlank (s : Console) : Type 0 where
  pub shown : IsBlankPage s 0xB8000
  pub behind1 : IsBlankPage s 0xB9000
  pub behind2 : IsBlankPage s 0xBA000
  pub behind3 : IsBlankPage s 0xBB000

clear_all-AreBlank : (s : Console) → AreBlank (clear_all s)
unfolding clear_all clear clear_buf
clear_all-AreBlank s =
    let s0 : Console = clear s in
    let s1 : Console = clear_buf 1 s0 in
    let s2 : Console = clear_buf 2 s1 in
    let s3 : Console = clear_buf 3 s2 in
    let at0 = cleared_page s 0xB8000 in
    let at1 = cleared_page s0 0xB9000 in
    let at2 = cleared_page s1 0xBA000 in
    let at3 = cleared_page s2 0xBB000 in
    let keep1 = IsBlankPage-keep s0 s1 0xB8000 0xB9000 at1 (inl (omega arith)) in
    let keep2 = λ (page : ℕ). IsBlankPage-keep s1 s2 page 0xBA000 at2 in
    let keep3 = λ (page : ℕ). IsBlankPage-keep s2 s3 page 0xBB000 at3 in
    record {
      shown =
          keep3 0xB8000 (inl (omega arith))
            (keep2 0xB8000 (inl (omega arith)) (keep1 (IsBlankPage-clear s s0 0xB8000 at0)));
      behind1 =
          keep3 0xB9000 (inl (omega arith))
            (keep2 0xB9000 (inl (omega arith)) (IsBlankPage-clear s0 s1 0xB9000 at1));
      behind2 = keep3 0xBA000 (inl (omega arith)) (IsBlankPage-clear s1 s2 0xBA000 at2);
      behind3 = IsBlankPage-clear s2 s3 0xBB000 at3;
    }

-- Addresses of 32 bits, and limits of 20.
pub record Fits (l : Layout) : Type 0 where
  pub ldt : l.ldt < 2 ^ 32
  pub ldt_size : l.ldt_size < 2 ^ 20
  pub tss : l.tss < 2 ^ 32
  pub tss_limit : l.tss_limit < 2 ^ 20
  pub handler : (h : Handler) → l.handler h < 2 ^ 32

-- What the rest of the kernel relies on: the descriptors that the registers name, the stack for calls from
-- user level, a gate for every vector, open lines, a clock that ticks, blank screens, and interrupts on.
pub record IsBooted (l : Layout) (b : Machine) : Type 0 where
  pub task : IsSystemSegment l.tss l.tss_limit 9 b.tss_desc_ptr × (b.task_register ≡ kernel_tss)
  pub local : IsSystemSegment l.ldt l.ldt_size 2 b.ldt_desc_ptr × (b.ldtr ≡ kernel_ldt)
  pub kernel_stack : b.tss.esp0 ≡ 0x800000
  pub gates : (v : Vector) → Memᴰ v vectors → IsGateOf (l.handler v.handler) v (b.idt v.index)
  pub lines : AreOpen b.pic
  pub clock : b.rtc.rtc_active ≡ true
  pub screens : AreBlank b.console
  pub on : b.interrupts ≡ true

rtc_open-active :
    (first second : ℕ) (ports : List (ℕ × ℕ)) (r : Rtc)
    → (rtc_open first second ports r).1.rtc_active ≡ true
unfolding rtc_open
rtc_open-active first second ports r = ground arith

-- When the linker's addresses are of 32 bits and the limits of 20, the second half of `entry` sets up the
-- descriptors of the task and of the local table, the kernel's stack, a gate for each of the 23 vectors, the
-- lines of timer, keyboard and clock, and blank screens, and ends with interrupts on, whatever was there.
pub bring_up-IsBooted :
    (l : Layout) (bytes : ClockBytes) (d e : SegDesc) (b : Machine)
    → Fits l
    → IsBooted l (bring_up l bytes d e b)
unfolding bring_up set_segments start_clocks
bring_up-IsBooted l bytes d e b fits =
    let p : Pic = enable_irq 1 (i8259_init b.pic) in
    record {
      task = (tss_descriptor-IsSystemSegment e l.tss l.tss_limit fits.tss fits.tss_limit, refl);
      local = (ldt_descriptor-IsSystemSegment d l.ldt l.ldt_size fits.ldt fits.ldt_size, refl);
      kernel_stack = refl;
      gates = idt_init-IsGateOf l.handler fits.handler b.idt;
      lines = start_clocks-AreOpen bytes p b.rtc;
      clock = rtc_open-active bytes.first_a bytes.second_a _ b.rtc;
      screens = clear_all-AreBlank b.console;
      on = refl;
    }
