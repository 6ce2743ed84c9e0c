-- ===== src/Idt.antt =====
-- student-distrib/idt.c and the gates of student-distrib/x86_desc.h: the interrupt descriptor table, and the
-- handlers of the exceptions. The addresses of the handlers are the linker's: `address` is an argument.
pub mod Gates
pub mod Reports
mod Tests
use operating_system_ece.Common.{
  ℕ, zero, suc, ◌+◌, ◌*◌, ◌/◌, ◌%◌, ◌^◌, ◌==◌, if◌then◌else◌, update, Option, none, some, List, [],
  ◌∷◌, codes,
}
use operating_system_ece.Screen.{Console}
use operating_system_ece.Printf.{printf2}

-- `idt_desc_t` by its fields.
pub record Gate : Type 0 where
  pub offset_15_00 : ℕ
  pub seg_selector : ℕ
  pub reserved4 : ℕ
  pub reserved3 : ℕ
  pub reserved2 : ℕ
  pub reserved1 : ℕ
  pub size : ℕ
  pub reserved0 : ℕ
  pub dpl : ℕ
  pub present : ℕ
  pub offset_31_16 : ℕ

pub data Handler : Type 0 where
  divide_err debug nmi breakpoint overflow bound invalid_opcode device_na : Handler
  double_fault coprocessor_seg_overrun invalid_tss seg_not_present : Handler
  stack_seg_fault general_protection page_fault floating_point_err : Handler
  alignment_check machine_check floating_point_exception : Handler
  system_calls_assembly rtc_assembly keyboard_assembly pit_assembly : Handler

abbrev pub kernel_cs : ℕ
kernel_cs = 0x0010

-- `SET_IDT_ENTRY` of a 32-bit address.
unfoldable pub set_idt_entry : Gate → ℕ → Gate
set_idt_entry g handler = record g {
  offset_31_16 = handler % 2 ^ 32 / 2 ^ 16;
  offset_15_00 = handler % 2 ^ 16;
}

unfoldable pub add_vector : ℕ → ℕ → ℕ → ℕ → (ℕ → Gate) → ℕ → Gate
add_vector index handler privilege type idt =
    update idt index (record (set_idt_entry (idt index) handler) {
      seg_selector = kernel_cs;
      present = 1;
      dpl = privilege;
      size = 1;
      reserved0 = 0;
      reserved1 = 1;
      reserved2 = 1;
      reserved3 = type;
      reserved4 = 0;
    })

abbrev pub u_lvl : ℕ
u_lvl = 3

abbrev pub k_lvl : ℕ
k_lvl = 0

abbrev pub code_type : ℕ
code_type = 1

abbrev pub data_type : ℕ
data_type = 0

-- The arguments of the calls of `add_vector`, the first call first.
pub record Vector : Type 0 where
  pub index : ℕ
  pub handler : Handler
  pub privilege : ℕ
  pub kind : ℕ

abbrev vector : ℕ → Handler → ℕ → ℕ → Vector
vector i h p k = record { index = i; handler = h; privilege = p; kind = k }

abbrev pub vectors : List Vector
vectors =
    vector 0 Handler.divide_err k_lvl code_type
    ∷ vector 1 Handler.debug k_lvl code_type
    ∷ vector 2 Handler.nmi k_lvl code_type
    ∷ vector 3 Handler.breakpoint u_lvl data_type
    ∷ vector 4 Handler.overflow u_lvl data_type
    ∷ vector 5 Handler.bound u_lvl data_type
    ∷ vector 6 Handler.invalid_opcode k_lvl code_type
    ∷ vector 7 Handler.device_na k_lvl code_type
    ∷ vector 8 Handler.double_fault k_lvl code_type
    ∷ vector 9 Handler.coprocessor_seg_overrun k_lvl code_type
    ∷ vector 10 Handler.invalid_tss k_lvl code_type
    ∷ vector 11 Handler.seg_not_present k_lvl code_type
    ∷ vector 12 Handler.stack_seg_fault k_lvl code_type
    ∷ vector 13 Handler.general_protection k_lvl code_type
    ∷ vector 14 Handler.page_fault k_lvl code_type
    ∷ vector 16 Handler.floating_point_err k_lvl code_type
    ∷ vector 17 Handler.alignment_check k_lvl code_type
    ∷ vector 18 Handler.machine_check k_lvl code_type
    ∷ vector 19 Handler.floating_point_exception k_lvl code_type
    ∷ vector 0x80 Handler.system_calls_assembly u_lvl 1
    ∷ vector 40 Handler.rtc_assembly k_lvl data_type
    ∷ vector 33 Handler.keyboard_assembly k_lvl data_type
    ∷ vector 32 Handler.pit_assembly k_lvl data_type
    ∷ []

unfoldable pub add_vectors : (Handler → ℕ) → List Vector → (ℕ → Gate) → ℕ → Gate
add_vectors address [] idt = idt
add_vectors address (v ∷ vs) idt =
    add_vectors address vs (add_vector v.index (address v.handler) v.privilege v.kind idt)

unfoldable pub idt_init : (Handler → ℕ) → (ℕ → Gate) → ℕ → Gate
idt_init address idt = add_vectors address vectors idt

-- What the handlers of exceptions print before they stop the machine.
unfoldable pub message : Handler → Option (List ℕ)
message Handler.divide_err = some (codes "div by zero")
message Handler.debug = some (codes "debug")
message Handler.nmi = some (codes "NMI")
message Handler.breakpoint = some (codes "breakpoint")
message Handler.overflow = some (codes "overflow error")
message Handler.bound = some (codes "out of bounds")
message Handler.invalid_opcode = some (codes "invalid opcode")
message Handler.device_na = some (codes "device not available")
message Handler.double_fault = some (codes "double fault")
message Handler.coprocessor_seg_overrun = some (codes "coprecessor segment overrun")
message Handler.invalid_tss = some (codes "invalid tss")
message Handler.seg_not_present = some (codes "segment not present")
message Handler.stack_seg_fault = some (codes "stack segment fault")
message Handler.general_protection = some (codes "general protection")
message Handler.page_fault = some (codes "page fault")
message Handler.floating_point_err = some (codes "floating point error")
message Handler.alignment_check = some (codes "alignment check")
message Handler.machine_check = some (codes "machine check")
message Handler.floating_point_exception = some (codes "floating point exception")
message _ = none

-- A handler of an exception, with its text at `format`: it prints with interrupts as they are, turns them
-- off, and never returns. The result is the console at that point.
unfoldable pub report : ℕ → ℕ → ℕ → ℕ → Console → Option Console
report fuel conv format esp s = elim (printf2 fuel conv format esp s) [
  | none ↦ none
  | some r ↦ some r.1
]
