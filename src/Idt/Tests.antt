-- ===== src/Idt/Tests.antt =====
-- The table of student-distrib/idt.c with the handlers from 0x400000 on, and the page fault's text at 100.
use operating_system_ece.Common.{ℕ, ◌≡◌, ◌≢◌, ◌⊎◌, refl, arith, [], ◌∷◌, Memory, memory_of}
use operating_system_ece.Idt.{Gate, Handler, Vector, idt_init}
use operating_system_ece.Idt.Gates.{idt_init_levels}

abbrev empty : ℕ → Gate
empty i = record {
  offset_15_00 = 0;
  seg_selector = 0;
  reserved4 = 0;
  reserved3 = 0;
  reserved2 = 0;
  reserved1 = 0;
  size = 0;
  reserved0 = 0;
  dpl = 0;
  present = 0;
  offset_31_16 = 0;
}

abbrev at_4mb : Handler → ℕ
at_4mb h = 0x412345

abbrev debug_vector : Vector
debug_vector = record { index = 1; handler = Handler.debug; privilege = 0; kind = 1 }

abbrev bound_number : ℕ
bound_number = 5

idt_init_levels_example :
    ((bound_number ≡ 3) ⊎ (bound_number ≡ 4) ⊎ (bound_number ≡ 5) ⊎ (bound_number ≡ 0x80)
      → ((idt_init at_4mb empty bound_number).present ≡ 1)
        × ((idt_init at_4mb empty bound_number).dpl ≡ 3))
    × (bound_number ≢ 3
        → bound_number ≢ 4
        → bound_number ≢ 5
        → bound_number ≢ 0x80
        → ((idt_init at_4mb empty bound_number).present ≡ 0)
          ⊎ ((idt_init at_4mb empty bound_number).dpl ≡ 0))
idt_init_levels_example = idt_init_levels at_4mb (λ h. omega arith) empty (λ i. refl) bound_number

abbrev text : Memory
text = memory_of ((100, 78) ∷ (101, 77) ∷ (102, 73) ∷ [])
