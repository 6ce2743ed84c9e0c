-- ===== src/Paging/Tests.antt =====
-- The tables of student-distrib/paging.c at 0x500000 and 0x501000, all 0 before.
use operating_system_ece.Common.{◌≡◌, ◌≢◌, ◌⊎◌, refl, arith, some, none}
use operating_system_ece.Paging.{Mmu, paging_init, map_slot}
use operating_system_ece.Paging.Mapping.{translate, IsKernel, IsScreen, paging_init_lem}
use operating_system_ece.Paging.Programs.{programs_apart}

abbrev blank : Mmu
blank = record { page_table = λ j. 0; page_directory = λ j. 0; cr0 = 1; cr3 = 0; cr4 = 0 }

paging_init_lem_example :
    (IsKernel 0xB8010 ⊎ IsScreen 0xB8010
      → translate 0x500000 (paging_init 0x500000 0x501000 blank) 0xB8010 ≡ some 0xB8010)
    × (¬ IsKernel 0xB8010
        → ¬ IsScreen 0xB8010
        → translate 0x500000 (paging_init 0x500000 0x501000 blank) 0xB8010 ≡ none)
paging_init_lem_example =
    paging_init_lem 0x500000 0x501000 blank refl refl (λ j. refl) (λ j. refl) 0xB8010

programs_apart_example :
    translate 0x500000 (map_slot 1 blank) 0x8048000
    ≢ translate 0x500000 (map_slot 3 blank) 0x8048004
programs_apart_example =
    programs_apart 0x500000 1 3 0x8048000 0x8048004 blank (omega arith) (omega arith) (ground arith)
      (omega arith, omega arith) (omega arith, omega arith)
