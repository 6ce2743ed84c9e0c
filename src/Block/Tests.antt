-- ===== src/Block/Tests.antt =====
-- The block functions of student-distrib/lib.c at concrete places.
use operating_system_ece.Common.{◌≡◌, refl, [], ◌∷◌, Memory, memory_of, write}
use operating_system_ece.Block.{memcpy}

abbrev bytes : Memory
bytes = memory_of ((100, 1) ∷ (101, 2) ∷ (102, 3) ∷ (103, 4) ∷ (104, 5) ∷ [])

memcpy_run : memcpy 5 bytes 201 100 205 ≡ 5
unfolding memcpy write
memcpy_run = refl
