-- ===== src/Fish/Tests.antt =====
-- The blocks of fish/fish.c at 0x9000, the first two of which are in use.
use operating_system_ece.Common.{ℕ, ◌<◌, ◌≡◌, ◌≢◌, arith, [], ◌∷◌, Memory, memory_of}
use operating_system_ece.Fish.{load16, mp1_malloc, mp1_free}
use operating_system_ece.Fish.Blocks.{block, location, mp1_malloc-mp1_free}

abbrev in_use : Memory
in_use = memory_of ((0x9000, 7) ∷ (0x9010, 8) ∷ [])

used : (j : ℕ) → j < 1 → location 0x9000 j in_use ≢ 0
unfolding load16
used j h = ground arith

mp1_malloc-mp1_free_example :
    (mp1_malloc 0x9000 (mp1_free (block 0x9000 1) in_use) ≡ block 0x9000 1)
    × (((j : ℕ) → j < 2000 → location 0x9000 j in_use ≢ 0) → mp1_malloc 0x9000 in_use ≡ 0)
mp1_malloc-mp1_free_example = mp1_malloc-mp1_free 0x9000 1 in_use (omega arith) used
