-- ===== src/Fish/Blocks.antt =====
-- `mp1_malloc` and `mp1_free` of fish/fish.c: a block is free when its location is 0.
use operating_system_ece.Common.{
  ℕ, zero, suc, ◌+◌, ◌*◌, ◌≤◌, ◌<◌, ◌≡◌, ◌≢◌, refl, ◌∙◌, arith, ==_false, leb, ltb, ◌&&◌,
  if◌then◌else◌, Memory, write,
}
use native.Mathlib.Decide.{ℕ_discrete}
use operating_system_ece.Fish.{ece391_memset, load16, find_block, mp1_malloc, mp1_free, blink_size}

-- The block `i`, and whether it is in use.
abbrev pub block : ℕ → ℕ → ℕ
block blink_array i = blink_array + blink_size * i

abbrev pub location : ℕ → ℕ → Memory → ℕ
location blink_array i m = load16 m (block blink_array i)

ece391_memset_lem :
    (left mem c i b : ℕ) (m : Memory)
    → ece391_memset left mem c i m b
      ≡ (if leb (mem + i) b && ltb b (mem + i + left) then c else m b)
unfolding ece391_memset write
ece391_memset_lem zero mem c i b m = ground arith
ece391_memset_lem (suc left) mem c i b m =
    ece391_memset_lem left mem c (i + 1) b (write m (mem + i) c) ∙ ground arith

-- Freeing a block sets its location to 0, and that of no other block.
mp1_free-here : (arr i : ℕ) (m : Memory) → location arr i (mp1_free (block arr i) m) ≡ 0
unfolding mp1_free load16
mp1_free-here arr i m =
    rw
      (
        ece391_memset_lem 16 (block arr i) 0 0 (block arr i) m,
        ece391_memset_lem 16 (block arr i) 0 0 (block arr i + 1) m,
      )
      (ground arith)

mp1_free-there :
    (arr i j : ℕ) (m : Memory)
    → j ≢ i
    → location arr j (mp1_free (block arr i) m) ≡ location arr j m
unfolding mp1_free load16
mp1_free-there arr i j m h =
    rw
      (
        ece391_memset_lem 16 (block arr i) 0 0 (block arr j) m,
        ece391_memset_lem 16 (block arr i) 0 0 (block arr j + 1) m,
      )
      (ground (arith, h))

find_block-free :
    (left arr i k : ℕ) (m : Memory)
    → k ≤ i
    → i < k + left
    → ((j : ℕ) → k ≤ j → j < i → location arr j m ≢ 0)
    → location arr i m ≡ 0
    → find_block left arr k m ≡ block arr i
unfolding find_block
find_block-free zero arr i k m h h' used free = absurd (omega arith)
find_block-free (suc left) arr i k m h h' used free = elim (ℕ_discrete k i) [
  | yes e ↦ rw (e, free) refl
  | no ne ↦ rw (==_false (location arr k m) 0 (used k (omega arith) (omega arith))) (
      find_block-free left arr i (k + 1) m (omega arith) (omega arith)
        (λ j a b. used j (omega arith) b) free)
]

find_block-null :
    (left arr k : ℕ) (m : Memory)
    → ((j : ℕ) → k ≤ j → j < k + left → location arr j m ≢ 0)
    → find_block left arr k m ≡ 0
unfolding find_block
find_block-null zero arr k m used = refl
find_block-null (suc left) arr k m used =
    rw (==_false (location arr k m) 0 (used k (omega arith) (omega arith)))
      (find_block-null left arr (k + 1) m (λ j a b. used j (omega arith) (omega arith)))

-- When the blocks before `i` are in use, a block `i` that was freed is the next that `mp1_malloc` gives, and
-- when all 2000 are, it gives NULL until one is freed.
pub mp1_malloc-mp1_free :
    (arr i : ℕ) (m : Memory)
    → i < 2000
    → ((j : ℕ) → j < i → location arr j m ≢ 0)
    → (mp1_malloc arr (mp1_free (block arr i) m) ≡ block arr i)
      × (((j : ℕ) → j < 2000 → location arr j m ≢ 0) → mp1_malloc arr m ≡ 0)
unfolding mp1_malloc
mp1_malloc-mp1_free arr i m h used = (
  find_block-free 2000 arr i 0 (mp1_free (block arr i) m) (omega arith) h
      (λ j a b. rw (mp1_free-there arr i j m (omega arith)) (used j b)) (mp1_free-here arr i m),
  λ all. find_block-null 2000 arr 0 m (λ j a b. all j b),
)
