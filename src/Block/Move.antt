-- ===== src/Block/Move.antt =====
-- `memmove` copies a block however the two places overlap.
use operating_system_ece.Common.{
  ℕ, zero, suc, ◌+◌, ◌≤◌, ◌≡◌, ◌∙◌, inl, inr, arith, leb, leb→le, Bool-cases, Memory, write,
}
use operating_system_ece.Block.{copy_down, memmove, block}
use operating_system_ece.Block.Copy.{copy_bytes-block}

copy_down-block :
    (n : ℕ) (m : Memory) (dest src a : ℕ)
    → src ≤ dest
    → copy_down n m dest src a ≡ block m dest src n a
unfolding copy_down
copy_down-block zero m dest src a h = ground arith
copy_down-block (suc n) m dest src a h =
    copy_down-block n (write m (dest + n) (m (src + n))) dest src a h ∙ last
  where
    last : block (write m (dest + n) (m (src + n))) dest src n a ≡ block m dest src (suc n) a
    last = unfold write in ground arith

-- `memmove` writes the `n` bytes that were at `src` at `dest`, and nothing else, for any overlap.
pub memmove-block : (m : Memory) (dest src n a : ℕ) → memmove m dest src n a ≡ block m dest src n a
unfolding memmove
memmove-block m dest src n a = elim (Bool-cases (leb dest src)) [
  | inl up ↦ rw up (copy_bytes-block n m dest src a (inl (leb→le dest src up)))
  | inr down ↦ rw down (copy_down-block n m dest src a (ground arith))
]
