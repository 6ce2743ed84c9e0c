-- ===== src/Block/Copy.antt =====
-- `memcpy` copies the block that it is given, whatever the alignment, wherever the destination
-- starts at or below the source or behind its end.
use operating_system_ece.Common.{
  ℕ, zero, suc, ◌+◌, ◌-◌, ◌*◌, ◌/◌, ◌%◌, ◌≤◌, ◌<◌, ◌≡◌, ◌∙◌, ◌⊎◌, inl, inr, arith, ◌==◌, Bool-cases,
  Memory, write,
}
use operating_system_ece.Block.{copy_bytes, copy_dword, copy_dwords, memcpy_aligned, memcpy, block}

-- A copy that goes up reads no byte that it has written.
abbrev pub Forward : ℕ → ℕ → ℕ → Type 0
Forward dest src n = (dest ≤ src) ⊎ (src + n ≤ dest)

-- A block splits where one likes.
pub block-block :
    (m m1 : Memory) (dest src k n total a : ℕ)
    → k + n ≡ total
    → Forward dest src total
    → ((b : ℕ) → m1 b ≡ block m dest src k b)
    → block m1 (dest + k) (src + k) n a ≡ block m dest src total a
block-block m m1 dest src k n total a e fwd h = ground (arith, h a, h (src + k + (a - (dest + k))))

block-one : (m : Memory) (dest src a : ℕ) → write m dest (m src) a ≡ block m dest src 1 a
unfolding write
block-one m dest src a = ground arith

block-four : (m : Memory) (dest src a : ℕ) → copy_dword m dest src a ≡ block m dest src 4 a
unfolding copy_dword write
block-four m dest src a = ground arith

pub copy_bytes-block :
    (n : ℕ) (m : Memory) (dest src a : ℕ)
    → Forward dest src n
    → copy_bytes n m dest src a ≡ block m dest src n a
unfolding copy_bytes
copy_bytes-block zero m dest src a fwd = ground arith
copy_bytes-block (suc n) m dest src a fwd =
    copy_bytes-block n (write m dest (m src)) (dest + 1) (src + 1) a (omega arith)
    ∙ block-block m (write m dest (m src)) dest src 1 n (suc n) a (omega arith) fwd
        (block-one m dest src)

copy_dwords-block :
    (n : ℕ) (m : Memory) (dest src a : ℕ)
    → Forward dest src (4 * n)
    → copy_dwords n m dest src a ≡ block m dest src (4 * n) a
unfolding copy_dwords
copy_dwords-block zero m dest src a fwd = ground arith
copy_dwords-block (suc n) m dest src a fwd =
    copy_dwords-block n (copy_dword m dest src) (dest + 4) (src + 4) a (omega arith)
    ∙ block-block m (copy_dword m dest src) dest src 4 (4 * n) (4 * suc n) a (omega arith) fwd
        (block-four m dest src)

memcpy_aligned-block :
    (n : ℕ) (m : Memory) (dest src a : ℕ)
    → Forward dest src n
    → memcpy_aligned n m dest src a ≡ block m dest src n a
unfolding memcpy_aligned
memcpy_aligned-block n m dest src a fwd =
    copy_bytes-block (n % 4) _ (dest + 4 * (n / 4)) (src + 4 * (n / 4)) a (omega arith)
    ∙ block-block m (copy_dwords (n / 4) m dest src) dest src (4 * (n / 4)) (n % 4) n a
        (omega arith) fwd (λ b. copy_dwords-block (n / 4) m dest src b (omega arith))

-- `memcpy` writes the `n` bytes from `src` on at `dest`, and nothing else, if the destination is not
-- inside the source above its start.
pub memcpy-block :
    (n : ℕ) (m : Memory) (dest src a : ℕ)
    → Forward dest src n
    → memcpy n m dest src a ≡ block m dest src n a
unfolding memcpy
memcpy-block zero m dest src a fwd = ground arith
memcpy-block (suc n) m dest src a fwd = elim (Bool-cases (dest % 4 == 0)) [
  | inl aligned ↦ rw aligned (memcpy_aligned-block (suc n) m dest src a fwd)
  | inr odd ↦ rw odd (
      memcpy-block n (write m dest (m src)) (dest + 1) (src + 1) a (omega arith)
      ∙ block-block m (write m dest (m src)) dest src 1 n (suc n) a (omega arith) fwd
          (block-one m dest src))
]

-- A block read where it was written.
pub block_at : (m : Memory) (dest src n k : ℕ) → k < n → block m dest src n (dest + k) ≡ m (src + k)
block_at m dest src n k h = ground arith
