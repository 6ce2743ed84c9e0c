-- ===== src/Block/Fill.antt =====
-- `memset` fills exactly its range, whatever the alignment; so do the word and double word forms.
use operating_system_ece.Common.{
  ℕ, zero, suc, ◌+◌, ◌*◌, ◌/◌, ◌%◌, ◌≡◌, ◌∙◌, ◌&&◌, inl, inr, arith, ltb, leb, ◌==◌, if◌then◌else◌,
  Bool-cases, Memory, write,
}
use operating_system_ece.Block.{fill_bytes, fill_dwords, memset_aligned, memset_top, memset}

-- `m` with the `n` bytes from `s` on all `c`.
abbrev pub filled : Memory → ℕ → ℕ → ℕ → Memory
filled m s c n a = if leb s a && ltb a (s + n) then c else m a

filled-filled :
    (m m1 : Memory) (s c k n total a : ℕ)
    → k + n ≡ total
    → m1 a ≡ filled m s c k a
    → filled m1 (s + k) c n a ≡ filled m s c total a
filled-filled m m1 s c k n total a e h = ground arith

filled-one : (m : Memory) (s c a : ℕ) → write m s c a ≡ filled m s c 1 a
unfolding write
filled-one m s c a = ground arith

filled-four :
    (m : Memory) (s c a : ℕ)
    → write (write (write (write m s c) (s + 1) c) (s + 2) c) (s + 3) c a ≡ filled m s c 4 a
unfolding write
filled-four m s c a = ground arith

fill_bytes-filled : (n : ℕ) (m : Memory) (s c a : ℕ) → fill_bytes n m s c a ≡ filled m s c n a
unfolding fill_bytes
fill_bytes-filled zero m s c a = ground arith
fill_bytes-filled (suc n) m s c a =
    fill_bytes-filled n (write m s c) (s + 1) c a
    ∙ filled-filled m (write m s c) s c 1 n (suc n) a (omega arith) (filled-one m s c a)

fill_dwords-filled :
    (n : ℕ) (m : Memory) (s c a : ℕ) → fill_dwords n m s c c c c a ≡ filled m s c (4 * n) a
unfolding fill_dwords
fill_dwords-filled zero m s c a = ground arith
fill_dwords-filled (suc n) m s c a =
    let m1 : Memory = write (write (write (write m s c) (s + 1) c) (s + 2) c) (s + 3) c in
    fill_dwords-filled n m1 (s + 4) c a
    ∙ filled-filled m m1 s c 4 (4 * n) (4 * suc n) a (omega arith) (filled-four m s c a)

memset_aligned-filled :
    (n : ℕ) (m : Memory) (s c a : ℕ) → memset_aligned n m s c a ≡ filled m s c n a
unfolding memset_aligned
memset_aligned-filled n m s c a =
    let m1 : Memory = fill_dwords (n / 4) m s c c c c in
    fill_bytes-filled (n % 4) m1 (s + 4 * (n / 4)) c a
    ∙ filled-filled m m1 s c (4 * (n / 4)) (n % 4) n a (omega arith)
        (fill_dwords-filled (n / 4) m s c a)

memset_top-filled : (n : ℕ) (m : Memory) (s c a : ℕ) → memset_top n m s c a ≡ filled m s c n a
unfolding memset_top
memset_top-filled zero m s c a = ground arith
memset_top-filled (suc n) m s c a = elim (Bool-cases (s % 4 == 0)) [
  | inl aligned ↦ rw aligned (memset_aligned-filled (suc n) m s c a)
  | inr odd ↦ rw odd (
      memset_top-filled n (write m s c) (s + 1) c a
      ∙ filled-filled m (write m s c) s c 1 n (suc n) a (omega arith) (filled-one m s c a))
]

-- `memset` sets the `n` bytes from `s` on to the low byte of `c`, and nothing else.
pub memset-filled : (m : Memory) (s c n a : ℕ) → memset m s c n a ≡ filled m s (c % 256) n a
unfolding memset
memset-filled m s c n a = memset_top-filled n m s (c % 256) a
