-- ===== src/Block.antt =====
-- The block routines of student-distrib/lib.c, `memcpy`, `memset`, `memset_word`, `memset_dword` and
-- `memmove`, as their inline assembly runs: single bytes up to an aligned destination, whole double
-- words by `rep movsl` or `rep stosl`, then the last bytes. A `rep` instruction is a loop on %ecx.
pub mod Copy
pub mod Fill
pub mod Move
mod Tests
use operating_system_ece.Common.{
  ℕ, zero, suc, ◌+◌, ◌-◌, ◌*◌, ◌/◌, ◌%◌, ltb, leb, ◌&&◌, ◌==◌, if◌then◌else◌, Memory, write,
}

-- `movb (%esi), %al; movb %al, (%edi)`, with both pointers going up: also `rep movsb` after `cld`.
pub copy_bytes : ℕ → Memory → ℕ → ℕ → Memory
copy_bytes zero m dest src = m
copy_bytes (suc n) m dest src = copy_bytes n (write m dest (m src)) (dest + 1) (src + 1)

-- One `movsl` reads all four bytes before it writes them.
copy_dword : Memory → ℕ → ℕ → Memory
copy_dword m dest src =
    write (write (write (write m dest (m src)) (dest + 1) (m (src + 1))) (dest + 2) (m (src + 2)))
      (dest + 3) (m (src + 3))

copy_dwords : ℕ → Memory → ℕ → ℕ → Memory
copy_dwords zero m dest src = m
copy_dwords (suc n) m dest src = copy_dwords n (copy_dword m dest src) (dest + 4) (src + 4)

-- From `.memcpy_aligned`: `n / 4` double words, and the bytes that are left.
memcpy_aligned : ℕ → Memory → ℕ → ℕ → Memory
memcpy_aligned n m dest src =
    copy_bytes (n % 4) (copy_dwords (n / 4) m dest src) (dest + 4 * (n / 4)) (src + 4 * (n / 4))

-- From `.memcpy_top`.
unfoldable pub memcpy : ℕ → Memory → ℕ → ℕ → Memory
unfolding memcpy_aligned copy_bytes copy_dwords copy_dword
memcpy zero m dest src = m
memcpy (suc n) m dest src =
    let rest = memcpy n (write m dest (m src)) (dest + 1) (src + 1) in
    if dest % 4 == 0 then memcpy_aligned (suc n) m dest src else rest

fill_bytes : ℕ → Memory → ℕ → ℕ → Memory
fill_bytes zero m s c = m
fill_bytes (suc n) m s c = fill_bytes n (write m s c) (s + 1) c

-- `stosl` of a word whose bytes are `c0` (lowest) to `c3`.
fill_dwords : ℕ → Memory → ℕ → ℕ → ℕ → ℕ → ℕ → Memory
fill_dwords zero m s c0 c1 c2 c3 = m
fill_dwords (suc n) m s c0 c1 c2 c3 =
    fill_dwords n (write (write (write (write m s c0) (s + 1) c1) (s + 2) c2) (s + 3) c3) (s + 4) c0
      c1 c2 c3

memset_aligned : ℕ → Memory → ℕ → ℕ → Memory
memset_aligned n m s c = fill_bytes (n % 4) (fill_dwords (n / 4) m s c c c c) (s + 4 * (n / 4)) c

-- The loop of `memset`, whose byte `c` is below 256: %al, and each byte of %eax.
memset_top : ℕ → Memory → ℕ → ℕ → Memory
memset_top zero m s c = m
memset_top (suc n) m s c =
    let rest = memset_top n (write m s c) (s + 1) c in
    if s % 4 == 0 then memset_aligned (suc n) m s c else rest

-- `c &= 0xFF` first.
unfoldable pub memset : Memory → ℕ → ℕ → ℕ → Memory
unfolding memset_top memset_aligned fill_bytes fill_dwords
memset m s c n = memset_top n m s (c % 256)

fill_words : ℕ → Memory → ℕ → ℕ → ℕ → Memory
fill_words zero m s c0 c1 = m
fill_words (suc n) m s c0 c1 = fill_words n (write (write m s c0) (s + 1) c1) (s + 2) c0 c1

-- `rep stosw` stores the low half of `c`.
unfoldable pub memset_word : Memory → ℕ → ℕ → ℕ → Memory
unfolding fill_words
memset_word m s c n = fill_words n m s (c % 256) (c / 256 % 256)

unfoldable pub memset_dword : Memory → ℕ → ℕ → ℕ → Memory
unfolding fill_dwords
memset_dword m s c n =
    fill_dwords n m s (c % 256) (c / 256 % 256) (c / 65536 % 256) (c / 16777216 % 256)

-- `rep movsb` after `std`: both pointers go down from the last byte, `n` bytes are left.
pub copy_down : ℕ → Memory → ℕ → ℕ → Memory
copy_down zero m dest src = m
copy_down (suc n) m dest src = copy_down n (write m (dest + n) (m (src + n))) dest src

-- `jae .memmove_go` is taken at `dest <= src`.
unfoldable pub memmove : Memory → ℕ → ℕ → ℕ → Memory
unfolding copy_bytes copy_down
memmove m dest src n = if leb dest src then copy_bytes n m dest src else copy_down n m dest src

-- What the copies promise: `m` with the `n` bytes from `src` on written at `dest`.
abbrev pub block : Memory → ℕ → ℕ → ℕ → Memory
block m dest src n a = if leb dest a && ltb a (dest + n) then m (src + (a - dest)) else m a
