-- ===== src/Common/Bytes.antt =====
-- Byte memory. An address is a number; a pointer that a C program keeps inside its object does not
-- wrap, and arithmetic on `uint32_t` values writes its wrap-around out where it is done.
use Prim.Native.Nat.{ℕ, ◌+◌, ◌*◌, ◌<◌}
use mathlib.Core.Path.{◌≡◌}
use mathlib.Core.List.{List, [], ◌∷◌}
use mathlib.Core.Logic.{◌≢◌}
use native.Mathlib.Omega.{arith}
use operating_system_ece.Common.Tests.{◌==◌, if◌then◌else◌}

abbrev pub Memory : Type 0
Memory = ℕ → ℕ

unfoldable pub write : Memory → ℕ → ℕ → Memory
write m a v b = if b == a then v else m b

-- A little-endian 32-bit word.
unfoldable pub load32 : Memory → ℕ → ℕ
load32 m a = m a + 256 * m (a + 1) + 65536 * m (a + 2) + 16777216 * m (a + 3)

-- Every cell is a byte.
abbrev pub IsBytes : Memory → Type 0
IsBytes m = (a : ℕ) → m a < 256

pub write_self : (m : Memory) (a v : ℕ) → write m a v a ≡ v
unfolding write
write_self m a v = ground arith

pub write_ne : (m : Memory) (a v b : ℕ) → b ≢ a → write m a v b ≡ m b
unfolding write
write_ne m a v b h = ground arith

pub write-IsBytes : (m : Memory) (a v : ℕ) → IsBytes m → v < 256 → IsBytes (write m a v)
unfolding write
write-IsBytes m a v h hv b = ground (arith, h b)

pub load32-lt : (m : Memory) (a : ℕ) → IsBytes m → load32 m a < 4294967296
unfolding load32
load32-lt m a h = omega (arith, h a, h (a + 1), h (a + 2), h (a + 3))

-- Memory by its cells that are not 0.
abbrev pub memory_of : List (ℕ × ℕ) → Memory
memory_of [] a = 0
memory_of (cell ∷ cells) a = if a == cell.0 then cell.1 else memory_of cells a
