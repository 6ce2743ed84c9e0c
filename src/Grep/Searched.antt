-- ===== src/Grep/Searched.antt =====
-- `grep` on a whole file.
use operating_system_ece.Common.{ℕ, ◌<◌, ◌≡◌, Option, some, ℤ, pos, Memory, List}
use operating_system_ece.Programs.{Kernel}
use operating_system_ece.Grep.Returns.{Inside, Prints, ReadsPart, Texts}

module _ {W : Type 0} (k : Kernel W) (fuel : ℕ) (literal : List ℕ → ℕ) (line_buf s fname : ℕ)
    (rest : W → ℕ) (enough : 1024 < fuel)
    (prints : (a n : ℕ) (m : Memory) (w : W) → Prints rest m w (k.call_write (pos 1) a n m w))
    (fd : ℤ)
    (reads : (a n : ℕ) (m : Memory) (w : W) → ReadsPart rest a n m w (k.call_read fd a n m w))
    (closes : (m : Memory) (w : W)
      → let (r, m', w') = k.call_close fd m w in (r ≡ pos 0) × (m' ≡ m)) where
  abbrev Ready : Memory → Type 0
  Ready m = Texts k fuel literal line_buf s fname rest enough prints m

  abbrev Ended : Memory → Option (ℤ × Memory × W) → Type 0
  Ended m r = (m' : Memory) × (w' : W) × (r ≡ some (pos 0, m', w')) × Inside line_buf m m'
