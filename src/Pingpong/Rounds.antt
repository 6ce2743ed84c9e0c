-- ===== src/Pingpong/Rounds.antt =====
-- The rounds of `pingpong`: the letter runs to the right wall and back, and the next letter follows.
use operating_system_ece.Common.{ℕ, ◌<◌, Option, ℤ, pos, Memory, List}
use operating_system_ece.Programs.{Kernel}
use operating_system_ece.Pingpong.Frames.{IsQuiet, Displays, Shows}

module _ {W : Type 0} (k : Kernel W) (fuel : ℕ) (literal : List ℕ → ℕ) (buf garbage : ℕ)
    (rtc_fd : ℤ) (out : W → List ℕ) (enough : 80 < fuel)
    (displays : (n : ℕ) (m : Memory) (w : W)
      → Displays out buf n m w (k.call_write (pos 1) buf n m w))
    (ticks : (m : Memory) (w : W) → IsQuiet out buf m w (k.call_read rtc_fd garbage 4 m w)) where
  abbrev ShowsHere : List ℕ → W → Option (Memory × W) → Type 0
  ShowsHere o w r = Shows k fuel literal buf garbage rtc_fd out enough displays ticks o w r
