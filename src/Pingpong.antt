-- ===== src/Pingpong.antt =====
-- syscalls/ece391pingpong.c: a letter that bounces between two walls, over the interface of Programs.antt.
pub mod Frames
pub mod Rounds
mod Tests
use operating_system_ece.Common.{
  ℕ, zero, suc, ◌+◌, ◌-◌, ◌*◌, ◌/◌, ◌%◌, ◌==◌, Option, none, some, ◌>>=◌, if◌then◌else◌, ℤ, pos,
  Memory, write, List, codes,
}
use operating_system_ece.Programs.{Kernel, ece391_fdputs}

-- SCREENWIDTH+ENDING; the macros have no parentheses, and each use here adds and subtracts from the left.
abbrev pub buf_max : ℕ
buf_max = 81

abbrev pub start_loop : ℕ
start_loop = 2

abbrev pub loop_max : ℕ
loop_max = 78

-- `buf[i] = ' '` from `i` on, with `left` rounds to go.
pub blanks : ℕ → ℕ → Memory → Memory
blanks zero a m = m
blanks (suc left) a m = blanks left (a + 1) (write m a 32)

-- The walls and the end of the line.
unfoldable pub walls : ℕ → Memory → Memory
walls buf m =
    write
      (write (write (write m (buf + buf_max - 1) 0) (buf + buf_max - 2) b'\n') (buf + buf_max - 3)
        b'|')
      (buf + 1) b'|'

unfoldable pub store_word : Memory → ℕ → ℕ → Memory
store_word m a v =
    write (write (write (write m a (v % 256)) (a + 1) (v / 256 % 256)) (a + 2) (v / 65536 % 256))
      (a + 3) (v / 16777216 % 256)

-- The letter after `c`.
unfoldable pub next_char : ℕ → ℕ
next_char c = if c == b'Z' then b'A' else (c + 1) % 256

-- `garbage` is the address of that local.
module _ {W : Type 0} (k : Kernel W) (fuel : ℕ) (literal : List ℕ → ℕ) (buf garbage : ℕ)
    (rtc_fd : ℤ) where
  -- The letter at `j`, and the wait for a tick.
  unfoldable pub draw : ℕ → ℕ → Memory → W → Option (Memory × W)
  draw c j m w = do
    (m1, w1) ←
        ece391_fdputs k fuel literal buf (pos 1) buf
          (write (blanks (loop_max - start_loop) (buf + start_loop) m) (buf + j) c) w
    (let (r, m2, w2) = k.call_read rtc_fd garbage 4 m1 w1 in some (m2, w2))

  -- The two loops, with `left` frames to go: to the right from `j` on, and to the left from `j - 1` on.
  unfoldable pub move_out : ℕ → ℕ → ℕ → Memory → W → Option (Memory × W)
  move_out zero c j m w = some (m, w)
  move_out (suc left) c j m w = do (m1, w1) ← draw c j m w; move_out left c (j + 1) m1 w1

  unfoldable pub bounce_back : ℕ → ℕ → ℕ → Memory → W → Option (Memory × W)
  bounce_back zero c j m w = some (m, w)
  bounce_back (suc left) c j m w = do
    (m1, w1) ← draw c (j - 1) m w
    bounce_back left c (j - 1) m1 w1

  -- The endless loop, after `rounds` rounds: the letter that is next.
  unfoldable pub play : ℕ → ℕ → Memory → W → Option (ℕ × Memory × W)
  play zero c m w = some (c, m, w)
  play (suc rounds) c m w = do
    (m1, w1) ← move_out (loop_max - start_loop) c start_loop m w
    (m2, w2) ← bounce_back (loop_max - start_loop) c loop_max m1 w1
    play rounds (next_char c) m2 w2

-- The program, up to the end of a round of its loop; `ret_val` is the address of that local.
unfoldable pub pingpong_main :
    {W : Type 0}
    → Kernel W
    → ℕ
    → (List ℕ → ℕ)
    → ℕ
    → ℕ
    → ℕ
    → ℕ
    → Memory
    → W
    → Option (ℕ × Memory × W)
pingpong_main k fuel literal buf ret_val garbage rounds m w =
    let m1 = walls buf (blanks buf_max buf m) in
    let (rtc_fd, m2, w2) = k.call_open (literal (codes "rtc")) m1 w in
    let (r, m3, w3) = k.call_write rtc_fd ret_val 4 (store_word m2 ret_val 32) w2 in
    play k fuel literal buf garbage rtc_fd rounds b'A' m3 w3
