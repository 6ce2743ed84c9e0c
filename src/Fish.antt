-- ===== src/Fish.antt =====
-- fish/fish.c: the program that shows two frames of text in turn by the blinking characters of fish/blink.h. The
-- routines `mp1_ioctl` and `mp1_rtc_tasklet` are assembly that is linked with it: they are arguments.
pub mod Blocks
mod Tests
use operating_system_ece.Common.{
  ℕ, zero, suc, ◌+◌, ◌-◌, ◌*◌, ◌%◌, ◌/◌, ◌^◌, ◌==◌, Bool, true, false, not, ◌&&◌, ◌||◌, Option,
  none, some, ◌>>=◌, if◌then◌else◌, ℤ, pos, negsuc, ltb_ℤ, is_zero, Memory, write, load32, List,
  codes,
}
use operating_system_ece.Programs.{Kernel, is_minus_one}
use operating_system_ece.Pingpong.{store_word}

-- `sizeof(struct mp1_blink_struct)`, packed, and the number of places on the screen.
abbrev pub blink_size : ℕ
blink_size = 16

abbrev pub places : ℕ
places = 2000

abbrev pub rtc_add : ℕ
rtc_add = 0

abbrev pub rtc_remove : ℕ
rtc_remove = 1

abbrev pub rtc_sync : ℕ
rtc_sync = 3

-- `mem[i] = c` from `i` on, with `left` rounds to go.
unfoldable pub ece391_memset : ℕ → ℕ → ℕ → ℕ → Memory → Memory
ece391_memset zero mem c i m = m
ece391_memset (suc left) mem c i m = ece391_memset left mem c (i + 1) (write m (mem + i) c)

unfoldable pub ece391_memcpy : ℕ → ℕ → ℕ → ℕ → Memory → Memory
ece391_memcpy zero dest src i m = m
ece391_memcpy (suc left) dest src i m =
    ece391_memcpy left dest src (i + 1) (write m (dest + i) (m (src + i)))

-- A field of two bytes.
unfoldable pub load16 : Memory → ℕ → ℕ
load16 m a = m a + 256 * m (a + 1)

unfoldable pub store16 : Memory → ℕ → ℕ → Memory
store16 m a v = write (write m a (v % 256)) (a + 1) (v / 256 % 256)

-- The first block whose location is 0, with `left` to look at; `NULL` is 0.
unfoldable pub find_block : ℕ → ℕ → ℕ → Memory → ℕ
find_block zero blink_array i m = 0
find_block (suc left) blink_array i m =
    let rest = find_block left blink_array (i + 1) m in
    if load16 m (blink_array + blink_size * i) == 0 then blink_array + blink_size * i else rest

unfoldable pub mp1_malloc : ℕ → Memory → ℕ
mp1_malloc blink_array m = find_block places blink_array 0 m

unfoldable pub mp1_free : ℕ → Memory → Memory
mp1_free memory m = ece391_memset blink_size memory 0 0 m

-- The five fields that the program sets.
unfoldable pub set_blink : ℕ → ℕ → ℕ → ℕ → ℕ → ℕ → Memory → Memory
set_blink a location on_char off_char on_length off_length m =
    store16
      (store16 (write (write (store16 m a location) (a + 2) on_char) (a + 3) off_char) (a + 4)
        on_length)
      (a + 6) off_length

-- What the linked routines do to the memory and the machine.
pub record Mp1 (W : Type 0) : Type 0 where
  pub mp1_ioctl : ℕ → ℕ → Memory → W → Memory × W
  pub mp1_rtc_tasklet : ℕ → Memory → W → Memory × W

-- The columns of two characters that are read side by side: a newline stands for a line's end.
pub record Column (W : Type 0) : Type 0 where
  pub c0 : ℕ
  pub c1 : ℕ
  pub eof0 : Bool
  pub eof1 : Bool
  pub mem : Memory
  pub world : W

-- The addresses of the program's variables: `c0`, `c1`, the `blink_struct` of `main` and of `add_frames`, `garbage`, `ret_val`,
-- `vmem_base_addr`, `blink_array`, and the three names.
pub record Places : Type 0 where
  pub at_c0 : ℕ
  pub at_c1 : ℕ
  pub blink_struct : ℕ
  pub frame_struct : ℕ
  pub garbage : ℕ
  pub ret_val : ℕ
  pub vmem_base_addr : ℕ
  pub blink_array : ℕ
  pub file0 : ℕ
  pub file1 : ℕ
  pub rtc_name : ℕ

-- A character to show for a column, where the end of a line is a blank.
abbrev pub shown_char : ℕ → ℕ
shown_char c = if c == b'\n' then 32 else c

abbrev pub is_visible : ℕ → Bool
is_visible c = not (c == 32) && not (c == b'\n')

module _ {W : Type 0} (k : Kernel W) (lib : Mp1 W) (v : Places) where
  -- A character of a file, unless its line is over: the character, whether the file is, and the rest.
  unfoldable pub read_char : ℤ → ℕ → ℕ → Bool → Memory → W → ℕ × Bool × Memory × W
  read_char fd at c eof m w =
      let (num_bytes, m1, w1) = k.call_read fd at 1 (write m at c) w in
      if c == b'\n'
      then (c, eof, m, w)
      else if is_zero num_bytes
      then (b'\n', true, m1, w1)
      else (m1 at, eof, m1, w1)

  unfoldable pub read_both : ℤ → ℤ → Column W → Column W
  read_both fd0 fd1 s =
      let (c0, eof0, m1, w1) = read_char fd0 v.at_c0 s.c0 s.eof0 s.mem s.world in
      let (c1, eof1, m2, w2) = read_char fd1 v.at_c1 s.c1 s.eof1 m1 w1 in
      record { c0 = c0; c1 = c1; eof0 = eof0; eof1 = eof1; mem = m2; world = w2 }

  unfoldable pub add_blink : ℕ → ℕ → Column W → Column W
  add_blink row col s =
      let m1 =
        set_blink v.frame_struct (row * 80 + col + 40) (shown_char s.c0) (shown_char s.c1) 15 15
          s.mem in
      let (m2, w2) = lib.mp1_ioctl v.frame_struct rtc_add m1 s.world in
      if is_visible s.c0 || is_visible s.c1 then record s { mem = m2; world = w2 } else s

  -- One row: `none` when the rounds are used up.
  unfoldable pub add_row : ℕ → ℤ → ℤ → ℕ → ℕ → Column W → Option (Column W)
  add_row zero fd0 fd1 row col s = none
  add_row (suc rounds) fd0 fd1 row col s =
      let s' = read_both fd0 fd1 s in
      let rest = add_row rounds fd0 fd1 row (col + 1) (add_blink row col s') in
      if (s'.c0 == b'\n') && (s'.c1 == b'\n') then some s' else rest

  -- The end of a row: a file that is over is closed, in each row anew.
  unfoldable pub end_row : ℤ → ℤ → Column W → Column W
  end_row fd0 fd1 s =
      let (r0, m0, w0) = k.call_close fd0 s.mem s.world in
      let s1 : Column W =
        if s.eof0 then record s { c0 = b'\n'; mem = m0; world = w0 } else record s { c0 = b'0' } in
      let (r1, m1, w1) = k.call_close fd1 s1.mem s1.world in
      if s1.eof1 then record s1 { c1 = b'\n'; mem = m1; world = w1 } else record s1 { c1 = b'0' }

  unfoldable pub add_rows : ℕ → ℕ → ℤ → ℤ → ℕ → Column W → Option (Column W)
  add_rows zero width fd0 fd1 row s = none
  add_rows (suc rounds) width fd0 fd1 row s =
      let next = add_row width fd0 fd1 row 0 s >>= λ s'.
      add_rows rounds width fd0 fd1 (row + 1) (end_row fd0 fd1 s') in
      if s.eof0 && s.eof1 then some s else next

  -- A program that has to halt when a file cannot be opened, or goes on.
  pub data Added : Type 0 where
    halts : Memory → W → Added
    goes_on : Memory → W → Added

  unfoldable pub add_frames : ℕ → ℕ → Memory → W → Option Added
  add_frames rounds width m w =
      let (fd0, m1, w1) = k.call_open v.file0 m w in
      let (fd1, m2, w2) = k.call_open v.file1 m1 w1 in
      let start : Column W = record {
        c0 = b'0';
        c1 = b'0';
        eof0 = false;
        eof1 = false;
        mem = m2;
        world = w2;
      } in
      if ltb_ℤ fd0 (pos 0)
      then some (halts m1 w1)
      else if ltb_ℤ fd1 (pos 0)
      then some (halts m2 w2)
      else (do s ← add_rows rounds width fd0 fd1 0 start; some (goes_on s.mem s.world))

  unfoldable pub mp1_set_video_mode : Memory → W → ℕ × Memory × W
  mp1_set_video_mode m w =
      let (r, m1, w1) = k.call_vidmap v.vmem_base_addr m w in
      if is_minus_one r then (0, m1, w1) else (load32 m1 v.vmem_base_addr, m1, w1)

  -- `WAIT` ticks of the clock.
  unfoldable pub wait_ticks : ℕ → ℤ → Memory → W → Memory × W
  wait_ticks zero rtc_fd m w = (m, w)
  wait_ticks (suc left) rtc_fd m w =
      let (r, m1, w1) = k.call_read rtc_fd v.garbage 4 m w in
      let (m2, w2) = lib.mp1_rtc_tasklet (load32 m1 v.garbage) m1 w1 in wait_ticks left rtc_fd m2 w2

  -- The three changes, each after a hundred ticks, and the close.
  unfoldable pub animate : ℤ → Memory → W → Memory × W
  animate rtc_fd m w =
      let (r, m1, w1) = k.call_write rtc_fd v.ret_val 4 (store_word m v.ret_val 32) w in
      let (m2, w2) = wait_ticks 100 rtc_fd m1 w1 in
      let (m3, w3) =
        lib.mp1_ioctl v.blink_struct rtc_add (set_blink v.blink_struct 540 b'I' b'M' 7 6 m2) w2 in
      let (m4, w4) = wait_ticks 100 rtc_fd m3 w3 in
      let (m5, w5) = lib.mp1_ioctl (40 * 2 ^ 16 + 540) rtc_sync m4 w4 in
      let (m6, w6) = wait_ticks 100 rtc_fd m5 w5 in
      let (m7, w7) = lib.mp1_ioctl 540 rtc_remove m6 w6 in
      let (m8, w8) = wait_ticks 100 rtc_fd m7 w7 in
      let (r', m9, w9) = k.call_close rtc_fd m8 w8 in (m9, w9)

  -- The status of the program: `none` for one that halted on the way.
  unfoldable pub fish_main : ℕ → ℕ → Memory → W → Option (Option ℤ × Memory × W)
  fish_main rounds width m w =
      let (screen, m1, w1) =
        mp1_set_video_mode (ece391_memset (blink_size * places) v.blink_array 0 0 m) w in
      let (rtc_fd, m2, w2) = k.call_open v.rtc_name m1 w1 in
      if screen == 0 then some (some (negsuc 0), m1, w1) else (do
        added ← add_frames rounds width m2 w2
        elim added [
          | halts m3 w3 ↦ some (none, m3, w3)
          | goes_on m3 w3 ↦ (let (m4, w4) = animate rtc_fd m3 w3 in some (some (pos 0), m4, w4))
        ])
