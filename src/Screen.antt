-- ===== src/Screen.antt =====
-- The text screen of student-distrib/lib.c: the displayed video page, the pages that keep the other
-- terminals' text, the cursors of the three terminals, and `putc`, `putc2` and what prints by them.
pub mod Cells
pub mod Cursor
pub mod Switch
pub mod Print
mod Tests
use operating_system_ece.Common.{
  ℕ, zero, suc, ◌+◌, ◌-◌, ◌*◌, ◌/◌, ◌%◌, ◌^◌, List, [], ◌∷◌, Option, none, some, ◌>>=◌, ◌||◌, ltb,
  leb, ◌==◌, if◌then◌else◌, ℤ, pos, negsuc, minus_one, ◌+ℤ◌, ltb_ℤ, pos_part, Memory, write, update,
}

-- constants.h and lib.h
abbrev pub num_cols : ℕ
num_cols = 80

abbrev pub num_rows : ℕ
num_rows = 25

abbrev pub attrib : ℕ
attrib = 0x0A

abbrev pub video : ℕ
video = 0xB8000

-- VIDEO1, VIDEO2 and VIDEO3; for any other terminal the pointer is not set in the source.
abbrev pub video_buf : ℕ → ℕ
video_buf t = if t == 1 then 0xB9000 else if t == 2 then 0xBA000 else if t == 3 then 0xBB000 else 0

-- The globals of lib.c, with `curr_scheduled` of scheduler.c. `ports` holds what `outb` has written,
-- value and port, the latest first. `screen_x` and `screen_y` are indexed from 0, terminals from 1.
pub record Console : Type 0 where
  pub mem : Memory
  pub ports : List (ℕ × ℕ)
  pub screen_x : ℕ → ℕ
  pub screen_y : ℕ → ℕ
  pub video_mem : ℕ
  pub curr_terminal : ℕ
  pub curr_scheduled : ℕ

-- The values that the globals start with.
abbrev pub initial_console : Memory → Console
initial_console m = record {
  mem = m;
  ports = [];
  screen_x = λ t. 0;
  screen_y = λ t. 0;
  video_mem = video;
  curr_terminal = 1;
  curr_scheduled = 1;
}

-- The body of `clear` and its kind at cell `i`, and `n` cells from there on.
pub blank_cells : ℕ → Memory → ℕ → ℕ → Memory
blank_cells zero m base i = m
blank_cells (suc n) m base i =
    blank_cells n (write (write m (base + 2 * i) 32) (base + 2 * i + 1) attrib) base (i + 1)

unfoldable pub clear : Console → Console
clear s = record s { mem = blank_cells (num_rows * num_cols) s.mem video 0 }

-- `clear1`, `clear2` and `clear3`.
unfoldable pub clear_buf : ℕ → Console → Console
clear_buf t s = record s { mem = blank_cells (num_rows * num_cols) s.mem (video_buf t) 0 }

-- The first loop of `scroll` from cell `i` on, with `n` cells left.
pub move_cells : ℕ → Memory → ℕ → ℕ → Memory
move_cells zero m base i = m
move_cells (suc n) m base i =
    move_cells n
      (write (write m (base + 2 * i) (m (base + 2 * (i + num_cols)))) (base + 2 * i + 1) attrib)
      base (i + 1)

unfoldable pub scroll_page : Memory → ℕ → Memory
scroll_page m base =
    blank_cells num_cols (move_cells ((num_rows - 1) * num_cols) m base 0) base
      ((num_rows - 1) * num_cols)

-- `scroll(0)` for the running process, `scroll(1)` for the screen.
unfoldable pub scroll : ℕ → Console → Console
scroll x s =
    if x == 0
    then record s { mem = scroll_page s.mem s.video_mem }
    else if x == 1
    then record s { mem = scroll_page s.mem video }
    else s

abbrev pub outb : ℕ → ℕ → Console → Console
outb value port s = record s { ports = (value, port) ∷ s.ports }

-- The position is a `uint16_t`; its low byte goes to register 0x0F and its high byte to 0x0E.
unfoldable pub update_cursor : ℕ → ℕ → Console → Console
update_cursor x y s =
    let at = (y * num_cols + x) % 2 ^ 16 in
    outb (at / 256 % 256) 0x3D5 (outb 0x0E 0x3D4 (outb (at % 256) 0x3D5 (outb 0x0F 0x3D4 s)))

-- The loop of `switch_terminal` over the characters, from cell `i` on.
pub swap_cells : ℕ → Memory → ℕ → ℕ → ℕ → Memory
swap_cells zero m f t i = m
swap_cells (suc n) m f t i =
    let saved = write m (f + 2 * i) (m (video + 2 * i)) in
    swap_cells n (write saved (video + 2 * i) (saved (t + 2 * i))) f t (i + 1)

unfoldable pub switch_terminal : ℕ → ℕ → Console → Console
switch_terminal from to s =
    let s' =
      update_cursor (s.screen_x (to - 1)) (s.screen_y (to - 1)) (record s { curr_terminal = to }) in
    record s' { mem = swap_cells (num_rows * num_cols) s.mem (video_buf from) (video_buf to) 0 }

abbrev pub get_screenx : Console → ℕ
get_screenx s = s.screen_x (s.curr_terminal - 1)

abbrev pub get_screeny : Console → ℕ
get_screeny s = s.screen_y (s.curr_terminal - 1)

-- The checks after the column was wrapped to the row above.
place_cursor : ℤ → ℤ → Console → Console
place_cursor (pos x) (pos y) s = if leb num_cols x || leb num_rows y then s else record s {
  screen_x = update s.screen_x (s.curr_terminal - 1) x;
  screen_y = update s.screen_y (s.curr_terminal - 1) y;
}
place_cursor x y s = s

unfoldable pub set_cursors : ℤ → ℤ → Console → Console
unfolding place_cursor ◌+ℤ◌
set_cursors x y s =
    if ltb_ℤ x (pos 0)
    then place_cursor (pos (num_cols - 1)) (y +ℤ minus_one) s
    else place_cursor x y s

-- The first part of `putc` and `putc2`: the character goes to the page at `base`, at the cursor of
-- the terminal with index `t`, and the cursor moves on.
unfoldable pub put_cell : ℕ → ℕ → ℕ → Console → Console
put_cell base t c s =
    let x = s.screen_x t in
    let y = s.screen_y t in
    let cell = base + 2 * (num_cols * y + x) in
    if (c == 10) || (c == 13)
    then record s { screen_x = update s.screen_x t 0; screen_y = update s.screen_y t (y + 1) }
    else record s {
      mem = write (write s.mem cell c) (cell + 1) attrib;
      screen_x = update s.screen_x t ((x + 1) % num_cols);
      screen_y = update s.screen_y t (y + (x + 1) / num_cols);
    }

-- The second part: behind the last row the page scrolls, and the cursor goes back to its start.
unfoldable pub scroll_at_end : ℕ → ℕ → Console → Console
scroll_at_end x t s =
    let s' = scroll x s in
    if leb num_rows (s.screen_y t)
    then record s' {
      screen_x = update s.screen_x t 0;
      screen_y = update s.screen_y t (s.screen_y t - 1);
    }
    else s

unfoldable pub putc : ℕ → Console → Console
putc c s =
    let t = s.curr_scheduled - 1 in
    let s' = scroll_at_end 0 t (put_cell s.video_mem t c s) in
    if s.curr_scheduled == s.curr_terminal
    then update_cursor (s'.screen_x t) (s'.screen_y t) s'
    else s'

unfoldable pub putc2 : ℕ → Console → Console
putc2 c s =
    let t = s.curr_terminal - 1 in
    let s' = scroll_at_end 1 t (put_cell video t c s) in
    update_cursor (s'.screen_x t) (s'.screen_y t) s'

-- `puts` and `puts2` print a string up to its NUL. The printing may write over the string: the byte
-- is read from the memory as it is then.
unfoldable pub print_loop : ℕ → (ℕ → Console → Console) → ℕ → ℕ → Console → Option (ℕ × Console)
print_loop zero put str index s = none
print_loop (suc fuel) put str index s =
    let c = s.mem (str + index) in
    let rest = print_loop fuel put str (index + 1) (put c s) in
    if c == 0 then some (index, s) else rest

unfoldable pub puts : ℕ → ℕ → Console → Option (ℕ × Console)
puts fuel str s = print_loop fuel putc str 0 s

unfoldable pub puts2 : ℕ → ℕ → Console → Option (ℕ × Console)
puts2 fuel str s = print_loop fuel putc2 str 0 s

-- `print_withoutnull` copies its bytes to a local buffer with a NUL behind them, here a list, and
-- `putfile` prints what is not NUL, on the screen if the running terminal is shown. The count includes
-- the added NUL.
unfoldable pub putfile : List ℕ → Console → Console
putfile [] s = s
putfile (c ∷ cs) s =
    putfile cs
      (if c == 0 then s else if s.curr_scheduled == s.curr_terminal then putc2 c s else putc c s)

unfoldable pub bytes_at : ℕ → Memory → ℕ → List ℕ
bytes_at zero m a = []
bytes_at (suc n) m a = m a ∷ bytes_at n m (a + 1)

unfoldable pub print_withoutnull : ℕ → ℕ → Console → ℕ × Console
print_withoutnull buffer nbytes s = (nbytes + 1, putfile (bytes_at nbytes s.mem buffer) s)
