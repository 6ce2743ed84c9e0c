-- ===== src/Screen/Tests.antt =====
-- The screen of student-distrib/lib.c in concrete states.
use operating_system_ece.Common.{ℕ, ◌*◌, ◌≡◌, refl, arith, [], ◌∷◌, Memory, memory_of}
use operating_system_ece.Strings.Length.{IsString}
use operating_system_ece.Screen.{
  Console, initial_console, num_cols, num_rows, video_buf, get_screenx, switch_terminal,
  update_cursor, putc, scroll_at_end, put_cell,
}
use operating_system_ece.Screen.Cursor.{IsOnScreen}
use operating_system_ece.Screen.Switch.{AreTwo, switched, switch_terminal-switched}

-- "ok" at 100, and the cursor of the first terminal in the lower right corner.
abbrev text : Memory
text = memory_of ((100, 111) ∷ (101, 107) ∷ [])

abbrev start : Console
start = initial_console text

abbrev corner : Console
corner = record start { screen_x = λ t. 79; screen_y = λ t. 24 }

start-IsOnScreen : IsOnScreen start
start-IsOnScreen = record {
  column = λ t h. omega arith;
  row = λ t h. omega arith;
  shown = (omega arith, omega arith);
  scheduled = (omega arith, omega arith);
}

corner-IsOnScreen : IsOnScreen corner
corner-IsOnScreen = record {
  column = λ t h. omega arith;
  row = λ t h. omega arith;
  shown = (omega arith, omega arith);
  scheduled = (omega arith, omega arith);
}

ok-IsString : IsString text 100 2
ok-IsString = record { body = λ i h. ground arith; stop = refl }

one_and_two : AreTwo 1 2
one_and_two = record {
  first = (omega arith, omega arith);
  second = (omega arith, omega arith);
  apart = omega arith;
}

putc_moves : get_screenx (putc 65 start) ≡ 1
unfolding putc update_cursor scroll_at_end put_cell
putc_moves = refl

switch_terminal-switched_example :
    ((switch_terminal 1 2 start).curr_terminal ≡ 2)
    × ((a : ℕ)
        → (switch_terminal 1 2 start).mem a
          ≡ switched start.mem (video_buf 1) (video_buf 2) 0 (num_rows * num_cols) a)
switch_terminal-switched_example = switch_terminal-switched 1 2 start one_and_two
