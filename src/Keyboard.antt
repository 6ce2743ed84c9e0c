-- ===== src/Keyboard.antt =====
-- student-distrib/keyboard.c: the keyboard interrupt, which edits the line of the terminal shown, and
-- the terminal's read and write.
pub mod Invariant
pub mod Keys
pub mod Layout
pub mod Line
pub mod Switching
pub mod Typing
mod Tests
use operating_system_ece.Common.{
  ℕ, zero, suc, ◌+◌, ◌-◌, ◌≤◌, ◌<◌, Bool, true, false, not, ◌&&◌, ◌||◌, List, Option, none, some,
  ltb, leb, ◌==◌, if◌then◌else◌, update, get_or, codes, ℤ, pos, minus_one, ◌+ℤ◌, ltb_ℤ, pos_part,
  Memory, write, ◌++◌, ◌∷◌, [],
}
use operating_system_ece.Pic.{send_eoi}
use operating_system_ece.Screen.{
  Console, initial_console, clear, set_cursors, update_cursor, putc2, get_screenx, get_screeny,
  print_withoutnull,
}

abbrev pub kb_buf_size : ℕ
kb_buf_size = 128

-- The globals of keyboard.c, the console that they act on, and `switch_flag` of scheduler.c.
-- `keyboard_buffers` and `kb_positions` are `keyboard_buffer1` to `keyboard_buffer3` and `kb1_pos` to
-- `kb3_pos`, by the terminal's number; a buffer is a function from its index below 128. The int flags
-- are only ever 0 or 1.
pub record Keyboard : Type 0 where
  pub console : Console
  pub shift_key : Bool
  pub alt_key : Bool
  pub cap_flag : Bool
  pub ctrl_key : Bool
  pub enter_flag : Bool
  pub keyboard_buffer : ℕ → ℕ
  pub keyboard_buffer_index : ℕ
  pub keyboard_buffers : ℕ → ℕ → ℕ
  pub kb_positions : ℕ → ℕ
  pub switch_flag : ℕ

abbrev pub initial_keyboard : Memory → Keyboard
initial_keyboard m = record {
  console = initial_console m;
  shift_key = false;
  alt_key = false;
  cap_flag = false;
  ctrl_key = false;
  enter_flag = false;
  keyboard_buffer = λ i. 0;
  keyboard_buffer_index = 0;
  keyboard_buffers = λ t i. 0;
  kb_positions = λ t. 0;
  switch_flag = 0;
}

-- `char_list` and `upper_char_list`, by the scan code less 1. A text literal cannot hold the NULs.
abbrev pub char_list : List ℕ
char_list =
    (0 ∷ codes "1234567890-=")
    ++ ((0 ∷ 0 ∷ codes "qwertyuiop[]")
        ++ ((10 ∷ 0 ∷ codes "asdfghjkl;'`") ++ (0 ∷ 92 ∷ codes "zxcvbnm,./")))

abbrev pub upper_char_list : List ℕ
upper_char_list =
    (0 ∷ codes "!@#$%^&*()_+")
    ++ ((0 ∷ 0 ∷ codes "QWERTYUIOP{}")
        ++ ((10 ∷ 0 ∷ codes "ASDFGHJKL:") ++ ((34 ∷ 126 ∷ 0 ∷ 124 ∷ []) ++ codes "ZXCVBNM<>?")))

abbrev pub in_range : ℕ → ℕ → ℕ → Bool
in_range lo hi c = leb lo c && leb c hi

abbrev pub is_letter : ℕ → Bool
is_letter c = in_range 0x10 0x19 c || in_range 0x1E 0x26 c || in_range 0x2C 0x32 c

-- `print_char` of the last branch. The three tests leave no case out.
unfoldable pub key_char : Bool → Bool → ℕ → ℕ
key_char shift caps c =
    if caps && is_letter c && not shift
    then get_or upper_char_list (c - 1) 0
    else if not shift || (shift && caps)
    then get_or char_list (c - 1) 0
    else get_or upper_char_list (c - 1) 0

-- The first part of the handler: the keys that are held.
unfoldable pub modifiers : ℕ → Keyboard → Keyboard
modifiers c s =
    let s' =
      if (c == 0x2A) || (c == 0x36)
      then record s { shift_key = true }
      else if (c == 0xAA) || (c == 0xB6)
      then record s { shift_key = false }
      else s in
    if c == 0x38
    then record s' { alt_key = true }
    else if c == 0xB8
    then record s' { alt_key = false }
    else if c == 0x3A
    then record s' { cap_flag = not s'.cap_flag }
    else if c == 0x1D
    then record s' { ctrl_key = true }
    else if c == 0x9D
    then record s' { ctrl_key = false }
    else s'

-- F1, F2 and F3 with Alt: the buffers change places at once, the screens at the next timer interrupt.
unfoldable pub switch_key : ℕ → Keyboard → Keyboard
switch_key target s =
    let current = s.console.curr_terminal in
    if current == target then s else record s {
      keyboard_buffer = s.keyboard_buffers target;
      keyboard_buffer_index = s.kb_positions target;
      keyboard_buffers = update s.keyboard_buffers current s.keyboard_buffer;
      kb_positions = update s.kb_positions current s.keyboard_buffer_index;
      switch_flag = target;
    }

-- A character goes to the end of the line and to the screen.
unfoldable pub type_char : ℕ → Keyboard → Keyboard
type_char ch s = record s {
  console = putc2 ch s.console;
  keyboard_buffer = update s.keyboard_buffer s.keyboard_buffer_index ch;
  keyboard_buffer_index = s.keyboard_buffer_index + 1;
}

-- The cursor one to the left of where it is.
unfoldable pub step_back : Console → Console
step_back con = set_cursors (pos (get_screenx con) +ℤ minus_one) (pos (get_screeny con)) con

unfoldable pub backspace : Keyboard → Keyboard
backspace s =
    let blank = step_back (putc2 32 (step_back s.console)) in
    if (get_screenx s.console == 0) && (get_screeny s.console == 0) then s else record s {
      console = update_cursor (get_screenx blank) (get_screeny blank) blank;
      keyboard_buffer_index = s.keyboard_buffer_index - 1;
    }

-- The second part of the handler.
unfoldable pub key_action : ℕ → Keyboard → Keyboard
key_action c s =
    if s.ctrl_key && (c == 0x26)
    then record s { console = update_cursor 0 0 (set_cursors (pos 0) (pos 0) (clear s.console)) }
    else if s.alt_key && ((c == 0x3B) || (c == 0x3C) || (c == 0x3D))
    then switch_key (if c == 0x3B then 1 else if c == 0x3C then 2 else 3) s
    else if c == 0x39
    then (if ltb s.keyboard_buffer_index kb_buf_size then type_char 32 s else s)
    else if (c == 0x0E) && ltb 0 s.keyboard_buffer_index
    then backspace s
    else if c == 0x1C
    then record s { enter_flag = true }
    else if in_range 0x01 0x35 c
    then (let ch = key_char s.shift_key s.cap_flag c in
        if ltb s.keyboard_buffer_index kb_buf_size && not (ch == 0) then type_char ch s else s)
    else s

abbrev pub acknowledge : ℕ → Keyboard → Keyboard
acknowledge irq s = record s { console = record s.console { ports = send_eoi irq s.console.ports } }

-- `keyboard_handler`, with the scan code that `inb` reads.
unfoldable pub keyboard_handler : ℕ → Keyboard → Keyboard
keyboard_handler c s = key_action c (modifiers c (acknowledge 1 s))

-- The copying loop of `terminal_read`, with `n` bytes left.
pub copy_keys : ℕ → (ℕ → ℕ) → Memory → ℕ → ℕ → Memory
copy_keys zero keys m buf index = m
copy_keys (suc n) keys m buf index =
    copy_keys n keys (write m (buf + index) (keys index)) buf (index + 1)

-- The number of bytes that a read of the line takes, and the state after it.
unfoldable pub read_count : ℤ → Keyboard → ℕ
read_count nbytes s =
    if ltb_ℤ nbytes (pos s.keyboard_buffer_index) then pos_part nbytes else s.keyboard_buffer_index

unfoldable pub take_line : ℕ → ℤ → Keyboard → Keyboard
take_line buf nbytes s =
    let con = putc2 10 s.console in
    record s {
      console = record con {
        mem = copy_keys (read_count nbytes s) s.keyboard_buffer con.mem buf 0;
      };
      enter_flag = false;
      keyboard_buffer = λ i. 0;
      keyboard_buffer_index = 0;
    }

-- `terminal_read`; `none` while its waiting loop runs, which ends when Enter was pressed and the
-- running terminal is the one shown.
unfoldable pub terminal_read : ℕ → ℤ → Keyboard → Option (ℤ × Keyboard)
terminal_read buf nbytes s =
    if ltb_ℤ nbytes (pos 0)
    then some (minus_one, s)
    else if s.enter_flag && (s.console.curr_terminal == s.console.curr_scheduled)
    then some (pos (read_count nbytes s), take_line buf nbytes s)
    else none

-- `terminal_write`: after printing it empties the buffer kept for the running terminal.
unfoldable pub terminal_write : ℕ → ℤ → Keyboard → ℤ × Keyboard
terminal_write buf nbytes s =
    let (x, con) = print_withoutnull buf (pos_part nbytes) s.console in
    if (buf == 0) || ltb_ℤ nbytes (pos 0)
    then (minus_one, s)
    else if pos_part nbytes == 0
    then (pos 0, s)
    else (
      pos x,
      record s {
        console = con;
        keyboard_buffers = update s.keyboard_buffers s.console.curr_scheduled (λ i. 0);
        kb_positions = update s.kb_positions s.console.curr_scheduled 0;
      },
    )

-- `terminal_open` and `terminal_close`.
abbrev pub terminal_open : ℤ
terminal_open = pos 0

abbrev pub terminal_close : ℤ
terminal_close = pos 0
