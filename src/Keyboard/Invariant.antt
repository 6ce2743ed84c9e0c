-- ===== src/Keyboard/Invariant.antt =====
-- The keyboard's state stays within its arrays and the screen.
use operating_system_ece.Common.{
  ℕ, ◌≤◌, ◌<◌, ◌≡◌, subst, inl, inr, some, arith, ◌&&◌, ◌||◌, not, ltb, ◌==◌, if◌then◌else◌,
  Bool-cases, if_intro, ltb→lt, ℤ, pos, ltb_ℤ, pos_part, Memory,
}
use operating_system_ece.Screen.{
  Console, update_cursor, print_withoutnull, get_screenx, get_screeny,
}
use operating_system_ece.Screen.Cursor.{
  IsOnScreen, putc2-IsOnScreen, set_cursors-IsOnScreen, clear-IsOnScreen,
}
use operating_system_ece.Screen.Print.{putfile-Printed}
use operating_system_ece.Keyboard.{
  Keyboard, initial_keyboard, kb_buf_size, modifiers, switch_key, type_char, step_back, backspace,
  key_action, key_char, in_range, acknowledge, keyboard_handler, take_line, terminal_read,
  terminal_write,
}

pub record IsValid (s : Keyboard) : Type 0 where
  pub screen : IsOnScreen s.console
  pub index : s.keyboard_buffer_index ≤ kb_buf_size
  pub saved : (t : ℕ) → s.kb_positions t ≤ kb_buf_size
  pub pending : s.switch_flag ≤ 3

-- The state that the kernel starts in.
pub initial_keyboard-IsValid : (m : Memory) → IsValid (initial_keyboard m)
initial_keyboard-IsValid m = record {
  screen = record {
    column = λ t h. omega arith;
    row = λ t h. omega arith;
    shown = (omega arith, omega arith);
    scheduled = (omega arith, omega arith);
  };
  index = omega arith;
  saved = λ t. omega arith;
  pending = omega arith;
}

-- The hardware cursor is no part of the invariant.
update_cursor-IsOnScreen : (x y : ℕ) (s : Console) → IsOnScreen s → IsOnScreen (update_cursor x y s)
unfolding update_cursor
update_cursor-IsOnScreen x y s v = record {
  column = v.column;
  row = v.row;
  shown = v.shown;
  scheduled = v.scheduled;
}

acknowledge-IsValid : (irq : ℕ) (s : Keyboard) → IsValid s → IsValid (acknowledge irq s)
acknowledge-IsValid irq s v = record {
  screen = record {
    column = v.screen.column;
    row = v.screen.row;
    shown = v.screen.shown;
    scheduled = v.screen.scheduled;
  };
  index = v.index;
  saved = v.saved;
  pending = v.pending;
}

-- The modifier keys change their four flags only.
pub modifiers_keep :
    (c : ℕ) (s : Keyboard)
    → ((modifiers c s).console ≡ s.console)
      × ((modifiers c s).keyboard_buffer_index ≡ s.keyboard_buffer_index)
      × ((modifiers c s).kb_positions ≡ s.kb_positions)
      × ((modifiers c s).switch_flag ≡ s.switch_flag)
unfolding modifiers
modifiers_keep c s = ground arith

modifiers-IsValid : (c : ℕ) (s : Keyboard) → IsValid s → IsValid (modifiers c s)
modifiers-IsValid c s v =
    let (con, index, saved, flag) = modifiers_keep c s in
    record {
      screen = rw con (v.screen);
      index = rw index (v.index);
      saved = rw saved (v.saved);
      pending = rw flag (v.pending);
    }

switch_key-IsValid :
    (target : ℕ) (s : Keyboard)
    → 1 ≤ target
    → target ≤ 3
    → IsValid s
    → IsValid (switch_key target s)
unfolding switch_key
switch_key-IsValid target s h h' v = elim (Bool-cases (s.console.curr_terminal == target)) [
  | inl same ↦ rw same v
  | inr other ↦ rw other (record {
    screen = v.screen;
    index = v.saved target;
    saved = λ t. ground (arith, v.saved t);
    pending = h';
  })
]

type_char-IsValid :
    (ch : ℕ) (s : Keyboard)
    → s.keyboard_buffer_index < kb_buf_size
    → IsValid s
    → IsValid (type_char ch s)
unfolding type_char
type_char-IsValid ch s room v = record {
  screen = (putc2-IsOnScreen ch s.console v.screen).0;
  index = omega arith;
  saved = v.saved;
  pending = v.pending;
}

backspace-IsValid : (s : Keyboard) → IsValid s → IsValid (backspace s)
unfolding backspace step_back
backspace-IsValid s v =
    elim (Bool-cases ((get_screenx s.console == 0) && (get_screeny s.console == 0))) [
      | inl corner ↦ rw corner v
      | inr inside ↦ rw inside (record {
        screen = update_cursor-IsOnScreen _ _ _ (
            set_cursors-IsOnScreen _ _ _
              (putc2-IsOnScreen 32 _ (set_cursors-IsOnScreen _ _ _ v.screen)).0);
        index = omega arith;
        saved = v.saved;
        pending = v.pending;
      })
    ]

key_action-IsValid : (c : ℕ) (s : Keyboard) → IsValid s → IsValid (key_action c s)
unfolding key_action
key_action-IsValid c s v =
    if_intro IsValid (s.ctrl_key && (c == 0x26))
      (λ _. record {
        screen =
            update_cursor-IsOnScreen 0 0 _
              (set_cursors-IsOnScreen _ _ _ (clear-IsOnScreen _ v.screen));
        index = v.index;
        saved = v.saved;
        pending = v.pending;
      })
      λ _.
        if_intro IsValid (s.alt_key && ((c == 0x3B) || (c == 0x3C) || (c == 0x3D)))
          (λ _. switch_key-IsValid _ s (ground arith) (ground arith) v)
          λ _.
            if_intro IsValid (c == 0x39) (λ _. typed 32)
              λ _.
                if_intro IsValid ((c == 0x0E) && ltb 0 s.keyboard_buffer_index)
                  (λ _. backspace-IsValid s v)
                  λ _.
                    if_intro IsValid (c == 0x1C)
                      (λ _. record {
                        screen = v.screen;
                        index = v.index;
                        saved = v.saved;
                        pending = v.pending;
                      })
                      λ _.
                        if_intro IsValid (in_range 0x01 0x35 c)
                          (λ _.
                            if_intro IsValid
                              (ltb s.keyboard_buffer_index kb_buf_size
                                && not (key_char s.shift_key s.cap_flag c == 0))
                              (λ room. type_char-IsValid _ s (ground arith) v) (λ _. v))
                          (λ _. v)
  where
    typed :
        (ch : ℕ) → IsValid (if ltb s.keyboard_buffer_index kb_buf_size then type_char ch s else s)
    typed ch =
        if_intro IsValid (ltb s.keyboard_buffer_index kb_buf_size)
          (λ room. type_char-IsValid ch s (ltb→lt _ _ room) v) (λ _. v)

-- From a valid state, whatever scan code arrives, the keyboard interrupt keeps the line within its
-- buffer, the saved lines within theirs, the cursors on the screen, and asks for one of the three
-- terminals if any.
pub keyboard_handler-IsValid : (c : ℕ) (s : Keyboard) → IsValid s → IsValid (keyboard_handler c s)
unfolding keyboard_handler
keyboard_handler-IsValid c s v =
    key_action-IsValid c _ (modifiers-IsValid c _ (acknowledge-IsValid 1 s v))

take_line-IsValid :
    (buf : ℕ) (nbytes : ℤ) (s : Keyboard) → IsValid s → IsValid (take_line buf nbytes s)
unfolding take_line
take_line-IsValid buf nbytes s v =
    let w = (putc2-IsOnScreen 10 s.console v.screen).0 in
    record {
      screen = record { column = w.column; row = w.row; shown = w.shown; scheduled = w.scheduled };
      index = omega arith;
      saved = v.saved;
      pending = v.pending;
    }

-- A read that returns keeps the invariant.
pub terminal_read-IsValid :
    (buf : ℕ) (nbytes r : ℤ) (s s' : Keyboard)
    → IsValid s
    → terminal_read buf nbytes s ≡ some (r, s')
    → IsValid s'
unfolding terminal_read
terminal_read-IsValid buf nbytes r s s' v e = elim (Bool-cases (ltb_ℤ nbytes (pos 0))) [
  | inl neg ↦ subst IsValid (let same : s ≡ s' = ground arith in same) v
  | inr fits ↦
      subst IsValid (let same : take_line buf nbytes s ≡ s' = ground arith in same)
        (take_line-IsValid buf nbytes s v)
]

-- So does a write.
pub terminal_write-IsValid :
    (buf : ℕ) (nbytes : ℤ) (s : Keyboard) → IsValid s → IsValid (terminal_write buf nbytes s).1
unfolding terminal_write print_withoutnull
terminal_write-IsValid buf nbytes s v =
    if_intro (λ (r : ℤ × Keyboard). IsValid r.1) ((buf == 0) || ltb_ℤ nbytes (pos 0)) (λ _. v)
      λ _.
        if_intro (λ (r : ℤ × Keyboard). IsValid r.1) (pos_part nbytes == 0) (λ _. v)
          λ _. record {
            screen = (putfile-Printed _ s.console v.screen).on_screen;
            index = v.index;
            saved = λ t. ground (arith, v.saved t);
            pending = v.pending;
          }
