-- ===== src/Keyboard/Line.antt =====
-- The line being typed: what keys add and take away, and what a read hands over.
use operating_system_ece.Common.{
  ℕ, zero, suc, ◌+◌, ◌-◌, ◌≤◌, ◌<◌, ◌≡◌, refl, ◌∙◌, ◌≢◌, ◌⊎◌, true, false, some, arith, ◌&&◌, ◌||◌,
  not, ltb, leb, ◌==◌, if◌then◌else◌, update, pos, ltb_ℤ, lt→ltb, List, [], ◌∷◌, ◌++◌, Memory,
  write, min,
}
use operating_system_ece.Screen.{putc2, get_screenx, get_screeny}
use operating_system_ece.Screen.Cursor.{IsOnScreen, putc2_corner}
use operating_system_ece.Keyboard.{
  Keyboard, kb_buf_size, modifiers, type_char, backspace, key_action, key_char, in_range,
  acknowledge, keyboard_handler, read_count, take_line, copy_keys, terminal_read,
}

-- The first `n` entries of a buffer.
unfoldable pub line : ℕ → (ℕ → ℕ) → List ℕ
line zero f = []
line (suc n) f = line n f ++ (f n ∷ [])

-- The line of the terminal shown.
unfoldable pub typed : Keyboard → List ℕ
typed s = line s.keyboard_buffer_index s.keyboard_buffer

line-update : (n k c : ℕ) (f : ℕ → ℕ) → n ≤ k → line n (update f k c) ≡ line n f
unfolding line
line-update zero k c f h = refl
line-update (suc n) k c f h = rw (line-update n k c f (omega arith)) (ground arith)

line-next : (n c : ℕ) (f : ℕ → ℕ) → line (n + 1) (update f n c) ≡ line n f ++ (c ∷ [])
line-next n c f =
    let e : n + 1 ≡ suc n = omega arith in
    rw e (unfold line in rw (line-update n n c f (omega arith)) (ground arith))

pub typed-type_char : (ch : ℕ) (s : Keyboard) → typed (type_char ch s) ≡ typed s ++ (ch ∷ [])
unfolding typed type_char
typed-type_char ch s = line-next s.keyboard_buffer_index ch s.keyboard_buffer

-- A key that types: its scan code is one of the tables', and no other branch takes it.
pub record IsText (c : ℕ) (s : Keyboard) : Type 0 where
  pub in_table : (1 ≤ c) × (c ≤ 0x35)
  pub no_edit : (c ≢ 0x0E) × (c ≢ 0x1C)
  pub no_modifier : (c ≢ 0x1D) × (c ≢ 0x2A)
  pub no_clear : (s.ctrl_key ≡ false) ⊎ (c ≢ 0x26)
  pub gives : key_char s.shift_key s.cap_flag c ≢ 0

pub text-modifiers : (c : ℕ) (s : Keyboard) → IsText c s → modifiers c s ≡ s
unfolding modifiers
text-modifiers c s t = ground arith

text-key_action :
    (c : ℕ) (s : Keyboard)
    → IsText c s
    → s.keyboard_buffer_index < kb_buf_size
    → key_action c s ≡ type_char (key_char s.shift_key s.cap_flag c) s
unfolding key_action
text-key_action c s t room =
    let no_clear : (s.ctrl_key && (c == 0x26)) ≡ false = ground arith in
    let no_switch : (s.alt_key && ((c == 0x3B) || (c == 0x3C) || (c == 0x3D))) ≡ false =
      ground arith in
    let no_space : (c == 0x39) ≡ false = ground arith in
    let no_back : ((c == 0x0E) && ltb 0 s.keyboard_buffer_index) ≡ false = ground arith in
    let no_enter : (c == 0x1C) ≡ false = ground arith in
    let table : in_range 0x01 0x35 c ≡ true = ground arith in
    let fits : (ltb s.keyboard_buffer_index kb_buf_size
          && not (key_char s.shift_key s.cap_flag c == 0))
        ≡ true =
      ground arith in
    rw (no_clear, no_switch, no_space, no_back, no_enter, table, fits)

pub handler_text :
    (c : ℕ) (s : Keyboard)
    → IsText c s
    → s.keyboard_buffer_index < kb_buf_size
    → keyboard_handler c s ≡ type_char (key_char s.shift_key s.cap_flag c) (acknowledge 1 s)
unfolding keyboard_handler
handler_text c s t room =
    let t' : IsText c (acknowledge 1 s) = record {
      in_table = t.in_table;
      no_edit = t.no_edit;
      no_modifier = t.no_modifier;
      no_clear = t.no_clear;
      gives = t.gives;
    } in
    rw (text-modifiers c (acknowledge 1 s) t', text-key_action c (acknowledge 1 s) t' room)

-- Backspace away from the corner.
typed-backspace :
    (s : Keyboard)
    → (get_screenx s.console ≡ 0 → get_screeny s.console ≢ 0)
    → typed (backspace s) ≡ line (s.keyboard_buffer_index - 1) s.keyboard_buffer
unfolding typed backspace
typed-backspace s inside =
    let no_corner : ((get_screenx s.console == 0) && (get_screeny s.console == 0)) ≡ false =
      ground arith in
    rw no_corner

back-modifiers : (s : Keyboard) → modifiers 0x0E s ≡ s
unfolding modifiers
back-modifiers s = refl

back-key_action : (s : Keyboard) → 0 < s.keyboard_buffer_index → key_action 0x0E s ≡ backspace s
unfolding key_action
back-key_action s h =
    let no_clear : (s.ctrl_key && (0x0E == 0x26)) ≡ false = ground arith in
    let no_switch : (s.alt_key && ((0x0E == 0x3B) || (0x0E == 0x3C) || (0x0E == 0x3D))) ≡ false =
      ground arith in
    rw (no_clear, no_switch, lt→ltb 0 _ h)

handler_back :
    (s : Keyboard)
    → 0 < s.keyboard_buffer_index
    → keyboard_handler 0x0E s ≡ backspace (acknowledge 1 s)
unfolding keyboard_handler
handler_back s h = rw (back-modifiers (acknowledge 1 s), back-key_action (acknowledge 1 s) h)

-- With the cursors on the screen and room in the buffer, the interrupt of Backspace after that of a
-- key that types restores the line.
pub typed_back :
    (c : ℕ) (s : Keyboard)
    → IsOnScreen s.console
    → IsText c s
    → s.keyboard_buffer_index < kb_buf_size
    → typed (keyboard_handler 0x0E (keyboard_handler c s)) ≡ typed s
typed_back c s v t room =
    let ch : ℕ = key_char s.shift_key s.cap_flag c in
    let s1 : Keyboard = type_char ch (acknowledge 1 s) in
    let v' : IsOnScreen (acknowledge 1 s).console = record {
      column = v.column;
      row = v.row;
      shown = v.shown;
      scheduled = v.scheduled;
    } in
    rw
      (
        handler_text c s t room,
        handler_back s1 (pressed ch),
        typed-backspace (acknowledge 1 s1) (inside ch v'),
      )
      (restored ch)
  where
    pressed : (ch : ℕ) → 0 < (type_char ch (acknowledge 1 s)).keyboard_buffer_index
    pressed ch = unfold type_char in omega arith

    inside :
        (ch : ℕ)
        → IsOnScreen (acknowledge 1 s).console
        → get_screenx (type_char ch (acknowledge 1 s)).console ≡ 0
        → get_screeny (type_char ch (acknowledge 1 s)).console ≢ 0
    inside ch v' = unfold type_char in putc2_corner ch (acknowledge 1 s).console v'

    restored :
        (ch : ℕ)
        → line
            ((type_char ch (acknowledge 1 s)).keyboard_buffer_index - 1)
            (type_char ch (acknowledge 1 s)).keyboard_buffer
          ≡ typed s
    restored ch =
        unfold type_char typed in
        let e : s.keyboard_buffer_index + 1 - 1 ≡ s.keyboard_buffer_index = omega arith in
        rw e (
          line-update s.keyboard_buffer_index s.keyboard_buffer_index ch s.keyboard_buffer
            (omega arith))

copy_keys-eq :
    (n index : ℕ) (keys : ℕ → ℕ) (m : Memory) (buf a : ℕ)
    → copy_keys n keys m buf index a
      ≡ (if leb (buf + index) a && ltb a (buf + index + n) then keys (a - buf) else m a)
unfolding copy_keys write
copy_keys-eq zero index keys m buf a = ground arith
copy_keys-eq (suc n) index keys m buf a =
    ground (arith, copy_keys-eq n (index + 1) keys (write m (buf + index) (keys index)) buf a)

-- What a read does with a finished line.
pub record Handed (buf : ℕ) (s : Keyboard) (count : ℕ) (s' : Keyboard) : Type 0 where
  pub bytes : (i : ℕ) → i < count → s'.console.mem (buf + i) ≡ s.keyboard_buffer i
  pub outside :
      (a : ℕ) → (a < buf) ⊎ (buf + count ≤ a) → s'.console.mem a ≡ (putc2 10 s.console).mem a
  pub emptied : typed s' ≡ []
  pub waits : s'.enter_flag ≡ false

-- When Enter was pressed and the running terminal is shown, `terminal_read` returns the smaller of
-- the bytes asked for and the line's length, with that many characters of the line in the buffer; the
-- line is then empty and waits for Enter again.
pub terminal_read-Handed :
    (buf nbytes : ℕ) (s : Keyboard)
    → s.enter_flag ≡ true
    → s.console.curr_terminal ≡ s.console.curr_scheduled
    → (s' : Keyboard) × (terminal_read buf (pos nbytes) s
        ≡ some (pos (min nbytes s.keyboard_buffer_index), s'))
      × Handed buf s (min nbytes s.keyboard_buffer_index) s'
unfolding terminal_read
terminal_read-Handed buf nbytes s entered shown = (
  take_line buf (pos nbytes) s,
  rw (nonneg, ready, count),
  record {
    bytes = λ i h.
        unfold take_line in
        (rw count (copy_keys-eq _ 0 s.keyboard_buffer _ buf (buf + i) ∙ inside i h));
    outside = λ a h.
        unfold take_line in (rw count (copy_keys-eq _ 0 s.keyboard_buffer _ buf a ∙ beyond a h));
    emptied = unfold take_line typed line in refl;
    waits = unfold take_line in refl;
  },
)
  where
    nonneg : ltb_ℤ (pos nbytes) (pos 0) ≡ false
    nonneg = ground arith

    ready : (s.enter_flag && (s.console.curr_terminal == s.console.curr_scheduled)) ≡ true
    ready = ground arith

    inside :
        (i : ℕ)
        → i < min nbytes s.keyboard_buffer_index
        → (if leb (buf + 0) (buf + i)
              && ltb (buf + i) (buf + 0 + min nbytes s.keyboard_buffer_index)
            then s.keyboard_buffer (buf + i - buf)
            else (putc2 10 s.console).mem (buf + i))
          ≡ s.keyboard_buffer i
    inside i h = ground arith

    beyond :
        (a : ℕ)
        → (a < buf) ⊎ (buf + min nbytes s.keyboard_buffer_index ≤ a)
        → (if leb (buf + 0) a && ltb a (buf + 0 + min nbytes s.keyboard_buffer_index)
            then s.keyboard_buffer (a - buf)
            else (putc2 10 s.console).mem a)
          ≡ (putc2 10 s.console).mem a
    beyond a h = ground arith

    count : read_count (pos nbytes) s ≡ min nbytes s.keyboard_buffer_index
    count = unfold read_count in ground arith
