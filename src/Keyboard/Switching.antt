-- ===== src/Keyboard/Switching.antt =====
-- Alt with F1, F2 or F3: the lines of the terminals change places.
use operating_system_ece.Common.{
  ℕ, ◌+◌, ◌≤◌, ◌≡◌, refl, ap, ◌∙◌, ◌≢◌, true, false, arith, ◌&&◌, ◌||◌, ◌==◌, ==_false, ==_refl,
  if◌then◌else◌,
}
use operating_system_ece.Screen.{Console}
use operating_system_ece.Keyboard.{
  Keyboard, modifiers, switch_key, key_action, acknowledge, keyboard_handler,
}
use operating_system_ece.Keyboard.Line.{typed, line}

-- The scan code of the function key of terminal `t`.
abbrev pub function_key : ℕ → ℕ
function_key t = 0x3A + t

function-modifiers : (t : ℕ) (s : Keyboard) → 1 ≤ t → t ≤ 3 → modifiers (function_key t) s ≡ s
unfolding modifiers
function-modifiers t s h h' = ground arith

function-key_action :
    (t : ℕ) (s : Keyboard)
    → 1 ≤ t
    → t ≤ 3
    → s.alt_key ≡ true
    → key_action (function_key t) s ≡ switch_key t s
unfolding key_action
function-key_action t s h h' alt =
    let no_clear : (s.ctrl_key && (function_key t == 0x26)) ≡ false = ground arith in
    let held : (s.alt_key
          && ((function_key t == 0x3B) || (function_key t == 0x3C) || (function_key t == 0x3D)))
        ≡ true =
      ground arith in
    let target : (if function_key t == 0x3B then 1 else if function_key t == 0x3C then 2 else 3)
        ≡ t =
      ground arith in
    rw (no_clear, held, target)

handler_switch :
    (t : ℕ) (s : Keyboard)
    → 1 ≤ t
    → t ≤ 3
    → s.alt_key ≡ true
    → keyboard_handler (function_key t) s ≡ switch_key t (acknowledge 1 s)
unfolding keyboard_handler
handler_switch t s h h' alt =
    rw (function-modifiers t (acknowledge 1 s) h h')
      (function-key_action t (acknowledge 1 s) h h' alt)

-- While Alt is held, the function key of another terminal asks for that terminal, saves the line
-- typed so far under the terminal shown, and takes up the line saved for the other.
pub keyboard_handler_switch :
    (t : ℕ) (s : Keyboard)
    → 1 ≤ t
    → t ≤ 3
    → s.alt_key ≡ true
    → s.console.curr_terminal ≢ t
    → let s' = keyboard_handler (function_key t) s in
      (s'.switch_flag ≡ t)
      × (line
            (s'.kb_positions s.console.curr_terminal)
            (s'.keyboard_buffers s.console.curr_terminal)
          ≡ typed s)
      × (typed s' ≡ line (s.kb_positions t) (s.keyboard_buffers t))
unfolding typed switch_key
keyboard_handler_switch t s h h' alt other =
    rw (handler_switch t s h h' alt, ==_false _ _ other)
      (refl, rw (==_refl s.console.curr_terminal), refl)

switch_key_other :
    (t : ℕ) (s : Keyboard)
    → s.console.curr_terminal ≢ t
    → (switch_key t s).alt_key ≡ s.alt_key
      × ((switch_key t s).console ≡ s.console)
      × ((switch_key t s).keyboard_buffer ≡ s.keyboard_buffers t)
      × ((switch_key t s).keyboard_buffer_index ≡ s.kb_positions t)
unfolding switch_key
switch_key_other t s other = rw (==_false _ _ other) (refl, refl, refl, refl)

switch_key-saves :
    (t k : ℕ) (s : Keyboard)
    → s.console.curr_terminal ≡ k
    → k ≢ t
    → line ((switch_key t s).kb_positions k) ((switch_key t s).keyboard_buffers k) ≡ typed s
unfolding switch_key typed
switch_key-saves t k s e other =
    let away : (s.console.curr_terminal == t) ≡ false = ground arith in
    let here : (k == s.console.curr_terminal) ≡ true = ground arith in rw (away, here)

switch_key-typed :
    (t : ℕ) (s : Keyboard)
    → s.console.curr_terminal ≢ t
    → typed (switch_key t s) ≡ line (s.kb_positions t) (s.keyboard_buffers t)
unfolding switch_key typed
switch_key-typed t s other = rw (==_false _ _ other)

typed-acknowledge : (s : Keyboard) → typed (acknowledge 1 s) ≡ typed s
unfolding typed
typed-acknowledge s = refl

-- When, with Alt held, two function keys come before the timer has switched the screen, and neither
-- is that of the terminal shown, the line that was being typed is lost: under its terminal there then
-- stands the line of the terminal that was asked for first.
pub keyboard_handler_twice :
    (a b : ℕ) (s : Keyboard)
    → 1 ≤ a
    → a ≤ 3
    → 1 ≤ b
    → b ≤ 3
    → s.alt_key ≡ true
    → s.console.curr_terminal ≢ a
    → s.console.curr_terminal ≢ b
    → let s' = keyboard_handler (function_key b) (keyboard_handler (function_key a) s) in
      line (s'.kb_positions s.console.curr_terminal) (s'.keyboard_buffers s.console.curr_terminal)
      ≡ line (s.kb_positions a) (s.keyboard_buffers a)
keyboard_handler_twice a b s ha ha' hb hb' alt na nb =
    let (alt1, con1, buf1, index1) = switch_key_other a (acknowledge 1 s) na in
    let s1 : Keyboard = switch_key a (acknowledge 1 s) in
    rw (handler_switch a s ha ha' alt, handler_switch b s1 hb hb' (alt1 ∙ alt))
      (switch_key-saves b s.console.curr_terminal (acknowledge 1 s1)
          (ap (λ (c : Console). c.curr_terminal) con1) nb
        ∙ (typed-acknowledge s1 ∙ switch_key-typed a (acknowledge 1 s) na))
