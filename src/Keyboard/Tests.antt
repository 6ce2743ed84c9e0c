-- ===== src/Keyboard/Tests.antt =====
-- The keyboard of student-distrib/keyboard.c in concrete states.
use operating_system_ece.Common.{
  ◌≡◌, refl, inl, arith, true, false, some, ltb, ◌==◌, if◌then◌else◌, [], ◌∷◌, ◌++◌, pos, min,
  Memory, memory_of,
}
use operating_system_ece.Keyboard.{
  Keyboard, initial_keyboard, kb_buf_size, keyboard_handler, terminal_read,
}
use operating_system_ece.Keyboard.Invariant.{
  IsValid, initial_keyboard-IsValid, keyboard_handler-IsValid,
}
use operating_system_ece.Keyboard.Layout.{keyboard_rows, legend, chosen}
use operating_system_ece.Keyboard.Typing.{typed-keyboard_handler}
use operating_system_ece.Keyboard.Line.{typed, Handed, terminal_read-Handed}

abbrev nothing : Memory
nothing = memory_of []

abbrev start : Keyboard
start = initial_keyboard nothing

-- Enter was pressed behind "ab".
abbrev entered : Keyboard
entered = record start {
  enter_flag = true;
  keyboard_buffer = λ i. if i == 0 then 97 else 98;
  keyboard_buffer_index = 2;
}

-- Alt is held.
abbrev held : Keyboard
held = record entered { alt_key = true }

start-IsValid : IsValid start
start-IsValid = initial_keyboard-IsValid nothing

a_key : legend keyboard_rows 0x1E ≡ some (97, 65)
unfolding legend
a_key = refl

keyboard_handler-IsValid_example : IsValid (keyboard_handler 0x1E start)
keyboard_handler-IsValid_example = keyboard_handler-IsValid 0x1E start start-IsValid

typed-keyboard_handler_example :
    typed (keyboard_handler 0x1E start)
    ≡ (if ltb 0 kb_buf_size then typed start ++ (chosen false false 97 65 ∷ []) else typed start)
typed-keyboard_handler_example =
    typed-keyboard_handler 0x1E 97 65 start (omega arith) a_key (inl refl)

terminal_read-Handed_example :
    (s' : Keyboard) × (terminal_read 300 (pos 128) entered ≡ some (pos (min 128 2), s'))
    × Handed 300 entered (min 128 2) s'
terminal_read-Handed_example = terminal_read-Handed 300 128 entered refl refl
