-- ===== src/Keyboard/Typing.antt =====
-- The line after the interrupt of a key that types.
use operating_system_ece.Common.{
  ℕ, ◌<◌, ◌≡◌, ◌≢◌, ◌⊎◌, refl, inl, inr, Bool-cases, ap, ◌∙◌, arith, true, false, not, ◌&&◌, ◌||◌,
  ◌==◌, leb, ltb, if◌then◌else◌, if_intro, List, [], ◌∷◌, ◌++◌, some,
}
use native.Mathlib.Decide.{ℕ_discrete}
use operating_system_ece.Keyboard.{
  Keyboard, kb_buf_size, in_range, modifiers, key_char, key_action, type_char, acknowledge,
  keyboard_handler,
}
use operating_system_ece.Keyboard.Keys.{key_char-upper}
use operating_system_ece.Keyboard.Line.{
  typed, typed-type_char, IsText, text-modifiers, handler_text,
}
use operating_system_ece.Keyboard.Layout.{
  keyboard_rows, legend, chosen, key_fits, entries_of, scan_code_of, chosen_one_of, spaces_of,
}

space-modifiers : (s : Keyboard) → modifiers 0x39 s ≡ s
unfolding modifiers
space-modifiers s = refl

space-key_action :
    (s : Keyboard)
    → key_action 0x39 s ≡ (if ltb s.keyboard_buffer_index kb_buf_size then type_char 32 s else s)
unfolding key_action
space-key_action s =
    let no_clear : (s.ctrl_key && (0x39 == 0x26)) ≡ false = ground arith in
    let no_switch : (s.alt_key && ((0x39 == 0x3B) || (0x39 == 0x3C) || (0x39 == 0x3D))) ≡ false =
      ground arith in
    rw (no_clear, no_switch) refl

handler_space :
    (s : Keyboard)
    → keyboard_handler 0x39 s ≡ (
        if ltb s.keyboard_buffer_index kb_buf_size
        then type_char 32 (acknowledge 1 s)
        else acknowledge 1 s)
unfolding keyboard_handler
handler_space s = rw (space-modifiers (acknowledge 1 s), space-key_action (acknowledge 1 s)) refl

-- A key of the tables is lost when the line is full.
full-key_action :
    (c : ℕ) (s : Keyboard)
    → IsText c s
    → ltb s.keyboard_buffer_index kb_buf_size ≡ false
    → key_action c s ≡ s
unfolding key_action
full-key_action c s t full =
    let no_clear : (s.ctrl_key && (c == 0x26)) ≡ false = ground arith in
    let no_switch : (s.alt_key && ((c == 0x3B) || (c == 0x3C) || (c == 0x3D))) ≡ false =
      ground arith in
    let no_space : (c == 0x39) ≡ false = ground arith in
    let no_back : ((c == 0x0E) && ltb 0 s.keyboard_buffer_index) ≡ false = ground arith in
    let no_enter : (c == 0x1C) ≡ false = ground arith in
    let table : in_range 0x01 0x35 c ≡ true = ground arith in
    rw (no_clear, no_switch, no_space, no_back, no_enter, table, full) refl

handler_full :
    (c : ℕ) (s : Keyboard)
    → IsText c s
    → ltb s.keyboard_buffer_index kb_buf_size ≡ false
    → keyboard_handler c s ≡ acknowledge 1 s
unfolding keyboard_handler
handler_full c s t full =
    let t' : IsText c (acknowledge 1 s) = record {
      in_table = t.in_table;
      no_edit = t.no_edit;
      no_modifier = t.no_modifier;
      no_clear = t.no_clear;
      gives = t.gives;
    } in
    rw (text-modifiers c (acknowledge 1 s) t', full-key_action c (acknowledge 1 s) t' full) refl

typed-acknowledge : (s : Keyboard) → typed (acknowledge 1 s) ≡ typed s
unfolding typed
typed-acknowledge s = refl

module _ (c plain shifted : ℕ) (s : Keyboard) (byte : c < 256)
    (key : legend keyboard_rows c ≡ some (plain, shifted))
    (no_clear : (s.ctrl_key ≡ false) ⊎ (c ≢ 0x26)) where
  key_char-chosen :
      c ≢ 0x39
      → (key_char s.shift_key s.cap_flag c ≡ chosen s.shift_key s.cap_flag plain shifted)
        × IsText c s
  key_char-chosen ne =
      let all = key_fits c plain shifted byte key in
      let (low, up, letter, some_plain, some_shifted) =
        entries_of c _ _ plain shifted _ (leb 97 plain && leb plain 122) _ all ne in
      let (table, edit, modifier) = scan_code_of c _ _ all ne in
      let gives : key_char s.shift_key s.cap_flag c ≡ chosen s.shift_key s.cap_flag plain shifted =
        rw (key_char-upper s.shift_key s.cap_flag c, low, up, letter) refl in
      (
        gives,
        record {
          in_table = table;
          no_edit = edit;
          no_modifier = modifier;
          no_clear = no_clear;
          gives =
              rw gives (chosen_one_of s.shift_key s.cap_flag plain shifted some_plain some_shifted);
        },
      )

  typed-space :
      c ≡ 0x39
      → typed (keyboard_handler c s) ≡ (
          if ltb s.keyboard_buffer_index kb_buf_size
          then typed s ++ (chosen s.shift_key s.cap_flag plain shifted ∷ [])
          else typed s)
  typed-space e =
      let (p, q) = spaces_of c plain shifted _ (key_fits c plain shifted byte key) e in
      let same : chosen s.shift_key s.cap_flag 32 32 ≡ 32 =
        if_intro (λ (x : ℕ). x ≡ 32) (s.shift_key && not s.cap_flag) (λ _. refl) (λ _. refl) in
      rw (p, q, same, e, handler_space s)
        (elim (Bool-cases (ltb s.keyboard_buffer_index kb_buf_size)) [
          | inl room ↦ rw room (
              typed-type_char 32 (acknowledge 1 s)
              ∙ ap (λ (xs : List ℕ). xs ++ (32 ∷ [])) (typed-acknowledge s))
          | inr full ↦ rw full (typed-acknowledge s)
        ])

  -- The interrupt of a key of the layout puts the key's character at the end of the line, while there are
  -- fewer than 128, and leaves the line alone when there are 128 or more. It is the character with shift on
  -- a letter when exactly one of shift and caps lock is on, and on another key when shift is held and caps
  -- lock is off; else it is the one without. The scan code is a byte, and for L Ctrl is not held.
  pub typed-keyboard_handler : typed (keyboard_handler c s) ≡ (
      if ltb s.keyboard_buffer_index kb_buf_size
      then typed s ++ (chosen s.shift_key s.cap_flag plain shifted ∷ [])
      else typed s)
  typed-keyboard_handler = elim (ℕ_discrete c 0x39) [
    | yes e ↦ typed-space e
    | no ne ↦
        let (gives, t) = key_char-chosen ne in
        elim (Bool-cases (ltb s.keyboard_buffer_index kb_buf_size)) [
          | inl room ↦
              rw (room, handler_text c s t (ground (arith, room)), gives)
                (typed-type_char (chosen s.shift_key s.cap_flag plain shifted) (acknowledge 1 s)
                  ∙ ap (λ (xs : List ℕ). xs ++ (chosen s.shift_key s.cap_flag plain shifted ∷ []))
                      (typed-acknowledge s))
          | inr full ↦ rw (full, handler_full c s t full) (typed-acknowledge s)
        ]
  ]
