-- ===== src/Interrupts/Turns.antt =====
-- What one interrupt keeps: the turn of the terminals and the state's bounds.
use operating_system_ece.Common.{
  ℕ, ◌+◌, ◌%◌, ◌≤◌, ◌<◌, ◌≡◌, refl, ap, ◌∙◌, arith, if_intro, ◌==◌, ◌&&◌, ◌||◌, not, ltb,
}
use operating_system_ece.Screen.{Console, update_cursor, clear, get_screenx, get_screeny}
use operating_system_ece.Screen.Cursor.{
  putc2-SameTerminals, set_cursors-SameTerminals, switch_terminal-IsOnScreen,
}
use operating_system_ece.Keyboard.{
  Keyboard, kb_buf_size, modifiers, switch_key, type_char, step_back, backspace, key_action,
  key_char, in_range, keyboard_handler,
}
use operating_system_ece.Keyboard.Invariant.{IsValid, modifiers_keep}
use operating_system_ece.Scheduler.{
  Scheduler, Tick, console, set_console, in_three, shell, show_requested, map_video, run_next,
  pit_handler, returns, acknowledged,
}
use operating_system_ece.Interrupts.{Devices}

-- The terminal whose process runs.
abbrev pub running : Devices → ℕ
running s = (console s.scheduler).curr_scheduled

abbrev RunsAs : ℕ → Keyboard → Type 0
RunsAs n s = s.console.curr_scheduled ≡ n

type_char-RunsAs : (ch : ℕ) (s : Keyboard) → RunsAs s.console.curr_scheduled (type_char ch s)
unfolding type_char
type_char-RunsAs ch s = (putc2-SameTerminals ch s.console).1

backspace-RunsAs : (s : Keyboard) → RunsAs s.console.curr_scheduled (backspace s)
unfolding backspace step_back update_cursor
backspace-RunsAs s =
    if_intro (RunsAs s.console.curr_scheduled)
      ((get_screenx s.console == 0) && (get_screeny s.console == 0)) (λ _. refl)
      (λ _.
        (set_cursors-SameTerminals _ _ _).1
        ∙ (putc2-SameTerminals 32 _).1
        ∙ (set_cursors-SameTerminals _ _ s.console).1)

switch_key-RunsAs : (t : ℕ) (s : Keyboard) → RunsAs s.console.curr_scheduled (switch_key t s)
unfolding switch_key
switch_key-RunsAs t s = ground arith

key_action-RunsAs : (c : ℕ) (s : Keyboard) → RunsAs s.console.curr_scheduled (key_action c s)
unfolding key_action clear update_cursor
key_action-RunsAs c s =
    let same = RunsAs s.console.curr_scheduled in
    if_intro same (s.ctrl_key && (c == 0x26)) (λ _. (set_cursors-SameTerminals _ _ _).1)
      λ _.
        if_intro same (s.alt_key && ((c == 0x3B) || (c == 0x3C) || (c == 0x3D)))
          (λ _. switch_key-RunsAs _ s)
          λ _.
            if_intro same (c == 0x39)
              (λ _.
                if_intro same (ltb s.keyboard_buffer_index kb_buf_size) (λ _. type_char-RunsAs 32 s)
                  (λ _. refl))
              λ _.
                if_intro same ((c == 0x0E) && ltb 0 s.keyboard_buffer_index)
                  (λ _. backspace-RunsAs s)
                  λ _.
                    if_intro same (c == 0x1C) (λ _. refl)
                      λ _.
                        if_intro same (in_range 0x01 0x35 c)
                          (λ _.
                            if_intro same
                              (ltb s.keyboard_buffer_index kb_buf_size
                                && not (key_char s.shift_key s.cap_flag c == 0))
                              (λ _. type_char-RunsAs _ s) (λ _. refl))
                          (λ _. refl)

-- A key does not change which process runs.
pub keyboard_handler-RunsAs :
    (c : ℕ) (s : Keyboard)
    → (keyboard_handler c s).console.curr_scheduled ≡ s.console.curr_scheduled
unfolding keyboard_handler
keyboard_handler-RunsAs c s =
    key_action-RunsAs c (modifiers c _)
    ∙ ap (λ (x : Console). x.curr_scheduled) (modifiers_keep c _).0

show_requested-IsValid : (s : Keyboard) → IsValid s → IsValid (show_requested s)
unfolding show_requested
show_requested-IsValid s v =
    if_intro IsValid (in_three s.switch_flag)
      (λ e. record {
        screen =
            switch_terminal-IsOnScreen s.console.curr_terminal s.switch_flag s.console
              (ground arith) (ground arith) v.screen;
        index = v.index;
        saved = v.saved;
        pending = omega arith;
      })
      (λ _. v)

-- What the timer's handler keeps when it returns.
abbrev pub Kept : Scheduler → Type 0
Kept s = IsValid s.keyboard × (3 < s.total_terminal)

abbrev pub KeptAfter : Tick → Type 0
KeptAfter (returns s) = Kept s
KeptAfter (shell s) = Unit

-- Another page for the process, or another process.
Kept-console :
    (c : Console) (s : Scheduler)
    → c.screen_x ≡ (console s).screen_x
    → c.screen_y ≡ (console s).screen_y
    → c.curr_terminal ≡ (console s).curr_terminal
    → (1 ≤ c.curr_scheduled) × (c.curr_scheduled ≤ 3)
    → Kept s
    → Kept (set_console c s)
Kept-console c s x y t h (v, total) = (
  record {
    screen = record {
      column = λ j lt. rw x (v.screen.column j lt);
      row = λ j lt. rw y (v.screen.row j lt);
      shown = rw t (v.screen.shown);
      scheduled = h;
    };
    index = v.index;
    saved = v.saved;
    pending = v.pending;
  },
  total,
)

map_video-Kept : (t : ℕ) (s : Scheduler) → Kept s → Kept (map_video t s)
unfolding map_video
map_video-Kept t s kept =
    let scheduled = kept.0.screen.scheduled in
    if_intro Kept (t == (console s).curr_terminal)
      (λ _. Kept-console _ s refl refl refl scheduled kept)
      (λ _.
        if_intro Kept (in_three t) (λ _. Kept-console _ s refl refl refl scheduled kept)
          (λ _. kept))

run_next-Kept : (next : ℕ) (s : Scheduler) → 1 ≤ next → next ≤ 3 → Kept s → Kept (run_next next s)
unfolding run_next
run_next-Kept next s h h' kept = Kept-console _ s refl refl refl (h, h') kept

pub pit_handler-KeptAfter : (s : Scheduler) → Kept s → KeptAfter (pit_handler s)
unfolding pit_handler
pit_handler-KeptAfter s (v, total) =
    let s0 = acknowledged s in
    let v0 : IsValid s0.keyboard = record {
      screen = record {
        column = v.screen.column;
        row = v.screen.row;
        shown = v.screen.shown;
        scheduled = v.screen.scheduled;
      };
      index = v.index;
      saved = v.saved;
      pending = v.pending;
    } in
    let s1 : Scheduler = record s0 { keyboard = show_requested s0.keyboard } in
    let next : ℕ = (console s1).curr_scheduled % 3 + 1 in
    let kept2 = map_video-Kept next s1 (show_requested-IsValid s0.keyboard v0, total) in
    if_intro KeptAfter (ltb (map_video next s1).total_terminal 3) (λ _. tt)
      (λ _.
        if_intro KeptAfter ((map_video next s1).total_terminal == 3)
          (λ e. absurd (ground (arith, e, kept2.1)))
          (λ _. run_next-Kept next (map_video next s1) (omega arith) (omega arith) kept2))
