-- ===== src/Calls/Invariant.antt =====
-- Reading and writing through a descriptor keep the system's state well-formed.
use operating_system_ece.Common.{
  ℕ, ◌+◌, ◌%◌, ◌≤◌, ◌<◌, ◌≡◌, ◌≢◌, refl, arith, false, ◌||◌, Option, none, some, ◌==◌, if_intro,
  update, ℤ, pos, ltb_ℤ, is_zero, pos_part, Memory,
}
use operating_system_ece.Keyboard.{Keyboard, take_line, terminal_read}
use operating_system_ece.Keyboard.Invariant.{IsValid, terminal_read-IsValid}
use operating_system_ece.Rtc.{rtc_read_start, rtc_read_waits}
use operating_system_ece.Screen.Cursor.{putc2-SameTerminals}
use operating_system_ece.Files.{
  Ftable, FdStruct, Pcb, System, Outcome, returned, waiting, no_table, stdin_table, stdout_table,
  rtc_table, dir_table, file_table, max_open_files, set_memory, cur_pcb, set_pcb,
}
use operating_system_ece.Calls.{out_of_range, file_read, rtc_read, fops_read, sys_read}
use operating_system_ece.Files.Slots.{used_kept}
use operating_system_ece.Files.Descriptors.{IsOpenTable, cur_pcb-set_pcb, update_every, After}

-- The keyboard's state is valid, and the descriptors of the process shown are well-formed.
pub record IsValidSystem (s : System) : Type 0 where
  pub keyboard : IsValid s.keyboard
  pub files : IsOpenTable (cur_pcb s)

-- A file's position moves, and nothing else of its descriptor.
moved-IsOpenTable :
    (p : Pcb) (fd position : ℕ)
    → IsOpenTable p
    → fd < max_open_files
    → IsOpenTable (record p {
      file_array = update p.file_array fd (record (p.file_array fd) { f_pos = position });
    })
moved-IsOpenTable p fd position v lt =
    let moved : FdStruct = record (p.file_array fd) { f_pos = position } in
    record {
      size = rw (used_kept p.file_array fd moved 6 2 refl) (v.size);
      tagged =
          update_every (λ f. f.flags % 2 ≡ 0 → f.flags ≡ 0) p.file_array fd moved (v.tagged fd lt)
            v.tagged;
      tables =
          update_every (λ f. f.flags ≢ 0 → f.fops_table ≢ Ftable.no_table) p.file_array fd moved
            (v.tables fd lt) v.tables;
    }

-- The invariant does not speak of the bytes in memory.
set_memory-IsValid :
    (m : Memory) (s : System) → IsValid s.keyboard → IsValid (set_memory m s).keyboard
set_memory-IsValid m s v = record {
  screen = record {
    column = v.screen.column;
    row = v.screen.row;
    shown = v.screen.shown;
    scheduled = v.screen.scheduled;
  };
  index = v.index;
  saved = v.saved;
  pending = v.pending;
}

-- The same process is shown while the terminal shown is the same.
same_table :
    (k : Keyboard) (s : System)
    → k.console.curr_terminal ≡ s.keyboard.console.curr_terminal
    → IsOpenTable (cur_pcb s)
    → IsOpenTable (cur_pcb (record s { keyboard = k }))
same_table k s e v = rw e v

take_line_terminal :
    (buf : ℕ) (nbytes : ℤ) (k : Keyboard)
    → (take_line buf nbytes k).console.curr_terminal ≡ k.console.curr_terminal
unfolding take_line
take_line_terminal buf nbytes k = (putc2-SameTerminals 10 k.console).0

terminal_read_terminal :
    (buf : ℕ) (nbytes r : ℤ) (k k' : Keyboard)
    → terminal_read buf nbytes k ≡ some (r, k')
    → k'.console.curr_terminal ≡ k.console.curr_terminal
unfolding terminal_read
terminal_read_terminal buf nbytes r k k' e = ground (arith, take_line_terminal buf nbytes k)

moved-IsValidSystem :
    (m : Memory) (fd position : ℕ) (s : System)
    → IsValidSystem s
    → fd < max_open_files
    → IsValidSystem (
        set_pcb
          (record (cur_pcb s) {
            file_array =
                update
                  (cur_pcb s).file_array
                  fd
                  (record ((cur_pcb s).file_array fd) { f_pos = position });
          })
          (set_memory m s))
moved-IsValidSystem m fd position s v lt = record {
  keyboard = set_memory-IsValid m s (v.keyboard);
  files =
      rw
        (cur_pcb-set_pcb
          (record (cur_pcb s) {
            file_array =
                update (cur_pcb s).file_array fd
                  (record ((cur_pcb s).file_array fd) { f_pos = position });
          })
          (set_memory m s))
        (moved-IsOpenTable (cur_pcb s) fd position (v.files) lt);
}

file_read-IsValidSystem :
    (fs fd buf : ℕ) (nbytes : ℤ) (s : System)
    → IsValidSystem s
    → fd < max_open_files
    → IsValidSystem (file_read fs fd buf nbytes s).1
unfolding file_read
file_read-IsValidSystem fs fd buf nbytes s v lt =
    let P : ℤ × System → Type 0 = λ o. IsValidSystem (o.1) in
    if_intro P (ltb_ℤ nbytes (pos 0)) (λ e. v)
      (λ e. if_intro P (is_zero nbytes) (λ e'. v) (λ e'. moved-IsValidSystem _ fd _ s v lt))

read_test :
    (buf n : ℕ) (fd : ℤ)
    → ((buf == 0) || out_of_range fd || (pos_part fd == 1) || (n == 0)) ≡ false
    → (pos_part fd < max_open_files) × (n ≢ 0)
read_test buf n fd h = ground arith

module _ (fs dentry_test : ℕ) (s : System) (v : IsValidSystem s) where
  stdin_out :
      (o : Option (ℤ × Keyboard))
      → ((out : ℤ × Keyboard) → o ≡ some out → IsValidSystem (record s { keyboard = out.1 }))
      → After IsValidSystem (elim o [
        | none ↦ waiting s
        | some out ↦ returned (out.0) (record s { keyboard = out.1 })
      ])
  stdin_out none h = v
  stdin_out (some out) h = h out refl

  stdin-After :
      (fd buf : ℕ) (nbytes : ℤ)
      → After IsValidSystem (fops_read fs dentry_test Ftable.stdin_table fd buf nbytes s)
  unfolding fops_read
  stdin-After fd buf nbytes = stdin_out (terminal_read buf nbytes s.keyboard) λ out e. record {
    keyboard = terminal_read-IsValid buf nbytes (out.0) s.keyboard (out.1) (v.keyboard) e;
    files =
        same_table (out.1) s (terminal_read_terminal buf nbytes (out.0) s.keyboard (out.1) e)
          (v.files);
  }

  rtc-After : After IsValidSystem (rtc_read s)
  unfolding rtc_read
  rtc-After =
      let P : Outcome → Type 0 = After IsValidSystem in
      if_intro P
        (rtc_read_waits s.keyboard.console.curr_scheduled
          (rtc_read_start s.keyboard.console.curr_scheduled s.rtc))
        (λ e. record { keyboard = v.keyboard; files = v.files })
        (λ e. record { keyboard = v.keyboard; files = v.files })

  fops_read-After :
      (t : Ftable) (fd buf : ℕ) (nbytes : ℤ)
      → t ≢ Ftable.no_table
      → fd < max_open_files
      → After IsValidSystem (fops_read fs dentry_test t fd buf nbytes s)
  unfolding fops_read
  fops_read-After no_table fd buf nbytes h lt = absurd (h refl)
  fops_read-After stdin_table fd buf nbytes h lt = stdin-After fd buf nbytes
  fops_read-After stdout_table fd buf nbytes h lt = v
  fops_read-After rtc_table fd buf nbytes h lt = rtc-After
  fops_read-After dir_table fd buf nbytes h lt = record {
    keyboard = set_memory-IsValid _ s (v.keyboard);
    files = v.files;
  }
  fops_read-After file_table fd buf nbytes h lt = file_read-IsValidSystem fs fd buf nbytes s v lt

  sys_read-After :
      (fd : ℤ) (buf : ℕ) (nbytes : ℤ)
      → After IsValidSystem (sys_read fs dentry_test fd buf nbytes s)
  unfolding sys_read
  sys_read-After fd buf nbytes =
      let file = (cur_pcb s).file_array (pos_part fd) in
      let P : Outcome → Type 0 = After IsValidSystem in
      if_intro P ((buf == 0) || out_of_range fd || (pos_part fd == 1) || (file.flags == 0)) (λ e. v)
        (λ e.
          let (lt, set) = read_test buf file.flags fd e in
          fops_read-After file.fops_table (pos_part fd) buf nbytes
            (v.files.tables (pos_part fd) lt set) lt)

  -- In a well-formed state `read` returns or waits for an interrupt, whatever the descriptor, into a buffer
  -- in the program's own page of 4 MB with one byte to spare, and the keyboard's state and the descriptors
  -- are well-formed after it. The code does not check the buffer; elsewhere it can lie over that state.
  pub sys_read-IsValidSystem :
      (fd : ℤ) (buf : ℕ) (nbytes : ℤ)
      → 0x8000000 ≤ buf
      → buf + pos_part nbytes < 0x8400000
      → After IsValidSystem (sys_read fs dentry_test fd buf nbytes s)
  sys_read-IsValidSystem fd buf nbytes in_page in_page' = sys_read-After fd buf nbytes
