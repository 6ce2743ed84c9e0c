-- ===== src/Screen/Cursor.antt =====
-- The cursors stay on the screen, and printing writes only to the page that it prints on.
use operating_system_ece.Common.{
  ℕ, ◌+◌, ◌-◌, ◌*◌, ◌/◌, ◌%◌, ◌≤◌, ◌<◌, ◌≡◌, refl, ◌≢◌, ◌⊎◌, inl, inr, arith, ◌==◌, Bool-cases, ℤ,
  ◌∷◌, write, Memory,
}
use operating_system_ece.Screen.{
  Console, initial_console, num_cols, num_rows, video, put_cell, scroll_at_end, scroll,
  update_cursor, putc, putc2, set_cursors, switch_terminal, clear, get_screenx, get_screeny,
}
use operating_system_ece.Screen.Cells.{scroll-Scrolled}

-- The cursors of the three terminals are inside the page, and the two current terminals are among
-- the three.
pub record IsOnScreen (s : Console) : Type 0 where
  pub column : (t : ℕ) → t < 3 → s.screen_x t < num_cols
  pub row : (t : ℕ) → t < 3 → s.screen_y t < num_rows
  pub shown : (1 ≤ s.curr_terminal) × (s.curr_terminal ≤ 3)
  pub scheduled : (1 ≤ s.curr_scheduled) × (s.curr_scheduled ≤ 3)

-- The screen that the kernel starts with.
pub initial_console-IsOnScreen : (m : Memory) → IsOnScreen (initial_console m)
initial_console-IsOnScreen m = record {
  column = λ t h. omega arith;
  row = λ t h. omega arith;
  shown = (omega arith, omega arith);
  scheduled = (omega arith, omega arith);
}

-- `a` lies outside the page at `base`.
abbrev pub Outside : ℕ → ℕ → Type 0
Outside base a = (a < base) ⊎ (base + 2 * (num_rows * num_cols) ≤ a)

scroll-Outside :
    (x base : ℕ) (s : Console) (a : ℕ)
    → ((x ≡ 0) × (s.video_mem ≡ base)) ⊎ ((x ≡ 1) × (video ≡ base))
    → Outside base a
    → (scroll x s).mem a ≡ s.mem a
scroll-Outside x base s a (inl (e, v)) out = rw e ((scroll-Scrolled s).1.outside a (omega arith))
scroll-Outside x base s a (inr (e, v)) out = rw e ((scroll-Scrolled s).0.outside a (omega arith))

scroll_fields :
    (x : ℕ) (s : Console)
    → ((scroll x s).curr_terminal ≡ s.curr_terminal)
      × ((scroll x s).curr_scheduled ≡ s.curr_scheduled)
      × ((scroll x s).video_mem ≡ s.video_mem)
unfolding scroll
scroll_fields x s = ground arith

-- Printing at the cursor of terminal `t`: in the page at `base`, which `scroll x` moves.
module _ (base x t c : ℕ) (s : Console) where
  abbrev pub printed : Console
  printed = scroll_at_end x t (put_cell base t c s)

  printed_column :
      (j : ℕ) → s.screen_x j < num_cols → s.screen_x t < num_cols → printed.screen_x j < num_cols
  unfolding scroll_at_end put_cell
  printed_column j h h' = ground arith

  printed_row :
      (j : ℕ)
      → s.screen_y j < num_rows
      → s.screen_y t < num_rows
      → s.screen_x t < num_cols
      → printed.screen_y j < num_rows
  unfolding scroll_at_end put_cell
  printed_row j h h' h'' = ground arith

  printed_terminals :
      (printed.curr_terminal ≡ s.curr_terminal)
      × (printed.curr_scheduled ≡ s.curr_scheduled)
      × (printed.video_mem ≡ s.video_mem)
  unfolding scroll_at_end put_cell
  printed_terminals = ground (arith, scroll_fields x (put_cell base t c s))

  put_cell-Outside :
      s.screen_x t < num_cols
      → s.screen_y t < num_rows
      → (a : ℕ) → Outside base a
      → (put_cell base t c s).mem a ≡ s.mem a
  unfolding put_cell write
  put_cell-Outside hx hy a out = ground arith

  put_cell-video_mem : (put_cell base t c s).video_mem ≡ s.video_mem
  unfolding put_cell
  put_cell-video_mem = ground arith

  printed-Outside :
      ((x ≡ 0) × (s.video_mem ≡ base)) ⊎ ((x ≡ 1) × (video ≡ base))
      → s.screen_x t < num_cols
      → s.screen_y t < num_rows
      → (a : ℕ) → Outside base a
      → printed.mem a ≡ s.mem a
  unfolding scroll_at_end
  printed-Outside which hx hy a out =
      let which' : ((x ≡ 0) × ((put_cell base t c s).video_mem ≡ base))
          ⊎ ((x ≡ 1) × (video ≡ base)) =
        ground (arith, put_cell-video_mem) in
      ground (
        arith,
        put_cell-Outside hx hy a out,
        scroll-Outside x base (put_cell base t c s) a which' out,
      )

-- With the cursors on the screen, `putc2` keeps them there and writes only to the displayed page.
pub putc2-IsOnScreen :
    (c : ℕ) (s : Console)
    → IsOnScreen s
    → IsOnScreen (putc2 c s) × ((a : ℕ) → Outside video a → (putc2 c s).mem a ≡ s.mem a)
unfolding putc2 update_cursor
putc2-IsOnScreen c s v =
    let t : ℕ = s.curr_terminal - 1 in
    let lt : t < 3 = omega arith in
    let same = printed_terminals video 1 t c s in
    (
      record {
        column = λ j h. printed_column video 1 t c s j (v.column j h) (v.column t lt);
        row = λ j h. printed_row video 1 t c s j (v.row j h) (v.row t lt) (v.column t lt);
        shown = omega arith;
        scheduled = omega arith;
      },
      printed-Outside video 1 t c s (inr (refl, refl)) (v.column t lt) (v.row t lt),
    )

-- With the cursors on the screen, `putc` keeps them there and writes only to the page of the
-- running process.
pub putc-IsOnScreen :
    (c : ℕ) (s : Console)
    → IsOnScreen s
    → IsOnScreen (putc c s) × ((a : ℕ) → Outside s.video_mem a → (putc c s).mem a ≡ s.mem a)
unfolding putc update_cursor
putc-IsOnScreen c s v =
    let t : ℕ = s.curr_scheduled - 1 in
    let lt : t < 3 = omega arith in
    let same = printed_terminals s.video_mem 0 t c s in
    let column =
      λ (j : ℕ) (h : j < 3). printed_column s.video_mem 0 t c s j (v.column j h) (v.column t lt) in
    let row = λ (j : ℕ) (h : j < 3).
      printed_row s.video_mem 0 t c s j (v.row j h) (v.row t lt) (v.column t lt) in
    let outside =
      printed-Outside s.video_mem 0 t c s (inl (refl, refl)) (v.column t lt) (v.row t lt) in
    elim (Bool-cases (s.curr_scheduled == s.curr_terminal)) [
      | inl shown ↦ rw shown (
        record { column = column; row = row; shown = omega arith; scheduled = omega arith },
        outside,
      )
      | inr hidden ↦ rw hidden (
        record { column = column; row = row; shown = omega arith; scheduled = omega arith },
        outside,
      )
    ]

-- `set_cursors` keeps the cursors on the screen whatever it is given.
pub set_cursors-IsOnScreen : (x y : ℤ) (s : Console) → IsOnScreen s → IsOnScreen (set_cursors x y s)
unfolding set_cursors
set_cursors-IsOnScreen x y s v = record {
  column = λ t h. ground (arith, v.column t h);
  row = λ t h. ground (arith, v.row t h);
  shown = ground arith;
  scheduled = ground arith;
}

-- So do the switch to another of the three terminals, and `clear`.
pub switch_terminal-IsOnScreen :
    (from to : ℕ) (s : Console)
    → 1 ≤ to
    → to ≤ 3
    → IsOnScreen s
    → IsOnScreen (switch_terminal from to s)
unfolding switch_terminal update_cursor
switch_terminal-IsOnScreen from to s h h' v = record {
  column = v.column;
  row = v.row;
  shown = (h, h');
  scheduled = v.scheduled;
}

pub clear-IsOnScreen : (s : Console) → IsOnScreen s → IsOnScreen (clear s)
unfolding clear
clear-IsOnScreen s v = record {
  column = v.column;
  row = v.row;
  shown = v.shown;
  scheduled = v.scheduled;
}

-- The four writes of `update_cursor` give the hardware the cell of the cursor: low byte, high byte.
pub update_cursor-ports :
    (x y : ℕ) (s : Console)
    → x < num_cols
    → y < num_rows
    → (hi lo : ℕ) × ((update_cursor x y s).ports
        ≡ (hi, 0x3D5) ∷ (0x0E, 0x3D4) ∷ (lo, 0x3D5) ∷ (0x0F, 0x3D4) ∷ s.ports)
      × (hi < 256)
      × (lo < 256)
      × (256 * hi + lo ≡ y * num_cols + x)
unfolding update_cursor
update_cursor-ports x y s hx hy = (
  (y * num_cols + x) % 65536 / 256 % 256,
  (y * num_cols + x) % 65536 % 256,
  refl,
  omega arith,
  omega arith,
  omega arith,
)

-- Printing changes neither which terminal is shown, nor which runs, nor its page.
abbrev pub SameTerminals : Console → Console → Type 0
SameTerminals s s' =
    (s'.curr_terminal ≡ s.curr_terminal)
    × (s'.curr_scheduled ≡ s.curr_scheduled)
    × (s'.video_mem ≡ s.video_mem)

pub putc2-SameTerminals : (c : ℕ) (s : Console) → SameTerminals s (putc2 c s)
unfolding putc2 update_cursor
putc2-SameTerminals c s = printed_terminals video 1 (s.curr_terminal - 1) c s

pub putc-SameTerminals : (c : ℕ) (s : Console) → SameTerminals s (putc c s)
unfolding putc update_cursor
putc-SameTerminals c s =
    let same = printed_terminals s.video_mem 0 (s.curr_scheduled - 1) c s in
    elim (Bool-cases (s.curr_scheduled == s.curr_terminal)) [
      | inl shown ↦ rw shown same
      | inr hidden ↦ rw hidden same
    ]

printed_corner :
    (base x t c : ℕ) (s : Console)
    → s.screen_x t < num_cols
    → s.screen_y t < num_rows
    → (printed base x t c s).screen_x t ≡ 0
    → (printed base x t c s).screen_y t ≢ 0
unfolding scroll_at_end put_cell
printed_corner base x t c s hx hy e z = ground arith

-- After a character was printed the cursor is not in the upper left corner.
pub putc2_corner :
    (c : ℕ) (s : Console) → IsOnScreen s → get_screenx (putc2 c s) ≡ 0 → get_screeny (putc2 c s) ≢ 0
unfolding putc2 update_cursor
putc2_corner c s v =
    let t : ℕ = s.curr_terminal - 1 in
    let lt : t < 3 = omega arith in
    let same = (printed_terminals video 1 t c s).0 in
    rw same (printed_corner video 1 t c s (v.column t lt) (v.row t lt))

pub set_cursors-SameTerminals : (x y : ℤ) (s : Console) → SameTerminals s (set_cursors x y s)
unfolding set_cursors
set_cursors-SameTerminals x y s = ground arith
