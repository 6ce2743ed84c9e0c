-- ===== src/Screen/Cells.antt =====
-- What clearing and scrolling do to a page of cells: two bytes a cell, the character first.
use operating_system_ece.Common.{
  ℕ, zero, suc, ◌+◌, ◌-◌, ◌*◌, ◌%◌, ◌≤◌, ◌<◌, ◌≡◌, refl, ◌∙◌, ◌⊎◌, ◌&&◌, arith, ltb, leb, ◌==◌,
  if◌then◌else◌, Memory, write,
}
use operating_system_ece.Screen.{
  Console, num_cols, num_rows, attrib, video, blank_cells, move_cells, scroll_page, clear, scroll,
}

-- Cells `lo` to `hi` of the page at `base` blank.
abbrev pub blanked : Memory → ℕ → ℕ → ℕ → Memory
blanked m base lo hi a =
    if leb (base + 2 * lo) a && ltb a (base + 2 * hi)
    then (if (a - base) % 2 == 0 then 32 else attrib)
    else m a

-- Cells `lo` to `hi` with the characters from one row below.
abbrev pub moved : Memory → ℕ → ℕ → ℕ → Memory
moved m base lo hi a =
    if leb (base + 2 * lo) a && ltb a (base + 2 * hi)
    then (if (a - base) % 2 == 0 then m (a + 2 * num_cols) else attrib)
    else m a

blanked_step :
    (m : Memory) (base i hi a : ℕ)
    → i < hi
    → blanked (write (write m (base + 2 * i) 32) (base + 2 * i + 1) attrib) base (i + 1) hi a
      ≡ blanked m base i hi a
unfolding write
blanked_step m base i hi a h = ground arith

pub blank_cells-blanked :
    (n : ℕ) (m : Memory) (base i hi a : ℕ)
    → i + n ≡ hi
    → blank_cells n m base i a ≡ blanked m base i hi a
unfolding blank_cells
blank_cells-blanked zero m base i hi a e = ground arith
blank_cells-blanked (suc n) m base i hi a e =
    blank_cells-blanked n _ base (i + 1) hi a (omega arith)
    ∙ blanked_step m base i hi a (omega arith)

moved_step :
    (m : Memory) (base i hi a : ℕ)
    → i < hi
    → moved
        (write (write m (base + 2 * i) (m (base + 2 * (i + num_cols)))) (base + 2 * i + 1) attrib)
        base
        (i + 1)
        hi
        a
      ≡ moved m base i hi a
unfolding write
moved_step m base i hi a h = ground arith

pub move_cells-moved :
    (n : ℕ) (m : Memory) (base i hi a : ℕ)
    → i + n ≡ hi
    → move_cells n m base i a ≡ moved m base i hi a
unfolding move_cells
move_cells-moved zero m base i hi a e = ground arith
move_cells-moved (suc n) m base i hi a e =
    move_cells-moved n _ base (i + 1) hi a (omega arith) ∙ moved_step m base i hi a (omega arith)

-- The character and the attribute at row `r` and column `c`.
abbrev pub char_at : Memory → ℕ → ℕ → ℕ → ℕ
char_at m base r c = m (base + 2 * (num_cols * r + c))

abbrev pub attrib_at : Memory → ℕ → ℕ → ℕ → ℕ
attrib_at m base r c = m (base + 2 * (num_cols * r + c) + 1)

-- The page moved up by one row: the last row is blank, and nothing outside the page has changed.
pub record Scrolled (m m' : Memory) (base : ℕ) : Type 0 where
  pub up :
      (r c : ℕ) → r + 1 < num_rows → c < num_cols → char_at m' base r c ≡ char_at m base (r + 1) c
  pub last : (c : ℕ) → c < num_cols → char_at m' base (num_rows - 1) c ≡ 32
  pub attribs : (r c : ℕ) → r < num_rows → c < num_cols → attrib_at m' base r c ≡ attrib
  pub outside : (a : ℕ) → (a < base) ⊎ (base + 2 * (num_rows * num_cols) ≤ a) → m' a ≡ m a

scroll_page-blanked :
    (m : Memory) (base a : ℕ)
    → scroll_page m base a ≡ blanked (move_cells 1920 m base 0) base 1920 2000 a
unfolding scroll_page
scroll_page-blanked m base a =
    blank_cells-blanked 80 (move_cells 1920 m base 0) base 1920 2000 a refl

pub scroll_page-Scrolled : (m : Memory) (base : ℕ) → Scrolled m (scroll_page m base) base
scroll_page-Scrolled m base = record {
  up = λ r c h h'. ground (arith, cell (base + 2 * (80 * r + c)), index r c (r + 1));
  last = λ c h. ground (arith, cell (base + 2 * (80 * 24 + c)));
  attribs = λ r c h h'. ground (arith, cell (base + 2 * (80 * r + c) + 1));
  outside = λ a h. ground (arith, cell a);
}
  where
    cell :
        (a : ℕ)
        → scroll_page m base a ≡ (
            if leb (base + 3840) a && ltb a (base + 4000)
            then (if (a - base) % 2 == 0 then 32 else attrib)
            else if leb base a && ltb a (base + 3840)
            then (if (a - base) % 2 == 0 then m (a + 160) else attrib)
            else m a)
    cell a = scroll_page-blanked m base a ∙ ground (arith, move_cells-moved 1920 m base 0 1920 a)

    index : (r c r' : ℕ) → r' ≡ r + 1 → base + 2 * (80 * r + c) + 160 ≡ base + 2 * (80 * r' + c)
    index r c r' e = omega arith

-- `scroll(1)` moves the displayed page up by one row, and `scroll(0)` the page of the running process:
-- the last row is blank, all cells have the one attribute, and nothing outside the page changes.
pub scroll-Scrolled :
    (s : Console)
    → Scrolled s.mem (scroll 1 s).mem video × Scrolled s.mem (scroll 0 s).mem s.video_mem
unfolding scroll
scroll-Scrolled s = (scroll_page-Scrolled s.mem video, scroll_page-Scrolled s.mem s.video_mem)

-- `clear` blanks every cell of the displayed page, and writes nowhere else.
pub clear-blanked :
    (s : Console) (a : ℕ) → (clear s).mem a ≡ blanked s.mem video 0 (num_rows * num_cols) a
unfolding clear
clear-blanked s a = blank_cells-blanked 2000 s.mem video 0 2000 a refl
