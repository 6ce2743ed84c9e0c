-- ===== src/Screen/Switch.antt =====
-- `switch_terminal` saves the characters on the screen and shows those of the other terminal.
use native.Mathlib.Decide.{ℕ_discrete}
use operating_system_ece.Common.{
  ℕ, zero, suc, ◌+◌, ◌-◌, ◌*◌, ◌%◌, ◌≤◌, ◌<◌, ◌≡◌, refl, sym, ◌∙◌, ◌≢◌, ◌⊎◌, ◌&&◌, inl, inr, arith,
  ltb, leb, ◌==◌, if◌then◌else◌, Bool-cases, Memory, write,
}
use operating_system_ece.Screen.{
  Console, num_cols, num_rows, video, video_buf, swap_cells, switch_terminal, update_cursor,
}

-- The pages at `f`, `t` and the displayed one do not overlap.
abbrev pub Disjoint : ℕ → ℕ → Type 0
Disjoint f t = (video + 4096 ≤ f) × (video + 4096 ≤ t) × ((f + 4096 ≤ t) ⊎ (t + 4096 ≤ f))

-- Cells `lo` to `hi` switched.
abbrev pub switched : Memory → ℕ → ℕ → ℕ → ℕ → Memory
switched m f t lo hi a =
    if leb (video + 2 * lo) a && ltb a (video + 2 * hi) && ((a - video) % 2 == 0)
    then m (t + (a - video))
    else if leb (f + 2 * lo) a && ltb a (f + 2 * hi) && ((a - f) % 2 == 0)
    then m (video + (a - f))
    else m a

-- One round from cell `i`, whose effect on single bytes is `step`.
module _ (m m1 : Memory) (f t i hi : ℕ) (d : Disjoint f t) (h : i < hi) (h' : hi ≤ 2000)
    (shown : m1 (video + 2 * i) ≡ m (t + 2 * i)) (saved : m1 (f + 2 * i) ≡ m (video + 2 * i))
    (other : (b : ℕ) → b ≢ video + 2 * i → b ≢ f + 2 * i → m1 b ≡ m b) where
  switched_shown : switched m1 f t (i + 1) hi (video + 2 * i) ≡ switched m f t i hi (video + 2 * i)
  switched_shown = ground (arith, shown)

  switched_saved : switched m1 f t (i + 1) hi (f + 2 * i) ≡ switched m f t i hi (f + 2 * i)
  switched_saved = ground (arith, saved)

  switched_other :
      (a : ℕ)
      → a ≢ video + 2 * i
      → a ≢ f + 2 * i
      → switched m1 f t (i + 1) hi a ≡ switched m f t i hi a
  switched_other a p q =
      elim (Bool-cases
        (leb (video + 2 * i) a && ltb a (video + 2 * hi) && ((a - video) % 2 == 0))) [
          | inl here ↦ ground (arith, other (t + (a - video)))
          | inr not_here ↦
              elim (Bool-cases (leb (f + 2 * i) a && ltb a (f + 2 * hi) && ((a - f) % 2 == 0))) [
                | inl here ↦ ground (arith, other (video + (a - f)))
                | inr nowhere ↦ ground (arith, other a p q)
              ]
        ]

  switched_step : (a : ℕ) → switched m1 f t (i + 1) hi a ≡ switched m f t i hi a
  switched_step a = elim (ℕ_discrete a (video + 2 * i)) [
    | yes e ↦ rw e switched_shown
    | no ne ↦ elim (ℕ_discrete a (f + 2 * i)) [
      | yes e ↦ rw e switched_saved
      | no ne' ↦ switched_other a ne ne'
    ]
  ]

-- The two writes of a round.
module _ (m : Memory) (f t i : ℕ) (d : Disjoint f t) (h : i < 2000) where
  abbrev one_swap : Memory
  one_swap =
      let saved = write m (f + 2 * i) (m (video + 2 * i)) in
      write saved (video + 2 * i) (saved (t + 2 * i))

  one_swap_shown : one_swap (video + 2 * i) ≡ m (t + 2 * i)
  unfolding write
  one_swap_shown = ground arith

  one_swap_saved : one_swap (f + 2 * i) ≡ m (video + 2 * i)
  unfolding write
  one_swap_saved = ground arith

  one_swap_other : (b : ℕ) → b ≢ video + 2 * i → b ≢ f + 2 * i → one_swap b ≡ m b
  unfolding write
  one_swap_other b p q = ground arith

swap_cells-switched :
    (n : ℕ) (m : Memory) (f t i hi a : ℕ)
    → Disjoint f t
    → i + n ≡ hi
    → hi ≤ 2000
    → swap_cells n m f t i a ≡ switched m f t i hi a
unfolding swap_cells
swap_cells-switched zero m f t i hi a d e h = ground arith
swap_cells-switched (suc n) m f t i hi a d e h =
    let lt : i < 2000 = omega arith in
    let m1 : Memory = one_swap m f t i d lt in
    swap_cells-switched n m1 f t (i + 1) hi a d (omega arith) h
    ∙ switched_step m m1 f t i hi d (omega arith) h (one_swap_shown m f t i d lt)
        (one_swap_saved m f t i d lt) (one_swap_other m f t i d lt) a

-- Terminals `from` and `to` are two of the three.
pub record AreTwo (from to : ℕ) : Type 0 where
  pub first : (1 ≤ from) × (from ≤ 3)
  pub second : (1 ≤ to) × (to ≤ 3)
  pub apart : from ≢ to

AreTwo-Disjoint : (from to : ℕ) → AreTwo from to → Disjoint (video_buf from) (video_buf to)
AreTwo-Disjoint from to two = ground arith

-- `switch_terminal` from one of the three terminals to another puts the characters of the screen
-- into the buffer of the terminal that it leaves and those of the other's buffer on the screen;
-- every other byte stays, and the terminal shown is the new one.
pub switch_terminal-switched :
    (from to : ℕ) (s : Console)
    → AreTwo from to
    → ((switch_terminal from to s).curr_terminal ≡ to)
      × ((a : ℕ)
          → (switch_terminal from to s).mem a
            ≡ switched s.mem (video_buf from) (video_buf to) 0 (num_rows * num_cols) a)
unfolding switch_terminal update_cursor
switch_terminal-switched from to s two = (
  refl,
  λ a.
      swap_cells-switched 2000 s.mem (video_buf from) (video_buf to) 0 2000 a
        (AreTwo-Disjoint from to two) refl (omega arith),
)

-- The two places of cell `i`.
shown_at :
    (m : Memory) (f t i : ℕ) → i < 2000 → switched m f t 0 2000 (video + 2 * i) ≡ m (t + 2 * i)
shown_at m f t i h = ground arith

saved_at :
    (m : Memory) (f t i : ℕ)
    → i < 2000
    → Disjoint f t
    → switched m f t 0 2000 (f + 2 * i) ≡ m (video + 2 * i)
saved_at m f t i h d = ground arith

-- Switching to another of the three terminals and back shows the characters that were on the
-- screen, whatever was written in between, if it left the first terminal's buffer alone.
pub switch_terminal_back :
    (from to : ℕ) (s s' : Console) (i : ℕ)
    → AreTwo from to
    → i < num_rows * num_cols
    → ((a : ℕ)
        → video_buf from ≤ a
        → a < video_buf from + 4096
        → s'.mem a ≡ (switch_terminal from to s).mem a)
    → (switch_terminal to from s').mem (video + 2 * i) ≡ s.mem (video + 2 * i)
switch_terminal_back from to s s' i two h kept =
    let back : AreTwo to from = record {
      first = two.second;
      second = two.first;
      apart = λ e. two.apart (sym e);
    } in
    let f : ℕ = video_buf from in
    (switch_terminal-switched to from s' back).1 (video + 2 * i)
    ∙ (shown_at s'.mem (video_buf to) f i h
        ∙ (kept (f + 2 * i) (omega arith) (omega arith)
            ∙ ((switch_terminal-switched from to s two).1 (f + 2 * i)
                ∙ saved_at s.mem f (video_buf to) i h (AreTwo-Disjoint from to two))))
