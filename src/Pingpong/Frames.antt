-- ===== src/Pingpong/Frames.antt =====
-- The frames that `pingpong` shows.
use operating_system_ece.Common.{
  ℕ, zero, suc, ◌+◌, ◌-◌, ◌≤◌, ◌<◌, ◌≡◌, ◌≢◌, ◌⊎◌, inl, inr, refl, ap, ◌∙◌, arith, ◌==◌, ◌&&◌, leb,
  ltb, if◌then◌else◌, Option, some, ℤ, pos, Memory, write, List, [], ◌∷◌, ◌++◌,
}
use operating_system_ece.Strings.Length.{IsString, strlen-some}
use operating_system_ece.Support.SameAsKernel.{ece391_strlen-strlen}
use operating_system_ece.Programs.{Kernel, ece391_fdputs}
use operating_system_ece.Programs.Copying.{bytes_from}
use operating_system_ece.Pingpong.{blanks, next_char, draw}

-- A line of 80 characters with its NUL: the walls at 1 and 78, and `c` at `j`.
unfoldable pub picture : ℕ → ℕ → ℕ → ℕ
picture c j i =
    if i == 80
    then 0
    else if i == 79
    then b'\n'
    else if (i == 78)
    then b'|'
    else if (i == 1)
    then b'|'
    else if i == j
    then c
    else 32

-- `n` cells from `i` on.
unfoldable pub cells : (ℕ → ℕ) → ℕ → ℕ → List ℕ
cells f i zero = []
cells f i (suc n) = f i ∷ cells f (i + 1) n

abbrev pub frame : ℕ → ℕ → List ℕ
frame c j = cells (picture c j) 0 80

-- The frames of `move_out` and of `bounce_back`.
unfoldable pub frames_out : ℕ → ℕ → ℕ → List ℕ
frames_out zero c j = []
frames_out (suc left) c j = frame c j ++ frames_out left c (j + 1)

unfoldable pub frames_back : ℕ → ℕ → ℕ → List ℕ
frames_back zero c j = []
frames_back (suc left) c j = frame c (j - 1) ++ frames_back left c (j - 1)

-- The rounds, each with the letter after the last.
unfoldable pub show_rounds : ℕ → ℕ → List ℕ
show_rounds zero c = []
show_rounds (suc rounds) c =
    frames_out 76 c 2 ++ (frames_back 76 c 78 ++ show_rounds rounds (next_char c))

bytes_from-cells :
    (f : ℕ → ℕ) (m : Memory) (buf n i : ℕ)
    → ((j : ℕ) → i ≤ j → j < i + n → m (buf + j) ≡ f j)
    → bytes_from m (buf + i) n ≡ cells f i n
unfolding bytes_from cells
bytes_from-cells f m buf zero i h = refl
bytes_from-cells f m buf (suc n) i h =
    let next : buf + i + 1 ≡ buf + (i + 1) = omega arith in
    rw (next, h i (omega arith) (omega arith))
      (ap (λ (xs : List ℕ). f i ∷ xs)
        (bytes_from-cells f m buf n (i + 1) (λ j a b. h j (omega arith) (omega arith))))

pub blanks_lem :
    (left a b : ℕ) (m : Memory)
    → blanks left a m b ≡ (if leb a b && ltb b (a + left) then 32 else m b)
unfolding blanks write
blanks_lem zero a b m = ground arith
blanks_lem (suc left) a b m = blanks_lem left (a + 1) b (write m a 32) ∙ ground arith

-- What stays in the buffer from frame to frame.
pub record IsFramed (buf : ℕ) (m : Memory) : Type 0 where
  pub space : m buf ≡ 32
  pub left_wall : m (buf + 1) ≡ b'|'
  pub right_wall : m (buf + 78) ≡ b'|'
  pub line_end : m (buf + 79) ≡ b'\n'
  pub stop : m (buf + 80) ≡ 0

-- The buffer after the letter is drawn.
abbrev drawn : ℕ → ℕ → ℕ → Memory → Memory
drawn buf c j m = write (blanks 76 (buf + 2) m) (buf + j) c

drawn_lem :
    (buf c j i : ℕ) (m : Memory)
    → IsFramed buf m
    → 2 ≤ j
    → j < 78
    → i ≤ 80
    → drawn buf c j m (buf + i) ≡ picture c j i
unfolding write picture
drawn_lem buf c j i m f h h' hi =
    rw (blanks_lem 76 (buf + 2) (buf + i) m)
      (ground (arith, f.space, f.left_wall, f.right_wall, f.line_end, f.stop))

abbrev pub IsLetter : ℕ → Type 0
IsLetter c = (65 ≤ c) × (c ≤ 90)

pub next_char-IsLetter : (c : ℕ) → IsLetter c → IsLetter (next_char c)
unfolding next_char
next_char-IsLetter c (h, h') = (ground arith, ground arith)

picture-body : (c j i : ℕ) → IsLetter c → i < 80 → picture c j i ≢ 0
unfolding picture
picture-body c j i (h, h') hi = ground arith

drawn-IsString :
    (buf c j : ℕ) (m : Memory)
    → IsFramed buf m
    → IsLetter c
    → 2 ≤ j
    → j < 78
    → IsString (drawn buf c j m) buf 80
unfolding picture
drawn-IsString buf c j m f l h h' = record {
  body = λ i lt. rw (drawn_lem buf c j i m f h h' (omega arith)) (picture-body c j i l lt);
  stop = drawn_lem buf c j 80 m f h h' (omega arith);
}

drawn-IsFramed :
    (buf c j : ℕ) (m : Memory) → IsFramed buf m → 2 ≤ j → j < 78 → IsFramed buf (drawn buf c j m)
unfolding write
drawn-IsFramed buf c j m f h h' =
    let at : (i : ℕ) → (i ≤ 1) ⊎ (78 ≤ i) → i ≤ 80 → drawn buf c j m (buf + i) ≡ m (buf + i) =
      λ i a b. rw (blanks_lem 76 (buf + 2) (buf + i) m) (ground arith) in
    let zero_at : buf + 0 ≡ buf = omega arith in
    record {
      space = (rw zero_at at (at 0 (inl (omega arith)) (omega arith))) ∙ f.space;
      left_wall = at 1 (inl (omega arith)) (omega arith) ∙ f.left_wall;
      right_wall = at 78 (inr (omega arith)) (omega arith) ∙ f.right_wall;
      line_end = at 79 (inr (omega arith)) (omega arith) ∙ f.line_end;
      stop = at 80 (inr (omega arith)) (omega arith) ∙ f.stop;
    }

pub IsFramed-same :
    (buf : ℕ) (m m' : Memory)
    → ((i : ℕ) → i ≤ 80 → m' (buf + i) ≡ m (buf + i))
    → IsFramed buf m
    → IsFramed buf m'
IsFramed-same buf m m' same f =
    let zero_at : buf + 0 ≡ buf = omega arith in
    record {
      space = (rw zero_at at (same 0 (omega arith))) ∙ f.space;
      left_wall = same 1 (omega arith) ∙ f.left_wall;
      right_wall = same 78 (omega arith) ∙ f.right_wall;
      line_end = same 79 (omega arith) ∙ f.line_end;
      stop = same 80 (omega arith) ∙ f.stop;
    }

-- A call that leaves the buffer as it is and shows nothing.
pub record IsQuiet {W : Type 0} (out : W → List ℕ) (buf : ℕ) (m : Memory) (w : W)
    (result : ℤ × Memory × W) : Type 0 where
  pub same : (i : ℕ) → i ≤ 80 → result.1 (buf + i) ≡ m (buf + i)
  pub shown : out (result.2) ≡ out w

-- `write` to the screen, which shows the bytes and leaves the memory as it is.
pub record Displays {W : Type 0} (out : W → List ℕ) (buf n : ℕ) (m : Memory) (w : W)
    (result : ℤ × Memory × W) : Type 0 where
  pub memory : result.1 ≡ m
  pub shown : out (result.2) ≡ out w ++ bytes_from m buf n

module _ {W : Type 0} (k : Kernel W) (fuel : ℕ) (literal : List ℕ → ℕ) (buf garbage : ℕ)
    (rtc_fd : ℤ) (out : W → List ℕ) (enough : 80 < fuel)
    (displays : (n : ℕ) (m : Memory) (w : W)
      → Displays out buf n m w (k.call_write (pos 1) buf n m w))
    (ticks : (m : Memory) (w : W) → IsQuiet out buf m w (k.call_read rtc_fd garbage 4 m w)) where
  -- The program goes on with its buffer framed, after `o` more was shown.
  abbrev pub Shows : List ℕ → W → Option (Memory × W) → Type 0
  Shows o w r =
      (m' : Memory) × (w' : W) × (r ≡ some (m', w')) × IsFramed buf m' × (out w' ≡ out w ++ o)

  pub draw-Shows :
      (c j : ℕ) (m : Memory) (w : W)
      → IsFramed buf m
      → IsLetter c
      → 2 ≤ j
      → j < 78
      → Shows (frame c j) w (draw k fuel literal buf garbage rtc_fd c j m w)
  unfolding draw ece391_fdputs
  draw-Shows c j m w f l h h' =
      let m1 : Memory = drawn buf c j m in
      let length_80 =
        ece391_strlen-strlen fuel m1 buf
        ∙ strlen-some fuel m1 buf 80 (drawn-IsString buf c j m f l h h') enough in
      let put = displays 80 m1 w in
      let w1 : W = (k.call_write (pos 1) buf 80 m1 w).2 in
      let tick = ticks m1 w1 in
      let zero_at : buf + 0 ≡ buf = omega arith in
      let text : bytes_from m1 buf 80 ≡ frame c j = rw zero_at at (
        bytes_from-cells (picture c j) m1 buf 80 0
          (λ i a b. drawn_lem buf c j i m f h h' (omega arith))) in
      (
        (k.call_read rtc_fd garbage 4 m1 w1).1,
        (k.call_read rtc_fd garbage 4 m1 w1).2,
        rw (length_80, put.memory) refl,
        IsFramed-same buf m1 _ tick.same (drawn-IsFramed buf c j m f h h'),
        tick.shown ∙ put.shown ∙ ap (λ (xs : List ℕ). out w ++ xs) text,
      )
