-- ===== src/Syserr/Steps.antt =====
-- One step of a test of syscalls/ece391syserr.c on a kernel that behaves as documented.
use operating_system_ece.Common.{
  ℕ, zero, suc, ◌+◌, ◌≤◌, ◌<◌, ◌≡◌, refl, ap, ◌∙◌, arith, Bool, false, Option, some, ◌>>=◌, ℤ, pos,
  ◌+ℤ◌, Memory, List, ◌++◌, length,
}
use operating_system_ece.Programs.{Kernel, ece391_fdputs}
use operating_system_ece.Syserr.{put_text, expect_error, expect_errors, conclude}
use operating_system_ece.Syserr.Documented.{Stands, Fails, Documented}

module _ {W : Type 0} (opened : W → ℕ → Bool) (out : W → List ℕ) where
  -- No descriptor is open but the terminal's, and `o` was shown.
  pub record Ready (o : List ℕ) (w : W) : Type 0 where
    pub free : (i : ℕ) → 2 ≤ i → i < 8 → opened w i ≡ false
    pub shown : out w ≡ o

  -- No failure so far, and ready again.
  abbrev pub Gives : Memory → List ℕ → Option (ℕ × Memory × W) → Type 0
  Gives m o r = (w' : W) × (r ≡ some (0, m, w')) × Ready o w'

  pub Gives-bind :
      (m : Memory) (o o' : List ℕ) (x : Option (ℕ × Memory × W))
      (f : ℕ × Memory × W → Option (ℕ × Memory × W))
      → Gives m o x
      → ((w' : W) → Ready o w' → Gives m o' (f (0, m, w')))
      → Gives m o' (x >>= f)
  Gives-bind m o o' x f (w', e, r) h = rw e (h w' r)

module _ {W : Type 0} (k : Kernel W) (fuel : ℕ) (literal : List ℕ → ℕ) (buf : ℕ)
    (opened : W → ℕ → Bool) (out : W → List ℕ) (m : Memory) where
  pub expect_error-Fails :
      (call : Memory → W → ℤ × Memory × W) (text o : List ℕ) (w : W)
      → Ready opened out o w
      → Fails opened out m w (call m w)
      → Gives opened out m o (expect_error k fuel literal buf call text (0, m, w))
  unfolding expect_error ◌+ℤ◌
  expect_error-Fails call text o w r f =
      let w1 : W = (call m w).2 in
      (
        w1,
        rw f.value (ap (λ (x : Memory). some (0, x, w1)) f.memory),
        record { free = λ i h h'. rw (f.files i) (r.free i h h'); shown = f.shown ∙ r.shown },
      )

  pub Fails-each :
      (call : ℕ → Memory → W → ℤ × Memory × W) (text o : List ℕ) (left i : ℕ) (w : W)
      → ((j : ℕ) (v : W)
          → i ≤ j
          → j < i + left
          → Ready opened out o v
          → Fails opened out m v (call j m v))
      → Ready opened out o w
      → Gives opened out m o (expect_errors k fuel literal buf call text left i (0, m, w))
  unfolding expect_errors
  Fails-each call text o zero i w h r = (w, refl, r)
  Fails-each call text o (suc left) i w h r =
      Gives-bind opened out m o o _ (expect_errors k fuel literal buf call text left (i + 1))
        (expect_error-Fails (call i) text o w r (h i w (omega arith) (omega arith) r))
        (λ w' r'.
          Fails-each call text o left (i + 1) w'
            (λ j v l l' rv. h j v (omega arith) (omega arith) rv) r')

  pub conclude-Ready :
      (failed passed o : List ℕ) (missing : List ℕ → Type 0) (w : W)
      → Documented opened out m k literal missing
      → Stands fuel literal m passed
      → Ready opened out o w
      → Gives opened out m (o ++ passed) (conclude k fuel literal buf failed passed (0, m, w))
  unfolding conclude put_text ece391_fdputs
  conclude-Ready failed passed o missing w d t r =
      let (memory, files, shown) = d.write_stdout (literal passed) (length passed) w in
      let w1 : W = (k.call_write (pos 1) (literal passed) (length passed) m w).2 in
      (
        w1,
        rw t.measured (ap (λ (x : Memory). some (0, x, w1)) memory),
        record {
          free = λ i h h'. rw (files i) (r.free i h h');
          shown = rw (shown, r.shown, t.there) refl;
        },
      )
