-- ===== src/Syserr/Passing.antt =====
-- The tests of syscalls/ece391syserr.c on a kernel that behaves as documented.
use operating_system_ece.Common.{
  ℕ, ◌+◌, ◌≤◌, ◌<◌, inl, inr, refl, arith, Bool, Option, ◌>>=◌, ℤ, pos, Memory, List, [], ◌∷◌, ◌++◌,
  codes,
}
use native.Mathlib.Decide.{dec_lt}
use mathlib.Core.List.{Memᴰ}
use operating_system_ece.Programs.{Kernel}
use operating_system_ece.Syserr.{
  neg_num, big_num, expect_error, expect_errors, conclude, err_neg_fd, err_big_fd, err_open_lots,
  err_open, err_unopened,
}
use operating_system_ece.Syserr.Documented.{Stands, IsClosed, Fails, Documented}
use operating_system_ece.Syserr.Steps.{
  Ready, Gives, Gives-bind, expect_error-Fails, Fails-each, conclude-Ready,
}
use operating_system_ece.Syserr.Rounds.{open_rounds-HasOpened, close_rounds-HasClosed}

-- What the tests print when they pass.
abbrev pub passes : List (List ℕ)
passes =
    codes "err_neg_fd: PASS\n"
    ∷ codes "err_big_fd: PASS\n"
    ∷ codes "err_open_lots: PASS\n"
    ∷ codes "err_open: PASS\n"
    ∷ codes "err_unopened: PASS\n"
    ∷ codes "err_vidmap: PASS\n"
    ∷ codes "err_stdin_out: PASS\n"
    ∷ codes "err_syscall_num: PASS\n"
    ∷ codes "\nOverall Tests: PASS\n"
    ∷ []

abbrev pub missing_names : List (List ℕ)
missing_names = codes "helloo" ∷ codes "shel" ∷ [] ∷ []

-- The texts of the verdicts stand in the memory, and the three wrong names are missing.
module _ {W : Type 0} (k : Kernel W) (fuel : ℕ) (literal : List ℕ → ℕ) (buf : ℕ)
    (opened : W → ℕ → Bool) (out : W → List ℕ) (m : Memory) (missing : List ℕ → Type 0)
    (d : Documented opened out m k literal missing)
    (wrong : (name : List ℕ) → Memᴰ name missing_names → missing name)
    (texts : (t : List ℕ) → Memᴰ t passes → Stands fuel literal m t) where
  -- A test that passes: it is ready again, and has shown one line more.
  abbrev pub Passes : List ℕ → (Memory → W → Option (ℕ × Memory × W)) → Type 0
  Passes line test =
      (o : List ℕ) (w : W) → Ready opened out o w → Gives opened out m (o ++ line) (test m w)

  -- One call, and what follows it.
  pub then_fails :
      (call : Memory → W → ℤ × Memory × W) (text o o' : List ℕ) (w : W)
      (f : ℕ × Memory × W → Option (ℕ × Memory × W))
      → Ready opened out o w
      → Fails opened out m w (call m w)
      → ((w' : W) → Ready opened out o w' → Gives opened out m o' (f (0, m, w')))
      → Gives opened out m o' (expect_error k fuel literal buf call text (0, m, w) >>= f)
  then_fails call text o o' w f r fails h =
      Gives-bind opened out m o o' _ f
        (expect_error-Fails k fuel literal buf opened out m call text o w r fails) h

  pub concluded :
      (failed passed o : List ℕ) (w : W)
      → Memᴰ passed passes
      → Ready opened out o w
      → Gives opened out m (o ++ passed) (conclude k fuel literal buf failed passed (0, m, w))
  concluded failed passed o w t r =
      conclude-Ready k fuel literal buf opened out m failed passed o missing w d (texts passed t) r

  bad_fd-Passes :
      (fd : ℤ) (failed passed : List ℕ)
      → ((w : W) → IsClosed (opened w) fd)
      → Memᴰ passed passes
      → Passes passed (λ m w. do
        s1 ← expect_error k fuel literal buf (k.call_read fd buf 31) (codes "read fail\n") (0, m, w)
        s2 ← expect_error k fuel literal buf (k.call_write fd buf 31) (codes "write fail\n") s1
        s3 ← expect_error k fuel literal buf (k.call_close fd) (codes "close fail\n") s2
        conclude k fuel literal buf failed passed s3)
  bad_fd-Passes fd failed passed closed t o w r =
      then_fails _ _ o _ w _ r (d.read_closed fd buf 31 w (closed w)) (λ w1 r1.
        then_fails _ _ o _ w1 _ r1 (d.write_closed fd buf 31 w1 (closed w1)) (λ w2 r2.
          then_fails _ _ o _ w2 _ r2 (d.close_closed fd w2 (closed w2))
            (λ w3 r3. concluded failed passed o w3 t r3)))

  pub err_neg_fd-Passes : Passes (codes "err_neg_fd: PASS\n") (err_neg_fd k fuel literal buf)
  unfolding err_neg_fd
  err_neg_fd-Passes =
      bad_fd-Passes neg_num (codes "err_neg_fd: FAIL\n") (codes "err_neg_fd: PASS\n") (λ w. tt)
        (Memᴰ.head refl)

  pub err_big_fd-Passes : Passes (codes "err_big_fd: PASS\n") (err_big_fd k fuel literal buf)
  unfolding err_big_fd
  err_big_fd-Passes =
      bad_fd-Passes big_num (codes "err_big_fd: FAIL\n") (codes "err_big_fd: PASS\n")
        (λ w. inl (omega arith)) (Memᴰ.tail (Memᴰ.head refl))

  pub err_open_lots-Passes :
      Passes (codes "err_open_lots: PASS\n") (err_open_lots k fuel literal buf)
  unfolding err_open_lots
  err_open_lots-Passes o w r =
      let (w1, opens, s1) =
        open_rounds-HasOpened k fuel literal buf opened out m missing d 7 0 o w refl (omega arith)
          (record { taken = λ i a b. absurd (omega arith); free = r.free; shown = r.shown }) in
      let (w2, closes, s2) =
        close_rounds-HasClosed k fuel literal buf opened out m missing d 6 2 o w1 refl (omega arith)
          (record { free = λ j a b. absurd (omega arith); taken = s1.taken; shown = s1.shown }) in
      rw (opens, closes)
        (concluded (codes "err_open_lots: FAIL\n") (codes "err_open_lots: PASS\n") o w2
          (Memᴰ.tail (Memᴰ.tail (Memᴰ.head refl)))
          (record { free = λ i a b. s2.free i a b; shown = s2.shown }))

  pub err_open-Passes : Passes (codes "err_open: PASS\n") (err_open k fuel literal buf)
  unfolding err_open
  err_open-Passes o w r =
      then_fails _ _ o _ w _ r (d.open_missing (codes "helloo") w (wrong _ (Memᴰ.head refl)))
        (λ w1 r1.
          then_fails _ _ o _ w1 _ r1
            (d.open_missing (codes "shel") w1 (wrong _ (Memᴰ.tail (Memᴰ.head refl))))
            (λ w2 r2.
              then_fails _ _ o _ w2 _ r2
                (d.open_missing [] w2 (wrong _ (Memᴰ.tail (Memᴰ.tail (Memᴰ.head refl)))))
                (λ w3 r3.
                  concluded _ (codes "err_open: PASS\n") o w3
                    (Memᴰ.tail (Memᴰ.tail (Memᴰ.tail (Memᴰ.head refl)))) r3)))

  -- Several calls, and what follows them.
  then_each :
      (call : ℕ → Memory → W → ℤ × Memory × W) (text o o' : List ℕ) (left i : ℕ) (w : W)
      (f : ℕ × Memory × W → Option (ℕ × Memory × W))
      → ((j : ℕ) (v : W)
          → i ≤ j
          → j < i + left
          → Ready opened out o v
          → Fails opened out m v (call j m v))
      → Ready opened out o w
      → ((w' : W) → Ready opened out o w' → Gives opened out m o' (f (0, m, w')))
      → Gives opened out m o' (expect_errors k fuel literal buf call text left i (0, m, w) >>= f)
  then_each call text o o' left i w f fails r h =
      Gives-bind opened out m o o' _ f
        (Fails-each k fuel literal buf opened out m call text o left i w fails r) h

  pub err_unopened-Passes : Passes (codes "err_unopened: PASS\n") (err_unopened k fuel literal buf)
  unfolding err_unopened
  err_unopened-Passes o w r =
      then_each _ _ o _ 8 0 w _
        (λ j v a b rv. elim (dec_lt j 2) [
          | yes low ↦ d.close_terminal j v low
          | no high ↦ d.close_closed (pos j) v (inr (rv.free j (omega arith) (omega arith)))
        ])
        r
        (λ w1 r1.
          then_each _ _ o _ 6 2 w1 _
            (λ j v a b rv. d.read_closed (pos j) buf 31 v (inr (rv.free j a (omega arith)))) r1
            (λ w2 r2.
              then_each _ _ o _ 6 2 w2 _
                (λ j v a b rv. d.write_closed (pos j) buf 31 v (inr (rv.free j a (omega arith)))) r2
                (λ w3 r3.
                  concluded _ (codes "err_unopened: PASS\n") o w3
                    (Memᴰ.tail (Memᴰ.tail (Memᴰ.tail (Memᴰ.tail (Memᴰ.head refl))))) r3)))
