-- ===== src/Syserr/Overall.antt =====
-- All tests of syscalls/ece391syserr.c in turn, on a kernel that behaves as documented.
use operating_system_ece.Common.{
  ℕ, ◌≤◌, ◌<◌, ◌≡◌, inl, refl, sym, subst, ap, ◌∙◌, arith, Bool, false, Option, some, pos, pos_part,
  Memory, List, [], ◌∷◌, ◌++◌, codes,
}
use mathlib.Core.List.{Memᴰ, append_assoc, append-nil}
use operating_system_ece.Programs.{Kernel}
use operating_system_ece.Syserr.{
  neg_num, big_num, err_vidmap, err_stdin_out, err_syscall_num, tests, run_tests, run_all,
}
use operating_system_ece.Syserr.Documented.{Stands, Documented}
use operating_system_ece.Syserr.Steps.{Ready, Gives}
use operating_system_ece.Syserr.Passing.{
  passes, missing_names, Passes, then_fails, concluded, err_neg_fd-Passes, err_big_fd-Passes,
  err_open_lots-Passes, err_open-Passes, err_unopened-Passes,
}

pub concat_texts : List (List ℕ) → List ℕ
concat_texts [] = []
concat_texts (t ∷ ts) = t ++ concat_texts ts

-- The texts of the verdicts stand in the memory, and the three wrong names are missing.
module _ {W : Type 0} (k : Kernel W) (fuel : ℕ) (literal : List ℕ → ℕ) (buf : ℕ)
    (opened : W → ℕ → Bool) (out : W → List ℕ) (m : Memory) (missing : List ℕ → Type 0)
    (d : Documented opened out m k literal missing)
    (wrong : (name : List ℕ) → Memᴰ name missing_names → missing name)
    (texts : (t : List ℕ) → Memᴰ t passes → Stands fuel literal m t) where
  -- The tests of a list pass, each with its line.
  abbrev AllPass : List (Memory → W → Option (ℕ × Memory × W)) → List (List ℕ) → Type 0
  AllPass [] [] = Unit
  AllPass (t ∷ ts) (l ∷ ls) =
      Passes k fuel literal buf opened out m missing d wrong texts l t × AllPass ts ls
  AllPass _ _ = ⊥

  run_tests-Gives :
      (ts : List (Memory → W → Option (ℕ × Memory × W))) (ls : List (List ℕ)) (o : List ℕ) (w : W)
      → AllPass ts ls
      → Ready opened out o w
      → Gives opened out m (o ++ concat_texts ls) (run_tests k fuel literal buf ts (0, m, w))
  unfolding run_tests concat_texts
  run_tests-Gives [] [] o w a r =
      (w, refl, subst (λ p. Ready opened out p w) (sym (append-nil o)) r)
  run_tests-Gives [] (l ∷ ls) o w a r = absurd a
  run_tests-Gives (t ∷ ts) [] o w a r = absurd a
  run_tests-Gives (t ∷ ts) (l ∷ ls) o w (passes_t, a) r =
      let (w1, runs, r1) = passes_t o w r in
      let (w', rest, r') = run_tests-Gives ts ls (o ++ l) w1 a r1 in
      (w', rw runs rest, subst (λ p. Ready opened out p w') (append_assoc o l (concat_texts ls)) r')

  err_vidmap-Passes :
      Passes k fuel literal buf opened out m missing d wrong texts
        (codes "err_vidmap: PASS\n")
        (err_vidmap k fuel literal buf)
  unfolding err_vidmap
  err_vidmap-Passes o w r =
      then_fails k fuel literal buf opened out m missing d wrong texts _ _ o _ w _ r
        (d.vidmap_outside 0 w (inl (omega arith)))
        (λ w1 r1.
          then_fails k fuel literal buf opened out m missing d wrong texts _ _ o _ w1 _ r1
            (d.vidmap_outside 0x400000 w1 (inl (omega arith)))
            (λ w2 r2.
              concluded k fuel literal buf opened out m missing d wrong texts _
                (codes "err_vidmap: PASS\n") o w2
                (Memᴰ.tail (Memᴰ.tail (Memᴰ.tail (Memᴰ.tail (Memᴰ.tail (Memᴰ.head refl)))))) r2))

  err_stdin_out-Passes :
      Passes k fuel literal buf opened out m missing d wrong texts
        (codes "err_stdin_out: PASS\n")
        (err_stdin_out k fuel literal buf)
  unfolding err_stdin_out
  err_stdin_out-Passes o w r =
      then_fails k fuel literal buf opened out m missing d wrong texts _ _ o _ w _ r
        (d.write_stdin buf 31 w)
        (λ w1 r1.
          then_fails k fuel literal buf opened out m missing d wrong texts _ _ o _ w1 _ r1
            (d.read_stdout buf 31 w1)
            (λ w2 r2.
              concluded k fuel literal buf opened out m missing d wrong texts _
                (codes "err_stdin_out: PASS\n") o w2
                (Memᴰ.tail
                  (Memᴰ.tail (Memᴰ.tail (Memᴰ.tail (Memᴰ.tail (Memᴰ.tail (Memᴰ.head refl)))))))
                r2))

  err_syscall_num-Passes :
      Passes k fuel literal buf opened out m missing d wrong texts
        (codes "err_syscall_num: PASS\n")
        (err_syscall_num k fuel literal buf)
  unfolding err_syscall_num
  err_syscall_num-Passes o w r =
      then_fails k fuel literal buf opened out m missing d wrong texts _ _ o _ w _ r
        (d.number_unknown (pos 0) w
          (λ i a b e. absurd (let z : 0 ≡ i = ap pos_part e in omega (arith, z))))
        (λ w1 r1.
          then_fails k fuel literal buf opened out m missing d wrong texts _ _ o _ w1 _ r1
            (d.number_unknown big_num w1
              (λ i a b e. absurd (let z : 1073741823 ≡ i = ap pos_part e in omega (arith, z))))
            (λ w2 r2.
              then_fails k fuel literal buf opened out m missing d wrong texts _ _ o _ w2 _ r2
                (d.number_unknown neg_num w2
                  (λ i a b e. absurd (let z : 0 ≡ i = ap pos_part e in omega (arith, z))))
                (λ w3 r3.
                  concluded k fuel literal buf opened out m missing d wrong texts _
                    (codes "err_syscall_num: PASS\n") o w3
                    (Memᴰ.tail (
                      Memᴰ.tail (
                        Memᴰ.tail
                          (Memᴰ.tail (Memᴰ.tail (Memᴰ.tail (Memᴰ.tail (Memᴰ.head refl))))))))
                    r3)))

  abbrev each_line : List (List ℕ)
  each_line =
      codes "err_neg_fd: PASS\n"
      ∷ codes "err_big_fd: PASS\n"
      ∷ codes "err_open_lots: PASS\n"
      ∷ codes "err_open: PASS\n"
      ∷ codes "err_unopened: PASS\n"
      ∷ codes "err_vidmap: PASS\n"
      ∷ codes "err_stdin_out: PASS\n"
      ∷ codes "err_syscall_num: PASS\n"
      ∷ []

  -- On a kernel whose calls fail as they are documented to, whose `open` takes the least free descriptor,
  -- and which has none of the three wrong names, with the texts of the verdicts in the memory, the run of
  -- all eight tests returns 0 for a process with no file open, shows each test's line of success in order
  -- and then that of the whole, and leaves no file open.
  pub run_all_succeeds :
      (w : W)
      → ((i : ℕ) → 2 ≤ i → i < 8 → opened w i ≡ false)
      → (w' : W) × (run_all k fuel literal buf m w ≡ some (0, m, w'))
        × (out w' ≡ out w ++ concat_texts passes)
        × ((i : ℕ) → 2 ≤ i → i < 8 → opened w' i ≡ false)
  unfolding run_all concat_texts
  run_all_succeeds w free =
      let (w1, runs, r1) =
        run_tests-Gives (tests k fuel literal buf) each_line (out w) w
          (
            err_neg_fd-Passes k fuel literal buf opened out m missing d wrong texts,
            (
              err_big_fd-Passes k fuel literal buf opened out m missing d wrong texts,
              (
                err_open_lots-Passes k fuel literal buf opened out m missing d wrong texts,
                (
                  err_open-Passes k fuel literal buf opened out m missing d wrong texts,
                  (
                    err_unopened-Passes k fuel literal buf opened out m missing d wrong texts,
                    (err_vidmap-Passes, (err_stdin_out-Passes, (err_syscall_num-Passes, tt))),
                  ),
                ),
              ),
            ),
          )
          (record { free = free; shown = refl }) in
      let last : List ℕ = codes "\nOverall Tests: PASS\n" in
      let (w', done, r') =
        concluded k fuel literal buf opened out m missing d wrong texts
          (codes "\nOverall Tests: FAIL\n") last (out w ++ concat_texts each_line) w1
          (Memᴰ.tail (
            Memᴰ.tail (
              Memᴰ.tail
                (Memᴰ.tail (Memᴰ.tail (Memᴰ.tail (Memᴰ.tail (Memᴰ.tail (Memᴰ.head refl)))))))))
          r1 in
      (
        w',
        rw runs done,
        r'.shown ∙ append_assoc (out w) (concat_texts each_line) last,
        λ i a b. r'.free i a b,
      )
