-- ===== src/Execute/Arguments.antt =====
-- The arguments that `execute` takes from the command's text.
use operating_system_ece.Common.{
  ℕ, zero, suc, ◌+◌, ◌-◌, ◌≤◌, ◌<◌, ◌≡◌, ◌≢◌, refl, sym, ap, subst, ◌∙◌, arith, false, ◌==◌,
  ==_false, Option, some, update, Memory,
}
use native.Mathlib.Decide.{ℕ_discrete}
use operating_system_ece.Execute.{skip_blanks, copy_arguments, read_arguments}

module _ (m : Memory) (command : ℕ) where
  -- `len` bytes of text from `i` on, and then a NUL.
  pub record IsText (i len : ℕ) : Type 0 where
    pub body : (x : ℕ) → x < len → m (command + (i + x)) ≢ 0
    pub stop : m (command + (i + len)) ≡ 0

  -- The text from `i` on is copied to `j`, and nothing else is written.
  pub record IsCopy (i len j : ℕ) (args args' : ℕ → ℕ) : Type 0 where
    pub text : (x : ℕ) → x < len → args' (j + x) ≡ m (command + (i + x))
    pub before : (y : ℕ) → y < j → args' y ≡ args y
    pub after : (y : ℕ) → j + len ≤ y → args' y ≡ args y

  pub data Copies (i len j : ℕ) (args : ℕ → ℕ) (o : Option (ℕ → ℕ)) : Type 0 where
    copies : (args' : ℕ → ℕ) → IsCopy i len j args args' → o ≡ some args' → Copies i len j args o

  skip_blanks_lem :
      (fuel i n : ℕ)
      → ((x : ℕ) → x < n → m (command + (i + x)) ≡ b' ')
      → m (command + (i + n)) ≢ b' '
      → n < fuel
      → skip_blanks fuel m command i ≡ some (i + n)
  unfolding skip_blanks
  skip_blanks_lem zero i n blank stop h = absurd (omega arith)
  skip_blanks_lem (suc fuel) i zero blank stop h =
      let e : i + 0 ≡ i = omega arith in
      let stop' : m (command + i) ≢ b' ' = subst (λ k. m (command + k) ≢ b' ') e stop in
      let miss : (m (command + i) == b' ') ≡ false = ==_false _ _ stop' in rw (miss, e) refl
  skip_blanks_lem (suc fuel) i (suc n) blank stop h =
      let here : m (command + i) ≡ b' ' =
        subst (λ k. m (command + k) ≡ b' ') (let e : i + 0 ≡ i = omega arith in e)
          (blank 0 (omega arith)) in
      let next : (x : ℕ) → i + (x + 1) ≡ i + 1 + x = λ x. omega arith in
      let step : (x : ℕ) → i + suc x ≡ i + 1 + x = λ x. omega arith in
      let rest =
        skip_blanks_lem fuel (i + 1) n
          (λ x lt. subst (λ k. m (command + k) ≡ b' ') (next x) (blank (x + 1) (omega arith)))
          (subst (λ k. m (command + k) ≢ b' ') (step n) stop) (omega arith) in
      rw here (rest ∙ ap some (sym (step n)))

  copy_arguments-Copies :
      (fuel i len j : ℕ) (args : ℕ → ℕ)
      → IsText i len
      → len < fuel
      → Copies i len j args (copy_arguments fuel m command i j args)
  unfolding copy_arguments
  copy_arguments-Copies zero i len j args t h = absurd (omega arith)
  copy_arguments-Copies (suc fuel) i zero j args t h =
      let here : m (command + i) ≡ 0 =
        subst (λ k. m (command + k) ≡ 0) (let e : i + 0 ≡ i = omega arith in e) t.stop in
      rw here (
        copies args
          (record {
            text = λ x lt. absurd (omega arith);
            before = λ y lt. refl;
            after = λ y le. refl;
          })
          refl)
  copy_arguments-Copies (suc fuel) i (suc len) j args t h =
      let e : i + 0 ≡ i = omega arith in
      let here : m (command + i) ≢ 0 =
        subst (λ k. m (command + k) ≢ 0) e (t.body 0 (omega arith)) in
      let next : (x : ℕ) → i + (x + 1) ≡ i + 1 + x = λ x. omega arith in
      let step : (x : ℕ) → i + suc x ≡ i + 1 + x = λ x. omega arith in
      let v = m (command + i) in
      let rest =
        copy_arguments-Copies fuel (i + 1) len (j + 1) (update args j v)
          (record {
            body = λ x lt. subst (λ k. m (command + k) ≢ 0) (next x) (t.body (x + 1) (omega arith));
            stop = subst (λ k. m (command + k) ≡ 0) (step len) t.stop;
          })
          (omega arith) in
      let miss : (m (command + i) == 0) ≡ false = ==_false _ _ here in
      rw miss (elim rest [
        | copies args' c same ↦
            copies args'
              (record {
                text = λ x lt. elim (ℕ_discrete x 0) [
                  | yes first ↦
                      let at : args' j ≡ v =
                        c.before j (omega arith)
                        ∙ (let b : update args j v j ≡ v = ground arith in b) in
                      rw (first, e, (let z : j + 0 ≡ j = omega arith in z)) at
                  | no later ↦
                      let back : x - 1 + 1 ≡ x = omega arith in
                      let a : j + x ≡ j + 1 + (x - 1) = omega arith in
                      let b : i + x ≡ i + 1 + (x - 1) = omega arith in
                      rw (a, b) (c.text (x - 1) (omega arith))
                ];
                before = λ y lt.
                    c.before y (omega arith)
                    ∙ (let b : update args j v y ≡ args y = ground arith in b);
                after = λ y le.
                    c.after y (omega arith)
                    ∙ (let b : update args j v y ≡ args y = ground arith in b);
              })
              same
      ])

  -- With more fuel than blanks and text, `blanks` blanks from `i` on are skipped and the `len` bytes that
  -- follow up to the NUL are copied to the front of the arguments; what stood behind them stays, so the
  -- text there has no NUL of its own.
  pub read_arguments-Copies :
      (fuel i blanks len : ℕ) (args : ℕ → ℕ)
      → ((x : ℕ) → x < blanks → m (command + (i + x)) ≡ b' ')
      → m (command + (i + blanks)) ≢ b' '
      → IsText (i + blanks) len
      → blanks < fuel
      → len < fuel
      → Copies (i + blanks) len 0 args (read_arguments fuel m command i args)
  unfolding read_arguments
  read_arguments-Copies fuel i blanks len args blank stop t h h' =
      rw (read_arguments, skip_blanks_lem fuel i blanks blank stop h)
        (copy_arguments-Copies fuel (i + blanks) len 0 args t h')
