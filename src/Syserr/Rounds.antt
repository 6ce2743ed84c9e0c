-- ===== src/Syserr/Rounds.antt =====
-- The rounds of `err_open_lots` on a kernel that behaves as documented.
use operating_system_ece.Common.{
  ℕ, zero, suc, ◌+◌, ◌≤◌, ◌<◌, ◌≡◌, refl, subst, ap, ◌∙◌, arith, Bool, true, false, pos, minus_one,
  ◌+ℤ◌, Memory, List, codes,
}
use native.Mathlib.Decide.{ℕ_discrete}
use operating_system_ece.Programs.{Kernel, is_minus_one}
use operating_system_ece.Syserr.{open_rounds, close_rounds}
use operating_system_ece.Syserr.Documented.{Documented}

module _ {W : Type 0} (opened : W → ℕ → Bool) (out : W → List ℕ) where
  -- The first `j` of the six descriptors are open.
  pub record HasOpened (j : ℕ) (o : List ℕ) (w : W) : Type 0 where
    pub taken : (i : ℕ) → 2 ≤ i → i < 2 + j → opened w i ≡ true
    pub free : (i : ℕ) → 2 + j ≤ i → i < 8 → opened w i ≡ false
    pub shown : out w ≡ o

  -- The descriptors from 2 to `i` are closed again, and those from there on are open.
  pub record HasClosed (i : ℕ) (o : List ℕ) (w : W) : Type 0 where
    pub free : (j : ℕ) → 2 ≤ j → j < i → opened w j ≡ false
    pub taken : (j : ℕ) → i ≤ j → j < 8 → opened w j ≡ true
    pub shown : out w ≡ o

minus_one_test : is_minus_one minus_one ≡ true
unfolding ◌+ℤ◌
minus_one_test = refl

positive_test : (i : ℕ) → is_minus_one (pos (2 + i)) ≡ false
unfolding ◌+ℤ◌
positive_test i = ground arith

module _ {W : Type 0} (k : Kernel W) (fuel : ℕ) (literal : List ℕ → ℕ) (buf : ℕ)
    (opened : W → ℕ → Bool) (out : W → List ℕ) (m : Memory) (missing : List ℕ → Type 0)
    (d : Documented opened out m k literal missing) where
  open_one :
      (j : ℕ) (o : List ℕ) (w : W)
      → j < 6
      → HasOpened opened out j o w
      → let (fd, m', w') = k.call_open (literal (codes ".")) m w in
        (fd ≡ pos (2 + j)) × (m' ≡ m) × HasOpened opened out (suc j) o w'
  open_one j o w h s =
      let r =
        d.open_directory (2 + j) w (omega arith) (omega arith) (λ i a b. s.taken i a b)
          (s.free (2 + j) (omega arith) (omega arith)) in
      (
        r.value,
        r.memory,
        record {
          taken = λ i a b. rw (r.files i) (elim (ℕ_discrete i (2 + j)) [
            | yes e ↦ ground arith
            | no ne ↦ ground (arith, s.taken i a (omega arith))
          ]);
          free = λ i a b. rw (r.files i) (ground (arith, s.free i (omega arith) b));
          shown = r.shown ∙ s.shown;
        },
      )

  -- `left` more rounds make seven, of which the last one fails.
  pub open_rounds-HasOpened :
      (left j : ℕ) (o : List ℕ) (w : W)
      → left + j ≡ 7
      → j ≤ 6
      → HasOpened opened out j o w
      → (w' : W) × (open_rounds k fuel literal buf left 0 m w ≡ (1, m, w'))
        × HasOpened opened out 6 o w'
  unfolding open_rounds
  open_rounds-HasOpened zero j o w e h s = absurd (omega arith)
  open_rounds-HasOpened (suc zero) j o w e h s =
      let six : j ≡ 6 = omega arith in
      let s' : HasOpened opened out 6 o w = subst (λ n. HasOpened opened out n o w) six s in
      let f = d.open_full w (λ i a b. s'.taken i a b) in
      let w1 : W = (k.call_open (literal (codes ".")) m w).2 in
      (
        w1,
        rw (f.value, minus_one_test) (ap (λ (x : Memory). (1, x, w1)) f.memory),
        record {
          taken = λ i a b. rw (f.files i) (s'.taken i a b);
          free = λ i a b. rw (f.files i) (s'.free i a b);
          shown = f.shown ∙ s'.shown;
        },
      )
  open_rounds-HasOpened (suc (suc left)) j o w e h s =
      let (value, memory, s1) = open_one j o w (omega arith) s in
      let test = positive_test j in
      let w1 : W = (k.call_open (literal (codes ".")) m w).2 in
      let (w', runs, s') =
        open_rounds-HasOpened (suc left) (suc j) o w1 (omega arith) (omega arith) s1 in
      (w', rw (value, test, memory) runs, s')

  pub close_rounds-HasClosed :
      (left i : ℕ) (o : List ℕ) (w : W)
      → left + i ≡ 8
      → 2 ≤ i
      → HasClosed opened out i o w
      → (w' : W) × (close_rounds k fuel literal buf left i m w ≡ (m, w'))
        × HasClosed opened out 8 o w'
  unfolding close_rounds
  close_rounds-HasClosed zero i o w e h s =
      (w, refl, subst (λ n. HasClosed opened out n o w) (let e' : i ≡ 8 = omega arith in e') s)
  close_rounds-HasClosed (suc left) i o w e h s =
      let r = d.close_open i w h (omega arith) (s.taken i (omega arith) (omega arith)) in
      let w1 : W = (k.call_close (pos i) m w).2 in
      let s1 : HasClosed opened out (i + 1) o w1 = record {
        free = λ j a b. rw (r.files j) (elim (ℕ_discrete j i) [
          | yes e ↦ ground arith
          | no ne ↦ ground (arith, s.free j a (omega arith))
        ]);
        taken = λ j a b. rw (r.files j) (ground (arith, s.taken j (omega arith) b));
        shown = r.shown ∙ s.shown;
      } in
      let (w', runs, s') =
        close_rounds-HasClosed left (i + 1) o w1 (omega arith) (omega arith) s1 in
      (w', rw r.memory runs, s')
