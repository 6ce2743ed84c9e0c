-- ===== src/Strings/Length.antt =====
-- `strlen`.
use operating_system_ece.Common.{
  ℕ, zero, suc, ◌+◌, ◌<◌, ◌≡◌, sym, ◌∙◌, ◌≢◌, ◌⊎◌, write, write_ne, ap, inl, inr, some, arith, ◌==◌,
  ==_iff, below_suc, Bool-cases, Memory,
}
use operating_system_ece.Strings.{strlen, strlen_loop}

-- The bytes from `s` on are a C string of length `n`.
pub record IsString (m : Memory) (s n : ℕ) : Type 0 where
  pub body : (i : ℕ) → i < n → m (s + i) ≢ 0
  pub stop : m (s + n) ≡ 0

strlen_loop-some :
    (fuel : ℕ) (m : Memory) (s n i k : ℕ)
    → IsString m s n
    → i + k ≡ n
    → k < fuel
    → strlen_loop fuel m s i ≡ some n
unfolding strlen_loop
strlen_loop-some zero m s n i k h e lt = absurd (omega arith)
strlen_loop-some (suc fuel) m s n i zero h e lt =
    let e' : n ≡ i = omega arith in ground (arith, h.stop, ap (λ t. m (s + t)) e')
strlen_loop-some (suc fuel) m s n i (suc k) h e lt =
    ground (arith, h.body i, strlen_loop-some fuel m s n (i + 1) k h)

-- `strlen` finds the length of a string, if it is given more rounds than the string has bytes.
pub strlen-some :
    (fuel : ℕ) (m : Memory) (s n : ℕ) → IsString m s n → n < fuel → strlen fuel m s ≡ some n
unfolding strlen
strlen-some fuel m s n h lt = strlen_loop-some fuel m s n 0 n h (omega arith) lt

strlen_loop-IsString :
    (fuel : ℕ) (m : Memory) (s i n : ℕ)
    → ((j : ℕ) → j < i → m (s + j) ≢ 0)
    → strlen_loop fuel m s i ≡ some n
    → IsString m s n
unfolding strlen_loop
strlen_loop-IsString zero m s i n before e = cc
strlen_loop-IsString (suc fuel) m s i n before e = elim (Bool-cases (m (s + i) == 0)) [
  | inl stop ↦
      let at_n : i ≡ n = ground arith in
      record { body = λ j h. before j (omega arith); stop = rw (← at_n) ((==_iff _ _).0 stop) }
  | inr more ↦
      strlen_loop-IsString fuel m s (i + 1) n
        (below_suc (λ j. m (s + j) ≢ 0) i before (ground arith)) (ground arith)
]

-- What `strlen` returns is the length of the string at `s`.
pub strlen-IsString : (fuel : ℕ) (m : Memory) (s n : ℕ) → strlen fuel m s ≡ some n → IsString m s n
unfolding strlen
strlen-IsString fuel m s n e = strlen_loop-IsString fuel m s 0 n (λ j h. absurd (omega arith)) e

-- A write outside a string leaves it a string.
pub write-IsString :
    (m : Memory) (s n w v : ℕ) → (w < s) ⊎ (s + n < w) → IsString m s n → IsString (write m w v) s n
write-IsString m s n w v apart h = record {
  body = λ i lt e. h.body i lt (sym (write_ne m w v (s + i) (omega arith)) ∙ e);
  stop = write_ne m w v (s + n) (omega arith) ∙ h.stop;
}
