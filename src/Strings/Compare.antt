-- ===== src/Strings/Compare.antt =====
-- `strncmp` decides whether two strings agree up to a bound.
use native.Mathlib.Decide.{dec_lt}
use operating_system_ece.Common.{
  ℕ, zero, suc, ◌+◌, ◌<◌, ◌≡◌, refl, ◌≢◌, ◌↔◌, inl, inr, arith, ◌==◌, below_suc, Bool-cases, pos,
  ◌-ℤ◌, i8, Memory, IsBytes,
}
use operating_system_ece.Strings.{strncmp, strncmp_loop}

-- The strings at `a` and `b` agree in their first `n` bytes, or up to the NUL of the first.
abbrev pub SamePrefix : Memory → ℕ → ℕ → ℕ → Type 0
SamePrefix m a b n = (i : ℕ) → i < n → ((j : ℕ) → j < i → m (a + j) ≢ 0) → m (a + i) ≡ m (b + i)

-- The difference of two chars is 0 only for equal bytes.
i8-injective : (x y : ℕ) → x < 256 → y < 256 → i8 x -ℤ i8 y ≡ pos 0 → x ≡ y
unfolding ◌-ℤ◌
i8-injective x y hx hy e = ground arith

i8_self : (x : ℕ) → i8 x -ℤ i8 x ≡ pos 0
unfolding ◌-ℤ◌
i8_self x = ground arith

module _ (m : Memory) (s1 s2 : ℕ) (bytes : IsBytes m) where
  -- A round ends the loop with 0 only where both strings end, and goes on where they agree.
  round_equal :
      (n i : ℕ)
      → strncmp_loop (suc n) m s1 s2 i ≡ pos 0
      → (m (s1 + i) ≡ m (s2 + i)) × (m (s1 + i) ≢ 0 → strncmp_loop n m s1 s2 (i + 1) ≡ pos 0)
  unfolding strncmp_loop
  round_equal n i e =
      ground (arith, i8-injective (m (s1 + i)) (m (s2 + i)), bytes (s1 + i), bytes (s2 + i))

  -- From round `i` on, with bytes before `k` that are not NUL.
  strncmp_loop_sound :
      (n i k : ℕ)
      → strncmp_loop n m s1 s2 i ≡ pos 0
      → i < k + 1
      → k < i + n
      → ((j : ℕ) → j < k → m (s1 + j) ≢ 0)
      → m (s1 + k) ≡ m (s2 + k)
  strncmp_loop_sound zero i k e lo hi live = absurd (omega arith)
  strncmp_loop_sound (suc n) i k e lo hi live = elim (dec_lt i k) [
    | yes later ↦
        strncmp_loop_sound n (i + 1) k ((round_equal n i e).1 (live i later)) (omega arith)
          (omega arith) live
    | no here ↦ let at : k ≡ i = omega arith in rw at ((round_equal n i e).0)
  ]

  strncmp_loop_complete :
      (n i k : ℕ)
      → i + n ≡ k
      → SamePrefix m s1 s2 k
      → ((j : ℕ) → j < i → m (s1 + j) ≢ 0)
      → strncmp_loop n m s1 s2 i ≡ pos 0
  unfolding strncmp_loop
  strncmp_loop_complete zero i k e same live = refl
  strncmp_loop_complete (suc n) i k e same live =
      let at : m (s1 + i) ≡ m (s2 + i) = same i (omega arith) live in
      elim (Bool-cases (m (s1 + i) == 0)) [
        | inl end ↦ ground (arith, i8_self (m (s1 + i)))
        | inr more ↦ ground (
          arith,
          strncmp_loop_complete n (i + 1) k (omega arith) same
              (below_suc (λ j. m (s1 + j) ≢ 0) i live (ground arith)),
        )
      ]

  -- In a memory of bytes `strncmp` returns 0 exactly when the strings agree in their first `n` bytes or up to a NUL.
  pub strncmp-SamePrefix : (n : ℕ) → (strncmp m s1 s2 n ≡ pos 0) ↔ SamePrefix m s1 s2 n
  unfolding strncmp
  strncmp-SamePrefix n = (
    λ e i h live. strncmp_loop_sound n 0 i e (omega arith) (omega arith) live,
    λ same. strncmp_loop_complete n 0 n (omega arith) same (λ j h. absurd (omega arith)),
  )
