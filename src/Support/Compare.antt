-- ===== src/Support/Compare.antt =====
-- Comparing texts: against the kernel's routine, and what the difference means.
use operating_system_ece.Common.{
  ℕ, zero, suc, ◌+◌, ◌-◌, ◌≤◌, ◌<◌, ◌≡◌, ◌≢◌, ◌↔◌, refl, sym, subst, ◌∙◌, arith, Option, some, true,
  false, ◌==◌, ==_false, below_suc, ==_iff, ℤ, pos, ◌-ℤ◌, i8, Memory, IsBytes,
}
use native.Mathlib.Decide.{ℕ_discrete}
use operating_system_ece.Strings.{strncmp, strncmp_loop}
use operating_system_ece.Strings.Length.{IsString}
use operating_system_ece.Support.{ece391_strcmp, strncmp_from, ece391_strncmp}

differ : (x y : ℕ) → x < 256 → y < 256 → x ≢ y → (pos x -ℤ pos y ≢ pos 0) × (i8 x -ℤ i8 y ≢ pos 0)
unfolding ◌-ℤ◌
differ x y h h' ne = (λ e. ground arith, λ e. ground arith)

i8_same : (x : ℕ) → i8 x -ℤ i8 x ≡ pos 0
unfolding ◌-ℤ◌
i8_same x = ground arith

module _ (m : Memory) (s1 s2 : ℕ) (bytes : IsBytes m) where
  last_round : (n i : ℕ) → n ≡ 0 → strncmp_loop n m s1 s2 i ≡ pos 0
  unfolding strncmp_loop
  last_round zero i e = refl
  last_round (suc n) i e = absurd (omega arith)

  rounds_agree :
      (n i : ℕ) → (strncmp_from n m (s1 + i) (s2 + i) ≡ pos 0) ↔ (strncmp_loop n m s1 s2 i ≡ pos 0)
  unfolding strncmp_from strncmp_loop
  rounds_agree zero i = (λ e. e, λ e. e)
  rounds_agree (suc n) i =
      let next : s1 + i + 1 ≡ s1 + (i + 1) = omega arith in
      let next' : s2 + i + 1 ≡ s2 + (i + 1) = omega arith in
      let rest = rounds_agree n (i + 1) in
      elim (ℕ_discrete (m (s1 + i)) (m (s2 + i))) [
        | no other ↦
            let miss = ==_false _ _ other in
            let (d, d') = differ _ _ (bytes (s1 + i)) (bytes (s2 + i)) other in
            rw miss (λ e. absurd (d e), λ e. absurd (d' e))
        | yes same ↦
            rw (next, next')
              (ground (arith, same, rest, i8_same (m (s2 + i)), last_round n (i + 1)))
      ]

  -- On bytes, the programs' `strncmp`, which compares unsigned bytes, returns 0 exactly when the kernel's
  -- does, which compares signed chars.
  pub ece391_strncmp-strncmp :
      (n : ℕ) → (ece391_strncmp m s1 s2 n ≡ pos 0) ↔ (strncmp m s1 s2 n ≡ pos 0)
  unfolding ece391_strncmp strncmp
  ece391_strncmp-strncmp n =
      let e : s1 + 0 ≡ s1 = omega arith in
      let e' : s2 + 0 ≡ s2 = omega arith in
      let agree : (strncmp_from n m s1 s2 ≡ pos 0) ↔ (strncmp_loop n m s1 s2 0 ≡ pos 0) =
        rw (e, e') at (rounds_agree n 0) in
      elim (ℕ_discrete n 0) [
        | yes none_left ↦ rw none_left (λ e. refl, λ e. refl)
        | no some_left ↦ let miss : (0 == n) ≡ false = ground arith in rw miss agree
      ]

-- The texts are the same, or differ first at `i`, and the result is the difference there.
pub data Compares (m : Memory) (s1 s2 n k : ℕ) (o : Option ℤ) : Type 0 where
  alike :
      n ≡ k
      → ((j : ℕ) → j < n → m (s1 + j) ≡ m (s2 + j))
      → o ≡ some (pos 0)
      → Compares m s1 s2 n k o
  apart :
      (i : ℕ)
      → i ≤ n
      → i ≤ k
      → ((j : ℕ) → j < i → m (s1 + j) ≡ m (s2 + j))
      → m (s1 + i) ≢ m (s2 + i)
      → o ≡ some (pos (m (s1 + i)) -ℤ pos (m (s2 + i)))
      → Compares m s1 s2 n k o

Compares-from :
    (fuel i r q : ℕ) (m : Memory) (s1 s2 n k : ℕ)
    → IsString m s1 n
    → IsString m s2 k
    → i + r ≡ n
    → i + q ≡ k
    → r < fuel
    → ((j : ℕ) → j < i → m (s1 + j) ≡ m (s2 + j))
    → Compares m s1 s2 n k (ece391_strcmp fuel m (s1 + i) (s2 + i))
unfolding ece391_strcmp
Compares-from zero i r q m s1 s2 n k t u e e' h before = absurd (omega arith)
Compares-from (suc fuel) i r q m s1 s2 n k t u e e' h before =
    elim (ℕ_discrete (m (s1 + i)) (m (s2 + i))) [
      | no other ↦ rw (==_false _ _ other) (apart i (omega arith) (omega arith) before other refl)
      | yes same ↦
          let hit = (==_iff (m (s1 + i)) (m (s2 + i))).1 same in
          elim (ℕ_discrete (m (s1 + i)) 0) [
            | yes end ↦
                let at : i ≡ n = elim (ℕ_discrete i n) [
                  | yes here ↦ here
                  | no before_end ↦ absurd (t.body i (omega arith) end)
                ] in
                let at' : i ≡ k = elim (ℕ_discrete i k) [
                  | yes here ↦ here
                  | no before_end ↦ absurd (u.body i (omega arith) (sym same ∙ end))
                ] in
                let stop : (m (s1 + i) == 0) ≡ true = (==_iff (m (s1 + i)) 0).1 end in
                rw (hit, stop) (alike (sym at ∙ at') (λ j lt. before j (omega arith)) refl)
            | no more ↦
                let at : i < n = elim (ℕ_discrete i n) [
                  | yes here ↦ absurd (more (subst (λ j. m (s1 + j) ≡ 0) (sym here) t.stop))
                  | no before_end ↦ omega arith
                ] in
                let at' : i < k = elim (ℕ_discrete i k) [
                  | yes here ↦ absurd (more (same ∙ subst (λ j. m (s2 + j) ≡ 0) (sym here) u.stop))
                  | no before_end ↦ omega arith
                ] in
                let next : s1 + i + 1 ≡ s1 + (i + 1) = omega arith in
                let next' : s2 + i + 1 ≡ s2 + (i + 1) = omega arith in
                rw (hit, ==_false _ _ more, next, next')
                  (Compares-from fuel (i + 1) (r - 1) (q - 1) m s1 s2 n k t u (omega arith)
                    (omega arith) (omega arith)
                    (below_suc (λ j. m (s1 + j) ≡ m (s2 + j)) i before same))
          ]
    ]

-- With more fuel than the first text has bytes, `strcmp` ends: it returns 0 when the texts are the same,
-- and otherwise the difference of the unsigned bytes at the first place where they differ.
pub ece391_strcmp-Compares :
    (fuel : ℕ) (m : Memory) (s1 s2 n k : ℕ)
    → IsString m s1 n
    → IsString m s2 k
    → n < fuel
    → Compares m s1 s2 n k (ece391_strcmp fuel m s1 s2)
ece391_strcmp-Compares fuel m s1 s2 n k t u h =
    let e : s1 + 0 ≡ s1 = omega arith in
    let e' : s2 + 0 ≡ s2 = omega arith in
    rw (e, e') at
      (Compares-from fuel 0 n k m s1 s2 n k t u (omega arith) (omega arith) h
        (λ j lt. absurd (omega arith)))
