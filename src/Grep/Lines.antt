-- ===== src/Grep/Lines.antt =====
-- The string routines of the programs on memory of which only the place of a NUL is known.
use operating_system_ece.Common.{
  ℕ, zero, suc, ◌+◌, ◌-◌, ◌≤◌, ◌<◌, ◌≡◌, ◌⊎◌, refl, ◌∙◌, arith, some, Memory, write, write_ne,
}
use native.Mathlib.Decide.{ℕ_discrete}
use operating_system_ece.Strings.{strlen, strlen_loop}
use operating_system_ece.Support.{ece391_strlen, ece391_strcpy}
use operating_system_ece.Support.SameAsKernel.{ece391_strlen-strlen}
use operating_system_ece.Grep.{find_end}

strlen_loop-returns :
    (fuel : ℕ) (m : Memory) (a i k : ℕ)
    → m (a + (i + k)) ≡ 0
    → k < fuel
    → (n : ℕ) × (strlen_loop fuel m a i ≡ some n)
unfolding strlen_loop
strlen_loop-returns zero m a i k h lt = absurd (omega arith)
strlen_loop-returns (suc fuel) m a i k h lt = elim (ℕ_discrete (m (a + i)) 0) [
  | yes end ↦ (i, rw end refl)
  | no more ↦ (elim (ℕ_discrete k 0) [
    | yes e ↦ let here : a + (i + k) ≡ a + i = omega arith in absurd (more (rw here at h))
    | no ne ↦
        let there : a + (i + k) ≡ a + (i + 1 + (k - 1)) = omega arith in
        let (n, e) = strlen_loop-returns fuel m a (i + 1) (k - 1) (rw there at h) (omega arith) in
        (n, ground (arith, e))
  ])
]

-- `strlen` returns if there is a NUL within the fuel.
pub ece391_strlen-returns :
    (fuel : ℕ) (m : Memory) (a k : ℕ)
    → m (a + k) ≡ 0
    → k < fuel
    → (n : ℕ) × (ece391_strlen fuel m a ≡ some n)
unfolding strlen
ece391_strlen-returns fuel m a k h lt =
    let (n, e) =
      strlen_loop-returns fuel m a 0 k (let z : a + (0 + k) ≡ a + k = omega arith in rw z h) lt in
    (n, ece391_strlen-strlen fuel m a ∙ e)

-- `strcpy` to a lower address returns, and writes no further than the NUL is from its source.
pub ece391_strcpy-returns :
    (fuel : ℕ) (m : Memory) (dst src k : ℕ)
    → dst < src
    → m (src + k) ≡ 0
    → k < fuel
    → (m' : Memory) × (ece391_strcpy fuel m dst src ≡ some m')
      × ((b : ℕ) → (b < dst) ⊎ (dst + k < b) → m' b ≡ m b)
unfolding ece391_strcpy
ece391_strcpy-returns zero m dst src k below h lt = absurd (omega arith)
ece391_strcpy-returns (suc fuel) m dst src k below h lt =
    let m1 : Memory = write m dst (m src) in
    elim (ℕ_discrete (m src) 0) [
      | yes end ↦ (m1, rw end refl, λ b away. write_ne m dst (m src) b (ground (arith, away)))
      | no more ↦ (elim (ℕ_discrete k 0) [
        | yes e ↦ let here : src + k ≡ src = omega arith in absurd (more (rw here at h))
        | no ne ↦
            let there : src + 1 + (k - 1) ≡ src + k = omega arith in
            let kept : m1 (src + 1 + (k - 1)) ≡ 0 =
              rw there (write_ne m dst (m src) (src + k) (omega arith) ∙ h) in
            let (m', runs, away') =
              ece391_strcpy-returns fuel m1 (dst + 1) (src + 1) (k - 1) (omega arith) kept
                (omega arith) in
            (
              m',
              ground (arith, runs),
              λ b away.
                  away' b (ground (arith, away)) ∙ write_ne m dst (m src) b (ground (arith, away)),
            )
      ])
    ]

-- The end of a line is no further than the end of the bytes.
pub find_end-in :
    (left : ℕ) (m : Memory) (a i : ℕ) → (i ≤ find_end left m a i) × (find_end left m a i ≤ i + left)
unfolding find_end
find_end-in zero m a i = (omega arith, omega arith)
find_end-in (suc left) m a i =
    let (h, h') = find_end-in left m a (i + 1) in (ground (arith, h, h'), ground (arith, h, h'))
