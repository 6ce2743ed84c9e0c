-- ===== src/Tasks/Slots.antt =====
-- The slots of processes: how many are taken, and the search for a free one.
use operating_system_ece.Common.{
  ℕ, zero, suc, ◌+◌, ◌≤◌, ◌<◌, ◌≡◌, ◌≢◌, refl, subst, inl, inr, arith, Bool-cases, ==_iff, ◌==◌,
  if◌then◌else◌, update,
}
use native.Mathlib.Decide.{ℕ_discrete}
use operating_system_ece.Tasks.{find_slot}

abbrev pub one_if_set : ℕ → ℕ
one_if_set x = if x == 0 then 0 else 1

-- How many of `n` slots from `lo` on are taken.
unfoldable pub taken : ℕ → (ℕ → ℕ) → ℕ → ℕ
taken zero slots lo = 0
taken (suc n) slots lo = one_if_set (slots lo) + taken n slots (lo + 1)

-- The lowest free slot of `n` from `lo` on.
pub record IsFirst (n : ℕ) (slots : ℕ → ℕ) (lo i : ℕ) : Type 0 where
  pub above : lo ≤ i
  pub below : i < lo + n
  pub free : slots i ≡ 0
  pub full : (j : ℕ) → lo ≤ j → j < i → slots j ≢ 0

pub find_slot-IsFirst :
    (n : ℕ) (slots : ℕ → ℕ) (lo : ℕ)
    → taken n slots lo < n
    → IsFirst n slots lo (find_slot n slots lo)
unfolding taken find_slot
find_slot-IsFirst zero slots lo h = absurd (omega arith)
find_slot-IsFirst (suc n) slots lo h = elim (Bool-cases (slots lo == 0)) [
  | inl hit ↦ rw hit (record {
    above = omega arith;
    below = omega arith;
    free = (==_iff _ 0).0 hit;
    full = λ j p q. absurd (omega arith);
  })
  | inr miss ↦
      let set : slots lo ≢ 0 = ground arith in
      let r =
        find_slot-IsFirst n slots (lo + 1)
          (let h' : taken n slots (lo + 1) < n = ground (arith, h) in h') in
      rw miss (record {
        above = omega (arith, r.above);
        below = omega (arith, r.below);
        free = r.free;
        full = λ j p q. elim (ℕ_discrete lo j) [
          | yes same ↦ subst (λ k. slots k ≢ 0) same set
          | no other ↦ r.full j (let p' : lo + 1 ≤ j = omega arith in p') q
        ];
      })
]

module _ (slots : ℕ → ℕ) (i x : ℕ) where
  taken_outside : (n lo : ℕ) → i < lo → taken n (update slots i x) lo ≡ taken n slots lo
  unfolding taken
  taken_outside zero lo h = refl
  taken_outside (suc n) lo h = ground (arith, taken_outside n (lo + 1))

  -- A slot that is written counts for what it holds then.
  pub taken-update :
      (n lo : ℕ)
      → lo ≤ i
      → i < lo + n
      → taken n (update slots i x) lo + one_if_set (slots i) ≡ taken n slots lo + one_if_set x
  unfolding taken
  taken-update zero lo h h' = absurd (omega arith)
  taken-update (suc n) lo h h' = elim (ℕ_discrete lo i) [
    | yes here ↦
        let rest = taken_outside n (lo + 1) (let b : i < lo + 1 = omega arith in b) in
        let same : slots lo ≡ slots i = subst (λ k. slots lo ≡ slots k) here refl in
        ground (arith, rest, same, here)
    | no there ↦
        let rest =
          taken-update n (lo + 1) (let b : lo + 1 ≤ i = omega arith in b)
            (let b : i < lo + 1 + n = omega arith in b) in
        ground (arith, rest, there)
  ]
