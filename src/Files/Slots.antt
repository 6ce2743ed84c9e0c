-- ===== src/Files/Slots.antt =====
-- The search for a free descriptor in `open`, and how many descriptors are in use.
use operating_system_ece.Common.{
  ℕ, zero, suc, ◌+◌, ◌%◌, ◌≤◌, ◌<◌, ◌≡◌, ◌≢◌, refl, subst, sym, inl, inr, arith, Bool-cases, ==_iff,
  ◌==◌, if◌then◌else◌, update,
}
use native.Mathlib.Decide.{ℕ_discrete}
use operating_system_ece.Files.{FdStruct, free_slot, max_open_files}

-- How many of `n` descriptors from `fd` on have a flag set.
unfoldable pub used : ℕ → (ℕ → FdStruct) → ℕ → ℕ
used zero files fd = 0
used (suc n) files fd = (if (files fd).flags == 0 then 0 else 1) + used n files (fd + 1)

-- A descriptor in use has its present bit set.
abbrev pub IsTagged : (ℕ → FdStruct) → Type 0
IsTagged files = (i : ℕ) → i < max_open_files → (files i).flags % 2 ≡ 0 → (files i).flags ≡ 0

-- The lowest free descriptor of `n` from `lo` on.
pub record IsLowest (n : ℕ) (files : ℕ → FdStruct) (lo fd : ℕ) : Type 0 where
  pub above : lo ≤ fd
  pub below : fd < lo + n
  pub free : (files fd).flags ≡ 0
  pub taken : (j : ℕ) → lo ≤ j → j < fd → (files j).flags ≢ 0

pub used_bound : (n : ℕ) (files : ℕ → FdStruct) (lo : ℕ) → used n files lo ≤ n
unfolding used
used_bound zero files lo = omega arith
used_bound (suc n) files lo = ground (arith, used_bound n files (lo + 1))

-- The search ends inside the array when a descriptor is free.
pub free_slot-IsLowest :
    (n : ℕ) (files : ℕ → FdStruct) (lo : ℕ)
    → lo + n ≤ max_open_files
    → IsTagged files
    → used n files lo < n
    → IsLowest n files lo (free_slot n files lo)
unfolding used free_slot
free_slot-IsLowest zero files lo inside tagged h = absurd (omega arith)
free_slot-IsLowest (suc n) files lo inside tagged h =
    elim (Bool-cases ((files lo).flags % 2 == 0)) [
      | inl hit ↦ rw hit (record {
        above = omega arith;
        below = omega arith;
        free = tagged lo (let b : lo < 8 = omega arith in b) ((==_iff _ 0).0 hit);
        taken = λ j p q. absurd (omega arith);
      })
      | inr miss ↦
          let full : (files lo).flags ≢ 0 = ground arith in
          let r =
            free_slot-IsLowest n files (lo + 1) (let b : lo + 1 + n ≤ 8 = omega arith in b) tagged
              (let h' : used n files (lo + 1) < n = ground (arith, h) in h') in
          rw miss (record {
            above = omega (arith, r.above);
            below = omega (arith, r.below);
            free = r.free;
            taken = λ j p q. elim (ℕ_discrete lo j) [
              | yes same ↦ subst (λ k. (files k).flags ≢ 0) same full
              | no other ↦ r.taken j (let p' : lo + 1 ≤ j = omega arith in p') q
            ];
          })
    ]

module _ (files : ℕ → FdStruct) (i : ℕ) (file : FdStruct) where
  pub used_outside : (n lo : ℕ) → i < lo → used n (update files i file) lo ≡ used n files lo
  unfolding used
  used_outside zero lo h = refl
  used_outside (suc n) lo h = ground (arith, used_outside n (lo + 1))

  pub used_opened :
      (n lo : ℕ)
      → lo ≤ i
      → i < lo + n
      → (files i).flags ≡ 0
      → file.flags ≢ 0
      → used n (update files i file) lo ≡ used n files lo + 1
  unfolding used
  used_opened zero lo h h' e e' = absurd (omega arith)
  used_opened (suc n) lo h h' e e' = elim (ℕ_discrete lo i) [
    | yes here ↦
        let old : (files lo).flags ≡ 0 = subst (λ k. (files k).flags ≡ 0) (sym here) e in
        let rest = used_outside n (lo + 1) (let b : i < lo + 1 = omega arith in b) in
        ground (arith, rest, old, e', here)
    | no there ↦
        let rest =
          used_opened n (lo + 1) (let b : lo + 1 ≤ i = omega arith in b)
            (let b : i < lo + 1 + n = omega arith in b) e e' in
        ground (arith, rest, there)
  ]

  pub used_closed :
      (n lo : ℕ)
      → lo ≤ i
      → i < lo + n
      → (files i).flags ≢ 0
      → file.flags ≡ 0
      → used n (update files i file) lo + 1 ≡ used n files lo
  unfolding used
  used_closed zero lo h h' e e' = absurd (omega arith)
  used_closed (suc n) lo h h' e e' = elim (ℕ_discrete lo i) [
    | yes here ↦
        let old : (files lo).flags ≢ 0 = subst (λ k. (files k).flags ≢ 0) (sym here) e in
        let rest = used_outside n (lo + 1) (let b : i < lo + 1 = omega arith in b) in
        ground (arith, rest, old, e', here)
    | no there ↦
        let rest =
          used_closed n (lo + 1) (let b : lo + 1 ≤ i = omega arith in b)
            (let b : i < lo + 1 + n = omega arith in b) e e' in
        ground (arith, rest, there)
  ]

  -- A change that keeps the flags keeps the number.
  pub used_kept :
      (n lo : ℕ) → file.flags ≡ (files i).flags → used n (update files i file) lo ≡ used n files lo
  unfolding used
  used_kept zero lo e = refl
  used_kept (suc n) lo e = elim (ℕ_discrete lo i) [
    | yes here ↦
        let old : file.flags ≡ (files lo).flags =
          subst (λ k. file.flags ≡ (files k).flags) (sym here) e in
        ground (arith, used_kept n (lo + 1) e, old, here)
    | no there ↦ ground (arith, used_kept n (lo + 1) e, there)
  ]
