-- ===== src/Strings/Reverse.antt =====
-- `strrev` reverses a string in place.
use native.Mathlib.Decide.{ℕ_discrete}
use operating_system_ece.Common.{
  ℕ, zero, suc, ◌+◌, ◌-◌, ◌≤◌, ◌<◌, ◌≡◌, sym, ◌∙◌, ◌≢◌, ◌⊎◌, ◌&&◌, inl, inr, some, arith, ltb, leb,
  ltb→lt, if◌then◌else◌, Bool-cases, Memory, write,
}
use operating_system_ece.Strings.{strrev, strrev_loop}
use operating_system_ece.Strings.Length.{IsString, strlen-some}

-- `m` with the bytes from `lo` to `hi` in reverse order.
abbrev pub mirrored : Memory → ℕ → ℕ → Memory
mirrored m lo hi a = if leb lo a && leb a hi then m (lo + hi - a) else m a

-- One round: the ends change places, the bytes between them wait for the later rounds.
module _ (m : Memory) (lo hi : ℕ) (h : lo < hi) where
  abbrev swapped : Memory
  swapped = write (write m hi (m lo)) lo (m hi)

  swapped-lo : swapped lo ≡ m hi
  unfolding write
  swapped-lo = ground arith

  swapped-hi : swapped hi ≡ m lo
  unfolding write
  swapped-hi = ground arith

  swapped_other : (a : ℕ) → a ≢ lo → a ≢ hi → swapped a ≡ m a
  unfolding write
  swapped_other a p q = ground arith

  mirrored-swapped : (a : ℕ) → mirrored swapped (lo + 1) (hi - 1) a ≡ mirrored m lo hi a
  mirrored-swapped a = elim (ℕ_discrete a lo) [
    | yes e ↦ rw e (ground (arith, swapped-lo))
    | no ne ↦ elim (ℕ_discrete a hi) [
      | yes e ↦ rw e (ground (arith, swapped-hi))
      | no ne' ↦ ground (arith, swapped_other a ne ne', swapped_other (lo + 1 + (hi - 1) - a))
    ]
  ]

strrev_loop-mirrored :
    (fuel : ℕ) (m : Memory) (s beg end a : ℕ)
    → end ≤ beg + fuel
    → strrev_loop fuel m s beg end a ≡ mirrored m (s + beg) (s + end) a
unfolding strrev_loop
strrev_loop-mirrored zero m s beg end a h = ground arith
strrev_loop-mirrored (suc fuel) m s beg end a h = elim (Bool-cases (ltb beg end)) [
  | inl more ↦
      let lt = ltb→lt beg end more in
      let m' : Memory = write (write m (s + end) (m (s + beg))) (s + beg) (m (s + end)) in
      let up : s + (beg + 1) ≡ s + beg + 1 = omega arith in
      let down : s + (end - 1) ≡ s + end - 1 = omega arith in
      rw more (
        strrev_loop-mirrored fuel m' s (beg + 1) (end - 1) a (omega arith)
        ∙ (rw (up, down) (mirrored-swapped m (s + beg) (s + end) (omega arith) a)))
  | inr done ↦ rw done (ground arith)
]

-- `m'` is `m` with the `n` bytes from `s` on in reverse order, and nothing else changed.
pub record Reversed (m m' : Memory) (s n : ℕ) : Type 0 where
  pub inside : (i : ℕ) → i < n → m' (s + i) ≡ m (s + (n - 1 - i))
  pub outside : (a : ℕ) → (a < s) ⊎ (s + n ≤ a) → m' a ≡ m a

loop-Reversed : (m : Memory) (s n : ℕ) → Reversed m (strrev_loop n m s 0 (n - 1)) s n
loop-Reversed m s n = record {
  inside = λ i h. ground (arith, strrev_loop-mirrored n m s 0 (n - 1) (s + i));
  outside = λ a h. ground (arith, strrev_loop-mirrored n m s 0 (n - 1) a);
}

-- `strrev` of a string of length `n` returns, if it is given more than `n` rounds, with the `n` bytes
-- reversed, and writes nowhere else.
pub strrev-Reversed :
    (fuel : ℕ) (m : Memory) (s n : ℕ)
    → IsString m s n
    → n < fuel
    → (m' : Memory) × (strrev fuel m s ≡ some m') × Reversed m m' s n
unfolding strrev
strrev-Reversed fuel m s n h lt =
    (strrev_loop n m s 0 (n - 1), rw (strlen-some fuel m s n h lt), loop-Reversed m s n)

-- So the result is a string of the same length.
pub Reversed-IsString :
    (m m' : Memory) (s n : ℕ) → IsString m s n → Reversed m m' s n → IsString m' s n
Reversed-IsString m m' s n h r = record {
  body = λ i lt e. h.body (n - 1 - i) (omega arith) (sym (r.inside i lt) ∙ e);
  stop = r.outside (s + n) (inr (omega arith)) ∙ h.stop;
}
