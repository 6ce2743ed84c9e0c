-- ===== src/Strings/Itoa.antt =====
-- `itoa` writes the numeral of its argument in the given radix.
use native.Mathlib.Nat.{add-zero, div-add-mod, mod-lt}
use operating_system_ece.Common.{
  ℕ, zero, suc, ◌+◌, ◌-◌, ◌*◌, ◌/◌, ◌%◌, ◌≤◌, ◌<◌, ◌≡◌, refl, sym, ap, ◌∙◌, ◌≢◌, ◌⊎◌, ◌&&◌, inl,
  inr, some, true, arith, ltb, leb, ◌==◌, ltb→lt, lt→ltb, ==_false, if◌then◌else◌, Bool-cases,
  Memory, write, write_self, write_ne, get_or, holds_below, holds_below_at,
}
use operating_system_ece.Strings.{digits, itoa, itoa_loop, strrev}
use operating_system_ece.Strings.Length.{IsString}
use operating_system_ece.Strings.Reverse.{Reversed, strrev-Reversed, Reversed-IsString}

-- The number that a digit stands for.
unfoldable pub digit_value : ℕ → ℕ
digit_value c = if leb 65 c then c - 55 else c - 48

digit_table :
    holds_below 36 (λ i. (digit_value (get_or digits i 0) == i) && leb 48 (get_or digits i 0))
    ≡ true
unfolding holds_below digit_value
digit_table = refl

digit_at : (i : ℕ) → i < 36 → (digit_value (get_or digits i 0) ≡ i) × (get_or digits i 0 ≢ 0)
digit_at i h = ground (
  arith,
  holds_below_at 36 (λ j. (digit_value (get_or digits j 0) == j) && leb 48 (get_or digits j 0))
      digit_table i h,
)

div-lt : (v r : ℕ) → 0 < v → 2 ≤ r → v / r < v
div-lt v r hv hr = grind (arith, div-add-mod v r)

-- The number that `n` digits stand for, the lowest place first, and the highest place first.
unfoldable pub lowest_first : Memory → ℕ → ℕ → ℕ → ℕ
lowest_first m r p zero = 0
lowest_first m r p (suc n) = digit_value (m p) + r * lowest_first m r (p + 1) n

unfoldable pub numeral : Memory → ℕ → ℕ → ℕ → ℕ
numeral m r p zero = 0
numeral m r p (suc n) = numeral m r p n * r + digit_value (m (p + n))

numeral-lowest_first :
    (m m' : Memory) (r p b n : ℕ)
    → ((i : ℕ) → i < n → m' (b + i) ≡ m (p + (n - 1 - i)))
    → numeral m' r b n ≡ lowest_first m r p n
unfolding numeral lowest_first
numeral-lowest_first m m' r p b zero h = refl
numeral-lowest_first m m' r p b (suc n) h =
    let ih : numeral m' r b n ≡ lowest_first m r (p + 1) n =
      numeral-lowest_first m m' r (p + 1) b n (λ i lt. ground (arith, h i)) in
    let last : m' (b + n) ≡ m p = ground (arith, h n) in rw (ih, last) (grind arith)

-- What the digit loop leaves at `p` for `v`: `n` digits, and nothing else changed.
record Digits (m m' : Memory) (r p v n : ℕ) : Type 0 where
  value : lowest_first m' r p n ≡ v
  nonzero : (i : ℕ) → i < n → m' (p + i) ≢ 0
  valid : (i : ℕ) → i < n → digit_value (m' (p + i)) < r
  lead : 0 < n → digit_value (m' (p + (n - 1))) ≢ 0
  outside : (a : ℕ) → (a < p) ⊎ (p + n ≤ a) → m' a ≡ m a
  short : n ≤ v

module _ (r : ℕ) (two : 2 ≤ r) (many : r ≤ 36) where
  -- One more digit in front of the others.
  Digits-cons :
      (m m' : Memory) (p v n : ℕ)
      → 0 < v
      → Digits (write m p (get_or digits (v % r) 0)) m' r (p + 1) (v / r) n
      → Digits m m' r p v (suc n)
  unfolding lowest_first
  Digits-cons m m' p v n some_left d = record {
    value = rw (at_p, low, d.value) (omega (arith, div-add-mod v r));
    nonzero = λ i h. at_all (λ c. c ≢ 0) (rw at_p high) d.nonzero i h;
    valid = λ i h.
        at_all (λ c. digit_value c < r) (rw (at_p, low) (mod-lt v (omega arith))) d.valid i h;
    lead = λ h. lead_at n d;
    outside = λ a h. d.outside a (omega arith) ∙ write_ne m p _ a (ground arith);
    short = omega (arith, d.short, div-lt v r some_left two);
  }
    where
      low : digit_value (get_or digits (v % r) 0) ≡ v % r
      low = (digit_at (v % r) (omega (arith, mod-lt v {m = r} (omega arith)))).0

      high : get_or digits (v % r) 0 ≢ 0
      high = (digit_at (v % r) (omega (arith, mod-lt v {m = r} (omega arith)))).1

      at_p : m' p ≡ get_or digits (v % r) 0
      at_p = d.outside p (inl (omega arith)) ∙ write_self m p _

      lead_at :
          (k : ℕ)
          → Digits (write m p (get_or digits (v % r) 0)) m' r (p + 1) (v / r) k
          → digit_value (m' (p + (suc k - 1))) ≢ 0
      lead_at zero e z =
          let at : p + (1 - 1) ≡ p = omega arith in
          let none_left : v % r ≡ 0 = sym (ap digit_value at_p ∙ low) ∙ (rw at at z) in
          let rest : r * 0 ≡ r * (v / r) = ap (λ (t : ℕ). r * t) e.value in
          absurd (omega (arith, none_left, rest, div-add-mod v r))
      lead_at (suc k) e z =
          let at : p + (suc (suc k) - 1) ≡ p + 1 + (suc k - 1) = omega arith in
          e.lead (omega arith) (rw at at z)

      at_all :
          (P : ℕ → Type 0)
          → P (m' p)
          → ((i : ℕ) → i < n → P (m' (p + 1 + i)))
          → (i : ℕ) → i < suc n
          → P (m' (p + i))
      at_all P first later zero h = rw add-zero first
      at_all P first later (suc i) h =
          let e : p + 1 + i ≡ p + suc i = omega arith in rw e at (later i (omega arith))

  itoa_loop-pos :
      (fuel : ℕ) (m : Memory) (p v : ℕ)
      → 0 < v
      → itoa_loop (suc fuel) m p v r
        ≡ itoa_loop fuel (write m p (get_or digits (v % r) 0)) (p + 1) (v / r) r
  unfolding itoa_loop
  itoa_loop-pos fuel m p v h = rw (lt→ltb 0 v h)

  itoa_loop-Digits :
      (fuel : ℕ) (m : Memory) (p v : ℕ)
      → v < fuel
      → (n : ℕ) × ((itoa_loop fuel m p v r).0 ≡ p + n) × Digits m (itoa_loop fuel m p v r).1 r p v n
  unfolding itoa_loop lowest_first
  itoa_loop-Digits zero m p v h = absurd (omega arith)
  itoa_loop-Digits (suc fuel) m p zero h = (
    0,
    omega arith,
    record {
      value = refl;
      nonzero = λ i lt. absurd (omega arith);
      valid = λ i lt. absurd (omega arith);
      lead = λ lt. absurd (omega arith);
      outside = λ a lt. refl;
      short = omega arith;
    },
  )
  itoa_loop-Digits (suc fuel) m p (suc v) h =
      let m1 : Memory = write m p (get_or digits (suc v % r) 0) in
      let (n, end, d) =
        itoa_loop-Digits fuel m1 (p + 1) (suc v / r)
          (omega (arith, div-lt (suc v) r (omega arith) two)) in
      let step = itoa_loop-pos fuel m p (suc v) (omega arith) in
      (suc n, rw step (omega (arith, end)), rw step (Digits-cons m _ p (suc v) n (omega arith) d))

-- The string at `buf` is the numeral of `v` in radix `r`, with `n` digits and no zero in front
-- unless it is the one digit of 0, and nothing outside it and its NUL has changed.
pub record IsNumeral (m m' : Memory) (r buf v n : ℕ) : Type 0 where
  pub string : IsString m' buf n
  pub value : numeral m' r buf n ≡ v
  pub valid : (i : ℕ) → i < n → digit_value (m' (buf + i)) < r
  pub lead : 0 < v → digit_value (m' buf) ≢ 0
  pub one_zero : v ≡ 0 → n ≡ 1
  pub outside : (a : ℕ) → (a < buf) ⊎ (buf + n < a) → m' a ≡ m a

itoa_zero :
    (m : Memory) (buf r : ℕ) → 2 ≤ r → IsNumeral m (write (write m buf 48) (buf + 1) 0) r buf 0 1
unfolding numeral digit_value write
itoa_zero m buf r two = record {
  string = record { body = λ i h. ground arith; stop = ground arith };
  value = ground arith;
  valid = λ i h. ground arith;
  lead = λ h. absurd (omega arith);
  one_zero = λ h. refl;
  outside = λ a h. ground arith;
}

-- The loop's digits, ended by a NUL and reversed.
module _ (m m1 m2 : Memory) (r buf v n : ℕ) (some_left : 0 < v) (d : Digits m m1 r buf v n) where
  ended-IsString : IsString (write m1 (buf + n) 0) buf n
  ended-IsString = record {
    body = λ i h. rw (write_ne m1 (buf + n) 0 (buf + i) (omega arith)) (d.nonzero i h);
    stop = write_self m1 (buf + n) 0;
  }

  some_digit : 0 < n
  unfolding lowest_first
  some_digit = elim (Bool-cases (ltb 0 n)) [
    | inl p ↦ ltb→lt 0 n p
    | inr z ↦
        let e : n ≡ 0 = ground arith in
        absurd (omega (arith, ap (lowest_first m1 r buf) e, d.value))
  ]

  module _ (rev : Reversed (write m1 (buf + n) 0) m2 buf n) where
    digit_from : (i : ℕ) → i < n → m2 (buf + i) ≡ m1 (buf + (n - 1 - i))
    digit_from i h = rev.inside i h ∙ write_ne m1 (buf + n) 0 _ (omega arith)

    reversed-IsNumeral : IsNumeral m m2 r buf v n
    reversed-IsNumeral = record {
      string = Reversed-IsString _ m2 buf n ended-IsString rev;
      value = numeral-lowest_first m1 m2 r buf buf n digit_from ∙ d.value;
      valid = λ i h. rw (digit_from i h) (d.valid (n - 1 - i) (omega arith));
      lead = λ h z.
          let at : m2 buf ≡ m1 (buf + (n - 1)) = ground (arith, digit_from 0 some_digit) in
          d.lead some_digit (rw (← at) z);
      one_zero = λ h. absurd (omega arith);
      outside = λ a h.
          rev.outside a (omega arith)
          ∙ (write_ne m1 (buf + n) 0 a (omega arith) ∙ d.outside a (omega arith));
    }

itoa-strrev :
    (m m1 m2 : Memory) (v buf r end : ℕ)
    → 0 < v
    → (itoa_loop (suc v) m buf v r).0 ≡ end
    → (itoa_loop (suc v) m buf v r).1 ≡ m1
    → strrev (suc v) (write m1 end 0) buf ≡ some m2
    → itoa m v buf r ≡ some m2
unfolding itoa
itoa-strrev m m1 m2 v buf r end h at left runs =
    rw (==_false v 0 (λ e. absurd (omega arith)), at, left, runs)

-- `itoa` in a radix from 2 to 36 returns, and leaves the numeral of `v` at `buf`.
pub itoa-IsNumeral :
    (m : Memory) (v buf r : ℕ)
    → 2 ≤ r
    → r ≤ 36
    → (m' : Memory) × (n : ℕ) × (itoa m v buf r ≡ some m') × IsNumeral m m' r buf v n
unfolding itoa
itoa-IsNumeral m zero buf r two many =
    (write (write m buf 48) (buf + 1) 0, 1, refl, itoa_zero m buf r two)
itoa-IsNumeral m (suc v) buf r two many =
    let (n, end, d) = itoa_loop-Digits r two many (suc (suc v)) m buf (suc v) (omega arith) in
    let m1 : Memory = (itoa_loop (suc (suc v)) m buf (suc v) r).1 in
    let done = ended-IsString m m1 m1 r buf (suc v) n (omega arith) d in
    let (m2, runs, rev) =
      strrev-Reversed (suc (suc v)) (write m1 (buf + n) 0) buf n done (omega (arith, d.short)) in
    (
      m2,
      n,
      itoa-strrev m m1 m2 (suc v) buf r (buf + n) (omega arith) end refl runs,
      reversed-IsNumeral m m1 m2 r buf (suc v) n (omega arith) d rev,
    )
