-- ===== src/Printf/Numbers.antt =====
-- What the numeric conversions print.
use operating_system_ece.Common.{
  ℕ, zero, suc, ◌+◌, ◌-◌, ◌*◌, ◌^◌, ◌≤◌, ◌<◌, ◌≡◌, ◌≢◌, refl, ◌∙◌, ◌⊎◌, inl, inr, arith, true,
  false, if◌then◌else◌, leb, ltb, ◌&&◌, pos, ltb_ℤ, ◌-ℤ◌, i32, u32, Memory, write, write_self,
}
use native.Mathlib.Decide.{dec_lt}
use operating_system_ece.Strings.Length.{IsString, strlen-some}
use operating_system_ece.Strings.Itoa.{digit_value, numeral, IsNumeral, itoa-IsNumeral}
use operating_system_ece.Screen.{Console}
use operating_system_ece.Printf.{fill_zeros, print_string, print_number, print_padded, print_signed}

-- Digits of value 0 in front do not change what a numeral stands for.
numeral_zeros :
    (m : Memory) (r p k : ℕ) → ((j : ℕ) → j < k → digit_value (m (p + j)) ≡ 0) → numeral m r p k ≡ 0
unfolding numeral
numeral_zeros m r p zero h = refl
numeral_zeros m r p (suc k) h =
    let front = numeral_zeros m r p k (λ j lt. h j (omega arith)) in
    rw (front, h k (omega arith)) (omega arith)

numeral_skip :
    (m : Memory) (r p k n : ℕ)
    → ((j : ℕ) → j < k → digit_value (m (p + j)) ≡ 0)
    → numeral m r p (k + n) ≡ numeral m r (p + k) n
unfolding numeral
numeral_skip m r p k zero h =
    let none : k + 0 ≡ k = omega arith in rw none (numeral_zeros m r p k h)
numeral_skip m r p k (suc n) h =
    let more : k + suc n ≡ suc (k + n) = omega arith in
    let place : p + (k + n) ≡ p + k + n = omega arith in
    rw (more, numeral_skip m r p k n h, place) refl

numeral_same :
    (m m' : Memory) (r p n : ℕ)
    → ((j : ℕ) → j < n → m' (p + j) ≡ m (p + j))
    → numeral m' r p n ≡ numeral m r p n
unfolding numeral
numeral_same m m' r p zero h = refl
numeral_same m m' r p (suc n) h =
    rw (numeral_same m m' r p n (λ j lt. h j (omega arith)), h n (omega arith)) refl

-- A numeral of more than eight hexadecimal digits, the first of them not 0, is not a 32-bit number.
numeral_step : (m : Memory) (p k : ℕ) → numeral m 16 p k * 16 ≤ numeral m 16 p (suc k)
unfolding numeral
numeral_step m p k = omega arith

numeral_grows : (m : Memory) (p j k : ℕ) → numeral m 16 p j ≤ numeral m 16 p (k + j)
numeral_grows m p j zero = let same : 0 + j ≡ j = omega arith in rw same (omega arith)
numeral_grows m p j (suc k) =
    let next : suc k + j ≡ suc (k + j) = omega arith in
    rw next (omega (arith, numeral_grows m p j k, numeral_step m p (k + j)))

numeral_nine : (m : Memory) (p : ℕ) → digit_value (m p) ≢ 0 → 2 ^ 32 ≤ numeral m 16 p 9
unfolding numeral
numeral_nine m p h = let at : p + 0 ≡ p = omega arith in rw at (omega arith)

-- So a 32-bit number has at most eight of them.
pub digits_le : (m m' : Memory) (buf v n : ℕ) → v < 2 ^ 32 → IsNumeral m m' 16 buf v n → n ≤ 8
digits_le m m' buf v n h num = elim (dec_lt n 9) [
  | yes few ↦ omega arith
  | no many ↦
      let some_left : 0 < v = ground (arith, num.one_zero) in
      let sum : n - 9 + 9 ≡ n = omega arith in
      let grows = rw sum at (numeral_grows m' buf 9 (n - 9)) in
      absurd (omega (arith, numeral_nine m' buf (num.lead some_left), grows, num.value))
]

-- In decimal it has at most ten.
decimal_step : (m : Memory) (p k : ℕ) → numeral m 10 p k * 10 ≤ numeral m 10 p (suc k)
unfolding numeral
decimal_step m p k = omega arith

decimal_grows : (m : Memory) (p j k : ℕ) → numeral m 10 p j ≤ numeral m 10 p (k + j)
decimal_grows m p j zero = let same : 0 + j ≡ j = omega arith in rw same (omega arith)
decimal_grows m p j (suc k) =
    let next : suc k + j ≡ suc (k + j) = omega arith in
    rw next (omega (arith, decimal_grows m p j k, decimal_step m p (k + j)))

decimal_eleven : (m : Memory) (p : ℕ) → digit_value (m p) ≢ 0 → 2 ^ 32 ≤ numeral m 10 p 11
unfolding numeral
decimal_eleven m p h = let at : p + 0 ≡ p = omega arith in rw at (omega arith)

pub decimals_le : (m m' : Memory) (buf v n : ℕ) → v < 2 ^ 32 → IsNumeral m m' 10 buf v n → n ≤ 10
decimals_le m m' buf v n h num = elim (dec_lt n 11) [
  | yes few ↦ omega arith
  | no many ↦
      let some_left : 0 < v = ground (arith, num.one_zero) in
      let sum : n - 11 + 11 ≡ n = omega arith in
      let grows = rw sum at (decimal_grows m' buf 11 (n - 11)) in
      absurd (omega (arith, decimal_eleven m' buf (num.lead some_left), grows, num.value))
]

fill_zeros-eq :
    (left : ℕ) (m : Memory) (conv i a : ℕ)
    → fill_zeros left m conv i a
      ≡ (if leb (conv + i) a && ltb a (conv + i + left) then b'0' else m a)
unfolding fill_zeros write
fill_zeros-eq zero m conv i a = ground arith
fill_zeros-eq (suc left) m conv i a =
    ground (arith, fill_zeros-eq left (write m (conv + i) b'0') conv (i + 1) a)

-- What `%#x` leaves for `puts` in the buffer at `conv`: a string of eight digits at `a`.
pub record IsPadded (m m' : Memory) (conv v a : ℕ) : Type 0 where
  pub string : IsString m' a 8
  pub place : (conv ≤ a) × (a ≤ conv + 8)
  pub value : numeral m' 16 a 8 ≡ v
  pub outside : (x : ℕ) → (x < conv) ⊎ (conv + 16 < x) → m' x ≡ m x

module _ (m m1 : Memory) (conv v n : ℕ) (few : n ≤ 8) (num : IsNumeral m m1 16 (conv + 8) v n) where
  filled : Memory
  filled = fill_zeros (8 - n) m1 conv n

  zero_digit : (j : ℕ) → j < 8 - n → filled (conv + n + j) ≡ b'0'
  unfolding filled
  zero_digit j h = rw (fill_zeros-eq (8 - n) m1 conv n (conv + n + j)) (ground arith)

  kept : (x : ℕ) → (x < conv) ⊎ (conv + 8 ≤ x) → filled x ≡ m1 x
  unfolding filled
  kept x h = rw (fill_zeros-eq (8 - n) m1 conv n x) (ground arith)

  own_digit : (j : ℕ) → filled (conv + 8 + j) ≡ m1 (conv + 8 + j)
  own_digit j = kept (conv + 8 + j) (inr (omega arith))

  filled-body : (j : ℕ) → j < 8 → filled (conv + n + j) ≢ 0
  filled-body j h = elim (dec_lt j (8 - n)) [
    | yes front ↦ λ e. absurd (omega (arith, zero_digit j front))
    | no own ↦
        let place : conv + n + j ≡ conv + 8 + (n + j - 8) = omega arith in
        rw (place, own_digit (n + j - 8)) (num.string.body (n + j - 8) (omega arith))
  ]

  filled-value : numeral filled 16 (conv + n) 8 ≡ v
  unfolding digit_value
  filled-value =
      let eight : 8 ≡ 8 - n + n = omega arith in
      let place : conv + n + (8 - n) ≡ conv + 8 = omega arith in
      let skip = numeral_skip filled 16 (conv + n) (8 - n) n (λ j h. rw (zero_digit j h) refl) in
      rw eight (
        skip ∙ (rw place (numeral_same m1 filled 16 (conv + 8) n (λ j h. own_digit j) ∙ num.value)))

  filled-IsPadded : IsPadded m filled conv v (conv + n)
  filled-IsPadded = record {
    string = record {
      body = filled-body;
      stop =
          let place : conv + n + 8 ≡ conv + 8 + n = omega arith in
          rw (place, own_digit n) (num.string.stop);
    };
    place = (omega arith, omega arith);
    value = filled-value;
    outside = λ x h. kept x (omega arith) ∙ num.outside x (omega arith);
  }

-- `%#x` of a 32-bit number prints, as `puts` does, a string of exactly eight hexadecimal digits that
-- stand for the number, if `puts` and `strlen` are given more than eight rounds; outside the local
-- buffer nothing else has changed before the printing.
pub print_padded-IsPadded :
    (put : ℕ → Console → Console) (fuel conv v : ℕ) (s : Console)
    → v < 2 ^ 32
    → 8 < fuel
    → (m' : Memory) × (a : ℕ) × IsPadded s.mem m' conv v a
      × (print_padded put fuel conv v s ≡ print_string put fuel conv a m' s)
unfolding print_padded
print_padded-IsPadded put fuel conv v s h more =
    let (m1, n, runs, num) = itoa-IsNumeral s.mem v (conv + 8) 16 (omega arith) (omega arith) in
    let few = digits_le s.mem m1 (conv + 8) v n h num in
    (
      fill_zeros (8 - n) m1 conv n,
      conv + n,
      unfold filled in (filled-IsPadded s.mem m1 conv v n few num),
      rw (runs, strlen-some fuel m1 (conv + 8) n (num.string) (omega arith)) refl,
    )

-- What `%d` leaves there: the numeral of the number, or `-` and the numeral of its magnitude.
pub record IsSigned (m m' : Memory) (conv v n : ℕ) : Type 0 where
  pub digits :
      ((v < 2 ^ 31) × IsNumeral m m' 10 conv v n)
      ⊎ ((2 ^ 31 ≤ v)
          × (m' conv ≡ b'-')
          × IsNumeral (write m conv b'-') m' 10 (conv + 1) (2 ^ 32 - v) n)

negated : (v : ℕ) → 2 ^ 31 ≤ v → v < 2 ^ 32 → u32 (pos 0 -ℤ i32 v) ≡ 2 ^ 32 - v
unfolding ◌-ℤ◌
negated v h h' = ground arith

-- `%d` of any 32-bit pattern prints, as `puts` does, the decimal numeral of the signed number that it
-- stands for, with a `-` in front of a negative one, the least of them included.
pub print_signed-IsSigned :
    (put : ℕ → Console → Console) (fuel conv v : ℕ) (s : Console)
    → v < 2 ^ 32
    → (m' : Memory) × (n : ℕ) × IsSigned s.mem m' conv v n
      × (print_signed put fuel conv v s ≡ print_string put fuel conv conv m' s)
unfolding print_signed print_number
print_signed-IsSigned put fuel conv v s h = elim (dec_lt v (2 ^ 31)) [
  | yes positive ↦
      let (m', n, runs, num) = itoa-IsNumeral s.mem v conv 10 (omega arith) (omega arith) in
      let test : ltb_ℤ (i32 v) (pos 0) ≡ false = ground arith in
      (m', n, record { digits = inl (positive, num) }, rw (test, runs) refl)
  | no negative ↦
      let (m', n, runs, num) =
        itoa-IsNumeral (write s.mem conv b'-') (2 ^ 32 - v) (conv + 1) 10 (omega arith)
          (omega arith) in
      let test : ltb_ℤ (i32 v) (pos 0) ≡ true = ground arith in
      let sign = num.outside conv (inl (omega arith)) ∙ write_self s.mem conv b'-' in
      (
        m',
        n,
        record { digits = inr (omega arith, sign, num) },
        rw (test, negated v (omega arith) h, runs) refl,
      )
]
