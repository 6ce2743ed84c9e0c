-- ===== src/Support/SameAsKernel.antt =====
-- The programs' string routines against the kernel's.
use operating_system_ece.Common.{
  ℕ, zero, suc, ◌+◌, ◌-◌, ◌/◌, ◌≡◌, refl, ap, ◌∙◌, inl, inr, arith, Option, some, Bool, true, false,
  ltb, ◌==◌, Bool-cases, Option-cases, ==_false, if◌then◌else◌, Memory, write,
}
use native.Mathlib.Decide.{ℕ_discrete}
use operating_system_ece.Strings.{
  strlen, strlen_loop, strcpy, strcpy_loop, strrev, strrev_loop, itoa, itoa_loop,
}
use operating_system_ece.Support.{
  strlen_from, ece391_strlen, ece391_strcpy, reverse_between, ece391_strrev, add_digits,
  ece391_itoa,
}

strlen_from_lem :
    (fuel : ℕ) (m : Memory) (s i : ℕ) → strlen_from fuel m (s + i) i ≡ strlen_loop fuel m s i
unfolding strlen_from strlen_loop
strlen_from_lem zero m s i = refl
strlen_from_lem (suc fuel) m s i =
    let next : s + i + 1 ≡ s + (i + 1) = omega arith in
    rw next (ground (arith, strlen_from_lem fuel m s (i + 1)))

-- The programs' `strlen` is the kernel's, on any memory.
pub ece391_strlen-strlen :
    (fuel : ℕ) (m : Memory) (s : ℕ) → ece391_strlen fuel m s ≡ strlen fuel m s
unfolding ece391_strlen strlen
ece391_strlen-strlen fuel m s =
    let e : s + 0 ≡ s = omega arith in rw e at (strlen_from_lem fuel m s 0)

strcpy_from_lem :
    (fuel : ℕ) (m : Memory) (dst src i : ℕ)
    → ece391_strcpy fuel m (dst + i) (src + i) ≡ strcpy_loop fuel m dst src i
unfolding ece391_strcpy strcpy_loop
strcpy_from_lem zero m dst src i = refl
strcpy_from_lem (suc fuel) m dst src i =
    let next : dst + i + 1 ≡ dst + (i + 1) = omega arith in
    let next' : src + i + 1 ≡ src + (i + 1) = omega arith in
    elim (ℕ_discrete (m (src + i)) 0) [
      | yes end ↦ rw end refl
      | no more ↦
          let on : (0 == m (src + i)) ≡ false = ground (arith, more) in
          let off : (m (src + i) == 0) ≡ false = ==_false _ _ more in
          rw (on, off, next, next') (strcpy_from_lem fuel _ dst src (i + 1))
    ]

reverse_between_lem :
    (n : ℕ) (m : Memory) (s beg end : ℕ) → reverse_between n m s beg end ≡ strrev_loop n m s beg end
unfolding reverse_between strrev_loop
reverse_between_lem zero m s beg end = refl
reverse_between_lem (suc n) m s beg end =
    ap (λ (rest : Memory). if ltb beg end then rest else m)
      (reverse_between_lem n _ s (beg + 1) (end - 1))

reversed :
    (m : Memory) (s len : ℕ)
    → (if ltb len 2 then m else reverse_between len m s 0 (len - 1))
      ≡ strrev_loop len m s 0 (len - 1)
unfolding strrev_loop
reversed m s zero = refl
reversed m s (suc zero) = refl
reversed m s (suc (suc len)) =
    let long : ltb (suc (suc len)) 2 ≡ false = ground arith in
    rw long (reverse_between_lem (suc (suc len)) m s 0 (suc (suc len) - 1))

add_digits_lem : (n : ℕ) (m : Memory) (a v r : ℕ) → add_digits n m a v r ≡ itoa_loop n m a v r
unfolding add_digits itoa_loop
add_digits_lem zero m a v r = refl
add_digits_lem (suc n) m a v r =
    ap (λ (rest : ℕ × Memory). if ltb 0 v then rest else (a, m))
      (add_digits_lem n _ (a + 1) (v / r) r)

-- The programs' `strcpy` is the kernel's.
pub ece391_strcpy-strcpy :
    (fuel : ℕ) (m : Memory) (dst src : ℕ) → ece391_strcpy fuel m dst src ≡ strcpy fuel m dst src
unfolding strcpy
ece391_strcpy-strcpy fuel m dst src =
    let e : dst + 0 ≡ dst = omega arith in
    let e' : src + 0 ≡ src = omega arith in rw (e, e') at (strcpy_from_lem fuel m dst src 0)

either_way :
    (b : Bool) (x y : Memory)
    → ◌≡◌ {A = Option Memory} (if b then some x else some y) (some (if b then x else y))
either_way true x y = refl
either_way false x y = refl

-- The programs' `strrev` is the kernel's: the test that the programs' has before the loop changes nothing.
pub ece391_strrev-strrev :
    (fuel : ℕ) (m : Memory) (s : ℕ) → ece391_strrev fuel m s ≡ strrev fuel m s
unfolding ece391_strrev strrev
ece391_strrev-strrev fuel m s = elim (Option-cases (strlen fuel m s)) [
  | inl e ↦ rw (ece391_strlen-strlen fuel m s, e) refl
  | inr (len, e) ↦
      rw (ece391_strrev, ece391_strlen-strlen fuel m s, e)
        (either_way (ltb len 2) m (reverse_between len m s 0 (len - 1))
          ∙ ap some (reversed m s len))
]

-- The programs' `itoa` is the kernel's.
pub ece391_itoa-itoa :
    (m : Memory) (value buf radix : ℕ) → ece391_itoa m value buf radix ≡ itoa m value buf radix
unfolding ece391_itoa itoa
ece391_itoa-itoa m value buf radix = elim (Bool-cases (value == 0)) [
  | inl hit ↦ rw hit refl
  | inr miss ↦ rw miss (
      ap (λ (r : ℕ × Memory). ece391_strrev (suc value) (write r.1 r.0 0) buf)
        (add_digits_lem (suc value) m buf value radix)
      ∙ ece391_strrev-strrev (suc value) _ buf)
]
