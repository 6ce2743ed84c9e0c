-- ===== src/Support.antt =====
-- syscalls/ece391support.c: the string routines of the user programs, over the byte memory of a program. A loop
-- that runs to a NUL takes fuel, `none` means that the fuel ran out.
pub mod SameAsKernel
pub mod Compare
use operating_system_ece.Common.{
  ℕ, zero, suc, ◌+◌, ◌-◌, ◌/◌, ◌%◌, Option, none, some, Bool, not, ◌||◌, ltb, ◌==◌, if◌then◌else◌,
  ℤ, pos, ◌-ℤ◌, Memory, write, get_or, ◌>>=◌,
}
use operating_system_ece.Strings.{digits}

strlen_from : ℕ → Memory → ℕ → ℕ → Option ℕ
strlen_from zero m s len = none
strlen_from (suc fuel) m s len =
    let rest = strlen_from fuel m (s + 1) (len + 1) in if not (0 == m s) then rest else some len

unfoldable pub ece391_strlen : ℕ → Memory → ℕ → Option ℕ
unfolding strlen_from
ece391_strlen fuel m s = strlen_from fuel m s 0

unfoldable pub ece391_strcpy : ℕ → Memory → ℕ → ℕ → Option Memory
ece391_strcpy zero m dst src = none
ece391_strcpy (suc fuel) m dst src =
    let m' = write m dst (m src) in
    let rest = ece391_strcpy fuel m' (dst + 1) (src + 1) in
    if not (0 == m src) then rest else some m'

unfoldable pub ece391_strcmp : ℕ → Memory → ℕ → ℕ → Option ℤ
ece391_strcmp zero m s1 s2 = none
ece391_strcmp (suc fuel) m s1 s2 =
    let rest = ece391_strcmp fuel m (s1 + 1) (s2 + 1) in
    if m s1 == m s2
    then if m s1 == 0 then some (pos 0) else rest
    else some (pos (m s1) -ℤ pos (m s2))

-- The loop of `ece391_strncmp`, with `n` more than 0 left.
strncmp_from : ℕ → Memory → ℕ → ℕ → ℤ
strncmp_from zero m s1 s2 = pos 0
strncmp_from (suc n) m s1 s2 =
    let rest = strncmp_from n m (s1 + 1) (s2 + 1) in
    if m s1 == m s2
    then if (m s1 == 0) || (n == 0) then pos 0 else rest
    else pos (m s1) -ℤ pos (m s2)

unfoldable pub ece391_strncmp : Memory → ℕ → ℕ → ℕ → ℤ
unfolding strncmp_from
ece391_strncmp m s1 s2 n = if 0 == n then pos 0 else strncmp_from n m s1 s2

-- The swapping loop: `end - beg` falls by 2 in each round.
reverse_between : ℕ → Memory → ℕ → ℕ → ℕ → Memory
reverse_between zero m s beg end = m
reverse_between (suc rounds) m s beg end =
    let tmp = m (s + end) in
    let rest =
      reverse_between rounds (write (write m (s + end) (m (s + beg))) (s + beg) tmp) s (beg + 1)
        (end - 1) in
    if ltb beg end then rest else m

-- `end <= 0` is that the length is at most 1.
unfoldable pub ece391_strrev : ℕ → Memory → ℕ → Option Memory
unfolding reverse_between
ece391_strrev fuel m s = do
  len ← ece391_strlen fuel m s
  if ltb len 2 then some m else some (reverse_between len m s 0 (len - 1))

-- The digits from the lowest place up: the address behind the last, and the memory.
add_digits : ℕ → Memory → ℕ → ℕ → ℕ → ℕ × Memory
add_digits zero m newbuf newval radix = (newbuf, m)
add_digits (suc fuel) m newbuf newval radix =
    let i = newval % radix in
    let rest =
      add_digits fuel (write m newbuf (get_or digits i 0)) (newbuf + 1) (newval / radix) radix in
    if ltb 0 newval then rest else (newbuf, m)

-- A number falls when it is divided by a radix of 2 or more, so it has fewer digits than its value and 1.
unfoldable pub ece391_itoa : Memory → ℕ → ℕ → ℕ → Option Memory
unfolding add_digits
ece391_itoa m value buf radix =
    if value == 0
    then some (write (write m buf b'0') (buf + 1) 0)
    else let (newbuf, m') = add_digits (suc value) m buf value radix in
      ece391_strrev (suc value) (write m' newbuf 0) buf
