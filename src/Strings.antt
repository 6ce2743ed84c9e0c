-- ===== src/Strings.antt =====
-- The string routines of student-distrib/lib.c over byte memory: `strlen`, `strrev`, `strncmp`,
-- `strcpy`, `strncpy` and `itoa`. A loop that runs to a NUL byte takes fuel, `none` means that the
-- fuel ran out; the children prove how much is enough.
pub mod Length
pub mod Reverse
pub mod Compare
pub mod Copy
pub mod Itoa
mod Tests
use operating_system_ece.Common.{
  ℕ, zero, suc, ◌+◌, ◌-◌, ◌/◌, ◌%◌, Bool, ◌||◌, not, Option, none, some, ltb, ◌==◌, if◌then◌else◌,
  ℤ, pos, ◌-ℤ◌, i8, Memory, write, List, codes, get_or, ◌>>=◌,
}

-- `while (s[len] != '\0') len++;`
unfoldable pub strlen_loop : ℕ → Memory → ℕ → ℕ → Option ℕ
strlen_loop zero m s len = none
strlen_loop (suc fuel) m s len =
    let rest = strlen_loop fuel m s (len + 1) in if m (s + len) == 0 then some len else rest

unfoldable pub strlen : ℕ → Memory → ℕ → Option ℕ
unfolding strlen_loop
strlen fuel m s = strlen_loop fuel m s 0

-- The swapping loop. At the empty string `end` is -1 in the source and 0 here: `beg < end` fails
-- at both. It falls in each round by two rounds' distance, so `end` rounds are enough.
unfoldable pub strrev_loop : ℕ → Memory → ℕ → ℕ → ℕ → Memory
strrev_loop zero m s beg end = m
strrev_loop (suc fuel) m s beg end =
    let swapped = write (write m (s + end) (m (s + beg))) (s + beg) (m (s + end)) in
    let rest = strrev_loop fuel swapped s (beg + 1) (end - 1) in if ltb beg end then rest else m

unfoldable pub strrev : ℕ → Memory → ℕ → Option Memory
unfolding strrev_loop
strrev fuel m s = do len ← strlen fuel m s; some (strrev_loop len m s 0 (len - 1))

-- `n` rounds are left, `i` are done.
unfoldable pub strncmp_loop : ℕ → Memory → ℕ → ℕ → ℕ → ℤ
strncmp_loop zero m s1 s2 i = pos 0
strncmp_loop (suc n) m s1 s2 i =
    let rest = strncmp_loop n m s1 s2 (i + 1) in
    if not (m (s1 + i) == m (s2 + i)) || (m (s1 + i) == 0)
    then i8 (m (s1 + i)) -ℤ i8 (m (s2 + i))
    else rest

unfoldable pub strncmp : Memory → ℕ → ℕ → ℕ → ℤ
unfolding strncmp_loop ◌-ℤ◌
strncmp m s1 s2 n = strncmp_loop n m s1 s2 0

unfoldable pub strcpy_loop : ℕ → Memory → ℕ → ℕ → ℕ → Option Memory
strcpy_loop zero m dest src i = none
strcpy_loop (suc fuel) m dest src i =
    let rest = strcpy_loop fuel (write m (dest + i) (m (src + i))) dest src (i + 1) in
    if m (src + i) == 0 then some (write m (dest + i) 0) else rest

unfoldable pub strcpy : ℕ → Memory → ℕ → ℕ → Option Memory
unfolding strcpy_loop
strcpy fuel m dest src = strcpy_loop fuel m dest src 0

-- The second loop of `strncpy`, with `n` rounds left.
strncpy_pad : ℕ → Memory → ℕ → ℕ → Memory
strncpy_pad zero m dest i = m
strncpy_pad (suc n) m dest i = strncpy_pad n (write m (dest + i) 0) dest (i + 1)

-- The first loop; where it stops the second goes on from the same `i`.
strncpy_loop : ℕ → Memory → ℕ → ℕ → ℕ → Memory
strncpy_loop zero m dest src i = m
strncpy_loop (suc n) m dest src i =
    let rest = strncpy_loop n (write m (dest + i) (m (src + i))) dest src (i + 1) in
    if m (src + i) == 0 then strncpy_pad (suc n) m dest i else rest

unfoldable pub strncpy : Memory → ℕ → ℕ → ℕ → Memory
unfolding strncpy_loop strncpy_pad
strncpy m dest src n = strncpy_loop n m dest src 0

-- The `lookup` of `itoa`.
abbrev pub digits : List ℕ
digits = codes "0123456789ABCDEFGHIJKLMNOPQRSTUVWXYZ"

-- The digit loop, from the lowest place up: the address behind the last digit, and the memory.
-- `newval` falls in each round, so more fuel than `newval` is enough.
unfoldable pub itoa_loop : ℕ → Memory → ℕ → ℕ → ℕ → ℕ × Memory
itoa_loop zero m newbuf newval radix = (newbuf, m)
itoa_loop (suc fuel) m newbuf newval radix =
    let rest =
      itoa_loop fuel (write m newbuf (get_or digits (newval % radix) 0)) (newbuf + 1)
        (newval / radix) radix in
    if ltb 0 newval then rest else (newbuf, m)

-- A 32-bit number has at most 32 digits in a radix of at least 2, and `strrev` needs one round more.
unfoldable pub itoa : Memory → ℕ → ℕ → ℕ → Option Memory
unfolding itoa_loop strrev strlen
itoa m value buf radix =
    if value == 0
    then some (write (write m buf 48) (buf + 1) 0)
    else let (end, m') = itoa_loop (suc value) m buf value radix in
      strrev (suc value) (write m' end 0) buf
