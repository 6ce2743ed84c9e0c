-- ===== src/Printf.antt =====
-- student-distrib/lib.c: `printf` and `printf2`, which differ in the function that prints a character:
-- `put` is `putc` or `putc2`. The loop reads one character of the format in each round, so it is a
-- machine with a state for what a `%` has begun; the arguments are the words from `esp` on, and `conv`
-- is the address of the local `conv_buf`.
pub mod Text
pub mod Numbers
pub mod Returns
pub mod Formats
mod Tests
use operating_system_ece.Common.{
  ℕ, zero, suc, ◌+◌, ◌-◌, ◌%◌, ◌^◌, Bool, true, false, not, Option, none, some, ◌>>=◌, ltb, ◌==◌,
  if◌then◌else◌, ℤ, pos, ltb_ℤ, ◌-ℤ◌, i32, u32, Memory, write, load32, List, [], ◌∷◌,
}
use operating_system_ece.Strings.{itoa, strlen}
use operating_system_ece.Screen.{Console, putc, putc2, print_loop}

-- Whether the next character is plain, or belongs to a conversion, perhaps an alternate one.
pub data Mode : Type 0 where
  plain : Mode
  conversion : Bool → Mode

-- `while(i < 8) { conv_buf[i] = '0'; i++; }`, with `left` rounds to go.
fill_zeros : ℕ → Memory → ℕ → ℕ → Memory
fill_zeros zero m conv i = m
fill_zeros (suc left) m conv i = fill_zeros left (write m (conv + i) b'0') conv (i + 1)

module _ (put : ℕ → Console → Console) (fuel conv : ℕ) where
  -- A string that stands in the memory, printed by `puts`.
  abbrev pub print_string : ℕ → Memory → Console → Option Console
  print_string str m s = do r ← print_loop fuel put str 0 (record s { mem = m }); some (r.1)

  unfoldable pub print_number : ℕ → ℕ → Console → Option Console
  print_number radix value s = do m ← itoa s.mem value conv radix; print_string conv m s

  unfoldable pub print_padded : ℕ → Console → Option Console
  unfolding fill_zeros
  print_padded value s = do
    m ← itoa s.mem value (conv + 8) 16
    starting_index ← strlen fuel m (conv + 8)
    print_string (conv + starting_index) (fill_zeros (8 - starting_index) m conv starting_index) s

  unfoldable pub print_signed : ℕ → Console → Option Console
  print_signed value s =
      if ltb_ℤ (i32 value) (pos 0)
      then (do
        m ← itoa (write s.mem conv b'-') (u32 (pos 0 -ℤ i32 value)) (conv + 1) 10
        print_string conv m s)
      else print_number 10 value s

  -- One conversion: the argument pointer and the console after it.
  unfoldable pub convert : Bool → ℕ → ℕ → Console → Option (ℕ × Console)
  convert alternate c esp s =
      let value = load32 s.mem esp in
      let next : Option Console → Option (ℕ × Console) = λ o. o >>= λ s'. some (esp + 4, s') in
      if c == b'%'
      then some (esp, put b'%' s)
      else if c == b'x'
      then next (if alternate then print_padded value s else print_number 16 value s)
      else if c == b'u'
      then next (print_number 10 value s)
      else if c == b'd'
      then next (print_signed value s)
      else if c == b'c'
      then next (some (put (value % 256) s))
      else if c == b's'
      then next (print_string value s.mem s)
      else some (esp, s)

  -- `none` when the rounds are used up.
  pub printf_loop : ℕ → Mode → ℕ → ℕ → Console → Option (ℕ × Console)
  printf_loop zero mode buf esp s = none
  printf_loop (suc rounds) plain buf esp s =
      let c = s.mem buf in
      let rest = printf_loop rounds plain (buf + 1) esp (put c s) in
      let begun = printf_loop rounds (conversion false) (buf + 1) esp s in
      if c == 0 then some (buf, s) else if c == b'%' then begun else rest
  printf_loop (suc rounds) (conversion alternate) buf esp s =
      let c = s.mem buf in
      let again = printf_loop rounds (conversion true) (buf + 1) esp s in
      let rest =
        convert alternate c esp s >>= λ r. printf_loop rounds plain (buf + 1) (r.0) (r.1) in
      if c == b'#' then again else rest

  -- The count of characters of the format, and the console.
  unfoldable pub printf_by : ℕ → ℕ → Console → Option (ℕ × Console)
  printf_by format esp s = do r ← printf_loop fuel plain format esp s; some (r.0 - format, r.1)

unfoldable pub printf : ℕ → ℕ → ℕ → ℕ → Console → Option (ℕ × Console)
unfolding printf_by
printf fuel conv format esp s = printf_by putc fuel conv format esp s

unfoldable pub printf2 : ℕ → ℕ → ℕ → ℕ → Console → Option (ℕ × Console)
unfolding printf_by
printf2 fuel conv format esp s = printf_by putc2 fuel conv format esp s
