-- ===== src/Pingpong/Tests.antt =====
-- Two rounds of `pingpong` with a clock that ticks at once.
use operating_system_ece.Common.{
  ℕ, ◌==◌, if◌then◌else◌, ℤ, pos, negsuc, minus_one, Memory, List, ◌++◌,
}
use operating_system_ece.Programs.{Kernel}
use operating_system_ece.Programs.Copying.{bytes_from}

-- The machine is what was shown.
abbrev show : ℤ → ℕ → ℕ → Memory → List ℕ → ℤ × Memory × List ℕ
show (negsuc i) buf n m w = (minus_one, m, w)
show (pos i) buf n m w = if i == 1 then (pos n, m, w ++ bytes_from m buf n) else (pos 0, m, w)

abbrev quick : Kernel (List ℕ)
quick = record {
  call_read = λ fd a n m w. (pos 0, m, w);
  call_write = show;
  call_open = λ a m w. (pos 2, m, w);
  call_getargs = λ a n m w. (pos 0, m, w);
  call_execute = λ a m w. (pos 0, m, w);
  call_close = λ fd m w. (pos 0, m, w);
  call_vidmap = λ a m w. (pos 0, m, w);
  call_set_handler = λ signum a m w. (pos 0, m, w);
  call_number = λ n m w. (minus_one, m, w);
}
