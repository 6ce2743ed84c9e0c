-- ===== src/Grep/Tests.antt =====
-- `grep` of a file that is handed over byte by byte.
use operating_system_ece.Common.{
  ℕ, zero, suc, ◌==◌, if◌then◌else◌, ℤ, pos, minus_one, Memory, write, List, [], ◌∷◌,
}
use operating_system_ece.Programs.{Kernel}

-- The machine is what is left of the file.
abbrev read_byte : ℤ → ℕ → ℕ → Memory → List ℕ → ℤ × Memory × List ℕ
read_byte fd a n m [] = (pos 0, m, [])
read_byte fd a zero m (c ∷ cs) = (pos 0, m, c ∷ cs)
read_byte fd a (suc n) m (c ∷ cs) = (pos 1, write m a c, cs)

abbrev one_file : Kernel (List ℕ)
one_file = record {
  call_read = read_byte;
  call_write = λ fd a n m w. (pos n, m, w);
  call_open = λ a m w. (pos 2, m, 65 ∷ 10 ∷ 66 ∷ []);
  call_getargs = λ a n m w. (pos 0, m, w);
  call_execute = λ a m w. (pos 0, m, w);
  call_close = λ fd m w. (pos 0, m, w);
  call_vidmap = λ a m w. (pos 0, m, w);
  call_set_handler = λ signum a m w. (pos 0, m, w);
  call_number = λ n m w. (minus_one, m, w);
}

-- "A" at 100, and zeros elsewhere.
abbrev letter_a : Memory
letter_a a = if a == 100 then 65 else 0
