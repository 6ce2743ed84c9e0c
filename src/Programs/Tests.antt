-- ===== src/Programs/Tests.antt =====
-- `cat` and `ls` on a kernel that hands a file over byte by byte, and a directory name by name.
use operating_system_ece.Common.{
  ℕ, ◌+◌, ◌≡◌, ◌+ℤ◌, false, refl, arith, some, ℤ, pos, minus_one, Memory, write, List, [], ◌∷◌,
  ◌++◌, write_self,
}
use mathlib.Core.List.{map}
use operating_system_ece.Programs.{Kernel, is_minus_one, cat_loop, ls_loop}
use operating_system_ece.Programs.Copying.{
  bytes_from, Reads, cat_loop_lem, ReadsName, at_end, next_name, lines, ls_loop_lem,
}

-- What is left of the file, and what was shown.
abbrev Files : Type 0
Files = List ℕ × List ℕ

abbrev read_byte : ℤ → ℕ → ℕ → Memory → Files → ℤ × Memory × Files
read_byte fd buf n m ([], shown) = (pos 0, m, ([], shown))
read_byte fd buf n m (c ∷ cs, shown) = (pos 1, write m buf c, (cs, shown))

abbrev show : ℤ → ℕ → ℕ → Memory → Files → ℤ × Memory × Files
show fd buf n m (unread, shown) = (pos (n + 1), m, (unread, shown ++ bytes_from m buf n))

abbrev bytewise : Kernel Files
bytewise = record {
  call_read = read_byte;
  call_write = show;
  call_open = λ a m w. (pos 2, m, w);
  call_getargs = λ a n m w. (pos 0, m, w);
  call_execute = λ a m w. (pos 0, m, w);
  call_close = λ fd m w. (pos 0, m, w);
  call_vidmap = λ a m w. (pos 0, m, w);
  call_set_handler = λ signum a m w. (pos 0, m, w);
  call_number = λ n m w. (minus_one, m, w);
}

abbrev left : Files → List ℕ
left w = w.0

abbrev seen : Files → List ℕ
seen w = w.1

Reads-byte :
    (m : Memory) (w : Files)
    → let (cnt, m', w') = read_byte (pos 2) 500 1024 m w in Reads left seen 500 1024 w cnt m' w'
unfolding bytes_from
Reads-byte m ([], shown) = record {
  chunk = [];
  count = refl;
  split = refl;
  stored = refl;
  at_end = λ e. refl;
  silent = refl;
}
Reads-byte m (c ∷ cs, shown) = record {
  chunk = c ∷ [];
  count = refl;
  split = refl;
  stored = rw (write_self m 500 c) refl;
  at_end = λ e. absurd (omega arith);
  silent = refl;
}

-- The count is one more than what is shown, as the kernel's is.
shown_well : (n : ℕ) → is_minus_one (pos (n + 1)) ≡ false
unfolding ◌+ℤ◌
shown_well n = ground arith

cat_loop_lem_example :
    (m' : Memory) × (w' : Files) × (cat_loop bytewise 10
        (λ t. 900)
        500
        4
        (pos 2)
        (λ a. 0)
        (65 ∷ 66 ∷ [], [])
      ≡ some (pos 0, m', w'))
    × (seen w' ≡ [] ++ (65 ∷ 66 ∷ []))
cat_loop_lem_example =
    cat_loop_lem bytewise 10 (λ t. 900) 500 (pos 2) left seen Reads-byte
      (λ n m w. record { well = shown_well n; shown = refl; unread = refl }) 4 (λ a. 0)
      (65 ∷ 66 ∷ [], []) (omega arith)

-- A directory of one-letter names, by their letters.
abbrev names : Files → List (List ℕ)
names w = map (λ c. c ∷ []) w.0

reads_name :
    (m : Memory) (w : Files)
    → let (cnt, m', w') = read_byte (pos 2) 500 32 m w in ReadsName names seen 500 w cnt m' w'
unfolding bytes_from
reads_name m ([], shown) = at_end refl refl refl
reads_name m (c ∷ cs, shown) =
    next_name (c ∷ []) refl (omega arith) refl (rw (write_self m 500 c) refl) refl

ls_loop_lem_example :
    (m' : Memory) × (w' : Files) × (ls_loop bytewise 10
        (λ t. 900)
        500
        4
        (pos 2)
        (λ a. 0)
        (65 ∷ 66 ∷ [], [])
      ≡ some (pos 0, m', w'))
    × (seen w' ≡ [] ++ lines ((65 ∷ []) ∷ (66 ∷ []) ∷ []))
ls_loop_lem_example =
    ls_loop_lem bytewise 10 (λ t. 900) 500 (pos 2) names seen reads_name
      (λ n m w. record { well = shown_well n; shown = refl; unread = refl }) 4 (λ a. 0)
      (65 ∷ 66 ∷ [], []) (omega arith)
