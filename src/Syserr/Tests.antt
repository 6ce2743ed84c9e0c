-- ===== src/Syserr/Tests.antt =====
-- All tests of syscalls/ece391syserr.c on a small kernel: `read`, `vidmap` and unknown numbers always fail.
use operating_system_ece.Common.{
  ℕ, zero, suc, ◌+◌, ◌-◌, ◌*◌, ◌≤◌, ◌<◌, ◌≡◌, refl, arith, Bool, true, false, ◌&&◌, ltb, leb, ◌==◌,
  if◌then◌else◌, update, Option, some, none, ℤ, pos, negsuc, minus_one, Memory, List, [], ◌∷◌, ◌++◌,
  length, subst, sym, get_or,
}
use native.Mathlib.Decide.{ℕ_discrete}
use mathlib.Core.List.{Memᴰ}
use operating_system_ece.Support.{ece391_strlen}
use operating_system_ece.Files.{returned, sys_close}
use operating_system_ece.Calls.{sys_read, sys_write}
use operating_system_ece.Execute.Image.{system}
use operating_system_ece.Programs.{Kernel}
use operating_system_ece.Programs.Copying.{bytes_from}
use operating_system_ece.Syserr.{run_all}
use operating_system_ece.Syserr.Documented.{Stands, IsClosed, Fails, Sets, Documented}
use operating_system_ece.Syserr.Passing.{passes, missing_names}
use operating_system_ece.Syserr.InKernel.{is_open_in, AllFail, descriptors_checked}
use operating_system_ece.Syserr.Overall.{concat_texts, run_all_succeeds}

-- The open descriptors from 2 on, and what was shown.
abbrev Toy : Type 0
Toy = (ℕ → Bool) × List ℕ

abbrev is_open : Toy → ℕ → Bool
is_open w i = if ltb i 2 then true else w.0 i

abbrev shown : Toy → List ℕ
shown w = w.1

-- Where each text stands, by three of its bytes.
abbrev place : List ℕ → ℕ
place t = 10000 * get_or t 4 0 + 100 * get_or t 8 0 + get_or t 0 0

abbrev texts_at : List (List ℕ) → Memory
texts_at [] a = 0
texts_at (t ∷ ts) a =
    if leb (place t) a && ltb a (place t + length t)
    then get_or t (a - place t) 0
    else texts_at ts a

abbrev memory : Memory
memory = texts_at passes

abbrev read_nothing : ℤ → ℕ → ℕ → Memory → Toy → ℤ × Memory × Toy
read_nothing fd buf n m w = (minus_one, m, w)

abbrev show : ℤ → ℕ → ℕ → Memory → Toy → ℤ × Memory × Toy
show (negsuc i) buf n m w = (minus_one, m, w)
show (pos i) buf n m w =
    if i == 1 then (pos n, m, (w.0, w.1 ++ bytes_from m buf n)) else (minus_one, m, w)

abbrev close_it : ℤ → Memory → Toy → ℤ × Memory × Toy
close_it (negsuc i) m w = (minus_one, m, w)
close_it (pos i) m w =
    if leb 2 i && ltb i 8 && w.0 i then (pos 0, m, (update w.0 i false, w.1)) else (minus_one, m, w)

abbrev first_free : ℕ → ℕ → (ℕ → Bool) → Option ℕ
first_free zero i f = none
first_free (suc left) i f = let rest = first_free left (i + 1) f in if f i then rest else some i

-- The name is known by its address.
abbrev open_it : ℕ → Memory → Toy → ℤ × Memory × Toy
open_it a m w =
    if a == 46
    then (elim (first_free 6 2 w.0) [
      | none ↦ (minus_one, m, w)
      | some i ↦ (pos i, m, (update w.0 i true, w.1))
    ])
    else (minus_one, m, w)

abbrev small : Kernel Toy
small = record {
  call_read = read_nothing;
  call_write = show;
  call_open = open_it;
  call_getargs = λ a n m w. (pos 0, m, w);
  call_execute = λ a m w. (pos 0, m, w);
  call_close = close_it;
  call_vidmap = λ a m w. (minus_one, m, w);
  call_set_handler = λ signum a m w. (pos 0, m, w);
  call_number = λ n m w. (minus_one, m, w);
}

first_free-some :
    (left k : ℕ) (i : ℕ) (f : ℕ → Bool)
    → k ≤ i
    → i < k + left
    → ((j : ℕ) → k ≤ j → j < i → f j ≡ true)
    → f i ≡ false
    → first_free left k f ≡ some i
first_free-some zero k i f h h' taken free = absurd (omega arith)
first_free-some (suc left) k i f h h' taken free = elim (ℕ_discrete k i) [
  | yes e ↦ rw (e, free) refl
  | no ne ↦ rw (taken k (omega arith) (omega arith)) (
      first_free-some left (k + 1) i f (omega arith) (omega arith)
        (λ j a b. taken j (omega arith) b) free)
]

first_free-none :
    (left k : ℕ) (f : ℕ → Bool)
    → ((j : ℕ) → k ≤ j → j < k + left → f j ≡ true)
    → first_free left k f ≡ none
first_free-none zero k f taken = refl
first_free-none (suc left) k f taken =
    rw (taken k (omega arith) (omega arith))
      (first_free-none left (k + 1) f (λ j a b. taken j (omega arith) (omega arith)))

failed : (w : Toy) → Fails is_open shown memory w (minus_one, memory, w)
failed w = record { value = refl; memory = refl; files = λ j. refl; shown = refl }

write-Fails :
    (fd : ℤ) (buf n : ℕ) (w : Toy)
    → IsClosed (is_open w) fd
    → Fails is_open shown memory w (show fd buf n memory w)
write-Fails (negsuc i) buf n w c = failed w
write-Fails (pos i) buf n w c = let t : (i == 1) ≡ false = ground (arith, c) in rw t (failed w)

abbrev closes : Toy → ℕ → Bool
closes w i = leb 2 i && ltb i 8 && w.0 i

close-Fails :
    (fd : ℤ) (w : Toy)
    → IsClosed (is_open w) fd
    → Fails is_open shown memory w (close_it fd memory w)
close-Fails (negsuc i) w c = failed w
close-Fails (pos i) w c = let t : closes w i ≡ false = ground (arith, c) in rw t (failed w)

close-low : (i : ℕ) (w : Toy) → i < 2 → Fails is_open shown memory w (close_it (pos i) memory w)
close-low i w h = let t : closes w i ≡ false = ground arith in rw t (failed w)

close-Sets :
    (i : ℕ) (w : Toy)
    → 2 ≤ i
    → i < 8
    → is_open w i ≡ true
    → Sets is_open shown memory w i false (pos 0) (close_it (pos i) memory w)
close-Sets i w h h' o =
    let t : closes w i ≡ true = ground (arith, o) in
    rw t (record { value = refl; memory = refl; files = λ j. ground arith; shown = refl })

from_two : (i : ℕ) (w : Toy) (b : Bool) → 2 ≤ i → is_open w i ≡ b → w.0 i ≡ b
from_two i w b h e = ground (arith, e)

open-Sets :
    (i : ℕ) (w : Toy)
    → 2 ≤ i
    → i < 8
    → ((j : ℕ) → 2 ≤ j → j < i → is_open w j ≡ true)
    → is_open w i ≡ false
    → Sets is_open shown memory w i true (pos i) (open_it 46 memory w)
open-Sets i w h h' taken free =
    rw
      (first_free-some 6 2 i w.0 h h' (λ j a b. from_two j w true a (taken j a b))
        (from_two i w false h free))
      (record { value = refl; memory = refl; files = λ j. ground arith; shown = refl })

open-Fails :
    (w : Toy)
    → ((j : ℕ) → 2 ≤ j → j < 8 → is_open w j ≡ true)
    → Fails is_open shown memory w (open_it 46 memory w)
open-Fails w taken =
    rw (first_free-none 6 2 w.0 (λ j a b. from_two j w true a (taken j a b))) (failed w)

abbrev IsMissing : List ℕ → Type 0
IsMissing name = (place name == 46) ≡ false

Documented-small : Documented is_open shown memory small place IsMissing
Documented-small = record {
  read_closed = λ fd buf n w c. failed w;
  read_stdout = λ buf n w. failed w;
  write_closed = write-Fails;
  write_stdin = λ buf n w. failed w;
  write_stdout = λ buf n w. (refl, λ j. refl, refl);
  close_closed = close-Fails;
  close_terminal = close-low;
  close_open = close-Sets;
  open_missing = λ name w e. rw e (failed w);
  open_directory = open-Sets;
  open_full = open-Fails;
  vidmap_outside = λ a w o. failed w;
  number_unknown = λ n w u. failed w;
}

missing_lem : (name : List ℕ) → Memᴰ name missing_names → IsMissing name
missing_lem name m = elim m [
  | Memᴰ.head e ↦ rw e refl
  | Memᴰ.tail (Memᴰ.head e) ↦ rw e refl
  | Memᴰ.tail (Memᴰ.tail (Memᴰ.head e)) ↦ rw e refl
  | Memᴰ.tail (Memᴰ.tail (Memᴰ.tail m')) ↦ elim m' [ ]
]

-- Each text stands where it should.
abbrev AllStand : List (List ℕ) → Type 0
AllStand [] = Unit
AllStand (t ∷ ts) = Stands 40 place memory t × AllStand ts

Stands-member :
    (ts : List (List ℕ)) → AllStand ts → (t : List ℕ) → Memᴰ t ts → Stands 40 place memory t
Stands-member [] a t m = elim m [ ]
Stands-member (s ∷ ts) (here, rest) t m = elim m [
  | Memᴰ.head e ↦ subst (λ x. Stands 40 place memory x) (sym e) here
  | Memᴰ.tail m' ↦ Stands-member ts rest t m'
]

passes-AllStand : AllStand passes
unfolding ece391_strlen bytes_from
passes-AllStand = (
  record { measured = refl; there = refl },
  (
    record { measured = refl; there = refl },
    (
      record { measured = refl; there = refl },
      (
        record { measured = refl; there = refl },
        (
          record { measured = refl; there = refl },
          (
            record { measured = refl; there = refl },
            (
              record { measured = refl; there = refl },
              (
                record { measured = refl; there = refl },
                (record { measured = refl; there = refl }, tt),
              ),
            ),
          ),
        ),
      ),
    ),
  ),
)

abbrev idle : Toy
idle = (λ i. false, [])

run_all_succeeds_example :
    (w' : Toy) × (run_all small 40 place 7 memory idle ≡ some (0, memory, w'))
    × (shown w' ≡ [] ++ concat_texts passes)
    × ((i : ℕ) → 2 ≤ i → i < 8 → is_open w' i ≡ false)
run_all_succeeds_example =
    run_all_succeeds small 40 place 7 is_open shown memory IsMissing Documented-small missing_lem
      (Stands-member passes passes-AllStand) idle (λ i a b. ground arith)

-- The descriptor 1000 in a process of a small kernel.
descriptors_checked_example :
    (IsClosed (is_open_in system) (pos 1000) → AllFail 0x10000 300 (pos 1000) 700 (pos 31) system)
    × (sys_read 0x10000 300 (pos 1) 700 (pos 31) system ≡ returned minus_one system)
    × (sys_write (pos 0) 700 (pos 31) system ≡ returned minus_one system)
    × (sys_close (pos 0) system ≡ (minus_one, system))
    × (sys_close (pos 1) system ≡ (minus_one, system))
descriptors_checked_example = descriptors_checked 0x10000 300 (pos 1000) 700 (pos 31) system
