-- ===== src/Programs.antt =====
-- The user programs of syscalls: ece391cat.c, ece391ls.c, ece391hello.c, ece391testprint.c, ece391shell.c, and
-- ece391counter.c. The system calls are an interface, whose state `W` stands for the rest of the machine.
pub mod Copying
mod Tests
use operating_system_ece.Common.{
  ℕ, zero, suc, ◌+◌, ◌-◌, ◌*◌, Option, none, some, Bool, true, false, not, ◌||◌, ◌&&◌, ltb, ◌==◌,
  if◌then◌else◌, ℤ, pos, pos_part, ◌+ℤ◌, ◌-ℤ◌, ltb_ℤ, is_zero, Memory, write, List, [], ◌∷◌, codes,
  ◌>>=◌,
}
use operating_system_ece.Support.{ece391_strlen, ece391_strcmp, ece391_itoa}

-- Each call takes the caller's memory and the machine, and gives its result and both after it. A count that
-- a program passes on from `read` is at least 0 there: -1, the one negative result, is tested for before.
pub record Kernel (W : Type 0) : Type 0 where
  pub call_read : ℤ → ℕ → ℕ → Memory → W → ℤ × Memory × W
  pub call_write : ℤ → ℕ → ℕ → Memory → W → ℤ × Memory × W
  pub call_open : ℕ → Memory → W → ℤ × Memory × W
  pub call_getargs : ℕ → ℕ → Memory → W → ℤ × Memory × W
  pub call_execute : ℕ → Memory → W → ℤ × Memory × W
  pub call_close : ℤ → Memory → W → ℤ × Memory × W
  pub call_vidmap : ℕ → Memory → W → ℤ × Memory × W
  pub call_set_handler : ℕ → ℕ → Memory → W → ℤ × Memory × W
  pub call_number : ℤ → Memory → W → ℤ × Memory × W

abbrev pub is_minus_one : ℤ → Bool
is_minus_one r = is_zero (r +ℤ pos 1)

abbrev pub buf_size : ℕ
buf_size = 1024

-- The size of a name in `ls`, without its NUL.
abbrev pub name_size : ℕ
name_size = 32

-- What the shell says of a command's result.
unfoldable pub verdict : ℤ → Option (List ℕ)
verdict rval =
    if is_minus_one rval
    then some (codes "no such command\n")
    else if is_zero (rval -ℤ pos 256)
    then some (codes "program terminated by exception\n")
    else if not (is_zero rval)
    then some (codes "program terminated abnormally\n")
    else none

-- The number of lines for a choice.
unfoldable pub choice : ℕ → ℕ
choice c = if c == b'0' then 100 else if c == b'1' then 10000 else if c == b'2' then 100000 else 0

-- `literal` has the address of a text of the program, and `buf` is that of its buffer.
module _ {W : Type 0} (k : Kernel W) (fuel : ℕ) (literal : List ℕ → ℕ) (buf : ℕ) where
  unfoldable pub ece391_fdputs : ℤ → ℕ → Memory → W → Option (Memory × W)
  ece391_fdputs fd s m w = do
    n ← ece391_strlen fuel m s
    (let (r, m', w') = k.call_write fd s n m w in some (m', w'))

  -- `fdputs` of a text, and then `return`.
  unfoldable pub fails_with : List ℕ → ℕ → Memory → W → Option (ℤ × Memory × W)
  fails_with text status m w = do
    (m', w') ← ece391_fdputs (pos 1) (literal text) m w
    some (pos status, m', w')

  unfoldable pub cat_loop : ℕ → ℤ → Memory → W → Option (ℤ × Memory × W)
  cat_loop zero fd m w = none
  cat_loop (suc rounds) fd m w =
      let (cnt, m1, w1) = k.call_read fd buf buf_size m w in
      let (r, m2, w2) = k.call_write (pos 1) buf (pos_part cnt) m1 w1 in
      let rest = cat_loop rounds fd m2 w2 in
      if is_zero cnt
      then some (pos 0, m1, w1)
      else if is_minus_one cnt
      then fails_with (codes "file read failed\n") 3 m1 w1
      else if is_minus_one r
      then some (pos 3, m2, w2)
      else rest

  unfoldable pub cat_main : ℕ → Memory → W → Option (ℤ × Memory × W)
  cat_main rounds m w =
      let (got, m1, w1) = k.call_getargs buf buf_size m w in
      let (fd, m2, w2) = k.call_open buf m1 w1 in
      if not (is_zero got)
      then fails_with (codes "could not read arguments\n") 3 m1 w1
      else if is_minus_one fd
      then fails_with (codes "file not found\n") 2 m2 w2
      else cat_loop rounds fd m2 w2

  unfoldable pub ls_loop : ℕ → ℤ → Memory → W → Option (ℤ × Memory × W)
  ls_loop zero fd m w = none
  ls_loop (suc rounds) fd m w =
      let (cnt, m1, w1) = k.call_read fd buf name_size m w in
      let (r, m2, w2) =
        k.call_write (pos 1) buf (pos_part cnt + 1) (write m1 (buf + pos_part cnt) b'\n') w1 in
      let rest = ls_loop rounds fd m2 w2 in
      if is_zero cnt
      then some (pos 0, m1, w1)
      else if is_minus_one cnt
      then fails_with (codes "directory entry read failed\n") 3 m1 w1
      else if is_minus_one r
      then some (pos 3, m2, w2)
      else rest

  unfoldable pub ls_main : ℕ → Memory → W → Option (ℤ × Memory × W)
  ls_main rounds m w =
      let (fd, m1, w1) = k.call_open (literal (codes ".")) m w in
      if is_minus_one fd
      then fails_with (codes "directory open failed\n") 2 m1 w1
      else ls_loop rounds fd m1 w1

  unfoldable pub testprint_main : Memory → W → Option (ℤ × Memory × W)
  testprint_main m w =
      fails_with (codes "Hello, if this ran, the program was correct. Yay!\n") 0 m w

  -- What follows the read in `hello`.
  unfoldable pub greet : ℤ → Memory → W → Option (ℤ × Memory × W)
  greet cnt m w = do
    (m1, w1) ← ece391_fdputs (pos 1) (literal (codes "Hello, ")) (write m (buf + pos_part cnt) 0) w
    (m2, w2) ← ece391_fdputs (pos 1) buf m1 w1
    some (pos 0, m2, w2)

  unfoldable pub hello_main : Memory → W → Option (ℤ × Memory × W)
  hello_main m w = do
    (m1, w1) ← ece391_fdputs (pos 1) (literal (codes "Hi, what's your name? ")) m w
    (let (cnt, m2, w2) = k.call_read (pos 0) buf (buf_size - 1) m1 w1 in
        if is_minus_one cnt
        then fails_with (codes "Can't read name from keyboard.\n") 3 m2 w2
        else greet cnt m2 w2)

  -- The shell: the newline at the end of a line gives way to a NUL.
  unfoldable pub command_length : ℤ → Memory → ℕ
  command_length cnt m =
      if ltb_ℤ (pos 0) cnt && (m (buf + pos_part cnt - 1) == b'\n')
      then pos_part cnt - 1
      else pos_part cnt

  unfoldable pub say_verdict : ℤ → Memory → W → Option (Memory × W)
  say_verdict rval m w = elim (verdict rval) [
    | none ↦ some (m, w)
    | some text ↦ ece391_fdputs (pos 1) (literal text) m w
  ]

  -- A line that was read: `none` to end the shell, or the state to go on with.
  unfoldable pub run_line : Memory → W → Option (Option (Memory × W))
  run_line m w = do
    same ← ece391_strcmp fuel m buf (literal (codes "exit"))
    (let (rval, m1, w1) = k.call_execute buf m w in
        if is_zero same
        then some none
        else if m buf == 0
        then some (some (m, w))
        else (do said ← say_verdict rval m1 w1; some (some said)))

  unfoldable pub shell_round : Memory → W → Option (ℤ × Bool × Memory × W)
  shell_round m w = do
    (m1, w1) ← ece391_fdputs (pos 1) (literal (codes "391OS> ")) m w
    (let (cnt, m2, w2) = k.call_read (pos 0) buf (buf_size - 1) m1 w1 in
        let m3 = write m2 (buf + command_length cnt m2) 0 in
        if is_minus_one cnt
        then (do
          (status, m4, w4) ← fails_with (codes "read from keyboard failed\n") 3 m2 w2
          some (status, true, m4, w4))
        else (do
          next ← run_line m3 w2
          elim next [
            | none ↦ some (pos 0, true, m3, w2)
            | some (m4, w4) ↦ some (pos 0, false, m4, w4)
          ]))

  -- The loop of the shell; the Boolean is whether a round ended it.
  unfoldable pub shell_loop : ℕ → Memory → W → Option (ℤ × Memory × W)
  shell_loop zero m w = none
  shell_loop (suc rounds) m w = do
    (status, ended, m1, w1) ← shell_round m w
    (let rest = shell_loop rounds m1 w1 in if ended then some (status, m1, w1) else rest)

  unfoldable pub shell_main : ℕ → Memory → W → Option (ℤ × Memory × W)
  shell_main rounds m w = do
    (m1, w1) ← ece391_fdputs (pos 1) (literal (codes "Starting 391 Shell\n")) m w
    shell_loop rounds m1 w1

  -- The loop of the counter, with `left` numbers to go.
  unfoldable pub count_loop : ℕ → ℕ → Memory → W → Option (Memory × W)
  count_loop zero i m w = some (m, w)
  count_loop (suc left) i m w = do
    m1 ← ece391_itoa m (i + 1) buf 10
    (m2, w2) ← ece391_fdputs (pos 1) buf m1 w
    (m3, w3) ← ece391_fdputs (pos 1) (literal (codes "\n")) m2 w2
    count_loop left (i + 1) m3 w3

  -- What follows the read in the counter.
  unfoldable pub count_chosen : Memory → W → Option (ℤ × Memory × W)
  count_chosen m w = do
    n ← ece391_strlen fuel m buf
    (if ltb 2 n || ((n == 2) && (ltb (m buf) b'0' || ltb b'2' (m buf)))
        then fails_with (codes "Wrong Choice!\n") 0 m w
        else (do (m1, w1) ← count_loop (choice (m buf)) 0 m w; some (pos 0, m1, w1)))

  unfoldable pub counter_main : Memory → W → Option (ℤ × Memory × W)
  counter_main m w = do
    (m1, w1) ←
        ece391_fdputs (pos 1)
          (literal (codes "Enter the Test Number: (0): 100, (1): 10000, (2): 100000\n")) m w
    (let (cnt, m2, w2) = k.call_read (pos 0) buf (buf_size - 1) m1 w1 in
        if is_minus_one cnt
        then fails_with (codes "Can't read the number from keyboard.\n") 3 m2 w2
        else count_chosen (write m2 (buf + pos_part cnt) 0) w2)
