-- ===== src/Syserr.antt =====
-- syscalls/ece391syserr.c: the program that tries the system calls with wrong arguments, over the interface of
-- Programs.antt. Each test gives its count of failures, 0 or 2, as the program's `fail`.
pub mod Documented
pub mod Steps
pub mod Rounds
pub mod Passing
pub mod Overall
pub mod InKernel
mod Tests
use operating_system_ece.Common.{
  ℕ, zero, suc, ◌+◌, ◌-◌, ◌==◌, ◌++◌, Option, none, some, ◌>>=◌, Bool, true, false, if◌then◌else◌,
  ℤ, pos, negsuc, ◌-ℤ◌, is_zero, Memory, List, [], ◌∷◌, codes,
}
use operating_system_ece.Programs.{Kernel, is_minus_one, ece391_fdputs, fails_with}

-- -1073741823 and 1073741823, for descriptors and for numbers of calls.
abbrev pub neg_num : ℤ
neg_num = negsuc 1073741822

abbrev pub big_num : ℤ
big_num = pos 1073741823

-- `buf` is the local buffer of the test that runs.
module _ {W : Type 0} (k : Kernel W) (fuel : ℕ) (literal : List ℕ → ℕ) (buf : ℕ) where
  unfoldable pub put_text : List ℕ → Memory → W → Option (Memory × W)
  put_text text m w = ece391_fdputs k fuel literal buf (pos 1) (literal text) m w

  -- A call that should give -1: if not, it says so, and `fail` is 2.
  unfoldable pub expect_error :
      (Memory → W → ℤ × Memory × W) → List ℕ → ℕ × Memory × W → Option (ℕ × Memory × W)
  expect_error call text (fail, m, w) =
      let (r, m1, w1) = call m w in
      if is_minus_one r
      then some (fail, m1, w1)
      else (do (m2, w2) ← put_text text m1 w1; some (2, m2, w2))

  -- The end of a test, with its verdict.
  unfoldable pub conclude : List ℕ → List ℕ → ℕ × Memory × W → Option (ℕ × Memory × W)
  conclude failed passed (fail, m, w) = do
    (m', w') ← put_text (if fail == 0 then passed else failed) m w
    some (fail, m', w')

  unfoldable pub err_neg_fd : Memory → W → Option (ℕ × Memory × W)
  err_neg_fd m w = do
    s1 ← expect_error (k.call_read neg_num buf 31) (codes "read fail\n") (0, m, w)
    s2 ← expect_error (k.call_write neg_num buf 31) (codes "write fail\n") s1
    s3 ← expect_error (k.call_close neg_num) (codes "close fail\n") s2
    conclude (codes "err_neg_fd: FAIL\n") (codes "err_neg_fd: PASS\n") s3

  unfoldable pub err_big_fd : Memory → W → Option (ℕ × Memory × W)
  err_big_fd m w = do
    s1 ← expect_error (k.call_read big_num buf 31) (codes "read fail\n") (0, m, w)
    s2 ← expect_error (k.call_write big_num buf 31) (codes "write fail\n") s1
    s3 ← expect_error (k.call_close big_num) (codes "close fail\n") s2
    conclude (codes "err_big_fd: FAIL\n") (codes "err_big_fd: PASS\n") s3

  -- `open` of the directory, `left` times: the count of those that fail.
  unfoldable pub open_rounds : ℕ → ℕ → Memory → W → ℕ × Memory × W
  open_rounds zero cnt m w = (cnt, m, w)
  open_rounds (suc left) cnt m w =
      let (fd, m1, w1) = k.call_open (literal (codes ".")) m w in
      open_rounds left (if is_minus_one fd then cnt + 1 else cnt) m1 w1

  unfoldable pub close_rounds : ℕ → ℕ → Memory → W → Memory × W
  close_rounds zero i m w = (m, w)
  close_rounds (suc left) i m w =
      let (r, m1, w1) = k.call_close (pos i) m w in close_rounds left (i + 1) m1 w1

  unfoldable pub err_open_lots : Memory → W → Option (ℕ × Memory × W)
  err_open_lots m w =
      let (cnt, m1, w1) = open_rounds 7 0 m w in
      let (m2, w2) = close_rounds 6 2 m1 w1 in
      conclude (codes "err_open_lots: FAIL\n") (codes "err_open_lots: PASS\n")
        (if cnt == 1 then 0 else 2, m2, w2)

  unfoldable pub err_open : Memory → W → Option (ℕ × Memory × W)
  err_open m w = do
    s1 ← expect_error (k.call_open (literal (codes "helloo"))) (codes "'helloo' fail\n") (0, m, w)
    s2 ← expect_error (k.call_open (literal (codes "shel"))) (codes "'shel' fail\n") s1
    s3 ← expect_error (k.call_open (literal [])) (codes "empty string fail\n") s2
    conclude (codes "err_open: FAIL\n") (codes "err_open: PASS\n") s3

  -- A call for each descriptor from `i` on, with `left` to go.
  unfoldable pub expect_errors :
      (ℕ → Memory → W → ℤ × Memory × W) → List ℕ → ℕ → ℕ → ℕ × Memory × W → Option (ℕ × Memory × W)
  expect_errors call text zero i s = some s
  expect_errors call text (suc left) i s = do
    s' ← expect_error (call i) text s
    expect_errors call text left (i + 1) s'

  unfoldable pub err_unopened : Memory → W → Option (ℕ × Memory × W)
  err_unopened m w = do
    s1 ←
        expect_errors (λ i. k.call_close (pos i)) (codes "close unopened or invalid fd fail\n") 8 0
          (0, m, w)
    s2 ←
        expect_errors (λ i. k.call_read (pos i) buf 31) (codes "read from unopened fd fail\n") 6 2
          s1
    s3 ←
        expect_errors (λ i. k.call_write (pos i) buf 31) (codes "write to unopened fd fail\n") 6 2
          s2
    conclude (codes "err_unopened: FAIL\n") (codes "err_unopened: PASS\n") s3

  unfoldable pub err_vidmap : Memory → W → Option (ℕ × Memory × W)
  err_vidmap m w = do
    s1 ← expect_error (k.call_vidmap 0) (codes "Null pointer fail\n") (0, m, w)
    s2 ← expect_error (k.call_vidmap 0x400000) (codes "Kernel pointer fail fail\n") s1
    conclude (codes "err_vidmap: FAIL\n") (codes "err_vidmap: PASS\n") s2

  unfoldable pub err_stdin_out : Memory → W → Option (ℕ × Memory × W)
  err_stdin_out m w = do
    s1 ← expect_error (k.call_write (pos 0) buf 31) (codes "write to stdin fail\n") (0, m, w)
    s2 ← expect_error (k.call_read (pos 1) buf 31) (codes "read from stdout fail\n") s1
    conclude (codes "err_stdin_out: FAIL\n") (codes "err_stdin_out: PASS\n") s2

  unfoldable pub err_syscall_num : Memory → W → Option (ℕ × Memory × W)
  err_syscall_num m w = do
    s1 ← expect_error (k.call_number (pos 0)) (codes "syscall 0 fail\n") (0, m, w)
    s2 ← expect_error (k.call_number big_num) (codes "big num syscall fail\n") s1
    s3 ← expect_error (k.call_number neg_num) (codes "neg num syscall fail\n") s2
    conclude (codes "err_syscall_num: FAIL\n") (codes "err_syscall_num: PASS\n") s3

  abbrev pub tests : List (Memory → W → Option (ℕ × Memory × W))
  tests =
      err_neg_fd ∷ err_big_fd ∷ err_open_lots ∷ err_open ∷ err_unopened ∷ err_vidmap ∷ err_stdin_out
      ∷ err_syscall_num ∷ []

  -- `fail += ...` for each test in turn.
  unfoldable pub run_tests :
      List (Memory → W → Option (ℕ × Memory × W)) → ℕ × Memory × W → Option (ℕ × Memory × W)
  run_tests [] s = some s
  run_tests (test ∷ rest) (fail, m, w) = do
    (more, m1, w1) ← test m w
    run_tests rest (fail + more, m1, w1)

  unfoldable pub run_all : Memory → W → Option (ℕ × Memory × W)
  run_all m w = do
    s ← run_tests tests (0, m, w)
    conclude (codes "\nOverall Tests: FAIL\n") (codes "\nOverall Tests: PASS\n") s

  -- The test that the first byte asks for.
  unfoldable pub run_selected : ℕ → Memory → W → Option (ℕ × Memory × W)
  run_selected c m w =
      if c == b'0'
      then run_all m w
      else if c == b'1'
      then err_neg_fd m w
      else if c == b'2'
      then err_big_fd m w
      else if c == b'3'
      then err_open_lots m w
      else if c == b'4'
      then err_open m w
      else if c == b'5'
      then err_unopened m w
      else if c == b'6'
      then err_vidmap m w
      else if c == b'7'
      then err_stdin_out m w
      else if c == b'8'
      then err_syscall_num m w
      else (do
        (m', w') ← put_text (codes "Invalid test number. Choose from tests 1-8 or 0") m w
        some (0, m', w'))

  unfoldable pub syserr_main : Memory → W → Option (ℕ × Memory × W)
  syserr_main m w = do
    (m1, w1) ← put_text (codes "Choose from tests 1-8. 0 to run all: ") m w
    (let (cnt, m2, w2) = k.call_read (pos 0) buf 127 m1 w1 in
        if is_minus_one cnt
        then (do (m3, w3) ← put_text (codes "Can't read test #\n") m2 w2; some (2, m3, w3))
        else run_selected (m2 buf) m2 w2)
