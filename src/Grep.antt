-- ===== src/Grep.antt =====
-- syscalls/ece391grep.c: the files of the directory, searched line by line in a buffer of 1024 bytes, over the
-- interface of Programs.antt.
pub mod Lines
pub mod Returns
pub mod Searched
mod Tests
use operating_system_ece.Common.{
  ℕ, zero, suc, ◌+◌, ◌-◌, ◌==◌, leb, Option, none, some, ◌>>=◌, Bool, true, false, not, ◌&&◌,
  if◌then◌else◌, ℤ, pos, minus_one, pos_part, is_zero, Memory, write, List, codes,
}
use operating_system_ece.Support.{ece391_strlen, ece391_strcpy, ece391_strncmp}
use operating_system_ece.Programs.{Kernel, is_minus_one, ece391_fdputs}

abbrev pub grep_bufsize : ℕ
grep_bufsize = 1024

-- `SBUFSIZE-1`
abbrev pub entry_size : ℕ
entry_size = 32

-- `while (line_end < last && '\n' != data[line_end])`, with `left` bytes up to `last`.
unfoldable pub find_end : ℕ → Memory → ℕ → ℕ → ℕ
find_end zero m line_buf line_end = line_end
find_end (suc left) m line_buf line_end =
    let rest = find_end left m line_buf (line_end + 1) in
    if m (line_buf + line_end) == b'\n' then line_end else rest

-- `line_buf` is the address of `data`, `s` and `fname` are the two arguments.
module _ {W : Type 0} (k : Kernel W) (fuel : ℕ) (literal : List ℕ → ℕ) (line_buf s fname : ℕ) where
  unfoldable pub say_at : ℕ → Memory → W → Option (Memory × W)
  say_at a m w = ece391_fdputs k fuel literal line_buf (pos 1) a m w

  unfoldable pub print_match : ℕ → Memory → W → Option (Memory × W)
  print_match line_start m w = do
    (m1, w1) ← say_at fname m w
    (m2, w2) ← say_at (literal (codes ":")) m1 w1
    (m3, w3) ← say_at (line_buf + line_start) m2 w2
    say_at (literal (codes "\n")) m3 w3

  unfoldable pub is_match : ℕ → ℕ → Memory → Bool
  is_match s_len check m =
      (m s == m (line_buf + check)) && is_zero (ece391_strncmp m (line_buf + check) s s_len)

  -- The loop over a line, with `left` places to check; it ends with the first match.
  unfoldable pub search_line : ℕ → ℕ → ℕ → ℕ → Memory → W → Option (Memory × W)
  search_line zero s_len line_start check m w = some (m, w)
  search_line (suc left) s_len line_start check m w =
      let rest = search_line left s_len line_start (check + 1) m w in
      if is_match s_len check m then print_match line_start m w else rest

  -- The lines of the buffer from `line_start` on: `last` after them, with what is left moved to the front.
  unfoldable pub scan_lines : ℕ → ℕ → ℤ → ℕ → ℕ → Memory → W → Option (ℕ × Memory × W)
  scan_lines zero s_len cnt last line_start m w = none
  scan_lines (suc rounds) s_len cnt last line_start m w =
      let line_end = find_end (last - line_start) m line_buf line_start in
      let m1 = write m (line_buf + line_end) 0 in
      let moved = ece391_strcpy fuel m1 line_buf (line_buf + line_start) >>= λ m2.
      some (last - line_start, m2, w) in
      let next = search_line (line_end - line_start) s_len line_start line_start m1 w in
      let rest = next >>= λ r. scan_lines rounds s_len cnt last (line_end + 1) (r.0) (r.1) in
      let done = next >>= λ r. some (0, r.0, r.1) in
      if not (m (line_buf + line_end) == b'\n') && not (is_zero cnt) && not (line_start == 0)
      then moved
      else if leb last (line_end + 1)
      then done
      else rest

  -- `fdputs` of a text, and then -1.
  unfoldable pub complain : List ℕ → Memory → W → Option (ℤ × Memory × W)
  complain text m w = do (m', w') ← say_at (literal text) m w; some (minus_one, m', w')

  unfoldable pub close_file : ℤ → Memory → W → Option (ℤ × Memory × W)
  close_file fd m w =
      let (r, m1, w1) = k.call_close fd m w in
      if is_minus_one r then complain (codes "file close failed\n") m1 w1 else some (pos 0, m1, w1)

  -- The outer loop, with the close after it.
  unfoldable pub search_file : ℕ → ℕ → ℤ → ℕ → Memory → W → Option (ℤ × Memory × W)
  search_file zero s_len fd last m w = none
  search_file (suc rounds) s_len fd last m w =
      let (cnt, m1, w1) = k.call_read fd (line_buf + last) (grep_bufsize - last) m w in
      let last1 = last + pos_part cnt in
      let scanned = scan_lines (last1 + 1) s_len cnt last1 0 m1 w1 in
      let rest = scanned >>= λ r. search_file rounds s_len fd (r.0) (r.1) (r.2) in
      let done = scanned >>= λ r. close_file fd (r.1) (r.2) in
      if is_minus_one cnt
      then complain (codes "file read failed\n") m1 w1
      else if is_zero cnt
      then done
      else rest

  unfoldable pub do_one_file : ℕ → Memory → W → Option (ℤ × Memory × W)
  do_one_file rounds m w = do
    s_len ← ece391_strlen fuel m s
    (let (fd, m1, w1) = k.call_open fname m w in
        if is_minus_one fd
        then complain (codes "file open failed\n") m1 w1
        else search_file rounds s_len fd 0 m1 w1)

-- The program: `search` has the argument, and `buf` the names of the directory.
module _ {W : Type 0} (k : Kernel W) (fuel : ℕ) (literal : List ℕ → ℕ)
    (line_buf search buf : ℕ) where
  unfoldable pub exit_with : List ℕ → ℕ → Memory → W → Option (ℤ × Memory × W)
  exit_with text status m w = do
    (m', w') ← ece391_fdputs k fuel literal line_buf (pos 1) (literal text) m w
    some (pos status, m', w')

  unfoldable pub grep_loop : ℕ → ℤ → Memory → W → Option (ℤ × Memory × W)
  grep_loop zero fd m w = none
  grep_loop (suc rounds) fd m w =
      let (cnt, m1, w1) = k.call_read fd buf entry_size m w in
      let skipped = grep_loop rounds fd m1 w1 in
      let searched =
        do_one_file k fuel literal line_buf search buf fuel (write m1 (buf + pos_part cnt) 0) w1 in
      let next = searched >>= λ r. grep_loop rounds fd (r.1) (r.2) in
      let failed = searched >>= λ r. some (pos 3, r.1, r.2) in
      let status = searched >>= λ r. some (is_zero (r.0)) in
      if is_zero cnt
      then some (pos 0, m1, w1)
      else if is_minus_one cnt
      then exit_with (codes "directory entry read failed\n") 3 m1 w1
      else if m1 buf == b'.'
      then skipped
      else (status >>= λ fine. if fine then next else failed)

  unfoldable pub grep_main : ℕ → Memory → W → Option (ℤ × Memory × W)
  grep_main rounds m w =
      let (got, m1, w1) = k.call_getargs search grep_bufsize m w in
      let (fd, m2, w2) = k.call_open (literal (codes ".")) m1 w1 in
      if not (is_zero got)
      then exit_with (codes "could not read argument\n") 3 m1 w1
      else if is_minus_one fd
      then exit_with (codes "directory open failed\n") 2 m2 w2
      else grep_loop rounds fd m2 w2
