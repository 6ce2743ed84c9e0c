-- ===== src/Grep/Returns.antt =====
-- The loops of `grep` over its buffer: how they end, and where they write.
use operating_system_ece.Common.{
  ℕ, zero, suc, ◌+◌, ◌-◌, ◌≤◌, ◌<◌, ◌≡◌, ◌≢◌, ◌⊎◌, inl, inr, refl, ◌∙◌, arith, ◌==◌, leb, not, ◌&&◌,
  true, false, Bool-cases, Option, some, ℤ, pos, is_zero, Memory, write, write_self, write_ne, List,
  codes,
}
use native.Mathlib.Decide.{dec_le}
use operating_system_ece.Programs.{Kernel, ece391_fdputs}
use operating_system_ece.Grep.{find_end, say_at, print_match, is_match, search_line, scan_lines}
use operating_system_ece.Grep.Lines.{ece391_strlen-returns, ece391_strcpy-returns, find_end-in}

-- Outside the 1025 bytes of the buffer.
abbrev pub Away : ℕ → ℕ → Type 0
Away line_buf b = (b < line_buf) ⊎ (line_buf + 1025 ≤ b)

-- A text ends within the fuel, and not in the buffer.
abbrev pub Ends : ℕ → ℕ → Memory → ℕ → Type 0
Ends line_buf fuel m a = (k : ℕ) × (m (a + k) ≡ 0) × (k < fuel) × Away line_buf (a + k)

-- Nothing has changed outside the buffer.
abbrev pub Inside : ℕ → Memory → Memory → Type 0
Inside line_buf m m' = (b : ℕ) → Away line_buf b → m' b ≡ m b

-- `write` to the screen leaves the memory and the bytes that are still to be read.
pub record Prints {W : Type 0} (rest : W → ℕ) (m : Memory) (w : W) (result : ℤ × Memory × W)
    : Type 0 where
  pub memory : result.1 ≡ m
  pub unread : rest (result.2) ≡ rest w

-- `read` of up to `n` bytes to `a`.
pub record ReadsPart {W : Type 0} (rest : W → ℕ) (a n : ℕ) (m : Memory) (w : W)
    (result : ℤ × Memory × W) : Type 0 where
  pub got : ℕ
  pub count : result.0 ≡ pos got
  pub few : got ≤ n
  pub total : rest w ≡ got + rest (result.2)
  pub elsewhere : (b : ℕ) → (b < a) ⊎ (a + n ≤ b) → result.1 b ≡ m b

module _ {W : Type 0} (k : Kernel W) (fuel : ℕ) (literal : List ℕ → ℕ) (line_buf s fname : ℕ)
    (rest : W → ℕ) (enough : 1024 < fuel)
    (prints : (a n : ℕ) (m : Memory) (w : W) → Prints rest m w (k.call_write (pos 1) a n m w)) where
  -- The texts that `grep` prints with a line.
  abbrev pub Texts : Memory → Type 0
  Texts m =
      Ends line_buf fuel m fname
      × Ends line_buf fuel m (literal (codes ":"))
      × Ends line_buf fuel m (literal (codes "\n"))

  Ends-Inside :
      (m m' : Memory) (a : ℕ)
      → Inside line_buf m m'
      → Ends line_buf fuel m a
      → Ends line_buf fuel m' a
  Ends-Inside m m' a inside (n, e, lt, away) = (n, inside (a + n) away ∙ e, lt, away)

  pub Texts-Inside : (m m' : Memory) → Inside line_buf m m' → Texts m → Texts m'
  Texts-Inside m m' inside (f, c, n) = (
    Ends-Inside m m' fname inside f,
    Ends-Inside m m' (literal (codes ":")) inside c,
    Ends-Inside m m' (literal (codes "\n")) inside n,
  )

  -- Something was printed: the memory and what is unread are as before.
  abbrev Printed : Memory → W → Option (Memory × W) → Type 0
  Printed m w r = (w' : W) × (r ≡ some (m, w')) × (rest w' ≡ rest w)

  say_at-Printed :
      (a n : ℕ) (m : Memory) (w : W)
      → m (a + n) ≡ 0
      → n < fuel
      → Printed m w (say_at k fuel literal line_buf s fname a m w)
  unfolding say_at ece391_fdputs
  say_at-Printed a n m w e lt =
      let (l, runs) = ece391_strlen-returns fuel m a n e lt in
      let p = prints a l m w in
      ((k.call_write (pos 1) a l m w).2, rw (runs, p.memory) refl, p.unread)

  print_match-Printed :
      (line_start n : ℕ) (m : Memory) (w : W)
      → Texts m
      → m (line_buf + line_start + n) ≡ 0
      → n < fuel
      → Printed m w (print_match k fuel literal line_buf s fname line_start m w)
  unfolding print_match
  print_match-Printed line_start n m w ((a, ea, la, _), (b, eb, lb, _), (c, ec, lc, _)) e lt =
      let (w1, r1, u1) = say_at-Printed fname a m w ea la in
      let (w2, r2, u2) = say_at-Printed (literal (codes ":")) b m w1 eb lb in
      let (w3, r3, u3) = say_at-Printed (line_buf + line_start) n m w2 e lt in
      let (w4, r4, u4) = say_at-Printed (literal (codes "\n")) c m w3 ec lc in
      (w4, rw (r1, r2, r3) r4, u4 ∙ u3 ∙ u2 ∙ u1)

  search_line-Printed :
      (left s_len line_start check n : ℕ) (m : Memory) (w : W)
      → Texts m
      → m (line_buf + line_start + n) ≡ 0
      → n < fuel
      → Printed m w (search_line k fuel literal line_buf s fname left s_len line_start check m w)
  unfolding search_line
  search_line-Printed zero s_len line_start check n m w t e lt = (w, refl, refl)
  search_line-Printed (suc left) s_len line_start check n m w t e lt =
      elim (Bool-cases (is_match k fuel literal line_buf s fname s_len check m)) [
        | inl hit ↦ rw hit (print_match-Printed line_start n m w t e lt)
        | inr miss ↦ rw miss (search_line-Printed left s_len line_start (check + 1) n m w t e lt)
      ]

  -- The buffer is scanned: it has room for another byte, and nothing else has changed.
  abbrev pub Scanned : Memory → W → Option (ℕ × Memory × W) → Type 0
  Scanned m w r =
      (last' : ℕ) × (m' : Memory) × (w' : W) × (r ≡ some (last', m', w'))
      × (last' < 1024)
      × Inside line_buf m m'
      × (rest w' ≡ rest w)

  pub scan_lines-Scanned :
      (rounds s_len : ℕ) (cnt : ℤ) (last line_start : ℕ) (m : Memory) (w : W)
      → last ≤ 1024
      → (line_start ≡ 0) ⊎ (line_start < last)
      → last < rounds + line_start
      → Texts m
      → Scanned m w
          (scan_lines k fuel literal line_buf s fname rounds s_len cnt last line_start m w)
  unfolding scan_lines
  scan_lines-Scanned zero s_len cnt last line_start m w small start more t =
      absurd (ground (arith, start))
  scan_lines-Scanned (suc rounds) s_len cnt last line_start m w small start more t =
      let line_end : ℕ = find_end (last - line_start) m line_buf line_start in
      let (from, upto) = find_end-in (last - line_start) m line_buf line_start in
      let ends : line_end ≤ last = ground (arith, start, upto) in
      let m1 : Memory = write m (line_buf + line_end) 0 in
      let inside : Inside line_buf m m1 =
        λ b away. write_ne m (line_buf + line_end) 0 b (ground (arith, away, ends, small)) in
      let t1 : Texts m1 = Texts-Inside m m1 inside t in
      let place : line_buf + line_start + (line_end - line_start) ≡ line_buf + line_end =
        omega (arith, from) in
      let stop : m1 (line_buf + line_start + (line_end - line_start)) ≡ 0 =
        rw place (write_self m (line_buf + line_end) 0) in
      let short : line_end - line_start < fuel = omega (arith, ends, small, enough) in
      let (w1, searched, unread) =
        search_line-Printed (line_end - line_start) s_len line_start line_start
          (line_end - line_start) m1 w t1 stop short in
      let moves =
        not (m (line_buf + line_end) == b'\n') && not (is_zero cnt) && not (line_start == 0) in
      elim (Bool-cases moves) [
        | inl move ↦
            let late : line_start ≢ 0 = ground (arith, move) in
            let (m2, copied, away) =
              ece391_strcpy-returns fuel m1 line_buf (line_buf + line_start) (line_end - line_start)
                (omega (arith, late)) stop short in
            (
              last - line_start,
              m2,
              w,
              rw (move, copied) refl,
              omega (arith, late, small),
              λ b out. away b (ground (arith, out, ends, small)) ∙ inside b out,
              refl,
            )
        | inr stay ↦ (elim (dec_le last (line_end + 1)) [
          | yes done ↦
              let test : leb last (line_end + 1) ≡ true = ground (arith, done) in
              (0, m1, w1, rw (stay, test, searched) refl, omega arith, inside, unread)
          | no goes ↦
              let test : leb last (line_end + 1) ≡ false = ground (arith, goes) in
              let (last', m', w', scanned, room, inside', unread') =
                scan_lines-Scanned rounds s_len cnt last (line_end + 1) m1 w1 small
                  (inr (omega (arith, goes))) (omega (arith, more, from)) t1 in
              (
                last',
                m',
                w',
                rw (stay, test, searched) scanned,
                room,
                λ b out. inside' b out ∙ inside b out,
                unread' ∙ unread,
              )
        ])
      ]
