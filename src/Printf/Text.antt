-- ===== src/Printf/Text.antt =====
-- A format without conversions is printed like a string.
use operating_system_ece.Common.{
  ℕ, zero, suc, ◌+◌, ◌-◌, ◌≤◌, ◌<◌, ◌≡◌, ◌≢◌, refl, sym, subst, ◌∙◌, ap, arith, some, ==_false,
}
use operating_system_ece.Strings.Length.{IsString}
use operating_system_ece.Screen.{Console, video, putc, putc2, print_loop, puts, puts2}
use operating_system_ece.Screen.Cursor.{IsOnScreen, Outside}
use operating_system_ece.Screen.Print.{Printed, IsString-same, putc-Printed, putc2-Printed}
use operating_system_ece.Printf.{plain, printf_loop, printf, printf2}

-- `put` prints to the page at `page`, with `video_mem` at `vm`; the format is not in that page.
module _ (page vm : ℕ) (put : ℕ → Console → Console)
    (prints : (c : ℕ) (s : Console)
      → IsOnScreen s
      → s.video_mem ≡ vm
      → Printed (Outside page) s (put c s))
    (fuel conv esp format n : ℕ) (away : (j : ℕ) → j ≤ n → Outside page (format + j)) where
  loops_agree :
      (rounds i k : ℕ) (s : Console)
      → i + k ≡ n
      → k < rounds
      → IsOnScreen s
      → s.video_mem ≡ vm
      → IsString s.mem format n
      → ((j : ℕ) → j < n → s.mem (format + j) ≢ b'%')
      → (s' : Console) × (print_loop rounds put format i s ≡ some (n, s'))
        × (printf_loop put fuel conv rounds plain (format + i) esp s ≡ some (format + n, s'))
  unfolding print_loop printf_loop
  loops_agree zero i k s e h v at text no_percent = absurd (omega arith)
  loops_agree (suc rounds) i zero s e h v at text no_percent =
      let here : i ≡ n = omega arith in
      let end : s.mem (format + i) ≡ 0 = rw here (text.stop) in
      (s, rw end (ap (λ j. some (j, s)) here), rw end (ap (λ j. some (format + j, s)) here))
  loops_agree (suc rounds) i (suc k) s e h v at text no_percent =
      let c : ℕ = s.mem (format + i) in
      let p : Printed (Outside page) s (put c s) = prints c s v at in
      let same : (j : ℕ) → j ≤ n → (put c s).mem (format + j) ≡ s.mem (format + j) =
        λ j lt. p.outside _ (away j lt) in
      let (s', prints, prints_f) =
        loops_agree rounds (i + 1) k (put c s) (omega arith) (omega arith) p.on_screen
          (p.terminals.2 ∙ at) (IsString-same s.mem (put c s).mem format n same text)
          (λ j lt q. no_percent j lt (sym (same j (omega arith)) ∙ q)) in
      let next : format + i + 1 ≡ format + (i + 1) = omega arith in
      let goes_on = ==_false c 0 (text.body i (omega arith)) in
      (
        s',
        rw goes_on prints,
        rw (goes_on, ==_false c b'%' (no_percent i (omega arith)), next) prints_f,
      )

-- With the cursors on the screen, `printf` of a format that has no `%` and stands outside the page of
-- the running process does what `puts` does with it: it returns the length, if it is given more rounds,
-- and leaves the same screen.
pub printf-puts :
    (fuel conv format esp n : ℕ) (s : Console)
    → IsOnScreen s
    → IsString s.mem format n
    → ((j : ℕ) → j < n → s.mem (format + j) ≢ b'%')
    → n < fuel
    → ((j : ℕ) → j ≤ n → Outside s.video_mem (format + j))
    → (s' : Console) × (printf fuel conv format esp s ≡ some (n, s'))
      × (puts fuel format s ≡ some (n, s'))
unfolding printf puts
printf-puts fuel conv format esp n s v text no_percent h away =
    let (s', prints, prints_f) =
      loops_agree s.video_mem s.video_mem putc
        (λ c t w e. subst (λ p. Printed (Outside p) t (putc c t)) e (putc-Printed c t w)) fuel conv
        esp format n away fuel 0 n s (omega arith) h v refl text no_percent in
    let start : format + 0 ≡ format = omega arith in
    let count : format + n - format ≡ n = omega arith in
    (s', rw (rw start at prints_f, count) refl, prints)

-- `printf2` does what `puts2` does, if the format stands outside the displayed page.
pub printf2-puts2 :
    (fuel conv format esp n : ℕ) (s : Console)
    → IsOnScreen s
    → IsString s.mem format n
    → ((j : ℕ) → j < n → s.mem (format + j) ≢ b'%')
    → n < fuel
    → ((j : ℕ) → j ≤ n → Outside video (format + j))
    → (s' : Console) × (printf2 fuel conv format esp s ≡ some (n, s'))
      × (puts2 fuel format s ≡ some (n, s'))
unfolding printf2 puts2
printf2-puts2 fuel conv format esp n s v text no_percent h away =
    let (s', prints, prints_f) =
      loops_agree video s.video_mem putc2 (λ c t w e. putc2-Printed c t w) fuel conv esp format n
        away fuel 0 n s (omega arith) h v refl text no_percent in
    let start : format + 0 ≡ format = omega arith in
    let count : format + n - format ≡ n = omega arith in
    (s', rw (rw start at prints_f, count) refl, prints)
