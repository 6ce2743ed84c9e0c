-- ===== src/Screen/Print.antt =====
-- Printing strings: `puts`, `puts2`, `putfile` and `print_withoutnull`.
use operating_system_ece.Common.{
  ℕ, zero, suc, ◌+◌, ◌≤◌, ◌<◌, ◌≡◌, refl, sym, ◌∙◌, ap, inl, inr, List, [], ◌∷◌, arith, ◌==◌,
  ==_false, if◌then◌else◌, Bool-cases, some,
}
use operating_system_ece.Strings.Length.{IsString}
use operating_system_ece.Screen.{Console, video, putc, putc2, print_loop, puts, puts2, putfile}
use operating_system_ece.Screen.Cursor.{
  IsOnScreen, Outside, SameTerminals, putc-IsOnScreen, putc2-IsOnScreen, putc-SameTerminals,
  putc2-SameTerminals,
}

-- What printing keeps: the cursors on the screen, the terminals, and all bytes outside the pages.
pub record Printed (pages : ℕ → Type 0) (s s' : Console) : Type 0 where
  pub on_screen : IsOnScreen s'
  pub terminals : SameTerminals s s'
  pub outside : (a : ℕ) → pages a → s'.mem a ≡ s.mem a

Printed-trans :
    {pages : ℕ → Type 0} {s t u : Console}
    → Printed pages s t
    → Printed pages t u
    → Printed pages s u
Printed-trans p q = record {
  on_screen = q.on_screen;
  terminals = ground (arith, p.terminals, q.terminals);
  outside = λ a h. q.outside a h ∙ p.outside a h;
}

Printed-refl : {pages : ℕ → Type 0} {s : Console} → IsOnScreen s → Printed pages s s
Printed-refl v = record { on_screen = v; terminals = (refl, refl, refl); outside = λ a h. refl }

pub putc-Printed : (c : ℕ) (s : Console) → IsOnScreen s → Printed (Outside s.video_mem) s (putc c s)
putc-Printed c s v = record {
  on_screen = (putc-IsOnScreen c s v).0;
  terminals = putc-SameTerminals c s;
  outside = (putc-IsOnScreen c s v).1;
}

pub putc2-Printed : (c : ℕ) (s : Console) → IsOnScreen s → Printed (Outside video) s (putc2 c s)
putc2-Printed c s v = record {
  on_screen = (putc2-IsOnScreen c s v).0;
  terminals = putc2-SameTerminals c s;
  outside = (putc2-IsOnScreen c s v).1;
}

-- A string is still there after writes elsewhere.
pub IsString-same :
    (m m' : ℕ → ℕ) (str n : ℕ)
    → ((j : ℕ) → j ≤ n → m' (str + j) ≡ m (str + j))
    → IsString m str n
    → IsString m' str n
IsString-same m m' str n same h = record {
  body = λ j lt e. h.body j lt (sym (same j (omega arith)) ∙ e);
  stop = same n (omega arith) ∙ h.stop;
}

-- `put` prints to the page at `page`, with `video_mem` at `vm`; the string is not in that page.
module _ (page vm : ℕ) (put : ℕ → Console → Console)
    (prints : (c : ℕ) (s : Console)
      → IsOnScreen s
      → s.video_mem ≡ vm
      → Printed (Outside page) s (put c s))
    (str n : ℕ) (away : (j : ℕ) → j ≤ n → Outside page (str + j)) where
  print_loop-Printed :
      (fuel i k : ℕ) (s : Console)
      → i + k ≡ n
      → k < fuel
      → IsOnScreen s
      → s.video_mem ≡ vm
      → IsString s.mem str n
      → (s' : Console) × (print_loop fuel put str i s ≡ some (n, s')) × Printed (Outside page) s s'
  unfolding print_loop
  print_loop-Printed zero i k s e h v at str_ok = absurd (omega arith)
  print_loop-Printed (suc fuel) i zero s e h v at str_ok =
      let here : i ≡ n = omega arith in
      let end : s.mem (str + i) ≡ 0 = rw here (str_ok.stop) in
      (s, rw end (ap (λ j. some (j, s)) here), Printed-refl v)
  print_loop-Printed (suc fuel) i (suc k) s e h v at str_ok =
      let c : ℕ = s.mem (str + i) in
      let p : Printed (Outside page) s (put c s) = prints c s v at in
      let (s', runs, q) =
        print_loop-Printed fuel (i + 1) k (put c s) (omega arith) (omega arith) p.on_screen
          (p.terminals.2 ∙ at)
          (IsString-same s.mem (put c s).mem str n (λ j lt. p.outside _ (away j lt)) str_ok) in
      (s', rw (==_false c 0 (str_ok.body i (omega arith))) runs, Printed-trans p q)

-- `puts2` prints a string that is not in the displayed page to its end: it returns the length, the
-- cursors stay on the screen, and nothing outside that page changes.
pub puts2-Printed :
    (fuel str n : ℕ) (s : Console)
    → IsOnScreen s
    → IsString s.mem str n
    → n < fuel
    → ((j : ℕ) → j ≤ n → Outside video (str + j))
    → (s' : Console) × (puts2 fuel str s ≡ some (n, s')) × Printed (Outside video) s s'
unfolding puts2
puts2-Printed fuel str n s v str_ok h away =
    print_loop-Printed video s.video_mem putc2 (λ c t w e. putc2-Printed c t w) str n away fuel 0 n
      s (omega arith) h v refl str_ok

-- With the cursors on the screen, `puts` prints a string that is not in the page of the running
-- process to its end, if it is given more rounds than the string has bytes: it returns the length,
-- the cursors stay on the screen, and nothing outside that page changes.
pub puts-Printed :
    (fuel str n : ℕ) (s : Console)
    → IsOnScreen s
    → IsString s.mem str n
    → n < fuel
    → ((j : ℕ) → j ≤ n → Outside s.video_mem (str + j))
    → (s' : Console) × (puts fuel str s ≡ some (n, s')) × Printed (Outside s.video_mem) s s'
unfolding puts
puts-Printed fuel str n s v str_ok h away =
    print_loop-Printed s.video_mem s.video_mem putc (λ c t w e. rw (← e) (putc-Printed c t w)) str n
      away fuel 0 n s (omega arith) h v refl str_ok

-- The page that a terminal's output goes to: the displayed one for the terminal shown.
abbrev pub output_page : Console → ℕ
output_page s = if s.curr_scheduled == s.curr_terminal then video else s.video_mem

one_char :
    (c : ℕ) (s : Console)
    → IsOnScreen s
    → Printed
        (Outside (output_page s))
        s
        (if c == 0 then s else if s.curr_scheduled == s.curr_terminal then putc2 c s else putc c s)
one_char c s v = elim (Bool-cases (c == 0)) [
  | inl nul ↦ rw nul (Printed-refl v)
  | inr more ↦ elim (Bool-cases (s.curr_scheduled == s.curr_terminal)) [
    | inl shown ↦ rw (more, shown) (putc2-Printed c s v)
    | inr hidden ↦ rw (more, hidden) (putc-Printed c s v)
  ]
]

output_page-same : (s s' : Console) → SameTerminals s s' → output_page s' ≡ output_page s
output_page-same s s' same = rw (same.0, same.1, same.2)

-- With the cursors on the screen, `putfile` keeps them there and writes only to the page of the
-- running terminal's output: the displayed one if that terminal is shown, and its own otherwise.
pub putfile-Printed :
    (cs : List ℕ) (s : Console) → IsOnScreen s → Printed (Outside (output_page s)) s (putfile cs s)
unfolding putfile
putfile-Printed [] s v = Printed-refl v
putfile-Printed (c ∷ cs) s v =
    let s1 : Console =
      if c == 0 then s else if s.curr_scheduled == s.curr_terminal then putc2 c s else putc c s in
    let p : Printed (Outside (output_page s)) s s1 = one_char c s v in
    Printed-trans p (rw (output_page-same s s1 p.terminals) at (putfile-Printed cs s1 p.on_screen))
