-- ===== src/Printf/Returns.antt =====
-- What the conversions of `printf` keep, and formats that stand in memory.
use operating_system_ece.Common.{
  ℕ, ◌+◌, ◌-◌, ◌*◌, ◌^◌, ◌≤◌, ◌<◌, ◌≡◌, ◌≢◌, ◌⊎◌, inl, inr, refl, subst, ◌∙◌, arith, Bool, true,
  false, ◌==◌, if◌then◌else◌, Option, some, ◌>>=◌, Memory, write_ne, List, [], ◌∷◌,
}
use native.Mathlib.Decide.{dec_lt}
use operating_system_ece.Strings.Length.{IsString}
use operating_system_ece.Strings.Itoa.{IsNumeral, itoa-IsNumeral}
use operating_system_ece.Screen.{Console, putc, puts}
use operating_system_ece.Screen.Cursor.{IsOnScreen, Outside}
use operating_system_ece.Screen.Print.{Printed, putc-Printed, puts-Printed}
use operating_system_ece.Printf.{
  Mode, plain, conversion, print_string, print_number, print_padded, print_signed,
}
use operating_system_ece.Printf.Numbers.{print_padded-IsPadded, print_signed-IsSigned, decimals_le}

-- Neither in the page at `vm` nor in the buffer of `printf` at `conv`.
abbrev pub Safe : ℕ → ℕ → ℕ → Type 0
Safe vm conv a = Outside vm a × ((a < conv) ⊎ (conv + 36 ≤ a))

-- What printing keeps.
pub record Keeps (vm conv : ℕ) (s s' : Console) : Type 0 where
  pub on_screen : IsOnScreen s'
  pub page : s'.video_mem ≡ vm
  pub same : (a : ℕ) → Safe vm conv a → s'.mem a ≡ s.mem a

-- A format that no `%` ends and that has no `%s`.
unfoldable pub is_numeric : Mode → List ℕ → Bool
is_numeric plain [] = true
is_numeric (conversion alternate) [] = false
is_numeric plain (c ∷ cs) =
    let begun = is_numeric (conversion false) cs in
    let rest = is_numeric plain cs in if c == b'%' then begun else rest
is_numeric (conversion alternate) (c ∷ cs) =
    let again = is_numeric (conversion true) cs in
    let rest = is_numeric plain cs in if c == b'#' then again else if c == b's' then false else rest

-- A text with its NUL at `a`.
abbrev pub Text : ℕ → ℕ → Memory → ℕ → List ℕ → Type 0
Text vm conv m a [] = (m a ≡ 0) × Safe vm conv a
Text vm conv m a (c ∷ cs) = (m a ≡ c) × (c ≢ 0) × Safe vm conv a × Text vm conv m (a + 1) cs

-- Words of a stack at `esp`.
abbrev pub Words : ℕ → ℕ → Memory → ℕ → ℕ → Type 0
Words vm conv m esp n = (j : ℕ) → j < 4 * n → (m (esp + j) < 256) × Safe vm conv (esp + j)

module _ (vm conv fuel : ℕ) (enough : 36 ≤ fuel)
    (buffer : (j : ℕ) → j < 36 → Outside vm (conv + j)) where
  pub Keeps-refl : (s : Console) → IsOnScreen s → s.video_mem ≡ vm → Keeps vm conv s s
  Keeps-refl s v e = record { on_screen = v; page = e; same = λ a h. refl }

  pub Keeps-trans : (s t u : Console) → Keeps vm conv s t → Keeps vm conv t u → Keeps vm conv s u
  Keeps-trans s t u p q = record {
    on_screen = q.on_screen;
    page = q.page;
    same = λ a h. q.same a h ∙ p.same a h;
  }

  pub Text-Keeps :
      (s s' : Console) (a : ℕ) (cs : List ℕ)
      → Keeps vm conv s s'
      → Text vm conv s.mem a cs
      → Text vm conv s'.mem a cs
  Text-Keeps s s' a [] k (e, safe) = (k.same a safe ∙ e, safe)
  Text-Keeps s s' a (c ∷ cs) k (e, ne, safe, t) =
      (k.same a safe ∙ e, ne, safe, Text-Keeps s s' (a + 1) cs k t)

  pub Words-Keeps :
      (s s' : Console) (esp n : ℕ)
      → Keeps vm conv s s'
      → Words vm conv s.mem esp n
      → Words vm conv s'.mem esp n
  Words-Keeps s s' esp n k w j h = let (lt, safe) = w j h in (rw (k.same (esp + j) safe) lt, safe)

  pub putc-Keeps :
      (c : ℕ) (s : Console) → IsOnScreen s → s.video_mem ≡ vm → Keeps vm conv s (putc c s)
  putc-Keeps c s v e =
      let p = subst (λ (b : ℕ). Printed (Outside b) s (putc c s)) e (putc-Printed c s v) in
      record { on_screen = p.on_screen; page = p.terminals.2 ∙ e; same = λ a h. p.outside a (h.0) }

  -- A string in the buffer, printed.
  print_string-Keeps :
      (i n : ℕ) (m : Memory) (s : Console)
      → IsOnScreen s
      → s.video_mem ≡ vm
      → IsString m (conv + i) n
      → i + n < 36
      → ((a : ℕ) → (a < conv) ⊎ (conv + 36 ≤ a) → m a ≡ s.mem a)
      → (s' : Console) × (print_string putc fuel conv (conv + i) m s ≡ some s') × Keeps vm conv s s'
  unfolding puts
  print_string-Keeps i n m s v e str few same =
      let s1 : Console = record s { mem = m } in
      let v1 : IsOnScreen s1 = record {
        column = v.column;
        row = v.row;
        shown = v.shown;
        scheduled = v.scheduled;
      } in
      let (s', runs, p) =
        puts-Printed fuel (conv + i) n s1 v1 str (omega (arith, few, enough)) (λ j h.
          let place : conv + i + j ≡ conv + (i + j) = omega arith in
          rw (place, e) (buffer (i + j) (omega (arith, few)))) in
      let q = subst (λ (b : ℕ). Printed (Outside b) s1 s') e p in
      (
        s',
        rw runs refl,
        record {
          on_screen = q.on_screen;
          page = q.terminals.2 ∙ e;
          same = λ a h. q.outside a (h.0) ∙ same a (h.1);
        },
      )

  -- A conversion that ends, with the argument pointer where it was or one word on.
  abbrev pub Converted : ℕ → Console → Option (ℕ × Console) → Type 0
  Converted esp s r =
      (e' : ℕ) × (s' : Console) × (r ≡ some (e', s'))
      × ((e' ≡ esp) ⊎ (e' ≡ esp + 4))
      × Keeps vm conv s s'

  -- A number that was printed.
  abbrev pub Shown : Console → Option Console → Type 0
  Shown s r = (s' : Console) × (r ≡ some s') × Keeps vm conv s s'

  pub next-Converted :
      (esp : ℕ) (s : Console) (o : Option Console)
      → Shown s o
      → Converted esp s (o >>= λ s'. some (esp + 4, s'))
  next-Converted esp s o (s', runs, k) = (esp + 4, s', rw runs refl, inr refl, k)

  at_start : (a : ℕ) → a + 0 ≡ a
  at_start a = omega arith

  pub number-Shown :
      (r value : ℕ) (s : Console)
      → 2 ≤ r
      → r ≤ 36
      → ((m : Memory) (n : ℕ) → IsNumeral s.mem m r conv value n → n ≤ 10)
      → IsOnScreen s
      → s.video_mem ≡ vm
      → Shown s (print_number putc fuel conv r value s)
  unfolding print_number
  number-Shown r value s two many short v e =
      let (m, n, runs, num) = itoa-IsNumeral s.mem value conv r two many in
      let few = short m n num in
      let z = at_start conv in
      let (s', prints, k) =
        print_string-Keeps 0 n m s v e (rw z (num.string)) (omega (arith, few))
          (λ a h. num.outside a (ground (arith, h, few))) in
      (s', rw runs (rw z at prints), k)

  pub padded-Shown :
      (value : ℕ) (s : Console)
      → value < 2 ^ 32
      → IsOnScreen s
      → s.video_mem ≡ vm
      → Shown s (print_padded putc fuel conv value s)
  padded-Shown value s lt v e =
      let (m, a, p, prints_as) =
        print_padded-IsPadded putc fuel conv value s lt (omega (arith, enough)) in
      let there : conv + (a - conv) ≡ a = omega (arith, p.place) in
      let (s', prints, k) =
        print_string-Keeps (a - conv) 8 m s v e (rw there (p.string)) (omega (arith, p.place))
          (λ x h. p.outside x (ground (arith, h))) in
      (s', prints_as ∙ (rw there at prints), k)

  -- A sign in front of a numeral.
  signed-IsString :
      (m : Memory) (n : ℕ) → m conv ≡ b'-' → IsString m (conv + 1) n → IsString m conv (n + 1)
  signed-IsString m n sign str = record {
    body = λ j h. elim (dec_lt 0 j) [
      | yes later ↦
          let place : conv + 1 + (j - 1) ≡ conv + j = omega arith in
          rw place at (str.body (j - 1) (omega arith))
      | no first ↦ let place : conv + j ≡ conv = omega arith in rw (place, sign) (omega arith)
    ];
    stop = let place : conv + 1 + n ≡ conv + (n + 1) = omega arith in rw place at (str.stop);
  }

  pub signed-Shown :
      (value : ℕ) (s : Console)
      → value < 2 ^ 32
      → IsOnScreen s
      → s.video_mem ≡ vm
      → Shown s (print_signed putc fuel conv value s)
  signed-Shown value s lt v e =
      let (m, n, signed, prints_as) = print_signed-IsSigned putc fuel conv value s lt in
      let z = at_start conv in
      elim signed.digits [
        | inl (low, num) ↦
            let few = decimals_le s.mem m conv value n lt num in
            let (s', prints, k) =
              print_string-Keeps 0 n m s v e (rw z (num.string)) (omega (arith, few))
                (λ a h. num.outside a (ground (arith, h, few))) in
            (s', prints_as ∙ (rw z at prints), k)
        | inr (high, sign, num) ↦
            let few = decimals_le _ m (conv + 1) (2 ^ 32 - value) n (omega arith) num in
            let (s', prints, k) =
              print_string-Keeps 0 (n + 1) m s v e (rw z (signed-IsString m n sign (num.string)))
                (omega (arith, few))
                (λ a h.
                  num.outside a (ground (arith, h, few))
                  ∙ write_ne s.mem conv b'-' a (ground (arith, h))) in
            (s', prints_as ∙ (rw z at prints), k)
      ]
