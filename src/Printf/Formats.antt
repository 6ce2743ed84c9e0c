-- ===== src/Printf/Formats.antt =====
-- The loop of `printf` over a format of numbers and characters.
use operating_system_ece.Common.{
  ℕ, zero, suc, ◌+◌, ◌-◌, ◌%◌, ◌^◌, ◌≤◌, ◌<◌, ◌≡◌, ◌≢◌, ◌⊎◌, inl, inr, refl, arith, Bool, true,
  false, ◌==◌, ==_false, Bool-cases, if_intro, Option, some, Memory, load32, List, [], ◌∷◌, length,
}
use operating_system_ece.Screen.{Console, putc}
use operating_system_ece.Screen.Cursor.{IsOnScreen, Outside}
use operating_system_ece.Printf.{Mode, plain, conversion, convert, printf_loop, printf}
use operating_system_ece.Printf.Numbers.{digits_le, decimals_le}
use operating_system_ece.Printf.Returns.{
  Keeps, is_numeric, Text, Words, Converted, Shown, number-Shown, padded-Shown, signed-Shown,
  next-Converted, putc-Keeps, Keeps-refl, Keeps-trans, Text-Keeps, Words-Keeps,
}

word_lt : (vm conv : ℕ) (m : Memory) (esp : ℕ) → Words vm conv m esp 1 → load32 m esp < 2 ^ 32
unfolding load32
word_lt vm conv m esp w =
    let z : esp + 0 ≡ esp = omega arith in
    let first : m esp < 256 = rw z at ((w 0 (omega arith)).0) in
    omega (arith, first, (w 1 (omega arith)).0, (w 2 (omega arith)).0, (w 3 (omega arith)).0)

module _ (vm conv fuel : ℕ) (enough : 36 ≤ fuel)
    (buffer : (j : ℕ) → j < 36 → Outside vm (conv + j)) where
  convert-Converted :
      (alternate : Bool) (c esp : ℕ) (s : Console)
      → c ≢ b's'
      → IsOnScreen s
      → s.video_mem ≡ vm
      → Words vm conv s.mem esp 1
      → Converted vm conv fuel enough buffer esp s (convert putc fuel conv alternate c esp s)
  unfolding convert
  convert-Converted alternate c esp s no_string v e w =
      let value : ℕ = load32 s.mem esp in
      let lt = word_lt vm conv s.mem esp w in
      let goal = Converted vm conv fuel enough buffer esp s in
      let next = λ (o : Option Console). next-Converted vm conv fuel enough buffer esp s o in
      let hex =
        number-Shown vm conv fuel enough buffer 16 value s (omega arith) (omega arith)
          (λ m n num. let few = digits_le s.mem m conv value n lt num in omega (arith, few)) v e in
      let dec =
        number-Shown vm conv fuel enough buffer 10 value s (omega arith) (omega arith)
          (λ m n num. decimals_le s.mem m conv value n lt num) v e in
      let string_test : (c == b's') ≡ false = ==_false c b's' no_string in
      if_intro goal (c == b'%')
        (λ _. (esp, putc b'%' s, refl, inl refl, putc-Keeps vm conv fuel enough buffer b'%' s v e))
        (λ _.
          if_intro goal (c == b'x')
            (λ _. next _ (
              if_intro (Shown vm conv fuel enough buffer s) alternate
                (λ _. padded-Shown vm conv fuel enough buffer value s lt v e) (λ _. hex)))
            (λ _.
              if_intro goal (c == b'u') (λ _. next _ dec)
                (λ _.
                  if_intro goal (c == b'd')
                    (λ _. next _ (signed-Shown vm conv fuel enough buffer value s lt v e))
                    (λ _.
                      if_intro goal (c == b'c')
                        (λ _. next _ (
                          putc (value % 256) s,
                          refl,
                          putc-Keeps vm conv fuel enough buffer (value % 256) s v e,
                        ))
                        (λ _.
                          rw string_test (
                            esp,
                            s,
                            refl,
                            inl refl,
                            Keeps-refl vm conv fuel enough buffer s v e,
                          ))))))

  -- The loop is at the end of the format.
  abbrev Done : ℕ → Console → Option (ℕ × Console) → Type 0
  Done last s r = (s' : Console) × (r ≡ some (last, s')) × Keeps vm conv s s'

  shorter :
      (m : Memory) (esp e' k : ℕ)
      → (e' ≡ esp) ⊎ (e' ≡ esp + 4)
      → Words vm conv m esp (suc k)
      → Words vm conv m e' k
  shorter m esp e' k (inl e) w j h = rw e (w j (omega arith))
  shorter m esp e' k (inr e) w j h =
      let place : esp + (4 + j) ≡ esp + 4 + j = omega arith in
      rw e (rw place at (w (4 + j) (omega arith)))

  printf_loop-Done :
      (cs : List ℕ) (mode : Mode) (rounds a esp : ℕ) (s : Console)
      → length cs < rounds
      → is_numeric mode cs ≡ true
      → Text vm conv s.mem a cs
      → Words vm conv s.mem esp (length cs)
      → IsOnScreen s
      → s.video_mem ≡ vm
      → Done (a + length cs) s (printf_loop putc fuel conv rounds mode a esp s)
  unfolding printf_loop is_numeric
  printf_loop-Done cs mode zero a esp s lt num t w v e = absurd (omega arith)
  printf_loop-Done [] (conversion alternate) (suc rounds) a esp s lt num t w v e =
      absurd (ground (arith, num))
  printf_loop-Done [] plain (suc rounds) a esp s lt num (end, _) w v e =
      let here : a + 0 ≡ a = omega arith in
      (s, rw (end, here) refl, Keeps-refl vm conv fuel enough buffer s v e)
  printf_loop-Done (c ∷ cs) plain (suc rounds) a esp s lt num (at, ne, safe, t) w v e =
      let place : a + 1 + length cs ≡ a + suc (length cs) = omega arith in
      let not_end : (c == 0) ≡ false = ==_false c 0 ne in
      let same_words = shorter s.mem esp esp (length cs) (inl refl) w in
      elim (Bool-cases (c == b'%')) [
        | inl percent ↦
            let (s', runs, k) =
              printf_loop-Done cs (conversion false) rounds (a + 1) esp s (omega arith)
                (rw percent at num) t same_words v e in
            (s', rw (at, not_end, percent) (rw place at runs), k)
        | inr letter ↦
            let p = putc-Keeps vm conv fuel enough buffer c s v e in
            let (s', runs, k) =
              printf_loop-Done cs plain rounds (a + 1) esp (putc c s) (omega arith)
                (rw letter at num)
                (Text-Keeps vm conv fuel enough buffer s (putc c s) (a + 1) cs p t)
                (Words-Keeps vm conv fuel enough buffer s (putc c s) esp (length cs) p same_words)
                p.on_screen p.page in
            (
              s',
              rw (at, not_end, letter) (rw place at runs),
              Keeps-trans vm conv fuel enough buffer s (putc c s) s' p k,
            )
      ]
  printf_loop-Done (c ∷ cs) (conversion alternate) (suc rounds) a esp s lt num (at, ne, safe, t) w v
        e =
      let place : a + 1 + length cs ≡ a + suc (length cs) = omega arith in
      let same_words = shorter s.mem esp esp (length cs) (inl refl) w in
      elim (Bool-cases (c == b'#')) [
        | inl sharp ↦
            let (s', runs, k) =
              printf_loop-Done cs (conversion true) rounds (a + 1) esp s (omega arith)
                (rw sharp at num) t same_words v e in
            (s', rw (at, sharp) (rw place at runs), k)
        | inr other ↦
            let rest_ok = rw other at num in
            let no_string : c ≢ b's' = ground (arith, rest_ok) in
            let string_test : (c == b's') ≡ false = ==_false c b's' no_string in
            let (e1, s1, converts, moved, p) =
              convert-Converted alternate c esp s no_string v e (λ j h. w j (omega arith)) in
            let (s', runs, k) =
              printf_loop-Done cs plain rounds (a + 1) e1 s1 (omega arith)
                (rw string_test at rest_ok)
                (Text-Keeps vm conv fuel enough buffer s s1 (a + 1) cs p t)
                (Words-Keeps vm conv fuel enough buffer s s1 e1 (length cs) p
                  (shorter s.mem esp e1 (length cs) moved w))
                p.on_screen p.page in
            (
              s',
              rw (at, other, converts) (rw place at runs),
              Keeps-trans vm conv fuel enough buffer s s1 s' p k,
            )
      ]

  -- With the cursors on the screen, `printf` of a format that no `%` ends and that has no `%s` returns its
  -- length, given more rounds than that and 36 for the numbers. It writes nowhere but in the page of the
  -- process that runs and in the 36 bytes of its buffer, if the buffer stands outside the page, and the
  -- format and the words of the stack, one for each character of the format, stand outside both.
  pub printf-returns :
      (cs : List ℕ) (format esp : ℕ) (s : Console)
      → length cs < fuel
      → is_numeric plain cs ≡ true
      → Text vm conv s.mem format cs
      → Words vm conv s.mem esp (length cs)
      → IsOnScreen s
      → s.video_mem ≡ vm
      → (s' : Console) × (printf fuel conv format esp s ≡ some (length cs, s')) × Keeps vm conv s s'
  unfolding printf
  printf-returns cs format esp s lt num t w v e =
      let (s', runs, k) = printf_loop-Done cs plain fuel format esp s lt num t w v e in
      let count : format + length cs - format ≡ length cs = omega arith in
      (s', rw (runs, count) refl, k)
