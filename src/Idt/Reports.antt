-- ===== src/Idt/Reports.antt =====
-- What the handlers of exceptions print.
use operating_system_ece.Common.{
  ℕ, zero, suc, ◌+◌, ◌≤◌, ◌<◌, ◌≡◌, ◌≢◌, refl, sym, ◌∙◌, arith, Bool, true, not, ◌&&◌, ◌==◌, some,
  List, [], ◌∷◌, length, get_or, Memory,
}
use operating_system_ece.Screen.{Console, video, puts2}
use operating_system_ece.Screen.Cursor.{IsOnScreen, Outside}
use operating_system_ece.Strings.Length.{IsString}
use operating_system_ece.Printf.Text.{printf2-puts2}
use operating_system_ece.Idt.{Handler, message, report}

-- The text stands at the address, and a NUL behind it.
pub record Holds (m : Memory) (a : ℕ) (text : List ℕ) : Type 0 where
  pub bytes : (j : ℕ) → j < length text → m (a + j) ≡ get_or text j 0
  pub stop : m (a + length text) ≡ 0

abbrev is_plain : List ℕ → Bool
is_plain [] = true
is_plain (c ∷ cs) = not (c == 0) && not (c == b'%') && is_plain cs

is_plain_lem :
    (text : List ℕ) (j : ℕ)
    → is_plain text ≡ true
    → j < length text
    → (get_or text j 0 ≢ 0) × (get_or text j 0 ≢ b'%')
is_plain_lem [] j e h = absurd (omega arith)
is_plain_lem (c ∷ cs) zero e h = ground arith
is_plain_lem (c ∷ cs) (suc j) e h = is_plain_lem cs j (ground arith) (omega arith)

messages_are_plain : (h : Handler) (text : List ℕ) → message h ≡ some text → is_plain text ≡ true
unfolding message
messages_are_plain h text e = ground arith

-- The handler of each exception, with the cursors on the screen and its text outside the displayed page,
-- prints its text as `puts2` does before it stops: the text has no conversion.
pub report-puts2 :
    (h : Handler) (text : List ℕ)
    → message h ≡ some text
    → (fuel conv esp format : ℕ) (s : Console) → IsOnScreen s
    → Holds s.mem format text
    → length text < fuel
    → ((j : ℕ) → j ≤ length text → Outside video (format + j))
    → (s' : Console) × (report fuel conv format esp s ≡ some s')
      × (puts2 fuel format s ≡ some (length text, s'))
unfolding report
report-puts2 h text e fuel conv esp format s v held enough away =
    let clean = messages_are_plain h text e in
    let string : IsString s.mem format (length text) = record {
      body = λ j lt z. (is_plain_lem text j clean lt).0 (sym (held.bytes j lt) ∙ z);
      stop = held.stop;
    } in
    let (s', prints, puts) =
      printf2-puts2 fuel conv format esp (length text) s v string
        (λ j lt z. (is_plain_lem text j clean lt).1 (sym (held.bytes j lt) ∙ z)) enough away in
    (s', rw (report, prints) refl, puts)
