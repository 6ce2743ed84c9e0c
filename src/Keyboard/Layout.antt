-- ===== src/Keyboard/Layout.antt =====
-- The layout of the keys that type, and that the handler's tables have its characters.
use operating_system_ece.Common.{
  ℕ, ◌+◌, ◌-◌, ◌≤◌, ◌<◌, ◌≡◌, ◌≢◌, refl, subst, arith, Bool, true, false, not, ◌&&◌, ◌||◌, ◌==◌,
  leb, ltb, if◌then◌else◌, if_intro, List, [], ◌∷◌, length, get_or, codes, Option, none, some,
  holds_below, holds_below_at,
}
use mathlib.Core.Bool.{xor}
use operating_system_ece.Keyboard.{char_list, upper_char_list, is_letter, in_range}

-- A row of keys: the scan code of the first, and the characters without and with shift.
pub record Row : Type 0 where
  pub first : ℕ
  pub plain : List ℕ
  pub shifted : List ℕ

-- The rows of a keyboard with the American layout, and the space bar.
abbrev pub keyboard_rows : List Row
keyboard_rows =
    record { first = 0x02; plain = codes "1234567890-="; shifted = codes "!@#$%^&*()_+" }
    ∷ record { first = 0x10; plain = codes "qwertyuiop[]"; shifted = codes "QWERTYUIOP{}" }
    ∷ record { first = 0x1E; plain = codes "asdfghjkl;'`"; shifted = codes "ASDFGHJKL:\"~" }
    ∷ record { first = 0x2B; plain = codes "\\zxcvbnm,./"; shifted = codes "|ZXCVBNM<>?" }
    ∷ record { first = 0x39; plain = codes " "; shifted = codes " " }
    ∷ []

-- The two characters on the key with a scan code.
unfoldable pub legend : List Row → ℕ → Option (ℕ × ℕ)
legend [] c = none
legend (r ∷ rs) c =
    if leb r.first c && ltb c (r.first + length r.plain)
    then some (get_or r.plain (c - r.first) 0, get_or r.shifted (c - r.first) 0)
    else legend rs c

-- The one that is typed: on a letter caps lock turns shift around, on another key it turns shift off.
abbrev pub chosen : Bool → Bool → ℕ → ℕ → ℕ
chosen shift caps plain shifted =
    if (if leb 97 plain && leb plain 122 then xor shift caps else shift && not caps)
    then shifted
    else plain

-- What the key's entries in the handler's tables must be.
abbrev pub fits_key : ℕ → ℕ × ℕ → Bool
fits_key c (plain, shifted) =
    if c == 0x39
    then (plain == 32) && (shifted == 32)
    else (get_or char_list (c - 1) 0 == plain)
      && (get_or upper_char_list (c - 1) 0 == shifted)
      && (if leb 97 plain && leb plain 122 then is_letter c else not (is_letter c))
      && (not (plain == 0) && not (shifted == 0))
      && (in_range 1 0x35 c && not ((c == 0x0E) || (c == 0x1C) || (c == 0x1D) || (c == 0x2A)))

abbrev pub fits : ℕ → Bool
fits c = elim (legend keyboard_rows c) [ none ↦ true | some k ↦ fits_key c k ]

all_fit : holds_below 256 fits ≡ true
unfolding holds_below legend
all_fit = refl

pub key_fits :
    (c plain shifted : ℕ)
    → c < 256
    → legend keyboard_rows c ≡ some (plain, shifted)
    → fits_key c (plain, shifted) ≡ true
key_fits c plain shifted byte e =
    subst (λ (o : Option (ℕ × ℕ)). (elim o [ none ↦ true | some k ↦ fits_key c k ]) ≡ true) e
      (holds_below_at 256 fits all_fit c byte)

-- What the check of a key says, with the tables' entries as numbers.
pub entries_of :
    (c x y p q : ℕ) (spaces low letter : Bool)
    → (if c == 0x39
        then spaces
        else (x == p)
          && (y == q)
          && (if low then letter else not letter)
          && (not (p == 0) && not (q == 0))
          && (in_range 1 0x35 c && not ((c == 0x0E) || (c == 0x1C) || (c == 0x1D) || (c == 0x2A))))
      ≡ true
    → c ≢ 0x39
    → (x ≡ p) × (y ≡ q) × (letter ≡ low) × (p ≢ 0) × (q ≢ 0)
entries_of c x y p q spaces true letter e ne =
    (ground arith, ground arith, ground arith, ground arith, ground arith)
entries_of c x y p q spaces false letter e ne =
    (ground arith, ground arith, ground arith, ground arith, ground arith)

pub scan_code_of :
    (c : ℕ) (spaces entries : Bool)
    → (if c == 0x39
        then spaces
        else entries
          && (in_range 1 0x35 c && not ((c == 0x0E) || (c == 0x1C) || (c == 0x1D) || (c == 0x2A))))
      ≡ true
    → c ≢ 0x39
    → ((1 ≤ c) × (c ≤ 0x35)) × ((c ≢ 0x0E) × (c ≢ 0x1C)) × ((c ≢ 0x1D) × (c ≢ 0x2A))
scan_code_of c spaces entries e ne =
    ((ground arith, ground arith), (ground arith, ground arith), (ground arith, ground arith))

pub chosen_one_of :
    (shift caps : Bool) (plain shifted : ℕ)
    → plain ≢ 0
    → shifted ≢ 0
    → chosen shift caps plain shifted ≢ 0
chosen_one_of shift caps plain shifted h h' =
    if_intro (λ (x : ℕ). x ≢ 0)
      (if leb 97 plain && leb plain 122 then xor shift caps else shift && not caps) (λ _. h')
      (λ _. h)

pub spaces_of :
    (c p q : ℕ) (rest : Bool)
    → (if c == 0x39 then (p == 32) && (q == 32) else rest) ≡ true
    → c ≡ 0x39
    → (p ≡ 32) × (q ≡ 32)
spaces_of c p q rest e h = (ground arith, ground arith)
