-- ===== src/Keyboard/Keys.antt =====
-- Which character a key gives.
use operating_system_ece.Common.{
  ℕ, ◌-◌, ◌≡◌, refl, Bool, true, false, not, ◌&&◌, ◌||◌, arith, ◌<◌, if◌then◌else◌, get_or, length,
}
use mathlib.Core.Bool.{xor}
use operating_system_ece.Keyboard.{key_char, char_list, upper_char_list, is_letter, in_range}

-- A letter is upper case when exactly one of shift and caps lock is on. Any other key gives its upper
-- character when shift is held and caps lock is off.
pub key_char-upper :
    (shift caps : Bool) (c : ℕ)
    → key_char shift caps c ≡ (
        if (if is_letter c then xor shift caps else shift && not caps)
        then get_or upper_char_list (c - 1) 0
        else get_or char_list (c - 1) 0)
unfolding key_char xor
key_char-upper shift caps c = by_letter (is_letter c) shift caps
  where
    by_letter :
        (letter shift caps : Bool)
        → (if caps && letter && not shift
            then get_or upper_char_list (c - 1) 0
            else if not shift || (shift && caps)
            then get_or char_list (c - 1) 0
            else get_or upper_char_list (c - 1) 0)
          ≡ (if (if letter then xor shift caps else shift && not caps)
              then get_or upper_char_list (c - 1) 0
              else get_or char_list (c - 1) 0)
    by_letter true true true = refl
    by_letter true true false = refl
    by_letter true false true = refl
    by_letter true false false = refl
    by_letter false true true = refl
    by_letter false true false = refl
    by_letter false false true = refl
    by_letter false false false = refl

-- Both tables have an entry for each scan code that the handler looks up.
pub char_lists_bound :
    (c : ℕ)
    → in_range 0x01 0x35 c ≡ true
    → (c - 1 < length char_list) × (c - 1 < length upper_char_list)
char_lists_bound c h = ground arith
