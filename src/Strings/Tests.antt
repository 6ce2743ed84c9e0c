-- ===== src/Strings/Tests.antt =====
-- The string functions of student-distrib/lib.c at concrete strings.
use operating_system_ece.Common.{
  ◌≡◌, refl, arith, some, [], ◌∷◌, negsuc, Memory, IsBytes, memory_of,
}
use operating_system_ece.Strings.{strlen, strncmp}
use operating_system_ece.Strings.Length.{IsString}

-- "abc" at 100, and "abd" at 200.
abbrev text : Memory
text = memory_of ((100, 97) ∷ (101, 98) ∷ (102, 99) ∷ (200, 97) ∷ (201, 98) ∷ (202, 100) ∷ [])

text-IsBytes : IsBytes text
text-IsBytes a = ground arith

abc-IsString : IsString text 100 3
abc-IsString = record { body = λ i h. ground arith; stop = refl }

strlen_abc : strlen 8 text 100 ≡ some 3
unfolding strlen
strlen_abc = refl

strncmp_abc : strncmp text 100 200 3 ≡ negsuc 0
unfolding strncmp
strncmp_abc = refl
