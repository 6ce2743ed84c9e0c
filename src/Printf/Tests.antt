-- ===== src/Printf/Tests.antt =====
-- `printf` of student-distrib/lib.c with a number.
use operating_system_ece.Common.{
  ℕ, ◌≡◌, inl, refl, arith, some, [], ◌∷◌, Memory, memory_of, codes, length, List,
}
use operating_system_ece.Screen.{Console, video, initial_console}
use operating_system_ece.Screen.Cursor.{initial_console-IsOnScreen}
use operating_system_ece.Printf.{printf}
use operating_system_ece.Printf.Returns.{Keeps, Text, is_numeric}
use operating_system_ece.Printf.Formats.{printf-returns}

-- "n=%d" at 100.
abbrev text : Memory
text = memory_of ((100, 110) ∷ (101, 61) ∷ (102, 37) ∷ (103, 100) ∷ [])

abbrev format : List ℕ
format = codes "n=%d"

abbrev start : Console
start = initial_console text

format-Text : Text video 600 text 100 format
format-Text = ground arith

printf-returns_example :
    (s' : Console) × (printf 40 600 100 500 start ≡ some (length format, s'))
    × Keeps video 600 start s'
unfolding is_numeric
printf-returns_example =
    printf-returns video 600 40 (omega arith) (λ j h. inl (omega arith)) format 100 500 start
      (omega arith) refl format-Text (λ j h. (ground arith, (inl (omega arith), inl (omega arith))))
      (initial_console-IsOnScreen text) refl
