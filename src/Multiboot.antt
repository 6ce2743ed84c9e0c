-- ===== src/Multiboot.antt =====
-- The first half of `entry` in student-distrib/kernel.c, with the structures of student-distrib/multiboot.h:
-- what the kernel prints of the boot loader's information, and where it finds the file system.
use operating_system_ece.Common.{
  ℕ, zero, suc, ◌+◌, ◌-◌, ◌%◌, ◌^◌, Bool, true, false, not, ◌&&◌, Option, none, some, ◌>>=◌, ltb,
  ◌==◌, if◌then◌else◌, load32, bit_and, List, [], ◌∷◌, codes,
}
use operating_system_ece.Screen.{Console}
use operating_system_ece.Scheduler.{store32}
use operating_system_ece.Printf.{printf}

abbrev pub bootloader_magic : ℕ
bootloader_magic = 0x2BADB002

unfoldable pub check_flag : ℕ → ℕ → Bool
check_flag flags bit = not (bit_and flags (2 ^ bit) == 0)

-- A field of `multiboot_info_t`, `module_t` or `memory_map_t`, by its offset.
abbrev pub field : ℕ → ℕ → Console → ℕ
field at offset s = load32 s.mem (at + offset)

-- A `char` as the `int` that `printf` gets.
abbrev pub char_value : ℕ → ℕ
char_value c = if ltb c 128 then c else 2 ^ 32 - 256 + c

-- The arguments of a call, on the stack from `a` on.
unfoldable pub push_words : List ℕ → ℕ → Console → Console
push_words [] a s = s
push_words (v ∷ vs) a s = push_words vs (a + 4) (store32 a v s)

-- `esp` is where the arguments of `printf` stand, `conv` its buffer, and `literal` has the address of a text.
module _ (fuel conv esp : ℕ) (literal : List ℕ → ℕ) where
  unfoldable pub say : List ℕ → List ℕ → Console → Option Console
  say format args s = do
    r ← printf fuel conv (literal format) esp (push_words args esp s)
    some (r.1)

  -- A block under a flag of the information at `mbi`.
  unfoldable pub when_flag : ℕ → ℕ → (Console → Option Console) → Console → Option Console
  when_flag mbi bit block s = if check_flag (field mbi 0 s) bit then block s else some s

  -- The loop over the bytes of a module from byte `i` on, with `left` to go.
  unfoldable pub print_bytes : ℕ → ℕ → ℕ → Console → Option Console
  print_bytes zero unit i s = some s
  print_bytes (suc left) unit i s = do
    s' ← say (codes "0x%x ") (char_value (s.mem (field unit 0 s + i)) ∷ []) s
    print_bytes left unit (i + 1) s'

  -- One module: where it starts, and the screen.
  unfoldable pub print_module : ℕ → ℕ → Console → Option (ℕ × Console)
  print_module mod_count unit s = do
    s1 ← say (codes "Module %d loaded at address: 0x%#x\n") (mod_count ∷ field unit 0 s ∷ []) s
    s2 ← say (codes "Module %d ends at address: 0x%#x\n") (mod_count ∷ field unit 4 s1 ∷ []) s1
    s3 ← say (codes "First few bytes of module:\n") [] s2
    s4 ← print_bytes 16 unit 0 s3
    s5 ← say (codes "\n") [] s4
    some (field unit 0 s1, s5)

  -- `filesys_addr` is set to the start of each module in turn.
  unfoldable pub print_modules : ℕ → ℕ → ℕ → ℕ → ℕ → Console → Option (ℕ × Console)
  print_modules zero mbi mod_count unit filesys_addr s = none
  print_modules (suc rounds) mbi mod_count unit filesys_addr s =
      let next = print_module mod_count unit s >>= λ r.
      print_modules rounds mbi (mod_count + 1) (unit + 16) (r.0) (r.1) in
      if ltb mod_count (field mbi 20 s) then next else some (filesys_addr, s)

  unfoldable pub print_memory_map : ℕ → ℕ → ℕ → Console → Option Console
  print_memory_map zero mbi mmap s = none
  print_memory_map (suc rounds) mbi mmap s =
      let next =
        say
          (codes "    size = 0x%x, base_addr = 0x%#x%#x\n    type = 0x%x,  length    = 0x%#x%#x\n")
          (field mmap 0 s
            ∷ field mmap 8 s
            ∷ field mmap 4 s
            ∷ field mmap 20 s
            ∷ field mmap 16 s
            ∷ field mmap 12 s
            ∷ [])
          s
        >>= λ s'. print_memory_map rounds mbi ((mmap + field mmap 0 s' + 4) % 2 ^ 32) s' in
      if ltb mmap ((field mbi 48 s + field mbi 44 s) % 2 ^ 32) then next else some s

  -- The flags 0 to 2.
  unfoldable pub print_basics : ℕ → Console → Option Console
  print_basics mbi s = do
    s1 ← say (codes "flags = 0x%#x\n") (field mbi 0 s ∷ []) s
    s2 ←
        when_flag mbi 0
          (λ t.
            say (codes "mem_lower = %uKB, mem_upper = %uKB\n") (field mbi 4 t ∷ field mbi 8 t ∷ [])
              t)
          s1
    s3 ← when_flag mbi 1 (λ t. say (codes "boot_device = 0x%#x\n") (field mbi 12 t ∷ []) t) s2
    when_flag mbi 2 (λ t. say (codes "cmdline = %s\n") (field mbi 16 t ∷ []) t) s3

  unfoldable pub print_sections : ℕ → Console → Option Console
  print_sections mbi s =
      say (codes "elf_sec: num = %u, size = 0x%#x, addr = 0x%#x, shndx = 0x%#x\n")
        (field mbi 28 s ∷ field mbi 32 s ∷ field mbi 36 s ∷ field mbi 40 s ∷ []) s

  unfoldable pub print_map : ℕ → Console → Option Console
  print_map mbi s = do
    s1 ←
        say (codes "mmap_addr = 0x%#x, mmap_length = 0x%x\n") (field mbi 48 s ∷ field mbi 44 s ∷ [])
          s
    print_memory_map fuel mbi (field mbi 48 s1) s1

  -- Whether `entry` goes on after its report, `filesys_addr`, and the screen.
  unfoldable pub report_boot : ℕ → ℕ → ℕ → Console → Option (Bool × ℕ × Console)
  report_boot magic mbi filesys_addr s =
      if not (magic == bootloader_magic)
      then (do
        s1 ← say (codes "Invalid magic number: 0x%#x\n") (magic ∷ []) s
        some (false, filesys_addr, s1))
      else (do
        s1 ← print_basics mbi s
        (addr, s2) ←
            (if check_flag (field mbi 0 s1) 3
              then print_modules fuel mbi 0 (field mbi 24 s1) filesys_addr s1
              else some (filesys_addr, s1))
        (if check_flag (field mbi 0 s2) 4 && check_flag (field mbi 0 s2) 5
            then (do s3 ← say (codes "Both bits 4 and 5 are set.\n") [] s2; some (false, addr, s3))
            else (do
              s3 ← when_flag mbi 5 (print_sections mbi) s2
              s4 ← when_flag mbi 6 (print_map mbi) s3
              some (true, addr, s4))))
