-- ===== src/Boot/Refused.antt =====
-- `entry` under a boot loader that is not Multiboot.
use operating_system_ece.Common.{
  ℕ, ◌+◌, ◌≤◌, ◌<◌, ◌≡◌, ◌≢◌, ◌⊎◌, inr, refl, ◌∙◌, arith, false, ◌==◌, ==_false, some, Memory,
  write, List, [], ◌∷◌, length, codes,
}
use native.Mathlib.Decide.{dec_lt}
use operating_system_ece.Screen.{Console, video, clear}
use operating_system_ece.Screen.Cells.{clear-blanked}
use operating_system_ece.Screen.Cursor.{IsOnScreen, Outside, clear-IsOnScreen}
use operating_system_ece.Scheduler.{store32}
use operating_system_ece.Printf.Returns.{Safe, Text, Words, is_numeric}
use operating_system_ece.Printf.{printf}
use operating_system_ece.Printf.Formats.{printf-returns}
use operating_system_ece.Multiboot.{bootloader_magic, push_words, say, report_boot}
use operating_system_ece.Boot.{SegDesc, Machine, Layout, ClockBytes, gives_up, entry}

abbrev pub refusal : List ℕ
refusal = codes "Invalid magic number: 0x%#x\n"

-- A text that stands in both memories.
Text-same :
    (vm conv : ℕ) (m m' : Memory) (a : ℕ) (cs : List ℕ)
    → ((j : ℕ) → j ≤ length cs → Safe vm conv (a + j) → m' (a + j) ≡ m (a + j))
    → Text vm conv m a cs
    → Text vm conv m' a cs
Text-same vm conv m m' a [] same (e, safe) =
    let z : a + 0 ≡ a = omega arith in
    let same_here : Safe vm conv a → m' a ≡ m a = rw z at (same 0 (omega arith)) in
    (same_here safe ∙ e, safe)
Text-same vm conv m m' a (c ∷ cs) same (e, ne, safe, t) =
    let z : a + 0 ≡ a = omega arith in
    let same_here : Safe vm conv a → m' a ≡ m a = rw z at (same 0 (omega arith)) in
    (
      same_here safe ∙ e,
      ne,
      safe,
      Text-same vm conv m m' (a + 1) cs
          (λ j h.
            let next : a + (1 + j) ≡ a + 1 + j = omega arith in
            rw next at (same (1 + j) (omega arith)))
          t,
    )

clear_same : (s : Console) (a : ℕ) → Outside video a → (clear s).mem a ≡ s.mem a
clear_same s a h = clear-blanked s a ∙ ground (arith, h)

-- The word that is pushed: four bytes, and nothing else changes.
pushed_byte : (v esp j : ℕ) (s : Console) → j < 4 → (store32 esp v s).mem (esp + j) < 256
unfolding write
pushed_byte v esp j s h = ground arith

pushed_same :
    (v esp a : ℕ) (s : Console) → (a < esp) ⊎ (esp + 4 ≤ a) → (store32 esp v s).mem a ≡ s.mem a
unfolding write
pushed_same v esp a s h = ground (arith, h)

-- `esp` and `conv` are where the arguments and the buffer of `printf` stand.
module _ (fuel conv esp : ℕ) (literal : List ℕ → ℕ) (l : Layout) (bytes : ClockBytes)
    (d e : SegDesc) (enough : 36 ≤ fuel)
    (buffer : (j : ℕ) → j < 36 → Outside video (conv + j)) where
  -- The text is printed with the word that was pushed as its argument.
  refusal_lem :
      (magic : ℕ) (s : Console)
      → IsOnScreen s
      → s.video_mem ≡ video
      → Text video conv s.mem (literal refusal) refusal
      → Words video conv s.mem esp (length refusal)
      → (literal refusal + length refusal < esp) ⊎ (esp + 4 ≤ literal refusal)
      → (c : Console) × (say fuel conv esp literal refusal (magic ∷ []) s ≡ some c)
        × (printf fuel conv (literal refusal) esp (store32 esp magic s) ≡ some (length refusal, c))
        × ((a : ℕ) → Safe video conv a → (a < esp) ⊎ (esp + 4 ≤ a) → c.mem a ≡ s.mem a)
  unfolding say push_words is_numeric
  refusal_lem magic s v page text words apart =
      let s1 : Console = store32 esp magic s in
      let text1 =
        Text-same video conv s.mem s1.mem (literal refusal) refusal
          (λ j h safe. pushed_same magic esp (literal refusal + j) s (ground (arith, apart, h)))
          text in
      let words1 : Words video conv s1.mem esp (length refusal) = λ j h. (
        elim (dec_lt j 4) [
          | yes pushed ↦ pushed_byte magic esp j s pushed
          | no other ↦ rw (pushed_same magic esp (esp + j) s (inr (omega arith))) ((words j h).0)
        ],
        (words j h).1,
      ) in
      let v1 : IsOnScreen s1 = record {
        column = v.column;
        row = v.row;
        shown = v.shown;
        scheduled = v.scheduled;
      } in
      let (c, runs, k) =
        printf-returns video conv fuel enough buffer refusal (literal refusal) esp s1
          (omega (arith, enough)) refl text1 words1 v1 page in
      (c, rw runs refl, runs, λ a safe away. k.same a safe ∙ pushed_same magic esp a s away)

  -- Under a boot loader whose magic number is wrong, `entry` clears the screen, prints the refusal with that
  -- number and returns. When the cursors are on the screen, the fuel is 36 or more, and the text, the words
  -- that are pushed and the buffer of `printf` stand apart from each other and from the screen, the console
  -- is the one that `printf` leaves, after it took each character of the text; nothing has been set up, and
  -- the memory has changed only in the displayed page, in the buffer, and in the word of the argument.
  pub entry-gives_up :
      (magic mbi : ℕ) (b : Machine)
      → magic ≢ bootloader_magic
      → IsOnScreen b.console
      → b.console.video_mem ≡ video
      → Text video conv b.console.mem (literal refusal) refusal
      → Words video conv b.console.mem esp (length refusal)
      → (literal refusal + length refusal < esp) ⊎ (esp + 4 ≤ literal refusal)
      → (c : Console) × (entry fuel conv esp literal l bytes d e magic mbi b
          ≡ some (gives_up (record b { console = c })))
        × (printf fuel conv (literal refusal) esp (store32 esp magic (clear b.console))
            ≡ some (length refusal, c))
        × ((a : ℕ) → Safe video conv a → (a < esp) ⊎ (esp + 4 ≤ a) → c.mem a ≡ b.console.mem a)
  unfolding entry report_boot clear
  entry-gives_up magic mbi b wrong v page text words apart =
      let s : Console = clear b.console in
      let text1 =
        Text-same video conv b.console.mem s.mem (literal refusal) refusal
          (λ j h safe. clear_same b.console (literal refusal + j) (safe.0)) text in
      let words1 : Words video conv s.mem esp (length refusal) = λ j h.
        (rw (clear_same b.console (esp + j) ((words j h).1.0)) ((words j h).0), (words j h).1) in
      let (c, runs, printed, same) =
        refusal_lem magic s (clear-IsOnScreen b.console v) page text1 words1 apart in
      let test : (magic == bootloader_magic) ≡ false = ==_false magic bootloader_magic wrong in
      (
        c,
        rw (test, runs) refl,
        printed,
        λ a safe away. same a safe away ∙ clear_same b.console a (safe.0),
      )
