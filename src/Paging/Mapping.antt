-- ===== src/Paging/Mapping.antt =====
-- What the tables map, read the way the processor reads them.
use operating_system_ece.Common.{
  ℕ, zero, suc, ◌+◌, ◌*◌, ◌/◌, ◌%◌, ◌≤◌, ◌<◌, ◌≡◌, ◌⊎◌, inl, inr, refl, ap, ◌∙◌, arith, bit_or,
  true, false, ◌==◌, if◌then◌else◌, update, Option, none, some,
}
use native.Mathlib.Decide.{ℕ_discrete, dec_lt}
use operating_system_ece.Paging.{Mmu, clear_entries, fill_entries, paging_init, page_table_size}

-- An entry's page: nothing if it is not present, 4 MB at its address if it is a large one, and
-- otherwise the page that the table's entry has, if the entry points to the table.
abbrev pub through_table : ℕ → ℕ → Option ℕ
through_table entry v = if entry % 2 == 0 then none else some (entry / 0x1000 * 0x1000 + v % 0x1000)

abbrev pub through_directory : ℕ → ℕ → (ℕ → ℕ) → ℕ → Option ℕ
through_directory entry table page_table v =
    if entry % 2 == 0
    then none
    else if entry / 0x80 % 2 == 1
    then some (entry / 0x400000 * 0x400000 + v % 0x400000)
    else if entry / 0x1000 * 0x1000 == table
    then through_table (page_table (v / 0x1000 % 0x400)) v
    else none

unfoldable pub translate : ℕ → Mmu → ℕ → Option ℕ
translate table s v = through_directory (s.page_directory (v / 0x400000)) table s.page_table v

clear_entries_table :
    (left i : ℕ) (s : Mmu)
    → ((j : ℕ) → s.page_table j ≡ 0)
    → (j : ℕ) → (clear_entries left i s).page_table j ≡ 0
unfolding clear_entries
clear_entries_table zero i s z j = z j
clear_entries_table (suc left) i s z j =
    clear_entries_table left (i + 1) _
      (λ k. let e : update s.page_table i 0 k ≡ 0 = ground (arith, z k) in e) j

clear_entries_outside :
    (left i : ℕ) (s : Mmu) (j : ℕ)
    → (j < i) ⊎ (i + left ≤ j)
    → (clear_entries left i s).page_directory j ≡ s.page_directory j
unfolding clear_entries
clear_entries_outside zero i s j out = refl
clear_entries_outside (suc left) i s j out =
    clear_entries_outside left (i + 1) _ j
      (let o : (j < i + 1) ⊎ (i + 1 + left ≤ j) = ground arith in o)
    ∙ (let miss : (j == i) ≡ false = ground arith in rw miss refl)

clear_entries_inside :
    (left i : ℕ) (s : Mmu) (j : ℕ)
    → i ≤ j
    → j < i + left
    → (clear_entries left i s).page_directory j ≡ 2
unfolding clear_entries
clear_entries_inside zero i s j h h' = absurd (omega arith)
clear_entries_inside (suc left) i s j h h' = elim (ℕ_discrete i j) [
  | yes same ↦
      clear_entries_outside left (i + 1) _ j (inl (omega arith))
      ∙ (let hit : (j == i) ≡ true = ground arith in rw hit refl)
  | no other ↦ clear_entries_inside left (i + 1) _ j (omega arith) (omega arith)
]

-- The pages that the kernel has to itself, and the screen's.
abbrev pub IsKernel : ℕ → Type 0
IsKernel v = (0x400000 ≤ v) × (v < 0x800000)

abbrev pub IsScreen : ℕ → Type 0
IsScreen v = (0xB8000 ≤ v) × (v < 0xBC000)

-- The table is aligned, so its address shares no bit with the flags; the arrays are 0 at first.
module _ (table directory : ℕ) (s : Mmu) (aligned : table % 0x1000 ≡ 0)
    (flags : bit_or table 0x017 ≡ table + 0x017) (blank : (j : ℕ) → s.page_table j ≡ 0)
    (blank' : (j : ℕ) → s.page_directory j ≡ 0) where
  abbrev cleared : Mmu
  cleared = clear_entries page_table_size 0 s

  kernel_entry : (v : ℕ) → IsKernel v → translate table (paging_init table directory s) v ≡ some v
  unfolding translate paging_init fill_entries
  kernel_entry v (h, h') =
      let one : v / 0x400000 ≡ 1 = omega arith in
      rw one (let sum : some (0x400000 + v % 0x400000) ≡ some v = ap some (omega arith) in sum)

  first_entry :
      (v : ℕ)
      → v < 0x400000
      → translate table (paging_init table directory s) v
        ≡ through_table ((fill_entries table cleared).page_table (v / 0x1000 % 0x400)) v
  unfolding translate paging_init fill_entries
  first_entry v h =
      let none_over : v / 0x400000 ≡ 0 = omega arith in
      rw (none_over, flags)
        (let odd : (table + 0x17) % 2 == 0 ≡ false = ground arith in
          let small : (table + 0x17) / 0x80 % 2 == 1 ≡ false = ground arith in
          let base : (table + 0x17) / 0x1000 * 0x1000 == table ≡ true = ground arith in
          rw (odd, small, base) refl)

  table_entry :
      (k : ℕ)
      → (0xB8 ≤ k
          → k < 0xBC
          → ((fill_entries table cleared).page_table k % 2 ≡ 1)
            × ((fill_entries table cleared).page_table k / 0x1000 ≡ k))
        × ((k < 0xB8) ⊎ (0xBC ≤ k) → (fill_entries table cleared).page_table k ≡ 0)
  unfolding fill_entries
  table_entry k = (
    λ h h'. ground arith,
    λ h. let z = clear_entries_table page_table_size 0 s blank k in ground (arith, z),
  )

  screen_entry : (v : ℕ) → IsScreen v → translate table (paging_init table directory s) v ≡ some v
  screen_entry v (h, h') =
      let k = v / 0x1000 % 0x400 in
      let entry = (fill_entries table cleared).page_table k in
      let (odd, base) = (table_entry k).0 (omega arith) (omega arith) in
      let set : (entry % 2 == 0) ≡ false = ground (arith, odd) in
      let sum : entry / 0x1000 * 0x1000 + v % 0x1000 ≡ v = omega (arith, base) in
      first_entry v (omega arith) ∙ rw set (ap some sum)

  beyond : (j : ℕ) → 2 ≤ j → (fill_entries table cleared).page_directory j % 2 ≡ 0
  unfolding fill_entries
  beyond j h = elim (dec_lt j page_table_size) [
    | yes below ↦
        let e = clear_entries_inside page_table_size 0 s j (omega arith) below in ground (arith, e)
    | no above ↦
        let e : cleared.page_directory j ≡ 0 =
          clear_entries_outside page_table_size 0 s j (inr (omega arith)) ∙ blank' j in
        ground (arith, e)
  ]

  absent_entry :
      (entry : ℕ) (page_table : ℕ → ℕ) (v : ℕ)
      → entry % 2 ≡ 0
      → through_directory entry table page_table v ≡ none
  absent_entry entry page_table v even =
      let e : (entry % 2 == 0) ≡ true = ground (arith, even) in rw e refl

  other_entry :
      (v : ℕ)
      → ¬ IsKernel v
      → ¬ IsScreen v
      → translate table (paging_init table directory s) v ≡ none
  unfolding translate paging_init
  other_entry v user text = elim (dec_lt v 0x400000) [
    | no above ↦
        absent_entry ((fill_entries table cleared).page_directory (v / 0x400000))
          (fill_entries table cleared).page_table v
          (beyond (v / 0x400000) (ground (arith, user, above)))
    | yes low ↦
        let k = v / 0x1000 % 0x400 in
        let zero_entry : (fill_entries table cleared).page_table k ≡ 0 =
          (table_entry k).1 (ground (arith, text, low)) in
        first_entry v low ∙ rw zero_entry refl
  ]

  -- With an aligned page table and arrays that are 0, `paging_init` maps the kernel's 4 MB from 4 MB on
  -- and the four screen pages to themselves, and no other address, address 0 included.
  pub paging_init_lem :
      (v : ℕ)
      → (IsKernel v ⊎ IsScreen v → translate table (paging_init table directory s) v ≡ some v)
        × (¬ IsKernel v → ¬ IsScreen v → translate table (paging_init table directory s) v ≡ none)
  paging_init_lem v =
      (λ h. elim h [ inl k ↦ kernel_entry v k | inr t ↦ screen_entry v t ], other_entry v)
