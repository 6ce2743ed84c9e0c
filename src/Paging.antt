-- ===== src/Paging.antt =====
-- student-distrib/paging.c: `paging_init`, and the entry that sys_calls.c and scheduler.c set for the page of a
-- program. The addresses of `pageTable` and `pageDirectory` are the linker's: they are arguments.
pub mod Mapping
pub mod Programs
mod Tests
use operating_system_ece.Common.{
  ℕ, zero, suc, ◌+◌, ◌-◌, ◌*◌, ◌/◌, ◌%◌, ◌^◌, bit_and, bit_or, ◌==◌, if◌then◌else◌, update, Option,
  none, some,
}

-- The two arrays as functions from the index, and the control registers.
pub record Mmu : Type 0 where
  pub page_table : ℕ → ℕ
  pub page_directory : ℕ → ℕ
  pub cr0 : ℕ
  pub cr3 : ℕ
  pub cr4 : ℕ

-- `PAGE_TABLE_SIZE`, which the arrays are declared with, too.
abbrev pub page_table_size : ℕ
page_table_size = 0x10

abbrev pub page_mem_size : ℕ
page_mem_size = 0x1000

-- The first loop, with `left` rounds to go.
unfoldable pub clear_entries : ℕ → ℕ → Mmu → Mmu
clear_entries zero i s = s
clear_entries (suc left) i s = clear_entries left (i + 1) (record s {
  page_table = update s.page_table i 0;
  page_directory = update s.page_directory i 2;
})

abbrev pub set_directory : ℕ → ℕ → Mmu → Mmu
set_directory i entry s = record s { page_directory = update s.page_directory i entry }

abbrev pub set_table : ℕ → ℕ → Mmu → Mmu
set_table i entry s = record s { page_table = update s.page_table i entry }

-- The entries: the table, the kernel's 4 MB, the displayed page and the three pages behind it.
unfoldable pub fill_entries : ℕ → Mmu → Mmu
fill_entries table s = set_table (0xBB000 / page_mem_size) (bit_or 0xBB000 0x83) (
    set_table (0xBA000 / page_mem_size) (bit_or 0xBA000 0x83) (
      set_table (0xB9000 / page_mem_size) (bit_or 0xB9000 0x83) (
        set_table (0xB8000 / page_mem_size) (bit_or 0xB8000 0x003)
          (set_directory 1 (bit_or 0x400000 0x83) (set_directory 0 (bit_or table 0x017) s)))))

unfoldable pub paging_init : ℕ → ℕ → Mmu → Mmu
paging_init table directory s =
    let s' = fill_entries table (clear_entries page_table_size 0 s) in
    record s' {
      cr3 = (bit_and s'.cr3 0xFFF + directory) % 2 ^ 32;
      cr4 = bit_or s'.cr4 0x10;
      cr0 = bit_or s'.cr0 0x8000_0000;
    }

-- `pageDirectory[_4B] = (_8MB + index*_4MB) | MAP_MASK`.
unfoldable pub map_slot : ℕ → Mmu → Mmu
map_slot index s = record s {
  page_directory = update s.page_directory 0x20 (bit_or (0x800000 + index * 0x400000) 0x87);
}
