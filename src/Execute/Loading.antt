-- ===== src/Execute/Loading.antt =====
-- The program that `execute` puts in memory.
use operating_system_ece.Common.{
  ℕ, ◌+◌, ◌%◌, ◌<◌, ◌≡◌, refl, arith, min, false, ◌==◌, ==_refl, update, Memory, load32,
}
use operating_system_ece.Files.{init_files}
use operating_system_ece.Filesys.{read_data, file_size}
use operating_system_ece.Filesys.Data.{IsApart, loaded, read_data-loaded}
use operating_system_ece.Tasks.{Tasks, Control, enters, bytes, set_bytes, map_program}
use operating_system_ece.Execute.{Frame, set_up, load_program}

-- Where a program is loaded.
abbrev pub prog_load_addr : ℕ
prog_load_addr = 0x08048000

-- The state in which the program is read: the arguments are in the block, and its page is in view.
abbrev pub before_loading : ℕ → (ℕ → ℕ) → Tasks → Tasks
before_loading index args s = map_program (index + 1) (record s {
  system = record s.system {
    pcbs = update s.system.pcbs (index + 1) (record (s.system.pcbs (index + 1)) { args = args });
  };
})

-- The program is entered with the file's bytes at its address and all other memory as it was.
pub data Loads (f : Frame) (index fs inode : ℕ) (args : ℕ → ℕ) (m : Memory) (out : Control)
    : Type 0 where
  loads :
      (s' : Tasks)
      → ((a : ℕ) → bytes s' a ≡ loaded m fs inode 0 prog_load_addr (file_size m fs inode) a)
      → (s'.system.pcbs (index + 1)).args ≡ args
      → out ≡ enters (load32 (bytes s') (f.data_block + 24)) s'
      → Loads f index fs inode args m out

-- When the image of the file system is aligned to a page, the file is shorter than 4 GB less one byte, and
-- its blocks are apart from the program's memory, `execute` enters the program once it has its arguments:
-- the whole file stands at 0x08048000, the other memory is as it was, and the block has the arguments.
pub load_program-Loads :
    (fs index inode : ℕ) (args : ℕ → ℕ) (f : Frame) (s : Tasks)
    → fs % 4096 ≡ 0
    → let m = bytes (before_loading index args s) in
      file_size m fs inode < 0xFFFF_FFFF
      → IsApart m fs inode prog_load_addr (file_size m fs inode) (file_size m fs inode)
      → Loads f index fs inode args m (load_program fs index inode args f s)
unfolding load_program set_up init_files map_program
load_program-Loads fs index inode args f s aligned short apart =
    let s1 = before_loading index args s in
    let size : ℕ = file_size (bytes s1) fs inode in
    let all : min size size ≡ size = omega arith in
    let sum : 0 + size ≡ size = omega arith in
    let (count, m') = read_data (bytes s1) fs inode 0 prog_load_addr size in
    let apart' : IsApart (bytes s1) fs inode prog_load_addr (min size size) (0 + min size size) =
      rw (all, sum) apart in
    let (full, held) =
      read_data-loaded (bytes s1) fs inode 0 prog_load_addr size aligned (omega arith) apart' in
    let read_well : (count == 0xFFFF_FFFF) ≡ false = ground (arith, full, all, short) in
    let entry = load32 m' (f.data_block + 24) in
    let s' = set_up index entry f (set_bytes m' s1) in
    rw (load_program, read_well) (loads s' (rw all at held) (rw (==_refl (index + 1)) refl) refl)
