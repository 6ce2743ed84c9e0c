-- ===== src/Calls/Reading.antt =====
-- How far `file_read` moves a file's position.
use operating_system_ece.Common.{
  ℕ, ◌+◌, ◌%◌, ◌^◌, ◌≤◌, ◌<◌, ◌≡◌, refl, arith, false, ◌==◌, ==_refl, pos, ltb_ℤ, i32, min,
}
use operating_system_ece.Filesys.{file_size}
use operating_system_ece.Filesys.Data.{read_data-count}
use operating_system_ece.Files.{System, memory, current, cur_pcb}
use operating_system_ece.Calls.{file_read}

-- `file_read` of at least one byte, at a position that is not past the end of the file, returns the
-- smaller of the bytes asked for and the file's whole size, whatever the position is, and moves the
-- position on by that many.
pub file_read-count :
    (fs fd buf n : ℕ) (s : System)
    → 0 < n
    → n < 0x8000_0000
    → let file = (cur_pcb s).file_array fd in
      let count = min (file_size (memory s) fs file.inode) n in
      let (r, s') = file_read fs fd buf (pos n) s in
      file.f_pos ≤ file_size (memory s) fs file.inode
      → (r ≡ pos count) × (((cur_pcb s').file_array fd).f_pos ≡ (file.f_pos + count) % 2 ^ 32)
unfolding file_read
file_read-count fs fd buf n s h h' inside =
    let file = (cur_pcb s).file_array fd in
    let negative : ltb_ℤ (pos n) (pos 0) ≡ false = ground arith in
    let nothing : (n == 0) ≡ false = ground arith in
    let small : n % 2 ^ 32 ≡ n = omega arith in
    let signed : i32 (min (file_size (memory s) fs file.inode) n)
        ≡ pos (min (file_size (memory s) fs file.inode) n) =
      ground arith in
    let count = read_data-count (memory s) fs file.inode file.f_pos buf n inside in
    rw (negative, nothing, small, ==_refl (current s), ==_refl fd, count) (signed, refl)
