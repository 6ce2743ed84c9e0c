-- ===== src/Filesys.antt =====
-- student-distrib/filesys.c: the read-only file system image at `filesys_addr`, here `fs`.
-- The image is a boot block (a word with the number of directory entries, a word with the number of
-- inodes, and the entries of 64 bytes from offset 64 on), the inode blocks, and the data blocks, all
-- of 4096 bytes. An operation takes the memory and returns its result with the new memory.
pub mod Names
pub mod Data
pub mod Directory
mod Tests
use operating_system_ece.Common.{
  ℕ, zero, suc, ◌+◌, ◌*◌, ◌/◌, ◌%◌, ◌^◌, Bool, not, ◌||◌, ltb, ◌==◌, if◌then◌else◌, ℤ, pos,
  minus_one, pos_part, ltb_ℤ, i32, u32, is_zero, Memory, write, load32,
}
use operating_system_ece.Strings.{strncmp}
use operating_system_ece.Block.{memcpy}

-- The first two words of the boot block.
abbrev pub dentry_count : Memory → ℕ → ℕ
dentry_count m fs = load32 m fs

abbrev pub inode_count : Memory → ℕ → ℕ
inode_count m fs = load32 m (fs + 4)

-- Entry `i` of the boot block.
abbrev pub dentry_addr : ℕ → ℕ → ℕ
dentry_addr fs i = fs + 64 + 64 * i

-- The loop over the entries, with `n` left and `entry` the next.
find_dentry : ℕ → Memory → ℕ → ℕ → ℕ → ℤ × Memory
find_dentry zero m entry fname dentry = (minus_one, m)
find_dentry (suc n) m entry fname dentry =
    let rest = find_dentry n m (entry + 64) fname dentry in
    if is_zero (strncmp m entry fname 32) then (pos 0, memcpy 64 m dentry entry) else rest

-- `count < amt_dentrys` compares signed numbers.
unfoldable pub read_dentry_by_name : Memory → ℕ → ℕ → ℕ → ℤ × Memory
unfolding find_dentry
read_dentry_by_name m fs fname dentry =
    if fname == 0 || dentry == 0
    then (minus_one, m)
    else find_dentry (pos_part (i32 (dentry_count m fs))) m (dentry_addr fs 0) fname dentry

-- `index` is unsigned: `index < 0` is false, and `index > amt_dentrys` compares unsigned numbers.
unfoldable pub read_dentry_by_index : Memory → ℕ → ℕ → ℕ → ℤ × Memory
read_dentry_by_index m fs index dentry =
    if ltb (dentry_count m fs) index
    then (minus_one, m)
    else (pos 0, memcpy 64 m dentry (dentry_addr fs index))

-- The inode block: `inode * MEM_SIZE_4kB` is a `uint32_t`.
abbrev pub inode_addr : ℕ → ℕ → ℕ
inode_addr fs inode = fs + 4096 + 4 * (inode * 4096 % 2 ^ 32 / 4)

abbrev pub data_start : Memory → ℕ → ℕ
data_start m fs = fs + 4096 * (inode_count m fs + 1)

unfoldable pub file_size : Memory → ℕ → ℕ → ℕ
file_size m fs inode = load32 m (inode_addr fs inode)

-- The copying loop, with `left` rounds to go before `count` is `length`. At the end of a block it
-- goes on at the block of the next number, read after the byte was written.
read_loop : ℕ → Memory → ℕ → ℕ → ℕ → ℕ → ℕ → ℕ → ℕ × Memory
read_loop zero m start len buf at slot count = (count, m)
read_loop (suc left) m start len buf at slot count =
    let m' = write m buf (m at) in
    let full = (at + 1) % 4096 == 0 in
    let at' = if full then start + load32 m' (slot + 4) * 4096 else at + 1 in
    let rest =
      read_loop left m' start len (buf + 1) at' (if full then slot + 4 else slot) (count + 1) in
    if ltb count len then rest else (count, m)

-- `offset > file_length` and `count < file_length` compare unsigned numbers.
unfoldable pub read_data : Memory → ℕ → ℕ → ℕ → ℕ → ℕ → ℕ × Memory
unfolding read_loop file_size
read_data m fs inode offset buf length =
    let len = file_size m fs inode in
    let slot = inode_addr fs inode + 4 + 4 * (offset / 4096) in
    let at = data_start m fs + load32 m slot * 4096 + offset % 4096 in
    if ltb len offset then (0, m) else read_loop length m (data_start m fs) len buf at slot 0

-- The state that `dir_read` keeps between calls is the global `dir_index`. `dentry_test` is the
-- address of its local entry.
name_end : ℕ → Memory → ℕ → ℕ → ℕ
name_end zero m name i = i
name_end (suc left) m name i =
    let rest = name_end left m name (i + 1) in if m (name + i) == 0 then i else rest

abbrev pub bytes_cpy : ℤ → ℕ
bytes_cpy nbytes = u32 (if ltb_ℤ (pos 32) nbytes then pos 32 else nbytes) % 256

unfoldable pub dir_read : Memory → ℕ → ℕ → ℕ → ℕ → ℤ → ℤ × ℕ × Memory
unfolding name_end read_dentry_by_index
dir_read m fs dentry_test dir_index buf nbytes =
    let (r, m') = read_dentry_by_index m fs dir_index dentry_test in
    let i = name_end (bytes_cpy nbytes) m' dentry_test 0 in
    if not (ltb_ℤ (pos dir_index) (i32 (dentry_count m fs)))
    then (pos 0, dir_index, m)
    else if not (is_zero r)
    then (minus_one, dir_index, m')
    else (pos i, dir_index + 1, memcpy (i + 1) m' buf dentry_test)

-- `dir_open` and `dir_close` set `dir_index`; `file_write` and `dir_write` refuse, and `file_open`
-- does nothing.
unfoldable pub dir_open : ℕ → ℤ × ℕ
dir_open dir_index = (pos 0, 0)

unfoldable pub dir_close : ℕ → ℤ × ℕ
dir_close dir_index = (pos 0, 0)

abbrev pub file_write : ℤ
file_write = minus_one

abbrev pub dir_write : ℤ
dir_write = minus_one

abbrev pub file_open : ℤ
file_open = pos 0
