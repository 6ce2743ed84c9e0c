-- ===== src/Filesys/Directory.antt =====
-- `dir_read`: the names of the entries, one to a call.
use operating_system_ece.Common.{
  ℕ, zero, suc, ◌+◌, ◌^◌, ◌≤◌, ◌<◌, ◌≡◌, refl, sym, ◌∙◌, ◌≢◌, ◌⊎◌, inl, inr, arith, ◌==◌, ltb,
  Bool-cases, true, false, below_suc, ==_iff, ℤ, pos, ltb_ℤ, i32, Memory,
}
use operating_system_ece.Block.{memcpy}
use operating_system_ece.Block.Copy.{Forward, memcpy-block, block_at}
use operating_system_ece.Filesys.{
  dentry_count, dentry_addr, bytes_cpy, name_end, read_dentry_by_index, dir_read,
}

-- `i` is where the name at `name` ends, or `limit`.
pub record NameEnd (m : Memory) (name limit i : ℕ) : Type 0 where
  pub bound : i ≤ limit
  pub body : (k : ℕ) → k < i → m (name + k) ≢ 0
  pub stop : (i ≡ limit) ⊎ (m (name + i) ≡ 0)

name_end-NameEnd :
    (left i limit : ℕ) (m : Memory) (name : ℕ)
    → i + left ≡ limit
    → ((k : ℕ) → k < i → m (name + k) ≢ 0)
    → NameEnd m name limit (name_end left m name i)
unfolding name_end
name_end-NameEnd zero i limit m name e before = record {
  bound = omega arith;
  body = before;
  stop = inl (omega arith);
}
name_end-NameEnd (suc left) i limit m name e before = elim (Bool-cases (m (name + i) == 0)) [
  | inl end ↦
      rw end (record { bound = omega arith; body = before; stop = inr ((==_iff _ _).0 end) })
  | inr more ↦ rw more (
      name_end-NameEnd left (i + 1) limit m name (omega arith)
        (below_suc (λ k. m (name + k) ≢ 0) i before (ground arith)))
]

-- One call's outcome at an entry: the number of name bytes returned, and the buffer, which holds
-- these bytes and the byte behind them.
pub record Listed (m : Memory) (entry buf limit dir_index : ℕ) (r : ℤ × ℕ × Memory) : Type 0 where
  pub count : ℕ
  pub returned : r.0 ≡ pos count
  pub next : r.1 ≡ dir_index + 1
  pub name : NameEnd m entry limit count
  pub copied : (k : ℕ) → k ≤ count → r.2 (buf + k) ≡ m (entry + k)

module _ (m : Memory) (fs dentry_test dir_index buf : ℕ) (nbytes : ℤ) where
  -- The local entry, the number of name bytes and the memory of a call that finds an entry.
  abbrev local : Memory
  local = memcpy 64 m dentry_test (dentry_addr fs dir_index)

  abbrev count : ℕ
  count = name_end (bytes_cpy nbytes) local dentry_test 0

  dir_read_step :
      dir_index < dentry_count m fs
      → dentry_count m fs < 2 ^ 31
      → dir_read m fs dentry_test dir_index buf nbytes
        ≡ (pos count, dir_index + 1, memcpy (count + 1) local buf dentry_test)
  unfolding dir_read read_dentry_by_index
  dir_read_step here small =
      let more : ltb_ℤ (pos dir_index) (i32 (dentry_count m fs)) ≡ true = ground arith in
      let valid : ltb (dentry_count m fs) dir_index ≡ false = ground arith in rw (more, valid)

  module _ (apart : Forward dentry_test (dentry_addr fs dir_index) 64)
      (short : bytes_cpy nbytes ≤ 32) where
    local_byte : (k : ℕ) → k < 64 → local (dentry_test + k) ≡ m (dentry_addr fs dir_index + k)
    local_byte k h =
        memcpy-block 64 m dentry_test (dentry_addr fs dir_index) (dentry_test + k) apart
        ∙ block_at m dentry_test (dentry_addr fs dir_index) 64 k h

    local-NameEnd : NameEnd m (dentry_addr fs dir_index) (bytes_cpy nbytes) count
    local-NameEnd =
        let n =
          name_end-NameEnd (bytes_cpy nbytes) 0 (bytes_cpy nbytes) local dentry_test (omega arith)
            (λ k h. absurd (omega arith)) in
        record {
          bound = n.bound;
          body = λ k h z. n.body k h (local_byte k (omega (arith, n.bound)) ∙ z);
          stop = stop_of n.bound n.stop;
        }
      where
        stop_of :
            count ≤ bytes_cpy nbytes
            → (count ≡ bytes_cpy nbytes) ⊎ (local (dentry_test + count) ≡ 0)
            → (count ≡ bytes_cpy nbytes) ⊎ (m (dentry_addr fs dir_index + count) ≡ 0)
        stop_of b (inl e) = inl e
        stop_of b (inr z) = inr (sym (local_byte count (omega (arith, b))) ∙ z)

  -- `dir_read` at an index below the number of entries returns the length of that entry's name, cut
  -- to the bytes asked for, moves on to the next entry, and copies that many bytes of the name and
  -- one more, if at most 32 bytes are asked for as the source counts them, the local entry is apart
  -- from the image, and the buffer from the local entry.
  pub dir_read-Listed :
      dir_index < dentry_count m fs
      → dentry_count m fs < 2 ^ 31
      → bytes_cpy nbytes ≤ 32
      → Forward dentry_test (dentry_addr fs dir_index) 64
      → Forward buf dentry_test 33
      → Listed m
          (dentry_addr fs dir_index)
          buf
          (bytes_cpy nbytes)
          dir_index
          (dir_read m fs dentry_test dir_index buf nbytes)
  dir_read-Listed here small short apart clear =
      let name = local-NameEnd apart short in
      rw (dir_read_step here small) (record {
        count = count;
        returned = refl;
        next = refl;
        name = name;
        copied = λ k h.
            memcpy-block (count + 1) local buf dentry_test (buf + k) (omega (arith, name.bound))
            ∙ (block_at local buf dentry_test (count + 1) k (omega arith)
                ∙ local_byte apart short k (omega (arith, name.bound)));
      })

  -- Behind the last entry `dir_read` returns 0 and changes nothing, so that it goes on doing so.
  pub dir_read_end :
      dentry_count m fs ≤ dir_index
      → dentry_count m fs < 2 ^ 31
      → dir_read m fs dentry_test dir_index buf nbytes ≡ (pos 0, dir_index, m)
  unfolding dir_read
  dir_read_end h small =
      let end : ltb_ℤ (pos dir_index) (i32 (dentry_count m fs)) ≡ false = ground arith in rw end
