-- ===== src/Filesys/Names.antt =====
-- Looking an entry up: `read_dentry_by_name` and `read_dentry_by_index`.
use operating_system_ece.Common.{
  ℕ, zero, suc, ◌+◌, ◌<◌, ◌≡◌, refl, ◌≢◌, inl, inr, arith, Bool-cases, true, below_suc, ==_false, ℤ,
  pos, minus_one, pos_part, i32, is_zero, Memory, IsBytes,
}
use operating_system_ece.Strings.{strncmp}
use operating_system_ece.Strings.Compare.{SamePrefix, strncmp-SamePrefix}
use operating_system_ece.Block.{memcpy}
use operating_system_ece.Filesys.{dentry_count, dentry_addr, find_dentry, read_dentry_by_name}

-- Entry `i` has the name at `fname`: the 32 bytes agree, or agree up to the end of the name.
abbrev pub HasName : Memory → ℕ → ℕ → ℕ → Type 0
HasName m fs fname i = SamePrefix m (dentry_addr fs i) fname 32

-- The first of the `n` entries with the name was copied to `dentry`, or there is none.
pub data Found (m : Memory) (fs n fname dentry : ℕ) (r : ℤ × Memory) : Type 0 where
  found :
      (i : ℕ)
      → i < n
      → HasName m fs fname i
      → ((j : ℕ) → j < i → ¬ (HasName m fs fname j))
      → r ≡ (pos 0, memcpy 64 m dentry (dentry_addr fs i))
      → Found m fs n fname dentry r
  missing :
      ((j : ℕ) → j < n → ¬ (HasName m fs fname j))
      → r ≡ (minus_one, m)
      → Found m fs n fname dentry r

module _ (m : Memory) (fs fname dentry : ℕ) (bytes : IsBytes m) where
  is_zero-eq : (x : ℤ) → is_zero x ≡ true → x ≡ pos 0
  is_zero-eq x h = ground arith

  find_dentry-Found :
      (left i n entry : ℕ)
      → i + left ≡ n
      → entry ≡ dentry_addr fs i
      → ((j : ℕ) → j < i → ¬ (HasName m fs fname j))
      → Found m fs n fname dentry (find_dentry left m entry fname dentry)
  unfolding find_dentry
  find_dentry-Found zero i n entry e at before = missing (λ j h. before j (omega arith)) refl
  find_dentry-Found (suc left) i n entry e at before =
      elim (Bool-cases (is_zero (strncmp m (dentry_addr fs i) fname 32))) [
        | inl hit ↦
            rw (at, hit)
              (found i (omega arith) ((strncmp-SamePrefix m _ fname bytes 32).0 (is_zero-eq _ hit))
                before refl)
        | inr miss ↦
            rw (at, miss)
              (find_dentry-Found left (i + 1) n _ (omega arith) (omega arith) (
                below_suc (λ j. ¬ (HasName m fs fname j)) i before
                  (λ same.
                    cc (miss, (strncmp-SamePrefix m (dentry_addr fs i) fname bytes 32).1 same))))
      ]

  -- In a memory of bytes and with no pointer NULL, `read_dentry_by_name` returns 0 and the first entry with the name, among as many entries as the
  -- boot block counts, or returns -1 and changes nothing if no entry has it.
  pub read_dentry_by_name-Found :
      fname ≢ 0
      → dentry ≢ 0
      → Found m fs
          (pos_part (i32 (dentry_count m fs)))
          fname
          dentry
          (read_dentry_by_name m fs fname dentry)
  unfolding read_dentry_by_name
  read_dentry_by_name-Found h h' =
      rw (==_false fname 0 h, ==_false dentry 0 h')
        (find_dentry-Found _ 0 _ _ (omega arith) refl (λ j lt. absurd (omega arith)))
