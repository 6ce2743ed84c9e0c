-- ===== src/Filesys/Data.antt =====
-- What `read_data` reads: the bytes of a file as its inode lays them out.
use native.Mathlib.Decide.{ℕ_discrete}
use operating_system_ece.Common.{
  ℕ, zero, suc, ◌+◌, ◌-◌, ◌*◌, ◌/◌, ◌%◌, ◌≤◌, ◌<◌, ◌≡◌, sym, ap, ◌∙◌, ◌≢◌, ◌⊎◌, inl, inr, arith,
  refl, false, lt→ltb, min, ltb, leb, ◌==◌, ◌&&◌, if◌then◌else◌, Bool-cases, Memory, write, load32,
}
use operating_system_ece.Filesys.{inode_addr, data_start, file_size, read_loop, read_data}

-- The word of the inode with the number of data block `k`.
abbrev pub slot_addr : ℕ → ℕ → ℕ → ℕ
slot_addr fs inode k = inode_addr fs inode + 4 + 4 * k

-- The address of byte `j` of a file.
abbrev pub byte_addr : Memory → ℕ → ℕ → ℕ → ℕ
byte_addr m fs inode j =
    data_start m fs + load32 m (slot_addr fs inode (j / 4096)) * 4096 + j % 4096

-- The buffer of `n` bytes at `buf` holds nothing of what the bytes of the file up to `last` are
-- found by: their places and the block numbers of their inode.
pub record IsApart (m : Memory) (fs inode buf n last : ℕ) : Type 0 where
  pub slots :
      (k : ℕ)
      → 4096 * k ≤ last
      → (slot_addr fs inode k + 4 ≤ buf) ⊎ (buf + n ≤ slot_addr fs inode k)
  pub bytes :
      (j : ℕ) → j < last → (byte_addr m fs inode j < buf) ⊎ (buf + n ≤ byte_addr m fs inode j)

-- `m` with the first `n` places of the buffer holding the file's bytes from `offset` on.
abbrev pub loaded : Memory → ℕ → ℕ → ℕ → ℕ → ℕ → Memory
loaded m fs inode offset buf n a =
    if leb buf a && ltb a (buf + n) then m (byte_addr m fs inode (offset + (a - buf))) else m a

module _ (m0 : Memory) (fs inode offset buf n : ℕ) (aligned : fs % 4096 ≡ 0)
    (apart : IsApart m0 fs inode buf n (offset + n)) where
  abbrev Loaded : Memory → ℕ → Type 0
  Loaded m c = (b : ℕ) → m b ≡ loaded m0 fs inode offset buf c b

  Loaded-outside :
      (m : Memory) (c b : ℕ) → Loaded m c → c ≤ n → (b < buf) ⊎ (buf + n ≤ b) → m b ≡ m0 b
  Loaded-outside m c b same h out = ground (arith, same b)

  -- A word outside the buffer is as it was.
  load32-Loaded :
      (m : Memory) (c a : ℕ)
      → Loaded m c
      → c ≤ n
      → (a + 4 ≤ buf) ⊎ (buf + n ≤ a)
      → load32 m a ≡ load32 m0 a
  unfolding load32
  load32-Loaded m c a same h out = omega (
    arith,
    Loaded-outside m c a same h (omega arith),
    Loaded-outside m c (a + 1) same h (omega arith),
    Loaded-outside m c (a + 2) same h (omega arith),
    Loaded-outside m c (a + 3) same h (omega arith),
  )

  -- One byte more.
  write-Loaded :
      (m : Memory) (c : ℕ)
      → Loaded m c
      → c < n
      → Loaded (write m (buf + c) (m (byte_addr m0 fs inode (offset + c)))) (c + 1)
  unfolding write
  write-Loaded m c same h b =
      let source =
        Loaded-outside m c (byte_addr m0 fs inode (offset + c)) same (omega arith)
          (apart.bytes (offset + c) (omega arith)) in
      elim (ℕ_discrete b (buf + c)) [
        | yes e ↦ rw e (
            ground (
              arith,
              source,
              (let i : offset + (buf + c - buf) ≡ offset + c = omega arith in
                  ap (λ t. m0 (byte_addr m0 fs inode t)) i),
            ))
        | no ne ↦ ground (arith, same b)
      ]

  -- Inside a block the next byte of the file is the next byte of memory.
  byte_addr_next :
      (j : ℕ)
      → (byte_addr m0 fs inode j + 1) % 4096 ≢ 0
      → (byte_addr m0 fs inode (j + 1) ≡ byte_addr m0 fs inode j + 1) × ((j + 1) / 4096 ≡ j / 4096)
  byte_addr_next j h = let e : (j + 1) / 4096 ≡ j / 4096 = omega arith in (rw e (omega arith), e)

  -- At the end of a block it is the first byte of the next.
  byte_addr_block :
      (j : ℕ)
      → (byte_addr m0 fs inode j + 1) % 4096 ≡ 0
      → ((j + 1) / 4096 ≡ j / 4096 + 1) × ((j + 1) % 4096 ≡ 0)
  byte_addr_block j h = omega arith

  -- Where the next round reads, after the byte at `offset + count` was written in `m`.
  next_at :
      (m : Memory) (count : ℕ)
      → Loaded m (count + 1)
      → count < n
      → (if (byte_addr m0 fs inode (offset + count) + 1) % 4096 == 0
          then data_start m0 fs + load32 m (slot_addr fs inode ((offset + count) / 4096) + 4) * 4096
          else byte_addr m0 fs inode (offset + count) + 1)
        ≡ byte_addr m0 fs inode (offset + count + 1)
  next_at m count same h =
      let j : ℕ = offset + count in
      elim (Bool-cases ((byte_addr m0 fs inode j + 1) % 4096 == 0)) [
        | inl full ↦
            let (k, z) = byte_addr_block j (ground arith) in
            let slot : slot_addr fs inode (j / 4096) + 4 ≡ slot_addr fs inode (j / 4096 + 1) =
              omega arith in
            let word =
              load32-Loaded m (count + 1) (slot_addr fs inode (j / 4096 + 1)) same (omega arith)
                (apart.slots (j / 4096 + 1) (omega arith)) in
            rw (full, k, z, slot, word) (omega arith)
        | inr more ↦ rw more (sym (byte_addr_next j (ground arith)).0)
      ]

  next_slot :
      (count : ℕ)
      → (if (byte_addr m0 fs inode (offset + count) + 1) % 4096 == 0
          then slot_addr fs inode ((offset + count) / 4096) + 4
          else slot_addr fs inode ((offset + count) / 4096))
        ≡ slot_addr fs inode ((offset + count + 1) / 4096)
  next_slot count =
      let j : ℕ = offset + count in
      elim (Bool-cases ((byte_addr m0 fs inode j + 1) % 4096 == 0)) [
        | inl full ↦ rw (full, (byte_addr_block j (ground arith)).0) (omega arith)
        | inr more ↦ rw (more, (byte_addr_next j (ground arith)).1)
      ]

  read_loop-Loaded :
      (left count len length : ℕ) (m : Memory) (b at slot : ℕ)
      → Loaded m count
      → count ≤ n
      → n ≡ min len length
      → count + left ≡ length
      → b ≡ buf + count
      → at ≡ byte_addr m0 fs inode (offset + count)
      → slot ≡ slot_addr fs inode ((offset + count) / 4096)
      → ((read_loop left m (data_start m0 fs) len b at slot count).0 ≡ n)
        × Loaded (read_loop left m (data_start m0 fs) len b at slot count).1 n
  unfolding read_loop
  read_loop-Loaded zero count len length m b at slot same h en el eb ea es =
      let e : count ≡ n = omega arith in (e, rw e at same)
  read_loop-Loaded (suc left) count len length m b at slot same h en el eb ea es =
      elim (Bool-cases (ltb count len)) [
        | inl more ↦
            let lt : count < n = ground arith in
            let m1 : Memory = write m (buf + count) (m (byte_addr m0 fs inode (offset + count))) in
            let same1 = write-Loaded m count same lt in
            rw (more, eb, ea, es)
              (read_loop-Loaded left (count + 1) len length m1 (buf + count + 1) _ _ same1
                (omega arith) en (omega arith) (omega arith)
                (next_at m1 count same1 lt ∙ ap (byte_addr m0 fs inode) (omega arith))
                (next_slot count ∙ ap (λ k. slot_addr fs inode (k / 4096)) (omega arith)))
        | inr done ↦ let e : count ≡ n = ground arith in rw done (e, rw e at same)
      ]

-- `read_data` from an offset that is not past the file's end returns the smaller of the length asked for
-- and the file's whole length, without the offset, and places that many bytes in the buffer: those that the
-- inode's block numbers lead to from `offset` on, the file's bytes up to its end and what stands behind them
-- after it. The image is aligned to a page, and it is apart from the buffer.
pub read_data-loaded :
    (m : Memory) (fs inode offset buf length : ℕ)
    → fs % 4096 ≡ 0
    → offset ≤ file_size m fs inode
    → IsApart m fs inode buf
        (min (file_size m fs inode) length)
        (offset + min (file_size m fs inode) length)
    → let (count, m') = read_data m fs inode offset buf length in
      (count ≡ min (file_size m fs inode) length)
      × ((a : ℕ) → m' a ≡ loaded m fs inode offset buf (min (file_size m fs inode) length) a)
unfolding read_data
read_data-loaded m fs inode offset buf length aligned inside apart =
    let n : ℕ = min (file_size m fs inode) length in
    let past : ltb (file_size m fs inode) offset ≡ false = ground arith in
    rw past (
      read_loop-Loaded m fs inode offset buf n aligned apart length 0 (file_size m fs inode) length
        m buf _ _ (λ b. ground arith) (omega arith) refl (omega arith) (omega arith)
        (ap (byte_addr m fs inode) (omega arith))
        (ap (λ k. slot_addr fs inode (k / 4096)) (omega arith)))

-- Past the end `read_data` returns 0 and writes nothing.
pub read_data_past_end :
    (m : Memory) (fs inode offset buf length : ℕ)
    → file_size m fs inode < offset
    → read_data m fs inode offset buf length ≡ (0, m)
unfolding read_data
read_data_past_end m fs inode offset buf length h = rw (lt→ltb _ _ h)

read_loop-count :
    (left count len length : ℕ) (m : Memory) (start buf at slot : ℕ)
    → count + left ≡ length
    → count ≤ len
    → (read_loop left m start len buf at slot count).0 ≡ min len length
unfolding read_loop
read_loop-count zero count len length m start buf at slot e h = omega arith
read_loop-count (suc left) count len length m start buf at slot e h =
    elim (Bool-cases (ltb count len)) [
      | inl more ↦
          rw more
            (read_loop-count left (count + 1) len length _ start _ _ _ (omega arith) (ground arith))
      | inr done ↦ rw done (ground arith)
    ]

-- Whatever the memory holds, the count that `read_data` returns inside a file, its end included, is
-- the smaller of the length asked for and the file's whole length: the offset does not shorten it.
pub read_data-count :
    (m : Memory) (fs inode offset buf length : ℕ)
    → offset ≤ file_size m fs inode
    → (read_data m fs inode offset buf length).0 ≡ min (file_size m fs inode) length
unfolding read_data
read_data-count m fs inode offset buf length h =
    let past : ltb (file_size m fs inode) offset ≡ false = ground arith in
    rw past (
      read_loop-count length 0 (file_size m fs inode) length m _ buf _ _ (omega arith)
        (omega arith))
