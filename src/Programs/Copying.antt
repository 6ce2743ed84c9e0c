-- ===== src/Programs/Copying.antt =====
-- `cat` and `ls` over any `read` that comes to an end and any `write` that shows the bytes it is given.
use operating_system_ece.Common.{
  ℕ, zero, suc, ◌+◌, ◌<◌, ◌≡◌, ◌≢◌, refl, sym, ap, ◌∙◌, arith, some, false, ℤ, pos, ◌+ℤ◌, is_zero,
  Memory, write, List, [], ◌∷◌, ◌++◌, length, length-append, write_self, write_ne,
}
use native.Mathlib.Decide.{ℕ_discrete}
use mathlib.Core.List.{append_assoc, append-nil}
use operating_system_ece.Programs.{Kernel, is_minus_one, buf_size, name_size, cat_loop, ls_loop}

-- `n` bytes of the memory.
unfoldable pub bytes_from : Memory → ℕ → ℕ → List ℕ
bytes_from m a zero = []
bytes_from m a (suc n) = m a ∷ bytes_from m (a + 1) n

-- `read` of a descriptor, of which all reads together will still give `rest`: a chunk of that, empty only
-- when nothing is left. For the kernel's files `rest` is what `file_read` gives, which is more than the file.
pub record Reads {W : Type 0} (rest out : W → List ℕ) (buf n : ℕ) (w : W) (cnt : ℤ) (m' : Memory)
    (w' : W) : Type 0 where
  pub chunk : List ℕ
  pub count : cnt ≡ pos (length chunk)
  pub split : rest w ≡ chunk ++ rest w'
  pub stored : bytes_from m' buf (length chunk) ≡ chunk
  pub at_end : length chunk ≡ 0 → rest w ≡ []
  pub silent : out w' ≡ out w

-- `write` to the screen, which has shown `out`: it shows the bytes and does not return -1. The kernel's own
-- `write` returns one more than it shows, which the programs do not look at.
pub record Writes {W : Type 0} (rest out : W → List ℕ) (buf n : ℕ) (m : Memory) (w : W) (r : ℤ)
    (w' : W) : Type 0 where
  pub well : is_minus_one r ≡ false
  pub shown : out w' ≡ out w ++ bytes_from m buf n
  pub unread : rest w' ≡ rest w

positive_test : (n : ℕ) → n ≢ 0 → (is_zero (pos n) ≡ false) × (is_minus_one (pos n) ≡ false)
unfolding ◌+ℤ◌
positive_test n h = ground arith

module _ {W : Type 0} (k : Kernel W) (fuel : ℕ) (literal : List ℕ → ℕ) (buf : ℕ) (fd : ℤ)
    (rest out : W → List ℕ)
    (reads : (m : Memory) (w : W)
      → let (cnt, m', w') = k.call_read fd buf buf_size m w in
        Reads rest out buf buf_size w cnt m' w')
    (writes : (n : ℕ) (m : Memory) (w : W)
      → let (r, m', w') = k.call_write (pos 1) buf n m w in Writes rest out buf n m w r w') where
  -- When the reads of 1024 bytes give `rest` in chunks, the empty chunk only at its end, and `write` shows
  -- the bytes it is given and never returns -1, whatever else it returns, `cat` returns 0 within one more
  -- round than `rest` has bytes, and has shown `rest` and nothing else.
  pub cat_loop_lem :
      (rounds : ℕ) (m : Memory) (w : W)
      → length (rest w) < rounds
      → (m' : Memory) × (w' : W) × (cat_loop k fuel literal buf rounds fd m w
          ≡ some (pos 0, m', w'))
        × (out w' ≡ out w ++ rest w)
  unfolding cat_loop
  cat_loop_lem zero m w h = absurd (omega arith)
  cat_loop_lem (suc rounds) m w h =
      let (cnt, m1, w1) = k.call_read fd buf buf_size m w in
      let r = reads m w in
      elim (ℕ_discrete (length r.chunk) 0) [
        | yes end ↦
            let zero_count : cnt ≡ pos 0 = r.count ∙ ap pos end in
            (m1, w1, rw zero_count refl, rw (r.at_end end) (r.silent ∙ sym (append-nil (out w))))
        | no more ↦
            let (r', m2, w2) = k.call_write (pos 1) buf (length r.chunk) m1 w1 in
            let wr = writes (length r.chunk) m1 w1 in
            let total : length (rest w) ≡ length r.chunk + length (rest w1) =
              ap length r.split ∙ length-append r.chunk (rest w1) in
            let left : length (rest w2) ≡ length (rest w1) = ap length wr.unread in
            let (m', w', done, shown) = cat_loop_lem rounds m2 w2 (omega (arith, total, left)) in
            let (going, read_well) = positive_test (length r.chunk) more in
            (
              m',
              w',
              rw (r.count, going, read_well, wr.well) done,
              rw (shown, wr.shown, wr.unread, r.silent, r.stored, r.split)
                  (append_assoc (out w) r.chunk (rest w1)),
            )
      ]

-- `read` of a directory that has the names `rest` to read: the next name, or nothing at the end.
pub data ReadsName {W : Type 0} (rest : W → List (List ℕ)) (out : W → List ℕ) (buf : ℕ) (w : W)
    (cnt : ℤ) (m' : Memory) (w' : W) : Type 0 where
  at_end : rest w ≡ [] → cnt ≡ pos 0 → out w' ≡ out w → ReadsName rest out buf w cnt m' w'
  next_name :
      (name : List ℕ)
      → rest w ≡ name ∷ rest w'
      → length name ≢ 0
      → cnt ≡ pos (length name)
      → bytes_from m' buf (length name) ≡ name
      → out w' ≡ out w
      → ReadsName rest out buf w cnt m' w'

-- `write` to the screen, with the names that are left unread.
pub record WritesLine {W : Type 0} (rest : W → List (List ℕ)) (out : W → List ℕ) (buf n : ℕ)
    (m : Memory) (w : W) (r : ℤ) (w' : W) : Type 0 where
  pub well : is_minus_one r ≡ false
  pub shown : out w' ≡ out w ++ bytes_from m buf n
  pub unread : rest w' ≡ rest w

-- The names, one in a line.
unfoldable pub lines : List (List ℕ) → List ℕ
lines [] = []
lines (name ∷ names) = name ++ (b'\n' ∷ lines names)

bytes_and_one :
    (m : Memory) (a n b v : ℕ)
    → b ≡ a + n
    → bytes_from (write m b v) a (suc n) ≡ bytes_from m a n ++ (v ∷ [])
unfolding bytes_from
bytes_and_one m a zero b v e = let e' : b ≡ a = omega arith in rw (e', write_self m a v) refl
bytes_and_one m a (suc n) b v e =
    ap (λ (c : ℕ). c ∷ bytes_from (write m b v) (a + 1) (suc n)) (write_ne m b v a (omega arith))
    ∙ ap (λ (xs : List ℕ). m a ∷ xs) (bytes_and_one m (a + 1) n b v (omega arith))

bytes_at_line :
    (m : Memory) (a n v : ℕ)
    → bytes_from (write m (a + n) v) a (n + 1) ≡ bytes_from m a n ++ (v ∷ [])
bytes_at_line m a n v =
    let e : n + 1 ≡ suc n = omega arith in rw e (bytes_and_one m a n (a + n) v refl)

module _ {W : Type 0} (k : Kernel W) (fuel : ℕ) (literal : List ℕ → ℕ) (buf : ℕ) (fd : ℤ)
    (rest : W → List (List ℕ)) (out : W → List ℕ)
    (reads : (m : Memory) (w : W)
      → let (cnt, m', w') = k.call_read fd buf name_size m w in ReadsName rest out buf w cnt m' w')
    (writes : (n : ℕ) (m : Memory) (w : W)
      → let (r, m', w') = k.call_write (pos 1) buf n m w in
        WritesLine rest out buf n m w r w') where
  -- When `read` into the 32 bytes gives a directory's names one by one, and 0 after the last, and `write`
  -- shows the bytes it is given and never returns -1, whatever else it returns, `ls` returns 0 within one
  -- more round than there are names, and has shown each name in a line of its own, in their order.
  pub ls_loop_lem :
      (rounds : ℕ) (m : Memory) (w : W)
      → length (rest w) < rounds
      → (m' : Memory) × (w' : W) × (ls_loop k fuel literal buf rounds fd m w ≡ some (pos 0, m', w'))
        × (out w' ≡ out w ++ lines (rest w))
  unfolding ls_loop lines
  ls_loop_lem zero m w h = absurd (omega arith)
  ls_loop_lem (suc rounds) m w h =
      let (cnt, m1, w1) = k.call_read fd buf name_size m w in
      elim (reads m w) [
        | at_end none_left count same ↦
            (m1, w1, rw count refl, rw none_left (same ∙ sym (append-nil (out w))))
        | next_name name split some_bytes count stored same ↦
            let line = write m1 (buf + length name) b'\n' in
            let (r', m2, w2) = k.call_write (pos 1) buf (length name + 1) line w1 in
            let wr = writes (length name + 1) line w1 in
            let total : length (rest w) ≡ suc (length (rest w1)) = ap length split in
            let left : length (rest w2) ≡ length (rest w1) = ap length wr.unread in
            let (m', w', done, shown) = ls_loop_lem rounds m2 w2 (omega (arith, total, left)) in
            let (going, read_well) = positive_test (length name) some_bytes in
            (
              m',
              w',
              rw (count, going, read_well, wr.well) done,
              rw
                  (
                    shown,
                    wr.shown,
                    wr.unread,
                    same,
                    bytes_at_line m1 buf (length name) b'\n',
                    stored,
                    split,
                  )
                  (append_assoc (out w) (name ++ (b'\n' ∷ [])) (lines (rest w1))
                    ∙ ap (λ (xs : List ℕ). out w ++ xs)
                        (append_assoc name (b'\n' ∷ []) (lines (rest w1)))),
            )
      ]
