-- ===== src/Strings/Copy.antt =====
-- `strcpy` and `strncpy`, for a destination that does not overlap the source.
use native.Mathlib.Decide.{ℕ_discrete}
use operating_system_ece.Common.{
  ℕ, zero, suc, ◌+◌, ◌-◌, ◌≤◌, ◌<◌, ◌≡◌, ◌∙◌, ◌⊎◌, ◌&&◌, some, arith, ltb, leb, if◌then◌else◌,
  ==_false, Memory, write,
}
use operating_system_ece.Strings.{strcpy, strcpy_loop, strncpy, strncpy_loop, strncpy_pad}
use operating_system_ece.Strings.Length.{IsString, write-IsString}

-- `m` with the bytes `lo` to `n` of the string at `src` copied to `dest`.
abbrev pub copied : Memory → ℕ → ℕ → ℕ → ℕ → Memory
copied m dest src lo n a =
    if leb (dest + lo) a && leb a (dest + n) then m (src + (a - dest)) else m a

module _ (dest src n : ℕ) (apart : (dest + n < src) ⊎ (src + n < dest)) where
  copied_step :
      (m : Memory) (i a : ℕ)
      → i < n
      → copied (write m (dest + i) (m (src + i))) dest src (i + 1) n a ≡ copied m dest src i n a
  unfolding write
  copied_step m i a h = ground arith

  strcpy_loop-copied :
      (fuel k i : ℕ) (m : Memory)
      → i + k ≡ n
      → k < fuel
      → IsString m src n
      → (m' : Memory) × (strcpy_loop fuel m dest src i ≡ some m')
        × ((a : ℕ) → m' a ≡ copied m dest src i n a)
  unfolding strcpy_loop
  strcpy_loop-copied zero k i m e h s = absurd (omega arith)
  strcpy_loop-copied (suc fuel) zero i m e h s =
      let at : i ≡ n = omega arith in
      let end : m (src + i) ≡ 0 = rw at (s.stop) in
      (write m (dest + i) 0, rw end, λ a. last at end a)
    where
      last : i ≡ n → m (src + i) ≡ 0 → (a : ℕ) → write m (dest + i) 0 a ≡ copied m dest src i n a
      last at end a = unfold write in ground arith
  strcpy_loop-copied (suc fuel) (suc k) i m e h s =
      let m1 : Memory = write m (dest + i) (m (src + i)) in
      let (m', runs, all) =
        strcpy_loop-copied fuel k (i + 1) m1 (omega arith) (omega arith)
          (write-IsString m src n (dest + i) _ (omega arith) s) in
      (
        m',
        rw (==_false _ _ (s.body i (omega arith))) runs,
        λ a. all a ∙ copied_step m i a (omega arith),
      )

  -- `strcpy` of a string of length `n` that the destination does not overlap returns, if it is given
  -- more than `n` rounds: it copies the `n` bytes and the NUL, and writes nowhere else.
  pub strcpy-copied :
      (fuel : ℕ) (m : Memory)
      → n < fuel
      → IsString m src n
      → (m' : Memory) × (strcpy fuel m dest src ≡ some m')
        × ((a : ℕ) → m' a ≡ copied m dest src 0 n a)
  unfolding strcpy
  strcpy-copied fuel m h s = strcpy_loop-copied fuel n 0 m (omega arith) h s

-- `m` with the places from `lo` to `n` behind `dest` holding the string at `src`, of length `k`, and
-- then NULs.
abbrev pub padded : Memory → ℕ → ℕ → ℕ → ℕ → ℕ → Memory
padded m dest src lo n k a =
    if leb (dest + lo) a && ltb a (dest + n)
    then (if ltb a (dest + k) then m (src + (a - dest)) else 0)
    else m a

strncpy_pad-zero :
    (n : ℕ) (m : Memory) (dest i a : ℕ)
    → strncpy_pad n m dest i a ≡ (if leb (dest + i) a && ltb a (dest + i + n) then 0 else m a)
unfolding strncpy_pad write
strncpy_pad-zero zero m dest i a = ground arith
strncpy_pad-zero (suc n) m dest i a =
    ground (arith, strncpy_pad-zero n (write m (dest + i) 0) dest (i + 1) a)

module _ (dest src n k : ℕ) (apart : (dest + n ≤ src) ⊎ (src + k < dest)) where
  padded_step :
      (m : Memory) (i a : ℕ)
      → i < n
      → i < k
      → padded (write m (dest + i) (m (src + i))) dest src (i + 1) n k a ≡ padded m dest src i n k a
  unfolding write
  padded_step m i a h lt = ground arith

  strncpy_loop-padded :
      (left i : ℕ) (m : Memory) (a : ℕ)
      → i + left ≡ n
      → i ≤ k
      → IsString m src k
      → strncpy_loop left m dest src i a ≡ padded m dest src i n k a
  unfolding strncpy_loop
  strncpy_loop-padded zero i m a e h s = ground arith
  strncpy_loop-padded (suc left) i m a e h s = elim (ℕ_discrete i k) [
    | yes at ↦
        let end : m (src + i) ≡ 0 = rw at (s.stop) in
        rw end (strncpy_pad-zero (suc left) m dest i a ∙ (ground arith))
    | no before ↦
        let m1 : Memory = write m (dest + i) (m (src + i)) in
        rw (==_false _ _ (s.body i (omega arith))) (
          strncpy_loop-padded left (i + 1) m1 a (omega arith) (omega arith)
            (write-IsString m src k (dest + i) _ (omega arith) s)
          ∙ padded_step m i a (omega arith) (omega arith))
  ]

  -- `strncpy` from a string that the destination does not overlap fills exactly `n` bytes: with the
  -- source up to its NUL, then with NULs.
  pub strncpy-padded :
      (m : Memory) (a : ℕ) → IsString m src k → strncpy m dest src n a ≡ padded m dest src 0 n k a
  unfolding strncpy
  strncpy-padded m a s = strncpy_loop-padded n 0 m a (omega arith) (omega arith) s
