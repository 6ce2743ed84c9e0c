-- ===== src/Files/Removing.antt =====
-- What `close` does to the map of open files.
use operating_system_ece.Common.{
  negsuc, pos_part, ap, subst, ℕ, ◌≤◌, ◌<◌, ◌≡◌, ◌≢◌, refl, inl, inr, ltb_ℤ, arith, true, update,
  ◌⊎◌, ℤ, pos, minus_one, none,
}
use native.Mathlib.Decide.{ℕ_discrete, dec_lt, dec_le}
use operating_system_ece.Files.{System, max_open_files, sys_close, cur_pcb}
use operating_system_ece.Files.Descriptors.{closed, free_fd, cur_pcb-set_pcb, sys_close_lem}
use operating_system_ece.Files.Refinement.{
  FileMap, view_fd, view, view_none, view_some, view_update,
}

-- What `close` may do to the map for a number: it takes the number's file away, or it fails, when no file
-- that can be closed has the number.
pub data CloseStep (fd : ℤ) (a : FileMap) (r : ℤ) (a' : FileMap) : Type 0 where
  refuses :
      ((i : ℕ) → fd ≡ pos i → 2 ≤ i → i < max_open_files → a i ≡ none)
      → r ≡ minus_one
      → ((i : ℕ) → a' i ≡ a i)
      → CloseStep fd a r a'
  removes :
      (i : ℕ)
      → fd ≡ pos i
      → 2 ≤ i
      → i < max_open_files
      → a i ≢ none
      → r ≡ pos 0
      → ((j : ℕ) → a' j ≡ update a i none j)
      → CloseStep fd a r a'

pos_injective : (m n : ℕ) → pos m ≡ pos n → m ≡ n
pos_injective m n e = ap pos_part e

module _ (s : System) where
  close_negative : (n : ℕ) → sys_close (negsuc n) s ≡ (minus_one, s)
  unfolding sys_close
  close_negative n = let low : ltb_ℤ (negsuc n) (pos 2) ≡ true = ground arith in rw low refl

  -- A number that `close` refuses.
  refused-CloseStep :
      (fd : ℕ)
      → (fd < 2) ⊎ (max_open_files ≤ fd) ⊎ (((cur_pcb s).file_array fd).flags ≡ 0)
      → CloseStep
          (pos fd)
          (view (cur_pcb s))
          (sys_close (pos fd) s).0
          (view (cur_pcb (sys_close (pos fd) s).1))
  refused-CloseStep fd h = rw ((sys_close_lem s fd).1 h) (
      refuses
        (λ i e above below.
          let same : fd ≡ i = pos_injective fd i e in
          elim h [
            | inl low ↦ absurd (omega arith)
            | inr (inl high) ↦ absurd (let lt : i < 8 = below in omega arith)
            | inr (inr free) ↦
                subst (λ k. view_fd ((cur_pcb s).file_array k) ≡ none) same (view_none _ free)
          ])
        refl (λ i. refl))

  -- Whatever number it is given, negative ones included, `close` is a step of the map of open files: when
  -- the number is from 2 to 7 and has a file, that file is taken away and 0 returned; when it is not or has
  -- none, -1 is returned and all files stay.
  pub sys_close-Step :
      (fd : ℤ)
      → CloseStep fd (view (cur_pcb s)) (sys_close fd s).0 (view (cur_pcb (sys_close fd s).1))
  sys_close-Step (negsuc n) =
      rw (close_negative n)
        (refuses (λ i e above below. absurd (ground (arith, e))) refl (λ i. refl))
  sys_close-Step (pos fd) = elim (dec_lt fd 2) [
    | yes low ↦ refused-CloseStep fd (inl low)
    | no above ↦ elim (dec_le max_open_files fd) [
      | yes high ↦ refused-CloseStep fd (inr (inl high))
      | no below ↦ elim (ℕ_discrete ((cur_pcb s).file_array fd).flags 0) [
        | yes free ↦ refused-CloseStep fd (inr (inr free))
        | no set ↦
            rw
              (
                (sys_close_lem s fd).0 (let a : 2 ≤ fd = omega arith in a)
                    (let b : fd < 8 = omega arith in b) set,
                cur_pcb-set_pcb (closed (cur_pcb s) fd) s,
              )
              (removes fd refl (omega arith) (omega arith) (view_some _ set) refl
                (view_update (cur_pcb s).file_array fd (free_fd ((cur_pcb s).file_array fd))))
      ]
    ]
  ]
