-- ===== src/Files/Opening.antt =====
-- The call `open`, with and without an entry and a free descriptor, and `close` after it.
use operating_system_ece.Common.{
  ℕ, ◌+◌, ◌%◌, ◌<◌, ◌≡◌, ◌≢◌, refl, sym, subst, inl, inr, arith, true, false, Bool-cases, ==_refl,
  update, ◌⊎◌, ℤ, pos, minus_one, ltb_ℤ, is_zero, Memory, load32, pos_add, pos_sub,
}
use native.Mathlib.Decide.{ℕ_discrete, dec_lt}
use operating_system_ece.Filesys.{read_dentry_by_name}
use operating_system_ece.Files.{
  FdStruct, Pcb, System, Outcome, returned, max_open_files, sys_open, sys_close, memory, set_memory,
  cur_pcb,
}
use operating_system_ece.Files.Slots.{used, used_bound, IsLowest}
use operating_system_ece.Files.Descriptors.{
  IsOpenTable, opened, closed, free_fd, opened-IsOpenTable, cur_pcb-set_pcb, describe_known,
  Returns, Opens, opens, room, open_entry-Opens, sys_close_lem,
}

pub is_zero-pos : (r : ℤ) → is_zero r ≡ true → r ≡ pos 0
is_zero-pos r h = ground arith

opened_keeps :
    {p : Pcb} {m : Memory} {entry : ℕ} {out : Outcome}
    → IsOpenTable p
    → load32 m (entry + 32) < 3
    → Opens p m entry out
    → Returns (λ r s'. IsOpenTable (cur_pcb s')) out
opened_keeps {p} v known (opens fd s' low table eq) =
    let (odd, set) = describe_known _ _ (p.file_array fd) known in
    rw (eq, table) (opened-IsOpenTable p fd _ v low.above low.below low.free odd set)

flags_back :
    (files : ℕ → FdStruct) (fd : ℕ) (file : FdStruct) (i : ℕ)
    → (files fd).flags ≡ 0
    → let files' = update files fd file in
      (update files' fd (free_fd (files' fd)) i).flags ≡ (files i).flags
flags_back files fd file i free = elim (ℕ_discrete i fd) [
  | yes same ↦
      let old : (files i).flags ≡ 0 = subst (λ k. (files k).flags ≡ 0) (sym same) free in
      ground (arith, old, same)
  | no other ↦ ground (arith, other)
]

-- Closing the descriptor that was opened.
closed_back :
    (p : Pcb) (fd : ℕ) (file : FdStruct) (s' : System)
    → IsOpenTable p
    → IsLowest 6 p.file_array 2 fd
    → file.flags % 2 ≡ 1
    → cur_pcb s' ≡ opened p fd file
    → let (r', s'') = sys_close (pos fd) s' in
      (r' ≡ pos 0)
      × ((cur_pcb s'').file_arr_size ≡ p.file_arr_size)
      × ((i : ℕ) → ((cur_pcb s'').file_array i).flags ≡ (p.file_array i).flags)
closed_back p fd file s' v low odd table =
    let set : ((cur_pcb s').file_array fd).flags ≢ 0 = rw (table, ==_refl fd) (omega arith) in
    let done = (sys_close_lem s' fd).0 low.above low.below set in
    rw
      (
        done,
        cur_pcb-set_pcb (closed (cur_pcb s') fd) s',
        table,
        v.size,
        pos_add (2 + used 6 p.file_array 2) 1,
        pos_sub (2 + used 6 p.file_array 2) 1,
      )
      (refl, refl, λ i. flags_back p.file_array fd file i (low.free))

module _ (fs a b entry filename : ℕ) (s : System) (v : IsOpenTable (cur_pcb s)) where
  -- With well-formed descriptors, `open` with an entry of a known type and a descriptor that is
  -- free takes the lowest free one, from 2 to 7, and leaves the others as they are.
  pub sys_open-Opens :
      let (r, m) = read_dentry_by_name (memory s) fs filename entry in
      r ≡ pos 0
      → load32 m (entry + 32) < 3
      → used 6 (cur_pcb s).file_array 2 < 6
      → Opens (cur_pcb s) m entry (sys_open fs a b entry filename s)
  unfolding sys_open
  sys_open-Opens e known h =
      let (r, m) = read_dentry_by_name (memory s) fs filename entry in
      rw (e, room s v h) (open_entry-Opens (set_memory m s) v a b entry h known)

  -- With well-formed descriptors, `open` returns -1 and changes none of them when the name is not
  -- found or none is free.
  pub sys_open_refuses :
      let (r, m) = read_dentry_by_name (memory s) fs filename entry in
      (is_zero r ≡ false) ⊎ (used 6 (cur_pcb s).file_array 2 ≡ 6)
      → sys_open fs a b entry filename s ≡ returned minus_one (set_memory m s)
  unfolding sys_open
  sys_open_refuses (inl e) = rw e refl
  sys_open_refuses (inr full) =
      let (r, m) = read_dentry_by_name (memory s) fs filename entry in
      let shut : ltb_ℤ (cur_pcb s).file_arr_size (pos max_open_files) ≡ false =
        rw (v.size, full) refl in
      elim (Bool-cases (is_zero r)) [ inl e ↦ rw (e, shut) refl | inr e ↦ rw e refl ]

  -- With well-formed descriptors, and the entry that it reads of a known type, `open` returns
  -- whatever the name, and the descriptors are well-formed after it.
  pub sys_open-IsOpenTable :
      load32 (read_dentry_by_name (memory s) fs filename entry).1 (entry + 32) < 3
      → Returns (λ r s'. IsOpenTable (cur_pcb s')) (sys_open fs a b entry filename s)
  sys_open-IsOpenTable known =
      let (r, m) = read_dentry_by_name (memory s) fs filename entry in
      let refused : (is_zero r ≡ false) ⊎ (used 6 (cur_pcb s).file_array 2 ≡ 6)
          → Returns (λ r s'. IsOpenTable (cur_pcb s')) (sys_open fs a b entry filename s) =
        λ h. rw (sys_open_refuses h) v in
      elim (Bool-cases (is_zero r)) [
        | inr e ↦ refused (inl e)
        | inl e ↦ elim (dec_lt (used 6 (cur_pcb s).file_array 2) 6) [
          | no full ↦ refused (
              inr (
                let all : used 6 (cur_pcb s).file_array 2 ≡ 6 =
                  omega (arith, used_bound 6 (cur_pcb s).file_array 2) in
                all))
          | yes h ↦ opened_keeps v known (sys_open-Opens (is_zero-pos r e) known h)
        ]
      ]

  -- `close` after `open`, with well-formed descriptors, a name that has an entry of a known type
  -- and a descriptor that is free: it returns 0, and the size and the flags of all descriptors are
  -- those from before the two calls.
  pub sys_close-sys_open :
      let (r, m) = read_dentry_by_name (memory s) fs filename entry in
      r ≡ pos 0
      → load32 m (entry + 32) < 3
      → used 6 (cur_pcb s).file_array 2 < 6
      → Returns
          (λ fd s'.
            let (r', s'') = sys_close fd s' in
            (r' ≡ pos 0)
            × ((cur_pcb s'').file_arr_size ≡ (cur_pcb s).file_arr_size)
            × ((i : ℕ) → ((cur_pcb s'').file_array i).flags ≡ ((cur_pcb s).file_array i).flags))
          (sys_open fs a b entry filename s)
  sys_close-sys_open e known h = elim (sys_open-Opens e known h) [
    | opens fd s' low table eq ↦
        rw eq (closed_back (cur_pcb s) fd _ s' v low (describe_known _ _ _ known).0 table)
  ]
