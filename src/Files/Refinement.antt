-- ===== src/Files/Refinement.antt =====
-- The descriptors as a finite map, which forgets the flags and the size, and what `open` does to
-- that map.
use operating_system_ece.Common.{
  zero, suc, subst, ℕ, ◌+◌, ◌≤◌, ◌<◌, ◌≡◌, ◌≢◌, refl, sym, inl, inr, arith, false, Bool-cases,
  if◌then◌else◌, if_intro, update, ◌⊎◌, ℤ, pos, minus_one, is_zero, load32, Option, none, some,
  ◌==◌,
}
use native.Mathlib.Decide.{ℕ_discrete, dec_lt}
use operating_system_ece.Filesys.{read_dentry_by_name}
use operating_system_ece.Files.{
  Ftable, FdStruct, Pcb, System, max_open_files, sys_open, memory, cur_pcb, describe,
}
use operating_system_ece.Files.Slots.{used, used_bound, IsLowest}
use operating_system_ece.Files.Descriptors.{IsOpenTable, opened, Returns, opens}
use operating_system_ece.Files.Opening.{sys_open-Opens, sys_open_refuses, is_zero-pos}

-- An open file: its operations, its inode, and the position in it.
pub record OpenFile : Type 0 where
  pub operations : Ftable
  pub inode : ℕ
  pub position : ℕ

abbrev pub FileMap : Type 0
FileMap = ℕ → Option OpenFile

abbrev pub view_fd : FdStruct → Option OpenFile
view_fd f =
    if f.flags == 0
    then none
    else some (record { operations = f.fops_table; inode = f.inode; position = f.f_pos })

-- What a process's block stands for.
abbrev pub view : Pcb → FileMap
view p i = view_fd (p.file_array i)

-- The file that an entry of the type 0, 1 or 2 stands for: the clock, the directory, or the data of the
-- entry's inode.
abbrev pub entry_file : ℕ → ℕ → OpenFile
entry_file file_type inode_num =
    if file_type == 0
    then record { operations = Ftable.rtc_table; inode = 0; position = 0 }
    else if file_type == 1
    then record { operations = Ftable.dir_table; inode = 0; position = 0 }
    else record { operations = Ftable.file_table; inode = inode_num; position = 0 }

-- What `open` may do to the map for a name, when the lookup gives `found` and the file is `f`: it puts the
-- file at the lowest number from 2 that has none, or it fails, for a name without an entry or when all six
-- numbers have a file.
pub data Step (found : ℤ) (f : OpenFile) (a : FileMap) (r : ℤ) (a' : FileMap) : Type 0 where
  fails :
      (found ≢ pos 0) ⊎ ((j : ℕ) → 2 ≤ j → j < max_open_files → a j ≢ none)
      → r ≡ minus_one
      → ((i : ℕ) → a' i ≡ a i)
      → Step found f a r a'
  adds :
      (fd : ℕ)
      → found ≡ pos 0
      → 2 ≤ fd
      → fd < max_open_files
      → a fd ≡ none
      → ((j : ℕ) → 2 ≤ j → j < fd → a j ≢ none)
      → r ≡ pos fd
      → ((i : ℕ) → a' i ≡ update a fd (some f) i)
      → Step found f a r a'

pub view_none : (f : FdStruct) → f.flags ≡ 0 → view_fd f ≡ none
view_none f e = rw e refl

pub view_some : (f : FdStruct) → f.flags ≢ 0 → view_fd f ≢ none
view_some f h = ground (arith, h)

pub view_update :
    (files : ℕ → FdStruct) (fd : ℕ) (f : FdStruct) (i : ℕ)
    → view_fd (update files fd f i) ≡ update (λ j. view_fd (files j)) fd (view_fd f) i
view_update files fd f i =
    if_intro (λ x. view_fd x ≡ update (λ j. view_fd (files j)) fd (view_fd f) i) (i == fd)
      (λ e. rw e refl) (λ e. rw e refl)

view_described :
    (file_type inode_num : ℕ) (old : FdStruct)
    → file_type < 3
    → view_fd (describe file_type inode_num old) ≡ some (entry_file file_type inode_num)
unfolding describe
view_described file_type inode_num old h = ground arith

-- When six of the six descriptors are in use, each is.
used_full :
    (n : ℕ) (files : ℕ → FdStruct) (lo : ℕ)
    → used n files lo ≡ n
    → (j : ℕ) → lo ≤ j
    → j < lo + n
    → (files j).flags ≢ 0
unfolding used
used_full zero files lo e j above below = absurd (omega arith)
used_full (suc n) files lo e j above below =
    let bound = used_bound n files (lo + 1) in
    elim (ℕ_discrete lo j) [
      | yes same ↦
          let here : (files lo).flags ≢ 0 = ground (arith, bound, e) in
          subst (λ k. (files k).flags ≢ 0) same here
      | no other ↦
          let later : used n files (lo + 1) ≡ n = ground (arith, bound, e) in
          used_full n files (lo + 1) later j (omega arith) (omega arith)
    ]

opened-Step :
    (p p' : Pcb) (fd file_type inode_num : ℕ)
    → IsLowest 6 p.file_array 2 fd
    → file_type < 3
    → p' ≡ opened p fd (describe file_type inode_num (p.file_array fd))
    → Step (pos 0) (entry_file file_type inode_num) (view p) (pos fd) (view p')
opened-Step p p' fd file_type inode_num low known e =
    let file = describe file_type inode_num (p.file_array fd) in
    adds fd refl low.above low.below (view_none _ low.free) (λ j a b. view_some _ (low.taken j a b))
      refl
      (λ i.
        rw (e, sym (view_described file_type inode_num (p.file_array fd) known))
          (view_update p.file_array fd file i))

not_zero : (r : ℤ) → is_zero r ≡ false → r ≢ pos 0
not_zero r h e = ground (arith, h, e)

module _ (s : System) where
  -- With well-formed descriptors, and the entry that it reads of a known type, `open` returns, and is a
  -- step of the map of open files: the entry's file, with the operations of its type, its inode for a data
  -- file and the position 0, is added under the lowest number that is free and the number returned; or the
  -- name has no entry or no number from 2 to 7 is free, -1 is returned and all files stay.
  pub sys_open-Step :
      (fs a b entry filename : ℕ)
      → let (found, m) = read_dentry_by_name (memory s) fs filename entry in
        IsOpenTable (cur_pcb s)
        → load32 m (entry + 32) < 3
        → Returns
            (λ r s'.
              Step found
                (entry_file (load32 m (entry + 32)) (load32 m (entry + 36)))
                (view (cur_pcb s))
                r
                (view (cur_pcb s')))
            (sys_open fs a b entry filename s)
  sys_open-Step fs a b entry filename v known =
      let (r, m) = read_dentry_by_name (memory s) fs filename entry in
      let file = entry_file (load32 m (entry + 32)) (load32 m (entry + 36)) in
      let Q : ℤ → System → Type 0 =
        λ r' s'. Step r file (view (cur_pcb s)) r' (view (cur_pcb s')) in
      elim (Bool-cases (is_zero r)) [
        | inr e ↦
            rw (sys_open_refuses fs a b entry filename s v (inl e))
              (fails (inl (not_zero r e)) refl (λ i. refl))
        | inl e ↦ elim (dec_lt (used 6 (cur_pcb s).file_array 2) 6) [
          | no full ↦
              let all : used 6 (cur_pcb s).file_array 2 ≡ 6 =
                omega (arith, used_bound 6 (cur_pcb s).file_array 2) in
              rw (sys_open_refuses fs a b entry filename s v (inr all)) (
                fails
                  (inr (λ j above below.
                    view_some _ (used_full 6 (cur_pcb s).file_array 2 all j above below)))
                  refl (λ i. refl))
          | yes room ↦
              let zero_r = is_zero-pos r e in
              elim (sys_open-Opens fs a b entry filename s v zero_r known room) [
                | opens fd s' low table eq ↦ rw eq (
                    subst (λ n. Step n file (view (cur_pcb s)) (pos fd) (view (cur_pcb s')))
                      (sym zero_r) (opened-Step (cur_pcb s) (cur_pcb s') fd _ _ low known table))
              ]
        ]
      ]
