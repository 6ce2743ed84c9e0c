-- ===== src/Files/Descriptors.antt =====
-- `open` and `close`, and the state that every call leaves the descriptors in.
use operating_system_ece.Common.{
  ℕ, ◌+◌, ◌-◌, ◌%◌, ◌≤◌, ◌<◌, ◌≡◌, ◌≢◌, refl, arith, true, false, not, ◌||◌, ==_refl, ◌==◌,
  if_intro, update, ℤ, pos, pos_part, minus_one, ◌+ℤ◌, ◌-ℤ◌, pos_add, pos_sub, ap, ltb_ℤ, Memory,
  ◌∙◌, load32, ◌⊎◌,
}
use operating_system_ece.Files.{
  init_files, clear_flags, Ftable, FdStruct, Pcb, System, Outcome, returned, waiting, lost,
  no_table, free_slot, max_open_files, describe, fops_open, open_entry, sys_close, memory, cur_pcb,
  set_pcb,
}
use operating_system_ece.Files.Slots.{
  used, IsTagged, IsLowest, free_slot-IsLowest, used_opened, used_closed,
}

-- The size counts the standard descriptors and those in use, a descriptor in use has its present bit
-- set, and its table is a table.
pub record IsOpenTable (p : Pcb) : Type 0 where
  pub size : p.file_arr_size ≡ pos (2 + used 6 p.file_array 2)
  pub tagged : IsTagged p.file_array
  pub tables :
      (i : ℕ)
      → i < max_open_files
      → (p.file_array i).flags ≢ 0
      → (p.file_array i).fops_table ≢ Ftable.no_table

pub cur_pcb-set_pcb : (p : Pcb) (s : System) → cur_pcb (set_pcb p s) ≡ p
cur_pcb-set_pcb p s =
    rw (==_refl (s.highest_terminal_processes (s.keyboard.console.curr_terminal - 1))) refl

cur_pcb-fops_open : (a b : ℕ) (t : Ftable) (s : System) → cur_pcb (fops_open a b t s) ≡ cur_pcb s
unfolding fops_open
cur_pcb-fops_open a b t s = ground arith

-- What holds of a descriptor and of those there were holds after the change.
pub update_every :
    (P : FdStruct → Type 0) (files : ℕ → FdStruct) (fd : ℕ) (file : FdStruct)
    → P file
    → ((i : ℕ) → i < max_open_files → P (files i))
    → (i : ℕ) → i < max_open_files
    → P (update files fd file i)
update_every P files fd file h before i lt = if_intro P (i == fd) (λ e. h) (λ e. before i lt)

-- `execute` gives a process a well-formed array: the two standard descriptors and no other.
pub init_files-IsOpenTable : (p : Pcb) → IsOpenTable (init_files p)
unfolding init_files clear_flags used
init_files-IsOpenTable p = record {
  size = refl;
  tagged = λ i h e. ground arith;
  tables = λ i h set. ground arith;
}

-- The table with one more descriptor, and with one less.
abbrev pub opened : Pcb → ℕ → FdStruct → Pcb
opened p fd file = record p {
  file_array = update p.file_array fd file;
  file_arr_size = p.file_arr_size +ℤ pos 1;
}

abbrev pub free_fd : FdStruct → FdStruct
free_fd file = record file { flags = 0 }

abbrev pub closed : Pcb → ℕ → Pcb
closed p fd = record p {
  file_array = update p.file_array fd (free_fd (p.file_array fd));
  file_arr_size = p.file_arr_size -ℤ pos 1;
}

pub opened-IsOpenTable :
    (p : Pcb) (fd : ℕ) (file : FdStruct)
    → IsOpenTable p
    → 2 ≤ fd
    → fd < max_open_files
    → (p.file_array fd).flags ≡ 0
    → file.flags % 2 ≡ 1
    → file.fops_table ≢ Ftable.no_table
    → IsOpenTable (opened p fd file)
opened-IsOpenTable p fd file v h h' e odd table = record {
  size =
      let more =
        used_opened p.file_array fd file 6 2 h h' e (let b : file.flags ≢ 0 = omega arith in b) in
      rw (v.size, more, pos_add (2 + used 6 p.file_array 2) 1)
        (ap pos (
          let e : 2 + used 6 p.file_array 2 + 1 ≡ 2 + (used 6 p.file_array 2 + 1) = omega arith in
          e));
  tagged =
      update_every (λ f. f.flags % 2 ≡ 0 → f.flags ≡ 0) p.file_array fd file
        (λ even. absurd (omega arith)) v.tagged;
  tables =
      update_every (λ f. f.flags ≢ 0 → f.fops_table ≢ Ftable.no_table) p.file_array fd file
        (λ _. table) v.tables;
}

closed-IsOpenTable :
    (p : Pcb) (fd : ℕ)
    → IsOpenTable p
    → 2 ≤ fd
    → fd < max_open_files
    → (p.file_array fd).flags ≢ 0
    → IsOpenTable (closed p fd)
closed-IsOpenTable p fd v h h' e = record {
  size =
      let less = used_closed p.file_array fd (free_fd (p.file_array fd)) 6 2 h h' e refl in
      let n = used 6 (update p.file_array fd (free_fd (p.file_array fd))) 2 in
      let sum : 2 + used 6 p.file_array 2 ≡ 2 + n + 1 = omega arith in
      rw (v.size, sum) (pos_sub (2 + n) 1);
  tagged =
      update_every (λ f. f.flags % 2 ≡ 0 → f.flags ≡ 0) p.file_array fd (free_fd (p.file_array fd))
        (λ even. refl) v.tagged;
  tables =
      update_every (λ f. f.flags ≢ 0 → f.fops_table ≢ Ftable.no_table) p.file_array fd
        (free_fd (p.file_array fd)) (λ set. absurd (set refl)) v.tables;
}

-- An entry of the three known types gets a table and its present bit.
pub describe_known :
    (file_type inode_num : ℕ) (old : FdStruct)
    → file_type < 3
    → ((describe file_type inode_num old).flags % 2 ≡ 1)
      × ((describe file_type inode_num old).fops_table ≢ Ftable.no_table)
unfolding describe
describe_known file_type inode_num old h = ground arith

-- `P` holds of the state that a call leaves, which is not lost.
abbrev pub After : (System → Type 0) → Outcome → Type 0
After P out = elim out [ returned r s ↦ P s | waiting s ↦ P s | lost ↦ ⊥ ]

-- `P` holds of what a call returns and of the state it leaves: it returns.
abbrev pub Returns : (ℤ → System → Type 0) → Outcome → Type 0
Returns P out = elim out [ returned r s ↦ P r s | waiting s ↦ ⊥ | lost ↦ ⊥ ]

-- A call of `open` that found its entry, read to `entry` in the memory `m`.
pub data Opens (p : Pcb) (m : Memory) (entry : ℕ) (out : Outcome) : Type 0 where
  opens :
      (fd : ℕ) (s' : System)
      → IsLowest 6 p.file_array 2 fd
      → cur_pcb s'
        ≡ opened p fd (describe (load32 m (entry + 32)) (load32 m (entry + 36)) (p.file_array fd))
      → out ≡ returned (pos fd) s'
      → Opens p m entry out

close_test :
    (fd : ℤ) (n : ℕ)
    → ((ltb_ℤ fd (pos 2) || not (ltb_ℤ fd (pos max_open_files))) || (n == 0)) ≡ false
    → (2 ≤ pos_part fd) × (pos_part fd < max_open_files) × (n ≢ 0)
close_test fd n h = ground arith

-- The jump through the table of a known entry is to that table's function.
jump :
    (t : Ftable) (r : ℤ) (s : System)
    → t ≢ Ftable.no_table
    → elim t [ no_table ↦ lost | _ ↦ returned r s ] ≡ returned r s
jump t r s h = ground arith

-- `close` frees an open descriptor from 2 to 7 and leaves the others; it refuses any other number
-- and then changes nothing.
pub sys_close_lem :
    (s : System) (fd : ℕ)
    → (2 ≤ fd
        → fd < max_open_files
        → ((cur_pcb s).file_array fd).flags ≢ 0
        → sys_close (pos fd) s ≡ (pos 0, set_pcb (closed (cur_pcb s) fd) s))
      × ((fd < 2) ⊎ (max_open_files ≤ fd) ⊎ (((cur_pcb s).file_array fd).flags ≡ 0)
          → sys_close (pos fd) s ≡ (minus_one, s))
unfolding sys_close
sys_close_lem s fd = (λ h h' e. ground arith, λ h. ground arith)

module _ (s : System) (v : IsOpenTable (cur_pcb s)) where
  -- Whatever number `close` is given, it leaves well-formed descriptors well-formed: the size counts
  -- those in use, and each of them has its present bit and a table.
  pub sys_close-IsOpenTable : (fd : ℤ) → IsOpenTable (cur_pcb (sys_close fd s).1)
  unfolding sys_close
  sys_close-IsOpenTable fd =
      if_intro (λ (o : ℤ × System). IsOpenTable (cur_pcb o.1)) _ (λ e. v)
        (λ e.
          let (h, h', set) = close_test fd ((cur_pcb s).file_array (pos_part fd)).flags e in
          rw (cur_pcb-set_pcb (closed (cur_pcb s) (pos_part fd)) s)
            (closed-IsOpenTable (cur_pcb s) (pos_part fd) v h h' set))

  pub room :
      used 6 (cur_pcb s).file_array 2 < 6
      → ltb_ℤ (cur_pcb s).file_arr_size (pos max_open_files) ≡ true
  room h =
      rw (v.size) (
        let t : ltb_ℤ (pos (2 + used 6 (cur_pcb s).file_array 2)) (pos 8) ≡ true = ground arith in
        t)

  pub open_entry-Opens :
      (a b entry : ℕ)
      → used 6 (cur_pcb s).file_array 2 < 6
      → load32 (memory s) (entry + 32) < 3
      → Opens (cur_pcb s) (memory s) entry (open_entry a b entry s)
  unfolding open_entry
  open_entry-Opens a b entry h known =
      let fd = free_slot 6 (cur_pcb s).file_array 2 in
      let file =
        describe (load32 (memory s) (entry + 32)) (load32 (memory s) (entry + 36))
          ((cur_pcb s).file_array fd) in
      let s' = set_pcb (opened (cur_pcb s) fd file) s in
      opens fd (fops_open a b file.fops_table s')
        (free_slot-IsLowest 6 _ 2 (omega arith) v.tagged h)
        (cur_pcb-fops_open a b file.fops_table s' ∙ cur_pcb-set_pcb _ s)
        (jump file.fops_table (pos fd) _ (describe_known _ _ _ known).1)
