-- ===== src/Halt/Closing.antt =====
-- The loop of `halt` over the descriptors.
use operating_system_ece.Common.{
  ℕ, zero, suc, ◌+◌, ◌≤◌, ◌<◌, ◌≡◌, ◌≢◌, ◌⊎◌, inl, inr, refl, sym, subst, ◌∙◌, arith, not, ◌||◌,
  ◌==◌, ==_iff, ==_refl, if_intro, update, ℤ, pos, minus_one, ◌-ℤ◌, ltb_ℤ, Option, some,
}
use native.Mathlib.Decide.{ℕ_discrete}
use operating_system_ece.Filesys.{dir_close}
use operating_system_ece.Files.{
  Ftable, FdStruct, Pcb, System, max_open_files, sys_close, current, cur_pcb, set_pcb,
}
use operating_system_ece.Files.Descriptors.{closed, free_fd}
use operating_system_ece.Halt.{fops_close, unflag, close_round, close_all}

-- A descriptor that was left or closed.
pub record IsLess (f f' : FdStruct) : Type 0 where
  pub table : f'.fops_table ≡ f.fops_table
  pub flags : (f'.flags ≡ f.flags) ⊎ (f'.flags ≡ 0)

abbrev pub Less : Pcb → Pcb → Type 0
Less p p' = (j : ℕ) → IsLess (p.file_array j) (p'.file_array j)

same_fd : (f : FdStruct) → IsLess f f
same_fd f = record { table = refl; flags = inl refl }

trans_fd : (f g h : FdStruct) → IsLess f g → IsLess g h → IsLess f h
trans_fd f g h l l' = record {
  table = l'.table ∙ l.table;
  flags = elim l'.flags [
    | inr z ↦ inr z
    | inl e ↦ elim l.flags [ inl e' ↦ inl (e ∙ e') | inr z ↦ inr (e ∙ z) ]
  ];
}

-- The descriptors that a jump through the table is safe for.
abbrev pub HasTables : Pcb → Type 0
HasTables p =
    (j : ℕ)
    → j < max_open_files
    → (p.file_array j).flags ≢ 0
    → (p.file_array j).fops_table ≢ Ftable.no_table

pub Less-HasTables : (p p' : Pcb) → Less p p' → HasTables p → HasTables p'
Less-HasTables p p' l v j h set =
    let keep = v j h (elim (l j).flags [ inl e ↦ λ z. set (e ∙ z) | inr z ↦ absurd (set z) ]) in
    λ c. keep (sym (l j).table ∙ c)

-- What is left of a state when descriptors of the process are closed, and perhaps others'.
pub data Closes (process : ℕ) (s : System) (o : Option System) : Type 0 where
  closes :
      (d : ℕ) (q : ℕ → Pcb)
      → ((p : ℕ) → Less (s.pcbs p) (q p))
      → o ≡ some (record s { dir_index = d; pcbs = q })
      → Closes process s o

-- One descriptor of one process is freed.
freed :
    (process c fd : ℕ) (size : ℤ) (s : System)
    → Less (s.pcbs process) (
        update s.pcbs c
          (record (s.pcbs c) {
            file_array = update (s.pcbs c).file_array fd (free_fd ((s.pcbs c).file_array fd));
            file_arr_size = size;
          })
          process)
freed process c fd size s j =
    if_intro (λ (p : Pcb). IsLess ((s.pcbs process).file_array j) (p.file_array j)) (process == c)
      (λ e.
        subst
          (λ p.
            IsLess ((s.pcbs p).file_array j)
              (update (s.pcbs c).file_array fd (free_fd ((s.pcbs c).file_array fd)) j))
          (sym ((==_iff process c).0 e))
          (if_intro (IsLess ((s.pcbs c).file_array j)) (j == fd)
            (λ e'.
              subst (λ k. IsLess ((s.pcbs c).file_array k) (free_fd ((s.pcbs c).file_array fd)))
                (sym ((==_iff j fd).0 e')) (record { table = refl; flags = inr refl }))
            (λ _. same_fd _)))
      (λ _. same_fd _)

close_file-Closes : (process i : ℕ) (s : System) → Closes process s (some (sys_close (pos i) s).1)
unfolding sys_close
close_file-Closes process i s =
    if_intro (λ (o : ℤ × System). Closes process s (some o.1))
      ((ltb_ℤ (pos i) (pos 2) || not (ltb_ℤ (pos i) (pos max_open_files)))
        || (((cur_pcb s).file_array i).flags == 0))
      {x = (minus_one, s)} {y = (pos 0, set_pcb (closed (cur_pcb s) i) s)}
      (λ _. closes s.dir_index s.pcbs (λ p j. same_fd _) refl)
      (λ _.
        closes s.dir_index (set_pcb (closed (cur_pcb s) i) s).pcbs
          (λ p. freed p (current s) i ((cur_pcb s).file_arr_size -ℤ pos 1) s) refl)

fops_close-Closes :
    (t : Ftable) (process i : ℕ) (s : System)
    → t ≢ Ftable.no_table
    → Closes process s (fops_close t i s)
unfolding fops_close
fops_close-Closes Ftable.no_table process i s h = absurd (h refl)
fops_close-Closes Ftable.stdin_table process i s h =
    closes s.dir_index s.pcbs (λ p j. same_fd _) refl
fops_close-Closes Ftable.stdout_table process i s h =
    closes s.dir_index s.pcbs (λ p j. same_fd _) refl
fops_close-Closes Ftable.rtc_table process i s h = closes s.dir_index s.pcbs (λ p j. same_fd _) refl
fops_close-Closes Ftable.dir_table process i s h =
    closes (dir_close s.dir_index).1 s.pcbs (λ p j. same_fd _) refl
fops_close-Closes Ftable.file_table process i s h = close_file-Closes process i s

close_round-Closes :
    (process i : ℕ) (s : System)
    → i < max_open_files
    → HasTables (s.pcbs process)
    → Closes process s (close_round process i s)
unfolding close_round
close_round-Closes process i s lt v =
    let file = (s.pcbs process).file_array i in
    if_intro (Closes process s) (file.flags == 0)
      (λ _. closes s.dir_index s.pcbs (λ p j. same_fd _) refl)
      (λ set.
        fops_close-Closes file.fops_table process i s
          (v i lt (let n : file.flags ≢ 0 = ground arith in n)))

unflag_zero :
    (process i : ℕ) (s : System) → (((unflag process i s).pcbs process).file_array i).flags ≡ 0
unfolding unflag
unflag_zero process i s = rw (==_refl process, ==_refl i) refl

still_zero : (f f' : FdStruct) → IsLess f f' → f.flags ≡ 0 → f'.flags ≡ 0
still_zero f f' l z = elim l.flags [ inl e ↦ e ∙ z | inr e ↦ e ]

-- The loop ends with the descriptors that it went over closed.
pub data ClosesAll (process i left : ℕ) (s : System) (o : Option System) : Type 0 where
  closes_all :
      (d : ℕ) (q : ℕ → Pcb)
      → ((p : ℕ) → Less (s.pcbs p) (q p))
      → ((j : ℕ) → i ≤ j → j < i + left → ((q process).file_array j).flags ≡ 0)
      → o ≡ some (record s { dir_index = d; pcbs = q })
      → ClosesAll process i left s o

pub close_all-ClosesAll :
    (left process i : ℕ) (s : System)
    → i + left ≤ max_open_files
    → HasTables (s.pcbs process)
    → ClosesAll process i left s (close_all left process i s)
unfolding close_all unflag
close_all-ClosesAll zero process i s h v =
    closes_all s.dir_index s.pcbs (λ p j. same_fd _) (λ j a b. absurd (omega arith)) refl
close_all-ClosesAll (suc left) process i s h v =
    elim (close_round-Closes process i s (let lt : i < 8 = omega arith in lt) v) [
      | closes d q less e ↦
          let s0 : System = record s { dir_index = d; pcbs = q } in
          let s' = unflag process i s0 in
          let less' : (p : ℕ) → Less (s.pcbs p) (s'.pcbs p) =
            λ p j. trans_fd _ _ _ (less p j) (freed p process i (q process).file_arr_size s0 j) in
          let zero_at : ((s'.pcbs process).file_array i).flags ≡ 0 = unflag_zero process i s0 in
          elim (close_all-ClosesAll left process (i + 1) s' (omega arith)
            (Less-HasTables (s.pcbs process) (s'.pcbs process) (less' process) v)) [
              | closes_all d' q' more rest_zero e' ↦
                  rw (close_all, e)
                    (closes_all d' q' (λ p j. trans_fd _ _ _ (less' p j) (more p j))
                      (λ j a b. elim (ℕ_discrete i j) [
                        | yes same ↦
                            subst (λ k. ((q' process).file_array k).flags ≡ 0) same
                              (still_zero _ _ (more process i) zero_at)
                        | no other ↦ rest_zero j (omega arith) (omega arith)
                      ])
                      e')
            ]
    ]
