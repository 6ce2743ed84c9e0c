-- ===== src/Tasks/Forest.antt =====
-- The processes as chains: each terminal has a chain of processes from its head through the parents.
use operating_system_ece.Common.{
  ℕ, ◌+◌, ◌-◌, ◌≤◌, ◌<◌, ◌≡◌, ◌≢◌, refl, subst, sym, ap, ◌∙◌, arith, true, false, ==_iff, ◌==◌,
  if_intro, update, pos,
}
use operating_system_ece.Files.{System}
use operating_system_ece.Tasks.{Task, Tasks, max_process_count, initial_tasks}
use operating_system_ece.Tasks.Slots.{taken}

-- A process runs when its slot is taken.
abbrev pub IsAlive : (ℕ → ℕ) → ℕ → Type 0
IsAlive slots p = (1 ≤ p) × (p ≤ max_process_count) × (slots (p - 1) ≢ 0)

-- `head` has the highest process of each terminal. Heads and parents run, no process is the head of two
-- terminals, the parent of two processes, or both a head and a parent, and each knows its number.
pub record IsForest (head : ℕ → ℕ) (tasks : ℕ → Task) (slots : ℕ → ℕ) : Type 0 where
  pub heads : (t : ℕ) → t < 3 → head t ≢ 0 → IsAlive slots (head t)
  pub distinct : (t u : ℕ) → t < 3 → u < 3 → head t ≢ 0 → head t ≡ head u → t ≡ u
  pub parents :
      (p : ℕ) → IsAlive slots p → (tasks p).parent_task ≢ 0 → IsAlive slots (tasks p).parent_task
  pub single :
      (p q : ℕ)
      → IsAlive slots p
      → IsAlive slots q
      → (tasks p).parent_task ≢ 0
      → (tasks p).parent_task ≡ (tasks q).parent_task
      → p ≡ q
  pub leaves : (p t : ℕ) → IsAlive slots p → t < 3 → head t ≢ 0 → (tasks p).parent_task ≢ head t
  pub numbers : (p : ℕ) → IsAlive slots p → (tasks p).process_num ≡ p

-- The state of the processes: the chains, and the count.
pub record IsProcessTable (s : Tasks) : Type 0 where
  pub forest : IsForest s.system.highest_terminal_processes s.tasks s.pcb_slots
  pub count : s.process_count ≡ pos (taken 6 s.pcb_slots 0)

-- The kernel starts with no process.
pub initial_tasks-IsProcessTable : (system : System) → IsProcessTable (initial_tasks system)
unfolding taken
initial_tasks-IsProcessTable system = record {
  forest = record {
    heads = λ t lt set. absurd (set refl);
    distinct = λ t u lt lt' set. absurd (set refl);
    parents = λ p a. absurd (a.2 refl);
    single = λ p q a. absurd (a.2 refl);
    leaves = λ p t a. absurd (a.2 refl);
    numbers = λ p a. absurd (a.2 refl);
  };
  count = refl;
}

eq_of : (x y : ℕ) → (x == y) ≡ true → x ≡ y
eq_of x y e = (==_iff x y).0 e

ne_of : (x y : ℕ) → (x == y) ≡ false → x ≢ y
ne_of x y e = ground arith

module _ (slots : ℕ → ℕ) (i : ℕ) where
  IsAlive-new : i < 6 → IsAlive (update slots i 1) (i + 1)
  IsAlive-new h = ground arith

  IsAlive-more : (p : ℕ) → IsAlive slots p → IsAlive (update slots i 1) p
  IsAlive-more p (a, b, c) = ground arith

  pub IsAlive-back : (p : ℕ) → IsAlive (update slots i 1) p → p ≢ i + 1 → IsAlive slots p
  IsAlive-back p (a, b, c) h = ground arith

  not-IsAlive : slots i ≡ 0 → ¬ IsAlive slots (i + 1)
  not-IsAlive e (a, b, c) = let same : i + 1 - 1 ≡ i = omega arith in c (ap slots same ∙ e)

  IsAlive-other : (p : ℕ) → IsAlive slots p → p ≢ i + 1 → IsAlive (update slots i 0) p
  IsAlive-other p (a, b, c) h = ground arith

  pub IsAlive-before : (p : ℕ) → IsAlive (update slots i 0) p → IsAlive slots p × (p ≢ i + 1)
  IsAlive-before p (a, b, c) = ground arith

module _ (head : ℕ → ℕ) (tasks : ℕ → Task) (slots : ℕ → ℕ) (v : IsForest head tasks slots) where
  -- A process that is no head and no parent: its slot is free.
  no_head : (i t : ℕ) → t < 3 → slots i ≡ 0 → head t ≢ i + 1
  no_head i t lt free e =
      not-IsAlive slots i free
        (subst (IsAlive slots) e (v.heads t lt (let n : head t ≢ 0 = omega arith in n)))

  no_parent : (i p : ℕ) → IsAlive slots p → slots i ≡ 0 → (tasks p).parent_task ≢ i + 1
  no_parent i p a free e = not-IsAlive slots i free (
      subst (IsAlive slots) e
        (v.parents p a (let n : (tasks p).parent_task ≢ 0 = omega arith in n)))

  -- A new process in a free slot, with the head of a terminal as its parent, becomes that head.
  pub grow :
      (t i : ℕ) (task : Task)
      → t < 3
      → i < 6
      → slots i ≡ 0
      → task.parent_task ≡ head t
      → task.process_num ≡ i + 1
      → IsForest (update head t (i + 1)) (update tasks (i + 1) task) (update slots i 1)
  grow t i task lt lt' free e e' = record {
    heads = λ u l.
        if_intro (λ h. h ≢ 0 → IsAlive (update slots i 1) h) (u == t)
          (λ _ _. IsAlive-new slots i lt')
          (λ _ set. IsAlive-more slots i (head u) (v.heads u l set));
    distinct = λ u w l l'.
        if_intro (λ h. h ≢ 0 → h ≡ update head t (i + 1) w → u ≡ w) (u == t)
          (λ same.
            if_intro (λ h. i + 1 ≢ 0 → i + 1 ≡ h → u ≡ w) (w == t)
              (λ same' _ _. eq_of u t same ∙ sym (eq_of w t same'))
              (λ _ _ c. absurd (no_head i w l' free (sym c))))
          (λ other.
            if_intro (λ h. head u ≢ 0 → head u ≡ h → u ≡ w) (w == t)
              (λ _ _ c. absurd (no_head i u l free c)) (λ _. v.distinct u w l l'));
    parents = λ p a.
        if_intro (λ (k : Task). k.parent_task ≢ 0 → IsAlive (update slots i 1) k.parent_task)
          (p == i + 1)
          (λ _ set.
            subst (IsAlive (update slots i 1)) (sym e)
              (IsAlive-more slots i (head t) (v.heads t lt (λ z. set (e ∙ z)))))
          (λ other set.
            IsAlive-more slots i _
              (v.parents p (IsAlive-back slots i p a (ne_of p (i + 1) other)) set));
    single = λ p q a a'.
        if_intro
          (λ (k : Task).
            k.parent_task ≢ 0 → k.parent_task ≡ (update tasks (i + 1) task q).parent_task → p ≡ q)
          (p == i + 1)
          (λ same.
            if_intro (λ (k : Task). task.parent_task ≢ 0 → task.parent_task ≡ k.parent_task → p ≡ q)
              (q == i + 1) (λ same' _ _. eq_of p (i + 1) same ∙ sym (eq_of q (i + 1) same'))
              (λ other set c. absurd (
                v.leaves q t (IsAlive-back slots i q a' (ne_of q (i + 1) other)) lt
                  (λ z. set (e ∙ z)) (sym c ∙ e))))
          (λ other.
            if_intro
              (λ (k : Task).
                (tasks p).parent_task ≢ 0 → (tasks p).parent_task ≡ k.parent_task → p ≡ q)
              (q == i + 1)
              (λ _ set c. absurd (
                v.leaves p t (IsAlive-back slots i p a (ne_of p (i + 1) other)) lt
                  (λ z. set (c ∙ e ∙ z)) (c ∙ e)))
              (λ other'.
                v.single p q (IsAlive-back slots i p a (ne_of p (i + 1) other))
                  (IsAlive-back slots i q a' (ne_of q (i + 1) other'))));
    leaves = λ p u a l.
        if_intro (λ h. h ≢ 0 → (update tasks (i + 1) task p).parent_task ≢ h) (u == t)
          (λ _ _.
            if_intro (λ (k : Task). k.parent_task ≢ i + 1) (p == i + 1)
              (λ _ c. no_head i t lt free (sym e ∙ c))
              (λ other. no_parent i p (IsAlive-back slots i p a (ne_of p (i + 1) other)) free))
          (λ away set.
            if_intro (λ (k : Task). k.parent_task ≢ head u) (p == i + 1)
              (λ _ c. ne_of u t away (v.distinct u t l lt set (sym c ∙ e)))
              (λ other. v.leaves p u (IsAlive-back slots i p a (ne_of p (i + 1) other)) l set));
    numbers = λ p a.
        if_intro (λ (k : Task). k.process_num ≡ p) (p == i + 1)
          (λ same. e' ∙ sym (eq_of p (i + 1) same))
          (λ other. v.numbers p (IsAlive-back slots i p a (ne_of p (i + 1) other)));
  }

  -- The head of a terminal that leaves its slot hands its place to its parent, if it has one.
  pub shrink :
      (t i : ℕ)
      → t < 3
      → head t ≡ i + 1
      → IsForest (update head t (tasks (i + 1)).parent_task) tasks (update slots i 0)
  shrink t i lt e =
      let set : head t ≢ 0 = omega arith in
      let a : IsAlive slots (i + 1) = subst (IsAlive slots) e (v.heads t lt set) in
      let q = (tasks (i + 1)).parent_task in
      record {
        heads = λ u l.
            if_intro (λ h. h ≢ 0 → IsAlive (update slots i 0) h) (u == t)
              (λ _ set'.
                IsAlive-other slots i q (v.parents (i + 1) a set')
                  (λ c. v.leaves (i + 1) t a lt set (c ∙ sym e)))
              (λ away set'.
                IsAlive-other slots i (head u) (v.heads u l set')
                  (λ c. ne_of u t away (v.distinct u t l lt set' (c ∙ sym e))));
        distinct = λ u w l l'.
            if_intro (λ h. h ≢ 0 → h ≡ update head t q w → u ≡ w) (u == t)
              (λ same.
                if_intro (λ h. q ≢ 0 → q ≡ h → u ≡ w) (w == t)
                  (λ same' _ _. eq_of u t same ∙ sym (eq_of w t same'))
                  (λ _ set' c. absurd (v.leaves (i + 1) w a l' (λ z. set' (c ∙ z)) c)))
              (λ other.
                if_intro (λ h. head u ≢ 0 → head u ≡ h → u ≡ w) (w == t)
                  (λ _ set' c. absurd (v.leaves (i + 1) u a l set' (sym c)))
                  (λ _. v.distinct u w l l'));
        parents = λ p b set'.
            let b' = IsAlive-before slots i p b in
            IsAlive-other slots i _ (v.parents p b'.0 set')
              (λ c. v.leaves p t b'.0 lt set (c ∙ sym e));
        single = λ p p' b b'.
            v.single p p' (IsAlive-before slots i p b).0 (IsAlive-before slots i p' b').0;
        leaves = λ p u b l.
            let b' = IsAlive-before slots i p b in
            if_intro (λ h. h ≢ 0 → (tasks p).parent_task ≢ h) (u == t)
              (λ _ set' c. b'.1 (v.single p (i + 1) b'.0 a (λ z. set' (sym c ∙ z)) c))
              (λ _ set'. v.leaves p u b'.0 l set');
        numbers = λ p b. v.numbers p (IsAlive-before slots i p b).0;
      }
