-- ===== src/Idt/Gates.antt =====
-- The gates that `idt_init` leaves.
use operating_system_ece.Common.{
  ℕ, zero, suc, ◌+◌, ◌*◌, ◌/◌, ◌%◌, ◌^◌, ◌<◌, ◌≡◌, ◌≢◌, ◌⊎◌, inl, inr, refl, ◌∙◌, arith, ◌==◌,
  ==_refl, ==_false, ==_iff, if_intro, List, [], ◌∷◌, length, get_or,
}
use mathlib.Core.List.{Memᴰ}
use operating_system_ece.Idt.{
  Gate, Handler, Vector, vectors, set_idt_entry, add_vector, add_vectors, idt_init, kernel_cs,
}

-- Where the processor jumps to, and when the gate leaves interrupts on: a trap gate's last type bit is 1.
abbrev pub offset : Gate → ℕ
offset g = g.offset_31_16 * 2 ^ 16 + g.offset_15_00

-- A present 32-bit gate of the kernel's code for the handler's address, with the vector's privilege.
pub record IsGateOf (address : ℕ) (v : Vector) (g : Gate) : Type 0 where
  pub at : offset g ≡ address
  pub segment : g.seg_selector ≡ kernel_cs
  pub is_present : g.present ≡ 1
  pub level : g.dpl ≡ v.privilege
  pub type_bits :
      (g.reserved0 ≡ 0)
      × (g.size ≡ 1)
      × (g.reserved1 ≡ 1)
      × (g.reserved2 ≡ 1)
      × (g.reserved3 ≡ v.kind)
      × (g.reserved4 ≡ 0)

add_vector-IsGateOf :
    (v : Vector) (address : ℕ) (idt : ℕ → Gate)
    → address < 2 ^ 32
    → IsGateOf address v (add_vector v.index address v.privilege v.kind idt v.index)
unfolding add_vector set_idt_entry
add_vector-IsGateOf v address idt h = rw (==_refl v.index) (record {
  at =
      let whole : address % 2 ^ 32 / 2 ^ 16 * 2 ^ 16 + address % 2 ^ 16 ≡ address = omega arith in
      whole;
  segment = refl;
  is_present = refl;
  level = refl;
  type_bits = (refl, refl, refl, refl, refl, refl);
})

add_vector_other :
    (i address privilege kind j : ℕ) (idt : ℕ → Gate)
    → j ≢ i
    → add_vector i address privilege kind idt j ≡ idt j
unfolding add_vector
add_vector_other i address privilege kind j idt h = rw (==_false j i h) refl

-- No vector has the number, and no two vectors have the same.
abbrev Absent : ℕ → List Vector → Type 0
Absent i [] = Unit
Absent i (v ∷ vs) = (i ≢ v.index) × Absent i vs

abbrev Distinct : List Vector → Type 0
Distinct [] = Unit
Distinct (v ∷ vs) = Absent v.index vs × Distinct vs

add_vectors-Absent :
    (address : Handler → ℕ) (vs : List Vector) (idt : ℕ → Gate) (i : ℕ)
    → Absent i vs
    → add_vectors address vs idt i ≡ idt i
unfolding add_vectors
add_vectors-Absent address [] idt i h = refl
add_vectors-Absent address (v ∷ vs) idt i (ne, h) =
    add_vectors-Absent address vs _ i h
    ∙ add_vector_other v.index (address v.handler) v.privilege v.kind i idt ne

at_index-Memᴰ : (vs : List Vector) (n : ℕ) (d : Vector) → n < length vs → Memᴰ (get_or vs n d) vs
at_index-Memᴰ [] n d h = absurd (omega arith)
at_index-Memᴰ (v ∷ vs) zero d h = Memᴰ.head refl
at_index-Memᴰ (v ∷ vs) (suc n) d h = Memᴰ.tail (at_index-Memᴰ vs n d (omega arith))

abbrev no_vector : Vector
no_vector = record { index = 0; handler = Handler.divide_err; privilege = 0; kind = 0 }

-- A gate that user code cannot go through, and vectors that make none at a number.
abbrev pub IsShut : Gate → Type 0
IsShut g = (g.present ≡ 0) ⊎ (g.dpl ≡ 0)

abbrev Shuts : ℕ → List Vector → Type 0
Shuts i [] = Unit
Shuts i (v ∷ vs) = (i ≡ v.index → v.privilege ≡ 0) × Shuts i vs

add_vectors-IsShut :
    (address : Handler → ℕ) (vs : List Vector) (idt : ℕ → Gate) (i : ℕ)
    → Shuts i vs
    → IsShut (idt i)
    → IsShut (add_vectors address vs idt i)
unfolding add_vectors add_vector
add_vectors-IsShut address [] idt i h shut = shut
add_vectors-IsShut address (v ∷ vs) idt i (zero_level, h) shut =
    add_vectors-IsShut address vs _ i h
      (if_intro IsShut (i == v.index) (λ e. inr (zero_level ((==_iff i v.index).0 e))) (λ _. shut))

module _ (address : Handler → ℕ) (fits : (h : Handler) → address h < 2 ^ 32) where
  add_vectors-IsGateOf :
      (vs : List Vector) (idt : ℕ → Gate)
      → Distinct vs
      → (v : Vector) → Memᴰ v vs
      → IsGateOf (address v.handler) v (add_vectors address vs idt v.index)
  unfolding add_vectors
  add_vectors-IsGateOf [] idt d v m = elim m [ ]
  add_vectors-IsGateOf (w ∷ vs) idt (absent, d) v m =
      let next = add_vector w.index (address w.handler) w.privilege w.kind idt in
      elim m [
        | Memᴰ.head e ↦
            rw (e, add_vectors-Absent address vs next w.index absent)
              (add_vector-IsGateOf w (address w.handler) idt (fits w.handler))
        | Memᴰ.tail m' ↦ add_vectors-IsGateOf vs next d v m'
      ]

  -- When the handlers' addresses are of 32 bits, each of the 23 vectors of `idt_init` has a present gate of
  -- the kernel's code that leads to its handler, with the vector's privilege and type.
  pub idt_init-IsGateOf :
      (idt : ℕ → Gate) (v : Vector)
      → Memᴰ v vectors
      → IsGateOf (address v.handler) v (idt_init address idt v.index)
  unfolding idt_init
  idt_init-IsGateOf idt v m = add_vectors-IsGateOf vectors idt (ground arith) v m

  -- After `idt_init` from a table without gates, a program at user level can raise the vectors 3, 4, 5
  -- and 128 and no other: their gates are present and have level 3, and every other gate is absent or has level 0,
  -- when the handlers' addresses are of 32 bits.
  pub idt_init_levels :
      (idt : ℕ → Gate)
      → ((i : ℕ) → (idt i).present ≡ 0)
      → (i : ℕ)
      → ((i ≡ 3) ⊎ (i ≡ 4) ⊎ (i ≡ 5) ⊎ (i ≡ 0x80)
          → ((idt_init address idt i).present ≡ 1) × ((idt_init address idt i).dpl ≡ 3))
        × (i ≢ 3
            → i ≢ 4
            → i ≢ 5
            → i ≢ 0x80
            → ((idt_init address idt i).present ≡ 0) ⊎ ((idt_init address idt i).dpl ≡ 0))
  idt_init_levels idt blank i = (
    λ h. elim h [
      | inl e ↦ rw e (opens 3 (omega arith))
      | inr (inl e) ↦ rw e (opens 4 (omega arith))
      | inr (inr (inl e)) ↦ rw e (opens 5 (omega arith))
      | inr (inr (inr e)) ↦ rw e (opens 19 (omega arith))
    ],
    λ a b c d.
        unfold idt_init in
        add_vectors-IsShut address vectors idt i (ground (arith, a, b, c, d)) (inl (blank i)),
  )
    where
      opens :
          (n : ℕ)
          → n < length vectors
          → ((idt_init address idt (get_or vectors n no_vector).index).present ≡ 1)
            × ((idt_init address idt (get_or vectors n no_vector).index).dpl
                ≡ (get_or vectors n no_vector).privilege)
      opens n lt =
          let g =
            idt_init-IsGateOf idt (get_or vectors n no_vector)
              (at_index-Memᴰ vectors n no_vector lt) in
          (g.is_present, g.level)
