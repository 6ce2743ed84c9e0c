-- ===== src/Paging/Programs.antt =====
-- The pages of the programs in memory.
use operating_system_ece.Common.{
  ℕ, zero, suc, ◌+◌, ◌-◌, ◌*◌, ◌/◌, ◌%◌, ◌≤◌, ◌<◌, ◌≡◌, ◌≢◌, refl, ap, arith, bit_or, true, false,
  ◌==◌, some,
}
use operating_system_ece.Paging.{Mmu, map_slot}
use operating_system_ece.Paging.Mapping.{translate}

-- The addresses of the page that a program sees.
abbrev pub IsProgram : ℕ → Type 0
IsProgram v = (0x8000000 ≤ v) × (v < 0x8400000)

slot_entry :
    (index : ℕ)
    → index < 6
    → let entry = bit_or (0x800000 + index * 0x400000) 0x87 in
      (entry % 2 ≡ 1) × (entry / 0x80 % 2 ≡ 1) × (entry / 0x400000 ≡ index + 2)
slot_entry zero h = (refl, refl, refl)
slot_entry (suc zero) h = (refl, refl, refl)
slot_entry (suc (suc zero)) h = (refl, refl, refl)
slot_entry (suc (suc (suc zero))) h = (refl, refl, refl)
slot_entry (suc (suc (suc (suc zero)))) h = (refl, refl, refl)
slot_entry (suc (suc (suc (suc (suc zero))))) h = (refl, refl, refl)
slot_entry (suc (suc (suc (suc (suc (suc n)))))) h = absurd (omega arith)

-- The program in a slot has the 4 MB of the slot for its page: the kernel's own end below 8 MB.
pub map_slot_lem :
    (table index v : ℕ) (s : Mmu)
    → index < 6
    → IsProgram v
    → translate table (map_slot index s) v ≡ some (0x800000 + index * 0x400000 + (v - 0x8000000))
unfolding translate map_slot
map_slot_lem table index v s h (low, high) =
    let at : v / 0x400000 ≡ 0x20 = omega arith in
    let (odd, large, base) = slot_entry index h in
    let entry : ℕ = bit_or (0x800000 + index * 0x400000) 0x87 in
    let set : (entry % 2 == 0) ≡ false = ground (arith, odd) in
    let whole : (entry / 0x80 % 2 == 1) ≡ true = ground (arith, large) in
    let sum : entry / 0x400000 * 0x400000 + v % 0x400000
        ≡ 0x800000 + index * 0x400000 + (v - 0x8000000) =
      omega (arith, base) in
    rw (at, set, whole) (ap some sum)

-- Programs in two slots share no byte of their pages: what one finds at an address of its page is at
-- no address of the other's page.
pub programs_apart :
    (table i j v w : ℕ) (s : Mmu)
    → i < 6
    → j < 6
    → i ≢ j
    → IsProgram v
    → IsProgram w
    → translate table (map_slot i s) v ≢ translate table (map_slot j s) w
programs_apart table i j v w s h h' apart pv pw e =
    let same : some (0x800000 + i * 0x400000 + (v - 0x8000000))
        ≡ some (0x800000 + j * 0x400000 + (w - 0x8000000)) =
      rw (map_slot_lem table i v s h pv, map_slot_lem table j w s h' pw) at e in
    ground (arith, same)
