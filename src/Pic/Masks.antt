-- ===== src/Pic/Masks.antt =====
-- What `enable_irq` and `disable_irq` do to the masks, line by line.
use operating_system_ece.Common.{
  ℕ, ◌+◌, ◌-◌, ◌/◌, ◌%◌, ◌^◌, ◌<◌, ◌≡◌, refl, arith, true, false, Bool, lt→ltb, ltb, ◌==◌, ==_iff,
  if◌then◌else◌, holds_below, holds_below_at, bit_and, bit_or,
}
use native.Mathlib.Decide.{dec_lt}
use operating_system_ece.Pic.{Pic, enable_irq, disable_irq, master_port, slave_port, clear_bit}

-- Bit `n` of a mask: the line is masked.
abbrev pub bit : ℕ → ℕ → ℕ
bit mask n = mask / 2 ^ n % 2

-- The mask that is in force for a line, and the line's place in it.
abbrev pub mask_of : Pic → ℕ → ℕ
mask_of p irq = if ltb irq 8 then p.master_mask else p.slave_mask

-- The number of the data port that the mask is sent to.
abbrev pub data_port : ℕ → ℕ
data_port irq = if ltb irq 8 then master_port + 1 else slave_port + 1

abbrev fits : ℕ → ℕ → ℕ → ℕ → Bool
fits port mask own irq = holds_below 8 (λ n. bit mask n == (if n == irq then own else bit port n))

-- All 16 lines with all 8 bits at once.
enable_table : holds_below 8 (λ irq. fits 0x21 (bit_and 0x21 (clear_bit irq)) 0 irq) ≡ true
unfolding holds_below
enable_table = refl

enable_table_slave : holds_below 8 (λ irq. fits 0xA1 (bit_and 0xA1 (clear_bit irq)) 0 irq) ≡ true
unfolding holds_below
enable_table_slave = refl

disable_table : holds_below 8 (λ irq. fits 0x21 (bit_or 0x21 (2 ^ irq)) 1 irq) ≡ true
unfolding holds_below
disable_table = refl

disable_table_slave : holds_below 8 (λ irq. fits 0xA1 (bit_or 0xA1 (2 ^ irq)) 1 irq) ≡ true
unfolding holds_below
disable_table_slave = refl

-- One entry of a table.
table_at :
    (port own : ℕ) (mask : ℕ → ℕ) (irq n : ℕ)
    → holds_below 8 (λ i. fits port (mask i) own i) ≡ true
    → irq < 8
    → n < 8
    → bit (mask irq) n ≡ (if n == irq then own else bit port n)
table_at port own mask irq n table h h' =
    let row = holds_below_at 8 (λ i. fits port (mask i) own i) table irq h in
    (==_iff _ _).0
      (holds_below_at 8 (λ j. bit (mask irq) j == (if j == irq then own else bit port j)) row n h')

-- `enable_irq` unmasks its line. It also sets the masks of the other seven lines of the controller to
-- the bits of the port's number, whatever they were.
pub enable_irq-bit :
    (irq n : ℕ) (p : Pic)
    → irq < 16
    → n < 8
    → bit (mask_of (enable_irq irq p) irq) n ≡ (if n == irq % 8 then 0 else bit (data_port irq) n)
unfolding enable_irq
enable_irq-bit irq n p h h' = elim (dec_lt irq 8) [
  | yes low ↦
      let place : irq % 8 ≡ irq = omega arith in
      rw (lt→ltb irq 8 low, place)
        (table_at 0x21 0 (λ i. bit_and 0x21 (clear_bit i)) irq n enable_table low h')
  | no high ↦
      let place : irq % 8 ≡ irq - 8 = omega arith in
      let slave : ltb irq 8 ≡ false = ground arith in
      rw (slave, place)
        (table_at 0xA1 0 (λ i. bit_and 0xA1 (clear_bit i)) (irq - 8) n enable_table_slave
          (omega arith) h')
]

-- `disable_irq` masks its line. It also sets the masks of the other seven lines of the controller to
-- the bits of the port's number, whatever they were.
pub disable_irq-bit :
    (irq n : ℕ) (p : Pic)
    → irq < 16
    → n < 8
    → bit (mask_of (disable_irq irq p) irq) n ≡ (if n == irq % 8 then 1 else bit (data_port irq) n)
unfolding disable_irq
disable_irq-bit irq n p h h' = elim (dec_lt irq 8) [
  | yes low ↦
      let place : irq % 8 ≡ irq = omega arith in
      rw (lt→ltb irq 8 low, place)
        (table_at 0x21 1 (λ i. bit_or 0x21 (2 ^ i)) irq n disable_table low h')
  | no high ↦
      let place : irq % 8 ≡ irq - 8 = omega arith in
      let slave : ltb irq 8 ≡ false = ground arith in
      rw (slave, place)
        (table_at 0xA1 1 (λ i. bit_or 0xA1 (2 ^ i)) (irq - 8) n disable_table_slave (omega arith)
          h')
]
