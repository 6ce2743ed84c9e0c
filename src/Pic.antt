-- ===== src/Pic.antt =====
-- student-distrib/i8259.c: the interrupt controllers, by the bytes that `outb` sends to them, latest
-- first, and the two masks.
pub mod Masks
mod Tests
use operating_system_ece.Common.{
  ℕ, ◌+◌, ◌-◌, ◌*◌, ◌%◌, ◌^◌, bit_and, bit_or, List, [], ◌∷◌, ltb, if◌then◌else◌,
}

pub record Pic : Type 0 where
  pub ports : List (ℕ × ℕ)
  pub master_mask : ℕ
  pub slave_mask : ℕ

abbrev pub master_port : ℕ
master_port = 0x20

abbrev pub slave_port : ℕ
slave_port = 0xA0

abbrev pub send : ℕ → ℕ → Pic → Pic
send value port p = record p { ports = (value, port) ∷ p.ports }

unfoldable pub send_eoi : ℕ → List (ℕ × ℕ) → List (ℕ × ℕ)
send_eoi irq ports =
    if ltb irq 8
    then (bit_or 0x60 irq, master_port) ∷ ports
    else (bit_or 0x60 (irq - 8), slave_port) ∷ (0x62, master_port) ∷ ports

-- All lines masked, the four control words to each controller, and the masks again.
unfoldable pub i8259_init : Pic → Pic
i8259_init p = send p.slave_mask (slave_port + 1) (
    send p.master_mask (master_port + 1) (
      send 0x01 (slave_port + 1) (
        send 0x02 (slave_port + 1) (
          send 0x28 (slave_port + 1) (
            send 0x11 slave_port (
              send 0x01 (master_port + 1) (
                send 0x04 (master_port + 1) (
                  send 0x20 (master_port + 1) (
                    send 0x11 master_port (
                      send p.slave_mask (slave_port + 1)
                        (send p.master_mask (master_port + 1) p)))))))))))

-- `~(BIT_ONE << n)` as a `char`, read as the byte that the `&` keeps of it.
abbrev pub clear_bit : ℕ → ℕ
clear_bit n = 255 - 2 ^ n

-- The mask starts from the number of the data port, not from the mask that is in force.
unfoldable pub enable_irq : ℕ → Pic → Pic
enable_irq irq p =
    if ltb irq 8
    then (let mask = bit_and (master_port + 1) (clear_bit irq) in
        send mask (master_port + 1) (record p { master_mask = mask }))
    else (let mask = bit_and (slave_port + 1) (clear_bit (irq - 8)) in
        send mask (slave_port + 1) (record p { slave_mask = mask }))

unfoldable pub disable_irq : ℕ → Pic → Pic
disable_irq irq p =
    if ltb irq 8
    then (let mask = bit_or (master_port + 1) (2 ^ irq) in
        send mask (master_port + 1) (record p { master_mask = mask }))
    else (let mask = bit_or (slave_port + 1) (2 ^ (irq - 8)) in
        send mask (slave_port + 1) (record p { slave_mask = mask }))
