-- ===== src/Pic/Tests.antt =====
-- The interrupt controllers of student-distrib/i8259.c after one line is enabled.
use operating_system_ece.Common.{◌≡◌, arith, [], ◌==◌, if◌then◌else◌}
use operating_system_ece.Pic.{Pic, enable_irq}
use operating_system_ece.Pic.Masks.{bit, mask_of, data_port, enable_irq-bit}

-- Only line 1 is enabled.
abbrev start : Pic
start = record { ports = []; master_mask = 0xFD; slave_mask = 0xFF }

enable_irq-bit_example :
    bit (mask_of (enable_irq 0 start) 0) 1 ≡ (if 1 == 0 then 0 else bit (data_port 0) 1)
enable_irq-bit_example = enable_irq-bit 0 1 start (omega arith) (omega arith)
