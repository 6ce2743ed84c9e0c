-- ===== src/Syserr/InKernel.antt =====
-- The kernel's own `read`, `write` and `close` of student-distrib/sys_calls.c, on the wrong descriptors that
-- syscalls/ece391syserr.c tries.
use operating_system_ece.Common.{ℕ, ◌≡◌, arith, Bool, not, ◌==◌, ℤ, pos, negsuc, minus_one}
use operating_system_ece.Files.{System, returned, cur_pcb, sys_close}
use operating_system_ece.Calls.{sys_read, sys_write}
use operating_system_ece.Syserr.Documented.{IsClosed}

-- Whether a descriptor of the process is open.
abbrev pub is_open_in : System → ℕ → Bool
is_open_in s i = not (((cur_pcb s).file_array i).flags == 0)

-- Three calls that give -1 and leave the system as it was.
abbrev pub AllFail : ℕ → ℕ → ℤ → ℕ → ℤ → System → Type 0
AllFail fs dentry fd buf n s =
    (sys_read fs dentry fd buf n s ≡ returned minus_one s)
    × (sys_write fd buf n s ≡ returned minus_one s)
    × (sys_close fd s ≡ (minus_one, s))

-- In every state of the kernel, `read`, `write` and `close` of a descriptor that is negative, 8 or more, or
-- not open give -1 and change nothing; `read` of descriptor 1, `write` of 0 and `close` of either do so too.
pub descriptors_checked :
    (fs dentry : ℕ) (fd : ℤ) (buf : ℕ) (n : ℤ) (s : System)
    → (IsClosed (is_open_in s) fd → AllFail fs dentry fd buf n s)
      × (sys_read fs dentry (pos 1) buf n s ≡ returned minus_one s)
      × (sys_write (pos 0) buf n s ≡ returned minus_one s)
      × (sys_close (pos 0) s ≡ (minus_one, s))
      × (sys_close (pos 1) s ≡ (minus_one, s))
unfolding sys_read sys_write sys_close
descriptors_checked fs dentry (negsuc i) buf n s = (
  λ c. (ground arith, ground arith, ground arith),
  ground arith,
  ground arith,
  ground arith,
  ground arith,
)
descriptors_checked fs dentry (pos i) buf n s = (
  λ c. (ground (arith, c), ground (arith, c), ground (arith, c)),
  ground arith,
  ground arith,
  ground arith,
  ground arith,
)
