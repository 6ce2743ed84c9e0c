-- ===== src/Syserr/Documented.antt =====
-- What the calls are documented to do on wrong arguments, and with the descriptors of a process.
use operating_system_ece.Common.{
  ℕ, ◌≤◌, ◌<◌, ◌≡◌, ◌≢◌, ◌⊎◌, Bool, true, false, update, some, ℤ, pos, negsuc, minus_one, Memory,
  List, ◌++◌, length, codes,
}
use operating_system_ece.Support.{ece391_strlen}
use operating_system_ece.Programs.{Kernel}
use operating_system_ece.Programs.Copying.{bytes_from}

-- A text that stands where the program has it.
pub record Stands (fuel : ℕ) (literal : List ℕ → ℕ) (m : Memory) (text : List ℕ) : Type 0 where
  pub measured : ece391_strlen fuel m (literal text) ≡ some (length text)
  pub there : bytes_from m (literal text) (length text) ≡ text

-- A descriptor that no call may use: out of range, or not open.
abbrev pub IsClosed : (ℕ → Bool) → ℤ → Type 0
IsClosed opened (negsuc n) = Unit
IsClosed opened (pos i) = (8 ≤ i) ⊎ (opened i ≡ false)

module _ {W : Type 0} (opened : W → ℕ → Bool) (out : W → List ℕ) (m : Memory) where
  -- A call that failed: -1, and nothing has changed that the program can see.
  pub record Fails (w : W) (result : ℤ × Memory × W) : Type 0 where
    pub value : result.0 ≡ minus_one
    pub memory : result.1 ≡ m
    pub files : (j : ℕ) → opened (result.2) j ≡ opened w j
    pub shown : out (result.2) ≡ out w

  -- A call that gave `r`, after which the descriptor `i` is open or not.
  pub record Sets (w : W) (i : ℕ) (b : Bool) (r : ℤ) (result : ℤ × Memory × W) : Type 0 where
    pub value : result.0 ≡ r
    pub memory : result.1 ≡ m
    pub files : (j : ℕ) → opened (result.2) j ≡ update (opened w) i b j
    pub shown : out (result.2) ≡ out w

  -- The calls, when the memory is `m`. Descriptors 0 and 1 are the terminal's and cannot be closed; `open` takes
  -- the least free one from 2 on; a program owns the addresses from 0x8000000 to 0x8400000; the calls have the
  -- numbers 1 to 10.
  pub record Documented (k : Kernel W) (literal : List ℕ → ℕ) (missing : List ℕ → Type 0)
      : Type 0 where
    pub read_closed :
        (fd : ℤ) (buf n : ℕ) (w : W) → IsClosed (opened w) fd → Fails w (k.call_read fd buf n m w)
    pub read_stdout : (buf n : ℕ) (w : W) → Fails w (k.call_read (pos 1) buf n m w)
    pub write_closed :
        (fd : ℤ) (buf n : ℕ) (w : W) → IsClosed (opened w) fd → Fails w (k.call_write fd buf n m w)
    pub write_stdin : (buf n : ℕ) (w : W) → Fails w (k.call_write (pos 0) buf n m w)
    pub write_stdout :
        (buf n : ℕ) (w : W)
        → let (r, m', w') = k.call_write (pos 1) buf n m w in
          (m' ≡ m) × ((j : ℕ) → opened w' j ≡ opened w j) × (out w' ≡ out w ++ bytes_from m buf n)
    pub close_closed : (fd : ℤ) (w : W) → IsClosed (opened w) fd → Fails w (k.call_close fd m w)
    pub close_terminal : (i : ℕ) (w : W) → i < 2 → Fails w (k.call_close (pos i) m w)
    pub close_open :
        (i : ℕ) (w : W)
        → 2 ≤ i
        → i < 8
        → opened w i ≡ true
        → Sets w i false (pos 0) (k.call_close (pos i) m w)
    pub open_missing :
        (name : List ℕ) (w : W) → missing name → Fails w (k.call_open (literal name) m w)
    pub open_directory :
        (i : ℕ) (w : W)
        → 2 ≤ i
        → i < 8
        → ((j : ℕ) → 2 ≤ j → j < i → opened w j ≡ true)
        → opened w i ≡ false
        → Sets w i true (pos i) (k.call_open (literal (codes ".")) m w)
    pub open_full :
        (w : W)
        → ((j : ℕ) → 2 ≤ j → j < 8 → opened w j ≡ true)
        → Fails w (k.call_open (literal (codes ".")) m w)
    pub vidmap_outside :
        (a : ℕ) (w : W) → (a < 0x8000000) ⊎ (0x8400000 ≤ a) → Fails w (k.call_vidmap a m w)
    pub number_unknown :
        (n : ℤ) (w : W) → ((i : ℕ) → 1 ≤ i → i ≤ 10 → n ≢ pos i) → Fails w (k.call_number n m w)
