-- ===== src/Rtc.antt =====
-- student-distrib/rtc.c: one hardware clock of 1024 interrupts a second, from which each of the three
-- terminals gets a rate of its own by counting interrupts down.
pub mod Ticks
use operating_system_ece.Common.{
  ℕ, zero, suc, ◌+◌, ◌-◌, ◌*◌, ◌/◌, ◌%◌, Bool, true, false, not, ◌||◌, List, ◌∷◌, ltb, ◌==◌,
  if◌then◌else◌, update, ℤ, pos, minus_one, ltb_ℤ, pos_part, i32, is_zero, ◌-ℤ◌, Memory, load32,
  bit_or, bit_and,
}

-- `rtc_rates` and `rtc_counter`, by the terminal's index from 0. Both start at 1 and are never negative.
pub record Rtc : Type 0 where
  pub rtc_active : Bool
  pub rtc_rates : ℕ → ℕ
  pub rtc_counter : ℕ → ℕ

abbrev pub initial_rtc : Rtc
initial_rtc = record { rtc_active = false; rtc_rates = λ t. 1; rtc_counter = λ t. 1 }

-- `counter--; if (counter < 0) counter = 0;`
abbrev pub count_down : ℕ → ℕ
count_down c = if c == 0 then 0 else c - 1

-- What `rtc_handler` does to the three counters.
unfoldable pub rtc_handler : Rtc → Rtc
rtc_handler r =
    let c0 = update r.rtc_counter 0 (count_down (r.rtc_counter 0)) in
    let c1 = update c0 1 (count_down (c0 1)) in
    record r { rtc_counter = update c1 2 (count_down (c1 2)) }

-- `rtc_open` with the two bytes that it reads back from register A: the writes, latest first, and
-- none at all after the first time.
unfoldable pub rtc_open : ℕ → ℕ → List (ℕ × ℕ) → Rtc → List (ℕ × ℕ) × Rtc
rtc_open first second ports r = if r.rtc_active then (ports, r) else (
  (bit_or 0x06 (bit_and second 0xF0), 0x71)
      ∷ (0x8A, 0x70)
      ∷ (0x8A, 0x70)
      ∷ (bit_or 0x0E (bit_and first 0xF0), 0x71)
      ∷ (0x8A, 0x70)
      ∷ (0x8A, 0x70)
      ∷ ports,
  record r { rtc_active = true },
)

abbrev pub rtc_close : ℤ
rtc_close = pos 0

-- `rtc_read` for the running terminal: what it sets, and the test of its waiting loop.
unfoldable pub rtc_read_start : ℕ → Rtc → Rtc
rtc_read_start curr_scheduled r =
    let t = curr_scheduled - 1 in
    record r { rtc_counter = update r.rtc_counter t (1024 / r.rtc_rates t) }

unfoldable pub rtc_read_waits : ℕ → Rtc → Bool
rtc_read_waits curr_scheduled r = ltb 0 (r.rtc_counter (curr_scheduled - 1))

-- `rtc_write`: the rate is a signed word of the caller's memory.
unfoldable pub rtc_write : Memory → ℕ → ℕ → ℤ → Rtc → ℤ × Rtc
rtc_write m curr_scheduled buf nbytes r =
    let freq = i32 (load32 m buf) in
    if not (is_zero (nbytes -ℤ pos 4)) || (buf == 0)
    then (minus_one, r)
    else if ltb_ℤ (pos 1024) freq || ltb_ℤ freq (pos 2)
    then (minus_one, r)
    else (pos 0, record r { rtc_rates = update r.rtc_rates (curr_scheduled - 1) (pos_part freq) })
