-- ===== src/Rtc/Ticks.antt =====
-- How many interrupts a read waits for.
use operating_system_ece.Common.{
  ℕ, zero, suc, ◌-◌, ◌/◌, ◌≤◌, ◌<◌, ◌≡◌, refl, ◌≢◌, ◌↔◌, ◌⊎◌, true, arith, update, ℤ, pos,
  minus_one, ◌-ℤ◌, Memory, load32,
}
use operating_system_ece.Rtc.{Rtc, rtc_handler, rtc_read_start, rtc_read_waits, rtc_write}

-- `n` interrupts.
unfoldable pub interrupts : ℕ → Rtc → Rtc
interrupts zero r = r
interrupts (suc n) r = interrupts n (rtc_handler r)

rtc_handler-counter :
    (r : Rtc) (t : ℕ) → t < 3 → (rtc_handler r).rtc_counter t ≡ r.rtc_counter t - 1
unfolding rtc_handler
rtc_handler-counter r t h = ground arith

rtc_handler-rates : (r : Rtc) → (rtc_handler r).rtc_rates ≡ r.rtc_rates
unfolding rtc_handler
rtc_handler-rates r = refl

interrupts-counter :
    (n : ℕ) (r : Rtc) (t : ℕ) → t < 3 → (interrupts n r).rtc_counter t ≡ r.rtc_counter t - n
unfolding interrupts
interrupts-counter zero r t h = omega arith
interrupts-counter (suc n) r t h =
    omega (arith, interrupts-counter n (rtc_handler r) t h, rtc_handler-counter r t h)

-- A read of the running terminal, one of the three, waits for exactly 1024 divided by its rate
-- interrupts: its loop goes on after any fewer, and ends after that many.
pub rtc_read-interrupts :
    (n curr_scheduled : ℕ) (r : Rtc)
    → 1 ≤ curr_scheduled
    → curr_scheduled ≤ 3
    → (rtc_read_waits curr_scheduled (interrupts n (rtc_read_start curr_scheduled r)) ≡ true)
      ↔ (n < 1024 / r.rtc_rates (curr_scheduled - 1))
unfolding rtc_read_waits rtc_read_start
rtc_read-interrupts n k r h h' = ground (arith, interrupts-counter n (rtc_read_start k r) (k - 1))

-- `rtc_write` of four bytes accepts exactly the rates from 2 to 1024. It sets the running terminal's
-- rate, and leaves the other terminals' rates and all counters alone.
pub rtc_write-rates :
    (m : Memory) (k buf : ℕ) (r : Rtc)
    → buf ≢ 0
    → load32 m buf < 0x1_0000_0000
    → ((2 ≤ load32 m buf)
        × (load32 m buf ≤ 1024)
        × (rtc_write m k buf (pos 4) r
            ≡ (pos 0, record r { rtc_rates = update r.rtc_rates (k - 1) (load32 m buf) })))
      ⊎ (((load32 m buf < 2) ⊎ (1024 < load32 m buf))
          × (rtc_write m k buf (pos 4) r ≡ (minus_one, r)))
unfolding rtc_write ◌-ℤ◌
rtc_write-rates m k buf r h h' = ground arith

-- Any other length, or no buffer, is refused.
pub rtc_write_refuses :
    (m : Memory) (k buf : ℕ) (nbytes : ℤ) (r : Rtc)
    → (nbytes ≢ pos 4) ⊎ (buf ≡ 0)
    → rtc_write m k buf nbytes r ≡ (minus_one, r)
unfolding rtc_write ◌-ℤ◌
rtc_write_refuses m k buf nbytes r h = ground arith
