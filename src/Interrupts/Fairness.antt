-- ===== src/Interrupts/Fairness.antt =====
-- Which terminal runs after a sequence of interrupts.
use operating_system_ece.Common.{
  ℕ, zero, suc, ◌+◌, ◌-◌, ◌%◌, ◌≤◌, ◌<◌, ◌≡◌, refl, subst, ap, ◌∙◌, arith, some, List, [], ◌∷◌,
  ◌++◌,
}
use operating_system_ece.Keyboard.Invariant.{IsValid, keyboard_handler-IsValid}
use operating_system_ece.Scheduler.{Scheduler, pit_handler, returns}
use operating_system_ece.Scheduler.Rotation.{pit_handler-Rotated}
use operating_system_ece.Interrupts.{
  Devices, Event, timer, clock, key, rtc_interrupt, keyboard_interrupt, after_tick, interrupt,
  interrupt_each,
}
use operating_system_ece.Interrupts.Turns.{
  running, KeptAfter, keyboard_handler-RunsAs, pit_handler-KeptAfter,
}

-- How many of the interrupts are the timer's.
unfoldable pub timers : List Event → ℕ
timers [] = 0
timers (timer ∷ es) = 1 + timers es
timers (clock ∷ es) = timers es
timers (key c ∷ es) = timers es

-- The terminal `n` turns after `t`, from 1 to 3.
abbrev pub turn : ℕ → ℕ → ℕ
turn t n = (t + n + 2) % 3 + 1

turn_zero : (t : ℕ) → 1 ≤ t → t ≤ 3 → t ≡ turn t 0
turn_zero t h h' = omega arith

turn_next : (t n : ℕ) → turn (t % 3 + 1) n ≡ turn t (1 + n)
turn_next t n = omega arith

interrupts-timer :
    (es : List Event) (s s' : Devices) (t : Scheduler)
    → pit_handler s.scheduler ≡ returns t
    → interrupt_each es (record s { scheduler = t }) ≡ some s'
    → interrupt_each (timer ∷ es) s ≡ some s'
unfolding interrupt_each interrupt
interrupts-timer es s s' t runs done =
    let step : interrupt timer s ≡ some (record s { scheduler = t }) = ap (after_tick s) runs in
    rw step done

-- Once the three shells run, from a valid state, any sequence of timer, clock and key interrupts is handled
-- to its end, the state stays valid, and the process that runs is that of the terminal as many turns on as
-- the timer has interrupted: keys, switches of the screen and the clock change nothing about it.
pub interrupts-turn :
    (es : List Event) (s : Devices)
    → IsValid s.scheduler.keyboard
    → 3 < s.scheduler.total_terminal
    → (s' : Devices) × (interrupt_each es s ≡ some s')
      × (running s' ≡ turn (running s) (timers es))
      × IsValid s'.scheduler.keyboard
unfolding interrupt_each interrupt timers rtc_interrupt keyboard_interrupt
interrupts-turn [] s v total =
    let (low, high) = v.screen.scheduled in (s, refl, turn_zero (running s) low high, v)
interrupts-turn (timer ∷ es) s v total =
    let (t, runs, r) = pit_handler-Rotated s.scheduler total in
    let (v1, total1) = subst KeptAfter runs (pit_handler-KeptAfter s.scheduler (v, total)) in
    let s1 : Devices = record s { scheduler = t } in
    let (s', done, at, v') = interrupts-turn es s1 v1 total1 in
    (
      s',
      interrupts-timer es s s' t runs done,
      at ∙ ap (λ (n : ℕ). turn n (timers es)) r.next ∙ turn_next (running s) (timers es),
      v',
    )
interrupts-turn (clock ∷ es) s v total =
    let v1 : IsValid (rtc_interrupt s).scheduler.keyboard = record {
      screen = record {
        column = v.screen.column;
        row = v.screen.row;
        shown = v.screen.shown;
        scheduled = v.screen.scheduled;
      };
      index = v.index;
      saved = v.saved;
      pending = v.pending;
    } in
    interrupts-turn es (rtc_interrupt s) v1 total
interrupts-turn (key c ∷ es) s v total =
    let k = s.scheduler.keyboard in
    let s1 : Devices = keyboard_interrupt c s in
    let (s', done, at, v') = interrupts-turn es s1 (keyboard_handler-IsValid c k v) total in
    (s', done, at ∙ ap (λ (n : ℕ). turn n (timers es)) (keyboard_handler-RunsAs c k), v')

-- The interrupts up to the timer's `n`-th.
timers_split :
    (es : List Event) (n : ℕ)
    → n ≤ timers es
    → (before : List Event) × (after : List Event) × (es ≡ before ++ after) × (timers before ≡ n)
unfolding timers
timers_split es zero h = ([], es, refl, refl)
timers_split [] (suc n) h = absurd (omega arith)
timers_split (timer ∷ es) (suc n) h =
    let (before, after, e, count) = timers_split es n (omega arith) in
    (timer ∷ before, after, ap (λ (xs : List Event). timer ∷ xs) e, omega (arith, count))
timers_split (clock ∷ es) (suc n) h =
    let (before, after, e, count) = timers_split es (suc n) h in
    (clock ∷ before, after, ap (λ (xs : List Event). clock ∷ xs) e, count)
timers_split (key c ∷ es) (suc n) h =
    let (before, after, e, count) = timers_split es (suc n) h in
    (key c ∷ before, after, ap (λ (xs : List Event). key c ∷ xs) e, count)

-- Once the three shells run, from a valid state, each terminal's process gets the processor within any
-- interrupts of which two are the timer's: it runs after some part of them.
pub every_terminal_runs :
    (es : List Event) (s : Devices) (t : ℕ)
    → IsValid s.scheduler.keyboard
    → 3 < s.scheduler.total_terminal
    → 2 ≤ timers es
    → (1 ≤ t) × (t ≤ 3)
    → (before : List Event) × (after : List Event) × (s' : Devices) × (es ≡ before ++ after)
      × (interrupt_each before s ≡ some s')
      × (running s' ≡ t)
every_terminal_runs es s t v total many (low, high) =
    let (r_low, r_high) = v.screen.scheduled in
    let n : ℕ = (t + 3 - running s) % 3 in
    let (before, after, e, count) = timers_split es n (omega arith) in
    let (s', done, at, _) = interrupts-turn before s v total in
    let arrives : turn (running s) n ≡ t = omega arith in
    (before, after, s', e, done, at ∙ ap (λ (i : ℕ). turn (running s) i) count ∙ arrives)
