-- ===== src/Timer/Sleeping.antt =====
-- How long sleeping takes: halt_till_tick and sleep_ms of kernel/io/timer/timer.cpp.
use esz_os.Base.{
  ℕ, zero, suc, ◌+◌, ◌-◌, ◌*◌, ◌/◌, ◌%◌, ◌^◌, ◌<◌, ◌≡◌, ap, sym, subst, arith, Bool, true, not,
  if◌then◌else◌, lt→ltb, le→ltb,
}
use esz_os.Timer.{Timer, timer_handler, halt_till_tick, sleep_ms, get_ticks_in_ms}

ticks-timer_handler : (t : Timer) → t.ticks + 1 < 2 ^ 64 → (timer_handler t).ticks ≡ t.ticks + 1
unfolding timer_handler
ticks-timer_handler t short = ground arith

abbrev HasEndedAt : Bool × Timer → ℕ → Type 0
HasEndedAt r target_tick = (r.0 ≡ true) × (r.1.ticks ≡ target_tick)

halt_till_tick-HasEndedAt :
    (interrupts target_tick : ℕ) (t : Timer)
    → t.ticks + interrupts ≡ target_tick
    → target_tick < 2 ^ 64
    → HasEndedAt (halt_till_tick interrupts target_tick t) target_tick
unfolding halt_till_tick
halt_till_tick-HasEndedAt zero target_tick t same short =
    (ap not (le→ltb (t.ticks) target_tick (omega (arith, same))), omega (arith, same))
halt_till_tick-HasEndedAt (suc k) target_tick t same short =
    let step = ticks-timer_handler t (omega (arith, same, short)) in
    subst
      (λ b.
        HasEndedAt (if b then halt_till_tick k target_tick (timer_handler t) else (true, t))
          target_tick)
      (sym (lt→ltb (t.ticks) target_tick (omega (arith, same))))
      (halt_till_tick-HasEndedAt k target_tick (timer_handler t) (omega (arith, step, same)) short)

-- Sleeping ends with the interrupt that its time asks for, and the clock is then later by that time
-- rounded down to ten milliseconds. The clock must not wrap around.
pub sleep_ms-HasSlept :
    (ms : ℕ) (t : Timer)
    → (t.ticks + ms) * 1000 < 2 ^ 64
    → ((sleep_ms (ms / 10) ms t).0 ≡ true)
      × (get_ticks_in_ms ((sleep_ms (ms / 10) ms t).1) ≡ get_ticks_in_ms t + (ms - ms % 10))
unfolding sleep_ms get_ticks_in_ms
sleep_ms-HasSlept ms t short =
    let target : (t.ticks + ((ms * 100) % 2 ^ 64) / 1000) % 2 ^ 64 ≡ t.ticks + ms / 10 =
      omega (arith, short) in
    let (ended, at) =
      halt_till_tick-HasEndedAt (ms / 10) ((t.ticks + ((ms * 100) % 2 ^ 64) / 1000) % 2 ^ 64) t
        (sym target) (omega arith) in
    (ended, omega (arith, at, target, short))
