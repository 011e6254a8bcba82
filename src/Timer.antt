-- ===== src/Timer.antt =====
-- The timer: kernel/io/timer/timer.cpp and the uptime of kernel/shell/commands/commands.cpp. An
-- interrupt sets `cursor_visible`; what is drawn then is not modelled.
pub mod Sleeping
mod Tests
use esz_os.Base.{
  ℕ, zero, suc, ◌+◌, ◌*◌, ◌/◌, ◌%◌, Bool, true, false, ltb, ◌==◌, not, if◌then◌else◌, u64,
}
use esz_os.Config.{cursor_blink_interval, pit_tick_hz}

pub record Timer : Type 0 where
  ticks : ℕ
  cursor_visible : Bool

unfoldable pub get_ticks_in_ms : Timer → ℕ
get_ticks_in_ms t = u64 (t.ticks * 1000) / pit_tick_hz

unfoldable pub timer_handler : Timer → Timer
unfolding get_ticks_in_ms
timer_handler t =
    let later : Timer = record { ticks = u64 (t.ticks + 1); cursor_visible = t.cursor_visible } in
    if get_ticks_in_ms later % cursor_blink_interval == 0
    then record { ticks = later.ticks; cursor_visible = not (t.cursor_visible) }
    else later

-- The loop with the number of interrupts that may come; each `hlt` ends with one. The answer says
-- whether the loop has ended.
unfoldable pub halt_till_tick : ℕ → ℕ → Timer → Bool × Timer
unfolding timer_handler
halt_till_tick zero target_tick t = (not (ltb (t.ticks) target_tick), t)
halt_till_tick (suc interrupts) target_tick t =
    let rest = halt_till_tick interrupts target_tick (timer_handler t) in
    if ltb (t.ticks) target_tick then rest else (true, t)

unfoldable pub sleep_sec : ℕ → ℕ → Timer → Bool × Timer
unfolding halt_till_tick
sleep_sec interrupts sec t = halt_till_tick interrupts (u64 (t.ticks + u64 (pit_tick_hz * sec))) t

unfoldable pub sleep_ms : ℕ → ℕ → Timer → Bool × Timer
unfolding halt_till_tick
sleep_ms interrupts ms t =
    halt_till_tick interrupts (u64 (t.ticks + u64 (ms * pit_tick_hz) / 1000)) t

pub record Uptime : Type 0 where
  days : ℕ
  hours : ℕ
  minutes : ℕ
  seconds : ℕ
  millis : ℕ

-- The numbers that the command prints.
unfoldable pub get_uptime : Timer → Uptime
unfolding get_ticks_in_ms
get_uptime t =
    let ms = get_ticks_in_ms t in
    let sec = ms / 1000 in
    let min = sec / 60 in
    let hour = min / 60 in
    let days = hour / 24 in
    record {
      days = days;
      hours = hour % 24;
      minutes = min % 60;
      seconds = sec % 60;
      millis = ms % 1000;
    }
