-- ===== src/Timer/Tests.antt =====
-- An example for the timer: 35 milliseconds.
use esz_os.Base.{◌+◌, ◌-◌, ◌/◌, ◌%◌, ◌≡◌, arith, true, false}
use esz_os.Timer.{Timer, sleep_ms, get_ticks_in_ms}
use esz_os.Timer.Sleeping.{sleep_ms-HasSlept}

abbrev started : Timer
started = record { ticks = 39; cursor_visible = false }

sleep_ms-HasSlept_example :
    ((sleep_ms (35 / 10) 35 started).0 ≡ true)
    × (get_ticks_in_ms ((sleep_ms (35 / 10) 35 started).1)
        ≡ get_ticks_in_ms started + (35 - 35 % 10))
sleep_ms-HasSlept_example = sleep_ms-HasSlept 35 started (omega arith)
