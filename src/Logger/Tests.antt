-- ===== src/Logger/Tests.antt =====
-- A board whose tick moves on by a second with each sleep, and the theorem at it.
use boredom_os.Prelude.{ℕ, ◌+◌, ◌≡◌, refl, true, false, some, [], arith, u32}
use boredom_os.SystemTime.{Clocks, SystemTime, Source}
use boredom_os.Logger.{LoggerBoard, State, passes}
use boredom_os.Logger.Samples.{passes_lem}

-- The clock's hardware is the second that it shows.
abbrev still : Clocks
still = record {
  Hardware = ℕ;
  rtc_get_time = λ h. (some h, h);
  rtc_set_time = λ t h. (true, t);
  rtc_set_time_if_not_running = λ t h. h;
  rtc_begin = λ h. h;
  rtc_is_running = λ h. (true, h);
  r64cnt = λ h. (64, h);
  ds1307_begin = λ h. (false, h);
  ds1307_now = λ h. (0, h);
  ds1307_adjust = λ t h. h;
}

abbrev board : LoggerBoard
board = record {
  clocks = still;
  free_heap = λ h. (6000, h);
  high_water = λ handle h. (70000, h);
  sd_send = λ posted h. h;
  tick_count = λ h. (0, h);
  tick_period_ms = 1;
  delay_until = λ last increment h. (u32 (last + increment), h + 1);
}

abbrev time : SystemTime
time = record {
  boot_epoch = 1735689600;
  source = Source.survived;
  ds1307_present = false;
  found_running = true;
}

-- A second before the ticks wrap.
abbrev woken : State board
woken = record { last_wake_time = 4294967000; hardware = 1735689700; posted = [] }

last_wake : (passes board 3 time woken).last_wake_time ≡ 2704
last_wake = (passes_lem board (λ last increment hw. refl) 3 time woken (omega arith) tt).1
