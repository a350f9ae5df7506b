-- ===== src/SystemTime/Tests.antt =====
-- A clock that stands still, and the theorems at it.
use boredom_os.Prelude.{
  ℕ, ◌+◌, ◌-◌, ◌*◌, ◌≡◌, refl, Bool, true, false, Option, some, arith, if◌then◌else◌,
}
use boredom_os.SystemTime.{
  Clocks, Source, ds1307, SystemTime, is_plausible, get_unix_time, get_unix_time_usec,
  usec_attempts, read_seconds, since_boot_usec, set_unix_time, repeat_time, move_time,
}
use boredom_os.SystemTime.Setting.{
  set_unix_time_lem, set_unix_time_elapsed, set_unix_time_failed_read,
}
use boredom_os.SystemTime.Reading.{since_boot_usec_lem}

-- Two clocks that hold a second each and do not run; `works` is whether the first can be read.
record Still : Type 0 where
  internal : ℕ
  external : ℕ
  works : Bool

abbrev still : Clocks
still = record {
  Hardware = Still;
  rtc_get_time = λ h. (if h.works then some h.internal else Option.none, h);
  rtc_set_time = λ t h. (true, record h { internal = t });
  rtc_set_time_if_not_running = λ t h. h;
  rtc_begin = λ h. h;
  rtc_is_running = λ h. (true, h);
  r64cnt = λ h. (64, h);
  ds1307_begin = λ h. (true, h);
  ds1307_now = λ h. (h.external, h);
  ds1307_adjust = λ t h. record h { external = t };
}

-- 2025-01-01, ten minutes after a boot; the DS1307 is five seconds behind.
abbrev clocks : Still
clocks = record { internal = 1735690200; external = 1735690195; works = true }

abbrev running : SystemTime
running = record {
  boot_epoch = 1735689600;
  source = ds1307;
  ds1307_present = true;
  found_running = true;
}

half_second : (get_unix_time_usec still clocks).0 ≡ 1735690200500000
unfolding get_unix_time_usec usec_attempts read_seconds
half_second = refl

moved : (set_unix_time still 1735686600 Source.ground running clocks).clock_moved ≡ true
unfolding set_unix_time is_plausible get_unix_time read_seconds repeat_time move_time
moved = refl

accepted : (set_unix_time still 1735686600 Source.ground running clocks).accepted ≡ true
unfolding set_unix_time is_plausible get_unix_time read_seconds repeat_time move_time
accepted = refl

-- The clock goes back by an hour: ten minutes since boot stay ten minutes.
set_unix_time_elapsed_example :
    1735686600 + 0 - (set_unix_time still 1735686600 Source.ground running clocks).time.boot_epoch
    ≡ 1735690200 + 0 - 1735689600
unfolding get_unix_time read_seconds
set_unix_time_elapsed_example =
    set_unix_time_elapsed still 1735686600 Source.ground running clocks (omega arith) (omega arith)
      (omega arith) moved 0

set_unix_time_lem_example :
    (set_unix_time still 1735686600 Source.ground running clocks).time.source ≡ (
      if (set_unix_time still 1735686600 Source.ground running clocks).accepted
      then Source.ground
      else ds1307)
set_unix_time_lem_example = (set_unix_time_lem still 1735686600 Source.ground running clocks).2

-- The same board with a clock that cannot be read.
abbrev unreadable : Still
unreadable = record clocks { works = false }

moved_unread : (set_unix_time still 1735690200 Source.ground running unreadable).clock_moved ≡ true
unfolding set_unix_time is_plausible get_unix_time read_seconds repeat_time move_time
moved_unread = refl

set_unix_time_failed_read_example :
    (set_unix_time still 1735690200 Source.ground running unreadable).time.boot_epoch
    ≡ 1735689600 + 1735690200
set_unix_time_failed_read_example =
    (set_unix_time_failed_read still 1735690200 Source.ground running unreadable refl moved_unread
      (omega arith)).0

since_boot_usec_lem_example :
    (since_boot_usec still running clocks).0
    ≡ (get_unix_time_usec still clocks).0 - 1735689600 * 1000000
since_boot_usec_lem_example = since_boot_usec_lem still running clocks (omega arith)
