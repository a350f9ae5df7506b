-- ===== src/SystemTime.antt =====
-- lib/SystemTime: where the board's time comes from, and how it is set and read.
--
-- The internal RTC, its R64CNT counter and the DS1307 are not this repository's code: `Clocks` has
-- their calls, each of which may change the hardware, since time passes between two of them. A
-- `time_t` is a natural number: every value that reaches these functions comes from an unsigned
-- division, from the DS1307's `uint32_t` or from the RTC's date. Suspending the scheduler around the
-- write of the clock and the epoch makes that pair one step, as it is here.
pub mod Setting
pub mod Reading
pub mod Startup
mod Tests
use boredom_os.Prelude.{
  ℕ, zero, suc, ◌+◌, ◌-◌, ◌*◌, ◌/◌, ◌%◌, ◌^◌, ◌≤◌, ◌<◌, min, ◌≡◌, ◌≢◌, ◌↔◌, refl, Bool, true, false,
  not, ◌&&◌, ◌||◌, Option, some, List, [], ◌∷◌, ◌++◌, map, arith, u8, u16, u32, u64, sub_u32,
  uint16_max, uint32_max, ◌==◌, ltb, leb, ◌∙◌, sym, ap, subst, fun_ext, ◌⊎◌, inl, inr,
  if◌then◌else◌, Bool-cases, Option-cases, ==_iff, ltb→lt, lt→ltb, leb→le, le→leb, length,
  get_elem?, get_or, take, drop, replicate, length-append, length-take, length-drop,
  length-replicate, All,
}

-- The calls of the RTC and RTClib libraries, on a state of the hardware.
pub record Clocks : Type 1 where
  pub Hardware : Type 0
  -- `RTC.getTime`, then `getUnixTime`: none if the reading failed.
  pub rtc_get_time : Hardware → Option ℕ × Hardware
  pub rtc_set_time : ℕ → Hardware → Bool × Hardware
  pub rtc_set_time_if_not_running : ℕ → Hardware → Hardware
  pub rtc_begin : Hardware → Hardware
  pub rtc_is_running : Hardware → Bool × Hardware
  pub r64cnt : Hardware → ℕ × Hardware
  pub ds1307_begin : Hardware → Bool × Hardware
  -- `now().unixtime()`.
  pub ds1307_now : Hardware → ℕ × Hardware
  pub ds1307_adjust : ℕ → Hardware → Hardware

abbrev pub oldest_acceptable : ℕ
oldest_acceptable = 1640995200

abbrev pub usec_per_sec : ℕ
usec_per_sec = 1000000

-- R64CNT & 0x7F, and the microseconds of a count.
abbrev pub r64cnt_fraction : ℕ → ℕ
r64cnt_fraction counter = counter % 128

abbrev pub fraction_usec : ℕ → ℕ
fraction_usec fraction = u32 (fraction * 15625) / 2

pub data Source : Type 0 where
  ground ds1307 survived none : Source

abbrev pub source_to_byte : Source → ℕ
source_to_byte ground = 0
source_to_byte ds1307 = 1
source_to_byte survived = 2
source_to_byte none = 3

abbrev pub is_ds1307 : Source → Bool
is_ds1307 from = source_to_byte from == 1

pub record SystemTime : Type 0 where
  pub boot_epoch : ℕ
  pub source : Source
  pub ds1307_present : Bool
  pub found_running : Bool

-- `SystemTime()`.
pub initial : SystemTime
initial = record { boot_epoch = 0; source = none; ds1307_present = false; found_running = false }

pub is_plausible : ℕ → Bool
is_plausible unix_time = leb oldest_acceptable unix_time && leb unix_time uint32_max

module _ (c : Clocks) where
  open c use {
    Hardware, rtc_get_time, rtc_set_time, rtc_set_time_if_not_running, rtc_begin, rtc_is_running,
    r64cnt, ds1307_begin, ds1307_now, ds1307_adjust,
  }

  -- `readSeconds` returns the reading, or none where it returns false.
  pub read_seconds : Hardware → Option ℕ × Hardware
  read_seconds hw = rtc_get_time hw

  pub get_unix_time : Hardware → ℕ × Hardware
  unfolding read_seconds
  get_unix_time hw =
      let (seconds, hw) = read_seconds hw in (elim seconds [ Option.none ↦ 0 | some s ↦ s ], hw)

  -- The attempts left of `getUnixTimeUsec`; without one, whole seconds.
  pub usec_attempts : ℕ → Hardware → ℕ × Hardware
  usec_attempts zero hw = let (s, hw) = get_unix_time hw in (u64 (s * usec_per_sec), hw)
  usec_attempts (suc attempts) hw =
      let (before, hw) = read_seconds hw in
      elim before [
        | Option.none ↦ (0, hw)
        | some before ↦
            let (counter, hw) = r64cnt hw in
            let fraction = r64cnt_fraction counter in
            let (after, hw) = read_seconds hw in
            elim after [
              | Option.none ↦ (0, hw)
              | some after ↦
                  let again = usec_attempts attempts hw in
                  if before == after
                  then (u64 (before * usec_per_sec + fraction_usec fraction), hw)
                  else again
            ]
      ]

  pub get_unix_time_usec : Hardware → ℕ × Hardware
  get_unix_time_usec hw = usec_attempts 4 hw

  pub since_boot_usec : SystemTime → Hardware → ℕ × Hardware
  since_boot_usec t hw =
      let (now, hw) = get_unix_time_usec hw in
      let base = u64 (t.boot_epoch * usec_per_sec) in (if ltb base now then now - base else 0, hw)

  -- `(int64_t)(usec * 1000ULL)`, as its 64 bits.
  pub get_unix_time_nsec : Hardware → ℕ × Hardware
  get_unix_time_nsec hw = let (usec, hw) = get_unix_time_usec hw in (u64 (usec * 1000), hw)

  pub since_boot_nsec : SystemTime → Hardware → ℕ × Hardware
  since_boot_nsec t hw = let (usec, hw) = since_boot_usec t hw in (u64 (usec * 1000), hw)

  -- `_ds1307Present && from != Source::Ds1307 && _ds1307.now().unixtime() != unix_time`, which reads
  -- the DS1307 only where the first tests pass, and then `_ds1307.adjust`.
  pub correct_ds1307 : Bool → ℕ → Hardware → Hardware
  correct_ds1307 wanted unix_time hw = elim wanted [
    | false ↦ hw
    | true ↦
        let (held, hw) = ds1307_now hw in
        if held == unix_time then hw else ds1307_adjust (u32 unix_time) hw
  ]

  -- What a call of `setUnixTime` returns and leaves behind.
  pub record Outcome : Type 0 where
    pub accepted : Bool
    pub clock_moved : Bool
    pub time : SystemTime
    pub hardware : Hardware

  -- The second already held: the source is still promoted, and a promotion reaches the DS1307.
  pub repeat_time : ℕ → Source → SystemTime → Hardware → Outcome
  unfolding correct_ds1307
  repeat_time unix_time from t hw =
      let promoting = not (source_to_byte from == source_to_byte t.source) in
      let t = record t { source = from } in
      record {
        accepted = true;
        clock_moved = false;
        time = t;
        hardware =
            correct_ds1307 (promoting && t.ds1307_present && not (is_ds1307 from)) unix_time hw;
      }

  -- Another second: the clock and the epoch move together, then the DS1307 is corrected.
  -- `_bootEpoch + (unix_time - previous)` in 64 signed bits, cut to 32.
  pub move_time : ℕ → ℕ → Source → SystemTime → Hardware → Outcome
  unfolding correct_ds1307
  move_time previous unix_time from t hw =
      let (clock_written, hw) = rtc_set_time unix_time hw in
      if not clock_written
      then record { accepted = false; clock_moved = false; time = t; hardware = hw }
      else let t = record t { boot_epoch = u32 (t.boot_epoch + unix_time + 2 ^ 64 - previous) } in
        let hw = correct_ds1307 (t.ds1307_present && not (is_ds1307 from)) unix_time hw in
        record {
          accepted = true;
          clock_moved = true;
          time = record t { source = from };
          hardware = hw;
        }

  pub set_unix_time : ℕ → Source → SystemTime → Hardware → Outcome
  set_unix_time unix_time from t hw =
      if not (is_plausible unix_time)
      then record { accepted = false; clock_moved = false; time = t; hardware = hw }
      else if ltb (source_to_byte t.source) (source_to_byte from)
      then record { accepted = false; clock_moved = false; time = t; hardware = hw }
      else let (previous, hw) = get_unix_time hw in
        if previous == unix_time
        then repeat_time unix_time from t hw
        else move_time previous unix_time from t hw

  pub reseed_from_ds1307 : SystemTime → Hardware → Outcome
  reseed_from_ds1307 t hw =
      if not t.ds1307_present
      then record { accepted = false; clock_moved = false; time = t; hardware = hw }
      else let (held, hw) = ds1307_now hw in set_unix_time held ds1307 t hw

  -- Whether the DS1307 was written, and the hardware.
  pub push_to_ds1307 : SystemTime → Hardware → Bool × Hardware
  push_to_ds1307 t hw =
      if not t.ds1307_present
      then (false, hw)
      else let (internal, hw) = get_unix_time hw in
        if not (is_plausible internal)
        then (false, hw)
        else let (held, hw) = ds1307_now hw in
          if held == internal then (false, hw) else (true, ds1307_adjust (u32 internal) hw)

  -- `begin`: the return value, the object and the hardware. The calls that `&&` and `if` skip are
  -- not made.
  pub found_clock : Hardware → Bool × Hardware
  found_clock hw =
      let (running, hw) = rtc_is_running hw in
      elim running [
        | false ↦ (false, hw)
        | true ↦ let (reading, hw) = get_unix_time hw in (is_plausible reading, hw)
      ]

  pub seed_from_ds1307 : Bool → Hardware → Bool × Hardware
  seed_from_ds1307 present hw = elim present [
    | false ↦ (false, hw)
    | true ↦
        let (from_ds1307, hw) = ds1307_now hw in
        if is_plausible from_ds1307 then rtc_set_time from_ds1307 hw else (false, hw)
  ]

  pub begin : Hardware → Bool × SystemTime × Hardware
  unfolding found_clock seed_from_ds1307
  begin hw =
      let (present, hw) = ds1307_begin hw in
      let hw = rtc_begin hw in
      let (found, hw) = found_clock hw in
      let (seeded, hw) = seed_from_ds1307 present hw in
      let source : Source = if seeded then ds1307 else if found then survived else none in
      let hw : Hardware = if seeded || found then hw else rtc_set_time_if_not_running 0 hw in
      let (epoch, hw) = get_unix_time hw in
      (
        not (source_to_byte source == 3),
        record {
          boot_epoch = u32 epoch;
          source = source;
          ds1307_present = present;
          found_running = found;
        },
        hw,
      )
