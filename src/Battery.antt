-- ===== src/Battery.antt =====
-- lib/Battery: the battery's sense, its cache and its scales.
--
-- The charger's library and `millis` are parameters, in `Sense`. A `float` is MavlinkTask's: its
-- exact value in units of 2 ^ -149; Single has the operations on it, rounded as IEEE 754 rounds
-- them. An `unsigned long` has 32 bits, an `int8_t` is its 8 bits.
pub mod Single
pub mod Rounding
pub mod Ordered
pub mod Scale
pub mod Cache
mod Tests
use boredom_os.Prelude.{ℕ, ◌+◌, ◌*◌, Bool, true, false, u8, sub_u32, ltb, ◌==◌, if◌then◌else◌}
use boredom_os.MavlinkTask.Float.{Float, finite, float_of, float_of_bits, to_u16, to_i32}
use boredom_os.Battery.Single.{minus, over, times, above, below_zero}

-- `millis` and `SolarCharger::readVoltage`.
pub record Sense : Type 1 where
  pub Hardware : Type 0
  pub millis : Hardware → ℕ × Hardware
  pub read_voltage : Hardware → Float × Hardware

pub record Battery : Type 0 where
  pub cached_voltage : Float
  pub last_read : ℕ

-- `Battery()`.
abbrev pub new_battery : Battery
new_battery = record { cached_voltage = finite false 0; last_read = 0 }

-- 3.5f and 4.2f.
abbrev pub empty_voltage : Float
empty_voltage = float_of_bits 0x40600000

abbrev pub full_voltage : Float
full_voltage = float_of_bits 0x40866666

-- `voltage * 1000.0f`, as the integer of `millivolts`.
unfoldable pub to_millivolts : Float → ℕ
to_millivolts v = to_u16 (times v (float_of 1000))

-- `percent`, before it is bounded.
unfoldable pub percent_of : Float → Float
percent_of v =
    times (over (minus v empty_voltage) (minus full_voltage empty_voltage)) (float_of 100)

-- Both bounds.
unfoldable pub bounded : Float → Float
bounded percent =
    let percent = if above percent 100 then float_of 100 else percent in
    if below_zero percent then finite false 0 else percent

-- `(int8_t)percent`.
unfoldable pub to_percent : Float → ℕ
unfolding percent_of bounded
to_percent v = u8 (to_i32 (bounded (percent_of v)))

module _ (s : Sense) where
  open s use {Hardware, millis, read_voltage}

  unfoldable pub voltage : Battery → Hardware → Float × Battery × Hardware
  voltage b hw =
      let (now, hw) = millis hw in
      if ltb 125 (sub_u32 now b.last_read)
      then (let (v, hw) = read_voltage hw in
          (v, record { cached_voltage = v; last_read = now }, hw))
      else (b.cached_voltage, b, hw)

  unfoldable pub millivolts : Battery → Hardware → ℕ × Battery × Hardware
  unfolding voltage to_millivolts
  millivolts b hw = let (v, b, hw) = voltage b hw in (to_millivolts v, b, hw)

  unfoldable pub remaining : Battery → Hardware → ℕ × Battery × Hardware
  unfolding voltage to_percent
  remaining b hw = let (v, b, hw) = voltage b hw in (to_percent v, b, hw)
