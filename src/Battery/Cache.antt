-- ===== src/Battery/Cache.antt =====
-- The cache of 125 ms: what the first calls after a boot see, and what two calls in a row share.
use boredom_os.Prelude.{◌≤◌, ◌≡◌, refl, false, arith, sub_u32, ltb, ◌∙◌, ap}
use boredom_os.MavlinkTask.Float.{Float, finite, to_u16}
use boredom_os.MavlinkTask.{Board, Config, State}
use boredom_os.MavlinkTask.Sends.{log_battery}
use boredom_os.Battery.{
  Sense, Battery, new_battery, to_millivolts, to_percent, voltage, millivolts, remaining,
}
use boredom_os.Battery.Single.{times, rounded, spare, nearest, as_float}

no_voltage : to_millivolts (finite false 0) ≡ 0
unfolding to_millivolts times rounded spare nearest as_float to_u16
no_voltage = refl

module _ (s : Sense) where
  open s use {Hardware, millis, read_voltage}

  early_millivolts : (hw : Hardware) → (millis hw).0 ≤ 125 → (millivolts s new_battery hw).0 ≡ 0
  unfolding millivolts voltage
  early_millivolts hw h =
      let early : ltb 125 (sub_u32 (millis hw).0 0) ≡ false = ground (arith, h) in
      rw (early) no_voltage

  -- While the clock has not passed 125 ms since the boot, the battery has not been read, and
  -- TaskMavlink posts no battery record for the flight log: not one that says zero.
  pub no_record_yet :
      (b : Board) (config : Config) (st : State b) (hw : Hardware)
      → (millis hw).0 ≤ 125
      → (b.battery_millivolts st.hardware).0 ≡ (millivolts s new_battery hw).0
      → (log_battery b config st).records ≡ st.records
  unfolding log_battery
  no_record_yet b config st hw h same =
      let zero_reading = same ∙ early_millivolts hw h in ground (arith, zero_reading)

  cached_lem :
      (b : Battery) (hw : Hardware) → (voltage s b hw).1.cached_voltage ≡ (voltage s b hw).0
  unfolding voltage
  cached_lem b hw = ground arith

  again :
      (b : Battery) (hw : Hardware)
      → sub_u32 (millis hw).0 b.last_read ≤ 125
      → (voltage s b hw).0 ≡ b.cached_voltage
  unfolding voltage
  again b hw h = ground (arith, h)

  -- The millivolts and the percentage of two calls in a row come from one reading of the voltage,
  -- if the second call is within 125 ms of that reading.
  pub one_reading :
      (b : Battery) (hw : Hardware)
      → sub_u32 (millis (millivolts s b hw).2).0 (millivolts s b hw).1.last_read ≤ 125
      → let (mv, b', hw') = millivolts s b hw in
        (v : Float) × (mv ≡ to_millivolts v) × ((remaining s b' hw').0 ≡ to_percent v)
  unfolding millivolts remaining
  one_reading b hw h =
      let (v, b', hw') = voltage s b hw in
      (v, refl, ap to_percent (again b' hw' h ∙ cached_lem b hw))
