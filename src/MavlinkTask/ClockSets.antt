-- ===== src/MavlinkTask/ClockSets.antt =====
-- What TaskMavlink says and records of a SYSTEM_TIME from the ground.
use boredom_os.Prelude.{
  ℕ, ◌+◌, ◌/◌, ◌≡◌, true, not, ◌&&◌, ◌||◌, ◌∷◌, arith, ◌==◌, sym, if◌then◌else◌, length,
}
use boredom_os.SystemTime.{
  Source, source_to_byte, set_unix_time, usec_per_sec, get_unix_time, is_plausible,
}
use boredom_os.MavlinkTask.{
  status_text, info, Board, Config, has_sd_write, State, enqueue_intent, post_record,
}
use boredom_os.MavlinkTask.Sends.{
  send_clock_status_text, send_status_text, clock_statement, log_clock,
}
use boredom_os.MavlinkTask.Handlers.{handle_system_time, report_clock}
use boredom_os.SystemTime.Setting.{set_unix_time_repeat}
use boredom_os.Dataflash.{chars}

module _ (b : Board) (config : Config) where
  open b use {clocks}

  -- A time from the ground, on every branch of its setting: a text goes to both ports exactly if
  -- the time was accepted and its source differs from the one before; a record is posted exactly if
  -- it was accepted, there is a task to write it, and the clock moved or the source changed. A
  -- refused one says nothing.
  pub handle_system_time_lem :
      (time_unix_usec : ℕ) (s : State b)
      → let o =
          set_unix_time clocks (time_unix_usec / usec_per_sec) Source.ground s.time s.hardware in
        let after = handle_system_time b config time_unix_usec s in
        let changed =
          o.accepted && not (source_to_byte o.time.source == source_to_byte s.time.source) in
        let text = status_text info (chars 50 (clock_statement o.time)) in
        (after.time ≡ o.time)
        × (after.offered ≡ (if changed then (1, text) ∷ (0, text) ∷ s.offered else s.offered))
        × (length after.records
            ≡ length s.records
              + (if has_sd_write config && (o.accepted && (o.clock_moved || changed))
                  then 1
                  else 0))
  unfolding handle_system_time report_clock log_clock send_clock_status_text send_status_text
      enqueue_intent post_record
  handle_system_time_lem time_unix_usec s = (ground arith, ground arith, ground arith)

  -- A ground station that repeats, under its own time, the second that the clock shows: nothing is
  -- offered, nothing is recorded and the clock is only read, so a time every second floods neither
  -- the ports nor the log.
  pub handle_system_time_repeat :
      (time_unix_usec : ℕ) (s : State b)
      → is_plausible (time_unix_usec / usec_per_sec) ≡ true
      → s.time.source ≡ Source.ground
      → (get_unix_time clocks s.hardware).0 ≡ time_unix_usec / usec_per_sec
      → let after = handle_system_time b config time_unix_usec s in
        (after.offered ≡ s.offered)
        × (after.records ≡ s.records)
        × (after.time ≡ s.time)
        × (after.hardware ≡ (get_unix_time clocks s.hardware).1)
  unfolding handle_system_time report_clock
  handle_system_time_repeat time_unix_usec s p g h =
      let (accepted, still, same, hw) =
        set_unix_time_repeat clocks (time_unix_usec / usec_per_sec) Source.ground s.time s.hardware
          p (sym g) h in
      (ground arith, ground arith, ground arith, ground arith)
