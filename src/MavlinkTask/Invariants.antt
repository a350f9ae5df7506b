-- ===== src/MavlinkTask/Invariants.antt =====
-- What a predicate has to be kept by for every pass of TaskMavlink to keep it.
use boredom_os.Prelude.{ℕ, zero, suc, refl, Option, none, some, if◌then◌else◌}
use boredom_os.MavlinkTask.{Board, Config, State, Inbound, Command}
use boredom_os.MavlinkTask.Sends.{now_ms}
use boredom_os.MavlinkTask.Schedule.{fire_port, fire_due, wait_time}
use boredom_os.MavlinkTask.Commands.{handle_command}
use boredom_os.MavlinkTask.Handlers.{handle_inbound}
use boredom_os.MavlinkTask.Passes.{
  pass, run_pass, finish_pass, passes, reconcile_clocks, sample_battery, receive_message,
  handle_received, serve_schedule, check_uptime,
}
use boredom_os.MavlinkTask.Frames.{if_lem}
use boredom_os.MavlinkTask.Steps.{
  Stable, handle_inbound-stable, reconcile_clocks-stable, sample_battery-stable,
}

-- Beside what a stable predicate is kept by: the commands, the rows that fire, and the uptime's
-- check.
pub record Invariant (b : Board) (config : Config) (P : State b → Type 0) : Type 0 where
  pub stable : Stable b config P
  pub commands :
      (port now : ℕ) (command : Command) (s : State b)
      → P s
      → P (handle_command b config port now command s)
  pub rows : (port now : ℕ) (s : State b) → P s → P (fire_port b config port now s)
  pub uptime : (s : State b) → P s → P (check_uptime b config s)

module _ (b : Board) (config : Config) (P : State b → Type 0) (kept : Invariant b config P) where
  open b use {clocks, receive}
  open kept use {stable, commands, rows, uptime}

  handle_inbound-kept :
      (now port : ℕ) (incoming : Inbound) (s : State b)
      → P s
      → P (handle_inbound b config now port incoming s)
  unfolding handle_inbound
  handle_inbound-kept now port (Inbound.command_long command) s p = commands port now command s p
  handle_inbound-kept now port incoming s p =
      handle_inbound-stable b config P stable now port incoming s refl p

  handle_received-kept :
      (now : ℕ) (got : Option (ℕ × Inbound)) (s : State b)
      → P s
      → P (handle_received b config now got s)
  unfolding handle_received
  handle_received-kept now none s p = p
  handle_received-kept now (some (port, incoming)) s p = handle_inbound-kept now port incoming s p

  -- Another state of the hardware.
  hardware_kept : (hw : clocks.Hardware) (s : State b) → P s → P (record s { hardware = hw })
  hardware_kept hw s p = stable.clock s s.time hw s.last_reseed_ms s.last_battery_log_ms p

  pub pass-kept : (s : State b) → P s → P (pass b config s)
  unfolding pass run_pass finish_pass receive_message serve_schedule fire_due
  pass-kept s p =
      let (now, hw) = now_ms b config s.hardware in
      let s1 = record s { hardware = hw } in
      let s2 = reconcile_clocks b config now s1 in
      let s3 = sample_battery b config now s2 in
      let waits : P s3 =
        sample_battery-stable b config P stable now s2
          (reconcile_clocks-stable b config P stable now s1 (hardware_kept hw s p)) in
      let (got, hw') = receive (wait_time now s3.schedule) s3.hardware in
      let s4 = handle_received b config now got (record s3 { hardware = hw' }) in
      let heard : P s4 =
        handle_received-kept now got (record s3 { hardware = hw' }) (hardware_kept hw' s3 waits) in
      let (later, hw'') = now_ms b config s4.hardware in
      let s5 = record s4 { hardware = hw'' } in
      let s6 = fire_port b config 0 later s5 in
      let s7 = fire_port b config 1 later s6 in
      let fired : P s7 = rows 1 later s6 (rows 0 later s5 (hardware_kept hw'' s4 heard)) in
      if_lem b config P s.was_reset s (if s4.was_reset then s4 else check_uptime b config s7) p
        (if_lem b config P s4.was_reset s4 (check_uptime b config s7) heard (uptime s7 fired))

  pub passes-kept : (n : ℕ) (s : State b) → P s → P (passes b config n s)
  unfolding passes
  passes-kept zero s p = p
  passes-kept (suc n) s p = passes-kept n (pass b config s) (pass-kept s p)
