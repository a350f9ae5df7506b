-- ===== src/MavlinkTask/Passes.antt =====
-- src/mavlink.cpp, TaskMavlink's start and a pass of its loop.
--
-- A call of NVIC_SystemReset ends the pass, and there is none after it.
use boredom_os.Prelude.{
  ℕ, zero, suc, ◌+◌, ◌*◌, Bool, true, false, not, ◌&&◌, ◌||◌, Option, none, some, [], u32, sub_u32,
  ◌==◌, leb, if◌then◌else◌,
}
use boredom_os.Recovery.{System, DeliberateReset, set_consecutive_count, set_deliberate_reset}
use boredom_os.SystemTime.{SystemTime, source_to_byte, reseed_from_ds1307, push_to_ds1307}
use boredom_os.MavlinkTask.{Inbound, Board, Config, State}
use boredom_os.MavlinkTask.Sends.{
  now_ms, send_boot_status_text, send_clock_status_text, log_battery, log_clock,
}
use boredom_os.MavlinkTask.Schedule.{initial_rows, wait_time, fire_due}
use boredom_os.MavlinkTask.Handlers.{handle_inbound}

abbrev pub stability_window_ms : ℕ
stability_window_ms = 5 * 60 * 1000

abbrev pub retry_interval_ms : ℕ
retry_interval_ms = 30 * 60 * 1000

abbrev pub clock_reseed_interval_ms : ℕ
clock_reseed_interval_ms = 6 * 60 * 60 * 1000

abbrev pub battery_log_interval_ms : ℕ
battery_log_interval_ms = 2000

module _ (b : Board) (config : Config) where
  open b use {clocks, tick_count, tick_period_ms, receive}

  -- The state at the start, with what setup() and the earlier code left.
  abbrev pub initial_state : SystemTime → System → clocks.Hardware → State b
  initial_state time block hw = record {
    time = time;
    hardware = hw;
    block = block;
    write_drop_count = record { uart = 0; usb = 0 };
    housekeeping_cursor = record { uart = 0; usb = 0 };
    schedule = record { uart = []; usb = [] };
    boot_tick = 0;
    last_reseed_ms = 0;
    last_battery_log_ms = 0;
    stability_cleared = false;
    retry_attempted = false;
    was_reset = false;
    offered = [];
    records = [];
  }

  -- What comes before the loop.
  unfoldable pub start_task : State b → State b
  unfolding initial_rows
  start_task s =
      let s = send_clock_status_text b config (send_boot_status_text b config s) in
      let (boot_tick, hw) = tick_count s.hardware in
      let start_ms = u32 (boot_tick * tick_period_ms) in
      let rows = initial_rows config.reduced_configuration start_ms in
      record s {
        hardware = hw;
        boot_tick = boot_tick;
        schedule = record { uart = rows; usb = rows };
        last_reseed_ms = start_ms;
        last_battery_log_ms = sub_u32 start_ms battery_log_interval_ms;
      }

  -- Whether the clocks were reconciled, whether the internal one moved, and the state.
  unfoldable pub reconcile : State b → Bool × Bool × State b
  reconcile s =
      if source_to_byte s.time.source == 0
      then (let (pushed, hw) = push_to_ds1307 clocks s.time s.hardware in
          (pushed, false, record s { hardware = hw }))
      else let o = reseed_from_ds1307 clocks s.time s.hardware in
        (o.accepted, o.clock_moved, record s { time = o.time; hardware = o.hardware })

  unfoldable pub reconcile_clocks : ℕ → State b → State b
  unfolding reconcile
  reconcile_clocks now s =
      if not (leb clock_reseed_interval_ms (sub_u32 now s.last_reseed_ms))
      then s
      else let before = s.time.source in
        let s = record s { last_reseed_ms = u32 (s.last_reseed_ms + clock_reseed_interval_ms) } in
        let (reconciled, moved, s) = reconcile s in
        let changed = reconciled && not (source_to_byte s.time.source == source_to_byte before) in
        let s = if changed then send_clock_status_text b config s else s in
        if moved || changed then log_clock b config s else s

  unfoldable pub sample_battery : ℕ → State b → State b
  sample_battery now s =
      if not config.reduced_configuration
        && leb battery_log_interval_ms (sub_u32 now s.last_battery_log_ms)
      then log_battery b config
          (record s { last_battery_log_ms = u32 (s.last_battery_log_ms + battery_log_interval_ms) })
      else s

  unfoldable pub handle_received : ℕ → Option (ℕ × Inbound) → State b → State b
  unfolding handle_inbound
  handle_received now none s = s
  handle_received now (some (port, incoming)) s = handle_inbound b config now port incoming s

  -- The wait, and the message that ended it, if one did.
  unfoldable pub receive_message : ℕ → State b → State b
  unfolding wait_time handle_received
  receive_message now s =
      let (got, hw) = receive (wait_time now s.schedule) s.hardware in
      handle_received now got (record s { hardware = hw })

  unfoldable pub serve_schedule : State b → State b
  unfolding now_ms fire_due
  serve_schedule s =
      let (now, hw) = now_ms b config s.hardware in
      fire_due b config now (record s { hardware = hw })

  -- The boot is stable; the retry of the normal configuration is due.
  unfoldable pub clear_when_stable : ℕ → State b → State b
  clear_when_stable elapsed_ms s =
      if not s.stability_cleared && leb stability_window_ms elapsed_ms
      then record s { block = set_consecutive_count 0 s.block; stability_cleared = true }
      else s

  unfoldable pub retry_when_due : ℕ → State b → State b
  retry_when_due elapsed_ms s =
      if config.reduced_configuration && (not s.retry_attempted && leb retry_interval_ms elapsed_ms)
      then record s {
        retry_attempted = true;
        block = set_deliberate_reset DeliberateReset.retry s.block;
        was_reset = true;
      }
      else s

  unfoldable pub check_uptime : State b → State b
  unfolding clear_when_stable retry_when_due
  check_uptime s =
      let (ticks, hw) = tick_count s.hardware in
      let elapsed_ms = u32 (sub_u32 ticks s.boot_tick * tick_period_ms) in
      retry_when_due elapsed_ms (clear_when_stable elapsed_ms (record s { hardware = hw }))

  -- What follows the wait.
  unfoldable pub finish_pass : State b → State b
  unfolding serve_schedule check_uptime
  finish_pass s = if s.was_reset then s else check_uptime (serve_schedule s)

  -- The body of the loop, and a pass, which is none after a reset.
  unfoldable pub run_pass : State b → State b
  unfolding now_ms reconcile_clocks sample_battery receive_message finish_pass
  run_pass s =
      let (now, hw) = now_ms b config s.hardware in
      let s = record s { hardware = hw } in
      finish_pass (receive_message now (sample_battery now (reconcile_clocks now s)))

  unfoldable pub pass : State b → State b
  unfolding run_pass
  pass s = if s.was_reset then s else run_pass s

  unfoldable pub passes : ℕ → State b → State b
  unfolding pass
  passes zero s = s
  passes (suc n) s = passes n (pass s)
