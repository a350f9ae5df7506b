-- ===== src/MavlinkTask/Bench.antt =====
-- A board with messages that wait for it, for the tests.
use boredom_os.Prelude.{ℕ, ◌+◌, true, false, Option, none, some, List, [], ◌∷◌, drop}
use boredom_os.Recovery.{System, ResetReason, BootPhase, reinitialise}
use boredom_os.SystemTime.{Clocks, SystemTime, Source}
use boredom_os.MavlinkTask.{Inbound, Command, command_long, ScheduleEntry, Board, Config, State}
use boredom_os.MavlinkTask.Float.{Float, finite, float_of}
use boredom_os.MavlinkTask.Commands.{request_autopilot_capabilities}
use boredom_os.MavlinkTask.Schedule.{initial_rows}
use boredom_os.MavlinkTask.Passes.{initial_state}

-- The ticks, which move on by one with each reading, the second of the clock and what waits to be
-- received.
pub record Bench : Type 0 where
  pub ticks : ℕ
  pub second : ℕ
  pub inbox : List (ℕ × Inbound)

abbrev pub next_message : List (ℕ × Inbound) → Option (ℕ × Inbound)
next_message [] = none
next_message (m ∷ ms) = some m

abbrev pub later : ℕ → Bench → Bench
later ticks h = record h { ticks = h.ticks + ticks }

abbrev pub still : Clocks
still = record {
  Hardware = Bench;
  rtc_get_time = λ h. (some h.second, h);
  rtc_set_time = λ t h. (true, record h { second = t });
  rtc_set_time_if_not_running = λ t h. h;
  rtc_begin = λ h. h;
  rtc_is_running = λ h. (true, h);
  r64cnt = λ h. (64, h);
  ds1307_begin = λ h. (false, h);
  ds1307_now = λ h. (0, h);
  ds1307_adjust = λ t h. h;
}

abbrev pub bench : Board
bench = record {
  clocks = still;
  queue_send = λ port intent h. (true, h);
  sd_send = λ posted h. h;
  sd_spaces = λ h. (4, h);
  receive = λ wait_ms h. (next_message h.inbox, record h { inbox = drop 1 h.inbox });
  tick_count = λ h. (h.ticks, later 1 h);
  tick_period_ms = 1;
  delay = later;
  battery_millivolts = λ h. (3900, h);
  battery_remaining = λ h. (57, h);
  free_heap_size = λ h. (1000, h);
  minimum_ever_free_heap_size = λ h. (1001, h);
  stack_high_water_mark = λ task h. (1002, h);
  rx_drop_count = λ port h. 0;
}

abbrev pub config : Config
config = record {
  reduced_configuration = false;
  sd_card_available = true;
  has_task = λ task. true;
  previous_reset_reason = ResetReason.software;
  previous_boot_phase = BootPhase.scheduler_started;
  previous_fault_task = [];
}

abbrev pub reduced_config : Config
reduced_config = record config { reduced_configuration = true }

abbrev pub ask : ℕ → Float → Command
ask number param1 = record { command = number; param1 = param1; param2 = finite false 0 }

abbrev pub ground_time : SystemTime
ground_time = record {
  boot_epoch = 1735689600;
  source = Source.ds1307;
  ds1307_present = false;
  found_running = true;
}

abbrev pub blank : System
blank = reinitialise (record { prcr = 0; vbtbkr = λ p. 0 })

abbrev pub hardware : Bench
hardware = record {
  ticks = 5000;
  second = 1735690200;
  inbox =
      (1, command_long (ask request_autopilot_capabilities (float_of 0)))
      ∷ (0, Inbound.heartbeat)
      ∷ (0, command_long (ask 9999 (float_of 0)))
      ∷ [];
}

abbrev pub powered : State bench
powered = initial_state bench config ground_time blank hardware

abbrev pub rows : List ScheduleEntry
rows = initial_rows false 5000

abbrev pub started : State bench
started = record (initial_state bench config ground_time blank hardware) {
  schedule = record { uart = rows; usb = rows };
}
