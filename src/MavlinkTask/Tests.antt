-- ===== src/MavlinkTask/Tests.antt =====
-- The theorems about the messages and the schedule, at the bench.
mod Resets
mod Cards
use mathlib.Core.List.{Perm}
use boredom_os.Boot.{ResetFlags, setup, tasks_created}
use boredom_os.Mavlink.{next_housekeeping_value, housekeeping_tries}
use boredom_os.MavlinkTask.Sends.{housekeeping_name}
use boredom_os.MavlinkTask.Handles.{config_after, has_handle}
use boredom_os.Prelude.{
  uint32_max, ◌⊎◌, inr, ◌≤◌, ℕ, ◌+◌, ◌*◌, ◌^◌, ◌≡◌, refl, true, false, ◌||◌, Option, none, some,
  List, [], ◌∷◌, ◌++◌, arith, u32, ◌∙◌, inl, length, map, String, drop, replicate, All,
}
use boredom_os.Recovery.{
  System, ResetReason, BootPhase, DeliberateReset, reinitialise, set_cumulative_count, is_valid,
  software, start, power_on, watchdog,
}
use boredom_os.Recovery.Fields.{view, view-set, set_valid}
use boredom_os.Recovery.Defaults.{blank_block, reinitialise_lem}
use boredom_os.Boot.Decision.{update_lem}
use boredom_os.SystemTime.{Clocks, SystemTime, Source}
use boredom_os.SdData.{new_log}
use boredom_os.SdData.Disk.{Disk, disk}
use boredom_os.Download.{LogListing, LogStream, Reader}
use boredom_os.Download.Serving.{Task}
use boredom_os.MavlinkTask.{
  enqueue_intent, Intent, Inbound, Command, command_long, command_ack, message_interval, accepted,
  denied, send_heartbeat, ScheduleEntry, Board, Config, State, log_request_data,
}
use boredom_os.MavlinkTask.Float.{
  Float, finite, float_of, float_unit, float_of_bits, message_id_from_param, to_u16, to_i32,
  message_id_from_param_lem,
}
use boredom_os.MavlinkTask.Commands.{
  handle_command, handle_set_interval, set_housekeeping, handle_get_interval,
  request_autopilot_capabilities, get_message_interval, set_message_interval,
  preflight_reboot_shutdown, decide_request, requested_entry,
}
use boredom_os.MavlinkTask.Sends.{
  send_command_ack, send_clock_status_text, send_boot_status_text, send_status_text,
}
use boredom_os.MavlinkTask.Schedule.{initial_rows, wait_time}
use boredom_os.MavlinkTask.Passes.{
  initial_state, start_task, passes, check_uptime, retry_interval_ms,
}
use boredom_os.MavlinkTask.Handlers.{handle_inbound}
use boredom_os.MavlinkTask.Frames.{acks}
use boredom_os.MavlinkTask.Acknowledging.{commands, acks-passes}
use boredom_os.MavlinkTask.Shape.{initial_rows-IsSchedule}
use boredom_os.MavlinkTask.Keeping.{Ready, start_task-Ready}
use boredom_os.MavlinkTask.Intervals.{set_then_get}
use boredom_os.MavlinkTask.Waits.{IsWords, any_due, wait_time_lem}
use boredom_os.MavlinkTask.Cadence.{Cadence, Paced, last_time, serve_at, cadence, catch_up}
use boredom_os.MavlinkTask.Restarting.{uptime, reboot_lem}
use boredom_os.Boot.History.{after, reduced}
use boredom_os.MavlinkTask.Requests.{request_table, requested_entry_lem, fraction_sets}
use boredom_os.MavlinkTask.Isolation.{SameAt, handle_command_other}
use boredom_os.MavlinkTask.LogRequests.{with_card}
use boredom_os.MavlinkTask.Bench.{
  Bench, next_message, later, still, bench, config, reduced_config, ask, ground_time, blank,
  hardware, powered, rows, started,
}

-- 252 and 2000000, as the bits of a float.
bits_252 : float_of_bits 0x437C0000 ≡ float_of 252
unfolding float_of_bits
bits_252 = refl

message_id_252 : message_id_from_param (float_of 252) ≡ some 252
message_id_252 = (message_id_from_param_lem (float_of 252) 252).1 (omega arith, inl refl)

acks-passes_example :
    acks (passes bench config 3 powered).offered
    ≡ commands bench config 3 powered ++ acks powered.offered
acks-passes_example = acks-passes bench config 3 powered

start_task-Ready_example :
    Ready false (passes bench config 3 (start_task bench config powered)).schedule
start_task-Ready_example = start_task-Ready bench config 3 powered

-- Five late passes of the heartbeat's row, over the wrap of the clock.
abbrev heartbeat : ScheduleEntry
heartbeat = record {
  function = send_heartbeat;
  interval_ms = 1000;
  last_ms = 4294966000;
  enabled = true;
}

abbrev times : List ℕ
times = 4294967050 ∷ 4294967990 ∷ 4294968100 ∷ 4294969050 ∷ 4294970011 ∷ []

paced : Paced 1000 4294966100 times
unfolding Paced
paced = (
  omega arith,
  omega arith,
  (
    omega arith,
    omega arith,
    (omega arith, omega arith, (omega arith, omega arith, (omega arith, omega arith, tt))),
  ),
)

cadence_example :
    Cadence bench config 0 1000 4294966000 4294970011 send_heartbeat started
      (serve_at bench config 0 times heartbeat started)
unfolding last_time
cadence_example =
    cadence bench config 0 1000 4294966000 4294966100 times heartbeat started (refl, refl, refl)
      (omega arith) (omega arith) (omega arith) paced

catch_up_example :
    Cadence bench config 0 1000 4294966000 4294970011 send_heartbeat started
      (serve_at bench config 0 (replicate 7 4294970011) heartbeat started)
catch_up_example =
    catch_up bench config 0 1000 4294966000 4294970011 7 heartbeat started (refl, refl, refl)
      (omega arith) (omega arith) (omega arith) (omega arith)

rows-IsWords : All IsWords rows
unfolding initial_rows
rows-IsWords = (
  (omega arith, omega arith),
  (
    (omega arith, omega arith),
    ((omega arith, omega arith), ((omega arith, omega arith), ((omega arith, omega arith), tt))),
  ),
)

abbrev waits : ℕ
waits = wait_time 5000 started.schedule

wait_time_lem_example :
    (waits ≡ uint32_max)
    ⊎ (any_due (u32 (5000 + waits)) rows || any_due (u32 (5000 + waits)) rows ≡ true)
wait_time_lem_example = (wait_time_lem 5000 started.schedule rows-IsWords rows-IsWords).1

abbrev set_two_seconds : Command
set_two_seconds = record {
  command = set_message_interval;
  param1 = float_of 252;
  param2 = float_of 2000500;
}

is_252 : to_u16 (float_of 252) ≡ 252
unfolding to_u16
is_252 = refl

set_then_get_example :
    (handle_get_interval bench config 1
      (ask get_message_interval (float_of 252))
      (handle_set_interval bench config 1 6000 set_two_seconds started)).offered
    ≡ (1, message_interval 252 2000000)
      ∷ (1, command_ack get_message_interval accepted)
      ∷ (1, command_ack set_message_interval accepted)
      ∷ []
unfolding to_i32
set_then_get_example =
    set_then_get bench config false 1 6000 set_two_seconds (ask get_message_interval (float_of 252))
      started (initial_rows-IsSchedule false 5000) is_252 message_id_252

requested_entry_lem_example :
    decide_request (requested_entry (float_of 147)) (initial_rows true 5000)
    ≡ request_table true (message_id_from_param (float_of 147))
requested_entry_lem_example =
    requested_entry_lem (float_of 147) (initial_rows true 5000) true
      (initial_rows-IsSchedule true 5000)

abbrev half : ℕ
half = 2 ^ 148

abbrev fraction : Command
fraction = ask set_message_interval (finite false (252 * float_unit + half))

fraction_sets_example :
    (handle_set_interval bench config 0 6000 fraction started
      ≡ set_housekeeping bench config 0 6000 fraction started)
    × (handle_get_interval bench config 0 fraction started
        ≡ send_command_ack bench config 0 set_message_interval denied started)
fraction_sets_example =
    fraction_sets bench config half 0 6000 fraction started (omega arith) (omega arith) refl

handle_command_other_example :
    SameAt bench config 0 started (handle_command bench config 1 6000 set_two_seconds started)
handle_command_other_example =
    handle_command_other bench config 1 0 6000 set_two_seconds started (omega arith) (omega arith)
      refl
