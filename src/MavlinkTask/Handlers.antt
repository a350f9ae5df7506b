-- ===== src/MavlinkTask/Handlers.antt =====
-- src/mavlink.cpp, what TaskMavlink does with a message that arrived, by its msgid.
use boredom_os.Prelude.{ℕ, ◌/◌, Bool, not, ◌||◌, ◌==◌, if◌then◌else◌, codes}
use boredom_os.SystemTime.{Source, source_to_byte, usec_per_sec, set_unix_time, since_boot_nsec}
use boredom_os.Download.{LogRequest}
use boredom_os.Download.Serving.{SdRecord}
use boredom_os.MavlinkTask.{
  warning, Intent, Inbound, Board, Config, has_sd_write, State, enqueue_intent,
}
use boredom_os.MavlinkTask.Sends.{
  send_status_text, send_clock_status_text, send_mission_count, send_no_logs, send_no_log_data,
  forward_log_request, log_clock,
}
use boredom_os.MavlinkTask.Commands.{handle_command}

module _ (b : Board) (config : Config) where
  open b use {clocks}

  -- What follows a clock set: a record if the clock moved or its origin changed, a text if its
  -- origin changed.
  unfoldable pub report_clock : Bool → Bool → State b → State b
  report_clock moved changed s =
      let s = if moved || changed then log_clock b config s else s in
      if changed then send_clock_status_text b config s else s

  unfoldable pub handle_system_time : ℕ → State b → State b
  unfolding report_clock
  handle_system_time time_unix_usec s =
      let before = s.time.source in
      let o =
        set_unix_time clocks (time_unix_usec / usec_per_sec) Source.ground s.time s.hardware in
      let s = record s { time = o.time; hardware = o.hardware } in
      let changed = not (source_to_byte s.time.source == source_to_byte before) in
      if o.accepted then report_clock o.clock_moved changed s else s

  unfoldable pub handle_timesync : ℕ → ℕ → ℕ → ℕ → ℕ → State b → State b
  handle_timesync port tc1 ts1 target_system target_component s =
      let (nsec, hw) = since_boot_nsec clocks s.time s.hardware in
      if tc1 == 0
      then enqueue_intent b port (Intent.timesync_reply nsec ts1 target_system target_component)
          (record s { hardware = hw })
      else s

  unfoldable pub handle_log_list : ℕ → ℕ → ℕ → State b → State b
  handle_log_list port start end s =
      let request : LogRequest = record {
        ofs = 0;
        count = 0;
        start = start;
        end = end;
        port = port;
      } in
      if not (has_sd_write config)
      then send_no_logs b config port s
      else forward_log_request b config SdRecord.log_list request s

  unfoldable pub handle_log_data : ℕ → ℕ → ℕ → ℕ → State b → State b
  handle_log_data port id ofs count s =
      let request : LogRequest = record {
        ofs = ofs;
        count = count;
        start = id;
        end = 0;
        port = port;
      } in
      if not (has_sd_write config)
      then send_no_log_data b config port id ofs s
      else forward_log_request b config SdRecord.log_read request s

  unfoldable pub handle_log_end : ℕ → State b → State b
  handle_log_end port s =
      let request : LogRequest = record { ofs = 0; count = 0; start = 0; end = 0; port = port } in
      if has_sd_write config then forward_log_request b config SdRecord.log_end request s else s

  -- The switch on the message that arrived on a port; `now` is the pass's first reading.
  unfoldable pub handle_inbound : ℕ → ℕ → Inbound → State b → State b
  handle_inbound now port Inbound.heartbeat s = s
  handle_inbound now port Inbound.param_request_list s = s
  handle_inbound now port (Inbound.command_long command) s =
      handle_command b config port now command s
  handle_inbound now port Inbound.request_data_stream s = s
  handle_inbound now port (Inbound.mission_request_list sysid compid mission_type) s =
      send_mission_count b config port sysid compid mission_type s
  handle_inbound now port (Inbound.log_request_list start end) s = handle_log_list port start end s
  handle_inbound now port (Inbound.log_request_data id ofs count) s =
      handle_log_data port id ofs count s
  handle_inbound now port Inbound.log_request_end s = handle_log_end port s
  handle_inbound now port Inbound.log_erase s = s
  handle_inbound now port Inbound.file_transfer_protocol s = s
  handle_inbound now port (Inbound.system_time time_unix_usec) s =
      handle_system_time time_unix_usec s
  handle_inbound now port (Inbound.timesync tc1 ts1 target_system target_component) s =
      handle_timesync port tc1 ts1 target_system target_component s
  handle_inbound now port (Inbound.other msgid) s =
      send_status_text b config port (codes "Unhandled message received") warning s
