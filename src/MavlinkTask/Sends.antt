-- ===== src/MavlinkTask/Sends.antt =====
-- src/mavlink.cpp, the functions that offer a message to a port or a record to the card's queue.
use boredom_os.Prelude.{
  ℕ, ◌+◌, ◌-◌, ◌*◌, ◌^◌, not, none, some, List, [], ◌++◌, u32, uint16_max, ◌==◌, ltb, if◌then◌else◌,
  codes, String, length, take,
}
use boredom_os.SystemTime.{
  SystemTime, Source, source_to_byte, get_unix_time, get_unix_time_usec, since_boot_usec,
}
use boredom_os.Dataflash.{chars}
use boredom_os.Download.{log_entry, LogRequest, port_at, set_port, post_log_data}
use boredom_os.Download.Serving.{SdRecord}
use boredom_os.MavlinkTask.Handles.{housekeeping_entry}
use boredom_os.Mavlink.{housekeeping_heap_slots, build_boot_statement, next_housekeeping_value}
use boredom_os.MavlinkTask.{
  Severity, critical, info, MavResult, Intent, Sender, Board, Config, has_sd_write, State,
  enqueue_intent, post_record,
}

-- What `clockSourceText` says.
pub clock_source_text : Source → String
clock_source_text Source.ground = "ground"
clock_source_text Source.ds1307 = "ds1307"
clock_source_text Source.survived = "survived"
clock_source_text Source.none = "none"

-- `strncat(text, more, sizeof(text) - 1 - strlen(text))`, for a text of 50 bytes.
abbrev clock_strncat : List ℕ → List ℕ → List ℕ
clock_strncat text more = text ++ take (49 - length text) more

pub clock_statement : SystemTime → List ℕ
unfolding clock_source_text
clock_statement time =
    let text = clock_strncat (codes "Clock: ") (codes (clock_source_text time.source)) in
    clock_strncat text (codes (if time.found_running then ", found live" else ", found none"))

-- The name of a housekeeping slot: the heap's two, then the table's.
unfoldable pub housekeeping_name : ℕ → String
housekeeping_name slot =
    if slot == 0
    then "HeapFree"
    else if slot == 1
    then "HeapMin"
    else (housekeeping_entry (slot - housekeeping_heap_slots)).name

-- MAV_SYS_STATUS_LOGGING and MAV_SYS_STATUS_SENSOR_BATTERY.
abbrev pub sys_status_logging : ℕ
sys_status_logging = 2 ^ 24

abbrev pub sys_status_sensor_battery : ℕ
sys_status_sensor_battery = 2 ^ 25

module _ (b : Board) (config : Config) where
  open b use {
    clocks, tick_count, tick_period_ms, sd_spaces, battery_millivolts, battery_remaining,
    free_heap_size, minimum_ever_free_heap_size, stack_high_water_mark, rx_drop_count,
  }

  -- `xTaskGetTickCount() * portTICK_PERIOD_MS`.
  unfoldable pub now_ms : clocks.Hardware → ℕ × clocks.Hardware
  now_ms hw = let (ticks, hw) = tick_count hw in (u32 (ticks * tick_period_ms), hw)

  unfoldable pub send_heartbeat : ℕ → State b → State b
  send_heartbeat port s = enqueue_intent b port Intent.heartbeat s

  -- Zero without an origin, and the microseconds of the clock.
  unfoldable pub reported_usec : State b → ℕ × clocks.Hardware
  reported_usec s =
      if source_to_byte s.time.source == 3
      then (0, s.hardware)
      else get_unix_time_usec clocks s.hardware

  unfoldable pub send_system_time : ℕ → State b → State b
  unfolding now_ms reported_usec
  send_system_time port s =
      let (unix_usec, hw) = reported_usec s in
      let (boot_ms, hw) = now_ms hw in
      enqueue_intent b port (Intent.system_time unix_usec boot_ms) (record s { hardware = hw })

  unfoldable pub send_status_text : ℕ → List ℕ → Severity → State b → State b
  send_status_text port text severity s =
      enqueue_intent b port (Intent.status_text severity (chars 50 text)) s

  unfoldable pub send_boot_statement : ℕ → State b → State b
  unfolding send_status_text
  send_boot_statement port s =
      send_status_text port
        (build_boot_statement config.previous_reset_reason config.previous_boot_phase
          config.previous_fault_task)
        critical s

  unfoldable pub send_boot_status_text : State b → State b
  unfolding send_boot_statement
  send_boot_status_text s = send_boot_statement 1 (send_boot_statement 0 s)

  unfoldable pub send_clock_status_text : State b → State b
  unfolding send_status_text
  send_clock_status_text s =
      let text = clock_statement s.time in
      send_status_text 1 text info (send_status_text 0 text info s)

  unfoldable pub send_command_ack : ℕ → ℕ → MavResult → State b → State b
  send_command_ack port command result s =
      enqueue_intent b port (Intent.command_ack command result) s

  unfoldable pub send_autopilot_version : ℕ → State b → State b
  send_autopilot_version port s = enqueue_intent b port Intent.autopilot_version s

  unfoldable pub send_protocol_version : ℕ → State b → State b
  send_protocol_version port s = enqueue_intent b port Intent.protocol_version s

  unfoldable pub send_message_interval : ℕ → ℕ → ℕ → State b → State b
  send_message_interval port message_id interval_us s =
      enqueue_intent b port (Intent.message_interval message_id interval_us) s

  unfoldable pub send_mission_count : ℕ → ℕ → ℕ → ℕ → State b → State b
  send_mission_count port target_system target_component mission_type s =
      enqueue_intent b port (Intent.mission_count target_system target_component mission_type) s

  unfoldable pub send_no_logs : ℕ → State b → State b
  send_no_logs port s = enqueue_intent b port (Intent.log (log_entry 0 0 0 0 0)) s

  unfoldable pub send_no_log_data : ℕ → ℕ → ℕ → State b → State b
  send_no_log_data port id ofs s = enqueue_intent b port (Intent.log (post_log_data id ofs [])) s

  -- `kind` makes the record of the request.
  unfoldable pub forward_log_request : (LogRequest → SdRecord) → LogRequest → State b → State b
  forward_log_request kind request s =
      let (spaces, hw) = sd_spaces s.hardware in
      let s = record s { hardware = hw } in
      if ltb spaces 2 then s else post_record b (kind request) s

  unfoldable pub log_battery : State b → State b
  log_battery s =
      if not (has_sd_write config)
      then s
      else let (millivolts, hw) = battery_millivolts s.hardware in
        if millivolts == 0
        then record s { hardware = hw }
        else let (time_us, hw) = since_boot_usec clocks s.time hw in
          let (remaining, hw) = battery_remaining hw in
          post_record b
            (SdRecord.pwr
              (record { time_us = time_us; millivolts = millivolts; remaining = remaining }))
            (record s { hardware = hw })

  unfoldable pub log_clock : State b → State b
  log_clock s =
      if not (has_sd_write config)
      then s
      else let (time_us, hw) = since_boot_usec clocks s.time s.hardware in
        let (unix_time, hw) = get_unix_time clocks hw in
        post_record b
          (SdRecord.time (record {
            time_us = time_us;
            unixtime = u32 unix_time;
            source = source_to_byte s.time.source;
          }))
          (record s { hardware = hw })

  unfoldable pub send_battery_status : ℕ → State b → State b
  send_battery_status port s =
      let (millivolts, hw) = battery_millivolts s.hardware in
      let (remaining, hw) = battery_remaining hw in
      enqueue_intent b port (Intent.battery_status millivolts remaining)
        (record s { hardware = hw })

  -- The battery's part of the bitmap, its voltage and what remains, or the values that are not sent.
  unfoldable pub battery_fields : clocks.Hardware → ℕ × ℕ × ℕ × clocks.Hardware
  battery_fields hw =
      if config.reduced_configuration
      then (0, uint16_max, 255, hw)
      else let (millivolts, hw) = battery_millivolts hw in
        let (remaining, hw) = battery_remaining hw in
        (sys_status_sensor_battery, millivolts, remaining, hw)

  unfoldable pub send_sys_status : ℕ → State b → State b
  unfolding battery_fields
  send_sys_status port s =
      let logging = if config.sd_card_available then sys_status_logging else 0 in
      let (sensor, voltage_mv, remaining, hw) = battery_fields s.hardware in
      enqueue_intent b port
        (Intent.sys_status (logging + sensor) voltage_mv remaining (rx_drop_count port hw)
          (port_at port s.write_drop_count))
        (record s { hardware = hw })

  -- The value of a housekeeping slot.
  abbrev pub housekeeping_reading : ℕ → clocks.Hardware → ℕ × clocks.Hardware
  housekeeping_reading slot hw =
      if slot == 0
      then free_heap_size hw
      else if slot == 1
      then minimum_ever_free_heap_size hw
      else stack_high_water_mark (housekeeping_entry (slot - housekeeping_heap_slots)).handle hw

  unfoldable pub send_housekeeping : ℕ → State b → State b
  send_housekeeping port s =
      let (slot, cursor) =
        next_housekeeping_value config.has_task (port_at port s.housekeeping_cursor) in
      let s = record s { housekeeping_cursor = set_port port cursor s.housekeeping_cursor } in
      elim slot [
        | none ↦ s
        | some slot ↦
            let (value, hw) = housekeeping_reading slot s.hardware in
            enqueue_intent b port (Intent.named_value_int (housekeeping_name slot) value)
              (record s { hardware = hw })
      ]

  -- The call of a table's function.
  unfoldable pub call_sender : Sender → ℕ → State b → State b
  call_sender Sender.send_heartbeat port s = send_heartbeat port s
  call_sender Sender.send_system_time port s = send_system_time port s
  call_sender Sender.send_battery_status port s = send_battery_status port s
  call_sender Sender.send_housekeeping port s = send_housekeeping port s
  call_sender Sender.send_sys_status port s = send_sys_status port s
  call_sender Sender.send_autopilot_version port s = send_autopilot_version port s
  call_sender Sender.send_protocol_version port s = send_protocol_version port s
  call_sender Sender.send_boot_statement port s = send_boot_statement port s
