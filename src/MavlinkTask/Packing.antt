-- ===== src/MavlinkTask/Packing.antt =====
-- src/mavlink.cpp, mavlinkPack: the call of the MAVLink library that an intent becomes.
--
-- The library's pack functions are not this repository's code: a call is kept with its arguments,
-- and what they make of them is `frame_of` of Link.Ports' `Device`. A minus one is all the bits of
-- its field, and the enumerations are named. NAMED_VALUE_INT's pack function reads ten bytes of its
-- `const char *`, which are kept.
use boredom_os.Prelude.{
  true, take, codes, ◌++◌, ℕ, Bool, not, List, [], ◌∷◌, uint16_max, uint32_max, if◌then◌else◌,
  String, replicate,
}
use boredom_os.Recovery.{System}
use boredom_os.Download.{log_entry, log_data}
use boredom_os.Mavlink.{pack_custom_mode}
use boredom_os.MavlinkTask.{Severity, MavResult, Intent, Config}

-- MAV_STATE, of the two that are sent.
pub data MavState : Type 0 where
  active critical : MavState

-- Of MAV_TYPE, MAV_AUTOPILOT, MAV_BATTERY_FUNCTION, MAV_BATTERY_TYPE, MAV_BATTERY_CHARGE_STATE and
-- MAV_BATTERY_MODE, what is sent.
pub data MavType : Type 0 where
  rocket : MavType

pub data MavAutopilot : Type 0 where
  generic : MavAutopilot

pub data BatteryFunction : Type 0 where
  function_all : BatteryFunction

pub data BatteryType : Type 0 where
  lipo : BatteryType

pub data ChargeState : Type 0 where
  charge_undefined : ChargeState

pub data BatteryMode : Type 0 where
  mode_unknown : BatteryMode

-- The flags of `baseMode`: MAV_MODE_FLAG_SAFETY_ARMED and MAV_MODE_FLAG_AUTO_ENABLED.
pub record BaseMode : Type 0 where
  pub safety_armed : Bool
  pub auto_enabled : Bool

abbrev pub zeros : ℕ → List ℕ
zeros n = replicate n 0

-- The ten bytes at a name, which is an array of twelve with zeros after the text.
abbrev pub name_field : String → List ℕ
name_field name = take 10 (codes name ++ zeros 10)

-- kCapabilityMavlink2.
abbrev pub capability_mavlink2 : ℕ
capability_mavlink2 = 8192

-- `battery.remaining` and the rest of a BATTERY_STATUS: id, function, type, temperature, voltages,
-- current, consumed current and energy, remaining, time remaining, charge state, more voltages,
-- mode, faults.
pub record BatteryFields : Type 0 where
  pub id : ℕ
  pub battery_function : BatteryFunction
  pub battery_type : BatteryType
  pub temperature : ℕ
  pub voltages : List ℕ
  pub current_battery : ℕ
  pub current_consumed : ℕ
  pub energy_consumed : ℕ
  pub battery_remaining : ℕ
  pub time_remaining : ℕ
  pub charge_state : ChargeState
  pub voltages_ext : List ℕ
  pub mode : BatteryMode
  pub fault_bitmask : ℕ

pub record SysFields : Type 0 where
  pub sensors_present : ℕ
  pub sensors_enabled : ℕ
  pub sensors_health : ℕ
  pub load : ℕ
  pub voltage_battery : ℕ
  pub current_battery : ℕ
  pub battery_remaining : ℕ
  pub drop_rate_comm : ℕ
  pub errors_comm : ℕ
  pub errors_counts : List ℕ
  pub sensors_extended : List ℕ

-- The calls, by function.
pub data Packed : Type 0 where
  -- type, autopilot, base_mode, custom_mode, system_status
  heartbeat_pack : MavType → MavAutopilot → BaseMode → ℕ → MavState → Packed
  -- capabilities, four versions, three custom versions, vendor, product, uid, uid2
  autopilot_version_pack : ℕ → List ℕ → List (List ℕ) → List ℕ → List ℕ → Packed
  -- version, min_version, max_version, two hashes
  protocol_version_pack : ℕ → ℕ → ℕ → List ℕ → List ℕ → Packed
  message_interval_pack : ℕ → ℕ → Packed
  log_entry_pack : ℕ → ℕ → ℕ → ℕ → ℕ → Packed
  log_data_pack : ℕ → ℕ → ℕ → List ℕ → Packed
  -- target_system, target_component, count, mission_type, opaque_id
  mission_count_pack : ℕ → ℕ → ℕ → ℕ → ℕ → Packed
  system_time_pack : ℕ → ℕ → Packed
  battery_status_pack : BatteryFields → Packed
  sys_status_pack : SysFields → Packed
  timesync_pack : ℕ → ℕ → ℕ → ℕ → Packed
  -- severity, text, id, chunk_seq
  statustext_pack : Severity → List ℕ → ℕ → ℕ → Packed
  -- command, result, progress, result_param2, target_system, target_component
  command_ack_pack : ℕ → MavResult → ℕ → ℕ → ℕ → ℕ → Packed
  -- time_boot_ms, name, value
  named_value_int_pack : ℕ → List ℕ → ℕ → Packed

-- A call of a `_pack_chan` function: system, component, channel, and the rest.
pub record Call : Type 0 where
  pub system_id : ℕ
  pub component_id : ℕ
  pub chan : ℕ
  pub packed : Packed

-- By kind, for the intents that have more than their own fields.
unfoldable pub packed_heartbeat : Config → System → Packed
packed_heartbeat config block =
    heartbeat_pack rocket generic
      (record { safety_armed = true; auto_enabled = not config.reduced_configuration })
      (pack_custom_mode config.previous_reset_reason config.previous_boot_phase block)
      (if config.reduced_configuration then critical else active)

unfoldable pub packed_autopilot_version : Packed
packed_autopilot_version =
    autopilot_version_pack capability_mavlink2 (zeros 4) (zeros 8 ∷ zeros 8 ∷ zeros 8 ∷ [])
      (zeros 3) (zeros 18)

unfoldable pub packed_protocol_version : Packed
packed_protocol_version = protocol_version_pack 200 200 200 (zeros 8) (zeros 8)

unfoldable pub packed_battery_status : ℕ → ℕ → Packed
packed_battery_status millivolts remaining = battery_status_pack (record {
  id = 0;
  battery_function = function_all;
  battery_type = lipo;
  temperature = 32767;
  voltages = millivolts ∷ replicate 9 uint16_max;
  current_battery = uint16_max;
  current_consumed = uint32_max;
  energy_consumed = uint32_max;
  battery_remaining = remaining;
  time_remaining = 0;
  charge_state = charge_undefined;
  voltages_ext = zeros 4;
  mode = mode_unknown;
  fault_bitmask = 0;
})

unfoldable pub packed_sys_status : ℕ → ℕ → ℕ → ℕ → ℕ → Packed
packed_sys_status sensors voltage_mv remaining errors_comm errors_count1 = sys_status_pack (record {
  sensors_present = sensors;
  sensors_enabled = sensors;
  sensors_health = sensors;
  load = 0;
  voltage_battery = voltage_mv;
  current_battery = uint16_max;
  battery_remaining = remaining;
  drop_rate_comm = 0;
  errors_comm = errors_comm;
  errors_counts = errors_count1 ∷ zeros 3;
  sensors_extended = zeros 3;
})

unfoldable pub packed_timesync : ℕ → ℕ → ℕ → ℕ → Packed
packed_timesync tc1 ts1 target_system target_component =
    timesync_pack tc1 ts1 target_system target_component

unfoldable pub packed_status_text : Severity → List ℕ → Packed
packed_status_text severity text = statustext_pack severity text 0 0

unfoldable pub packed_command_ack : ℕ → MavResult → Packed
packed_command_ack command result = command_ack_pack command result 0 0 0 0

unfoldable pub packed_named_value_int : ℕ → String → ℕ → Packed
packed_named_value_int boot_ms name value = named_value_int_pack boot_ms (name_field name) value

module _ (config : Config) (block : System) (boot_ms : ℕ) where
  -- The switch on the intent's kind. `boot_ms` is the time when it packs.
  unfoldable pub packed_intent : Intent → Packed
  unfolding packed_heartbeat packed_autopilot_version packed_protocol_version packed_battery_status
      packed_sys_status packed_timesync packed_status_text packed_command_ack packed_named_value_int
  packed_intent Intent.heartbeat = packed_heartbeat config block
  packed_intent Intent.autopilot_version = packed_autopilot_version
  packed_intent Intent.protocol_version = packed_protocol_version
  packed_intent (Intent.message_interval message_id interval_us) =
      message_interval_pack message_id interval_us
  packed_intent (Intent.log (log_entry id num_logs last_log_num time_utc size)) =
      log_entry_pack id num_logs last_log_num time_utc size
  packed_intent (Intent.log (log_data id ofs count bytes)) = log_data_pack id ofs count bytes
  packed_intent (Intent.mission_count target_system target_component mission_type) =
      mission_count_pack target_system target_component 0 mission_type 0
  packed_intent (Intent.system_time unix_usec since_ms) = system_time_pack unix_usec since_ms
  packed_intent (Intent.battery_status millivolts remaining) =
      packed_battery_status millivolts remaining
  packed_intent (Intent.sys_status sensors voltage_mv remaining errors_comm errors_count1) =
      packed_sys_status sensors voltage_mv remaining errors_comm errors_count1
  packed_intent (Intent.timesync_reply tc1 ts1 target_system target_component) =
      packed_timesync tc1 ts1 target_system target_component
  packed_intent (Intent.status_text severity text) = packed_status_text severity text
  packed_intent (Intent.command_ack command result) = packed_command_ack command result
  packed_intent (Intent.named_value_int name value) = packed_named_value_int boot_ms name value

  unfoldable pub mavlink_pack : ℕ → Intent → Call
  unfolding packed_intent
  mavlink_pack chan intent = record {
    system_id = 1;
    component_id = 1;
    chan = chan;
    packed = packed_intent intent;
  }
