-- ===== src/MavlinkTask.antt =====
-- src/mavlink.cpp, TaskMavlink: what it offers to the ports, its schedule, its commands and its
-- loop.
--
-- The state is the task's locals, the statics of the file, the system time, the recovery block and
-- the hardware; the queues, the battery sense and the system's calls are `Board`'s. What is
-- offered to a queue is kept, the latest first. A signed number is its bits in two's complement.
-- A message that arrives is its decoded payload. The recovery block is this task's alone here.
pub mod Float
pub mod Sends
pub mod Schedule
pub mod Commands
pub mod Handlers
pub mod Passes
pub mod Handles
pub mod Entries
pub mod Rotation
pub mod Naming
pub mod Frames
pub mod Steps
pub mod Invariants
pub mod Replies
pub mod Acknowledging
pub mod Shape
pub mod Intervals
pub mod Waits
pub mod Cadence
pub mod Keeping
pub mod Restarting
pub mod Retrying
pub mod Requests
pub mod Isolation
pub mod ClockSets
pub mod LogRequests
pub mod Packing
mod Bench
mod Tests
use boredom_os.Prelude.{
  ℕ, zero, suc, ◌+◌, ◌-◌, ◌*◌, ◌/◌, ◌%◌, ◌^◌, ◌≤◌, ◌<◌, min, ◌≡◌, ◌≢◌, ◌↔◌, refl, Bool, true, false,
  not, ◌&&◌, ◌||◌, Option, none, some, List, [], ◌∷◌, ◌++◌, map, arith, u8, u16, u32, u64, sub_u32,
  uint16_max, uint32_max, ◌==◌, ltb, leb, ◌∙◌, sym, ap, subst, fun_ext, ◌⊎◌, inl, inr,
  if◌then◌else◌, Bool-cases, Option-cases, ==_iff, ltb→lt, lt→ltb, leb→le, le→leb, take-take,
  drop-take, drop-drop, take-append, drop-append, codes, String, length, get_elem?, get_or, take,
  drop, replicate, length-append, length-take, length-drop, length-replicate, All,
}
use boredom_os.Boot.{Task}
use boredom_os.Recovery.{System, ResetReason, BootPhase}
use boredom_os.SystemTime.{Clocks, SystemTime}
use boredom_os.Download.{Msg, Ports, port_at, set_port}
use boredom_os.Download.Serving.{SdRecord}
use boredom_os.Mavlink.{enqueue_write}

pub data Severity : Type 0 where
  critical warning info : Severity

-- MAV_RESULT.
pub data MavResult : Type 0 where
  accepted temporarily_rejected denied unsupported : MavResult

-- LinkMsg, by its kind. `log` is of the kinds LogEntry and LogData.
pub data Intent : Type 0 where
  heartbeat autopilot_version protocol_version : Intent
  -- unix_usec, boot_ms
  system_time : ℕ → ℕ → Intent
  -- millivolts, remaining
  battery_status : ℕ → ℕ → Intent
  -- tc1, ts1, target_system, target_component
  timesync_reply : ℕ → ℕ → ℕ → ℕ → Intent
  status_text : Severity → List ℕ → Intent
  command_ack : ℕ → MavResult → Intent
  named_value_int : String → ℕ → Intent
  -- sensors, voltage_mv, battery_remaining, errors_comm, errors_count1
  sys_status : ℕ → ℕ → ℕ → ℕ → ℕ → Intent
  -- message_id, interval_us
  message_interval : ℕ → ℕ → Intent
  -- target_system, target_component, mission_type
  mission_count : ℕ → ℕ → ℕ → Intent
  log : Msg → Intent

-- The functions that a schedule row or a table entry can name.
pub data Sender : Type 0 where
  send_heartbeat send_system_time send_battery_status send_housekeeping send_sys_status : Sender
  send_autopilot_version send_protocol_version send_boot_statement : Sender

pub record ScheduleEntry : Type 0 where
  pub function : Sender
  pub interval_ms : ℕ
  pub last_ms : ℕ
  pub enabled : Bool

-- The parameters of a COMMAND_LONG that are read.
pub record Command : Type 0 where
  pub command : ℕ
  pub param1 : Float.Float
  pub param2 : Float.Float

-- An inbound message, by its msgid.
pub data Inbound : Type 0 where
  heartbeat param_request_list request_data_stream file_transfer_protocol log_erase : Inbound
  log_request_end : Inbound
  command_long : Command → Inbound
  -- sysid, compid, mission_type
  mission_request_list : ℕ → ℕ → ℕ → Inbound
  -- start, end
  log_request_list : ℕ → ℕ → Inbound
  -- id, ofs, count
  log_request_data : ℕ → ℕ → ℕ → Inbound
  -- time_unix_usec
  system_time : ℕ → Inbound
  -- tc1, ts1, target_system, target_component
  timesync : ℕ → ℕ → ℕ → ℕ → Inbound
  other : ℕ → Inbound

-- The calls of the system and of the battery sense, on the state of the hardware, each of which may
-- change it.
pub record Board : Type 1 where
  pub clocks : Clocks
  -- `xQueueSend` on the port's write queue: whether it passed.
  pub queue_send : ℕ → Intent → clocks.Hardware → Bool × clocks.Hardware
  -- `xQueueSend` on sdWriteQueue, and the places that are free in it.
  pub sd_send : SdRecord → clocks.Hardware → clocks.Hardware
  pub sd_spaces : clocks.Hardware → ℕ × clocks.Hardware
  -- `xQueueReceive` on linkReadQueue, waiting at most the milliseconds given: port and message.
  pub receive : ℕ → clocks.Hardware → Option (ℕ × Inbound) × clocks.Hardware
  pub tick_count : clocks.Hardware → ℕ × clocks.Hardware
  -- portTICK_PERIOD_MS.
  pub tick_period_ms : ℕ
  -- `vTaskDelay`, for milliseconds.
  pub delay : ℕ → clocks.Hardware → clocks.Hardware
  pub battery_millivolts : clocks.Hardware → ℕ × clocks.Hardware
  pub battery_remaining : clocks.Hardware → ℕ × clocks.Hardware
  -- `xPortGetFreeHeapSize`, `xPortGetMinimumEverFreeHeapSize` and `uxTaskGetStackHighWaterMark`, each
  -- as an `int32_t`.
  pub free_heap_size : clocks.Hardware → ℕ × clocks.Hardware
  pub minimum_ever_free_heap_size : clocks.Hardware → ℕ × clocks.Hardware
  pub stack_high_water_mark : Task → clocks.Hardware → ℕ × clocks.Hardware
  -- `linkPorts[port].rxDropCount`.
  pub rx_drop_count : ℕ → clocks.Hardware → ℕ

-- What is fixed before the scheduler starts. `has_task`: the handle of a housekeeping task is not
-- null.
pub record Config : Type 0 where
  pub reduced_configuration : Bool
  pub sd_card_available : Bool
  pub has_task : ℕ → Bool
  pub previous_reset_reason : ResetReason
  pub previous_boot_phase : BootPhase
  pub previous_fault_task : List ℕ

-- `taskSdWriteHandler != NULL`, the last of the housekeeping tasks.
abbrev pub has_sd_write : Config → Bool
has_sd_write config = config.has_task 6

module _ (b : Board) where
  open b use {clocks, queue_send, sd_send}

  pub record State : Type 0 where
    pub time : SystemTime
    pub hardware : clocks.Hardware
    pub block : System
    pub write_drop_count : Ports ℕ
    pub housekeeping_cursor : Ports ℕ
    pub schedule : Ports (List ScheduleEntry)
    pub boot_tick : ℕ
    pub last_reseed_ms : ℕ
    pub last_battery_log_ms : ℕ
    pub stability_cleared : Bool
    pub retry_attempted : Bool
    -- NVIC_SystemReset was called, which does not return.
    pub was_reset : Bool
    -- What was offered to the ports' write queues and to sdWriteQueue, the latest first.
    pub offered : List (ℕ × Intent)
    pub records : List SdRecord

  -- `enqueueWrite`.
  unfoldable pub enqueue_intent : ℕ → Intent → State → State
  enqueue_intent port intent s =
      let (passed, hw) = queue_send port intent s.hardware in
      let count = enqueue_write passed (port_at port s.write_drop_count) in
      record s {
        hardware = hw;
        write_drop_count = set_port port count s.write_drop_count;
        offered = (port, intent) ∷ s.offered;
      }

  -- `xQueueSend(sdWriteQueue, &record, 0)`.
  unfoldable pub post_record : SdRecord → State → State
  post_record posted s = record s {
    hardware = sd_send posted s.hardware;
    records = posted ∷ s.records;
  }
