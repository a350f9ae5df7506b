-- ===== src/MavlinkTask/Schedule.antt =====
-- src/mavlink.cpp, the schedule of each port and the table of the messages that can be asked about.
use boredom_os.Prelude.{
  ℕ, ◌+◌, ◌-◌, Bool, true, false, not, ◌&&◌, Option, none, some, List, [], ◌∷◌, u32, sub_u32,
  uint32_max, ◌==◌, ltb, leb, if◌then◌else◌,
}
use boredom_os.Download.{Ports, port_at, set_port}
use boredom_os.MavlinkTask.{
  Sender, send_heartbeat, send_system_time, send_battery_status, send_housekeeping, send_sys_status,
  send_autopilot_version, send_protocol_version, send_boot_statement, ScheduleEntry, Board, Config,
  State,
}
use boredom_os.MavlinkTask.Sends.{call_sender}

-- The rows of a schedule.
abbrev pub heartbeat_index : ℕ
heartbeat_index = 0

abbrev pub system_time_index : ℕ
system_time_index = 1

abbrev pub battery_index : ℕ
battery_index = 2

abbrev pub housekeeping_index : ℕ
housekeeping_index = 3

abbrev pub sys_status_index : ℕ
sys_status_index = 4

-- `send` is none for a null pointer, `row` for kNoScheduleRow.
pub record MessageEntry : Type 0 where
  pub id : ℕ
  pub send : Option Sender
  pub row : Option ℕ

abbrev pub heartbeat_id : ℕ
heartbeat_id = 0

abbrev pub sys_status_id : ℕ
sys_status_id = 1

abbrev pub system_time_id : ℕ
system_time_id = 2

abbrev pub battery_status_id : ℕ
battery_status_id = 147

abbrev pub autopilot_version_id : ℕ
autopilot_version_id = 148

abbrev pub protocol_version_id : ℕ
protocol_version_id = 300

abbrev pub statustext_id : ℕ
statustext_id = 253

abbrev pub named_value_int_id : ℕ
named_value_int_id = 252

-- kMessages.
abbrev pub messages : List MessageEntry
messages =
    record { id = heartbeat_id; send = some send_heartbeat; row = some heartbeat_index }
    ∷ record { id = sys_status_id; send = some send_sys_status; row = some sys_status_index }
    ∷ record { id = system_time_id; send = some send_system_time; row = some system_time_index }
    ∷ record { id = battery_status_id; send = some send_battery_status; row = some battery_index }
    ∷ record { id = autopilot_version_id; send = some send_autopilot_version; row = none }
    ∷ record { id = protocol_version_id; send = some send_protocol_version; row = none }
    ∷ record { id = statustext_id; send = some send_boot_statement; row = none }
    ∷ record { id = named_value_int_id; send = none; row = some housekeeping_index }
    ∷ []

-- The loop of `findMessage` over the entries left.
unfoldable pub find_in : ℕ → List MessageEntry → Option MessageEntry
find_in id [] = none
find_in id (entry ∷ rest) =
    let later = find_in id rest in if entry.id == id then some entry else later

unfoldable pub find_message : ℕ → Option MessageEntry
unfolding find_in
find_message id = find_in id messages

-- The rows at the start of the task, all of a port's.
unfoldable pub initial_rows : Bool → ℕ → List ScheduleEntry
initial_rows reduced start_ms =
    record {
      function = send_heartbeat;
      interval_ms = 1000;
      last_ms = sub_u32 start_ms 1000;
      enabled = true;
    }
    ∷ record {
      function = send_system_time;
      interval_ms = 1000;
      last_ms = sub_u32 start_ms 500;
      enabled = true;
    }
    ∷ record {
      function = send_battery_status;
      interval_ms = 2000;
      last_ms = sub_u32 start_ms 2000;
      enabled = not reduced;
    }
    ∷ record {
      function = send_housekeeping;
      interval_ms = 1000;
      last_ms = start_ms;
      enabled = false;
    }
    ∷ record {
      function = send_sys_status;
      interval_ms = 1000;
      last_ms = sub_u32 start_ms 250;
      enabled = true;
    }
    ∷ []

-- How long until an entry is due, and the least over the enabled ones.
unfoldable pub due_in : ℕ → ScheduleEntry → ℕ
due_in now entry =
    let elapsed = sub_u32 now entry.last_ms in
    if leb entry.interval_ms elapsed then 0 else entry.interval_ms - elapsed

unfoldable pub wait_loop : ℕ → List ScheduleEntry → ℕ → ℕ
unfolding due_in
wait_loop now [] wait_ms = wait_ms
wait_loop now (entry ∷ rest) wait_ms =
    let due = due_in now entry in
    let next = if not entry.enabled then wait_ms else if ltb due wait_ms then due else wait_ms in
    wait_loop now rest next

unfoldable pub wait_time : ℕ → Ports (List ScheduleEntry) → ℕ
wait_time now schedule = wait_loop now schedule.usb (wait_loop now schedule.uart uint32_max)

unfoldable pub is_due : ℕ → ScheduleEntry → Bool
is_due now entry = entry.enabled && leb entry.interval_ms (sub_u32 now entry.last_ms)

-- An entry after its function was called.
unfoldable pub advanced : ScheduleEntry → ScheduleEntry
advanced entry = record entry { last_ms = u32 (entry.last_ms + entry.interval_ms) }

module _ (b : Board) (config : Config) where
  -- The body of the loop over a port's rows, and the loop. A function that it calls does not touch
  -- the schedule.
  unfoldable pub fire_row : ℕ → ℕ → ScheduleEntry → State b → ScheduleEntry × State b
  unfolding is_due advanced
  fire_row port now entry s =
      let due = is_due now entry in
      (
        if due then advanced entry else entry,
        if due then call_sender b config entry.function port s else s,
      )

  unfoldable pub fire_rows : ℕ → ℕ → List ScheduleEntry → State b → List ScheduleEntry × State b
  unfolding fire_row
  fire_rows port now [] s = ([], s)
  fire_rows port now (entry ∷ rest) s =
      let (entry, s) = fire_row port now entry s in
      let (rest, s) = fire_rows port now rest s in (entry ∷ rest, s)

  unfoldable pub fire_port : ℕ → ℕ → State b → State b
  unfolding fire_rows
  fire_port port now s =
      let (rows, s) = fire_rows port now (port_at port s.schedule) s in
      record s { schedule = set_port port rows s.schedule }

  -- Both ports' rows that are due.
  unfoldable pub fire_due : ℕ → State b → State b
  unfolding fire_port
  fire_due now s = fire_port 1 now (fire_port 0 now s)
