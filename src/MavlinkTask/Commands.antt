-- ===== src/MavlinkTask/Commands.antt =====
-- src/mavlink.cpp, the answers to a COMMAND_LONG.
use boredom_os.Prelude.{
  ℕ, zero, suc, ◌*◌, ◌/◌, ◌^◌, Bool, true, false, not, ◌||◌, Option, none, some, List, [], ◌∷◌, u32,
  uint32_max, ◌==◌, ltb, leb, if◌then◌else◌, get_or,
}
use boredom_os.Recovery.{DeliberateReset, reinitialise, set_deliberate_reset}
use boredom_os.Download.{port_at, set_port}
use boredom_os.MavlinkTask.{
  MavResult, accepted, temporarily_rejected, denied, unsupported, Sender, ScheduleEntry, Command,
  Board, Config, State,
}
use boredom_os.MavlinkTask.Float.{Float, to_u16, to_i32, message_id_from_param}
use boredom_os.MavlinkTask.Sends.{
  send_command_ack, send_autopilot_version, send_message_interval, call_sender,
}
use boredom_os.MavlinkTask.Schedule.{
  MessageEntry, named_value_int_id, housekeeping_index, find_message,
}

abbrev pub request_autopilot_capabilities : ℕ
request_autopilot_capabilities = 520

abbrev pub preflight_reboot_shutdown : ℕ
preflight_reboot_shutdown = 246

abbrev pub set_message_interval : ℕ
set_message_interval = 511

abbrev pub request_message : ℕ
request_message = 512

abbrev pub get_message_interval : ℕ
get_message_interval = 510

-- -1, as 32 bits.
abbrev pub interval_off : ℕ
interval_off = uint32_max

-- `schedule[port][index]`; every index is below the number of rows.
abbrev pub no_row : ScheduleEntry
no_row = record { function = Sender.send_heartbeat; interval_ms = 0; last_ms = 0; enabled = false }

unfoldable pub row_at : ℕ → List ScheduleEntry → ScheduleEntry
row_at index rows = get_or rows index no_row

unfoldable pub set_row : ℕ → ScheduleEntry → List ScheduleEntry → List ScheduleEntry
set_row index entry [] = []
set_row zero entry (old ∷ rest) = entry ∷ rest
set_row (suc index) entry (old ∷ rest) = old ∷ set_row index entry rest

-- What a SET_MESSAGE_INTERVAL for housekeeping does to its row, and the result.
unfoldable pub set_interval : Float → ℕ → ScheduleEntry → MavResult × ScheduleEntry
unfolding to_i32
set_interval param2 now row =
    let requested_us = to_i32 param2 in
    let requested_ms = requested_us / 1000 in
    if requested_us == 0 || leb (2 ^ 31) requested_us
    then (accepted, record row { enabled = false })
    else if ltb requested_ms 1000
    then (denied, row)
    else (accepted, record row { interval_ms = requested_ms; last_ms = now; enabled = true })

-- The interval that GET_MESSAGE_INTERVAL reports.
unfoldable pub reported_interval : ℕ → List ScheduleEntry → ℕ
unfolding find_message row_at
reported_interval id rows = elim (find_message id) [
  | none ↦ 0
  | some entry ↦ elim entry.row [
    | none ↦ interval_off
    | some index ↦
        let row = row_at index rows in
        if row.enabled then u32 (row.interval_ms * 1000) else interval_off
  ]
]

-- Whether the stream of a message is withheld.
unfoldable pub is_withheld : Option ℕ → List ScheduleEntry → Bool
unfolding row_at
is_withheld none rows = false
is_withheld (some index) rows = not (row_at index rows).enabled

-- The entry that a REQUEST_MESSAGE names.
unfoldable pub entry_of : Option ℕ → Option MessageEntry
unfolding find_message
entry_of none = none
entry_of (some id) = find_message id

unfoldable pub requested_entry : Float → Option MessageEntry
unfolding message_id_from_param entry_of
requested_entry param1 = entry_of (message_id_from_param param1)

-- The function that a REQUEST_MESSAGE calls, or the result that refuses it.
unfoldable pub decide_request : Option MessageEntry → List ScheduleEntry → MavResult × Option Sender
unfolding is_withheld
decide_request none rows = (denied, none)
decide_request (some entry) rows = elim entry.send [
  | none ↦ (denied, none)
  | some sender ↦
      if is_withheld entry.row rows then (temporarily_rejected, none) else (accepted, some sender)
]

module _ (b : Board) (config : Config) where
  open b use {delay}

  -- The reboot: NVIC_SystemReset is the last call.
  unfoldable pub handle_reboot : ℕ → Command → State b → State b
  unfolding send_command_ack
  handle_reboot port command s =
      let s = send_command_ack b config port command.command accepted s in
      let block = set_deliberate_reset DeliberateReset.commanded (reinitialise s.block) in
      record s { block = block; hardware = delay 50 s.hardware; was_reset = true }

  -- The change of the port's housekeeping row, and the result.
  unfoldable pub set_housekeeping : ℕ → ℕ → Command → State b → State b
  unfolding send_command_ack set_interval row_at set_row
  set_housekeeping port now command s =
      let rows = port_at port s.schedule in
      let (result, row) = set_interval command.param2 now (row_at housekeeping_index rows) in
      let schedule = set_port port (set_row housekeeping_index row rows) s.schedule in
      send_command_ack b config port command.command result (record s { schedule = schedule })

  unfoldable pub handle_set_interval : ℕ → ℕ → Command → State b → State b
  unfolding send_command_ack set_housekeeping to_u16
  handle_set_interval port now command s =
      if to_u16 command.param1 == named_value_int_id
      then set_housekeeping port now command s
      else send_command_ack b config port command.command denied s

  -- `entry->send(port)`, where there is one.
  unfoldable pub send_requested : ℕ → Option Sender → State b → State b
  send_requested port none s = s
  send_requested port (some sender) s = call_sender b config sender port s

  unfoldable pub handle_request_message : ℕ → Command → State b → State b
  unfolding send_command_ack requested_entry decide_request send_requested
  handle_request_message port command s =
      let (result, sender) =
        decide_request (requested_entry command.param1) (port_at port s.schedule) in
      let s = send_command_ack b config port command.command result s in
      send_requested port sender s

  -- The answer about a message id, or about a parameter that is none.
  unfoldable pub answer_interval : ℕ → Command → Option ℕ → State b → State b
  unfolding send_command_ack send_message_interval reported_interval
  answer_interval port command none s = send_command_ack b config port command.command denied s
  answer_interval port command (some id) s =
      let s = send_command_ack b config port command.command accepted s in
      send_message_interval b config port id (reported_interval id (port_at port s.schedule)) s

  unfoldable pub handle_get_interval : ℕ → Command → State b → State b
  unfolding message_id_from_param answer_interval
  handle_get_interval port command s =
      answer_interval port command (message_id_from_param command.param1) s

  -- The chain on the command's number.
  unfoldable pub handle_command : ℕ → ℕ → Command → State b → State b
  unfolding send_command_ack send_autopilot_version handle_reboot handle_set_interval
      handle_request_message handle_get_interval
  handle_command port now command s =
      if command.command == request_autopilot_capabilities
      then send_command_ack b config port command.command accepted
          (send_autopilot_version b config port s)
      else if command.command == preflight_reboot_shutdown
      then handle_reboot port command s
      else if command.command == set_message_interval
      then handle_set_interval port now command s
      else if command.command == request_message
      then handle_request_message port command s
      else if command.command == get_message_interval
      then handle_get_interval port command s
      else send_command_ack b config port command.command unsupported s
