-- ===== src/MavlinkTask/Requests.antt =====
-- What TaskMavlink answers to a request for a message, and on which port a command is answered.
use boredom_os.Prelude.{
  ℕ, ◌+◌, ◌*◌, ◌<◌, ◌≡◌, refl, Bool, false, Option, none, some, List, arith, ◌==◌, ◌∙◌, ap,
  if◌then◌else◌,
}
use boredom_os.MavlinkTask.{
  Sender, send_heartbeat, send_system_time, send_battery_status, send_sys_status,
  send_autopilot_version, send_protocol_version, send_boot_statement, ScheduleEntry, Board, Config,
  State, MavResult, accepted, temporarily_rejected, denied, Command,
}
use boredom_os.MavlinkTask.Float.{
  Float, finite, float_unit, to_u16, message_id_from_param, at_least_zero, at_most, equals,
}
use boredom_os.MavlinkTask.Sends.{send_command_ack}
use boredom_os.MavlinkTask.Schedule.{find_message, find_in, named_value_int_id}
use boredom_os.MavlinkTask.Commands.{
  handle_set_interval, set_housekeeping, answer_interval, handle_get_interval, row_at,
  decide_request, requested_entry, entry_of, is_withheld,
}
use boredom_os.MavlinkTask.Shape.{IsSchedule, five}

-- What is to be answered for an id, and with which message.
abbrev pub request_table : Bool → Option ℕ → MavResult × Option Sender
request_table reduced none = (denied, none)
request_table reduced (some id) =
    if id == 0
    then (accepted, some send_heartbeat)
    else if id == 1
    then (accepted, some send_sys_status)
    else if id == 2
    then (accepted, some send_system_time)
    else if id == 147
    then if reduced then (temporarily_rejected, none) else (accepted, some send_battery_status)
    else if id == 148
    then (accepted, some send_autopilot_version)
    else if id == 253
    then (accepted, some send_boot_statement)
    else if id == 300
    then (accepted, some send_protocol_version)
    else (denied, none)

decide_five :
    (reduced : Bool) (rows : List ScheduleEntry) (id : ℕ) (good : IsSchedule reduced rows)
    → decide_request
        (find_message id)
        (five good.heartbeat good.system_time good.battery good.housekeeping good.sys_status)
      ≡ request_table reduced (some id)
unfolding decide_request find_message find_in is_withheld row_at
decide_five reduced rows id good =
    let (_, _, h) = good.heartbeat_stream in
    let (_, _, t) = good.system_time_stream in
    let (_, _, v) = good.battery_stream in let (_, _, s) = good.sys_status_stream in ground arith

entry_of_lem :
    (id : Option ℕ) (rows : List ScheduleEntry) (reduced : Bool)
    → IsSchedule reduced rows
    → decide_request (entry_of id) rows ≡ request_table reduced id
unfolding entry_of decide_request
entry_of_lem none rows reduced good = refl
entry_of_lem (some id) rows reduced good =
    ap (decide_request (find_message id)) good.rows_five ∙ decide_five reduced rows id good

-- What a REQUEST_MESSAGE is answered, for any parameter, on a port whose rows are well formed: a
-- parameter that is no message id, an id that the board does not send and housekeeping's are
-- denied; BATTERY_STATUS is put off in the reduced configuration; and every other id is accepted,
-- for the message that it names.
pub requested_entry_lem :
    (param1 : Float) (rows : List ScheduleEntry) (reduced : Bool)
    → IsSchedule reduced rows
    → decide_request (requested_entry param1) rows
      ≡ request_table reduced (message_id_from_param param1)
unfolding requested_entry
requested_entry_lem param1 rows reduced good =
    entry_of_lem (message_id_from_param param1) rows reduced good

fraction_lem :
    (fraction : ℕ)
    → 0 < fraction
    → fraction < float_unit
    → let param = finite false (named_value_int_id * float_unit + fraction) in
      (to_u16 param ≡ named_value_int_id) × (message_id_from_param param ≡ none)
unfolding to_u16 message_id_from_param at_least_zero at_most equals
fraction_lem fraction some_of less = (ground arith, ground arith)

module _ (b : Board) (config : Config) where
  -- A parameter between 252 and 253, which is no message id: GET_MESSAGE_INTERVAL denies it, as the
  -- comment on message ids says, and SET_MESSAGE_INTERVAL takes it for NAMED_VALUE_INT, 252, and
  -- sets the housekeeping row.
  pub fraction_sets :
      (fraction port now : ℕ) (command : Command) (s : State b)
      → 0 < fraction
      → fraction < float_unit
      → command.param1 ≡ finite false (named_value_int_id * float_unit + fraction)
      → (handle_set_interval b config port now command s
          ≡ set_housekeeping b config port now command s)
        × (handle_get_interval b config port command s
            ≡ send_command_ack b config port command.command denied s)
  unfolding handle_set_interval handle_get_interval answer_interval
  fraction_sets fraction port now command s some_of less e =
      let (taken, no_id) = fraction_lem fraction some_of less in
      (
        rw (ap to_u16 e ∙ taken) refl,
        ap (λ id. answer_interval b config port command id s) (ap message_id_from_param e ∙ no_id),
      )
