-- ===== src/MavlinkTask/Intervals.antt =====
-- SET_MESSAGE_INTERVAL and GET_MESSAGE_INTERVAL, together and on every id.
use boredom_os.Prelude.{
  ℕ, ◌-◌, ◌*◌, ◌%◌, ◌^◌, ◌<◌, ◌≡◌, refl, Bool, ◌||◌, some, List, ◌∷◌, arith, u32, ◌==◌, ltb, leb,
  ◌∙◌, sym, ap, if◌then◌else◌,
}
use boredom_os.Download.{port_at, port_at-set_port}
use boredom_os.MavlinkTask.{
  command_ack, message_interval, ScheduleEntry, Board, Config, State, enqueue_intent, MavResult,
  accepted, denied, Command,
}
use boredom_os.MavlinkTask.Float.{Float, to_i32, to_u16, message_id_from_param}
use boredom_os.MavlinkTask.Sends.{send_command_ack, send_message_interval}
use boredom_os.MavlinkTask.Schedule.{find_message, find_in, named_value_int_id, housekeeping_index}
use boredom_os.MavlinkTask.Commands.{
  set_interval, set_row, row_at, reported_interval, interval_off, handle_set_interval,
  set_housekeeping, answer_interval, handle_get_interval,
}
use boredom_os.MavlinkTask.Shape.{IsSchedule, five}

reported_five :
    (reduced : Bool) (rows : List ScheduleEntry) (id : ℕ) (good : IsSchedule reduced rows)
    → reported_interval id
        (five good.heartbeat good.system_time good.battery good.housekeeping good.sys_status)
      ≡ (if id == 0 || id == 1 || id == 2
          then 1000000
          else if id == 147
          then if reduced then interval_off else 2000000
          else if id == 148 || id == 253 || id == 300
          then interval_off
          else if id == 252
          then if good.housekeeping.enabled
            then good.housekeeping.interval_ms * 1000
            else interval_off
          else 0)
unfolding reported_interval find_message find_in row_at
reported_five reduced rows id good =
    let (_, h, h') = good.heartbeat_stream in
    let (_, t, t') = good.system_time_stream in
    let (_, v, v') = good.battery_stream in
    let (_, s, s') = good.sys_status_stream in let most = good.housekeeping_most in ground arith

-- What GET_MESSAGE_INTERVAL reports of each id, on a port whose rows are well formed: a second for
-- HEARTBEAT, SYS_STATUS and SYSTEM_TIME; two for BATTERY_STATUS, which is off in the reduced
-- configuration; off for what is only sent on request; housekeeping's own interval, unless it is
-- off, which is within the field's 31 bits; and 0 for every other id.
pub reported_interval_lem :
    (reduced : Bool) (rows : List ScheduleEntry) (id : ℕ) (good : IsSchedule reduced rows)
    → (reported_interval id rows ≡ (
        if id == 0 || id == 1 || id == 2
        then 1000000
        else if id == 147
        then if reduced then interval_off else 2000000
        else if id == 148 || id == 253 || id == 300
        then interval_off
        else if id == 252
        then if good.housekeeping.enabled
          then good.housekeeping.interval_ms * 1000
          else interval_off
        else 0))
      × (good.housekeeping.interval_ms * 1000 < 2 ^ 31)
unfolding reported_interval find_message find_in row_at
reported_interval_lem reduced rows id good = (
  ap (reported_interval id) good.rows_five ∙ reported_five reduced rows id good,
  let most = good.housekeeping_most in omega arith,
)

-- The housekeeping row that a command sets, as GET reports it.
abbrev reported_row : ScheduleEntry → ℕ
reported_row row = if row.enabled then u32 (row.interval_ms * 1000) else interval_off

set_interval_lem :
    (param2 : Float) (now : ℕ) (row : ScheduleEntry)
    → let us = to_i32 param2 in
      let (result, after) = set_interval param2 now row in
      (result ≡ (
        if us == 0 || leb (2 ^ 31) us
        then accepted
        else if ltb us 1000000
        then denied
        else accepted))
      × (reported_row after ≡ (
          if us == 0 || leb (2 ^ 31) us
          then interval_off
          else if ltb us 1000000
          then reported_row row
          else us - us % 1000))
unfolding set_interval
set_interval_lem param2 now row = (ground arith, ground arith)

module _ (b : Board) (config : Config) where
  reported_five_row :
      (h t v k e : ScheduleEntry)
      → reported_interval named_value_int_id (five h t v k e) ≡ reported_row k
  unfolding reported_interval find_message find_in row_at
  reported_five_row h t v k e = refl

  set_row-five :
      (h t v k e row : ScheduleEntry)
      → set_row housekeeping_index row (five h t v k e) ≡ five h t v row e
  unfolding set_row
  set_row-five h t v k e row = refl

  answer_offered :
      (port id : ℕ) (get : Command) (s : State b)
      → message_id_from_param get.param1 ≡ some id
      → (handle_get_interval b config port get s).offered
        ≡ (port, message_interval id (reported_interval id (port_at port s.schedule)))
          ∷ (port, command_ack get.command accepted)
          ∷ s.offered
  unfolding handle_get_interval answer_interval send_command_ack send_message_interval
      enqueue_intent
  answer_offered port id get s asks =
      ap (λ got. (answer_interval b config port get got s).offered) asks

  set_selected :
      (port now : ℕ) (set : Command) (s : State b)
      → to_u16 set.param1 ≡ named_value_int_id
      → handle_set_interval b config port now set s ≡ set_housekeeping b config port now set s
  unfolding handle_set_interval
  set_selected port now set s is_housekeeping = rw (is_housekeeping) refl

  set_offered :
      (reduced : Bool) (port now : ℕ) (set : Command) (s : State b)
      (good : IsSchedule reduced (port_at port s.schedule))
      → let (result, row) = set_interval set.param2 now good.housekeeping in
        let after = set_housekeeping b config port now set s in
        (after.offered ≡ (port, command_ack set.command result) ∷ s.offered)
        × (reported_interval named_value_int_id (port_at port after.schedule) ≡ reported_row row)
        × (reported_interval named_value_int_id (port_at port s.schedule)
            ≡ reported_row good.housekeeping)
  unfolding set_housekeeping send_command_ack enqueue_intent row_at
  set_offered reduced port now set s good =
      let rows = port_at port s.schedule in
      let h = good.heartbeat in
      let t = good.system_time in
      let v = good.battery in
      let e = good.sys_status in
      let is_row : row_at housekeeping_index rows ≡ good.housekeeping =
        ap (row_at housekeeping_index) good.rows_five in
      let set_with : ScheduleEntry → MavResult × ScheduleEntry = set_interval set.param2 now in
      let row = (set_with (row_at housekeeping_index rows)).1 in
      (
        ap (λ r. (port, command_ack set.command (set_with r).0) ∷ s.offered) is_row,
        ap (reported_interval named_value_int_id) (
              port_at-set_port port (set_row housekeeping_index row rows) s.schedule
              ∙ ap (set_row housekeeping_index row) good.rows_five
              ∙ set_row-five h t v good.housekeeping e row)
            ∙ reported_five_row h t v row e
            ∙ ap (λ r. reported_row (set_with r).1) is_row,
        ap (reported_interval named_value_int_id) good.rows_five
            ∙ reported_five_row h t v good.housekeeping e,
      )

  -- A SET_MESSAGE_INTERVAL for NAMED_VALUE_INT and a GET_MESSAGE_INTERVAL for it after that, on the
  -- same port, whose rows are well formed: the SET is denied exactly for 1 to 999999 microseconds;
  -- the GET is accepted and reports off after 0 or a negative number, what it reported before after
  -- a denied one, and else the interval that was set, cut to whole milliseconds.
  pub set_then_get :
      (reduced : Bool) (port now : ℕ) (set get : Command) (s : State b)
      → IsSchedule reduced (port_at port s.schedule)
      → to_u16 set.param1 ≡ named_value_int_id
      → message_id_from_param get.param1 ≡ some named_value_int_id
      → let us = to_i32 set.param2 in
        let result =
          if us == 0 || leb (2 ^ 31) us
          then accepted
          else if ltb us 1000000
          then denied
          else accepted in
        let before = reported_interval named_value_int_id (port_at port s.schedule) in
        let reported =
          if us == 0 || leb (2 ^ 31) us
          then interval_off
          else if ltb us 1000000
          then before
          else us - us % 1000 in
        (handle_get_interval b config port get
          (handle_set_interval b config port now set s)).offered
        ≡ (port, message_interval named_value_int_id reported)
          ∷ (port, command_ack get.command accepted)
          ∷ (port, command_ack set.command result)
          ∷ s.offered
  unfolding handle_set_interval handle_get_interval send_command_ack send_message_interval
      enqueue_intent
  set_then_get reduced port now set get s good is_housekeeping asks =
      let us = to_i32 set.param2 in
      let after = set_housekeeping b config port now set s in
      let (offers, told, before) = set_offered reduced port now set s good in
      let was = reported_interval named_value_int_id (port_at port s.schedule) in
      let expected =
        if us == 0 || leb (2 ^ 31) us
        then interval_off
        else if ltb us 1000000
        then was
        else us - us % 1000 in
      let (result, value) = set_interval_lem set.param2 now good.housekeeping in
      let reported =
        told
        ∙ value
        ∙ ap
            (λ was.
              if us == 0 || leb (2 ^ 31) us
              then interval_off
              else if ltb us 1000000
              then was
              else us - us % 1000)
            (sym before) in
      rw (set_selected port now set s is_housekeeping) (
        answer_offered port named_value_int_id get after asks
        ∙ ap
            (λ r.
              (port, message_interval named_value_int_id r)
              ∷ (port, command_ack get.command accepted)
              ∷ after.offered)
            reported
        ∙ ap
            (λ rest.
              (port, message_interval named_value_int_id expected)
              ∷ (port, command_ack get.command accepted)
              ∷ rest)
            (offers ∙ ap (λ r. (port, command_ack set.command r) ∷ s.offered) result))
