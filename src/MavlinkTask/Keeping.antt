-- ===== src/MavlinkTask/Keeping.antt =====
-- What every pass of TaskMavlink keeps: the schedule of both ports stays well formed.
use boredom_os.Prelude.{
  ℕ, zero, suc, ◌*◌, ◌≤◌, ◌≡◌, refl, Bool, Option, none, some, List, arith, u32, ◌∙◌, sym, ap,
  subst,
}
use boredom_os.Download.{Ports, port_at, set_port}
use boredom_os.MavlinkTask.{Sender, ScheduleEntry, Board, Config, State, enqueue_intent, Command}
use boredom_os.MavlinkTask.Float.{message_id_from_param}
use boredom_os.MavlinkTask.Sends.{
  send_clock_status_text, send_command_ack, send_autopilot_version, send_message_interval,
  send_boot_status_text,
}
use boredom_os.MavlinkTask.Schedule.{fire_rows, fire_port, housekeeping_index}
use boredom_os.MavlinkTask.Commands.{
  handle_command, handle_reboot, handle_set_interval, set_housekeeping, handle_request_message,
  send_requested, answer_interval, handle_get_interval, set_interval, row_at, set_row,
  decide_request, requested_entry,
}
use boredom_os.MavlinkTask.Passes.{
  start_task, passes, check_uptime, clear_when_stable, retry_when_due,
}
use boredom_os.MavlinkTask.Steps.{Stable}
use boredom_os.MavlinkTask.Invariants.{Invariant, passes-kept}
use boredom_os.MavlinkTask.Frames.{Core, call_sender-OnlyOffers, fire_rows-OnlyOffers}
use boredom_os.MavlinkTask.Shape.{
  IsSchedule, initial_rows-IsSchedule, set_row-IsSchedule, set_interval_bounds,
  fire_rows-IsSchedule,
}

-- Both ports' rows are well formed.
abbrev pub Ready : Bool → Ports (List ScheduleEntry) → Type 0
Ready reduced schedule = IsSchedule reduced schedule.uart × IsSchedule reduced schedule.usb

set_port-Ready :
    (reduced : Bool) (port : ℕ) (rows : List ScheduleEntry) (schedule : Ports (List ScheduleEntry))
    → Ready reduced schedule
    → IsSchedule reduced rows
    → Ready reduced (set_port port rows schedule)
set_port-Ready reduced zero rows schedule (uart, usb) good = (good, usb)
set_port-Ready reduced (suc port) rows schedule (uart, usb) good = (uart, good)

port_at-Ready :
    (reduced : Bool) (port : ℕ) (schedule : Ports (List ScheduleEntry))
    → Ready reduced schedule
    → IsSchedule reduced (port_at port schedule)
port_at-Ready reduced zero schedule (uart, usb) = uart
port_at-Ready reduced (suc port) schedule (uart, usb) = usb

module _ (b : Board) (config : Config) where
  open b use {clocks, receive, tick_count, tick_period_ms}

  abbrev pub reduced : Bool
  reduced = config.reduced_configuration

  -- A state whose schedule is another's is as ready as it.
  abbrev KeepsSchedule : State b → State b → Type 0
  KeepsSchedule s after = after.schedule ≡ s.schedule

  set_housekeeping-Ready :
      (port now : ℕ) (command : Command) (s : State b)
      → Ready reduced s.schedule
      → Ready reduced (set_housekeeping b config port now command s).schedule
  unfolding set_housekeeping send_command_ack enqueue_intent row_at
  set_housekeeping-Ready port now command s ready =
      let rows = port_at port s.schedule in
      let good = port_at-Ready reduced port s.schedule ready in
      let row = row_at housekeeping_index rows in
      let is_row : row ≡ good.housekeeping = ap (row_at housekeeping_index) good.rows_five in
      let (same, least, most) =
        set_interval_bounds command.param2 now row
          (subst (λ r. 1000 ≤ r.interval_ms) (sym is_row) good.housekeeping_least)
          (subst (λ r. r.interval_ms ≤ 2147483) (sym is_row) good.housekeeping_most) in
      let after = (set_interval command.param2 now row).1 in
      set_port-Ready reduced port (set_row housekeeping_index after rows) s.schedule ready (
        set_row-IsSchedule reduced rows after good
          (same ∙ ap (λ (r : ScheduleEntry). r.function) is_row ∙ good.housekeeping_function) least
          most)

  send_requested-schedule :
      (port : ℕ) (sender : Option Sender) (s : State b)
      → KeepsSchedule s (send_requested b config port sender s)
  unfolding send_requested
  send_requested-schedule port none s = refl
  send_requested-schedule port (some sender) s =
      ap (λ (c : Core). c.schedule) (call_sender-OnlyOffers b config sender port s).0

  request-schedule :
      (port : ℕ) (command : Command) (s : State b)
      → KeepsSchedule s (handle_request_message b config port command s)
  unfolding handle_request_message send_command_ack enqueue_intent
  request-schedule port command s =
      let (result, sender) =
        decide_request (requested_entry command.param1) (port_at port s.schedule) in
      send_requested-schedule port sender (send_command_ack b config port command.command result s)

  answer_interval-schedule :
      (port : ℕ) (command : Command) (id : Option ℕ) (s : State b)
      → KeepsSchedule s (answer_interval b config port command id s)
  unfolding answer_interval send_command_ack send_message_interval enqueue_intent
  answer_interval-schedule port command none s = refl
  answer_interval-schedule port command (some id) s = refl

  pub handle_command-Ready :
      (port now : ℕ) (command : Command) (s : State b)
      → Ready reduced s.schedule
      → Ready reduced (handle_command b config port now command s).schedule
  unfolding handle_command handle_reboot handle_set_interval handle_get_interval send_command_ack
      send_autopilot_version enqueue_intent
  handle_command-Ready port now command s ready =
      let P : State b → Type 0 = λ after. Ready reduced after.schedule in
      let asked = answer_interval-schedule port command (message_id_from_param command.param1) s in
      let requested = request-schedule port command s in
      let set = set_housekeeping-Ready port now command s ready in ground arith

  Ready-Stable : Stable b config (λ s. Ready reduced s.schedule)
  Ready-Stable = record {
    offers =
        λ s s' (same, _, _) p. subst (Ready reduced) (sym (ap (λ (c : Core). c.schedule) same)) p;
    posts = λ s s' (same, _) p. subst (Ready reduced) (sym (ap (λ (c : Core). c.schedule) same)) p;
    clock = λ s time hw reseed battery p. p;
  }

  fire_port-Ready :
      (port now : ℕ) (s : State b)
      → Ready reduced s.schedule
      → Ready reduced (fire_port b config port now s).schedule
  unfolding fire_port
  fire_port-Ready port now s ready =
      let rows = port_at port s.schedule in
      let (after, s') = fire_rows b config port now rows s in
      let same = ap (λ (c : Core). c.schedule) (fire_rows-OnlyOffers b config port now rows s).0 in
      set_port-Ready reduced port after s'.schedule (subst (Ready reduced) (sym same) ready) (
        fire_rows-IsSchedule b config reduced port now rows s
          (port_at-Ready reduced port s.schedule ready))

  check_uptime-schedule : (s : State b) → KeepsSchedule s (check_uptime b config s)
  unfolding check_uptime clear_when_stable retry_when_due
  check_uptime-schedule s = ground arith

  Ready-Invariant : Invariant b config (λ s. Ready reduced s.schedule)
  Ready-Invariant = record {
    stable = Ready-Stable;
    commands = handle_command-Ready;
    rows = fire_port-Ready;
    uptime = λ s p. subst (Ready reduced) (sym (check_uptime-schedule s)) p;
  }

  -- From the task's start on, after any number of passes, whatever arrives: both ports have their
  -- five rows in order; HEARTBEAT, SYSTEM_TIME and SYS_STATUS are on, once a second; BATTERY_STATUS
  -- is on, every two, exactly in the normal configuration; and housekeeping's interval is from 1000
  -- to 2147483 milliseconds.
  pub start_task-Ready :
      (n : ℕ) (s : State b) → Ready reduced (passes b config n (start_task b config s)).schedule
  unfolding start_task
  start_task-Ready n s =
      let s' = send_clock_status_text b config (send_boot_status_text b config s) in
      let start_ms = u32 ((tick_count s'.hardware).0 * tick_period_ms) in
      passes-kept b config (λ s. Ready reduced s.schedule) Ready-Invariant n (start_task b config s)
        (initial_rows-IsSchedule reduced start_ms, initial_rows-IsSchedule reduced start_ms)
