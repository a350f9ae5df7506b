-- ===== src/MavlinkTask/Isolation.antt =====
-- A command on one port of TaskMavlink leaves the other port alone: its queue and its schedule.
use boredom_os.Prelude.{
  ℕ, zero, suc, ◌<◌, ◌≡◌, refl, false, Option, none, some, arith, ◌==◌, ◌∙◌, ap,
}
use boredom_os.Download.{Ports, port_at, set_port}
use boredom_os.MavlinkTask.{Intent, Sender, Board, Config, State, enqueue_intent, Command}
use boredom_os.MavlinkTask.Float.{message_id_from_param}
use boredom_os.MavlinkTask.Sends.{
  call_sender, send_heartbeat, send_system_time, send_battery_status, send_housekeeping,
  send_sys_status, send_autopilot_version, send_protocol_version, send_boot_statement,
  send_command_ack, send_message_interval, send_status_text,
}
use boredom_os.MavlinkTask.Commands.{
  handle_command, handle_reboot, handle_set_interval, set_housekeeping, handle_request_message,
  send_requested, answer_interval, handle_get_interval, decide_request, requested_entry,
}
use boredom_os.MavlinkTask.Frames.{offered_to, Core, call_sender-OnlyOffers}

port_at-set_port_other :
    {A : Type 0} (port other : ℕ) (a : A) (s : Ports A)
    → port < 2
    → other < 2
    → (port == other) ≡ false
    → port_at other (set_port port a s) ≡ port_at other s
port_at-set_port_other zero zero a s p q e = ground arith
port_at-set_port_other zero (suc other) a s p q e = refl
port_at-set_port_other (suc port) zero a s p q e = refl
port_at-set_port_other (suc port) (suc other) a s p q e = ground arith

module _ (b : Board) (config : Config) where
  -- What an offer to a port is to another.
  offer_other :
      (port other : ℕ) (intent : Intent) (s : State b)
      → (port == other) ≡ false
      → offered_to other (enqueue_intent b port intent s).offered ≡ offered_to other s.offered
  unfolding enqueue_intent offered_to
  offer_other port other intent s e = rw (e) refl

  call_sender_other :
      (sender : Sender) (port other : ℕ) (s : State b)
      → (port == other) ≡ false
      → offered_to other (call_sender b config sender port s).offered ≡ offered_to other s.offered
  unfolding call_sender send_heartbeat send_system_time send_battery_status send_sys_status
      send_housekeeping send_autopilot_version send_protocol_version send_boot_statement
      send_status_text enqueue_intent offered_to
  call_sender_other Sender.send_heartbeat port other s e = rw (e) refl
  call_sender_other Sender.send_system_time port other s e = rw (e) refl
  call_sender_other Sender.send_battery_status port other s e = rw (e) refl
  call_sender_other Sender.send_housekeeping port other s e = ground arith
  call_sender_other Sender.send_sys_status port other s e = rw (e) refl
  call_sender_other Sender.send_autopilot_version port other s e = rw (e) refl
  call_sender_other Sender.send_protocol_version port other s e = rw (e) refl
  call_sender_other Sender.send_boot_statement port other s e = rw (e) refl

  -- Nothing of a port: neither its offers nor its rows.
  abbrev pub SameAt : ℕ → State b → State b → Type 0
  SameAt other s after =
      (offered_to other after.offered ≡ offered_to other s.offered)
      × (port_at other after.schedule ≡ port_at other s.schedule)

  send_requested_other :
      (sender : Option Sender) (port other : ℕ) (s : State b)
      → (port == other) ≡ false
      → SameAt other s (send_requested b config port sender s)
  unfolding send_requested
  send_requested_other none port other s e = (refl, refl)
  send_requested_other (some sender) port other s e = (
    call_sender_other sender port other s e,
    ap (λ (c : Core). port_at other c.schedule) (call_sender-OnlyOffers b config sender port s).0,
  )

  request_other :
      (port other : ℕ) (command : Command) (s : State b)
      → (port == other) ≡ false
      → SameAt other s (handle_request_message b config port command s)
  unfolding handle_request_message send_command_ack enqueue_intent
  request_other port other command s e =
      let (result, sender) =
        decide_request (requested_entry command.param1) (port_at port s.schedule) in
      let s' = send_command_ack b config port command.command result s in
      let (offers, rows) = send_requested_other sender port other s' e in
      (offers ∙ offer_other port other (Intent.command_ack command.command result) s e, rows)

  answer_interval_other :
      (port other : ℕ) (command : Command) (id : Option ℕ) (s : State b)
      → (port == other) ≡ false
      → SameAt other s (answer_interval b config port command id s)
  unfolding answer_interval send_command_ack send_message_interval enqueue_intent offered_to
  answer_interval_other port other command none s e = (rw (e) refl, refl)
  answer_interval_other port other command (some id) s e = (rw (e) refl, refl)

  set_other :
      (port other now : ℕ) (command : Command) (s : State b)
      → port < 2
      → other < 2
      → (port == other) ≡ false
      → SameAt other s (set_housekeeping b config port now command s)
  unfolding set_housekeeping send_command_ack enqueue_intent offered_to
  set_other port other now command s p q e =
      (rw (e) refl, port_at-set_port_other port other _ s.schedule p q e)

  -- A command on a port, whatever it is and whatever it is answered, offers nothing to the other
  -- port and leaves the other port's rows as they are.
  pub handle_command_other :
      (port other now : ℕ) (command : Command) (s : State b)
      → port < 2
      → other < 2
      → (port == other) ≡ false
      → SameAt other s (handle_command b config port now command s)
  unfolding handle_command handle_reboot handle_set_interval handle_get_interval send_command_ack
      send_autopilot_version enqueue_intent offered_to
  handle_command_other port other now command s p q e =
      let set = set_other port other now command s p q e in
      let requested = request_other port other command s e in
      let asked =
        answer_interval_other port other command (message_id_from_param command.param1) s e in
      (ground arith, ground arith)
