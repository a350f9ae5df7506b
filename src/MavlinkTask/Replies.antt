-- ===== src/MavlinkTask/Replies.antt =====
-- The answers of TaskMavlink: an acknowledgement for every COMMAND_LONG, on the port that it came
-- on.
use boredom_os.Prelude.{ℕ, ◌≡◌, refl, Option, none, some, List, [], ◌∷◌, ◌++◌, arith, ◌∙◌, ap}
use boredom_os.Download.{port_at}
use boredom_os.MavlinkTask.{Sender, Board, Config, State, enqueue_intent, Inbound, Command}
use boredom_os.MavlinkTask.Float.{message_id_from_param}
use boredom_os.MavlinkTask.Sends.{send_autopilot_version, send_command_ack, send_message_interval}
use boredom_os.MavlinkTask.Commands.{
  handle_command, handle_reboot, handle_set_interval, set_housekeeping, answer_interval,
  handle_request_message, send_requested, handle_get_interval, requested_entry, decide_request,
}
use boredom_os.MavlinkTask.Handlers.{handle_inbound}
use boredom_os.MavlinkTask.Steps.{Stable, handle_inbound-stable}
use boredom_os.MavlinkTask.Frames.{acks, call_sender-OnlyOffers}

-- The port and the command of a message, if it is a COMMAND_LONG.
abbrev pub command_in : Option (ℕ × Inbound) → List (ℕ × ℕ)
command_in (some (port, Inbound.command_long command)) = (port, command.command) ∷ []
command_in _ = []

module _ (b : Board) (config : Config) where
  open b use {clocks, receive}

  acks-send_requested :
      (port : ℕ) (sender : Option Sender) (s : State b)
      → acks (send_requested b config port sender s).offered ≡ acks s.offered
  unfolding send_requested
  acks-send_requested port none s = refl
  acks-send_requested port (some f) s = (call_sender-OnlyOffers b config f port s).2

  request_acks :
      (port : ℕ) (command : Command) (s : State b)
      → acks (handle_request_message b config port command s).offered
        ≡ (port, command.command) ∷ acks s.offered
  unfolding handle_request_message send_command_ack enqueue_intent acks
  request_acks port command s =
      let (result, sender) =
        decide_request (requested_entry command.param1) (port_at port s.schedule) in
      acks-send_requested port sender (send_command_ack b config port command.command result s)

  set_acks :
      (port now : ℕ) (command : Command) (s : State b)
      → acks (handle_set_interval b config port now command s).offered
        ≡ (port, command.command) ∷ acks s.offered
  unfolding handle_set_interval set_housekeeping send_command_ack enqueue_intent acks
  set_acks port now command s = ground arith

  acks-answer_interval :
      (port : ℕ) (command : Command) (id : Option ℕ) (s : State b)
      → acks (answer_interval b config port command id s).offered
        ≡ (port, command.command) ∷ acks s.offered
  unfolding answer_interval send_command_ack send_message_interval enqueue_intent acks
  acks-answer_interval port command none s = refl
  acks-answer_interval port command (some id) s = refl

  get_acks :
      (port : ℕ) (command : Command) (s : State b)
      → acks (handle_get_interval b config port command s).offered
        ≡ (port, command.command) ∷ acks s.offered
  unfolding handle_get_interval
  get_acks port command s =
      acks-answer_interval port command (message_id_from_param command.param1) s

  acks-handle_command :
      (port now : ℕ) (command : Command) (s : State b)
      → acks (handle_command b config port now command s).offered
        ≡ (port, command.command) ∷ acks s.offered
  unfolding handle_command handle_reboot send_command_ack send_autopilot_version enqueue_intent acks
  acks-handle_command port now command s =
      ground
        (arith, set_acks port now command s, get_acks port command s, request_acks port command s)

  -- What is acknowledged is the same.
  pub acks-Stable : (was : List (ℕ × ℕ)) → Stable b config (λ s. acks s.offered ≡ was)
  acks-Stable was = record {
    offers = λ s s' (_, _, same) p. same ∙ p;
    posts = λ s s' (_, same) p. ap acks same ∙ p;
    clock = λ s time hw reseed battery p. p;
  }

  pub acks-handle_inbound :
      (now port : ℕ) (incoming : Inbound) (s : State b)
      → acks (handle_inbound b config now port incoming s).offered
        ≡ command_in (some (port, incoming)) ++ acks s.offered
  unfolding handle_inbound
  acks-handle_inbound now port (Inbound.command_long command) s =
      acks-handle_command port now command s
  acks-handle_inbound now port incoming s =
      handle_inbound-stable b config (λ after. acks after.offered ≡ acks s.offered)
        (acks-Stable (acks s.offered)) now port incoming s refl refl
