-- ===== src/MavlinkTask/Frames.antt =====
-- What the functions of src/mavlink.cpp that only offer messages leave alone, and the
-- acknowledgements.
use boredom_os.Prelude.{
  ℕ, ◌≡◌, refl, Bool, true, false, List, [], ◌∷◌, arith, ◌==◌, ◌∙◌, if◌then◌else◌,
}
use boredom_os.Recovery.{System}
use boredom_os.SystemTime.{SystemTime}
use boredom_os.Download.{Ports, LogRequest}
use boredom_os.Download.Serving.{SdRecord}
use boredom_os.MavlinkTask.{
  Intent, Sender, ScheduleEntry, Board, Config, State, enqueue_intent, post_record,
}
use boredom_os.MavlinkTask.Sends.{
  call_sender, send_heartbeat, send_system_time, send_battery_status, send_housekeeping,
  send_sys_status, send_autopilot_version, send_protocol_version, send_boot_statement,
  send_status_text, send_clock_status_text, log_clock, log_battery, forward_log_request,
}
use boredom_os.MavlinkTask.Schedule.{fire_rows, is_due}

-- The state without the hardware, the counts and what was offered.
pub record Core : Type 0 where
  pub time : SystemTime
  pub block : System
  pub schedule : Ports (List ScheduleEntry)
  pub boot_tick : ℕ
  pub last_reseed_ms : ℕ
  pub last_battery_log_ms : ℕ
  pub stability_cleared : Bool
  pub retry_attempted : Bool
  pub was_reset : Bool

-- The port and the command of each acknowledgement in what was offered.
unfoldable pub acks : List (ℕ × Intent) → List (ℕ × ℕ)
acks [] = []
acks ((port, Intent.command_ack command result) ∷ rest) = (port, command) ∷ acks rest
acks ((port, _) ∷ rest) = acks rest

-- What was offered to one port.
unfoldable pub offered_to : ℕ → List (ℕ × Intent) → List Intent
offered_to port [] = []
offered_to port ((p, intent) ∷ rest) =
    let others = offered_to port rest in if p == port then intent ∷ others else others

module _ (b : Board) (config : Config) where
  abbrev pub core : State b → Core
  core s = record {
    time = s.time;
    block = s.block;
    schedule = s.schedule;
    boot_tick = s.boot_tick;
    last_reseed_ms = s.last_reseed_ms;
    last_battery_log_ms = s.last_battery_log_ms;
    stability_cleared = s.stability_cleared;
    retry_attempted = s.retry_attempted;
    was_reset = s.was_reset;
  }

  -- What holds of both states holds of the one that a test picks.
  pub if_lem :
      (P : State b → Type 0) (test : Bool) (s s' : State b)
      → P s
      → P s'
      → P (if test then s else s')
  if_lem P true s s' p p' = p
  if_lem P false s s' p p' = p'

  -- Nothing but the hardware, the counts and what is offered changes, no record is posted and
  -- nothing is acknowledged.
  abbrev pub OnlyOffers : State b → State b → Type 0
  OnlyOffers s after =
      (core after ≡ core s) × (after.records ≡ s.records) × (acks after.offered ≡ acks s.offered)

  pub OnlyOffers-trans :
      (s s' s'' : State b) → OnlyOffers s s' → OnlyOffers s' s'' → OnlyOffers s s''
  OnlyOffers-trans s s' s'' (c, r, a) (c', r', a') = (c' ∙ c, r' ∙ r, a' ∙ a)

  pub send_housekeeping-OnlyOffers :
      (port : ℕ) (s : State b) → OnlyOffers s (send_housekeeping b config port s)
  unfolding send_housekeeping enqueue_intent acks
  send_housekeeping-OnlyOffers port s = ground arith

  pub call_sender-OnlyOffers :
      (sender : Sender) (port : ℕ) (s : State b) → OnlyOffers s (call_sender b config sender port s)
  unfolding call_sender send_heartbeat send_system_time send_battery_status send_sys_status
      send_autopilot_version send_protocol_version send_boot_statement send_status_text
      enqueue_intent acks
  call_sender-OnlyOffers Sender.send_heartbeat port s = (refl, refl, refl)
  call_sender-OnlyOffers Sender.send_system_time port s = (refl, refl, refl)
  call_sender-OnlyOffers Sender.send_battery_status port s = (refl, refl, refl)
  call_sender-OnlyOffers Sender.send_housekeeping port s = send_housekeeping-OnlyOffers port s
  call_sender-OnlyOffers Sender.send_sys_status port s = (refl, refl, refl)
  call_sender-OnlyOffers Sender.send_autopilot_version port s = (refl, refl, refl)
  call_sender-OnlyOffers Sender.send_protocol_version port s = (refl, refl, refl)
  call_sender-OnlyOffers Sender.send_boot_statement port s = (refl, refl, refl)

  pub send_clock_status_text-OnlyOffers :
      (s : State b) → OnlyOffers s (send_clock_status_text b config s)
  unfolding send_clock_status_text send_status_text enqueue_intent acks
  send_clock_status_text-OnlyOffers s = (refl, refl, refl)

  -- A record is posted at most; the rest is as before.
  abbrev pub OnlyPosts : State b → State b → Type 0
  OnlyPosts s after = (core after ≡ core s) × (after.offered ≡ s.offered)

  pub log_clock-OnlyPosts : (s : State b) → OnlyPosts s (log_clock b config s)
  unfolding log_clock post_record
  log_clock-OnlyPosts s = ground arith

  pub log_battery-OnlyPosts : (s : State b) → OnlyPosts s (log_battery b config s)
  unfolding log_battery post_record
  log_battery-OnlyPosts s = ground arith

  pub forward_log_request-OnlyPosts :
      (kind : LogRequest → SdRecord) (request : LogRequest) (s : State b)
      → OnlyPosts s (forward_log_request b config kind request s)
  unfolding forward_log_request post_record
  forward_log_request-OnlyPosts kind request s = ground arith

  call_if-OnlyOffers :
      (due : Bool) (sender : Sender) (port : ℕ) (s : State b)
      → OnlyOffers s (if due then call_sender b config sender port s else s)
  call_if-OnlyOffers true sender port s = call_sender-OnlyOffers sender port s
  call_if-OnlyOffers false sender port s = (refl, refl, refl)

  pub fire_rows-OnlyOffers :
      (port now : ℕ) (rows : List ScheduleEntry) (s : State b)
      → OnlyOffers s (fire_rows b config port now rows s).1
  unfolding fire_rows
  fire_rows-OnlyOffers port now [] s = (refl, refl, refl)
  fire_rows-OnlyOffers port now (entry ∷ rest) s =
      let due = is_due now entry in
      let s' = if due then call_sender b config entry.function port s else s in
      OnlyOffers-trans s s' (fire_rows b config port now rest s').1
        (call_if-OnlyOffers due entry.function port s) (fire_rows-OnlyOffers port now rest s')
