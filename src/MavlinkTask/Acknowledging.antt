-- ===== src/MavlinkTask/Acknowledging.antt =====
-- Over any number of passes of TaskMavlink, the acknowledgements are the commands that were
-- received.
use boredom_os.Prelude.{
  ℕ, zero, suc, ◌≡◌, refl, Bool, true, false, Option, none, some, List, [], ◌++◌, arith, ◌∙◌, sym,
  ap, if◌then◌else◌, append_assoc,
}
use boredom_os.MavlinkTask.{Board, Config, State, Inbound}
use boredom_os.MavlinkTask.Sends.{now_ms}
use boredom_os.MavlinkTask.Schedule.{fire_port, fire_due, wait_time}
use boredom_os.MavlinkTask.Passes.{
  pass, run_pass, finish_pass, passes, reconcile_clocks, sample_battery, receive_message,
  handle_received, serve_schedule, check_uptime, clear_when_stable, retry_when_due,
}
use boredom_os.MavlinkTask.Steps.{reconcile_clocks-stable, sample_battery-stable}
use boredom_os.MavlinkTask.Frames.{if_lem, acks, fire_rows-OnlyOffers}
use boredom_os.MavlinkTask.Replies.{command_in, acks-Stable, acks-handle_inbound}

module _ (b : Board) (config : Config) where
  open b use {clocks, receive}

  -- The state of a pass when it comes to wait, and what it receives.
  abbrev pub waiting : ℕ → State b → State b
  waiting now s = sample_battery b config now (reconcile_clocks b config now s)

  abbrev pub received : ℕ → State b → Option (ℕ × Inbound)
  received now s = let s = waiting now s in (receive (wait_time now s.schedule) s.hardware).0

  abbrev pub pass_received : State b → Option (ℕ × Inbound)
  pass_received s =
      let (now, hw) = now_ms b config s.hardware in
      if s.was_reset then none else received now (record s { hardware = hw })

  -- The port and the command of each COMMAND_LONG that passes receive, the latest first.
  unfoldable pub commands : ℕ → State b → List (ℕ × ℕ)
  commands zero s = []
  commands (suc n) s = commands n (pass b config s) ++ command_in (pass_received s)

  acks-waiting : (now : ℕ) (s : State b) → acks (waiting now s).offered ≡ acks s.offered
  acks-waiting now s =
      let P : State b → Type 0 = λ after. acks after.offered ≡ acks s.offered in
      let stable = acks-Stable b config (acks s.offered) in
      sample_battery-stable b config P stable now (reconcile_clocks b config now s)
        (reconcile_clocks-stable b config P stable now s refl)

  acks-serve_schedule : (s : State b) → acks (serve_schedule b config s).offered ≡ acks s.offered
  unfolding serve_schedule fire_due fire_port
  acks-serve_schedule s =
      let (now, hw) = now_ms b config s.hardware in
      let s' = record s { hardware = hw } in
      let uart = fire_rows-OnlyOffers b config 0 now s'.schedule.uart s' in
      let s'' = fire_port b config 0 now s' in
      let usb = fire_rows-OnlyOffers b config 1 now s''.schedule.usb s'' in usb.2 ∙ uart.2

  check_uptime-offered : (s : State b) → (check_uptime b config s).offered ≡ s.offered
  unfolding check_uptime clear_when_stable retry_when_due
  check_uptime-offered s = ground arith

  answered :
      (now : ℕ) (got : Option (ℕ × Inbound)) (s : State b)
      → acks (handle_received b config now got s).offered ≡ command_in got ++ acks s.offered
  unfolding handle_received
  answered now none s = refl
  answered now (some (port, incoming)) s = acks-handle_inbound b config now port incoming s

  acks-receive_message :
      (now : ℕ) (s : State b)
      → acks (receive_message b config now s).offered
        ≡ command_in (receive (wait_time now s.schedule) s.hardware).0 ++ acks s.offered
  unfolding receive_message
  acks-receive_message now s =
      let (got, hw) = receive (wait_time now s.schedule) s.hardware in
      answered now got (record s { hardware = hw })

  acks-run_pass :
      (s : State b)
      → let (now, hw) = now_ms b config s.hardware in
        acks (run_pass b config s).offered
        ≡ command_in (received now (record s { hardware = hw })) ++ acks s.offered
  unfolding run_pass finish_pass
  acks-run_pass s =
      let (now, hw) = now_ms b config s.hardware in
      let s1 = record s { hardware = hw } in
      let s3 = waiting now s1 in
      let s4 = receive_message b config now s3 in
      let before : acks s3.offered ≡ acks s.offered = acks-waiting now s1 in
      let heard =
        acks-receive_message now s3 ∙ ap (λ rest. command_in (received now s1) ++ rest) before in
      let s5 = serve_schedule b config s4 in
      let served = ap acks (check_uptime-offered s5) ∙ acks-serve_schedule s4 ∙ heard in
      if_lem b config (λ after. acks after.offered ≡ command_in (received now s1) ++ acks s.offered)
        s4.was_reset s4 (check_uptime b config s5) heard served

  if_reset_acks :
      (r : Bool) (got : Option (ℕ × Inbound)) (s after : State b)
      → acks after.offered ≡ command_in got ++ acks s.offered
      → acks (if r then s else after).offered
        ≡ command_in (if r then none else got) ++ acks s.offered
  if_reset_acks true got s after h = refl
  if_reset_acks false got s after h = h

  acks-pass :
      (s : State b)
      → acks (pass b config s).offered ≡ command_in (pass_received s) ++ acks s.offered
  unfolding pass
  acks-pass s =
      let (now, hw) = now_ms b config s.hardware in
      if_reset_acks s.was_reset (received now (record s { hardware = hw })) s (run_pass b config s)
        (acks-run_pass s)

  -- Over any number of passes of the task, from any state, the acknowledgements that are offered are
  -- those of the COMMAND_LONGs that were received, one for each, in their order, with the command's
  -- number and on the port that it came on.
  pub acks-passes :
      (n : ℕ) (s : State b) → acks (passes b config n s).offered ≡ commands n s ++ acks s.offered
  unfolding passes commands
  acks-passes zero s = refl
  acks-passes (suc n) s =
      acks-passes n (pass b config s)
      ∙ ap (λ rest. commands n (pass b config s) ++ rest) (acks-pass s)
      ∙ sym (
          append_assoc (commands n (pass b config s)) (command_in (pass_received s))
            (acks s.offered))
