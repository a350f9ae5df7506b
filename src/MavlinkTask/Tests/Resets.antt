-- ===== src/MavlinkTask/Tests/Resets.antt =====
-- The commanded reboot and the retry, at the bench.
use boredom_os.Prelude.{◌≡◌, refl, true}
use boredom_os.Recovery.{System, set_cumulative_count, watchdog}
use boredom_os.MavlinkTask.{Board, State}
use boredom_os.MavlinkTask.Float.{float_of}
use boredom_os.MavlinkTask.Commands.{handle_command, preflight_reboot_shutdown}
use boredom_os.MavlinkTask.Passes.{initial_state, passes}
use boredom_os.MavlinkTask.Restarting.{reboot_lem}
use boredom_os.Boot.History.{after}
use boredom_os.MavlinkTask.Bench.{
  later, bench, config, reduced_config, ask, ground_time, blank, hardware, started,
}

reboot_lem_example :
    (passes bench config 2 (
      handle_command bench config 1 6000
        (ask preflight_reboot_shutdown (float_of 1))
        started)).was_reset
    ≡ true
reboot_lem_example =
    (reboot_lem bench config 2 1 6000 (ask preflight_reboot_shutdown (float_of 1)) started watchdog
      refl).0

-- A board on which a reading of the ticks takes half an hour.
abbrev slow : Board
slow = record bench { tick_count = λ h. (h.ticks, later 1800000 h) }

-- A valid block with twenty resets on its cumulative count.
abbrev worn : System
worn = set_cumulative_count 20 blank

abbrev worn_state : State slow
worn_state = initial_state slow reduced_config ground_time (after watchdog worn) hardware
