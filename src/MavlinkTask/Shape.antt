-- ===== src/MavlinkTask/Shape.antt =====
-- The rows of a schedule: what is fixed in each, kept by the loop over them and by the commands.
use boredom_os.Prelude.{
  ℕ, ◌≤◌, ◌≡◌, refl, Bool, true, false, not, List, [], ◌∷◌, arith, sub_u32, ◌∙◌, sym, ap, subst,
  if◌then◌else◌,
}
use boredom_os.MavlinkTask.{
  Sender, send_heartbeat, send_system_time, send_battery_status, send_housekeeping, send_sys_status,
  ScheduleEntry, Board, Config, State,
}
use boredom_os.MavlinkTask.Float.{Float}
use boredom_os.MavlinkTask.Schedule.{housekeeping_index, initial_rows, fire_rows, is_due, advanced}
use boredom_os.MavlinkTask.Commands.{set_interval, set_row}

abbrev pub Stream : Sender → ℕ → Bool → ScheduleEntry → Type 0
Stream function interval enabled row =
    (row.function ≡ function) × (row.interval_ms ≡ interval) × (row.enabled ≡ enabled)

abbrev pub five :
    ScheduleEntry
    → ScheduleEntry
    → ScheduleEntry
    → ScheduleEntry
    → ScheduleEntry
    → List ScheduleEntry
five h t v k s = h ∷ t ∷ v ∷ k ∷ s ∷ []

-- The rows of a port: five, with what is fixed in each, and the bounds of what a command can set.
pub record IsSchedule (reduced : Bool) (rows : List ScheduleEntry) : Type 0 where
  pub heartbeat : ScheduleEntry
  pub system_time : ScheduleEntry
  pub battery : ScheduleEntry
  pub housekeeping : ScheduleEntry
  pub sys_status : ScheduleEntry
  pub rows_five : rows ≡ five heartbeat system_time battery housekeeping sys_status
  pub heartbeat_stream : Stream send_heartbeat 1000 true heartbeat
  pub system_time_stream : Stream send_system_time 1000 true system_time
  pub battery_stream : Stream send_battery_status 2000 (not reduced) battery
  pub housekeeping_function : housekeeping.function ≡ send_housekeeping
  pub housekeeping_least : 1000 ≤ housekeeping.interval_ms
  pub housekeeping_most : housekeeping.interval_ms ≤ 2147483
  pub sys_status_stream : Stream send_sys_status 1000 true sys_status

pub initial_rows-IsSchedule :
    (reduced : Bool) (start_ms : ℕ) → IsSchedule reduced (initial_rows reduced start_ms)
unfolding initial_rows
initial_rows-IsSchedule reduced start_ms = record {
  heartbeat = record {
    function = send_heartbeat;
    interval_ms = 1000;
    last_ms = sub_u32 start_ms 1000;
    enabled = true;
  };
  system_time = record {
    function = send_system_time;
    interval_ms = 1000;
    last_ms = sub_u32 start_ms 500;
    enabled = true;
  };
  battery = record {
    function = send_battery_status;
    interval_ms = 2000;
    last_ms = sub_u32 start_ms 2000;
    enabled = not reduced;
  };
  housekeeping = record {
    function = send_housekeeping;
    interval_ms = 1000;
    last_ms = start_ms;
    enabled = false;
  };
  sys_status = record {
    function = send_sys_status;
    interval_ms = 1000;
    last_ms = sub_u32 start_ms 250;
    enabled = true;
  };
  rows_five = refl;
  heartbeat_stream = (refl, refl, refl);
  system_time_stream = (refl, refl, refl);
  battery_stream = (refl, refl, refl);
  housekeeping_function = refl;
  housekeeping_least = omega arith;
  housekeeping_most = omega arith;
  sys_status_stream = (refl, refl, refl);
}

-- A change of the housekeeping row, on a schedule that is well formed.
pub set_row-IsSchedule :
    (reduced : Bool) (rows : List ScheduleEntry) (row : ScheduleEntry)
    → IsSchedule reduced rows
    → row.function ≡ send_housekeeping
    → 1000 ≤ row.interval_ms
    → row.interval_ms ≤ 2147483
    → IsSchedule reduced (set_row housekeeping_index row rows)
unfolding set_row
set_row-IsSchedule reduced rows row good f least most = record {
  heartbeat = good.heartbeat;
  system_time = good.system_time;
  battery = good.battery;
  housekeeping = row;
  sys_status = good.sys_status;
  heartbeat_stream = good.heartbeat_stream;
  system_time_stream = good.system_time_stream;
  battery_stream = good.battery_stream;
  sys_status_stream = good.sys_status_stream;
  rows_five = ap (set_row housekeeping_index row) good.rows_five;
  housekeeping_function = f;
  housekeeping_least = least;
  housekeeping_most = most;
}

-- What a command sets in a row keeps its function and the bounds.
pub set_interval_bounds :
    (param2 : Float) (now : ℕ) (row : ScheduleEntry)
    → 1000 ≤ row.interval_ms
    → row.interval_ms ≤ 2147483
    → let after = (set_interval param2 now row).1 in
      (after.function ≡ row.function) × (1000 ≤ after.interval_ms) × (after.interval_ms ≤ 2147483)
unfolding set_interval
set_interval_bounds param2 now row least most = ground arith

-- A row that was served or not has its function and its interval.
served_row :
    (due : Bool) (row : ScheduleEntry)
    → let after = if due then advanced row else row in
      (after.function ≡ row.function) × (after.interval_ms ≡ row.interval_ms)
unfolding advanced
served_row true row = (refl, refl)
served_row false row = (refl, refl)

served-Stream :
    (due : Bool) (function : Sender) (interval : ℕ) (enabled : Bool) (row : ScheduleEntry)
    → Stream function interval enabled row
    → Stream function interval enabled (if due then advanced row else row)
unfolding advanced
served-Stream true function interval enabled row h = h
served-Stream false function interval enabled row h = h

module _ (b : Board) (config : Config) where
  -- The loop over a port's rows keeps them well formed.
  pub fire_rows-IsSchedule :
      (reduced : Bool) (port now : ℕ) (rows : List ScheduleEntry) (s : State b)
      → IsSchedule reduced rows
      → IsSchedule reduced (fire_rows b config port now rows s).0
  unfolding fire_rows
  fire_rows-IsSchedule reduced port now rows s good =
      let fired : ScheduleEntry → ScheduleEntry =
        λ row. if is_due now row then advanced row else row in
      record {
        heartbeat = fired good.heartbeat;
        system_time = fired good.system_time;
        battery = fired good.battery;
        housekeeping = fired good.housekeeping;
        sys_status = fired good.sys_status;
        rows_five = ap (λ r. (fire_rows b config port now r s).0) good.rows_five;
        heartbeat_stream =
            served-Stream (is_due now good.heartbeat) send_heartbeat 1000 true good.heartbeat
              good.heartbeat_stream;
        system_time_stream =
            served-Stream (is_due now good.system_time) send_system_time 1000 true good.system_time
              good.system_time_stream;
        battery_stream =
            served-Stream (is_due now good.battery) send_battery_status 2000 (not reduced)
              good.battery good.battery_stream;
        housekeeping_function =
            (served_row (is_due now good.housekeeping) good.housekeeping).0
            ∙ good.housekeeping_function;
        housekeeping_least =
            subst (λ n. 1000 ≤ n)
              (sym (served_row (is_due now good.housekeeping) good.housekeeping).1)
              good.housekeeping_least;
        housekeeping_most =
            subst (λ n. n ≤ 2147483)
              (sym (served_row (is_due now good.housekeeping) good.housekeeping).1)
              good.housekeeping_most;
        sys_status_stream =
            served-Stream (is_due now good.sys_status) send_sys_status 1000 true good.sys_status
              good.sys_status_stream;
      }
