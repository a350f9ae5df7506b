-- ===== src/Boot.antt =====
-- src/main.cpp: the reset reason, the counters and the configuration, the watchdog's timing, and
-- the order of `setup`.
--
-- The reset-status flags are a record of Booleans. What `setup` calls in other libraries enters as
-- arguments: the result of `SD.begin`. Creating a queue or a task on static storage does not fail,
-- and is recorded as the list of the tasks created. An FSP enumerator such as `WDT_TIMEOUT_128` is
-- the number in its name.
mod Timing
pub mod Decision
pub mod History
pub mod Watchdog
pub mod Reports
pub mod Tasks
pub mod Counting
mod Tests
unfoldable pub use Timing.*
use boredom_os.Prelude.{
  ℕ, zero, suc, ◌+◌, ◌-◌, ◌*◌, ◌/◌, ◌%◌, ◌^◌, ◌≤◌, ◌<◌, min, ◌≡◌, ◌≢◌, ◌↔◌, refl, Bool, true, false,
  not, ◌&&◌, ◌||◌, Option, none, some, List, [], ◌∷◌, ◌++◌, map, arith, u8, u16, u32, u64, sub_u32,
  uint16_max, uint32_max, ◌==◌, ltb, leb, ◌∙◌, sym, ap, subst, fun_ext, ◌⊎◌, inl, inr,
  if◌then◌else◌, Bool-cases, Option-cases, ==_iff, ltb→lt, lt→ltb, leb→le, le→leb, length,
  get_elem?, get_or, take, drop, replicate, length-append, length-take, length-drop,
  length-replicate, All,
}
use boredom_os.Recovery.{
  System, ResetReason, power_on, low_voltage, watchdog, software, external_unknown,
  backup_state_invalid, BootPhase, start, link_done, clock_done, card_done, queues_done, tasks_done,
  scheduler_started, DeliberateReset, retry, deliberate_to_byte, is_none, consecutive_threshold,
  cumulative_threshold, is_valid, reinitialise, get_phase, set_phase, get_fault_task, set_reason,
  get_consecutive_count, set_consecutive_count, get_cumulative_count, set_cumulative_count,
  get_cumulative_snapshot, set_cumulative_snapshot, consume_deliberate_reset,
}

-- The flags of RSTSR0, RSTSR1 and RSTSR2 that the code reads or writes.
pub record ResetFlags : Type 0 where
  pub porf : Bool
  pub lvd0rf : Bool
  pub lvd1rf : Bool
  pub lvd2rf : Bool
  pub dpsrstf : Bool
  pub iwdtrf : Bool
  pub wdtrf : Bool
  pub swrf : Bool
  pub cwsf : Bool

-- `if (FLAG) FLAG = 0;`
abbrev pub clear_flag : Bool → Bool
clear_flag flag = if flag then false else flag

unfoldable pub decode_and_clear_reset_reason : ResetFlags → ResetReason × ResetFlags
decode_and_clear_reset_reason f = (
  if f.iwdtrf || f.wdtrf
      then watchdog
      else if f.swrf
      then software
      else if f.lvd0rf || f.lvd1rf || f.lvd2rf
      then low_voltage
      else if f.porf
      then power_on
      else external_unknown,
  record {
    porf = clear_flag f.porf;
    lvd0rf = clear_flag f.lvd0rf;
    lvd1rf = clear_flag f.lvd1rf;
    lvd2rf = clear_flag f.lvd2rf;
    dpsrstf = clear_flag f.dpsrstf;
    iwdtrf = clear_flag f.iwdtrf;
    wdtrf = clear_flag f.wdtrf;
    swrf = clear_flag f.swrf;
    cwsf = true;
  },
)

-- `reason == Watchdog || reason == Software`
abbrev pub is_fault_reset : ResetReason → Bool
is_fault_reset watchdog = true
is_fault_reset software = true
is_fault_reset reason = false

abbrev pub is_retry : DeliberateReset → Bool
is_retry value = deliberate_to_byte value == 2

-- The locals of the function once both counters have been advanced.
pub record Counted : Type 0 where
  pub deliberate : DeliberateReset
  pub consecutive : ℕ
  pub cumulative : ℕ
  pub system : System

-- The counters are `uint8_t`, so `++` wraps.
pub count_boot : ResetReason → System → Counted
count_boot reason s =
    let (deliberate, s) = consume_deliberate_reset s in
    let advances = is_fault_reset reason && is_none deliberate in
    let before = get_consecutive_count s in
    let cumulative = u8 (get_cumulative_count s + 1) in
    let consecutive : ℕ = if advances then u8 (before + 1) else before in
    let s : System = if advances then set_consecutive_count consecutive s else s in
    record {
      deliberate = deliberate;
      consecutive = consecutive;
      cumulative = cumulative;
      system = set_cumulative_count cumulative s;
    }

-- The snapshot is widened before 1 is added, so that sum does not wrap.
pub starts_reduced : Counted → Bool
starts_reduced c =
    let over_threshold =
      leb consecutive_threshold c.consecutive || leb cumulative_threshold c.cumulative in
    if not over_threshold
    then false
    else if is_retry c.deliberate && leb c.cumulative (get_cumulative_snapshot c.system + 1)
    then false
    else true

pub update_counters_and_decide_configuration : ResetReason → System → Bool × System
update_counters_and_decide_configuration reason s =
    let c = count_boot reason s in
    let start_reduced = starts_reduced c in
    (
      start_reduced,
      if start_reduced then set_cumulative_snapshot c.cumulative c.system else c.system,
    )

pub data Task : Type 0 where
  uart_read usb_read uart_write usb_write mavlink logger sd_write : Task

-- What `setup` leaves behind when it starts the scheduler.
pub record Startup : Type 0 where
  pub previous_boot_phase : BootPhase
  pub previous_fault_task : List ℕ
  pub previous_reset_reason : ResetReason
  pub boot_consecutive_count : ℕ
  pub boot_cumulative_count : ℕ
  pub reduced_configuration : Bool
  pub sd_card_available : Bool
  pub tasks : List Task
  pub wdt : WdtConfig
  pub flags : ResetFlags
  pub system : System

-- The tasks in the order of their creation.
abbrev pub tasks_created : Bool → Bool → List Task
tasks_created reduced card =
    uart_read
    ∷ usb_read
    ∷ uart_write
    ∷ usb_write
    ∷ mavlink
    ∷ (if not reduced then if card then logger ∷ sd_write ∷ [] else [] else [])

-- The first part, up to the phase `start`: the previous boot is read before it is overwritten.
pub record Decided : Type 0 where
  pub phase : BootPhase
  pub fault_task : List ℕ
  pub reason : ResetReason
  pub reduced : Bool
  pub system : System
  pub flags : ResetFlags

pub decide : ResetFlags → System → Decided
decide f s =
    let phase = get_phase s in
    let task = get_fault_task s in
    let was_invalid = not (is_valid s) in
    let s : System = if was_invalid then reinitialise s else s in
    let (decoded, f) = decode_and_clear_reset_reason f in
    let reason : ResetReason = if was_invalid then backup_state_invalid else decoded in
    let s = set_reason reason s in
    let (reduced, s) = update_counters_and_decide_configuration reason s in
    record {
      phase = phase;
      fault_task = task;
      reason = reason;
      reduced = reduced;
      system = s;
      flags = f;
    }

-- `sd_begin` is the result of `SD.begin(9)`; the phases mark the steps between which it stands.
unfoldable pub setup : Bool → ResetFlags → System → Startup
setup sd_begin f s =
    let d = decide f s in
    let consecutive = get_consecutive_count d.system in
    let cumulative = get_cumulative_count d.system in
    let s = set_phase start d.system in
    let s = set_phase link_done s in
    let s = set_phase clock_done s in
    let card = sd_begin in
    let s = set_phase card_done s in
    let s = set_phase queues_done s in
    let tasks = tasks_created d.reduced card in
    let s = set_phase tasks_done s in
    let wdt = wdt_cfg (select_wdt_timing wdt_timeout_ms 0 0) in
    let s = set_phase scheduler_started s in
    record {
      previous_boot_phase = d.phase;
      previous_fault_task = d.fault_task;
      previous_reset_reason = d.reason;
      boot_consecutive_count = consecutive;
      boot_cumulative_count = cumulative;
      reduced_configuration = d.reduced;
      sd_card_available = card;
      tasks = tasks;
      wdt = wdt;
      flags = d.flags;
      system = s;
    }
