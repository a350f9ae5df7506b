-- ===== src/Recovery/Values.antt =====
-- The offsets, thresholds and enums of include/Recovery.h and src/recovery.cpp. An `enum class` over
-- `uint8_t` may hold any byte, so each has an `unnamed` constructor for the bytes without a name.
use boredom_os.Prelude.{ℕ, ◌==◌, if◌then◌else◌}

abbrev pub prcr_unlock_prc1 : ℕ
prcr_unlock_prc1 = 0xA502

abbrev pub prcr_lock : ℕ
prcr_lock = 0xA500

abbrev pub validity_magic : ℕ
validity_magic = 0xB5

abbrev pub offset_validity_magic : ℕ
offset_validity_magic = 4

abbrev pub offset_checksum : ℕ
offset_checksum = 5

abbrev pub offset_consecutive_count : ℕ
offset_consecutive_count = 6

abbrev pub offset_cumulative_count : ℕ
offset_cumulative_count = 7

abbrev pub offset_cumulative_snapshot : ℕ
offset_cumulative_snapshot = 8

abbrev pub offset_phase : ℕ
offset_phase = 9

abbrev pub offset_reason : ℕ
offset_reason = 10

abbrev pub offset_deliberate : ℕ
offset_deliberate = 11

abbrev pub offset_fault_task : ℕ
offset_fault_task = 12

abbrev pub fault_task_len : ℕ
fault_task_len = 15

abbrev pub offset_last : ℕ
offset_last = 26

abbrev pub consecutive_threshold : ℕ
consecutive_threshold = 3

abbrev pub cumulative_threshold : ℕ
cumulative_threshold = 10

pub data ResetReason : Type 0 where
  power_on low_voltage watchdog software external_unknown backup_state_invalid : ResetReason
  unnamed : ℕ → ResetReason

pub data BootPhase : Type 0 where
  start link_done clock_done card_done queues_done tasks_done scheduler_started : BootPhase
  stack_overflow_fault malloc_failed_fault : BootPhase
  unnamed : ℕ → BootPhase

pub data DeliberateReset : Type 0 where
  none commanded retry : DeliberateReset
  unnamed : ℕ → DeliberateReset

-- `static_cast<uint8_t>` of each enum, and back.
abbrev pub reason_to_byte : ResetReason → ℕ
reason_to_byte power_on = 0
reason_to_byte low_voltage = 1
reason_to_byte watchdog = 2
reason_to_byte software = 3
reason_to_byte external_unknown = 4
reason_to_byte backup_state_invalid = 5
reason_to_byte (ResetReason.unnamed n) = n

abbrev pub reason_of_byte : ℕ → ResetReason
reason_of_byte n =
    if n == 0
    then power_on
    else if n == 1
    then low_voltage
    else if n == 2
    then watchdog
    else if n == 3
    then software
    else if n == 4
    then external_unknown
    else if n == 5
    then backup_state_invalid
    else ResetReason.unnamed n

abbrev pub phase_to_byte : BootPhase → ℕ
phase_to_byte start = 0
phase_to_byte link_done = 1
phase_to_byte clock_done = 2
phase_to_byte card_done = 3
phase_to_byte queues_done = 4
phase_to_byte tasks_done = 5
phase_to_byte scheduler_started = 6
phase_to_byte stack_overflow_fault = 7
phase_to_byte malloc_failed_fault = 8
phase_to_byte (BootPhase.unnamed n) = n

abbrev pub phase_of_byte : ℕ → BootPhase
phase_of_byte n =
    if n == 0
    then start
    else if n == 1
    then link_done
    else if n == 2
    then clock_done
    else if n == 3
    then card_done
    else if n == 4
    then queues_done
    else if n == 5
    then tasks_done
    else if n == 6
    then scheduler_started
    else if n == 7
    then stack_overflow_fault
    else if n == 8
    then malloc_failed_fault
    else BootPhase.unnamed n

abbrev pub deliberate_to_byte : DeliberateReset → ℕ
deliberate_to_byte none = 0
deliberate_to_byte commanded = 1
deliberate_to_byte retry = 2
deliberate_to_byte (DeliberateReset.unnamed n) = n

abbrev pub deliberate_of_byte : ℕ → DeliberateReset
deliberate_of_byte n =
    if n == 0
    then none
    else if n == 1
    then commanded
    else if n == 2
    then retry
    else DeliberateReset.unnamed n
