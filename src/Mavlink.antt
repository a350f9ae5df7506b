-- ===== src/Mavlink.antt =====
-- src/mavlink.cpp: the boot statement, the custom mode, a port's drop count and the housekeeping
-- cursor.
--
-- A C string is the list of its characters; `|` of bytes that are shifted apart is their sum.
pub mod Statement
pub mod Counters
mod Tests
use boredom_os.Prelude.{
  ℕ, zero, suc, ◌+◌, ◌-◌, ◌*◌, ◌/◌, ◌%◌, ◌^◌, ◌≤◌, ◌<◌, min, ◌≡◌, ◌≢◌, ◌↔◌, refl, Bool, true, false,
  not, ◌&&◌, ◌||◌, Option, none, some, List, [], ◌∷◌, ◌++◌, map, arith, u8, u16, u32, u64, sub_u32,
  uint16_max, uint32_max, ◌==◌, ltb, leb, ◌∙◌, sym, ap, subst, fun_ext, ◌⊎◌, inl, inr,
  if◌then◌else◌, Bool-cases, Option-cases, ==_iff, ltb→lt, lt→ltb, leb→le, le→leb, take-take,
  drop-take, drop-drop, take-append, drop-append, String, codes, length, get_elem?, get_or, take,
  drop, replicate, length-append, length-take, length-drop, length-replicate, All,
}
use boredom_os.Recovery.{
  ResetReason, BootPhase, System, reason_to_byte, phase_to_byte, get_consecutive_count,
  get_cumulative_count, consecutive_threshold, cumulative_threshold,
}

unfoldable pub reset_reason_text : ResetReason → String
reset_reason_text ResetReason.power_on = "power-on"
reset_reason_text ResetReason.low_voltage = "low voltage"
reset_reason_text ResetReason.watchdog = "watchdog"
reset_reason_text ResetReason.software = "software"
reset_reason_text ResetReason.external_unknown = "external/unknown"
reset_reason_text ResetReason.backup_state_invalid = "backup state invalid"
reset_reason_text (ResetReason.unnamed byte) = "unknown"

pub boot_phase_text : BootPhase → String
boot_phase_text BootPhase.start = "start"
boot_phase_text BootPhase.link_done = "link"
boot_phase_text BootPhase.clock_done = "clock"
boot_phase_text BootPhase.card_done = "card"
boot_phase_text BootPhase.queues_done = "queues"
boot_phase_text BootPhase.tasks_done = "tasks"
boot_phase_text BootPhase.scheduler_started = "scheduler"
boot_phase_text BootPhase.stack_overflow_fault = "stack overflow"
boot_phase_text BootPhase.malloc_failed_fault = "malloc failed"
boot_phase_text (BootPhase.unnamed byte) = "unknown"

-- `sizeof(text) - 1`.
abbrev pub statement_len : ℕ
statement_len = 50

-- `strncat(text, more, sizeof(text) - 1 - strlen(text))`.
abbrev pub strncat : List ℕ → List ℕ → List ℕ
strncat text more = text ++ take (statement_len - length text) more

-- `fault`: none is the null pointer.
abbrev pub fault_text : BootPhase → Option String
fault_text BootPhase.stack_overflow_fault = some ", overflow "
fault_text BootPhase.malloc_failed_fault = some ", malloc "
fault_text _ = none

pub build_boot_statement : ResetReason → BootPhase → List ℕ → List ℕ
build_boot_statement reason phase fault_task =
    let text = strncat (strncat [] (codes "Reset: ")) (codes (reset_reason_text reason)) in
    elim (fault_text phase) [
      | some fault ↦ strncat (strncat text (codes fault)) fault_task
      | none ↦ strncat (strncat text (codes ", phase ")) (codes (boot_phase_text phase))
    ]

-- `packCustomMode`, of the previous boot's bytes and this boot's block.
pub pack_custom_mode : ResetReason → BootPhase → System → ℕ
pack_custom_mode reason phase s =
    let consecutive = get_consecutive_count s in
    let consecutive =
      if ltb consecutive_threshold consecutive then consecutive_threshold else consecutive in
    let cumulative = get_cumulative_count s in
    let cumulative =
      if ltb cumulative_threshold cumulative then cumulative_threshold else cumulative in
    reason_to_byte reason + 256 * phase_to_byte phase + 65536 * consecutive + 16777216 * cumulative

-- `enqueueWrite`: the drop count of a port after a send that the queue took or not.
unfoldable pub enqueue_write : Bool → ℕ → ℕ
enqueue_write passed write_drop_count =
    if not passed && ltb write_drop_count uint16_max then write_drop_count + 1 else write_drop_count

-- The drop count after the sends of a list, in order.
pub enqueue_writes : List Bool → ℕ → ℕ
enqueue_writes [] count = count
enqueue_writes (passed ∷ rest) count = enqueue_writes rest (enqueue_write passed count)

-- The slots of the housekeeping rotation: two of the heap, then the seven tasks'.
abbrev pub housekeeping_heap_slots : ℕ
housekeeping_heap_slots = 2

abbrev pub housekeeping_slots : ℕ
housekeeping_slots = 9

-- The loop of `nextHousekeepingValue` over the tries left: the slot that it reports and the cursor.
-- `has_task` says whether the handle of a task's slot is not null.
unfoldable pub housekeeping_tries : ℕ → (ℕ → Bool) → ℕ → Option ℕ × ℕ
housekeeping_tries zero has_task cursor = (none, cursor)
housekeeping_tries (suc tries) has_task cursor =
    let next = (cursor + 1) % housekeeping_slots in
    let rest = housekeeping_tries tries has_task next in
    if ltb cursor housekeeping_heap_slots
    then (some cursor, next)
    else if not (has_task (cursor - housekeeping_heap_slots))
    then rest
    else (some cursor, next)

unfoldable pub next_housekeeping_value : (ℕ → Bool) → ℕ → Option ℕ × ℕ
next_housekeeping_value has_task cursor = housekeeping_tries housekeeping_slots has_task cursor
