-- ===== src/Mavlink/Counters.antt =====
-- The custom mode's bytes, the drop count and the housekeeping rotation.
use boredom_os.Prelude.{
  ℕ, zero, suc, ◌+◌, ◌-◌, ◌/◌, ◌%◌, ◌^◌, ◌≤◌, ◌<◌, min, ◌≡◌, Bool, true, false, Option, some, List,
  [], ◌∷◌, arith, uint16_max, ltb, ◌∙◌, sym, ap, inl, inr, if◌then◌else◌, Bool-cases,
}
use boredom_os.Recovery.{
  ResetReason, BootPhase, System, reason_to_byte, phase_to_byte, get_consecutive_count,
  get_cumulative_count, consecutive_threshold, cumulative_threshold,
}
use boredom_os.Mavlink.{
  pack_custom_mode, enqueue_write, enqueue_writes, housekeeping_slots, housekeeping_heap_slots,
  housekeeping_tries, next_housekeeping_value,
}

-- The custom mode carries the reset reason, the phase and both counts, each cut at its threshold, in
-- a byte of its own, for a reason and a phase that are bytes.
pub pack_custom_mode_lem :
    (reason : ResetReason) (phase : BootPhase) (s : System)
    → reason_to_byte reason < 256
    → phase_to_byte phase < 256
    → let mode = pack_custom_mode reason phase s in
      (mode < 2 ^ 32)
      × (mode % 256 ≡ reason_to_byte reason)
      × (mode / 256 % 256 ≡ phase_to_byte phase)
      × (mode / 65536 % 256 ≡ min (get_consecutive_count s) consecutive_threshold)
      × (mode / 16777216 ≡ min (get_cumulative_count s) cumulative_threshold)
unfolding pack_custom_mode
pack_custom_mode_lem reason phase s r p = ground arith

abbrev failed : List Bool → ℕ
failed [] = 0
failed (passed ∷ rest) = (if passed then 0 else 1) + failed rest

enqueue_write_lem :
    (passed : Bool) (count : ℕ)
    → count ≤ uint16_max
    → enqueue_write passed count ≡ min uint16_max (count + (if passed then 0 else 1))
unfolding enqueue_write
enqueue_write_lem true count le = omega arith
enqueue_write_lem false count le = ground arith

-- The drop count is the number of sends that the queue refused, up to 65535, where it stays.
pub enqueue_writes_lem :
    (sends : List Bool) (count : ℕ)
    → count ≤ uint16_max
    → enqueue_writes sends count ≡ min uint16_max (count + failed sends)
unfolding enqueue_writes enqueue_write
enqueue_writes_lem [] count le = omega arith
enqueue_writes_lem (passed ∷ rest) count le =
    let e : enqueue_write passed count ≡ min uint16_max (count + (if passed then 0 else 1)) =
      enqueue_write_lem passed count le in
    let o = enqueue_writes_lem rest (enqueue_write passed count) (omega (arith, e)) in
    omega (arith, o, e)

-- Whether a slot has something to report.
abbrev pub present : (ℕ → Bool) → ℕ → Bool
present has_task slot =
    if ltb slot housekeeping_heap_slots then true else has_task (slot - housekeeping_heap_slots)

-- A slot that a rotation reports next: the first in the slots' order from the cursor on that has
-- something to report.
unfoldable pub Reports : (ℕ → Bool) → ℕ → Option ℕ × ℕ → Type 0
Reports has_task cursor (slot, next) =
    (k : ℕ) × (slot ≡ some ((cursor + k) % housekeeping_slots))
    × (present has_task ((cursor + k) % housekeeping_slots) ≡ true)
    × (next ≡ (cursor + k + 1) % housekeeping_slots)
    × ((j : ℕ) → j < k → present has_task ((cursor + j) % housekeeping_slots) ≡ false)

tries_here :
    (n : ℕ) (has_task : ℕ → Bool) (cursor : ℕ)
    → present has_task cursor ≡ true
    → housekeeping_tries (suc n) has_task cursor ≡ (some cursor, (cursor + 1) % housekeeping_slots)
unfolding housekeeping_tries
tries_here n has_task cursor here = ground arith

tries_absent :
    (n : ℕ) (has_task : ℕ → Bool) (cursor : ℕ)
    → present has_task cursor ≡ false
    → housekeeping_tries (suc n) has_task cursor
      ≡ housekeeping_tries n has_task ((cursor + 1) % housekeeping_slots)
unfolding housekeeping_tries
tries_absent n has_task cursor absent = ground arith

absent_from :
    (has_task : ℕ → Bool) (cursor k j : ℕ)
    → cursor < housekeeping_slots
    → present has_task cursor ≡ false
    → ((i : ℕ)
        → i < k
        → present has_task (((cursor + 1) % housekeeping_slots + i) % housekeeping_slots) ≡ false)
    → j < suc k
    → present has_task ((cursor + j) % housekeeping_slots) ≡ false
absent_from has_task cursor k zero lt absent rest less =
    let e : (cursor + 0) % housekeeping_slots ≡ cursor = omega arith in rw (e) absent
absent_from has_task cursor k (suc i) lt absent rest less =
    let e : (cursor + suc i) % housekeeping_slots
        ≡ ((cursor + 1) % housekeeping_slots + i) % housekeeping_slots =
      omega arith in
    rw (e) (rest i (omega arith))

-- From a cursor, enough tries reach a slot of the heap, if no task's slot comes first.
Enough : ℕ → ℕ → Type 0
Enough n cursor =
    (cursor < housekeeping_heap_slots → 1 ≤ n)
    × (housekeeping_heap_slots ≤ cursor → housekeeping_slots + 1 ≤ n + cursor)

housekeeping_tries-Reports :
    (n : ℕ) (has_task : ℕ → Bool) (cursor : ℕ)
    → cursor < housekeeping_slots
    → Enough n cursor
    → Reports has_task cursor (housekeeping_tries n has_task cursor)
unfolding Reports Enough
housekeeping_tries-Reports zero has_task cursor lt enough = absurd (ground arith)
housekeeping_tries-Reports (suc n) has_task cursor lt enough =
    let next = (cursor + 1) % housekeeping_slots in
    elim (Bool-cases (present has_task cursor)) [
      | inl here ↦
          let e : (cursor + 0) % housekeeping_slots ≡ cursor = omega arith in
          let f : (cursor + 1) % housekeeping_slots ≡ (cursor + 0 + 1) % housekeeping_slots =
            omega arith in
          rw (tries_here n has_task cursor here)
            (0, ap some (sym e), rw (e) here, f, λ j less. ground arith)
      | inr absent ↦
          let heap : housekeeping_heap_slots ≤ cursor = ground arith in
          let (k, at, there, moved, before) =
            housekeeping_tries-Reports n has_task next (omega arith)
              (λ low. ground arith, λ high. ground arith) in
          let e : (next + k) % housekeeping_slots ≡ (cursor + suc k) % housekeeping_slots =
            omega arith in
          rw (tries_absent n has_task cursor absent) (
            suc k,
            at ∙ ap some e,
            rw (sym e) there,
            omega (arith, moved),
            λ j less. absent_from has_task cursor k j lt absent before less,
          )
    ]

-- The rotation always has something to report: the first slot from the cursor on, in order around
-- the nine slots, that is not a task without a handle. The cursor moves just past it, so no slot is
-- passed over.
pub next_housekeeping_value_lem :
    (has_task : ℕ → Bool) (cursor : ℕ)
    → cursor < housekeeping_slots
    → Reports has_task cursor (next_housekeeping_value has_task cursor)
unfolding next_housekeeping_value Enough
next_housekeeping_value_lem has_task cursor lt =
    housekeeping_tries-Reports housekeeping_slots has_task cursor lt
      (λ low. omega arith, λ high. omega arith)
