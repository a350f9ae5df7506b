-- ===== src/Recovery/Fault.antt =====
-- A fault hook's record, and what the next boot reads of it.
use boredom_os.Prelude.{
  ℕ, zero, suc, ◌+◌, ◌≤◌, ◌<◌, ◌≡◌, ◌≢◌, refl, Bool, true, false, List, [], ◌∷◌, map, arith, ◌==◌,
  ◌∙◌, inl, inr, if◌then◌else◌, Bool-cases,
}
use boredom_os.Recovery.{
  System, BootPhase, CharPointer, nullptr, points_to, is_valid, poke, seal_block, record_fault,
  get_consecutive_count, get_cumulative_count, get_cumulative_snapshot, get_reason,
  consume_deliberate_reset, fault_name_loop, fault_task_loop, get_fault_task, get_phase, printable,
  offset_fault_task, fault_task_len, offset_phase, phase_to_byte, is_null, bytes_at, prcr_lock,
  offset_validity_magic, offset_checksum,
}
use boredom_os.Recovery.Sealing.{seal_block_outside, is_valid-seal_block}
use boredom_os.Recovery.Fields.{IsPhase, view, fault_task_loop_cong}

-- The characters of a C string from place `i` on, up to its NUL, at most `n` of them.
abbrev pub c_string : ℕ → ℕ → (ℕ → ℕ) → List ℕ
c_string zero i bytes = []
c_string (suc n) i bytes =
    let rest = c_string n (i + 1) bytes in if bytes i == 0 then [] else bytes i ∷ rest

-- What a name stands for: no characters if the pointer is null.
abbrev pub name_of : CharPointer → List ℕ
name_of nullptr = []
name_of (points_to bytes) = c_string fault_task_len 0 bytes

fault_name_loop_outside :
    (n i : ℕ) (ended : Bool) (bytes regs : ℕ → ℕ) (p : ℕ)
    → p < offset_fault_task + i
    → fault_name_loop n i ended bytes regs p ≡ regs p
unfolding fault_name_loop
fault_name_loop_outside zero i ended bytes regs p h = refl
fault_name_loop_outside (suc n) i ended bytes regs p h =
    fault_name_loop_outside n (i + 1) _ bytes _ p (omega arith) ∙ ground arith

-- A name that has ended leaves nothing to read.
fault_name_loop_ended :
    (n i : ℕ) (bytes regs : ℕ → ℕ) → fault_task_loop n i (fault_name_loop n i true bytes regs) ≡ []
unfolding fault_task_loop fault_name_loop
fault_name_loop_ended zero i bytes regs = refl
fault_name_loop_ended (suc n) i bytes regs = ground (
  arith,
  fault_name_loop_outside n (i + 1) true bytes (poke (offset_fault_task + i) 0 regs)
      (offset_fault_task + i),
)

-- Reading back what the copy stored.
fault_name_loop_read :
    (n i : ℕ) (bytes regs : ℕ → ℕ)
    → fault_task_loop n i (fault_name_loop n i false bytes regs)
      ≡ map printable (c_string n i bytes)
unfolding fault_task_loop fault_name_loop
fault_name_loop_read zero i bytes regs = refl
fault_name_loop_read (suc n) i bytes regs = elim (Bool-cases (bytes i == 0)) [
  | inl e ↦ rw e (
      rw
        (fault_name_loop_outside n (i + 1) true bytes (poke (offset_fault_task + i) (bytes i) regs)
          (offset_fault_task + i) (omega arith))
        (ground arith))
  | inr e ↦ rw e (
      rw
        (
          fault_name_loop_outside n (i + 1) false bytes
              (poke (offset_fault_task + i) (bytes i) regs) (offset_fault_task + i) (omega arith),
          fault_name_loop_read n (i + 1) bytes (poke (offset_fault_task + i) (bytes i) regs),
        )
        (ground arith))
]

named : (task_name : CharPointer) (regs : ℕ → ℕ) → ℕ → ℕ
named task_name regs =
    fault_name_loop fault_task_len 0 (is_null task_name) (bytes_at task_name) regs

named_read :
    (task_name : CharPointer) (regs : ℕ → ℕ)
    → fault_task_loop fault_task_len 0 (named task_name regs) ≡ map printable (name_of task_name)
unfolding named
named_read nullptr regs = fault_name_loop_ended 15 0 _ regs
named_read (points_to bytes) regs = fault_name_loop_read 15 0 bytes regs

-- A recorded fault leaves a valid, locked block, which names the phase and the printable form of
-- the task's name, cut at its NUL or at fifteen characters, and empty for a null pointer. The
-- counters, the reason, the marker and the bootloader's bytes stay as they were.
pub record_fault_lem :
    (phase : BootPhase) (task_name : CharPointer) (s : System)
    → IsPhase phase
    → (is_valid (record_fault phase task_name s) ≡ true)
      × ((record_fault phase task_name s).prcr ≡ prcr_lock)
      × (get_phase (record_fault phase task_name s) ≡ phase)
      × (get_fault_task (record_fault phase task_name s) ≡ map printable (name_of task_name))
      × ((p : ℕ)
          → p < offset_fault_task
          → p ≢ offset_validity_magic
          → p ≢ offset_checksum
          → p ≢ offset_phase
          → (record_fault phase task_name s).vbtbkr p ≡ s.vbtbkr p)
unfolding record_fault named
record_fault_lem phase task_name s hp = (
  valid,
  refl,
  unfold get_phase in rw (valid, seal_block_outside stored 9 (omega arith)) hp,
  unfold get_fault_task in
      rw valid (
        fault_task_loop_cong 15 0 (seal_block stored) (named task_name s.vbtbkr) same
        ∙ named_read task_name s.vbtbkr),
  λ p lt a b c.
      unfold seal_block named in
      ground
        (arith, fault_name_loop_outside 15 0 (is_null task_name) (bytes_at task_name) s.vbtbkr p),
)
  where
    stored : ℕ → ℕ
    stored = poke offset_phase (phase_to_byte phase) (named task_name s.vbtbkr)

    valid : is_valid (record { prcr = prcr_lock; vbtbkr = seal_block stored }) ≡ true
    valid = is_valid-seal_block stored prcr_lock

    same : (p : ℕ) → offset_fault_task ≤ p → seal_block stored p ≡ named task_name s.vbtbkr p
    same p h = seal_block_outside stored p (omega arith) ∙ ground arith

-- On a valid block a recorded fault replaces the phase and the name, and no reader of another field
-- notices.
pub view-record_fault :
    (phase : BootPhase) (task_name : CharPointer) (s : System)
    → IsPhase phase
    → is_valid s ≡ true
    → view (record_fault phase task_name s)
      ≡ record (view s) { phase = phase; fault_task = map printable (name_of task_name) }
unfolding view
view-record_fault phase task_name s hp v =
    let (v', _, p, t, _) = record_fault_lem phase task_name s hp in
    λ i. record {
      consecutive = consecutive' v' i;
      cumulative = cumulative' v' i;
      snapshot = snapshot' v' i;
      phase = p i;
      reason = reason' v' i;
      deliberate = deliberate' v' i;
      fault_task = t i;
    }
  where
    stored : System
    stored = record_fault phase task_name s

    same : (q : ℕ) → 5 < q → q < 12 → q ≢ 9 → stored.vbtbkr q ≡ s.vbtbkr q
    same q above lt other =
        (record_fault_lem phase task_name s hp).4 q (omega arith) (λ e. omega arith)
          (λ e. omega arith) other

    consecutive' : is_valid stored ≡ true → get_consecutive_count stored ≡ get_consecutive_count s
    consecutive' v' =
        unfold get_consecutive_count in
        rw (v', v) (same 6 (omega arith) (omega arith) (λ e. omega arith))

    cumulative' : is_valid stored ≡ true → get_cumulative_count stored ≡ get_cumulative_count s
    cumulative' v' =
        unfold get_cumulative_count in
        rw (v', v) (same 7 (omega arith) (omega arith) (λ e. omega arith))

    snapshot' : is_valid stored ≡ true → get_cumulative_snapshot stored ≡ get_cumulative_snapshot s
    snapshot' v' =
        unfold get_cumulative_snapshot in
        rw (v', v) (same 8 (omega arith) (omega arith) (λ e. omega arith))

    reason' : is_valid stored ≡ true → get_reason stored ≡ get_reason s
    reason' v' =
        unfold get_reason in rw (v', v, same 10 (omega arith) (omega arith) (λ e. omega arith)) refl

    deliberate' :
        is_valid stored ≡ true
        → (consume_deliberate_reset stored).0 ≡ (consume_deliberate_reset s).0
    deliberate' v' =
        unfold consume_deliberate_reset in
        rw (v', v, same 11 (omega arith) (omega arith) (λ e. omega arith)) refl
