-- ===== src/Recovery/Fields.antt =====
-- The block of src/recovery.cpp as its readers see it, and what its setters change there.
use boredom_os.Prelude.{ℕ, zero, suc, ◌+◌, ◌≤◌, ◌<◌, ◌≡◌, refl, true, List, arith, ◌∙◌}
use boredom_os.Recovery.{
  System, is_valid, poke, seal_block, write_byte, prcr_lock, BootPhase, ResetReason,
  DeliberateReset, phase_of_byte, phase_to_byte, reason_of_byte, reason_to_byte, deliberate_of_byte,
  deliberate_to_byte, get_consecutive_count, set_consecutive_count, get_cumulative_count,
  set_cumulative_count, get_cumulative_snapshot, set_cumulative_snapshot, get_phase, set_phase,
  get_reason, set_reason, consume_deliberate_reset, set_deliberate_reset, get_fault_task,
  fault_task_loop, offset_fault_task, fault_task_len,
}
use boredom_os.Recovery.Sealing.{seal_block_outside, is_valid-seal_block, write_byte_lem}

-- The block as its readers see it. `deliberate` is what `consume_deliberate_reset` would return.
pub record Block : Type 0 where
  pub consecutive : ℕ
  pub cumulative : ℕ
  pub snapshot : ℕ
  pub phase : BootPhase
  pub reason : ResetReason
  pub deliberate : DeliberateReset
  pub fault_task : List ℕ

unfoldable pub view : System → Block
view s = record {
  consecutive = get_consecutive_count s;
  cumulative = get_cumulative_count s;
  snapshot = get_cumulative_snapshot s;
  phase = get_phase s;
  reason = get_reason s;
  deliberate = (consume_deliberate_reset s).0;
  fault_task = get_fault_task s;
}

pub fault_task_loop_cong :
    (n length : ℕ) (r q : ℕ → ℕ)
    → ((p : ℕ) → offset_fault_task + length ≤ p → r p ≡ q p)
    → fault_task_loop n length r ≡ fault_task_loop n length q
unfolding fault_task_loop
fault_task_loop_cong zero length r q h = refl
fault_task_loop_cong (suc n) length r q h =
    rw
      (
        h (offset_fault_task + length) (omega arith),
        fault_task_loop_cong n (length + 1) r q (λ p k. h p (omega arith)),
      )
      refl

-- The readers of a valid block, from its bytes.
unfoldable pub readers : (ℕ → ℕ) → Block
readers regs = record {
  consecutive = regs 6;
  cumulative = regs 7;
  snapshot = regs 8;
  phase = phase_of_byte (regs 9);
  reason = reason_of_byte (regs 10);
  deliberate = deliberate_of_byte (regs 11);
  fault_task = fault_task_loop fault_task_len 0 regs;
}

pub view-readers : (s : System) → is_valid s ≡ true → view s ≡ readers s.vbtbkr
unfolding view readers get_consecutive_count get_cumulative_count get_cumulative_snapshot get_phase
    get_reason consume_deliberate_reset get_fault_task
view-readers s v = rw v refl

-- A byte with a name, which `static_cast` takes there and back.
abbrev pub IsPhase : BootPhase → Type 0
IsPhase p = phase_of_byte (phase_to_byte p) ≡ p

abbrev pub IsReason : ResetReason → Type 0
IsReason r = reason_of_byte (reason_to_byte r) ≡ r

abbrev pub IsDeliberate : DeliberateReset → Type 0
IsDeliberate d = deliberate_of_byte (deliberate_to_byte d) ≡ d

pub readers-seal_block : (regs : ℕ → ℕ) → readers (seal_block regs) ≡ readers regs
unfolding readers
readers-seal_block regs =
    rw
      (
        seal_block_outside regs 6 (omega arith),
        seal_block_outside regs 7 (omega arith),
        seal_block_outside regs 8 (omega arith),
        seal_block_outside regs 9 (omega arith),
        seal_block_outside regs 10 (omega arith),
        seal_block_outside regs 11 (omega arith),
        fault_task_loop_cong 15 0 (seal_block regs) regs
            (λ p h. seal_block_outside regs p (omega arith)),
      )
      refl

-- What a write's readers see: the bytes with one of them replaced.
view-write_byte :
    (offset value : ℕ) (s : System)
    → view (write_byte offset value s) ≡ readers (poke offset value s.vbtbkr)
unfolding write_byte
view-write_byte offset value s =
    view-readers (write_byte offset value s)
      (is_valid-seal_block (poke offset value s.vbtbkr) prcr_lock)
    ∙ readers-seal_block (poke offset value s.vbtbkr)

fault_task_loop-poke :
    (p v : ℕ) (regs : ℕ → ℕ)
    → p < offset_fault_task
    → fault_task_loop fault_task_len 0 (poke p v regs) ≡ fault_task_loop fault_task_len 0 regs
fault_task_loop-poke p v regs h =
    fault_task_loop_cong 15 0 (poke p v regs) regs (λ q k. ground arith)

readers-poke :
    (p v : ℕ) (regs : ℕ → ℕ)
    → p < offset_fault_task
    → readers (poke p v regs) ≡ record (readers regs) {
      consecutive = poke p v regs 6;
      cumulative = poke p v regs 7;
      snapshot = poke p v regs 8;
      phase = phase_of_byte (poke p v regs 9);
      reason = reason_of_byte (poke p v regs 10);
      deliberate = deliberate_of_byte (poke p v regs 11);
    }
unfolding readers
readers-poke p v regs h = rw (fault_task_loop-poke p v regs h) refl

module _ (s : System) (v : is_valid s ≡ true) where
  field :
      (offset value : ℕ)
      → offset < offset_fault_task
      → (b : Block)
      → record (readers s.vbtbkr) {
        consecutive = poke offset value s.vbtbkr 6;
        cumulative = poke offset value s.vbtbkr 7;
        snapshot = poke offset value s.vbtbkr 8;
        phase = phase_of_byte (poke offset value s.vbtbkr 9);
        reason = reason_of_byte (poke offset value s.vbtbkr 10);
        deliberate = deliberate_of_byte (poke offset value s.vbtbkr 11);
      }
        ≡ b
      → view (write_byte offset value s) ≡ b
  field offset value h b e =
      view-write_byte offset value s ∙ readers-poke offset value s.vbtbkr h ∙ e

  -- On a valid block a setter replaces its own field, and no reader of another field notices.
  pub view-set :
      (n : ℕ) (p : BootPhase) (r : ResetReason) (d : DeliberateReset)
      → IsPhase p
      → IsReason r
      → IsDeliberate d
      → (view (set_consecutive_count n s) ≡ record (view s) { consecutive = n })
        × (view (set_cumulative_count n s) ≡ record (view s) { cumulative = n })
        × (view (set_cumulative_snapshot n s) ≡ record (view s) { snapshot = n })
        × (view (set_phase p s) ≡ record (view s) { phase = p })
        × (view (set_reason r s) ≡ record (view s) { reason = r })
        × (view (set_deliberate_reset d s) ≡ record (view s) { deliberate = d })
  unfolding readers set_consecutive_count set_cumulative_count set_cumulative_snapshot set_phase
      set_reason set_deliberate_reset
  view-set n p r d hp hr hd = (
    field 6 n (omega arith) _ (rw (view-readers s v)),
    field 7 n (omega arith) _ (rw (view-readers s v)),
    field 8 n (omega arith) _ (rw (view-readers s v)),
    field 9 (phase_to_byte p) (omega arith) _ (rw (view-readers s v, hp)),
    field 10 (reason_to_byte r) (omega arith) _ (rw (view-readers s v, hr)),
    field 11 (deliberate_to_byte d) (omega arith) _ (rw (view-readers s v, hd)),
  )

-- Every setter leaves a valid block, whatever it found.
pub set_valid :
    (n : ℕ) (p : BootPhase) (r : ResetReason) (d : DeliberateReset) (s : System)
    → (is_valid (set_consecutive_count n s) ≡ true)
      × (is_valid (set_cumulative_count n s) ≡ true)
      × (is_valid (set_cumulative_snapshot n s) ≡ true)
      × (is_valid (set_phase p s) ≡ true)
      × (is_valid (set_reason r s) ≡ true)
      × (is_valid (set_deliberate_reset d s) ≡ true)
unfolding set_consecutive_count set_cumulative_count set_cumulative_snapshot set_phase set_reason
    set_deliberate_reset
set_valid n p r d s = (
  (write_byte_lem 6 n s (omega arith)).0,
  (write_byte_lem 7 n s (omega arith)).0,
  (write_byte_lem 8 n s (omega arith)).0,
  (write_byte_lem 9 (phase_to_byte p) s (omega arith)).0,
  (write_byte_lem 10 (reason_to_byte r) s (omega arith)).0,
  (write_byte_lem 11 (deliberate_to_byte d) s (omega arith)).0,
)

-- A phase that was written is read back, also where the block was invalid before.
pub get_phase-set_phase : (p : BootPhase) (s : System) → IsPhase p → get_phase (set_phase p s) ≡ p
unfolding get_phase set_phase
get_phase-set_phase p s h =
    let (v, _, b, _) = write_byte_lem 9 (phase_to_byte p) s (omega arith) in rw (v, b) h
