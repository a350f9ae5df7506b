-- ===== src/Recovery/Defaults.antt =====
-- Where the block of src/recovery.cpp goes back to a default: reinitialising it, consuming its
-- marker, and reading it while it is invalid.
use boredom_os.Prelude.{
  ℕ, zero, suc, ◌+◌, ◌<◌, ◌≡◌, refl, true, false, [], arith, ◌∙◌, ap, ◌⊎◌, inl, inr, if◌then◌else◌,
  leb, ltb, ◌&&◌, Bool-cases,
}
use boredom_os.Recovery.{
  System, is_valid, poke, reinitialise, clear_loop, offset_validity_magic, prcr_lock,
  deliberate_of_byte, get_consecutive_count, get_cumulative_count, get_cumulative_snapshot,
  get_phase, get_reason, consume_deliberate_reset, set_deliberate_reset, get_fault_task,
  fault_task_loop, is_none, none, start, power_on, backup_state_invalid, offset_fault_task,
}
use boredom_os.Recovery.Sealing.{seal_block_below, is_valid-seal_block, write_byte_lem}
use boredom_os.Recovery.Fields.{view, view-set, Block, readers, view-readers, readers-seal_block}

clear_loop_lem :
    (n offset : ℕ) (regs : ℕ → ℕ) (p : ℕ)
    → clear_loop n offset regs p ≡ (if leb offset p && ltb p (offset + n) then 0 else regs p)
unfolding clear_loop
clear_loop_lem zero offset regs p = ground arith
clear_loop_lem (suc n) offset regs p =
    ground (arith, clear_loop_lem n (offset + 1) (poke offset 0 regs) p)

fault_task_loop_empty :
    (n length : ℕ) (regs : ℕ → ℕ)
    → regs (offset_fault_task + length) ≡ 0
    → fault_task_loop n length regs ≡ []
unfolding fault_task_loop
fault_task_loop_empty zero length regs h = refl
fault_task_loop_empty (suc n) length regs h = rw h

abbrev pub blank_block : Block
blank_block = record {
  consecutive = 0;
  cumulative = 0;
  snapshot = 0;
  phase = start;
  reason = power_on;
  deliberate = none;
  fault_task = [];
}

-- Whatever the block held, reinitialising leaves it valid, locked and blank, and does not touch
-- the bytes below it, which are the bootloader's.
pub reinitialise_lem :
    (s : System)
    → (is_valid (reinitialise s) ≡ true)
      × ((reinitialise s).prcr ≡ prcr_lock)
      × (view (reinitialise s) ≡ blank_block)
      × ((p : ℕ) → p < offset_validity_magic → (reinitialise s).vbtbkr p ≡ s.vbtbkr p)
unfolding reinitialise
reinitialise_lem s = (
  is_valid-seal_block cleared prcr_lock,
  refl,
  view-readers (reinitialise s) (is_valid-seal_block cleared prcr_lock)
      ∙ readers-seal_block cleared
      ∙ blank,
  λ p h. seal_block_below cleared p h ∙ ground (arith, clear_loop_lem 21 6 s.vbtbkr p),
)
  where
    cleared : ℕ → ℕ
    cleared = clear_loop 21 6 s.vbtbkr

    blank : readers cleared ≡ blank_block
    blank =
        unfold readers in
        rw
          (
            clear_loop_lem 21 6 s.vbtbkr 6,
            clear_loop_lem 21 6 s.vbtbkr 7,
            clear_loop_lem 21 6 s.vbtbkr 8,
            clear_loop_lem 21 6 s.vbtbkr 9,
            clear_loop_lem 21 6 s.vbtbkr 10,
            clear_loop_lem 21 6 s.vbtbkr 11,
            fault_task_loop_empty 15 0 cleared (clear_loop_lem 21 6 s.vbtbkr 12),
          )
          refl

deliberate_of_byte_none :
    (n : ℕ) → is_none (deliberate_of_byte n) ≡ true → deliberate_of_byte n ≡ none
deliberate_of_byte_none n h = ground arith

consume_cases :
    (s : System)
    → is_valid s ≡ true
    → (((consume_deliberate_reset s).1 ≡ s) × ((view s).deliberate ≡ none))
      ⊎ ((consume_deliberate_reset s).1 ≡ set_deliberate_reset none s)
unfolding consume_deliberate_reset set_deliberate_reset view
consume_cases s v = elim (Bool-cases (is_none (deliberate_of_byte (s.vbtbkr 11)))) [
  | inl e ↦ inl (rw (v, e), rw v (deliberate_of_byte_none (s.vbtbkr 11) e))
  | inr e ↦ inr (rw (v, e))
]

deliberate-blank : (b : Block) → b.deliberate ≡ none → b ≡ record b { deliberate = none }
deliberate-blank b e = λ i. record b { deliberate = e i }

-- The marker is read once: what a valid block held is returned, the block keeps everything else,
-- and the next reader finds none.
pub consume_deliberate_reset_lem :
    (s : System)
    → is_valid s ≡ true
    → (is_valid (consume_deliberate_reset s).1 ≡ true)
      × (view (consume_deliberate_reset s).1 ≡ record (view s) { deliberate = none })
      × ((consume_deliberate_reset (consume_deliberate_reset s).1).0 ≡ none)
consume_deliberate_reset_lem s v = elim (consume_cases s v) [
  | inl (e, m) ↦ (rw e v, rw e (deliberate-blank (view s) m), rw e (unfold view in m))
  | inr e ↦ (rw e valid, rw e seen, rw e (unfold view in ap (λ (b : Block). b.deliberate) seen))
]
  where
    valid : is_valid (set_deliberate_reset none s) ≡ true
    valid = unfold set_deliberate_reset in (write_byte_lem 11 0 s (omega arith)).0

    seen : view (set_deliberate_reset none s) ≡ record (view s) { deliberate = none }
    seen = (view-set s v 0 start power_on none refl refl refl).5

-- An invalid block reads as the defaults.
pub invalid_lem :
    (s : System)
    → is_valid s ≡ false
    → view s ≡ record {
      consecutive = 0;
      cumulative = 0;
      snapshot = 0;
      phase = start;
      reason = backup_state_invalid;
      deliberate = none;
      fault_task = [];
    }
unfolding view get_consecutive_count get_cumulative_count get_cumulative_snapshot get_phase
    get_reason consume_deliberate_reset get_fault_task
invalid_lem s h = rw h
