-- ===== src/Recovery/Sealing.antt =====
-- What a write through the block of src/recovery.cpp leaves behind: a valid, locked block, one
-- byte changed.
use boredom_os.Prelude.{ℕ, ◌≤◌, ◌<◌, ◌≡◌, ◌≢◌, refl, true, arith, ◌∙◌}
use boredom_os.Recovery.{
  System, compute_checksum, is_valid, poke, seal_block, write_byte, offset_validity_magic,
  offset_checksum, offset_consecutive_count, validity_magic, prcr_lock,
}
use boredom_os.Recovery.Checksum.{compute_checksum-poke_outside}

pub seal_block_outside :
    (regs : ℕ → ℕ) (p : ℕ) → offset_consecutive_count ≤ p → seal_block regs p ≡ regs p
unfolding seal_block
seal_block_outside regs p h = ground arith

pub seal_block_below :
    (regs : ℕ → ℕ) (p : ℕ) → p < offset_validity_magic → seal_block regs p ≡ regs p
unfolding seal_block
seal_block_below regs p h = ground arith

pub is_valid-seal_block :
    (regs : ℕ → ℕ) (k : ℕ) → is_valid (record { prcr = k; vbtbkr = seal_block regs }) ≡ true
unfolding is_valid seal_block
is_valid-seal_block regs k = ground (
  arith,
  compute_checksum-poke_outside regs 5 (compute_checksum regs),
  compute_checksum-poke_outside (poke 5 (compute_checksum regs) regs) 4 validity_magic,
)

-- A write at an offset of the summed range leaves a valid block and a locked PRCR, stores its byte,
-- and changes no other byte than the magic and the checksum.
pub write_byte_lem :
    (offset value : ℕ) (s : System)
    → offset_consecutive_count ≤ offset
    → (is_valid (write_byte offset value s) ≡ true)
      × ((write_byte offset value s).prcr ≡ prcr_lock)
      × ((write_byte offset value s).vbtbkr offset ≡ value)
      × ((p : ℕ)
          → p ≢ offset
          → p ≢ offset_validity_magic
          → p ≢ offset_checksum
          → (write_byte offset value s).vbtbkr p ≡ s.vbtbkr p)
unfolding write_byte
write_byte_lem offset value s h = (
  is_valid-seal_block (poke offset value s.vbtbkr) prcr_lock,
  refl,
  seal_block_outside (poke offset value s.vbtbkr) offset h ∙ ground arith,
  λ p a b c. unfold seal_block in ground arith,
)
