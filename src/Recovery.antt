-- ===== src/Recovery.antt =====
-- src/recovery.cpp and include/Recovery.h: the battery-backed recovery block.
--
-- `R_SYSTEM` is a record of the two registers that the file writes: PRCR, and VBTBKR as a function
-- from a byte's offset to its value. The hardware's refusal of a write while PRCR is locked is not
-- modelled: each operation writes PRCR around its stores as the code does.
mod Values
pub mod Checksum
pub mod Sealing
pub mod Fields
pub mod Defaults
pub mod Fault
mod Tests
pub use Values.*
use boredom_os.Prelude.{
  ℕ, zero, suc, ◌+◌, ◌-◌, ◌<◌, ◌≤◌, Bool, true, false, ◌&&◌, ◌||◌, List, [], ◌∷◌, ltb, leb, ◌==◌,
  if◌then◌else◌, u8,
}

-- The 8-bit registers of the block, and the protection register.
pub record System : Type 0 where
  pub prcr : ℕ
  pub vbtbkr : ℕ → ℕ

-- `vbtbkr(offset) = value`: one byte of the block.
abbrev pub poke : ℕ → ℕ → (ℕ → ℕ) → ℕ → ℕ
poke offset value regs p = if offset == p then value else regs p

-- `sum += vbtbkr(offset)` over the rounds left, in a `uint8_t`.
pub checksum_loop : ℕ → ℕ → (ℕ → ℕ) → ℕ → ℕ
checksum_loop zero offset regs sum = sum
checksum_loop (suc rounds) offset regs sum =
    checksum_loop rounds (offset + 1) regs (u8 (sum + regs offset))

-- From the consecutive count up to and with the last byte: 21 rounds.
pub compute_checksum : (ℕ → ℕ) → ℕ
compute_checksum regs =
    checksum_loop (offset_last + 1 - offset_consecutive_count) offset_consecutive_count regs 0

unfoldable pub is_valid : System → Bool
is_valid s =
    s.vbtbkr offset_validity_magic == validity_magic
    && s.vbtbkr offset_checksum == compute_checksum s.vbtbkr

-- The last two stores of every write: the checksum, then the magic.
pub seal_block : (ℕ → ℕ) → ℕ → ℕ
seal_block regs =
    poke offset_validity_magic validity_magic (poke offset_checksum (compute_checksum regs) regs)

-- `vbtbkr(offset) = 0` over the rounds left.
pub clear_loop : ℕ → ℕ → (ℕ → ℕ) → ℕ → ℕ
clear_loop zero offset regs = regs
clear_loop (suc rounds) offset regs = clear_loop rounds (offset + 1) (poke offset 0 regs)

pub reinitialise : System → System
unfolding seal_block
reinitialise s =
    let s = record s { prcr = prcr_unlock_prc1 } in
    let cleared =
      clear_loop (offset_last + 1 - offset_consecutive_count) offset_consecutive_count s.vbtbkr in
    let s = record s { vbtbkr = seal_block cleared } in record s { prcr = prcr_lock }

pub write_byte : ℕ → ℕ → System → System
unfolding seal_block
write_byte offset value s =
    let s = record s { prcr = prcr_unlock_prc1 } in
    let s = record s { vbtbkr = seal_block (poke offset value s.vbtbkr) } in
    record s { prcr = prcr_lock }

pub get_consecutive_count : System → ℕ
get_consecutive_count s = if is_valid s then s.vbtbkr offset_consecutive_count else 0

pub set_consecutive_count : ℕ → System → System
set_consecutive_count value = write_byte offset_consecutive_count value

pub get_cumulative_count : System → ℕ
get_cumulative_count s = if is_valid s then s.vbtbkr offset_cumulative_count else 0

pub set_cumulative_count : ℕ → System → System
set_cumulative_count value = write_byte offset_cumulative_count value

pub get_cumulative_snapshot : System → ℕ
get_cumulative_snapshot s = if is_valid s then s.vbtbkr offset_cumulative_snapshot else 0

pub set_cumulative_snapshot : ℕ → System → System
set_cumulative_snapshot value = write_byte offset_cumulative_snapshot value

pub get_phase : System → BootPhase
get_phase s = if is_valid s then phase_of_byte (s.vbtbkr offset_phase) else start

pub set_phase : BootPhase → System → System
set_phase phase = write_byte offset_phase (phase_to_byte phase)

pub get_reason : System → ResetReason
get_reason s = if is_valid s then reason_of_byte (s.vbtbkr offset_reason) else backup_state_invalid

pub set_reason : ResetReason → System → System
set_reason reason = write_byte offset_reason (reason_to_byte reason)

abbrev pub is_none : DeliberateReset → Bool
is_none value = deliberate_to_byte value == 0

pub consume_deliberate_reset : System → DeliberateReset × System
consume_deliberate_reset s =
    let value = if is_valid s then deliberate_of_byte (s.vbtbkr offset_deliberate) else none in
    (value, if is_none value then s else write_byte offset_deliberate (deliberate_to_byte none) s)

pub set_deliberate_reset : DeliberateReset → System → System
set_deliberate_reset value = write_byte offset_deliberate (deliberate_to_byte value)

-- The copy of the task's name over the rounds left: it stops reading at a NUL and pads with zeros.
pub fault_name_loop : ℕ → ℕ → Bool → (ℕ → ℕ) → (ℕ → ℕ) → ℕ → ℕ
fault_name_loop zero i ended task_name regs = regs
fault_name_loop (suc rounds) i ended task_name regs =
    let c : ℕ = if ended then 0 else task_name i in
    fault_name_loop rounds (i + 1) (c == 0 || ended) task_name (poke (offset_fault_task + i) c regs)

-- A `const char *`: null, or the bytes that stand from it on.
pub data CharPointer : Type 0 where
  nullptr : CharPointer
  points_to : (ℕ → ℕ) → CharPointer

abbrev pub is_null : CharPointer → Bool
is_null nullptr = true
is_null (points_to bytes) = false

-- A null pointer is never read: the loop starts `ended`.
abbrev pub bytes_at : CharPointer → ℕ → ℕ
bytes_at nullptr i = 0
bytes_at (points_to bytes) i = bytes i

pub record_fault : BootPhase → CharPointer → System → System
unfolding seal_block
record_fault phase task_name s =
    let s = record s { prcr = prcr_unlock_prc1 } in
    let named =
      fault_name_loop fault_task_len 0 (is_null task_name) (bytes_at task_name) s.vbtbkr in
    let s = record s { vbtbkr = seal_block (poke offset_phase (phase_to_byte phase) named) } in
    record s { prcr = prcr_lock }

-- `(c >= 0x20 && c < 0x7F) ? c : '?'`
abbrev pub printable : ℕ → ℕ
printable c = if leb 0x20 c && ltb c 0x7F then c else b'?'

-- The characters stored before the terminator, over the rounds left.
pub fault_task_loop : ℕ → ℕ → (ℕ → ℕ) → List ℕ
fault_task_loop zero length regs = []
fault_task_loop (suc rounds) length regs =
    let rest = fault_task_loop rounds (length + 1) regs in
    let c = regs (offset_fault_task + length) in if c == 0 then [] else printable c ∷ rest

-- `out` up to its NUL.
pub get_fault_task : System → List ℕ
get_fault_task s = if is_valid s then fault_task_loop fault_task_len 0 s.vbtbkr else []
