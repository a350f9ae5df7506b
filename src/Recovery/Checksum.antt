-- ===== src/Recovery/Checksum.antt =====
-- The checksum over the recovery block: what it depends on, and what it detects.
use boredom_os.Prelude.{
  ℕ, zero, suc, ◌+◌, ◌≤◌, ◌<◌, ◌≡◌, ◌≢◌, refl, arith, u8, ◌⊎◌, inl, true, false,
}
use boredom_os.Recovery.{
  checksum_loop, compute_checksum, poke, offset_consecutive_count, System, is_valid,
  offset_validity_magic, offset_last,
}

-- The plain sum of `n` bytes from `offset` on.
abbrev sum_bytes : ℕ → ℕ → (ℕ → ℕ) → ℕ
sum_bytes zero offset regs = 0
sum_bytes (suc n) offset regs = regs offset + sum_bytes n (offset + 1) regs

checksum_loop-sum :
    (n offset : ℕ) (regs : ℕ → ℕ) (sum : ℕ)
    → u8 (checksum_loop n offset regs sum) ≡ u8 (sum + sum_bytes n offset regs)
unfolding checksum_loop
checksum_loop-sum zero offset regs sum = omega arith
checksum_loop-sum (suc n) offset regs sum =
    omega (arith, checksum_loop-sum n (offset + 1) regs (u8 (sum + regs offset)))

checksum_loop-lt :
    (n offset : ℕ) (regs : ℕ → ℕ) (sum : ℕ) → sum < 256 → checksum_loop n offset regs sum < 256
unfolding checksum_loop
checksum_loop-lt zero offset regs sum h = h
checksum_loop-lt (suc n) offset regs sum h =
    checksum_loop-lt n (offset + 1) regs (u8 (sum + regs offset)) (omega arith)

pub compute_checksum-sum :
    (regs : ℕ → ℕ) → compute_checksum regs ≡ u8 (sum_bytes 21 offset_consecutive_count regs)
unfolding compute_checksum
compute_checksum-sum regs =
    omega (arith, checksum_loop-sum 21 6 regs 0, checksum_loop-lt 21 6 regs 0 (omega arith))

-- A byte outside the summed range changes nothing.
sum_bytes-poke_outside :
    (n offset : ℕ) (regs : ℕ → ℕ) (p v : ℕ)
    → ((p < offset) ⊎ (offset + n ≤ p))
    → sum_bytes n offset (poke p v regs) ≡ sum_bytes n offset regs
sum_bytes-poke_outside zero offset regs p v h = refl
sum_bytes-poke_outside (suc n) offset regs p v h =
    ground (arith, sum_bytes-poke_outside n (offset + 1) regs p v)

-- A byte inside it changes the sum by the difference.
sum_bytes-poke_inside :
    (n offset : ℕ) (regs : ℕ → ℕ) (p v : ℕ)
    → offset ≤ p
    → p < offset + n
    → sum_bytes n offset (poke p v regs) + regs p ≡ sum_bytes n offset regs + v
sum_bytes-poke_inside zero offset regs p v h k = absurd (omega arith)
sum_bytes-poke_inside (suc n) offset regs p v h k = ground (
  arith,
  sum_bytes-poke_inside n (offset + 1) regs p v,
  sum_bytes-poke_outside n (offset + 1) regs p v,
)

pub compute_checksum-poke_outside :
    (regs : ℕ → ℕ) (p v : ℕ)
    → p < offset_consecutive_count
    → compute_checksum (poke p v regs) ≡ compute_checksum regs
compute_checksum-poke_outside regs p v h = omega (
  arith,
  compute_checksum-sum regs,
  compute_checksum-sum (poke p v regs),
  sum_bytes-poke_outside 21 6 regs p v (inl h),
)

pub compute_checksum-poke_inside :
    (regs : ℕ → ℕ) (p v : ℕ)
    → offset_consecutive_count ≤ p
    → p ≤ offset_last
    → regs p < 256
    → v < 256
    → v ≢ regs p
    → compute_checksum (poke p v regs) ≢ compute_checksum regs
compute_checksum-poke_inside regs p v lo hi a b ne = omega (
  arith,
  compute_checksum-sum regs,
  compute_checksum-sum (poke p v regs),
  sum_bytes-poke_inside 21 6 regs p v lo (omega arith),
)

-- Any one byte of a valid block that changes, in the magic, the checksum or the summed range,
-- makes the block invalid.
pub is_valid-poke :
    (s : System) (p v : ℕ)
    → is_valid s ≡ true
    → offset_validity_magic ≤ p
    → p ≤ offset_last
    → s.vbtbkr p < 256
    → v < 256
    → v ≢ s.vbtbkr p
    → is_valid (record s { vbtbkr = poke p v s.vbtbkr }) ≡ false
unfolding is_valid
is_valid-poke s p v ok lo hi a b ne =
    ground
      (arith, compute_checksum-poke_inside s.vbtbkr p v, compute_checksum-poke_outside s.vbtbkr p v)
