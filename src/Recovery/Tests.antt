-- ===== src/Recovery/Tests.antt =====
-- Inputs, runs and instances for the recovery block.
use boredom_os.Prelude.{◌≡◌, refl, true, false, arith}
use boredom_os.Recovery.{
  start, power_on, none, System, is_valid, poke, set_cumulative_count, set_consecutive_count,
  reinitialise,
}
use boredom_os.Recovery.Checksum.{is_valid-poke}
use boredom_os.Recovery.Fields.{view, view-set}
use boredom_os.Recovery.Sealing.{write_byte_lem}

-- What a board holds before its first boot: the same byte everywhere.
abbrev never_flashed : System
never_flashed = record { prcr = 0; vbtbkr = λ p. 0x5A }

-- The block after one write of each counter.
abbrev counted : System
counted = set_cumulative_count 7 (set_consecutive_count 2 (reinitialise never_flashed))

never_flashed_invalid : is_valid never_flashed ≡ false
unfolding is_valid
never_flashed_invalid = refl

counted_valid : is_valid counted ≡ true
unfolding set_cumulative_count
counted_valid =
    (write_byte_lem 7 7 (set_consecutive_count 2 (reinitialise never_flashed)) (omega arith)).0

is_valid-poke_example : is_valid (record counted { vbtbkr = poke 7 9 counted.vbtbkr }) ≡ false
is_valid-poke_example =
    is_valid-poke counted 7 9 counted_valid (omega arith) (omega arith) (omega (arith, held))
      (omega arith) (λ e. absurd (omega (arith, held, e)))
  where
    held : counted.vbtbkr 7 ≡ 7
    held =
        unfold set_cumulative_count in
        (write_byte_lem 7 7 (set_consecutive_count 2 (reinitialise never_flashed)) (omega arith)).2

view-set_example : view (set_cumulative_count 9 counted) ≡ record (view counted) { cumulative = 9 }
view-set_example = (view-set counted counted_valid 9 start power_on none refl refl refl).1
