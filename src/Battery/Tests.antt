-- ===== src/Battery/Tests.antt =====
-- The scales at known voltages.
use boredom_os.Prelude.{◌*◌, ◌^◌, ◌≤◌, ◌≡◌, refl, false, arith}
use boredom_os.MavlinkTask.Float.{finite, float_of_bits, to_i32, to_u16}
use boredom_os.Battery.Scale.{to_percent_lem}
use boredom_os.Battery.{to_percent, to_millivolts, percent_of, bounded}
use boredom_os.Battery.Single.{
  minus, over, times, above, below_zero, rounded, spare, nearest, as_float,
}

-- 3.7f.
at_37 : to_percent (float_of_bits 0x406ccccd) ≡ 28
unfolding to_percent percent_of bounded minus over times above below_zero rounded spare nearest
    as_float to_i32 float_of_bits
at_37 = refl

mv_37 : to_millivolts (float_of_bits 0x406ccccd) ≡ 3700
unfolding to_millivolts times rounded spare nearest as_float to_u16 float_of_bits
mv_37 = refl

to_percent_lem_example :
    to_percent (finite false (15 * 2 ^ 147)) ≤ to_percent (finite false (4 * 2 ^ 149))
to_percent_lem_example =
    (to_percent_lem false false (15 * 2 ^ 147) (4 * 2 ^ 149) (omega arith) (omega arith)).0
