-- ===== src/Battery/Scale.antt =====
-- The scale of `remaining`: a percentage that never falls as the voltage rises.
use boredom_os.Prelude.{
  ℕ, ◌+◌, ◌-◌, ◌≤◌, ◌<◌, ◌≡◌, refl, Bool, true, false, arith, leb, leb_cases, ◌∙◌, ap, ◌⊎◌, inl,
  inr,
}
use boredom_os.MavlinkTask.Float.{Float, finite, float_of, float_of_bits, to_i32}
use boredom_os.Battery.{full_voltage, percent_of, bounded, to_percent}
use boredom_os.Battery.Single.{
  rounded, spare, nearest, as_float, minus, over, times, above, below_zero,
}
use boredom_os.Battery.Ordered.{
  float_limit, empty_units, full_units, empty_lem, as_float-Sunk, span, over-Under, times-Under,
  minus-Under, whole_percent, whole_percent_bound, whole_percent_mono, Sunk, over-Sunk, times-Sunk,
  whole_percent-Sunk,
}

span_by : minus full_voltage (finite false empty_units) ≡ span
unfolding float_of_bits minus rounded spare nearest as_float
span_by = refl

-- The percentage of the difference from 3.5f.
percent_by :
    (v : Float)
    → to_percent v
      ≡ whole_percent (times (over (minus v (finite false empty_units)) span) (float_of 100))
unfolding to_percent percent_of whole_percent
percent_by v =
    ap (λ x. whole_percent (times (over (minus v x) (minus full_voltage x)) (float_of 100)))
      empty_lem
    ∙ ap (λ x. whole_percent (times (over (minus v (finite false empty_units)) x) (float_of 100)))
        span_by

drained_percent : (v : Float) → Sunk (minus v (finite false empty_units)) → to_percent v ≡ 0
drained_percent v h = percent_by v ∙ whole_percent-Sunk (times-Sunk (over-Sunk h))

negative_percent : (m : ℕ) → to_percent (finite true m) ≡ 0
unfolding minus
negative_percent m = drained_percent (finite true m) (as_float-Sunk (rounded (m + empty_units) 1))

low_percent : (m : ℕ) → m < empty_units → to_percent (finite false m) ≡ 0
unfolding minus
low_percent m h =
    let a : leb empty_units m ≡ false = ground (arith, h) in
    drained_percent (finite false m) (rw (minus, a) (as_float-Sunk (rounded (empty_units - m) 1)))

high_mono :
    (m n : ℕ)
    → empty_units ≤ m
    → m ≤ n
    → n < float_limit
    → to_percent (finite false m) ≤ to_percent (finite false n)
high_mono m n least h small =
    let up = whole_percent_mono (times-Under (over-Under (minus-Under m n least h small))) in
    omega (arith, up, percent_by (finite false m), percent_by (finite false n))

percent_mono :
    (m n : ℕ) → m ≤ n → n < float_limit → to_percent (finite false m) ≤ to_percent (finite false n)
percent_mono m n h small = elim (leb_cases empty_units m) [
  | inl least ↦ high_mono m n least h small
  | inr low ↦ omega (arith, low_percent m low)
]

at_full : to_percent (finite false full_units) ≡ 100
unfolding to_percent percent_of bounded minus over times above below_zero rounded spare nearest
    as_float to_i32 float_of_bits
at_full = refl

at_empty : to_percent (finite false empty_units) ≡ 0
unfolding to_percent percent_of bounded minus over times above below_zero rounded spare nearest
    as_float to_i32 float_of_bits
at_empty = refl

to_percent_bound : (v : Float) → to_percent v ≤ 100
to_percent_bound v =
    let bound =
      whole_percent_bound (times (over (minus v (finite false empty_units)) span) (float_of 100)) in
    omega (arith, percent_by v, bound)

-- The order of the voltages.
abbrev pub AtMost : Bool → ℕ → Bool → ℕ → Type 0
AtMost false m false n = m ≤ n
AtMost false m true n = (m ≡ 0) × (n ≡ 0)
AtMost true m false n = Unit
AtMost true m true n = n ≤ m

signed_mono :
    (s t : Bool) (m n : ℕ)
    → n < float_limit
    → AtMost s m t n
    → to_percent (finite s m) ≤ to_percent (finite t n)
signed_mono false false m n small h = percent_mono m n h small
signed_mono false true m n small h = omega (arith, low_percent m (omega (arith, h.0)))
signed_mono true t m n small h = omega (arith, negative_percent m)

lowest : (s : Bool) (m : ℕ) → (s ≡ true) ⊎ (m ≤ empty_units) → to_percent (finite s m) ≡ 0
lowest true m low = negative_percent m
lowest false m (inl e) = cc
lowest false m (inr low) = omega (arith, percent_mono m empty_units low (omega arith), at_empty)

-- Of two voltages that are finite floats, given by sign and magnitude, the higher has no lower
-- percentage, in single precision's rounding; and no percentage is over 100.
pub to_percent_lem :
    (s t : Bool) (m n : ℕ)
    → n < float_limit
    → AtMost s m t n
    → (to_percent (finite s m) ≤ to_percent (finite t n)) × (to_percent (finite t n) ≤ 100)
to_percent_lem s t m n small h = (signed_mono s t m n small h, to_percent_bound (finite t n))

-- From 4.2 volts on, as single precision has it, the percentage is 100; down from 3.5 volts, below
-- zero included, it is 0.
pub to_percent_ends :
    (s : Bool) (m n : ℕ)
    → full_units ≤ n
    → n < float_limit
    → (s ≡ true) ⊎ (m ≤ empty_units)
    → (to_percent (finite false n) ≡ 100) × (to_percent (finite s m) ≡ 0)
to_percent_ends s m n high small low = (
  omega (arith, percent_mono full_units n high small, at_full, to_percent_bound (finite false n)),
  lowest s m low,
)
