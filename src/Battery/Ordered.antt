-- ===== src/Battery/Ordered.antt =====
-- The order of floats, and what each operation of `remaining` keeps of it.
use boredom_os.Prelude.{
  ℕ, zero, suc, ◌-◌, ◌*◌, ◌/◌, ◌^◌, ◌≤◌, ◌<◌, min, ◌≡◌, refl, Bool, true, false, arith, u8, ltb,
  leb, leb_cases, ◌==◌, ◌⊎◌, inl, inr,
}
use boredom_os.MavlinkTask.Float.{
  Float, nan, infinite, finite, float_unit, float_of, float_of_bits, to_i32,
}
use boredom_os.Battery.{empty_voltage, full_voltage, bounded}
use boredom_os.Battery.Single.{
  rounded, spare, nearest, as_float, minus, over, times, above, below_zero,
}
use boredom_os.Battery.Rounding.{rounded_mono}

-- A float that is not NaN or infinite is below this.
abbrev pub float_limit : ℕ
float_limit = 2 ^ 277

-- 3.5f, 4.2f and their difference, in the unit.
abbrev pub empty_units : ℕ
empty_units = 14680064 * 2 ^ 127

abbrev pub full_units : ℕ
full_units = 8808038 * 2 ^ 128

abbrev pub span_units : ℕ
span_units = 8808038 * 2 ^ 128 - 14680064 * 2 ^ 127

pub empty_lem : empty_voltage ≡ finite false empty_units
unfolding float_of_bits
empty_lem = refl

full_lem : full_voltage ≡ finite false full_units
unfolding float_of_bits
full_lem = refl

span_lem : minus full_voltage empty_voltage ≡ finite false span_units
unfolding float_of_bits minus rounded spare nearest as_float
span_lem = refl

-- The order of what is not negative, with infinity last.
pub data Under : Float → Float → Type 0 where
  numbers : (m n : ℕ) → m ≤ n → n < float_limit → Under (finite false m) (finite false n)
  toward : (m : ℕ) → m < float_limit → Under (finite false m) (infinite false)
  tops : Under (infinite false) (infinite false)

as_float-cases :
    (s : Bool) (m : ℕ)
    → ((float_limit ≤ m) × (as_float s m ≡ infinite s))
      ⊎ ((m < float_limit) × (as_float s m ≡ finite s m))
unfolding as_float
as_float-cases s m = elim (leb_cases (2 ^ 277) m) [
  | inl big ↦ let a : leb (2 ^ 277) m ≡ true = ground (arith, big) in inl (big, rw (a) refl)
  | inr small ↦ let a : leb (2 ^ 277) m ≡ false = ground (arith, small) in inr (small, rw (a) refl)
]

as_float-toward : (m : ℕ) → Under (as_float false m) (infinite false)
as_float-toward m = elim (as_float-cases false m) [
  | inl (big, e) ↦ rw (e) tops
  | inr (small, e) ↦ rw (e) (toward m small)
]

pub as_float-Under : (m n : ℕ) → m ≤ n → Under (as_float false m) (as_float false n)
as_float-Under m n h = elim (as_float-cases false n) [
  | inl (big, e) ↦ rw (e) (as_float-toward m)
  | inr (less, e) ↦ elim (as_float-cases false m) [
    | inl (big, f) ↦ absurd (omega (arith, big, less, h))
    | inr (small, f) ↦ rw (e, f) (numbers m n h less)
  ]
]

abbrev pub span : Float
span = finite false span_units

pub over-Under : {x y : Float} → Under x y → Under (over x span) (over y span)
unfolding over
over-Under (numbers m n h small) =
    as_float-Under (rounded (m * float_unit) span_units) (rounded (n * float_unit) span_units) (
      rounded_mono (m * float_unit) (n * float_unit) span_units (omega arith) (omega (arith, h))
        (omega (arith, small)))
over-Under (toward m small) = as_float-toward (rounded (m * float_unit) span_units)
over-Under tops = tops

pub times-Under :
    {x y : Float} → Under x y → Under (times x (float_of 100)) (times y (float_of 100))
unfolding times
times-Under (numbers m n h small) =
    as_float-Under (rounded (m * (100 * float_unit)) float_unit)
      (rounded (n * (100 * float_unit)) float_unit)
      (rounded_mono (m * (100 * float_unit)) (n * (100 * float_unit)) float_unit (omega arith)
        (omega (arith, h)) (omega (arith, small)))
times-Under (toward m small) = as_float-toward (rounded (m * (100 * float_unit)) float_unit)
times-Under tops = tops

pub minus-Under :
    (m n : ℕ)
    → empty_units ≤ m
    → m ≤ n
    → n < float_limit
    → Under
        (minus (finite false m) (finite false empty_units))
        (minus (finite false n) (finite false empty_units))
unfolding minus
minus-Under m n least h small =
    let a : leb empty_units m ≡ true = ground (arith, least) in
    let b : leb empty_units n ≡ true = ground (arith, least, h) in
    let c = as_float-Under (rounded (m - empty_units) 1) (rounded (n - empty_units) 1) (
      rounded_mono (m - empty_units) (n - empty_units) 1 (omega arith) (omega (arith, h))
        (omega (arith, small))) in
    rw (a, b) c

-- What becomes of the percentage of a float, by its sign.
unfoldable pub whole_percent : Float → ℕ
whole_percent x = u8 (to_i32 (bounded x))

capped : (m : ℕ) → whole_percent (finite false m) ≡ min 100 (m / float_unit)
unfolding whole_percent bounded above below_zero to_i32
capped m = elim (leb_cases m (100 * float_unit)) [
  | inl small ↦
      let a : ltb (100 * float_unit) m ≡ false = ground (arith, small) in
      rw (a) (omega (arith, small))
  | inr large ↦
      let a : ltb (100 * float_unit) m ≡ true = ground (arith, large) in
      rw (a) (omega (arith, large))
]

zeroed : (m : ℕ) → whole_percent (finite true m) ≡ 0
unfolding whole_percent bounded above below_zero to_i32
zeroed zero = refl
zeroed (suc m) = let a : (suc m == 0) ≡ false = ground arith in rw (a) refl

full_percent : whole_percent (infinite false) ≡ 100
unfolding whole_percent bounded above below_zero to_i32
full_percent = refl

pub whole_percent_bound : (x : Float) → whole_percent x ≤ 100
unfolding whole_percent bounded above below_zero to_i32
whole_percent_bound nan = omega arith
whole_percent_bound (infinite true) = omega arith
whole_percent_bound (infinite false) = omega arith
whole_percent_bound (finite true m) = omega (arith, zeroed m)
whole_percent_bound (finite false m) = omega (arith, capped m)

pub whole_percent_mono : {x y : Float} → Under x y → whole_percent x ≤ whole_percent y
whole_percent_mono (numbers m n h small) = omega (arith, capped m, capped n, h)
whole_percent_mono (toward m small) = omega (arith, capped m, full_percent)
whole_percent_mono tops = omega arith

-- What is below zero, or its negative zero.
pub data Sunk : Float → Type 0 where
  number : (m : ℕ) → Sunk (finite true m)
  bottom : Sunk (infinite true)

pub as_float-Sunk : (m : ℕ) → Sunk (as_float true m)
as_float-Sunk m = elim (as_float-cases true m) [
  | inl (big, e) ↦ rw (e) bottom
  | inr (small, e) ↦ rw (e) (number m)
]

pub over-Sunk : {x : Float} → Sunk x → Sunk (over x span)
unfolding over
over-Sunk (number m) = as_float-Sunk (rounded (m * float_unit) span_units)
over-Sunk bottom = bottom

pub times-Sunk : {x : Float} → Sunk x → Sunk (times x (float_of 100))
unfolding times
times-Sunk (number m) = as_float-Sunk (rounded (m * (100 * float_unit)) float_unit)
times-Sunk bottom = bottom

pub whole_percent-Sunk : {x : Float} → Sunk x → whole_percent x ≡ 0
unfolding whole_percent bounded above below_zero to_i32
whole_percent-Sunk (number m) = zeroed m
whole_percent-Sunk bottom = refl
