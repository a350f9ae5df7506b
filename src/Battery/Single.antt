-- ===== src/Battery/Single.antt =====
-- The operations on `float`s that lib/Battery uses: IEEE 754 single precision, to nearest, ties to
-- even.
use boredom_os.Prelude.{
  ℕ, zero, suc, ◌+◌, ◌-◌, ◌*◌, ◌/◌, ◌%◌, ◌^◌, Bool, true, false, not, ◌&&◌, ◌||◌, ◌==◌, leb, ltb,
  if◌then◌else◌,
}
use boredom_os.MavlinkTask.Float.{Float, nan, infinite, finite, float_unit}

-- How many of its lowest bits a number has to lose to have 24 left, over fuel.
unfoldable pub spare : ℕ → ℕ → ℕ
spare zero q = 0
spare (suc fuel) q = let rest = spare fuel (q / 2) in if ltb q (2 ^ 24) then 0 else suc rest

-- A number and its remainder out of `s`, to the nearest, at a tie to the even one.
unfoldable pub nearest : ℕ → ℕ → ℕ → ℕ
nearest m r s = if ltb s (2 * r) || (2 * r == s && m % 2 == 1) then m + 1 else m

-- The bits of a quotient: more than it can have for the magnitudes of two floats.
abbrev pub bits : ℕ
bits = 700

-- n / d, as the nearest whole number of 24 bits and as many zeros as it needs.
unfoldable pub rounded : ℕ → ℕ → ℕ
rounded n d =
    let q = n / d in
    let k = spare bits q in let m = q / 2 ^ k in nearest m (n - m * (d * 2 ^ k)) (d * 2 ^ k) * 2 ^ k

-- Past the largest float there is infinity.
unfoldable pub as_float : Bool → ℕ → Float
as_float negative magnitude =
    if leb (2 ^ 277) magnitude then infinite negative else finite negative magnitude

abbrev pub differ : Bool → Bool → Bool
differ true b = not b
differ false b = b

unfoldable pub minus : Float → Float → Float
minus nan y = nan
minus (infinite s) nan = nan
minus (infinite s) (infinite t) = if differ s t then infinite s else nan
minus (infinite s) (finite t n) = infinite s
minus (finite s m) nan = nan
minus (finite s m) (infinite t) = infinite (not t)
minus (finite s m) (finite t n) =
    if differ s t
    then as_float s (rounded (m + n) 1)
    else if leb n m
    then as_float (s && not (m == n)) (rounded (m - n) 1)
    else as_float (not s) (rounded (n - m) 1)

unfoldable pub times : Float → Float → Float
times nan y = nan
times (infinite s) nan = nan
times (infinite s) (infinite t) = infinite (differ s t)
times (infinite s) (finite t n) = if n == 0 then nan else infinite (differ s t)
times (finite s m) nan = nan
times (finite s m) (infinite t) = if m == 0 then nan else infinite (differ s t)
times (finite s m) (finite t n) = as_float (differ s t) (rounded (m * n) float_unit)

unfoldable pub over : Float → Float → Float
over nan y = nan
over (infinite s) nan = nan
over (infinite s) (infinite t) = nan
over (infinite s) (finite t n) = infinite (differ s t)
over (finite s m) nan = nan
over (finite s m) (infinite t) = finite (differ s t) 0
over (finite s m) (finite t n) =
    if n == 0
    then if m == 0 then nan else infinite (differ s t)
    else as_float (differ s t) (rounded (m * float_unit) n)

-- `x > bound`, for a bound that is a natural number, and `x < 0.0f`.
unfoldable pub above : Float → ℕ → Bool
above nan bound = false
above (infinite negative) bound = not negative
above (finite negative magnitude) bound = not negative && ltb (bound * float_unit) magnitude

unfoldable pub below_zero : Float → Bool
below_zero nan = false
below_zero (infinite negative) = negative
below_zero (finite negative magnitude) = negative && not (magnitude == 0)
