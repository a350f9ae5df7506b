-- ===== src/MavlinkTask/Float.antt =====
-- The float parameters of a COMMAND_LONG, as src/mavlink.cpp reads them: the exact values of the
-- 32-bit format, its comparisons and its conversions.
--
-- A conversion that C++ leaves undefined, of a value that the integer type cannot hold, is the
-- board's instruction: it saturates at 32 bits and takes NaN to 0, and a `uint16_t` is then cut.
use boredom_os.Prelude.{
  ℕ, ◌+◌, ◌-◌, ◌*◌, ◌/◌, ◌%◌, ◌^◌, ◌≤◌, min, ◌≡◌, ◌↔◌, Bool, true, false, not, ◌&&◌, ◌||◌, Option,
  none, some, arith, u16, u32, uint16_max, uint32_max, ◌==◌, leb, ◌∙◌, sym, ap, ◌⊎◌, inl, inr,
  if◌then◌else◌,
}

-- A finite float is a whole number of units of 2 ^ -149.
pub data Float : Type 0 where
  nan : Float
  infinite : Bool → Float
  -- negative, magnitude
  finite : Bool → ℕ → Float

abbrev pub float_unit : ℕ
float_unit = 2 ^ 149

-- The value of 32 bits: sign, 8 bits of exponent, 23 of fraction.
unfoldable pub float_of_bits : ℕ → Float
float_of_bits bits =
    let negative = leb (2 ^ 31) bits in
    let exponent = bits / 2 ^ 23 % 256 in
    let fraction = bits % 2 ^ 23 in
    if exponent == 255
    then if fraction == 0 then infinite negative else nan
    else if exponent == 0
    then finite negative fraction
    else finite negative ((2 ^ 23 + fraction) * 2 ^ (exponent - 1))

-- `(float)n`, for an `n` of at most 24 bits.
abbrev pub float_of : ℕ → Float
float_of n = finite false (n * float_unit)

-- `param >= 0.0f`.
unfoldable pub at_least_zero : Float → Bool
at_least_zero nan = false
at_least_zero (infinite negative) = not negative
at_least_zero (finite negative magnitude) = not negative || magnitude == 0

-- `param <= bound`, for a bound that is a natural number.
unfoldable pub at_most : Float → ℕ → Bool
at_most nan bound = false
at_most (infinite negative) bound = negative
at_most (finite negative magnitude) bound = negative || leb magnitude (bound * float_unit)

-- `(float)n == param`.
unfoldable pub equals : ℕ → Float → Bool
equals n nan = false
equals n (infinite negative) = false
equals n (finite negative magnitude) =
    magnitude == n * float_unit && (not negative || magnitude == 0)

-- `(uint16_t)param`.
unfoldable pub to_u16 : Float → ℕ
to_u16 nan = 0
to_u16 (infinite negative) = if negative then 0 else u16 uint32_max
to_u16 (finite negative magnitude) =
    if negative then 0 else u16 (min (magnitude / float_unit) uint32_max)

-- `(int32_t)param`, as its 32 bits.
unfoldable pub to_i32 : Float → ℕ
to_i32 nan = 0
to_i32 (infinite negative) = if negative then 2 ^ 31 else 2 ^ 31 - 1
to_i32 (finite negative magnitude) =
    let whole = magnitude / float_unit in
    if negative then u32 (2 ^ 32 - min whole (2 ^ 31)) else min whole (2 ^ 31 - 1)

-- `messageIdFromParam`: none where it returns false.
unfoldable pub message_id_from_param : Float → Option ℕ
message_id_from_param param =
    if not (at_least_zero param && at_most param 65535)
    then none
    else let narrowed = to_u16 param in if not (equals narrowed param) then none else some narrowed

finite_accepted :
    (negative : Bool) (magnitude id : ℕ)
    → message_id_from_param (finite negative magnitude) ≡ some id
    → (id ≤ uint16_max) × (magnitude ≡ id * float_unit) × ((negative ≡ false) ⊎ (magnitude ≡ 0))
unfolding message_id_from_param at_least_zero at_most equals to_u16
finite_accepted true magnitude id h = ground arith
finite_accepted false magnitude id h = ground arith

whole_accepted : (id : ℕ) → id ≤ uint16_max → message_id_from_param (float_of id) ≡ some id
unfolding message_id_from_param at_least_zero at_most equals to_u16
whole_accepted id h = ground arith

is_id :
    (param : Float) (id : ℕ)
    → message_id_from_param param ≡ some id
    → (id ≤ uint16_max) × ((param ≡ float_of id) ⊎ ((id ≡ 0) × (param ≡ finite true 0)))
unfolding message_id_from_param at_least_zero at_most
is_id nan id h = ground arith
is_id (infinite true) id h = ground arith
is_id (infinite false) id h = ground arith
is_id (finite false magnitude) id h =
    let (small, exact, _) = finite_accepted false magnitude id h in
    (small, inl (ap (finite false) exact))
is_id (finite true magnitude) id h =
    let (small, exact, sign) = finite_accepted true magnitude id h in
    let nothing : magnitude ≡ 0 = ground arith in
    (small, inr (omega arith, ap (finite true) nothing))

-- A parameter is a message id exactly if it is the float of a whole number of 16 bits, or the
-- negative zero, which is id 0: NaN, the infinities and every value with a fraction are refused.
pub message_id_from_param_lem :
    (param : Float) (id : ℕ)
    → (message_id_from_param param ≡ some id)
      ↔ ((id ≤ uint16_max) × ((param ≡ float_of id) ⊎ ((id ≡ 0) × (param ≡ finite true 0))))
unfolding message_id_from_param at_least_zero at_most equals to_u16
message_id_from_param_lem param id = (
  is_id param id,
  λ (small, what). elim what [
    | inl whole ↦ ap message_id_from_param whole ∙ whole_accepted id small
    | inr (nought, minus) ↦ ap message_id_from_param minus ∙ ap some (sym nought)
  ],
)
