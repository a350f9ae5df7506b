-- ===== src/Battery/Rounding.antt =====
-- Rounding keeps the order, and leaves what fits as it is.
use boredom_os.Prelude.{
  ℕ, zero, suc, ◌+◌, ◌-◌, ◌*◌, ◌/◌, ◌^◌, ◌≤◌, ◌<◌, ◌≡◌, refl, arith, leb_cases, ◌⊎◌, inl, inr,
  subst,
}
use boredom_os.Battery.Single.{spare, nearest, bits, rounded}
use native.Mathlib.Nat.{
  two-pow-succ, one-le-pow, pow-le-pow_right, le-div_iff_mul-le, div-lt_iff_lt-mul, div-mul-le_self,
  mul-le-mul_right, le_trans,
}

-- A number that loses bits has 24 left: the highest is 1.
spare_low : (fuel q : ℕ) → (spare fuel q ≡ 0) ⊎ (2 ^ 23 * 2 ^ spare fuel q ≤ q)
unfolding spare
spare_low zero q = inl refl
spare_low (suc fuel) q = elim (leb_cases (2 ^ 24) q) [
  | inr small ↦ inl (ground (arith, small))
  | inl large ↦
      let k = spare fuel (q / 2) in
      let now : spare (suc fuel) q ≡ suc k = ground (arith, large) in
      let twice = two-pow-succ k in
      let half : 2 ^ 23 * 2 ^ k ≤ q / 2 = elim (spare_low fuel (q / 2)) [
        | inl none ↦ rw (none) (omega (arith, large))
        | inr some ↦ some
      ] in
      inr (rw (now) (omega (arith, twice, half)))
]

-- And it has not more than 24 left, if there is fuel.
spare_high : (fuel q : ℕ) → q < 2 ^ 24 * 2 ^ fuel → q < 2 ^ 24 * 2 ^ spare fuel q
unfolding spare
spare_high zero q h = h
spare_high (suc fuel) q h = elim (leb_cases (2 ^ 24) q) [
  | inr small ↦ let now : spare (suc fuel) q ≡ 0 = ground (arith, small) in rw (now) small
  | inl large ↦
      let k = spare fuel (q / 2) in
      let now : spare (suc fuel) q ≡ suc k = ground (arith, large) in
      let half = spare_high fuel (q / 2) (omega (arith, two-pow-succ fuel, h)) in
      rw (now) (omega (arith, two-pow-succ k, half))
]

spare_mono : (fuel q q' : ℕ) → q ≤ q' → spare fuel q ≤ spare fuel q'
unfolding spare
spare_mono zero q q' h = omega arith
spare_mono (suc fuel) q q' h = ground (arith, spare_mono fuel (q / 2) (q' / 2))

nearest_bounds : (m r s : ℕ) → (m ≤ nearest m r s) × (nearest m r s ≤ m + 1)
unfolding nearest
nearest_bounds m r s = ground arith

nearest_mono : (m r r' s : ℕ) → r ≤ r' → nearest m r s ≤ nearest m r' s
unfolding nearest
nearest_mono m r r' s h = ground arith

div_mono : (q q' d : ℕ) → 0 < d → q ≤ q' → q / d ≤ q' / d
div_mono q q' d pos h = (le-div_iff_mul-le pos).1 (le_trans (div-mul-le_self q d) h)

pow_pos : (k : ℕ) → 0 < 2 ^ k
pow_pos k = one-le-pow k 2 (omega arith)

-- The rounding at one scale.
abbrev at_scale : ℕ → ℕ → ℕ → ℕ → ℕ
at_scale d k q n = nearest (q / 2 ^ k) (n - q / 2 ^ k * (d * 2 ^ k)) (d * 2 ^ k) * 2 ^ k

same_scale : (d k q q' n n' : ℕ) → q ≤ q' → n ≤ n' → at_scale d k q n ≤ at_scale d k q' n'
same_scale d k q q' n n' hq hn =
    let m = q / 2 ^ k in
    let m' = q' / 2 ^ k in
    let s = d * 2 ^ k in
    let up = div_mono q q' (2 ^ k) (pow_pos k) hq in
    mul-le-mul_right (2 ^ k) (elim (leb_cases m' m) [
      | inl back ↦
          let same : m ≡ m' = omega (arith, up, back) in
          subst (λ x. nearest m (n - m * s) s ≤ nearest x (n' - x * s) s) same
            (nearest_mono m (n - m * s) (n' - m * s) s (omega (arith, hn)))
      | inr more ↦
          let a = (nearest_bounds m (n - m * s) s).1 in
          let b = (nearest_bounds m' (n' - m' * s) s).0 in omega (arith, more, a, b)
    ])

wider_scale :
    (d k k' q q' n n' : ℕ)
    → k < k'
    → q < 2 ^ 24 * 2 ^ k
    → 2 ^ 23 * 2 ^ k' ≤ q'
    → at_scale d k q n ≤ at_scale d k' q' n'
wider_scale d k k' q q' n n' less high low =
    let m = q / 2 ^ k in
    let m' = q' / 2 ^ k' in
    let few : m < 2 ^ 24 = (div-lt_iff_lt-mul (pow_pos k)).1 high in
    let many : 2 ^ 23 ≤ m' = (le-div_iff_mul-le (pow_pos k')).1 low in
    let a = (nearest_bounds m (n - m * (d * 2 ^ k)) (d * 2 ^ k)).1 in
    let b = (nearest_bounds m' (n' - m' * (d * 2 ^ k')) (d * 2 ^ k')).0 in
    let first =
      mul-le-mul_right {m = nearest m (n - m * (d * 2 ^ k)) (d * 2 ^ k)} {n = 2 ^ 24} (2 ^ k)
        (omega (arith, a, few)) in
    let last =
      mul-le-mul_right {m = 2 ^ 23} {n = nearest m' (n' - m' * (d * 2 ^ k')) (d * 2 ^ k')} (2 ^ k')
        (omega (arith, b, many)) in
    let powers = pow-le-pow_right {n = 2} (omega arith) {i = suc k} {j = k'} less in
    omega (arith, first, last, powers, two-pow-succ k)

-- What is not less is not rounded to less.
pub rounded_mono :
    (n n' d : ℕ) → 0 < d → n ≤ n' → n' / d < 2 ^ 24 * 2 ^ bits → rounded n d ≤ rounded n' d
unfolding rounded
rounded_mono n n' d pos h small =
    let q = n / d in
    let q' = n' / d in
    let up = div_mono n n' d pos h in
    let k = spare bits q in
    let k' = spare bits q' in
    let order = spare_mono bits q q' up in
    elim (leb_cases k' k) [
      | inl back ↦
          let same : k ≡ k' = omega (arith, order, back) in
          subst (λ x. at_scale d k q n ≤ at_scale d x q' n') same (same_scale d k q q' n n' up h)
      | inr less ↦
          let high = spare_high bits q (omega (arith, up, small)) in
          wider_scale d k k' q q' n n' less high (elim (spare_low bits q') [
            | inl none ↦ absurd (omega (arith, none, less))
            | inr low ↦ low
          ])
    ]
