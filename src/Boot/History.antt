-- ===== src/Boot/History.antt =====
-- Boots in a row: how faults, the retry and the counters' widths decide the configuration.
use boredom_os.Prelude.{
  ◌+◌, ◌≤◌, ◌<◌, ◌≡◌, refl, Bool, true, false, List, [], ◌∷◌, arith, u8, ◌∙◌, ap, ◌⊎◌, inl, inr,
  if◌then◌else◌, Bool-cases, length, All,
}
use boredom_os.Recovery.{
  System, ResetReason, start, power_on, DeliberateReset, retry, is_valid, consecutive_threshold,
  cumulative_threshold, set_deliberate_reset,
}
use boredom_os.Recovery.Fields.{Block, view, view-set, set_valid}
use boredom_os.Boot.{update_counters_and_decide_configuration, is_fault_reset}
use boredom_os.Boot.Decision.{next_consecutive, Reduces, update_lem}

-- The system after a boot, and whether it starts reduced.
abbrev pub after : ResetReason → System → System
after reason s = (update_counters_and_decide_configuration reason s).1

abbrev pub reduced : ResetReason → System → Bool
reduced reason s = (update_counters_and_decide_configuration reason s).0

-- Boots one after another, with nothing between them that clears a count or sets a marker.
pub boot_sequence : List ResetReason → System → System
boot_sequence [] s = s
boot_sequence (reason ∷ rest) s = boot_sequence rest (after reason s)

abbrev pub IsFault : ResetReason → Type 0
IsFault reason = is_fault_reset reason ≡ true

pub next_consecutive_fault :
    (reason : ResetReason) (b : Block)
    → IsFault reason
    → b.deliberate ≡ DeliberateReset.none
    → b.consecutive < 255
    → next_consecutive reason b ≡ b.consecutive + 1
next_consecutive_fault reason b f d h = ground arith

pub after_fields :
    (reason : ResetReason) (s : System)
    → is_valid s ≡ true
    → ((view (after reason s)).consecutive ≡ next_consecutive reason (view s))
      × ((view (after reason s)).cumulative ≡ u8 ((view s).cumulative + 1))
      × ((view (after reason s)).deliberate ≡ DeliberateReset.none)
      × ((view (after reason s)).snapshot
          ≡ (if reduced reason s then u8 ((view s).cumulative + 1) else (view s).snapshot))
after_fields reason s v =
    let e = (update_lem reason s v).2 in
    (
      ap (λ (b : Block). b.consecutive) e,
      ap (λ (b : Block). b.cumulative) e,
      ap (λ (b : Block). b.deliberate) e,
      ap (λ (b : Block). b.snapshot) e,
    )

-- Faults in a row add up in the consecutive count, as long as it does not wrap.
boot_sequence_faults :
    (reasons : List ResetReason) (s : System)
    → is_valid s ≡ true
    → (view s).deliberate ≡ DeliberateReset.none
    → (view s).consecutive + length reasons < 256
    → All IsFault reasons
    → (is_valid (boot_sequence reasons s) ≡ true)
      × ((view (boot_sequence reasons s)).deliberate ≡ DeliberateReset.none)
      × ((view (boot_sequence reasons s)).consecutive ≡ (view s).consecutive + length reasons)
unfolding boot_sequence
boot_sequence_faults [] s v d h f = (v, d, omega arith)
boot_sequence_faults (reason ∷ rest) s v d h (f, fs) =
    let c =
      (after_fields reason s v).0 ∙ next_consecutive_fault reason (view s) f d (omega arith) in
    let ih =
      boot_sequence_faults rest (after reason s) (update_lem reason s v).0
        (after_fields reason s v).2 (omega arith) fs in
    (ih.0, ih.1, omega arith)

-- Faults in a row with no marker: the boot by which they reach the threshold, and each after it
-- until the 8-bit count wraps, starts reduced.
pub faults_reduce :
    (reasons : List ResetReason) (last : ResetReason) (s : System)
    → is_valid s ≡ true
    → (view s).deliberate ≡ DeliberateReset.none
    → All IsFault reasons
    → IsFault last
    → consecutive_threshold ≤ (view s).consecutive + length reasons + 1
    → (view s).consecutive + length reasons + 1 < 256
    → reduced last (boot_sequence reasons s) ≡ true
faults_reduce reasons last s v d fs f lo hi =
    let (v', d', c) = boot_sequence_faults reasons s v d (omega arith) fs in
    let n = next_consecutive_fault last (view (boot_sequence reasons s)) f d' (omega arith) in
    (update_lem last (boot_sequence reasons s) v').1.1 (inl (omega arith), λ (r, _). ground arith)

pub not_reduced :
    (reason : ResetReason) (s : System)
    → is_valid s ≡ true
    → ¬ Reduces reason (view s)
    → reduced reason s ≡ false
not_reduced reason s v h = elim (Bool-cases (reduced reason s)) [
  | inl e ↦ absurd (h ((update_lem reason s v).1.0 e))
  | inr e ↦ e
]

-- The block that the retry's boot finds: the reduced boot's, whose snapshot is its count, marked.
marked_fields :
    (reason : ResetReason) (s : System)
    → is_valid s ≡ true
    → reduced reason s ≡ true
    → let t = set_deliberate_reset retry (after reason s) in
      (is_valid t ≡ true)
      × ((view t).deliberate ≡ retry)
      × ((view t).consecutive ≡ next_consecutive reason (view s))
      × ((view t).cumulative ≡ u8 ((view s).cumulative + 1))
      × ((view t).snapshot ≡ u8 ((view s).cumulative + 1))
marked_fields reason s v r =
    let t = after_fields reason s v in
    let e =
      (view-set (after reason s) (update_lem reason s v).0 0 start power_on retry refl refl
        refl).5 in
    (
      (set_valid 0 start power_on retry (after reason s)).5,
      ap (λ (b : Block). b.deliberate) e,
      ap (λ (b : Block). b.consecutive) e ∙ t.0,
      ap (λ (b : Block). b.cumulative) e ∙ t.1,
      ap (λ (b : Block). b.snapshot) e ∙ t.3 ∙ rw r,
    )

-- The retry: the reset that the reduced configuration performs under its marker is followed by a
-- boot in the normal configuration, whatever its reason.
pub retry_leaves_reduced :
    (reason reason' : ResetReason) (s : System)
    → is_valid s ≡ true
    → reduced reason s ≡ true
    → reduced reason' (set_deliberate_reset retry (after reason s)) ≡ false
retry_leaves_reduced reason reason' s v r =
    let (v', d, _, m, n) = marked_fields reason s v r in
    not_reduced reason' (set_deliberate_reset retry (after reason s)) v'
      (λ h. h.1 (rw d, omega (arith, m, n)))

next_consecutive_marked :
    (reason : ResetReason) (b : Block)
    → b.deliberate ≡ retry
    → next_consecutive reason b ≡ b.consecutive
next_consecutive_marked reason b e = ground arith

next_consecutive_bounds :
    (reason : ResetReason) (b : Block)
    → b.consecutive < 255
    → (b.consecutive ≤ next_consecutive reason b) × (next_consecutive reason b ≤ b.consecutive + 1)
next_consecutive_bounds reason b h = ground arith

still_over :
    (reason reason' reason'' : ResetReason) (b c d : Block)
    → b.consecutive < 254
    → b.cumulative < 253
    → ((consecutive_threshold ≤ next_consecutive reason b)
        ⊎ (cumulative_threshold ≤ u8 (b.cumulative + 1)))
    → c.deliberate ≡ retry
    → c.consecutive ≡ next_consecutive reason b
    → c.cumulative ≡ u8 (b.cumulative + 1)
    → d.consecutive ≡ next_consecutive reason' c
    → d.cumulative ≡ u8 (c.cumulative + 1)
    → d.deliberate ≡ DeliberateReset.none
    → (consecutive_threshold ≤ next_consecutive reason'' d)
      ⊎ (cumulative_threshold ≤ u8 (d.cumulative + 1))
still_over reason reason' reason'' b c d x y o e f g h k l =
    let up = next_consecutive_bounds reason b (omega arith) in
    let same = next_consecutive_marked reason' c e in
    let low = next_consecutive_bounds reason'' d (omega arith) in
    elim o [ inl p ↦ inl (omega arith) | inr p ↦ inr (omega arith) ]

-- It is one chance only: after the retry's boot, one more reset without a marker starts the
-- reduced configuration again, whatever its reason, unless an 8-bit count has wrapped.
pub retry_is_one_chance :
    (reason reason' reason'' : ResetReason) (s : System)
    → is_valid s ≡ true
    → reduced reason s ≡ true
    → (view s).consecutive < 254
    → (view s).cumulative < 253
    → reduced reason'' (after reason' (set_deliberate_reset retry (after reason s))) ≡ true
retry_is_one_chance reason reason' reason'' s v r a b =
    let (v', d, c, m, n) = marked_fields reason s v r in
    let t = set_deliberate_reset retry (after reason s) in
    let (c', m', d', _) = after_fields reason' t v' in
    (update_lem reason'' (after reason' t) (update_lem reason' t v').0).1.1 (
      still_over reason reason' reason'' (view s) (view t) (view (after reason' t)) a b
          ((update_lem reason s v).1.0 r).0 d c m c' m' d',
      λ h. ground (arith, d', h.0),
    )

-- A reset past the 255th that the cumulative count holds: it wraps to 0, and a board whose
-- consecutive count is below its threshold starts in the normal configuration, whatever it was.
pub cumulative_wraps :
    (reason : ResetReason) (s : System)
    → is_valid s ≡ true
    → (view s).cumulative ≡ 255
    → next_consecutive reason (view s) < consecutive_threshold
    → (reduced reason s ≡ false) × ((view (after reason s)).cumulative ≡ 0)
cumulative_wraps reason s v c n =
    (not_reduced reason s v (λ h. ground (arith, h.0)), omega (arith, (after_fields reason s v).1))
