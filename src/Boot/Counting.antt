-- ===== src/Boot/Counting.antt =====
-- What a boot after a fault's reset leaves of the counters, from the flags to the scheduler's start.
use boredom_os.Prelude.{
  ℕ, ◌+◌, ◌≤◌, ◌<◌, ◌≡◌, ◌↔◌, ◌⊎◌, inl, inr, refl, Bool, true, u8, arith, ◌∙◌, ap,
}
use boredom_os.Recovery.{
  System, ResetReason, BootPhase, start, link_done, clock_done, card_done, queues_done, tasks_done,
  scheduler_started, power_on, DeliberateReset, is_valid, consecutive_threshold,
  cumulative_threshold, set_phase, set_reason,
}
use boredom_os.Recovery.Fields.{Block, view, view-set, set_valid, IsPhase, IsReason}
use boredom_os.Boot.{ResetFlags, decode_and_clear_reset_reason, decide, setup, is_retry}
use boredom_os.Boot.Decision.{next_consecutive, update_lem}
use boredom_os.Boot.History.{IsFault, after, reduced, after_fields, next_consecutive_fault}

-- A valid block with these counts and no marker.
abbrev pub Counts : ℕ → ℕ → System → Type 0
Counts n m s =
    (is_valid s ≡ true)
    × ((view s).consecutive ≡ n)
    × ((view s).cumulative ≡ m)
    × ((view s).deliberate ≡ DeliberateReset.none)

set_phase-Counts :
    (p : BootPhase) {n m : ℕ} (s : System) → IsPhase p → Counts n m s → Counts n m (set_phase p s)
set_phase-Counts p s h (v, a, b, d) =
    let e = (view-set s v 0 p power_on DeliberateReset.none h refl refl).3 in
    (
      (set_valid 0 p power_on DeliberateReset.none s).3,
      ap (λ (x : Block). x.consecutive) e ∙ a,
      ap (λ (x : Block). x.cumulative) e ∙ b,
      ap (λ (x : Block). x.deliberate) e ∙ d,
    )

set_reason-Counts :
    (r : ResetReason) {n m : ℕ} (s : System)
    → IsReason r
    → Counts n m s
    → Counts n m (set_reason r s)
set_reason-Counts r s h (v, a, b, d) =
    let e = (view-set s v 0 start r DeliberateReset.none refl h refl).4 in
    (
      (set_valid 0 start r DeliberateReset.none s).4,
      ap (λ (x : Block). x.consecutive) e ∙ a,
      ap (λ (x : Block). x.cumulative) e ∙ b,
      ap (λ (x : Block). x.deliberate) e ∙ d,
    )

fault-IsReason : (r : ResetReason) → IsFault r → IsReason r
fault-IsReason ResetReason.watchdog h = refl
fault-IsReason ResetReason.software h = refl
fault-IsReason ResetReason.power_on h = refl
fault-IsReason ResetReason.low_voltage h = refl
fault-IsReason ResetReason.external_unknown h = refl
fault-IsReason ResetReason.backup_state_invalid h = refl
fault-IsReason (ResetReason.unnamed x) h = cc

-- The decision of such a boot.
after-Counts :
    (r : ResetReason) (n m : ℕ) (s : System)
    → IsFault r
    → Counts n m s
    → n < 255
    → m < 255
    → Counts (n + 1) (m + 1) (after r s)
      × ((reduced r s ≡ true) ↔ ((consecutive_threshold ≤ n + 1) ⊎ (cumulative_threshold ≤ m + 1)))
after-Counts r n m s h (v, a, b, d) x y =
    let (up, more, none, _) = after_fields r s v in
    let next = next_consecutive_fault r (view s) h d (omega (arith, a, x)) in
    let (valid, decided, _) = update_lem r s v in
    (
      (valid, omega (arith, up, next, a), omega (arith, more, b, y), none),
      (
        λ yes_reduced. elim (decided.0 yes_reduced).0 [
          | inl faults ↦ inl (omega (arith, next, a))
          | inr resets ↦ inr (omega (arith, b, y))
        ],
        λ over. decided.1 (at_threshold over, λ retried. unmarked retried.0),
      ),
    )
  where
    unmarked : ¬ (is_retry (view s).deliberate ≡ true)
    unmarked h = ground (arith, d)

    at_threshold :
        (consecutive_threshold ≤ n + 1) ⊎ (cumulative_threshold ≤ m + 1)
        → (consecutive_threshold ≤ next_consecutive r (view s))
          ⊎ (cumulative_threshold ≤ u8 ((view s).cumulative + 1))
    at_threshold (inl faults) =
        inl (omega (arith, next_consecutive_fault r (view s) h d (omega (arith, a, x)), a))
    at_threshold (inr resets) = inr (omega (arith, b, y))

-- A boot after a fault's reset, by its flags, on a block with no marker: both counts are one more
-- when the scheduler starts, the configuration is reduced exactly at a threshold, and the block has
-- no marker.
pub setup-Counts :
    (card : Bool) (f : ResetFlags) (n m : ℕ) (s : System)
    → IsFault (decode_and_clear_reset_reason f).0
    → Counts n m s
    → n < 255
    → m < 255
    → let report = setup card f s in
      Counts (n + 1) (m + 1) report.system
      × ((report.reduced_configuration ≡ true)
          ↔ ((consecutive_threshold ≤ n + 1) ⊎ (cumulative_threshold ≤ m + 1)))
      × (report.boot_consecutive_count ≡ n + 1)
unfolding setup decide
setup-Counts card f n m s h c x y =
    let reason = (decode_and_clear_reset_reason f).0 in
    let named = set_reason-Counts reason s (fault-IsReason reason h) c in
    let (counted, decided) = after-Counts reason n m (set_reason reason s) h named x y in
    rw (c.0)
      (phases (after reason (set_reason reason s)) counted, decided, unfold view in counted.1)
  where
    phases :
        (t : System)
        → Counts (n + 1) (m + 1) t
        → Counts (n + 1) (m + 1) (
            set_phase scheduler_started (
              set_phase tasks_done (
                set_phase queues_done (
                  set_phase card_done
                    (set_phase clock_done (set_phase link_done (set_phase start t)))))))
    phases t k = set_phase-Counts scheduler_started _ refl (
        set_phase-Counts tasks_done _ refl (
          set_phase-Counts queues_done _ refl (
            set_phase-Counts card_done _ refl (
              set_phase-Counts clock_done _ refl
                (set_phase-Counts link_done _ refl (set_phase-Counts start t refl k))))))
