-- ===== src/Boot/Decision.antt =====
-- The counters of a boot, and which configuration it starts.
use boredom_os.Prelude.{
  ℕ, ◌+◌, ◌≤◌, ◌≡◌, ◌↔◌, refl, Bool, true, false, not, ◌&&◌, ◌||◌, arith, u8, leb, ◌∙◌, ap, ◌⊎◌,
  if◌then◌else◌,
}
use boredom_os.Recovery.{
  System, ResetReason, power_on, start, DeliberateReset, is_none, is_valid, consecutive_threshold,
  cumulative_threshold, get_consecutive_count, get_cumulative_count, get_cumulative_snapshot,
  set_consecutive_count, set_cumulative_count, set_cumulative_snapshot, consume_deliberate_reset,
}
use boredom_os.Recovery.Fields.{Block, view, view-set, set_valid}
use boredom_os.Recovery.Defaults.{consume_deliberate_reset_lem}
use boredom_os.Boot.{
  Counted, count_boot, starts_reduced, update_counters_and_decide_configuration, is_fault_reset,
  is_retry,
}

-- The consecutive count of a boot: advanced by a fault's reset, unless a marker excuses it.
abbrev pub next_consecutive : ResetReason → Block → ℕ
next_consecutive reason b =
    if is_fault_reset reason && is_none b.deliberate then u8 (b.consecutive + 1) else b.consecutive

-- The block once the boot is counted: the marker is consumed.
abbrev pub counted_block : ResetReason → Block → Block
counted_block reason b = record b {
  consecutive = next_consecutive reason b;
  cumulative = u8 (b.cumulative + 1);
  deliberate = DeliberateReset.none;
}

-- Over a threshold, and not the retry of a boot since which nothing else was counted.
abbrev pub Reduces : ResetReason → Block → Type 0
Reduces reason b =
    ((consecutive_threshold ≤ next_consecutive reason b)
      ⊎ (cumulative_threshold ≤ u8 (b.cumulative + 1)))
    × ¬ ((is_retry b.deliberate ≡ true) × (u8 (b.cumulative + 1) ≤ b.snapshot + 1))

-- The two counters of a valid block, one of them written only if the boot advances it.
counts :
    (advances : Bool) (n m : ℕ) (s : System) (b : Block)
    → is_valid s ≡ true
    → view s ≡ b
    → let t : System = set_cumulative_count m (if advances then set_consecutive_count n s else s) in
      (is_valid t ≡ true)
      × (view t ≡ record b { consecutive = if advances then n else b.consecutive; cumulative = m })
counts true n m s b v e = (
  (set_valid m start power_on DeliberateReset.none (set_consecutive_count n s)).1,
  (view-set (set_consecutive_count n s) (set_valid n start power_on DeliberateReset.none s).0 m
        start power_on DeliberateReset.none refl refl refl).1
      ∙ rw ((view-set s v n start power_on DeliberateReset.none refl refl refl).0, e),
)
counts false n m s b v e = (
  (set_valid m start power_on DeliberateReset.none s).1,
  (view-set s v m start power_on DeliberateReset.none refl refl refl).1 ∙ rw e,
)

-- What `count_boot` computes, in terms of the block that it found.
record CountedAs (reason : ResetReason) (b : Block) (c : Counted) : Type 0 where
  pub valid : is_valid c.system ≡ true
  pub seen : view c.system ≡ counted_block reason b
  pub deliberate : c.deliberate ≡ b.deliberate
  pub consecutive : c.consecutive ≡ next_consecutive reason b
  pub cumulative : c.cumulative ≡ u8 (b.cumulative + 1)

count_boot_lem :
    (reason : ResetReason) (s : System)
    → is_valid s ≡ true
    → CountedAs reason (view s) (count_boot reason s)
unfolding count_boot
count_boot_lem reason s v =
    let n : ℕ =
      if is_fault_reset reason && is_none (consume_deliberate_reset s).0
      then u8 (get_consecutive_count (consume_deliberate_reset s).1 + 1)
      else get_consecutive_count (consume_deliberate_reset s).1 in
    let both =
      counts (is_fault_reset reason && is_none (consume_deliberate_reset s).0) n
        (u8 (get_cumulative_count (consume_deliberate_reset s).1 + 1))
        (consume_deliberate_reset s).1 (record (view s) { deliberate = DeliberateReset.none })
        taken.0 taken.1 in
    record {
      valid = both.0;
      seen = both.1 ∙ ground (arith, consecutive', cumulative', deliberate');
      deliberate = deliberate';
      consecutive = ground (arith, consecutive', deliberate');
      cumulative = ground (arith, cumulative');
    }
  where
    taken :
        (is_valid (consume_deliberate_reset s).1 ≡ true)
        × (view (consume_deliberate_reset s).1
            ≡ record (view s) { deliberate = DeliberateReset.none })
        × ((consume_deliberate_reset (consume_deliberate_reset s).1).0 ≡ DeliberateReset.none)
    taken = consume_deliberate_reset_lem s v

    deliberate' : (consume_deliberate_reset s).0 ≡ (view s).deliberate
    deliberate' = unfold view in refl

    consecutive' : get_consecutive_count (consume_deliberate_reset s).1 ≡ (view s).consecutive
    consecutive' = unfold view in ap (λ (b : Block). b.consecutive) taken.1

    cumulative' : get_cumulative_count (consume_deliberate_reset s).1 ≡ (view s).cumulative
    cumulative' = unfold view in ap (λ (b : Block). b.cumulative) taken.1

snapshot_seen :
    (reason : ResetReason) (b : Block) (c : Counted)
    → CountedAs reason b c
    → get_cumulative_snapshot c.system ≡ b.snapshot
snapshot_seen reason b c k = unfold view in ap (λ (x : Block). x.snapshot) k.seen

-- The nested tests against the proposition that they decide.
threshold_test :
    (n m k : ℕ) (r : Bool)
    → ((if not (leb 3 n || leb 10 m) then false else if r && leb m (k + 1) then false else true)
        ≡ true)
      ↔ (((3 ≤ n) ⊎ (10 ≤ m)) × ¬ ((r ≡ true) × (m ≤ k + 1)))
threshold_test n m k r = (ground arith, λ h. ground arith)

starts_reduced_iff :
    (reason : ResetReason) (b : Block) (c : Counted)
    → CountedAs reason b c
    → ((starts_reduced c ≡ true) ↔ Reduces reason b)
unfolding starts_reduced
starts_reduced_iff reason b c k =
    rw (k.deliberate, k.consecutive, k.cumulative, snapshot_seen reason b c k)
      (threshold_test (next_consecutive reason b) (u8 (b.cumulative + 1)) b.snapshot
        (is_retry b.deliberate))

snapshots :
    (reduced : Bool) (reason : ResetReason) (b : Block) (c : Counted)
    → CountedAs reason b c
    → let t : System =
        if reduced then set_cumulative_snapshot c.cumulative c.system else c.system in
      (is_valid t ≡ true)
      × (view t ≡ record (counted_block reason b) {
        snapshot = if reduced then u8 (b.cumulative + 1) else b.snapshot;
      })
snapshots true reason b c k = (
  (set_valid c.cumulative start power_on DeliberateReset.none c.system).2,
  (view-set c.system k.valid c.cumulative start power_on DeliberateReset.none refl refl refl).2
      ∙ rw (k.seen, k.cumulative),
)
snapshots false reason b c k = (k.valid, k.seen)

-- A boot on a valid block: it stays valid, both counters advance as `counted_block` says and the
-- marker is consumed, the reduced configuration is chosen exactly when `Reduces` holds, and the
-- snapshot is the new cumulative count if it is chosen and the old snapshot if not.
pub update_lem :
    (reason : ResetReason) (s : System)
    → is_valid s ≡ true
    → let (reduced, t) = update_counters_and_decide_configuration reason s in
      (is_valid t ≡ true)
      × ((reduced ≡ true) ↔ Reduces reason (view s))
      × (view t ≡ record (counted_block reason (view s)) {
        snapshot = if reduced then u8 ((view s).cumulative + 1) else (view s).snapshot;
      })
unfolding update_counters_and_decide_configuration
update_lem reason s v =
    let k = count_boot_lem reason s v in
    let t =
      snapshots (starts_reduced (count_boot reason s)) reason (view s) (count_boot reason s) k in
    (t.0, starts_reduced_iff reason (view s) (count_boot reason s) k, t.1)
