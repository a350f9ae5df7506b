-- ===== src/MavlinkTask/Restarting.antt =====
-- The resets of TaskMavlink and the boot after them: the commanded one, the retry, the stable
-- boot's count.
use boredom_os.Prelude.{
  ℕ, zero, suc, ◌+◌, ◌*◌, ◌≤◌, ◌≡◌, refl, Bool, true, false, not, ◌&&◌, ◌||◌, ◌∷◌, arith, u8, u32,
  sub_u32, leb, ◌∙◌, ap, inl, inr, if◌then◌else◌,
}
use boredom_os.Recovery.{
  System, ResetReason, power_on, start, commanded, retry, is_valid, reinitialise,
  set_deliberate_reset, set_consecutive_count,
}
use boredom_os.Recovery.Fields.{Block, view, view-set, set_valid}
use boredom_os.Recovery.Defaults.{blank_block, reinitialise_lem}
use boredom_os.Boot.Decision.{next_consecutive}
use boredom_os.Boot.History.{after, reduced, not_reduced, after_fields}
use boredom_os.MavlinkTask.{command_ack, accepted, Board, Config, State, enqueue_intent, Command}
use boredom_os.MavlinkTask.Sends.{send_command_ack}
use boredom_os.MavlinkTask.Commands.{handle_command, handle_reboot, preflight_reboot_shutdown}
use boredom_os.MavlinkTask.Passes.{
  pass, run_pass, passes, check_uptime, clear_when_stable, retry_when_due, stability_window_ms,
  retry_interval_ms,
}

-- The block that a commanded reboot leaves.
reboot_block :
    (s : System)
    → let t = set_deliberate_reset commanded (reinitialise s) in
      (is_valid t ≡ true) × (view t ≡ record blank_block { deliberate = commanded })
reboot_block s =
    let (v, _, e, _) = reinitialise_lem s in
    (
      (set_valid 0 start power_on commanded (reinitialise s)).5,
      (view-set (reinitialise s) v 0 start power_on commanded refl refl refl).5
          ∙ ap (λ (b : Block). record b { deliberate = commanded }) e,
    )

marked_count :
    (reason : ResetReason)
    → next_consecutive reason (record blank_block { deliberate = commanded }) ≡ 0
marked_count reason = ground arith

-- The boot on it, whatever the reason of the reset.
boot_after_reboot :
    (reason : ResetReason) (s : System)
    → let t = set_deliberate_reset commanded (reinitialise s) in
      (reduced reason t ≡ false)
      × ((view (after reason t)).consecutive ≡ 0)
      × ((view (after reason t)).cumulative ≡ 1)
boot_after_reboot reason s =
    let t = set_deliberate_reset commanded (reinitialise s) in
    let (v, e) = reboot_block s in
    let (consecutive, cumulative, _, _) = after_fields reason t v in
    let count : next_consecutive reason (view t) ≡ 0 =
      ap (next_consecutive reason) e ∙ marked_count reason in
    let total : u8 ((view t).cumulative + 1) ≡ 1 = ap (λ (b : Block). u8 (b.cumulative + 1)) e in
    (
      not_reduced reason t v
          (λ h. elim h.0 [ inl o ↦ omega (arith, count) | inr o ↦ omega (arith, total) ]),
      consecutive ∙ count,
      cumulative ∙ total,
    )

-- The block after a check of the uptime.
abbrev checked_block : Bool → Bool → System → System
checked_block stable retries s =
    let counted = if stable then set_consecutive_count 0 s else s in
    if retries then set_deliberate_reset retry counted else counted

cleared_lem :
    (stable : Bool) (s : System)
    → is_valid s ≡ true
    → let t = if stable then set_consecutive_count 0 s else s in
      (is_valid t ≡ true)
      × (view t ≡ record (view s) { consecutive = if stable then 0 else (view s).consecutive })
cleared_lem true s v =
    ((set_valid 0 start power_on retry s).0, (view-set s v 0 start power_on retry refl refl refl).0)
cleared_lem false s v = (v, refl)

checked_block_lem :
    (stable retries : Bool) (s : System)
    → is_valid s ≡ true
    → let t = checked_block stable retries s in
      (is_valid t ≡ true)
      × (view t ≡ record (view s) {
        consecutive = if stable then 0 else (view s).consecutive;
        deliberate = if retries then retry else (view s).deliberate;
      })
checked_block_lem stable true s v =
    let t = if stable then set_consecutive_count 0 s else s in
    let (v', e) = cleared_lem stable s v in
    (
      (set_valid 0 start power_on retry t).5,
      (view-set t v' 0 start power_on retry refl refl refl).5
          ∙ ap (λ (b : Block). record b { deliberate = retry }) e,
    )
checked_block_lem stable false s v = cleared_lem stable s v

module _ (b : Board) (config : Config) where
  open b use {tick_count, tick_period_ms}

  -- A state that was reset stays as it is.
  passes_reset : (n : ℕ) (s : State b) → s.was_reset ≡ true → passes b config n s ≡ s
  unfolding passes pass
  passes_reset zero s h = refl
  passes_reset (suc n) s h =
      ap (passes b config n) (ap (λ r. if r then s else run_pass b config s) h) ∙ passes_reset n s h

  reboot_selected :
      (port now : ℕ) (command : Command) (s : State b)
      → command.command ≡ preflight_reboot_shutdown
      → handle_command b config port now command s ≡ handle_reboot b config port command s
  unfolding handle_command
  reboot_selected port now command s e = rw (e) refl

  -- A reboot command, from any state: the acknowledgement is the last thing that is offered, before
  -- the reset, however many passes are asked for after it; and the boot that follows, whatever
  -- reason it reads, starts the normal configuration with no fault counted and itself as the only
  -- reset.
  pub reboot_lem :
      (n port now : ℕ) (command : Command) (s : State b) (reason : ResetReason)
      → command.command ≡ preflight_reboot_shutdown
      → let last = passes b config n (handle_command b config port now command s) in
        (last.was_reset ≡ true)
        × (last.offered ≡ (port, command_ack preflight_reboot_shutdown accepted) ∷ s.offered)
        × (reduced reason last.block ≡ false)
        × ((view (after reason last.block)).consecutive ≡ 0)
        × ((view (after reason last.block)).cumulative ≡ 1)
  unfolding handle_command handle_reboot send_command_ack enqueue_intent
  reboot_lem n port now command s reason e =
      let rebooted = handle_reboot b config port command s in
      let kept =
        ap (passes b config n) (reboot_selected port now command s e)
        ∙ passes_reset n rebooted refl in
      let (normal, consecutive, cumulative) = boot_after_reboot reason s.block in
      (
        ap (λ last. last.was_reset) kept,
        ap (λ last. last.offered) kept ∙ ap (λ c. (port, command_ack c accepted) ∷ s.offered) e,
        ap (λ last. reduced reason last.block) kept ∙ normal,
        ap (λ last. (view (after reason last.block)).consecutive) kept ∙ consecutive,
        ap (λ last. (view (after reason last.block)).cumulative) kept ∙ cumulative,
      )

  -- The uptime that a check reads, in milliseconds.
  abbrev pub uptime : State b → ℕ
  uptime s = u32 (sub_u32 (tick_count s.hardware).0 s.boot_tick * tick_period_ms)

  -- A check of the uptime, on every branch, on a valid block: the consecutive count is cleared
  -- once, when five minutes have passed; the retry's marker is set and the board reset exactly in
  -- the reduced configuration when thirty have; nothing else of the block changes.
  pub check_uptime_lem :
      (s : State b)
      → is_valid s.block ≡ true
      → let after = check_uptime b config s in
        let stable = not s.stability_cleared && leb stability_window_ms (uptime s) in
        let retries =
          config.reduced_configuration
          && (not s.retry_attempted && leb retry_interval_ms (uptime s)) in
        (is_valid after.block ≡ true)
        × (after.was_reset ≡ s.was_reset || retries)
        × (after.stability_cleared ≡ s.stability_cleared || stable)
        × (view after.block ≡ record (view s.block) {
          consecutive = if stable then 0 else (view s.block).consecutive;
          deliberate = if retries then retry else (view s.block).deliberate;
        })
  unfolding check_uptime clear_when_stable retry_when_due
  check_uptime_lem s v =
      let stable = not s.stability_cleared && leb stability_window_ms (uptime s) in
      let retries =
        config.reduced_configuration
        && (not s.retry_attempted && leb retry_interval_ms (uptime s)) in
      let block : (check_uptime b config s).block ≡ checked_block stable retries s.block =
        ground arith in
      let (valid, seen) = checked_block_lem stable retries s.block v in
      (ap is_valid block ∙ valid, ground arith, ground arith, ap view block ∙ seen)

  -- A board in the reduced configuration for thirty minutes, whose block says that nothing was
  -- counted since the boot that reduced it, is reset, and the boot after it starts the normal
  -- configuration, whatever reason it reads.
  pub retry_lem :
      (s : State b) (reason : ResetReason)
      → is_valid s.block ≡ true
      → config.reduced_configuration ≡ true
      → s.retry_attempted ≡ false
      → retry_interval_ms ≤ uptime s
      → (view s.block).cumulative ≡ (view s.block).snapshot
      → let after = check_uptime b config s in
        (after.was_reset ≡ true) × (reduced reason after.block ≡ false)
  retry_lem s reason v r a h c =
      let (valid, resets, _, seen) = check_uptime_lem s v in
      let after = check_uptime b config s in
      let long : leb retry_interval_ms (uptime s) ≡ true = ground arith in
      let retries : config.reduced_configuration
            && (not s.retry_attempted && leb retry_interval_ms (uptime s))
          ≡ true =
        rw (r, a, long) refl in
      let marked : (view after.block).deliberate ≡ retry =
        ap (λ (x : Block). x.deliberate) seen ∙ rw (retries) refl in
      let cumulative = ap (λ (x : Block). x.cumulative) seen in
      let snapshot = ap (λ (x : Block). x.snapshot) seen in
      (
        ground (arith, resets, retries),
        not_reduced reason after.block valid
            (λ (_, h). h (rw (marked) refl, omega (arith, cumulative, snapshot, c))),
      )
