-- ===== src/Boot/Reports.antt =====
-- What a boot reports of the boot before it, and what it starts.
use boredom_os.Prelude.{
  ◌≡◌, refl, Bool, true, false, not, ◌&&◌, [], ◌∷◌, map, arith, ◌∙◌, ap, if◌then◌else◌,
}
use boredom_os.Recovery.{
  System, power_on, external_unknown, backup_state_invalid, BootPhase, start, link_done, clock_done,
  card_done, queues_done, tasks_done, scheduler_started, DeliberateReset, is_valid, reinitialise,
  get_phase, set_phase, set_reason, record_fault, CharPointer, printable,
}
use boredom_os.Recovery.Fields.{Block, view, view-set, set_valid, get_phase-set_phase, IsPhase}
use boredom_os.Recovery.Defaults.{reinitialise_lem, blank_block, invalid_lem}
use boredom_os.Recovery.Fault.{record_fault_lem, name_of}
use boredom_os.Boot.{
  ResetFlags, decode_and_clear_reset_reason, decide, setup, uart_read, usb_read, uart_write,
  usb_write, mavlink, logger, sd_write, tasks_created,
}
use boredom_os.Boot.History.{reduced, after, after_fields, not_reduced}

-- The flags are cleared as they are decoded: with none raised since, the next decoding finds no
-- reason, and CWSF stays set.
pub decode_twice :
    (f : ResetFlags)
    → let (_, g) = decode_and_clear_reset_reason f in
      ((decode_and_clear_reset_reason g).0 ≡ external_unknown)
      × ((decode_and_clear_reset_reason g).1 ≡ g)
      × (g.cwsf ≡ true)
unfolding decode_and_clear_reset_reason
decode_twice f = ground arith

-- A boot after a fault hook: whatever the block held, the phase and the printable name that the
-- hook stored are reported, with the reason that the flags give.
pub setup-record_fault :
    (phase : BootPhase) (name : CharPointer) (card : Bool) (f : ResetFlags) (s : System)
    → IsPhase phase
    → let report = setup card f (record_fault phase name s) in
      (report.previous_boot_phase ≡ phase)
      × (report.previous_fault_task ≡ map printable (name_of name))
      × (report.previous_reset_reason ≡ (decode_and_clear_reset_reason f).0)
unfolding setup decide
setup-record_fault phase name card f s h =
    let (v, _, p, t, _) = record_fault_lem phase name s h in (p, t, rw v)

fresh_boot :
    (t : System)
    → is_valid t ≡ true
    → view t ≡ record blank_block { reason = backup_state_invalid }
    → (reduced backup_state_invalid t ≡ false)
      × ((view (after backup_state_invalid t)).consecutive ≡ 0)
      × ((view (after backup_state_invalid t)).cumulative ≡ 1)
fresh_boot t v e = (
  not_reduced backup_state_invalid t v (rw e (λ h. omega (arith, h.0))),
  (after_fields backup_state_invalid t v).0 ∙ rw e,
  (after_fields backup_state_invalid t v).1 ∙ rw e,
)

-- What the boot decides on an invalid block: the previous boot is unknown, the loss itself is the
-- reported reason, the counters start again with this boot alone, and the configuration is normal.
pub setup_invalid :
    (card : Bool) (f : ResetFlags) (s : System)
    → is_valid s ≡ false
    → let report = setup card f s in
      (report.previous_boot_phase ≡ start)
      × (report.previous_fault_task ≡ [])
      × (report.previous_reset_reason ≡ backup_state_invalid)
      × (report.boot_consecutive_count ≡ 0)
      × (report.boot_cumulative_count ≡ 1)
      × (report.reduced_configuration ≡ false)
unfolding setup decide
setup_invalid card f s h = rw h (
  unfold view in ap (λ (b : Block). b.phase) (invalid_lem s h),
  unfold view in ap (λ (b : Block). b.fault_task) (invalid_lem s h),
  refl,
  unfold view in boot.1,
  unfold view in boot.2,
  boot.0,
)
  where
    t : System
    t = set_reason backup_state_invalid (reinitialise s)

    first : view t ≡ record blank_block { reason = backup_state_invalid }
    first =
        (view-set (reinitialise s) (reinitialise_lem s).0 0 start backup_state_invalid
          DeliberateReset.none refl refl refl).4
        ∙ rw (reinitialise_lem s).2

    boot :
        (reduced backup_state_invalid t ≡ false)
        × ((view (after backup_state_invalid t)).consecutive ≡ 0)
        × ((view (after backup_state_invalid t)).cumulative ≡ 1)
    boot =
        fresh_boot t
          (set_valid 0 start backup_state_invalid DeliberateReset.none (reinitialise s)).4 first

-- The tasks: both links' readers and writers and the protocol in every configuration, the logger
-- and the card's writer only in the normal one with a card.
tasks_created_lem :
    (reduced card : Bool)
    → tasks_created reduced card
      ≡ uart_read
        ∷ usb_read
        ∷ uart_write
        ∷ usb_write
        ∷ mavlink
        ∷ (if card && not reduced then logger ∷ sd_write ∷ [] else [])
tasks_created_lem true true = refl
tasks_created_lem true false = refl
tasks_created_lem false true = refl
tasks_created_lem false false = refl

-- Whatever the boot finds, it creates the links' four tasks and the protocol's, and the logger and
-- the card's writer exactly if there is a card and the configuration is normal; its last write
-- marks the scheduler's phase on a valid block.
pub setup_tasks :
    (card : Bool) (f : ResetFlags) (s : System)
    → let report = setup card f s in
      (report.tasks
        ≡ uart_read
          ∷ usb_read
          ∷ uart_write
          ∷ usb_write
          ∷ mavlink
          ∷ (if card && not report.reduced_configuration then logger ∷ sd_write ∷ [] else []))
      × (is_valid report.system ≡ true)
      × (get_phase report.system ≡ scheduler_started)
unfolding setup
setup_tasks card f s = (
  tasks_created_lem (decide f s).reduced card,
  (set_valid 0 scheduler_started power_on DeliberateReset.none before).3,
  get_phase-set_phase scheduler_started before refl,
)
  where
    before : System
    before = set_phase tasks_done (
        set_phase queues_done (
          set_phase card_done
            (set_phase clock_done (set_phase link_done (set_phase start (decide f s).system)))))
