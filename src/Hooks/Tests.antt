-- ===== src/Hooks/Tests.antt =====
-- The statement after a stack overflow, and the idle hook's calls.
use boredom_os.Prelude.{
  ℕ, ◌≡◌, ◌≢◌, refl, true, false, [], ◌∷◌, ◌++◌, arith, ◌∙◌, sym, ap, inl, codes, get_or,
}
use boredom_os.Recovery.{System, ResetReason, points_to, reason_to_byte, reinitialise}
use boredom_os.Recovery.Fields.{Block}
use boredom_os.Recovery.Defaults.{reinitialise_lem}
use boredom_os.Boot.Counting.{Counts}
use boredom_os.Boot.{ResetFlags, decode_and_clear_reset_reason, setup}
use boredom_os.Mavlink.{reset_reason_text}
use boredom_os.Hooks.{idle_steps, goto_bootloader, disable_irq, suspend_all, stack_overflow_hook}
use boredom_os.Hooks.Crashes.{IsFaultBoot, overflow, out_of_memory, crash_loop, crash_loop_lem}
use boredom_os.Hooks.Faults.{next_statement, fault_statement}

abbrev unset : System
unset = record { prcr = 0; vbtbkr = λ p. 0 }

abbrev logger_name : ℕ → ℕ
logger_name i = get_or (codes "Logger") i 0

abbrev software_flags : ResetFlags
software_flags = record {
  porf = false;
  lvd0rf = false;
  lvd1rf = false;
  lvd2rf = false;
  dpsrstf = false;
  iwdtrf = false;
  wdtrf = false;
  swrf = true;
  cwsf = true;
}

decoded : (decode_and_clear_reset_reason software_flags).0 ≡ ResetReason.software
unfolding decode_and_clear_reset_reason
decoded = refl

not_lost : (decode_and_clear_reset_reason software_flags).0 ≢ ResetReason.backup_state_invalid
not_lost e = absurd (omega (arith, ap reason_to_byte (sym decoded ∙ e)))

uploads : idle_steps true ≡ disable_irq ∷ suspend_all ∷ goto_bootloader ∷ []
unfolding idle_steps
uploads = refl

fault_statement_example :
    next_statement true software_flags (stack_overflow_hook (points_to logger_name) unset).0
    ≡ ((codes "Reset: "
          ++ codes (reset_reason_text (decode_and_clear_reset_reason software_flags).0))
        ++ codes ", overflow ")
      ++ codes "Logger"
fault_statement_example =
    (fault_statement (points_to logger_name) true true software_flags unset not_lost).0

abbrev blank : System
blank = reinitialise unset

blank-Counts : Counts 0 0 blank
blank-Counts =
    let (valid, _, seen, _) = reinitialise_lem unset in
    (
      valid,
      ap (λ (b : Block). b.consecutive) seen,
      ap (λ (b : Block). b.cumulative) seen,
      ap (λ (b : Block). b.deliberate) seen,
    )

software_faults : IsFaultBoot software_flags
software_faults = refl

-- Two boots that end in a stack overflow and for want of memory: the third starts reduced.
crash_loop_lem_example :
    (setup true software_flags (
      crash_loop true
        ((software_flags, overflow (points_to logger_name))
          ∷ (software_flags, out_of_memory false (points_to logger_name))
          ∷ [])
        blank)).reduced_configuration
    ≡ true
crash_loop_lem_example =
    (crash_loop_lem true
        ((software_flags, overflow (points_to logger_name))
          ∷ (software_flags, out_of_memory false (points_to logger_name))
          ∷ [])
        software_flags 0 0 blank blank-Counts (software_faults, (software_faults, tt))
        software_faults (omega arith) (omega arith)).0.1
      (inl (omega arith))
