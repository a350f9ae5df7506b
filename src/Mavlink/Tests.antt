-- ===== src/Mavlink/Tests.antt =====
-- The theorems at concrete inputs.
use boredom_os.Prelude.{
  ℕ, ◌≤◌, ◌≡◌, ◌≢◌, refl, Bool, some, List, arith, ltb, ap, codes, length, replicate,
}
use boredom_os.Recovery.{ResetReason, BootPhase, System, reason_to_byte}
use boredom_os.Mavlink.{
  build_boot_statement, reset_reason_text, next_housekeeping_value, housekeeping_tries,
}
use boredom_os.Mavlink.Statement.{length-build_boot_statement}

abbrev logger : List ℕ
logger = codes "Logger"

said :
    build_boot_statement ResetReason.software BootPhase.stack_overflow_fault logger
    ≡ codes "Reset: software, overflow Logger"
unfolding build_boot_statement reset_reason_text
said = refl

external_named : ResetReason.external_unknown ≢ ResetReason.backup_state_invalid
external_named e = absurd (omega (arith, ap reason_to_byte e))

length-build_boot_statement_example :
    length (
      build_boot_statement ResetReason.backup_state_invalid BootPhase.malloc_failed_fault
        (replicate 30 65))
    ≤ 50
length-build_boot_statement_example =
    length-build_boot_statement ResetReason.backup_state_invalid BootPhase.malloc_failed_fault
      (replicate 30 65)

abbrev no_block : System
no_block = record { vbtbkr = λ i. 0; prcr = 0 }

-- Without a logger and a card task, from the logger's slot the heap is next.
abbrev reduced_tasks : ℕ → Bool
reduced_tasks task = ltb task 5

wraps : next_housekeeping_value reduced_tasks 7 ≡ (some 0, 1)
unfolding next_housekeeping_value housekeeping_tries
wraps = refl
