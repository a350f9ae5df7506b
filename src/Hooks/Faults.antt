-- ===== src/Hooks/Faults.antt =====
-- A fault hook, the boot after it and what that boot says to the ground.
use boredom_os.Prelude.{
  ℕ, zero, suc, ◌+◌, ◌≤◌, ◌≡◌, ◌≢◌, refl, Bool, true, false, not, some, List, [], ◌∷◌, ◌++◌, map,
  arith, ◌∙◌, ap, if◌then◌else◌, codes, String, length,
}
use boredom_os.Recovery.{
  System, BootPhase, stack_overflow_fault, malloc_failed_fault, ResetReason, CharPointer, nullptr,
  points_to, printable, record_fault,
}
use boredom_os.Recovery.Fault.{name_of, c_string}
use boredom_os.Recovery.Fields.{IsPhase}
use boredom_os.Boot.{ResetFlags, decode_and_clear_reset_reason, setup}
use boredom_os.Boot.Reports.{setup-record_fault}
use boredom_os.Mavlink.{build_boot_statement, reset_reason_text, fault_text}
use boredom_os.Mavlink.Statement.{build_boot_statement_lem}
use boredom_os.Hooks.{stack_overflow_hook, malloc_failed_hook, setup_name}

-- The statement that the boot after a state of the block sends.
abbrev pub next_statement : Bool → ResetFlags → System → List ℕ
next_statement card f s =
    let report = setup card f s in
    build_boot_statement report.previous_reset_reason report.previous_boot_phase
      report.previous_fault_task

c_string_short : (n i : ℕ) (bytes : ℕ → ℕ) → length (c_string n i bytes) ≤ n
c_string_short zero i bytes = omega arith
c_string_short (suc n) i bytes = let ih = c_string_short n (i + 1) bytes in ground arith

length-map-printable : (text : List ℕ) → length (map printable text) ≡ length text
length-map-printable [] = refl
length-map-printable (c ∷ text) = ap (λ n. suc n) (length-map-printable text)

named_short : (name : CharPointer) → length (map printable (name_of name)) ≤ 15
named_short nullptr = omega arith
named_short (points_to bytes) =
    let same = length-map-printable (c_string 15 0 bytes) in
    let short = c_string_short 15 0 bytes in omega arith

-- The statement after a record of any fault.
recorded :
    (phase : BootPhase) (fault : String) (name : CharPointer) (card : Bool) (f : ResetFlags)
    (s : System)
    → IsPhase phase
    → fault_text phase ≡ some fault
    → let reason = (decode_and_clear_reset_reason f).0 in
      reason ≢ ResetReason.backup_state_invalid
      → next_statement card f (record_fault phase name s)
        ≡ ((codes "Reset: " ++ codes (reset_reason_text reason)) ++ codes fault)
          ++ map printable (name_of name)
recorded phase fault name card f s is_phase is_fault named =
    let (p, t, r) = setup-record_fault phase name card f s is_phase in
    let report = setup card f (record_fault phase name s) in
    let reason = (decode_and_clear_reset_reason f).0 in
    ap (λ r. build_boot_statement r report.previous_boot_phase report.previous_fault_task) r
    ∙ ap (λ p. build_boot_statement reason p report.previous_fault_task) p
    ∙ ap (build_boot_statement reason phase) t
    ∙ build_boot_statement_lem reason phase fault (map printable (name_of name)) named is_fault
        (named_short name)

-- After a fault hook, the boot that reads any reason but a lost block says, whole, the reason, the
-- fault and the printable form of the task's name: the one that overflowed its stack, or the one
-- that ran out of memory, which is "setup" before the scheduler starts.
pub fault_statement :
    (name : CharPointer) (started card : Bool) (f : ResetFlags) (s : System)
    → let reason = (decode_and_clear_reset_reason f).0 in
      reason ≢ ResetReason.backup_state_invalid
      → let reset = codes "Reset: " ++ codes (reset_reason_text reason) in
        let culprit = if not started then codes "setup" else map printable (name_of name) in
        (next_statement card f (stack_overflow_hook name s).0
          ≡ (reset ++ codes ", overflow ") ++ map printable (name_of name))
        × (next_statement card f (malloc_failed_hook started name s).0
            ≡ (reset ++ codes ", malloc ") ++ culprit)
unfolding stack_overflow_hook malloc_failed_hook
fault_statement name true card f s named = (
  recorded stack_overflow_fault ", overflow " name card f s refl refl named,
  recorded malloc_failed_fault ", malloc " name card f s refl refl named,
)
fault_statement name false card f s named = (
  recorded stack_overflow_fault ", overflow " name card f s refl refl named,
  recorded malloc_failed_fault ", malloc " (points_to setup_name) card f s refl refl named,
)
