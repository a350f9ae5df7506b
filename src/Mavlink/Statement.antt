-- ===== src/Mavlink/Statement.antt =====
-- The boot statement: its length, and that a fault's names are never cut short.
use boredom_os.Prelude.{
  ℕ, ◌+◌, ◌-◌, ◌≤◌, ◌≡◌, ◌≢◌, refl, Option, none, some, List, [], ◌++◌, arith, ◌∙◌, ap, subst, inl,
  inr, Option-cases, take_all, String, codes, length, take, length-append, length-take,
}
use boredom_os.Recovery.{ResetReason, BootPhase}
use boredom_os.Mavlink.{
  reset_reason_text, boot_phase_text, statement_len, strncat, fault_text, build_boot_statement,
}

length-strncat :
    (text more : List ℕ) → length text ≤ statement_len → length (strncat text more) ≤ statement_len
length-strncat text more le = omega (
  arith,
  le,
  length-append text (take (statement_len - length text) more),
  length-take (statement_len - length text) more,
)

strncat_lem :
    (text more : List ℕ)
    → length text + length more ≤ statement_len
    → strncat text more ≡ text ++ more
strncat_lem text more le =
    ap (λ t. text ++ t) (take_all (statement_len - length text) more (omega arith))

-- The statement fits the 50 characters of a STATUSTEXT, whatever the previous boot left.
pub length-build_boot_statement :
    (reason : ResetReason) (phase : BootPhase) (fault_task : List ℕ)
    → length (build_boot_statement reason phase fault_task) ≤ statement_len
unfolding build_boot_statement
length-build_boot_statement reason phase fault_task =
    let a = length-strncat [] (codes "Reset: ") (omega arith) in
    let b = length-strncat (strncat [] (codes "Reset: ")) (codes (reset_reason_text reason)) a in
    let text = strncat (strncat [] (codes "Reset: ")) (codes (reset_reason_text reason)) in
    elim (Option-cases (fault_text phase)) [
      | inl e ↦
          rw (build_boot_statement, e)
            (length-strncat (strncat text (codes ", phase ")) (codes (boot_phase_text phase))
              (length-strncat text (codes ", phase ") b))
      | inr (fault, e) ↦
          rw (build_boot_statement, e)
            (length-strncat (strncat text (codes fault)) fault_task
              (length-strncat text (codes fault) b))
    ]

reason_length :
    (reason : ResetReason)
    → reason ≢ ResetReason.backup_state_invalid
    → length (codes (reset_reason_text reason)) ≤ 16
unfolding reset_reason_text
reason_length ResetReason.power_on named = omega arith
reason_length ResetReason.low_voltage named = omega arith
reason_length ResetReason.watchdog named = omega arith
reason_length ResetReason.software named = omega arith
reason_length ResetReason.external_unknown named = omega arith
reason_length ResetReason.backup_state_invalid named = absurd (named refl)
reason_length (ResetReason.unnamed n) named = omega arith

abbrev text_length : Option String → ℕ
text_length none = 0
text_length (some text) = length (codes text)

fault_length : (phase : BootPhase) → text_length (fault_text phase) ≤ 11
fault_length BootPhase.start = omega arith
fault_length BootPhase.link_done = omega arith
fault_length BootPhase.clock_done = omega arith
fault_length BootPhase.card_done = omega arith
fault_length BootPhase.queues_done = omega arith
fault_length BootPhase.tasks_done = omega arith
fault_length BootPhase.scheduler_started = omega arith
fault_length BootPhase.stack_overflow_fault = omega arith
fault_length BootPhase.malloc_failed_fault = omega arith
fault_length (BootPhase.unnamed n) = omega arith

-- After a fault, a statement of any reason but the lost block is not cut short: it ends with the
-- whole name of a task of at most 15 characters.
pub build_boot_statement_lem :
    (reason : ResetReason) (phase : BootPhase) (fault : String) (fault_task : List ℕ)
    → reason ≢ ResetReason.backup_state_invalid
    → fault_text phase ≡ some fault
    → length fault_task ≤ 15
    → build_boot_statement reason phase fault_task
      ≡ ((codes "Reset: " ++ codes (reset_reason_text reason)) ++ codes fault) ++ fault_task
unfolding build_boot_statement
build_boot_statement_lem reason phase fault fault_task named e short =
    let reset = codes "Reset: " in
    let why = codes (reset_reason_text reason) in
    let n = reason_length reason named in
    let m : length (codes fault) ≤ 11 = subst (λ t. text_length t ≤ 11) e (fault_length phase) in
    let l = length-append reset why in
    let k = length-append (reset ++ why) (codes fault) in
    let one : strncat (strncat [] reset) why ≡ reset ++ why =
      strncat_lem reset why (omega (arith, n)) in
    let two = strncat_lem (reset ++ why) (codes fault) (omega (arith, n, m, l)) in
    let three =
      strncat_lem ((reset ++ why) ++ codes fault) fault_task (omega (arith, n, m, l, k, short)) in
    rw (build_boot_statement, e)
      (ap (λ t. strncat (strncat t (codes fault)) fault_task) one
        ∙ ap (λ t. strncat t fault_task) two
        ∙ three)
