-- ===== src/Hooks/Injection.antt =====
-- INJECT_FAULT, which src/logger.cpp and src/main.cpp compile in when it is asked for by hand.
--
-- The kernel's check of a stack's guard words at a task switch is a parameter.
use boredom_os.Prelude.{
  ℕ, zero, suc, ◌<◌, ◌≡◌, ◌≢◌, refl, Bool, true, false, not, ◌||◌, Option, none, some, List, [],
  ◌∷◌, arith, ◌∙◌, ap, sym, ltb, ◌==◌, sub_u32, if◌then◌else◌, codes, get_or,
}
use boredom_os.Recovery.{
  System, ResetReason, CharPointer, nullptr, points_to, set_phase, start, link_done, clock_done,
  card_done, queues_done, get_consecutive_count, reason_to_byte,
}
use boredom_os.Boot.{ResetFlags, decode_and_clear_reset_reason, decide, setup}
use boredom_os.Boot.History.{IsFault}
use boredom_os.Boot.Counting.{Counts, setup-Counts}
use boredom_os.Mavlink.{reset_reason_text}
use boredom_os.Hooks.{Step, stack_overflow_hook, malloc_failed_hook}
use boredom_os.Hooks.Faults.{next_statement, fault_statement}
use boredom_os.Hooks.Crashes.{overflow, out_of_memory, crashed-Counts}

-- The values of INJECT_FAULT that do something: 1, 2 and 3.
pub data InjectFault : Type 0 where
  overflow_logger malloc_logger malloc_setup : InjectFault

-- `injectFault`'s test: whether it goes on, at a tick, `ten_seconds` being pdMS_TO_TICKS(10000).
unfoldable pub injects_now : ℕ → ℕ → ℕ → ℕ → Bool
injects_now boot_consecutive_count started now ten_seconds =
    if not (boot_consecutive_count == 0) || ltb (sub_u32 now started) ten_seconds
    then false
    else true

-- The guard words, `loggerStack[0]` to `[3]`, are overwritten.
abbrev pub overwrite : ℕ → List ℕ → List ℕ
overwrite zero stack = stack
overwrite (suc words) [] = []
overwrite (suc words) (word ∷ rest) = 0 ∷ overwrite words rest

abbrev pub logger_name : CharPointer
logger_name = points_to (λ i. get_or (codes "Logger") i 0)

-- `injectFault` in TaskLogger: the hook's block and calls, if a hook is called. `detects` is the
-- kernel's check.
unfoldable pub inject_fault :
    Bool → (List ℕ → Bool) → List ℕ → ℕ → ℕ → ℕ → ℕ → System → Option (System × List Step)
unfolding injects_now
inject_fault by_overflow detects stack boot_consecutive_count started now ten_seconds s =
    if not (injects_now boot_consecutive_count started now ten_seconds)
    then none
    else if by_overflow
    then if detects (overwrite 4 stack) then some (stack_overflow_hook logger_name s) else none
    else some (malloc_failed_hook true logger_name s)

-- `setup` in a build with INJECT_FAULT 3, up to the injection, and whether it is made.
unfoldable pub inject_in_setup : ResetFlags → System → Option (System × List Step)
inject_in_setup f s =
    let d = decide f s in
    let boot_consecutive_count = get_consecutive_count d.system in
    let s = set_phase start d.system in
    let s = set_phase link_done s in
    let s = set_phase clock_done s in
    let s = set_phase card_done s in
    let s = set_phase queues_done s in
    if boot_consecutive_count == 0 then some (malloc_failed_hook false nullptr s) else none

-- The block that each leaves, from the block when it is made.
abbrev pub left_by : InjectFault → System → System
left_by overflow_logger s = (stack_overflow_hook logger_name s).0
left_by malloc_logger s = (malloc_failed_hook true logger_name s).0
left_by malloc_setup s = (malloc_failed_hook false nullptr s).0

-- What the table of test/test_hil/README.md expects.
abbrev pub expected : InjectFault → List ℕ
expected overflow_logger = codes "Reset: software, overflow Logger"
expected malloc_logger = codes "Reset: software, malloc Logger"
expected malloc_setup = codes "Reset: software, malloc setup"

statement :
    (v : InjectFault) (card : Bool) (g : ResetFlags) (s : System)
    → (decode_and_clear_reset_reason g).0 ≡ ResetReason.software
    → next_statement card g (left_by v s) ≡ expected v
unfolding reset_reason_text
statement v card g s soft = go v
  where
    known : (decode_and_clear_reset_reason g).0 ≢ ResetReason.backup_state_invalid
    known e = absurd (omega (arith, ap reason_to_byte (sym soft ∙ e)))

    go : (v : InjectFault) → next_statement card g (left_by v s) ≡ expected v
    go overflow_logger = (fault_statement logger_name true card g s known).0 ∙ rw (soft) refl
    go malloc_logger = (fault_statement logger_name true card g s known).1 ∙ rw (soft) refl
    go malloc_setup = (fault_statement nullptr false card g s known).1 ∙ rw (soft) refl

left_by-Counts : (v : InjectFault) (n m : ℕ) (s : System) → Counts n m s → Counts n m (left_by v s)
left_by-Counts overflow_logger n m s c = crashed-Counts (overflow logger_name) n m s c
left_by-Counts malloc_logger n m s c = crashed-Counts (out_of_memory true logger_name) n m s c
left_by-Counts malloc_setup n m s c = crashed-Counts (out_of_memory false nullptr) n m s c

-- An injected fault of each kind, made while the count of faults in a row is 0 and no marker is
-- set, and the boot after it, whose flags say a software reset: it says what the table of
-- test/test_hil/README.md expects, and injects nothing itself, in TaskLogger at no time and in
-- setup.
pub injected_once :
    (v : InjectFault) (card : Bool) (g : ResetFlags) (m : ℕ) (s : System)
    → Counts 0 m s
    → m < 255
    → (decode_and_clear_reset_reason g).0 ≡ ResetReason.software
    → let report = setup card g (left_by v s) in
      (next_statement card g (left_by v s) ≡ expected v)
      × (inject_in_setup g (left_by v s) ≡ none)
      × ((by_overflow : Bool) (detects : List ℕ → Bool) (stack : List ℕ)
            (started now ten_seconds : ℕ) (t : System)
          → inject_fault by_overflow detects stack report.boot_consecutive_count started now
              ten_seconds t
            ≡ none)
unfolding inject_in_setup inject_fault setup
injected_once v card g m s c y soft =
    let u = left_by v s in
    let faulty : IsFault (decode_and_clear_reset_reason g).0 = rw (soft) refl in
    let counted = (setup-Counts card g 0 m u faulty (left_by-Counts v 0 m s c) (omega arith) y).2 in
    (
      statement v card g s soft,
      ground (arith, counted),
      λ by_overflow detects stack started now ten t. ground (arith, counted),
    )
