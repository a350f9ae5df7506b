-- ===== src/Hooks/Crashes.antt =====
-- Boots that a fault hook ends, one after another: the hook, the block, the counters and the
-- decision.
use boredom_os.Prelude.{
  ℕ, ◌+◌, ◌≤◌, ◌<◌, ◌≡◌, ◌↔◌, ◌⊎◌, refl, Bool, true, ◌||◌, List, [], ◌∷◌, arith, ◌∙◌, ap, All,
  length,
}
use boredom_os.Recovery.{
  System, BootPhase, stack_overflow_fault, malloc_failed_fault, CharPointer, consecutive_threshold,
  cumulative_threshold, record_fault,
}
use boredom_os.Recovery.Fields.{Block, IsPhase}
use boredom_os.Recovery.Fault.{record_fault_lem, view-record_fault}
use boredom_os.Boot.{ResetFlags, decode_and_clear_reset_reason, setup}
use boredom_os.Boot.History.{IsFault}
use boredom_os.Boot.Counting.{Counts, setup-Counts}
use boredom_os.Hooks.{stack_overflow_hook, malloc_failed_hook}

-- What ends a run: a stack overflow in a task, or no memory, with the scheduler started or not.
pub data Crash : Type 0 where
  overflow : CharPointer → Crash
  out_of_memory : Bool → CharPointer → Crash

-- The block that the hook leaves.
abbrev pub crashed : Crash → System → System
crashed (overflow name) s = (stack_overflow_hook name s).0
crashed (out_of_memory started name) s = (malloc_failed_hook started name s).0

-- Boots by their flags, each ended by a crash, before the board has run for long enough to clear a
-- count.
unfoldable pub crash_loop : Bool → List (ResetFlags × Crash) → System → System
crash_loop card [] s = s
crash_loop card ((f, crash) ∷ rest) s = crash_loop card rest (crashed crash (setup card f s).system)

record_fault-Counts :
    (phase : BootPhase) (name : CharPointer) (n m : ℕ) (s : System)
    → IsPhase phase
    → Counts n m s
    → Counts n m (record_fault phase name s)
record_fault-Counts phase name n m s h (v, a, b, d) =
    let e = view-record_fault phase name s h v in
    (
      (record_fault_lem phase name s h).0,
      ap (λ (x : Block). x.consecutive) e ∙ a,
      ap (λ (x : Block). x.cumulative) e ∙ b,
      ap (λ (x : Block). x.deliberate) e ∙ d,
    )

pub crashed-Counts :
    (crash : Crash) (n m : ℕ) (s : System) → Counts n m s → Counts n m (crashed crash s)
unfolding stack_overflow_hook malloc_failed_hook
crashed-Counts (overflow name) n m s c = record_fault-Counts stack_overflow_fault name n m s refl c
crashed-Counts (out_of_memory started name) n m s c =
    record_fault-Counts malloc_failed_fault _ n m s refl c

-- A boot whose flags say a watchdog's reset or one by software, which is what a fault hook makes.
abbrev pub IsFaultBoot : ResetFlags → Type 0
IsFaultBoot f = (f.iwdtrf || f.wdtrf || f.swrf) ≡ true

pub decoded-IsFault : (f : ResetFlags) → IsFaultBoot f → IsFault (decode_and_clear_reset_reason f).0
unfolding decode_and_clear_reset_reason
decoded-IsFault f h = ground (arith, h)

crash_loop-Counts :
    (card : Bool) (cycles : List (ResetFlags × Crash)) (n m : ℕ) (s : System)
    → Counts n m s
    → All (λ cycle. IsFaultBoot cycle.0) cycles
    → n + length cycles < 256
    → m + length cycles < 256
    → Counts (n + length cycles) (m + length cycles) (crash_loop card cycles s)
unfolding crash_loop
crash_loop-Counts card [] n m s c h x y = (c.0, omega (arith, c.1), omega (arith, c.2), c.3)
crash_loop-Counts card ((f, crash) ∷ rest) n m s c (h, hs) x y =
    let booted =
      (setup-Counts card f n m s (decoded-IsFault f h) c (omega (arith, x)) (omega (arith, y))).0 in
    let struck = crashed-Counts crash (n + 1) (m + 1) (setup card f s).system booted in
    let more =
      crash_loop-Counts card rest (n + 1) (m + 1) _ struck hs (omega (arith, x))
        (omega (arith, y)) in
    (more.0, omega (arith, more.1), omega (arith, more.2), more.3)

-- A crash loop, from a valid block with no marker, in which every boot's flags report a watchdog's
-- reset or one by software: however the runs end, by an overflow or for want of memory and in
-- whatever task, the boot after them reports one fault more for each boot, itself included, and
-- starts the reduced configuration exactly when the faults in a row reach their threshold or all
-- the resets reach theirs, as long as the 8-bit counts do not wrap.
pub crash_loop_lem :
    (card : Bool) (cycles : List (ResetFlags × Crash)) (last : ResetFlags) (n m : ℕ) (s : System)
    → Counts n m s
    → All (λ cycle. IsFaultBoot cycle.0) cycles
    → IsFaultBoot last
    → n + length cycles + 1 < 256
    → m + length cycles + 1 < 256
    → let report = setup card last (crash_loop card cycles s) in
      ((report.reduced_configuration ≡ true) ↔ (
        (consecutive_threshold ≤ n + length cycles + 1)
        ⊎ (cumulative_threshold ≤ m + length cycles + 1)))
      × (report.boot_consecutive_count ≡ n + length cycles + 1)
crash_loop_lem card cycles last n m s c hs h x y =
    let counted = crash_loop-Counts card cycles n m s c hs (omega (arith, x)) (omega (arith, y)) in
    let booted =
      setup-Counts card last (n + length cycles) (m + length cycles) (crash_loop card cycles s)
        (decoded-IsFault last h) counted (omega (arith, x)) (omega (arith, y)) in
    (booted.1, booted.2)
