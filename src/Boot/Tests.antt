-- ===== src/Boot/Tests.antt =====
-- Inputs, runs and instances for the boot.
use boredom_os.Prelude.{ℕ, ◌≡◌, refl, true, false, arith, ◌∙◌, inr}
use boredom_os.Recovery.{
  System, watchdog, power_on, DeliberateReset, is_valid, reinitialise, set_cumulative_count, start,
}
use boredom_os.Recovery.Fields.{view, view-set, set_valid}
use boredom_os.Recovery.Defaults.{reinitialise_lem, blank_block}
use boredom_os.Boot.{select_wdt_timing, wdt_timeouts, wdt_divisions, wdt_step}
use boredom_os.Boot.Decision.{update_lem}
use boredom_os.Boot.History.{reduced, after, cumulative_wraps}
use boredom_os.Boot.Watchdog.{select_wdt_timing_lem}

abbrev unset : System
unset = record { prcr = 0; vbtbkr = λ p. 0 }

abbrev blank : System
blank = reinitialise unset

blank_valid : is_valid blank ≡ true
blank_valid = (reinitialise_lem unset).0

view-blank : view blank ≡ blank_block
view-blank = (reinitialise_lem unset).2

-- The built-in 1398 ms: the first combination with the shortest sufficient period, 1398.101 ms.
default_timing :
    select_wdt_timing 1398 0 0
    ≡ record { best_period_us = 1398101; found = true; timeout = 4096; division = 8192 }
unfolding select_wdt_timing wdt_timeouts wdt_divisions wdt_step
default_timing = refl

update_lem_example : is_valid (after watchdog blank) ≡ true
update_lem_example = (update_lem watchdog blank blank_valid).0

-- A board with `n` resets on its cumulative count.
abbrev worn : ℕ → System
worn n = set_cumulative_count n blank

worn_valid : (n : ℕ) → is_valid (worn n) ≡ true
worn_valid n = (set_valid n start power_on DeliberateReset.none blank).1

view-worn : (n : ℕ) → view (worn n) ≡ record blank_block { cumulative = n }
view-worn n =
    (view-set blank blank_valid n start power_on DeliberateReset.none refl refl refl).1
    ∙ rw view-blank

worn_reduced : reduced power_on (worn 20) ≡ true
worn_reduced =
    (update_lem power_on (worn 20) (worn_valid 20)).1.1
      (rw (view-worn 20) (inr (omega arith), λ h. omega (arith, h.1)))

cumulative_wraps_example :
    (reduced power_on (worn 255) ≡ false) × ((view (after power_on (worn 255))).cumulative ≡ 0)
cumulative_wraps_example =
    cumulative_wraps power_on (worn 255) (worn_valid 255) (rw (view-worn 255))
      (rw (view-worn 255) (omega arith))

unset_invalid : is_valid unset ≡ false
unfolding is_valid
unset_invalid = refl

select_wdt_timing_example : (select_wdt_timing 1398 0 0).found ≡ true
select_wdt_timing_example = (select_wdt_timing_lem 1398 0 0).2 (omega arith)
