-- ===== src/Boot/Watchdog.antt =====
-- The search for the watchdog's timing.
use boredom_os.Prelude.{ℕ, ◌*◌, ◌≤◌, ◌≡◌, true, false, List, [], ◌∷◌, arith, All}
use boredom_os.Boot.{
  WdtChoice, wdt_step, wdt_divisions, wdt_timeouts, select_wdt_timing, period_us, timeout_options,
  division_options,
}

-- A choice that is as good as the options seen so far: it has one of them that is long enough, and
-- the shortest.
abbrev Covers : ℕ → WdtChoice → ℕ → ℕ → Type 0
Covers requested_ms w cycles divisor =
    requested_ms * 1000 ≤ period_us cycles divisor
    → (w.found ≡ true) × (w.best_period_us ≤ period_us cycles divisor)

-- A choice is what it says, once there is one.
abbrev IsSound : ℕ → WdtChoice → Type 0
IsSound requested_ms w =
    w.found ≡ true
    → (w.best_period_us ≡ period_us w.timeout w.division) × (requested_ms * 1000 ≤ w.best_period_us)

-- A later choice is found if the earlier was, and no longer.
abbrev Improves : WdtChoice → WdtChoice → Type 0
Improves w w' = w.found ≡ true → (w'.found ≡ true) × (w'.best_period_us ≤ w.best_period_us)

wdt_step_lem :
    (r c d : ℕ) (w : WdtChoice)
    → IsSound r w
    → IsSound r (wdt_step r c d w) × Improves w (wdt_step r c d w) × Covers r (wdt_step r c d w) c d
unfolding wdt_step
wdt_step_lem r c d w s = (λ h. ground (arith, s), λ h. ground arith, λ h. ground arith)

wdt_divisions_lem :
    (r c : ℕ) (ds : List ℕ) (w : WdtChoice)
    → IsSound r w
    → IsSound r (wdt_divisions r c ds w)
      × Improves w (wdt_divisions r c ds w)
      × All (Covers r (wdt_divisions r c ds w) c) ds
unfolding wdt_divisions
wdt_divisions_lem r c [] w s = (s, λ h. (h, omega arith), tt)
wdt_divisions_lem r c (d ∷ ds) w s =
    let (s', i, k) = wdt_step_lem r c d w s in
    let (s'', j, ks) = wdt_divisions_lem r c ds (wdt_step r c d w) s' in
    (
      s'',
      λ h. ((j (i h).0).0, omega (arith, (j (i h).0).1, (i h).1)),
      (λ h. ((j (k h).0).0, omega (arith, (j (k h).0).1, (k h).1)), ks),
    )

Covers-improve :
    (r c : ℕ) (ds : List ℕ) (w w' : WdtChoice)
    → Improves w w'
    → All (Covers r w c) ds
    → All (Covers r w' c) ds
Covers-improve r c [] w w' i k = tt
Covers-improve r c (d ∷ ds) w w' i (k, ks) =
    (λ h. ((i (k h).0).0, omega (arith, (i (k h).0).1, (k h).1)), Covers-improve r c ds w w' i ks)

wdt_timeouts_lem :
    (r : ℕ) (ts : List ℕ) (w : WdtChoice)
    → IsSound r w
    → IsSound r (wdt_timeouts r ts w)
      × Improves w (wdt_timeouts r ts w)
      × All (λ t. All (Covers r (wdt_timeouts r ts w) t) division_options) ts
unfolding wdt_timeouts
wdt_timeouts_lem r [] w s = (s, λ h. (h, omega arith), tt)
wdt_timeouts_lem r (t ∷ ts) w s =
    let (s', i, k) = wdt_divisions_lem r t division_options w s in
    let (s'', j, ks) = wdt_timeouts_lem r ts (wdt_divisions r t division_options w) s' in
    (
      s'',
      λ h. ((j (i h).0).0, omega (arith, (j (i h).0).1, (i h).1)),
      (
        Covers-improve r t division_options (wdt_divisions r t division_options w)
            (wdt_timeouts r ts (wdt_divisions r t division_options w)) j k,
        ks,
      ),
    )

-- The search over all 70 combinations: a choice that is found has a period of at least the
-- requested milliseconds, it is no longer than any combination with such a period, and one is found
-- for every request of up to 5592 ms.
pub select_wdt_timing_lem :
    (requested_ms timeout_out division_out : ℕ)
    → let w = select_wdt_timing requested_ms timeout_out division_out in
      (w.found ≡ true
        → (w.best_period_us ≡ period_us w.timeout w.division)
          × (requested_ms * 1000 ≤ w.best_period_us))
      × All
          (λ cycles.
            All
              (λ divisor.
                requested_ms * 1000 ≤ period_us cycles divisor
                → (w.found ≡ true) × (w.best_period_us ≤ period_us cycles divisor))
              division_options)
          timeout_options
      × (requested_ms ≤ 5592 → w.found ≡ true)
unfolding select_wdt_timing
select_wdt_timing_lem r a b =
    let (s, _, k) =
      wdt_timeouts_lem r timeout_options
        (record { best_period_us = 0; found = false; timeout = a; division = b }) (λ h. cc) in
    (s, k, λ h. (k.1.1.1.1.1.1.0.1.1.1.1.1.1.1.1.1.0 (omega arith)).0)
