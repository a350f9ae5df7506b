-- ===== src/Boot/Timing.antt =====
-- The watchdog's timing in src/main.cpp: the options, the search over them and the configuration.
use boredom_os.Prelude.{
  ℕ, ◌*◌, ◌/◌, Bool, true, false, not, ◌&&◌, ◌||◌, List, [], ◌∷◌, ltb, leb, if◌then◌else◌,
}

-- The choices of the watchdog: cycles and divisors.
abbrev pub timeout_options : List ℕ
timeout_options = 128 ∷ 512 ∷ 1024 ∷ 2048 ∷ 4096 ∷ 8192 ∷ 16384 ∷ []

abbrev pub division_options : List ℕ
division_options = 1 ∷ 4 ∷ 16 ∷ 32 ∷ 64 ∷ 128 ∷ 256 ∷ 512 ∷ 2048 ∷ 8192 ∷ []

abbrev pub pclkb_hz : ℕ
pclkb_hz = 24000000

abbrev pub wdt_timeout_ms : ℕ
wdt_timeout_ms = 1398

-- `(uint64_t)t.cycles * d.divisor * 1000000ULL / kPclkbHz`
abbrev pub period_us : ℕ → ℕ → ℕ
period_us cycles divisor = cycles * divisor * 1000000 / pclkb_hz

-- The variables of the search: both locals and both out-parameters.
pub record WdtChoice : Type 0 where
  pub best_period_us : ℕ
  pub found : Bool
  pub timeout : ℕ
  pub division : ℕ

unfoldable pub wdt_step : ℕ → ℕ → ℕ → WdtChoice → WdtChoice
wdt_step requested_ms cycles divisor w =
    let period = period_us cycles divisor in
    if leb (requested_ms * 1000) period && (not w.found || ltb period w.best_period_us)
    then record { best_period_us = period; found = true; timeout = cycles; division = divisor }
    else w

unfoldable pub wdt_divisions : ℕ → ℕ → List ℕ → WdtChoice → WdtChoice
wdt_divisions requested_ms cycles [] w = w
wdt_divisions requested_ms cycles (d ∷ ds) w =
    wdt_divisions requested_ms cycles ds (wdt_step requested_ms cycles d w)

unfoldable pub wdt_timeouts : ℕ → List ℕ → WdtChoice → WdtChoice
wdt_timeouts requested_ms [] w = w
wdt_timeouts requested_ms (t ∷ ts) w =
    wdt_timeouts requested_ms ts (wdt_divisions requested_ms t division_options w)

-- `configASSERT(found)` halts: the caller reads the choice only if `found` is set.
unfoldable pub select_wdt_timing : ℕ → ℕ → ℕ → WdtChoice
select_wdt_timing requested_ms timeout_out division_out =
    wdt_timeouts requested_ms timeout_options
      (record { best_period_us = 0; found = false; timeout = timeout_out; division = division_out })

-- `wdt_cfg_t`: the window is in percent, and the count goes on in sleep unless it is stopped there.
pub record WdtConfig : Type 0 where
  pub timeout : ℕ
  pub clock_division : ℕ
  pub window_start : ℕ
  pub window_end : ℕ
  pub resets : Bool
  pub stops_in_sleep : Bool

abbrev pub wdt_cfg : WdtChoice → WdtConfig
wdt_cfg choice = record {
  timeout = choice.timeout;
  clock_division = choice.division;
  window_start = 100;
  window_end = 0;
  resets = true;
  stops_in_sleep = false;
}
