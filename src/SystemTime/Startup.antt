-- ===== src/SystemTime/Startup.antt =====
-- Which source a boot starts with.
use boredom_os.Prelude.{◌≡◌, ◌↔◌, refl, Bool, true, false, arith}
use boredom_os.SystemTime.{
  Clocks, ds1307, survived, is_plausible, found_clock, seed_from_ds1307, begin,
}

module _ (c : Clocks) where
  open c use {Hardware, rtc_begin, ds1307_begin}

  -- The order of preference at boot: a plausible DS1307 that could be written to the clock, else a
  -- clock found running with a plausible time, else none. The result says whether there is a source;
  -- whether the clock was found running is reported apart from the source; and the internal clock is
  -- started whether or not the DS1307 answers.
  pub begin_lem :
      (hw : Hardware)
      → let (present, hw') = ds1307_begin hw in
        let (found, hw'') = found_clock c (rtc_begin hw') in
        let seeded = (seed_from_ds1307 c present hw'').0 in
        let (usable, t, _) = begin c hw in
        ((t.source ≡ ds1307) ↔ (seeded ≡ true))
        × ((t.source ≡ survived) ↔ ((seeded ≡ false) × (found ≡ true)))
        × ((usable ≡ false) ↔ ((seeded ≡ false) × (found ≡ false)))
        × (t.found_running ≡ found)
        × (t.ds1307_present ≡ present)
  unfolding begin
  begin_lem hw = (
    (λ h. ground arith, λ h. ground arith),
    (λ h. ground arith, λ h. ground arith),
    (λ h. ground arith, λ h. ground arith),
    refl,
    refl,
  )

  -- A DS1307 that does not answer, or that holds an implausible time, never seeds the clock.
  pub seed_from_ds1307_lem :
      (present : Bool) (hw : Hardware)
      → (seed_from_ds1307 c present hw).0 ≡ true
      → (present ≡ true) × (is_plausible (c.ds1307_now hw).0 ≡ true)
  unfolding seed_from_ds1307
  seed_from_ds1307_lem present hw h = (ground arith, ground arith)
