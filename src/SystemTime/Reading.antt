-- ===== src/SystemTime/Reading.antt =====
-- Reading the clock: an untorn pair of second and fraction, and the time since boot.
use boredom_os.Prelude.{
  ℕ, zero, suc, ◌+◌, ◌-◌, ◌*◌, ◌≤◌, ◌<◌, ◌≡◌, refl, some, arith, u64, uint32_max, ◌==◌, ◌∙◌, sym,
  ap, ◌⊎◌, inl, inr, Bool-cases, Option-cases, ==_iff,
}
use boredom_os.SystemTime.{
  Clocks, SystemTime, usec_per_sec, r64cnt_fraction, fraction_usec, read_seconds, get_unix_time,
  usec_attempts, get_unix_time_usec, since_boot_usec,
}

module _ (c : Clocks) where
  open c use {Hardware, rtc_get_time, r64cnt}

  -- Three reads in a row, from some state of the hardware: a second, a count of R64CNT, and the same
  -- second again.
  abbrev pub Untorn : ℕ → ℕ → Type 0
  Untorn second counter =
      (hw : Hardware) × ((rtc_get_time hw).0 ≡ some second)
      × ((r64cnt (rtc_get_time hw).1).0 ≡ counter)
      × ((rtc_get_time (r64cnt (rtc_get_time hw).1).1).0 ≡ some second)

  -- What a reading in microseconds can be: nothing, whole seconds, or an untorn pair.
  abbrev pub IsReading : ℕ → Type 0
  IsReading usec =
      (usec ≡ 0)
      ⊎ (((hw : Hardware) × (usec ≡ u64 ((get_unix_time c hw).0 * usec_per_sec)))
          ⊎ ((second : ℕ) × (counter : ℕ) × Untorn second counter
              × (usec ≡ u64 (second * usec_per_sec + fraction_usec (r64cnt_fraction counter)))))

  usec_attempts_lem : (attempts : ℕ) (hw : Hardware) → IsReading (usec_attempts c attempts hw).0
  unfolding usec_attempts read_seconds
  usec_attempts_lem zero hw = inr (inl (hw, refl))
  usec_attempts_lem (suc attempts) hw =
      let hw' = (r64cnt (rtc_get_time hw).1).1 in
      elim (Option-cases (rtc_get_time hw).0) [
        | inl e ↦ rw (e, usec_attempts) (inl refl)
        | inr (before, e) ↦
            rw (e, usec_attempts)
              (elim (Option-cases (rtc_get_time hw').0) [
                | inl f ↦ rw (f, usec_attempts) (inl refl)
                | inr (after, f) ↦
                    rw (f, usec_attempts)
                      (elim (Bool-cases (before == after)) [
                        | inl g ↦ rw g (
                            inr (
                              inr (
                                before,
                                (r64cnt (rtc_get_time hw).1).0,
                                (hw, e, refl, f ∙ ap some (sym ((==_iff before after).0 g))),
                                refl,
                              )))
                        | inr g ↦ rw g (usec_attempts_lem attempts (rtc_get_time hw').1)
                      ])
              ])
      ]

  -- Whatever the hardware does between the reads, and within four attempts, the reading in
  -- microseconds is 0 for a clock that cannot be read, or whole seconds, or a second with a
  -- fraction that was read between two equal readings of that second, and that fraction is less
  -- than a second.
  pub get_unix_time_usec_lem :
      (hw : Hardware)
      → IsReading (get_unix_time_usec c hw).0
        × ((counter : ℕ) → fraction_usec (r64cnt_fraction counter) < usec_per_sec)
  unfolding get_unix_time_usec
  get_unix_time_usec_lem hw = (usec_attempts_lem 4 hw, λ counter. omega arith)

  -- The time since boot never runs negative, and is the reading less the epoch where that is later.
  pub since_boot_usec_lem :
      (t : SystemTime) (hw : Hardware)
      → t.boot_epoch ≤ uint32_max
      → (since_boot_usec c t hw).0 ≡ (get_unix_time_usec c hw).0 - t.boot_epoch * usec_per_sec
  unfolding since_boot_usec
  since_boot_usec_lem t hw h = ground arith
