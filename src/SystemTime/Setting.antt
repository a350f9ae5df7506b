-- ===== src/SystemTime/Setting.antt =====
-- Setting the clock: which times are accepted, what moves, and the time since boot across it.
use boredom_os.Prelude.{
  ℕ, ◌+◌, ◌-◌, ◌≤◌, ◌<◌, ◌≡◌, ◌≢◌, ◌↔◌, true, false, Option, arith, uint32_max, ◌⊎◌, if◌then◌else◌,
}
use boredom_os.SystemTime.{
  Clocks, Source, source_to_byte, is_ds1307, SystemTime, is_plausible, oldest_acceptable,
  get_unix_time, correct_ds1307, repeat_time, move_time, set_unix_time, reseed_from_ds1307,
}

module _ (c : Clocks) where
  open c use {Hardware, rtc_get_time, rtc_set_time, ds1307_now, ds1307_adjust}

  -- On every branch: a time is accepted exactly if it is plausible, comes from no worse a source
  -- than the one held, and equals the second held or is written to the clock; the clock has moved
  -- exactly if a time was accepted that differs from the second held; the source becomes the one
  -- offered exactly if it was accepted, and the epoch stays unless the clock moved.
  pub set_unix_time_lem :
      (unix_time : ℕ) (from : Source) (t : SystemTime) (hw : Hardware)
      → let o = set_unix_time c unix_time from t hw in
        let (previous, hw') = get_unix_time c hw in
        ((o.accepted ≡ true) ↔ (
          (is_plausible unix_time ≡ true)
          × (source_to_byte from ≤ source_to_byte t.source)
          × ((previous ≡ unix_time) ⊎ ((rtc_set_time unix_time hw').0 ≡ true))))
        × ((o.clock_moved ≡ true) ↔ ((o.accepted ≡ true) × (previous ≢ unix_time)))
        × (o.time.source ≡ (if o.accepted then from else t.source))
        × (o.clock_moved ≡ false → o.time.boot_epoch ≡ t.boot_epoch)
  unfolding set_unix_time repeat_time move_time
  set_unix_time_lem unix_time from t hw = (
    (λ h. ground arith, λ h. ground arith),
    (λ h. ground arith, λ h. ground arith),
    ground arith,
    λ h. ground arith,
  )

  -- The time since boot is continuous across a set: whatever time `d` passes afterwards, the elapsed
  -- seconds are those that the old clock and the old epoch would show, if the clock ran from the
  -- epoch on for less than the 52 years of `oldest_acceptable`.
  pub set_unix_time_elapsed :
      (unix_time : ℕ) (from : Source) (t : SystemTime) (hw : Hardware)
      → let o = set_unix_time c unix_time from t hw in
        let previous = (get_unix_time c hw).0 in
        t.boot_epoch ≤ previous
        → previous - t.boot_epoch ≤ oldest_acceptable
        → previous ≤ uint32_max
        → o.clock_moved ≡ true
        → (d : ℕ) → unix_time + d - o.time.boot_epoch ≡ previous + d - t.boot_epoch
  unfolding set_unix_time repeat_time move_time is_plausible
  set_unix_time_elapsed unix_time from t hw a b e m d = ground arith

  -- A reading that fails counts as second 0, and the epoch is then shifted by the whole new time:
  -- from a plausible epoch the time since boot is 0 for as long as the epoch's own number of
  -- seconds.
  pub set_unix_time_failed_read :
      (unix_time : ℕ) (from : Source) (t : SystemTime) (hw : Hardware)
      → (rtc_get_time hw).0 ≡ Option.none
      → (set_unix_time c unix_time from t hw).clock_moved ≡ true
      → t.boot_epoch + unix_time ≤ uint32_max
      → let o = set_unix_time c unix_time from t hw in
        (o.time.boot_epoch ≡ t.boot_epoch + unix_time)
        × ((d : ℕ) → d ≤ t.boot_epoch → unix_time + d - o.time.boot_epoch ≡ 0)
  unfolding set_unix_time repeat_time move_time get_unix_time
  set_unix_time_failed_read unix_time from t hw a m b = (ground arith, λ d h. ground arith)

  -- A source that repeats the second it already holds costs one reading: nothing is written to
  -- either clock, the DS1307 is not read, and the object stays as it was.
  pub set_unix_time_repeat :
      (unix_time : ℕ) (from : Source) (t : SystemTime) (hw : Hardware)
      → is_plausible unix_time ≡ true
      → from ≡ t.source
      → (get_unix_time c hw).0 ≡ unix_time
      → let o = set_unix_time c unix_time from t hw in
        (o.accepted ≡ true)
        × (o.clock_moved ≡ false)
        × (o.time ≡ t)
        × (o.hardware ≡ (get_unix_time c hw).1)
  unfolding set_unix_time repeat_time correct_ds1307
  set_unix_time_repeat unix_time from t hw p s e =
      (ground arith, ground arith, ground arith, ground arith)

  -- Under a time from the ground a re-seed is refused: it reads the DS1307 at most, and changes
  -- neither the object nor a clock.
  pub reseed_ground :
      (t : SystemTime) (hw : Hardware)
      → t.source ≡ Source.ground
      → let o = reseed_from_ds1307 c t hw in
        (o.accepted ≡ false)
        × (o.clock_moved ≡ false)
        × (o.time ≡ t)
        × (o.hardware ≡ (if t.ds1307_present then (ds1307_now hw).1 else hw))
  unfolding reseed_from_ds1307 set_unix_time
  reseed_ground t hw e = (ground arith, ground arith, ground arith, ground arith)

  module _ (held : Hardware → ℕ) (now_held : (hw : Hardware) → (ds1307_now hw).0 ≡ held hw)
      (now_keeps : (hw : Hardware) → held (ds1307_now hw).1 ≡ held hw)
      (adjust_held : (unix_time : ℕ) (hw : Hardware)
        → unix_time ≤ uint32_max
        → held (ds1307_adjust unix_time hw) ≡ unix_time) where
    correct_ds1307_held :
        (unix_time : ℕ) (hw : Hardware)
        → unix_time ≤ uint32_max
        → held (correct_ds1307 c true unix_time hw) ≡ unix_time
    unfolding correct_ds1307
    correct_ds1307_held unix_time hw h =
        ground (arith, now_held hw, now_keeps hw, adjust_held unix_time (ds1307_now hw).1)

    -- Suppose that no second passes on the DS1307 while it is read and compared, and that it holds
    -- what is written to it. Then an accepted time from another source that moved the clock, or
    -- promoted the source, is the time that a present DS1307 holds afterwards.
    pub set_unix_time_reaches_ds1307 :
        (unix_time : ℕ) (from : Source) (t : SystemTime) (hw : Hardware)
        → t.ds1307_present ≡ true
        → is_ds1307 from ≡ false
        → let o = set_unix_time c unix_time from t hw in
          o.accepted ≡ true
          → ((o.clock_moved ≡ true) ⊎ (source_to_byte from < source_to_byte t.source))
          → held o.hardware ≡ unix_time
    unfolding set_unix_time repeat_time move_time is_plausible
    set_unix_time_reaches_ds1307 unix_time from t hw p f a m = ground (
      arith,
      correct_ds1307_held unix_time (get_unix_time c hw).1,
      correct_ds1307_held unix_time (rtc_set_time unix_time (get_unix_time c hw).1).1,
    )
