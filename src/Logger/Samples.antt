-- ===== src/Logger/Samples.antt =====
-- What TaskLogger offers to sdWriteQueue, which may refuse it: a SYS record a second, without drift.
use boredom_os.Prelude.{
  ℕ, zero, suc, ◌+◌, ◌*◌, ◌/◌, ◌≤◌, ◌≡◌, refl, some, List, arith, u32, uint32_max, ◌∙◌, length, All,
}
use boredom_os.SystemTime.{SystemTime}
use boredom_os.Dataflash.{sys_bytes}
use boredom_os.Download.Serving.{SdRecord, record_bytes}
use boredom_os.Logger.{LoggerBoard, State, sample, pass, passes}

-- A record that, if the queue takes it, the card's task writes as this many bytes.
abbrev pub WritesBytes : ℕ → SdRecord → Type 0
WritesBytes n posted = (bytes : List ℕ) × ((record_bytes posted ≡ some bytes) × (length bytes ≡ n))

steps :
    (last next n increment : ℕ)
    → next ≡ u32 (last + increment)
    → u32 (next + n * increment) ≡ u32 (last + suc n * increment)
steps last next n increment h =
    let more : suc n * increment ≡ increment + n * increment = ground arith in omega arith

module _ (b : LoggerBoard)
    (delay_law : (last increment : ℕ) (hw : b.clocks.Hardware)
      → (b.delay_until last increment hw).0 ≡ u32 (last + increment)) where
  -- With a `vTaskDelayUntil` that moves the wake time on by its increment, any number of passes
  -- offers as many records, whether or not the queue takes them, each of 27 bytes, and the last wake
  -- is that number of seconds after the start, in 32-bit ticks: what a pass takes does not add up.
  pub passes_lem :
      (n : ℕ) (time : SystemTime) (s : State b)
      → s.last_wake_time ≤ uint32_max
      → All (WritesBytes 27) s.posted
      → let after = passes b n time s in
        (length after.posted ≡ length s.posted + n)
        × (after.last_wake_time ≡ u32 (s.last_wake_time + n * (1000 / b.tick_period_ms)))
        × All (WritesBytes 27) after.posted
  unfolding passes pass record_bytes
  passes_lem zero time s h all = (ground arith, ground arith, all)
  passes_lem (suc n) time s h all =
      let s' = pass b time s in
      let (values, hw) = sample b time s.hardware in
      let moved =
        delay_law s.last_wake_time (1000 / b.tick_period_ms) (b.sd_send (SdRecord.sys values) hw) in
      let (posted, woken, all') =
        passes_lem n time s' (omega (arith, moved)) ((sys_bytes values, (refl, refl)), all) in
      (
        ground arith,
        woken ∙ steps s.last_wake_time s'.last_wake_time n (1000 / b.tick_period_ms) moved,
        all',
      )
