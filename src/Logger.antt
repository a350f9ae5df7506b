-- ===== src/Logger.antt =====
-- src/logger.cpp, TaskLogger: the log's SYS record, once a second.
--
-- The calls of the system are `LoggerBoard`'s, on the hardware of the clocks, each of which may
-- change it. The fault injection, which no build has unless it is asked for by hand, is in
-- Hooks.Injection.
pub mod Samples
mod Tests
use boredom_os.Prelude.{
  ℕ, zero, suc, ◌+◌, ◌-◌, ◌*◌, ◌/◌, ◌%◌, ◌^◌, ◌≤◌, ◌<◌, min, ◌≡◌, ◌≢◌, ◌↔◌, refl, Bool, true, false,
  not, ◌&&◌, ◌||◌, Option, none, some, List, [], ◌∷◌, ◌++◌, map, arith, u8, u16, u32, u64, sub_u32,
  uint16_max, uint32_max, ◌==◌, ltb, leb, ◌∙◌, sym, ap, subst, fun_ext, ◌⊎◌, inl, inr,
  if◌then◌else◌, Bool-cases, Option-cases, ==_iff, ltb→lt, lt→ltb, leb→le, le→leb, take-take,
  drop-take, drop-drop, take-append, drop-append, codes, length, get_elem?, get_or, take, drop,
  replicate, length-append, length-take, length-drop, length-replicate, All,
}
use boredom_os.SystemTime.{Clocks, SystemTime, since_boot_usec}
use boredom_os.Dataflash.{LogSys, Stacks}
use boredom_os.Download.Serving.{SdRecord}

pub data Handle : Type 0 where
  logger sd_write mavlink uart_read uart_write usb_read usb_write : Handle

pub record LoggerBoard : Type 1 where
  pub clocks : Clocks
  pub free_heap : clocks.Hardware → ℕ × clocks.Hardware
  -- `uxTaskGetStackHighWaterMark`.
  pub high_water : Handle → clocks.Hardware → ℕ × clocks.Hardware
  -- `xQueueSend` on sdWriteQueue, which may refuse.
  pub sd_send : SdRecord → clocks.Hardware → clocks.Hardware
  pub tick_count : clocks.Hardware → ℕ × clocks.Hardware
  pub tick_period_ms : ℕ
  -- `vTaskDelayUntil`: the wake time that it leaves, from the one it was given and the increment.
  pub delay_until : ℕ → ℕ → clocks.Hardware → ℕ × clocks.Hardware

module _ (b : LoggerBoard) where
  open b use {clocks, free_heap, high_water, sd_send, tick_count, tick_period_ms, delay_until}

  -- `posted`: what was offered to sdWriteQueue, the latest first.
  pub record State : Type 0 where
    pub last_wake_time : ℕ
    pub hardware : clocks.Hardware
    pub posted : List SdRecord

  -- `(uint16_t)uxTaskGetStackHighWaterMark(handle)`.
  abbrev pub mark : Handle → clocks.Hardware → ℕ × clocks.Hardware
  mark handle hw = let (words, hw) = high_water handle hw in (u16 words, hw)

  -- The record, in the order of the calls.
  unfoldable pub sample : SystemTime → clocks.Hardware → LogSys × clocks.Hardware
  sample time hw =
      let (time_us, hw) = since_boot_usec clocks time hw in
      let (heap, hw) = free_heap hw in
      let (log, hw) = mark logger hw in
      let (sdw, hw) = mark sd_write hw in
      let (mav, hw) = mark mavlink hw in
      let (urd, hw) = mark uart_read hw in
      let (uwr, hw) = mark uart_write hw in
      let (srd, hw) = mark usb_read hw in
      let (swr, hw) = mark usb_write hw in
      (
        record {
          time_us = time_us;
          heap_free = u16 heap;
          stacks = record {
            logger = log;
            sd_write = sdw;
            mavlink = mav;
            uart_read = urd;
            uart_write = uwr;
            usb_read = srd;
            usb_write = swr;
          };
        },
        hw,
      )

  unfoldable pub start_task : clocks.Hardware → State
  start_task hw =
      let (ticks, hw) = tick_count hw in
      record { last_wake_time = ticks; hardware = hw; posted = [] }

  -- A pass of the loop: sample, post, and sleep until a second after the last wake.
  unfoldable pub pass : SystemTime → State → State
  unfolding sample
  pass time s =
      let (values, hw) = sample time s.hardware in
      let hw = sd_send (SdRecord.sys values) hw in
      let (wake, hw) = delay_until s.last_wake_time (1000 / tick_period_ms) hw in
      record { last_wake_time = wake; hardware = hw; posted = SdRecord.sys values ∷ s.posted }

  unfoldable pub passes : ℕ → SystemTime → State → State
  unfolding pass
  passes zero time s = s
  passes (suc n) time s = passes n time (pass time s)
