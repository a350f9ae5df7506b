-- ===== src/MavlinkTask/Steps.antt =====
-- What holds of a state through the functions of src/mavlink.cpp that offer messages, post records
-- and set the clock.
use boredom_os.Prelude.{
  ℕ, ◌+◌, ◌/◌, ◌≡◌, refl, Bool, true, false, not, ◌&&◌, ◌||◌, arith, u32, sub_u32, ◌==◌, leb, inl,
  inr, if◌then◌else◌, Bool-cases,
}
use boredom_os.SystemTime.{
  SystemTime, Source, source_to_byte, set_unix_time, usec_per_sec, since_boot_nsec, push_to_ds1307,
  reseed_from_ds1307,
}
use boredom_os.Download.{LogRequest}
use boredom_os.Download.Serving.{SdRecord}
use boredom_os.MavlinkTask.{Intent, Board, Config, has_sd_write, State, enqueue_intent, Inbound}
use boredom_os.MavlinkTask.Sends.{
  send_clock_status_text, log_clock, log_battery, send_status_text, send_mission_count,
  send_no_logs, send_no_log_data, forward_log_request,
}
use boredom_os.MavlinkTask.Handlers.{
  handle_inbound, handle_system_time, handle_timesync, handle_log_list, handle_log_data,
  handle_log_end, report_clock,
}
use boredom_os.MavlinkTask.Passes.{
  reconcile_clocks, reconcile, sample_battery, battery_log_interval_ms, clock_reseed_interval_ms,
}
use boredom_os.MavlinkTask.Frames.{
  if_lem, acks, OnlyOffers, OnlyPosts, send_clock_status_text-OnlyOffers, log_clock-OnlyPosts,
  log_battery-OnlyPosts, forward_log_request-OnlyPosts,
}

abbrev pub is_command : Inbound → Bool
is_command (Inbound.command_long command) = true
is_command _ = false

-- A predicate that messages other than acknowledgements, records and the clock leave as it is.
pub record Stable (b : Board) (config : Config) (P : State b → Type 0) : Type 0 where
  pub offers : (s s' : State b) → OnlyOffers b config s s' → P s → P s'
  pub posts : (s s' : State b) → OnlyPosts b config s s' → P s → P s'
  pub clock :
      (s : State b) (time : SystemTime) (hw : b.clocks.Hardware)
      (last_reseed_ms last_battery_log_ms : ℕ)
      → P s
      → P (record s {
        time = time;
        hardware = hw;
        last_reseed_ms = last_reseed_ms;
        last_battery_log_ms = last_battery_log_ms;
      })

module _ (b : Board) (config : Config) (P : State b → Type 0) (stable : Stable b config P) where
  open b use {clocks}
  open stable use {offers, posts, clock}

  log_list-stable :
      (port start end : ℕ) (s : State b) → P s → P (handle_log_list b config port start end s)
  unfolding handle_log_list send_no_logs enqueue_intent acks
  log_list-stable port start end s p =
      let request : LogRequest = record {
        ofs = 0;
        count = 0;
        start = start;
        end = end;
        port = port;
      } in
      let none_held = send_no_logs b config port s in
      let forwarded = forward_log_request b config SdRecord.log_list request s in
      if_lem b config P (not (has_sd_write config)) none_held forwarded
        (offers s none_held (refl, refl, refl) p)
        (posts s forwarded (forward_log_request-OnlyPosts b config SdRecord.log_list request s) p)

  log_data-stable :
      (port id ofs count : ℕ) (s : State b) → P s → P (handle_log_data b config port id ofs count s)
  unfolding handle_log_data send_no_log_data enqueue_intent acks
  log_data-stable port id ofs count s p =
      let request : LogRequest = record {
        ofs = ofs;
        count = count;
        start = id;
        end = 0;
        port = port;
      } in
      let none_held = send_no_log_data b config port id ofs s in
      let forwarded = forward_log_request b config SdRecord.log_read request s in
      if_lem b config P (not (has_sd_write config)) none_held forwarded
        (offers s none_held (refl, refl, refl) p)
        (posts s forwarded (forward_log_request-OnlyPosts b config SdRecord.log_read request s) p)

  log_end-stable : (port : ℕ) (s : State b) → P s → P (handle_log_end b config port s)
  unfolding handle_log_end
  log_end-stable port s p =
      let request : LogRequest = record { ofs = 0; count = 0; start = 0; end = 0; port = port } in
      let forwarded = forward_log_request b config SdRecord.log_end request s in
      if_lem b config P (has_sd_write config) forwarded s
        (posts s forwarded (forward_log_request-OnlyPosts b config SdRecord.log_end request s) p) p

  log_clock_if-stable :
      (test : Bool) (s : State b) → P s → P (if test then log_clock b config s else s)
  log_clock_if-stable test s p =
      if_lem b config P test (log_clock b config s) s
        (posts s (log_clock b config s) (log_clock-OnlyPosts b config s) p) p

  text_if-stable :
      (test : Bool) (s : State b) → P s → P (if test then send_clock_status_text b config s else s)
  text_if-stable test s p =
      let told = send_clock_status_text b config s in
      if_lem b config P test told s (offers s told (send_clock_status_text-OnlyOffers b config s) p)
        p

  report_clock-stable :
      (moved changed : Bool) (s : State b) → P s → P (report_clock b config moved changed s)
  unfolding report_clock
  report_clock-stable moved changed s p =
      text_if-stable changed (if moved || changed then log_clock b config s else s)
        (log_clock_if-stable (moved || changed) s p)

  system_time-stable :
      (time_unix_usec : ℕ) (s : State b) → P s → P (handle_system_time b config time_unix_usec s)
  unfolding handle_system_time
  system_time-stable time_unix_usec s p =
      let o =
        set_unix_time clocks (time_unix_usec / usec_per_sec) Source.ground s.time s.hardware in
      let s' = record s { time = o.time; hardware = o.hardware } in
      let p' : P s' = clock s o.time o.hardware s.last_reseed_ms s.last_battery_log_ms p in
      let changed = not (source_to_byte s'.time.source == source_to_byte s.time.source) in
      if_lem b config P o.accepted (report_clock b config o.clock_moved changed s') s'
        (report_clock-stable o.clock_moved changed s' p') p'

  timesync-stable :
      (port tc1 ts1 target_system target_component : ℕ) (s : State b)
      → P s
      → P (handle_timesync b config port tc1 ts1 target_system target_component s)
  unfolding handle_timesync enqueue_intent acks
  timesync-stable port tc1 ts1 target_system target_component s p =
      let (nsec, hw) = since_boot_nsec clocks s.time s.hardware in
      let reply = Intent.timesync_reply nsec ts1 target_system target_component in
      let replied = enqueue_intent b port reply (record s { hardware = hw }) in
      if_lem b config P (tc1 == 0) replied s (offers s replied (refl, refl, refl) p) p

  -- A message that is not a command.
  pub handle_inbound-stable :
      (now port : ℕ) (incoming : Inbound) (s : State b)
      → is_command incoming ≡ false
      → P s
      → P (handle_inbound b config now port incoming s)
  unfolding handle_inbound send_mission_count send_status_text enqueue_intent acks
  handle_inbound-stable now port (Inbound.command_long command) s e p = ground arith
  handle_inbound-stable now port (Inbound.mission_request_list sysid compid mission_type) s e p =
      offers s (send_mission_count b config port sysid compid mission_type s) (refl, refl, refl) p
  handle_inbound-stable now port (Inbound.log_request_list start end) s e p =
      log_list-stable port start end s p
  handle_inbound-stable now port (Inbound.log_request_data id ofs count) s e p =
      log_data-stable port id ofs count s p
  handle_inbound-stable now port Inbound.log_request_end s e p = log_end-stable port s p
  handle_inbound-stable now port (Inbound.system_time time_unix_usec) s e p =
      system_time-stable time_unix_usec s p
  handle_inbound-stable now port (Inbound.timesync tc1 ts1 target_system target_component) s e p =
      timesync-stable port tc1 ts1 target_system target_component s p
  handle_inbound-stable now port (Inbound.other msgid) s e p =
      offers s (handle_inbound b config now port (Inbound.other msgid) s) (refl, refl, refl) p
  handle_inbound-stable now port _ s e p = p

  reconcile-stable : (s : State b) → P s → P (reconcile b config s).2
  unfolding reconcile
  reconcile-stable s p =
      let (pushed, hw) = push_to_ds1307 clocks s.time s.hardware in
      let o = reseed_from_ds1307 clocks s.time s.hardware in
      let written : P (record s { hardware = hw }) =
        clock s s.time hw s.last_reseed_ms s.last_battery_log_ms p in
      let seeded : P (record s { time = o.time; hardware = o.hardware }) =
        clock s o.time o.hardware s.last_reseed_ms s.last_battery_log_ms p in
      elim (Bool-cases (source_to_byte s.time.source == 0)) [
        | inl t ↦ rw (t) written
        | inr f ↦ rw (f) seeded
      ]

  -- What a pass does before it waits.
  pub reconcile_clocks-stable : (now : ℕ) (s : State b) → P s → P (reconcile_clocks b config now s)
  unfolding reconcile_clocks
  reconcile_clocks-stable now s p =
      let reseeded = u32 (s.last_reseed_ms + clock_reseed_interval_ms) in
      let s1 = record s { last_reseed_ms = reseeded } in
      let (reconciled, moved, s2) = reconcile b config s1 in
      let p2 : P s2 =
        reconcile-stable s1 (clock s s.time s.hardware reseeded s.last_battery_log_ms p) in
      let changed =
        reconciled && not (source_to_byte s2.time.source == source_to_byte s1.time.source) in
      let s3 = if changed then send_clock_status_text b config s2 else s2 in
      let s4 = if moved || changed then log_clock b config s3 else s3 in
      if_lem b config P (not (leb clock_reseed_interval_ms (sub_u32 now s.last_reseed_ms))) s s4 p
        (log_clock_if-stable (moved || changed) s3 (text_if-stable changed s2 p2))

  pub sample_battery-stable : (now : ℕ) (s : State b) → P s → P (sample_battery b config now s)
  unfolding sample_battery
  sample_battery-stable now s p =
      let sampled = u32 (s.last_battery_log_ms + battery_log_interval_ms) in
      let s1 = record s { last_battery_log_ms = sampled } in
      if_lem b config P
        (not config.reduced_configuration
          && leb battery_log_interval_ms (sub_u32 now s.last_battery_log_ms))
        (log_battery b config s1) s
        (posts s1 (log_battery b config s1) (log_battery-OnlyPosts b config s1)
          (clock s s.time s.hardware s.last_reseed_ms sampled p))
        p
