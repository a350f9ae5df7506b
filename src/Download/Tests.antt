-- ===== src/Download/Tests.antt =====
-- Runs of a download and a listing on a small card, and the theorems at concrete inputs.
use boredom_os.Prelude.{
  ℕ, ◌+◌, ◌≤◌, ◌≡◌, inr, ◌≢◌, refl, true, false, none, some, List, [], ◌∷◌, ◌++◌, arith, leb,
  if◌then◌else◌, length, take, drop, replicate,
}
use boredom_os.SdData.{log_file, SdData, new_log, write, write_open, open_next_slot, notify_opened}
use boredom_os.SdData.Disk.{Disk, disk, put, blank}
use boredom_os.Recovery.{ResetReason, BootPhase}
use boredom_os.Dataflash.{Opening, write_log_preamble}
use boredom_os.Download.{
  port_at, LogListing, LogStream, LogRequest, Reader, Downloads, start_stream, slot_size,
  slot_file_name, slot_time_utc,
}
use boredom_os.Download.Chunks.{Delivers, serve}
use boredom_os.Download.Answers.{request_lem}
use boredom_os.Download.Times.{joined, slot_time_utc-write_log_preamble}
use boredom_os.Download.Serving.{
  SdRecord, record_bytes, pwr, Task, write_record, chosen_port, reads_slot,
}
use boredom_os.Download.Turns.{write_record_lem}

record Handle : Type 0 where
  bytes : List ℕ
  position : ℕ

abbrev reader : Reader disk
reader = record {
  Handle = Handle;
  open_read = λ name w. elim (w.files name) [
    | none ↦ none
    | some bytes ↦ some (record { bytes = bytes; position = 0 })
  ];
  seek = λ p h. (
    leb p (length h.bytes),
    record h { position = if leb p (length h.bytes) then p else h.position },
  );
  read = λ n h w.
      let got = take n (drop h.position h.bytes) in
      (some got, record h { position = h.position + length got });
}

abbrev idle_listing : LogListing
idle_listing = record { active = false; start = 0; end = 0; next_slot = 0 }

abbrev idle_stream : LogStream
idle_stream = record {
  active = false;
  absent = false;
  slot = none;
  id = 0;
  pos = 0;
  end = 0;
  to_file_end = false;
  sent_any = false;
  last_count = 0;
}

abbrev idle : Downloads Handle
idle = record {
  listings = record { uart = idle_listing; usb = idle_listing };
  streams = record { uart = idle_stream; usb = idle_stream };
  reader = none;
  reader_port = none;
}

abbrev bytes91 : List ℕ
bytes91 = replicate 91 7

abbrev card91 : Disk
card91 = put (log_file 0) (some bytes91) blank

-- Log 1, whole.
abbrev whole : LogRequest
whole = record { ofs = 0; count = 4294967295; start = 1; end = 1; port = 0 }

abbrev handle91 : Handle
handle91 = record { bytes = bytes91; position = 0 }

seeks : (p : ℕ) (h : Handle) → p ≤ length h.bytes → (reader.seek p h).1.position ≡ p
seeks p h le = ground arith

size91 : slot_size disk reader 0 card91 ≡ 91
unfolding slot_size slot_file_name
size91 = refl

open91 : reader.open_read (slot_file_name 0) card91 ≡ some handle91
unfolding slot_file_name
open91 = refl

-- The port that asks already downloads the log, and holds the handle.
abbrev downloading : Downloads Handle
downloading = record idle { reader = some handle91; reader_port = some 0 }

request_lem_example :
    Delivers 1 0
      (serve disk reader
        (λ h. h.bytes)
        (λ h. h.position)
        (λ n h w. refl)
        (λ n h w. refl)
        (λ n h w. refl)
        3
        0
        (start_stream disk reader 3 whole downloading card91)
        card91).0
      (take 4294967295 (drop 0 bytes91))
request_lem_example =
    (request_lem disk reader (λ h. h.bytes) (λ h. h.position) (λ n h w. refl) (λ n h w. refl)
      (λ n h w. refl) (λ p h. refl) seeks 3 3 0 handle91 whole downloading card91 refl (omega arith)
      size91 (omega arith) (omega arith) (inr refl) open91 (omega arith)).1

-- A boot from the ground's clock, after a power-on.
abbrev first_opening : Opening
first_opening = record {
  since_boot_usec = 5000000;
  unix_time = 1767225600;
  source = 0;
  since_boot_usec_again = 5000100;
  previous_reset_reason = ResetReason.power_on;
  previous_boot_phase = BootPhase.start;
  previous_fault_task = [];
  consecutive_count = 0;
  cumulative_count = 0;
}

abbrev opened_file : List ℕ
opened_file = joined (write_log_preamble first_opening) ++ (1 ∷ 2 ∷ [])

abbrev opened_card : Disk
opened_card = put (log_file 0) (some opened_file) blank

opens :
    reader.open_read (slot_file_name 0) opened_card
    ≡ some (record { bytes = opened_file; position = 0 })
unfolding slot_file_name
opens = refl

seeks_there :
    (p : ℕ) (h : Handle)
    → p ≤ length h.bytes
    → ((reader.seek p h).0 ≡ true) × ((reader.seek p h).1.position ≡ p)
seeks_there p h le = ground arith

slot_time_utc-write_log_preamble_example : slot_time_utc disk reader 0 opened_card ≡ 1767225600
slot_time_utc-write_log_preamble_example =
    slot_time_utc-write_log_preamble disk reader (λ h. h.bytes) (λ h. h.position) (λ n h w. refl)
      (λ p h. refl) seeks_there 0 (record { bytes = opened_file; position = 0 }) opened_card
      first_opening (1 ∷ 2 ∷ []) opens refl

-- A log whose open file is full after the next record, and a download of the slot after it.
abbrev full_log : SdData disk
full_log = record (new_log disk 3 4) { data_file = some (log_file 0) }

abbrev reading_next : LogStream
reading_next = record idle_stream { active = true; slot = some 1; id = 2; end = 4 }

abbrev task : Task disk reader
task = record {
  log = full_log;
  downloads = record idle { streams = record { uart = reading_next; usb = reading_next } };
  next_port = 0;
  world = blank;
}

abbrev power : SdRecord
power = pwr (record { time_us = 1; millivolts = 5000; remaining = 90 })

rotates : (write_record disk reader power task).1.log.file_idx ≡ 1
unfolding write_record record_bytes write write_open new_log open_next_slot notify_opened
rotates = refl

moved : (write_record disk reader power task).1.log.file_idx ≢ task.log.file_idx
unfolding new_log
moved same = absurd (omega (arith, rotates, same))

write_record_lem_example :
    let t' = (write_record disk reader power task).1 in
    (reads_slot t'.log.file_idx (port_at 0 t'.downloads.streams) ≡ false)
    × (reads_slot t'.log.file_idx (port_at 1 t'.downloads.streams) ≡ false)
write_record_lem_example = write_record_lem disk reader power task moved

chosen : chosen_port disk reader (λ port. true) task ≡ some 0
unfolding chosen_port
chosen = refl
