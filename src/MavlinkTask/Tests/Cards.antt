-- ===== src/MavlinkTask/Tests/Cards.antt =====
-- The bench with a card's task, and after a boot.
use mathlib.Core.List.{Perm}
use boredom_os.Boot.{uart_read, ResetFlags, setup, tasks_created}
use boredom_os.Mavlink.{next_housekeeping_value, housekeeping_tries}
use boredom_os.MavlinkTask.Handles.{config_after, has_handle}
use boredom_os.Mavlink.{housekeeping_heap_slots}
use boredom_os.MavlinkTask.Naming.{told_apart}
use boredom_os.MavlinkTask.Packing.{mavlink_pack, packed_intent, packed_named_value_int}
use boredom_os.MavlinkTask.Rotation.{
  Reading, taken_of, message, quantities, pulses, rotation, rotation_lem, heap_free, heap_min,
  stack_of,
}
use boredom_os.Prelude.{
  ℕ, ◌+◌, ◌≡◌, refl, true, false, none, List, [], ◌∷◌, ◌++◌, arith, length, map,
}
use boredom_os.SdData.{new_log}
use boredom_os.SdData.Disk.{Disk, disk}
use boredom_os.Download.{LogListing, LogStream, Reader}
use boredom_os.Download.Serving.{Task}
use boredom_os.MavlinkTask.{log_request_data}
use boredom_os.MavlinkTask.Handlers.{handle_inbound}
use boredom_os.MavlinkTask.LogRequests.{with_card}
use boredom_os.MavlinkTask.Bench.{bench, config, blank, started}

-- A card with no file.
abbrev reader : Reader disk
reader = record {
  Handle = ℕ;
  open_read = λ name w. none;
  seek = λ p h. (true, p);
  read = λ n h w. (none, h);
}

abbrev idle_stream : LogStream
idle_stream = record {
  active = false;
  absent = false;
  slot = none;
  id = 0;
  pos = 0;
  end = 0;
  to_file_end = false;
  sent_any = false;
  last_count = 0;
}

abbrev idle_listing : LogListing
idle_listing = record { active = false; start = 0; end = 0; next_slot = 0 }

abbrev no_files : Disk
no_files = record { files = λ name. none; unsynced = λ name. 0 }

abbrev card_task : Task disk reader
card_task = record {
  log = new_log disk 3 4;
  downloads = record {
    listings = record { uart = idle_listing; usb = idle_listing };
    streams = record { uart = idle_stream; usb = idle_stream };
    reader = none;
    reader_port = none;
  };
  next_port = 0;
  world = no_files;
}

with_card_example :
    (handle_inbound bench config 6000 1 (log_request_data 2 90 500) started).offered ≡ []
with_card_example = (with_card bench config disk reader 6000 1 2 90 500 started card_task refl).0

abbrev power_on_flags : ResetFlags
power_on_flags = record {
  porf = true;
  lvd0rf = false;
  lvd1rf = false;
  lvd2rf = false;
  dpsrstf = false;
  iwdtrf = false;
  wdtrf = false;
  swrf = false;
  cwsf = false;
}

rotation_lem_example :
    let report = setup true power_on_flags blank in
    let t = pulses bench (config_after report) (2 + length report.tasks) 1 started in
    (readings : List (Reading bench (config_after report))) × (t.offered
      ≡ map (message bench (config_after report) 1) readings ++ started.offered)
    × Perm (taken_of bench (config_after report) readings) (quantities report.tasks)
rotation_lem_example = rotation_lem true power_on_flags blank bench 1 started (omega arith)

-- The third value is the first task's, in the table's order.
third_value :
    rotation 3 (has_handle (tasks_created true true)) 0
    ≡ heap_free ∷ heap_min ∷ stack_of uart_read ∷ []
unfolding rotation next_housekeeping_value housekeeping_tries
third_value = refl

-- The same slot on both ports, at two times.
told_apart_example : housekeeping_heap_slots + 1 ≡ 3
unfolding mavlink_pack packed_intent packed_named_value_int
told_apart_example =
    told_apart config blank blank 7 8 0 1 (housekeeping_heap_slots + 1) 3 5 9 (omega arith)
      (omega arith) refl
