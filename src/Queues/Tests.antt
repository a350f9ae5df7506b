-- ===== src/Queues/Tests.antt =====
-- Lists as queues, and the theorems on runs of them.
use boredom_os.Prelude.{
  ℕ, ◌+◌, ◌-◌, ◌≤◌, ◌<◌, ◌≡◌, ◌≢◌, refl, Bool, true, false, Option, none, some, List, [], ◌∷◌, ◌++◌,
  arith, ltb, drop, if◌then◌else◌, length,
}
use boredom_os.SdData.{log_file, new_log, write, write_open, open_next_slot, notify_opened}
use boredom_os.SdData.Disk.{disk, blank}
use boredom_os.Dataflash.{pwr_bytes}
use boredom_os.Download.{Msg, LogListing, LogStream, Reader, post_log_data, end_stream}
use boredom_os.Download.Serving.{
  SdRecord, pwr, log_read, record_bytes, Task, handle_record, write_record, reads_slot, end_rotated,
}
use boredom_os.MavlinkTask.{Intent, heartbeat}
use boredom_os.Queues.{Fifo, sd_write_queue_depth, request_has_room}
use boredom_os.Queues.Steps.{
  Shared, created, offer, handle_next, post_next, offers, handles, posts, Reach, here, next,
}
use boredom_os.Queues.Pacing.{logs_in}
use boredom_os.Queues.Room.{log_messages_bound, offer_lem}
use boredom_os.Queues.Requests.{count_requests, forward, start, step, forwards, record_is_taken}

-- A queue as the list of its items, with its length.
record Listed (A : Type 0) : Type 0 where
  held : List A
  length_given : ℕ

module _ {A : Type 0} where
  first : List A → Option A
  first [] = none
  first (x ∷ xs) = some x

  abbrev listed_send : A → Listed A → Bool × Listed A
  listed_send a q =
      if ltb (length q.held) q.length_given
      then (true, record q { held = q.held ++ a ∷ [] })
      else (false, q)

  abbrev listed_receive : Listed A → Option A × Listed A
  listed_receive q = (first q.held, record q { held = drop 1 q.held })

  send_room_lem :
      (a : A) (q : Listed A)
      → length q.held < q.length_given
      → ((listed_send a q).0 ≡ true)
        × ((listed_send a q).1.held ≡ q.held ++ a ∷ [])
        × ((listed_send a q).1.length_given ≡ q.length_given)
  send_room_lem a q h = ground arith

  send_full_lem :
      (a : A) (q : Listed A)
      → q.length_given ≤ length q.held
      → ((listed_send a q).0 ≡ false)
        × ((listed_send a q).1.held ≡ q.held)
        × ((listed_send a q).1.length_given ≡ q.length_given)
  send_full_lem a q h = ground arith

  receive_none_lem :
      (q : Listed A) → q.held ≡ [] → ((listed_receive q).0 ≡ none) × ((listed_receive q).1 ≡ q)
  unfolding first
  receive_none_lem q e = ground arith

  receive_some_lem :
      (q : Listed A) (a : A) (rest : List A)
      → q.held ≡ a ∷ rest
      → ((listed_receive q).0 ≡ some a)
        × ((listed_receive q).1.held ≡ rest)
        × ((listed_receive q).1.length_given ≡ q.length_given)
  unfolding first
  receive_some_lem q a rest e = ground arith

abbrev listed : (A : Type 0) → Fifo A
listed A = record {
  Queue = Listed A;
  create = λ n. record { held = []; length_given = n };
  send = listed_send;
  receive = listed_receive;
  messages_waiting = λ q. length q.held;
  spaces_available = λ q. q.length_given - length q.held;
  items = λ q. q.held;
  depth = λ q. q.length_given;
  items_create = λ n. refl;
  depth_create = λ n. refl;
  send_room = send_room_lem;
  send_full = send_full_lem;
  receive_none = receive_none_lem;
  receive_some = receive_some_lem;
  waiting_items = λ q. refl;
  spaces_items = λ q. refl;
}

-- A card with nothing on it.
record Handle : Type 0 where
  position : ℕ

abbrev reader : Reader disk
reader = record {
  Handle = Handle;
  open_read = λ name w. none;
  seek = λ p h. (true, record h { position = p });
  read = λ n h w. (some [], h);
}

abbrev idle_listing : LogListing
idle_listing = record { active = false; start = 0; end = 0; next_slot = 0 }

-- A download of the slot after the one that the log writes.
abbrev reading_next : LogStream
reading_next = record {
  active = true;
  absent = false;
  slot = some 1;
  id = 2;
  pos = 0;
  end = 4;
  to_file_end = false;
  sent_any = false;
  last_count = 0;
}

abbrev task : Task disk reader
task = record {
  log = record (new_log disk 3 4) { data_file = some (log_file 0) };
  downloads = record {
    listings = record { uart = idle_listing; usb = idle_listing };
    streams = record { uart = reading_next; usb = reading_next };
    reader = none;
    reader_port = none;
  };
  next_port = 0;
  world = blank;
}

abbrev power : SdRecord
power = pwr (record { time_us = 1; millivolts = 5000; remaining = 90 })

abbrev ending : Msg
ending = post_log_data 2 0 []

abbrev at_start : Shared (listed Intent) disk reader
at_start = created (listed Intent) disk reader task

abbrev offered : Shared (listed Intent) disk reader
offered = offer (listed Intent) disk reader 0 heartbeat at_start

abbrev handled : Shared (listed Intent) disk reader
handled = handle_next (listed Intent) disk reader power offered

-- A record that rotates the log ends both downloads.
both_end : handled.posting ≡ (0, ending) ∷ (1, ending) ∷ []
unfolding handle_next offer created handle_record write_record record_bytes write write_open new_log
    open_next_slot notify_opened end_rotated end_stream
both_end = refl

abbrev posted : Shared (listed Intent) disk reader
posted = post_next (listed Intent) disk reader 0 ending ((1, ending) ∷ []) handled

idle : offered.posting ≡ []
unfolding offer created
idle = refl

one_posted : Reach (listed Intent) disk reader at_start posted
one_posted =
    next (next (next here (offers at_start 0 heartbeat refl)) (handles offered power idle))
      (posts handled 0 ending ((1, ending) ∷ []) both_end)

log_messages_bound_example : logs_in (listed Intent) posted.queues.uart ≤ 2 + posted.ended.uart
log_messages_bound_example = log_messages_bound (listed Intent) disk reader 0 task posted one_posted

few :
    length offered.queues.usb.held - logs_in (listed Intent) offered.queues.usb + offered.ended.usb
    < 7
unfolding offer created
few = omega arith

offer_lem_example :
    (offer (listed Intent) disk reader 1 heartbeat offered).queues.usb.held
    ≡ offered.queues.usb.held ++ heartbeat ∷ []
offer_lem_example =
    (offer_lem (listed Intent) disk reader 1 heartbeat task offered
      (next here (offers at_start 0 heartbeat refl)) few).0

-- Two chunks wait for the first port, and the log is about to rotate into the slot that it
-- downloads.
abbrev crowded : Shared (listed Intent) disk reader
crowded = record at_start {
  queues = record {
    uart = record { held = Intent.log ending ∷ Intent.log ending ∷ []; length_given = 9 };
    usb = record { held = []; length_given = 9 };
  };
}

crowded_held : logs_in (listed Intent) crowded.queues.uart ≡ 2
crowded_held = refl

power_bytes : List ℕ
power_bytes = pwr_bytes (record { time_us = 1; millivolts = 5000; remaining = 90 })

rotates : (write disk (some power_bytes) task.log task.world).0.file_idx ≡ 1
unfolding power_bytes write write_open new_log open_next_slot notify_opened
rotates = refl

moved :
    (write disk (some power_bytes) crowded.task.log crowded.task.world).0.file_idx
    ≢ crowded.task.log.file_idx
unfolding created new_log
moved same = absurd (omega (arith, rotates, same))

reads :
    reads_slot
      (write disk (some power_bytes) crowded.task.log crowded.task.world).0.file_idx
      crowded.task.downloads.streams.uart
    ≡ true
unfolding created power_bytes write write_open new_log open_next_slot notify_opened
reads = refl

abbrev request : SdRecord
request = log_read (record { ofs = 0; count = 90; start = 1; end = 0; port = 0 })

abbrev asked : Listed SdRecord
asked = forward (listed SdRecord) request ((listed SdRecord).create sd_write_queue_depth)

only_requests : length asked.held ≡ count_requests asked.held
unfolding forward request_has_room
only_requests = refl

record_is_taken_example : (listed_send power asked).0 ≡ true
record_is_taken_example =
    (record_is_taken (listed SdRecord) asked power
      (step start (forwards ((listed SdRecord).create sd_write_queue_depth) request))
      only_requests).0
