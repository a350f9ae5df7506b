-- ===== src/Download.antt =====
-- src/sdwrite.cpp, downloading the log over MAVLink: listings, streams of LOG_DATA, the queue's
-- records.
--
-- The calls of the SD library are `Card`'s, with a handle for reading in `Reader`. What a function
-- puts on a port's write queue is returned, in order. Ports are 0 and 1, slots are below 128.
mod State
pub mod Starts
pub mod Answers
pub mod Chunks
pub mod Delivery
pub mod Times
pub mod Serving
pub mod Turns
mod Tests
pub use State.*
use boredom_os.Prelude.{
  ℕ, zero, suc, ◌+◌, ◌-◌, ◌*◌, ◌/◌, ◌%◌, ◌^◌, ◌≤◌, ◌<◌, min, ◌≡◌, ◌≢◌, ◌↔◌, refl, Bool, true, false,
  not, ◌&&◌, ◌||◌, Option, none, some, List, [], ◌∷◌, ◌++◌, map, arith, u8, u16, u32, u64, sub_u32,
  uint16_max, uint32_max, ◌==◌, ltb, leb, ◌∙◌, sym, ap, subst, fun_ext, ◌⊎◌, inl, inr,
  if◌then◌else◌, Bool-cases, Option-cases, ==_iff, ltb→lt, lt→ltb, leb→le, le→leb, codes, length,
  get_elem?, get_or, take, drop, replicate, length-append, length-take, length-drop,
  length-replicate, All,
}
use boredom_os.SdData.{Card, FileName, log_file, SdData, int_of_bytes, write}
use boredom_os.Dataflash.{
  head1, head2, msg_time, preamble, LogSys, sys_bytes, LogPwr, pwr_bytes, LogTime, time_bytes,
}
use boredom_os.SystemTime.{Source, source_to_byte}

pub slot_file_name : ℕ → FileName
slot_file_name slot = log_file slot

abbrev pub holds_reader : Option ℕ → ℕ → Bool
holds_reader none port = false
holds_reader (some p) port = p == port

-- `data[90]`, zeroed and then read into.
abbrev pub data_field : List ℕ → List ℕ
data_field bytes = bytes ++ replicate (log_data_chunk - length bytes) 0

-- Whether the 16 bytes at the head are a TIME record that knows the time, and what it says.
pub head_time : List ℕ → ℕ
head_time bytes =
    if not (get_or bytes 0 0 == head1)
      || not (get_or bytes 1 0 == head2)
      || not (get_or bytes 2 0 == msg_time)
      || get_or bytes 15 0 == source_to_byte Source.none
    then 0
    else int_of_bytes (take 4 (drop 11 bytes))

-- `postLogData`.
unfoldable pub post_log_data : ℕ → ℕ → List ℕ → Msg
post_log_data id ofs bytes = log_data id ofs (length bytes) (data_field bytes)

-- The state after `startListing`.
pub start_listing : {Handle : Type 0} → LogRequest → Downloads Handle → Downloads Handle
start_listing request d = record d {
  listings =
      set_port request.port
        (record { active = true; start = request.start; end = request.end; next_slot = 0 })
        d.listings;
}

pub close_reader : {Handle : Type 0} → Downloads Handle → Downloads Handle
close_reader d = record d { reader = none; reader_port = none }

unfoldable pub end_stream : {Handle : Type 0} → ℕ → Downloads Handle → Downloads Handle
unfolding close_reader
end_stream port d =
    let stream = record (port_at port d.streams) { active = false } in
    let d = record d { streams = set_port port stream d.streams } in
    if holds_reader d.reader_port port then close_reader d else d

pub download_work_pending : {Handle : Type 0} → Downloads Handle → Bool
download_work_pending d =
    (d.listings.uart.active || d.streams.uart.active)
    || (d.listings.usb.active || d.streams.usb.active)

module _ (c : Card) (r : Reader c) where
  open c use {World, exists, read_size}
  open r use {Handle, open_read, seek, read}

  pub slot_size : ℕ → World → ℕ
  slot_size slot w =
      let name = slot_file_name slot in
      if not (exists name w) then 0 else elim (read_size name w) [ none ↦ 0 | some size ↦ u32 size ]

  pub slot_time_utc : ℕ → World → ℕ
  slot_time_utc slot w = elim (open_read (slot_file_name slot) w) [
    | none ↦ 0
    | some file ↦
        let (sought, file) = seek head_time_offset file in
        let (got, file) = read 16 file w in
        elim got [
          | none ↦ 0
          | some bytes ↦ if sought && (length bytes == 16) then head_time bytes else 0
        ]
  ]

  -- The slot of an id, `(int)id - 1`.
  abbrev pub slot_of_id : ℕ → Option ℕ
  slot_of_id zero = none
  slot_of_id (suc slot) = some slot

  abbrev pub requested_size : ℕ → Option ℕ → World → ℕ
  requested_size file_count none w = 0
  requested_size file_count (some slot) w = if ltb slot file_count then slot_size slot w else 0

  -- The stream that a request starts, without what is left of an earlier one.
  unfoldable pub new_stream : ℕ → LogRequest → World → LogStream
  new_stream file_count request w =
      let slot = slot_of_id request.start in
      let size = requested_size file_count slot w in
      let available = if ltb request.ofs size then size - request.ofs else 0 in
      let to_file_end = leb available request.count in
      record {
        active = true;
        absent = size == 0;
        slot = slot;
        id = request.start;
        pos = request.ofs;
        end = if to_file_end then size else request.ofs + request.count;
        to_file_end = to_file_end;
        sent_any = false;
        last_count = 0;
      }

  unfoldable pub start_stream : ℕ → LogRequest → Downloads Handle → World → Downloads Handle
  unfolding new_stream
  start_stream file_count request d w =
      let d = end_stream request.port d in
      record d { streams = set_port request.port (new_stream file_count request w) d.streams }

  -- The count of logs and the last one's id, over `slots` slots from `slot` on.
  pub count_logs : ℕ → ℕ → ℕ × ℕ → World → ℕ × ℕ
  count_logs zero slot so_far w = so_far
  count_logs (suc slots) slot (num_logs, last_log_num) w =
      let so_far =
        if exists (slot_file_name slot) w
        then (u16 (num_logs + 1), u16 (slot + 1))
        else (num_logs, last_log_num) in
      count_logs slots (slot + 1) so_far w

  -- The search of `serviceListing`: the first slot from `slot` on that the range and the card have.
  pub next_listed : ℕ → ℕ → LogListing → World → Option (ℕ × ℕ)
  next_listed zero slot listing w = none
  next_listed (suc slots) slot listing w =
      let rest = next_listed slots (slot + 1) listing w in
      let id = u16 (slot + 1) in
      let size = slot_size slot w in
      if ltb id listing.start || ltb listing.end id
      then rest
      else if size == 0
      then rest
      else some (slot, size)

  -- One LOG_ENTRY, or none and the listing's end.
  pub service_listing : ℕ → ℕ → Downloads Handle → World → List Msg × Downloads Handle
  service_listing file_count port d w =
      let listing = port_at port d.listings in
      let (num_logs, last_log_num) = count_logs file_count 0 (0, 0) w in
      elim (next_listed (file_count - listing.next_slot) listing.next_slot listing w) [
        | none ↦
            let next = if ltb listing.next_slot file_count then file_count else listing.next_slot in
            let listing = record listing { next_slot = next; active = false } in
            ([], record d { listings = set_port port listing d.listings })
        | some (slot, size) ↦
            let entry =
              log_entry (u16 (slot + 1)) num_logs last_log_num (slot_time_utc slot w) size in
            let listing = record listing { next_slot = slot + 1 } in
            (entry ∷ [], record d { listings = set_port port listing d.listings })
      ]

  -- The end of `serviceStream`: one chunk from the handle that the port holds.
  pub send_chunk : ℕ → Handle → Downloads Handle → World → List Msg × Downloads Handle
  send_chunk port file d w =
      let stream = port_at port d.streams in
      let (got, file) = read (min (stream.end - stream.pos) log_data_chunk) file w in
      let d = record d { reader = some file; reader_port = some port } in
      elim got [
        | none ↦ ([], end_stream port d)
        | some bytes ↦
            if length bytes == 0
            then ([], end_stream port d)
            else let sent = record stream {
              pos = u32 (stream.pos + length bytes);
              sent_any = true;
              last_count = u8 (length bytes);
            } in
              (
                log_data stream.id stream.pos (u8 (length bytes)) (data_field bytes) ∷ [],
                record d { streams = set_port port sent d.streams },
              )
      ]

  -- `SD.open(slotFileName(stream.slot), FILE_READ)`, for a stream that is not absent.
  abbrev pub open_slot : Option ℕ → World → Option Handle
  open_slot none w = none
  open_slot (some slot) w = open_read (slot_file_name slot) w

  -- `serviceStream` for an id that names no file.
  pub answer_absent : ℕ → Downloads Handle → List Msg × Downloads Handle
  answer_absent port d =
      let stream = port_at port d.streams in
      let ended = record stream { active = false } in
      (
        post_log_data stream.id stream.pos [] ∷ [],
        record d { streams = set_port port ended d.streams },
      )

  -- `serviceStream` at the end of the range.
  pub finish_stream : ℕ → Downloads Handle → List Msg × Downloads Handle
  finish_stream port d =
      let stream = port_at port d.streams in
      let signal =
        stream.to_file_end && (not stream.sent_any || stream.last_count == log_data_chunk) in
      (if signal then post_log_data stream.id stream.pos [] ∷ [] else [], end_stream port d)

  -- `serviceStream` within the range: the handle is the port's, is taken, or is another port's.
  pub read_stream : ℕ → Downloads Handle → World → List Msg × Downloads Handle
  unfolding send_chunk
  read_stream port d w =
      let stream = port_at port d.streams in
      if holds_reader d.reader_port port
      then elim d.reader [ none ↦ ([], end_stream port d) | some file ↦ send_chunk port file d w ]
      else elim d.reader_port [
        | some other ↦ ([], d)
        | none ↦ elim (open_slot stream.slot w) [
          | none ↦ ([], end_stream port (record d { reader = none }))
          | some file ↦ send_chunk port (seek stream.pos file).1 d w
        ]
      ]

  pub service_stream : ℕ → Downloads Handle → World → List Msg × Downloads Handle
  service_stream port d w =
      let stream = port_at port d.streams in
      if stream.absent
      then answer_absent port d
      else if leb stream.end stream.pos
      then finish_stream port d
      else read_stream port d w
