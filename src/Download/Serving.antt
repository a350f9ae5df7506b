-- ===== src/Download/Serving.antt =====
-- src/sdwrite.cpp, the task: the records of sdWriteQueue in order, then one piece of download work.
use boredom_os.Prelude.{
  ℕ, ◌+◌, ◌%◌, Bool, false, not, ◌&&◌, ◌||◌, Option, none, some, List, [], ◌∷◌, ◌++◌, map, ◌==◌,
  if◌then◌else◌,
}
use boredom_os.SdData.{Card, SdData, write}
use boredom_os.Dataflash.{LogSys, sys_bytes, LogPwr, pwr_bytes, LogTime, time_bytes}
use boredom_os.Download.{
  Msg, port_at, LogStream, LogRequest, Reader, Downloads, post_log_data, end_stream, start_listing,
  start_stream, service_listing, service_stream,
}

-- An SdRecord: a log record's values, or a request. `other` is any other kind.
pub data SdRecord : Type 0 where
  sys : LogSys → SdRecord
  pwr : LogPwr → SdRecord
  time : LogTime → SdRecord
  log_list : LogRequest → SdRecord
  log_read : LogRequest → SdRecord
  log_end : LogRequest → SdRecord
  other : SdRecord

-- The bytes that `writeRecord` writes: none for a kind that is not a log record.
unfoldable pub record_bytes : SdRecord → Option (List ℕ)
record_bytes (sys r) = some (sys_bytes r)
record_bytes (pwr r) = some (pwr_bytes r)
record_bytes (time r) = some (time_bytes r)
record_bytes _ = none

abbrev pub is_slot : Option ℕ → ℕ → Bool
is_slot none after = false
is_slot (some slot) after = slot == after

-- Whether the port's download is of the slot that was just deleted.
abbrev pub reads_slot : ℕ → LogStream → Bool
reads_slot after stream = stream.active && (not stream.absent && is_slot stream.slot after)

-- The end of one port's download of the slot that a rotation moved into.
unfoldable pub end_rotated :
    {Handle : Type 0} → ℕ → ℕ → Downloads Handle → List (ℕ × Msg) × Downloads Handle
end_rotated after port d =
    let stream = port_at port d.streams in
    if reads_slot after stream
    then ((port, post_log_data stream.id stream.pos []) ∷ [], end_stream port d)
    else ([], d)

-- What is kept between two passes, with the log and the card.
module _ (c : Card) (r : Reader c) where
  open c use {World}
  open r use {Handle}

  pub record Task : Type 0 where
    pub log : SdData c
    pub downloads : Downloads Handle
    pub next_port : ℕ
    pub world : World

  unfoldable pub write_record : SdRecord → Task → List (ℕ × Msg) × Task
  unfolding end_rotated
  write_record incoming t = elim (record_bytes incoming) [
    | none ↦ ([], t)
    | some bytes ↦
        let before = t.log.file_idx in
        let (log, w) = write c (some bytes) t.log t.world in
        let (uart, d) = end_rotated log.file_idx 0 t.downloads in
        let (usb, d') = end_rotated log.file_idx 1 d in
        if log.file_idx == before
        then ([], record t { log = log; world = w })
        else (uart ++ usb, record t { log = log; world = w; downloads = d' })
  ]

  -- The switch of the task on a record's kind.
  unfoldable pub handle_record : SdRecord → Task → List (ℕ × Msg) × Task
  handle_record (log_list request) t =
      ([], record t { downloads = start_listing request t.downloads })
  handle_record (log_read request) t =
      ([], record t { downloads = start_stream c r t.log.files request t.downloads t.world })
  handle_record (log_end request) t =
      ([], record t { downloads = end_stream request.port t.downloads })
  handle_record incoming t = write_record incoming t

  -- All that the queue holds, in order.
  unfoldable pub drain : List SdRecord → Task → List (ℕ × Msg) × Task
  drain [] t = ([], t)
  drain (incoming ∷ rest) t =
      let (ms, t') = handle_record incoming t in
      let (more, t'') = drain rest t' in (ms ++ more, t'')

  abbrev pub has_work : ℕ → Downloads Handle → Bool
  has_work port d = (port_at port d.listings).active || (port_at port d.streams).active

  -- One piece of work for a port.
  unfoldable pub serve_port : ℕ → Task → List (ℕ × Msg) × Task
  serve_port port t =
      let (ms, d) =
        if (port_at port t.downloads.listings).active
        then service_listing c r t.log.files port t.downloads t.world
        else service_stream c r port t.downloads t.world in
      (map (λ m. (port, m)) ms, record t { downloads = d; next_port = (port + 1) % 2 })

  -- The port that a pass serves: the next one, or the one after it.
  unfoldable pub chosen_port : (ℕ → Bool) → Task → Option ℕ
  chosen_port has_room t =
      let first = (t.next_port + 0) % 2 in
      let second = (t.next_port + 1) % 2 in
      if has_work first t.downloads && has_room first
      then some first
      else if has_work second t.downloads && has_room second
      then some second
      else none

  -- A pass of the task: the queue's records, then one piece of work for a port that has room.
  unfoldable pub pass : List SdRecord → (ℕ → Bool) → Task → List (ℕ × Msg) × Task
  pass queue has_room t =
      let (ms, t') = drain queue t in
      elim (chosen_port has_room t') [
        | none ↦ (ms, t')
        | some port ↦ let (more, t'') = serve_port port t' in (ms ++ more, t'')
      ]
