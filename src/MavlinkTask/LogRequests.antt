-- ===== src/MavlinkTask/LogRequests.antt =====
-- A log request from the ground, through TaskMavlink and, where there is a card, through
-- TaskSdWrite.
use boredom_os.Prelude.{
  ℕ, ◌-◌, ◌≤◌, ◌≡◌, true, false, ◌∷◌, arith, ltb, sym, ap, subst, if◌then◌else◌, replicate,
}
use boredom_os.SdData.{Card}
use boredom_os.Download.{
  log_entry, log_data, log_data_chunk, LogRequest, LogStream, Reader, port_at, port_at-set_port,
  post_log_data, start_stream, new_stream, end_stream,
}
use boredom_os.Download.Serving.{SdRecord, Task, handle_record}
use boredom_os.MavlinkTask.{
  Intent, log_request_list, log_request_data, log_request_end, Board, Config, has_sd_write, State,
  enqueue_intent, post_record,
}
use boredom_os.MavlinkTask.Sends.{send_no_logs, send_no_log_data, forward_log_request}
use boredom_os.MavlinkTask.Handlers.{
  handle_inbound, handle_log_list, handle_log_data, handle_log_end,
}

module _ (b : Board) (config : Config) where
  open b use {sd_spaces}

  -- Without a task that writes the card, every request is answered at once on its own port and none
  -- is forwarded: a list with an entry of no logs, data with a message of no bytes at the offset
  -- that was asked for, and an end with nothing.
  pub without_card :
      (now port start end id ofs count : ℕ) (s : State b)
      → has_sd_write config ≡ false
      → let listed = handle_inbound b config now port (log_request_list start end) s in
        let read = handle_inbound b config now port (log_request_data id ofs count) s in
        (listed.offered ≡ (port, Intent.log (log_entry 0 0 0 0 0)) ∷ s.offered)
        × (listed.records ≡ s.records)
        × (read.offered
            ≡ (port, Intent.log (log_data id ofs 0 (replicate log_data_chunk 0))) ∷ s.offered)
        × (read.records ≡ s.records)
        × (handle_inbound b config now port log_request_end s ≡ s)
  unfolding handle_inbound handle_log_list handle_log_data handle_log_end send_no_logs
      send_no_log_data enqueue_intent post_log_data
  without_card now port start end id ofs count s h =
      (ground arith, ground arith, ground arith, ground arith, ground arith)

  module _ (c : Card) (r : Reader c) where
    new_stream_bound :
        (files : ℕ) (request : LogRequest) (w : c.World)
        → (new_stream c r files request w).end - request.ofs ≤ request.count
    unfolding new_stream
    new_stream_bound files request w = ground arith

    -- With one, a request for data offers nothing itself. It is dropped while fewer than two places
    -- of the card's queue are free; else it is posted, and the task that takes it from there,
    -- whatever it was doing, has a stream on the port that asked, of the id and from the offset
    -- that were asked for, to at most the count.
    pub with_card :
        (now port id ofs count : ℕ) (s : State b) (t : Task c r)
        → has_sd_write config ≡ true
        → let read = handle_inbound b config now port (log_request_data id ofs count) s in
          let request : LogRequest = record {
            ofs = ofs;
            count = count;
            start = id;
            end = 0;
            port = port;
          } in
          let stream =
            port_at port (handle_record c r (SdRecord.log_read request) t).1.downloads.streams in
          (read.offered ≡ s.offered)
          × (read.records ≡ (
              if ltb (sd_spaces s.hardware).0 2
              then s.records
              else SdRecord.log_read request ∷ s.records))
          × (stream.active ≡ true)
          × (stream.id ≡ id)
          × (stream.pos ≡ ofs)
          × (stream.end - ofs ≤ count)
    unfolding handle_inbound handle_log_data forward_log_request post_record handle_record
        start_stream new_stream
    with_card now port id ofs count s t h =
        let request : LogRequest = record {
          ofs = ofs;
          count = count;
          start = id;
          end = 0;
          port = port;
        } in
        let d = end_stream port t.downloads in
        let stream = new_stream c r t.log.files request t.world in
        let started = port_at-set_port port stream d.streams in
        (
          ground arith,
          ground arith,
          ap (λ (x : LogStream). x.active) started,
          ap (λ (x : LogStream). x.id) started,
          ap (λ (x : LogStream). x.pos) started,
          subst (λ (x : LogStream). x.end - ofs ≤ count) (sym started)
              (new_stream_bound t.log.files request t.world),
        )
