-- ===== src/Queues/Room.antt =====
-- The room that the log protocol leaves in a port's write queue, and the message that takes more.
use boredom_os.Prelude.{
  ℕ, zero, suc, ◌+◌, ◌-◌, ◌≤◌, ◌<◌, ◌≡◌, ◌≢◌, refl, true, some, List, [], ◌∷◌, ◌++◌, arith, ap,
  length, ◌∙◌, ◌==◌, ==_iff, inl, inr, Bool-cases,
}
use boredom_os.SdData.{Card, write}
use boredom_os.Download.{Msg, port_at, port_at-set_port, Reader, post_log_data}
use boredom_os.Download.Serving.{
  SdRecord, sys, pwr, time, log_list, log_read, log_end, other, record_bytes, reads_slot,
  end_rotated, Task, handle_record, write_record,
}
use boredom_os.Mavlink.{enqueue_write}
use boredom_os.MavlinkTask.{Intent}
use boredom_os.Queues.{Fifo, write_queue_depth, count_logs, count_logs-append}
use boredom_os.Queues.Steps.{
  Shared, created, offer, handle_next, post_next, handles, posts, Reach, here, next,
}
use boredom_os.Queues.Pacing.{logs_in, created-Paced, Reach-Paced}

module _ (f : Fifo Intent) (c : Card) (r : Reader c) where
  -- From the start on, whatever the tasks do and however they preempt one another: the messages of
  -- the log protocol in a port's queue are at most two, and one more for each message by which a
  -- record ended a download of that port.
  pub log_messages_bound :
      (port : ℕ) (task : Task c r) (s : Shared f c r)
      → Reach f c r (created f c r task) s
      → logs_in f (port_at port s.queues) ≤ 2 + port_at port s.ended
  log_messages_bound zero task s steps =
      let (uart, usb) = Reach-Paced f c r (created-Paced f c r task) steps in omega (arith, uart.1)
  log_messages_bound (suc port) task s steps =
      let (uart, usb) = Reach-Paced f c r (created-Paced f c r task) steps in omega (arith, usb.1)

  depth_lem :
      (port : ℕ) (task : Task c r) (s : Shared f c r)
      → Reach f c r (created f c r task) s
      → f.depth (port_at port s.queues) ≡ write_queue_depth
  depth_lem zero task s steps = (Reach-Paced f c r (created-Paced f c r task) steps).0.0
  depth_lem (suc port) task s steps = (Reach-Paced f c r (created-Paced f c r task) steps).1.0

  -- The other messages in a port's queue.
  abbrev pub others_in : f.Queue → ℕ
  others_in q = length (f.items q) - logs_in f q

  -- From the start on, whatever the tasks do: while at most six other messages wait for a port, and
  -- no record has ended a download of it, a message that TaskMavlink offers to it is taken and not
  -- counted as refused; and with each such end there is one place less.
  pub offer_lem :
      (port : ℕ) (intent : Intent) (task : Task c r) (s : Shared f c r)
      → Reach f c r (created f c r task) s
      → others_in (port_at port s.queues) + port_at port s.ended < 7
      → let after = offer f c r port intent s in
        (f.items (port_at port after.queues) ≡ f.items (port_at port s.queues) ++ intent ∷ [])
        × (port_at port after.write_drop_count ≡ port_at port s.write_drop_count)
  unfolding offer enqueue_write
  offer_lem port intent task s steps few =
      let q = port_at port s.queues in
      let bound = log_messages_bound port task s steps in
      let depth = depth_lem port task s steps in
      let (passed, more, _) = f.send_room intent q (omega (arith, bound, depth, few)) in
      let (sent, queue) = f.send intent q in
      (
        ap f.items (port_at-set_port port queue s.queues) ∙ more,
        port_at-set_port port _ s.write_drop_count ∙ rw passed refl,
      )

  -- A record is written, not answered.
  record_is_written :
      (incoming : SdRecord) (bytes : List ℕ) (t : Task c r)
      → record_bytes incoming ≡ some bytes
      → handle_record c r incoming t ≡ write_record c r incoming t
  unfolding record_bytes handle_record
  record_is_written (sys x) bytes t e = refl
  record_is_written (pwr x) bytes t e = refl
  record_is_written (time x) bytes t e = refl
  record_is_written (log_list x) bytes t e = cc
  record_is_written (log_read x) bytes t e = cc
  record_is_written (log_end x) bytes t e = cc
  record_is_written other bytes t e = cc

  -- What ends the download of the first port.
  ends_first :
      (incoming : SdRecord) (bytes : List ℕ) (t : Task c r)
      → record_bytes incoming ≡ some bytes
      → let log = (write c (some bytes) t.log t.world).0 in
        log.file_idx ≢ t.log.file_idx
        → reads_slot log.file_idx t.downloads.streams.uart ≡ true
        → (rest : List (ℕ × Msg)) × ((handle_record c r incoming t).0
            ≡ (0, post_log_data t.downloads.streams.uart.id t.downloads.streams.uart.pos []) ∷ rest)
  unfolding write_record end_rotated
  ends_first incoming bytes t e moved reads =
      let (log, w) = write c (some bytes) t.log t.world in
      let stream = t.downloads.streams.uart in
      let usb = (end_rotated log.file_idx 1 (end_rotated log.file_idx 0 t.downloads).1).0 in
      let first : (end_rotated log.file_idx 0 t.downloads).0
          ≡ (0, post_log_data stream.id stream.pos []) ∷ [] =
        rw (end_rotated, reads) refl in
      elim (Bool-cases (log.file_idx == t.log.file_idx)) [
        | inl same ↦ absurd (moved ((==_iff log.file_idx t.log.file_idx).0 same))
        | inr differs ↦ (
          usb,
          ap (λ p. p.0) (record_is_written incoming bytes t e)
              ∙ rw (write_record, e, differs) (ap (λ ms. ms ++ usb) first),
        )
      ]

  -- A record whose write moves the log into the slot that the first port downloads puts a message
  -- of the log protocol on that port's queue, however many already wait, as long as it is not full:
  -- where two of them wait, there are then three.
  pub ending_is_unpaced :
      (incoming : SdRecord) (bytes : List ℕ) (s : Shared f c r)
      → s.posting ≡ []
      → record_bytes incoming ≡ some bytes
      → (write c (some bytes) s.task.log s.task.world).0.file_idx ≢ s.task.log.file_idx
      → reads_slot
          (write c (some bytes) s.task.log s.task.world).0.file_idx
          s.task.downloads.streams.uart
        ≡ true
      → length (f.items s.queues.uart) < f.depth s.queues.uart
      → (t : Shared f c r) × Reach f c r s t
        × (logs_in f t.queues.uart ≡ logs_in f s.queues.uart + 1)
  unfolding handle_next post_next
  ending_is_unpaced incoming bytes s idle e moved reads room =
      let (rest, ending) = ends_first incoming bytes s.task e moved reads in
      let stream = s.task.downloads.streams.uart in
      let m = post_log_data stream.id stream.pos [] in
      let handled = handle_next f c r incoming s in
      let (_, more, _) = f.send_room (Intent.log m) s.queues.uart room in
      (
        post_next f c r 0 m rest handled,
        next (next here (handles s incoming idle)) (posts handled 0 m rest ending),
        ap count_logs more ∙ count_logs-append (f.items s.queues.uart) (Intent.log m ∷ []),
      )
