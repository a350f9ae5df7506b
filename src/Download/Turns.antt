-- ===== src/Download/Turns.antt =====
-- A rotation ends the downloads of the slot it deletes; the ports take turns.
use boredom_os.Prelude.{
  ℕ, ◌+◌, ◌≤◌, length, ◌%◌, ◌≡◌, ◌≢◌, refl, Bool, true, false, some, arith, ◌==◌, inl, inr,
  Bool-cases, Option-cases, ==_iff,
}
use boredom_os.SdData.{Card, write}
use boredom_os.Download.{
  port_at, Reader, Downloads, end_stream, service_listing, service_stream, answer_absent,
  finish_stream, read_stream, send_chunk,
}
use boredom_os.Download.Serving.{
  SdRecord, record_bytes, reads_slot, end_rotated, Task, write_record, has_work, serve_port,
  chosen_port,
}

module _ {Handle : Type 0} where
  end_rotated_first :
      (after : ℕ) (d : Downloads Handle)
      → reads_slot after (port_at 0 (end_rotated after 0 d).1.streams) ≡ false
  unfolding end_rotated end_stream
  end_rotated_first after d = ground arith

  end_rotated_second :
      (after : ℕ) (d : Downloads Handle)
      → let d' = (end_rotated after 1 d).1 in
        (reads_slot after (port_at 1 d'.streams) ≡ false)
        × (port_at 0 d'.streams ≡ port_at 0 d.streams)
  unfolding end_rotated end_stream
  end_rotated_second after d = ground arith

module _ (c : Card) (r : Reader c) where
  -- After a record whose write rotated the log, no port downloads the slot that the log moved into.
  pub write_record_lem :
      (incoming : SdRecord) (t : Task c r)
      → let t' = (write_record c r incoming t).1 in
        t'.log.file_idx ≢ t.log.file_idx
        → (reads_slot t'.log.file_idx (port_at 0 t'.downloads.streams) ≡ false)
          × (reads_slot t'.log.file_idx (port_at 1 t'.downloads.streams) ≡ false)
  unfolding write_record
  write_record_lem incoming t moved = elim (Option-cases (record_bytes incoming)) [
    | inl e ↦ absurd (moved (rw (write_record, e) refl))
    | inr (bytes, e) ↦
        let (log, w) = write c (some bytes) t.log t.world in
        let d = (end_rotated log.file_idx 0 t.downloads).1 in
        let first = end_rotated_first log.file_idx t.downloads in
        let second = end_rotated_second log.file_idx d in
        elim (Bool-cases (log.file_idx == t.log.file_idx)) [
          | inl f ↦
              absurd (moved (rw (write_record, e, f) ((==_iff log.file_idx t.log.file_idx).0 f)))
          | inr f ↦ rw (write_record, e, f) (rw (second.1) first, second.0)
        ]
  ]

  -- The port that a pass did not serve is the one that the next pass serves, if it then has work and
  -- room; a pass serves only a port that has both.
  pub chosen_port_lem :
      (has_room : ℕ → Bool) (t : Task c r) (port : ℕ)
      → chosen_port c r has_room t ≡ some port
      → let t' = (serve_port c r port t).1 in
        let other = (port + 1) % 2 in
        (has_work c r port t.downloads ≡ true)
        × (has_room port ≡ true)
        × (has_work c r other t'.downloads ≡ true
            → has_room other ≡ true
            → chosen_port c r has_room t' ≡ some other)
  unfolding chosen_port serve_port
  chosen_port_lem has_room t port chosen = ground arith

  -- A port's piece of work is one message at most.
  pub service_stream_one :
      (port : ℕ) (d : Downloads r.Handle) (w : c.World) → length (service_stream c r port d w).0 ≤ 1
  unfolding service_stream answer_absent finish_stream read_stream send_chunk
  service_stream_one port d w = ground arith

  pub service_listing_one :
      (files port : ℕ) (d : Downloads r.Handle) (w : c.World)
      → length (service_listing c r files port d w).0 ≤ 1
  unfolding service_listing
  service_listing_one files port d w = ground arith
