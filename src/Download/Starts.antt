-- ===== src/Download/Starts.antt =====
-- The stream that a request starts, and its first pass, in src/sdwrite.cpp.
use boredom_os.Prelude.{
  ℕ, suc, ◌-◌, ◌≤◌, ◌<◌, min, ◌≡◌, ◌⊎◌, inl, inr, ◌==◌, refl, true, false, none, some, List, arith,
  ◌==◌, leb, ◌∙◌, sym, ap, inl, inr, take_all, leb_cases, length, take, drop, length-drop,
}
use boredom_os.SdData.{Card}
use boredom_os.Download.{
  port_at, port_at-set_port, LogStream, LogRequest, Reader, Downloads, slot_of_id, requested_size,
  end_stream, close_reader, send_chunk, read_stream, service_stream, slot_size, slot_file_name,
  new_stream, start_stream,
}

module _ (c : Card) (r : Reader c) where
  open c use {World}
  open r use {Handle, open_read, seek}

  -- What a request for an existing slot starts: the range, cut at the file's end.
  unfoldable pub Starts : LogRequest → ℕ → ℕ → LogStream → Type 0
  Starts request slot size stream =
      (stream.active ≡ true)
      × (stream.absent ≡ false)
      × (stream.slot ≡ some slot)
      × (stream.id ≡ request.start)
      × (stream.pos ≡ request.ofs)
      × (stream.sent_any ≡ false)
      × (stream.last_count ≡ 0)
      × (stream.end ≤ size)
      × (stream.end - stream.pos ≡ min request.count (size - request.ofs))
      × (stream.to_file_end ≡ leb (size - request.ofs) request.count)

  pub new_stream-Starts :
      (file_count slot : ℕ) (request : LogRequest) (w : World)
      → request.start ≡ suc slot
      → slot < file_count
      → 0 < slot_size c r slot w
      → Starts request slot (slot_size c r slot w) (new_stream c r file_count request w)
  unfolding Starts new_stream
  new_stream-Starts file_count slot request w start known some_bytes =
      let e : requested_size c r file_count (slot_of_id c r request.start) w
          ≡ slot_size c r slot w =
        rw (start) (ground arith) in
      (
        refl,
        rw (e) (ground arith),
        rw (start) refl,
        refl,
        refl,
        refl,
        refl,
        rw (e) (ground arith),
        rw (e) (ground arith),
        rw (e) (ground arith),
      )

  -- The first pass of a stream opens its file: it is a pass with the handle open and in place.
  pub serve_open :
      (port slot : ℕ) (file : Handle) (d : Downloads Handle) (w : World)
      → let stream = port_at port d.streams in
        stream.absent ≡ false
        → stream.slot ≡ some slot
        → stream.pos < stream.end
        → d.reader_port ≡ none
        → open_read (slot_file_name slot) w ≡ some file
        → let opened = record d {
          reader = some (seek stream.pos file).1;
          reader_port = some port;
        } in
          service_stream c r port d w ≡ service_stream c r port opened w
  unfolding service_stream read_stream send_chunk
  serve_open port slot file d w present at more free opens =
      let stream = port_at port d.streams in
      let going : leb stream.end stream.pos ≡ false = ground arith in
      let same : (port == port) ≡ true = ground arith in
      rw (service_stream, present, going, read_stream, free, at, opens, same) refl

  pub start_stream_lem :
      (file_count : ℕ) (request : LogRequest) (d : Downloads Handle) (w : World)
      → ((d.reader_port ≡ none) ⊎ (d.reader_port ≡ some request.port))
      → let d' = start_stream c r file_count request d w in
        (port_at request.port d'.streams ≡ new_stream c r file_count request w)
        × (d'.reader_port ≡ none)
  unfolding start_stream end_stream close_reader
  start_stream_lem file_count request d w (inl free) =
      (port_at-set_port request.port _ _, rw (free) refl)
  start_stream_lem file_count request d w (inr own) =
      let same : (request.port == request.port) ≡ true = ground arith in
      (port_at-set_port request.port _ _, rw (own, same) refl)

pub range_bytes :
    (end pos count : ℕ) (bytes : List ℕ)
    → end - pos ≡ min count (length bytes - pos)
    → take (end - pos) (drop pos bytes) ≡ take count (drop pos bytes)
range_bytes end pos count bytes e = elim (leb_cases count (length bytes - pos)) [
  | inl within ↦ let f : end - pos ≡ count = omega arith in ap (λ n. take n (drop pos bytes)) f
  | inr past ↦
      let n = length-drop pos bytes in
      take_all (end - pos) (drop pos bytes) (omega (arith, n, e, past))
      ∙ sym (take_all count (drop pos bytes) (omega (arith, n, past)))
]
