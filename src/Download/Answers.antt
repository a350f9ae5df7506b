-- ===== src/Download/Answers.antt =====
-- From a request to its answer: the stream that it starts, and all that the port sends for it.
use boredom_os.Prelude.{
  ℕ, zero, suc, ◌+◌, ◌-◌, ◌*◌, ◌^◌, ◌≤◌, ◌<◌, min, ◌≡◌, ◌⊎◌, refl, Bool, true, false, none, some,
  List, arith, leb, ◌∙◌, sym, subst, inl, inr, append_nil, leb_cases, length, take, drop, All,
}
use boredom_os.SdData.{Card}
use boredom_os.Download.{
  Msg, port_at, LogStream, LogRequest, Reader, Downloads, log_data_chunk, finish_stream, slot_size,
  slot_file_name, start_stream,
}
use boredom_os.Download.Chunks.{Delivers, final_count, Carries, Serving, serve, service_stream_end}
use boredom_os.Download.Delivery.{
  Outcome, Outcome-inactive, finish_stream-Outcome, serve_inactive, serve-Outcome,
}
use boredom_os.Download.Starts.{
  Starts, new_stream-Starts, serve_open, start_stream_lem, range_bytes,
}

module _ (c : Card) (r : Reader c) (content : r.Handle → List ℕ) (position : r.Handle → ℕ)
    (read_law : (n : ℕ) (h : r.Handle) (w : c.World)
      → (r.read n h w).0 ≡ some (take n (drop (position h) (content h))))
    (content_law : (n : ℕ) (h : r.Handle) (w : c.World) → content (r.read n h w).1 ≡ content h)
    (position_law : (n : ℕ) (h : r.Handle) (w : c.World)
      → position (r.read n h w).1 ≡ position h + length (take n (drop (position h) (content h))))
    (seek_content_law : (p : ℕ) (h : r.Handle) → content (r.seek p h).1 ≡ content h)
    (seek_law : (p : ℕ) (h : r.Handle) → p ≤ length (content h) → position (r.seek p h).1 ≡ p) where
  open c use {World}
  open r use {Handle, open_read, seek}

  same-Outcome :
      (stream : LogStream) (file file' : Handle) (x : List Msg × Bool)
      → content file' ≡ content file
      → Outcome c r content position read_law content_law position_law stream file' x
      → Outcome c r content position read_law content_law position_law stream file x
  unfolding Outcome
  same-Outcome stream file file' x same o = (
    o.0,
    subst
        (λ bytes.
          Delivers stream.id stream.pos x.0
            (take (stream.end - stream.pos) (drop stream.pos bytes)))
        same o.1,
    o.2,
    o.3,
  )

  -- A stream that was just started, whose handle is not open yet.
  Started : ℕ → ℕ → Handle → Downloads Handle → World → Type 0
  Started port slot file d w =
      let stream = port_at port d.streams in
      (stream.active ≡ true)
      × (stream.absent ≡ false)
      × (stream.slot ≡ some slot)
      × (stream.end ≤ length (content file))
      × (stream.end < 2 ^ 32)
      × (stream.last_count ≡ 0)
      × (d.reader_port ≡ none)
      × (open_read (slot_file_name slot) w ≡ some file)

  Started-Outcome :
      (passes port slot : ℕ) (file : Handle) (d : Downloads Handle) (w : World)
      → Started port slot file d w
      → let stream = port_at port d.streams in
        stream.end - stream.pos + log_data_chunk ≤ passes * log_data_chunk
        → let (ms, d') =
            serve c r content position read_law content_law position_law passes port d w in
          Outcome c r content position read_law content_law position_law stream file
            (ms, (port_at port d'.streams).active)
  unfolding Started Serving serve
  Started-Outcome zero port slot file d w s enough = absurd (omega arith)
  Started-Outcome (suc passes) port slot file d w s enough =
      let stream = port_at port d.streams in
      elim (leb_cases stream.end stream.pos) [
        | inl done ↦
            let e =
              service_stream_end c r content position read_law content_law position_law port d w s.1
                done in
            let o =
              finish_stream-Outcome c r content position read_law content_law position_law port file
                d done (omega (arith, s.5)) in
            let off =
              Outcome-inactive c r content position read_law content_law position_law stream file _
                _ o in
            let (ms, d') = finish_stream c r port d in
            rw
              (
                s.0,
                e,
                serve_inactive c r content position read_law content_law position_law passes port d'
                    w off,
                append_nil ms,
              )
              o
        | inr more ↦
            let sought = (seek stream.pos file).1 in
            let opened = record d { reader = some sought; reader_port = some port } in
            let same = seek_content_law stream.pos file in
            let placed = seek_law stream.pos file (omega (arith, s.3)) in
            let le : stream.end ≤ length (content sought) = rw (same) s.3 in
            let o =
              serve-Outcome c r content position read_law content_law position_law (suc passes) port
                sought opened w (s.0, s.1, le, s.4, placed, refl, refl) (omega (arith, s.5))
                enough in
            rw (s.0, serve_open c r port slot file d w s.1 s.2 more s.6 s.7)
              (same-Outcome stream file sought _ same (rw (s.0) at o))
      ]

  -- A request for an existing log is answered in full, if no other port holds the handle, the file
  -- opens and has fewer than 2 ^ 32 bytes, the card does not change, and the handle seeks and
  -- reads as documented: within as many passes as the range needs the stream ends, and its
  -- messages carry the requested bytes, cut at the file's end, in order and in chunks of at most
  -- 90. If the range reaches the file's end, the last chunk is shorter than 90; if it does not, no
  -- chunk is empty.
  pub request_lem :
      (passes file_count slot : ℕ) (file : Handle) (request : LogRequest) (d : Downloads Handle)
      (w : World)
      → request.start ≡ suc slot
      → slot < file_count
      → slot_size c r slot w ≡ length (content file)
      → 0 < length (content file)
      → length (content file) < 2 ^ 32
      → ((d.reader_port ≡ none) ⊎ (d.reader_port ≡ some request.port))
      → open_read (slot_file_name slot) w ≡ some file
      → min request.count (length (content file) - request.ofs) + log_data_chunk
        ≤ passes * log_data_chunk
      → let started = start_stream c r file_count request d w in
        let (ms, d') =
          serve c r content position read_law content_law position_law passes request.port started
            w in
        ((port_at request.port d'.streams).active ≡ false)
        × Delivers request.start request.ofs ms
            (take request.count (drop request.ofs (content file)))
        × (length (content file) - request.ofs ≤ request.count
            → final_count log_data_chunk ms < log_data_chunk)
        × (request.count < length (content file) - request.ofs → All Carries ms)
  unfolding Outcome Started Starts
  request_lem passes file_count slot file request d w start known size some_bytes small free opens
        enough =
      let started = start_stream c r file_count request d w in
      let (stream, still) = start_stream_lem c r file_count request d w free in
      let s = new_stream-Starts c r file_count slot request w start known (rw (size) some_bytes) in
      let now = port_at request.port started.streams in
      let (ms, d') =
        serve c r content position read_law content_law position_law passes request.port started
          w in
      let t : Starts c r request slot (slot_size c r slot w) now =
        subst (λ x. Starts c r request slot (slot_size c r slot w) x) (sym stream) s in
      let o =
        Started-Outcome passes request.port slot file started w
          (
            t.0,
            t.1,
            t.2,
            omega (arith, t.7, size),
            omega (arith, t.7, size, small),
            t.6,
            still,
            opens,
          )
          (omega (arith, t.8, size, enough)) in
      let range =
        range_bytes now.end now.pos request.count (content file) (omega (arith, t.8, t.4, size)) in
      let placed = subst (λ bytes. Delivers now.id now.pos ms bytes) range o.1 in
      let named =
        subst (λ i. Delivers i now.pos ms (take request.count (drop now.pos (content file)))) t.3
          placed in
      (
        o.0,
        subst (λ p. Delivers request.start p ms (take request.count (drop p (content file)))) t.4
            named,
        λ h.
            let e : leb (slot_size c r slot w - request.ofs) request.count ≡ true = ground arith in
            rw (t.5) at (o.2 (t.9 ∙ e)),
        λ h.
            let e : leb (slot_size c r slot w - request.ofs) request.count ≡ false = ground arith in
            o.3 (t.9 ∙ e),
      )
