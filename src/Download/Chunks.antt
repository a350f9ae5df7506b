-- ===== src/Download/Chunks.antt =====
-- What a delivery is, and one pass of a stream: a chunk within the range, its end after it.
use boredom_os.Prelude.{
  ℕ, zero, suc, ◌+◌, ◌-◌, ◌^◌, ◌≤◌, ◌<◌, min, ◌≡◌, refl, true, false, some, List, [], ◌∷◌, ◌++◌,
  arith, u8, u32, ◌==◌, leb, ◌∙◌, ap, inl, inr, if◌then◌else◌, Bool-cases, length, take, drop,
  replicate, length-take, length-drop,
}
use boredom_os.SdData.{Card}
use boredom_os.Download.{
  Msg, log_entry, log_data, port_at, set_port, port_at-set_port, LogStream, Reader, Downloads,
  holds_reader, data_field, log_data_chunk, end_stream, send_chunk, finish_stream, read_stream,
  service_stream,
}

-- The messages carry these bytes in order from an offset on, at most 90 in each, zeros after them.
unfoldable pub Delivers : ℕ → ℕ → List Msg → List ℕ → Type 0
Delivers id pos [] bytes = bytes ≡ []
Delivers id pos (log_entry _ _ _ _ _ ∷ ms) bytes = ⊥
Delivers id pos (log_data i ofs count field ∷ ms) bytes =
    (i ≡ id)
    × (ofs ≡ pos)
    × (count ≤ log_data_chunk)
    × (count ≤ length bytes)
    × (field ≡ take count bytes ++ replicate (log_data_chunk - count) 0)
    × Delivers id (pos + count) ms (drop count bytes)

-- The count that was sent last, after `last`.
unfoldable pub final_count : ℕ → List Msg → ℕ
final_count last [] = last
final_count last (log_entry _ _ _ _ _ ∷ ms) = final_count last ms
final_count last (log_data i ofs count field ∷ ms) = final_count count ms

unfoldable pub Carries : Msg → Type 0
Carries (log_entry _ _ _ _ _) = Unit
Carries (log_data i ofs count field) = 0 < count

module _ (c : Card) (r : Reader c) (content : r.Handle → List ℕ) (position : r.Handle → ℕ)
    (read_law : (n : ℕ) (h : r.Handle) (w : c.World)
      → (r.read n h w).0 ≡ some (take n (drop (position h) (content h))))
    (content_law : (n : ℕ) (h : r.Handle) (w : c.World) → content (r.read n h w).1 ≡ content h)
    (position_law : (n : ℕ) (h : r.Handle) (w : c.World)
      → position (r.read n h w).1
        ≡ position h + length (take n (drop (position h) (content h)))) where
  open c use {World}
  open r use {Handle, read}

  -- A stream that is being served: its port holds the handle, which stands at its position.
  unfoldable pub Serving : ℕ → Handle → Downloads Handle → Type 0
  Serving port file d =
      let stream = port_at port d.streams in
      (stream.active ≡ true)
      × (stream.absent ≡ false)
      × (stream.end ≤ length (content file))
      × (stream.end < 2 ^ 32)
      × (position file ≡ stream.pos)
      × (d.reader ≡ some file)
      × (d.reader_port ≡ some port)

  -- The passes of one port's stream, until it ends.
  unfoldable pub serve : ℕ → ℕ → Downloads Handle → World → List Msg × Downloads Handle
  serve zero port d w = ([], d)
  serve (suc passes) port d w =
      let (ms, d') = service_stream c r port d w in
      let (rest, d'') = serve passes port d' w in
      if (port_at port d.streams).active then (ms ++ rest, d'') else ([], d)

  pub end_stream_lem :
      (port : ℕ) (d : Downloads Handle) → (port_at port (end_stream port d).streams).active ≡ false
  unfolding end_stream
  end_stream_lem port d =
      let ended = record (port_at port d.streams) { active = false } in
      let e = ap (λ stream. stream.active) (port_at-set_port port ended d.streams) in
      elim (Bool-cases (holds_reader d.reader_port port)) [ inl f ↦ rw (f) e | inr f ↦ rw (f) e ]

  abbrev pub chunk : LogStream → Handle → List ℕ
  chunk stream file =
      take (min (stream.end - stream.pos) log_data_chunk) (drop stream.pos (content file))

  abbrev pub after_chunk : LogStream → Handle → LogStream
  after_chunk stream file = record stream {
    pos = u32 (stream.pos + length (chunk stream file));
    sent_any = true;
    last_count = u8 (length (chunk stream file));
  }

  pub length-chunk :
      (stream : LogStream) (file : Handle)
      → stream.end ≤ length (content file)
      → length (chunk stream file) ≡ min (stream.end - stream.pos) log_data_chunk
  length-chunk stream file le = omega (
    arith,
    length-take (min (stream.end - stream.pos) log_data_chunk) (drop stream.pos (content file)),
    length-drop stream.pos (content file),
  )

  service_stream-send_chunk :
      (port : ℕ) (file : Handle) (d : Downloads Handle) (w : World)
      → Serving port file d
      → let stream = port_at port d.streams in
        stream.pos < stream.end → service_stream c r port d w ≡ send_chunk c r port file d w
  unfolding Serving service_stream read_stream
  service_stream-send_chunk port file d w s more =
      let stream = port_at port d.streams in
      let going : leb stream.end stream.pos ≡ false = ground arith in
      let same : (port == port) ≡ true = ground arith in
      rw (service_stream, s.1, going, read_stream, s.6, same, s.5) refl

  send_chunk_lem :
      (port : ℕ) (file : Handle) (d : Downloads Handle) (w : World)
      → let stream = port_at port d.streams in
        let bytes = chunk stream file in
        position file ≡ stream.pos
        → 0 < length bytes
        → send_chunk c r port file d w ≡ (
          log_data stream.id stream.pos (u8 (length bytes)) (data_field bytes) ∷ [],
          record d {
            streams = set_port port (after_chunk stream file) d.streams;
            reader = some (read (min (stream.end - stream.pos) log_data_chunk) file w).1;
            reader_port = some port;
          },
        )
  unfolding send_chunk
  send_chunk_lem port file d w at some_bytes =
      let stream = port_at port d.streams in
      let n = min (stream.end - stream.pos) log_data_chunk in
      let e : (read n file w).0 ≡ some (chunk stream file) =
        read_law n file w ∙ ap (λ p. some (take n (drop p (content file)))) at in
      let f : (length (chunk stream file) == 0) ≡ false = ground arith in rw (send_chunk, e, f) refl

  moved_position :
      (n : ℕ) (file : Handle) (w : World) (pos : ℕ)
      → position file ≡ pos
      → pos + length (take n (drop pos (content file))) < 2 ^ 32
      → position (read n file w).1 ≡ u32 (pos + length (take n (drop pos (content file))))
  moved_position n file w pos at lt =
      let e = ap (λ p. p + length (take n (drop p (content file)))) at in
      omega (arith, position_law n file w, e, lt)

  -- One pass within the range: a chunk goes out, and the stream and its handle move on by it.
  pub service_stream_within :
      (port : ℕ) (file : Handle) (d : Downloads Handle) (w : World)
      → Serving port file d
      → let stream = port_at port d.streams in
        let (ms, d') = service_stream c r port d w in
        let bytes = chunk stream file in
        stream.pos < stream.end
        → (ms ≡ log_data stream.id stream.pos (u8 (length bytes)) (data_field bytes) ∷ [])
          × (port_at port d'.streams ≡ after_chunk stream file)
          × ((file' : Handle) × (content file' ≡ content file) × Serving port file' d')
  unfolding Serving
  service_stream_within port file d w s more =
      let stream = port_at port d.streams in
      let n = min (stream.end - stream.pos) log_data_chunk in
      let k = length-chunk stream file s.2 in
      let e =
        service_stream-send_chunk port file d w s more
        ∙ send_chunk_lem port file d w s.4 (omega arith) in
      rw (e, port_at-set_port port (after_chunk stream file) d.streams)
        (
          refl,
          refl,
          (
            (read n file w).1,
            content_law n file w,
            (
              s.0,
              s.1,
              rw (content_law n file w) s.2,
              s.3,
              moved_position n file w stream.pos s.4 (omega (arith, s.2, s.3, k)),
              refl,
              refl,
            ),
          ),
        )

  -- One pass at the end of the range: the stream ends, with an empty chunk if its end is unsaid.
  pub service_stream_end :
      (port : ℕ) (d : Downloads Handle) (w : World)
      → let stream = port_at port d.streams in
        stream.absent ≡ false
        → stream.end ≤ stream.pos
        → service_stream c r port d w ≡ finish_stream c r port d
  unfolding service_stream
  service_stream_end port d w present done =
      let stream = port_at port d.streams in
      let ended : leb stream.end stream.pos ≡ true = ground arith in
      rw (service_stream, present, ended) refl
