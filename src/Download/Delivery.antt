-- ===== src/Download/Delivery.antt =====
-- All the passes of a stream: what its messages carry, and how it ends.
use boredom_os.Prelude.{
  ℕ, zero, suc, ◌+◌, ◌-◌, ◌*◌, ◌^◌, ◌≤◌, ◌<◌, min, ◌≡◌, refl, Bool, true, false, some, List, [],
  ◌∷◌, ◌++◌, arith, u8, u32, ◌==◌, ◌∙◌, sym, ap, subst, inl, inr, if◌then◌else◌, Bool-cases,
  take-take, drop-take, drop-drop, append_nil, leb_cases, length, take, drop, replicate,
  length-take, length-drop, All,
}
use boredom_os.SdData.{Card}
use boredom_os.Download.{
  Msg, log_data, port_at, LogStream, Reader, Downloads, data_field, log_data_chunk, post_log_data,
  finish_stream, service_stream,
}
use boredom_os.Download.Chunks.{
  Delivers, final_count, Carries, Serving, serve, end_stream_lem, chunk, after_chunk, length-chunk,
  service_stream_within, service_stream_end,
}

module _ (c : Card) (r : Reader c) (content : r.Handle → List ℕ) (position : r.Handle → ℕ)
    (read_law : (n : ℕ) (h : r.Handle) (w : c.World)
      → (r.read n h w).0 ≡ some (take n (drop (position h) (content h))))
    (content_law : (n : ℕ) (h : r.Handle) (w : c.World) → content (r.read n h w).1 ≡ content h)
    (position_law : (n : ℕ) (h : r.Handle) (w : c.World)
      → position (r.read n h w).1
        ≡ position h + length (take n (drop (position h) (content h)))) where
  open c use {World}
  open r use {Handle, read}

  -- What the passes of a stream give, from a state of it on.
  unfoldable pub Outcome : LogStream → Handle → List Msg × Bool → Type 0
  Outcome stream file (ms, active) =
      (active ≡ false)
      × Delivers stream.id stream.pos ms
          (take (stream.end - stream.pos) (drop stream.pos (content file)))
      × (stream.to_file_end ≡ true
          → final_count (if stream.sent_any then stream.last_count else log_data_chunk) ms
            < log_data_chunk)
      × (stream.to_file_end ≡ false → All Carries ms)

  pub Outcome-inactive :
      (stream : LogStream) (file : Handle) (ms : List Msg) (active : Bool)
      → Outcome stream file (ms, active)
      → active ≡ false
  unfolding Outcome
  Outcome-inactive stream file ms active o = o.0

  pub finish_stream-Outcome :
      (port : ℕ) (file : Handle) (d : Downloads Handle)
      → let stream = port_at port d.streams in
        stream.end ≤ stream.pos
        → stream.last_count ≤ log_data_chunk
        → let (ms, d') = finish_stream c r port d in
          Outcome stream file (ms, (port_at port d'.streams).active)
  unfolding Outcome finish_stream Delivers final_count post_log_data Carries
  finish_stream-Outcome port file d done most =
      let stream = port_at port d.streams in
      let z : stream.end - stream.pos ≡ 0 = omega arith in
      let off = end_stream_lem c r content position read_law content_law position_law port d in
      elim (Bool-cases stream.to_file_end) [
        | inr f ↦ rw (f, z) (off, refl, λ t. ground arith, λ t. tt)
        | inl f ↦ elim (Bool-cases stream.sent_any) [
          | inr g ↦
              rw (f, g, z)
                (
                  off,
                  (refl, refl, omega arith, omega arith, refl, refl),
                  λ t. omega arith,
                  λ t. ground arith,
                )
          | inl g ↦ elim (Bool-cases (stream.last_count == log_data_chunk)) [
            | inl h ↦
                rw (f, g, h, z)
                  (
                    off,
                    (refl, refl, omega arith, omega arith, refl, refl),
                    λ t. omega arith,
                    λ t. ground arith,
                  )
            | inr h ↦ rw (f, g, h, z) (off, refl, λ t. ground arith, λ t. tt)
          ]
        ]
      ]

  bytes_rest :
      (end p k q : ℕ) (bytes : List ℕ)
      → q ≡ p + k
      → drop k (take (end - p) (drop p bytes)) ≡ take (end - q) (drop q bytes)
  bytes_rest end p k q bytes e =
      let f : end - p - k ≡ end - q = omega arith in
      drop-take k (end - p) (drop p bytes)
      ∙ ap (λ m. take m (drop k (drop p bytes))) f
      ∙ ap (λ t. take (end - q) t) (drop-drop k p bytes)
      ∙ ap (λ m. take (end - q) (drop m bytes)) (sym e)

  -- A chunk c r content position read_law content_law position_law in front of what the rest of the
  -- range gives.
  Outcome-chunk :
      (stream : LogStream) (file file' : Handle) (rest : List Msg) (active : Bool)
      → stream.pos < stream.end
      → stream.end ≤ length (content file)
      → stream.end < 2 ^ 32
      → content file' ≡ content file
      → Outcome
          (after_chunk c r content position read_law content_law position_law stream file)
          file'
          (rest, active)
      → let bytes = chunk c r content position read_law content_law position_law stream file in
        let first = log_data stream.id stream.pos (u8 (length bytes)) (data_field bytes) in
        Outcome stream file (first ∷ rest, active)
  unfolding Outcome Delivers final_count Carries
  Outcome-chunk stream file file' rest active more le small same (off, out, said, carried) =
      let bytes = chunk c r content position read_law content_law position_law stream file in
      let all = take (stream.end - stream.pos) (drop stream.pos (content file)) in
      let k = length-chunk c r content position read_law content_law position_law stream file le in
      let n : length all ≡ stream.end - stream.pos = omega (
        arith,
        length-take (stream.end - stream.pos) (drop stream.pos (content file)),
        length-drop stream.pos (content file),
        le,
      ) in
      let u : u8 (length bytes) ≡ min (stream.end - stream.pos) log_data_chunk = omega (arith, k) in
      let q : u32 (stream.pos + length bytes) ≡ stream.pos + u8 (length bytes) = omega (arith, k) in
      let first : take (u8 (length bytes)) all ≡ bytes =
        ap (λ m. take m all) u
        ∙ take-take _ (stream.end - stream.pos) (drop stream.pos (content file)) (omega arith) in
      let field : data_field bytes
          ≡ take (u8 (length bytes)) all ++ replicate (log_data_chunk - u8 (length bytes)) 0 =
        ap (λ m. bytes ++ replicate (log_data_chunk - m) 0) (k ∙ sym u)
        ∙ ap (λ t. t ++ replicate (log_data_chunk - u8 (length bytes)) 0) (sym first) in
      let left : drop (u8 (length bytes)) all
          ≡ take (stream.end - u32 (stream.pos + length bytes))
              (drop (u32 (stream.pos + length bytes)) (content file')) =
        bytes_rest stream.end stream.pos (u8 (length bytes)) (u32 (stream.pos + length bytes))
          (content file) q
        ∙ ap
            (λ t.
              take (stream.end - u32 (stream.pos + length bytes))
                (drop (u32 (stream.pos + length bytes)) t))
            (sym same) in
      (
        off,
        (refl, refl, omega (arith, u), omega (arith, u, n), field, rw (sym q, left) out),
        said,
        λ t. (omega (arith, u), carried t),
      )

  pub serve_inactive :
      (passes port : ℕ) (d : Downloads Handle) (w : World)
      → (port_at port d.streams).active ≡ false
      → serve c r content position read_law content_law position_law passes port d w ≡ ([], d)
  unfolding serve
  serve_inactive zero port d w e = refl
  serve_inactive (suc passes) port d w e = rw (e) refl

  pub serve-Outcome :
      (passes port : ℕ) (file : Handle) (d : Downloads Handle) (w : World)
      → Serving c r content position read_law content_law position_law port file d
      → let stream = port_at port d.streams in
        stream.last_count ≤ log_data_chunk
        → stream.end - stream.pos + log_data_chunk ≤ passes * log_data_chunk
        → let (ms, d') =
            serve c r content position read_law content_law position_law passes port d w in
          Outcome stream file (ms, (port_at port d'.streams).active)
  unfolding Serving serve
  serve-Outcome zero port file d w s most enough = absurd (omega arith)
  serve-Outcome (suc passes) port file d w s most enough =
      let stream = port_at port d.streams in
      let (ms, d') = service_stream c r port d w in
      elim (leb_cases stream.end stream.pos) [
        | inl done ↦
            let e =
              service_stream_end c r content position read_law content_law position_law port d w s.1
                done in
            let o = finish_stream-Outcome port file d done most in
            let off = Outcome-inactive stream file _ _ o in
            rw
              (
                s.0,
                e,
                serve_inactive passes port (finish_stream c r port d).1 w off,
                append_nil (finish_stream c r port d).0,
              )
              o
        | inr more ↦
            let (e1, e2, (file', same, s')) =
              service_stream_within c r content position read_law content_law position_law port file
                d w s more in
            let k =
              length-chunk c r content position read_law content_law position_law stream file s.2 in
            let (rest, d'') =
              serve c r content position read_law content_law position_law passes port d' w in
            let active = (port_at port d''.streams).active in
            let o =
              serve-Outcome passes port file' d' w s' (rw (e2) (omega (arith, k)))
                (rw (e2) (omega (arith, k, enough, s.3))) in
            let after = subst (λ t. Outcome t file' (rest, active)) e2 o in
            rw (s.0, e1) (Outcome-chunk stream file file' rest active more s.2 s.3 same after)
      ]
