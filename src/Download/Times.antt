-- ===== src/Download/Times.antt =====
-- The time that a listing reports of a file, against what the file was opened with.
use boredom_os.Prelude.{
  ℕ, ◌≤◌, ◌≡◌, refl, true, some, List, [], ◌∷◌, ◌++◌, arith, u32, ◌==◌, ◌∙◌, sym, ap, subst, inl,
  inr, if◌then◌else◌, Bool-cases, append_assoc, take-append, drop-append, length, take, drop,
  length-append,
}
use boredom_os.SdData.{Card, int_of_bytes}
use boredom_os.Dataflash.{
  preamble, LogTime, time_bytes, Opening, write_log_preamble, le_bytes, format_bytes, rst_format,
  rst_bytes, is_fault_phase,
}
use boredom_os.Recovery.{reason_to_byte, phase_to_byte}
use boredom_os.Download.{Reader, slot_file_name, slot_time_utc, head_time, head_time_offset}
use boredom_os.SystemTime.{Source, source_to_byte}

abbrev pub joined : List (List ℕ) → List ℕ
joined [] = []
joined (bytes ∷ rest) = bytes ++ joined rest

head_time-time_bytes :
    (t : LogTime)
    → head_time (time_bytes t)
      ≡ (if t.source == source_to_byte Source.none then 0 else u32 t.unixtime)
unfolding head_time
head_time-time_bytes t =
    let e : int_of_bytes (le_bytes 4 t.unixtime) ≡ u32 t.unixtime = omega arith in
    elim (Bool-cases (t.source == source_to_byte Source.none)) [
      | inl f ↦ rw (f) refl
      | inr f ↦ rw (f) e
    ]

abbrev head_of : Opening → LogTime
head_of o = record { time_us = o.since_boot_usec; unixtime = u32 o.unix_time; source = o.source }

abbrev last_of : Opening → List ℕ
last_of o = rst_bytes (record {
  time_us = o.since_boot_usec_again;
  reason = reason_to_byte o.previous_reset_reason;
  phase = phase_to_byte o.previous_boot_phase;
  consecutive = o.consecutive_count;
  cumulative = o.cumulative_count;
  task = if is_fault_phase o.previous_boot_phase then o.previous_fault_task else [];
})

opened_bytes :
    (o : Opening) (records : List ℕ)
    → joined (write_log_preamble o) ++ records
      ≡ preamble
        ++ (time_bytes (head_of o)
            ++ (joined (format_bytes rst_format ∷ last_of o ∷ []) ++ records))
unfolding write_log_preamble
opened_bytes o records =
    let t = time_bytes (head_of o) in
    let rest = joined (format_bytes rst_format ∷ last_of o ∷ []) in
    append_assoc preamble (t ++ rest) records
    ∙ ap (λ bytes. preamble ++ bytes) (append_assoc t rest records)

-- What the 16 bytes after the preamble are, in a file that was opened so.
head_record :
    (o : Opening) (records : List ℕ)
    → take 16 (drop head_time_offset (joined (write_log_preamble o) ++ records))
      ≡ time_bytes (head_of o)
head_record o records =
    let t = time_bytes (head_of o) in
    let rest = joined (format_bytes rst_format ∷ last_of o ∷ []) in
    ap (λ bytes. take 16 (drop head_time_offset bytes)) (opened_bytes o records)
    ∙ ap (take 16) (drop-append preamble (t ++ (rest ++ records)))
    ∙ take-append t (rest ++ records)

head_fits :
    (o : Opening) (records : List ℕ)
    → head_time_offset ≤ length (joined (write_log_preamble o) ++ records)
head_fits o records =
    let t = time_bytes (head_of o) in
    let rest = joined (format_bytes rst_format ∷ last_of o ∷ []) in
    let e = ap length (opened_bytes o records) in
    omega (arith, e, length-append preamble (t ++ (rest ++ records)))

-- The time that a listing reports of a file that starts with what the opening callback wrote is the
-- time of that opening, or 0 if the board then had no clock; the handle seeks and reads as
-- documented.
pub slot_time_utc-write_log_preamble :
    (c : Card) (r : Reader c) (content : r.Handle → List ℕ) (position : r.Handle → ℕ)
    (read_law : (n : ℕ) (h : r.Handle) (w : c.World)
      → (r.read n h w).0 ≡ some (take n (drop (position h) (content h))))
    (seek_content_law : (p : ℕ) (h : r.Handle) → content (r.seek p h).1 ≡ content h)
    (seek_law : (p : ℕ) (h : r.Handle)
      → p ≤ length (content h)
      → ((r.seek p h).0 ≡ true) × (position (r.seek p h).1 ≡ p))
    (slot : ℕ) (file : r.Handle) (w : c.World) (o : Opening) (records : List ℕ)
    → r.open_read (slot_file_name slot) w ≡ some file
    → content file ≡ joined (write_log_preamble o) ++ records
    → slot_time_utc c r slot w
      ≡ (if o.source == source_to_byte Source.none then 0 else u32 (u32 o.unix_time))
unfolding slot_time_utc
slot_time_utc-write_log_preamble c r content position read_law seek_content_law seek_law slot file w
      o records opens holds =
    let sought = (r.seek head_time_offset file).1 in
    let fits : head_time_offset ≤ length (content file) =
      subst (λ bytes. head_time_offset ≤ length bytes) (sym holds) (head_fits o records) in
    let (sought_it, placed) = seek_law head_time_offset file fits in
    let got : (r.read 16 sought w).0 ≡ some (time_bytes (head_of o)) =
      read_law 16 sought w
      ∙ ap (λ p. some (take 16 (drop p (content sought)))) placed
      ∙ ap (λ bytes. some (take 16 (drop head_time_offset bytes)))
          (seek_content_law head_time_offset file ∙ holds)
      ∙ ap some (head_record o records) in
    rw (slot_time_utc, opens, got, sought_it) (head_time-time_bytes (head_of o))
