-- ===== src/SdData/Syncing.antt =====
-- How many appended bytes a power cut can cost: the bound on what is not yet synced.
use boredom_os.Prelude.{
  ℕ, ◌+◌, ◌%◌, ◌^◌, ◌≤◌, ◌<◌, ◌≡◌, Option, none, some, List, [], ◌∷◌, arith, u32, ◌==◌, leb, inl,
  inr, if◌then◌else◌, Bool-cases, Option-cases, length, All,
}
use boredom_os.SdData.{
  Card, FileName, SdData, new_log, set_on_open, append_bytes, write_raw, write_all_raw,
  notify_opened, close_data_file, open_data_file, open_next_slot, start_slot, begin, end,
  write_open, write, flush_interval_bytes, get_log_file_name, find_resume, read_log_index,
}

-- A call of the class by the task that owns it.
pub data Call (c : Card) : Type 0 where
  set_callback : Option (c.World → List (Option (List ℕ))) → Call c
  begin_log : Call c
  end_log : Call c
  write_log : Option (List ℕ) → Call c
  write_through : Option (List ℕ) → Call c

unfoldable pub run_call : (c : Card) → Call c → SdData c → c.World → SdData c × c.World
run_call c (set_callback callback) d w = (set_on_open c callback d, w)
run_call c begin_log d w = begin c d w
run_call c end_log d w = end c d w
run_call c (write_log bytes) d w = write c bytes d w
run_call c (write_through bytes) d w = write_raw c bytes d w

unfoldable pub run_calls : (c : Card) → List (Call c) → SdData c → c.World → SdData c × c.World
run_calls c [] d w = (d, w)
run_calls c (call ∷ calls) d w = let (d', w') = run_call c call d w in run_calls c calls d' w'

-- No single append is so long that `size_t` arithmetic on it wraps.
unfoldable pub Fits : (c : Card) → Call c → Type 0
Fits c (write_log (some bytes)) = length bytes + flush_interval_bytes ≤ 2 ^ 32
Fits c _ = Unit

module _ (c : Card) (unsynced : FileName → c.World → ℕ)
    (write_law : (name : FileName) (bytes : List ℕ) (w : c.World)
      → unsynced name (c.write_bytes name bytes w) ≤ unsynced name w + length bytes)
    (flush_law : (name : FileName) (w : c.World) → unsynced name (c.flush name w) ≡ 0)
    (open_law : (name : FileName) (w : c.World) → unsynced name (c.open_append name w).1 ≡ 0) where
  open c use {World}

  abbrev pub Unsynced : Option FileName → ℕ → World → Type 0
  Unsynced none n w = Unit
  Unsynced (some name) n w = unsynced name w ≤ n

  -- The open file has at most `since_flush` unsynced bytes, fewer than the interval.
  unfoldable pub Bounded : SdData c → World → Type 0
  Bounded d w = (d.since_flush < flush_interval_bytes) × Unsynced d.data_file d.since_flush w

  write_raw-Bounded :
      (bytes : Option (List ℕ)) (d : SdData c) (w : World)
      → Bounded d w
      → let (d', w') = write_raw c bytes d w in Bounded d' w'
  unfolding Bounded write_raw
  write_raw-Bounded bytes d w b = elim (Option-cases d.data_file) [
    | inl e ↦ rw (write_raw, e) (b.0, rw (e) tt)
    | inr (name, e) ↦
        rw (write_raw, e)
          (omega arith, rw (e) (omega (arith, flush_law name (append_bytes c bytes d w))))
  ]

  write_all_raw-Bounded :
      (all : List (Option (List ℕ))) (d : SdData c) (w : World)
      → Bounded d w
      → let (d', w') = write_all_raw c all d w in Bounded d' w'
  unfolding write_all_raw
  write_all_raw-Bounded [] d w b = b
  write_all_raw-Bounded (bytes ∷ rest) d w b =
      let (d', w') = write_raw c bytes d w in
      write_all_raw-Bounded rest d' w' (write_raw-Bounded bytes d w b)

  notify_opened-Bounded :
      (d : SdData c) (w : World) → Bounded d w → let (d', w') = notify_opened c d w in Bounded d' w'
  unfolding notify_opened
  notify_opened-Bounded d w b = elim (Option-cases d.on_open) [
    | inl e ↦ rw (notify_opened, e) b
    | inr (callback, e) ↦ elim (Option-cases d.data_file) [
      | inl f ↦ rw (notify_opened, e, f) b
      | inr (name, f) ↦ rw (notify_opened, e, f) (write_all_raw-Bounded (callback w) d w b)
    ]
  ]

  end-Bounded : (d : SdData c) (w : World) → Bounded d w → let (d', w') = end c d w in Bounded d' w'
  unfolding Bounded end
  end-Bounded d w b = elim (Option-cases d.data_file) [
    | inl e ↦ rw (end, e) (b.0, rw (e) tt)
    | inr (name, e) ↦ rw (end, e) (omega arith, tt)
  ]

  open_data_file-Bounded :
      (d : SdData c) (w : World) → let (d', w') = open_data_file c d w in Bounded d' w'
  unfolding Bounded open_data_file
  open_data_file-Bounded d w =
      let name = get_log_file_name d.file_idx in
      elim (Bool-cases (c.open_append name w).0) [
        | inl e ↦ rw (e) (omega arith, omega (arith, open_law name w))
        | inr e ↦ rw (e) (omega arith, tt)
      ]

  start_slot-Bounded : (d : SdData c) (w : World) → let (d', w') = start_slot c d w in Bounded d' w'
  unfolding start_slot
  start_slot-Bounded d w =
      let (d', w') = open_data_file c d w in
      let b = open_data_file-Bounded d w in
      elim (Option-cases d'.data_file) [
        | inl e ↦ rw (start_slot, e) b
        | inr (name, e) ↦ rw (start_slot, e) (notify_opened-Bounded d' w' b)
      ]

  open_next_slot-Bounded :
      (d : SdData c) (w : World) → let (d', w') = open_next_slot c d w in Bounded d' w'
  unfolding open_next_slot
  open_next_slot-Bounded d w =
      let (d', w') = close_data_file c d w in
      let e = record d' { since_flush = 0; file_idx = (d'.file_idx + 1) % d'.files } in
      notify_opened-Bounded _ _ (open_data_file-Bounded e _)

  begin-Bounded : (d : SdData c) (w : World) → let (d', w') = begin c d w in Bounded d' w'
  unfolding begin
  begin-Bounded d w =
      let (d', w') = close_data_file c d w in
      elim (Option-cases (find_resume c d'.files 0 (read_log_index c d' w') d' w')) [
        | inl e ↦ rw (begin, e) (open_next_slot-Bounded _ _)
        | inr (slot, e) ↦ rw (begin, e) (start_slot-Bounded _ _)
      ]

  write_open-Bounded :
      (name : FileName) (bs : List ℕ) (d : SdData c) (w : World)
      → d.data_file ≡ some name
      → length bs + flush_interval_bytes ≤ 2 ^ 32
      → Bounded d w
      → let (d', w') = write_open c name bs d w in Bounded d' w'
  unfolding Bounded write_open
  write_open-Bounded name bs d w e fits b =
      let w1 = c.write_bytes name bs w in
      let since = u32 (d.since_flush + length bs) in
      let due = leb flush_interval_bytes since in
      let w2 = if due then c.flush name w1 else w1 in
      let before : unsynced name w ≤ d.since_flush = rw (e) at b.1 in
      elim (Bool-cases (leb d.limit (c.size name w2))) [
        | inl full ↦ rw (write_open, full) (open_next_slot-Bounded _ _)
        | inr room ↦
            rw (write_open, room)
              (elim (Bool-cases due) [
                | inl f ↦ rw (f) (omega arith, rw (e) (omega (arith, flush_law name w1)))
                | inr f ↦ rw (f) (ground arith, rw (e) (omega (arith, write_law name bs w, before)))
              ])
      ]

  write-Bounded :
      (bytes : Option (List ℕ)) (d : SdData c) (w : World)
      → Fits c (write_log bytes)
      → Bounded d w
      → let (d', w') = write c bytes d w in Bounded d' w'
  unfolding write Fits
  write-Bounded none d w fits b = elim (Option-cases d.data_file) [
    | inl e ↦ rw (write, e) b
    | inr (name, e) ↦ rw (write, e) b
  ]
  write-Bounded (some bs) d w fits b = elim (Option-cases d.data_file) [
    | inl e ↦ rw (write, e) b
    | inr (name, e) ↦ elim (Bool-cases (length bs == 0)) [
      | inl f ↦ rw (write, e, f) b
      | inr f ↦ rw (write, e, f) (write_open-Bounded name bs d w e fits b)
    ]
  ]

  run_call-Bounded :
      (call : Call c) (d : SdData c) (w : World)
      → Fits c call
      → Bounded d w
      → let (d', w') = run_call c call d w in Bounded d' w'
  unfolding run_call set_on_open Bounded
  run_call-Bounded (set_callback callback) d w fits b = b
  run_call-Bounded begin_log d w fits b = begin-Bounded d w
  run_call-Bounded end_log d w fits b = end-Bounded d w b
  run_call-Bounded (write_log bytes) d w fits b = write-Bounded bytes d w fits b
  run_call-Bounded (write_through bytes) d w fits b = write_raw-Bounded bytes d w b

  run_calls-Bounded :
      (calls : List (Call c)) (d : SdData c) (w : World)
      → All (Fits c) calls
      → Bounded d w
      → let (d', w') = run_calls c calls d w in Bounded d' w'
  unfolding run_calls
  run_calls-Bounded [] d w fits b = b
  run_calls-Bounded (call ∷ calls) d w fits b =
      let (d', w') = run_call c call d w in
      run_calls-Bounded calls d' w' fits.1 (run_call-Bounded call d w fits.0 b)

  -- After any sequence of calls on a new log, none of them with an append near 2 ^ 32 bytes, fewer
  -- than FLUSH_INTERVAL_BYTES of the open file are not synced: what a power cut can cost. A write
  -- leaves at most its own bytes more unsynced, a flush and an opening leave none.
  pub unsynced_bound :
      (files limit : ℕ) (calls : List (Call c)) (w : World)
      → All (Fits c) calls
      → (name : FileName)
      → let (d', w') = run_calls c calls (new_log c files limit) w in
        d'.data_file ≡ some name → unsynced name w' < flush_interval_bytes
  unfolding Bounded new_log
  unsynced_bound files limit calls w fits name e =
      let d = new_log c files limit in
      let b = run_calls-Bounded calls d w fits (omega arith, tt) in
      let at : Unsynced (some name) (run_calls c calls d w).0.since_flush
          (run_calls c calls d w).1 =
        rw (e) at b.1 in
      omega (arith, b.0, at)
