-- ===== src/SdData/Resuming.antt =====
-- The index of the ring on the card, and the slots that calls of the class can hold.
use boredom_os.Prelude.{
  ℕ, ◌+◌, ◌%◌, ◌^◌, ◌<◌, ◌≡◌, refl, true, Option, none, some, List, [], ◌∷◌, arith, u32, ◌==◌, leb,
  ◌∙◌, sym, ap, ◌⊎◌, inl, inr, if◌then◌else◌, Bool-cases, Option-cases, length,
}
use boredom_os.SdData.{
  Card, FileName, log_file, log_index_file, SdData, new_log, set_on_open, read_log_index,
  write_log_index, write_raw, flush_interval_bytes, begin, end, write_open, write, open_next_slot,
  close_data_file, bytes_of_int, int_of_bytes,
}
use boredom_os.SdData.Ring.{
  Opens, Resumes, first_free_slot, close_data_file_lem, open_next_slot_lem,
}
use boredom_os.SdData.Syncing.{
  Call, set_callback, begin_log, end_log, write_log, write_through, run_call, run_calls,
}
use native.Mathlib.Nat.{mod-lt}

module _ (c : Card) where
  open c use {World}

  -- The members name a slot of the ring, and the open file is that slot's.
  unfoldable pub InRing : ℕ → ℕ → SdData c → Type 0
  InRing files limit d =
      (d.files ≡ files)
      × (d.limit ≡ limit)
      × (d.file_idx < files)
      × ((d.data_file ≡ none) ⊎ (d.data_file ≡ some (log_file d.file_idx)))

  Opens-InRing :
      (idx files limit : ℕ) (d d' : SdData c)
      → d.files ≡ files
      → d.limit ≡ limit
      → idx < files
      → Opens c idx d.files d.limit d'
      → InRing files limit d'
  unfolding InRing Opens
  Opens-InRing idx files limit d d' f l lt o = (
    o.1 ∙ f,
    o.2 ∙ l,
    rw (o.0) lt,
    elim o.3 [ inl e ↦ inl e | inr e ↦ inr (e ∙ ap (λ i. some (log_file i)) (sym o.0)) ],
  )

  next_lt : (files i : ℕ) (d : SdData c) → 0 < files → d.files ≡ files → i % d.files < files
  next_lt files i d more e = rw (e) (mod-lt i more)

  open_next_slot-InRing :
      (files limit : ℕ) (d : SdData c) (w : World)
      → 0 < files
      → InRing files limit d
      → InRing files limit (open_next_slot c d w).0
  unfolding InRing
  open_next_slot-InRing files limit d w more r =
      let lt = next_lt files (d.file_idx + 1) d more r.0 in
      Opens-InRing _ files limit d _ r.0 r.1 lt (open_next_slot_lem c d w)

  begin-InRing :
      (files limit : ℕ) (d : SdData c) (w : World)
      → 0 < files
      → InRing files limit d
      → InRing files limit (begin c d w).0
  unfolding InRing Resumes
  begin-InRing files limit d w more r =
      let (d', w') = close_data_file c d w in
      let same = close_data_file_lem c d w in
      let f : d'.files ≡ files = same.1 ∙ r.0 in
      let l : d'.limit ≡ limit = same.2 ∙ r.1 in
      elim (first_free_slot c d w) [
        | inl (slot, (k, _, at, _, _), o) ↦
            Opens-InRing slot files limit d' _ f l (rw (at) (next_lt files _ d' more f)) o
        | inr (_, o) ↦ Opens-InRing _ files limit d' _ f l (next_lt files _ d' more f) o
      ]

  end-InRing :
      (files limit : ℕ) (d : SdData c) (w : World)
      → InRing files limit d
      → InRing files limit (end c d w).0
  unfolding InRing end
  end-InRing files limit d w r = ground arith

  write_raw-InRing :
      (files limit : ℕ) (bytes : Option (List ℕ)) (d : SdData c) (w : World)
      → InRing files limit d
      → InRing files limit (write_raw c bytes d w).0
  unfolding InRing write_raw
  write_raw-InRing files limit bytes d w r = ground arith

  write_open-InRing :
      (files limit : ℕ) (name : FileName) (bs : List ℕ) (d : SdData c) (w : World)
      → 0 < files
      → InRing files limit d
      → InRing files limit (write_open c name bs d w).0
  unfolding write_open InRing
  write_open-InRing files limit name bs d w more r =
      let w1 = c.write_bytes name bs w in
      let due = leb flush_interval_bytes (u32 (d.since_flush + length bs)) in
      let w2 = if due then c.flush name w1 else w1 in
      elim (Bool-cases (leb d.limit (c.size name w2))) [
        | inl full ↦ rw (write_open, full) (open_next_slot-InRing files limit _ _ more r)
        | inr room ↦ rw (write_open, room) r
      ]

  write-InRing :
      (files limit : ℕ) (bytes : Option (List ℕ)) (d : SdData c) (w : World)
      → 0 < files
      → InRing files limit d
      → InRing files limit (write c bytes d w).0
  unfolding write
  write-InRing files limit none d w more r = elim (Option-cases d.data_file) [
    | inl e ↦ rw (write, e) r
    | inr (name, e) ↦ rw (write, e) r
  ]
  write-InRing files limit (some bs) d w more r = elim (Option-cases d.data_file) [
    | inl e ↦ rw (write, e) r
    | inr (name, e) ↦ elim (Bool-cases (length bs == 0)) [
      | inl f ↦ rw (write, e, f) r
      | inr f ↦ rw (write, e, f) (write_open-InRing files limit name bs d w more r)
    ]
  ]

  run_calls-InRing :
      (files limit : ℕ) (calls : List (Call c)) (d : SdData c) (w : World)
      → 0 < files
      → InRing files limit d
      → InRing files limit (run_calls c calls d w).0
  unfolding run_calls run_call set_on_open InRing
  run_calls-InRing files limit [] d w more r = r
  run_calls-InRing files limit (call ∷ calls) d w more r =
      let (d', w') = run_call c call d w in
      run_calls-InRing files limit calls d' w' more
        (elim call as (λ call. InRing files limit (run_call c call d w).0) [
          | set_callback callback ↦ r
          | begin_log ↦ begin-InRing files limit d w more r
          | end_log ↦ end-InRing files limit d w r
          | write_log bytes ↦ write-InRing files limit bytes d w more r
          | write_through bytes ↦ write_raw-InRing files limit bytes d w r
        ])

  -- After any sequence of calls on a new log of at least one file, the members name a slot below the
  -- number of files, and the file that is open, if any, is that slot's.
  pub calls_stay_in_ring :
      (files limit : ℕ) (calls : List (Call c)) (w : World)
      → 0 < files
      → let d = (run_calls c calls (new_log c files limit) w).0 in
        (d.file_idx < files) × ((d.data_file ≡ none) ⊎ (d.data_file ≡ some (log_file d.file_idx)))
  unfolding InRing new_log
  calls_stay_in_ring files limit calls w more =
      let d = new_log c files limit in
      let r = run_calls-InRing files limit calls d w more (refl, refl, more, inl refl) in (r.2, r.3)

  -- The index that a rotation writes is the index that a start reads, for an index below the
  -- number of files and fewer than 2 ^ 31 files, if the index file opens and the card then keeps
  -- its four bytes.
  pub read_log_index-write_log_index :
      (d : SdData c) (w : World)
      → d.file_idx < d.files
      → d.files < 2 ^ 31
      → (c.open_write log_index_file w).0 ≡ true
      → ((bytes : List ℕ) (w : World)
          → length bytes ≡ 4
          → c.read_bytes log_index_file 4 (
              c.close log_index_file (
                c.flush log_index_file
                  (c.write_bytes log_index_file bytes (c.seek log_index_file 0 w))))
            ≡ some bytes)
      → read_log_index c d (write_log_index c d w) ≡ d.file_idx
  unfolding read_log_index write_log_index
  read_log_index-write_log_index d w lt small opened keeps =
      let h = keeps (bytes_of_int d.file_idx) (c.open_write log_index_file w).1 refl in
      let t : int_of_bytes (bytes_of_int d.file_idx) ≡ d.file_idx = omega arith in
      rw (write_log_index, opened, read_log_index, h, t) (ground arith)
