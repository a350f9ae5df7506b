-- ===== src/SdData/Durable.antt =====
-- The steps of a rotation, where a power cut can fall between them, and what the card does with the
-- sizes of the log files: the one that a sync has recorded, and the one of the open handle.
use boredom_os.Prelude.{
  ℕ, zero, suc, ◌+◌, ◌%◌, ◌≤◌, ◌≡◌, ◌≢◌, refl, true, false, Option, none, some, List, [], ◌∷◌,
  arith, ◌∙◌, sym, ap, inl, inr, if◌then◌else◌, Option-cases, length, take,
}
use boredom_os.SdData.{
  Card, log_file, log_index_file, SdData, get_log_file_name, write_log_index, write_raw,
  write_all_raw, append_bytes, notify_opened, close_data_file, open_data_file, open_next_slot,
}

module _ (c : Card) where
  open c use {
    World, read_size, read_bytes, exists, remove, open_append, open_write, seek, write_bytes, flush,
    close, size,
  }

  -- The size of a slot's file as its directory entry has it, which is what opening it for reading
  -- shows: 0 for a file that is absent. The handle that writes the file has its own size, `size`.
  unfoldable pub synced_size : ℕ → World → ℕ
  synced_size n w = elim (read_size (log_file n) w) [ none ↦ 0 | some bytes ↦ bytes ]

  -- The bytes of the index.
  abbrev pub index_of : World → Option (List ℕ)
  index_of w = read_bytes log_index_file 4 w

  -- What the SD library does with them. Only a sync, in a flush or a close, brings a directory entry
  -- up to the handle's size; a write changes the handle's size alone, and adds at most its bytes.
  pub record Durable : Type 0 where
    pub close_syncs :
        (m : ℕ) (w : World) → synced_size m (close (log_file m) w) ≡ size (log_file m) w
    pub close_other :
        (m n : ℕ) (w : World) → n ≢ m → synced_size n (close (log_file m) w) ≡ synced_size n w
    pub close_index : (n : ℕ) (w : World) → synced_size n (close log_index_file w) ≡ synced_size n w
    pub index_close : (n : ℕ) (w : World) → index_of (close (log_file n) w) ≡ index_of w
    pub remove_empties : (m : ℕ) (w : World) → synced_size m (remove (log_file m) w) ≡ 0
    pub remove_other :
        (m n : ℕ) (w : World) → n ≢ m → synced_size n (remove (log_file m) w) ≡ synced_size n w
    pub index_remove : (m : ℕ) (w : World) → index_of (remove (log_file m) w) ≡ index_of w
    pub absent_empty : (n : ℕ) (w : World) → exists (log_file n) w ≡ false → synced_size n w ≡ 0
    pub index_opens : (w : World) → (open_write log_index_file w).0 ≡ true
    pub open_write_other :
        (n : ℕ) (w : World) → synced_size n (open_write log_index_file w).1 ≡ synced_size n w
    pub seek_other : (n : ℕ) (w : World) → synced_size n (seek log_index_file 0 w) ≡ synced_size n w
    pub write_index_other :
        (n : ℕ) (bytes : List ℕ) (w : World)
        → synced_size n (write_bytes log_index_file bytes w) ≡ synced_size n w
    pub flush_index_other :
        (n : ℕ) (w : World) → synced_size n (flush log_index_file w) ≡ synced_size n w
    pub index_kept :
        (bytes : List ℕ) (w : World)
        → length bytes ≡ 4
        → index_of (
            close log_index_file
              (flush log_index_file (write_bytes log_index_file bytes (seek log_index_file 0 w))))
          ≡ some bytes
    -- A handle for appending starts from the directory entry.
    pub open_append_same :
        (m : ℕ) (w : World) → synced_size m (open_append (log_file m) w).1 ≡ synced_size m w
    pub open_append_size :
        (m : ℕ) (w : World)
        → (open_append (log_file m) w).0 ≡ true
        → size (log_file m) (open_append (log_file m) w).1 ≡ synced_size m w
    pub index_open_append :
        (m : ℕ) (w : World) → index_of (open_append (log_file m) w).1 ≡ index_of w
    pub write_unsynced :
        (m : ℕ) (bytes : List ℕ) (w : World)
        → synced_size m (write_bytes (log_file m) bytes w) ≡ synced_size m w
    pub write_size :
        (m : ℕ) (bytes : List ℕ) (w : World)
        → size (log_file m) (write_bytes (log_file m) bytes w) ≤ size (log_file m) w + length bytes
    pub index_write :
        (m : ℕ) (bytes : List ℕ) (w : World)
        → index_of (write_bytes (log_file m) bytes w) ≡ index_of w
    pub flush_syncs :
        (m : ℕ) (w : World) → synced_size m (flush (log_file m) w) ≡ size (log_file m) w
    pub flush_size :
        (m : ℕ) (w : World) → size (log_file m) (flush (log_file m) w) ≡ size (log_file m) w
    pub index_flush : (m : ℕ) (w : World) → index_of (flush (log_file m) w) ≡ index_of w

  -- Where a cut can fall: before the rotation, after the file is closed, after the next slot is
  -- deleted, after the index is written, after the slot is opened, and after some of what the
  -- callback writes.
  pub data Cut : Type 0 where
    before closed removed indexed opened : Cut
    writing : ℕ → Cut

  -- The members once the rotation has moved on.
  abbrev pub moved_on : SdData c → World → SdData c
  moved_on d w =
      let (d, w) = close_data_file c d w in
      record d { since_flush = 0; file_idx = (d.file_idx + 1) % d.files }

  -- What the callback hands over.
  abbrev pub preamble_of : SdData c → World → List (Option (List ℕ))
  preamble_of d w = elim d.on_open [ none ↦ [] | some callback ↦ callback w ]

  -- The card after each step of `openNextSlot`.
  unfoldable pub after_close : SdData c → World → World
  after_close d w = (close_data_file c d w).1

  unfoldable pub after_remove : SdData c → World → World
  unfolding after_close
  after_remove d w =
      let name = get_log_file_name (moved_on d w).file_idx in
      let w' = after_close d w in if exists name w' then remove name w' else w'

  unfoldable pub after_index : SdData c → World → World
  unfolding after_remove
  after_index d w = write_log_index c (moved_on d w) (after_remove d w)

  unfoldable pub after_open : SdData c → World → SdData c × World
  unfolding after_index
  after_open d w = open_data_file c (moved_on d w) (after_index d w)

  -- The card as the cut leaves it.
  unfoldable pub cut_rotation : Cut → SdData c → World → World
  unfolding after_close after_remove after_index after_open
  cut_rotation before d w = w
  cut_rotation closed d w = after_close d w
  cut_rotation removed d w = after_remove d w
  cut_rotation indexed d w = after_index d w
  cut_rotation opened d w = (after_open d w).1
  cut_rotation (writing n) d w =
      let (d', w') = after_open d w in (write_all_raw c (take n (preamble_of d' w')) d' w').1

  -- What the callback can add to the file.
  abbrev pub total_size : List (Option (List ℕ)) → ℕ
  total_size [] = 0
  total_size (none ∷ rest) = total_size rest
  total_size (some bytes ∷ rest) = length bytes + total_size rest

  pub total_size-take :
      (n : ℕ) (all : List (Option (List ℕ))) → total_size (take n all) ≤ total_size all
  total_size-take zero all = omega arith
  total_size-take (suc n) [] = omega arith
  total_size-take (suc n) (none ∷ rest) = total_size-take n rest
  total_size-take (suc n) (some bytes ∷ rest) = omega (arith, total_size-take n rest)

  take_all : (all : List (Option (List ℕ))) → take (length all) all ≡ all
  take_all [] = refl
  take_all (x ∷ rest) = ap (λ xs. x ∷ xs) (take_all rest)

  write_nowhere :
      (all : List (Option (List ℕ))) (d : SdData c) (w : World)
      → d.data_file ≡ none
      → (write_all_raw c all d w).1 ≡ w
  unfolding write_all_raw write_raw append_bytes
  write_nowhere [] d w e = refl
  write_nowhere (bytes ∷ rest) d w e =
      let (d', w') = write_raw c bytes d w in
      let same : w' ≡ w = ground (arith, e) in
      let still : d'.data_file ≡ none = ground (arith, e) in write_nowhere rest d' w' still ∙ same

  notified :
      (d : SdData c) (w : World)
      → (notify_opened c d w).1 ≡ (write_all_raw c (preamble_of d w) d w).1
  unfolding notify_opened write_all_raw
  notified d w = elim (Option-cases d.on_open) [
    | inl e ↦ ground (arith, e)
    | inr (callback, e) ↦ elim (Option-cases d.data_file) [
      | inl f ↦ ground (arith, e, f, write_nowhere (callback w) d w f)
      | inr (name, f) ↦ ground (arith, e, f)
    ]
  ]

  -- The steps are those of the rotation: with all that the callback writes, the card is as
  -- `openNextSlot` leaves it.
  pub whole_rotation :
      (d : SdData c) (w : World)
      → let all = preamble_of (after_open d w).0 (after_open d w).1 in
        (open_next_slot c d w).1 ≡ cut_rotation (writing (length all)) d w
  unfolding open_next_slot cut_rotation get_log_file_name
  whole_rotation d w =
      let (d', w') = after_open d w in
      notified d' w'
      ∙ ap (λ all. (write_all_raw c all d' w').1) (sym (take_all (preamble_of d' w')))
