-- ===== src/SdData/Rotating.antt =====
-- The sizes and the index after each step of a rotation.
use boredom_os.Prelude.{
  ℕ, ◌+◌, ◌%◌, ◌^◌, ◌≤◌, ◌<◌, ◌≡◌, ◌≢◌, refl, Option, none, some, List, [], ◌∷◌, arith, ◌==◌, ◌∙◌,
  ap, sym, ◌⊎◌, inl, inr, Bool-cases, length, take, subst,
}
use boredom_os.SdData.{
  Card, log_file, log_index_file, SdData, read_log_index, get_log_file_name, write_log_index,
  write_raw, write_all_raw, append_bytes, close_data_file, open_data_file, bytes_of_int,
}
use boredom_os.SdData.Ring.{write_raw-SameRing, close_data_file_lem}
use boredom_os.SdData.Resuming.{read_log_index-write_log_index}
use boredom_os.SdData.Durable.{
  synced_size, index_of, Durable, writing, moved_on, preamble_of, after_close, after_remove,
  after_index, after_open, cut_rotation, total_size, total_size-take,
}

module _ (c : Card) where
  open c use {
    World, read_size, read_bytes, exists, remove, open_append, open_write, seek, write_bytes, flush,
    close, size,
  }

  total_step :
      (bytes : Option (List ℕ)) (rest : List (Option (List ℕ))) (most size : ℕ)
      → size ≤ most + total_size c (bytes ∷ []) + total_size c rest
      → size ≤ most + total_size c (bytes ∷ rest)
  total_step none rest most size le = omega arith
  total_step (some bytes) rest most size le = omega arith

  module _ (laws : Durable c) where
    open laws use {
      close_syncs, close_other, close_index, index_close, remove_empties, remove_other,
      index_remove, absent_empty, index_opens, open_write_other, seek_other, write_index_other,
      flush_index_other, index_kept, open_append_same, open_append_size, index_open_append,
      write_unsynced, write_size, index_write, flush_syncs, flush_size, index_flush,
    }

    -- No file is open, or this one, with at most so many bytes.
    abbrev pub Room : ℕ → ℕ → SdData c → World → Type 0
    Room m most d w =
        (d.data_file ≡ none) ⊎ ((d.data_file ≡ some (log_file m)) × (size (log_file m) w ≤ most))

    -- What holds of the slot that the rotation moves to, from its opening on.
    abbrev pub Holds : ℕ → ℕ → Option (List ℕ) → World → Type 0
    Holds m most index w = (synced_size c m w ≤ most) × (index_of c w ≡ index)

    flushed-Holds :
        (m most : ℕ) (index : Option (List ℕ)) (w w' : World)
        → w' ≡ flush (log_file m) w
        → size (log_file m) w ≤ most
        → index_of c w ≡ index
        → (size (log_file m) w' ≤ most) × Holds m most index w'
    flushed-Holds m most index w w' at le i = (
      omega (arith, le, ap (size (log_file m)) at, flush_size m w),
      (
        omega (arith, le, ap (synced_size c m) at, flush_syncs m w),
        ap (index_of c) at ∙ index_flush m w ∙ i,
      ),
    )

    write_raw-Holds :
        (m most : ℕ) (index : Option (List ℕ)) (bytes : Option (List ℕ)) (d : SdData c) (w : World)
        → Room m most d w
        → Holds m most index w
        → let (d', w') = write_raw c bytes d w in
          Room m (most + total_size c (bytes ∷ [])) d' w'
          × Holds m (most + total_size c (bytes ∷ [])) index w'
    unfolding write_raw append_bytes
    write_raw-Holds m most index bytes d w (inl e) (le, i) =
        let same : (write_raw c bytes d w).1 ≡ w = ground (arith, e) in
        (
          inl ((write_raw-SameRing c bytes d w).data_file ∙ e),
          (omega (arith, le, ap (synced_size c m) same), ap (index_of c) same ∙ i),
        )
    write_raw-Holds m most index none d w (inr (e, room)) (le, i) =
        let flushed : (write_raw c none d w).1 ≡ flush (log_file m) w =
          rw (write_raw, e) (ap (flush (log_file m)) (rw (append_bytes, e) refl)) in
        let (size, held) = flushed-Holds m (most + 0) index w _ flushed (omega (arith, room)) i in
        (inr ((write_raw-SameRing c none d w).data_file ∙ e, size), held)
    write_raw-Holds m most index (some bytes) d w (inr (e, room)) (le, i) =
        let most' = most + (length bytes + 0) in
        let still = (write_raw-SameRing c (some bytes) d w).data_file ∙ e in
        elim (Bool-cases (length bytes == 0)) [
          | inl nothing ↦
              let flushed : (write_raw c (some bytes) d w).1 ≡ flush (log_file m) w =
                rw (write_raw, e) (ap (flush (log_file m)) (rw (append_bytes, e, nothing) refl)) in
              let (size, held) = flushed-Holds m most' index w _ flushed (omega (arith, room)) i in
              (inr (still, size), held)
          | inr more ↦
              let written = write_bytes (log_file m) bytes w in
              let flushed : (write_raw c (some bytes) d w).1 ≡ flush (log_file m) written =
                rw (write_raw, e) (ap (flush (log_file m)) (rw (append_bytes, e, more) refl)) in
              let (size, held) =
                flushed-Holds m most' index written _ flushed
                  (omega (arith, room, write_size m bytes w)) (index_write m bytes w ∙ i) in
              (inr (still, size), held)
        ]

    write_all_raw-Holds :
        (all : List (Option (List ℕ))) (m most : ℕ) (index : Option (List ℕ)) (d : SdData c)
        (w : World)
        → Room m most d w
        → Holds m most index w
        → Holds m (most + total_size c all) index (write_all_raw c all d w).1
    unfolding write_all_raw
    write_all_raw-Holds [] m most index d w o (le, i) = (omega (arith, le), i)
    write_all_raw-Holds (bytes ∷ rest) m most index d w o h =
        let (d', w') = write_raw c bytes d w in
        let (still, first) = write_raw-Holds m most index bytes d w o h in
        let (le, i) =
          write_all_raw-Holds rest m (most + total_size c (bytes ∷ [])) index d' w' still first in
        (total_step bytes rest most (synced_size c m (write_all_raw c rest d' w').1) le, i)

    -- The steps, one after another, on an open file of the ring and the slot that comes next.
    module _ (d : SdData c) (w : World) (k : ℕ)
        (held : (d.data_file ≡ none) ⊎ (d.data_file ≡ some (log_file k))) where
      abbrev slot : ℕ
      slot = (moved_on c d w).file_idx

      pub slot_lem : slot ≡ (d.file_idx + 1) % d.files
      slot_lem = let (i, f, _, _) = close_data_file_lem c d w in rw (i, f) refl

      -- A file that was open is there with all of its bytes; the others are as they were.
      pub after_close_lem :
          ((n : ℕ) → n ≢ k → synced_size c n (after_close c d w) ≡ synced_size c n w)
          × (index_of c (after_close c d w) ≡ index_of c w)
      unfolding after_close close_data_file
      after_close_lem = elim held [
        | inl e ↦ (λ n other. rw (close_data_file, e) refl, rw (close_data_file, e) refl)
        | inr e ↦ (
          λ n other. rw (close_data_file, e) (close_other k n w other),
          rw (close_data_file, e) (index_close k w),
        )
      ]

      -- The file that was held, if any, shows the size of its handle.
      pub closed_size :
          (least : ℕ)
          → ((d.data_file ≡ none) × (least ≤ synced_size c k w))
            ⊎ ((d.data_file ≡ some (log_file k)) × (least ≤ size (log_file k) w))
          → least ≤ synced_size c k (after_close c d w)
      unfolding after_close close_data_file
      closed_size least (inl (e, le)) = rw (close_data_file, e) le
      closed_size least (inr (e, le)) = rw (close_data_file, e) (omega (arith, le, close_syncs k w))

      pub after_remove_lem :
          (synced_size c slot (after_remove c d w) ≡ 0)
          × ((n : ℕ)
              → n ≢ slot
              → synced_size c n (after_remove c d w) ≡ synced_size c n (after_close c d w))
          × (index_of c (after_remove c d w) ≡ index_of c w)
      unfolding after_remove get_log_file_name
      after_remove_lem =
          let w' = after_close c d w in
          let (sizes, index) = after_close_lem in
          elim (Bool-cases (exists (log_file slot) w')) [
            | inl there ↦ rw (there) (
              remove_empties slot w',
              λ n other. remove_other slot n w' other,
              index_remove slot w' ∙ index,
            )
            | inr absent ↦ rw (absent) (absent_empty slot w' absent, λ n other. refl, index)
          ]

      written_index_lem :
          (n : ℕ) (e : SdData c) (w : World)
          → synced_size c n (write_log_index c e w) ≡ synced_size c n w
      unfolding write_log_index
      written_index_lem n e w =
          let w1 = (open_write log_index_file w).1 in
          let w2 = seek log_index_file 0 w1 in
          let w3 = write_bytes log_index_file (bytes_of_int e.file_idx) w2 in
          let w4 = flush log_index_file w3 in
          rw (index_opens w) (
            close_index n w4
            ∙ flush_index_other n w3
            ∙ write_index_other n (bytes_of_int e.file_idx) w2
            ∙ seek_other n w1
            ∙ open_write_other n w)

      pub files_lem : (moved_on c d w).files ≡ d.files
      files_lem = (close_data_file_lem c d w).1

      pub after_index_lem :
          slot < d.files
          → d.files < 2 ^ 31
          → (synced_size c slot (after_index c d w) ≡ 0)
            × (read_log_index c (moved_on c d w) (after_index c d w) ≡ slot)
      unfolding after_index
      after_index_lem lt small = (
        written_index_lem slot (moved_on c d w) (after_remove c d w) ∙ after_remove_lem.0,
        read_log_index-write_log_index c (moved_on c d w) (after_remove c d w)
            (subst (λ (f : ℕ). slot < f) (sym files_lem) lt)
            (subst (λ (f : ℕ). f < 2 ^ 31) (sym files_lem) small) (index_opens (after_remove c d w))
            index_kept,
      )

      opened_slot :
          (synced_size c slot (after_index c d w) ≡ 0)
          → Room slot 0 (after_open c d w).0 (after_open c d w).1
      unfolding after_open open_data_file get_log_file_name
      opened_slot gone =
          let w' = after_index c d w in
          elim (Bool-cases (open_append (log_file slot) w').0) [
            | inl there ↦
                let fresh = open_append_size slot w' there ∙ gone in
                inr (ground (arith, there), omega (arith, fresh))
            | inr failed ↦ inl (ground (arith, failed))
          ]

      pub after_open_lem :
          slot < d.files
          → d.files < 2 ^ 31
          → Holds slot 0 (index_of c (after_index c d w)) (after_open c d w).1
      unfolding after_open open_data_file get_log_file_name
      after_open_lem lt small =
          let (gone, _) = after_index_lem lt small in
          (
            omega (arith, gone, open_append_same slot (after_index c d w)),
            index_open_append slot (after_index c d w),
          )

      pub writing_lem :
          (n : ℕ)
          → slot < d.files
          → d.files < 2 ^ 31
          → Holds slot
              (total_size c (preamble_of c (after_open c d w).0 (after_open c d w).1))
              (index_of c (after_index c d w))
              (cut_rotation c (writing n) d w)
      unfolding cut_rotation
      writing_lem n lt small =
          let (d', w') = after_open c d w in
          let all = preamble_of c d' w' in
          let (le, i) =
            write_all_raw-Holds (take n all) slot 0 (index_of c (after_index c d w)) d' w'
              (opened_slot (after_index_lem lt small).0) (after_open_lem lt small) in
          (omega (arith, le, total_size-take c n all), i)
