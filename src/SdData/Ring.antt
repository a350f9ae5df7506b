-- ===== src/SdData/Ring.antt =====
-- Which slot of the ring is written: the search at the start, the rotation, the range of the index.
use boredom_os.Prelude.{
  ℕ, zero, suc, ◌+◌, ◌%◌, ◌≤◌, ◌<◌, ◌≡◌, refl, true, false, Option, none, some, List, [], ◌∷◌,
  arith, ◌∙◌, sym, ◌⊎◌, inl, inr, Bool-cases, Option-cases,
}
use boredom_os.SdData.{
  Card, log_file, SdData, read_log_index, slot_is_full, write_raw, write_all_raw, get_log_file_name,
  notify_opened, close_data_file, open_data_file, open_next_slot, find_resume, start_slot, begin,
}

module _ (c : Card) where
  open c use {World, close}

  -- What no operation but an opening changes.
  pub record SameRing (d d' : SdData c) : Type 0 where
    pub file_idx : d'.file_idx ≡ d.file_idx
    pub files : d'.files ≡ d.files
    pub limit : d'.limit ≡ d.limit
    pub data_file : d'.data_file ≡ d.data_file

  pub write_raw-SameRing :
      (bytes : Option (List ℕ)) (d : SdData c) (w : World) → SameRing d (write_raw c bytes d w).0
  unfolding write_raw
  write_raw-SameRing bytes d w = ground arith

  write_all_raw-SameRing :
      (all : List (Option (List ℕ))) (d : SdData c) (w : World)
      → SameRing d (write_all_raw c all d w).0
  unfolding write_all_raw
  write_all_raw-SameRing [] d w = record {
    file_idx = refl;
    files = refl;
    limit = refl;
    data_file = refl;
  }
  write_all_raw-SameRing (bytes ∷ rest) d w =
      let (d', w') = write_raw c bytes d w in
      let a = write_raw-SameRing bytes d w in
      let b = write_all_raw-SameRing rest d' w' in
      record {
        file_idx = b.file_idx ∙ a.file_idx;
        files = b.files ∙ a.files;
        limit = b.limit ∙ a.limit;
        data_file = b.data_file ∙ a.data_file;
      }

  pub notify_opened-SameRing : (d : SdData c) (w : World) → SameRing d (notify_opened c d w).0
  unfolding notify_opened
  notify_opened-SameRing d w = elim (Option-cases d.on_open) [
    | inl e ↦ ground arith
    | inr (callback, e) ↦ ground (arith, write_all_raw-SameRing (callback w) d w)
  ]

  pub close_data_file_lem :
      (d : SdData c) (w : World)
      → let d' = (close_data_file c d w).0 in
        (d'.file_idx ≡ d.file_idx)
        × (d'.files ≡ d.files)
        × (d'.limit ≡ d.limit)
        × (d'.data_file ≡ none)
  unfolding close_data_file
  close_data_file_lem d w = ground arith

  -- An opened log: the slot of the ring that the members name, or nothing if the card refuses.
  unfoldable pub Opens : ℕ → ℕ → ℕ → SdData c → Type 0
  Opens idx files limit d =
      (d.file_idx ≡ idx)
      × (d.files ≡ files)
      × (d.limit ≡ limit)
      × ((d.data_file ≡ none) ⊎ (d.data_file ≡ some (log_file idx)))

  open_data_file_lem :
      (d : SdData c) (w : World) → Opens d.file_idx d.files d.limit (open_data_file c d w).0
  unfolding Opens open_data_file get_log_file_name
  open_data_file_lem d w = ground arith

  SameRing-Opens : (i f l : ℕ) (d d' : SdData c) → Opens i f l d → SameRing d d' → Opens i f l d'
  unfolding Opens
  SameRing-Opens i f l d d' o s = (
    s.file_idx ∙ o.0,
    s.files ∙ o.1,
    s.limit ∙ o.2,
    elim o.3 [ inl e ↦ inl (s.data_file ∙ e) | inr e ↦ inr (s.data_file ∙ e) ],
  )

  pub opened_lem :
      (d : SdData c) (w : World)
      → let (d', w') = open_data_file c d w in
        Opens d.file_idx d.files d.limit (notify_opened c d' w').0
  opened_lem d w =
      let (d', w') = open_data_file c d w in
      SameRing-Opens _ _ _ d' _ (open_data_file_lem d w) (notify_opened-SameRing d' w')

  close_data_file-Opens :
      (d : SdData c) (w : World) (d'' : SdData c)
      → let d' = (close_data_file c d w).0 in
        Opens ((d'.file_idx + 1) % d'.files) d'.files d'.limit d''
        → Opens ((d.file_idx + 1) % d.files) d.files d.limit d''
  unfolding Opens
  close_data_file-Opens d w d'' o = let a = close_data_file_lem d w in ground arith

  -- A rotation moves to the next slot of the ring; the file that is then open is that slot's, or
  -- none if the card refuses; the number of files and the limit stay.
  pub open_next_slot_lem :
      (d : SdData c) (w : World)
      → Opens ((d.file_idx + 1) % d.files) d.files d.limit (open_next_slot c d w).0
  unfolding open_next_slot
  open_next_slot_lem d w =
      let (d', w') = close_data_file c d w in
      let e = record d' { since_flush = 0; file_idx = (d'.file_idx + 1) % d'.files } in
      close_data_file-Opens d w _ (opened_lem e _)

  le-cases : (a b : ℕ) → a ≤ b → (a ≡ b) ⊎ (a + 1 ≤ b)
  le-cases a b h = ground arith

  -- The search: what it returns is the first slot from the index, in the ring's order, that is not
  -- full.
  pub find_resume_found :
      (n s i : ℕ) (d : SdData c) (w : World) (slot : ℕ)
      → find_resume c n s i d w ≡ some slot
      → (k : ℕ) × (s ≤ k)
        × (k < s + n)
        × (slot ≡ (i + k) % d.files)
        × (slot_is_full c d slot w ≡ false)
        × ((j : ℕ) → s ≤ j → j < k → slot_is_full c d ((i + j) % d.files) w ≡ true)
  unfolding find_resume
  find_resume_found zero s i d w slot e = ground arith
  find_resume_found (suc n) s i d w slot e =
      elim (Bool-cases (slot_is_full c d ((i + s) % d.files) w)) [
        | inl full ↦
            let h : find_resume c n (s + 1) i d w ≡ some slot = ground arith in
            let (k, a, b, at, free, before) = find_resume_found n (s + 1) i d w slot h in
            (
              k,
              omega arith,
              omega arith,
              at,
              free,
              λ j le lt. elim (le-cases s j le) [
                | inl same ↦ rw (sym same) full
                | inr more ↦ before j more lt
              ],
            )
        | inr free ↦
            let h : slot ≡ (i + s) % d.files = ground arith in
            (s, omega arith, omega arith, h, rw (h) free, λ j le lt. ground arith)
      ]

  pub find_resume_missing :
      (n s i : ℕ) (d : SdData c) (w : World)
      → find_resume c n s i d w ≡ none
      → (j : ℕ) → s ≤ j
      → j < s + n
      → slot_is_full c d ((i + j) % d.files) w ≡ true
  unfolding find_resume
  find_resume_missing zero s i d w e j le lt = ground arith
  find_resume_missing (suc n) s i d w e j le lt = elim (le-cases s j le) [
    | inl same ↦ rw (sym same) (ground arith)
    | inr more ↦
        let h : find_resume c n (s + 1) i d w ≡ none = ground arith in
        find_resume_missing n (s + 1) i d w h j more (omega arith)
  ]

  -- The slot that a start resumes: the first of the ring, from the index on, that has room.
  unfoldable pub Resumes : ℕ → ℕ → SdData c → World → Type 0
  Resumes indexed slot d w =
      (k : ℕ) × (k < d.files)
      × (slot ≡ (indexed + k) % d.files)
      × (slot_is_full c d slot w ≡ false)
      × ((j : ℕ) → j < k → slot_is_full c d ((indexed + j) % d.files) w ≡ true)

  start_slot_lem :
      (d : SdData c) (w : World) → Opens d.file_idx d.files d.limit (start_slot c d w).0
  unfolding start_slot
  start_slot_lem d w =
      let (d', w') = open_data_file c d w in
      elim (Option-cases d'.data_file) [
        | inl e ↦ rw (start_slot, e) (open_data_file_lem d w)
        | inr (name, e) ↦ rw (start_slot, e) (opened_lem d w)
      ]

  begin_resuming :
      (d : SdData c) (w : World) (slot : ℕ)
      → let (d', w') = close_data_file c d w in
        find_resume c d'.files 0 (read_log_index c d' w') d' w' ≡ some slot
        → Opens slot d'.files d'.limit (begin c d w).0
  unfolding begin
  begin_resuming d w slot e =
      let (d', w') = close_data_file c d w in
      rw (begin, e) (start_slot_lem (record d' { file_idx = slot }) _)

  begin_rotating :
      (d : SdData c) (w : World)
      → let (d', w') = close_data_file c d w in
        let i = read_log_index c d' w' in
        find_resume c d'.files 0 i d' w' ≡ none
        → Opens ((i + 1) % d'.files) d'.files d'.limit (begin c d w).0
  unfolding begin
  begin_rotating d w e =
      let (d', w') = close_data_file c d w in
      rw (begin, e) (open_next_slot_lem (record d' { file_idx = read_log_index c d' w' }) w')

  -- A start resumes in the first slot of the ring, in order from the index on, that is not full;
  -- if all are full, it rotates to the slot after the index. The file that is then open, if the
  -- card opened one, is that slot's, and the number of files and the limit stay.
  pub first_free_slot :
      (d : SdData c) (w : World)
      → let (d', w') = close_data_file c d w in
        let i = read_log_index c d' w' in
        let after = (begin c d w).0 in
        ((slot : ℕ) × Resumes i slot d' w' × Opens slot d'.files d'.limit after)
        ⊎ (((j : ℕ) → j < d'.files → slot_is_full c d' ((i + j) % d'.files) w' ≡ true)
            × Opens ((i + 1) % d'.files) d'.files d'.limit after)
  unfolding Resumes
  first_free_slot d w =
      let (d', w') = close_data_file c d w in
      let i = read_log_index c d' w' in
      elim (Option-cases (find_resume c d'.files 0 i d' w')) [
        | inl e ↦ inr (
          λ j lt. find_resume_missing d'.files 0 i d' w' e j (omega arith) (omega arith),
          begin_rotating d w e,
        )
        | inr (slot, e) ↦
            let (k, _, lt, at, free, before) = find_resume_found d'.files 0 i d' w' slot e in
            inl (
              slot,
              (k, omega arith, at, free, λ j less. before j (omega arith) less),
              begin_resuming d w slot e,
            )
      ]
