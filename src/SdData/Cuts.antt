-- ===== src/SdData/Cuts.antt =====
-- The start after a power cut in a rotation.
use boredom_os.Prelude.{
  ℕ, ◌+◌, ◌%◌, ◌^◌, ◌≤◌, ◌<◌, ◌≡◌, ◌≢◌, refl, true, false, Option, none, some, List, arith, leb,
  ◌∙◌, sym, ap, ◌⊎◌, inl, inr, leb_cases, length, subst, ltb, Option-cases, if◌then◌else◌, eq_cases,
}
use boredom_os.SdData.{
  Card, log_file, SdData, read_log_index, slot_is_full, get_log_file_name, open_next_slot, begin,
  new_log, set_on_open,
}
use native.Mathlib.Nat.{mod-lt, mod-eq_of_lt, mod_self}
use boredom_os.SdData.Durable.{
  synced_size, index_of, Durable, Cut, before, closed, removed, indexed, opened, writing, moved_on,
  preamble_of, after_close, after_remove, after_index, after_open, cut_rotation, total_size,
  whole_rotation,
}
use boredom_os.SdData.Rotating.{
  after_close_lem, closed_size, after_remove_lem, after_index_lem, after_open_lem, writing_lem,
  slot_lem, files_lem,
}
use boredom_os.SdData.Restarts.{next_boot, start_free, start_next, start_full}

module _ (c : Card) where
  open c use {
    World, read_size, read_bytes, exists, remove, open_append, open_write, seek, write_bytes, flush,
    close, size,
  }

  -- A slot that has filled up, as its handle counts, or as the card shows it if none is open.
  abbrev pub Filled : SdData c → World → Type 0
  Filled d w =
      ((d.data_file ≡ none) × (d.limit ≤ synced_size c d.file_idx w))
      ⊎ ((d.data_file ≡ some (log_file d.file_idx)) × (d.limit ≤ size (log_file d.file_idx) w))

  -- The start after a cut.
  module _ (laws : Durable c) (d : SdData c) (w : World)
      (callback : Option (World → List (Option (List ℕ)))) (at_least_two : 1 < d.files)
      (small : d.files < 2 ^ 31) (in_ring : d.file_idx < d.files)
      (indexed_here : read_log_index c d w ≡ d.file_idx) (filled : Filled d w)
      (some_room : 0 < d.limit) where
    abbrev restart : World → SdData c
    restart w' = (begin c (next_boot c d.files d.limit callback) w').0

    abbrev target : ℕ
    target = (d.file_idx + 1) % d.files

    abbrev held : (d.data_file ≡ none) ⊎ (d.data_file ≡ some (log_file d.file_idx))
    held = elim filled [ inl x ↦ inl x.0 | inr x ↦ inr x.0 ]

    -- A slot is full by the size that is synced.
    by_size :
        (n : ℕ) (w' : World)
        → slot_is_full c (next_boot c d.files d.limit callback) n w'
          ≡ leb d.limit (synced_size c n w')
    unfolding slot_is_full get_log_file_name new_log set_on_open synced_size
    by_size n w' = elim (Option-cases (read_size (log_file n) w')) [
      | inl e ↦ rw (e, slot_is_full, synced_size) (ground (arith, some_room))
      | inr (bytes, e) ↦ rw (e, slot_is_full, synced_size) refl
    ]

    is_full :
        (n : ℕ) (w' : World)
        → d.limit ≤ synced_size c n w'
        → slot_is_full c (next_boot c d.files d.limit callback) n w' ≡ true
    is_full n w' le = by_size n w' ∙ ground (arith, le)

    has_room :
        (n : ℕ) (w' : World)
        → synced_size c n w' < d.limit
        → slot_is_full c (next_boot c d.files d.limit callback) n w' ≡ false
    has_room n w' lt = by_size n w' ∙ ground (arith, lt)

    index_same :
        (w' : World)
        → index_of c w' ≡ index_of c w
        → read_log_index c (next_boot c d.files d.limit callback) w' ≡ d.file_idx
    unfolding read_log_index new_log set_on_open
    index_same w' e = rw (e, read_log_index) indexed_here

    target_lt : target < d.files
    target_lt = mod-lt (d.file_idx + 1) (omega (arith, at_least_two))

    distinct : d.file_idx ≢ target
    distinct same = elim (leb_cases d.files (d.file_idx + 1)) [
      | inl last ↦
          let ends : d.file_idx + 1 ≡ d.files = omega (arith, last, in_ring) in
          let wraps : target ≡ 0 = rw (ends) (mod_self d.files) in
          omega (arith, same, wraps, ends, at_least_two)
      | inr inside ↦ omega (arith, same, mod-eq_of_lt {n = d.file_idx + 1} {m = d.files} inside)
    ]

    goes_on :
        (w' : World)
        → let boot = next_boot c d.files d.limit callback in
          read_log_index c boot w' ≡ d.file_idx
          → slot_is_full c boot d.file_idx w' ≡ true
          → slot_is_full c boot target w' ≡ false
          → (restart w').file_idx ≡ target
    goes_on w' at full free =
        let boot = next_boot c d.files d.limit callback in
        let after = ap (λ i. (i + 1) % d.files) at in
        start_next c d.files d.limit callback w' at_least_two
          (subst (λ i. i < d.files) (sym at) in_ring) (ap (λ i. slot_is_full c boot i w') at ∙ full)
          (ap (λ i. slot_is_full c boot i w') after ∙ free)
        ∙ after

    -- Every other slot is full, or the next one is not.
    abbrev pub Beside : World → Type 0
    Beside w' =
        ((j : ℕ) → j < d.files → j ≢ d.file_idx → d.limit ≤ synced_size c j w')
        ⊎ (synced_size c target w' < d.limit)

    -- The index still names the slot that has filled up, and the card shows it full.
    kept :
        (w' : World)
        → d.limit ≤ synced_size c d.file_idx w'
        → index_of c w' ≡ index_of c w
        → Beside w'
        → (restart w').file_idx ≡ target
    unfolding new_log set_on_open
    kept w' full index (inl others) =
        start_full c d.files d.limit callback w' at_least_two (λ j lt.
          elim (eq_cases j d.file_idx) [
            | inl same ↦ is_full j w' (subst (λ n. d.limit ≤ synced_size c n w') (sym same) full)
            | inr other ↦ is_full j w' (others j lt other)
          ])
        ∙ ap (λ i. (i + 1) % d.files) (index_same w' index)
    kept w' full index (inr free) =
        goes_on w' (index_same w' index) (is_full d.file_idx w' full) (has_room target w' free)

    -- The index still names the slot that has filled up, and the card shows less of it.
    unsynced :
        (w' : World)
        → synced_size c d.file_idx w' < d.limit
        → index_of c w' ≡ index_of c w
        → (restart w').file_idx ≡ d.file_idx
    unfolding new_log set_on_open
    unsynced w' less index =
        let at = index_same w' index in
        start_free c d.files d.limit callback w' at_least_two
          (subst (λ i. i < d.files) (sym at) in_ring)
          (ap (λ i. slot_is_full c (next_boot c d.files d.limit callback) i w') at
            ∙ has_room d.file_idx w' less)
        ∙ at

    -- The index names the next slot, which shows less than its limit.
    moved :
        (w' : World)
        → read_log_index c d w' ≡ target
        → synced_size c target w' < d.limit
        → (restart w').file_idx ≡ target
    unfolding read_log_index new_log set_on_open
    moved w' index room =
        let boot = next_boot c d.files d.limit callback in
        let at : read_log_index c boot w' ≡ target = index in
        start_free c d.files d.limit callback w' at_least_two
          (subst (λ i. i < d.files) (sym at) target_lt)
          (ap (λ i. slot_is_full c boot i w') at ∙ has_room target w' room)
        ∙ at

    -- The index that a start reads depends on the number of files and the card only.
    moved_index : (w' : World) → read_log_index c (moved_on c d w) w' ≡ read_log_index c d w'
    unfolding read_log_index
    moved_index w' = ground (arith, files_lem c laws d w d.file_idx held)

    index_by :
        (w' w'' : World)
        → index_of c w' ≡ index_of c w''
        → read_log_index c d w' ≡ read_log_index c d w''
    unfolding read_log_index
    index_by w' w'' e = rw (e, read_log_index) refl

    at_target : (moved_on c d w).file_idx ≡ target
    at_target = slot_lem c laws d w d.file_idx held

    index_at_target :
        (synced_size c target (after_index c d w) ≡ 0)
        × (read_log_index c d (after_index c d w) ≡ target)
    index_at_target =
        let lt = subst (λ i. i < d.files) (sym at_target) target_lt in
        let (gone, index) = after_index_lem c laws d w d.file_idx held lt small in
        (
          subst (λ i. synced_size c i (after_index c d w) ≡ 0) at_target gone,
          sym (moved_index (after_index c d w)) ∙ index ∙ at_target,
        )

    -- From the opening of the next slot on.
    opened_on :
        (w' : World) (most : ℕ)
        → (synced_size c (moved_on c d w).file_idx w' ≤ most)
          × (index_of c w' ≡ index_of c (after_index c d w))
        → most < d.limit
        → (restart w').file_idx ≡ target
    opened_on w' most (le, same) fits =
        let here = subst (λ i. synced_size c i w' ≤ most) at_target le in
        moved w' (index_by w' (after_index c d w) same ∙ index_at_target.1)
          (omega (arith, here, fits))

    -- After the close, whatever had been synced before, the slot that has filled up shows it.
    closed_full : d.limit ≤ synced_size c d.file_idx (after_close c d w)
    closed_full = closed_size c laws d w d.file_idx held d.limit filled

    Beside-closed : Beside w → Beside (after_close c d w)
    Beside-closed next =
        let (sizes, _) = after_close_lem c laws d w d.file_idx held in
        elim next as (λ _. Beside (after_close c d w)) [
          | inl others ↦ inl (λ j lt other. omega (arith, others j lt other, sizes j other))
          | inr free ↦ inr (omega (arith, free, sizes target (λ same. distinct (sym same))))
        ]

    -- Where the next start goes on.
    abbrev pub resume_slot : Cut c → ℕ
    resume_slot before = if ltb (synced_size c d.file_idx w) d.limit then d.file_idx else target
    resume_slot closed = target
    resume_slot removed = target
    resume_slot indexed = target
    resume_slot opened = target
    resume_slot (writing n) = target

    resumes_at :
        (cut : Cut c)
        → Beside w
        → total_size c (preamble_of c (after_open c d w).0 (after_open c d w).1) < d.limit
        → (begin c (next_boot c d.files d.limit callback) (cut_rotation c cut d w)).0.file_idx
          ≡ resume_slot cut
    unfolding cut_rotation
    resumes_at before next fits = elim (leb_cases d.limit (synced_size c d.file_idx w)) [
      | inl full ↦ kept w full refl next ∙ ground (arith, full)
      | inr less ↦ unsynced w less refl ∙ ground (arith, less)
    ]
    resumes_at closed next fits =
        let (_, index) = after_close_lem c laws d w d.file_idx held in
        kept (after_close c d w) closed_full index (Beside-closed next)
    resumes_at removed next fits =
        let (gone, others, index) = after_remove_lem c laws d w d.file_idx held in
        let same = others d.file_idx (λ same. distinct (same ∙ at_target)) in
        let empty = subst (λ i. synced_size c i (after_remove c d w) ≡ 0) at_target gone in
        kept (after_remove c d w) (omega (arith, closed_full, same)) index
          (inr (omega (arith, empty, some_room)))
    resumes_at indexed next fits =
        moved (after_index c d w) index_at_target.1 (omega (arith, index_at_target.0, some_room))
    resumes_at opened next fits =
        let lt = subst (λ i. i < d.files) (sym at_target) target_lt in
        opened_on (after_open c d w).1 0 (after_open_lem c laws d w d.file_idx held lt small)
          some_room
    resumes_at (writing n) next fits =
        let lt = subst (λ i. i < d.files) (sym at_target) target_lt in
        opened_on _ _ (writing_lem c laws d w d.file_idx held n lt small) fits

    -- A power cut anywhere in a rotation of a ring of at least two files, and fewer than 2 ^ 31:
    -- before it, after any of its steps, or after any part of what the callback writes. A card
    -- shows a log as far as it is synced. If the slot has filled up by its handle's count, or as
    -- the card shows it if none is open, the index names it, either every other slot is full or the
    -- next one is not, and what the callback writes is below the limit, then the next boot's start
    -- goes on in the slot that the rotation was moving to; only before the close, while less than
    -- the limit is synced, it goes on in the slot that has filled up. The last of these cards is
    -- the one that the whole rotation leaves.
    pub cut_resumes :
        (cut : Cut c)
        → Beside w
        → total_size c (preamble_of c (after_open c d w).0 (after_open c d w).1) < d.limit
        → ((begin c (next_boot c d.files d.limit callback) (cut_rotation c cut d w)).0.file_idx
            ≡ resume_slot cut)
          × ((open_next_slot c d w).1
              ≡ cut_rotation c
                  (writing (length (preamble_of c (after_open c d w).0 (after_open c d w).1)))
                  d
                  w)
    cut_resumes cut next fits = (resumes_at cut next fits, whole_rotation c d w)
