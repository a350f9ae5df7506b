-- ===== src/SdData/Restarts.antt =====
-- Where a start of lib/SdData goes on, by what its card holds.
use boredom_os.Prelude.{
  ℕ, zero, suc, ◌+◌, ◌%◌, ◌<◌, ◌≡◌, true, false, Option, List, arith, ◌∙◌, ap, inl, inr,
}
use boredom_os.SdData.{
  Card, SdData, read_log_index, slot_is_full, close_data_file, begin, new_log, set_on_open,
}
use boredom_os.SdData.Ring.{Opens, Resumes, first_free_slot}
use native.Mathlib.Nat.{mod-lt, mod-eq_of_lt, add-zero}

module _ (c : Card) where
  open c use {
    World, read_size, read_bytes, exists, remove, open_append, open_write, seek, write_bytes, flush,
    close,
  }

  -- The object of the next boot, with its callback.
  abbrev pub next_boot : ℕ → ℕ → Option (World → List (Option (List ℕ))) → SdData c
  next_boot files limit callback = set_on_open c callback (new_log c files limit)

  -- Where a start goes on: in the slot of the index, or in the one after it.
  module _ (files limit : ℕ) (callback : Option (World → List (Option (List ℕ)))) (w : World)
      (at_least_two : 1 < files) where
    abbrev pub boot : SdData c
    boot = next_boot files limit callback

    abbrev pub index : ℕ
    index = read_log_index c boot w

    pub start_free :
        index < files → slot_is_full c boot index w ≡ false → (begin c boot w).0.file_idx ≡ index
    unfolding Opens Resumes new_log set_on_open close_data_file
    start_free valid free =
        let home : (index + 0) % files ≡ index = rw (add-zero index) (mod-eq_of_lt valid) in
        elim (first_free_slot c boot w) [
          | inl (found, (zero, lt, at, room, full), o) ↦ o.0 ∙ at ∙ home
          | inl (found, (suc k, lt, at, room, full), o) ↦
              absurd (ground (arith, full 0 (omega arith), home, free))
          | inr (all, o) ↦ absurd (ground (arith, all 0 (omega (arith, at_least_two)), home, free))
        ]

    pub start_next :
        index < files
        → slot_is_full c boot index w ≡ true
        → slot_is_full c boot ((index + 1) % files) w ≡ false
        → (begin c boot w).0.file_idx ≡ (index + 1) % files
    unfolding Opens Resumes new_log set_on_open close_data_file
    start_next valid taken free =
        let home : (index + 0) % files ≡ index = rw (add-zero index) (mod-eq_of_lt valid) in
        elim (first_free_slot c boot w) [
          | inl (found, (zero, lt, at, room, full), o) ↦
              let same = ap (λ n. slot_is_full c boot n w) (at ∙ home) ∙ taken in
              absurd (ground (arith, same, room))
          | inl (found, (suc zero, lt, at, room, full), o) ↦ o.0 ∙ at
          | inl (found, (suc (suc k), lt, at, room, full), o) ↦
              absurd (ground (arith, full 1 (omega arith), free))
          | inr (all, o) ↦ o.0
        ]

    pub start_full :
        ((j : ℕ) → j < files → slot_is_full c boot j w ≡ true)
        → (begin c boot w).0.file_idx ≡ (index + 1) % files
    unfolding Opens Resumes new_log set_on_open close_data_file
    start_full all = elim (first_free_slot c boot w) [
      | inl (found, (k, lt, at, room, full), o) ↦
          let taken = all found (rw (at) (mod-lt (index + k) (omega (arith, at_least_two)))) in
          absurd (ground (arith, taken, room))
      | inr (rest, o) ↦ o.0
    ]
