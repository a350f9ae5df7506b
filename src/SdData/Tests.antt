-- ===== src/SdData/Tests.antt =====
-- Runs of the log on a small card, and the theorems at concrete inputs.
use boredom_os.Prelude.{
  ℕ, ◌+◌, ◌%◌, ◌≤◌, ◌<◌, ◌≡◌, refl, true, none, some, List, [], ◌∷◌, arith, ◌⊎◌, inr, length,
  length-append, length-take, Option-cases, inl, ◌-◌, All,
}
use boredom_os.SdData.{
  set_on_open, FileName, log_file, log_index_file, SdData, new_log, read_log_index, write_log_index,
  begin, write, open_next_slot, slot_is_full, close_data_file, flush_interval_bytes, find_resume,
  get_log_file_name, open_data_file, notify_opened,
}
use boredom_os.SdData.Ring.{Opens, Resumes, first_free_slot}
use boredom_os.SdData.Syncing.{
  Call, begin_log, write_log, run_call, run_calls, Fits, unsynced_bound,
}
use boredom_os.SdData.Resuming.{calls_stay_in_ring}
use boredom_os.SdData.Durable.{synced_size, after_open, Durable, before, indexed, cut_rotation}
use boredom_os.SdData.Cuts.{cut_resumes}
use boredom_os.SdData.Restarts.{next_boot}
use boredom_os.SdData.Disk.{Disk, disk, content, put, set_unsynced, blank}

-- Slot 0 is full at four bytes, slot 1 has room, and the index names slot 0.
abbrev used : Disk
used =
    put (log_file 0) (some (1 ∷ 2 ∷ 3 ∷ 4 ∷ []))
      (put (log_file 1) (some (5 ∷ [])) (put log_index_file (some (0 ∷ 0 ∷ 0 ∷ 0 ∷ [])) blank))

abbrev log3 : SdData disk
log3 = new_log disk 3 4

abbrev calls : List (Call disk)
calls = begin_log ∷ write_log (some (7 ∷ 8 ∷ [])) ∷ write_log (some (9 ∷ [])) ∷ []

started_slot : (begin disk log3 used).0.file_idx ≡ 1
unfolding begin read_log_index slot_is_full find_resume new_log get_log_file_name open_data_file
    notify_opened
started_slot = refl

rotated_slot : (run_calls disk calls log3 used).0.file_idx ≡ 2
unfolding run_calls run_call write begin find_resume new_log slot_is_full get_log_file_name
    read_log_index open_data_file notify_opened write_log_index open_next_slot
rotated_slot = refl

disk_write :
    (name : FileName) (bytes : List ℕ) (w : Disk)
    → (disk.write_bytes name bytes w).unsynced name ≤ w.unsynced name + length bytes
disk_write (log_file i) bytes w = ground arith
disk_write log_index_file bytes w = omega arith

disk_flush : (name : FileName) (w : Disk) → (disk.flush name w).unsynced name ≡ 0
disk_flush (log_file i) w = ground arith
disk_flush log_index_file w = refl

disk_open : (name : FileName) (w : Disk) → (disk.open_append name w).1.unsynced name ≡ 0
disk_open (log_file i) w = ground arith
disk_open log_index_file w = refl

calls_fit : All (Fits disk) calls
unfolding Fits
calls_fit = (tt, (omega arith, (omega arith, tt)))

first_free_slot_example :
    ((slot : ℕ) × Resumes disk 0 slot log3 used × Opens disk slot 3 4 (begin disk log3 used).0)
    ⊎ (((j : ℕ) → j < 3 → slot_is_full disk log3 ((0 + j) % 3) used ≡ true)
        × Opens disk ((0 + 1) % 3) 3 4 (begin disk log3 used).0)
unfolding new_log close_data_file read_log_index
first_free_slot_example = first_free_slot disk log3 used

calls_stay_in_ring_example :
    let d = (run_calls disk calls (new_log disk 3 4) used).0 in
    (d.file_idx < 3) × ((d.data_file ≡ none) ⊎ (d.data_file ≡ some (log_file d.file_idx)))
calls_stay_in_ring_example = calls_stay_in_ring disk 3 4 calls used (omega arith)

open_file : (run_calls disk calls (new_log disk 3 4) used).0.data_file ≡ some (log_file 2)
unfolding run_calls run_call write begin find_resume new_log slot_is_full get_log_file_name
    read_log_index open_data_file notify_opened write_log_index open_next_slot
open_file = refl

unsynced_bound_example :
    (run_calls disk calls (new_log disk 3 4) used).1.unsynced (log_file 2) < flush_interval_bytes
unsynced_bound_example =
    unsynced_bound disk (λ name w. w.unsynced name) disk_write disk_flush disk_open 3 4 calls used
      calls_fit (log_file 2) open_file

kept :
    (bytes : List ℕ) (w : Disk)
    → length bytes ≡ 4
    → disk.read_bytes log_index_file 4 (
        disk.close log_index_file (
          disk.flush log_index_file
            (disk.write_bytes log_index_file bytes (disk.seek log_index_file 0 w))))
      ≡ some bytes
kept (a ∷ b ∷ x ∷ y ∷ []) w e = refl
kept bytes w e = ground arith

size_cases :
    (m : ℕ) (w : Disk)
    → (w.files (log_file m) ≡ none) ⊎ ((bytes : List ℕ) × (w.files (log_file m) ≡ some bytes))
size_cases m w = Option-cases (w.files (log_file m))

closes :
    (m : ℕ) (w : Disk) → synced_size disk m (disk.close (log_file m) w) ≡ disk.size (log_file m) w
unfolding synced_size
closes m w = elim (size_cases m w) [
  | inl e ↦ ground (arith, e)
  | inr (bytes, e) ↦ ground (arith, e)
]

opens :
    (m : ℕ) (w : Disk)
    → disk.size (log_file m) (disk.open_append (log_file m) w).1 ≡ synced_size disk m w
unfolding synced_size
opens m w = elim (size_cases m w) [
  | inl e ↦ ground (arith, e)
  | inr (bytes, e) ↦ ground (arith, e, length-take (length bytes - w.unsynced (log_file m)) bytes)
]

opens_same :
    (m : ℕ) (w : Disk)
    → synced_size disk m (disk.open_append (log_file m) w).1 ≡ synced_size disk m w
unfolding synced_size
opens_same m w = elim (size_cases m w) [
  | inl e ↦ ground (arith, e)
  | inr (bytes, e) ↦ ground (arith, e, length-take (length bytes - w.unsynced (log_file m)) bytes)
]

writes :
    (m : ℕ) (bytes : List ℕ) (w : Disk)
    → synced_size disk m (disk.write_bytes (log_file m) bytes w) ≡ synced_size disk m w
unfolding synced_size
writes m bytes w = elim (size_cases m w) [
  | inl e ↦ ground (arith, e)
  | inr (held, e) ↦ ground (arith, e, length-append held bytes)
]

durable : Durable disk
unfolding synced_size
durable = record {
  close_syncs = closes;
  close_other = λ m n w other. ground (arith, other);
  close_index = λ n w. refl;
  index_close = λ n w. refl;
  remove_empties = λ m w. ground arith;
  remove_other = λ m n w other. ground (arith, other);
  index_remove = λ m w. refl;
  absent_empty = λ n w e. ground (arith, e);
  index_opens = λ w. refl;
  open_write_other = λ n w. refl;
  seek_other = λ n w. refl;
  write_index_other = λ n bytes w. refl;
  flush_index_other = λ n w. refl;
  index_kept = kept;
  open_append_same = opens_same;
  open_append_size = λ m w there. opens m w;
  index_open_append = λ m w. refl;
  write_unsynced = writes;
  write_size = λ m bytes w. ground (arith, length-append (content (log_file m) w) bytes);
  index_write = λ m bytes w. refl;
  flush_syncs = closes;
  flush_size = λ m w. ground arith;
  index_flush = λ m w. refl;
}

-- The log on its slot 0 that has filled up, with a byte that is not synced, before the rotation to
-- slot 1.
abbrev at_limit : SdData disk
at_limit = record log3 { data_file = some (log_file 0) }

abbrev with_tail : Disk
with_tail = set_unsynced (log_file 0) 1 used

named_slot : read_log_index disk at_limit with_tail ≡ 0
unfolding read_log_index new_log
named_slot = refl

beside : synced_size disk 1 with_tail < 4
unfolding synced_size
beside = omega arith

cut_resumes_example :
    (begin disk (next_boot disk 3 4 none) (cut_rotation disk indexed at_limit with_tail)).0.file_idx
    ≡ 1
unfolding new_log after_open open_data_file close_data_file
cut_resumes_example =
    (cut_resumes disk durable at_limit with_tail none (omega arith) (omega arith) (omega arith)
      named_slot (inr (refl, omega arith)) (omega arith) indexed (inr beside) (omega arith)).0

-- A cut before the rotation's close: the byte is lost, and the slot is gone on in.
cut_before_closing :
    (begin disk (next_boot disk 3 4 none) (cut_rotation disk before at_limit with_tail)).0.file_idx
    ≡ 0
unfolding begin read_log_index slot_is_full find_resume new_log get_log_file_name open_data_file
    notify_opened cut_rotation set_on_open
cut_before_closing = refl
