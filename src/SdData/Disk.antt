-- ===== src/SdData/Disk.antt =====
-- A small card, to run the log on: the bytes of each file, with how many of them are not synced.
use boredom_os.Prelude.{
  ℕ, ◌+◌, ◌-◌, Bool, true, false, Option, none, some, List, [], ◌++◌, ◌==◌, if◌then◌else◌, length,
  take, drop,
}
use boredom_os.SdData.{Card, FileName, log_file, log_index_file}

pub record Disk : Type 0 where
  pub files : FileName → Option (List ℕ)
  pub unsynced : FileName → ℕ

abbrev pub same_name : FileName → FileName → Bool
same_name (log_file i) (log_file j) = i == j
same_name (log_file i) log_index_file = false
same_name log_index_file (log_file j) = false
same_name log_index_file log_index_file = true

abbrev pub put : FileName → Option (List ℕ) → Disk → Disk
put name bytes w = record w { files = λ m. if same_name m name then bytes else w.files m }

abbrev pub set_unsynced : FileName → ℕ → Disk → Disk
set_unsynced name n w = record w { unsynced = λ m. if same_name m name then n else w.unsynced m }

abbrev pub content : FileName → Disk → List ℕ
content name w = elim (w.files name) [ none ↦ [] | some bytes ↦ bytes ]

-- What a reader finds of a file: of a log file, what is synced. The index is synced as it is
-- written.
abbrev pub synced_length : FileName → Disk → List ℕ → ℕ
synced_length (log_file i) w bytes = length bytes - w.unsynced (log_file i)
synced_length log_index_file w bytes = length bytes

abbrev pub synced : FileName → Disk → List ℕ → List ℕ
synced (log_file i) w bytes = take (length bytes - w.unsynced (log_file i)) bytes
synced log_index_file w bytes = bytes

abbrev pub write_to : FileName → List ℕ → Disk → Disk
write_to (log_file i) bytes w =
    set_unsynced (log_file i) (w.unsynced (log_file i) + length bytes)
      (put (log_file i) (some (content (log_file i) w ++ bytes)) w)
write_to log_index_file bytes w =
    put log_index_file (some (bytes ++ drop (length bytes) (content log_index_file w))) w

abbrev pub disk : Card
disk = record {
  World = Disk;
  read_size = λ name w. elim (w.files name) [
    | none ↦ none
    | some bytes ↦ some (synced_length name w bytes)
  ];
  read_bytes = λ name n w. elim (w.files name) [
    | none ↦ none
    | some bytes ↦ some (take n (synced name w bytes))
  ];
  exists = λ name w. elim (w.files name) [ none ↦ false | some bytes ↦ true ];
  remove = λ name w. put name none w;
  open_append =
      λ name w. (true, set_unsynced name 0 (put name (some (synced name w (content name w))) w));
  open_write = λ name w. (true, put name (some (content name w)) w);
  seek = λ name n w. w;
  write_bytes = write_to;
  flush = λ name w. set_unsynced name 0 w;
  close = λ name w. set_unsynced name 0 w;
  size = λ name w. length (content name w);
}

abbrev pub blank : Disk
blank = record { files = λ name. none; unsynced = λ name. 0 }
