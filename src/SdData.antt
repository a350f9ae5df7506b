-- ===== src/SdData.antt =====
-- lib/SdData: the ring of log files on the card, its index and its rotation.
--
-- The SD library and the card are not this repository's code: `Card` has their calls, on a state
-- that also holds whatever else the opening callback reads. Looking at a file (opening it for
-- reading, asking for its size, closing it) is an observation. A file name is kept as the
-- expression that builds it. The callback is the list of the byte strings that it hands to
-- `writeRaw`, in order, which is all that the class lets it do. An `int` read from the card is its
-- 32-bit pattern.
pub mod Ring
pub mod Syncing
pub mod Resuming
pub mod Durable
pub mod Rotating
pub mod Restarts
pub mod Cuts
pub mod Disk
mod Tests
use boredom_os.Prelude.{
  ℕ, zero, suc, ◌+◌, ◌-◌, ◌*◌, ◌/◌, ◌%◌, ◌^◌, ◌≤◌, ◌<◌, min, ◌≡◌, ◌≢◌, ◌↔◌, refl, Bool, true, false,
  not, ◌&&◌, ◌||◌, Option, none, some, List, [], ◌∷◌, ◌++◌, map, arith, u8, u16, u32, u64, sub_u32,
  uint16_max, uint32_max, ◌==◌, ltb, leb, ◌∙◌, sym, ap, subst, fun_ext, ◌⊎◌, inl, inr,
  if◌then◌else◌, Bool-cases, Option-cases, ==_iff, ltb→lt, lt→ltb, leb→le, le→leb, length,
  get_elem?, get_or, take, drop, replicate, length-append, length-take, length-drop,
  length-replicate, All,
}

pub data FileName : Type 0 where
  log_file : ℕ → FileName
  log_index_file : FileName

-- The calls of the SD library.
pub record Card : Type 1 where
  pub World : Type 0
  -- `SD.open(name, FILE_READ)`, then `size()`: none if it does not open.
  pub read_size : FileName → World → Option ℕ
  -- The same, then `readBytes`: at most as many bytes as asked for.
  pub read_bytes : FileName → ℕ → World → Option (List ℕ)
  pub exists : FileName → World → Bool
  pub remove : FileName → World → World
  -- `SD.open(name, FILE_WRITE)`, and `SD.open(name, O_WRITE | O_CREAT)`: whether it opened.
  pub open_append : FileName → World → Bool × World
  pub open_write : FileName → World → Bool × World
  -- On an open file.
  pub seek : FileName → ℕ → World → World
  pub write_bytes : FileName → List ℕ → World → World
  pub flush : FileName → World → World
  pub close : FileName → World → World
  pub size : FileName → World → ℕ

abbrev pub flush_interval_bytes : ℕ
flush_interval_bytes = 4096

unfoldable pub get_log_file_name : ℕ → FileName
get_log_file_name idx = log_file idx

-- The bytes of an `int`, lowest first, and the `int` that overlays 0 with up to four bytes.
abbrev pub bytes_of_int : ℕ → List ℕ
bytes_of_int n = n % 256 ∷ n / 256 % 256 ∷ n / 65536 % 256 ∷ n / 16777216 % 256 ∷ []

abbrev pub int_of_bytes : List ℕ → ℕ
int_of_bytes [] = 0
int_of_bytes (b ∷ bs) = b + 256 * int_of_bytes bs

module _ (c : Card) where
  open c use {
    World, read_size, read_bytes, exists, remove, open_append, open_write, seek, write_bytes, flush,
    close, size,
  }

  -- The members of the class. `data_file` names the file that the handle has open.
  pub record SdData : Type 0 where
    pub since_flush : ℕ
    pub file_idx : ℕ
    pub files : ℕ
    pub limit : ℕ
    pub data_file : Option FileName
    pub on_open : Option (World → List (Option (List ℕ)))

  -- `SdData(files, size)`.
  unfoldable pub new_log : ℕ → ℕ → SdData
  new_log files limit = record {
    since_flush = 0;
    file_idx = 0;
    files = files;
    limit = limit;
    data_file = none;
    on_open = none;
  }

  pub set_on_open : Option (World → List (Option (List ℕ))) → SdData → SdData
  set_on_open callback d = record d { on_open = callback }

  -- `idx < 0 || idx >= _files` on the pattern of an `int`, for fewer than 2 ^ 31 files.
  pub read_log_index : SdData → World → ℕ
  read_log_index d w = elim (read_bytes log_index_file 4 w) [
    | none ↦ 0
    | some bytes ↦
        let idx = int_of_bytes bytes in if leb (2 ^ 31) idx || leb d.files idx then 0 else idx
  ]

  pub slot_is_full : SdData → ℕ → World → Bool
  slot_is_full d idx w = elim (read_size (get_log_file_name idx) w) [
    | none ↦ false
    | some size ↦ leb d.limit size
  ]

  unfoldable pub write_log_index : SdData → World → World
  write_log_index d w =
      let (opened, w) = open_write log_index_file w in
      if not opened
      then w
      else close log_index_file (
          flush log_index_file
            (write_bytes log_index_file (bytes_of_int d.file_idx) (seek log_index_file 0 w)))

  -- `bytes` is none for a null pointer; `length` is the list's.
  pub append_bytes : Option (List ℕ) → SdData → World → World
  append_bytes bytes d w = elim d.data_file [
    | none ↦ w
    | some name ↦ elim bytes [
      | none ↦ w
      | some bs ↦ if length bs == 0 then w else write_bytes name bs w
    ]
  ]

  unfoldable pub write_raw : Option (List ℕ) → SdData → World → SdData × World
  unfolding append_bytes
  write_raw bytes d w =
      let w = append_bytes bytes d w in
      elim d.data_file [ none ↦ (d, w) | some name ↦ (record d { since_flush = 0 }, flush name w) ]

  pub write_all_raw : List (Option (List ℕ)) → SdData → World → SdData × World
  write_all_raw [] d w = (d, w)
  write_all_raw (bytes ∷ rest) d w = let (d', w') = write_raw bytes d w in write_all_raw rest d' w'

  unfoldable pub notify_opened : SdData → World → SdData × World
  notify_opened d w = elim d.on_open [
    | none ↦ (d, w)
    | some callback ↦ elim d.data_file [
      | none ↦ (d, w)
      | some name ↦ write_all_raw (callback w) d w
    ]
  ]

  -- `if (_dataFile) _dataFile.close();`
  unfoldable pub close_data_file : SdData → World → SdData × World
  close_data_file d w = elim d.data_file [
    | none ↦ (d, w)
    | some name ↦ (record d { data_file = none }, close name w)
  ]

  -- `_dataFile = SD.open(name, FILE_WRITE); _sinceFlush = 0;`
  unfoldable pub open_data_file : SdData → World → SdData × World
  open_data_file d w =
      let name = get_log_file_name d.file_idx in
      let (opened, w) = open_append name w in
      (record d { data_file = if opened then some name else none; since_flush = 0 }, w)

  unfoldable pub open_next_slot : SdData → World → SdData × World
  unfolding close_data_file open_data_file
  open_next_slot d w =
      let (d, w) = close_data_file d w in
      let d = record d { since_flush = 0; file_idx = (d.file_idx + 1) % d.files } in
      let name = get_log_file_name d.file_idx in
      let w : World = if exists name w then remove name w else w in
      let w = write_log_index d w in let (d, w) = open_data_file d w in notify_opened d w

  -- The search of `begin` over the steps left: the first slot that is not full, if there is one.
  pub find_resume : ℕ → ℕ → ℕ → SdData → World → Option ℕ
  find_resume zero step indexed d w = none
  find_resume (suc steps) step indexed d w =
      let rest = find_resume steps (step + 1) indexed d w in
      let slot = (indexed + step) % d.files in
      if not (slot_is_full d slot w) then some slot else rest

  -- The end of `begin`: open the slot, and the callback if that worked.
  pub start_slot : SdData → World → SdData × World
  start_slot d w =
      let (d, w) = open_data_file d w in
      elim d.data_file [ none ↦ (d, w) | some name ↦ notify_opened d w ]

  pub begin : SdData → World → SdData × World
  unfolding close_data_file start_slot
  begin d w =
      let (d, w) = close_data_file d w in
      let indexed = read_log_index d w in
      elim (find_resume d.files 0 indexed d w) [
        | none ↦ open_next_slot (record d { file_idx = indexed }) w
        | some resume ↦
            let d = record d { file_idx = resume } in
            let w : World = if resume == indexed then w else write_log_index d w in start_slot d w
      ]

  pub end : SdData → World → SdData × World
  end d w = elim d.data_file [
    | none ↦ (d, w)
    | some name ↦ (record d { data_file = none; since_flush = 0 }, close name w)
  ]

  -- The part of `write` behind its guard: `name` is open and `bs` is not empty.
  unfoldable pub write_open : FileName → List ℕ → SdData → World → SdData × World
  write_open name bs d w =
      let w = write_bytes name bs w in
      let since = u32 (d.since_flush + length bs) in
      let due = leb flush_interval_bytes since in
      let w : World = if due then flush name w else w in
      let d = record d { since_flush = if due then 0 else since } in
      let file_size = size name w in if leb d.limit file_size then open_next_slot d w else (d, w)

  unfoldable pub write : Option (List ℕ) → SdData → World → SdData × World
  unfolding write_open
  write bytes d w = elim d.data_file [
    | none ↦ (d, w)
    | some name ↦ elim bytes [
      | none ↦ (d, w)
      | some bs ↦ if length bs == 0 then (d, w) else write_open name bs d w
    ]
  ]
