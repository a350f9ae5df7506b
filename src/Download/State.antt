-- ===== src/Download/State.antt =====
-- The state of the log download in src/sdwrite.cpp, and the messages that it sends.
use boredom_os.Prelude.{ℕ, zero, suc, ◌≡◌, refl, Bool, Option, List, length}
use boredom_os.SdData.{Card, FileName}
use boredom_os.Dataflash.{preamble}

-- What goes on a port's write queue.
pub data Msg : Type 0 where
  -- id, num_logs, last_log_num, time_utc, size
  log_entry : ℕ → ℕ → ℕ → ℕ → ℕ → Msg
  -- id, ofs, count, the field's 90 bytes
  log_data : ℕ → ℕ → ℕ → List ℕ → Msg

-- What is kept for each of the two ports.
pub record Ports {ℓ} (A : Type ℓ) : Type ℓ where
  pub uart : A
  pub usb : A

module _ {ℓ} {A : Type ℓ} where
  abbrev pub port_at : ℕ → Ports A → A
  port_at zero s = s.uart
  port_at (suc p) s = s.usb

  abbrev pub set_port : ℕ → A → Ports A → Ports A
  set_port zero a s = record s { uart = a }
  set_port (suc p) a s = record s { usb = a }

  pub port_at-set_port : (p : ℕ) (a : A) (s : Ports A) → port_at p (set_port p a s) ≡ a
  port_at-set_port zero a s = refl
  port_at-set_port (suc p) a s = refl

abbrev pub log_data_chunk : ℕ
log_data_chunk = 90

-- `sizeof(kPreamble)`.
abbrev pub head_time_offset : ℕ
head_time_offset = length preamble

pub record LogListing : Type 0 where
  pub active : Bool
  pub start : ℕ
  pub end : ℕ
  pub next_slot : ℕ

-- `slot` is the `int`: none is -1, the slot of id 0.
pub record LogStream : Type 0 where
  pub active : Bool
  pub absent : Bool
  pub slot : Option ℕ
  pub id : ℕ
  pub pos : ℕ
  pub end : ℕ
  pub to_file_end : Bool
  pub sent_any : Bool
  pub last_count : ℕ

-- The fields of a request, `SdLogRequestPayload`.
pub record LogRequest : Type 0 where
  pub ofs : ℕ
  pub count : ℕ
  pub start : ℕ
  pub end : ℕ
  pub port : ℕ

-- What a handle that is open for reading offers. `read` is none for a negative result.
pub record Reader (c : Card) : Type 1 where
  pub Handle : Type 0
  pub open_read : FileName → c.World → Option Handle
  pub seek : ℕ → Handle → Bool × Handle
  pub read : ℕ → Handle → c.World → Option (List ℕ) × Handle

-- The file's statics. `reader_port` is none for -1.
pub record Downloads (Handle : Type 0) : Type 0 where
  pub listings : Ports LogListing
  pub streams : Ports LogStream
  pub reader : Option Handle
  pub reader_port : Option ℕ
