-- ===== src/Dataflash.antt =====
-- src/sdwrite.cpp, the log's format on disk: the ArduPilot DataFlash records, packed, lowest byte
-- first, and what a file opens with. A packed structure is modelled by its fields and by the bytes
-- it lays out.
pub mod Layout
mod Tests
use boredom_os.Prelude.{
  ℕ, zero, suc, ◌+◌, ◌-◌, ◌*◌, ◌/◌, ◌%◌, ◌^◌, ◌≤◌, ◌<◌, min, ◌≡◌, ◌≢◌, ◌↔◌, refl, Bool, true, false,
  not, ◌&&◌, ◌||◌, Option, none, some, List, [], ◌∷◌, ◌++◌, map, arith, u8, u16, u32, u64, sub_u32,
  uint16_max, uint32_max, ◌==◌, ltb, leb, ◌∙◌, sym, ap, subst, fun_ext, ◌⊎◌, inl, inr,
  if◌then◌else◌, Bool-cases, Option-cases, ==_iff, ltb→lt, lt→ltb, leb→le, le→leb, String, codes,
  length, get_elem?, get_or, take, drop, replicate, length-append, length-take, length-drop,
  length-replicate, All,
}
use boredom_os.Recovery.{ResetReason, BootPhase, reason_to_byte, phase_to_byte}

abbrev pub head1 : ℕ
head1 = 163

abbrev pub head2 : ℕ
head2 = 149

abbrev pub msg_fmt : ℕ
msg_fmt = 128

abbrev pub msg_time : ℕ
msg_time = 129

abbrev pub msg_sys : ℕ
msg_sys = 130

abbrev pub msg_pwr : ℕ
msg_pwr = 131

abbrev pub msg_rst : ℕ
msg_rst = 132

-- The lowest `n` bytes of a number, lowest first.
abbrev pub le_bytes : ℕ → ℕ → List ℕ
le_bytes zero x = []
le_bytes (suc n) x = x % 256 ∷ le_bytes n (x / 256)

-- A `char[n]` that is initialised with a shorter text, or copied into by `strncpy`.
abbrev pub chars : ℕ → List ℕ → List ℕ
chars n text = take n (text ++ replicate n 0)

pub record LogFormat : Type 0 where
  pub type : ℕ
  pub length : ℕ
  pub name : String
  pub format : String
  pub labels : String

abbrev pub format_bytes : LogFormat → List ℕ
format_bytes r =
    head1
    ∷ head2
    ∷ msg_fmt
    ∷ r.type
    ∷ r.length
    ∷ (chars 4 (codes r.name) ++ (chars 16 (codes r.format) ++ chars 64 (codes r.labels)))

pub record LogTime : Type 0 where
  pub time_us : ℕ
  pub unixtime : ℕ
  pub source : ℕ

abbrev pub time_bytes : LogTime → List ℕ
time_bytes r =
    head1 ∷ head2 ∷ msg_time ∷ (le_bytes 8 r.time_us ++ (le_bytes 4 r.unixtime ++ (r.source ∷ [])))

-- The tasks' stack marks, `stacks[SD_RECORD_TASK_COUNT]`.
pub record Stacks : Type 0 where
  pub logger : ℕ
  pub sd_write : ℕ
  pub mavlink : ℕ
  pub uart_read : ℕ
  pub uart_write : ℕ
  pub usb_read : ℕ
  pub usb_write : ℕ

pub record LogSys : Type 0 where
  pub time_us : ℕ
  pub heap_free : ℕ
  pub stacks : Stacks

abbrev pub stacks_bytes : Stacks → List ℕ
stacks_bytes s =
    le_bytes 2 s.logger
    ++ (le_bytes 2 s.sd_write
        ++ (le_bytes 2 s.mavlink
            ++ (le_bytes 2 s.uart_read
                ++ (le_bytes 2 s.uart_write ++ (le_bytes 2 s.usb_read ++ le_bytes 2 s.usb_write)))))

abbrev pub sys_bytes : LogSys → List ℕ
sys_bytes r =
    head1
    ∷ head2
    ∷ msg_sys
    ∷ (le_bytes 8 r.time_us ++ (le_bytes 2 r.heap_free ++ stacks_bytes r.stacks))

-- `remaining` is the byte of an `int8_t`.
pub record LogPwr : Type 0 where
  pub time_us : ℕ
  pub millivolts : ℕ
  pub remaining : ℕ

abbrev pub pwr_bytes : LogPwr → List ℕ
pwr_bytes r =
    head1
    ∷ head2
    ∷ msg_pwr
    ∷ (le_bytes 8 r.time_us ++ (le_bytes 2 r.millivolts ++ (r.remaining ∷ [])))

pub record LogRst : Type 0 where
  pub time_us : ℕ
  pub reason : ℕ
  pub phase : ℕ
  pub consecutive : ℕ
  pub cumulative : ℕ
  pub task : List ℕ

abbrev pub rst_bytes : LogRst → List ℕ
rst_bytes r =
    head1
    ∷ head2
    ∷ msg_rst
    ∷ (le_bytes 8 r.time_us
        ++ (r.reason ∷ r.phase ∷ r.consecutive ∷ r.cumulative ∷ chars 16 r.task))

abbrev fmt_format : LogFormat
fmt_format = record {
  type = msg_fmt;
  length = 89;
  name = "FMT";
  format = "BBnNZ";
  labels = "Type,Length,Name,Format,Columns";
}

abbrev pub time_format : LogFormat
time_format = record {
  type = msg_time;
  length = 16;
  name = "TIME";
  format = "QIB";
  labels = "TimeUS,Unix,Src";
}

abbrev pub sys_format : LogFormat
sys_format = record {
  type = msg_sys;
  length = 27;
  name = "SYS";
  format = "QHHHHHHHH";
  labels = "TimeUS,Heap,Log,SdW,Mav,SRd,SWr,URd,UWr";
}

abbrev pub pwr_format : LogFormat
pwr_format = record {
  type = msg_pwr;
  length = 14;
  name = "PWR";
  format = "QHb";
  labels = "TimeUS,mV,Pct";
}

abbrev pub preamble : List ℕ
preamble =
    format_bytes fmt_format
    ++ (format_bytes time_format ++ (format_bytes sys_format ++ format_bytes pwr_format))

abbrev pub rst_format : LogFormat
rst_format = record {
  type = msg_rst;
  length = 31;
  name = "RST";
  format = "QBBBBN";
  labels = "TimeUS,Rsn,Phase,Cons,Cum,Task";
}

-- What the opening callback reads: the clock, twice, and the previous boot as `setup` keeps it.
pub record Opening : Type 0 where
  pub since_boot_usec : ℕ
  pub unix_time : ℕ
  pub source : ℕ
  pub since_boot_usec_again : ℕ
  pub previous_reset_reason : ResetReason
  pub previous_boot_phase : BootPhase
  pub previous_fault_task : List ℕ
  pub consecutive_count : ℕ
  pub cumulative_count : ℕ

abbrev pub is_fault_phase : BootPhase → Bool
is_fault_phase BootPhase.stack_overflow_fault = true
is_fault_phase BootPhase.malloc_failed_fault = true
is_fault_phase _ = false

-- The byte strings that the callback hands to `writeRaw`, in order.
unfoldable pub write_log_preamble : Opening → List (List ℕ)
write_log_preamble o =
    preamble
    ∷ time_bytes
        (record { time_us = o.since_boot_usec; unixtime = u32 o.unix_time; source = o.source })
    ∷ format_bytes rst_format
    ∷ rst_bytes (record {
      time_us = o.since_boot_usec_again;
      reason = reason_to_byte o.previous_reset_reason;
      phase = phase_to_byte o.previous_boot_phase;
      consecutive = o.consecutive_count;
      cumulative = o.cumulative_count;
      task = if is_fault_phase o.previous_boot_phase then o.previous_fault_task else [];
    })
    ∷ []
