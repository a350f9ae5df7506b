-- ===== src/Queues/Steps.antt =====
-- The steps that change the write queues: an offer of TaskMavlink, a message that TaskLinkWrite
-- takes, and those of TaskSdWrite: a record of its queue, a check of room with the work behind it,
-- a post.
use boredom_os.Prelude.{
  ℕ, zero, suc, ◌+◌, ◌≡◌, Bool, true, false, Option, some, List, [], ◌∷◌, if◌then◌else◌,
}
use boredom_os.SdData.{Card}
use boredom_os.Download.{Msg, Ports, port_at, set_port, Reader}
use boredom_os.Download.Serving.{SdRecord, Task, handle_record, serve_port, chosen_port}
use boredom_os.Mavlink.{enqueue_write}
use boredom_os.MavlinkTask.{Intent}
use boredom_os.Queues.{Fifo, write_queue_depth, is_log, port_has_room}

abbrev pub same_port : ℕ → ℕ → Bool
same_port zero zero = true
same_port zero (suc q) = false
same_port (suc p) zero = false
same_port (suc p) (suc q) = true

-- The messages for one port.
abbrev pub count_for : ℕ → List (ℕ × Msg) → ℕ
count_for port [] = 0
count_for port ((p, m) ∷ rest) = (if same_port p port then 1 else 0) + count_for port rest

module _ (f : Fifo Intent) (c : Card) (r : Reader c) where
  open f use {Queue, create, send, receive}

  -- The queues with TaskMavlink's count of refused messages, and TaskSdWrite: what it is about to
  -- post, in order, and its state. `ended` counts, for each port, the messages by which a record
  -- ended a download.
  pub record Shared : Type 0 where
    pub queues : Ports Queue
    pub write_drop_count : Ports ℕ
    pub posting : List (ℕ × Msg)
    pub task : Task c r
    pub ended : Ports ℕ

  -- What `setup` creates, with the tasks at their start.
  unfoldable pub created : Task c r → Shared
  created task = record {
    queues = record { uart = create write_queue_depth; usb = create write_queue_depth };
    write_drop_count = record { uart = 0; usb = 0 };
    posting = [];
    task = task;
    ended = record { uart = 0; usb = 0 };
  }

  -- `enqueueWrite`.
  unfoldable pub offer : ℕ → Intent → Shared → Shared
  offer port intent s =
      let (passed, q) = send intent (port_at port s.queues) in
      record s {
        queues = set_port port q s.queues;
        write_drop_count =
            set_port port (enqueue_write passed (port_at port s.write_drop_count))
              s.write_drop_count;
      }

  -- `xQueueReceive` of the port's writer.
  unfoldable pub take_next : ℕ → Shared → Shared
  take_next port s = record s {
    queues = set_port port (receive (port_at port s.queues)).1 s.queues;
  }

  -- A record or a request that the card's task has received.
  unfoldable pub handle_next : SdRecord → Shared → Shared
  handle_next incoming s =
      let (ms, task) = handle_record c r incoming s.task in
      record s {
        posting = ms;
        task = task;
        ended = record { uart = s.ended.uart + count_for 0 ms; usb = s.ended.usb + count_for 1 ms };
      }

  -- The port that the task's check lets it serve, if there is one.
  unfoldable pub servable : Shared → Option ℕ
  servable s = chosen_port c r (λ port. port_has_room f (port_at port s.queues)) s.task

  unfoldable pub serve_next : ℕ → Shared → Shared
  serve_next port s =
      let (ms, task) = serve_port c r port s.task in record s { posting = ms; task = task }

  -- `xQueueSend` of the next message, whose result the task does not read.
  unfoldable pub post_next : ℕ → Msg → List (ℕ × Msg) → Shared → Shared
  post_next port m rest s = record s {
    queues = set_port port (send (Intent.log m) (port_at port s.queues)).1 s.queues;
    posting = rest;
  }

  -- TaskMavlink offers no message of the log protocol while the card has a task of its own.
  pub data Step : Shared → Shared → Type 0 where
    offers :
        (s : Shared) (port : ℕ) (intent : Intent)
        → is_log intent ≡ false
        → Step s (offer port intent s)
    takes : (s : Shared) (port : ℕ) → Step s (take_next port s)
    handles : (s : Shared) (incoming : SdRecord) → s.posting ≡ [] → Step s (handle_next incoming s)
    serves :
        (s : Shared) (port : ℕ)
        → s.posting ≡ []
        → servable s ≡ some port
        → Step s (serve_next port s)
    posts :
        (s : Shared) (port : ℕ) (m : Msg) (rest : List (ℕ × Msg))
        → s.posting ≡ (port, m) ∷ rest
        → Step s (post_next port m rest s)

  pub data Reach (s : Shared) : Shared → Type 0 where
    here : Reach s s
    next : {t u : Shared} → Reach s t → Step t u → Reach s u
