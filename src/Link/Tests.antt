-- ===== src/Link/Tests.antt =====
-- The reader at a concrete parser and input.
use boredom_os.Prelude.{
  length-append, u8, ap, map, ltb, suc, ◌-◌, length, ℕ, ◌+◌, min, ◌≡◌, refl, Bool, true, false,
  Option, none, some, List, [], ◌∷◌, ◌++◌, arith, uint16_max, ◌==◌, if◌then◌else◌, replicate,
}
use boredom_os.Link.{Reading, drain_port, read_byte, read_pass, read_passes, write_frame}
use boredom_os.Recovery.{ResetReason, BootPhase}
use boredom_os.MavlinkTask.{Intent}
use boredom_os.MavlinkTask.Packing.{mavlink_pack}
use boredom_os.Link.Ports.{
  Serial, Device, link_ports_init, read_turns, write_turns, read_turn, write_turn, write_intent,
  drain, take_byte, uart_available_for_write,
}
use boredom_os.Link.Apart.{Untouched, tasks_leave_alone}
use boredom_os.Link.Following.{Observed, drain_lem}
use boredom_os.Link.Writing.{Stalled, stalled_lem}
use boredom_os.Link.Passes.{parse_all, read_passes_lem}

-- A line ends a frame that is the count of its bytes; a zero is an error and starts afresh.
abbrev parse_line : ℕ → ℕ → Option ℕ × (Bool × ℕ)
parse_line byte count =
    if byte == 10
    then (some count, (false, 0))
    else if byte == 0
    then (none, (true, 0))
    else (none, (false, count + 1))

abbrev line : List ℕ
line = 7 ∷ 7 ∷ 10 ∷ 0 ∷ 7 ∷ []

abbrev before : Reading ℕ ℕ parse_line
before = record { waiting = replicate 126 7 ++ line; state = 0; rx_drop_count = 65535 }

-- The first pass stops three bytes before the end.
three_left : (read_pass ℕ ℕ parse_line before).1.waiting ≡ 10 ∷ 0 ∷ 7 ∷ []
unfolding read_pass drain_port read_byte
three_left = refl

read_passes_lem_example :
    let (frames, (errors, state)) = parse_all ℕ ℕ parse_line (replicate 126 7 ++ line) 0 in
    let (posts, r') = read_passes ℕ ℕ parse_line 2 before in
    (posts ≡ frames)
    × (r'.waiting ≡ [])
    × (r'.state ≡ state)
    × (r'.rx_drop_count ≡ min uint16_max (65535 + errors))
read_passes_lem_example = read_passes_lem ℕ ℕ parse_line 2 before (omega arith) (omega arith)

no_room : write_frame 3 (1 ∷ 2 ∷ 3 ∷ 4 ∷ []) ≡ []
unfolding write_frame
no_room = refl

-- A board with two ports that hold what they are given, a parser that ends a message at each line,
-- and a host on USB that does not read.
record Desk : Type 0 where
  uart_waiting : List ℕ
  uart_sent : List ℕ
  usb_waiting : List ℕ
  usb_sent : List ℕ
  packed_bytes : List ℕ
  ticks : ℕ
  taken : ℕ
  queued : List Intent
  inbound : List (ℕ × ℕ)

abbrev next_byte : List ℕ → ℕ × List ℕ
next_byte [] = (255, [])
next_byte (byte ∷ rest) = (byte, rest)

abbrev uart : Serial Desk
uart = record {
  available = λ hw. (length hw.uart_waiting, hw);
  read = λ hw.
      let (byte, rest) = next_byte hw.uart_waiting in (byte, record hw { uart_waiting = rest });
  write = λ frame hw. (length frame, record hw { uart_sent = hw.uart_sent ++ frame });
  available_for_write = λ hw. (1, hw);
}

abbrev usb : Serial Desk
usb = record {
  available = λ hw. (length hw.usb_waiting, hw);
  read =
      λ hw. let (byte, rest) = next_byte hw.usb_waiting in (byte, record hw { usb_waiting = rest });
  write = λ frame hw. (length frame, record hw { usb_sent = hw.usb_sent ++ frame });
  available_for_write = λ hw. (20 - length hw.usb_sent, hw);
}

abbrev first_intent : List Intent → Option Intent × List Intent
first_intent [] = (none, [])
first_intent (intent ∷ rest) = (some intent, rest)

abbrev receive_next : Desk → Option Intent × Desk
receive_next hw =
    let (intent, rest) = first_intent hw.queued in
    let got = length hw.queued - length rest in
    (intent, record hw { queued = rest; taken = got + hw.taken })

abbrev desk : Device
desk = record {
  Hardware = Desk;
  link_uart = uart;
  link_usb = usb;
  Handle = ℕ;
  Message = ℕ;
  Status = ℕ;
  zero_message = 0;
  zero_status = 0;
  packet_rx_drop_count = λ status. status;
  parse_char = λ chan byte msg status hw. (byte == 10, (msg + 1, (status, hw)));
  frame_of = λ call hw. (
    replicate 12 call.chan,
    record hw { packed_bytes = hw.packed_bytes ++ replicate 12 call.chan },
  );
  send_inbound = λ item hw. record hw { inbound = hw.inbound ++ item ∷ [] };
  receive_intent = λ queue hw. receive_next hw;
  config = record {
    reduced_configuration = false;
    sd_card_available = true;
    has_task = λ task. true;
    previous_reset_reason = ResetReason.power_on;
    previous_boot_phase = BootPhase.start;
    previous_fault_task = [];
  };
  block = λ hw. record { prcr = 0; vbtbkr = λ p. 0 };
  boot_ms = λ hw. hw.ticks;
  tick_period_ms = 1;
  delay = λ n hw. record hw { ticks = hw.ticks + n };
}

abbrev busy : Desk
busy = record {
  uart_waiting = 7 ∷ 10 ∷ 7 ∷ [];
  uart_sent = [];
  usb_waiting = 10 ∷ [];
  usb_sent = [];
  packed_bytes = [];
  ticks = 100;
  taken = 0;
  queued = Intent.heartbeat ∷ Intent.autopilot_version ∷ [];
  inbound = [];
}

none_taken :
    (queued : List Intent) (taken : ℕ)
    → (first_intent queued).0 ≡ none
    → length queued - length (first_intent queued).1 + taken ≡ taken
none_taken [] taken e = omega arith
none_taken (intent ∷ rest) taken e = ground arith

one_taken :
    (queued : List Intent) (taken : ℕ) (intent : Intent)
    → (first_intent queued).0 ≡ some intent
    → length queued - length (first_intent queued).1 + taken ≡ suc taken
one_taken [] taken intent e = ground arith
one_taken (x ∷ rest) taken intent e = omega arith

abbrev desk_room : Desk → ℕ
desk_room hw = 20 - length hw.usb_sent

host_stops : Stalled desk (λ hw. hw.ticks) (λ hw. hw.taken) desk_room (λ hw. hw.usb_sent) 1
host_stops = record {
  frame_length = λ call hw. omega arith;
  frame_ticks = λ call hw. omega arith;
  frame_taken = λ call hw. refl;
  frame_sent = λ call hw. refl;
  frame_room = λ call hw. refl;
  room_told = λ hw. refl;
  room_room = λ hw. refl;
  write_ticks = λ frame hw fits. omega arith;
  write_taken = λ frame hw fits. refl;
  write_room = λ frame hw fits. omega (arith, length-append hw.usb_sent frame, fits);
  write_sent = λ frame hw fits. refl;
  receive_room = λ hw. refl;
  delay_room = λ n hw. refl;
  room_ticks = λ hw. omega arith;
  room_taken = λ hw. refl;
  room_sent = λ hw. refl;
  receive_ticks = λ hw. omega arith;
  receive_none = λ hw e. none_taken hw.queued hw.taken e;
  receive_some = λ intent hw e. one_taken hw.queued hw.taken intent e;
  receive_sent = λ hw. refl;
  delay_ticks = λ n hw. omega arith;
  delay_taken = λ n hw. refl;
  delay_sent = λ n hw. refl;
}

-- What each port has waiting and was given.
abbrev seen_usb : Desk → List ℕ × List ℕ
seen_usb hw = (hw.usb_waiting, hw.usb_sent)

abbrev seen_uart : Desk → List ℕ × List ℕ
seen_uart hw = (hw.uart_waiting, hw.uart_sent)

apart_usb : Untouched desk (List ℕ × List ℕ) seen_usb desk.link_uart 0 0
apart_usb = record {
  available_keeps = λ hw. refl;
  read_keeps = λ hw. refl;
  write_keeps = λ frame hw. refl;
  room_keeps = λ hw. refl;
  parse_keeps = λ byte msg status hw. refl;
  frame_keeps = λ call hw on_uart. refl;
  inbound_keeps = λ msg hw. refl;
  receive_keeps = λ hw. refl;
  delay_keeps = λ ticks hw. refl;
}

apart_uart : Untouched desk (List ℕ × List ℕ) seen_uart desk.link_usb 1 1
apart_uart = record {
  available_keeps = λ hw. refl;
  read_keeps = λ hw. refl;
  write_keeps = λ frame hw. refl;
  room_keeps = λ hw. refl;
  parse_keeps = λ byte msg status hw. refl;
  frame_keeps = λ call hw on_usb. refl;
  inbound_keeps = λ msg hw. refl;
  receive_keeps = λ hw. refl;
  delay_keeps = λ ticks hw. refl;
}

stalled_lem_example :
    let hw' = write_turns desk 2 (link_ports_init desk 0 1).1 busy in
    desk_room hw' + length hw'.usb_sent ≡ 20
stalled_lem_example =
    (stalled_lem desk (λ hw. hw.ticks) (λ hw. hw.taken) desk_room (λ hw. hw.usb_sent) 0 1 host_stops
      2 busy).0

-- Of two messages, twelve bytes each, the first fits and the second waits for a tick.
one_fits :
    let hw' = write_turns desk 2 (link_ports_init desk 0 1).1 busy in
    (length hw'.usb_sent ≡ 12) × (hw'.ticks ≡ 101)
unfolding write_turns write_turn write_intent uart_available_for_write mavlink_pack
one_fits = (refl, refl)

two_sent : (write_turns desk 2 (link_ports_init desk 0 1).0 busy).uart_sent ≡ replicate 24 0
unfolding write_turns write_turn write_intent uart_available_for_write mavlink_pack
two_sent = refl

-- The reader of the UART posts the message of its first line.
one_message : (read_turns desk 1 (link_ports_init desk 0 1).0 busy).1.inbound ≡ (0, 2) ∷ []
unfolding read_turns read_turn drain take_byte
one_message = refl

tasks_leave_alone_example :
    seen_usb (read_turns desk 3 (link_ports_init desk 0 1).0 busy).1 ≡ seen_usb busy
tasks_leave_alone_example =
    (tasks_leave_alone desk (List ℕ × List ℕ) seen_usb seen_uart 0 1 apart_usb apart_uart 3 busy).0

abbrev bytes_of : List ℕ → List ℕ
bytes_of [] = []
bytes_of (byte ∷ rest) = u8 byte ∷ bytes_of rest

length-bytes_of : (xs : List ℕ) → length xs ≡ length (bytes_of xs)
length-bytes_of [] = refl
length-bytes_of (byte ∷ rest) = ap suc (length-bytes_of rest)

first_byte :
    (xs : List ℕ) (byte : ℕ) (rest : List ℕ)
    → bytes_of xs ≡ byte ∷ rest
    → (u8 (next_byte xs).0 ≡ byte) × (bytes_of (next_byte xs).1 ≡ rest)
first_byte [] byte rest e = (ground arith, ground arith)
first_byte (x ∷ xs) byte rest e = (ground (arith, e), ground (arith, e))

abbrev seen_uart_port :
    Observed desk ℕ (link_ports_init desk 0 1).0.available (link_ports_init desk 0 1).0.read 0
seen_uart_port = record {
  waiting = λ hw. bytes_of hw.uart_waiting;
  library = λ hw. hw.ticks;
  inbound = λ hw. hw.inbound;
  step = λ byte msg status ticks. (byte == 10, (msg + 1, (status, ticks)));
  available_lem = λ hw. (length-bytes_of hw.uart_waiting, refl, refl, refl);
  read_lem = λ byte rest hw e.
      let first = first_byte hw.uart_waiting byte rest e in (first.0, first.1, refl, refl);
  parse_lem = λ byte msg status hw. (refl, refl, refl);
  send_lem = λ msg hw. (refl, refl, refl);
}

-- The pass posts the second message that the parser made.
drain_lem_example :
    (drain desk 128 (link_ports_init desk 0 1).0 busy).1.inbound
    ≡ []
      ++ map
          (λ msg. (0, msg))
          (read_pass ℕ
            (ℕ × (ℕ × ℕ))
            (λ byte (msg, (status, ticks)). (
              (if byte == 10 then some (msg + 1) else none),
              (ltb 0 status, (msg + 1, (status, ticks))),
            ))
            (record { waiting = 7 ∷ 10 ∷ 7 ∷ []; state = (0, (0, 100)); rx_drop_count = 0 })).0
drain_lem_example = (drain_lem desk ℕ (link_ports_init desk 0 1).0 seen_uart_port busy).0
