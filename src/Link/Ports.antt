-- ===== src/Link/Ports.antt =====
-- src/link.cpp and include/LinkPort.h: the table of ports, and the two tasks' loops over it.
--
-- The serial ports, the MAVLink library and the queues are parameters, in `Device`. A function
-- pointer of `LinkPort` is a function on the hardware.
use boredom_os.Prelude.{
  ℕ, zero, suc, ◌+◌, ◌/◌, Bool, ◌&&◌, Option, none, some, List, u8, uint16_max, ltb, if◌then◌else◌,
  length,
}
use boredom_os.Recovery.{System}
use boredom_os.MavlinkTask.{Intent, Config}
use boredom_os.MavlinkTask.Packing.{Call, mavlink_pack}
use boredom_os.Link.{max_bytes_per_pass}

-- What the wrappers call of a port.
pub record Serial (Hardware : Type 0) : Type 0 where
  pub available : Hardware → ℕ × Hardware
  pub read : Hardware → ℕ × Hardware
  pub write : List ℕ → Hardware → ℕ × Hardware
  pub available_for_write : Hardware → ℕ × Hardware

pub record Device : Type 1 where
  pub Hardware : Type 0
  pub link_uart : Serial Hardware
  pub link_usb : Serial Hardware
  pub Handle : Type 0
  -- `mavlink_message_t` and `mavlink_status_t`, and both in zeros.
  pub Message : Type 0
  pub Status : Type 0
  pub zero_message : Message
  pub zero_status : Status
  pub packet_rx_drop_count : Status → ℕ
  -- `mavlink_parse_char`, by channel, byte, message and status.
  pub parse_char : ℕ → ℕ → Message → Status → Hardware → Bool × (Message × (Status × Hardware))
  -- A call of a `_pack_chan` function, and `mavlink_msg_to_send_buffer` of its message.
  pub frame_of : Call → Hardware → List ℕ × Hardware
  -- `xQueueSend` to `linkReadQueue` and `xQueueReceive` from a port's queue.
  pub send_inbound : ℕ × Message → Hardware → Hardware
  pub receive_intent : Handle → Hardware → Option Intent × Hardware
  -- What `mavlinkPack` reads.
  pub config : Config
  pub block : Hardware → System
  pub boot_ms : Hardware → ℕ
  pub tick_period_ms : ℕ
  pub delay : ℕ → Hardware → Hardware

abbrev pub int_max : ℕ
int_max = 2147483647

abbrev pub link_chan_uart : ℕ
link_chan_uart = 0

abbrev pub link_chan_usb : ℕ
link_chan_usb = 1

pub record LinkPort (d : Device) : Type 0 where
  pub available : d.Hardware → ℕ × d.Hardware
  pub read : d.Hardware → ℕ × d.Hardware
  pub write : List ℕ → d.Hardware → ℕ × d.Hardware
  pub available_for_write : d.Hardware → ℕ × d.Hardware
  pub write_queue : d.Handle
  pub chan : ℕ
  pub msg : d.Message
  pub rxstatus : d.Status
  pub rx_drop_count : ℕ

module _ (d : Device) where
  open d use {
    Hardware, link_uart, link_usb, Handle, zero_message, zero_status, packet_rx_drop_count,
    parse_char, frame_of, send_inbound, receive_intent, config, block, boot_ms, tick_period_ms,
    delay,
  }

  unfoldable pub uart_available_for_write : Hardware → ℕ × Hardware
  uart_available_for_write hw = (int_max, hw)

  -- `linkPorts` after `linkPortsInit`.
  abbrev pub link_ports_init : Handle → Handle → LinkPort d × LinkPort d
  link_ports_init uart_write_queue usb_write_queue = (
    record {
      available = link_uart.available;
      read = link_uart.read;
      write = link_uart.write;
      available_for_write = uart_available_for_write;
      write_queue = uart_write_queue;
      chan = link_chan_uart;
      msg = zero_message;
      rxstatus = zero_status;
      rx_drop_count = 0;
    },
    record {
      available = link_usb.available;
      read = link_usb.read;
      write = link_usb.write;
      available_for_write = link_usb.available_for_write;
      write_queue = usb_write_queue;
      chan = link_chan_usb;
      msg = zero_message;
      rxstatus = zero_status;
      rx_drop_count = 0;
    },
  )

  -- A byte of `TaskLinkRead`'s inner loop.
  unfoldable pub take_byte : LinkPort d → Hardware → LinkPort d × Hardware
  take_byte port hw =
      let (received, hw) = port.read hw in
      let (complete, (msg, (status, hw))) =
        parse_char port.chan (u8 received) port.msg port.rxstatus hw in
      let hw = if complete then send_inbound (port.chan, msg) hw else hw in
      let dropped = ltb 0 (packet_rx_drop_count status) && ltb port.rx_drop_count uint16_max in
      (
        record port {
          msg = msg;
          rxstatus = status;
          rx_drop_count = if dropped then port.rx_drop_count + 1 else port.rx_drop_count;
        },
        hw,
      )

  -- The inner loop, with the bytes that it may still take.
  unfoldable pub drain : ℕ → LinkPort d → Hardware → LinkPort d × Hardware
  unfolding take_byte
  drain zero port hw = (port, (port.available hw).1)
  drain (suc left) port hw =
      let (waiting, hw) = port.available hw in
      let (port', hw') = take_byte port hw in
      let rest = drain left port' hw' in if ltb 0 waiting then rest else (port, hw)

  -- A turn of `TaskLinkRead`'s outer loop.
  unfoldable pub read_turn : LinkPort d → Hardware → LinkPort d × Hardware
  unfolding drain
  read_turn port hw =
      let (port, hw) = drain max_bytes_per_pass port hw in (port, delay (10 / tick_period_ms) hw)

  unfoldable pub read_turns : ℕ → LinkPort d → Hardware → LinkPort d × Hardware
  unfolding read_turn
  read_turns zero port hw = (port, hw)
  read_turns (suc turns) port hw = let (port, hw) = read_turn port hw in read_turns turns port hw

  -- What `TaskLinkWrite` does with a message that it received.
  unfoldable pub write_intent : LinkPort d → Intent → Hardware → Hardware
  write_intent port intent hw =
      let (frame, hw) =
        frame_of (mavlink_pack config (block hw) (boot_ms hw) port.chan intent) hw in
      let (room, hw) = port.available_for_write hw in
      if ltb room (length frame) then delay 1 hw else (port.write frame hw).1

  -- A turn of its loop.
  unfoldable pub write_turn : LinkPort d → Hardware → Hardware
  unfolding write_intent
  write_turn port hw =
      let (received, hw) = receive_intent port.write_queue hw in
      elim received [ none ↦ hw | some intent ↦ write_intent port intent hw ]

  unfoldable pub write_turns : ℕ → LinkPort d → Hardware → Hardware
  unfolding write_turn
  write_turns zero port hw = hw
  write_turns (suc turns) port hw = write_turns turns port (write_turn port hw)
