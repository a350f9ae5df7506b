-- ===== src/Link/Apart.antt =====
-- Two tasks share each body: what is not of its own port a task leaves alone.
use boredom_os.Prelude.{
  ℕ, zero, suc, ◌/◌, ◌≡◌, refl, List, ◌∙◌, inl, inr, u8, ltb, Bool-cases, Option-cases, length,
}
use boredom_os.MavlinkTask.{Intent}
use boredom_os.MavlinkTask.Packing.{Call, mavlink_pack}
use boredom_os.Link.{max_bytes_per_pass}
use boredom_os.Link.Ports.{
  Serial, Device, LinkPort, link_ports_init, link_chan_uart, link_chan_usb,
  uart_available_for_write, take_byte, drain, read_turn, read_turns, write_intent, write_turn,
  write_turns,
}

-- Of something on the board: the calls on a serial port, a channel and a queue, and a delay, do not
-- change it.
pub record Untouched (d : Device) (Seen : Type 0) (see : d.Hardware → Seen)
    (serial : Serial d.Hardware) (queue : d.Handle) (chan : ℕ) : Type 0 where
  pub available_keeps : (hw : d.Hardware) → see (serial.available hw).1 ≡ see hw
  pub read_keeps : (hw : d.Hardware) → see (serial.read hw).1 ≡ see hw
  pub write_keeps : (frame : List ℕ) (hw : d.Hardware) → see (serial.write frame hw).1 ≡ see hw
  pub room_keeps : (hw : d.Hardware) → see (serial.available_for_write hw).1 ≡ see hw
  pub parse_keeps :
      (byte : ℕ) (msg : d.Message) (status : d.Status) (hw : d.Hardware)
      → see (d.parse_char chan byte msg status hw).1.1.1 ≡ see hw
  pub frame_keeps :
      (call : Call) (hw : d.Hardware) → call.chan ≡ chan → see (d.frame_of call hw).1 ≡ see hw
  pub inbound_keeps :
      (msg : d.Message) (hw : d.Hardware) → see (d.send_inbound (chan, msg) hw) ≡ see hw
  pub receive_keeps : (hw : d.Hardware) → see (d.receive_intent queue hw).1 ≡ see hw
  pub delay_keeps : (ticks : ℕ) (hw : d.Hardware) → see (d.delay ticks hw) ≡ see hw

module _ (d : Device) (Seen : Type 0) (see : d.Hardware → Seen) where
  -- The serial port behind an entry of the table.
  abbrev serial_of : LinkPort d → Serial d.Hardware
  serial_of port = record {
    available = port.available;
    read = port.read;
    write = port.write;
    available_for_write = port.available_for_write;
  }

  abbrev Own : LinkPort d → Type 0
  Own port = Untouched d Seen see (serial_of port) port.write_queue port.chan

  take_byte-Own : (port : LinkPort d) (hw : d.Hardware) → Own port → Own (take_byte d port hw).0
  unfolding take_byte
  take_byte-Own port hw o = o

  take_byte-see :
      (port : LinkPort d) (hw : d.Hardware) → Own port → see (take_byte d port hw).1 ≡ see hw
  unfolding take_byte
  take_byte-see port hw o =
      let (received, hw') = port.read hw in
      let (complete, (msg, (status, hw''))) =
        d.parse_char port.chan (u8 received) port.msg port.rxstatus hw' in
      let seen = o.parse_keeps (u8 received) port.msg port.rxstatus hw' ∙ o.read_keeps hw in
      elim (Bool-cases complete) [
        | inl e ↦ rw (e) (o.inbound_keeps msg hw'' ∙ seen)
        | inr e ↦ rw (e) seen
      ]

  drain-see :
      (left : ℕ) (port : LinkPort d) (hw : d.Hardware)
      → Own port
      → see (drain d left port hw).1 ≡ see hw
  unfolding drain
  drain-see zero port hw o = o.available_keeps hw
  drain-see (suc left) port hw o =
      let (waiting, hw') = port.available hw in
      let next = take_byte d port hw' in
      elim (Bool-cases (ltb 0 waiting)) [
        | inl e ↦ rw (e) (
            drain-see left next.0 next.1 (take_byte-Own port hw' o)
            ∙ take_byte-see port hw' o
            ∙ o.available_keeps hw)
        | inr e ↦ rw (e) (o.available_keeps hw)
      ]

  read_turn-see :
      (port : LinkPort d) (hw : d.Hardware) → Own port → see (read_turn d port hw).1 ≡ see hw
  unfolding read_turn
  read_turn-see port hw o =
      o.delay_keeps (10 / d.tick_period_ms) (drain d max_bytes_per_pass port hw).1
      ∙ drain-see max_bytes_per_pass port hw o

  drain-Own :
      (left : ℕ) (port : LinkPort d) (hw : d.Hardware) → Own port → Own (drain d left port hw).0
  unfolding drain
  drain-Own zero port hw o = o
  drain-Own (suc left) port hw o =
      let (waiting, hw') = port.available hw in
      let next = take_byte d port hw' in
      elim (Bool-cases (ltb 0 waiting)) [
        | inl e ↦ rw (e) (drain-Own left next.0 next.1 (take_byte-Own port hw' o))
        | inr e ↦ rw (e) o
      ]

  read_turns-see :
      (turns : ℕ) (port : LinkPort d) (hw : d.Hardware)
      → Own port
      → see (read_turns d turns port hw).1 ≡ see hw
  unfolding read_turns read_turn
  read_turns-see zero port hw o = refl
  read_turns-see (suc turns) port hw o =
      let (port', hw') = read_turn d port hw in
      read_turns-see turns port' hw' (drain-Own max_bytes_per_pass port hw o)
      ∙ read_turn-see port hw o

  write_intent-see :
      (port : LinkPort d) (intent : Intent) (hw : d.Hardware)
      → Own port
      → see (write_intent d port intent hw) ≡ see hw
  unfolding write_intent mavlink_pack
  write_intent-see port intent hw o =
      let call = mavlink_pack d.config (d.block hw) (d.boot_ms hw) port.chan intent in
      let (frame, hw') = d.frame_of call hw in
      let (room, hw'') = port.available_for_write hw' in
      let seen = o.room_keeps hw' ∙ o.frame_keeps call hw refl in
      elim (Bool-cases (ltb room (length frame))) [
        | inl e ↦ rw (e) (o.delay_keeps 1 hw'' ∙ seen)
        | inr e ↦ rw (e) (o.write_keeps frame hw'' ∙ seen)
      ]

  write_turn-see :
      (port : LinkPort d) (hw : d.Hardware) → Own port → see (write_turn d port hw) ≡ see hw
  unfolding write_turn
  write_turn-see port hw o =
      let (received, hw') = d.receive_intent port.write_queue hw in
      elim (Option-cases received) [
        | inl e ↦ rw (write_turn, e) (o.receive_keeps hw)
        | inr (intent, e) ↦
            rw (write_turn, e) (write_intent-see port intent hw' o ∙ o.receive_keeps hw)
      ]

  write_turns-see :
      (turns : ℕ) (port : LinkPort d) (hw : d.Hardware)
      → Own port
      → see (write_turns d turns port hw) ≡ see hw
  unfolding write_turns
  write_turns-see zero port hw o = refl
  write_turns-see (suc turns) port hw o =
      write_turns-see turns port (write_turn d port hw) o ∙ write_turn-see port hw o

-- Whatever the calls on LINK_UART, channel 0 and the first queue leave alone, the two tasks of the
-- first entry that linkPortsInit fills leave alone, in any number of turns; and so for LINK_USB,
-- channel 1, the second queue and the second entry.
pub tasks_leave_alone :
    (d : Device) (Seen : Type 0) (see_usb see_uart : d.Hardware → Seen) (uart usb : d.Handle)
    → Untouched d Seen see_usb d.link_uart uart link_chan_uart
    → Untouched d Seen see_uart d.link_usb usb link_chan_usb
    → (turns : ℕ) (hw : d.Hardware)
    → let (first, second) = link_ports_init d uart usb in
      (see_usb (read_turns d turns first hw).1 ≡ see_usb hw)
      × (see_usb (write_turns d turns first hw) ≡ see_usb hw)
      × (see_uart (read_turns d turns second hw).1 ≡ see_uart hw)
      × (see_uart (write_turns d turns second hw) ≡ see_uart hw)
unfolding uart_available_for_write
tasks_leave_alone d Seen see_usb see_uart uart usb apart_usb apart_uart turns hw =
    let (first, second) = link_ports_init d uart usb in
    let first_own : Own d Seen see_usb first = record {
      available_keeps = apart_usb.available_keeps;
      read_keeps = apart_usb.read_keeps;
      write_keeps = apart_usb.write_keeps;
      parse_keeps = apart_usb.parse_keeps;
      frame_keeps = apart_usb.frame_keeps;
      inbound_keeps = apart_usb.inbound_keeps;
      receive_keeps = apart_usb.receive_keeps;
      delay_keeps = apart_usb.delay_keeps;
      room_keeps = λ h. refl;
    } in
    (
      read_turns-see d Seen see_usb turns first hw first_own,
      write_turns-see d Seen see_usb turns first hw first_own,
      read_turns-see d Seen see_uart turns second hw apart_uart,
      write_turns-see d Seen see_uart turns second hw apart_uart,
    )
