-- ===== src/Link/Writing.antt =====
-- The writer over many messages: a port that takes nothing, and one that takes everything.
use boredom_os.Prelude.{
  ℕ, zero, suc, ◌+◌, ◌*◌, ◌≤◌, ◌≡◌, refl, false, none, some, List, ◌++◌, arith, ◌∙◌, sym, ap, inl,
  inr, ltb, Option-cases, Bool-cases, length, length-append,
}
use boredom_os.MavlinkTask.{Intent}
use boredom_os.MavlinkTask.Packing.{Call, mavlink_pack}
use boredom_os.Link.Ports.{
  Device, LinkPort, int_max, link_chan_uart, link_ports_init, uart_available_for_write,
  write_intent, write_turn, write_turns,
}

-- The bytes that a frame of MAVLink 2 has at least, and MAVLINK_MAX_PACKET_LEN.
abbrev pub min_frame : ℕ
min_frame = 12

abbrev pub max_frame : ℕ
max_frame = 280

-- A host that has stopped reading: what the USB port still has room for, `room`, no step makes more,
-- and a frame that fits is taken whole and uses it up. Nothing is said of a frame that does not fit:
-- the port would wait in it for the host. `ticks` is the scheduler's count, `taken` the messages
-- received from the queue and `sent` what the port was given.
pub record Stalled (d : Device) (ticks taken room : d.Hardware → ℕ) (sent : d.Hardware → List ℕ)
    (queue : d.Handle) : Type 0 where
  pub frame_length : (call : Call) (hw : d.Hardware) → min_frame ≤ length (d.frame_of call hw).0
  pub frame_ticks : (call : Call) (hw : d.Hardware) → ticks hw ≤ ticks (d.frame_of call hw).1
  pub frame_taken : (call : Call) (hw : d.Hardware) → taken (d.frame_of call hw).1 ≡ taken hw
  pub frame_room : (call : Call) (hw : d.Hardware) → room (d.frame_of call hw).1 ≡ room hw
  pub frame_sent : (call : Call) (hw : d.Hardware) → sent (d.frame_of call hw).1 ≡ sent hw
  pub room_told : (hw : d.Hardware) → (d.link_usb.available_for_write hw).0 ≡ room hw
  pub room_ticks : (hw : d.Hardware) → ticks hw ≤ ticks (d.link_usb.available_for_write hw).1
  pub room_taken : (hw : d.Hardware) → taken (d.link_usb.available_for_write hw).1 ≡ taken hw
  pub room_room : (hw : d.Hardware) → room (d.link_usb.available_for_write hw).1 ≡ room hw
  pub room_sent : (hw : d.Hardware) → sent (d.link_usb.available_for_write hw).1 ≡ sent hw
  pub write_ticks :
      (frame : List ℕ) (hw : d.Hardware)
      → length frame ≤ room hw
      → ticks hw ≤ ticks (d.link_usb.write frame hw).1
  pub write_taken :
      (frame : List ℕ) (hw : d.Hardware)
      → length frame ≤ room hw
      → taken (d.link_usb.write frame hw).1 ≡ taken hw
  pub write_room :
      (frame : List ℕ) (hw : d.Hardware)
      → length frame ≤ room hw
      → room (d.link_usb.write frame hw).1 + length frame ≡ room hw
  pub write_sent :
      (frame : List ℕ) (hw : d.Hardware)
      → length frame ≤ room hw
      → sent (d.link_usb.write frame hw).1 ≡ sent hw ++ frame
  pub receive_ticks : (hw : d.Hardware) → ticks hw ≤ ticks (d.receive_intent queue hw).1
  pub receive_none :
      (hw : d.Hardware)
      → (d.receive_intent queue hw).0 ≡ none
      → taken (d.receive_intent queue hw).1 ≡ taken hw
  pub receive_some :
      (intent : Intent) (hw : d.Hardware)
      → (d.receive_intent queue hw).0 ≡ some intent
      → taken (d.receive_intent queue hw).1 ≡ suc (taken hw)
  pub receive_room : (hw : d.Hardware) → room (d.receive_intent queue hw).1 ≡ room hw
  pub receive_sent : (hw : d.Hardware) → sent (d.receive_intent queue hw).1 ≡ sent hw
  pub delay_ticks : (n : ℕ) (hw : d.Hardware) → ticks hw + n ≤ ticks (d.delay n hw)
  pub delay_taken : (n : ℕ) (hw : d.Hardware) → taken (d.delay n hw) ≡ taken hw
  pub delay_room : (n : ℕ) (hw : d.Hardware) → room (d.delay n hw) ≡ room hw
  pub delay_sent : (n : ℕ) (hw : d.Hardware) → sent (d.delay n hw) ≡ sent hw

module _ (d : Device) (ticks taken room : d.Hardware → ℕ) (sent : d.Hardware → List ℕ)
    (uart usb : d.Handle) (o : Stalled d ticks taken room sent usb) where
  abbrev port : LinkPort d
  port = (link_ports_init d uart usb).1

  -- From one state to another: so many messages were received and so many ticks waited, or at least
  -- a frame's bytes sent, for each of them; and what was sent was room before.
  abbrev Moves : ℕ → d.Hardware → d.Hardware → Type 0
  Moves received hw hw' =
      (min_frame * received + min_frame * ticks hw + length (sent hw)
        ≤ min_frame * ticks hw' + length (sent hw'))
      × (room hw' + length (sent hw') ≡ room hw + length (sent hw))

  stalled_intent :
      (intent : Intent) (hw : d.Hardware)
      → Moves 1 hw (write_intent d port intent hw)
        × (taken (write_intent d port intent hw) ≡ taken hw)
  unfolding write_intent
  stalled_intent intent hw =
      let call = mavlink_pack d.config (d.block hw) (d.boot_ms hw) port.chan intent in
      let (frame, hw') = d.frame_of call hw in
      let (told, hw'') = d.link_usb.available_for_write hw' in
      let asked = ap length (o.room_sent hw' ∙ o.frame_sent call hw) in
      let still = o.room_room hw' ∙ o.frame_room call hw in
      elim (Bool-cases (ltb told (length frame))) [
        | inl short ↦
            let waited = ap length (o.delay_sent 1 hw'') ∙ asked in
            rw (write_intent, short)
              (
                (
                  omega (
                    arith,
                    waited,
                    o.delay_ticks 1 hw'',
                    o.room_ticks hw',
                    o.frame_ticks call hw,
                  ),
                  omega (arith, waited, o.delay_room 1 hw'', still),
                ),
                o.delay_taken 1 hw'' ∙ o.room_taken hw' ∙ o.frame_taken call hw,
              )
        | inr enough ↦
            let fits : length frame ≤ room hw'' =
              ground (arith, enough, o.room_told hw', o.room_room hw') in
            let given =
              ap length (o.write_sent frame hw'' fits) ∙ length-append (sent hw'') frame in
            rw (write_intent, enough)
              (
                (
                  omega (
                    arith,
                    given,
                    asked,
                    o.write_ticks frame hw'' fits,
                    o.room_ticks hw',
                    o.frame_ticks call hw,
                    o.frame_length call hw,
                  ),
                  omega (arith, given, asked, o.write_room frame hw'' fits, still),
                ),
                o.write_taken frame hw'' fits ∙ o.room_taken hw' ∙ o.frame_taken call hw,
              )
      ]

  abbrev Yields : d.Hardware → d.Hardware → Type 0
  Yields hw hw' =
      (min_frame * taken hw' + min_frame * ticks hw + length (sent hw)
        ≤ min_frame * taken hw + min_frame * ticks hw' + length (sent hw'))
      × (room hw' + length (sent hw') ≡ room hw + length (sent hw))

  stalled_turn : (hw : d.Hardware) → Yields hw (write_turn d port hw)
  unfolding write_turn
  stalled_turn hw =
      let (received, hw') = d.receive_intent usb hw in
      let same = ap length (o.receive_sent hw) in
      elim (Option-cases received) [
        | inl e ↦
            rw (write_turn, e)
              (
                omega (arith, same, o.receive_none hw e, o.receive_ticks hw),
                omega (arith, same, o.receive_room hw),
              )
        | inr (intent, e) ↦
            let (w, t) = stalled_intent intent hw' in
            rw (write_turn, e)
              (
                omega (arith, same, w.0, t, o.receive_some intent hw e, o.receive_ticks hw),
                omega (arith, same, w.1, o.receive_room hw),
              )
      ]

  stalled_turns : (turns : ℕ) (hw : d.Hardware) → Yields hw (write_turns d turns port hw)
  unfolding write_turns
  stalled_turns zero hw = (omega arith, refl)
  stalled_turns (suc turns) hw =
      let first = stalled_turn hw in
      let rest = stalled_turns turns (write_turn d port hw) in
      (omega (arith, first.0, rest.0), rest.1 ∙ first.1)

  -- While a host has the USB port open and does not read, in any number of turns and from any room
  -- that the port still has, if no frame is shorter than twelve bytes: all that the writer gives
  -- the port had room there, so that it never waits in the port without yielding; and of the
  -- messages that it takes, at most as many are written as frames of twelve bytes fit in that room,
  -- and with each of the others it waits for a tick.
  pub stalled_lem :
      (turns : ℕ) (hw : d.Hardware)
      → let hw' = write_turns d turns port hw in
        (room hw' + length (sent hw') ≡ room hw + length (sent hw))
        × (min_frame * taken hw' + min_frame * ticks hw
            ≤ min_frame * taken hw + min_frame * ticks hw' + room hw)
  stalled_lem turns hw =
      let (yields, kept) = stalled_turns turns hw in (kept, omega (arith, yields, kept))

-- A UART, which takes every frame: `packed` is the bytes of the frames that the library packed, one
-- after another.
pub record Flowing (d : Device) (packed sent : d.Hardware → List ℕ) (queue : d.Handle)
    : Type 0 where
  pub frame_length : (call : Call) (hw : d.Hardware) → length (d.frame_of call hw).0 ≤ max_frame
  pub frame_packed :
      (call : Call) (hw : d.Hardware)
      → call.chan ≡ link_chan_uart
      → packed (d.frame_of call hw).1 ≡ packed hw ++ (d.frame_of call hw).0
  pub frame_sent : (call : Call) (hw : d.Hardware) → sent (d.frame_of call hw).1 ≡ sent hw
  pub write_packed :
      (frame : List ℕ) (hw : d.Hardware) → packed (d.link_uart.write frame hw).1 ≡ packed hw
  pub write_sent :
      (frame : List ℕ) (hw : d.Hardware) → sent (d.link_uart.write frame hw).1 ≡ sent hw ++ frame
  pub receive_packed : (hw : d.Hardware) → packed (d.receive_intent queue hw).1 ≡ packed hw
  pub receive_sent : (hw : d.Hardware) → sent (d.receive_intent queue hw).1 ≡ sent hw

module _ (d : Device) (packed sent : d.Hardware → List ℕ) (uart usb : d.Handle)
    (o : Flowing d packed sent uart) where
  abbrev uart_port : LinkPort d
  uart_port = (link_ports_init d uart usb).0

  flowing_intent :
      (intent : Intent) (hw : d.Hardware)
      → sent hw ≡ packed hw
      → sent (write_intent d uart_port intent hw) ≡ packed (write_intent d uart_port intent hw)
  unfolding write_intent uart_available_for_write mavlink_pack
  flowing_intent intent hw same =
      let call = mavlink_pack d.config (d.block hw) (d.boot_ms hw) uart_port.chan intent in
      let (frame, hw') = d.frame_of call hw in
      let fits : ltb int_max (length frame) ≡ false = ground (arith, o.frame_length call hw) in
      rw (fits) (
        o.write_sent frame hw'
        ∙ ap (λ bytes. bytes ++ frame) (o.frame_sent call hw ∙ same)
        ∙ sym (o.frame_packed call hw refl)
        ∙ sym (o.write_packed frame hw'))

  flowing_turn :
      (hw : d.Hardware)
      → sent hw ≡ packed hw
      → sent (write_turn d uart_port hw) ≡ packed (write_turn d uart_port hw)
  unfolding write_turn
  flowing_turn hw same =
      let (received, hw') = d.receive_intent uart hw in
      let kept = o.receive_sent hw ∙ same ∙ sym (o.receive_packed hw) in
      elim (Option-cases received) [
        | inl e ↦ rw (write_turn, e) kept
        | inr (intent, e) ↦ rw (write_turn, e) (flowing_intent intent hw' kept)
      ]

  -- On the UART the writer drops no frame: what it has given the port is every frame that it
  -- packed, whole and in order, after any number of turns.
  pub uart_sends_all :
      (turns : ℕ) (hw : d.Hardware)
      → sent hw ≡ packed hw
      → let hw' = write_turns d turns uart_port hw in sent hw' ≡ packed hw'
  unfolding write_turns
  uart_sends_all zero hw same = same
  uart_sends_all (suc turns) hw same =
      uart_sends_all turns (write_turn d uart_port hw) (flowing_turn hw same)
