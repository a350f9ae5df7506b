-- ===== src/Queues/Pacing.antt =====
-- How much of a port's write queue the log protocol can hold, however the tasks preempt one another.
use boredom_os.Prelude.{
  ℕ, zero, suc, ◌+◌, ◌≤◌, ◌≡◌, true, false, some, List, [], ◌∷◌, map, arith, leb_cases, List-cases,
  ap, inl, inr, if◌then◌else◌, length, ◌∙◌,
}
use boredom_os.SdData.{Card}
use boredom_os.Download.{Msg, port_at, Reader, service_listing, service_stream}
use boredom_os.Download.Serving.{SdRecord, Task, serve_port}
use boredom_os.Download.Turns.{chosen_port_lem, service_stream_one, service_listing_one}
use boredom_os.MavlinkTask.{Intent}
use boredom_os.Queues.{
  Fifo, write_queue_depth, is_log, count_logs, count_logs-append, count_logs-le, port_has_room,
}
use boredom_os.Queues.Steps.{
  count_for, same_port, Shared, created, offer, take_next, handle_next, servable, serve_next,
  post_next, Step, offers, takes, handles, serves, posts, Reach, here, next,
}

count_for-map :
    (port p : ℕ) (ms : List Msg)
    → count_for port (map (λ m. (p, m)) ms) ≡ (if same_port p port then length ms else 0)
count_for-map port p [] = ground arith
count_for-map port p (m ∷ ms) = ground (arith, count_for-map port p ms)

module _ (c : Card) (r : Reader c) where
  -- A piece of work puts at most one message on its port's queue, and none on the other's.
  serve_port_one :
      (port other : ℕ) (t : Task c r)
      → count_for other (serve_port c r port t).0 ≤ (if same_port port other then 1 else 0)
  unfolding serve_port
  serve_port_one port other t =
      let ms =
        (if (port_at port t.downloads.listings).active
          then service_listing c r t.log.files port t.downloads t.world
          else service_stream c r port t.downloads t.world).0 in
      ground (
        arith,
        count_for-map other port ms,
        service_stream_one c r port t.downloads t.world,
        service_listing_one c r t.log.files port t.downloads t.world,
      )

-- What one port's queue holds of the log protocol.
module _ (f : Fifo Intent) where
  open f use {Queue, items, depth, send, receive, messages_waiting}

  abbrev pub logs_in : Queue → ℕ
  logs_in q = count_logs (items q)

  pub send_lem :
      (intent : Intent) (q : Queue)
      → (depth (send intent q).1 ≡ depth q)
        × (logs_in (send intent q).1 ≤ logs_in q + (if is_log intent then 1 else 0))
  send_lem intent q = elim (leb_cases (depth q) (length (items q))) [
    | inl full ↦
        let (_, same, d) = f.send_full intent q full in (d, omega (arith, ap count_logs same))
    | inr room ↦
        let (_, more, d) = f.send_room intent q room in
        (d, omega (arith, ap count_logs more, count_logs-append (items q) (intent ∷ [])))
  ]

  receive_lem : (q : Queue) → (depth (receive q).1 ≡ depth q) × (logs_in (receive q).1 ≤ logs_in q)
  receive_lem q = elim (List-cases (items q)) [
    | inl e ↦ let (_, same) = f.receive_none q e in (ap depth same, omega (arith, ap logs_in same))
    | inr (a, rest, e) ↦
        let (_, left, d) = f.receive_some q a rest e in
        (d, omega (arith, ap count_logs left, ap count_logs e))
  ]

  room_lem : (q : Queue) → port_has_room f q ≡ true → logs_in q ≤ 1
  unfolding port_has_room
  room_lem q h = ground (arith, f.waiting_items q, count_logs-le (items q))

  -- A port's queue keeps its length, and the messages of the log protocol, in it and about to be
  -- posted to it, are two at most, but for those by which a record ended a download.
  abbrev pub PortPaced : Queue → ℕ → ℕ → Type 0
  PortPaced q posting ended = (depth q ≡ write_queue_depth) × (logs_in q + posting ≤ 2 + ended)

module _ (f : Fifo Intent) (c : Card) (r : Reader c) where
  abbrev pub Paced : Shared f c r → Type 0
  Paced s =
      PortPaced f s.queues.uart (count_for 0 s.posting) s.ended.uart
      × PortPaced f s.queues.usb (count_for 1 s.posting) s.ended.usb

  pub created-Paced : (t : Task c r) → Paced (created f c r t)
  unfolding created
  created-Paced t =
      let empty = ap count_logs (f.items_create write_queue_depth) in
      let d = f.depth_create write_queue_depth in
      ((d, omega (arith, empty)), (d, omega (arith, empty)))

  offer-Paced :
      (port : ℕ) (intent : Intent) (s : Shared f c r)
      → is_log intent ≡ false
      → Paced s
      → Paced (offer f c r port intent s)
  unfolding offer
  offer-Paced zero intent s e (uart, usb) =
      let (d, l) = send_lem f intent s.queues.uart in ((d ∙ uart.0, ground (arith, l, uart.1)), usb)
  offer-Paced (suc port) intent s e (uart, usb) =
      let (d, l) = send_lem f intent s.queues.usb in (uart, (d ∙ usb.0, ground (arith, l, usb.1)))

  take_next-Paced : (port : ℕ) (s : Shared f c r) → Paced s → Paced (take_next f c r port s)
  unfolding take_next
  take_next-Paced zero s (uart, usb) =
      let (d, l) = receive_lem f s.queues.uart in ((d ∙ uart.0, omega (arith, l, uart.1)), usb)
  take_next-Paced (suc port) s (uart, usb) =
      let (d, l) = receive_lem f s.queues.usb in (uart, (d ∙ usb.0, omega (arith, l, usb.1)))

  handle_next-Paced :
      (incoming : SdRecord) (s : Shared f c r)
      → s.posting ≡ []
      → Paced s
      → Paced (handle_next f c r incoming s)
  unfolding handle_next
  handle_next-Paced incoming s e (uart, usb) =
      let none0 : count_for 0 s.posting ≡ 0 = ap (count_for 0) e in
      let none1 : count_for 1 s.posting ≡ 0 = ap (count_for 1) e in
      ((uart.0, omega (arith, uart.1, none0)), (usb.0, omega (arith, usb.1, none1)))

  served_port :
      (port : ℕ) (s : Shared f c r)
      → s.posting ≡ []
      → logs_in f (port_at port s.queues) ≤ 1
      → Paced s
      → Paced (serve_next f c r port s)
  unfolding serve_next
  served_port zero s e few (uart, usb) =
      let first = serve_port_one c r 0 0 s.task in
      let second = serve_port_one c r 0 1 s.task in
      (
        (uart.0, omega (arith, few, first)),
        (usb.0, omega (arith, usb.1, ap (count_for 1) e, second)),
      )
  served_port (suc port) s e few (uart, usb) =
      let first = serve_port_one c r (suc port) 0 s.task in
      let second = serve_port_one c r (suc port) 1 s.task in
      (
        (uart.0, omega (arith, uart.1, ap (count_for 0) e, first)),
        (usb.0, omega (arith, few, second)),
      )

  serve_next-Paced :
      (port : ℕ) (s : Shared f c r)
      → s.posting ≡ []
      → servable f c r s ≡ some port
      → Paced s
      → Paced (serve_next f c r port s)
  unfolding servable
  serve_next-Paced port s e chosen (uart, usb) =
      let room =
        (chosen_port_lem c r (λ p. port_has_room f (port_at p s.queues)) s.task port chosen).1 in
      served_port port s e (room_lem f (port_at port s.queues) room) (uart, usb)

  post_next-Paced :
      (port : ℕ) (m : Msg) (rest : List (ℕ × Msg)) (s : Shared f c r)
      → s.posting ≡ (port, m) ∷ rest
      → Paced s
      → Paced (post_next f c r port m rest s)
  unfolding post_next
  post_next-Paced zero m rest s e (uart, usb) =
      let (d, l) = send_lem f (Intent.log m) s.queues.uart in
      let more = ap (count_for 0) e in
      let same = ap (count_for 1) e in
      ((d ∙ uart.0, omega (arith, l, uart.1, more)), (usb.0, omega (arith, usb.1, same)))
  post_next-Paced (suc port) m rest s e (uart, usb) =
      let (d, l) = send_lem f (Intent.log m) s.queues.usb in
      let more = ap (count_for 1) e in
      let same = ap (count_for 0) e in
      ((uart.0, omega (arith, uart.1, same)), (d ∙ usb.0, omega (arith, l, usb.1, more)))

  Step-Paced : {s t : Shared f c r} → Step f c r s t → Paced s → Paced t
  Step-Paced (offers s port intent e) p = offer-Paced port intent s e p
  Step-Paced (takes s port) p = take_next-Paced port s p
  Step-Paced (handles s incoming e) p = handle_next-Paced incoming s e p
  Step-Paced (serves s port e chosen) p = serve_next-Paced port s e chosen p
  Step-Paced (posts s port m rest e) p = post_next-Paced port m rest s e p

  pub Reach-Paced : {s t : Shared f c r} → Paced s → Reach f c r s t → Paced t
  Reach-Paced p here = p
  Reach-Paced p (next steps st) = Step-Paced st (Reach-Paced p steps)
