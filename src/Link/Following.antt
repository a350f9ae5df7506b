-- ===== src/Link/Following.antt =====
-- The reader's loop over the hardware, and its pass over the bytes that wait.
use boredom_os.Prelude.{
  ℕ, zero, suc, ◌≡◌, refl, Bool, true, false, Option, none, some, List, [], ◌∷◌, ◌++◌, map,
  append_nil, append_assoc, arith, ◌∙◌, sym, ap, inl, inr, u8, ltb, if◌then◌else◌, Bool-cases,
  length,
}
use boredom_os.Link.{Reading, count_drop, read_byte, drain_port, read_pass, max_bytes_per_pass}
use boredom_os.Link.Ports.{Device, LinkPort, take_byte, drain}

-- A port whose waiting bytes, parser's state and posted messages can be seen: no byte comes while
-- the loop runs, `linkReadQueue` has room, and the parser's calls are a function, `step`, of what
-- it is given and of its own state.
pub record Observed (d : Device) (Library : Type 0) (available read : d.Hardware → ℕ × d.Hardware)
    (chan : ℕ) : Type 0 where
  pub waiting : d.Hardware → List ℕ
  pub library : d.Hardware → Library
  pub inbound : d.Hardware → List (ℕ × d.Message)
  pub step : ℕ → d.Message → d.Status → Library → Bool × (d.Message × (d.Status × Library))
  pub available_lem :
      (hw : d.Hardware)
      → ((available hw).0 ≡ length (waiting hw))
        × (waiting (available hw).1 ≡ waiting hw)
        × (library (available hw).1 ≡ library hw)
        × (inbound (available hw).1 ≡ inbound hw)
  pub read_lem :
      (byte : ℕ) (rest : List ℕ) (hw : d.Hardware)
      → waiting hw ≡ byte ∷ rest
      → (u8 (read hw).0 ≡ byte)
        × (waiting (read hw).1 ≡ rest)
        × (library (read hw).1 ≡ library hw)
        × (inbound (read hw).1 ≡ inbound hw)
  pub parse_lem :
      (byte : ℕ) (msg : d.Message) (status : d.Status) (hw : d.Hardware)
      → let (complete, (msg', (status', hw'))) = d.parse_char chan byte msg status hw in
        ((complete, (msg', (status', library hw'))) ≡ step byte msg status (library hw))
        × (waiting hw' ≡ waiting hw)
        × (inbound hw' ≡ inbound hw)
  pub send_lem :
      (msg : d.Message) (hw : d.Hardware)
      → let hw' = d.send_inbound (chan, msg) hw in
        (inbound hw' ≡ inbound hw ++ (chan, msg) ∷ [])
        × (waiting hw' ≡ waiting hw)
        × (library hw' ≡ library hw)

module _ (d : Device) (Library : Type 0) (base : LinkPort d)
    (o : Observed d Library base.available base.read base.chan) where
  abbrev ParserState : Type 0
  ParserState = d.Message × (d.Status × Library)

  -- The parser, as the pass has it.
  abbrev pub parser : ℕ → ParserState → Option d.Message × (Bool × ParserState)
  parser byte (msg, (status, library)) =
      let (complete, (msg', (status', library'))) = o.step byte msg status library in
      (
        (if complete then some msg' else none),
        (ltb 0 (d.packet_rx_drop_count status'), (msg', (status', library'))),
      )

  -- The entry, as its reader changes it.
  abbrev entry : d.Message → d.Status → ℕ → LinkPort d
  entry msg status count = record base { msg = msg; rxstatus = status; rx_drop_count = count }

  abbrev reading_of : LinkPort d → d.Hardware → Reading d.Message ParserState parser
  reading_of port hw = record {
    waiting = o.waiting hw;
    state = (port.msg, (port.rxstatus, o.library hw));
    rx_drop_count = port.rx_drop_count;
  }

  abbrev tagged : List d.Message → List (ℕ × d.Message)
  tagged frames = map (λ msg. (base.chan, msg)) frames

  -- A byte.
  take_byte_lem :
      (m : d.Message) (s : d.Status) (c : ℕ) (byte : ℕ) (rest : List ℕ) (hw : d.Hardware)
      → o.waiting hw ≡ byte ∷ rest
      → let port = entry m s c in
        let (frames, r') = read_byte d.Message ParserState parser byte rest (reading_of port hw) in
        let (port', hw') = take_byte d port hw in
        (o.inbound hw' ≡ o.inbound hw ++ tagged frames) × (reading_of port' hw' ≡ r')
  unfolding take_byte read_byte count_drop
  take_byte_lem m s c byte rest hw e =
      let port = entry m s c in
      let (received, hw1) = base.read hw in
      let r = o.read_lem byte rest hw e in
      let (complete, (msg, (status, hw2))) =
        d.parse_char base.chan byte port.msg port.rxstatus hw1 in
      let q = o.parse_lem byte port.msg port.rxstatus hw1 in
      let stepped : o.step byte port.msg port.rxstatus (o.library hw)
          ≡ (complete, (msg, (status, o.library hw2))) =
        ap (λ l. o.step byte port.msg port.rxstatus l) (sym r.2) ∙ sym q.0 in
      let count =
        count_drop d.Message ParserState parser (ltb 0 (d.packet_rx_drop_count status))
          port.rx_drop_count in
      elim (Bool-cases complete) [
        | inl done ↦
            let sent = o.send_lem msg hw2 in
            rw (r.0, stepped, done)
              (
                sent.0 ∙ ap (λ posts. posts ++ (base.chan, msg) ∷ []) (q.2 ∙ r.3),
                (λ i. record {
                  waiting = (sent.1 ∙ q.1 ∙ r.1) i;
                  state = (msg, (status, sent.2 i));
                  rx_drop_count = count;
                }),
              )
        | inr open_yet ↦
            rw (r.0, stepped, open_yet)
              (
                q.2 ∙ r.3 ∙ sym (append_nil (o.inbound hw)),
                ap
                    (λ bytes. record {
                      waiting = bytes;
                      state = (msg, (status, o.library hw2));
                      rx_drop_count = count;
                    })
                    (q.1 ∙ r.1),
              )
      ]

  abbrev PassOf : Type 0
  PassOf = List d.Message × Reading d.Message ParserState parser

  -- From `hw`, the loop has left what the pass has, and posted its frames with the channel.
  abbrev Follows : d.Hardware → PassOf → LinkPort d × d.Hardware → Type 0
  Follows hw (frames, r) (port', hw') =
      (o.inbound hw' ≡ o.inbound hw ++ tagged frames) × (reading_of port' hw' ≡ r)

  asked :
      (m : d.Message) (s : d.Status) (c : ℕ) (hw : d.Hardware)
      → let port = entry m s c in reading_of port (base.available hw).1 ≡ reading_of port hw
  asked m s c hw =
      let a = o.available_lem hw in
      λ i. record { waiting = a.1 i; state = (m, (s, a.2 i)); rx_drop_count = c }

  tagged-append :
      (posts : List (ℕ × d.Message)) (xs ys : List d.Message)
      → (posts ++ tagged xs) ++ tagged ys ≡ posts ++ tagged (xs ++ ys)
  tagged-append posts xs ys =
      append_assoc posts (tagged xs) (tagged ys) ∙ ap (λ t. posts ++ t) (tagged_both xs ys)
    where
      tagged_both : (xs ys : List d.Message) → tagged xs ++ tagged ys ≡ tagged (xs ++ ys)
      tagged_both [] ys = refl
      tagged_both (x ∷ xs) ys = ap (λ t. (base.chan, x) ∷ t) (tagged_both xs ys)

  drain_from :
      (left : ℕ) (m : d.Message) (s : d.Status) (c : ℕ) (hw : d.Hardware) (bytes : List ℕ)
      (r : Reading d.Message ParserState parser)
      → reading_of (entry m s c) hw ≡ r
      → r.waiting ≡ bytes
      → Follows hw
          (drain_port d.Message ParserState parser left bytes r)
          (drain d left (entry m s c) hw)
  unfolding drain drain_port read_byte take_byte
  drain_from zero m s c hw bytes r same e =
      ((o.available_lem hw).3 ∙ sym (append_nil (o.inbound hw)), asked m s c hw ∙ same)
  drain_from (suc left) m s c hw [] r same e =
      let a = o.available_lem hw in
      let nothing = ap (λ x. length x.waiting) same ∙ ap length e in
      let none_left : ltb 0 (base.available hw).0 ≡ false = ground (arith, a.0, nothing) in
      rw (none_left) (a.3 ∙ sym (append_nil (o.inbound hw)), asked m s c hw ∙ same)
  drain_from (suc left) m s c hw (byte ∷ rest) r same e =
      let a = o.available_lem hw in
      let something = ap (λ x. length x.waiting) same ∙ ap length e in
      let one_left : ltb 0 (base.available hw).0 ≡ true = ground (arith, a.0, something) in
      let port = entry m s c in
      let hw1 = (base.available hw).1 in
      let same1 = asked m s c hw ∙ same in
      let t = take_byte_lem m s c byte rest hw1 (ap (λ x. x.waiting) same1 ∙ e) in
      let next = take_byte d port hw1 in
      let stepped = ap (read_byte d.Message ParserState parser byte rest) same1 in
      let (frames, r2) = read_byte d.Message ParserState parser byte rest r in
      let more = (drain_port d.Message ParserState parser left rest r2).0 in
      let tail =
        drain_from left next.0.msg next.0.rxstatus next.0.rx_drop_count next.1 rest r2
          (t.1 ∙ ap (λ p. p.1) stepped) refl in
      let first =
        t.0
        ∙ ap (λ p. o.inbound hw1 ++ tagged p.0) stepped
        ∙ ap (λ posts. posts ++ tagged frames) a.3 in
      rw (one_left) (
        tail.0
            ∙ ap (λ posts. posts ++ tagged more) first
            ∙ tagged-append (o.inbound hw) frames more,
        tail.1,
      )

  -- A pass of TaskLinkRead's loop over the hardware does what `read_pass` does with the bytes that
  -- wait: it posts the frames that `read_pass` finds, with the port's channel, and leaves its
  -- parser's state, its waiting bytes and its count, if no byte comes while it runs and the inbound
  -- queue has room.
  pub drain_lem :
      (hw : d.Hardware)
      → let (frames, r) = read_pass d.Message ParserState parser (reading_of base hw) in
        let (port, hw') = drain d max_bytes_per_pass base hw in
        (o.inbound hw' ≡ o.inbound hw ++ map (λ msg. (base.chan, msg)) frames)
        × (reading_of port hw' ≡ r)
  unfolding read_pass
  drain_lem hw =
      drain_from max_bytes_per_pass base.msg base.rxstatus base.rx_drop_count hw (o.waiting hw)
        (reading_of base hw) refl refl
