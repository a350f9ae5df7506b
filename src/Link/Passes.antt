-- ===== src/Link/Passes.antt =====
-- The reader's passes: their bound, and that cutting the input into passes loses nothing.
use boredom_os.Prelude.{
  ℕ, zero, suc, ◌+◌, ◌*◌, ◌≤◌, min, ◌≡◌, refl, Bool, true, false, Option, List, [], ◌∷◌, ◌++◌,
  arith, uint16_max, ◌∙◌, sym, ap, if◌then◌else◌, append_assoc, length_zero, length, take, drop,
  length-drop,
}
use boredom_os.Link.{
  max_bytes_per_pass, count_drop, Reading, posted, read_byte, drain_port, read_pass, read_passes,
}

module _ (Frame State : Type 0) (parse_char : ℕ → State → Option Frame × (Bool × State)) where
  -- All the input parsed at once: the frames, the errors and the parser's last state.
  unfoldable pub parse_all : List ℕ → State → List Frame × (ℕ × State)
  parse_all [] s = ([], (0, s))
  parse_all (byte ∷ rest) s =
      let (frame, (dropped, s')) = parse_char byte s in
      let (frames, (errors, s'')) = parse_all rest s' in
      (posted Frame State parse_char frame ++ frames, ((if dropped then 1 else 0) + errors, s''))

  abbrev pub Bytes :
      List ℕ → List ℕ → State → ℕ → List Frame × Reading Frame State parse_char → Type 0
  Bytes bytes rest s count out =
      let (frames, (errors, s')) = parse_all bytes s in
      (out.0 ≡ frames)
      × (out.1.waiting ≡ rest)
      × (out.1.state ≡ s')
      × (out.1.rx_drop_count ≡ min uint16_max (count + errors))

  count_drop_lem :
      (dropped : Bool) (count : ℕ)
      → count ≤ uint16_max
      → count_drop Frame State parse_char dropped count
        ≡ min uint16_max (count + (if dropped then 1 else 0))
  unfolding count_drop
  count_drop_lem true count le = ground arith
  count_drop_lem false count le = omega arith

  drain_port_lem :
      (n : ℕ) (waiting : List ℕ) (r : Reading Frame State parse_char)
      → r.waiting ≡ waiting
      → r.rx_drop_count ≤ uint16_max
      → Bytes
          (take n waiting)
          (drop n waiting)
          r.state
          r.rx_drop_count
          (drain_port Frame State parse_char n waiting r)
  unfolding drain_port parse_all read_byte count_drop
  drain_port_lem zero waiting r e le = (refl, e, refl, omega arith)
  drain_port_lem (suc n) [] r e le = (refl, e, refl, omega arith)
  drain_port_lem (suc n) (byte ∷ rest) r e le =
      let (frames, r') = read_byte Frame State parse_char byte rest r in
      let k = count_drop_lem (parse_char byte r.state).1.0 r.rx_drop_count le in
      let o = drain_port_lem n rest r' refl (omega (arith, k)) in
      (ap (λ more. frames ++ more) o.0, o.1, o.2, omega (arith, o.3, k))

  parse_all_split :
      (n : ℕ) (bytes : List ℕ) (s : State)
      → let (frames, (errors, s')) = parse_all (take n bytes) s in
        let (frames', (errors', s'')) = parse_all (drop n bytes) s' in
        ((parse_all bytes s).0 ≡ frames ++ frames')
        × ((parse_all bytes s).1.0 ≡ errors + errors')
        × ((parse_all bytes s).1.1 ≡ s'')
  unfolding parse_all
  parse_all_split zero bytes s = (refl, omega arith, refl)
  parse_all_split (suc n) [] s = (refl, omega arith, refl)
  parse_all_split (suc n) (byte ∷ rest) s =
      let (frame, (dropped, s')) = parse_char byte s in
      let o = parse_all_split n rest s' in
      let first = posted Frame State parse_char frame in
      (
        ap (λ more. first ++ more) o.0
            ∙ sym (
                append_assoc first (parse_all (take n rest) s').0
                  (parse_all (drop n rest) (parse_all (take n rest) s').1.1).0),
        omega (arith, o.1),
        o.2,
      )

  -- A pass parses the first 128 waiting bytes, or all if there are fewer, posts the frames found
  -- in them, counts their errors up to 65535 and leaves the other bytes for the next pass.
  pub read_pass_lem :
      (r : Reading Frame State parse_char)
      → r.rx_drop_count ≤ uint16_max
      → Bytes
          (take max_bytes_per_pass r.waiting)
          (drop max_bytes_per_pass r.waiting)
          r.state
          r.rx_drop_count
          (read_pass Frame State parse_char r)
  unfolding read_pass
  read_pass_lem r le = drain_port_lem max_bytes_per_pass r.waiting r refl le

  -- Enough passes over the waiting bytes post every frame that parsing them at once finds, in order,
  -- leave nothing, and add every byte in error to the count, which stops at 65535.
  pub read_passes_lem :
      (passes : ℕ) (r : Reading Frame State parse_char)
      → r.rx_drop_count ≤ uint16_max
      → length r.waiting ≤ passes * max_bytes_per_pass
      → let (frames, (errors, state)) = parse_all r.waiting r.state in
        let (posts, r') = read_passes Frame State parse_char passes r in
        (posts ≡ frames)
        × (r'.waiting ≡ [])
        × (r'.state ≡ state)
        × (r'.rx_drop_count ≡ min uint16_max (r.rx_drop_count + errors))
  unfolding read_passes parse_all
  read_passes_lem zero r le enough =
      rw (length_zero r.waiting (omega arith)) (refl, refl, refl, omega arith)
  read_passes_lem (suc passes) r le enough =
      let (frames, r') = read_pass Frame State parse_char r in
      let p = read_pass_lem r le in
      let n = length-drop max_bytes_per_pass r.waiting in
      let l = ap length p.1 in
      let o = read_passes_lem passes r' (omega (arith, p.3)) (omega (arith, n, l, enough)) in
      let q = parse_all_split max_bytes_per_pass r.waiting r.state in
      let (first, (_, s')) = parse_all (take max_bytes_per_pass r.waiting) r.state in
      let rest = drop max_bytes_per_pass r.waiting in
      let e : parse_all r'.waiting r'.state ≡ parse_all rest s' =
        ap (λ w. parse_all w r'.state) p.1 ∙ ap (λ s. parse_all rest s) p.2 in
      let more = (read_passes Frame State parse_char passes r').0 in
      (
        ap (λ t. t ++ more) p.0 ∙ ap (λ t. first ++ t) (o.0 ∙ ap (λ t. t.0) e) ∙ sym q.0,
        o.1,
        o.2 ∙ ap (λ t. t.1.1) e ∙ sym q.2,
        omega (arith, o.3, p.3, ap (λ t. t.1.0) e, q.1),
      )
