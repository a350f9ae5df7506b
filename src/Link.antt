-- ===== src/Link.antt =====
-- src/link.cpp: what a reader task does in one pass, and a writer with one message.
--
-- The MAVLink parser is a parameter: for a byte and its state, the frame that the byte completes,
-- whether the byte was in error, and the next state. The bytes that wait at the port are a list.
-- Ports has both tasks over the hardware.
pub mod Ports
pub mod Following
pub mod Apart
pub mod Writing
pub mod Passes
mod Tests
use boredom_os.Prelude.{
  ℕ, zero, suc, ◌+◌, ◌-◌, ◌*◌, ◌/◌, ◌%◌, ◌^◌, ◌≤◌, ◌<◌, min, ◌≡◌, ◌≢◌, ◌↔◌, refl, Bool, true, false,
  not, ◌&&◌, ◌||◌, Option, none, some, List, [], ◌∷◌, ◌++◌, map, arith, u8, u16, u32, u64, sub_u32,
  uint16_max, uint32_max, ◌==◌, ltb, leb, ◌∙◌, sym, ap, subst, fun_ext, ◌⊎◌, inl, inr,
  if◌then◌else◌, Bool-cases, Option-cases, ==_iff, ltb→lt, lt→ltb, leb→le, le→leb, take-take,
  drop-take, drop-drop, take-append, drop-append, codes, length, get_elem?, get_or, take, drop,
  replicate, length-append, length-take, length-drop, length-replicate, All,
}

abbrev pub max_bytes_per_pass : ℕ
max_bytes_per_pass = 128

module _ (Frame State : Type 0) (parse_char : ℕ → State → Option Frame × (Bool × State)) where
  -- `rxDropCount` after a byte that the parser found in error, or not.
  unfoldable pub count_drop : Bool → ℕ → ℕ
  count_drop dropped rx_drop_count =
      if dropped && ltb rx_drop_count uint16_max then rx_drop_count + 1 else rx_drop_count

  -- What a reader has: the waiting bytes, the parser's state and the count.
  pub record Reading : Type 0 where
    pub waiting : List ℕ
    pub state : State
    pub rx_drop_count : ℕ

  abbrev pub posted : Option Frame → List Frame
  posted none = []
  posted (some frame) = frame ∷ []

  -- One byte, with the frame that it completes.
  unfoldable pub read_byte : ℕ → List ℕ → Reading → List Frame × Reading
  unfolding count_drop
  read_byte byte rest r =
      let (frame, (dropped, state)) = parse_char byte r.state in
      (
        posted frame,
        record {
          waiting = rest;
          state = state;
          rx_drop_count = count_drop dropped r.rx_drop_count;
        },
      )

  -- The loop of a pass over the bytes that it may still drain, and the frames that it posts.
  unfoldable pub drain_port : ℕ → List ℕ → Reading → List Frame × Reading
  drain_port zero waiting r = ([], r)
  drain_port (suc left) [] r = ([], r)
  drain_port (suc left) (byte ∷ rest) r =
      let (frames, r') = read_byte byte rest r in
      let (more, r'') = drain_port left rest r' in (frames ++ more, r'')

  unfoldable pub read_pass : Reading → List Frame × Reading
  read_pass r = drain_port max_bytes_per_pass r.waiting r

  unfoldable pub read_passes : ℕ → Reading → List Frame × Reading
  read_passes zero r = ([], r)
  read_passes (suc passes) r =
      let (frames, r') = read_pass r in
      let (more, r'') = read_passes passes r' in (frames ++ more, r'')

-- What a writer does with one packed frame: the bytes that it writes, none if the port has no room.
pub write_frame : ℕ → List ℕ → List ℕ
write_frame available_for_write frame = if ltb available_for_write (length frame) then [] else frame
