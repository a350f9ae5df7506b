-- ===== src/MavlinkTask/Cadence.antt =====
-- The cadence of a schedule row: how often its function is called, across late passes and the
-- clock's wrap.
--
-- Times are the milliseconds since the start, without the wrap; the code sees them in 32 bits.
use boredom_os.Prelude.{
  ℕ, zero, suc, ◌+◌, ◌-◌, ◌*◌, ◌^◌, ◌≤◌, ◌<◌, ◌≡◌, refl, true, false, List, [], ◌∷◌, arith, u32,
  leb, sym, ap, subst, inl, inr, if◌then◌else◌, Bool-cases, replicate,
}
use boredom_os.MavlinkTask.{Sender, ScheduleEntry, Board, Config, State}
use boredom_os.MavlinkTask.Sends.{call_sender}
use boredom_os.MavlinkTask.Schedule.{is_due, advanced, fire_row}

-- The passes come in order, each at most an interval after the one before it.
unfoldable pub Paced : ℕ → ℕ → List ℕ → Type 0
Paced interval from [] = Unit
Paced interval from (time ∷ times) =
    (from ≤ time) × (time ≤ from + interval) × Paced interval time times

unfoldable pub last_time : ℕ → List ℕ → ℕ
last_time from [] = from
last_time from (time ∷ times) = last_time time times

-- A row that is on, whose last service was at a time that it holds in 32 bits.
abbrev pub Served : ℕ → ℕ → ScheduleEntry → Type 0
Served interval last row =
    (row.enabled ≡ true) × (row.last_ms ≡ u32 last) × (row.interval_ms ≡ interval)

is_due_lem :
    (interval last time : ℕ) (row : ScheduleEntry)
    → Served interval last row
    → last ≤ time
    → time < last + 2 ^ 32
    → is_due (u32 time) row ≡ leb interval (time - last)
unfolding is_due
is_due_lem interval last time row (e, l, i) a h = ground arith

advanced-Served :
    (interval last : ℕ) (row : ScheduleEntry)
    → Served interval last row
    → Served interval (last + interval) (advanced row)
unfolding advanced
advanced-Served interval last row (e, l, i) = (e, omega arith, i)

module _ (b : Board) (config : Config) (port : ℕ) where
  -- The body of the loop over the rows, on one row, at the passes of these times.
  unfoldable pub serve_at : List ℕ → ScheduleEntry → State b → ScheduleEntry × State b
  unfolding fire_row
  serve_at [] row s = (row, s)
  serve_at (time ∷ times) row s =
      let (row', s') = fire_row b config port (u32 time) row s in serve_at times row' s'

  -- So many calls of a row's function.
  unfoldable pub calls : Sender → ℕ → State b → State b
  calls sender zero s = s
  calls sender (suc count) s = calls sender count (call_sender b config sender port s)

  -- What serving up to a time comes to, from a last service: one call for each interval in between.
  abbrev pub Cadence : ℕ → ℕ → ℕ → Sender → State b → ScheduleEntry × State b → Type 0
  Cadence interval last time sender s (after, s') =
      (count : ℕ) × ((last + count * interval ≤ time)
        × (time < last + count * interval + interval)
        × Served interval (last + count * interval) after
        × (s' ≡ calls sender count s))

  -- Once more, from an interval later.
  once_more :
      (interval last time : ℕ) (sender : Sender) (s : State b) (r : ScheduleEntry × State b)
      → Cadence interval (last + interval) time sender (call_sender b config sender port s) r
      → Cadence interval last time sender s r
  unfolding calls
  once_more interval last time sender s r (count, (least, most, (e, l, i), same)) =
      let next : suc count * interval ≡ interval + count * interval = ground arith in
      (suc count, (omega arith, omega arith, (e, omega arith, i), same))

  serve_at_due :
      (time : ℕ) (times : List ℕ) (row : ScheduleEntry) (s : State b)
      → is_due (u32 time) row ≡ true
      → serve_at (time ∷ times) row s
        ≡ serve_at times (advanced row) (call_sender b config row.function port s)
  unfolding serve_at fire_row
  serve_at_due time times row s t =
      ap
        (λ due.
          serve_at times (if due then advanced row else row)
            (if due then call_sender b config row.function port s else s))
        t

  serve_at_early :
      (time : ℕ) (times : List ℕ) (row : ScheduleEntry) (s : State b)
      → is_due (u32 time) row ≡ false
      → serve_at (time ∷ times) row s ≡ serve_at times row s
  unfolding serve_at fire_row
  serve_at_early time times row s f =
      ap
        (λ due.
          serve_at times (if due then advanced row else row)
            (if due then call_sender b config row.function port s else s))
        f

  nothing_yet :
      (interval last from : ℕ) (row : ScheduleEntry) (s : State b)
      → Served interval last row
      → last ≤ from
      → from < last + interval
      → Cadence interval last from row.function s (row, s)
  unfolding calls
  nothing_yet interval last from row s (e, l, i) start soon =
      (0, (omega arith, omega arith, (e, ground (arith, l), i), refl))

  -- A row that is on, not due at a time and then served at passes that come at most an interval
  -- after each other: its function is called once for every interval that has passed since its last
  -- service, neither early nor twice nor never, and with no drift, as its last service is a
  -- multiple of the interval from the first, in 32 bits, however often those wrap.
  pub cadence :
      (interval last from : ℕ) (times : List ℕ) (row : ScheduleEntry) (s : State b)
      → Served interval last row
      → interval ≤ 2 ^ 31
      → last ≤ from
      → from < last + interval
      → Paced interval from times
      → Cadence interval last (last_time from times) row.function s (serve_at times row s)
  unfolding Paced last_time serve_at
  cadence interval last from [] row s served small start soon paced =
      nothing_yet interval last from row s served start soon
  cadence interval last from (time ∷ times) row s served small start soon (after, before, paced) =
      let due = is_due_lem interval last time row served (omega arith) (omega arith) in
      let reached : (is_due (u32 time) row ≡ true) → last + interval ≤ time = λ t. ground arith in
      let not_yet : (is_due (u32 time) row ≡ false) → time < last + interval = λ f. ground arith in
      let P : ScheduleEntry × State b → Type 0 =
        Cadence interval last (last_time time times) row.function s in
      elim (Bool-cases (is_due (u32 time) row)) [
        | inl t ↦
            let next = call_sender b config row.function port s in
            let ih =
              cadence interval (last + interval) time times (advanced row) next
                (advanced-Served interval last row served) small (reached t) (omega arith) paced in
            subst P (sym (serve_at_due time times row s t)) (
              once_more interval last (last_time time times) row.function s
                (serve_at times (advanced row) next) ih)
        | inr f ↦
            subst P (sym (serve_at_early time times row s f))
              (cadence interval last time times row s served small (omega arith) (not_yet f) paced)
      ]

  -- A row that is behind, by any backlog below the clock's range, is served once for every interval
  -- of the backlog by passes at the one time, if there are at least that many of them, and is then
  -- not due: the passes that do not wait come to an end.
  pub catch_up :
      (interval last time passes : ℕ) (row : ScheduleEntry) (s : State b)
      → Served interval last row
      → 0 < interval
      → last ≤ time
      → time < last + 2 ^ 32
      → time - last < (passes + 1) * interval
      → Cadence interval last time row.function s (serve_at (replicate passes time) row s)
  unfolding serve_at
  catch_up interval last time zero row s served positive start near few =
      nothing_yet interval last time row s served start (ground arith)
  catch_up interval last time (suc passes) row s served positive start near few =
      let due = is_due_lem interval last time row served start near in
      let reached : (is_due (u32 time) row ≡ true) → last + interval ≤ time = λ t. ground arith in
      let not_yet : (is_due (u32 time) row ≡ false) → time < last + interval = λ f. ground arith in
      let P : ScheduleEntry × State b → Type 0 = Cadence interval last time row.function s in
      let times = replicate passes time in
      elim (Bool-cases (is_due (u32 time) row)) [
        | inl t ↦
            let next = call_sender b config row.function port s in
            let arrived = reached t in
            let fewer : time - (last + interval) < (passes + 1) * interval = ground arith in
            let ih =
              catch_up interval (last + interval) time passes (advanced row) next
                (advanced-Served interval last row served) positive arrived (omega arith) fewer in
            subst P (sym (serve_at_due time times row s t))
              (once_more interval last time row.function s (serve_at times (advanced row) next) ih)
        | inr f ↦
            let early = not_yet f in
            let fewer : time - last < (passes + 1) * interval = ground arith in
            subst P (sym (serve_at_early time times row s f))
              (catch_up interval last time passes row s served positive start near fewer)
      ]
