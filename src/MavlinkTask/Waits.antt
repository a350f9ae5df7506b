-- ===== src/MavlinkTask/Waits.antt =====
-- How long TaskMavlink waits: until the first of the enabled rows is due, and no longer.
use boredom_os.Prelude.{
  ℕ, ◌+◌, ◌≤◌, ◌<◌, ◌≡◌, refl, Bool, true, false, not, ◌||◌, List, [], ◌∷◌, arith, u32, uint32_max,
  ltb, ◌∙◌, sym, subst, ◌⊎◌, inl, inr, if◌then◌else◌, All,
}
use boredom_os.Download.{Ports}
use boredom_os.MavlinkTask.{ScheduleEntry}
use boredom_os.MavlinkTask.Schedule.{due_in, wait_loop, wait_time, is_due}
use boredom_os.MavlinkTask.Shape.{IsSchedule}

-- Whether a row of the list is due.
unfoldable pub any_due : ℕ → List ScheduleEntry → Bool
any_due now [] = false
any_due now (entry ∷ rest) = is_due now entry || any_due now rest

-- A row's last service and interval are words.
abbrev pub IsWords : ScheduleEntry → Type 0
IsWords row = (row.last_ms ≤ uint32_max) × (row.interval_ms ≤ uint32_max)

not_due_yet :
    (now d : ℕ) (row : ScheduleEntry)
    → IsWords row
    → (row.enabled ≡ true → d < due_in now row)
    → is_due (u32 (now + d)) row ≡ false
unfolding is_due due_in
not_due_yet now d row (last, interval) h = ground arith

due_then :
    (now : ℕ) (row : ScheduleEntry)
    → IsWords row
    → row.enabled ≡ true
    → is_due (u32 (now + due_in now row)) row ≡ true
unfolding is_due due_in
due_then now row (last, interval) h = ground arith

wait_loop_least :
    (now d : ℕ) (rows : List ScheduleEntry) (wait_ms : ℕ)
    → All IsWords rows
    → d < wait_loop now rows wait_ms
    → (d < wait_ms) × (any_due (u32 (now + d)) rows ≡ false)
unfolding wait_loop any_due
wait_loop_least now d [] wait_ms words h = (h, refl)
wait_loop_least now d (row ∷ rest) wait_ms (word, words) h =
    let due = due_in now row in
    let next = if not row.enabled then wait_ms else if ltb due wait_ms then due else wait_ms in
    let (below, none_due) = wait_loop_least now d rest next words h in
    (ground arith, rw (not_due_yet now d row word (λ t. ground arith)) none_due)

or_left : (x y : Bool) → x ≡ true → x || y ≡ true
or_left x y h = ground arith

or_right : (x y : Bool) → y ≡ true → x || y ≡ true
or_right x y h = ground arith

next_cases :
    (row : ScheduleEntry) (due wait_ms : ℕ)
    → let next = if not row.enabled then wait_ms else if ltb due wait_ms then due else wait_ms in
      (next ≡ wait_ms) ⊎ ((row.enabled ≡ true) × (next ≡ due))
next_cases row due wait_ms = ground arith

wait_loop_attained :
    (now : ℕ) (rows : List ScheduleEntry) (wait_ms : ℕ)
    → All IsWords rows
    → let w = wait_loop now rows wait_ms in (w ≡ wait_ms) ⊎ (any_due (u32 (now + w)) rows ≡ true)
unfolding wait_loop any_due
wait_loop_attained now [] wait_ms words = inl refl
wait_loop_attained now (row ∷ rest) wait_ms (word, words) =
    let due = due_in now row in
    let next = if not row.enabled then wait_ms else if ltb due wait_ms then due else wait_ms in
    let then_due = due_then now row word in
    elim (wait_loop_attained now rest next words) [
      | inr found ↦ inr (
          or_right (is_due (u32 (now + wait_loop now rest next)) row)
            (any_due (u32 (now + wait_loop now rest next)) rest) found)
      | inl same ↦ elim (next_cases row due wait_ms) [
        | inl e ↦ inl (same ∙ e)
        | inr (t, e) ↦ inr (
            or_left (is_due (u32 (now + wait_loop now rest next)) row)
              (any_due (u32 (now + wait_loop now rest next)) rest)
              (subst (λ n. is_due (u32 (now + n)) row ≡ true) (sym (same ∙ e)) (then_due t)))
      ]
    ]

-- Over both ports: until the wait is over no row is due, however the clock wraps; and when it is
-- over one is, unless none is enabled, which is a wait of the most that the type holds.
pub wait_time_lem :
    (now : ℕ) (schedule : Ports (List ScheduleEntry))
    → All IsWords schedule.uart
    → All IsWords schedule.usb
    → let w = wait_time now schedule in
      let due =
        λ (d : ℕ). any_due (u32 (now + d)) schedule.uart || any_due (u32 (now + d)) schedule.usb in
      ((d : ℕ) → d < w → due d ≡ false) × ((w ≡ uint32_max) ⊎ (due w ≡ true))
unfolding wait_time
wait_time_lem now schedule uart usb =
    let w = wait_loop now schedule.uart uint32_max in
    (
      λ d h.
          let (below, usb_none) = wait_loop_least now d schedule.usb w usb h in
          let (_, uart_none) = wait_loop_least now d schedule.uart uint32_max uart below in
          rw (uart_none) usb_none,
      elim (wait_loop_attained now schedule.usb w usb) [
        | inr found ↦ inr (
            or_right (any_due (u32 (now + wait_time now schedule)) schedule.uart)
              (any_due (u32 (now + wait_time now schedule)) schedule.usb) found)
        | inl same ↦ elim (wait_loop_attained now schedule.uart uint32_max uart) [
          | inl most ↦ inl (same ∙ most)
          | inr found ↦ inr (
              or_left (any_due (u32 (now + wait_time now schedule)) schedule.uart)
                (any_due (u32 (now + wait_time now schedule)) schedule.usb)
                (subst (λ n. any_due (u32 (now + n)) schedule.uart ≡ true) (sym same) found))
        ]
      ],
    )

wait_loop_most :
    (now : ℕ) (rows : List ScheduleEntry) (wait_ms : ℕ) → wait_loop now rows wait_ms ≤ wait_ms
unfolding wait_loop
wait_loop_most now [] wait_ms = omega arith
wait_loop_most now (row ∷ rest) wait_ms =
    let due = due_in now row in
    let next = if not row.enabled then wait_ms else if ltb due wait_ms then due else wait_ms in
    let rest_most = wait_loop_most now rest next in
    let next_most : next ≤ wait_ms = ground arith in omega arith

-- On ports whose rows are well formed the task never waits longer than the heartbeat's second.
pub wait_time_most :
    (reduced : Bool) (now : ℕ) (schedule : Ports (List ScheduleEntry))
    → IsSchedule reduced schedule.uart
    → wait_time now schedule ≤ 1000
unfolding wait_time wait_loop due_in
wait_time_most reduced now schedule good =
    let (_, h, h') = good.heartbeat_stream in
    let row = good.heartbeat in
    let rest = good.system_time ∷ good.battery ∷ good.housekeeping ∷ good.sys_status ∷ [] in
    let next : ℕ =
      if not row.enabled
      then uint32_max
      else if ltb (due_in now row) uint32_max
      then due_in now row
      else uint32_max in
    let start : next ≤ 1000 = ground arith in
    let most = wait_loop_most now rest next in
    let uart : wait_loop now schedule.uart uint32_max ≤ 1000 =
      subst (λ rows. wait_loop now rows uint32_max ≤ 1000) (sym good.rows_five) (omega arith) in
    let usb = wait_loop_most now schedule.usb (wait_loop now schedule.uart uint32_max) in
    omega arith
