-- ===== src/MavlinkTask/Rotation.antt =====
-- The housekeeping rotation over the tasks that a boot created.
use boredom_os.Prelude.{
  ℕ, zero, suc, ◌+◌, ◌-◌, ◌==◌, ◌<◌, ◌≡◌, refl, Bool, true, false, none, some, List, [], ◌∷◌, ◌++◌,
  map, String, Option, append_assoc, arith, take, drop, length, ltb, if◌then◌else◌, subst, sym, ◌∙◌,
  ap, inl, inr, Option-cases, Bool-cases,
}
use mathlib.Core.List.{Perm, perm_append_comm, map-append}
use mathlib.Core.List.Perm
use boredom_os.Recovery.{System}
use boredom_os.Boot.{Task, ResetFlags, setup, decide, tasks_created}
use boredom_os.Boot.Tasks.{created_as}
use boredom_os.Mavlink.{
  next_housekeeping_value, housekeeping_tries, housekeeping_slots, housekeeping_heap_slots,
}
use boredom_os.Download.{port_at, port_at-set_port}
use boredom_os.MavlinkTask.{Board, Config, State, Intent, enqueue_intent}
use boredom_os.MavlinkTask.Sends.{housekeeping_name, housekeeping_reading, send_housekeeping}
use boredom_os.MavlinkTask.Handles.{config_after, has_handle, housekeeping_entry}

-- What a housekeeping value is of, the name that it goes by and what it is at a moment.
pub data Quantity : Type 0 where
  heap_free heap_min : Quantity
  stack_of : Task → Quantity

abbrev pub quantity_name : Quantity → String
quantity_name heap_free = "HeapFree"
quantity_name heap_min = "HeapMin"
quantity_name (stack_of t) = (created_as t).name

abbrev pub quantity_value : (b : Board) → Quantity → b.clocks.Hardware → ℕ
quantity_value b heap_free hw = (b.free_heap_size hw).0
quantity_value b heap_min hw = (b.minimum_ever_free_heap_size hw).0
quantity_value b (stack_of t) hw = (b.stack_high_water_mark t hw).0

-- What a slot reports.
abbrev pub slot_quantity : ℕ → Quantity
slot_quantity slot =
    if slot == 0
    then heap_free
    else if slot == 1
    then heap_min
    else stack_of (housekeeping_entry (slot - housekeeping_heap_slots)).handle

abbrev pub reported : Option ℕ → List Quantity → List Quantity
reported none rest = rest
reported (some slot) rest = slot_quantity slot ∷ rest

-- What a number of calls of `nextHousekeepingValue` report, from a cursor on.
unfoldable pub rotation : ℕ → (ℕ → Bool) → ℕ → List Quantity
rotation zero has_task cursor = []
rotation (suc calls) has_task cursor =
    let (slot, next) = next_housekeeping_value has_task cursor in
    reported slot (rotation calls has_task next)

-- The heap's two, and the stacks of tasks.
abbrev pub quantities : List Task → List Quantity
quantities tasks = heap_free ∷ heap_min ∷ map stack_of tasks

-- Each entry of the table has the name that its task is created with.
entry_name : (i : ℕ) → (housekeeping_entry i).name ≡ (created_as (housekeeping_entry i).handle).name
entry_name zero = refl
entry_name (suc zero) = refl
entry_name (suc (suc zero)) = refl
entry_name (suc (suc (suc zero))) = refl
entry_name (suc (suc (suc (suc zero)))) = refl
entry_name (suc (suc (suc (suc (suc zero))))) = refl
entry_name (suc (suc (suc (suc (suc (suc zero)))))) = refl
entry_name (suc (suc (suc (suc (suc (suc (suc n))))))) = refl

slot_name : (slot : ℕ) → housekeeping_name slot ≡ quantity_name (slot_quantity slot)
unfolding housekeeping_name
slot_name slot = elim (Bool-cases (slot == 0)) [
  | inl first ↦ rw (housekeeping_name, first) refl
  | inr more ↦ elim (Bool-cases (slot == 1)) [
    | inl second ↦ rw (housekeeping_name, more, second) refl
    | inr third ↦ rw (housekeeping_name, more, third) (entry_name (slot - housekeeping_heap_slots))
  ]
]

slot_value :
    (b : Board) (config : Config) (slot : ℕ) (hw : b.clocks.Hardware)
    → (housekeeping_reading b config slot hw).0 ≡ quantity_value b (slot_quantity slot) hw
slot_value b config slot hw = elim (Bool-cases (slot == 0)) [
  | inl first ↦ rw (first) refl
  | inr more ↦ elim (Bool-cases (slot == 1)) [
    | inl second ↦ rw (more, second) refl
    | inr third ↦ rw (more, third) refl
  ]
]

-- Where a cursor's rotation starts in the list of what is reported.
abbrev place : Bool → Bool → ℕ → ℕ
place reduced card cursor =
    if ltb cursor (2 + length (tasks_created reduced card)) then cursor else 0

abbrev table : Bool → Bool → List Quantity
table reduced card =
    rotation (2 + length (tasks_created reduced card)) (has_handle (tasks_created reduced card)) 0

pub below_slots :
    (P : ℕ → Type 0)
    → P 0
    → P 1
    → P 2
    → P 3
    → P 4
    → P 5
    → P 6
    → P 7
    → P 8
    → (cursor : ℕ) → cursor < housekeeping_slots
    → P cursor
below_slots P a b c d e f g h i zero lt = a
below_slots P a b c d e f g h i (suc zero) lt = b
below_slots P a b c d e f g h i (suc (suc zero)) lt = c
below_slots P a b c d e f g h i (suc (suc (suc zero))) lt = d
below_slots P a b c d e f g h i (suc (suc (suc (suc zero)))) lt = e
below_slots P a b c d e f g h i (suc (suc (suc (suc (suc zero))))) lt = f
below_slots P a b c d e f g h i (suc (suc (suc (suc (suc (suc zero)))))) lt = g
below_slots P a b c d e f g h i (suc (suc (suc (suc (suc (suc (suc zero))))))) lt = h
below_slots P a b c d e f g h i (suc (suc (suc (suc (suc (suc (suc (suc zero)))))))) lt = i
below_slots P a b c d e f g h i (suc (suc (suc (suc (suc (suc (suc (suc (suc x))))))))) lt =
    absurd (omega (arith, lt))

-- A rotation is the first one's list, cut at the cursor's place and turned.
Turned : Bool → Bool → ℕ → Type 0
Turned reduced card cursor =
    let tasks = tasks_created reduced card in
    rotation (2 + length tasks) (has_handle tasks) cursor
    ≡ drop (place reduced card cursor) (table reduced card)
      ++ take (place reduced card cursor) (table reduced card)

turned :
    (reduced card : Bool) (cursor : ℕ) → cursor < housekeeping_slots → Turned reduced card cursor
unfolding Turned rotation next_housekeeping_value housekeeping_tries
turned true card = below_slots _ refl refl refl refl refl refl refl refl refl
turned false true = below_slots _ refl refl refl refl refl refl refl refl refl
turned false false = below_slots _ refl refl refl refl refl refl refl refl refl

-- The table lists the two of the heap and the tasks, with the writer of the UART before the reader
-- of the USB.
in_order :
    (reduced card : Bool) → Perm (table reduced card) (quantities (tasks_created reduced card))
unfolding rotation next_housekeeping_value housekeeping_tries
in_order true card = search (Perm.cons, Perm.swap)
in_order false true = search (Perm.cons, Perm.swap)
in_order false false = search (Perm.cons, Perm.swap)

take_then_drop : (n : ℕ) (xs : List Quantity) → take n xs ++ drop n xs ≡ xs
take_then_drop zero xs = refl
take_then_drop (suc n) [] = refl
take_then_drop (suc n) (x ∷ xs) = ap (λ t. x ∷ t) (take_then_drop n xs)

cut : (n : ℕ) (xs : List Quantity) → Perm (drop n xs ++ take n xs) xs
cut n xs =
    subst (λ ys. Perm (drop n xs ++ take n xs) ys) (take_then_drop n xs)
      (perm_append_comm (drop n xs) (take n xs))

created_rotation :
    (card : Bool) (f : ResetFlags) (s : System) (cursor : ℕ)
    → cursor < housekeeping_slots
    → let report = setup card f s in
      Perm
        (rotation (2 + length report.tasks) (config_after report).has_task cursor)
        (quantities report.tasks)
unfolding setup Turned
created_rotation card f s cursor lt =
    let reduced = (decide f s).reduced in
    subst (λ xs. Perm xs (quantities (tasks_created reduced card)))
      (sym (turned reduced card cursor lt))
      (Perm.trans (cut (place reduced card cursor) (table reduced card)) (in_order reduced card))

module _ (b : Board) (config : Config) where
  -- A reading: of what, and the state of the board that it is taken in.
  abbrev pub Reading : Type 0
  Reading = Quantity × b.clocks.Hardware

  abbrev pub taken_of : List Reading → List Quantity
  taken_of readings = map (λ (r : Reading). r.0) readings

  -- A reading's message.
  abbrev pub message : ℕ → Reading → ℕ × Intent
  message port (q, hw) = (port, Intent.named_value_int (quantity_name q) (quantity_value b q hw))

  -- `sendHousekeeping` a number of times.
  pub pulses : ℕ → ℕ → State b → State b
  pulses zero port s = s
  pulses (suc n) port s = pulses n port (send_housekeeping b config port s)

  abbrev Sends : ℕ → State b → State b → List Quantity → Type 0
  Sends port s t reported =
      (readings : List Reading) × (t.offered ≡ map (message port) readings ++ s.offered)
      × Perm (taken_of readings) reported

  send_housekeeping-Sends :
      (port : ℕ) (s : State b)
      → let (slot, next) =
          next_housekeeping_value config.has_task (port_at port s.housekeeping_cursor) in
        let s' = send_housekeeping b config port s in
        Sends port s s' (reported slot []) × (port_at port s'.housekeeping_cursor ≡ next)
  unfolding send_housekeeping enqueue_intent
  send_housekeeping-Sends port s =
      let (slot, next) =
        next_housekeeping_value config.has_task (port_at port s.housekeeping_cursor) in
      let moved = port_at-set_port port next s.housekeeping_cursor in
      elim (Option-cases slot) [
        | inl e ↦ rw (send_housekeeping, e) (([], refl, Perm.refl []), moved)
        | inr (k, e) ↦
            let sent : (
              port,
              Intent.named_value_int (housekeeping_name k)
                  (housekeeping_reading b config k s.hardware).0,
            )
                ≡ message port (slot_quantity k, s.hardware) =
              rw (slot_name k, slot_value b config k s.hardware) refl in
            let (value, hw) = housekeeping_reading b config k s.hardware in
            rw (send_housekeeping, e)
              (
                ((slot_quantity k, s.hardware) ∷ [], ap (λ m. m ∷ s.offered) sent, Perm.refl _),
                moved,
              )
      ]

  reported-append :
      (slot : Option ℕ) (rest : List Quantity) → reported slot [] ++ rest ≡ reported slot rest
  reported-append none rest = refl
  reported-append (some k) rest = refl

  pulses-Sends :
      (n port : ℕ) (s : State b)
      → Sends port s
          (pulses n port s)
          (rotation n config.has_task (port_at port s.housekeeping_cursor))
  unfolding pulses rotation
  pulses-Sends zero port s = ([], refl, Perm.refl [])
  pulses-Sends (suc n) port s =
      let (slot, next) =
        next_housekeeping_value config.has_task (port_at port s.housekeeping_cursor) in
      let s' = send_housekeeping b config port s in
      let ((value, offer, name), moved) = send_housekeeping-Sends port s in
      let (values, offers, others) = pulses-Sends n port s' in
      let rest = rotation n config.has_task next in
      let later = taken_of values in
      let counted : Perm later rest =
        subst (λ c. Perm later (rotation n config.has_task c)) moved others in
      let turn : Perm (later ++ taken_of value) (reported slot rest) =
        Perm.trans (perm_append_comm later (taken_of value)) (
          subst (λ xs. Perm (taken_of value ++ later) xs) (reported-append slot rest)
            (Perm.append name counted)) in
      (
        values ++ value,
        offers ∙ ap (λ t. map (message port) values ++ t) offer ∙ simp (map-append, append_assoc),
        subst (λ xs. Perm xs (reported slot rest))
            (sym (map-append (λ (r : Reading). r.0) values value)) turn,
      )

-- After any boot, from any position of the cursor in the table: the next calls of sendHousekeeping on
-- a port, two more than there are tasks, offer its queue one reading each of the heap's free size, of
-- its minimum and of the stack of every task that the boot created. A task's reading is of its own
-- stack and goes by the name that the task was created with. None is left out, none comes twice, and
-- none is of a task that was not created.
pub rotation_lem :
    (card : Bool) (f : ResetFlags) (block : System) (b : Board) (port : ℕ) (s : State b)
    → port_at port s.housekeeping_cursor < housekeeping_slots
    → let report = setup card f block in
      let config = config_after report in
      let t = pulses b config (2 + length report.tasks) port s in
      (readings : List (Reading b config)) × (t.offered
        ≡ map (message b config port) readings ++ s.offered)
      × Perm (taken_of b config readings) (quantities report.tasks)
rotation_lem card f block b port s lt =
    let report = setup card f block in
    let (readings, offers, same) =
      pulses-Sends b (config_after report) (2 + length report.tasks) port s in
    (
      readings,
      offers,
      Perm.trans same (created_rotation card f block (port_at port s.housekeeping_cursor) lt),
    )
