-- ===== src/Queues/Requests.antt =====
-- sdWriteQueue: the ground's requests share it with the log's records.
use boredom_os.Prelude.{
  ℕ, ◌+◌, ◌≤◌, ◌<◌, ◌≡◌, Bool, true, false, List, [], ◌∷◌, ◌++◌, arith, leb_cases, List-cases, ap,
  inl, inr, if◌then◌else◌, length, ◌∙◌,
}
use boredom_os.Download.Serving.{SdRecord}
use boredom_os.Queues.{Fifo, sd_write_queue_depth, request_has_room}

abbrev pub is_request : SdRecord → Bool
is_request (SdRecord.log_list request) = true
is_request (SdRecord.log_read request) = true
is_request (SdRecord.log_end request) = true
is_request _ = false

abbrev pub count_requests : List SdRecord → ℕ
count_requests [] = 0
count_requests (x ∷ xs) = (if is_request x then 1 else 0) + count_requests xs

count_requests-append :
    (xs ys : List SdRecord) → count_requests (xs ++ ys) ≡ count_requests xs + count_requests ys
count_requests-append [] ys = omega arith
count_requests-append (x ∷ xs) ys = omega (arith, count_requests-append xs ys)

count_requests-le : (xs : List SdRecord) → count_requests xs ≤ length xs
count_requests-le [] = omega arith
count_requests-le (x ∷ xs) = ground (arith, count_requests-le xs)

module _ (f : Fifo SdRecord) where
  open f use {Queue, create, send, receive, items, depth}

  -- `forwardLogRequest`, for a request.
  unfoldable pub forward : SdRecord → Queue → Queue
  unfolding request_has_room
  forward request q = if request_has_room f q then (send request q).1 else q

  -- TaskLogger or TaskMavlink posts a record, TaskMavlink forwards a request, TaskSdWrite receives.
  -- TaskLogger has the lower priority, so it does not run between TaskMavlink's test and its send.
  pub data Move : Queue → Queue → Type 0 where
    records : (q : Queue) (x : SdRecord) → is_request x ≡ false → Move q (send x q).1
    forwards : (q : Queue) (x : SdRecord) → Move q (forward x q)
    receives : (q : Queue) → Move q (receive q).1

  pub data Moves (q : Queue) : Queue → Type 0 where
    start : Moves q q
    step : {p p' : Queue} → Moves q p → Move p p' → Moves q p'

  abbrev Within : Queue → Type 0
  Within q = (depth q ≡ sd_write_queue_depth) × (count_requests (items q) < sd_write_queue_depth)

  record-Within : (q : Queue) (x : SdRecord) → is_request x ≡ false → Within q → Within (send x q).1
  record-Within q x e (d, few) = elim (leb_cases (depth q) (length (items q))) [
    | inl full ↦
        let (_, same, d') = f.send_full x q full in
        (d' ∙ d, omega (arith, ap count_requests same, few))
    | inr room ↦
        let (_, more, d') = f.send_room x q room in
        let sum = count_requests-append (items q) (x ∷ []) in
        (d' ∙ d, ground (arith, ap count_requests more, sum, few))
  ]

  forward-Within : (q : Queue) (x : SdRecord) → Within q → Within (forward x q)
  unfolding forward request_has_room
  forward-Within q x (d, few) = elim (leb_cases 2 (f.spaces_available q)) [
    | inl free ↦
        let room : length (items q) + 2 ≤ depth q = omega (arith, f.spaces_items q, free) in
        let (_, more, d') = f.send_room x q (omega (arith, room)) in
        let sum = count_requests-append (items q) (x ∷ []) in
        let le = count_requests-le (items q) in
        ground (arith, d', d, ap count_requests more, sum, le, room, few, free)
    | inr tight ↦ ground (arith, d, few, tight)
  ]

  receive-Within : (q : Queue) → Within q → Within (receive q).1
  receive-Within q (d, few) = elim (List-cases (items q)) [
    | inl e ↦
        let (_, same) = f.receive_none q e in
        (ap depth same ∙ d, omega (arith, ap (λ q. count_requests (items q)) same, few))
    | inr (x, rest, e) ↦
        let (_, left, d') = f.receive_some q x rest e in
        (d' ∙ d, omega (arith, ap count_requests left, ap count_requests e, few))
  ]

  Move-Within : {q p : Queue} → Move q p → Within q → Within p
  Move-Within (records q x e) w = record-Within q x e w
  Move-Within (forwards q x) w = forward-Within q x w
  Move-Within (receives q) w = receive-Within q w

  Moves-Within : {q p : Queue} → Within q → Moves q p → Within p
  Moves-Within w start = w
  Moves-Within w (step moves move) = Move-Within move (Moves-Within w moves)

  -- However many requests the ground sends, and whatever the tasks do: a queue that holds no log
  -- record takes the next one, at its end.
  pub record_is_taken :
      (q : Queue) (x : SdRecord)
      → Moves (create sd_write_queue_depth) q
      → length (items q) ≡ count_requests (items q)
      → ((send x q).0 ≡ true) × (items (send x q).1 ≡ items q ++ x ∷ [])
  record_is_taken q x moves only =
      let empty = ap count_requests (f.items_create sd_write_queue_depth) in
      let (d, few) =
        Moves-Within (f.depth_create sd_write_queue_depth, omega (arith, empty)) moves in
      let (passed, more, _) = f.send_room x q (omega (arith, d, few, only)) in (passed, more)
