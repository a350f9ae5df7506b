-- ===== src/Queues.antt =====
-- The queues of src/main.cpp, and the ports' write queues between the three tasks that use them:
-- TaskMavlink offers (src/mavlink.cpp), TaskSdWrite answers (src/sdwrite.cpp), TaskLinkWrite takes
-- (src/link.cpp).
--
-- FreeRTOS is not this repository's code: `Fifo` has the calls of a queue on static storage, with
-- what their documentation says of them. The tasks preempt one another: a step is one call on a
-- queue, or what a task does between two.
pub mod Steps
pub mod Pacing
pub mod Room
pub mod Requests
mod Tests
use boredom_os.Prelude.{
  ℕ, ◌+◌, ◌-◌, ◌≤◌, ◌<◌, ◌≡◌, refl, Bool, true, false, Option, none, some, List, [], ◌∷◌, ◌++◌,
  arith, leb, ltb, if◌then◌else◌, length, length-append,
}
use boredom_os.Download.{Msg, Ports}
use boredom_os.MavlinkTask.{Intent}

-- A queue of `A` by value. A send waits for nothing; a receive is of a task that holds the item
-- next.
pub record Fifo (A : Type 0) : Type 1 where
  pub Queue : Type 0
  -- `xQueueCreateStatic` with a length, `xQueueSend`, `xQueueReceive`, and the two counts.
  pub create : ℕ → Queue
  pub send : A → Queue → Bool × Queue
  pub receive : Queue → Option A × Queue
  pub messages_waiting : Queue → ℕ
  pub spaces_available : Queue → ℕ
  -- What the queue holds, the next to be received first, and its length.
  pub items : Queue → List A
  pub depth : Queue → ℕ
  pub items_create : (n : ℕ) → items (create n) ≡ []
  pub depth_create : (n : ℕ) → depth (create n) ≡ n
  pub send_room :
      (a : A) (q : Queue)
      → length (items q) < depth q
      → ((send a q).0 ≡ true)
        × (items (send a q).1 ≡ items q ++ a ∷ [])
        × (depth (send a q).1 ≡ depth q)
  pub send_full :
      (a : A) (q : Queue)
      → depth q ≤ length (items q)
      → ((send a q).0 ≡ false) × (items (send a q).1 ≡ items q) × (depth (send a q).1 ≡ depth q)
  pub receive_none : (q : Queue) → items q ≡ [] → ((receive q).0 ≡ none) × ((receive q).1 ≡ q)
  pub receive_some :
      (q : Queue) (a : A) (rest : List A)
      → items q ≡ a ∷ rest
      → ((receive q).0 ≡ some a) × (items (receive q).1 ≡ rest) × (depth (receive q).1 ≡ depth q)
  pub waiting_items : (q : Queue) → messages_waiting q ≡ length (items q)
  pub spaces_items : (q : Queue) → spaces_available q ≡ depth q - length (items q)

-- The lengths that `setup` gives.
abbrev pub write_queue_depth : ℕ
write_queue_depth = 9

abbrev pub sd_write_queue_depth : ℕ
sd_write_queue_depth = 6

abbrev pub link_read_queue_depth : ℕ
link_read_queue_depth = 8

-- The messages of the log protocol, LOG_ENTRY and LOG_DATA.
abbrev pub is_log : Intent → Bool
is_log (Intent.log m) = true
is_log _ = false

abbrev pub count_logs : List Intent → ℕ
count_logs [] = 0
count_logs (x ∷ xs) = (if is_log x then 1 else 0) + count_logs xs

pub count_logs-append :
    (xs ys : List Intent) → count_logs (xs ++ ys) ≡ count_logs xs + count_logs ys
count_logs-append [] ys = omega arith
count_logs-append (x ∷ xs) ys = omega (arith, count_logs-append xs ys)

pub count_logs-le : (xs : List Intent) → count_logs xs ≤ length xs
count_logs-le [] = omega arith
count_logs-le (x ∷ xs) = ground (arith, count_logs-le xs)

-- `portHasRoom`, and the test of `forwardLogRequest`.
unfoldable pub port_has_room : {A : Type 0} (f : Fifo A) → f.Queue → Bool
port_has_room f q = leb (f.messages_waiting q) 1

unfoldable pub request_has_room : {A : Type 0} (f : Fifo A) → f.Queue → Bool
request_has_room f q = if ltb (f.spaces_available q) 2 then false else true
