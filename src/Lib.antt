-- ===== src/Lib.antt =====
-- BoredomOS, the on-board software of a CubeSat (an Arduino UNO R4 Minima under FreeRTOS): its pure
-- and stateful logic as functions, and the theorems that make each part correct. Paths below are from
-- the repository's root.
--
-- One composition root, src/main.cpp, decides at boot which configuration to start; the decision rests
-- on a battery-backed block that src/recovery.cpp keeps.
--
-- Files:
-- - Prelude: library names passed on, Boolean tests, lists, words and texts over the native
--   numbers.
-- - Recovery: src/recovery.cpp and include/Recovery.h, function by function under the same names,
--   over the offsets and enums of Values. Checksum, Sealing, Fields, Defaults and Fault hold its
--   theorems; `view` is the block as its readers see it.
-- - Boot: the boot half of src/main.cpp: decodeAndClearResetReason,
--   updateCountersAndDecideConfiguration (in two steps, `count_boot` and `starts_reduced`),
--   selectWdtTiming and setup; Timing has the watchdog's search, Tasks the tasks as setup creates
--   them. Decision, History, Watchdog, Reports and Counting hold its theorems.
-- - SystemTime: lib/SystemTime, the ladder of clock sources, over an interface of the RTC's and
--   the DS1307's calls. Setting, Reading and Startup hold its theorems.
-- - SdData: lib/SdData, the ring of log files, over `Card`, the SD library's calls. Ring, Syncing,
--   Resuming, Restarts and Cuts hold its theorems; Durable has the steps of a rotation, between
--   which a power cut can fall, and Rotating what each leaves; Disk is a small card to run it on.
-- - Dataflash: the records and the file openings of src/sdwrite.cpp, as bytes. Layout holds a
--   theorem.
-- - Download: the log protocol's half of src/sdwrite.cpp: listings and streams, over State;
--   Serving has the task. Chunks, Delivery, Starts, Answers, Times and Turns hold its theorems.
-- - Link: src/link.cpp. Link.antt has a pass of the reader over the bytes that wait, Ports the
--   table of ports and both tasks over it; Passes, Following, Writing and Apart hold the theorems.
-- - Mavlink: of src/mavlink.cpp, the boot statement, packCustomMode, enqueueWrite's count and the
--   housekeeping rotation. Statement and Counters hold its theorems.
-- - MavlinkTask: of src/mavlink.cpp, TaskMavlink, what it sends and mavlinkPack. Its state is the
--   task's locals and the file's statics; `Board` has the system's calls. Sends has the send and
--   log functions under their names; Schedule the rows, kMessages and the loops over them; Float
--   the float parameters, as exact values; Commands the COMMAND_LONG chain; Handlers the switch on
--   msgid; Passes the start and a pass of the loop; Packing mavlinkPack. Frames, Steps and
--   Invariants say what the functions leave alone; Replies, Acknowledging, Requests, Isolation,
--   Shape, Keeping, Intervals, Waits, Cadence, Restarting, Retrying, ClockSets and LogRequests
--   hold the theorems. Handles has kHousekeepingTasks over the handles that setup fills; Rotation,
--   Entries and Naming hold the theorems of both.
-- - Logger: src/logger.cpp's task. Samples holds its theorem.
-- - Hooks: src/hooks.cpp. Faults holds a theorem across the hook, the boot and the boot statement,
--   Crashes one over boots that hooks end; Injection has INJECT_FAULT of src/logger.cpp and
--   src/main.cpp.
-- - Queues: the queues that setup creates in src/main.cpp, between the tasks that use them. Steps
--   has the calls of TaskMavlink, TaskSdWrite and TaskLinkWrite on the ports' write queues, in any
--   order; Pacing what all of them keep; Room and Requests hold the theorems, of those queues and
--   of sdWriteQueue.
-- - Battery: lib/Battery. Single has float's operations, rounded; Ordered what they keep of the
--   order; Rounding, Scale and Cache hold the theorems. MavlinkTask takes the readings as
--   parameters of its `Board`, and Cache puts them there.
--
-- src/sdwrite.cpp's task is the only owner of the card: other tasks put records and requests on
-- its queue (`SdRecord`), it writes the records through SdData and answers requests on a port's
-- write queue, which src/link.cpp's writer drains. Recovery's block is written by Boot and by the
-- fault hooks and read back at the next boot.
--
-- State is passed explicitly: a function that writes registers or members returns the new record
-- beside its result, and what it puts on a queue is returned as a list. Unsigned words are native
-- numbers with their wrap-around written out. Loops are recursions on the rounds left or on the
-- list they run over; `serve`, the passes that one stream is given, runs on a count of passes, and
-- one pass for each 90 bytes of the range and one more are enough.
--
-- Libraries (the RTC, the DS1307, the SD card, the MAVLink parser, the serial ports, the charger
-- and FreeRTOS's queues) are parameters, and what a theorem relies on is a hypothesis about them:
-- reads that advance a handle, flushes that leave nothing unsynced, an index file that keeps its
-- four bytes, sizes that a reader sees only as far as a flush or a close has recorded them. A power
-- cut falls between two calls of the SD library, and the next start finds of a log what is recorded;
-- what a cut leaves of a single call is not modelled.
--
-- TaskMavlink's requests reach the card's task as `SdRecord`s, which Download.Serving handles; its
-- resets leave the block that Boot reads at the next start; a reset ends the pass it is in, and no
-- pass follows it. `passes` runs the loop a number of times, any number in the theorems; a row of
-- the schedule that is behind needs one pass for each interval of its backlog, which is enough for
-- it not to be due.
--
-- Not modelled: the idle task's static memory and the queues' storage, which FreeRTOS alone uses,
-- and interrupts or task switches between two statements of one function, except at the calls on a
-- queue, which Queues interleaves.
pub mod Prelude
pub mod Recovery
pub mod Boot
pub mod SystemTime
pub mod SdData
pub mod Download
pub mod Link
pub mod Mavlink
pub mod Battery
pub mod Dataflash
pub mod Hooks
pub mod Logger
pub mod MavlinkTask
pub mod Queues
