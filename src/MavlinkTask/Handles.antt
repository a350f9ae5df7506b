-- ===== src/MavlinkTask/Handles.antt =====
-- src/mavlink.cpp, kHousekeepingTasks, over the handles that src/main.cpp's setup fills.
use boredom_os.Prelude.{
  ℕ, ◌==◌, ◌||◌, Bool, false, none, some, List, [], ◌∷◌, get_elem?, get_or, length, String,
}
use boredom_os.Boot.{
  Task, Startup, uart_read, usb_read, uart_write, usb_write, mavlink, logger, sd_write,
}
use boredom_os.MavlinkTask.{Config}

-- HousekeepingTaskEntry: the task whose handle it points at, and the name that is reported.
pub record HousekeepingTaskEntry : Type 0 where
  pub handle : Task
  pub name : String

-- kHousekeepingTasks.
abbrev pub housekeeping_tasks : List HousekeepingTaskEntry
housekeeping_tasks =
    record { handle = uart_read; name = "UartRead" }
    ∷ record { handle = uart_write; name = "UartWrite" }
    ∷ record { handle = usb_read; name = "UsbRead" }
    ∷ record { handle = usb_write; name = "UsbWrite" }
    ∷ record { handle = mavlink; name = "Mavlink" }
    ∷ record { handle = logger; name = "Logger" }
    ∷ record { handle = sd_write; name = "SdWrite" }
    ∷ []

-- kHousekeepingTaskSlots.
abbrev pub housekeeping_task_slots : ℕ
housekeeping_task_slots = length housekeeping_tasks

-- `kHousekeepingTasks[i]`, where the index is below the table's length.
abbrev pub housekeeping_entry : ℕ → HousekeepingTaskEntry
housekeeping_entry i =
    get_or housekeeping_tasks i (record { handle = uart_read; name = "UartRead" })

abbrev task_number : Task → ℕ
task_number uart_read = 0
task_number usb_read = 1
task_number uart_write = 2
task_number usb_write = 3
task_number mavlink = 4
task_number logger = 5
task_number sd_write = 6

abbrev pub is_created : List Task → Task → Bool
is_created [] t = false
is_created (u ∷ rest) t = task_number u == task_number t || is_created rest t

-- `*kHousekeepingTasks[i].handle != NULL`, after the tasks of a list were created.
abbrev pub has_handle : List Task → ℕ → Bool
has_handle tasks i = elim (get_elem? housekeeping_tasks i) [
  | none ↦ false
  | some entry ↦ is_created tasks entry.handle
]

-- The globals that TaskMavlink reads, as a boot leaves them.
abbrev pub config_after : Startup → Config
config_after r = record {
  reduced_configuration = r.reduced_configuration;
  sd_card_available = r.sd_card_available;
  has_task = has_handle r.tasks;
  previous_reset_reason = r.previous_reset_reason;
  previous_boot_phase = r.previous_boot_phase;
  previous_fault_task = r.previous_fault_task;
}
