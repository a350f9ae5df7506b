-- ===== src/MavlinkTask/Entries.antt =====
-- kHousekeepingTasks of src/mavlink.cpp against the handles of src/main.cpp, as types.
use boredom_os.Prelude.{ℕ, zero, suc, ◌<◌, ◌≡◌, refl, arith}
use mathlib.Core.HLevel.{Σ_prop_path}
use native.Mathlib.Bridge.{le_prop}
use std.Equiv.{IsEquiv, iso_to_equiv}
use boredom_os.Boot.{Task, uart_read, usb_read, uart_write, usb_write, mavlink, logger, sd_write}
use boredom_os.MavlinkTask.Handles.{housekeeping_entry, housekeeping_task_slots}

abbrev pub Entry : Type 0
Entry = (i : ℕ) × (i < housekeeping_task_slots)

-- `*kHousekeepingTasks[i].handle`, for the index of an entry.
abbrev pub entry_handle : Entry → Task
entry_handle (i, within) = (housekeeping_entry i).handle

index_of : Task → Entry
index_of uart_read = (0, omega arith)
index_of uart_write = (1, omega arith)
index_of usb_read = (2, omega arith)
index_of usb_write = (3, omega arith)
index_of mavlink = (4, omega arith)
index_of logger = (5, omega arith)
index_of sd_write = (6, omega arith)

there : (t : Task) → entry_handle (index_of t) ≡ t
unfolding index_of
there uart_read = refl
there uart_write = refl
there usb_read = refl
there usb_write = refl
there mavlink = refl
there logger = refl
there sd_write = refl

back : (i : ℕ) (within : i < housekeeping_task_slots) → (index_of (entry_handle (i, within))).0 ≡ i
unfolding index_of
back zero h = refl
back (suc zero) h = refl
back (suc (suc zero)) h = refl
back (suc (suc (suc zero))) h = refl
back (suc (suc (suc (suc zero)))) h = refl
back (suc (suc (suc (suc (suc zero))))) h = refl
back (suc (suc (suc (suc (suc (suc zero)))))) h = refl
back (suc (suc (suc (suc (suc (suc (suc n))))))) h = absurd (omega (arith, h))

-- The housekeeping table's entries and the tasks whose handles setup fills are equivalent types, by
-- the handle that an entry points at: every task has an entry, and only one.
pub entry_handle-IsEquiv : IsEquiv entry_handle
entry_handle-IsEquiv =
    (iso_to_equiv (record {
      fun = entry_handle;
      inv = index_of;
      rinv = there;
      linv = λ e. Σ_prop_path (λ i. le_prop) (back e.0 e.1);
    })).1
