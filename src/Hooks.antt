-- ===== src/Hooks.antt =====
-- src/hooks.cpp: the two fault hooks and the idle hook.
--
-- What a hook calls of the core and the kernel is a step in a list, in order; a reset and the jump
-- to the bootloader do not return.
pub mod Faults
pub mod Crashes
pub mod Injection
mod Tests
use boredom_os.Prelude.{
  ℕ, zero, suc, ◌+◌, ◌-◌, ◌*◌, ◌/◌, ◌%◌, ◌^◌, ◌≤◌, ◌<◌, min, ◌≡◌, ◌≢◌, ◌↔◌, refl, Bool, true, false,
  not, ◌&&◌, ◌||◌, Option, none, some, List, [], ◌∷◌, ◌++◌, map, arith, u8, u16, u32, u64, sub_u32,
  uint16_max, uint32_max, ◌==◌, ltb, leb, ◌∙◌, sym, ap, subst, fun_ext, ◌⊎◌, inl, inr,
  if◌then◌else◌, Bool-cases, Option-cases, ==_iff, ltb→lt, lt→ltb, leb→le, le→leb, take-take,
  drop-take, drop-drop, take-append, drop-append, codes, length, get_elem?, get_or, take, drop,
  replicate, length-append, length-take, length-drop, length-replicate, All,
}
use boredom_os.Recovery.{
  System, BootPhase, stack_overflow_fault, malloc_failed_fault, CharPointer, points_to,
  record_fault,
}

-- The calls of the hooks that leave the recovery block alone.
pub data Step : Type 0 where
  disable_irq suspend_all goto_bootloader refresh_watchdog enable_irq resume_all : Step
  sleep : ℕ → Step
  disable_interrupts system_reset : Step

pub idle_steps : Bool → List Step
idle_steps reset_for_upload =
    disable_irq
    ∷ suspend_all
    ∷ (if reset_for_upload
        then goto_bootloader ∷ []
        else refresh_watchdog ∷ sleep 1 ∷ enable_irq ∷ resume_all ∷ [])

-- The block after a hook, and its calls around the record.
unfoldable pub stack_overflow_hook : CharPointer → System → System × List Step
stack_overflow_hook task_name s =
    (record_fault stack_overflow_fault task_name s, disable_interrupts ∷ system_reset ∷ [])

-- The characters of "setup", then NUL.
abbrev pub setup_name : ℕ → ℕ
setup_name i = get_or (codes "setup") i 0

-- `started`: the scheduler is; `current` is the running task's name.
unfoldable pub malloc_failed_hook : Bool → CharPointer → System → System × List Step
malloc_failed_hook started current s =
    let task_name = if not started then points_to setup_name else current in
    (record_fault malloc_failed_fault task_name s, disable_interrupts ∷ system_reset ∷ [])
