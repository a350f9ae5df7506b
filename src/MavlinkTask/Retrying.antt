-- ===== src/MavlinkTask/Retrying.antt =====
-- A reduced boot, the passes of TaskMavlink after it, and the retry's reset.
use boredom_os.Prelude.{◌≡◌, Bool, true, false}
use boredom_os.Recovery.{System, is_valid}
use boredom_os.Recovery.Fields.{view}
use boredom_os.MavlinkTask.{Board, Config, State}

-- A board that was not reset has a valid block, on which nothing was counted since the boot that
-- reduced it.
abbrev NotRetried : Bool → Bool → System → Type 0
NotRetried was_reset retry_attempted block =
    was_reset ≡ false
    → (retry_attempted ≡ false)
      × (is_valid block ≡ true)
      × ((view block).cumulative ≡ (view block).snapshot)

module _ (b : Board) (config : Config) where
  open b use {tick_count, tick_period_ms}

  abbrev Retryable : State b → Type 0
  Retryable s = NotRetried s.was_reset s.retry_attempted s.block
