-- ===== src/Actions/Upgrade/Rollback.antt =====
-- `UpgradeAction.Run`, with any snapshotter: what it leaves of the transaction.
use elemental_toolkit.Base.{◌≡◌, arith}
use elemental_toolkit.CleanStack.{new_clean_stack}
use elemental_toolkit.CleanStack.Cleanup.{is_some}
use elemental_toolkit.Specs.{UpgradeSpec}
use elemental_toolkit.Actions.{ActionState, on_log, run_with_cleanup, power_action}
use elemental_toolkit.Base.Proc.{or_fail}
use elemental_toolkit.Actions.Phases.{Phase, idle}
use elemental_toolkit.Actions.Quiet.{Quiet-log}
use elemental_toolkit.Actions.Bracket.{Closes, finished-Closes}
use elemental_toolkit.Actions.Upgrade.{Setting}
use elemental_toolkit.Actions.Upgrade.Run.{work, upgrade_body, run_upgrade}
use elemental_toolkit.Actions.Upgrade.Recording.{watching}
use elemental_toolkit.Actions.Upgrade.Progress.{work-Ends}

module _ {D : Type 0} (t : Setting D) where
  -- A run of the upgrade with any snapshotter, world and tools, from a state without a transaction: where its work
  -- (all but the clean-up and the power action) ends without an error, the snapshotter has closed the
  -- transaction, and no clean-up job closes it as failed. Where it ends with an error, the run ends
  -- with an error too, and either no transaction was begun or it is closed as failed: also if it had
  -- been closed before.
  pub run_upgrade-Closes :
      (u : ActionState (D × Phase) UpgradeSpec)
      → u.device.1 ≡ idle
      → Closes t.snapper t.append
          (work (watching t) (u, new_clean_stack)).0
          (run_upgrade (watching t) u)
  unfolding run_upgrade run_with_cleanup upgrade_body new_clean_stack
  run_upgrade-Closes u h =
      let worked = work (watching t) (u, new_clean_stack) in
      finished-Closes t.snapper t.append (or_fail (on_log (power_action t.env t.cfg))) worked.0
        worked.1 (Quiet-log (power_action t.env t.cfg))
        (work-Ends t (u, new_clean_stack)
          (is_some u.snapshot, (omega arith, tt, λ i. (h i, is_some u.snapshot))))
