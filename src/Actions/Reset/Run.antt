-- ===== src/Actions/Reset/Run.antt =====
-- pkg/action/reset.go: `Run`.
use elemental_toolkit.Base.{none}
use elemental_toolkit.Base.Outcome.{Result}
use elemental_toolkit.Base.Proc.{or_fail, ◌>>◌}
use elemental_toolkit.Specs.{ResetSpec}
use elemental_toolkit.Actions.{
  ActionState, World, Step, on_log, sweep, run_with_cleanup, power_action, reset_partitions,
}
use elemental_toolkit.Actions.Transaction.{start, close}
use elemental_toolkit.Actions.Upgrade.{Setting}
use elemental_toolkit.Actions.Deployment.{
  Tools, stage_hook, deploy_system, refine_system, reset_system,
}
use elemental_toolkit.Actions.Reset.{stages, prepare, grub_labels, update_install_state}

module _ {D : Type 0} (t : Setting D) (tools : Tools) where
  unfoldable pub fill : Step D ResetSpec (Unit {0})
  fill = do deploy_system t; refine_system t tools stages (grub_labels t)

  unfoldable pub conclude : Step D ResetSpec (Unit {0})
  conclude = do stage_hook t stages "post-reset"; update_install_state t

  -- All of `Run` but the clean-up and the power action.
  unfoldable pub work : Step D ResetSpec (Unit {0})
  work = do prepare t; start t.snapper; fill; close t.snapper; conclude

  unfoldable pub reset_body : Step D ResetSpec (Unit {0})
  reset_body = do work; or_fail (sweep t.append none); or_fail (on_log (power_action t.env t.cfg))

  -- `ResetAction.Run`
  unfoldable pub run_reset : ActionState D ResetSpec → Result (Unit {0}) × World D ResetSpec
  run_reset = run_with_cleanup t.append reset_body
