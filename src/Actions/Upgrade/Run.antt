-- ===== src/Actions/Upgrade/Run.antt =====
-- pkg/action/upgrade.go: `Run`.
use elemental_toolkit.Base.{none, string_eq}
use elemental_toolkit.Base.Outcome.{Result}
use elemental_toolkit.Base.Proc.{or_fail, ◌>>◌}
use elemental_toolkit.Actions.{
  ActionState, World, Step, on_log, sweep, run_with_cleanup, power_action,
}
use elemental_toolkit.Actions.Upgrade.{Setting, prelude, deploy, refine_deployment}
use elemental_toolkit.Actions.Transaction.{start, close}
use elemental_toolkit.Specs.{UpgradeSpec}
use elemental_toolkit.Actions.Upgrade.Conclude.{conclude}

module _ {D : Type 0} (t : Setting D) where
  unfoldable pub fill : Step D UpgradeSpec (Unit {0})
  fill = do deploy t; refine_deployment t

  unfoldable pub transaction : Step D UpgradeSpec (Unit {0})
  transaction = do start t.snapper; fill; close t.snapper; conclude t

  -- All of `Run` but the clean-up and the power action.
  unfoldable pub work : Step D UpgradeSpec (Unit {0})
  work = do prelude t; transaction

  unfoldable pub upgrade_body : Step D UpgradeSpec (Unit {0})
  upgrade_body = do work; or_fail (sweep t.append none); or_fail (on_log (power_action t.env t.cfg))

  -- `UpgradeAction.Run`
  unfoldable pub run_upgrade : ActionState D UpgradeSpec → Result (Unit {0}) × World D UpgradeSpec
  run_upgrade = run_with_cleanup t.append upgrade_body
