-- ===== src/Actions/Install/Run.antt =====
-- pkg/action/install.go: `Run`.
use elemental_toolkit.Base.{none}
use elemental_toolkit.Base.Outcome.{Result}
use elemental_toolkit.Base.Proc.{or_fail, ◌>>◌}
use elemental_toolkit.Specs.{InstallSpec}
use elemental_toolkit.Actions.{
  ActionState, World, Step, on_log, sweep, run_with_cleanup, power_action, install_partitions,
}
use elemental_toolkit.Actions.Transaction.{start, close}
use elemental_toolkit.Actions.Upgrade.{Setting}
use elemental_toolkit.Actions.Deployment.{
  Tools, stage_hook, deploy_system, refine_system, install_system,
}
use elemental_toolkit.Actions.Install.{stages, prepare, grub_labels, install_recovery, eject}
use elemental_toolkit.Actions.Install.Record.{create_install_state}

module _ {D : Type 0} (t : Setting D) (tools : Tools) where
  unfoldable pub fill : Step D InstallSpec (Unit {0})
  fill = do deploy_system t; refine_system t tools stages (grub_labels t tools)

  unfoldable pub conclude : Step D InstallSpec (Unit {0})
  conclude = do install_recovery t tools; stage_hook t stages "post-install"; create_install_state t

  -- All of `Run` but the clean-up and what follows it.
  unfoldable pub work : Step D InstallSpec (Unit {0})
  work = do prepare t tools; start t.snapper; fill; close t.snapper; conclude

  unfoldable pub finish_install : Step D InstallSpec (Unit {0})
  finish_install = do eject t tools; or_fail (on_log (power_action t.env t.cfg))

  unfoldable pub install_body : Step D InstallSpec (Unit {0})
  install_body = do work; or_fail (sweep t.append none); finish_install

  -- `InstallAction.Run`
  unfoldable pub run_install : ActionState D InstallSpec → Result (Unit {0}) × World D InstallSpec
  run_install = run_with_cleanup t.append install_body
