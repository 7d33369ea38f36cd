-- ===== src/Actions/Upgrade/Progress.antt =====
-- The work of an upgrade, step by step: what stands on the clean-up stack and what phase it leaves.
use elemental_toolkit.Base.{Bool, true, false, Option, none, some}
use elemental_toolkit.Base.Proc.{call, ◌>>◌, Keeps, Keeps-bind, Ends, Ends-then_do}
use elemental_toolkit.Partitions.{PartitionRef}
use elemental_toolkit.Specs.{UpgradeSpec}
use elemental_toolkit.Actions.{World, on_log, mount_rw, is_recovery_mode, upgrade_partitions}
use elemental_toolkit.Actions.Transaction.{init}
use elemental_toolkit.Actions.Phases.{Phase, watched, Calm, Calm-mount_rw}
use elemental_toolkit.Actions.Quiet.{Quiet, Quiet-bind, Calm-Quiet}
use elemental_toolkit.Actions.Bracket.{
  Early, Failed, Committed, Calm-init, before-Ends, transaction-Ends,
}
use elemental_toolkit.Actions.Upgrade.{
  Setting, mount_persistent, mount_other, mount_remaining, mount_rw_partitions, upgrade_hook,
  prelude, deploy,
}
use elemental_toolkit.Actions.Upgrade.Conclude.{conclude}
use elemental_toolkit.Actions.Upgrade.Run.{fill, transaction, work}
use elemental_toolkit.Actions.Upgrade.Quiet.{
  Quiet-upgrade_hook, Quiet-deploy, Quiet-refine_deployment,
}
use elemental_toolkit.Actions.Upgrade.Recording.{watching, Quiet-conclude}

module _ {D : Type 0} (t : Setting D) where
  Calm-mount_persistent :
      (p : Phase × Bool) (q : Option PartitionRef)
      → Keeps (Calm {D = D} {S = UpgradeSpec} p) (mount_persistent (watching t) q)
  Calm-mount_persistent p none s h = h
  Calm-mount_persistent p (some q) s h =
      Calm-mount_rw p t.env (λ ep. ep.persistent) (λ ep q. record ep { persistent = q }) s h

  Calm-mount_remaining :
      (p : Phase × Bool) → Keeps (Calm {D = D} {S = UpgradeSpec} p) (mount_remaining (watching t))
  unfolding mount_remaining
  Calm-mount_remaining p (u, c) h = Calm-mount_persistent p u.spec.partitions.persistent (u, c) h

  Calm-mount_other :
      (p : Phase × Bool) (recovery_mode : Bool)
      → Keeps (Calm {D = D} {S = UpgradeSpec} p) (mount_other (watching t) recovery_mode)
  Calm-mount_other p true s h =
      Calm-mount_rw p t.env (λ ep. ep.state) (λ ep q. record ep { state = q }) s h
  Calm-mount_other p false s h =
      Calm-mount_rw p t.env (λ ep. ep.recovery) (λ ep q. record ep { recovery = q }) s h

  Calm-mount_rw_partitions :
      (p : Phase × Bool)
      → Keeps (Calm {D = D} {S = UpgradeSpec} p) (mount_rw_partitions (watching t))
  unfolding mount_rw_partitions
  Calm-mount_rw_partitions p =
      Keeps-bind (Calm p) (mount_rw t.env (λ ep. ep.boot) (λ ep q. record ep { boot = q })) _
        (Calm-mount_rw p t.env (λ ep. ep.boot) (λ ep q. record ep { boot = q }))
        (λ done.
          Keeps-bind (Calm p) (call (on_log (is_recovery_mode t.env)))
            (λ recovery_mode.
              mount_other (watching t) recovery_mode >> mount_remaining (watching t))
            (λ (u, c) h. h)
            (λ recovery_mode.
              Keeps-bind (Calm p) (mount_other (watching t) recovery_mode)
                (λ done. mount_remaining (watching t)) (Calm-mount_other p recovery_mode)
                (λ done. Calm-mount_remaining p)))

  Calm-prelude :
      (p : Phase × Bool) → Keeps (Calm {D = D} {S = UpgradeSpec} p) (prelude (watching t))
  unfolding prelude
  Calm-prelude p =
      Keeps-bind (Calm p) (mount_rw_partitions (watching t)) _ (Calm-mount_rw_partitions p) (λ done.
        Keeps-bind (Calm p) (init (watched t.snapper)) _ (Calm-init t.snapper p) (λ done.
          Calm-Quiet p (upgrade_hook (watching t) "before-upgrade")
            (Quiet-upgrade_hook (watching t) "before-upgrade")))

  Quiet-fill : Quiet (fill (watching t))
  unfolding fill
  Quiet-fill =
      Quiet-bind (deploy (watching t)) _ (Quiet-deploy (watching t))
        (λ done. Quiet-refine_deployment (watching t))

  pub work-Ends :
      (s : World (D × Phase) UpgradeSpec)
      → Early t.snapper s
      → Ends (Failed t.snapper) (Committed t.snapper) (work (watching t) s)
  unfolding work transaction
  work-Ends s h =
      let before = prelude (watching t) s in
      Ends-then_do (Failed t.snapper) (Early t.snapper) (Committed t.snapper) _ before.0 before.1
        (before-Ends t.snapper (prelude (watching t)) Calm-prelude s h)
        (λ done.
          transaction-Ends t.snapper (fill (watching t)) (conclude (watching t)) Quiet-fill
            (Quiet-conclude t))
