-- ===== src/Actions/Upgrade/Recording.antt =====
-- What follows the close of the transaction leaves its phase and the clean-up stack.
use elemental_toolkit.Base.{
  String, ◌≡◌, refl, ◌∙◌, Bool, true, false, Option, none, some, ◌==◌, string_eq, if◌then◌else◌,
}
use elemental_toolkit.Base.Text.{join}
use elemental_toolkit.Base.Outcome.{Error, Result, ok, err, panic}
use elemental_toolkit.Base.Proc.{pure, or_fail, call, ignored, ◌>>◌, Keeps, Keeps-bind}
use elemental_toolkit.System.{Env, remove_all}
use elemental_toolkit.Partitions.{PartitionRef}
use elemental_toolkit.Specs.{UpgradeSpec, to_string}
use elemental_toolkit.InstallState.{InstallState, PartitionState}
use elemental_toolkit.Actions.{
  upgrade_partitions, RunConfig, ActionState, on_log, on_device, mount_point_of, mount_rw, follow,
  sweep, power_action,
}
use elemental_toolkit.Actions.Recovery.{
  RecoveryParts, deploy_recovery, write_recovery_state, update_recovery_state, new_recovery_action,
  finish_recovery, replace_recovery, recovery_body, run_recovery, swap_boot,
}
use elemental_toolkit.Actions.Upgrade.{Setting, the_system, upgrade_hook}
use elemental_toolkit.Actions.Transaction.{the_snapshot}
use elemental_toolkit.Actions.Upgrade.Conclude.{
  the_recovery_source, reuse_snapshot, recovery_run, upgrade_recovery, write_state, record_state,
  record_both, upgrade_install_state, conclude, updated_state,
}
use elemental_toolkit.Actions.Phases.{
  Phase, watch, watched, seen, Calm, Calm-mount_rw, Calm-sweep, Calm-run_with_cleanup,
}
use elemental_toolkit.Actions.Quiet.{
  Quiet, Quiet-bind, Quiet-if, Quiet-pure, Quiet-ignored, Quiet-log, Quiet-device, Quiet-follow,
  Quiet-the_snapshot, Quiet-mount_point_of, Calm-Quiet,
}
use elemental_toolkit.Actions.Upgrade.Quiet.{Quiet-the_system, Quiet-upgrade_hook}

module _ {D : Type 0} where
  module _ (env : Env) (parts : RecoveryParts) (append : Option Error → Error → Error)
      (cfg : RunConfig) where
    Quiet-write_recovery_state :
        (i : InstallState) (p : PartitionRef) (r : Result PartitionState)
        → Quiet {D = D} {S = UpgradeSpec} (write_recovery_state env parts i p r)
    unfolding write_recovery_state
    Quiet-write_recovery_state i p panic s₀ s h = h
    Quiet-write_recovery_state i p (err e) s₀ s h = h
    Quiet-write_recovery_state i p (ok part) s₀ (u, c) h = h

    Quiet-update_recovery_state : Quiet {D = D} {S = UpgradeSpec} (update_recovery_state env parts)
    unfolding update_recovery_state
    Quiet-update_recovery_state =
        Quiet-bind (λ (u, c). follow u.state (u, c)) _
          (λ s₀ (u, c) h. Quiet-follow u.state s₀ (u, c) h)
          (λ i.
            Quiet-bind (λ (u, c). follow u.spec.partitions.recovery (u, c)) _
              (λ s₀ (u, c) h. Quiet-follow u.spec.partitions.recovery s₀ (u, c) h)
              (λ p s₀ (u, c) h. Quiet-write_recovery_state i p _ s₀ (u, c) h))

    Quiet-deploy_recovery : Quiet {D = D} {S = UpgradeSpec} (deploy_recovery env parts)
    unfolding deploy_recovery
    Quiet-deploy_recovery s₀ (u, c) h = h

    Calm-power :
        (e : Option Error) (p : Phase × Bool)
        → Keeps
            (Calm {D = D} {S = UpgradeSpec} p)
            (or_fail (sweep append e) >> or_fail (on_log (power_action env cfg)))
    Calm-power e p =
        Keeps-bind (Calm p) (or_fail (sweep append e))
          (λ done. or_fail (on_log (power_action env cfg))) (Calm-sweep append p e)
          (λ done.
            Calm-Quiet p (or_fail (on_log (power_action env cfg)))
              (Quiet-log (power_action env cfg)))

    Calm-finish_recovery :
        (p : Phase × Bool) (update_state : Bool) (old : String)
        → Keeps
            (Calm {D = D} {S = UpgradeSpec} p)
            (finish_recovery env parts append cfg update_state old)
    unfolding finish_recovery
    Calm-finish_recovery p true old =
        Keeps-bind (Calm p) (ignored (or_fail (on_log (remove_all env old)))) _
          (Calm-Quiet p (ignored (or_fail (on_log (remove_all env old)))) (
            Quiet-ignored (or_fail (on_log (remove_all env old))) (Quiet-log (remove_all env old))))
          (λ done.
            Keeps-bind (Calm p) (update_recovery_state env parts) _
              (Calm-Quiet p (update_recovery_state env parts) Quiet-update_recovery_state)
              (λ done. Calm-power none p))
    Calm-finish_recovery p false old =
        Keeps-bind (Calm p) (call (on_log (remove_all env old)))
          (λ failure. or_fail (sweep append failure) >> or_fail (on_log (power_action env cfg)))
          (λ (u, c) h. h) (λ failure. Calm-power failure p)

    Calm-replace_recovery :
        (p : Phase × Bool) (update_state : Bool) (dir : String)
        → Keeps
            (Calm {D = D} {S = UpgradeSpec} p)
            (replace_recovery env parts append cfg update_state dir)
    unfolding replace_recovery
    Calm-replace_recovery p update_state dir =
        Keeps-bind (Calm p) (or_fail (on_log (remove_all env (join dir "boot-transition")))) _
          (λ (u, c) h. h)
          (λ done.
            Keeps-bind (Calm p) (deploy_recovery env parts) _
              (Calm-Quiet p (deploy_recovery env parts) Quiet-deploy_recovery)
              (λ done.
                Keeps-bind (Calm p) (or_fail (on_log (remove_all env (join dir "boot-old")))) _
                  (λ (u, c) h. h)
                  (λ done.
                    Keeps-bind (Calm p)
                      (on_log (
                        swap_boot env (join dir "boot-transition") (join dir "boot")
                          (join dir "boot-old")))
                      _ (λ (u, c) h. h) (λ placed. Calm-finished placed))))
      where
        Calm-finished :
            (placed : Bool)
            → Keeps (Calm {D = D} {S = UpgradeSpec} p) (
                if placed
                then finish_recovery env parts append cfg update_state (join dir "boot-old")
                else pure tt)
        Calm-finished true = Calm-finish_recovery p update_state (join dir "boot-old")
        Calm-finished false = λ s h. h

    Calm-recovery_body :
        (p : Phase × Bool) (update_state : Bool)
        → Keeps (Calm {D = D} {S = UpgradeSpec} p) (recovery_body env parts append cfg update_state)
    unfolding recovery_body
    Calm-recovery_body p update_state =
        Keeps-bind (Calm p) (mount_rw env (λ ep. ep.recovery) (λ ep q. record ep { recovery = q }))
          _ (Calm-mount_rw p env (λ ep. ep.recovery) (λ ep q. record ep { recovery = q }))
          (λ done.
            Keeps-bind (Calm p) (λ (u, c). mount_point_of u.spec.partitions.recovery (u, c)) _
              (λ (u, c) h.
                Calm-Quiet p (mount_point_of u.spec.partitions.recovery)
                  (Quiet-mount_point_of u.spec.partitions.recovery) (u, c) h)
              (λ dir. Calm-replace_recovery p update_state dir))

    run_recovery-phase :
        (update_state : Bool) (u : ActionState (D × Phase) UpgradeSpec)
        → seen (run_recovery env parts append cfg update_state u).1.0 ≡ seen u
    unfolding run_recovery
    run_recovery-phase update_state u =
        (Calm-run_with_cleanup append (recovery_body env parts append cfg update_state) (seen u)
          (Calm-recovery_body (seen u) update_state) u refl).2

  module _ (t : Setting D) where
    -- The setting with the snapshotter watched.
    abbrev pub watching : Setting (D × Phase)
    watching = record {
      env = t.env;
      cfg = t.cfg;
      parts = t.parts;
      recovery = t.recovery;
      snapper = watched t.snapper;
      append = t.append;
    }

    Quiet-recovery_run : Quiet (recovery_run watching)
    unfolding recovery_run
    Quiet-recovery_run s₀ (u, c) h =
        (h.0, run_recovery-phase t.env t.recovery t.append t.cfg false u ∙ h.1)

    Quiet-reuse_snapshot : (system : _) → Quiet (reuse_snapshot watching system)
    unfolding reuse_snapshot
    Quiet-reuse_snapshot system = Quiet-bind the_snapshot _ Quiet-the_snapshot (λ snapshot.
        Quiet-bind (on_device (watch (λ r p. p) (t.snapper.snapshot_to_image_source snapshot))) _
          (Quiet-device (t.snapper.snapshot_to_image_source snapshot)) (λ source s₀ (u, c) h. h))

    Quiet-upgrade_recovery : Quiet (upgrade_recovery watching)
    unfolding upgrade_recovery new_recovery_action the_recovery_source
    Quiet-upgrade_recovery =
        Quiet-bind the_recovery_source _
          (λ s₀ (u, c) h. Quiet-follow u.spec.recovery_system.source s₀ (u, c) h)
          (λ source. Quiet-bind the_system _ Quiet-the_system (λ system.
            Quiet-bind
              (if to_string source == to_string system
                then reuse_snapshot watching system
                else pure tt)
              _
              (Quiet-if (to_string source == to_string system) (reuse_snapshot watching system)
                (pure tt) (Quiet-reuse_snapshot system) (Quiet-pure tt))
              (λ done.
                Quiet-bind (new_recovery_action t.env t.recovery false) _ (λ s₀ (u, c) h. h)
                  (λ done. Quiet-recovery_run))))

    Quiet-write_state :
        (state rec : PartitionRef) (r : Result InstallState)
        → Quiet (write_state watching state rec r)
    unfolding write_state
    Quiet-write_state state rec panic s₀ s h = h
    Quiet-write_state state rec (err e) s₀ s h = h
    Quiet-write_state state rec (ok i) s₀ (u, c) h = h

    Quiet-record_state : (state rec : PartitionRef) → Quiet (record_state watching state rec)
    unfolding record_state
    Quiet-record_state state rec =
        Quiet-bind (on_device (watch (λ r p. p) t.snapper.get_snapshots)) _
          (Quiet-device t.snapper.get_snapshots)
          (λ present. Quiet-bind the_snapshot _ Quiet-the_snapshot (λ snapshot.
            Quiet-bind the_system _ Quiet-the_system (λ system s₀ (u, c) h.
              Quiet-write_state state rec
                (updated_state watching u.spec state rec system present snapshot.id u.state) s₀
                (u, c) h)))

    Quiet-record_both : (rec state : Option PartitionRef) → Quiet (record_both watching rec state)
    unfolding record_both
    Quiet-record_both none state s₀ s h = h
    Quiet-record_both (some rec) none s₀ s h = h
    Quiet-record_both (some rec) (some state) s₀ s h = Quiet-record_state state rec s₀ s h

    Quiet-upgrade_install_state : Quiet (upgrade_install_state watching)
    unfolding upgrade_install_state
    Quiet-upgrade_install_state s₀ (u, c) h =
        Quiet-record_both u.spec.partitions.recovery u.spec.partitions.state s₀ (u, c) h

    pub Quiet-conclude : Quiet (conclude watching)
    unfolding conclude
    Quiet-conclude =
        Quiet-bind
          (λ (u, c).
            (if u.spec.recovery_upgrade then upgrade_recovery watching else pure tt) (u, c))
          _
          (λ s₀ (u, c) h.
            Quiet-if u.spec.recovery_upgrade (upgrade_recovery watching) (pure tt)
              Quiet-upgrade_recovery (Quiet-pure tt) s₀ (u, c) h)
          (λ done.
            Quiet-bind (upgrade_hook watching "post-upgrade") _
              (Quiet-upgrade_hook watching "post-upgrade") (λ done. Quiet-upgrade_install_state))
