-- ===== src/Actions/Install/Rollback.antt =====
-- `InstallAction.Run`, with any snapshotter: what it leaves of the transaction.
use elemental_toolkit.Base.{
  ◌≡◌, refl, inl, inr, Bool-cases, ◌&&◌, not, Bool, true, Option, none, some, arith, [], ◌==◌,
  string_eq,
}
use elemental_toolkit.Base.Outcome.{plain, Result, ok, err, panic}
use elemental_toolkit.Base.Proc.{pure, raise, or_fail, ◌>>◌, Keeps, Keeps-bind, Ends, Ends-then_do}
use elemental_toolkit.Base.Text.{join}
use elemental_toolkit.System.{Log, mkdir_all}
use elemental_toolkit.Elemental.Layout.{partition_and_format_device}
use elemental_toolkit.CleanStack.{new_clean_stack}
use elemental_toolkit.CleanStack.Cleanup.{is_some}
use elemental_toolkit.Partitions.{PartitionRef, PartitionList}
use elemental_toolkit.Specs.{Image, ImageSource, InstallSpec, to_string}
use elemental_toolkit.Actions.{
  ActionState, World, on_log, on_device, follow, mount_point_of, run_with_cleanup, power_action,
  log_job, install_partitions,
}
use elemental_toolkit.Actions.Transaction.{the_snapshot, init}
use elemental_toolkit.Actions.Phases.{Phase, idle, watched, Calm, Calm-push}
use elemental_toolkit.Actions.Quiet.{
  Quiet, Quiet-bind, Quiet-if, Quiet-pure, Quiet-log, Quiet-device, Quiet-follow,
  Quiet-the_snapshot, Quiet-mount_point_of, Calm-Quiet,
}
use elemental_toolkit.Actions.Bracket.{
  Early, Failed, Committed, Closes, Calm-init, before-Ends, transaction-Ends, finished-Closes,
}
use elemental_toolkit.Actions.Upgrade.{Setting}
use elemental_toolkit.Actions.Upgrade.Recording.{watching}
use elemental_toolkit.Actions.Deployment.{
  Tools, mount_system, stage_hook, deploy_system, install_system,
}
use elemental_toolkit.Actions.Deployment.Steady.{
  Quiet-stage_hook, Quiet-on_log, Calm-mount_system, Quiet-deploy_system, Quiet-refine_system,
}
use elemental_toolkit.Actions.Install.{
  stages, from_iso, use_iso, laid_out, lay_out, check_deployment, format_disk, prepare_device,
  prepare, grub_labels, deploy_copy, share_source, reuse_system, choose_recovery, deploy_recovery,
  install_recovery, eject,
}
use elemental_toolkit.Actions.Install.Source.{
  FromIso, source_from_iso, check_active_deployment, deactivate_devices,
}
use elemental_toolkit.Actions.Install.Record.{write_new_state, state_of_both, create_install_state}
use elemental_toolkit.Actions.Install.Run.{
  fill, conclude, work, finish_install, install_body, run_install,
}

module _ {D : Type 0} (t : Setting D) (tools : Tools) where
  from_iso-Calm :
      (p : Phase × Bool) (r : FromIso t.env tools × Log) (s : World (D × Phase) InstallSpec)
      → Calm p s
      → Calm p (from_iso (watching t) tools r s).1
  from_iso-Calm p ((source, cleaner, some e), w) (u, c) h =
      Calm-push p (record u { log = w }) c (log_job cleaner) h (λ u. refl)
  from_iso-Calm p ((source, cleaner, none), w) (u, c) h =
      Calm-push p (record u { log = w; spec = record u.spec { system = source } }) c
        (log_job cleaner) h (λ u. refl)

  use_iso-Calm : (p : Phase × Bool) → Keeps (Calm p) (use_iso (watching t) tools)
  unfolding use_iso
  use_iso-Calm p (u, c) h = elim (Bool-cases (u.spec.iso == "")) [
    | inl e ↦ rw (e, use_iso) h
    | inr e ↦
        rw (e, use_iso) (from_iso-Calm p (source_from_iso t.env tools u.spec.iso u.log) (u, c) h)
  ]

  laid_out-Quiet : (r : Result PartitionList × Log) → Quiet (λ s. laid_out (watching t) tools s r)
  laid_out-Quiet (ok parts, w) s₀ (u, c) h = h
  laid_out-Quiet (err e, w) s₀ (u, c) h = h
  laid_out-Quiet (panic, w) s₀ (u, c) h = h

  check_deployment-Quiet : Quiet (check_deployment (watching t) tools)
  unfolding check_deployment
  check_deployment-Quiet =
      Quiet-bind (on_log (check_active_deployment t.env tools)) _
        (Quiet-on_log (check_active_deployment t.env tools))
        (λ active s₀ (u, c) h.
          Quiet-if (active && not u.spec.force)
            (raise
              (plain "use `force` flag to run an installation over the current running deployment"))
            (pure tt) (λ s₀ s h. h) (Quiet-pure tt) s₀ (u, c) h)

  format_disk-Quiet : Quiet (format_disk (watching t) tools)
  unfolding format_disk lay_out
  format_disk-Quiet =
      Quiet-bind (or_fail (on_log (deactivate_devices t.env tools)))
        (λ done. lay_out (watching t) tools) (Quiet-log (deactivate_devices t.env tools))
        (λ done s₀ (u, c) h.
          laid_out-Quiet (partition_and_format_device t.env tools.read_table u.spec u.log) s₀ (u, c)
            h)

  prepare_device-Quiet : Quiet (prepare_device (watching t) tools)
  unfolding prepare_device
  prepare_device-Quiet s₀ (u, c) h =
      Quiet-if u.spec.no_format (check_deployment (watching t) tools)
        (format_disk (watching t) tools) check_deployment-Quiet format_disk-Quiet s₀ (u, c) h

  prepare-Calm : (p : Phase × Bool) → Keeps (Calm p) (prepare (watching t) tools)
  unfolding prepare
  prepare-Calm p = Keeps-bind (Calm p) (use_iso (watching t) tools) _ (use_iso-Calm p) (λ done.
      Keeps-bind (Calm p) (prepare_device (watching t) tools) _
        (Calm-Quiet p (prepare_device (watching t) tools) prepare_device-Quiet)
        (λ done.
          Keeps-bind (Calm p) (mount_system (watching t) (λ ep. [])) _
            (Calm-mount_system (watching t) p (λ ep. []))
            (λ done.
              Keeps-bind (Calm p) (init (watched t.snapper)) _ (Calm-init t.snapper p) (λ done.
                Calm-Quiet p (stage_hook (watching t) stages "before-install")
                  (Quiet-stage_hook (watching t) stages "before-install")))))

  Quiet-fill : Quiet (fill (watching t) tools)
  unfolding fill grub_labels
  Quiet-fill = Quiet-bind (deploy_system (watching t)) _ (Quiet-deploy_system (watching t)) (λ done.
      Quiet-refine_system (watching t) tools stages (grub_labels (watching t) tools)
        (λ s₀ (u, c) h. h))

  Quiet-reuse_system :
      (system : ImageSource) (image : Image) → Quiet (reuse_system (watching t) tools system image)
  unfolding reuse_system deploy_copy
  Quiet-reuse_system system image = Quiet-bind the_snapshot _ Quiet-the_snapshot (λ snapshot.
      Quiet-bind (on_device ((watched t.snapper).snapshot_to_image_source snapshot)) _
        (Quiet-device (t.snapper.snapshot_to_image_source snapshot)) (λ source s₀ (u, c) h. h))

  Quiet-choose_recovery :
      (system source : ImageSource) → Quiet (choose_recovery (watching t) tools system source)
  unfolding choose_recovery deploy_copy
  Quiet-choose_recovery system source s₀ (u, c) h =
      Quiet-if (to_string source == to_string system)
        (reuse_system (watching t) tools system u.spec.recovery_system)
        (deploy_copy (watching t) tools true u.spec.recovery_system)
        (Quiet-reuse_system system u.spec.recovery_system) (λ s₀ (u, c) h. h) s₀ (u, c) h

  Quiet-deploy_recovery : Quiet (deploy_recovery (watching t) tools)
  unfolding deploy_recovery
  Quiet-deploy_recovery =
      Quiet-bind (λ (u, c). follow u.spec.system (u, c)) _
        (λ s₀ (u, c) h. Quiet-follow u.spec.system s₀ (u, c) h)
        (λ system.
          Quiet-bind (λ (u, c). follow u.spec.recovery_system.source (u, c))
            (choose_recovery (watching t) tools system)
            (λ s₀ (u, c) h. Quiet-follow u.spec.recovery_system.source s₀ (u, c) h)
            (Quiet-choose_recovery system))

  Quiet-install_recovery : Quiet (install_recovery (watching t) tools)
  unfolding install_recovery share_source
  Quiet-install_recovery =
      Quiet-bind (λ (u, c). mount_point_of u.spec.partitions.recovery (u, c)) _
        (λ s₀ (u, c) h. Quiet-mount_point_of u.spec.partitions.recovery s₀ (u, c) h)
        (λ dir.
          Quiet-bind (or_fail (on_log (mkdir_all t.env (join dir "boot"))))
            (λ done. share_source (watching t) tools >> deploy_recovery (watching t) tools)
            (Quiet-log (mkdir_all t.env (join dir "boot")))
            (λ done.
              Quiet-bind (share_source (watching t) tools)
                (λ done. deploy_recovery (watching t) tools) (λ s₀ (u, c) h. h)
                (λ done. Quiet-deploy_recovery)))

  Quiet-write_new_state :
      (state recovery : PartitionRef) → Quiet (write_new_state (watching t) state recovery)
  unfolding write_new_state
  Quiet-write_new_state state recovery = Quiet-bind the_snapshot _ Quiet-the_snapshot (λ snapshot.
      Quiet-bind (λ (u, c). follow u.spec.system (u, c)) _
        (λ s₀ (u, c) h. Quiet-follow u.spec.system s₀ (u, c) h)
        (λ system.
          Quiet-bind (λ (u, c). follow u.spec.recovery_system.source (u, c)) _
            (λ s₀ (u, c) h. Quiet-follow u.spec.recovery_system.source s₀ (u, c) h)
            (λ source s₀ (u, c) h. h)))

  state_of_both-Quiet :
      (state recovery : Option PartitionRef) → Quiet (state_of_both (watching t) state recovery)
  state_of_both-Quiet none recovery s₀ s h = h
  state_of_both-Quiet (some state) none s₀ s h = h
  state_of_both-Quiet (some state) (some recovery) s₀ s h =
      Quiet-write_new_state state recovery s₀ s h

  Quiet-create_install_state : Quiet (create_install_state (watching t))
  unfolding create_install_state
  Quiet-create_install_state s₀ (u, c) h =
      state_of_both-Quiet u.spec.partitions.state u.spec.partitions.recovery s₀ (u, c) h

  Quiet-conclude : Quiet (conclude (watching t) tools)
  unfolding conclude
  Quiet-conclude =
      Quiet-bind (install_recovery (watching t) tools) _ Quiet-install_recovery (λ done.
        Quiet-bind (stage_hook (watching t) stages "post-install") _
          (Quiet-stage_hook (watching t) stages "post-install")
          (λ done. Quiet-create_install_state))

  work-Ends :
      (s : World (D × Phase) InstallSpec)
      → Early t.snapper s
      → Ends (Failed t.snapper) (Committed t.snapper) (work (watching t) tools s)
  unfolding work
  work-Ends s h =
      let before = prepare (watching t) tools s in
      Ends-then_do (Failed t.snapper) (Early t.snapper) (Committed t.snapper) _ before.0 before.1
        (before-Ends t.snapper (prepare (watching t) tools) prepare-Calm s h)
        (λ done.
          transaction-Ends t.snapper (fill (watching t) tools) (conclude (watching t) tools)
            Quiet-fill Quiet-conclude)

  Quiet-finish_install : Quiet (finish_install (watching t) tools)
  unfolding finish_install eject
  Quiet-finish_install =
      Quiet-bind (eject (watching t) tools) _ (λ s₀ (u, c) h. h)
        (λ done. Quiet-log (power_action t.env t.cfg))

  -- A run of the installation with any snapshotter, world and tools, from a state without a transaction:
  -- where its work (all but the clean-up, the eject script and the power action) ends without an error,
  -- the snapshotter has closed the transaction, and no clean-up job closes it as failed. Where it ends
  -- with an error, the run ends with an error too, and either no transaction was begun or it is closed
  -- as failed: also if it had been closed before.
  pub run_install-Closes :
      (u : ActionState (D × Phase) InstallSpec)
      → u.device.1 ≡ idle
      → Closes t.snapper t.append
          (work (watching t) tools (u, new_clean_stack)).0
          (run_install (watching t) tools u)
  unfolding run_install run_with_cleanup install_body new_clean_stack
  run_install-Closes u h =
      let worked = work (watching t) tools (u, new_clean_stack) in
      finished-Closes t.snapper t.append (finish_install (watching t) tools) worked.0 worked.1
        Quiet-finish_install
        (work-Ends (u, new_clean_stack)
          (is_some u.snapshot, (omega arith, tt, λ i. (h i, is_some u.snapshot))))
