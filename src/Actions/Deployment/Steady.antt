-- ===== src/Actions/Deployment/Steady.antt =====
-- The shared steps of an installation and a reset leave the phase of the transaction.
use elemental_toolkit.Base.{String, ◌≡◌, refl, Bool, Option, List}
use elemental_toolkit.Base.Text.{join}
use elemental_toolkit.Base.Proc.{Proc, or_fail, Keeps, Keeps-bind}
use elemental_toolkit.System.{Log}
use elemental_toolkit.CleanStack.{CleanFunc}
use elemental_toolkit.Partitions.{PartitionRef, ElementalPartitions}
use elemental_toolkit.Actions.{ActionState, Step, HasPartitions, on_log, follow}
use elemental_toolkit.Actions.Transaction.{working_dir, the_snapshot, boot_dir}
use elemental_toolkit.Actions.Phases.{Phase, seen, Calm, Calm-push}
use elemental_toolkit.Actions.Quiet.{
  Quiet, Quiet-bind, Quiet-log, Quiet-follow, Quiet-the_snapshot, Quiet-boot_dir,
}
use elemental_toolkit.Actions.Upgrade.{Setting}
use elemental_toolkit.Actions.Deployment.{
  Tools, Stages, HasSystem, push_job, stage_hook, mount_all, unmount_all, mount_system,
  stage_chroot_hook, mirror_system, deploy_system, add_cloud_config, install_grub_in, set_default,
  refine_system,
}

module _ {D S : Type 0} where
  pub Quiet-stage_hook :
      (t : Setting (D × Phase)) (stages : Stages) (name : String)
      → Quiet {D = D} {S = S} (stage_hook t stages name)
  unfolding stage_hook
  Quiet-stage_hook t stages name s₀ (u, c) h = h

  -- A step that sees the log alone.
  pub Quiet-on_log : {A : Type 0} (m : Proc Log A) → Quiet {D = D} {S = S} (on_log m)
  Quiet-on_log m s₀ (u, c) h = h

  pub Calm-push_job :
      (p : Phase × Bool) (f : CleanFunc (ActionState (D × Phase) S))
      → ((u : ActionState (D × Phase) S) → seen (f u).1 ≡ seen u)
      → Keeps (Calm p) (push_job f)
  Calm-push_job p f k (u, c) h = Calm-push p u c f h k

module _ {D S : Type 0} ⦃p : HasPartitions S⦄ (t : Setting (D × Phase)) where
  pub Calm-mount_system :
      (q : Phase × Bool) (excludes : ElementalPartitions → List (Option PartitionRef))
      → Keeps (Calm {D = D} {S = S} q) (mount_system t excludes)
  unfolding mount_system mount_all unmount_all
  Calm-mount_system q excludes =
      Keeps-bind (Calm q) (mount_all t excludes) _ (λ (u, c) h. h)
        (λ done. Calm-push_job q (unmount_all t excludes) (λ u. refl))

  module _ ⦃y : HasSystem S⦄ where
    pub Quiet-deploy_system : Quiet {D = D} {S = S} (deploy_system t)
    unfolding deploy_system mirror_system
    Quiet-deploy_system = Quiet-bind the_snapshot _ Quiet-the_snapshot (λ snapshot.
        Quiet-bind (λ (u, c). follow (y.system_of u.spec) (u, c)) _
          (λ s₀ (u, c) h. Quiet-follow (y.system_of u.spec) s₀ (u, c) h) (λ system s₀ (u, c) h. h))

    Quiet-install_grub_in : Quiet {D = D} {S = S} (install_grub_in t)
    unfolding install_grub_in
    Quiet-install_grub_in =
        Quiet-bind the_snapshot _ Quiet-the_snapshot
          (λ snapshot. Quiet-bind boot_dir _ Quiet-boot_dir (λ boot s₀ (u, c) h. h))

    pub Quiet-refine_system :
        (tools : Tools) (stages : Stages)
        (grub_labels : Step (D × Phase) S (List (String × String)))
        → Quiet grub_labels
        → Quiet (refine_system t tools stages grub_labels)
    unfolding refine_system add_cloud_config stage_chroot_hook set_default
    Quiet-refine_system tools stages grub_labels labels_quiet =
        Quiet-bind (add_cloud_config t tools) _ (λ s₀ (u, c) h. h)
          (λ done. Quiet-bind (install_grub_in t) _ Quiet-install_grub_in (λ done.
            Quiet-bind (stage_chroot_hook t stages.after_chroot working_dir) _ (λ s₀ (u, c) h. h)
              (λ done.
                Quiet-bind (stage_hook t stages stages.after) _
                  (Quiet-stage_hook t stages stages.after)
                  (λ done. Quiet-bind grub_labels _ labels_quiet (λ labels.
                    Quiet-bind boot_dir _ Quiet-boot_dir (λ boot.
                      Quiet-bind
                        (or_fail (
                          on_log
                            (t.parts.set_persistent_variables (join boot "grub_oem_env") labels)))
                        (λ done. set_default t boot)
                        (Quiet-log
                          (t.parts.set_persistent_variables (join boot "grub_oem_env") labels))
                        (λ done s₀ (u, c) h. h)))))))
