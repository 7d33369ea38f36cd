-- ===== src/Actions/Upgrade/Quiet.antt =====
-- The steps of an upgrade outside the transaction's own calls leave its phase and the clean-up stack.
use elemental_toolkit.Base.{String, if◌then◌else◌}
use elemental_toolkit.Base.Text.{join}
use elemental_toolkit.Base.Proc.{pure, or_fail}
use elemental_toolkit.Actions.{upgrade_partitions, on_log}
use elemental_toolkit.Actions.Upgrade.{
  Setting, the_system, upgrade_hook, upgrade_chroot_hook, mirror, deploy, grub_labels,
  install_bootloader, refine_deployment,
}
use elemental_toolkit.Actions.Phases.{Phase}
use elemental_toolkit.Actions.Transaction.{the_snapshot, boot_dir}
use elemental_toolkit.Actions.Quiet.{
  Quiet, Quiet-bind, Quiet-if, Quiet-pure, Quiet-log, Quiet-follow, Quiet-the_snapshot,
  Quiet-boot_dir,
}

module _ {D : Type 0} where
  pub Quiet-the_system : Quiet {D = D} the_system
  unfolding the_system
  Quiet-the_system s₀ (u, c) h = Quiet-follow u.spec.system s₀ (u, c) h

  module _ (t : Setting (D × Phase)) where
    pub Quiet-upgrade_hook : (name : String) → Quiet (upgrade_hook t name)
    unfolding upgrade_hook
    Quiet-upgrade_hook name s₀ (u, c) h = h

    Quiet-upgrade_chroot_hook : (name root : String) → Quiet (upgrade_chroot_hook t name root)
    unfolding upgrade_chroot_hook
    Quiet-upgrade_chroot_hook name root s₀ (u, c) h = h

    Quiet-mirror : (dir : String) (system : _) → Quiet (mirror t dir system)
    unfolding mirror
    Quiet-mirror dir system s₀ (u, c) h = h

    pub Quiet-deploy : Quiet (deploy t)
    unfolding deploy
    Quiet-deploy = Quiet-bind the_snapshot _ Quiet-the_snapshot (λ snapshot.
        Quiet-bind the_system _ Quiet-the_system (λ system. Quiet-mirror snapshot.work_dir system))

    Quiet-install_bootloader : Quiet (install_bootloader t)
    unfolding install_bootloader
    Quiet-install_bootloader =
        Quiet-bind the_snapshot _ Quiet-the_snapshot
          (λ snapshot. Quiet-bind boot_dir _ Quiet-boot_dir (λ boot s₀ (u, c) h. h))

    Quiet-grub_labels : Quiet (grub_labels t)
    unfolding grub_labels
    Quiet-grub_labels s₀ (u, c) h = h

    pub Quiet-refine_deployment : Quiet (refine_deployment t)
    unfolding refine_deployment
    Quiet-refine_deployment =
        Quiet-bind
          (λ (u, c). (if u.spec.bootloader_upgrade then install_bootloader t else pure tt) (u, c)) _
          (λ s₀ (u, c) h.
            Quiet-if u.spec.bootloader_upgrade (install_bootloader t) (pure tt)
              Quiet-install_bootloader (Quiet-pure tt) s₀ (u, c) h)
          (λ done.
            Quiet-bind (upgrade_chroot_hook t "after-upgrade-chroot" "/run/elemental/workingtree") _
              (Quiet-upgrade_chroot_hook _ _)
              (λ done.
                Quiet-bind (upgrade_hook t "after-upgrade") _ (Quiet-upgrade_hook "after-upgrade")
                  (λ done. Quiet-bind (grub_labels t) _ Quiet-grub_labels (λ labels.
                    Quiet-bind boot_dir _ Quiet-boot_dir (λ boot.
                      Quiet-bind
                        (or_fail (
                          on_log
                            (t.parts.set_persistent_variables (join boot "grub_oem_env") labels)))
                        _
                        (Quiet-log
                          (t.parts.set_persistent_variables (join boot "grub_oem_env") labels))
                        (λ done s₀ (u, c) h. h))))))
