-- ===== src/Actions/Upgrade.antt =====
-- pkg/action/upgrade.go: a new snapshot is filled, closed and recorded; then the recovery system may be
-- upgraded too. pkg/types/grub.go: the labels for the bootloader.
pub mod Conclude
pub mod Entries
pub mod Run
pub mod Quiet
pub mod Recording
pub mod Progress
pub mod Rollback
use elemental_toolkit.Base.{
  ℕ, String, Bool, true, false, not, ◌||◌, Option, none, some, List, [], ◌∷◌, ◌++◌, ◌==◌, string_eq,
  if◌then◌else◌,
}
use elemental_toolkit.Base.Text.{join}
use elemental_toolkit.Base.Outcome.{Error, plain, Result, ok, err, panic}
use elemental_toolkit.Base.Proc.{Proc, pure, raise, halt, or_fail, call, inside, ◌>>=◌, ◌>>◌}
use elemental_toolkit.System.{Env, Log, Act}
use elemental_toolkit.CleanStack.{CleanFunc, CleanStack, push_error_only}
use elemental_toolkit.Partitions.{PartitionRef, ElementalPartitions}
use elemental_toolkit.Specs.{Image, ImageSource, UpgradeSpec, to_string}
use elemental_toolkit.Snapshotter.{Snapshot, Snapshotter}
use elemental_toolkit.InstallState.{
  InstallState, PartitionState, SystemState, SystemMap, new_system, update_snapshots,
  update_recovery, write_install_state,
}
use elemental_toolkit.Actions.{
  RunStage, RunConfig, ActionState, World, Step, on_log, on_device, mount_point_of, mount_rw,
  upgrade_partitions, follow, sweep, run_with_cleanup, power_action, is_recovery_mode,
  pre_append_root, hook, chroot_hook,
}
use elemental_toolkit.Actions.Transaction.{working_dir, hook_binds, the_snapshot, boot_dir, init}
use elemental_toolkit.Actions.Recovery.{RecoveryParts, new_recovery_action, run_recovery}

-- What the action calls: `MirrorRoot` of pkg/elemental (directory, source; with the source that it
-- leaves), the hooks' stages and the bootloader's methods.
pub record UpgradeParts : Type 0 where
  pub mirror_root : String → ImageSource → Act (Option Error × ImageSource)
  pub run_stage : RunStage
  pub install_grub : String → String → Act (Option Error)
  pub set_persistent_variables : String → List (String × String) → Act (Option Error)
  pub set_default_entry : String → String → String → Act (Option Error)
  pub grub_def_entry : String

abbrev pub label_of : Option PartitionRef → Result String
label_of none = panic
label_of (some p) = ok p.value.filesystem_label

-- `GetGrubLabels` of an upgrade: three partitions are followed without a test for nil.
unfoldable pub get_grub_labels : ElementalPartitions → Result (List (String × String))
get_grub_labels ep = elim (label_of ep.state) [
  | panic ↦ panic
  | err e ↦ err e
  | ok state ↦ elim (label_of ep.recovery) [
    | panic ↦ panic
    | err e ↦ err e
    | ok recovery ↦ elim (label_of ep.oem) [
      | panic ↦ panic
      | err e ↦ err e
      | ok oem ↦ ok (
          ("state_label", state)
          ∷ ("recovery_label", recovery)
          ∷ ("oem_label", oem)
          ∷ elim ep.persistent [
            | none ↦ []
            | some p ↦ ("persistent_label", p.value.filesystem_label) ∷ []
          ])
    ]
  ]
]

-- Where the action runs: the world, the configuration, what it calls, and `multierror.Append`.
pub record Setting (D : Type 0) : Type 0 where
  pub env : Env
  pub cfg : RunConfig
  pub parts : UpgradeParts
  pub recovery : RecoveryParts
  pub snapper : Snapshotter D
  pub append : Option Error → Error → Error

module _ {D : Type 0} where
  unfoldable pub the_system : Step D UpgradeSpec ImageSource
  the_system (u, c) = follow u.spec.system (u, c)

module _ {D : Type 0} (t : Setting D) where
  -- `upgradeHook`
  unfoldable pub upgrade_hook : String → Step D UpgradeSpec (Unit {0})
  upgrade_hook name =
      let paths =
        t.cfg.cloud_init_paths
        ++ (if name == "after-upgrade"
            then pre_append_root working_dir t.cfg.cloud_init_paths
            else []) in
      or_fail (on_log (hook t.parts.run_stage t.cfg name paths))

  -- `upgradeChrootHook`
  unfoldable pub upgrade_chroot_hook : String → String → Step D UpgradeSpec (Unit {0})
  upgrade_chroot_hook name root (u, c) =
      or_fail
        (on_log (
          chroot_hook t.env t.parts.run_stage t.cfg name root (hook_binds u.spec.partitions)
            t.cfg.cloud_init_paths))
        (u, c)

  abbrev pub mount_persistent : Option PartitionRef → Step D UpgradeSpec (Unit {0})
  mount_persistent none = pure tt
  mount_persistent (some p) =
      mount_rw t.env (λ ep. ep.persistent) (λ ep p. record ep { persistent = p })

  -- The state partition, of a recovery system, or the recovery partition.
  abbrev pub mount_other : Bool → Step D UpgradeSpec (Unit {0})
  mount_other true = mount_rw t.env (λ ep. ep.state) (λ ep p. record ep { state = p })
  mount_other false = mount_rw t.env (λ ep. ep.recovery) (λ ep p. record ep { recovery = p })

  unfoldable pub mount_remaining : Step D UpgradeSpec (Unit {0})
  mount_remaining (u, c) = mount_persistent u.spec.partitions.persistent (u, c)

  -- `mountRWPartitions`
  unfoldable pub mount_rw_partitions : Step D UpgradeSpec (Unit {0})
  mount_rw_partitions = do
    mount_rw t.env (λ ep. ep.boot) (λ ep p. record ep { boot = p })
    recovery_mode ← call (on_log (is_recovery_mode t.env))
    mount_other recovery_mode
    mount_remaining

  unfoldable pub prelude : Step D UpgradeSpec (Unit {0})
  prelude = do mount_rw_partitions; init t.snapper; upgrade_hook "before-upgrade"

  unfoldable pub mirror : String → ImageSource → Step D UpgradeSpec (Unit {0})
  mirror dir system (u, c) =
      let ((e, source), w) = t.parts.mirror_root dir system u.log in
      (
        elim e [ none ↦ ok tt | some failure ↦ err failure ],
        (record u { log = w; spec = record u.spec { system = some source } }, c),
      )

  unfoldable pub deploy : Step D UpgradeSpec (Unit {0})
  deploy = do snapshot ← the_snapshot; system ← the_system; mirror snapshot.work_dir system

  unfoldable pub grub_labels : Step D UpgradeSpec (List (String × String))
  grub_labels (u, c) = (get_grub_labels u.spec.partitions, (u, c))

  unfoldable pub install_bootloader : Step D UpgradeSpec (Unit {0})
  install_bootloader = do
    snapshot ← the_snapshot
    boot ← boot_dir
    or_fail (on_log (t.parts.install_grub snapshot.work_dir boot))

  -- `refineDeployment`
  unfoldable pub refine_deployment : Step D UpgradeSpec (Unit {0})
  refine_deployment = do
    λ (u, c). (if u.spec.bootloader_upgrade then install_bootloader else pure tt) (u, c)
    upgrade_chroot_hook "after-upgrade-chroot" working_dir
    upgrade_hook "after-upgrade"
    labels ← grub_labels
    boot ← boot_dir
    or_fail (on_log (t.parts.set_persistent_variables (join boot "grub_oem_env") labels))
    or_fail (on_log (t.parts.set_default_entry boot working_dir t.parts.grub_def_entry))
