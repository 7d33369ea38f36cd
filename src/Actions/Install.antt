-- ===== src/Actions/Install.antt =====
-- pkg/action/install.go: a disk is partitioned, the system deployed in a first snapshot, and the recovery
-- system beside it.
pub mod Source
pub mod Record
pub mod Run
pub mod Rollback
use elemental_toolkit.Base.{
  ℕ, String, ◌<>◌, Bool, true, false, not, ◌&&◌, Option, none, some, List, [], ◌∷◌, ◌++◌, map, ◌==◌,
  string_eq, if◌then◌else◌,
}
use elemental_toolkit.Base.Text.{join, contains}
use elemental_toolkit.Base.Outcome.{Error, plain, Result, ok, err, panic}
use elemental_toolkit.Base.Proc.{Proc, pure, raise, or_fail, call, inside, ignored, ◌>>=◌, ◌>>◌}
use elemental_toolkit.System.{
  Env, Log, Act, run, mkdir_all, remove_all, exists, temp_dir, mount, unmount, write_file,
}
use elemental_toolkit.CleanStack.{push}
use elemental_toolkit.Partitions.{PartitionRef, PartitionList, ElementalPartitions}
use elemental_toolkit.Elemental.{error_of}
use elemental_toolkit.Elemental.Layout.{partition_and_format_device}
use elemental_toolkit.Specs.{Image, ImageSource, InstallSpec, to_string}
use elemental_toolkit.InstallState.{
  InstallState, PartitionState, SystemState, new_system, write_install_state,
}
use elemental_toolkit.Actions.{
  World, Step, on_log, on_device, follow, mount_point_of, log_job, is_recovery_mode,
  install_partitions, set_partitions,
}
use elemental_toolkit.Actions.Transaction.{the_snapshot, init}
use elemental_toolkit.Actions.Upgrade.{Setting, label_of}
use elemental_toolkit.Actions.Upgrade.Conclude.{with_digest}
use elemental_toolkit.Actions.Deployment.{
  Tools, Stages, renewed, renewed_all, mount_system, stage_hook, install_system,
}
use elemental_toolkit.Actions.Install.Source.{
  FromIso, source_from_iso, check_active_deployment, deactivate_devices,
}

abbrev pub stages : Stages
stages = record { after_chroot = "after-install-chroot"; after = "after-install" }

-- `GetGrubLabels` of an installation.
unfoldable pub labels_of : ElementalPartitions → Result (List (String × String))
labels_of ep = elim (label_of ep.state) [
  | panic ↦ panic
  | err e ↦ err e
  | ok state ↦ elim (label_of ep.recovery) [
    | panic ↦ panic
    | err e ↦ err e
    | ok recovery ↦ elim (label_of ep.oem) [
      | panic ↦ panic
      | err e ↦ err e
      | ok oem ↦ ok (
          ("state_label", state)
          ∷ ("recovery_label", recovery)
          ∷ ("oem_label", oem)
          ∷ elim ep.persistent [
            | none ↦ []
            | some p ↦ ("persistent_label", p.value.filesystem_label) ∷ []
          ])
    ]
  ]
]

module _ {D : Type 0} (t : Setting D) (tools : Tools) where
  abbrev pub from_iso : FromIso t.env tools × Log → Step D InstallSpec (Unit {0})
  from_iso ((source, cleaner, some failure), w) (u, c) =
      (err failure, (record u { log = w }, push c (log_job cleaner)))
  from_iso ((source, cleaner, none), w) (u, c) = (
    ok tt,
    (record u { log = w; spec = record u.spec { system = source } }, push c (log_job cleaner)),
  )

  unfoldable pub use_iso : Step D InstallSpec (Unit {0})
  use_iso (u, c) =
      if u.spec.iso == ""
      then (ok tt, (u, c))
      else from_iso (source_from_iso t.env tools u.spec.iso u.log) (u, c)

  -- The partitions of the disk, which have their paths then.
  abbrev pub laid_out :
      World D InstallSpec → Result PartitionList × Log → Result (Unit {0}) × World D InstallSpec
  laid_out (u, c) (ok parts, w) = (
    ok tt,
    (
      record u {
        log = w;
        spec = record u.spec {
          partitions = renewed_all parts u.spec.partitions;
          extra_partitions = map (renewed parts) u.spec.extra_partitions;
        };
      },
      c,
    ),
  )
  laid_out (u, c) (err e, w) = (err e, (record u { log = w }, c))
  laid_out (u, c) (panic, w) = (panic, (record u { log = w }, c))

  unfoldable pub lay_out : Step D InstallSpec (Unit {0})
  lay_out (u, c) = laid_out (u, c) (partition_and_format_device t.env tools.read_table u.spec u.log)

  -- `prepareDevice`
  unfoldable pub check_deployment : Step D InstallSpec (Unit {0})
  check_deployment = do
    active ← on_log (check_active_deployment t.env tools)
    λ (u, c).
        (if active && not u.spec.force
            then raise (
                plain "use `force` flag to run an installation over the current running deployment")
            else pure tt)
          (u, c)

  unfoldable pub format_disk : Step D InstallSpec (Unit {0})
  format_disk = do or_fail (on_log (deactivate_devices t.env tools)); lay_out

  unfoldable pub prepare_device : Step D InstallSpec (Unit {0})
  prepare_device (u, c) = (if u.spec.no_format then check_deployment else format_disk) (u, c)

  -- Everything before the transaction.
  unfoldable pub prepare : Step D InstallSpec (Unit {0})
  prepare = do
    use_iso
    prepare_device
    mount_system t (λ ep. [])
    init t.snapper
    stage_hook t stages "before-install"

  unfoldable pub grub_labels : Step D InstallSpec (List (String × String))
  grub_labels (u, c) = (labels_of u.spec.partitions, (u, c))

  -- The recovery system, in a copy of its image: of what the deployment changes, only the source that it
  -- points to stays in the specification.
  unfoldable pub deploy_copy : Bool → Image → Step D InstallSpec (Unit {0})
  deploy_copy kept image (u, c) =
      let ((e, left), w) = t.recovery.deploy image u.log in
      let recovery = record u.spec.recovery_system {
        source = if kept then left.source else u.spec.recovery_system.source;
      } in
      (
        elim e [ none ↦ ok tt | some failure ↦ err failure ],
        (record u { log = w; spec = record u.spec { recovery_system = recovery } }, c),
      )

  -- The digest that the deployment of the system has left in a source that both share.
  abbrev pub shared_source : InstallSpec → Option ImageSource
  shared_source spec =
      if tools.shares_source && spec.iso == "" then spec.system else spec.recovery_system.source

  unfoldable pub share_source : Step D InstallSpec (Unit {0})
  share_source (u, c) = (
    ok tt,
    (
      record u {
        spec = record u.spec {
          recovery_system = record u.spec.recovery_system { source = shared_source u.spec };
        };
      },
      c,
    ),
  )

  unfoldable pub reuse_system : ImageSource → Image → Step D InstallSpec (Unit {0})
  reuse_system system image = do
    snapshot ← the_snapshot
    source ← on_device (t.snapper.snapshot_to_image_source snapshot)
    deploy_copy false (record image { source = some (with_digest source system) })

  unfoldable pub choose_recovery : ImageSource → ImageSource → Step D InstallSpec (Unit {0})
  choose_recovery system source (u, c) =
      (if to_string source == to_string system
          then reuse_system system u.spec.recovery_system
          else deploy_copy true u.spec.recovery_system)
        (u, c)

  unfoldable pub deploy_recovery : Step D InstallSpec (Unit {0})
  deploy_recovery = do
    system ← λ (u, c). follow u.spec.system (u, c)
    source ← λ (u, c). follow u.spec.recovery_system.source (u, c)
    choose_recovery system source

  unfoldable pub install_recovery : Step D InstallSpec (Unit {0})
  install_recovery = do
    dir ← λ (u, c). mount_point_of u.spec.partitions.recovery (u, c)
    or_fail (on_log (mkdir_all t.env (join dir "boot")))
    share_source
    deploy_recovery

  -- `BootedFrom`, and the script that ejects the medium.
  unfoldable pub booted_from : String → Act Bool
  booted_from label w =
      let ((out, e), w₁) = run t.env "cat" ("/proc/cmdline" ∷ []) w in (contains out label, w₁)

  unfoldable pub write_eject_script : Proc Log (Unit {0})
  write_eject_script = do
    booted ← call (booted_from "cdroot")
    if booted
        then ignored (
            or_fail (
              write_file t.env "/usr/lib/systemd/system-shutdown/eject"
                "#!/bin/sh\n/usr/bin/eject -rmF"))
        else pure tt

  unfoldable pub eject : Step D InstallSpec (Unit {0})
  eject = on_log (if t.cfg.eject_cd then write_eject_script else pure tt)
