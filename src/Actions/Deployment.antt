-- ===== src/Actions/Deployment.antt =====
-- pkg/action/install.go and reset.go: the steps that the two actions share, from mounted partitions to a
-- deployed system that can boot. pkg/elemental/elemental.go: the cloud-init files.
pub mod Steady
use elemental_toolkit.Base.{
  ℕ, suc, ◌+◌, String, ◌<>◌, Bool, true, false, Option, none, some, List, [], ◌∷◌, ◌++◌, map, ◌⊎◌,
  ◌==◌, nat_eq, string_eq, if◌then◌else◌,
}
use elemental_toolkit.Base.Text.{join, decimal}
use elemental_toolkit.Base.Outcome.{Error, Result, ok, err, panic}
use elemental_toolkit.Base.Proc.{Proc, pure, or_fail, ◌>>=◌, ◌>>◌}
use elemental_toolkit.System.{Log, Act}
use elemental_toolkit.CleanStack.{CleanFunc, push}
use elemental_toolkit.Partitions.{
  PartitionRef, PartitionList, ElementalPartitions, partitions_by_mount_point, get_config_storage,
}
use elemental_toolkit.Partitioner.Disk.{Backend, Table}
use elemental_toolkit.Elemental.{mount_partitions, unmount_partitions}
use elemental_toolkit.Specs.{ImageSource, InstallSpec, ResetSpec}
use elemental_toolkit.Actions.{
  ActionState, World, Step, on_log, follow, HasPartitions, set_partitions, pre_append_root, hook,
  chroot_hook,
}
use elemental_toolkit.Actions.Transaction.{working_dir, hook_binds, the_snapshot, boot_dir}
use elemental_toolkit.Actions.Upgrade.{Setting}

-- What only these actions call: `utils.GetSource` (source, target), `Chmod` of the file system,
-- `CommandExists` of the runner and what the partitioners print. `shares_source` says whether the recovery
-- system's source is the pointer of the system's.
pub record Tools : Type 0 where
  pub get_source : String → String → Act (Option Error)
  pub chmod : String → Act (Option Error)
  pub command_exists : Log → String → Bool
  pub read_table : Backend → String → Error ⊎ Table
  pub shares_source : Bool

-- The names of the hooks of an action.
pub record Stages : Type 0 where
  pub after_chroot : String
  pub after : String

-- A specification with a system to deploy.
pub record HasSystem (S : Type 0) : Type 0 where
  pub system_of : S → Option ImageSource
  pub with_system : ImageSource → S → S
  pub cloud_init_of : S → List String
  pub default_entry_of : S → String

instance abbrev pub install_system : HasSystem InstallSpec
install_system = record {
  system_of = λ spec. spec.system;
  with_system = λ source spec. record spec { system = some source };
  cloud_init_of = λ spec. spec.cloud_init;
  default_entry_of = λ spec. spec.grub_def_entry;
}

instance abbrev pub reset_system : HasSystem ResetSpec
reset_system = record {
  system_of = λ spec. spec.system;
  with_system = λ source spec. record spec { system = some source };
  cloud_init_of = λ spec. spec.cloud_init;
  default_entry_of = λ spec. spec.grub_def_entry;
}

-- Partitions that a call has changed through their pointers, put back by their addresses.
unfoldable pub renewed : PartitionList → PartitionRef → PartitionRef
renewed [] p = p
renewed (q ∷ rest) p = if q.addr == p.addr then q else renewed rest p

abbrev renewed_in : PartitionList → Option PartitionRef → Option PartitionRef
renewed_in parts none = none
renewed_in parts (some p) = some (renewed parts p)

abbrev pub renewed_all : PartitionList → ElementalPartitions → ElementalPartitions
renewed_all parts ep = record {
  bios = renewed_in parts ep.bios;
  boot = renewed_in parts ep.boot;
  oem = renewed_in parts ep.oem;
  recovery = renewed_in parts ep.recovery;
  state = renewed_in parts ep.state;
  persistent = renewed_in parts ep.persistent;
}

-- The loop of `CopyCloudConfig`, from a number on.
unfoldable pub copy_each : Tools → String → ℕ → List String → Proc Log (Unit {0})
copy_each tools path i [] = pure tt
copy_each tools path i (source ∷ rest) =
    let target = join path ("9" <> decimal i <> "_custom.yaml") in
    or_fail (tools.get_source source target)
    >> or_fail (tools.chmod target)
    >> copy_each tools path (i + 1) rest

-- `CopyCloudConfig`
unfoldable pub copy_cloud_config : Tools → String → List String → Proc Log (Unit {0})
copy_cloud_config tools path sources =
    if path == "" then pure tt else copy_each tools path 0 sources

module _ {D S : Type 0} where
  abbrev pub push_job : CleanFunc (ActionState D S) → Step D S (Unit {0})
  push_job f (u, c) = (ok tt, (u, push c f))

  -- `installHook` and `resetHook`
  unfoldable pub stage_hook : Setting D → Stages → String → Step D S (Unit {0})
  stage_hook t stages name =
      let paths =
        t.cfg.cloud_init_paths
        ++ (if name == stages.after
            then pre_append_root working_dir t.cfg.cloud_init_paths
            else []) in
      or_fail (on_log (hook t.parts.run_stage t.cfg name paths))

module _ {D S : Type 0} ⦃p : HasPartitions S⦄ (t : Setting D) where
  -- `MountPartitions` of all partitions but those that `excludes` names.
  unfoldable pub mount_all :
      (ElementalPartitions → List (Option PartitionRef)) → Step D S (Unit {0})
  mount_all excludes (u, c) =
      let ep = p.partitions_of u.spec in
      let ((e, parts), w) =
        mount_partitions t.env t.append ("rw" ∷ [])
          (partitions_by_mount_point ep false (excludes ep)) u.log in
      (
        elim e [ none ↦ ok tt | some failure ↦ err failure ],
        (record (set_partitions (renewed_all parts ep) u) { log = w }, c),
      )

  -- The clean-up job that unmounts them, by the partitions at the time when it runs.
  unfoldable pub unmount_all :
      (ElementalPartitions → List (Option PartitionRef)) → CleanFunc (ActionState D S)
  unmount_all excludes u =
      let ep = p.partitions_of u.spec in
      let (e, w) =
        unmount_partitions t.env t.append (partitions_by_mount_point ep true (excludes ep)) u.log in
      (e, record u { log = w })

  unfoldable pub mount_system :
      (ElementalPartitions → List (Option PartitionRef)) → Step D S (Unit {0})
  mount_system excludes = mount_all excludes >> push_job (unmount_all excludes)

  -- `installChrootHook` and `resetChrootHook`
  unfoldable pub stage_chroot_hook : String → String → Step D S (Unit {0})
  stage_chroot_hook name root (u, c) =
      or_fail
        (on_log (
          chroot_hook t.env t.parts.run_stage t.cfg name root (hook_binds (p.partitions_of u.spec))
            t.cfg.cloud_init_paths))
        (u, c)

  module _ ⦃y : HasSystem S⦄ where
    unfoldable pub mirror_system : String → ImageSource → Step D S (Unit {0})
    mirror_system dir system (u, c) =
        let ((e, source), w) = t.parts.mirror_root dir system u.log in
        (
          elim e [ none ↦ ok tt | some failure ↦ err failure ],
          (record u { log = w; spec = y.with_system source u.spec }, c),
        )

    unfoldable pub deploy_system : Step D S (Unit {0})
    deploy_system = do
      snapshot ← the_snapshot
      system ← λ (u, c). follow (y.system_of u.spec) (u, c)
      mirror_system snapshot.work_dir system

    unfoldable pub add_cloud_config : Tools → Step D S (Unit {0})
    add_cloud_config tools (u, c) =
        on_log
          (copy_cloud_config tools (get_config_storage (p.partitions_of u.spec))
            (y.cloud_init_of u.spec))
          (u, c)

    unfoldable pub install_grub_in : Step D S (Unit {0})
    install_grub_in = do
      snapshot ← the_snapshot
      boot ← boot_dir
      or_fail (on_log (t.parts.install_grub snapshot.work_dir boot))

    unfoldable pub set_default : String → Step D S (Unit {0})
    set_default boot (u, c) =
        or_fail (on_log (t.parts.set_default_entry boot working_dir (y.default_entry_of u.spec)))
          (u, c)

    -- `refineDeployment` of both actions.
    unfoldable pub refine_system :
        Tools → Stages → Step D S (List (String × String)) → Step D S (Unit {0})
    refine_system tools stages grub_labels = do
      add_cloud_config tools
      install_grub_in
      stage_chroot_hook stages.after_chroot working_dir
      stage_hook t stages stages.after
      labels ← grub_labels
      boot ← boot_dir
      or_fail (on_log (t.parts.set_persistent_variables (join boot "grub_oem_env") labels))
      set_default boot
