-- ===== src/Snapshotter/Volumes.antt =====
-- pkg/snapshotter/btrfs.go: the btrfs snapshotter over any backend of subvolumes.
pub mod Transaction
pub mod Commit
pub mod Left
use elemental_toolkit.Base.{
  ℕ, zero, suc, ◌+◌, ◌<◌, String, ◌<>◌, Bool, true, false, ◌||◌, Option, none, some, List, [], ◌∷◌,
  ◌++◌, ltb, ◌==◌, nat_eq, string_eq, if◌then◌else◌,
}
use elemental_toolkit.Base.Text.{decimal, join}
use elemental_toolkit.Base.Outcome.{Error, plain, Result, ok, err, panic}
use elemental_toolkit.Base.Proc.{Proc, pure, raise, or_fail, call, inside, ◌>>=◌, ◌>>◌}
use elemental_toolkit.System.{Env, Log, Act, exists, mount, unmount, not_mount_point}
use elemental_toolkit.Partitions.{Partition}
use elemental_toolkit.Snapshotter.{Snapshot}
use elemental_toolkit.Snapshotter.LoopDevice.{is_listed, is_mode, passive_of, boot_variables}
use elemental_toolkit.Snapshotter.Btrfs.{
  BtrfsBackend, Xml, snapshot_path, init_btrfs_partition, list_snapshots, delete_snapshot,
  snapshots_cleanup,
}
use elemental_toolkit.Snapshotter.Btrfs.Create.{create_new_snapshot, commit_snapshot}
use elemental_toolkit.Snapshotter.Btrfs.Probe.{BackendStat, probe}

-- `subvolumeBackend`, with a state `B` of its own.
pub record SubvolumeBackend (B : Type 0) : Type 0 where
  pub find_state : String → String → Proc (B × Log) BackendStat
  pub init_partition : String → Proc (B × Log) (Unit {0})
  pub create : String → ℕ → Proc (B × Log) Snapshot
  pub commit : String → Snapshot → Proc (B × Log) (Unit {0})
  pub list : String → Proc (B × Log) (List ℕ × ℕ)
  pub delete : String → ℕ → Proc (B × Log) (Unit {0})
  pub clean_up : String → Proc (B × Log) (Unit {0})

-- `btrfsBackend` as one. Its methods but the first do not change it.
abbrev pub btrfs_backend : Env → Xml → SubvolumeBackend BtrfsBackend
btrfs_backend env xml = record {
  find_state = probe env;
  init_partition = λ root. inside (init_btrfs_partition env root);
  create = λ root base (b, w). inside (create_new_snapshot env xml b root base) (b, w);
  commit = λ root snapshot. inside (commit_snapshot env xml root snapshot);
  list = λ root. inside (list_snapshots env root);
  delete = λ root id (b, w). inside (delete_snapshot env b root id) (b, w);
  clean_up = λ root (b, w). inside (snapshots_cleanup env b root) (b, w);
}

-- `Btrfs`: its two closures are what they were made of, nothing at first: a device and a mount point for
-- the mount, a mount point for the unmount.
pub record Btrfs (B : Type 0) : Type 0 where
  pub root_dir : String
  pub efi_dir : String
  pub active_snapshot_id : ℕ
  pub backend : B
  pub to_mount : Option (String × String)
  pub to_unmount : Option String

-- What the snapshotter calls: `MirrorData` of pkg/utils (source, target), `ApplySELinuxLabels` of
-- pkg/elemental (path, binds) and `SetPersistentVariables` of the bootloader.
pub record VolumeParts : Type 0 where
  pub mirror_data : String → String → Act (Option Error)
  pub apply_labels : String → List (String × String) → Act (Option Error)
  pub set_persistent_variables : String → List (String × String) → Act (Option Error)

module _ {B : Type 0} where
  -- A call of the backend.
  abbrev pub on_backend : {A : Type 0} → Proc (B × Log) A → Proc (Btrfs B × Log) A
  on_backend m (b, w) = let (r, (s, w')) = m (b.backend, w) in (r, (record b { backend = s }, w'))

  -- A step that sees the snapshotter beside the state partition.
  abbrev pub beside : {A : Type 0} → Proc (Btrfs B × Log) A → Proc (Partition × (Btrfs B × Log)) A
  beside m (part, s) = let (r, s') = m s in (r, (part, s'))

module _ {B : Type 0} (env : Env) (backend : SubvolumeBackend B) where
  -- `snapshotsMount` and `snapshotsUmount`
  unfoldable pub snapshots_mount : Btrfs B × Log → Option Error × (Btrfs B × Log)
  snapshots_mount (b, w) = elim b.to_mount [
    | none ↦ (none, (b, w))
    | some args ↦
        inside (mount env args.0 args.1 "btrfs" ("rw" ∷ "subvol=@/.snapshots" ∷ [])) (b, w)
  ]

  unfoldable pub snapshots_umount : Btrfs B × Log → Option Error × (Btrfs B × Log)
  snapshots_umount (b, w) = elim b.to_unmount [
    | none ↦ (none, (b, w))
    | some mount_point ↦ inside (unmount env mount_point) (b, w)
  ]

  -- `mountSnapshotsSubvolumeInSnapshot`
  unfoldable pub mount_in_snapshot : String → String → ℕ → Proc (Btrfs B × Log) (Unit {0})
  mount_in_snapshot root device id = do
    let mount_point = join (join root (snapshot_path id)) ".snapshots"
    λ (b, w). (ok tt, (record b { to_mount = some (device, mount_point) }, w))
    or_fail snapshots_mount
    λ (b, w). (ok tt, (record b { to_unmount = some mount_point }, w))

  -- `remountStatePartition`
  unfoldable pub remount_state_partition : Proc (Partition × (Btrfs B × Log)) (Unit {0})
  remount_state_partition = do
    λ (part, s). beside (or_fail (inside (unmount env part.mount_point))) (part, s)
    λ (part, s).
        beside
          (or_fail (inside (mount env part.path part.mount_point "btrfs" ("rw" ∷ "subvol=@" ∷ []))))
          (part, s)
    λ (part, (b, w)).
        beside
          (if ltb 0 b.active_snapshot_id
            then mount_in_snapshot part.mount_point part.path b.active_snapshot_id
            else pure tt)
          (part, (b, w))

  -- What a probe tells, in the snapshotter and in the state partition.
  abbrev pub noted : BackendStat → Proc (Partition × (Btrfs B × Log)) Bool
  noted stat (part, (b, w)) = (
    ok (ltb 0 stat.stat_active_id),
    (
      record part { mount_point = stat.state_mount },
      (record b { active_snapshot_id = stat.stat_active_id; root_dir = stat.root_dir }, w),
    ),
  )

  -- `isInitiated`
  unfoldable pub probe_state : Proc (Partition × (Btrfs B × Log)) Bool
  probe_state (part, s) =
      (beside (on_backend (backend.find_state part.path part.mount_point)) >>= λ stat. noted stat)
        (part, s)

  unfoldable pub is_initiated : Proc (Partition × (Btrfs B × Log)) Bool
  is_initiated (part, (b, w)) =
      (if ltb 0 b.active_snapshot_id
          then pure true
          else if b.root_dir == ""
          then probe_state
          else pure false)
        (part, (b, w))

  -- In active or passive mode.
  unfoldable pub is_running : Proc Log Bool
  is_running = do
    active ← call (is_mode env "active_mode")
    if active then pure true else call (is_mode env "passive_mode")

  -- The rest of `InitSnapshotter`, by whether the subvolumes were there.
  unfoldable pub set_up : Bool → Proc (Partition × (Btrfs B × Log)) (Unit {0})
  set_up true = do
    running ← beside (inside is_running)
    if running then pure tt else remount_state_partition
  set_up false = do
    λ (part, s). beside (on_backend (backend.init_partition part.mount_point)) (part, s)
    remount_state_partition

  -- `InitSnapshotter`
  unfoldable pub init_snapshotter : String → Proc (Partition × (Btrfs B × Log)) (Unit {0})
  init_snapshotter efi = do
    λ (part, (b, w)). (ok tt, (part, (record b { efi_dir = efi }, w)))
    initiated ← is_initiated
    set_up initiated

  -- The identifiers that the backend lists; the active one is noted.
  unfoldable pub list_and_note : Proc (Btrfs B × Log) (List ℕ)
  list_and_note = do
    found ← λ (b, w). on_backend (backend.list b.root_dir) (b, w)
    λ (b, w). (ok found.0, (record b { active_snapshot_id = found.1 }, w))

  -- `defer`: a later failure takes the place of a success.
  abbrev pub unless_err :
      {A : Type 0} → Result A → Option Error × (Btrfs B × Log) → Result A × (Btrfs B × Log)
  unless_err (ok a) (none, s) = (ok a, s)
  unless_err (ok a) (some e, s) = (err e, s)
  unless_err (err first) (e, s) = (err first, s)
  unless_err panic (e, s) = (panic, s)

  abbrev pub then_umount : {A : Type 0} → Result A × (Btrfs B × Log) → Result A × (Btrfs B × Log)
  then_umount (r, s) = unless_err r (snapshots_umount s)

  unfoldable pub list_mounted : Proc (Btrfs B × Log) (List ℕ)
  list_mounted = do or_fail snapshots_mount; λ s. then_umount (list_and_note s)

  -- `GetSnapshots`
  unfoldable pub list_active : Proc (Btrfs B × Log) (List ℕ)
  list_active (b, w) =
      let volume = join (join b.root_dir (snapshot_path b.active_snapshot_id)) ".snapshots" in
      let ((not_mnt, e), w₁) = not_mount_point env volume w in
      (if not_mnt then list_mounted else list_and_note) (b, w₁)

  unfoldable pub get_snapshots : Proc (Btrfs B × Log) (List ℕ)
  get_snapshots (b, w) =
      (if b.root_dir == ""
          then raise (
              plain
                "snapshotter not initiated yet, run 'InitSnapshotter' before calling this method")
          else if ltb 0 b.active_snapshot_id
          then list_active
          else pure [])
        (b, w)

  -- `DeleteSnapshot`
  unfoldable pub delete_in_backend : ℕ → Proc (Btrfs B × Log) (Unit {0})
  delete_in_backend id (b, w) = on_backend (backend.delete b.root_dir id) (b, w)

  unfoldable pub delete_volume : ℕ → Proc (Btrfs B × Log) (Unit {0})
  delete_volume id = do
    ids ← get_snapshots
    if is_listed id ids then delete_in_backend id else pure tt

  -- `getPassiveSnapshots`
  unfoldable pub get_passive_snapshots : Proc (Btrfs B × Log) (List ℕ)
  get_passive_snapshots = do
    ids ← get_snapshots
    λ (b, w). (ok (passive_of b.active_snapshot_id ids), (b, w))

  -- `setBootloader`
  unfoldable pub set_variables : VolumeParts → ℕ → List ℕ → Proc (Btrfs B × Log) (Unit {0})
  set_variables parts active ids (b, w) =
      or_fail
        (inside (
          parts.set_persistent_variables (join b.efi_dir "grub_oem_env") (
            boot_variables ids
            ++ (("active_snap", decimal active) ∷ ("snapshotter", "btrfs") ∷ []))))
        (b, w)

  unfoldable pub set_bootloader : VolumeParts → ℕ → Proc (Btrfs B × Log) (Unit {0})
  set_bootloader parts active = get_passive_snapshots >>= set_variables parts active
