-- ===== src/Snapshotter/LoopDevice/Transaction.antt =====
-- pkg/snapshotter/loopdevice.go: the methods of `types.Snapshotter`.
use elemental_toolkit.Base.{
  ℕ, String, ◌<>◌, true, false, Option, none, some, [], ◌∷◌, ltb, if◌then◌else◌,
}
use elemental_toolkit.Base.Text.{decimal, join, dir}
use elemental_toolkit.Base.Outcome.{Error, plain, ok}
use elemental_toolkit.Base.Proc.{
  Proc, pure, raise, or_fail, call, on_error, ignored, inside, ◌>>=◌, ◌>>◌,
}
use elemental_toolkit.System.{
  Env, Log, mkdir_all, remove_all, exists, delete, symlink, hard_link, mount, unmount,
}
use elemental_toolkit.Elemental.{is_rw_mount_point}
use elemental_toolkit.Specs.{ImageSource}
use elemental_toolkit.Snapshotter.{Snapshot, Snapshotter}
use elemental_toolkit.Snapshotter.LoopDevice.{
  LoopDevice, Parts, snaps_path, snap_dir, active_path, working_img_dir, link_of, boot_variables,
  snapshot_to_image, get_snapshots, get_next_snapshot_id, get_active_snapshot,
  get_passive_snapshots, clean_old_snapshots, is_mode, clean_legacy_images,
}

module _ (env : Env) (parts : Parts) where
  -- `setBootloader`
  unfoldable pub set_bootloader : LoopDevice → Proc Log (Unit {0})
  set_bootloader l = do
    ids ← get_passive_snapshots env l.root_dir
    or_fail (parts.set_persistent_variables (join l.efi_dir "grub_oem_env") (boot_variables ids))

  -- `legacyImageToSnapsot`
  unfoldable pub link_legacy : String → ℕ → Proc (LoopDevice × Log) (Unit {0})
  link_legacy image id (l, w) =
      (do
        or_fail (inside (mkdir_all env (snap_dir l.root_dir id)))
        or_fail (inside (hard_link env image (join (snap_dir l.root_dir id) "snapshot.img"))))
        (l, w)

  unfoldable pub legacy_image_to_snapshot : String → Proc (LoopDevice × Log) (Unit {0})
  legacy_image_to_snapshot image = do
    there ← call (inside (exists env image))
    if there
        then (get_next_snapshot_id env >>= λ id. if ltb 1 id then pure tt else link_legacy image id)
        else pure tt

  -- `InitSnapshotter` behind its first two assignments: the remount of a legacy deployment, the
  -- directory and the migration.
  unfoldable pub remount_root : Proc (LoopDevice × Log) (Unit {0})
  remount_root (l, w) =
      (do
        rw_root ← call (inside (is_rw_mount_point env l.root_dir))
        if rw_root.0
            then pure tt
            else or_fail (inside (mount env "" l.root_dir "auto" ("remount" ∷ "rw" ∷ []))))
        (record l { legacy_clean = true }, w)

  unfoldable pub remount_legacy : Proc (LoopDevice × Log) (Unit {0})
  remount_legacy (l, w) =
      (do
        legacy ← call (inside (exists env (join l.root_dir "cOS")))
        if legacy then remount_root else pure tt)
        (l, w)

  unfoldable pub migrate_legacy : Proc (LoopDevice × Log) (Unit {0})
  migrate_legacy (l, w) =
      (do
        passive ← call (inside (is_mode env "passive_mode"))
        legacy_image_to_snapshot
            (join l.root_dir (if passive then "cOS/passive.img" else "cOS/active.img")))
        (l, w)

  -- `InitSnapshotter` (mount point of the state partition, EFI directory)
  unfoldable pub init_snapshotter : String → String → Proc (LoopDevice × Log) (Unit {0})
  init_snapshotter root efi = do
    λ (l, w). (ok tt, (record l { root_dir = root; efi_dir = efi }, w))
    remount_legacy
    or_fail (inside (mkdir_all env (snaps_path root)))
    λ (l, w). (if l.legacy_clean then migrate_legacy else pure tt) (l, w)

  -- `SnapshotToImageSource`
  unfoldable pub snapshot_to_image_source : Snapshot → Proc Log ImageSource
  snapshot_to_image_source snap = do
    there ← call (exists env snap.path)
    if there
        then pure (record { source = snap.path; src_type = "file"; digest = "" })
        else raise (plain ("snapshot path does not exist: " <> snap.path <> "."))

  -- The directories and the bind mount of `StartTransaction`.
  unfoldable pub make_room : ℕ → Proc (LoopDevice × Log) (Unit {0})
  make_room next (l, w) =
      let path = snap_dir l.root_dir next in
      let work_dir = join path "snapshot.workDir" in
      let undo : LoopDevice × Log → Option Error × (LoopDevice × Log) =
        inside (remove_all env path) in
      (do
        on_error (or_fail (inside (mkdir_all env path))) undo
        on_error (or_fail (inside (mkdir_all env work_dir))) undo
        on_error (or_fail (inside (mkdir_all env working_img_dir))) undo
        on_error (or_fail (inside (mount env work_dir working_img_dir "bind" ("bind" ∷ []))))
            (λ s. inside (remove_all env working_img_dir) (undo s).1))
        (l, w)

  unfoldable pub new_snapshot : String → ℕ → Snapshot
  new_snapshot root next = record {
    id = next;
    mount_point = working_img_dir;
    path = join (snap_dir root next) "snapshot.img";
    work_dir = join (snap_dir root next) "snapshot.workDir";
    label = "EL_SNAP" <> decimal next;
    in_progress = true;
  }

  unfoldable pub record_active : ℕ → Proc (LoopDevice × Log) (Unit {0})
  record_active active (l, w) = (ok tt, (record l { active_snapshot_id = active }, w))

  unfoldable pub read_active : Proc (LoopDevice × Log) ℕ
  read_active (l, w) = inside (get_active_snapshot env l.root_dir) (l, w)

  unfoldable pub describe : ℕ → Proc (LoopDevice × Log) Snapshot
  unfolding new_snapshot
  describe next (l, w) = (ok (new_snapshot l.root_dir next), (l, w))

  -- `StartTransaction`
  unfoldable pub start_transaction : Proc (LoopDevice × Log) Snapshot
  start_transaction = do
    next ← get_next_snapshot_id env
    active ← read_active
    record_active active
    make_room next
    describe next

  abbrev pub first_error : Option Error → Option Error → Option Error
  first_error none later = later
  first_error (some e) later = some e

  -- `CloseTransactionOnError` of a snapshot that is not nil.
  unfoldable pub close_transaction_on_error :
      Snapshot → LoopDevice × Log → Option Error × (LoopDevice × Log)
  close_transaction_on_error snapshot (l, w) =
      let (e₁, w₁) =
        (if snapshot.in_progress then unmount env snapshot.mount_point w else (none, w)) in
      let (e₂, w₂) = remove_all env (dir snapshot.path) w₁ in
      let (e₃, w₃) =
        (if l.legacy_clean then remove_all env (snaps_path l.root_dir) w₂ else (none, w₂)) in
      (first_error (first_error e₁ e₂) e₃, (l, w₃))

  -- What `CloseTransaction` does up to the removal of the old link.
  unfoldable pub fill_image : Snapshot → Proc (LoopDevice × Log) (Unit {0})
  fill_image snapshot (l, w) =
      (do
        or_fail (inside (unmount env snapshot.mount_point))
        or_fail
            (inside (parts.create_image_from_tree (snapshot_to_image l snapshot) snapshot.work_dir))
        or_fail (inside (remove_all env snapshot.work_dir)))
        (l, w)

  -- The change of the active link: where the new one fails, the old one is tried.
  unfoldable pub set_active : ℕ → Proc (LoopDevice × Log) (Unit {0})
  set_active id (l, w) =
      (do
        ignored (or_fail (inside (delete env (active_path l.root_dir))))
        on_error (or_fail (inside (symlink env (link_of id) (active_path l.root_dir))))
            (inside (symlink env (link_of l.active_snapshot_id) (active_path l.root_dir))))
        (l, w)

  -- What follows the change, where errors are only reported.
  unfoldable pub tidy : Proc (LoopDevice × Log) (Unit {0})
  tidy (l, w) =
      (do
        ignored (inside (clean_old_snapshots env l))
        ignored (inside (set_bootloader l))
        ignored (inside (clean_legacy_images env l)))
        (l, w)

  unfoldable pub commit : Snapshot → Proc (LoopDevice × Log) Snapshot
  commit snapshot = do
    fill_image snapshot
    set_active snapshot.id
    tidy
    pure (record snapshot { in_progress = false })

  -- `CloseTransaction`: the snapshot, which is no longer in progress.
  unfoldable pub close_transaction : Snapshot → Proc (LoopDevice × Log) Snapshot
  close_transaction snapshot =
      on_error
        (if snapshot.in_progress
          then commit snapshot
          else raise (plain "given snapshot is not in progress"))
        (close_transaction_on_error snapshot)

  -- The implementation of the interface.
  abbrev pub loop_device : Snapshotter LoopDevice
  loop_device = record {
    init_snapshotter =
        λ efi (part, s). let (r, s') = init_snapshotter part.mount_point efi s in (r, (part, s'));
    start_transaction = start_transaction;
    close_transaction = close_transaction;
    close_transaction_on_error = close_transaction_on_error;
    get_snapshots = λ (l, w). inside (get_snapshots env l.root_dir) (l, w);
    snapshot_to_image_source = λ snap. inside (snapshot_to_image_source snap);
  }
