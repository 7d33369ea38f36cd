-- ===== src/Snapshotter/Volumes/Transaction.antt =====
-- pkg/snapshotter/btrfs.go: the transaction of the btrfs snapshotter, and the snapshotter as the interface
-- that the actions use.
use elemental_toolkit.Base.{
  ℕ, String, ◌<>◌, true, [], ◌∷◌, ltb, ◌==◌, nat_eq, string_eq, if◌then◌else◌,
}
use elemental_toolkit.Base.Text.{join}
use elemental_toolkit.Base.Outcome.{plain, Result, ok, err, panic}
use elemental_toolkit.Base.Proc.{
  Proc, pure, raise, or_fail, call, inside, ignored, on_error, join_error, ◌>>=◌, ◌>>◌,
}
use elemental_toolkit.System.{Env, Log, mkdir_all, remove_all, exists, mount, unmount}
use elemental_toolkit.Specs.{ImageSource}
use elemental_toolkit.Elemental.{error_of}
use elemental_toolkit.Snapshotter.{Snapshot, Snapshotter}
use elemental_toolkit.Snapshotter.Volumes.{
  SubvolumeBackend, Btrfs, VolumeParts, on_backend, snapshots_umount, init_snapshotter,
  get_snapshots, delete_volume, set_bootloader,
}

abbrev pub working_dir : String
working_dir = "/run/elemental/workingtree"

module _ {B : Type 0} (env : Env) (backend : SubvolumeBackend B) where
  -- The bind mount: where it fails, the snapshot 0 is deleted, since `newID` is never set.
  unfoldable pub bind_work_dir : Snapshot → Proc (Btrfs B × Log) Snapshot
  bind_work_dir snapshot = do
    or_fail (inside (mkdir_all env working_dir))
    on_error (or_fail (inside (mount env snapshot.work_dir working_dir "bind" ("bind" ∷ []))))
        (delete_volume env backend 0)
    pure (record snapshot { mount_point = working_dir; in_progress = true })

  unfoldable pub create_snapshot : Proc (Btrfs B × Log) Snapshot
  create_snapshot (b, w) = on_backend (backend.create b.root_dir b.active_snapshot_id) (b, w)

  -- `StartTransaction`
  unfoldable pub start_transaction : Proc (Btrfs B × Log) Snapshot
  start_transaction (b, w) =
      (if b.root_dir == ""
          then raise (plain "uninitialized snapshotter")
          else create_snapshot >>= bind_work_dir)
        (b, w)

  -- `CloseTransactionOnError`: the error of the first unmount is lost.
  unfoldable pub drop_snapshot : ℕ → Proc (Btrfs B × Log) (Unit {0})
  drop_snapshot id s =
      let (r, s') = delete_volume env backend id s in join_error r (snapshots_umount env backend s')

  unfoldable pub close_on_error : Snapshot → Proc (Btrfs B × Log) (Unit {0})
  close_on_error snapshot = do
    if snapshot.in_progress
        then ignored (or_fail (inside (unmount env snapshot.mount_point)))
        else pure tt
    drop_snapshot snapshot.id

  module _ (parts : VolumeParts) where
    -- The first snapshot is worked on in place.
    unfoldable pub sync_work_dir : Snapshot → Proc (Btrfs B × Log) (Unit {0})
    sync_work_dir snapshot = do
      or_fail (inside (parts.mirror_data snapshot.work_dir snapshot.path))
      or_fail (inside (remove_all env snapshot.work_dir))

    unfoldable pub label_volume : Snapshot → Proc (Btrfs B × Log) (Unit {0})
    label_volume snapshot (b, w) =
        or_fail
          (inside
            (parts.apply_labels snapshot.path ((join b.root_dir ".snapshots", "/.snapshots") ∷ [])))
          (b, w)

    unfoldable pub commit_in_backend : Snapshot → Proc (Btrfs B × Log) (Unit {0})
    commit_in_backend snapshot (b, w) = on_backend (backend.commit b.root_dir snapshot) (b, w)

    unfoldable pub clean_backend : Proc (Btrfs B × Log) (Unit {0})
    clean_backend (b, w) = on_backend (backend.clean_up b.root_dir) (b, w)

    -- The steps before the commit.
    unfoldable pub seal : Snapshot → Proc (Btrfs B × Log) (Unit {0})
    seal snapshot = do
      or_fail (inside (mkdir_all env (join snapshot.work_dir ".snapshots")))
      or_fail (inside (unmount env snapshot.mount_point))
      if ltb 1 snapshot.id then sync_work_dir snapshot else pure tt
      label_volume snapshot

    -- The steps after it, whose errors are dropped.
    unfoldable pub publish : Snapshot → Proc (Btrfs B × Log) (Unit {0})
    publish snapshot = do
      ignored clean_backend
      ignored (set_bootloader env backend parts snapshot.id)

    unfoldable pub close_body : Snapshot → Proc (Btrfs B × Log) (Unit {0})
    close_body snapshot = do seal snapshot; commit_in_backend snapshot; publish snapshot

    -- The deferred function: a snapshot that was not committed is deleted, then the unmount.
    abbrev pub settle :
        Snapshot → Result (Unit {0}) × (Btrfs B × Log) → Result (Unit {0}) × (Btrfs B × Log)
    settle snapshot (ok done, s) = join_error (ok done) (snapshots_umount env backend s)
    settle snapshot (err e, s) =
        let (dropped, s') = delete_volume env backend snapshot.id s in
        join_error (err e) (snapshots_umount env backend s')
    settle snapshot (panic, s) = join_error panic (snapshots_umount env backend s)

    -- `CloseTransaction`; the snapshot stays marked as in progress.
    unfoldable pub close_transaction : Snapshot → Proc (Btrfs B × Log) (Unit {0})
    close_transaction snapshot s =
        if snapshot.in_progress
        then settle snapshot (close_body snapshot s)
        else (err (plain "given snapshot is not in progress"), s)

    -- `SnapshotToImageSource`
    unfoldable pub volume_source : Snapshot → Proc Log ImageSource
    volume_source snapshot = do
      there ← call (exists env snapshot.path)
      if there
          then pure (record { source = snapshot.path; src_type = "dir"; digest = "" })
          else raise (plain ("snapshot path does not exist: " <> snapshot.path <> "."))

    abbrev pub btrfs : Snapshotter (Btrfs B)
    btrfs = record {
      init_snapshotter = init_snapshotter env backend;
      start_transaction = start_transaction;
      close_transaction = λ snapshot. close_transaction snapshot >> pure snapshot;
      close_transaction_on_error =
          λ snapshot s. let (r, s') = close_on_error snapshot s in (error_of r, s');
      get_snapshots = get_snapshots env backend;
      snapshot_to_image_source = λ snapshot. inside (volume_source snapshot);
    }
