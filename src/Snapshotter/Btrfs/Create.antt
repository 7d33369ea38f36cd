-- ===== src/Snapshotter/Btrfs/Create.antt =====
-- pkg/snapshotter/btrfs-backend.go: snapshots are created and committed, with the metadata of snapper.
use elemental_toolkit.Base.{
  ℕ, String, ◌<>◌, Option, none, some, [], ◌∷◌, ◌==◌, nat_eq, if◌then◌else◌,
}
use elemental_toolkit.Base.Text.{decimal, join}
use elemental_toolkit.Base.Outcome.{Error}
use elemental_toolkit.Base.Proc.{Proc, pure, raise, or_fail, value_or_fail, on_error, ◌>>=◌, ◌>>◌}
use elemental_toolkit.System.{Env, Log, mkdir_all, read_file, write_file}
use elemental_toolkit.Snapshotter.{Snapshot}
use elemental_toolkit.Snapshotter.Btrfs.{
  BtrfsBackend, SnapshotXml, Xml, new_snapper_snapshot_xml, without_progress, snapshot_path,
  info_path, bare_snapshot, btrfs, compute_new_id, delete_snapshot, find_subvolume_by_path,
}

module _ (env : Env) (xml : Xml) where
  -- `writeSnapperSnapshotXML`
  unfoldable pub write_xml : String → SnapshotXml → Proc Log (Unit {0})
  write_xml path snapshot =
      let (text, e) = xml.marshal snapshot in
      elim e [ some failure ↦ raise failure | none ↦ or_fail (write_file env path text) ]

  -- `loadSnapperSnapshotXML`
  abbrev pub decoded : SnapshotXml × Option Error → Proc Log SnapshotXml
  decoded (snapshot, none) = pure snapshot
  decoded (snapshot, some e) = raise e

  unfoldable pub load_xml : String → Proc Log SnapshotXml
  load_xml path = do text ← value_or_fail (read_file env path); decoded (xml.unmarshal text)

  -- `clearInProgressMetadata`
  unfoldable pub clear_in_progress_metadata : String → ℕ → Proc Log (Unit {0})
  clear_in_progress_metadata root id = do
    snapshot ← load_xml (join root (info_path id))
    write_xml (join root (info_path id))
        (record snapshot { user_data = without_progress snapshot.user_data })

  -- The subvolume of a new snapshot, and the directory to work in: `base` is the snapshot that it begins
  -- with, 0 for none.
  unfoldable pub make_first : String → ℕ → Proc Log String
  make_first root id = do
    or_fail (btrfs env ("subvolume" ∷ "create" ∷ join root (snapshot_path id) ∷ []))
    pure (join root (snapshot_path id))

  unfoldable pub make_next : BtrfsBackend → String → ℕ → ℕ → Proc Log String
  make_next b root base id =
      let work_dir = join root (".snapshots/" <> decimal id <> "/snapshot.workDir") in
      or_fail (
        btrfs env (
          "subvolume"
          ∷ "snapshot"
          ∷ join root (snapshot_path base)
          ∷ join root (snapshot_path id)
          ∷ []))
      >> on_error (or_fail (mkdir_all env work_dir)) (delete_snapshot env b root id)
      >> pure work_dir

  -- `CreateNewSnapshot`
  unfoldable pub create_new_snapshot : BtrfsBackend → String → ℕ → Proc Log Snapshot
  create_new_snapshot b root base = do
    id ← compute_new_id env b root
    or_fail (mkdir_all env (join root (".snapshots/" <> decimal id)))
    work_dir ← if base == 0 then make_first root id else make_next b root base id
    write_xml (join root (info_path id))
        (new_snapper_snapshot_xml xml.now id "first root filesystem")
    pure (bare_snapshot id work_dir (join root (snapshot_path id)))

  -- `CommitSnapshot`
  unfoldable pub commit_snapshot : String → Snapshot → Proc Log (Unit {0})
  commit_snapshot root snapshot = do
    clear_in_progress_metadata root snapshot.id
    or_fail (btrfs env ("property" ∷ "set" ∷ snapshot.path ∷ "ro" ∷ "true" ∷ []))
    volume ← find_subvolume_by_path env root (snapshot_path snapshot.id)
    or_fail (btrfs env ("subvolume" ∷ "set-default" ∷ decimal volume ∷ snapshot.path ∷ []))
