-- ===== src/Snapshotter/Btrfs.antt =====
-- pkg/snapshotter/btrfs-backend.go: snapshots as btrfs subvolumes, told apart by the output of btrfs.
pub mod Create
pub mod Probe
pub mod Found
pub mod Fresh
pub mod Cleaning
use elemental_toolkit.Base.{
  ℕ, zero, suc, ◌+◌, ◌-◌, ◌^◌, String, ◌<>◌, Bool, true, false, ◌||◌, Option, none, some, List, [],
  ◌∷◌, ◌++◌, length, take, ltb, leb, ◌==◌, nat_eq, string_eq, if◌then◌else◌,
}
use elemental_toolkit.Base.Text.{
  decimal, join, contains, trim_space, split_lines, strip_prefix, number,
}
use elemental_toolkit.Base.Order.{sort_by}
use elemental_toolkit.Base.Outcome.{Error, plain, Result, ok, err, panic}
use elemental_toolkit.Base.Proc.{Proc, pure, raise, or_fail, value_or_fail, ignored, ◌>>=◌, ◌>>◌}
use elemental_toolkit.System.{Env, Log, Act, run, mkdir_all, remove_all, read_file, write_file}
use elemental_toolkit.Snapshotter.{Snapshot}

pub record BtrfsSubvol : Type 0 where
  pub path : String
  pub id : ℕ

-- `SnapperSnapshotXML`; an element of the user data is a key with its value.
pub record SnapshotXml : Type 0 where
  pub kind : String
  pub num : ℕ
  pub date : String
  pub cleanup : String
  pub description : String
  pub user_data : List (String × String)

-- `btrfsBackend`, with a maximum that is not negative.
pub record BtrfsBackend : Type 0 where
  pub current_id : ℕ
  pub active_id : ℕ
  pub max_snapshots : ℕ

-- The XML library and the clock.
pub record Xml : Type 0 where
  pub marshal : SnapshotXml → String × Option Error
  pub unmarshal : String → SnapshotXml × Option Error
  pub now : String

unfoldable pub new_snapper_snapshot_xml : String → ℕ → String → SnapshotXml
new_snapper_snapshot_xml now id description = record {
  kind = "single";
  num = id;
  date = now;
  cleanup = "number";
  description = description;
  user_data = ((if id == 1 then "install-in-progress" else "update-in-progress"), "yes") ∷ [];
}

abbrev pub then_read : {A B : Type 0} → Option A → (A → Option B) → Option B
then_read none next = none
then_read (some a) next = next a

-- `strconv.Atoi` of digits with its error dropped.
abbrev pub capped : ℕ → ℕ
capped n = if ltb n (2 ^ 63) then n else 2 ^ 63 - 1

-- `strings.TrimPrefix` of the path.
abbrev pub below_tree : String → String
below_tree path = elim (strip_prefix "<FS_TREE>/" path) [ none ↦ path | some rest ↦ rest ]

-- A match of `^ID (\d+) gen \d+ top level \d+ path (.*)$`.
unfoldable pub parse_volume : String → Option BtrfsSubvol
parse_volume line = then_read (strip_prefix "ID " line) λ s. then_read (number s) λ (id, s).
    then_read (strip_prefix " gen " s) λ s. then_read (number s) λ (gen, s).
      then_read (strip_prefix " top level " s) λ s. then_read (number s) λ (top, s).
        then_read (strip_prefix " path " s)
          λ path. some (record { path = below_tree path; id = capped id })

abbrev pub keep_some : {A : Type 0} → Option A → List A → List A
keep_some none l = l
keep_some (some a) l = a ∷ l

unfoldable pub parse_lines : List String → List BtrfsSubvol
parse_lines [] = []
parse_lines (line ∷ rest) = keep_some (parse_volume (trim_space line)) (parse_lines rest)

-- `parseVolumes`
unfoldable pub parse_volumes : String → List BtrfsSubvol
unfolding parse_lines
parse_volumes text = parse_lines (split_lines text)

-- A match of `.snapshots/(\d+)/snapshot`, whose dot stands for any character, at the beginning and then
-- at the first place.
abbrev pub snapshot_here : String → Option ℕ
snapshot_here s = then_read (strip_prefix "snapshots/" s) λ s.
    then_read (number s) λ (id, s). then_read (strip_prefix "/snapshot" s) λ rest. some (capped id)

unfoldable pub snapshot_id : String → Option ℕ
snapshot_id String.[] = none
snapshot_id (String.◌∷◌ c s) = elim (snapshot_here s) [ some id ↦ some id | none ↦ snapshot_id s ]

-- `subvolumesListToSnapshotsIDs`
unfoldable pub subvolumes_to_ids : List BtrfsSubvol → List ℕ
subvolumes_to_ids [] = []
subvolumes_to_ids (v ∷ rest) = keep_some (snapshot_id v.path) (subvolumes_to_ids rest)

unfoldable pub find_path : String → List BtrfsSubvol → Option ℕ
find_path path [] = none
find_path path (v ∷ rest) = if contains v.path path then some v.id else find_path path rest

-- `slices.Max` of a list with a first element.
unfoldable pub greatest : ℕ → List ℕ → ℕ
greatest m [] = m
greatest m (id ∷ rest) = greatest (if ltb m id then id else m) rest

unfoldable pub without_progress : List (String × String) → List (String × String)
without_progress [] = []
without_progress ((key, value) ∷ rest) =
    if key == "update-in-progress" || key == "install-in-progress"
    then without_progress rest
    else (key, value) ∷ without_progress rest

abbrev pub snapshot_path : ℕ → String
snapshot_path id = ".snapshots/" <> decimal id <> "/snapshot"

abbrev pub info_path : ℕ → String
info_path id = ".snapshots/" <> decimal id <> "/info.xml"

-- A snapshot of the backend: only these fields are set.
abbrev pub bare_snapshot : ℕ → String → String → Snapshot
bare_snapshot id work_dir path = record {
  id = id;
  mount_point = "";
  path = path;
  work_dir = work_dir;
  label = "";
  in_progress = false;
}

module _ (env : Env) where
  -- A command of which only the error counts.
  unfoldable pub btrfs : List String → Act (Option Error)
  btrfs args w = let ((out, e), w') = run env "btrfs" args w in (e, w')

  -- `InitBrfsPartition`
  unfoldable pub init_btrfs_partition : String → Proc Log (Unit {0})
  init_btrfs_partition root = do
    or_fail (btrfs ("quota" ∷ "enable" ∷ root ∷ []))
    or_fail (btrfs ("subvolume" ∷ "create" ∷ join root "@" ∷ []))
    or_fail (btrfs ("subvolume" ∷ "create" ∷ join root "@/.snapshots" ∷ []))
    or_fail (btrfs ("qgroup" ∷ "create" ∷ "1/0" ∷ root ∷ []))

  -- `getSubvolumes`
  unfoldable pub get_subvolumes : String → Proc Log (List BtrfsSubvol)
  get_subvolumes root = do
    out ← value_or_fail (run env "btrfs" ("subvolume" ∷ "list" ∷ "-a" ∷ "--sort=path" ∷ root ∷ []))
    pure (parse_volumes (trim_space out))

  abbrev pub only_one : List ℕ → Proc Log ℕ
  only_one [] = pure 0
  only_one (id ∷ []) = pure id
  only_one (id ∷ other ∷ rest) = raise (plain "detected multiple active snapshots")

  -- `getActiveSnapshot`
  unfoldable pub get_active_snapshot : String → Proc Log ℕ
  get_active_snapshot root = do
    out ← value_or_fail (run env "btrfs" ("subvolume" ∷ "get-default" ∷ root ∷ []))
    only_one (subvolumes_to_ids (parse_volumes (trim_space out)))

  -- `ListSnapshots`: the identifiers and the active one. The method works on a copy of the backend, so
  -- that its assignment to the active one is lost.
  unfoldable pub list_snapshots : String → Proc Log (List ℕ × ℕ)
  list_snapshots root = do
    list ← get_subvolumes root
    active ← get_active_snapshot root
    pure (subvolumes_to_ids list, active)

  -- `slices.Max(list.IDs) + 1`. The source wraps to a negative number where the greatest is 2 ^ 63 - 1;
  -- the result stands for the code's where it is below 2 ^ 63.
  abbrev pub above : List ℕ → Proc Log ℕ
  above [] = raise (plain "no snapshots found, inconsistent state")
  above (id ∷ rest) = pure (greatest id rest + 1)

  unfoldable pub next_of_all : String → Proc Log ℕ
  next_of_all root = do listed ← list_snapshots root; above listed.0

  -- `computeNewID`
  unfoldable pub compute_new_id : BtrfsBackend → String → Proc Log ℕ
  compute_new_id b root = if b.active_id == 0 then pure 1 else next_of_all root

  -- `DeleteSnapshot`
  unfoldable pub delete_subvolume : String → ℕ → Proc Log (Unit {0})
  delete_subvolume root id = do
    or_fail (btrfs ("subvolume" ∷ "delete" ∷ join root (snapshot_path id) ∷ []))
    or_fail (remove_all env (join root (".snapshots/" <> decimal id)))

  unfoldable pub delete_snapshot : BtrfsBackend → String → ℕ → Proc Log (Unit {0})
  delete_snapshot b root id =
      if id == 0
      then raise (plain "invalid id, should be higher than zero")
      else if id == b.current_id
      then raise (plain "invalid id, cannot delete current snapshot")
      else delete_subvolume root id

  -- The loop of `SnapshotsCleanup` over the first identifiers of the order.
  unfoldable pub delete_first : BtrfsBackend → String → List ℕ → Proc Log (Unit {0})
  delete_first b root [] = pure tt
  delete_first b root (id ∷ rest) =
      let next = delete_snapshot b root id >> delete_first b root rest in
      if id == b.current_id then pure tt else next

  -- `SnapshotsCleanup`
  unfoldable pub snapshots_cleanup : BtrfsBackend → String → Proc Log (Unit {0})
  snapshots_cleanup b root = do
    listed ← list_snapshots root
    delete_first b root (take (length listed.0 - b.max_snapshots) (sort_by leb listed.0))

  -- `findSubvolumeByPath`
  unfoldable pub find_subvolume_by_path : String → String → Proc Log ℕ
  find_subvolume_by_path root path = do
    list ← get_subvolumes root
    elim (find_path path list) [
      | none ↦ raise (plain ("can't find subvolume '" <> path <> "'"))
      | some id ↦ pure id
    ]
