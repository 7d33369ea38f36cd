-- ===== src/Snapshotter/Btrfs/Probe.antt =====
-- pkg/snapshotter/btrfs-backend.go: the state of a partition is found by its volumes and mounts.
use elemental_toolkit.Base.{
  ℕ, ◌+◌, String, ◌<>◌, Bool, true, ◌||◌, Option, none, some, List, [], ◌∷◌, ltb, ◌==◌, nat_eq,
  string_eq, if◌then◌else◌,
}
use elemental_toolkit.Base.Text.{trim_space, split_lines, fields, last_index}
use Prim.Native.String.{slice}
use text.Mathlib.Text.{find?}
use elemental_toolkit.Base.Outcome.{plain, Result, ok, err, panic}
use elemental_toolkit.Base.Proc.{Proc, pure, raise, call, value_or_fail, inside, ◌>>=◌, ◌>>◌}
use elemental_toolkit.System.{Env, Log, run}
use elemental_toolkit.Snapshotter.LoopDevice.{is_mode}
use elemental_toolkit.Snapshotter.Btrfs.{
  BtrfsBackend, BtrfsSubvol, snapshot_id, get_subvolumes, get_active_snapshot,
}

-- `backendStat`
pub record BackendStat : Type 0 where
  pub stat_active_id : ℕ
  pub stat_current_id : ℕ
  pub root_dir : String
  pub state_mount : String

-- What `findStateMount` returns.
pub record StateMount : Type 0 where
  pub mounted_root : String
  pub mounted_state : String
  pub mounted_id : ℕ

-- The volume between `[/` and the last `]` of a source. The slice panics where the `]` comes first.
unfoldable pub sub_volume : String → Result (Option String)
sub_volume source = elim (find? source "[/") [
  | none ↦ ok none
  | some start ↦ elim (last_index b']' source) [
    | none ↦ ok none
    | some end ↦ if ltb end (start + 2) then panic else ok (some (slice source (start + 2) end))
  ]
]

unfoldable pub place_mount : String → String → StateMount → StateMount
place_mount volume target found =
    if volume == "@" then record found { mounted_state = target } else elim (snapshot_id volume) [
      | none ↦ found
      | some id ↦ record found { mounted_root = target; mounted_id = id }
    ]

abbrev pub place_volume : Result (Option String) → String → StateMount → Result StateMount
place_volume (ok none) target found = ok found
place_volume (ok (some volume)) target found = ok (place_mount volume target found)
place_volume (err e) target found = err e
place_volume panic target found = panic

abbrev pub read_mount : List String → StateMount → Result StateMount
read_mount [] found = ok found
read_mount (source ∷ []) found = ok found
read_mount (source ∷ target ∷ []) found = place_volume (sub_volume source) target found
read_mount (source ∷ target ∷ more ∷ rest) found = ok found

unfoldable pub read_mounts : List String → StateMount → Proc Log StateMount
read_mounts [] found = pure found
read_mounts (line ∷ rest) found =
    (λ w. (read_mount (fields line) found, w)) >>= λ next. read_mounts rest next

unfoldable pub state_subvolumes :
    List BtrfsSubvol
    → Option BtrfsSubvol × Option BtrfsSubvol
    → Option BtrfsSubvol × Option BtrfsSubvol
state_subvolumes [] found = found
state_subvolumes (v ∷ rest) (root, snapshots) = state_subvolumes rest (
    if v.path == "@"
    then (some v, snapshots)
    else if v.path == "@/.snapshots"
    then (root, some v)
    else (root, snapshots))

abbrev pub set_active_id : ℕ → Proc (BtrfsBackend × Log) (Unit {0})
set_active_id id (b, w) = (ok tt, (if ltb 0 id then record b { active_id = id } else b, w))

abbrev pub stat_unmounted : String → Proc (BtrfsBackend × Log) BackendStat
stat_unmounted mount_point (b, w) = (
  ok (record {
    stat_active_id = b.active_id;
    stat_current_id = 0;
    root_dir = mount_point;
    state_mount = mount_point;
  }),
  (b, w),
)

abbrev pub stat_mounted : StateMount → Proc (BtrfsBackend × Log) BackendStat
stat_mounted found (b, w) = (
  ok (record {
    stat_active_id = b.active_id;
    stat_current_id = found.mounted_id;
    root_dir = found.mounted_root;
    state_mount = found.mounted_state;
  }),
  (record b { current_id = found.mounted_id }, w),
)

module _ (env : Env) where
  abbrev pub both_found : String → StateMount → Proc Log StateMount
  both_found out found =
      if found.mounted_state == "" || found.mounted_root == ""
      then raise (plain ("could not find expected mountpoints, findmnt output: " <> out))
      else pure found

  -- `findStateMount`
  unfoldable pub find_state_mount : String → Proc Log StateMount
  find_state_mount device = do
    out ← value_or_fail (run env "findmnt" ("-lno" ∷ "SOURCE,TARGET" ∷ device ∷ []))
    found ←
        read_mounts (split_lines (trim_space out))
          (record { mounted_root = ""; mounted_state = ""; mounted_id = 0 })
    both_found out found

  -- `getStateSubvolumes`
  unfoldable pub get_state_subvolumes : String → Proc Log (Option BtrfsSubvol × Option BtrfsSubvol)
  get_state_subvolumes root = do
    list ← get_subvolumes env root
    pure (state_subvolumes list (none, none))

  unfoldable pub probe_active :
      String → Option BtrfsSubvol × Option BtrfsSubvol → Proc (BtrfsBackend × Log) (Unit {0})
  probe_active mount_point (none, snapshots) = pure tt
  probe_active mount_point (some root, none) = pure tt
  probe_active mount_point (some root, some snapshots) =
      inside (get_active_snapshot env mount_point) >>= λ id. set_active_id id

  -- In passive or active mode.
  abbrev pub is_installed : Proc Log Bool
  is_installed = do
    passive ← call (is_mode env "passive_mode")
    if passive then pure true else call (is_mode env "active_mode")

  unfoldable pub probe_mounts : String → Proc (BtrfsBackend × Log) BackendStat
  probe_mounts device = inside (find_state_mount device) >>= λ found. stat_mounted found

  -- `Probe`
  unfoldable pub probe : String → String → Proc (BtrfsBackend × Log) BackendStat
  probe device mount_point = do
    volumes ← inside (get_state_subvolumes mount_point)
    probe_active mount_point volumes
    installed ← inside is_installed
    if installed then probe_mounts device else stat_unmounted mount_point
