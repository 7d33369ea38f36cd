-- ===== src/Examples/Btrfs.antt =====
-- The btrfs backend with two snapshots, the second of them active.
use elemental_toolkit.Base.{
  ℕ, ◌<◌, ◌==◌, String, ◌≡◌, refl, false, Option, none, List, [], ◌∷◌, All, nat_eq, string_eq,
  arith,
}
use elemental_toolkit.Base.Text.{number, strip_prefix, take_digits, trim_space, split_lines}
use elemental_toolkit.Base.Outcome.{Error, ok}
use elemental_toolkit.System.{Env}
use elemental_toolkit.Snapshotter.Btrfs.{
  BtrfsBackend, parse_volumes, parse_lines, parse_volume, snapshot_id, subvolumes_to_ids, greatest,
  get_subvolumes, get_active_snapshot, list_snapshots, next_of_all, compute_new_id,
  snapshots_cleanup,
}
use elemental_toolkit.Snapshotter.Btrfs.Cleaning.{CleanedUp, snapshots_cleanup-CleanedUp}
use elemental_toolkit.Base.Text.{decimal, join, has_suffix}
use elemental_toolkit.Snapshotter.{Snapshot}
use elemental_toolkit.Snapshotter.Btrfs.{btrfs, Xml, snapshot_path, new_snapper_snapshot_xml}
use elemental_toolkit.Snapshotter.Btrfs.Create.{create_new_snapshot, make_next, write_xml}
use elemental_toolkit.Snapshotter.Btrfs.Fresh.{create_new_snapshot-IsFresh}
use elemental_toolkit.Base.{true, if◌then◌else◌}
use elemental_toolkit.Base.Text.{fields, last_index}
use elemental_toolkit.Snapshotter.LoopDevice.{is_mode}
use elemental_toolkit.Snapshotter.Btrfs.Probe.{
  BackendStat, probe, probe_active, probe_mounts, find_state_mount, get_state_subvolumes,
  state_subvolumes, read_mounts, sub_volume, place_mount,
}
use elemental_toolkit.Snapshotter.Btrfs.Found.{Answered, probe-Answered}
use elemental_toolkit.Snapshotter.Snapper.{
  SnapperBackend, root_args, add_entries, parse_entry, list_with_snapper,
}
use elemental_toolkit.Snapshotter.Snapper.Listing.{Lists, list_with_snapper-Lists}
use elemental_toolkit.Base.{◌++◌}
use elemental_toolkit.Examples.Tables.{calm}

-- The default subvolume, and the list of all.
abbrev answer : List String → String × Option Error
answer [] = ("", none)
answer (a ∷ []) = ("", none)
answer (a ∷ b ∷ []) = ("", none)
answer (a ∷ b ∷ c ∷ []) = ("ID 260 gen 20 top level 259 path @/.snapshots/2/snapshot", none)
answer (a ∷ b ∷ c ∷ d ∷ rest) = (
  "ID 256 gen 9 top level 5 path <FS_TREE>/@\nID 258 gen 9 top level 256 path <FS_TREE>/@/.snapshots\nID 259 gen 13 top level 258 path @/.snapshots/1/snapshot\nID 260 gen 20 top level 259 path @/.snapshots/2/snapshot\n",
  none,
)

abbrev two_subvolumes : Env
two_subvolumes = record calm { run = λ w cmd args. answer args }

abbrev backend : BtrfsBackend
backend = record { current_id = 2; active_id = 2; max_snapshots = 1 }

-- The same on a running system.
abbrev mounts : String
mounts = "/dev/sda2[/@] /run/initramfs/elemental-state\n/dev/sda2[/@/.snapshots/2/snapshot] /\n"

abbrev running_system : Env
running_system = record calm {
  run = λ w cmd args. if cmd == "findmnt" then (mounts, none) else answer args;
  exists = λ w path. true;
}

-- A library of XML that writes nothing and reads nothing.
abbrev xml : Xml
xml = record {
  marshal = λ snapshot. ("<snapshot/>", none);
  unmarshal = λ text. (new_snapper_snapshot_xml "2024-05-01 10:00:00" 3 "", none);
  now = "2024-05-01 10:00:00";
}

abbrev third : Snapshot
third = record {
  id = 3;
  mount_point = "";
  path = "/mnt/.snapshots/3/snapshot";
  work_dir = "/mnt/.snapshots/3/snapshot.workDir";
  label = "";
  in_progress = false;
}

created :
    create_new_snapshot two_subvolumes xml backend "/mnt" 2 []
    ≡ (ok third, (create_new_snapshot two_subvolumes xml backend "/mnt" 2 []).1)
unfolding compute_new_id next_of_all list_snapshots get_subvolumes get_active_snapshot parse_volumes
    parse_lines parse_volume snapshot_id subvolumes_to_ids greatest strip_prefix number take_digits
    trim_space split_lines string_eq nat_eq create_new_snapshot make_next write_xml decimal join
    has_suffix btrfs
created = refl

active : (backend.active_id == 0) ≡ false
unfolding nat_eq
active = refl

create_new_snapshot-IsFresh_example :
    (third.path ≡ join "/mnt" (snapshot_path 3))
    × (listed : List ℕ × ℕ) × ((list_snapshots two_subvolumes "/mnt" []).0 ≡ ok listed)
    × All (λ id. id < 3) listed.0
create_new_snapshot-IsFresh_example =
    create_new_snapshot-IsFresh two_subvolumes xml backend "/mnt" 2 [] third
      (create_new_snapshot two_subvolumes xml backend "/mnt" 2 []).1 active created (omega arith)

snapshots_cleanup-CleanedUp_example :
    CleanedUp two_subvolumes backend "/mnt"
      (snapshots_cleanup two_subvolumes backend "/mnt" [])
      (list_snapshots two_subvolumes "/mnt" [])
snapshots_cleanup-CleanedUp_example = snapshots_cleanup-CleanedUp two_subvolumes backend "/mnt" []

abbrev stat : BackendStat
stat = record {
  stat_active_id = 2;
  stat_current_id = 2;
  root_dir = "/";
  state_mount = "/run/initramfs/elemental-state";
}

abbrev fresh : BtrfsBackend
fresh = record { current_id = 0; active_id = 0; max_snapshots = 1 }

probed :
    probe running_system "/dev/sda2" "/mnt" (fresh, [])
    ≡ (ok stat, (backend, (probe running_system "/dev/sda2" "/mnt" (fresh, [])).1.1))
unfolding probe probe_active probe_mounts find_state_mount get_state_subvolumes state_subvolumes
    read_mounts sub_volume place_mount fields last_index is_mode get_subvolumes get_active_snapshot
    parse_volumes parse_lines parse_volume snapshot_id subvolumes_to_ids strip_prefix number
    take_digits trim_space split_lines string_eq nat_eq
probed = refl

probe-Answered_example : Answered running_system "/dev/sda2" "/mnt" [] fresh stat backend
probe-Answered_example =
    probe-Answered running_system "/dev/sda2" "/mnt" fresh [] stat backend
      (probe running_system "/dev/sda2" "/mnt" (fresh, [])).1.1 probed

-- The running system, a snapshot before the active one, and the active one.
abbrev three_entries : Env
three_entries = record calm { run = λ w cmd args. ("0,no,no\n1,no,yes\n2,yes,no\n", none) }

abbrev running : SnapperBackend
running = record {
  current_id = 1;
  active_id = 2;
  max_snapshots = 4;
  btrfs = record { current_id = 1; active_id = 2; max_snapshots = 4 };
}

list_with_snapper-Lists_example :
    Lists
      (three_entries.run [] "snapper" (
        root_args running "/"
        ++ ("--csvout" ∷ "list" ∷ "--columns" ∷ "number,default,active" ∷ []))).1
      (list_with_snapper three_entries running "/" []).0
list_with_snapper-Lists_example = list_with_snapper-Lists three_entries running "/" []

lists_two : (list_with_snapper three_entries running "/" []).0 ≡ ok (1 ∷ 2 ∷ [], 2)
unfolding list_with_snapper add_entries parse_entry number split_lines trim_space strip_prefix
    root_args string_eq nat_eq
lists_two = refl
