-- ===== src/Examples/Snapshots.antt =====
-- The loop device snapshotter with two snapshots, mounts of partitions and links.
use elemental_toolkit.Base.{
  ◌+◌, ◌*◌, ◌≤◌, ◌<◌, ◌≡◌, refl, ◌≢◌, true, false, none, some, [], ◌∷◌, All, string_eq, nat_eq,
  ==_differ,
}
use elemental_toolkit.Base.Text.{
  decimal, read_decimal, join, dir, trim_space, split_lines, has_suffix, strip_prefix,
}
use elemental_toolkit.Base.Outcome.{ok}
use elemental_toolkit.System.{Env}
use elemental_toolkit.Links.{resolve_link}
use elemental_toolkit.Links.Depth.{questions, resolve_link-le}
use elemental_toolkit.Elemental.{mount_partitions}
use elemental_toolkit.Elemental.Paths.{AreCompleted, mount_partitions-AreCompleted}
use elemental_toolkit.Snapshotter.{Snapshot}
use elemental_toolkit.Snapshotter.LoopDevice.{
  LoopDevice, Parts, active_path, link_of, clean_old_snapshots, get_passive_snapshots,
  get_next_snapshot_id, get_snapshots, ids_of, scan_ids, is_snapshot_in_use, backs,
  get_active_snapshot,
}
use elemental_toolkit.Snapshotter.LoopDevice.Transaction.{
  start_transaction, close_transaction, read_active, record_active, make_room, describe,
  new_snapshot,
}
use elemental_toolkit.Snapshotter.LoopDevice.Fresh.{listed, start_transaction-IsFresh}
use elemental_toolkit.Snapshotter.LoopDevice.Commit.{commits, Atomic}
use elemental_toolkit.Snapshotter.LoopDevice.Link.{takes, Settled, close_transaction-IsAtomic}
use elemental_toolkit.Snapshotter.LoopDevice.Retention.{Cleaned, clean_old_snapshots-Cleaned}
use elemental_toolkit.Examples.Config.{efi, state}
use elemental_toolkit.Examples.Tables.{calm}
use elemental_toolkit.Base.Outcome.{Error, also, alone}
use elemental_toolkit.Base.{Option, arith}

-- A world with the snapshots 1 and 2.
abbrev pub two_snapshots : Env
two_snapshots = record calm { exists = λ w path. true }

abbrev pub tools : Parts
tools = record {
  create_image_from_tree = λ img tree w. (none, w);
  set_persistent_variables = λ file vars w. (none, w);
}

abbrev pub device : LoopDevice
device = record {
  root_dir = "/run/elemental/state";
  efi_dir = "/run/elemental/efi";
  current_snapshot_id = 0;
  active_snapshot_id = 2;
  legacy_clean = false;
  max_snaps = 2;
  size = 0;
  fs = "ext2";
}

abbrev third : Snapshot
third = record {
  id = 3;
  mount_point = "/run/elemental/workingtree";
  path = "/run/elemental/state/.snapshots/3/snapshot.img";
  work_dir = "/run/elemental/state/.snapshots/3/snapshot.workDir";
  label = "EL_SNAP3";
  in_progress = true;
}

clean_old_snapshots-Cleaned_example :
    Cleaned two_snapshots device
      (clean_old_snapshots two_snapshots device [])
      (get_passive_snapshots two_snapshots device.root_dir [])
clean_old_snapshots-Cleaned_example = clean_old_snapshots-Cleaned two_snapshots device []

other_link : link_of 3 ≢ link_of 2
unfolding decimal
other_link = ==_differ (link_of 3) (link_of 2) (unfold string_eq in refl)

link_apart :
    (takes third.work_dir (active_path device.root_dir) ≡ false)
    × (takes (dir third.path) (active_path device.root_dir) ≡ false)
unfolding strip_prefix join dir has_suffix string_eq nat_eq
link_apart = (refl, refl)

close_transaction-IsAtomic_example :
    let path = active_path device.root_dir in
    let closed = close_transaction two_snapshots tools third (device, []) in
    Atomic path (link_of 3) (commits path (link_of 3) []) third closed
    × Settled two_snapshots tools device
        (link_of 3)
        (some "2/snapshot.img")
        (some "2/snapshot.img")
        closed
close_transaction-IsAtomic_example =
    close_transaction-IsAtomic two_snapshots tools device (some "2/snapshot.img") third refl
      (λ img tree w. (refl, refl)) (λ file vars w. refl) other_link link_apart.0 link_apart.1 []

resolve_link-le_example :
    questions
      (resolve_link two_snapshots "/run/elemental/state/.snapshots/active" "/run/elemental/state" 4
        []).1
    ≤ questions [] + 2 * 4 + 1
resolve_link-le_example =
    resolve_link-le two_snapshots "/run/elemental/state/.snapshots/active" "/run/elemental/state" 4
      []

abbrev pub append : Option Error → Error → Error
append none e = alone e
append (some errs) e = also errs e

mount_partitions-AreCompleted_example :
    AreCompleted two_snapshots
      (efi ∷ state ∷ [])
      (mount_partitions two_snapshots append ("ro" ∷ []) (efi ∷ state ∷ []) []).0.1
mount_partitions-AreCompleted_example =
    mount_partitions-AreCompleted two_snapshots append ("ro" ∷ []) (efi ∷ state ∷ []) []

began :
    start_transaction two_snapshots tools (device, [])
    ≡ (ok third, (start_transaction two_snapshots tools (device, [])).1)
unfolding start_transaction get_next_snapshot_id get_snapshots ids_of scan_ids is_snapshot_in_use
    backs read_active get_active_snapshot record_active make_room describe new_snapshot decimal
    read_decimal join trim_space split_lines has_suffix string_eq
began = refl

start_transaction-IsFresh_example :
    (third.in_progress ≡ true) × All (λ i. i < third.id) (listed two_snapshots device.root_dir [])
start_transaction-IsFresh_example =
    start_transaction-IsFresh two_snapshots tools (device, []) third
      (start_transaction two_snapshots tools (device, [])).1 began (omega arith)
