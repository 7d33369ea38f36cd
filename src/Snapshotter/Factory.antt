-- ===== src/Snapshotter/Factory.antt =====
-- pkg/snapshotter/common.go and the constructors beside it: a snapshotter by the type of its configuration.
-- pkg/types/snapshotter.go: the configuration.
use elemental_toolkit.Base.{
  ℕ, String, ◌<>◌, Bool, true, false, Option, none, some, ◌==◌, string_eq, if◌then◌else◌,
}
use elemental_toolkit.Base.Outcome.{plain, Result, ok, err, ◌>>=◌}
use elemental_toolkit.Snapshotter.LoopDevice.{LoopDevice}
use elemental_toolkit.Snapshotter.Btrfs.{BtrfsBackend}
use elemental_toolkit.Snapshotter.Volumes.{Btrfs}
use elemental_toolkit.Snapshotter.Snapper.{SnapperBackend}

-- `LoopDeviceConfig` and `BtrfsConfig`
pub record LoopDeviceConfig : Type 0 where
  pub size : ℕ
  pub fs : String

pub record BtrfsConfig : Type 0 where
  pub snapper : Bool

-- What stands behind the interface of the configuration's own part.
pub data AnyConfig : Type 0 where
  loop_device_config : LoopDeviceConfig → AnyConfig
  btrfs_config : BtrfsConfig → AnyConfig

pub record SnapshotterConfig : Type 0 where
  pub kind : String
  pub max_snaps : ℕ
  pub config : Option AnyConfig

pub data AnyBackend : Type 0 where
  plain_btrfs : BtrfsBackend → AnyBackend
  with_snapper : SnapperBackend → AnyBackend

pub data AnySnapshotter : Type 0 where
  loop_devices : LoopDevice → AnySnapshotter
  volumes : Btrfs AnyBackend → AnySnapshotter

-- `NewLoopDeviceConfig` and `NewBtrfsConfig`
abbrev pub new_loop_device_config : LoopDeviceConfig
new_loop_device_config = record { size = 0; fs = "ext2" }

abbrev pub new_btrfs_config : BtrfsConfig
new_btrfs_config = record { snapper = true }

unfoldable pub loop_device_config_of : Option AnyConfig → Result LoopDeviceConfig
loop_device_config_of none = ok new_loop_device_config
loop_device_config_of (some (loop_device_config c)) = ok c
loop_device_config_of (some (btrfs_config c)) = err (plain "failed casting LoopDeviceConfig type")

unfoldable pub btrfs_config_of : Option AnyConfig → Result BtrfsConfig
btrfs_config_of none = ok new_btrfs_config
btrfs_config_of (some (btrfs_config c)) = ok c
btrfs_config_of (some (loop_device_config c)) = err (plain "failed casting BtrfsConfig type")

-- `newBtrfsBackend`, `newSnapperBackend` and `NewSubvolumeBackend`
abbrev pub new_btrfs_backend : ℕ → BtrfsBackend
new_btrfs_backend max_snaps = record { current_id = 0; active_id = 0; max_snapshots = max_snaps }

abbrev pub new_snapper_backend : ℕ → SnapperBackend
new_snapper_backend max_snaps = record {
  current_id = 0;
  active_id = 0;
  max_snapshots = max_snaps;
  btrfs = new_btrfs_backend max_snaps;
}

unfoldable pub new_subvolume_backend : BtrfsConfig → ℕ → AnyBackend
new_subvolume_backend config max_snaps =
    if config.snapper
    then with_snapper (new_snapper_backend max_snaps)
    else plain_btrfs (new_btrfs_backend max_snaps)

-- `newLoopDeviceSnapshotter`
unfoldable pub new_loop_device : SnapshotterConfig → Result LoopDevice
new_loop_device c = do
  config ← loop_device_config_of c.config
  ok (record {
    root_dir = "";
    efi_dir = "";
    current_snapshot_id = 0;
    active_snapshot_id = 0;
    legacy_clean = false;
    max_snaps = c.max_snaps;
    size = config.size;
    fs = config.fs;
  })

unfoldable pub new_loop_device_snapshotter : SnapshotterConfig → Result LoopDevice
new_loop_device_snapshotter c =
    if c.kind == "loopdevice"
    then new_loop_device c
    else err (plain ("invalid snapshotter type ('" <> c.kind <> "'), must be of 'loopdevice' type"))

-- `newBtrfsSnapshotter`
unfoldable pub new_btrfs : SnapshotterConfig → Result (Btrfs AnyBackend)
new_btrfs c = do
  config ← btrfs_config_of c.config
  ok (record {
    root_dir = "";
    efi_dir = "";
    active_snapshot_id = 0;
    backend = new_subvolume_backend config c.max_snaps;
    to_mount = none;
    to_unmount = none;
  })

unfoldable pub new_btrfs_snapshotter : SnapshotterConfig → Result (Btrfs AnyBackend)
new_btrfs_snapshotter c =
    if c.kind == "btrfs"
    then new_btrfs c
    else err (plain ("invalid snapshotter type ('" <> c.kind <> "'), must be of 'btrfs' type"))

-- `NewSnapshotter` with the two factories.
unfoldable pub loop_device_factory : SnapshotterConfig → Result AnySnapshotter
loop_device_factory c = do l ← new_loop_device_snapshotter c; ok (loop_devices l)

unfoldable pub btrfs_factory : SnapshotterConfig → Result AnySnapshotter
btrfs_factory c = do b ← new_btrfs_snapshotter c; ok (volumes b)

unfoldable pub new_snapshotter : SnapshotterConfig → Result AnySnapshotter
new_snapshotter c =
    if c.kind == "loopdevice"
    then loop_device_factory c
    else if c.kind == "btrfs"
    then btrfs_factory c
    else err (plain ("unsupported snapshotter type: " <> c.kind))
