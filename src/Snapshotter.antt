-- ===== src/Snapshotter.antt =====
-- pkg/types/snapshotter.go and pkg/snapshotter: snapshots, and the interface that the actions use.
pub mod LoopDevice
pub mod Btrfs
pub mod Volumes
pub mod Snapper
pub mod Factory
use elemental_toolkit.Base.{ℕ, String, Bool, Option, List}
use elemental_toolkit.Base.Outcome.{Error}
use elemental_toolkit.Base.Proc.{Proc}
use elemental_toolkit.System.{Log}
use elemental_toolkit.Partitions.{Partition}
use elemental_toolkit.Specs.{ImageSource}

pub record Snapshot : Type 0 where
  pub id : ℕ
  pub mount_point : String
  pub path : String
  pub work_dir : String
  pub label : String
  pub in_progress : Bool

-- `types.Snapshotter` but for `DeleteSnapshot`, which no action calls, with a state `D` of its own. `CloseTransaction` changes the snapshot.
pub record Snapshotter (D : Type 0) : Type 0 where
  -- The EFI directory, with the state partition, whose mount point it may change.
  pub init_snapshotter : String → Proc (Partition × (D × Log)) (Unit {0})
  pub start_transaction : Proc (D × Log) Snapshot
  pub close_transaction : Snapshot → Proc (D × Log) Snapshot
  pub close_transaction_on_error : Snapshot → D × Log → Option Error × (D × Log)
  pub get_snapshots : Proc (D × Log) (List ℕ)
  pub snapshot_to_image_source : Snapshot → Proc (D × Log) ImageSource
