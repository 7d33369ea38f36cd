-- ===== src/Elemental/Layout.antt =====
-- pkg/elemental/elemental.go: the partitions of a disk are created in the install order and formatted.
use elemental_toolkit.Base.{
  ℕ, String, ◌<>◌, Option, List, [], ◌∷◌, ◌⊎◌, ◌==◌, string_eq, if◌then◌else◌,
}
use elemental_toolkit.Base.Outcome.{Error, plain, err}
use elemental_toolkit.Base.Proc.{Proc, pure, or_fail, ◌>>=◌, ◌>>◌}
use elemental_toolkit.System.{Env, Log, Act, run, exists}
use elemental_toolkit.Partitions.{Partition, PartitionList, partitions_by_install_order}
use elemental_toolkit.Partitioner.Disk.{
  Disk, Backend, parted, Table, add_partition, new_partition_table, find_partition_device,
}
use elemental_toolkit.Partitioner.Mkfs.{apply}
use elemental_toolkit.Specs.{InstallSpec}

module _ (env : Env) where
  -- `partitioner.FormatDevice`, and `FormatPartition`.
  unfoldable pub format_device : String → String → String → List String → Act (Option Error)
  format_device device file_system label opts w =
      let ((out, e), w') =
        apply env
          (record { file_system = file_system; label = label; custom_opts = opts; dev = device })
          w in
      (e, w')

  unfoldable pub format_partition : Partition → List String → Act (Option Error)
  unfolding format_device
  format_partition part opts = format_device part.path part.fs part.filesystem_label opts

  -- `WipeFsOnPartition`
  unfoldable pub wipe_fs_on_partition : String → Act (Option Error)
  wipe_fs_on_partition device w =
      let ((out, e), w') = run env "wipefs" ("--all" ∷ device ∷ []) w in (e, w')

-- `NewDisk` as this file calls it.
unfoldable pub new_disk : String → Disk
new_disk device = record {
  device = device;
  sector_s = 0;
  last_s = 0;
  parts = [];
  label = "";
  part_backend = parted;
}

module _ (env : Env) (read_table : Backend → String → Error ⊎ Table) where
  unfoldable pub add : Partition → Proc (Disk × Log) ℕ
  add part (dev, w) =
      let ((r, dev'), w') =
        add_partition env read_table dev part.size part.fs part.name part.flags w in
      (r, (dev', w'))

  unfoldable pub find : ℕ → Proc (Disk × Log) String
  find n (dev, w) = let (r, w') = find_partition_device env dev n w in (r, (dev, w'))

  unfoldable pub format_or_wipe : Partition → String → Proc (Disk × Log) (Unit {0})
  format_or_wipe part part_dev = or_fail λ (dev, w).
      let (e, w') =
        (if part.fs == ""
          then wipe_fs_on_partition env part_dev w
          else format_device env part_dev part.fs part.filesystem_label [] w) in
      (e, (dev, w'))

  -- `createAndFormatPartition`: the partition with its path, which is set at the end.
  unfoldable pub create_and_format_partition : Partition → Proc (Disk × Log) Partition
  unfolding add find format_or_wipe
  create_and_format_partition part = do
    num ← add part
    part_dev ← find num
    format_or_wipe part part_dev
    pure (record part { path = part_dev })

  -- `createPartitions`: the partitions that were created, up to the first failure.
  unfoldable pub create_partitions : PartitionList → Proc (Disk × Log) PartitionList
  create_partitions [] = pure []
  create_partitions (p ∷ rest) = do
    part ← create_and_format_partition p.value
    others ← create_partitions rest
    pure (record p { value = part } ∷ others)

  -- `PartitionAndFormatDevice`
  unfoldable pub new_table : String → Proc (Disk × Log) (Unit {0})
  new_table label = or_fail λ (dev, w).
      let (((out, e), dev'), w') = new_partition_table env read_table dev label w in (e, (dev', w'))

  unfoldable pub partition_and_format_device : InstallSpec → Proc Log PartitionList
  partition_and_format_device i w =
      let (there, w₁) = exists env i.target w in
      let (r, (dev, w₂)) =
        (do
          new_table i.part_table
          create_partitions (partitions_by_install_order i.partitions i.extra_partitions []))
          (new_disk i.target, w₁) in
      if there then (r, w₂) else (err (plain ("disk " <> i.target <> " does not exist")), w₁)
