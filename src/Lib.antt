-- ===== src/Lib.antt =====
-- A model of the core of elemental-toolkit, which installs, upgrades and resets operating systems
-- from images, and the theorems on it. Paths are from the repository's root.
--
-- Parts. The actions (pkg/action) complete a specification (pkg/types/config.go), order the partitions
-- of the disk for creation and for mounting, create them through a partitioner (pkg/partitioner) and
-- run programs under the new root (pkg/utils/chroot.go), with clean-up jobs on a stack for all that
-- has to be undone (pkg/utils/cleanstack.go).
--
-- - Base: shared names, lists, texts, the results of Go calls (a value, an error or a panic), and the
--   order of strings with sorting.
-- - CleanStack: pkg/utils/cleanstack.go. A stack of closures over a state; `push`, `push_error_only`,
--   `push_success_only`, `pop` and `cleanup` are the methods. Cleanup's loop runs on the count of jobs,
--   which each round lowers by one. The package of multierrors is a parameter.
-- - Partitions: pkg/types/config.go, `PartitionList` and `ElementalPartitions`. Pointers are compared by
--   address, so a reference is an address with its partition; a nil pointer is `none`.
-- - Specs: pkg/types/config.go and pkg/types/common.go, the specifications with the fields that their
--   checks read, and the checks `Sanitize`, `SanitizeForRecoveryOnly` and `MinDiskSize`.
-- - System: the calls to the world (pkg/types/runner.go, mounter.go, fs.go, syscall.go), answered by an
--   environment from the log of all calls so far, with nothing assumed of the answers.
-- - Partitioner: pkg/partitioner. Parted is parted.go, Gdisk is sgdisk.go, Disk is disk.go,
--   Mkfs is mkfs.go.
--   Sizes and sectors are 64-bit unsigned integers with the wrap-around written out. The print out of a
--   table is read by a parameter. `FindPartitionDevice` looks 11 times, as the code does.
-- - Chroot: pkg/utils/chroot.go, for an absolute path.
-- - Elemental: pkg/elemental/elemental.go, partitions mounted and unmounted; Elemental/Layout: a disk
--   partitioned and formatted. A partition changed through its pointer is given back. The search for a
--   device by its label runs on the number of attempts. Elemental/Sync, Images and Deploy: SELinux labels,
--   images of file systems, the dump of a source and the deployment of a recovery system, with the copies
--   of pkg/utils/common.go.
-- - Links: `ResolveLink` of pkg/utils/common.go, on the depth that the caller gives.
-- - Snapshotter: pkg/types/snapshotter.go, the interface, a record of operations over a state of its own.
--   Snapshotter/LoopDevice: pkg/snapshotter/loopdevice.go, an instance of it.
--   Snapshotter/Btrfs: pkg/snapshotter/btrfs-backend.go, the volumes that btrfs prints and the snapshots
--   among them; Snapshotter/Btrfs/Create: new snapshots and their metadata;
--   Snapshotter/Btrfs/Probe: the state of a partition. The XML library and the clock are parameters.
--   Snapshotter/Volumes and Snapshotter/Volumes/Transaction: pkg/snapshotter/btrfs.go, an instance of the
--   interface over any backend of subvolumes, of which that of Snapshotter/Btrfs is one. Its closures
--   `snapshotsMount` and `snapshotsUmount` are the data that they were made of.
--   Snapshotter/Snapper: pkg/snapshotter/snapper-backend.go, the other backend. The files of variables are
--   parameters. Snapshotter/Factory: pkg/snapshotter/common.go and the constructors.
-- - InstallState: pkg/types/config.go, the record state.yaml, and its update by the upgrades. A Go map is a
--   list of its entries in the order in which a loop visits them.
-- - Actions: pkg/action. A step changes the state of the action (snapshotter, log, specification,
--   install state, snapshot) and its clean-up stack; an action is its body with the deferred clean-up.
--   Any snapshotter will do. Actions: common.go. Actions/Transaction: the calls of the snapshotter that
--   the actions share, for any specification with partitions. Actions/Upgrade: upgrade.go;
--   Actions/Recovery: upgrade-recovery.go. Actions/Deployment: what install.go and reset.go share;
--   Actions/Install with Source, Record and Run: install.go; Actions/Reset with Run: reset.go;
--   Actions/Constructors: the constructors of these actions.
--   Actions/Phases, Quiet and Bracket: the snapshotter beside the phase of its transaction (idle,
--   under way, committed, rolled back), and what a bracket of steps around a transaction leaves of it.
-- - Examples: runs at concrete data.
--
-- Not modelled: parsing of what parted and sgdisk print, the growth of a file system after an expansion,
-- logging, error codes, and the sleep between two looks for a device. Parameters: the extraction of
-- container images, the search for a kernel, downloads (`GetSource`), the stages of cloud-init, the
-- bootloader and YAML; and for the actions and snapshotters the deployment of trees, images and labels that
-- Elemental models. The actions for mount, init and image building, the reading of configuration, and the
-- command line are not modelled.
pub mod Base
pub mod CleanStack
pub mod Partitions
pub mod Specs
pub mod System
pub mod Partitioner
pub mod Chroot
pub mod Elemental
pub mod InstallState
pub mod Actions
pub mod Links
pub mod Snapshotter
pub mod Examples
