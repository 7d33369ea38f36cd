-- ===== src/Elemental.antt =====
-- pkg/elemental/elemental.go: partitions are mounted and unmounted. A method that changes a partition
-- through its pointer gives back the new value.
pub mod Layout
pub mod Paths
pub mod Sync
pub mod Images
pub mod Deploy
use elemental_toolkit.Base.{
  ℕ, zero, suc, String, ◌<>◌, Bool, true, false, not, ◌||◌, Option, none, some, List, [], ◌∷◌, ◌==◌,
  string_eq, if◌then◌else◌,
}
use elemental_toolkit.Base.Text.{contains, trim_space, split_commas}
use elemental_toolkit.Base.Outcome.{Error, plain, Result, ok, err, panic}
use elemental_toolkit.Base.Proc.{
  Proc, pure, raise, halt, or_fail, value_or_fail, call, on_error, inside, ◌>>=◌, ◌>>◌,
}
use elemental_toolkit.System.{
  Env, Log, Act, run, mkdir_all, mount, unmount, not_mount_point, all_partitions,
}
use elemental_toolkit.Partitions.{Partition, PartitionRef, PartitionList, get_by_label}
use elemental_toolkit.Specs.{Image}

abbrev has_rw : List String → Bool
has_rw [] = false
has_rw (opt ∷ rest) = opt == "rw" || has_rw rest

-- The error that a function without a result returns. The calls that it is used for do not panic.
abbrev pub error_of : Result (Unit {0}) → Option Error
error_of (err e) = some e
error_of _ = none

module _ (env : Env) where
  -- `IsMounted` of a partition that is not nil.
  unfoldable pub is_mounted : Partition → Act (Bool × Option Error)
  is_mounted part w =
      let ((not_mnt, e), w') = not_mount_point env part.mount_point w in
      if part.mount_point == ""
      then ((false, none), w)
      else (elim e [ none ↦ (not not_mnt, none) | some failure ↦ (false, some failure) ], w')

  -- `IsRWMountPoint`
  unfoldable pub is_rw_mount_point : String → Act (Bool × Option Error)
  is_rw_mount_point mount_point w =
      let ((out, e), w') = run env "findmnt" ("-fno" ∷ "OPTIONS" ∷ mount_point ∷ []) w in
      (
        elim e [
          | none ↦ (has_rw (split_commas (trim_space out)), none)
          | some failure ↦ (false, some failure)
        ],
        w',
      )

  -- The loop of `utils.GetFullDeviceByLabel`; the sleep between two rounds is left out.
  unfoldable pub get_full_device_by_label : String → ℕ → Proc Log PartitionRef
  get_full_device_by_label label zero w = (err (plain "no device found"), w)
  get_full_device_by_label label (suc attempts) w =
      let (settled, w₁) = run env "udevadm" ("settle" ∷ []) w in
      let ((parts, e), w₂) = all_partitions env w₁ in
      let again = get_full_device_by_label label attempts w₂ in
      elim e [
        | some failure ↦ (err failure, w₂)
        | none ↦ elim (get_by_label parts label) [ some part ↦ (ok part, w₂) | none ↦ again ]
      ]

  -- `utils.GetDeviceByLabel`
  unfoldable pub get_device_by_label : String → ℕ → Proc Log String
  get_device_by_label label attempts = do
    part ← get_full_device_by_label label attempts
    pure part.value.path

  -- `MountPartition`: the path that it finds stays in the partition where the mount fails.
  unfoldable pub find_path : Partition × Log → Result (Unit {0}) × (Partition × Log)
  find_path (part, w) =
      let (r, w') = get_device_by_label part.filesystem_label 10 w in
      if part.path == ""
      then elim r [
        | ok device ↦ (ok tt, (record part { path = device }, w'))
        | err e ↦ (err e, (part, w'))
        | panic ↦ (panic, (part, w'))
      ]
      else (ok tt, (part, w))

  unfoldable pub mount_partition : List String → Proc (Partition × Log) (Unit {0})
  mount_partition opts = do
    or_fail (λ (part, w). inside (mkdir_all env part.mount_point) (part, w))
    find_path
    or_fail (λ (part, w). inside (mount env part.path part.mount_point "auto" opts) (part, w))

  -- `UnmountPartition`
  unfoldable pub unmount_partition : Partition → Act (Option Error)
  unmount_partition part w =
      let ((mnt, e), w₁) = is_mounted part w in
      let gone = unmount env part.mount_point w₁ in if mnt then gone else (none, w₁)

  -- The undo of a mount: the same options as before, or no mount.
  unfoldable pub remount_ro : Partition → Act (Option Error)
  remount_ro part w =
      let (r, (part', w')) = mount_partition ("remount" ∷ "ro" ∷ []) (part, w) in (error_of r, w')

  unfoldable pub remount_rw : Proc (Partition × Log) (Act (Option Error))
  remount_rw = do
    mount_partition ("remount" ∷ "rw" ∷ [])
    λ (part, w). (ok (remount_ro part), (part, w))

  unfoldable pub mount_fresh : Proc (Partition × Log) (Act (Option Error))
  mount_fresh = do
    mount_partition ("rw" ∷ [])
    λ (part, w). (ok (unmount_partition part), (part, w))

  -- `MountRWPartition`: what undoes it. A nil partition is not mounted, and then its label is read.
  unfoldable pub mount_rw_partition : Proc (Partition × Log) (Act (Option Error))
  mount_rw_partition (part, w) =
      let ((mnt, e₁), w₁) = is_mounted part w in
      let ((rw_mounted, e₂), w₂) = is_rw_mount_point part.mount_point w₁ in
      let remounted = remount_rw (part, w₂) in
      let fresh = mount_fresh (part, w₁) in
      if mnt then (if rw_mounted then (ok (λ w'. (none, w')), (part, w₂)) else remounted) else fresh

  unfoldable pub mount_rw_pointer :
      Option PartitionRef → Proc Log (Act (Option Error) × Option PartitionRef)
  mount_rw_pointer none w = (panic, w)
  mount_rw_pointer (some p) w =
      let (r, (part, w')) = mount_rw_partition (p.value, w) in
      elim r [
        | ok umount ↦ (ok (umount, some (record p { value = part })), w')
        | err e ↦ (err e, w')
        | panic ↦ (panic, w')
      ]

  -- The flags that override those of a partition, where there are any.
  abbrev flags_of : Partition → List String → List String
  flags_of part [] = part.flags
  flags_of part (f ∷ rest) = f ∷ rest

  abbrev and_first :
      PartitionRef → (Option Error × PartitionList) × Log → (Option Error × PartitionList) × Log
  and_first p ((e, parts), w) = ((e, p ∷ parts), w)

  -- The loop of `MountPartitions` up to the first failure, with the partitions that it leaves.
  unfoldable pub mount_each : List String → PartitionList → Act (Option Error × PartitionList)
  mount_each flags [] w = ((none, []), w)
  mount_each flags (p ∷ rest) w =
      let ((mnt, e), w₁) = is_mounted p.value w in
      let (r, (part, w₂)) = mount_partition (flags_of p.value flags) (p.value, w₁) in
      let p' = record p { value = part } in
      let skipped = and_first p (mount_each flags rest w) in
      let passed = and_first p (mount_each flags rest w₁) in
      let next = and_first p' (mount_each flags rest w₂) in
      if p.value.mount_point == ""
      then skipped
      else if mnt
      then passed
      else elim (error_of r) [ some failure ↦ ((some failure, p' ∷ rest), w₂) | none ↦ next ]

module _ (env : Env) (append : Option Error → Error → Error) where
  abbrev add_error : Option Error → Option Error → Option Error
  add_error errs none = errs
  add_error errs (some e) = some (append errs e)

  -- `UnmountPartitions`, with the errors so far.
  unfoldable pub unmount_from : Option Error → PartitionList → Act (Option Error)
  unmount_from errs [] w = (errs, w)
  unmount_from errs (p ∷ rest) w =
      let (e, w') = unmount_partition env p.value w in
      let skipped = unmount_from errs rest w in
      let next = unmount_from (add_error errs e) rest w' in
      if p.value.mount_point == "" then skipped else next

  unfoldable pub unmount_partitions : PartitionList → Act (Option Error)
  unfolding unmount_from
  unmount_partitions parts = unmount_from none parts

  -- `MountPartitions`
  unfoldable pub mount_partitions : List String → PartitionList → Act (Option Error × PartitionList)
  mount_partitions flags parts w =
      let ((e, parts'), w₁) = mount_each env flags parts w in
      let (dropped, w₂) = unmount_partitions parts' w₁ in
      elim e [ none ↦ ((none, parts'), w₁) | some failure ↦ ((some failure, parts'), w₂) ]
