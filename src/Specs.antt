-- ===== src/Specs.antt =====
-- pkg/types/config.go and pkg/types/common.go: the specifications of the actions and the checks that
-- complete them before an action runs.
pub mod Install
pub mod Disk
pub mod Upgrade
use elemental_toolkit.Base.{
  ℕ, suc, ◌+◌, ◌%◌, ◌^◌, String, ◌<>◌, Bool, true, false, not, ◌&&◌, ◌||◌, Option, none, some, List,
  [], ◌∷◌, ltb, leb, ◌==◌, nat_eq, string_eq, if◌then◌else◌,
}
use elemental_toolkit.Base.Text.{decimal}
use elemental_toolkit.Base.Outcome.{plain, Result, ok, err, panic, ◌>>=◌, ◌>>◌}
use elemental_toolkit.Partitions.{
  PartitionRef, PartitionList, ElementalPartitions, set_firmware_partitions,
  partitions_by_install_order,
}

pub record ImageSource : Type 0 where
  pub source : String
  pub src_type : String
  pub digest : String

-- `ImageSource.IsEmpty`
unfoldable pub is_empty : ImageSource → Bool
is_empty i = if i.src_type == "" then true else i.source == ""

-- `ImageSource.String`
unfoldable pub to_string : ImageSource → String
unfolding is_empty
to_string i = if is_empty i then "" else i.src_type <> "://" <> i.source

-- The method called through a pointer, which panics where it is nil.
unfoldable pub source_is_empty : Option ImageSource → Result Bool
unfolding is_empty
source_is_empty none = panic
source_is_empty (some i) = ok (is_empty i)

-- Sizes are in MiB.
pub record Image : Type 0 where
  pub file : String
  pub label : String
  pub size : ℕ
  pub fs : String
  pub source : Option ImageSource
  pub mount_point : String
  pub loop_device : String

-- The rule for the label of the recovery image, which the checks of four specifications share:
-- squashfs images have none, others have a default.
unfoldable pub default_label : Image → Image
default_label img =
    if not (img.fs == "squashfs") && img.label == ""
    then record img { label = "COS_SYSTEM" }
    else if img.fs == "squashfs"
    then record img { label = "" }
    else img

-- `if i.RecoverySystem.Source.IsEmpty() { i.RecoverySystem.Source = i.System }`
unfoldable pub default_source : Image → Option ImageSource → Result Image
unfolding source_is_empty
default_source img system = do
  empty ← source_is_empty img.source
  ok (if empty then record img { source = system } else img)

unfoldable pub check : Bool → String → Result (Unit {0})
check true msg = err (plain msg)
check false msg = ok tt

-- `p == nil || p.MountPoint == ""`
unfoldable pub unmounted : Option PartitionRef → Bool
unmounted none = true
unmounted (some p) = p.value.mount_point == ""

abbrev zero_size_note : String
zero_size_note =
    ". Only one partition can have its size set to 0 which means "
    <> "that it will take all the available disk space in the device"

pub record InstallSpec : Type 0 where
  pub target : String
  pub firmware : String
  pub part_table : String
  pub partitions : ElementalPartitions
  pub extra_partitions : PartitionList
  pub no_format : Bool
  pub force : Bool
  pub cloud_init : List String
  pub iso : String
  pub grub_def_entry : String
  pub system : Option ImageSource
  pub recovery_system : Image
  pub snapshot_labels : List (String × String)

-- The loop that counts the extra partitions whose size is 0.
unfoldable pub extra_parts_size_check : PartitionList → ℕ
extra_parts_size_check [] = 0
extra_parts_size_check (p ∷ rest) =
    if p.value.size == 0 then suc (extra_parts_size_check rest) else extra_parts_size_check rest

-- `extraPartsSizeCheck == 1 && i.Partitions.Persistent.Size == 0`: the pointer is followed without a
-- test for nil.
unfoldable pub persistent_clash : ℕ → Option PartitionRef → Result Bool
persistent_clash n persistent =
    if n == 1
    then (elim persistent [ none ↦ panic | some p ↦ ok (p.value.size == 0) ])
    else ok false

-- `InstallSpec.Sanitize`; the completed specification is the result. `fresh` is the address of a
-- partition that it allocates.
unfoldable pub install_sanitize : ℕ → InstallSpec → Result InstallSpec
unfolding check
install_sanitize fresh i = do
  empty ← source_is_empty i.system
  check (empty && i.iso == "") "undefined system source to install"
  check (unmounted i.partitions.state) "undefined state partition"
  recovery ← default_source i.recovery_system i.system
  let count = extra_parts_size_check i.extra_partitions
  check (ltb 1 count) ("more than one extra partition has its size set to 0" <> zero_size_note)
  clash ← persistent_clash count i.partitions.persistent
  check clash
      ("both persistent partition and extra partitions have size set to 0" <> zero_size_note)
  partitions ← set_firmware_partitions fresh i.partitions i.firmware i.part_table
  ok (record i { partitions = partitions; recovery_system = default_label recovery })

pub record ResetSpec : Type 0 where
  pub format_persistent : Bool
  pub format_oem : Bool
  pub cloud_init : List String
  pub grub_def_entry : String
  pub system : Option ImageSource
  pub partitions : ElementalPartitions
  pub snapshot_labels : List (String × String)

-- `ResetSpec.Sanitize`
unfoldable pub reset_sanitize : ResetSpec → Result ResetSpec
unfolding check
reset_sanitize r = do
  empty ← source_is_empty r.system
  check empty "undefined system source to reset to"
  check (unmounted r.partitions.state) "undefined state partition"
  ok r

pub record UpgradeSpec : Type 0 where
  pub recovery_upgrade : Bool
  pub system : Option ImageSource
  pub recovery_system : Image
  pub bootloader_upgrade : Bool
  pub partitions : ElementalPartitions

-- The block under `if u.RecoveryUpgrade`.
unfoldable pub recovery_checks : UpgradeSpec → Result Image
unfolding check
recovery_checks u =
    if u.recovery_upgrade
    then check (unmounted u.partitions.recovery) "undefined recovery partition"
      >> default_source u.recovery_system u.system
    else ok u.recovery_system

-- `UpgradeSpec.Sanitize`
unfoldable pub upgrade_sanitize : UpgradeSpec → Result UpgradeSpec
unfolding check
upgrade_sanitize u = do
  check (unmounted u.partitions.state) "undefined state partition"
  empty ← source_is_empty u.system
  check empty "undefined upgrade source"
  recovery ← recovery_checks u
  check (u.bootloader_upgrade && unmounted u.partitions.boot) "undefined Bootloader partition"
  ok (record u { recovery_system = default_label recovery })

-- `UpgradeSpec.SanitizeForRecoveryOnly`
unfoldable pub upgrade_sanitize_for_recovery_only : UpgradeSpec → Result UpgradeSpec
unfolding check
upgrade_sanitize_for_recovery_only u = do
  check (unmounted u.partitions.state) "undefined state partition"
  check (unmounted u.partitions.recovery) "undefined recovery partition"
  empty ← source_is_empty u.recovery_system.source
  check empty "undefined upgrade-recovery source"
  ok (record u { recovery_system = default_label u.recovery_system })

pub record DiskSpec : Type 0 where
  pub size : ℕ
  pub partitions : ElementalPartitions
  pub expandable : Bool
  pub system : Option ImageSource
  pub recovery_system : Image

-- The loop of `MinDiskSize`, on 64-bit unsigned integers.
unfoldable pub add_sizes : PartitionList → ℕ → ℕ
add_sizes [] min = min
add_sizes (p ∷ rest) min =
    add_sizes rest ((min + (if p.value.size == 0 then 64 else p.value.size)) % 2 ^ 64)

-- `MinDiskSize`
unfoldable pub min_disk_size : DiskSpec → ℕ
unfolding add_sizes partitions_by_install_order
min_disk_size d = add_sizes (partitions_by_install_order d.partitions [] []) 2

-- `DiskSpec.Sanitize`
unfoldable pub disk_sanitize : DiskSpec → Result DiskSpec
unfolding check
disk_sanitize d = do
  empty ← source_is_empty d.system
  check empty "undefined image source"
  recovery ← default_source d.recovery_system d.system
  let completed = record d { recovery_system = default_label recovery }
  check (not (d.size == 0) && (not d.expandable && leb d.size (min_disk_size completed))) (
      "Requested disk size ("
      <> decimal d.size
      <> "MB) is not enough, it should be, at least, of "
      <> decimal (min_disk_size completed))
  ok completed
